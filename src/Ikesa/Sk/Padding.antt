-- ===== src/Ikesa/Sk/Padding.antt =====
-- The RFC 7296 padding, and what the two ends of a protected message share.
use go_ipsec.Common.{
  ℕ, zero, suc, ◌+◌, ◌-◌, ◌%◌, ◌≤◌, ◌<◌, ◌≡◌, refl, sym, ap, ◌∙◌, some, List, [], ◌∷◌, ◌++◌, length,
  get_or, length-append, take-append, append_assoc, get_or-append_ge, arith, ==-of_ne,
  if◌then◌else◌, Outcome, ok, byte_at-lt, slice-le, run-bind, run-fail_if_lt,
}
use go_ipsec.Crypto.{Primitives}
use go_ipsec.Ikesa.Keys.{IkeError, AeadState, IkeSa, is_aead, outbound_encr_key}
use go_ipsec.Ikesa.Sk.{sk_padding, pad_plaintext, strip_padding, finalize_sk, open_sk}

length-sk_padding : (k i : ℕ) → length (sk_padding k i) ≡ k
unfolding sk_padding
length-sk_padding zero i = refl
length-sk_padding (suc k) i = ap suc (length-sk_padding k (i + 1))

last_octet : (xs : List ℕ) (n : ℕ) → get_or (xs ++ n ∷ []) (length (xs ++ n ∷ []) - 1) 0 ≡ n
last_octet xs n =
    let all = length-append xs (n ∷ []) in
    let zeroth : length (xs ++ n ∷ []) - 1 - length xs ≡ 0 = omega (arith, all) in
    get_or-append_ge xs (n ∷ []) (length (xs ++ n ∷ []) - 1) 0 (omega (arith, all))
    ∙ ap (λ k. get_or (n ∷ []) k 0) zeroth

-- The trailer comes off, whatever the pad octets.
pub strip_padding_run :
    (plain pad : List ℕ) (n : ℕ)
    → length pad ≡ n
    → strip_padding (plain ++ (pad ++ n ∷ [])) ≡ ok plain
unfolding strip_padding
strip_padding_run plain pad n e =
    let whole = plain ++ (pad ++ n ∷ []) in
    let all = length-append plain (pad ++ n ∷ []) in
    let tail = length-append pad (n ∷ []) in
    let front = append_assoc plain pad (n ∷ []) in
    let last : get_or whole (length whole - 1) 0 ≡ n =
      rw (sym front) (last_octet (plain ++ pad) n) in
    rw (==-of_ne (length whole) 0 (omega (arith, all, tail))) (
      run-bind _ n _ (byte_at-lt whole (length whole - 1) (omega (arith, all, tail)) ∙ ap ok last) (
        run-fail_if_lt _ _ _ _ (omega (arith, all, tail)) (
          slice-le whole 0 (length whole - n - 1) (omega arith) (omega arith)
          ∙ ap ok (
              take-append (length whole - n - 1 - 0) plain (pad ++ n ∷ [])
                (omega (arith, all, tail))))))

pub pad_plaintext-strip : (plain : List ℕ) → strip_padding (pad_plaintext plain) ≡ ok plain
unfolding pad_plaintext
pad_plaintext-strip plain =
    let n = (16 - (length plain + 1) % 16) % 16 in
    let small : n % 256 ≡ n = omega arith in
    rw small (strip_padding_run plain (sk_padding n 1) n (length-sk_padding n 1))

pub pad_plaintext-whole :
    (plain : List ℕ)
    → let n = length (pad_plaintext plain) in (n % 16 ≡ 0) × (0 < n) × (n ≤ length plain + 16)
unfolding pad_plaintext
pad_plaintext-whole plain =
    let n = (16 - (length plain + 1) % 16) % 16 in
    let all = length-append plain (sk_padding n 1 ++ (n % 256) ∷ []) in
    let tail = length-append (sk_padding n 1) ((n % 256) ∷ []) in
    let pads = length-sk_padding n 1 in
    (omega (arith, all, tail, pads), omega (arith, all, tail, pads), omega (arith, all, tail, pads))

-- The cipher of the sending direction is there: built with the SA for an AEAD suite, and from the key on
-- each call for the CBC suite.
abbrev pub HasCipher : (p : Primitives) → IkeSa p.Aead → Type 0
HasCipher p a =
    if is_aead a.suite
    then ((st : AeadState p.Aead) × (a.aead ≡ some st))
    else ((block : p.Block) × (p.aes_new_cipher (outbound_encr_key a) ≡ some block))

-- What encrypt_to_sk, finalize_sk and open_sk make of the plaintext, behind any header.
abbrev pub Protects :
    (p : Primitives) → IkeSa p.Aead → List ℕ → Outcome IkeError (List ℕ) × IkeSa p.Aead → Type 0
Protects p b plain sent =
    (body : List ℕ) × (sent.0 ≡ ok body)
    × (length body ≤ length plain + 48)
    × ((header : List ℕ)
        → length header ≡ 32
        → (final : List ℕ) × (length final ≡ length body)
          × (finalize_sk p sent.1 (header ++ body) (length body) ≡ ok (header ++ final))
          × (open_sk p b (header ++ final) final ≡ ok plain))
