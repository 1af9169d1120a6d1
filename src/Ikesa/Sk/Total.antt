-- ===== src/Ikesa/Sk/Total.antt =====
-- The checks and the decryption of an SK payload, on any datagram whatever.
use go_ipsec.Common.{
  ℕ, ◌-◌, ◌≤◌, ◌<◌, ◌≡◌, refl, true, List, length, Option, some, none, arith, ltb, Outcome, Any,
  Ensures, yields, fails, Ensures-fail_if, Ensures-fail_if_lt, Ensures-byte_at, Ensures-slice,
  Ensures-slice_from, Ensures-bind, Ensures-if, or_err, map_err, ==-of_ne, slice-le,
}
use go_ipsec.Crypto.{Primitives, Lawful}
use go_ipsec.Ikesa.Keys.{IkeError, AeadState, IkeSa, is_aead, inbound_integ_key, inbound_encr_key}
use go_ipsec.Ikesa.Sk.{
  strip_padding, integ, aes_cbc_decrypt, verify_checksum, decrypt_sk, unseal_parts, open_message,
  open_sk,
}

-- An SA of an AEAD suite has its ciphers.
abbrev pub IsKeyed : {Aead : Type 0} → IkeSa Aead → Type 0
IsKeyed {Aead = Aead} s = is_aead s.suite ≡ true → (x : AeadState Aead) × (s.aead ≡ some x)

pub or_err-Ensures :
    {E A : Type 0} {P : A → Type 0} (o : Option A) (e : E)
    → ((a : A) → o ≡ some a → P a)
    → Ensures P (or_err o e)
unfolding or_err
or_err-Ensures none e h = fails
or_err-Ensures (some a) e h = yields (h a refl)

pub map_err-Ensures :
    {E F : Type 0} {A : Type 0} {P : A → Type 0} (f : E → F) (m : Outcome E A)
    → Ensures P m
    → Ensures P (map_err f m)
unfolding map_err
map_err-Ensures f m (yields h) = yields h
map_err-Ensures f m fails = fails

strip_padding-Ensures : (padded : List ℕ) → 0 < length padded → Ensures Any (strip_padding padded)
unfolding strip_padding
strip_padding-Ensures padded h = rw (==-of_ne (length padded) 0 (omega arith)) (
    Ensures-byte_at _ _ _ (omega arith) λ n _. Ensures-fail_if_lt _ _ _ _ λ fits.
      rw (slice-le {E = IkeError} padded 0 (length padded - n - 1) (omega arith) (omega arith))
        (yields tt))

module _ (p : Primitives) (laws : Lawful p) where
  verify_checksum-Ensures :
      (s : IkeSa p.Aead) (msg : List ℕ) → Ensures Any (verify_checksum p s msg)
  unfolding verify_checksum integ
  verify_checksum-Ensures s msg =
      Ensures-if (ltb (length msg) 16) _ _ (λ _. yields tt)
        λ long.
          let enough : 16 ≤ length msg = ground arith in
          Ensures-slice_from _ _ _ (omega (arith, enough)) λ _ _.
            Ensures-slice _ _ _ _ (omega arith) (omega arith) λ signed _.
              Ensures-slice _ _ _ _ (omega arith)
                (omega (arith, laws.hmac_length (inbound_integ_key s) signed)) λ _ _. yields tt

  aes_cbc_decrypt-Ensures :
      (key iv_and_ct : List ℕ)
      → Ensures (λ plain. 0 < length plain) (aes_cbc_decrypt p key iv_and_ct)
  unfolding aes_cbc_decrypt
  aes_cbc_decrypt-Ensures key iv_and_ct = Ensures-fail_if_lt _ _ _ _ λ long.
      Ensures-slice _ _ _ _ (omega arith) (omega arith) λ iv _.
        Ensures-slice_from _ _ _ (omega arith) λ ct _. Ensures-fail_if _ _ _ λ whole.
          let some_text : 0 < length ct = ground arith in
          Ensures-bind {Q = Any} _ _ (or_err-Ensures _ _ λ _ _. tt)
            λ block _. yields (omega (arith, laws.cbc_decrypt_length block iv ct, some_text))

  decrypt_sk-Ensures : (s : IkeSa p.Aead) (sk_data : List ℕ) → Ensures Any (decrypt_sk p s sk_data)
  unfolding decrypt_sk
  decrypt_sk-Ensures s sk_data = Ensures-fail_if_lt _ _ _ _ λ long.
      Ensures-slice _ _ _ _ (omega arith) (omega arith) λ iv_ct _.
        Ensures-bind _ _ (aes_cbc_decrypt-Ensures (inbound_encr_key s) iv_ct)
          λ padded h. strip_padding-Ensures padded h

  unseal_parts-Ensures :
      (x : AeadState p.Aead) (raw sk_data : List ℕ)
      → length sk_data ≤ length raw
      → 25 ≤ length sk_data
      → Ensures (λ plain. 0 < length plain) (unseal_parts p (some x) raw sk_data)
  unfolding unseal_parts
  unseal_parts-Ensures x raw sk_data within long =
      Ensures-slice _ _ _ _ (omega arith) (omega arith) λ iv _.
        Ensures-slice_from _ _ _ (omega arith) λ sealed rest.
          Ensures-slice _ _ _ _ (omega arith) (omega arith) λ ad _.
            or_err-Ensures _ _
              λ plain e. omega (arith, long, rest, laws.unseal_length x.in_aead _ sealed ad plain e)

  open_message-Ensures :
      (x : AeadState p.Aead) (raw sk_data : List ℕ)
      → Ensures (λ plain. 0 < length plain) (open_message p (some x) raw sk_data)
  unfolding open_message
  open_message-Ensures x raw sk_data =
      Ensures-fail_if _ _ _
        λ enough. unseal_parts-Ensures x raw sk_data (ground arith) (ground arith)

  -- OpenSK returns a plaintext or an error, on any message and any data.
  pub open_sk-Ensures :
      (s : IkeSa p.Aead)
      → IsKeyed s
      → (raw sk_data : List ℕ) → Ensures Any (open_sk p s raw sk_data)
  unfolding open_sk
  open_sk-Ensures s keyed raw sk_data =
      Ensures-if _ _ _
        (λ aead.
          let (x, e) = keyed aead in
          rw e (
            Ensures-bind _ _ (map_err-Ensures _ _ (open_message-Ensures x raw sk_data))
              λ padded h. map_err-Ensures _ _ (strip_padding-Ensures padded h)))
        λ cbc. Ensures-bind _ _ (map_err-Ensures _ _ (verify_checksum-Ensures s raw)) λ authentic _.
          Ensures-fail_if _ _ _ λ _. map_err-Ensures _ _ (decrypt_sk-Ensures s sk_data)
