-- ===== src/Ikesa/KeyStream.antt =====
-- prf+ beside the key stream of RFC 7296 §2.13, and the split of the stream into keys.
use native.Mathlib.Decide.{dec_lt}
use go_ipsec.Common.{
  ℕ, zero, suc, ◌+◌, ◌-◌, ◌*◌, ◌%◌, ◌≤◌, ◌<◌, ◌≡◌, refl, sym, ap, ◌∙◌, List, [], ◌∷◌, ◌++◌, length,
  take, drop, length-take, length-drop, take-all, length-append, append_assoc, append-nil, arith,
  ltb-of_le, ltb-of_lt, ok, slice-le, run-bind, run-slice,
}
use go_ipsec.Ikesa.{prf_plus_from, prf_plus, ChildKeys, derive_child_keys_pfs}

take-append_le : (n : ℕ) (xs ys : List ℕ) → n ≤ length xs → take n (xs ++ ys) ≡ take n xs
take-append_le zero xs ys h = refl
take-append_le (suc n) [] ys h = absurd (omega arith)
take-append_le (suc n) (x ∷ xs) ys h = ap (λ t. x ∷ t) (take-append_le n xs ys (omega arith))

take-nil : (n : ℕ) → take {A = ℕ} n [] ≡ []
take-nil zero = refl
take-nil (suc n) = refl

drop-nil : (n : ℕ) → drop {A = ℕ} n [] ≡ []
drop-nil zero = refl
drop-nil (suc n) = refl

-- Two slices that meet are one.
slices_meet :
    (off n m off' : ℕ) (xs : List ℕ)
    → off' ≡ off + n
    → take n (drop off xs) ++ take m (drop off' xs) ≡ take (n + m) (drop off xs)
slices_meet zero zero m off' xs e =
    let start : off' ≡ 0 = omega arith in
    let sum : m ≡ zero + m = omega arith in
    ap (λ k. take m (drop k xs)) start ∙ ap (λ k. take k xs) sum
slices_meet zero (suc n) m off' [] e = rw (drop-nil off', take-nil m, take-nil (suc n + m)) refl
slices_meet zero (suc n) m zero (x ∷ xs) e = absurd (omega arith)
slices_meet zero (suc n) m (suc off') (x ∷ xs) e =
    let sum : suc (n + m) ≡ suc n + m = omega arith in
    ap (λ t. x ∷ t) (slices_meet zero n m off' xs (omega arith)) ∙ ap (λ k. take k (x ∷ xs)) sum
slices_meet (suc off) n m off' [] e =
    rw (drop-nil off', take-nil m, take-nil n, take-nil (n + m)) refl
slices_meet (suc off) n m zero (x ∷ xs) e = absurd (omega arith)
slices_meet (suc off) n m (suc off') (x ∷ xs) e = slices_meet off n m off' xs (omega arith)

slice-length :
    (lo hi : ℕ) (xs : List ℕ) → hi ≤ length xs → length (take (hi - lo) (drop lo xs)) ≡ hi - lo
slice-length lo hi xs h = omega (arith, length-take (hi - lo) (drop lo xs), length-drop lo xs)

module _ (hmac : List ℕ → List ℕ → List ℕ) (key seed : List ℕ) where
  -- RFC 7296 §2.13: the next `n` blocks T_i | T_(i+1) | ..., behind the block `prev`, which is empty before T1.
  -- Each is the MAC of the previous block, the seed and its own index in one octet.
  unfoldable pub stream : ℕ → ℕ → List ℕ → List ℕ
  stream zero i prev = []
  stream (suc n) i prev = let t = hmac key (prev ++ (seed ++ i ∷ [])) in t ++ stream n (i + 1) t

  module _ (mac_length : (k m : List ℕ) → length (hmac k m) ≡ 32) where
    pub stream-length : (n i : ℕ) (prev : List ℕ) → length (stream n i prev) ≡ 32 * n
    unfolding stream
    stream-length zero i prev = omega arith
    stream-length (suc n) i prev =
        let t = hmac key (prev ++ (seed ++ i ∷ [])) in
        omega (
          arith,
          length-append t (stream n (i + 1) t),
          mac_length key (prev ++ (seed ++ i ∷ [])),
          stream-length n (i + 1) t,
        )

    next_round :
        (len fuel i : ℕ) (prev out : List ℕ)
        → length out < len
        → i ≤ 255
        → let t = hmac key (prev ++ (seed ++ i ∷ [])) in
          prf_plus_from hmac key seed (suc fuel) len i prev out
          ≡ prf_plus_from hmac key seed fuel len (i + 1) t (out ++ t)
    unfolding prf_plus_from
    next_round len fuel i prev out more fits =
        let octet : i % 256 ≡ i = omega arith in
        rw (ltb-of_lt (length out) len more, ltb-of_le 255 i (omega arith), octet) refl

    loop_reads :
        (len n fuel i : ℕ) (prev out : List ℕ)
        → i + n ≡ 256
        → n < fuel
        → length out + 32 ≡ 32 * i
        → len ≤ 255 * 32
        → (r : List ℕ) × (prf_plus_from hmac key seed fuel len i prev out ≡ ok r)
          × (len ≤ length r)
          × (take len r ≡ take len (out ++ stream n i prev))
    unfolding prf_plus_from stream
    loop_reads len n zero i prev out e h l fits = absurd (omega arith)
    loop_reads len zero (suc fuel) i prev out e h l fits = (
      out,
      rw (ltb-of_le (length out) len (omega arith)) refl,
      omega arith,
      ap (take len) (sym (append-nil out)),
    )
    loop_reads len (suc n) (suc fuel) i prev out e h l fits =
        let t = hmac key (prev ++ (seed ++ i ∷ [])) in
        elim (dec_lt (length out) len) [
          | no done ↦ (
            out,
            rw (ltb-of_le (length out) len (omega arith)) refl,
            omega arith,
            sym (take-append_le len out (t ++ stream n (i + 1) t) (omega arith)),
          )
          | yes more ↦
              let size = mac_length key (prev ++ (seed ++ i ∷ [])) in
              let (r, ran, enough, same) =
                loop_reads len n fuel (i + 1) t (out ++ t) (omega arith) (omega arith)
                  (omega (arith, length-append out t, size)) fits in
              (
                r,
                next_round len fuel i prev out more (omega arith) ∙ ran,
                enough,
                same ∙ ap (take len) (append_assoc out t (stream n (i + 1) t)),
              )
        ]

    -- For at most 255 blocks of output, prf+ gives the first bytes of the key stream T1 | T2 | ... of RFC
    -- 7296, whose blocks are chained with an index of one octet; the guard against more blocks does not
    -- fire. The MAC has 32 bytes.
    pub prf_plus-stream :
        (len : ℕ) → len ≤ 255 * 32 → prf_plus hmac key seed len ≡ ok (take len (stream 255 1 []))
    unfolding prf_plus
    prf_plus-stream len fits =
        let (r, ran, enough, same) =
          loop_reads len 255 257 1 [] [] (omega arith) (omega arith) (omega arith) fits in
        run-bind _ r _ ran (
          slice-le r 0 len (omega arith) enough
          ∙ ap (λ k. ok (take k r)) (omega arith)
          ∙ ap ok same)

-- The four keys of a Child SA, with or without a fresh Diffie-Hellman secret, have the negotiated lengths,
-- and one after the other, outbound before inbound and encryption before integrity, they are the first
-- bytes of the key stream on SK_d and the seed: no byte is used twice or left out. The lengths ask for at
-- most 255 blocks, and the MAC has 32 bytes.
pub derive_child_keys_pfs-split :
    (hmac : List ℕ → List ℕ → List ℕ) (sk_d dh_shared nonce_i nonce_r : List ℕ)
    (encr_len integ_len : ℕ)
    → ((k m : List ℕ) → length (hmac k m) ≡ 32)
    → 2 * (encr_len + integ_len) ≤ 255 * 32
    → let seed = dh_shared ++ (nonce_i ++ nonce_r) in
      (keys : ChildKeys) × (derive_child_keys_pfs hmac sk_d dh_shared nonce_i nonce_r encr_len
          integ_len
        ≡ ok keys)
      × (length keys.encr_ir ≡ encr_len)
      × (length keys.integ_ir ≡ integ_len)
      × (length keys.encr_ri ≡ encr_len)
      × (length keys.integ_ri ≡ integ_len)
      × (keys.encr_ir ++ (keys.integ_ir ++ (keys.encr_ri ++ keys.integ_ri))
          ≡ take (2 * (encr_len + integ_len)) (stream hmac sk_d seed 255 1 []))
unfolding derive_child_keys_pfs
derive_child_keys_pfs-split hmac sk_d dh_shared nonce_i nonce_r e i mac_length fits =
    let seed = dh_shared ++ (nonce_i ++ nonce_r) in
    let total = 2 * (e + i) in
    let ks = take total (stream hmac sk_d seed 255 1 []) in
    let size : length ks ≡ total = omega (
      arith,
      length-take total (stream hmac sk_d seed 255 1 []),
      stream-length hmac sk_d seed mac_length 255 1 [],
    ) in
    let j3 =
      slices_meet (e + i) (e + i + e - (e + i)) (e + i + e + i - (e + i + e)) (e + i + e) ks
        (omega arith) in
    let j2 =
      slices_meet e (e + i - e) (e + i + e - (e + i) + (e + i + e + i - (e + i + e))) (e + i) ks
        (omega arith) in
    let j1 =
      slices_meet 0 (e - 0) (e + i - e + (e + i + e - (e + i) + (e + i + e + i - (e + i + e)))) e ks
        (omega arith) in
    let k = e - 0 + (e + i - e + (e + i + e - (e + i) + (e + i + e + i - (e + i + e)))) in
    let whole : k ≡ total = omega arith in
    (
      record {
        encr_ir = take (e - 0) (drop 0 ks);
        integ_ir = take (e + i - e) (drop e ks);
        encr_ri = take (e + i + e - (e + i)) (drop (e + i) ks);
        integ_ri = take (e + i + e + i - (e + i + e)) (drop (e + i + e) ks);
      },
      run-bind _ ks _ (prf_plus-stream hmac sk_d seed mac_length total fits) (
          run-slice ks 0 e _ _ (omega arith) (omega (arith, size)) refl (
            run-slice ks e (e + i) _ _ (omega arith) (omega (arith, size)) refl (
              run-slice ks (e + i) (e + i + e) _ _ (omega arith) (omega (arith, size)) refl (
                run-slice ks (e + i + e) (e + i + e + i) _ _ (omega arith) (omega (arith, size))
                  refl refl)))),
      omega (arith, slice-length 0 e ks (omega (arith, size))),
      omega (arith, slice-length e (e + i) ks (omega (arith, size))),
      omega (arith, slice-length (e + i) (e + i + e) ks (omega (arith, size))),
      omega (arith, slice-length (e + i + e) (e + i + e + i) ks (omega (arith, size))),
      ap (λ t. take (e - 0) ks ++ (take (e + i - e) (drop e ks) ++ t)) j3
          ∙ ap (λ t. take (e - 0) ks ++ t) j2
          ∙ j1
          ∙ ap (λ n. take n ks) whole
          ∙ take-all total ks (omega (arith, size)),
    )
