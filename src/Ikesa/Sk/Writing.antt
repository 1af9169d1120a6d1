-- ===== src/Ikesa/Sk/Writing.antt =====
-- The sealing of an SK payload returns, for any plaintext and any randomness, and leaves the SA with its ciphers.
use go_ipsec.Common.{
  ℕ, ◌+◌, ◌≤◌, List, length, Option, some, arith, Any, inl, inr, Bool-cases, Ensures, yields,
  Ensures-fail_if, Ensures-fail_if_lt, Ensures-slice, Ensures-bind,
}
use go_ipsec.Crypto.{Primitives, Lawful}
use go_ipsec.Ikesa.Keys.{AeadState, IkeSa, is_aead, outbound_integ_key}
use go_ipsec.Ikesa.Sk.{
  integ, aes_cbc_encrypt, encrypt_cbc_sk, encrypt_to_sk, checksum, seal_message, finalize_sk,
}
use go_ipsec.Ikesa.Sk.Total.{IsKeyed, or_err-Ensures}

module _ (p : Primitives) (laws : Lawful p) where
  encrypt_cbc_sk-Ensures :
      (s : IkeSa p.Aead) (plaintext : List ℕ) (random : Option (List ℕ))
      → Ensures Any (encrypt_cbc_sk p s plaintext random)
  unfolding encrypt_cbc_sk aes_cbc_encrypt
  encrypt_cbc_sk-Ensures s plaintext random =
      Ensures-bind {Q = Any} _ _
        (Ensures-fail_if _ _ _ λ _.
          Ensures-bind {Q = Any} _ _ (or_err-Ensures _ _ λ _ _. tt)
            λ block _. Ensures-bind {Q = Any} _ _ (or_err-Ensures _ _ λ _ _. tt) λ iv _. yields tt)
        λ iv_ct _. yields tt

  pub encrypt_to_sk-Ensures :
      (s : IkeSa p.Aead) (plaintext : List ℕ) (random : Option (List ℕ))
      → IsKeyed s
      → Ensures Any (encrypt_to_sk p s plaintext random).0
        × IsKeyed (encrypt_to_sk p s plaintext random).1
  unfolding encrypt_to_sk
  encrypt_to_sk-Ensures s plaintext random keyed = elim (Bool-cases (is_aead s.suite)) [
    | inl sealed ↦ rw (encrypt_to_sk, sealed) (yields tt, keyed)
    | inr plain ↦ rw (encrypt_to_sk, plain) (encrypt_cbc_sk-Ensures s plaintext random, keyed)
  ]

  checksum-Ensures : (s : IkeSa p.Aead) (msg : List ℕ) → Ensures Any (checksum p s msg)
  unfolding checksum integ
  checksum-Ensures s msg = Ensures-fail_if_lt _ _ _ _ λ long.
      Ensures-slice _ _ _ _ (omega arith) (omega arith) λ signed _.
        Ensures-slice _ _ _ _ (omega arith)
          (omega (arith, laws.hmac_length (outbound_integ_key s) signed)) λ mac _. yields tt

  seal_message-Ensures :
      (a : AeadState p.Aead) (raw : List ℕ) (n : ℕ)
      → n + 32 ≤ length raw
      → 25 ≤ n
      → Ensures Any (seal_message p (some a) raw n)
  unfolding seal_message
  seal_message-Ensures a raw n fits long = Ensures-slice _ _ _ _ (omega arith) (omega arith) λ iv _.
      Ensures-slice _ _ _ _ (omega arith) (omega arith)
        λ pt _. Ensures-slice _ _ _ _ (omega arith) (omega arith) λ ad _. yields tt

  pub finalize_sk-Ensures :
      (s : IkeSa p.Aead) → IsKeyed s → (raw : List ℕ) (n : ℕ) → Ensures Any (finalize_sk p s raw n)
  unfolding finalize_sk
  finalize_sk-Ensures s keyed raw n = elim (Bool-cases (is_aead s.suite)) [
    | inr plain ↦ rw (finalize_sk, plain) (checksum-Ensures s raw)
    | inl sealed ↦
        let (a, e) = keyed sealed in
        rw (finalize_sk, sealed, e)
          (Ensures-fail_if _ _ _
            λ fits. seal_message-Ensures a raw n (ground (arith, fits)) (ground (arith, fits)))
  ]
