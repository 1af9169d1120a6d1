-- ===== src/Ikesa/Keys/Total.antt =====
-- The derivation of the keys of an IKE SA returns, and leaves an SA with its ciphers.
use go_ipsec.Common.{
  ℕ, ◌+◌, ◌*◌, ◌≤◌, ◌≡◌, refl, List, [], length, length-take, arith, Any, inl, inr, Bool-cases,
  Ensures, yields, fails, Ensures-fail_if, Ensures-slice, Ensures-slice_from, Ensures-bind,
  Ensures-if, lift,
}
use go_ipsec.Crypto.{Primitives, Lawful}
use go_ipsec.Ikesa.{prf_plus}
use go_ipsec.Ikesa.KeyStream.{stream, stream-length, prf_plus-stream}
use go_ipsec.Ikesa.Keys.{
  IkeError, Role, SkSuite, sk_aes_gcm256, sk_chacha20_poly1305, sk_aes_cbc256_sha256, sk_unknown,
  is_aead, key_lens, IkeSa, new_sk_aead, new_aead_state, split_keys, derive_from_skeyseed,
  derive_rekey_ike, outbound_encr_key, inbound_encr_key, by_role, initiator, responder,
}
use go_ipsec.Ikesa.Sk.Total.{IsKeyed, or_err-Ensures}

-- What the derivation cuts for the encryption keys.
record HasEncrKeys {Aead : Type 0} (suite : SkSuite) (s : IkeSa Aead) : Type 0 where
  same_suite : s.suite ≡ suite
  ei_length : length s.sk_ei ≡ (key_lens suite).0
  er_length : length s.sk_er ≡ (key_lens suite).0

key_lens_bound :
    (suite : SkSuite)
    → (32 ≤ (key_lens suite).0) × ((key_lens suite).0 ≤ 36) × ((key_lens suite).1 ≤ 32)
unfolding key_lens
key_lens_bound suite = elim (Bool-cases (is_aead suite)) [
  | inl sealed ↦ rw (key_lens, sealed) (omega arith, omega arith, omega arith)
  | inr plain ↦ rw (key_lens, plain) (omega arith, omega arith, omega arith)
]

module _ (p : Primitives) (laws : Lawful p) where
  split_keys-Ensures :
      (suite : SkSuite) (role : Role) (spii spir seq : ℕ) (ks : List ℕ)
      → length ks ≡ 32 + 2 * (key_lens suite).1 + 2 * (key_lens suite).0 + 64
      → Ensures (HasEncrKeys suite) (split_keys p suite role spii spir seq ks)
  unfolding split_keys
  split_keys-Ensures suite role spii spir seq ks size =
      let e = (key_lens suite).0 in
      let i = (key_lens suite).1 in
      Ensures-slice _ _ _ _ (omega arith) (omega (arith, size)) λ sk_d _.
        Ensures-slice _ _ _ _ (omega arith) (omega (arith, size)) λ sk_ai _.
          Ensures-slice _ _ _ _ (omega arith) (omega (arith, size)) λ sk_ar _.
            Ensures-slice _ _ _ _ (omega arith) (omega (arith, size)) λ sk_ei ei.
              Ensures-slice _ _ _ _ (omega arith) (omega (arith, size)) λ sk_er er.
                Ensures-slice _ _ _ _ (omega arith) (omega (arith, size)) λ sk_pi _.
                  Ensures-slice _ _ _ _ (omega arith) (omega (arith, size)) λ sk_pr _.
                    yields (record {
                      same_suite = refl;
                      ei_length = omega (arith, ei);
                      er_length = omega (arith, er);
                    })

  new_sk_aead-Ensures : (suite : SkSuite) (key : List ℕ) → Ensures Any (new_sk_aead p suite key)
  unfolding new_sk_aead
  new_sk_aead-Ensures sk_aes_gcm256 key =
      Ensures-bind {Q = Any} _ _ (or_err-Ensures _ _ λ _ _. tt)
        λ block _. or_err-Ensures _ _ λ _ _. tt
  new_sk_aead-Ensures sk_chacha20_poly1305 key = or_err-Ensures _ _ λ _ _. tt
  new_sk_aead-Ensures sk_aes_cbc256_sha256 key = fails
  new_sk_aead-Ensures (sk_unknown n) key = fails

  new_aead_state-Ensures :
      (suite : SkSuite) (out in_ : List ℕ)
      → length out ≡ (key_lens suite).0
      → length in_ ≡ (key_lens suite).0
      → Ensures Any (new_aead_state p suite out in_)
  unfolding new_aead_state
  new_aead_state-Ensures suite out in_ ho hi =
      let bound = key_lens_bound suite in
      Ensures-slice _ _ _ _ (omega arith) (omega (arith, ho)) λ out_key _.
        Ensures-bind _ _ (new_sk_aead-Ensures suite out_key) λ out_aead _.
          Ensures-slice _ _ _ _ (omega arith) (omega (arith, hi)) λ in_key _.
            Ensures-bind _ _ (new_sk_aead-Ensures suite in_key) λ in_aead _.
              Ensures-slice_from _ _ _ (omega (arith, ho))
                λ out_salt _. Ensures-slice_from _ _ _ (omega (arith, hi)) λ in_salt _. yields tt

  keys_of_role :
      (role : Role) (suite : SkSuite) (own other : List ℕ)
      → length own ≡ (key_lens suite).0
      → length other ≡ (key_lens suite).0
      → length (by_role role own other) ≡ (key_lens suite).0
  unfolding by_role
  keys_of_role initiator suite own other ho h = ho
  keys_of_role responder suite own other ho h = h

  prf_plus-Ensures :
      (key seed : List ℕ) (len : ℕ)
      → len ≤ 255 * 32
      → Ensures (λ ks. length ks ≡ len) (lift {E = IkeError} (prf_plus p.hmac_sha256 key seed len))
  unfolding lift
  prf_plus-Ensures key seed len fits =
      rw (prf_plus-stream p.hmac_sha256 key seed laws.hmac_length len fits) (
        yields (
          omega (
            arith,
            length-take len (stream p.hmac_sha256 key seed 255 1 []),
            stream-length p.hmac_sha256 key seed laws.hmac_length 255 1 [],
          )))

  derive_from_skeyseed-Ensures :
      (suite : SkSuite) (role : Role) (spii spir : ℕ) (nonce_i nonce_r : List ℕ) (seq : ℕ)
      (skeyseed : List ℕ)
      → Ensures IsKeyed (derive_from_skeyseed p suite role spii spir nonce_i nonce_r seq skeyseed)
  unfolding derive_from_skeyseed outbound_encr_key inbound_encr_key
  derive_from_skeyseed-Ensures suite role spii spir nonce_i nonce_r seq skeyseed =
      let bound = key_lens_bound suite in
      Ensures-bind _ _ (prf_plus-Ensures skeyseed _ _ (omega (arith, bound))) λ ks size.
        Ensures-bind _ _ (split_keys-Ensures suite role spii spir seq ks size) λ s cut.
          Ensures-if (is_aead suite) _ _
            (λ sealed.
              Ensures-bind _ _
                (new_aead_state-Ensures suite _ _
                  (keys_of_role s.role suite s.sk_ei s.sk_er cut.ei_length cut.er_length)
                  (keys_of_role s.role suite s.sk_er s.sk_ei cut.er_length cut.ei_length))
                λ state _. yields (λ _. (state, refl)))
            (λ plain. yields (λ sealed. absurd (let same = cut.same_suite in cc)))

  pub derive_rekey_ike-Ensures :
      (suite : SkSuite) (old_sk_d : List ℕ) (role : Role) (spii spir : ℕ)
      (nonce_i nonce_r secret : List ℕ)
      → Ensures IsKeyed (derive_rekey_ike p suite old_sk_d role spii spir nonce_i nonce_r secret)
  unfolding derive_rekey_ike
  derive_rekey_ike-Ensures suite old_sk_d role spii spir nonce_i nonce_r secret =
      Ensures-fail_if _ _ _ λ _. Ensures-fail_if _ _ _ λ _.
        Ensures-fail_if _ _ _
          λ _. derive_from_skeyseed-Ensures suite role spii spir nonce_i nonce_r 0 _
