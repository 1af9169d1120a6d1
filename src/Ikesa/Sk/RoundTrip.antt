-- ===== src/Ikesa/Sk/RoundTrip.antt =====
-- A message through the protection of one end and the checks of the other, in every suite.
use go_ipsec.Common.{ℕ, ◌≡◌, refl, Option, none, some, List, length, Bool-cases, inl, inr}
use go_ipsec.Crypto.{Primitives, Lawful}
use go_ipsec.Ikesa.Keys.{AeadState, IkeSa, is_aead, outbound_encr_key}
use go_ipsec.Ikesa.Keys.Peers.{AreMirrored, AreSkPeers}
use go_ipsec.Ikesa.Sk.{encrypt_to_sk}
use go_ipsec.Ikesa.Sk.Padding.{HasCipher, Protects}
use go_ipsec.Ikesa.Sk.Checksummed.{cbc-Protects}
use go_ipsec.Ikesa.Sk.Sealed.{aead-Protects}

-- The receiver's AEAD state, where the sender has one.
mirrored :
    {Aead : Type 0} (x : AeadState Aead) (st : Option (AeadState Aead))
    → AreMirrored (some x) st
    → (y : AeadState Aead) × (st ≡ some y) × (x.out_aead ≡ y.in_aead) × (x.out_salt ≡ y.in_salt)
mirrored x none m = absurd m
mirrored x (some y) m = (y, refl, m.0, m.1)

module _ (p : Primitives) (laws : Lawful p) where
  -- What one end protects, its peer opens: encrypting, finalizing behind any 32 octets of header and
  -- opening the result gives the plaintext.
  pub protects :
      (a b : IkeSa p.Aead)
      → AreSkPeers a b
      → HasCipher p a
      → (plain iv : List ℕ) → length iv ≡ 16
      → Protects p b plain (encrypt_to_sk p a plain (some iv))
  protects a b peers cipher plain iv iv_len = elim (Bool-cases (is_aead a.suite)) [
    | inl aead ↦
        let (x, sending) : (x : AeadState p.Aead) × (a.aead ≡ some x) = rw aead at cipher in
        let agrees : AreMirrored (some x) b.aead = rw sending at peers.aead_agrees in
        let (y, receiving, same_cipher, same_salt) = mirrored x b.aead agrees in
        aead-Protects p laws a b peers plain aead x y sending receiving same_cipher same_salt
          (some iv)
    | inr cbc ↦
        let (block, keyed) : (block : p.Block) × (p.aes_new_cipher (outbound_encr_key a)
              ≡ some block) =
          rw cbc at cipher in
        cbc-Protects p laws a b peers plain cbc block keyed iv iv_len
  ]
