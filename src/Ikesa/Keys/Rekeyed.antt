-- ===== src/Ikesa/Keys/Rekeyed.antt =====
-- The keys of the two ends of an IKE SA after a rekey with a Diffie-Hellman exchange.
use mathlib.Core.Path.{subst}
use go_ipsec.Common.{ℕ, ◌≡◌, List, ok, bind_related}
use go_ipsec.Crypto.{Primitives}
use go_ipsec.Ikesa.Dh.{DhPrimitives, DhLaws, Randomness, Dh, new_dh, shared}
use go_ipsec.Ikesa.Dh.Agreement.{shared-agrees}
use go_ipsec.Ikesa.Keys.{initiator, responder, SkSuite, IkeSa, derive_rekey_ike}
use go_ipsec.Ikesa.Keys.Peers.{AreSkPeers, derive_from_skeyseed-ArePaired}

module _ (p : Primitives) (q : DhPrimitives) (laws : DhLaws q) where
  same_secret-ArePaired :
      (suite : SkSuite) (old_sk_d : List ℕ) (spii spir : ℕ) (nonce_i nonce_r k : List ℕ)
      (a : IkeSa p.Aead)
      → derive_rekey_ike p suite old_sk_d initiator spii spir nonce_i nonce_r k ≡ ok a
      → (b : IkeSa p.Aead) × (derive_rekey_ike p suite old_sk_d responder spii spir nonce_i nonce_r
            k
          ≡ ok b)
        × (AreSkPeers a b × AreSkPeers b a)
  unfolding derive_rekey_ike
  same_secret-ArePaired suite old_sk_d spii spir nonce_i nonce_r k = bind_related _ _ _ _ (λ u.
      bind_related _ _ _ _ (λ v.
        bind_related _ _ _ _
          (λ w. derive_from_skeyseed-ArePaired p suite spii spir nonce_i nonce_r 0 0 _)))

  -- After a rekey of the IKE SA, each end with its own Diffie-Hellman key: where both come to a secret, and the
  -- end that asked derives its keys, the other derives its own, and what either end protects is under
  -- the keys with which the other opens it, in both directions.
  pub derive_rekey_ike-ArePaired :
      (suite : SkSuite) (old_sk_d : List ℕ) (spii spir : ℕ) (nonce_i nonce_r : List ℕ) (group : ℕ)
      (random_i random_r : Randomness) (x y : Dh) (k l : List ℕ) (a : IkeSa p.Aead)
      → new_dh q group random_i ≡ ok x
      → new_dh q group random_r ≡ ok y
      → shared q x y.public_value ≡ ok k
      → shared q y x.public_value ≡ ok l
      → derive_rekey_ike p suite old_sk_d initiator spii spir nonce_i nonce_r k ≡ ok a
      → (b : IkeSa p.Aead) × (derive_rekey_ike p suite old_sk_d responder spii spir nonce_i nonce_r
            l
          ≡ ok b)
        × (AreSkPeers a b × AreSkPeers b a)
  derive_rekey_ike-ArePaired suite old_sk_d spii spir nonce_i nonce_r group random_i random_r x y k
        l a made_x made_y by_x by_y derived =
      let same : k ≡ l = shared-agrees q laws group random_i random_r made_x made_y by_x by_y in
      subst
        (λ s.
          (b : IkeSa p.Aead) × (derive_rekey_ike p suite old_sk_d responder spii spir nonce_i
              nonce_r s
            ≡ ok b)
          × (AreSkPeers a b × AreSkPeers b a))
        same (same_secret-ArePaired suite old_sk_d spii spir nonce_i nonce_r k a derived)
