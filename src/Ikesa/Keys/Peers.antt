-- ===== src/Ikesa/Keys/Peers.antt =====
-- The keys of the two ends of an IKE SA, derived from the same secrets.
use go_ipsec.Common.{
  ℕ, ◌≡◌, refl, ap, Option, none, some, List, if◌then◌else◌, Bool-cases, inl, inr, Outcome, ok,
  ◌>>=◌, bind_related, bind_values, ok-eq, run-bind,
}
use go_ipsec.Crypto.{Primitives}
use go_ipsec.Ikesa.Keys.{
  IkeError, initiator, responder, SkSuite, is_aead, AeadState, IkeSa, by_role, outbound_integ_key,
  inbound_integ_key, outbound_encr_key, inbound_encr_key, new_aead_state, split_keys,
  derive_from_skeyseed, derive,
}

-- The AEAD state of one end's sending direction is that of the other's receiving one.
abbrev pub AreMirrored :
    {Aead : Type 0} → Option (AeadState Aead) → Option (AeadState Aead) → Type 0
AreMirrored none none = Unit {0}
AreMirrored (some x) (some y) = (x.out_aead ≡ y.in_aead) × (x.out_salt ≡ y.in_salt)
AreMirrored _ _ = ⊥

-- What `a` sends, `b` opens.
pub record AreSkPeers {Aead : Type 0} (a b : IkeSa Aead) : Type 0 where
  pub suite_agrees : a.suite ≡ b.suite
  pub integ_agrees : outbound_integ_key a ≡ inbound_integ_key b
  pub encr_agrees : outbound_encr_key a ≡ inbound_encr_key b
  pub aead_agrees : AreMirrored a.aead b.aead

module _ (p : Primitives) where
  swapped : AeadState p.Aead → AeadState p.Aead
  swapped x = record {
    out_aead = x.in_aead;
    in_aead = x.out_aead;
    out_salt = x.in_salt;
    in_salt = x.out_salt;
  }

  -- The same keys in the other direction.
  new_aead_state_swap :
      (suite : SkSuite) (out in_ : List ℕ) (x : AeadState p.Aead)
      → new_aead_state p suite out in_ ≡ ok x
      → new_aead_state p suite in_ out ≡ ok (swapped x)
  unfolding new_aead_state swapped
  new_aead_state_swap suite out in_ x h = bind_values h (λ k1 e1 h1. bind_values h1 (λ c1 e2 h2.
      bind_values h2 (λ k2 e3 h3. bind_values h3 (λ c2 e4 h4. bind_values h4 (λ s1 e5 h5.
        bind_values h5 (λ s2 e6 h6. run-bind _ k2 _ e3 (
          run-bind _ c2 _ e4 (
            run-bind _ k1 _ e1 (
              run-bind _ c1 _ e2 (
                run-bind _ s2 _ e6
                  (run-bind _ s1 _ e5 (ap (λ y. ok (swapped y)) (ok-eq h6)))))))))))))

  -- The two ends' keys before the AEAD state is built: they differ in the role and the counter.
  AreTwins : SkSuite → ℕ → IkeSa p.Aead → IkeSa p.Aead → Type 0
  AreTwins suite seq a b =
      (b ≡ record a { role = responder; sk_seq = seq })
      × (a.role ≡ initiator)
      × (a.suite ≡ suite)
      × (a.aead ≡ none)

  twins :
      (suite : SkSuite) (seq : ℕ) (s a : IkeSa p.Aead)
      → s ≡ a
      → s.role ≡ initiator
      → s.suite ≡ suite
      → s.aead ≡ none
      → AreTwins suite seq a (record s { role = responder; sk_seq = seq })
  unfolding AreTwins
  twins suite seq s a e h1 h2 h3 = rw (← e) (refl, h1, h2, h3)

  split_keys-AreTwins :
      (suite : SkSuite) (spii spir seq seq' : ℕ) (ks : List ℕ) (a : IkeSa p.Aead)
      → split_keys p suite initiator spii spir seq ks ≡ ok a
      → (b : IkeSa p.Aead) × (split_keys p suite responder spii spir seq' ks ≡ ok b)
        × AreTwins suite seq' a b
  unfolding split_keys AreTwins
  split_keys-AreTwins suite spii spir seq seq' ks = bind_related _ _ _ _ (λ d.
      bind_related _ _ _ _ (λ ai. bind_related _ _ _ _ (λ ar. bind_related _ _ _ _ (λ ei.
        bind_related _ _ _ _ (λ er. bind_related _ _ _ _ (λ pi.
          bind_related _ _ _ _
            (λ pr a h. (_, refl, twins suite seq' _ a (ok-eq h) refl refl refl))))))))

  abbrev pub ArePaired : IkeSa p.Aead → IkeSa p.Aead → Type 0
  ArePaired a b = AreSkPeers a b × AreSkPeers b a

  -- The last step of the derivation: the AEAD state, for a suite that has one.
  finish : SkSuite → IkeSa p.Aead → Outcome IkeError (IkeSa p.Aead)
  finish suite s =
      if is_aead suite
      then (do
        state ← new_aead_state p suite (outbound_encr_key s) (inbound_encr_key s)
        ok (record s { aead = some state }))
      else ok s

  finish-ArePaired :
      (suite : SkSuite) (seq : ℕ) (s t a : IkeSa p.Aead)
      → AreTwins suite seq s t
      → finish suite s ≡ ok a
      → (b : IkeSa p.Aead) × (finish suite t ≡ ok b) × ArePaired a b
  unfolding finish AreTwins outbound_encr_key inbound_encr_key by_role swapped inbound_integ_key
      outbound_integ_key
  finish-ArePaired suite seq s t a (same, role, suite_is, empty) h =
      elim (Bool-cases (is_aead suite)) [
        | inl aead ↦
            rw (same, aead)
              (bind_values (rw aead at h) (λ st made done.
                let keyed : new_aead_state p suite s.sk_ei s.sk_er ≡ ok st = rw role at made in
                rw (← ok-eq done) (
                  record s { role = responder; sk_seq = seq; aead = some (swapped st) },
                  run-bind _ (swapped st) _ (new_aead_state_swap suite _ _ st keyed) refl,
                  (
                    record {
                      suite_agrees = refl;
                      integ_agrees = rw role refl;
                      encr_agrees = rw role refl;
                      aead_agrees = (refl, refl);
                    },
                    record {
                      suite_agrees = refl;
                      integ_agrees = rw role refl;
                      encr_agrees = rw role refl;
                      aead_agrees = (refl, refl);
                    },
                  ),
                )))
        | inr cbc ↦
            let done : ◌≡◌ {A = Outcome IkeError (IkeSa p.Aead)} (ok s) (ok a) = rw cbc at h in
            rw (same, cbc, ← ok-eq done)
              (
                record s { role = responder; sk_seq = seq },
                refl,
                (
                  record {
                    suite_agrees = refl;
                    integ_agrees = rw role refl;
                    encr_agrees = rw role refl;
                    aead_agrees = rw empty tt;
                  },
                  record {
                    suite_agrees = refl;
                    integ_agrees = rw role refl;
                    encr_agrees = rw role refl;
                    aead_agrees = rw empty tt;
                  },
                ),
              )
      ]

  pub derive_from_skeyseed-ArePaired :
      (suite : SkSuite) (spii spir : ℕ) (nonce_i nonce_r : List ℕ) (seq seq' : ℕ)
      (skeyseed : List ℕ) (a : IkeSa p.Aead)
      → derive_from_skeyseed p suite initiator spii spir nonce_i nonce_r seq skeyseed ≡ ok a
      → (b : IkeSa p.Aead) × (derive_from_skeyseed p suite responder spii spir nonce_i nonce_r seq'
            skeyseed
          ≡ ok b)
        × ArePaired a b
  unfolding derive_from_skeyseed finish
  derive_from_skeyseed-ArePaired suite spii spir nonce_i nonce_r seq seq' skeyseed =
      bind_related _ _ _ _ (λ ks a h. bind_values h (λ s cut done.
        let (t, cut', twin) = split_keys-AreTwins suite spii spir seq seq' ks s cut in
        let (b, made, paired) = finish-ArePaired suite seq' s t a twin done in
        (b, run-bind _ t _ cut' made, paired)))

  -- If one end derives its keys, the other derives its own from the same SPIs, nonces and shared secret,
  -- and what either end protects is under the keys with which the other opens it, in both directions.
  pub derive-ArePaired :
      (suite : SkSuite) (spii spir : ℕ) (nonce_i nonce_r : List ℕ) (seq seq' : ℕ) (shared : List ℕ)
      (a : IkeSa p.Aead)
      → derive p suite initiator spii spir nonce_i nonce_r seq shared ≡ ok a
      → (b : IkeSa p.Aead) × (derive p suite responder spii spir nonce_i nonce_r seq' shared ≡ ok b)
        × (AreSkPeers a b × AreSkPeers b a)
  unfolding derive
  derive-ArePaired suite spii spir nonce_i nonce_r seq seq' shared = bind_related _ _ _ _ (λ u.
      bind_related _ _ _ _
        (λ v. derive_from_skeyseed-ArePaired suite spii spir nonce_i nonce_r seq seq' _))
