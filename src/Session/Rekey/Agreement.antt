-- ===== src/Session/Rekey/Agreement.antt =====
-- The two ends of a Child SA rekey, each of which runs this code.
use mathlib.Core.Path.{subst}
use mathlib.Core.List.{Memᴰ}
use go_ipsec.Common.{
  ℕ, ◌≤◌, ◌≡◌, refl, sym, ap, ◌∙◌, Bool, true, false, Option, none, some, some-eq, List, All,
  length, ◌==◌, arith, ok, map_err, fail_if, ◌>>=◌, bind_values, ok-eq, uint32_at, inl, inr,
}
use go_ipsec.Crypto.{Primitives}
use go_ipsec.Ikemsg.Sa.{Proposal}
use go_ipsec.Ikemsg.Simple.{KePayload}
use go_ipsec.Ikesa.{ChildKeys}
use go_ipsec.Ikesa.Dh.{DhPrimitives, DhLaws, Randomness, Dh, modp_side, x25519_side, new_dh, shared}
use go_ipsec.Ikesa.Dh.Agreement.{shared-agrees, new_dh-cases}
use go_ipsec.Session.Suites.{
  esp_layer, TransformSuite, suites, enabled_suites, build_proposal_for_suite, build_proposals,
}
use go_ipsec.Session.Child.{ChildSaUpdate}
use go_ipsec.Session.Window.{ChildRekey}
use go_ipsec.Session.Act.{DriverError, dh}
use go_ipsec.Session.Rekey.Payloads.{ChildRequest, child_rekey_request_payloads}
use go_ipsec.Session.Rekey.Negotiation.{
  ke_group, child_offer, child_answer, chosen, choose, initiator_update, responder_update, make_dh,
  initiator_keys, child_result, responder_keys, responder_dh, responder_secret,
}
use go_ipsec.Session.Rekey.Messages.{
  ke_sent, offered, response, child_rekey_response-child_answer, map_err-ok, proposals_from-spi,
  chosen_of_offer,
}

-- What one end installs fits what the other end does: each sends with the SPI and the keys that the other reads.
pub record Mirrors (u v : ChildSaUpdate) : Type 0 where
  pub spi_out : u.new_out_spi ≡ v.new_in_spi
  pub spi_in : u.new_in_spi ≡ v.new_out_spi
  pub same_suite : u.suite ≡ v.suite
  pub encr_out : u.out_encr ≡ v.in_encr
  pub integ_out : u.out_integ ≡ v.in_integ
  pub encr_in : u.in_encr ≡ v.out_encr
  pub integ_in : u.in_integ ≡ v.out_integ

module _ (p : Primitives) (q : DhPrimitives) where
  make_dh-some :
      (t : Bool) (group : ℕ) (random : Randomness) {a : Dh}
      → make_dh p q t group random ≡ ok (some a)
      → new_dh q group random ≡ ok a
  unfolding make_dh
  make_dh-some true group random e =
      bind_values e (λ x made kept. map_err-ok dh _ _ made ∙ ap ok (some-eq (ok-eq kept)))
  make_dh-some false group random e = absurd (let same = ok-eq e in cc)

  make_dh-true :
      (group : ℕ) (random : Randomness) {d : Option Dh}
      → make_dh p q true group random ≡ ok d
      → (a : Dh) × (d ≡ some a)
  unfolding make_dh
  make_dh-true group random e = bind_values e (λ x made kept. (x, sym (ok-eq kept)))

  group-new_dh :
      (laws : DhLaws q) (group : ℕ) (random : Randomness) (a : Dh)
      → new_dh q group random ≡ ok a
      → a.group ≡ group
  unfolding modp_side x25519_side
  group-new_dh laws group random a e = elim (new_dh-cases q laws group random e) [
    | inl (n, g, made) ↦ ap (λ d. d.group) made ∙ sym g
    | inr (k, g, made) ↦ ap (λ d. d.group) made ∙ sym g
  ]

  responder_secret-some :
      (a : Dh) (k : KePayload) {secret : Option (List ℕ)}
      → responder_secret p q (some a) (some k) ≡ ok secret
      → (x : List ℕ) × (secret ≡ some x) × (shared q a k.bytes ≡ ok x)
  unfolding responder_secret
  responder_secret-some a k e =
      bind_values e (λ x made kept. (x, sym (ok-eq kept), map_err-ok dh _ _ made))

  module _ (laws : DhLaws q) (sk_d nr : List ℕ) (c : ChildRekey) (prop : Proposal)
      (suite : TransformSuite esp_layer) (spi : List ℕ) {keys : ChildKeys} where
    -- The keys of the two ends are the same.
    keys_agree :
        (pfs : Bool) (group : ℕ) (random_i random_r : Randomness) (own d : Option Dh)
        {secret secret' : Option (List ℕ)}
        → make_dh p q pfs group random_i ≡ ok own
        → responder_dh p q (ke_sent own) random_r ≡ ok d
        → responder_secret p q d (ke_sent own) ≡ ok secret
        → responder_secret p q own (ke_sent d) ≡ ok secret'
        → responder_keys p q sk_d secret c.ni nr suite ≡ ok keys
        → initiator_keys p q sk_d c own (ke_sent d) (response prop suite spi nr d) ≡ ok keys
    unfolding responder_dh responder_secret responder_keys initiator_keys fail_if map_err ◌>>=◌
    keys_agree pfs group random_i random_r none none made answered theirs ours e =
        let e' = rw (sym (ok-eq theirs)) at e in e'
    keys_agree pfs group random_i random_r none (some b) made answered theirs ours e =
        absurd (let same = ok-eq answered in cc)
    keys_agree pfs group random_i random_r (some a) none made answered theirs ours e =
        absurd (let (x, there) = make_dh-true _ _ answered in cc)
    keys_agree pfs group random_i random_r (some a) (some b) made answered theirs ours e =
        let new_a = make_dh-some pfs group random_i made in
        let at_a = group-new_dh laws group random_i a new_a in
        let new_b = make_dh-some true a.group random_r answered in
        let at_b = group-new_dh laws a.group random_r b new_b in
        let (l, is_l, by_b) =
          responder_secret-some b (record { group = a.group; bytes = a.public_value }) theirs in
        let (k, is_k, by_a) =
          responder_secret-some a (record { group = b.group; bytes = b.public_value }) ours in
        let same : k ≡ l =
          shared-agrees q laws a.group random_i random_r
            (subst (λ g. new_dh q g random_i ≡ ok a) (sym at_a) new_a) new_b by_a by_b in
        let e' = rw is_l at e in
        let grp : (b.group == a.group) ≡ true = ground (arith, at_b) in
        rw (initiator_keys, grp, by_a, same) e'

module _ (p : Primitives) (q : DhPrimitives) (laws : DhLaws q) where
  -- Two ends of a Child SA rekey come to SAs that fit each other, with or without a Diffie-Hellman exchange: if one
  -- end offers a new SA, and the other reads the offer, chooses a suite that the first has enabled, and makes its
  -- keys, then the first end makes of the answer the same keys, the same suite and mirrored SPIs, where it can
  -- combine the public value of the answer with its own key.
  pub child_result-Mirrors :
      (configured : List ℕ) (c : ChildRekey) (old_spi : Option ℕ) (new_spi : List ℕ)
      (offers_v6 : Bool) (pfs : Bool) (group : ℕ) (random_i random_r : Randomness) (sk_d : List ℕ)
      (theirs : List (TransformSuite esp_layer)) (r : ChildRequest) (prop : Proposal)
      (suite : TransformSuite esp_layer) (d : Option Dh) (secret own_secret : Option (List ℕ))
      (spi nr : List ℕ) (answers_v6 : Bool) (in_spi out_spi old_in_spi : ℕ) (keys : ChildKeys)
      → uint32_at {E = DriverError} new_spi 0 ≡ ok c.new_in_spi
      → make_dh p q pfs group random_i ≡ ok c.dh
      → child_rekey_request_payloads (
          child_offer
            (enabled_suites configured (suites esp_layer))
            old_spi
            new_spi
            c.ni
            c.dh
            offers_v6)
        ≡ ok r
      → choose r.offers theirs (ke_group r.ke_request) ≡ chosen prop suite
      → Memᴰ suite (enabled_suites configured (suites esp_layer))
      → responder_dh p q r.ke_request random_r ≡ ok d
      → responder_secret p q d r.ke_request ≡ ok secret
      → uint32_at {E = DriverError} prop.spi 0 ≡ ok out_spi
      → uint32_at {E = DriverError} spi 0 ≡ ok in_spi
      → length spi ≡ 4
      → 1 ≤ length nr
      → responder_keys p q sk_d secret r.request_nonce nr suite ≡ ok keys
      → responder_secret p q c.dh (ke_sent d) ≡ ok own_secret
      → (u : ChildSaUpdate) × (child_result p q
            (enabled_suites configured (suites esp_layer))
            sk_d
            c
            (child_answer r prop suite spi nr d answers_v6)
          ≡ ok (u, keys))
        × Mirrors u (responder_update in_spi out_spi old_in_spi suite.id keys)
  unfolding child_result ◌>>=◌ build_proposal_for_suite initiator_update responder_update
      build_proposals
  child_result-Mirrors configured c old_spi new_spi offers_v6 pfs group random_i random_r sk_d
        theirs r prop suite d secret own_secret spi nr answers_v6 in_spi out_spi old_in_spi keys
        at_new made read picked enabled answered shared_r at_out at_in size long derived shared_i =
      let rows = enabled_suites configured (suites esp_layer) in
      let (offers, nonce, ke) = offered rows old_spi new_spi c.ni c.dh offers_v6 read in
      let same_spi : prop.spi ≡ new_spi =
        chosen_of_offer (λ x. x.spi ≡ new_spi) r.offers theirs _
          (subst (All (λ x. x.spi ≡ new_spi)) (sym offers) (proposals_from-spi 0 new_spi rows _))
          picked in
      let agreed =
        keys_agree p q laws sk_d nr c prop suite spi pfs group random_i random_r c.dh d made
          (rw ke at answered) (rw ke at shared_r) shared_i (rw nonce at derived) in
      let response_read =
        child_rekey_response-child_answer configured r prop suite spi nr d answers_v6 enabled size
          long in
      (
        initiator_update c in_spi suite.id keys,
        rw (child_result, response_read, at_in, agreed) refl,
        record {
          spi_out = refl;
          spi_in =
              ok-eq
                (sym at_new ∙ (ap (λ x. uint32_at {E = DriverError} x 0) (sym same_spi) ∙ at_out));
          same_suite = refl;
          encr_out = refl;
          integ_out = refl;
          encr_in = refl;
          integ_in = refl;
        },
      )
