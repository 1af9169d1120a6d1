-- ===== src/Session/Suites/Acceptable.antt =====
-- What selectProposal asks of an offered proposal, in terms of its transforms.
use mathlib.Core.Path.{subst}
use go_ipsec.Common.{
  ℕ, ◌≡◌, ◌≢◌, refl, sym, ◌∙◌, true, ◌||◌, none, some, List, All, length, ◌==◌, ==-of_eq,
  Bool-cases, inl, inr, ◌⊎◌,
}
use go_ipsec.Ikemsg.Const.{
  protocol_ike, protocol_esp, transform_encr, transform_prf, transform_integ, transform_dh,
  transform_esn, prf_hmac_sha2_256, esn_none,
}
use go_ipsec.Ikemsg.Sa.{Transform, Proposal, by_type}
use go_ipsec.Session.Suites.{
  Layer, TransformSuite, protocol, spi_len, aead, has_transform, layer_matches, integ_matches,
  suite_matches, proposal_has_dh_group, is_acceptable,
}
use go_ipsec.Session.Suites.Transforms.{
  by_layer, Holds, Has, HasBits, of_number, or_true, all_of, no_integrity, none_counted, with_any,
  any_found, found, counted, bits_read, bits_counted, protocol-by_layer, spi_len-by_layer,
  layer_read, layer_counted,
}

-- The proposal is one for the suite: of the layer's protocol and with an SPI of its size, and with the suite's
-- cipher, the layer's PRF or ESN transform, the suite's integrity algorithm (none at all also for a
-- cipher that needs none) and the group, unless that is 0.
pub record IsAcceptable {layer : Layer} (group : ℕ) (s : TransformSuite layer) (p : Proposal)
    : Type 0 where
  pub of_protocol : p.protocol ≡ by_layer layer protocol_ike protocol_esp
  pub spi_size : length p.spi ≡ by_layer layer 8 4
  pub cipher : Holds p.transforms transform_encr s.encr_id (HasBits s.key_bits)
  pub of_layer :
      Has p.transforms
        (by_layer layer transform_prf transform_esn)
        (by_layer layer prf_hmac_sha2_256 esn_none)
  pub integrity :
      Has p.transforms transform_integ s.integ_id
      ⊎ ((s.integ_id ≡ 0) × All (λ t. t.type ≢ transform_integ) p.transforms)
  pub with_group : (group ≡ 0) ⊎ Has p.transforms transform_dh group

module _ {layer : Layer} (s : TransformSuite layer) (ts : List Transform) where
  abbrev Integrity : Type 0
  Integrity =
      Has ts transform_integ s.integ_id
      ⊎ ((s.integ_id ≡ 0) × All (λ t. t.type ≢ transform_integ) ts)

  integrity_read : integ_matches s (by_type transform_integ ts) ≡ true → Integrity
  unfolding integ_matches aead
  integrity_read h = elim (Bool-cases (s.integ_id == 0)) [
    | inr needed ↦ inl (any_found transform_integ s.integ_id ts (rw needed at h))
    | inl unneeded ↦
        let zero_id = of_number s.integ_id 0 unneeded in
        let h' = rw unneeded at h in
        elim (Bool-cases (length (by_type transform_integ ts) == 0)) [
          | inl bare ↦ inr (zero_id, no_integrity ts bare)
          | inr some_there ↦ inl (
              subst (Has ts transform_integ) (sym zero_id)
                (any_found transform_integ 0 ts (rw some_there at h')))
        ]
  ]

  integrity_counted : Integrity → integ_matches s (by_type transform_integ ts) ≡ true
  unfolding integ_matches aead
  integrity_counted (inl has) = elim (Bool-cases (s.integ_id == 0)) [
    | inr needed ↦ rw (needed, with_any transform_integ s.integ_id ts has) refl
    | inl unneeded ↦
        rw
          (
            unneeded,
            with_any transform_integ 0 ts
                (subst (Has ts transform_integ) (of_number s.integ_id 0 unneeded) has),
          )
          (or_true _)
  ]
  integrity_counted (inr (zero_id, bare)) =
      rw (==-of_eq s.integ_id 0 zero_id, none_counted ts bare) refl

module _ {layer : Layer} (group : ℕ) (s : TransformSuite layer) (p : Proposal) where
  abbrev ts : List Transform
  ts = p.transforms

  group_read :
      group == 0 || has_transform (by_type transform_dh ts) group none ≡ true
      → (group ≡ 0) ⊎ Has ts transform_dh group
  group_read h = elim (Bool-cases (group == 0)) [
    | inl any ↦ inl (of_number group 0 any)
    | inr required ↦ inr (any_found transform_dh group ts (rw required at h))
  ]

  group_counted :
      (group ≡ 0) ⊎ Has ts transform_dh group
      → group == 0 || has_transform (by_type transform_dh ts) group none ≡ true
  group_counted (inl any) = rw (==-of_eq group 0 any) refl
  group_counted (inr has) = rw (with_any transform_dh group ts has) (or_true _)

  pub is_acceptable_sound : is_acceptable group s p ≡ true → IsAcceptable group s p
  unfolding is_acceptable suite_matches proposal_has_dh_group
  is_acceptable_sound h =
      let (of_protocol, encr, of_layer, integ, sized, grouped) =
        all_of (p.protocol == protocol layer)
          (has_transform (by_type transform_encr ts) s.encr_id (some s.key_bits))
          (layer_matches layer ts) (integ_matches s (by_type transform_integ ts))
          (length p.spi == spi_len layer)
          (group == 0 || has_transform (by_type transform_dh ts) group none) h in
      let (t, m, a, b, c) = found transform_encr s.encr_id (some s.key_bits) ts encr in
      record {
        of_protocol = of_number p.protocol (protocol layer) of_protocol ∙ protocol-by_layer layer;
        spi_size = of_number (length p.spi) (spi_len layer) sized ∙ spi_len-by_layer layer;
        cipher = (t, m, a, b, bits_read s.key_bits t c);
        of_layer = layer_read layer ts of_layer;
        integrity = integrity_read s ts integ;
        with_group = group_read grouped;
      }

  pub is_acceptable_complete : IsAcceptable group s p → is_acceptable group s p ≡ true
  unfolding is_acceptable suite_matches proposal_has_dh_group
  is_acceptable_complete x =
      let (t, m, a, b, c) = x.cipher in
      rw
        (
          ==-of_eq p.protocol (protocol layer) (x.of_protocol ∙ sym (protocol-by_layer layer)),
          counted transform_encr s.encr_id (some s.key_bits) ts
              (t, m, a, b, bits_counted s.key_bits t c),
          layer_counted layer ts x.of_layer,
          integrity_counted s ts x.integrity,
          ==-of_eq (length p.spi) (spi_len layer) (x.spi_size ∙ sym (spi_len-by_layer layer)),
          group_counted x.with_group,
        )
        refl
