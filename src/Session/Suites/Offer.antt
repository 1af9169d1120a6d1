-- ===== src/Session/Suites/Offer.antt =====
-- What buildProposalForSuite offers, as a selection: the suites that it is matched by.
use go_ipsec.Common.{
  ℕ, suc, ◌≡◌, ◌≢◌, refl, sym, ap, ◌∙◌, true, false, not, some, List, [], ◌∷◌, ◌++◌, map, length,
  ltb, ltb-of_le, ◌==◌, ==-of_eq, ==-of_ne, arith, Bool-cases, inl, inr, ◌≤◌,
}
use go_ipsec.Ikemsg.Const.{
  transform_encr, transform_prf, transform_integ, transform_dh, transform_esn,
}
use go_ipsec.Ikemsg.Sa.{Transform, Proposal, by_type}
use go_ipsec.Session.Suites.{
  Layer, esp_layer, ike_layer, TransformSuite, protocol, aead, plain_transform, prf_transforms,
  esn_transforms, integ_transforms, build_proposal_for_suite, key_length_agrees, has_transform,
  layer_matches, integ_matches, suite_matches, layer_narrowed, integ_narrowed, is_selection_for,
}

by_type-append :
    (t : ℕ) (xs ys : List Transform) → by_type t (xs ++ ys) ≡ by_type t xs ++ by_type t ys
unfolding by_type
by_type-append t [] ys = refl
by_type-append t (x ∷ xs) ys = elim (Bool-cases (x.type == t)) [
  | inl same ↦ rw same (ap (λ r. x ∷ r) (by_type-append t xs ys))
  | inr other ↦ rw other (by_type-append t xs ys)
]

-- The transforms for DH groups, seen from the other types.
by_type-groups :
    (t : ℕ) (groups : List ℕ)
    → t ≢ transform_dh
    → by_type t (map (plain_transform transform_dh) groups) ≡ []
unfolding by_type
by_type-groups t [] h = refl
by_type-groups t (g ∷ gs) h = rw (==-of_ne 4 t (λ e. h (sym e))) (by_type-groups t gs h)

by_type-dh :
    (groups : List ℕ)
    → by_type transform_dh (map (plain_transform transform_dh) groups)
      ≡ map (plain_transform transform_dh) groups
unfolding by_type
by_type-dh [] = refl
by_type-dh (g ∷ gs) = ap (λ r. plain_transform transform_dh g ∷ r) (by_type-dh gs)

prf_other : (layer : Layer) (t : ℕ) → t ≢ transform_prf → by_type t (prf_transforms layer) ≡ []
unfolding prf_transforms by_type
prf_other esp_layer t h = refl
prf_other ike_layer t h = rw (==-of_ne 2 t (λ e. h (sym e))) refl

esn_other : (layer : Layer) (t : ℕ) → t ≢ transform_esn → by_type t (esn_transforms layer) ≡ []
unfolding esn_transforms by_type
esn_other esp_layer t h = rw (==-of_ne 5 t (λ e. h (sym e))) refl
esn_other ike_layer t h = refl

integ_other :
    {layer : Layer} (s : TransformSuite layer) (t : ℕ)
    → t ≢ transform_integ
    → by_type t (integ_transforms s) ≡ []
unfolding integ_transforms by_type
integ_other s t h = elim (Bool-cases (aead s)) [
  | inl yes_aead ↦ rw yes_aead refl
  | inr no_aead ↦ rw (no_aead, ==-of_ne 3 t (λ e. h (sym e))) refl
]

prf_own : (layer : Layer) → by_type transform_prf (prf_transforms layer) ≡ prf_transforms layer
unfolding prf_transforms by_type
prf_own esp_layer = refl
prf_own ike_layer = refl

esn_own : (layer : Layer) → by_type transform_esn (esn_transforms layer) ≡ esn_transforms layer
unfolding esn_transforms by_type
esn_own esp_layer = refl
esn_own ike_layer = refl

integ_own :
    {layer : Layer} (s : TransformSuite layer)
    → by_type transform_integ (integ_transforms s) ≡ integ_transforms s
unfolding integ_transforms by_type
integ_own s = elim (Bool-cases (aead s)) [ inl e ↦ rw e refl | inr e ↦ rw e refl ]

module _ {layer : Layer} (number : ℕ) (s : TransformSuite layer) (spi groups : List ℕ) where
  encr_offer : Transform
  encr_offer = record {
    type = transform_encr;
    id = s.encr_id;
    key_length = s.key_bits;
    has_key_length = not (s.key_bits == 0);
  }

  -- The transforms of one type in the proposal, type by type.
  offered : (t : ℕ) → List Transform
  offered t = by_type t (build_proposal_for_suite number s spi groups).transforms

  offered_parts :
      (t : ℕ)
      → offered t
        ≡ by_type t (encr_offer ∷ [])
          ++ (by_type t (prf_transforms layer)
              ++ (by_type t (integ_transforms s)
                  ++ (by_type t (map (plain_transform transform_dh) groups)
                      ++ by_type t (esn_transforms layer))))
  unfolding offered encr_offer build_proposal_for_suite
  offered_parts t =
      by_type-append t (encr_offer ∷ []) _
      ∙ ap (λ r. by_type t (encr_offer ∷ []) ++ r)
          (by_type-append t (prf_transforms layer) _
            ∙ ap (λ r. by_type t (prf_transforms layer) ++ r)
                (by_type-append t (integ_transforms s) _
                  ∙ ap (λ r. by_type t (integ_transforms s) ++ r)
                      (by_type-append t (map (plain_transform transform_dh) groups)
                        (esn_transforms layer))))

  offered_encr : offered transform_encr ≡ encr_offer ∷ []
  unfolding by_type encr_offer
  offered_encr =
      offered_parts 1
      ∙ rw
          (
            prf_other layer 1 (omega arith),
            integ_other s 1 (omega arith),
            by_type-groups 1 groups (omega arith),
            esn_other layer 1 (omega arith),
          )
          refl

  offered_prf : offered transform_prf ≡ prf_transforms layer ++ []
  unfolding by_type encr_offer
  offered_prf =
      offered_parts 2
      ∙ rw
          (
            prf_own layer,
            integ_other s 2 (omega arith),
            by_type-groups 2 groups (omega arith),
            esn_other layer 2 (omega arith),
          )
          refl

  offered_integ : offered transform_integ ≡ integ_transforms s ++ []
  unfolding by_type encr_offer
  offered_integ =
      offered_parts 3
      ∙ rw
          (
            prf_other layer 3 (omega arith),
            integ_own s,
            by_type-groups 3 groups (omega arith),
            esn_other layer 3 (omega arith),
          )
          refl

  offered_dh : offered transform_dh ≡ map (plain_transform transform_dh) groups ++ []
  unfolding by_type encr_offer
  offered_dh =
      offered_parts 4
      ∙ rw
          (
            prf_other layer 4 (omega arith),
            integ_other s 4 (omega arith),
            by_type-dh groups,
            esn_other layer 4 (omega arith),
          )
          refl

  offered_esn : offered transform_esn ≡ esn_transforms layer
  unfolding by_type encr_offer
  offered_esn =
      offered_parts 5
      ∙ rw
          (
            prf_other layer 5 (omega arith),
            integ_other s 5 (omega arith),
            by_type-groups 5 groups (omega arith),
            esn_own layer,
          )
          refl

layer_ok :
    (layer : Layer) (ts : List Transform)
    → by_type transform_prf ts ≡ prf_transforms layer ++ []
    → by_type transform_esn ts ≡ esn_transforms layer
    → (layer_matches layer ts ≡ true) × (layer_narrowed layer ts ≡ true)
unfolding layer_matches layer_narrowed prf_transforms esn_transforms has_transform key_length_agrees
layer_ok esp_layer ts prf esn = rw esn (refl, refl)
layer_ok ike_layer ts prf esn = rw prf (refl, refl)

integ_ok :
    {layer : Layer} (s : TransformSuite layer)
    → (integ_matches s (integ_transforms s ++ []) ≡ true)
      × (integ_narrowed s (integ_transforms s ++ []) ≡ true)
unfolding integ_matches integ_narrowed integ_transforms has_transform key_length_agrees
integ_ok s = elim (Bool-cases (aead s)) [
  | inl e ↦ rw e (refl, refl)
  | inr e ↦ rw (e, ==-of_eq s.integ_id s.integ_id refl) (refl, refl)
]

length-map : {A B : Type 0} (f : A → B) (xs : List A) → length (map f xs ++ []) ≡ length xs
length-map f [] = refl
length-map f (x ∷ xs) = ap suc (length-map f xs)

module _ {layer : Layer} (number : ℕ) (s : TransformSuite layer) (spi groups : List ℕ) where
  encr_ok : has_transform (encr_offer number s spi groups ∷ []) s.encr_id (some s.key_bits) ≡ true
  unfolding has_transform key_length_agrees encr_offer
  encr_ok = elim (Bool-cases (s.key_bits == 0)) [
    | inl e ↦ rw (==-of_eq s.encr_id s.encr_id refl, e) refl
    | inr e ↦ rw (==-of_eq s.encr_id s.encr_id refl, e, ==-of_eq s.key_bits s.key_bits refl) refl
  ]

  proposal : Proposal
  proposal = build_proposal_for_suite number s spi groups

  proposal_protocol : proposal.protocol == protocol layer ≡ true
  unfolding proposal build_proposal_for_suite
  proposal_protocol = ==-of_eq (protocol layer) (protocol layer) refl

  proposal_layer :
      (layer_matches layer proposal.transforms ≡ true)
      × (layer_narrowed layer proposal.transforms ≡ true)
  unfolding proposal offered
  proposal_layer =
      layer_ok layer proposal.transforms (offered_prf number s spi groups)
        (offered_esn number s spi groups)

  -- What is offered for a suite matches it, with any groups.
  pub suite_matches-build : suite_matches s (build_proposal_for_suite number s spi groups) ≡ true
  unfolding suite_matches offered proposal
  suite_matches-build =
      let encr : has_transform (by_type transform_encr proposal.transforms) s.encr_id
            (some s.key_bits)
          ≡ true =
        ap (λ ts. has_transform ts s.encr_id (some s.key_bits)) (offered_encr number s spi groups)
        ∙ encr_ok in
      let integ : integ_matches s (by_type transform_integ proposal.transforms) ≡ true =
        ap (integ_matches s) (offered_integ number s spi groups) ∙ (integ_ok s).0 in
      rw (proposal_protocol, encr, proposal_layer.0, integ) refl

  -- With at most one group it is narrowed to the suite.
  pub is_selection_for-build :
      length groups ≤ 1 → is_selection_for s (build_proposal_for_suite number s spi groups) ≡ true
  unfolding is_selection_for offered proposal
  is_selection_for-build few =
      let one : length (by_type transform_encr proposal.transforms) == 1 ≡ true =
        ap (λ ts. length ts == 1) (offered_encr number s spi groups) in
      let dh : ltb 1 (length (by_type transform_dh proposal.transforms)) ≡ false =
        ap (λ ts. ltb 1 (length ts)) (offered_dh number s spi groups)
        ∙ ltb-of_le 1 _ (omega (arith, few, length-map (plain_transform transform_dh) groups)) in
      let integ : integ_narrowed s (by_type transform_integ proposal.transforms) ≡ true =
        ap (integ_narrowed s) (offered_integ number s spi groups) ∙ (integ_ok s).1 in
      rw (suite_matches-build, one, dh, proposal_layer.1, integ) refl
