-- ===== src/Session/Suites/Picked.antt =====
-- The proposal and the suite that selectProposal picks from an offer.
use go_ipsec.Common.{
  ℕ, ◌≡◌, refl, sym, ◌∙◌, ap, false, Option, none, some, List, [], ◌∷◌, ◌++◌, All, Bool-cases, inl,
  inr, ◌⊎◌,
}
use go_ipsec.Ikemsg.Sa.{Proposal}
use go_ipsec.Session.Suites.Acceptable.{IsAcceptable, is_acceptable_sound, is_acceptable_complete}
use go_ipsec.Session.Suites.{
  Layer, TransformSuite, is_acceptable, first_acceptable, select_proposal,
}

-- Among the suites in front of the one that is picked, none has an acceptable proposal.
abbrev pub HasNone : {layer : Layer} → ℕ → List Proposal → TransformSuite layer → Type 0
HasNone group ps s = All (λ p. ¬ (IsAcceptable group s p)) ps

-- What selectProposal picks: the first suite in our order that an offered proposal is acceptable for, with
-- the first such proposal in the peer's order; nothing, if there is none.
pub data Picks {layer : Layer} (group : ℕ) (ps : List Proposal)
    : List (TransformSuite layer) → Option (Proposal × TransformSuite layer) → Type 0 where
  nothing : Picks group ps [] none
  here :
      {s : TransformSuite layer} {rows : List (TransformSuite layer)} {p : Proposal}
      (before after : List Proposal)
      → ps ≡ before ++ p ∷ after
      → HasNone group before s
      → IsAcceptable group s p
      → Picks group ps (s ∷ rows) (some (p, s))
  later :
      {s : TransformSuite layer} {rows : List (TransformSuite layer)}
      {r : Option (Proposal × TransformSuite layer)}
      → HasNone group ps s
      → Picks group ps rows r
      → Picks group ps (s ∷ rows) r

refused :
    {layer : Layer} (group : ℕ) (s : TransformSuite layer) (p : Proposal)
    → is_acceptable group s p ≡ false
    → ¬ (IsAcceptable group s p)
refused group s p no_p a = let clash = sym (is_acceptable_complete group s p a) ∙ no_p in absurd cc

first_acceptable_found :
    {layer : Layer} (group : ℕ) (s : TransformSuite layer) (ps : List Proposal)
    → ((first_acceptable group s ps ≡ none) × HasNone group ps s)
      ⊎ ((p : Proposal) × (before : List Proposal) × (after : List Proposal) × (first_acceptable
              group s ps
            ≡ some p)
          × (ps ≡ before ++ p ∷ after)
          × HasNone group before s
          × IsAcceptable group s p)
unfolding first_acceptable
first_acceptable_found group s [] = inl (refl, tt)
first_acceptable_found group s (p ∷ ps) = elim (Bool-cases (is_acceptable group s p)) [
  | inl yes_p ↦ inr (p, [], ps, rw yes_p refl, refl, tt, is_acceptable_sound group s p yes_p)
  | inr no_p ↦ elim (first_acceptable_found group s ps) [
    | inl (e, all) ↦ inl (rw no_p e, (refused group s p no_p, all))
    | inr (q, before, after, e, split, all, yes_q) ↦ inr (
      q,
      p ∷ before,
      after,
      rw no_p e,
      ap (λ r. p ∷ r) split,
      (refused group s p no_p, all),
      yes_q,
    )
  ]
]

-- From every offer and list of enabled suites, selectProposal picks the first enabled suite that an offered
-- proposal is for, and the first proposal that is: one of the layer's protocol, with an SPI of its size, with the
-- suite's cipher and key length, the layer's PRF or ESN transform, the suite's integrity algorithm, and the
-- required group among its transforms. It picks nothing only if no suite has such a proposal.
pub select_proposal-Picks :
    {layer : Layer} (ps : List Proposal) (rows : List (TransformSuite layer)) (group : ℕ)
    → Picks group ps rows (select_proposal ps rows group)
unfolding select_proposal
select_proposal-Picks ps [] group = nothing
select_proposal-Picks ps (s ∷ rows) group = elim (first_acceptable_found group s ps) [
  | inl (e, all) ↦ rw (select_proposal, e) (later all (select_proposal-Picks ps rows group))
  | inr (p, before, after, e, split, all, yes_p) ↦
      rw (select_proposal, e) (here before after split all yes_p)
]
