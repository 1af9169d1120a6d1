-- ===== src/Session/Suites/Lengths.antt =====
-- What holds of every row of a table holds of the suite that is chosen, and a chosen proposal has an SPI of its
-- protocol's size.
use go_ipsec.Common.{
  ℕ, ◌+◌, ◌*◌, ◌≤◌, ◌≡◌, refl, Bool, true, false, ◌&&◌, ◌||◌, and-left, and-right, Option, none,
  some, Option-cases, List, [], ◌∷◌, All, length, ◌==◌, if◌then◌else◌, arith, inl, inr,
}
use go_ipsec.Ikemsg.Sa.{Proposal}
use go_ipsec.Session.Suites.{
  Layer, esp_layer, TransformSuite, suites, suite_by_id, keep_row, enabled_rows, enabled_suites,
  is_selection_for, selected_suite, spi_len, suite_matches, proposal_has_dh_group, is_acceptable,
  first_acceptable, select_proposal,
}

abbrev pub OnSome : {A : Type 0} → (A → Type 0) → Option A → Type 0
OnSome P none = Unit {0}
OnSome P (some a) = P a

pub OnSome-if :
    {A : Type 0} (P : A → Type 0) (t : Bool) (a : A) (o : Option A)
    → (t ≡ true → P a)
    → OnSome P o
    → OnSome P (if t then some a else o)
OnSome-if P true a o h k = h refl
OnSome-if P false a o h k = k

-- The key stream for the keys of a Child SA is long enough.
abbrev pub IsShort : {layer : Layer} → TransformSuite layer → Type 0
IsShort s = 2 * (s.encr_key_len + s.integ_key_len) ≤ 255 * 32

module _ {layer : Layer} (P : TransformSuite layer → Type 0) where
  suite_by_id-OnSome :
      (id : ℕ) (table : List (TransformSuite layer)) → All P table → OnSome P (suite_by_id id table)
  unfolding suite_by_id
  suite_by_id-OnSome id [] h = tt
  suite_by_id-OnSome id (s ∷ table) h =
      OnSome-if P (s.id == id) s _ (λ _. h.0) (suite_by_id-OnSome id table h.1)

  keep_row-All :
      (o : Option (TransformSuite layer)) (rows : List (TransformSuite layer))
      → OnSome P o
      → All P rows
      → All P (keep_row o rows)
  unfolding keep_row
  keep_row-All none rows h k = k
  keep_row-All (some s) rows h k = (h, k)

  enabled_rows-All :
      (ids : List ℕ) (table : List (TransformSuite layer))
      → All P table
      → All P (enabled_rows ids table)
  unfolding enabled_rows
  enabled_rows-All [] table h = tt
  enabled_rows-All (id ∷ ids) table h =
      keep_row-All _ _ (suite_by_id-OnSome id table h) (enabled_rows-All ids table h)

  pub enabled_suites-All :
      (ids : List ℕ) (table : List (TransformSuite layer))
      → All P table
      → All P (enabled_suites ids table)
  unfolding enabled_suites
  enabled_suites-All ids table h =
      elim (length ids == 0) as (λ t. All P (if t then table else enabled_rows ids table)) [
        | true ↦ h
        | false ↦ enabled_rows-All ids table h
      ]

  pub selected_suite-OnSome :
      (prop : Proposal) (rows : List (TransformSuite layer))
      → All P rows
      → OnSome P (selected_suite prop rows)
  unfolding selected_suite
  selected_suite-OnSome prop [] h = tt
  selected_suite-OnSome prop (s ∷ rows) h =
      OnSome-if P (is_selection_for s prop) s _ (λ _. h.0) (selected_suite-OnSome prop rows h.1)

  -- The size of the SPI, and what holds of the rows.
  abbrev pub HasSpi : Proposal × TransformSuite layer → Type 0
  HasSpi (prop, s) = (length prop.spi ≡ spi_len layer) × P s

  first_acceptable-OnSome :
      (group : ℕ) (s : TransformSuite layer) (ps : List Proposal)
      → OnSome (λ prop. length prop.spi ≡ spi_len layer) (first_acceptable group s ps)
  unfolding first_acceptable is_acceptable
  first_acceptable-OnSome group s [] = tt
  first_acceptable-OnSome group s (prop ∷ ps) =
      OnSome-if (λ x. length x.spi ≡ spi_len layer) (is_acceptable group s prop) prop _
        (λ yes.
          let sized = and-right (suite_matches s prop) (length prop.spi == spi_len layer) (
            and-left (suite_matches s prop && length prop.spi == spi_len layer)
              (group == 0 || proposal_has_dh_group prop group) yes) in
          ground (arith, sized))
        (first_acceptable-OnSome group s ps)

  pub select_proposal-OnSome :
      (ps : List Proposal) (rows : List (TransformSuite layer)) (group : ℕ)
      → All P rows
      → OnSome HasSpi (select_proposal ps rows group)
  unfolding select_proposal
  select_proposal-OnSome ps [] group h = tt
  select_proposal-OnSome ps (s ∷ rows) group h = elim (Option-cases (first_acceptable group s ps)) [
    | inl e ↦ rw (select_proposal, e) (select_proposal-OnSome ps rows group h.1)
    | inr (prop, e) ↦
        let sized : OnSome (λ x. length x.spi ≡ spi_len layer) (first_acceptable group s ps) =
          first_acceptable-OnSome group s ps in
        let fits : length prop.spi ≡ spi_len layer = rw e at sized in
        rw (select_proposal, e) (fits, h.0)
  ]

pub suites-AreShort : All IsShort (suites esp_layer)
suites-AreShort = (omega arith, (omega arith, (omega arith, tt)))
