-- ===== src/Session/Suites/Choice.antt =====
-- The suite that a selection stands for, and the proposal that is picked from an offer.
use mathlib.Core.List.{Memᴰ}
use mathlib.Core.List.Memᴰ.{head, tail}
use mathlib.Core.Path.{subst}
use go_ipsec.Common.{
  ℕ, suc, ◌<◌, ◌≡◌, refl, sym, ap, ◌∙◌, Bool, true, false, ◌&&◌, ◌||◌, and-left, and-right, Option,
  none, some, some-eq, Option-cases, List, [], ◌∷◌, map, All, length, ◌==◌, ==-of_ne, if◌then◌else◌,
  arith, Bool-cases, inl, inr, ◌≤◌,
}
use go_ipsec.Ikemsg.Const.{transform_encr}
use go_ipsec.Ikemsg.Sa.{Transform, Proposal, by_type}
use go_ipsec.Session.Suites.{
  Layer, TransformSuite, suites, suite_by_id, keep_row, enabled_rows, enabled_suites, check_suites,
  build_proposal_for_suite, key_length_agrees, has_transform, suite_matches, is_selection_for,
  selected_suite,
}
use go_ipsec.Session.Suites.Offer.{is_selection_for-build}

==-eq : (a b : ℕ) → a == b ≡ true → a ≡ b
==-eq a b h = ground arith

-- A Key Length attribute, or its absence, agrees with one number only.
key_length_agrees_unique :
    (x : Transform) (j k : ℕ)
    → key_length_agrees (some j) x ≡ true
    → key_length_agrees (some k) x ≡ true
    → j ≡ k
unfolding key_length_agrees
key_length_agrees_unique x j k hj hk = ground arith

or-false : (b : Bool) → b || false ≡ true → b ≡ true
or-false true h = refl
or-false false h = h

single_has :
    (x : Transform) (i j : ℕ)
    → has_transform (x ∷ []) i (some j) ≡ true
    → (x.id ≡ i) × (key_length_agrees (some j) x ≡ true)
unfolding has_transform
single_has x i j h =
    let both = or-false (x.id == i && key_length_agrees (some j) x) h in
    (==-eq x.id i (and-left _ _ both), and-right _ _ both)

-- The only ENCR transform of a selection is that of the suite.
single_encr :
    (ts : List Transform) (i j k l : ℕ)
    → length ts == 1 ≡ true
    → has_transform ts i (some j) ≡ true
    → has_transform ts k (some l) ≡ true
    → (i ≡ k) × (j ≡ l)
single_encr [] i j k l one h1 h2 = cc
single_encr (x ∷ []) i j k l one h1 h2 =
    let (ei, kj) = single_has x i j h1 in
    let (ek, kl) = single_has x k l h2 in (sym ei ∙ ek, key_length_agrees_unique x j l kj kl)
single_encr (x ∷ y ∷ ts) i j k l one h1 h2 = absurd (ground arith)

module _ {layer : Layer} (p : Proposal) where
  selection_encr :
      (s : TransformSuite layer)
      → is_selection_for s p ≡ true
      → (length (by_type transform_encr p.transforms) == 1 ≡ true)
        × (has_transform (by_type transform_encr p.transforms) s.encr_id (some s.key_bits) ≡ true)
  unfolding is_selection_for suite_matches
  selection_encr s h =
      let four = and-left _ _ h in
      let three = and-left _ _ four in
      let two = and-left _ _ three in
      (and-right _ _ two, and-right _ _ (and-left _ _ (and-left _ _ (and-left _ _ two))))

  -- A proposal is a selection for suites of one cipher with one key length.
  pub is_selection_for_unique :
      (s t : TransformSuite layer)
      → is_selection_for s p ≡ true
      → is_selection_for t p ≡ true
      → (s.encr_id ≡ t.encr_id) × (s.key_bits ≡ t.key_bits)
  is_selection_for_unique s t hs ht =
      let (one, has_s) = selection_encr s hs in
      single_encr _ _ _ _ _ one has_s (selection_encr t ht).1

-- A row of the tables is the only one with its ENCR transform.
first_encr : {layer : Layer} → ℕ → List (TransformSuite layer) → Option (TransformSuite layer)
first_encr e [] = none
first_encr e (s ∷ rows) = if s.encr_id == e then some s else first_encr e rows

by_encr : (layer : Layer) → ℕ → Option (TransformSuite layer)
by_encr layer e = first_encr e (suites layer)

by_encr_row :
    {layer : Layer} (s : TransformSuite layer)
    → Memᴰ s (suites layer)
    → by_encr layer s.encr_id ≡ some s
unfolding by_encr first_encr
by_encr_row s (head e) = rw e refl
by_encr_row s (tail (head e)) = rw e refl
by_encr_row s (tail (tail (head e))) = rw e refl
by_encr_row s (tail (tail (tail m))) = elim m [ ]

row_unique :
    {layer : Layer} (s t : TransformSuite layer)
    → Memᴰ s (suites layer)
    → Memᴰ t (suites layer)
    → s.encr_id ≡ t.encr_id
    → s ≡ t
row_unique {layer = layer} s t ms mt e =
    some-eq (sym (by_encr_row s ms) ∙ ap (by_encr layer) e ∙ by_encr_row t mt)

abbrev AreRows : {layer : Layer} → List (TransformSuite layer) → Type 0
AreRows {layer = layer} rows = All (λ s. Memᴰ s (suites layer)) rows

suite_by_id-Mem :
    {layer : Layer} (id : ℕ) (table : List (TransformSuite layer)) (s : TransformSuite layer)
    → suite_by_id id table ≡ some s
    → Memᴰ s table × (s.id ≡ id)
unfolding suite_by_id
suite_by_id-Mem id [] s h = cc
suite_by_id-Mem id (t ∷ table) s h = elim (Bool-cases (t.id == id)) [
  | inl same ↦
      let e : some t ≡ some s = rw same at h in
      (head (sym (some-eq e)), sym (ap (λ r. r.id) (some-eq e)) ∙ ==-eq t.id id same)
  | inr other ↦
      let h' : suite_by_id id table ≡ some s = rw other at h in
      let (m, e) = suite_by_id-Mem id table s h' in (tail m, e)
]

enabled_rows-AreRows : (layer : Layer) (ids : List ℕ) → AreRows (enabled_rows ids (suites layer))
unfolding enabled_rows keep_row
enabled_rows-AreRows layer [] = tt
enabled_rows-AreRows layer (id ∷ ids) = elim (Option-cases (suite_by_id id (suites layer))) [
  | inl absent ↦ rw absent (enabled_rows-AreRows layer ids)
  | inr (s, e) ↦ rw e ((suite_by_id-Mem id (suites layer) s e).0, enabled_rows-AreRows layer ids)
]

enabled_suites-AreRows :
    (layer : Layer) (configured : List ℕ) → AreRows (enabled_suites configured (suites layer))
unfolding enabled_suites
enabled_suites-AreRows layer [] = (head refl, (tail (head refl), (tail (tail (head refl)), tt)))
enabled_suites-AreRows layer (id ∷ ids) =
    rw (==-of_ne (suc (length ids)) 0 (omega arith)) (enabled_rows-AreRows layer (id ∷ ids))

All-Mem : {A : Type 0} (P : A → Type 0) (xs : List A) (x : A) → All P xs → Memᴰ x xs → P x
All-Mem P [] x h m = elim m [ ]
All-Mem P (y ∷ xs) x (h, hs) (head e) = subst P (sym e) h
All-Mem P (y ∷ xs) x (h, hs) (tail m) = All-Mem P xs x hs m

selected_row :
    {layer : Layer} (p : Proposal) (s : TransformSuite layer) (rows : List (TransformSuite layer))
    → AreRows rows
    → Memᴰ s rows
    → is_selection_for s p ≡ true
    → selected_suite p rows ≡ some s
unfolding selected_suite
selected_row p s [] all m h = elim m [ ]
selected_row p s (t ∷ rows) (row, all) m h = elim (Bool-cases (is_selection_for t p)) [
  | inl also ↦
      let same =
        row_unique t s row (All-Mem _ (t ∷ rows) s (row, all) m)
          (is_selection_for_unique p t s also h).0 in
      rw also (ap some same)
  | inr not_t ↦ rw not_t (selected_row p s rows all (later m not_t) h)
]
  where
    later : Memᴰ s (t ∷ rows) → is_selection_for t p ≡ false → Memᴰ s rows
    later (head e) not_t =
        let clash : true ≡ false = sym h ∙ ap (λ r. is_selection_for r p) e ∙ not_t in cc
    later (tail m) not_t = m

-- A responder that selects an enabled suite's proposal as it was offered, with at most one group, is
-- understood: selectedSuite gives that suite back, for every list of configured suites.
pub selected_suite-build_proposal_for_suite :
    (layer : Layer) (configured : List ℕ) (s : TransformSuite layer) (number : ℕ)
    (spi groups : List ℕ)
    → Memᴰ s (enabled_suites configured (suites layer))
    → length groups ≤ 1
    → selected_suite
        (build_proposal_for_suite number s spi groups)
        (enabled_suites configured (suites layer))
      ≡ some s
selected_suite-build_proposal_for_suite layer configured s number spi groups m few =
    selected_row _ s _ (enabled_suites-AreRows layer configured) m
      (is_selection_for-build number s spi groups few)

rows_ids :
    {layer : Layer} (ids : List ℕ) (table : List (TransformSuite layer))
    → check_suites ids table ≡ none
    → map (λ s. s.id) (enabled_rows ids table) ≡ ids
unfolding enabled_rows keep_row check_suites
rows_ids [] table c = refl
rows_ids (id ∷ ids) table c = elim (Option-cases (suite_by_id id table)) [
  | inl absent ↦ let clash : some id ≡ none = rw (check_suites, absent) at c in cc
  | inr (s, e) ↦
      let c' : check_suites ids table ≡ none = rw (check_suites, e) at c in
      rw e (rw ((suite_by_id-Mem id table s e).1) (ap (λ r. id ∷ r) (rows_ids ids table c')))
]

-- If the check of the configuration reports no id, the enabled rows have just the configured ids, in their order.
pub enabled_suites-check_suites :
    {layer : Layer} (configured : List ℕ) (table : List (TransformSuite layer))
    → 0 < length configured
    → check_suites configured table ≡ none
    → map (λ s. s.id) (enabled_suites configured table) ≡ configured
unfolding enabled_suites
enabled_suites-check_suites [] table h c = absurd (omega arith)
enabled_suites-check_suites (id ∷ ids) table h c =
    rw (==-of_ne (suc (length ids)) 0 (omega arith)) (rows_ids (id ∷ ids) table c)
