-- ===== src/Session/Suites/Offered.antt =====
-- The offer that a checked configuration leads to, and what its proposals stand for.
use mathlib.Core.List.{Memᴰ}
use go_ipsec.Common.{ℕ, zero, suc, ◌+◌, Option, none, some, List, [], ◌∷◌}
use go_ipsec.Session.Suites.{Layer, TransformSuite, suites, enabled_suites}

abbrev pub id_of : {layer : Layer} → Option (TransformSuite layer) → Option ℕ
id_of none = none
id_of (some s) = some s.id

-- `count` numbers, from `first` on.
abbrev pub numbers_from : ℕ → ℕ → List ℕ
numbers_from first zero = []
numbers_from first (suc count) = first ∷ numbers_from (first + 1) count

module _ (layer : Layer) (configured spi groups : List ℕ) where
  abbrev rows : List (TransformSuite layer)
  rows = enabled_suites configured (suites layer)
