-- ===== src/Common/Posts.antt =====
-- Postconditions of the outcome of a Go function, with a rule for each way to begin a block.
use Prim.Native.Nat.{ℕ, ◌+◌, ◌-◌, ◌≤◌, ◌<◌}
use mathlib.Core.Path.{◌≡◌, refl, subst, ap, ◌∙◌}
use mathlib.Core.Logic.{◌⊎◌, inl, inr}
use mathlib.Core.Bool.{Bool, true, false}
use mathlib.Core.List.{List}
use native.Mathlib.Omega.{arith}
use go_ipsec.Common.Tests.{ltb, ltb-of_le, if◌then◌else◌}
use go_ipsec.Common.Lists.{length, get_or, set, take, drop, length-take, length-drop}
use go_ipsec.Common.Results.{
  Outcome, ok, err, panic, stuck, ◌>>=◌, ◌>>◌, fail_if, Returns, ok-bind, err-bind, fail_if-false,
}
use go_ipsec.Common.Bytes.{
  byte_at, slice, slice_from, uint16_at, uint32_at, uint64_at, word16, word32, word64, byte_at-lt,
  set_at, set_at-lt, slice-le, slice_from-le, uint16_at-le, uint32_at-le, uint64_at-le,
}

-- The call returns an error, or a value with the property `P`: no panic, and fuel enough.
pub data Ensures {ℓ κ} {E : Type 0} {A : Type ℓ} (P : A → Type κ) : Outcome E A → Type (ℓ ⊔ κ) where
  yields : {a : A} → P a → Ensures P (ok a)
  fails : {e : E} → Ensures P (err e)

-- The postcondition that asks for nothing: the call returns.
abbrev pub Any {ℓ} : {A : Type ℓ} → A → Type 0
Any _ = Unit {0}

module _ {ℓ κ} {E : Type 0} {A : Type ℓ} {P : A → Type κ} where
  pub Ensures-Returns : {m : Outcome E A} → Ensures P m → Returns m
  Ensures-Returns (yields p) = tt
  Ensures-Returns fails = tt

  Ensures-value : {a : A} → Ensures {E = E} P (ok a) → P a
  Ensures-value (yields p) = p

  pub Ensures-ok : {a : A} {m : Outcome E A} → Ensures P m → m ≡ ok a → P a
  Ensures-ok h e = Ensures-value (subst (λ m. Ensures P m) e h)

  pub Returns-Ensures : (m : Outcome E A) → Returns m → ((a : A) → m ≡ ok a → P a) → Ensures P m
  Returns-Ensures (ok a) r h = yields (h a refl)
  Returns-Ensures (err e) r h = fails
  Returns-Ensures panic r h = absurd r
  Returns-Ensures stuck r h = absurd r

  -- To split on the outcome and keep the equation.
  pub Ensures-cases :
      {m : Outcome E A} → Ensures P m → ((a : A) × (m ≡ ok a)) ⊎ ((e : E) × (m ≡ err e))
  Ensures-cases (yields {a = a} p) = inl (a, refl)
  Ensures-cases (fails {e = e}) = inr (e, refl)

  pub Ensures-weaken {ν} :
      {Q : A → Type ν} {m : Outcome E A} → Ensures P m → ((a : A) → P a → Q a) → Ensures Q m
  Ensures-weaken (yields {a = a} p) h = yields (h a p)
  Ensures-weaken fails h = fails

  pub Ensures-if :
      (t : Bool) (m n : Outcome E A)
      → (t ≡ true → Ensures P m)
      → (t ≡ false → Ensures P n)
      → Ensures P (if t then m else n)
  Ensures-if true m n hm hn = hm refl
  Ensures-if false m n hm hn = hn refl

  pub Ensures-fail_if :
      (t : Bool) (e : E) (k : Outcome E A)
      → (t ≡ false → Ensures P k)
      → Ensures P (fail_if t e >> k)
  unfolding ◌>>=◌ fail_if
  Ensures-fail_if true e k h = fails
  Ensures-fail_if false e k h = h refl

  -- `if a < b { return e }`
  pub Ensures-fail_if_lt :
      (a b : ℕ) (e : E) (k : Outcome E A)
      → (b ≤ a → Ensures P k)
      → Ensures P (fail_if (ltb a b) e >> k)
  Ensures-fail_if_lt a b e k h = Ensures-fail_if (ltb a b) e k (λ x. h (ground arith))

module _ {ℓ κ} {E : Type 0} {B : Type ℓ} {P : B → Type κ} where
  pub Ensures-bind {μ ν} :
      {A : Type μ} {Q : A → Type ν} (m : Outcome E A) (f : A → Outcome E B)
      → Ensures Q m
      → ((a : A) → Q a → Ensures P (f a))
      → Ensures P (m >>= f)
  unfolding ◌>>=◌
  Ensures-bind m f (yields {a = a} q) h = h a q
  Ensures-bind m f fails h = fails

  pub Ensures-byte_at :
      (xs : List ℕ) (i : ℕ) (f : ℕ → Outcome E B)
      → i < length xs
      → ((b : ℕ) → b ≡ get_or xs i 0 → Ensures P (f b))
      → Ensures P (byte_at xs i >>= f)
  Ensures-byte_at xs i f h k = rw (byte_at-lt xs i h, ok-bind) (k _ refl)

  pub Ensures-uint16_at :
      (xs : List ℕ) (i : ℕ) (f : ℕ → Outcome E B)
      → i + 2 ≤ length xs
      → ((v : ℕ) → v ≡ word16 xs i → Ensures P (f v))
      → Ensures P (uint16_at xs i >>= f)
  Ensures-uint16_at xs i f h k = rw (uint16_at-le xs i h, ok-bind) (k _ refl)

  pub Ensures-uint32_at :
      (xs : List ℕ) (i : ℕ) (f : ℕ → Outcome E B)
      → i + 4 ≤ length xs
      → ((v : ℕ) → v ≡ word32 xs i → Ensures P (f v))
      → Ensures P (uint32_at xs i >>= f)
  Ensures-uint32_at xs i f h k = rw (uint32_at-le xs i h, ok-bind) (k _ refl)

  pub Ensures-uint64_at :
      (xs : List ℕ) (i : ℕ) (f : ℕ → Outcome E B)
      → i + 8 ≤ length xs
      → ((v : ℕ) → v ≡ word64 xs i → Ensures P (f v))
      → Ensures P (uint64_at xs i >>= f)
  Ensures-uint64_at xs i f h k = rw (uint64_at-le xs i h, ok-bind) (k _ refl)

  pub Ensures-slice :
      (xs : List ℕ) (lo hi : ℕ) (f : List ℕ → Outcome E B)
      → lo ≤ hi
      → hi ≤ length xs
      → ((ys : List ℕ) → length ys ≡ hi - lo → Ensures P (f ys))
      → Ensures P (slice xs lo hi >>= f)
  Ensures-slice xs lo hi f h h' k =
      rw (slice-le xs lo hi h h', ok-bind)
        (k _ (omega (arith, length-take (hi - lo) (drop lo xs), length-drop lo xs)))

  pub Ensures-slice_from :
      (xs : List ℕ) (lo : ℕ) (f : List ℕ → Outcome E B)
      → lo ≤ length xs
      → ((ys : List ℕ) → length ys ≡ length xs - lo → Ensures P (f ys))
      → Ensures P (slice_from xs lo >>= f)
  Ensures-slice_from xs lo f h k = rw (slice_from-le xs lo h, ok-bind) (k _ (length-drop lo xs))

  pub Ensures-set_at :
      (xs : List ℕ) (i v : ℕ) (f : List ℕ → Outcome E B)
      → i < length xs
      → Ensures P (f (set xs i v))
      → Ensures P (set_at xs i v >>= f)
  Ensures-set_at xs i v f h k = rw (set_at-lt xs i v h, ok-bind) k

-- With no errors to return, the call yields.
pub Ensures-yields {ℓ κ} :
    {A : Type ℓ} {P : A → Type κ} {m : Outcome ⊥ A} → Ensures P m → (a : A) × (m ≡ ok a) × P a
Ensures-yields (yields {a = a} p) = (a, refl, p)
Ensures-yields (fails {e = e}) = absurd e

pub ruleset ensures_rules = (
  yields, fails, Ensures-fail_if_lt, Ensures-fail_if, Ensures-byte_at, Ensures-uint16_at,
  Ensures-uint32_at, Ensures-uint64_at, Ensures-slice, Ensures-slice_from, Ensures-if,
)

-- The same for the exact outcome: each rule runs the first call of a block.
module _ {ℓ} {E : Type 0} {B : Type ℓ} {r : Outcome E B} where
  pub run-bind {κ} :
      {A : Type κ} (m : Outcome E A) (a : A) (f : A → Outcome E B)
      → m ≡ ok a
      → f a ≡ r
      → (m >>= f) ≡ r
  run-bind m a f h k = rw (h, ok-bind) k

  pub run-fail_if :
      (t : Bool) (e : E) (k : Outcome E B) → t ≡ false → k ≡ r → (fail_if t e >> k) ≡ r
  run-fail_if t e k h x = rw (fail_if-false t e h, ok-bind) x

  pub run-failed :
      {A : Type 0} (m : Outcome E A) (e : E) (f : A → Outcome E B)
      → m ≡ err e
      → err e ≡ r
      → (m >>= f) ≡ r
  run-failed m e f h x = rw (h, err-bind) x

  pub run-fail_if_lt :
      (a b : ℕ) (e : E) (k : Outcome E B) → b ≤ a → k ≡ r → (fail_if (ltb a b) e >> k) ≡ r
  run-fail_if_lt a b e k h = run-fail_if (ltb a b) e k (ltb-of_le a b h)

  pub run-byte_at :
      (xs : List ℕ) (i b : ℕ) (f : ℕ → Outcome E B)
      → i < length xs
      → get_or xs i 0 ≡ b
      → f b ≡ r
      → (byte_at xs i >>= f) ≡ r
  run-byte_at xs i b f h e k = run-bind _ b f (byte_at-lt xs i h ∙ ap ok e) k

  pub run-uint16_at :
      (xs : List ℕ) (i v : ℕ) (f : ℕ → Outcome E B)
      → i + 2 ≤ length xs
      → word16 xs i ≡ v
      → f v ≡ r
      → (uint16_at xs i >>= f) ≡ r
  run-uint16_at xs i v f h e k = run-bind _ v f (uint16_at-le xs i h ∙ ap ok e) k

  pub run-uint32_at :
      (xs : List ℕ) (i v : ℕ) (f : ℕ → Outcome E B)
      → i + 4 ≤ length xs
      → word32 xs i ≡ v
      → f v ≡ r
      → (uint32_at xs i >>= f) ≡ r
  run-uint32_at xs i v f h e k = run-bind _ v f (uint32_at-le xs i h ∙ ap ok e) k

  pub run-uint64_at :
      (xs : List ℕ) (i v : ℕ) (f : ℕ → Outcome E B)
      → i + 8 ≤ length xs
      → word64 xs i ≡ v
      → f v ≡ r
      → (uint64_at xs i >>= f) ≡ r
  run-uint64_at xs i v f h e k = run-bind _ v f (uint64_at-le xs i h ∙ ap ok e) k

  pub run-slice :
      (xs : List ℕ) (lo hi : ℕ) (ys : List ℕ) (f : List ℕ → Outcome E B)
      → lo ≤ hi
      → hi ≤ length xs
      → take (hi - lo) (drop lo xs) ≡ ys
      → f ys ≡ r
      → (slice xs lo hi >>= f) ≡ r
  run-slice xs lo hi ys f h h' e k = run-bind _ ys f (slice-le xs lo hi h h' ∙ ap ok e) k

  pub run-slice_from :
      (xs : List ℕ) (lo : ℕ) (ys : List ℕ) (f : List ℕ → Outcome E B)
      → lo ≤ length xs
      → drop lo xs ≡ ys
      → f ys ≡ r
      → (slice_from xs lo >>= f) ≡ r
  run-slice_from xs lo ys f h e k = run-bind _ ys f (slice_from-le xs lo h ∙ ap ok e) k
