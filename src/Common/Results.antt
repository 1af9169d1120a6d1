-- ===== src/Common/Results.antt =====
-- What a call of a Go function comes to. `err` is a returned error, `panic` a run-time panic (an index
-- or a slice out of range), and `stuck` is no Go behaviour: the model's fuel ran out.
use mathlib.Core.Path.{◌≡◌, refl, ap}
use mathlib.Core.Bool.{Bool, true, false}
use mathlib.Core.Option.{Option, none, some}

pub data Outcome {ℓ} (E : Type 0) (A : Type ℓ) : Type ℓ where
  ok : A → Outcome E A
  err : E → Outcome E A
  panic : Outcome E A
  stuck : Outcome E A

infixl 5 ◌>>=◌ ◌>>◌
unfoldable pub ◌>>=◌ {ℓ κ} :
    {E : Type 0} {A : Type ℓ} {B : Type κ} → Outcome E A → (A → Outcome E B) → Outcome E B
ok a >>= f = f a
err e >>= f = err e
panic >>= f = panic
stuck >>= f = stuck

abbrev pub ◌>>◌ {ℓ} : {E : Type 0} {B : Type ℓ} → Outcome E (Unit {0}) → Outcome E B → Outcome E B
m >> k = m >>= λ _. k

-- `if test { return e }`
unfoldable pub fail_if : {E : Type 0} → Bool → E → Outcome E (Unit {0})
fail_if true e = err e
fail_if false e = ok tt

-- A call with no errors to return, among calls that have some.
unfoldable pub lift {ℓ} : {E : Type 0} {A : Type ℓ} → Outcome ⊥ A → Outcome E A
lift (ok a) = ok a
lift (err e) = absurd e
lift panic = panic
lift stuck = stuck

-- A returned error of another package, as an error of this one.
unfoldable pub or_err {ℓ} : {E : Type 0} {A : Type ℓ} → Option A → E → Outcome E A
or_err none e = err e
or_err (some a) e = ok a

-- A call whose errors another one wraps.
unfoldable pub map_err {ℓ} : {E F : Type 0} {A : Type ℓ} → (E → F) → Outcome E A → Outcome F A
map_err f (ok a) = ok a
map_err f (err e) = err (f e)
map_err f panic = panic
map_err f stuck = stuck

-- The call returns: a value or an error, no panic, and not for want of fuel.
abbrev pub Returns {ℓ} : {E : Type 0} {A : Type ℓ} → Outcome E A → Type 0
Returns (ok a) = Unit {0}
Returns (err e) = Unit {0}
Returns panic = ⊥
Returns stuck = ⊥

module _ {ℓ κ} {E : Type 0} {A : Type ℓ} {B : Type κ} where
  pub ok-bind : (a : A) (f : A → Outcome E B) → (ok a >>= f) ≡ f a
  unfolding ◌>>=◌
  ok-bind a f = refl

  pub err-bind : (e : E) (f : A → Outcome E B) → (err e >>= f) ≡ err e
  unfolding ◌>>=◌
  err-bind e f = refl

  -- Inversion of a chain that yields a value.
  pub >>=-eq-ok :
      (m : Outcome E A) (f : A → Outcome E B) {b : B}
      → (m >>= f) ≡ ok b
      → (a : A) × (m ≡ ok a) × (f a ≡ ok b)
  unfolding ◌>>=◌
  >>=-eq-ok (ok a) f h = (a, refl, h)
  >>=-eq-ok (err e) f h = cc
  >>=-eq-ok panic f h = cc
  >>=-eq-ok stuck f h = cc

pub fail_if-eq-ok : {E : Type 0} (t : Bool) (e : E) → fail_if t e ≡ ok tt → t ≡ false
unfolding fail_if
fail_if-eq-ok true e h = cc
fail_if-eq-ok false e h = refl

pub fail_if-false : {E : Type 0} (t : Bool) (e : E) → t ≡ false → fail_if t e ≡ ok tt
unfolding fail_if
fail_if-false t e h = rw h

pub fail_if-true : {E : Type 0} (t : Bool) (e : E) → t ≡ true → fail_if t e ≡ err e
unfolding fail_if
fail_if-true t e h = rw h

-- Two runs that start alike: what relates the values of the rests relates those of the wholes.
pub bind_related {ℓ κ} :
    {E : Type 0} {A : Type ℓ} {B C : Type κ} (m : Outcome E A) (f : A → Outcome E B)
    (g : A → Outcome E C) (R : B → C → Type 0)
    → ((x : A) (b : B) → f x ≡ ok b → (c : C) × (g x ≡ ok c) × R b c)
    → (b : B) → (m >>= f) ≡ ok b
    → (c : C) × ((m >>= g) ≡ ok c) × R b c
unfolding ◌>>=◌
bind_related (ok x) f g R h b e = h x b e
bind_related (err x) f g R h b e = cc
bind_related panic f g R h b e = cc
bind_related stuck f g R h b e = cc

-- What follows from the value of each part follows from a value of the whole.
pub bind_values {ℓ κ μ} :
    {E : Type 0} {A : Type ℓ} {B : Type κ} {m : Outcome E A} {f : A → Outcome E B} {b : B}
    {P : Type μ}
    → (m >>= f) ≡ ok b
    → ((x : A) → m ≡ ok x → f x ≡ ok b → P)
    → P
bind_values {m = m} {f = f} e h = let (x, e1, e2) = >>=-eq-ok m f e in h x e1 e2

pub ok-eq {ℓ} : {E : Type 0} {A : Type ℓ} {a b : A} → (◌≡◌ {A = Outcome E A} (ok a) (ok b)) → a ≡ b
ok-eq {a = a} e = ap (λ r. elim r [ ok x ↦ x | err _ ↦ a | panic ↦ a | stuck ↦ a ]) e
