-- ===== src/Common/Drain.antt =====
-- `for len(body) > 0 { ... body = body[n:] }`: a loop that cuts one piece off a byte slice in each
-- round and threads the variables that it assigns.
use Prim.Native.Nat.{ℕ, zero, suc, ◌<◌, ◌≤◌}
use mathlib.Core.Path.{◌≡◌, refl}
use mathlib.Core.List.{List, [], ◌∷◌}
use native.Mathlib.Omega.{arith}
use go_ipsec.Common.Lists.{length}
use go_ipsec.Common.Results.{Outcome, ok, err, stuck, ◌>>=◌, ok-bind, err-bind}
use go_ipsec.Common.Posts.{Ensures, yields, fails, Ensures-bind, Ensures-ok}

module _ {ℓ} {E : Type 0} {S : Type ℓ} (step : S → List ℕ → Outcome E (S × List ℕ)) where
  unfoldable pub drain : ℕ → S → List ℕ → Outcome E S
  drain fuel s [] = ok s
  drain zero s (b ∷ bs) = stuck
  drain (suc fuel) s (b ∷ bs) = do (s', rest) ← step s (b ∷ bs); drain fuel s' rest

  -- Each round takes a byte at least, so `length body` rounds are enough.
  unfoldable pub drain_all : S → List ℕ → Outcome E S
  unfolding drain
  drain_all s body = drain (length body) s body

-- One round on a body with a byte at least fails, or leaves fewer bytes and keeps `P`.
abbrev pub Advances {ℓ κ} :
    {E : Type 0} {S : Type ℓ} → (S → Type κ) → (S → List ℕ → Outcome E (S × List ℕ)) → Type (ℓ ⊔ κ)
Advances {S} P step =
    (s : S) (body : List ℕ)
    → 0 < length body
    → P s
    → Ensures (λ r. (length r.1 < length body) × P r.0) (step s body)

module _ {ℓ κ} {E : Type 0} {S : Type ℓ} {P : S → Type κ}
    {step : S → List ℕ → Outcome E (S × List ℕ)} (advances : Advances P step) where
  drain-Ensures :
      (fuel : ℕ) (s : S) (body : List ℕ)
      → length body ≤ fuel
      → P s
      → Ensures P (drain step fuel s body)
  unfolding drain
  drain-Ensures fuel s [] h p = yields p
  drain-Ensures zero s (b ∷ bs) h p = absurd (omega arith)
  drain-Ensures (suc fuel) s (b ∷ bs) h p =
      Ensures-bind _ _ (advances s (b ∷ bs) (omega arith) p)
        (λ r q. drain-Ensures fuel r.0 r.1 (omega arith) q.1)

  -- The loop ends on every body, brings no panic, and keeps what its rounds keep.
  pub drain_all-Ensures : (s : S) (body : List ℕ) → P s → Ensures P (drain_all step s body)
  unfolding drain_all
  drain_all-Ensures s body = drain-Ensures (length body) s body (omega arith)

  bind_ext {μ} :
      {B : Type μ} (n : ℕ) {r : Outcome E (S × List ℕ)} (f g : S × List ℕ → Outcome E B)
      → Ensures (λ r. (length r.1 < n) × P r.0) r
      → ((s : S) (rest : List ℕ) → length rest < n → P s → f (s, rest) ≡ g (s, rest))
      → (r >>= f) ≡ (r >>= g)
  unfolding ◌>>=◌
  bind_ext n f g (yields {a = a} q) h = h a.0 a.1 q.0 q.1
  bind_ext n f g fails h = refl

  -- Above the length of the body the fuel does not matter.
  drain_fuel :
      (f g : ℕ) (s : S) (body : List ℕ)
      → length body ≤ f
      → length body ≤ g
      → P s
      → drain step f s body ≡ drain step g s body
  unfolding drain
  drain_fuel f g s [] hf hg p = refl
  drain_fuel zero g s (b ∷ bs) hf hg p = absurd (omega arith)
  drain_fuel (suc f) zero s (b ∷ bs) hf hg p = absurd (omega arith)
  drain_fuel (suc f) (suc g) s (b ∷ bs) hf hg p =
      bind_ext _ _ _ (advances s (b ∷ bs) (omega arith) p)
        (λ s' rest lt p'. drain_fuel f g s' rest (omega arith) (omega arith) p')

  drain-suc :
      (fuel : ℕ) (s : S) (b : ℕ) (bs : List ℕ)
      → drain step (suc fuel) s (b ∷ bs) ≡ (step s (b ∷ bs) >>= λ r. drain step fuel r.0 r.1)
  unfolding drain
  drain-suc fuel s b bs = refl

  -- One round of the loop.
  pub drain_all_step :
      (s : S) (body : List ℕ) (s' : S) (rest : List ℕ)
      → 0 < length body
      → P s
      → step s body ≡ ok (s', rest)
      → drain_all step s body ≡ drain_all step s' rest
  unfolding drain_all
  drain_all_step s [] s' rest h p e = absurd (omega arith)
  drain_all_step s (b ∷ bs) s' rest h p e =
      let (lt, p') = Ensures-ok (advances s (b ∷ bs) (omega arith) p) e in
      let fewer : length rest < length (b ∷ bs) = lt in
      rw (drain-suc, e, ok-bind)
        (drain_fuel (length bs) (length rest) s' rest (omega arith) (omega arith) p')

-- A round that fails ends the loop.
pub drain_all_err {ℓ} :
    {E : Type 0} {S : Type ℓ} (step : S → List ℕ → Outcome E (S × List ℕ)) (s : S) (body : List ℕ)
    (e : E)
    → 0 < length body
    → step s body ≡ err e
    → drain_all step s body ≡ err e
unfolding drain_all drain
drain_all_err step s [] e h x = absurd (omega arith)
drain_all_err step s (b ∷ bs) e h x = rw (x, err-bind)
