-- ===== src/Ikesa/Dh/Total.antt =====
-- Neither side of an exchange that NewDH made panics, on any public value whatever.
use go_ipsec.Common.{
  ℕ, ◌+◌, ◌≡◌, refl, some, List, ◌==◌, arith, Any, Ensures, yields, fails, Ensures-bind,
  Ensures-fail_if, Ensures-if,
}
use go_ipsec.Ikesa.Sk.Total.{or_err-Ensures}
use go_ipsec.Ikesa.Dh.{
  DhPrimitives, Dh, Randomness, modp_side, x25519_side, new_dh, modp_secret, shared_modp,
  x25519_secret, shared_x25519, shared,
}

-- The private key of the group is there.
pub record HasKey (d : Dh) : Type 0 where
  modp_key : d.group ≡ 14 → (n : ℕ) × (d.priv_modp ≡ some n)
  x25519_key : d.group ≡ 31 → (k : List ℕ) × (d.priv_x25519 ≡ some k)

module _ (q : DhPrimitives) where
  pub new_dh-Ensures : (group : ℕ) (random : Randomness) → Ensures HasKey (new_dh q group random)
  unfolding new_dh modp_side x25519_side
  new_dh-Ensures group random =
      Ensures-if (group == 14) _ _
        (λ is_14. Ensures-bind {Q = Any} _ _ (or_err-Ensures _ _ λ _ _. tt) λ n _.
          yields
            (record { modp_key = λ _. (n + 2, refl); x25519_key = λ e. absurd (omega (arith, e)) }))
        (λ not_14.
          Ensures-if (group == 31) _ _
            (λ is_31. Ensures-bind {Q = Any} _ _ (or_err-Ensures _ _ λ _ _. tt) λ k _.
              yields
                (record { modp_key = λ e. absurd (omega (arith, e)); x25519_key = λ _. (k, refl) }))
            (λ not_31. fails))

  pub shared-Ensures : (d : Dh) → HasKey d → (peer : List ℕ) → Ensures Any (shared q d peer)
  unfolding shared shared_modp modp_secret shared_x25519 x25519_secret
  shared-Ensures d key peer =
      Ensures-if (d.group == 14) _ _
        (λ is_14. Ensures-fail_if _ _ _ λ _.
          Ensures-fail_if _ _ _ λ _.
            let (n, e) = key.modp_key (ground (arith, is_14)) in rw (e, modp_secret) (yields tt))
        (λ not_14.
          Ensures-if (d.group == 31) _ _
            (λ is_31. Ensures-bind {Q = Any} _ _ (or_err-Ensures _ _ λ _ _. tt) λ pub_key _.
              let (k, e) = key.x25519_key (ground (arith, is_31)) in
              rw (e, x25519_secret) (or_err-Ensures _ _ λ _ _. tt))
            (λ not_31. fails))
