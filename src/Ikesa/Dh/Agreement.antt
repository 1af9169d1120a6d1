-- ===== src/Ikesa/Dh/Agreement.antt =====
-- Two sides of the same group come to the same secret.
use native.Mathlib.Nat.{
  mul_comm, mul_assoc, mul-mul-mul_comm, add-mul, pow-suc, pow-zero, add-mul-mod_self_left,
  mod-add-div,
}
use go_ipsec.Common.{
  ℕ, zero, suc, ◌+◌, ◌*◌, ◌/◌, ◌%◌, ◌^◌, ◌<◌, ◌≡◌, refl, sym, ap, ◌∙◌, ◌⊎◌, inl, inr, arith, true,
  false, some, List, ◌==◌, leb, Bool-cases, length, if◌then◌else◌, replicate, ◌++◌, ◌-◌, ok, ◌>>=◌,
  bind_values, ok-eq, or_err,
}
use go_ipsec.Ikesa.Dh.{
  DhPrimitives, DhLaws, Dh, Randomness, modp2048_p, modp2048_g, modp2048_len, modp_side,
  x25519_side, new_dh, left_pad, modp_secret, shared_modp, x25519_secret, shared_x25519, shared,
}

mul_mod_left : (a b m : ℕ) → ((a % m) * b) % m ≡ (a * b) % m
mul_mod_left a b m =
    let split : a * b ≡ (a % m) * b + m * ((a / m) * b) =
      sym (ap (λ x. x * b) (mod-add-div a m))
      ∙ (add-mul (a % m) (m * (a / m)) b ∙ ap (λ x. (a % m) * b + x) (mul_assoc m (a / m) b)) in
    rw split (sym (add-mul-mod_self_left ((a % m) * b) m ((a / m) * b)))

pow_mod : (a n m : ℕ) → ((a % m) ^ n) % m ≡ (a ^ n) % m
pow_mod a zero m = rw (pow-zero (a % m), pow-zero a) refl
pow_mod a (suc n) m =
    rw
      (
        pow-suc (a % m) n,
        pow-suc a n,
        ← mul_mod_left ((a % m) ^ n) (a % m) m,
        pow_mod a n m,
        mul_mod_left (a ^ n) (a % m) m,
        mul_comm (a ^ n) (a % m),
        mul_mod_left a (a ^ n) m,
        mul_comm a (a ^ n),
      )
      refl

one_pow : (n : ℕ) → 1 ^ n ≡ 1
one_pow zero = refl
one_pow (suc n) = rw (pow-suc 1 n, one_pow n) refl

mul_pow : (a b n : ℕ) → (a * b) ^ n ≡ a ^ n * b ^ n
mul_pow a b zero = rw (pow-zero (a * b), pow-zero a, pow-zero b) refl
mul_pow a b (suc n) =
    rw (pow-suc (a * b) n, pow-suc a n, pow-suc b n, mul_pow a b n)
      (mul-mul-mul_comm (a ^ n) (b ^ n) a b)

pow_swap : (a m n : ℕ) → (a ^ m) ^ n ≡ (a ^ n) ^ m
pow_swap a zero n = rw (pow-zero a, pow-zero (a ^ n)) (one_pow n)
pow_swap a (suc m) n = rw (pow-suc a m, mul_pow (a ^ m) a n, pow_swap a m n, pow-suc (a ^ n) m) refl

module _ (p : DhPrimitives) (laws : DhLaws p) where
  set_bytes-left_pad : (n k : ℕ) → p.set_bytes (left_pad (p.to_bytes n) k) ≡ n
  unfolding left_pad
  set_bytes-left_pad n k =
      elim (leb k (length (p.to_bytes n)))
        as (λ t.
          p.set_bytes
            (if t then p.to_bytes n else (replicate (k - length (p.to_bytes n)) 0 ++ p.to_bytes n))
          ≡ n) [ true ↦ laws.set_bytes_to_bytes 0 n | false ↦ laws.set_bytes_to_bytes _ n ]

  exp_swap :
      (x m n : ℕ)
      → p.exp (p.exp x m modp2048_p) n modp2048_p ≡ p.exp (p.exp x n modp2048_p) m modp2048_p
  exp_swap x m n =
      let positive : 0 < modp2048_p = omega arith in
      rw
        (
          laws.exp_mod x m modp2048_p positive,
          laws.exp_mod x n modp2048_p positive,
          laws.exp_mod ((x ^ m) % modp2048_p) n modp2048_p positive,
          laws.exp_mod ((x ^ n) % modp2048_p) m modp2048_p positive,
          pow_mod (x ^ m) n modp2048_p,
          pow_mod (x ^ n) m modp2048_p,
          pow_swap x m n,
        )
        refl

  shared_modp-value :
      (a b : ℕ) {k : List ℕ}
      → shared_modp p (some (a + 2)) (modp_side p b).public_value ≡ ok k
      → k
        ≡ left_pad
            (p.to_bytes (p.exp (p.exp modp2048_g (b + 2) modp2048_p) (a + 2) modp2048_p))
            modp2048_len
  unfolding shared_modp modp_secret modp_side
  shared_modp-value a b h = bind_values h (λ _ _ h1. bind_values h1 (λ _ _ h2.
      sym (ok-eq h2)
      ∙ ap (λ x. left_pad (p.to_bytes (p.exp x (a + 2) modp2048_p)) modp2048_len)
          (set_bytes-left_pad _ _)))

  -- How a side came about.
  pub new_dh-cases :
      (group : ℕ) (random : Randomness) {a : Dh}
      → new_dh p group random ≡ ok a
      → ((n : ℕ) × (group ≡ 14) × (a ≡ modp_side p n))
        ⊎ ((k : List ℕ) × (group ≡ 31) × (a ≡ x25519_side p k))
  unfolding new_dh
  new_dh-cases group random h = elim (Bool-cases (group == 14)) [
    | inl is_14 ↦
        bind_values (rw is_14 at h) (λ n _ made. inl (n, ground (arith, is_14), sym (ok-eq made)))
    | inr not_14 ↦ elim (Bool-cases (group == 31)) [
      | inl is_31 ↦
          bind_values (rw (not_14, is_31) at h)
            (λ k _ made. inr (k, ground (arith, is_31), sym (ok-eq made)))
      | inr not_31 ↦ absurd (let none_made = rw (not_14, not_31) at h in cc)
    ]
  ]

  modp_agrees :
      (m n : ℕ) {k l : List ℕ}
      → shared p (modp_side p m) (modp_side p n).public_value ≡ ok k
      → shared p (modp_side p n) (modp_side p m).public_value ≡ ok l
      → k ≡ l
  unfolding shared modp_side
  modp_agrees m n from_a from_b =
      shared_modp-value m n from_a
      ∙ (ap (λ x. left_pad (p.to_bytes x) modp2048_len) (exp_swap modp2048_g (n + 2) (m + 2))
          ∙ sym (shared_modp-value n m from_b))

  x25519_agrees :
      (m n : List ℕ) {k l : List ℕ}
      → shared p (x25519_side p m) (x25519_side p n).public_value ≡ ok k
      → shared p (x25519_side p n) (x25519_side p m).public_value ≡ ok l
      → k ≡ l
  unfolding shared x25519_side shared_x25519 x25519_secret ◌>>=◌ or_err
  x25519_agrees m n from_a from_b =
      let of_a = rw (laws.new_public_key_public_key n, laws.ecdh_agrees m n) at from_a in
      let of_b = rw (laws.new_public_key_public_key m) at from_b in ok-eq (sym of_a ∙ of_b)

  -- Two sides that NewDH makes of the same group, and that accept each other's public values, come to the
  -- same shared secret.
  pub shared-agrees :
      (group : ℕ) (random_a random_b : Randomness) {a b : Dh} {k l : List ℕ}
      → new_dh p group random_a ≡ ok a
      → new_dh p group random_b ≡ ok b
      → shared p a b.public_value ≡ ok k
      → shared p b a.public_value ≡ ok l
      → k ≡ l
  shared-agrees group random_a random_b {a = a} {b = b} {k = k} {l = l} new_a new_b from_a from_b =
      elim (new_dh-cases group random_a new_a) [
        | inl (m, g, ea) ↦ elim (new_dh-cases group random_b new_b) [
          | inl (n, g', eb) ↦ modp_agrees m n (cc from_a) (cc from_b)
          | inr (n, g', eb) ↦ absurd (omega (arith, g, g'))
        ]
        | inr (m, g, ea) ↦ elim (new_dh-cases group random_b new_b) [
          | inl (n, g', eb) ↦ absurd (omega (arith, g, g'))
          | inr (n, g', eb) ↦ x25519_agrees m n (cc from_a) (cc from_b)
        ]
      ]
