-- ===== src/Tests/Dh.antt =====
-- Two sides of group 14 with the private keys 3 and 4, over plain modular arithmetic. A number is written
-- in one digit, and the operations on Curve25519 are a stand-in.
use go_ipsec.Common.{
  ℕ, zero, suc, ◌+◌, ◌*◌, ◌%◌, ◌^◌, ◌≡◌, refl, ap, arith, List, [], ◌∷◌, ◌++◌, replicate, none,
  some, ok, ◌>>=◌, fail_if, or_err,
}
use go_ipsec.Ikesa.Dh.{
  DhPrimitives, DhLaws, Randomness, modp2048_len, modp_side, new_dh, left_pad, modp_secret,
  shared_modp, shared,
}
use go_ipsec.Ikesa.Dh.Agreement.{shared-agrees}

abbrev digits_value : ℕ → List ℕ → ℕ
digits_value acc [] = acc
digits_value acc (x ∷ xs) = digits_value (acc * 256 + x) xs

abbrev pub plain : DhPrimitives
plain = record {
  exp = λ x y m. (x ^ y) % m;
  set_bytes = digits_value 0;
  to_bytes = λ n. n ∷ [];
  public_key = λ k. k;
  new_public_key = some;
  ecdh = λ k l. some ((digits_value 0 k + digits_value 0 l) ∷ []);
}

digits_value-replicate : (zeros n : ℕ) → digits_value 0 (replicate zeros 0 ++ n ∷ []) ≡ n
digits_value-replicate zero n = omega arith
digits_value-replicate (suc zeros) n = digits_value-replicate zeros n

pub plain-DhLaws : DhLaws plain
plain-DhLaws = record {
  exp_mod = λ x y m positive. refl;
  set_bytes_to_bytes = digits_value-replicate;
  new_public_key_public_key = λ k. refl;
  ecdh_agrees = λ k l. ap (λ x. some (x ∷ [])) (omega arith);
}

abbrev drawn : ℕ → Randomness
drawn n = record { number = some n; key = none }

abbrev public_of : ℕ → List ℕ
public_of n = (modp_side plain n).public_value

made : (n : ℕ) → new_dh plain 14 (drawn n) ≡ ok (modp_side plain n)
unfolding new_dh ◌>>=◌ or_err
made n = refl

secret_of_first :
    shared plain (modp_side plain 1) (public_of 2) ≡ ok (left_pad (16 ^ 3 ∷ []) modp2048_len)
unfolding shared shared_modp modp_secret modp_side left_pad ◌>>=◌ fail_if
secret_of_first = refl

secret_of_second :
    shared plain (modp_side plain 2) (public_of 1) ≡ ok (left_pad (8 ^ 4 ∷ []) modp2048_len)
unfolding shared shared_modp modp_secret modp_side left_pad ◌>>=◌ fail_if
secret_of_second = refl

shared-agrees_example : left_pad (16 ^ 3 ∷ []) modp2048_len ≡ left_pad (8 ^ 4 ∷ []) modp2048_len
shared-agrees_example =
    shared-agrees plain plain-DhLaws 14 (drawn 1) (drawn 2) (made 1) (made 2) secret_of_first
      secret_of_second
