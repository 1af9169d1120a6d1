-- ===== src/Common/Bits.antt =====
-- Bit operations on words, one binary digit at a time.
use Prim.Native.Nat.{
  ℕ, zero, suc, ◌+◌, ◌-◌, ◌*◌, ◌/◌, ◌%◌, ◌^◌, ◌≤◌, ◌<◌, min, max, bit_and, bit_or, digits, bitwise,
  bit_and-bitwise, bit_or-bitwise,
}
use mathlib.Core.Path.{◌≡◌, refl, sym, ap, ◌∙◌}
use native.Mathlib.Omega.{arith}
use native.Mathlib.Nat.{
  pow-suc, one-le-pow, div-div-eq-div-mul, pow-succ', div-add-mod, mod-lt, mod-eq_of_lt,
  add-mul-mod_self_right,
}
use go_ipsec.Common.Tests.{ltb, ◌==◌, if◌then◌else◌}

-- Digits beyond those of the first number change nothing.
module _ (z : ℕ → ℕ) (f : ℕ → ℕ → ℕ) where
  digits_enough : (n m a b : ℕ) → a ≤ n → a ≤ m → digits z f n a b ≡ digits z f m a b
  digits_enough zero zero a b h k = refl
  digits_enough zero (suc m) zero b h k = refl
  digits_enough (suc n) zero zero b h k = refl
  digits_enough (suc n) (suc m) zero b h k = refl
  digits_enough zero (suc m) (suc a) b h k = absurd (omega arith)
  digits_enough (suc n) zero (suc a) b h k = absurd (omega arith)
  digits_enough (suc n) (suc m) (suc a) b h k =
      let fewer = digits_enough n m (suc a / 2) (b / 2) (omega arith) (omega arith) in
      omega (arith, fewer)

  bitwise_digit :
      (a b : ℕ)
      → bitwise z f (suc a) b ≡ bitwise z f (suc a / 2) (b / 2) * 2 + f (suc a % 2) (b % 2)
  bitwise_digit a b =
      omega (arith, digits_enough a (suc a / 2) (suc a / 2) (b / 2) (omega arith) (omega arith))

and_digit : (a b : ℕ) → bit_and a b ≡ bit_and (a / 2) (b / 2) * 2 + min (a % 2) (b % 2)
and_digit zero b = omega (arith, bit_and-bitwise 0 b, bit_and-bitwise 0 (b / 2))
and_digit (suc a) b = omega (
  arith,
  bit_and-bitwise (suc a) b,
  bit_and-bitwise (suc a / 2) (b / 2),
  bitwise_digit (λ _. 0) min a b,
)

or_digit : (a b : ℕ) → bit_or a b ≡ bit_or (a / 2) (b / 2) * 2 + max (a % 2) (b % 2)
or_digit zero b = omega (arith, bit_or-bitwise 0 b, bit_or-bitwise 0 (b / 2))
or_digit (suc a) b = omega (
  arith,
  bit_or-bitwise (suc a) b,
  bit_or-bitwise (suc a / 2) (b / 2),
  bitwise_digit (λ y. y) max a b,
)

-- Bit `k` of `a`, 0 or 1.
abbrev pub test_bit : ℕ → ℕ → ℕ
test_bit zero a = a % 2
test_bit (suc k) a = test_bit k (a / 2)

pub test_bit-lt : (k a : ℕ) → test_bit k a < 2
test_bit-lt zero a = omega arith
test_bit-lt (suc k) a = test_bit-lt k (a / 2)

pub test_bit-zero : (k : ℕ) → test_bit k 0 ≡ 0
test_bit-zero zero = refl
test_bit-zero (suc k) = test_bit-zero k

pub test_bit-bit_or : (k a b : ℕ) → test_bit k (bit_or a b) ≡ max (test_bit k a) (test_bit k b)
test_bit-bit_or zero a b = omega (arith, or_digit a b)
test_bit-bit_or (suc k) a b =
    let half : bit_or a b / 2 ≡ bit_or (a / 2) (b / 2) = omega (arith, or_digit a b) in
    rw half (test_bit-bit_or k (a / 2) (b / 2))

pub test_bit-bit_and : (k a b : ℕ) → test_bit k (bit_and a b) ≡ min (test_bit k a) (test_bit k b)
test_bit-bit_and zero a b = omega (arith, and_digit a b)
test_bit-bit_and (suc k) a b =
    let half : bit_and a b / 2 ≡ bit_and (a / 2) (b / 2) = omega (arith, and_digit a b) in
    rw half (test_bit-bit_and k (a / 2) (b / 2))

bit_and-zero_fuel : (n a : ℕ) → a ≤ n → bit_and a 0 ≡ 0
bit_and-zero_fuel n zero h = omega (arith, bit_and-bitwise 0 0)
bit_and-zero_fuel zero (suc a) h = absurd (omega arith)
bit_and-zero_fuel (suc n) (suc a) h =
    omega (arith, and_digit (suc a) 0, bit_and-zero_fuel n (suc a / 2) (omega arith))

pub bit_and-zero : (a : ℕ) → bit_and a 0 ≡ 0
bit_and-zero a = bit_and-zero_fuel a a (omega arith)

-- The lowest digit of a remainder by a power of two, and the digits above it.
mod_pow_digit : (n a : ℕ) → a % 2 ^ suc n ≡ a / 2 % 2 ^ n * 2 + a % 2
mod_pow_digit n a =
    let low : ℕ = a / 2 % 2 ^ n * 2 + a % 2 in
    let split : a ≡ low + a / 2 / 2 ^ n * 2 ^ suc n =
      omega (arith, div-add-mod (a / 2) (2 ^ n), ap (λ (t : ℕ). a / 2 / 2 ^ n * t) (pow-suc 2 n)) in
    let fits : low < 2 ^ suc n =
      omega (arith, pow-suc 2 n, mod-lt (a / 2) {m = 2 ^ n} (one-le-pow n 2 (omega arith))) in
    ap (λ (t : ℕ). t % 2 ^ suc n) split
    ∙ add-mul-mod_self_right low (a / 2 / 2 ^ n) (2 ^ suc n)
    ∙ mod-eq_of_lt fits

-- `a & (1<<k - 1)` is the remainder by 2 ^ k.
pub bit_and_mask : (k a : ℕ) → bit_and a (2 ^ k - 1) ≡ a % 2 ^ k
bit_and_mask zero a = rw (bit_and-zero a) (omega arith)
bit_and_mask (suc k) a =
    let mask : (2 ^ suc k - 1) / 2 ≡ 2 ^ k - 1 =
      omega (arith, pow-suc 2 k, one-le-pow k 2 (omega arith)) in
    let low : bit_and a (2 ^ suc k - 1) ≡ bit_and (a / 2) (2 ^ k - 1) * 2 + a % 2 =
      rw (← mask)
        (omega (arith, and_digit a (2 ^ suc k - 1), pow-suc 2 k, one-le-pow k 2 (omega arith))) in
    omega (arith, low, bit_and_mask k (a / 2), mod_pow_digit k a)

-- A single bit.
pub test_bit-pow : (k j : ℕ) → test_bit k (2 ^ j) ≡ (if k == j then 1 else 0)
test_bit-pow zero zero = refl
test_bit-pow zero (suc j) = ground (arith, pow-suc 2 j)
test_bit-pow (suc k) zero = ground (arith, test_bit-zero k)
test_bit-pow (suc k) (suc j) =
    let half : 2 ^ suc j / 2 ≡ 2 ^ j = omega (arith, pow-suc 2 j) in
    rw half (ground (arith, test_bit-pow k j))

-- `a << s`, before the word cuts it off.
pub test_bit-mul_pow :
    (s k a : ℕ) → test_bit k (a * 2 ^ s) ≡ (if ltb k s then 0 else test_bit (k - s) a)
test_bit-mul_pow zero k a =
    let same : a * 2 ^ 0 ≡ a = omega arith in
    let stay : k - 0 ≡ k = omega arith in rw (same, stay) (ground arith)
test_bit-mul_pow (suc s) zero a = ground (arith, ap (λ (t : ℕ). a * t) (pow-suc 2 s))
test_bit-mul_pow (suc s) (suc k) a =
    let half : a * 2 ^ suc s / 2 ≡ a * 2 ^ s = omega (arith, ap (λ (t : ℕ). a * t) (pow-suc 2 s)) in
    rw half (ground (arith, test_bit-mul_pow s k a))

-- `a >> s`
pub test_bit-div_pow : (s k a : ℕ) → test_bit k (a / 2 ^ s) ≡ test_bit (s + k) a
test_bit-div_pow zero k a =
    let same : a / 2 ^ 0 ≡ a = omega arith in let stay : 0 + k ≡ k = omega arith in rw (same, stay)
test_bit-div_pow (suc s) k a =
    let halved : a / 2 ^ suc s ≡ a / 2 / 2 ^ s = rw (pow-succ', div-div-eq-div-mul) in
    let next : suc s + k ≡ suc (s + k) = omega arith in
    rw (halved, next) (test_bit-div_pow s k (a / 2))

-- Cutting off at `n` bits.
pub test_bit-mod_pow : (n k a : ℕ) → test_bit k (a % 2 ^ n) ≡ (if ltb k n then test_bit k a else 0)
test_bit-mod_pow zero k a =
    let none : a % 2 ^ 0 ≡ 0 = omega arith in rw none (ground (arith, test_bit-zero k))
test_bit-mod_pow (suc n) zero a = ground (arith, mod_pow_digit n a)
test_bit-mod_pow (suc n) (suc k) a =
    let half : a % 2 ^ suc n / 2 ≡ a / 2 % 2 ^ n = omega (arith, mod_pow_digit n a) in
    rw half (ground (arith, test_bit-mod_pow n k (a / 2)))

zero_or : (a b : ℕ) → a ≡ 0 → b ≡ 0 → bit_or a b ≡ 0
zero_or a b e e' = rw (e, e') (bit_or-bitwise 0 0)

-- A number below 2 ^ n has no bit from `n` on.
pub test_bit_ge : (n k a : ℕ) → a < 2 ^ n → n ≤ k → test_bit k a ≡ 0
test_bit_ge n k a fits h =
    let same : a % 2 ^ n ≡ a = mod-eq_of_lt fits in
    ap (λ t. test_bit k t) (sym same) ∙ test_bit-mod_pow n k a ∙ ground arith

-- `a & (1<<k)` is bit `k`, in its place.
pub bit_and-pow : (k a : ℕ) → bit_and a (2 ^ k) ≡ test_bit k a * 2 ^ k
bit_and-pow zero a = omega (arith, and_digit a 1, bit_and-zero (a / 2))
bit_and-pow (suc k) a =
    let half : 2 ^ suc k / 2 ≡ 2 ^ k = omega (arith, pow-suc 2 k) in
    let low : bit_and a (2 ^ suc k) ≡ bit_and (a / 2) (2 ^ k) * 2 =
      rw (← half) (omega (arith, and_digit a (2 ^ suc k), pow-suc 2 k)) in
    omega (arith, low, bit_and-pow k (a / 2), ap (λ (t : ℕ). test_bit k (a / 2) * t) (pow-suc 2 k))

-- Of two numbers below 2 ^ n, so is the or.
pub bit_or-lt : (n a b : ℕ) → a < 2 ^ n → b < 2 ^ n → bit_or a b < 2 ^ n
bit_or-lt zero a b ha hb =
    omega (arith, or_digit a b, zero_or (a / 2) (b / 2) (omega arith) (omega arith))
bit_or-lt (suc n) a b ha hb =
    let half = pow-suc 2 n in
    omega (arith, or_digit a b, half, bit_or-lt n (a / 2) (b / 2) (omega arith) (omega arith))
