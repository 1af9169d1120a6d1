-- ===== src/Esp/Replay/SetGet.antt =====
-- `setBit` and `getBit` on the bitmap.
use native.Mathlib.Decide.{ℕ_discrete}
use native.Mathlib.Nat.{pow-le-pow_right}
use go_ipsec.Common.{
  ℕ, ◌*◌, ◌/◌, ◌%◌, ◌^◌, ◌≤◌, ◌<◌, ◌≡◌, refl, ap, not, List, bit_or, length, set, length-set,
  get_or-set_self, get_or-set_ne, arith, ◌==◌, ==-of_ne, if◌then◌else◌, ok, run-byte_at, set_at-lt,
}
use go_ipsec.Common.Bits.{test_bit-lt, test_bit-bit_or, test_bit-pow, bit_and-pow, bit_or-lt}
use go_ipsec.Esp.Replay.{shl64, set_bit, get_bit}
use go_ipsec.Esp.Replay.Shift.{word}
use go_ipsec.Esp.Replay.Bitmap.{bit_at, AreWords}

pow_fits : (k : ℕ) → k < 64 → 2 ^ k ≤ 2 ^ 63
pow_fits k h = pow-le-pow_right {n = 2} (omega arith) {i = k} {j = 63} (omega arith)

one_shl : (k : ℕ) → k < 64 → shl64 1 k ≡ 2 ^ k
one_shl k h = omega (arith, pow_fits k h)

-- The bitmap with one bit set.
abbrev pub with_bit : List ℕ → ℕ → List ℕ
with_bit b offset = set b (offset / 64) (bit_or (word b (offset / 64)) (2 ^ (offset % 64)))

pub set_bit-ok :
    (b : List ℕ) (offset : ℕ) → offset < 64 * length b → set_bit b offset ≡ ok (with_bit b offset)
unfolding set_bit
set_bit-ok b offset h =
    run-byte_at _ _ (word b (offset / 64)) _ (omega arith) refl
      (rw (one_shl (offset % 64) (omega arith)) (set_at-lt b (offset / 64) _ (omega arith)))

pub with_bit-AreWords :
    (b : List ℕ) (offset : ℕ) → AreWords b → offset < 64 * length b → AreWords (with_bit b offset)
with_bit-AreWords b offset fits h j = elim (ℕ_discrete (offset / 64) j) [
  | yes e ↦
      rw
        (
          ← e,
          get_or-set_self b (offset / 64) (bit_or (word b (offset / 64)) (2 ^ (offset % 64))) 0
              (omega arith),
        )
        (bit_or-lt 64 _ _ (fits (offset / 64))
          (omega (arith, pow_fits (offset % 64) (omega arith))))
  | no ne ↦
      rw (get_or-set_ne b (offset / 64) j (bit_or (word b (offset / 64)) (2 ^ (offset % 64))) 0 ne)
        (fits j)
]

-- Setting a bit sets that bit and no other.
pub with_bit-bit_at :
    (b : List ℕ) (offset o : ℕ)
    → offset < 64 * length b
    → bit_at (with_bit b offset) o ≡ (if o == offset then 1 else bit_at b o)
with_bit-bit_at b offset o h =
    let v = bit_or (word b (offset / 64)) (2 ^ (offset % 64)) in
    elim (ℕ_discrete (offset / 64) (o / 64)) [
      | yes e ↦
          rw (← e, get_or-set_self b (offset / 64) v 0 (omega arith))
            (ground (
              arith,
              test_bit-bit_or (o % 64) (word b (offset / 64)) (2 ^ (offset % 64)),
              test_bit-pow (o % 64) (offset % 64),
              test_bit-lt (o % 64) (word b (offset / 64)),
            ))
      | no ne ↦
          rw (get_or-set_ne b (offset / 64) (o / 64) v 0 ne, ==-of_ne o offset (ground arith)) refl
    ]

one-le_pow : (k : ℕ) → 1 ≤ 2 ^ k
one-le_pow k = pow-le-pow_right {n = 2} (omega arith) {i = 0} {j = k} (omega arith)

tested : (t p : ℕ) → t < 2 → 1 ≤ p → not (t * p == 0) ≡ (t == 1)
tested t p h k = ground arith

-- Reading a bit.
pub get_bit-ok :
    (b : List ℕ) (offset : ℕ)
    → offset < 64 * length b
    → get_bit b offset ≡ ok (bit_at b offset == 1)
unfolding get_bit
get_bit-ok b offset h = run-byte_at _ _ (word b (offset / 64)) _ (omega arith) refl (
    rw (one_shl (offset % 64) (omega arith), bit_and-pow (offset % 64) (word b (offset / 64)))
      (ap ok
        (tested _ _ (test_bit-lt (offset % 64) (word b (offset / 64))) (one-le_pow (offset % 64)))))

pub length-with_bit : (b : List ℕ) (offset : ℕ) → length (with_bit b offset) ≡ length b
length-with_bit b offset =
    length-set b (offset / 64) (bit_or (word b (offset / 64)) (2 ^ (offset % 64)))
