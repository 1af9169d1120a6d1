-- ===== src/Esp/Replay/Bitmap.antt =====
-- The bitmap as a function from offsets to bits: what setting, reading and shifting do to it.
use go_ipsec.Common.{
  ℕ, ◌+◌, ◌-◌, ◌*◌, ◌/◌, ◌%◌, ◌^◌, ◌≤◌, ◌<◌, ◌≡◌, refl, sym, ◌∙◌, false, List, length, get_or_ge,
  arith, ltb, ltb-of_le, ltb-of_lt, ==-of_ne, Bool-cases, inl, inr, if◌then◌else◌,
}
use native.Mathlib.Decide.{dec_lt}
use native.Mathlib.Nat.{div-le_self}
use go_ipsec.Common.Bits.{
  test_bit, test_bit-zero, test_bit-bit_or, test_bit-mul_pow, test_bit-div_pow, test_bit-mod_pow,
  test_bit_ge, bit_or-lt,
}
use go_ipsec.Esp.Replay.{shl64, shr64}
use go_ipsec.Esp.Replay.Shift.{word, joined, moved_word, IsShifted}

-- Bit `o` of the bitmap, 0 or 1.
abbrev pub bit_at : List ℕ → ℕ → ℕ
bit_at b o = test_bit (o % 64) (word b (o / 64))

-- Each word is a uint64.
abbrev pub AreWords : List ℕ → Type 0
AreWords b = (j : ℕ) → word b j < 2 ^ 64

test_bit-shl64 :
    (r bits x : ℕ)
    → r < 64
    → test_bit r (shl64 x bits) ≡ (if ltb r bits then 0 else test_bit (r - bits) x)
test_bit-shl64 r bits x h =
    ground (arith, test_bit-mod_pow 64 r (x * 2 ^ bits), test_bit-mul_pow bits r x)

test_bit-joined :
    (r bits high low : ℕ)
    → r < 64
    → 0 < bits
    → bits < 64
    → low < 2 ^ 64
    → test_bit r (joined bits high low)
      ≡ (if ltb r bits then test_bit (64 - bits + r) low else test_bit (r - bits) high)
test_bit-joined r bits high low hr pos lt fits = ground (
  arith,
  test_bit-bit_or r (shl64 high bits) (shr64 low (64 - bits)),
  test_bit-shl64 r bits high,
  test_bit-div_pow (64 - bits) r low,
  test_bit_ge 64 (64 - bits + r) low,
)

bit_at_of : (b : List ℕ) (o k r : ℕ) → o / 64 ≡ k → o % 64 ≡ r → bit_at b o ≡ test_bit r (word b k)
bit_at_of b o k r e e' = rw (e, e')

-- A bit of a moved word is the bit of the bitmap `n` offsets lower, if there is one.
module _ (n o : ℕ) (b : List ℕ) (fits : AreWords b) (le : n / 64 ≤ o / 64) where
  abbrev MovedBit : Type 0
  MovedBit =
      test_bit (o % 64) (moved_word (n / 64) (n % 64) b (o / 64))
      ≡ (if ltb o n then 0 else bit_at b (o - n))

  moved_whole : n % 64 ≡ 0 → MovedBit
  moved_whole e =
      let in_range : ltb o n ≡ false = ltb-of_le o n (omega arith) in
      let found = bit_at_of b (o - n) (o / 64 - n / 64) (o % 64) (omega arith) (omega arith) in
      rw (e, in_range) (sym found)

  moved_joined : 0 < n % 64 → n / 64 < o / 64 → MovedBit
  moved_joined part above =
      let in_range : ltb o n ≡ false = ltb-of_le o n (omega arith) in
      let bits = n % 64 in
      let r = o % 64 in
      let d = o / 64 - n / 64 in
      let split =
        test_bit-joined r bits (word b d) (word b (d - 1)) (omega arith) part (omega arith)
          (fits (d - 1)) in
      let low = bit_at_of b (o - n) (d - 1) (64 - bits + r) in
      let high = bit_at_of b (o - n) d (r - bits) in
      rw (==-of_ne (n % 64) 0 (omega arith), ltb-of_lt (n / 64) (o / 64) above, in_range)
        (split ∙ elim (Bool-cases (ltb r bits)) [
          | inl below ↦ rw below (sym (low (ground arith) (ground arith)))
          | inr beyond ↦ rw beyond (sym (high (ground arith) (ground arith)))
        ])

  moved_lowest : 0 < n % 64 → n / 64 ≡ o / 64 → MovedBit
  moved_lowest part at =
      let r = o % 64 in
      let bits = n % 64 in
      let split = test_bit-shl64 r bits (word b 0) (omega arith) in
      let found = bit_at_of b (o - n) 0 (r - bits) in
      rw (==-of_ne (n % 64) 0 (omega arith), ltb-of_le (n / 64) (o / 64) (omega arith))
        (split ∙ elim (Bool-cases (ltb r bits)) [
          | inl below ↦ rw (below, ltb-of_lt o n (ground arith)) refl
          | inr beyond ↦
              rw (beyond, ltb-of_le o n (ground arith)) (sym (found (ground arith) (ground arith)))
        ])

  moved_bit : MovedBit
  moved_bit = elim (dec_lt 0 (n % 64)) [
    | yes part ↦ elim (dec_lt (n / 64) (o / 64)) [
      | yes above ↦ moved_joined part above
      | no here ↦ moved_lowest part (omega arith)
    ]
    | no whole ↦ moved_whole (omega arith)
  ]

-- Behind a shift by `n` the bit at an offset is the one that was `n` lower; the lowest `n` are 0.
pub IsShifted-bit_at :
    (n : ℕ) (b out : List ℕ) (o : ℕ)
    → IsShifted n b out
    → AreWords b
    → o < 64 * length b
    → bit_at out o ≡ (if ltb o n then 0 else bit_at b (o - n))
IsShifted-bit_at n b out o s fits h = elim (dec_lt (o / 64) (n / 64)) [
  | yes below ↦ rw (s.cleared (o / 64) below, ltb-of_lt o n (omega arith)) (test_bit-zero (o % 64))
  | no above ↦
      rw (s.moved (o / 64) (omega arith) (omega arith)) (moved_bit n o b fits (omega arith))
]

moved_word-lt :
    (words bits : ℕ) (b : List ℕ) (j : ℕ) → AreWords b → moved_word words bits b j < 2 ^ 64
moved_word-lt words bits b j fits =
    let high = shl64 (word b (j - words)) bits in
    let low = shr64 (word b (j - words - 1)) (64 - bits) in
    ground (
      arith,
      fits (j - words),
      bit_or-lt 64 high low,
      div-le_self (word b (j - words - 1)) (2 ^ (64 - bits)),
      fits (j - words - 1),
    )

-- The words stay uint64s.
pub IsShifted-AreWords : (n : ℕ) (b out : List ℕ) → IsShifted n b out → AreWords b → AreWords out
IsShifted-AreWords n b out s fits j = elim (dec_lt j (length b)) [
  | yes inside ↦ elim (dec_lt j (n / 64)) [
    | yes below ↦ rw (s.cleared j below) (omega arith)
    | no above ↦ rw (s.moved j (omega arith) inside) (moved_word-lt (n / 64) (n % 64) b j fits)
  ]
  | no outside ↦ rw (get_or_ge out j 0 (omega (arith, s.same_length))) (omega arith)
]
