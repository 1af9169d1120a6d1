-- ===== src/Common/Bytes.antt =====
-- Byte slices: indexing and slicing as Go does them, and the big-endian words of encoding/binary.
use Prim.Native.Nat.{ℕ, ◌+◌, ◌-◌, ◌*◌, ◌/◌, ◌%◌, ◌^◌, ◌<◌, ◌≤◌}
use mathlib.Core.Bool.{◌&&◌}
use mathlib.Core.List.{List, [], ◌∷◌, ◌++◌}
use go_ipsec.Common.Tests.{ltb, leb, if◌then◌else◌}
use go_ipsec.Common.Lists.{length, get_or, set, take, drop}
use go_ipsec.Common.Results.{Outcome, ok, panic}
use native.Mathlib.Omega.{arith}
use mathlib.Core.Path.{◌≡◌}

abbrev pub IsByte : ℕ → Type 0
IsByte b = b < 256

abbrev pub IsU16 : ℕ → Type 0
IsU16 v = v < 2 ^ 16

abbrev pub IsU32 : ℕ → Type 0
IsU32 v = v < 2 ^ 32

abbrev pub IsU64 : ℕ → Type 0
IsU64 v = v < 2 ^ 64

-- `xs[i]`
unfoldable pub byte_at : {E : Type 0} → List ℕ → ℕ → Outcome E ℕ
byte_at xs i = if ltb i (length xs) then ok (get_or xs i 0) else panic

-- `xs[lo:hi]`; the capacity of a slice of the input is its length.
unfoldable pub slice : {E : Type 0} → List ℕ → ℕ → ℕ → Outcome E (List ℕ)
slice xs lo hi = if leb lo hi && leb hi (length xs) then ok (take (hi - lo) (drop lo xs)) else panic

-- `xs[lo:]`
unfoldable pub slice_from : {E : Type 0} → List ℕ → ℕ → Outcome E (List ℕ)
slice_from xs lo = if leb lo (length xs) then ok (drop lo xs) else panic

-- The number that the bytes from `i` on stand for, most significant first.
abbrev pub word16 : List ℕ → ℕ → ℕ
word16 xs i = get_or xs i 0 * 256 + get_or xs (i + 1) 0

abbrev pub word32 : List ℕ → ℕ → ℕ
word32 xs i = word16 xs i * 65536 + word16 xs (i + 2)

abbrev pub word64 : List ℕ → ℕ → ℕ
word64 xs i = word32 xs i * 4294967296 + word32 xs (i + 4)

-- `binary.BigEndian.Uint16(xs[i:i+2])`, and the same for 4 and 8 bytes.
unfoldable pub uint16_at : {E : Type 0} → List ℕ → ℕ → Outcome E ℕ
uint16_at xs i = if leb (i + 2) (length xs) then ok (word16 xs i) else panic

unfoldable pub uint32_at : {E : Type 0} → List ℕ → ℕ → Outcome E ℕ
uint32_at xs i = if leb (i + 4) (length xs) then ok (word32 xs i) else panic

unfoldable pub uint64_at : {E : Type 0} → List ℕ → ℕ → Outcome E ℕ
uint64_at xs i = if leb (i + 8) (length xs) then ok (word64 xs i) else panic

-- What `binary.BigEndian.PutUint16`, `PutUint32` and `PutUint64` write.
abbrev pub put_uint16 : ℕ → List ℕ
put_uint16 v = (v / 256 % 256) ∷ (v % 256) ∷ []

abbrev pub put_uint32 : ℕ → List ℕ
put_uint32 v = put_uint16 (v / 65536) ++ put_uint16 v

abbrev pub put_uint64 : ℕ → List ℕ
put_uint64 v = put_uint32 (v / 4294967296) ++ put_uint32 v

-- In range, the accesses yield.
module _ {E : Type 0} (xs : List ℕ) where
  pub byte_at-lt : (i : ℕ) → i < length xs → byte_at {E = E} xs i ≡ ok (get_or xs i 0)
  unfolding byte_at
  byte_at-lt i h = ground arith

  pub slice-le :
      (lo hi : ℕ)
      → lo ≤ hi
      → hi ≤ length xs
      → slice {E = E} xs lo hi ≡ ok (take (hi - lo) (drop lo xs))
  unfolding slice
  slice-le lo hi h k = ground arith

  pub slice_from-le : (lo : ℕ) → lo ≤ length xs → slice_from {E = E} xs lo ≡ ok (drop lo xs)
  unfolding slice_from
  slice_from-le lo h = ground arith

  pub uint16_at-le : (i : ℕ) → i + 2 ≤ length xs → uint16_at {E = E} xs i ≡ ok (word16 xs i)
  unfolding uint16_at
  uint16_at-le i h = ground arith

  pub uint32_at-le : (i : ℕ) → i + 4 ≤ length xs → uint32_at {E = E} xs i ≡ ok (word32 xs i)
  unfolding uint32_at
  uint32_at-le i h = ground arith

  pub uint64_at-le : (i : ℕ) → i + 8 ≤ length xs → uint64_at {E = E} xs i ≡ ok (word64 xs i)
  unfolding uint64_at
  uint64_at-le i h = ground arith

-- `xs[i] = v`
unfoldable pub set_at : {E : Type 0} → List ℕ → ℕ → ℕ → Outcome E (List ℕ)
set_at xs i v = if ltb i (length xs) then ok (set xs i v) else panic

pub set_at-lt :
    {E : Type 0} (xs : List ℕ) (i v : ℕ) → i < length xs → set_at {E = E} xs i v ≡ ok (set xs i v)
unfolding set_at
set_at-lt xs i v h = ground arith
