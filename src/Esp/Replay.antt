-- ===== src/Esp/Replay.antt =====
-- internal/esp/replay.go: the sliding anti-replay window. The methods run under the window's mutex, so
-- each is one step on its state. No method returns an error: the type of errors is empty.
pub mod Shift
pub mod Bitmap
pub mod SetGet
pub mod History
pub mod Refine
pub mod Runs
use go_ipsec.Common.{
  ℕ, zero, suc, ◌+◌, ◌-◌, ◌*◌, ◌/◌, ◌%◌, ◌^◌, Bool, true, false, not, List, [], ◌++◌, bit_and,
  bit_or, ltb, leb, ◌==◌, if◌then◌else◌, length, take, replicate, map, Outcome, ok, ◌>>=◌, byte_at,
  set_at,
}

pub record ReplayWindow : Type 0 where
  pub size : ℕ
  pub last : ℕ
  pub bits : List ℕ

abbrev pub max_replay_window : ℕ
max_replay_window = 2 ^ 20

-- The two tests that adjust the size.
unfoldable pub clamp_size : ℕ → ℕ
clamp_size size =
    let size' = if ltb size 64 then 64 else size in
    if ltb max_replay_window size' then max_replay_window else size'

unfoldable pub new_replay_window : ℕ → ReplayWindow
unfolding clamp_size
new_replay_window size =
    let words = (clamp_size size + 63) / 64 in
    record { size = words * 64 % 2 ^ 32; last = 0; bits = replicate words 0 }

-- `x << n` and `x >> n` on uint64.
abbrev pub shl64 : ℕ → ℕ → ℕ
shl64 x n = x * 2 ^ n % 2 ^ 64

abbrev pub shr64 : ℕ → ℕ → ℕ
shr64 x n = x / 2 ^ n

unfoldable pub set_bit : List ℕ → ℕ → Outcome ⊥ (List ℕ)
set_bit bits offset = do
  word ← byte_at bits (offset / 64)
  set_at bits (offset / 64) (bit_or word (shl64 1 (offset % 64)))

unfoldable pub get_bit : List ℕ → ℕ → Outcome ⊥ Bool
get_bit bits offset = do
  word ← byte_at bits (offset / 64)
  ok (not (bit_and word (shl64 1 (offset % 64)) == 0))

-- `for i := len(b) - 1; i > words; i--`, in place, with `k` rounds left: `i` is `words + k`.
unfoldable pub shift_words : ℕ → ℕ → ℕ → List ℕ → Outcome ⊥ (List ℕ)
shift_words zero words bits b = ok b
shift_words (suc k) words bits b = do
  let i = words + suc k
  high ← byte_at b (i - words)
  low ← byte_at b (i - words - 1)
  b' ← set_at b i (bit_or (shl64 high bits) (shr64 low (64 - bits)))
  shift_words k words bits b'

-- `for i := range words { b[i] = 0 }`, from `i` on with `n` rounds left.
unfoldable pub clear_words : ℕ → ℕ → List ℕ → Outcome ⊥ (List ℕ)
clear_words zero i b = ok b
clear_words (suc n) i b = do b' ← set_at b i 0; clear_words n (i + 1) b'

-- The branch for a number of bits that is no multiple of 64.
unfoldable pub shift_bits : ℕ → ℕ → List ℕ → Outcome ⊥ (List ℕ)
shift_bits words bits b = do
  b' ← shift_words (length b - 1 - words) words bits b
  lowest ← byte_at b' 0
  set_at b' words (shl64 lowest bits)

-- The branch for whole words, `copy(b[words:], b[:len(b)-words])`.
unfoldable pub copy_words : ℕ → List ℕ → List ℕ
copy_words words b = take words b ++ take (length b - words) b

unfoldable pub shift_up : List ℕ → ℕ → Outcome ⊥ (List ℕ)
shift_up b n =
    let words = n / 64 in
    let bits = n % 64 in
    if n == 0 then ok b else if leb (length b) words then ok (replicate (length b) 0) else (do
      b' ← if bits == 0 then ok (copy_words words b) else shift_bits words bits b
      clear_words words 0 b')

unfoldable pub accept_newer : ReplayWindow → ℕ → Outcome ⊥ (Bool × ReplayWindow)
accept_newer w seq = do
  shifted ← shift_up w.bits (seq - w.last)
  bits ← set_bit shifted 0
  ok (true, record w { last = seq; bits = bits })

unfoldable pub accept_older : ReplayWindow → ℕ → Outcome ⊥ (Bool × ReplayWindow)
accept_older w seq = do
  let offset = w.last - seq
  if leb w.size offset then ok (false, w) else (do
    seen ← get_bit w.bits offset
    if seen
        then ok (false, w)
        else (do bits ← set_bit w.bits offset; ok (true, record w { bits = bits })))

-- The answer, and the window that the call leaves.
unfoldable pub accept : ReplayWindow → ℕ → Outcome ⊥ (Bool × ReplayWindow)
accept w seq =
    if seq == 0
    then ok (false, w)
    else if ltb w.last seq
    then accept_newer w seq
    else if seq == w.last
    then ok (false, w)
    else accept_older w seq
