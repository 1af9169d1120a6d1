-- ===== src/Esp/Replay/Shift.antt =====
-- `shiftUp`: the bitmap moves toward higher offsets. First the words, then the bits.
use go_ipsec.Common.{
  ℕ, zero, suc, ◌+◌, ◌-◌, ◌/◌, ◌%◌, ◌≤◌, ◌<◌, ◌≡◌, ◌≢◌, ◌⊎◌, inr, refl, ap, ◌∙◌, List, bit_or,
  length, get_or, set, length-set, get_or-set_self, get_or-set_ne, arith, ok, Ensures,
  Ensures-byte_at, Ensures-set_at, Ensures-bind, Ensures-weaken, Ensures-if, yields, set_at-lt, ltb,
  leb, ◌==◌, if◌then◌else◌, take, length-take, length-append, get_or-append_ge, get_or-take,
  get_or-replicate, length-replicate, replicate,
}
use go_ipsec.Esp.Replay.{shl64, shr64, shift_words, clear_words, shift_bits, copy_words, shift_up}

abbrev pub word : List ℕ → ℕ → ℕ
word b j = get_or b j 0

-- What the shift by `bits` makes of a word and the one below it.
abbrev pub joined : ℕ → ℕ → ℕ → ℕ
joined bits high low = bit_or (shl64 high bits) (shr64 low (64 - bits))

-- The loop has written the `k` words above `words`, and no other.
pub record HasMoved (k words bits : ℕ) (b out : List ℕ) : Type 0 where
  pub same_length : length out ≡ length b
  pub moved :
      (j : ℕ)
      → words < j
      → j ≤ words + k
      → word out j ≡ joined bits (word b (j - words)) (word b (j - words - 1))
  pub kept : (j : ℕ) → (j ≤ words) ⊎ (words + k < j) → word out j ≡ word b j

shift_words-Ensures :
    (k words bits : ℕ) (b : List ℕ)
    → words + k < length b
    → Ensures (HasMoved k words bits b) (shift_words k words bits b)
unfolding shift_words
shift_words-Ensures zero words bits b h =
    yields
      (record { same_length = refl; moved = λ j p q. absurd (omega arith); kept = λ j p. refl })
shift_words-Ensures (suc k) words bits b h =
    let i = words + suc k in
    Ensures-byte_at _ _ _ (omega arith) λ high e. Ensures-byte_at _ _ _ (omega arith) λ low e'.
      let b' = set b i (joined bits high low) in
      Ensures-set_at _ _ _ _ (omega arith) (
        Ensures-weaken
          (shift_words-Ensures k words bits b'
            (omega (arith, length-set b i (joined bits high low))))
          λ out m. record {
            same_length = m.same_length ∙ length-set b i (joined bits high low);
            moved = λ j p q. ground (
              arith,
              m.moved j,
              m.kept j,
              get_or-set_self b i (joined bits high low) 0,
              get_or-set_ne b i (j - words) (joined bits high low) 0,
              get_or-set_ne b i (j - words - 1) (joined bits high low) 0,
            );
            kept = λ j p. ground (arith, m.kept j, get_or-set_ne b i j (joined bits high low) 0);
          })

-- The words from `i` up to `i + n` are 0, the others as they were.
pub record IsCleared (n i : ℕ) (b out : List ℕ) : Type 0 where
  pub same_length : length out ≡ length b
  pub cleared : (j : ℕ) → i ≤ j → j < i + n → word out j ≡ 0
  pub kept : (j : ℕ) → (j < i) ⊎ (i + n ≤ j) → word out j ≡ word b j

clear_words-Ensures :
    (n i : ℕ) (b : List ℕ) → i + n ≤ length b → Ensures (IsCleared n i b) (clear_words n i b)
unfolding clear_words
clear_words-Ensures zero i b h =
    yields
      (record { same_length = refl; cleared = λ j p q. absurd (omega arith); kept = λ j p. refl })
clear_words-Ensures (suc n) i b h = Ensures-set_at _ _ _ _ (omega arith) (
    Ensures-weaken (clear_words-Ensures n (i + 1) (set b i 0) (omega (arith, length-set b i 0)))
      λ out m. record {
        same_length = m.same_length ∙ length-set b i 0;
        cleared = λ j p q. ground (arith, m.cleared j, m.kept j, get_or-set_self b i 0 0);
        kept = λ j p. ground (arith, m.kept j, get_or-set_ne b i j 0 0);
      })

-- What the shift puts into word `j`, from `words` on.
abbrev pub moved_word : ℕ → ℕ → List ℕ → ℕ → ℕ
moved_word words bits b j =
    if bits == 0
    then word b (j - words)
    else if ltb words j
    then joined bits (word b (j - words)) (word b (j - words - 1))
    else shl64 (word b 0) bits

-- The words from `words` on are moved; the ones below are left for clearing.
pub record IsMoved (words bits : ℕ) (b out : List ℕ) : Type 0 where
  pub same_length : length out ≡ length b
  pub moved : (j : ℕ) → words ≤ j → j < length b → word out j ≡ moved_word words bits b j

shift_bits-Ensures :
    (words bits : ℕ) (b : List ℕ)
    → words < length b
    → bits ≢ 0
    → Ensures (IsMoved words bits b) (shift_bits words bits b)
unfolding shift_bits
shift_bits-Ensures words bits b h ne =
    Ensures-bind _ _ (shift_words-Ensures (length b - 1 - words) words bits b (omega arith)) λ b' m.
      let same = m.same_length in
      Ensures-byte_at _ _ _ (omega arith) λ lowest e.
        Ensures-weaken {P = λ out. out ≡ set b' words (shl64 lowest bits)}
          (rw (set_at-lt b' words (shl64 lowest bits) (omega arith)) (yields refl))
          λ out eq. record {
            same_length = rw eq (length-set b' words (shl64 lowest bits) ∙ same);
            moved = λ j p q. rw eq (
                ground (
                  arith,
                  m.moved j,
                  m.kept 0,
                  get_or-set_self b' words (shl64 lowest bits) 0,
                  get_or-set_ne b' words j (shl64 lowest bits) 0,
                ));
          }

copy_words-IsMoved :
    (words : ℕ) (b : List ℕ) → words ≤ length b → IsMoved words 0 b (copy_words words b)
unfolding copy_words
copy_words-IsMoved words b h =
    let front = length-take words b in
    let back = length-take (length b - words) b in
    record {
      same_length =
          omega (arith, front, back, length-append (take words b) (take (length b - words) b));
      moved = λ j p q.
          get_or-append_ge (take words b) (take (length b - words) b) j 0 (omega arith)
          ∙ get_or-take (length b - words) b (j - length (take words b)) 0 (omega arith)
          ∙ ap (λ k. word b k) (omega arith);
    }

-- The words of the bitmap behind a shift by `n`.
pub record IsShifted (n : ℕ) (b out : List ℕ) : Type 0 where
  pub same_length : length out ≡ length b
  pub cleared : (j : ℕ) → j < n / 64 → word out j ≡ 0
  pub moved : (j : ℕ) → n / 64 ≤ j → j < length b → word out j ≡ moved_word (n / 64) (n % 64) b j

IsMoved-Ensures :
    (words bits : ℕ) (b : List ℕ)
    → words < length b
    → Ensures
        (IsMoved words bits b)
        (if bits == 0 then ok (copy_words words b) else shift_bits words bits b)
IsMoved-Ensures words bits b h =
    Ensures-if (bits == 0) _ _
      (λ e.
        let none : bits ≡ 0 = ground arith in
        rw none (yields (copy_words-IsMoved words b (omega arith))))
      (λ e. shift_bits-Ensures words bits b h (ground arith))

pub shift_up-Ensures : (b : List ℕ) (n : ℕ) → Ensures (IsShifted n b) (shift_up b n)
unfolding shift_up
shift_up-Ensures b n =
    Ensures-if (n == 0) _ _ (λ e. yields (unshifted (ground arith)))
      λ ne.
        Ensures-if (leb (length b) (n / 64)) _ _ (λ far. yields (emptied (ground arith)))
          λ near. Ensures-bind _ _ (IsMoved-Ensures (n / 64) (n % 64) b (ground arith)) λ b' m.
            Ensures-weaken (clear_words-Ensures (n / 64) 0 b' (ground (arith, m.same_length)))
              λ out c. record {
                same_length = c.same_length ∙ m.same_length;
                cleared = λ j p. c.cleared j (omega arith) (omega arith);
                moved = λ j p q. c.kept j (inr (omega arith)) ∙ m.moved j p q;
              }
  where
    unshifted : n ≡ 0 → IsShifted n b b
    unshifted e = record {
      same_length = refl;
      cleared = λ j p. absurd (omega arith);
      moved = λ j p q. rw e (ap (λ k. word b k) (omega arith));
    }

    emptied : length b ≤ n / 64 → IsShifted n b (replicate (length b) 0)
    emptied h = record {
      same_length = length-replicate (length b) 0;
      cleared = λ j p. get_or-replicate (length b) j 0;
      moved = λ j p q. absurd (omega arith);
    }
