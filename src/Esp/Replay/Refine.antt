-- ===== src/Esp/Replay/Refine.antt =====
-- The window with its bitmap, beside the history of accepted sequence numbers.
use native.Mathlib.Decide.{dec_lt, ℕ_discrete}
use go_ipsec.Common.{
  ℕ, ◌-◌, ◌*◌, ◌≤◌, ◌<◌, ◌≡◌, ◌≢◌, inl, inr, refl, sym, ap, ◌∙◌, Bool, true, false, not, List, ◌∷◌,
  length, arith, ltb, ltb-of_le, ltb-of_lt, leb-of_le, leb-of_gt, ==-of_ne, ==-of_eq, ◌&&◌, ◌==◌,
  if◌then◌else◌, Outcome, ok, run-bind, Ensures-yields, Bool-cases,
}
use go_ipsec.Esp.Replay.{ReplayWindow, get_bit, accept_newer, accept_older, accept}
use go_ipsec.Esp.Replay.Shift.{shift_up-Ensures}
use go_ipsec.Esp.Replay.Bitmap.{bit_at, AreWords, IsShifted-bit_at, IsShifted-AreWords}
use go_ipsec.Esp.Replay.SetGet.{
  set_bit-ok, get_bit-ok, with_bit, length-with_bit, with_bit-AreWords, with_bit-bit_at,
}
use go_ipsec.Esp.Replay.History.{contains, newest, fresh, contains-newest, contains-newest_self}

-- The window holds the history: the highest number, and of those below it in reach which were accepted.
pub record Tracks (w : ReplayWindow) (seen : List ℕ) : Type 0 where
  pub sized : w.size ≡ 64 * length w.bits
  pub some_words : 0 < length w.bits
  pub are_words : AreWords w.bits
  pub highest : w.last ≡ newest seen
  pub marks : (o : ℕ) → o < w.size → bit_at w.bits o ≡ (if contains (w.last - o) seen then 1 else 0)
  pub no_zero : contains 0 seen ≡ false

-- The outcome of a call that answers `answer` and leaves a window of the same size with history `after`.
abbrev pub Answers : ReplayWindow → Outcome ⊥ (Bool × ReplayWindow) → Bool → List ℕ → Type 0
Answers w m answer after =
    (w' : ReplayWindow) × (m ≡ ok (answer, w')) × (w'.size ≡ w.size) × Tracks w' after

module _ (w : ReplayWindow) (seen : List ℕ) (seq : ℕ) (t : Tracks w seen) where
  marks_newer :
      (shifted : List ℕ) (o : ℕ)
      → w.last < seq
      → ((o : ℕ)
          → o < 64 * length w.bits
          → bit_at shifted o
            ≡ (if ltb o (seq - w.last) then 0 else bit_at w.bits (o - (seq - w.last))))
      → o < w.size
      → (if o == 0 then 1 else bit_at shifted o)
        ≡ (if contains (seq - o) (seq ∷ seen) then 1 else 0)
  unfolding contains
  marks_newer shifted o above moved h = elim (dec_lt o (seq - w.last)) [
    | yes vacated ↦
        ground (arith, moved o (rw (← t.sized) h), t.highest, contains-newest (seq - o) seen)
    | no kept ↦
        let same : w.last - (o - (seq - w.last)) ≡ seq - o = omega arith in
        let old = t.marks (o - (seq - w.last)) (omega arith) in
        ground (arith, moved o (rw (← t.sized) h), rw same at old)
  ]

  accepts_newer : w.last < seq → Answers w (accept_newer w seq) true (seq ∷ seen)
  unfolding accept_newer
  accepts_newer above =
      let (shifted, yielded, s) = Ensures-yields (shift_up-Ensures w.bits (seq - w.last)) in
      let same = s.same_length in
      let in_range : 0 < 64 * length shifted = omega (arith, t.some_words) in
      (
        record w { last = seq; bits = with_bit shifted 0 },
        run-bind _ _ _ yielded (run-bind _ _ _ (set_bit-ok shifted 0 in_range) refl),
        refl,
        record {
          sized = omega (arith, t.sized, length-with_bit shifted 0);
          some_words = omega (arith, t.some_words, length-with_bit shifted 0);
          are_words =
              with_bit-AreWords shifted 0 (IsShifted-AreWords _ w.bits shifted s t.are_words)
                in_range;
          highest = unfold newest in omega (arith, t.highest);
          marks = λ o h.
              with_bit-bit_at shifted 0 o in_range
              ∙ marks_newer shifted o above
                  (λ o h. IsShifted-bit_at _ w.bits shifted o s t.are_words h) h;
          no_zero = unfold contains in ground (arith, t.no_zero);
        },
      )

  marks_older :
      (o : ℕ)
      → seq ≢ 0
      → seq ≤ w.last
      → o < w.size
      → (if o == w.last - seq then 1 else bit_at w.bits o)
        ≡ (if contains (w.last - o) (seq ∷ seen) then 1 else 0)
  unfolding contains
  marks_older o pos le h = ground (arith, t.marks o)

  -- What the code reads in the bitmap for an older number is whether it was accepted.
  read_older :
      seq ≤ w.last → w.last - seq < w.size → get_bit w.bits (w.last - seq) ≡ ok (contains seq seen)
  read_older le near =
      let back : w.last - (w.last - seq) ≡ seq = omega arith in
      let mark = t.marks (w.last - seq) near in
      get_bit-ok w.bits (w.last - seq) (rw (← t.sized) near)
      ∙ ap ok (ap (λ (b : ℕ). b == 1) mark ∙ rw back (as_test (contains seq seen)))
    where
      as_test : (c : Bool) → ((if c then 1 else 0) == 1) ≡ c
      as_test true = refl
      as_test false = refl

  marked :
      seq ≢ 0
      → seq ≤ w.last
      → w.last - seq < w.size
      → Tracks (record w { bits = with_bit w.bits (w.last - seq) }) (seq ∷ seen)
  marked pos le near =
      let in_range : w.last - seq < 64 * length w.bits = rw (← t.sized) near in
      record {
        sized = omega (arith, t.sized, length-with_bit w.bits (w.last - seq));
        some_words = omega (arith, t.some_words, length-with_bit w.bits (w.last - seq));
        are_words = with_bit-AreWords w.bits (w.last - seq) t.are_words in_range;
        highest = unfold newest in omega (arith, t.highest);
        marks = λ o h. with_bit-bit_at w.bits (w.last - seq) o in_range ∙ marks_older o pos le h;
        no_zero = unfold contains in ground (arith, t.no_zero);
      }

  accepts_older :
      seq ≢ 0
      → seq ≤ w.last
      → let new = ltb (w.last - seq) w.size && not (contains seq seen) in
        Answers w (accept_older w seq) new (if new then seq ∷ seen else seen)
  unfolding accept_older
  accepts_older pos le = elim (dec_lt (w.last - seq) w.size) [
    | no far ↦
        rw
          (
            ltb-of_le (w.last - seq) w.size (omega arith),
            leb-of_le w.size (w.last - seq) (omega arith),
          )
          (w, refl, refl, t)
    | yes near ↦
        rw (ltb-of_lt (w.last - seq) w.size near, leb-of_gt w.size (w.last - seq) near)
          (elim (Bool-cases (contains seq seen)) [
            | inl old ↦ rw old (w, run-bind _ true _ (read_older le near ∙ ap ok old) refl, refl, t)
            | inr new ↦ rw new (
              record w { bits = with_bit w.bits (w.last - seq) },
              run-bind _ false _ (read_older le near ∙ ap ok new)
                  (run-bind _ _ _ (set_bit-ok w.bits (w.last - seq) (rw (← t.sized) near)) refl),
              refl,
              marked pos le near,
            )
          ])
  ]

  -- One call answers whether the number is fresh, and records it if so.
  pub accept_refines :
      let new = fresh w.size seen seq in
      Answers w (accept w seq) new (if new then seq ∷ seen else seen)
  unfolding accept fresh
  accept_refines =
      let top : newest seen ≡ w.last = sym t.highest in
      elim (ℕ_discrete seq 0) [
        | yes zero_seq ↦ rw (==-of_eq seq 0 zero_seq) (w, refl, refl, t)
        | no pos ↦ elim (dec_lt w.last seq) [
          | yes above ↦
              rw (==-of_ne seq 0 pos, top, ltb-of_lt w.last seq above) (accepts_newer above)
          | no le ↦
              rw (==-of_ne seq 0 pos, top, ltb-of_le w.last seq (omega arith))
                (elim (ℕ_discrete seq w.last) [
                  | yes same ↦
                      rw
                        (
                          ==-of_eq seq w.last same,
                          repeated same pos,
                          and_false (ltb (w.last - seq) w.size),
                        )
                        (w, refl, refl, t)
                  | no other ↦ rw (==-of_ne seq w.last other) (accepts_older pos (omega arith))
                ])
        ]
      ]
    where
      and_false : (b : Bool) → (b && false) ≡ false
      and_false true = refl
      and_false false = refl

      repeated : seq ≡ w.last → seq ≢ 0 → contains seq seen ≡ true
      repeated same pos =
          let e : seq ≡ newest seen = same ∙ t.highest in
          rw e (contains-newest_self seen (λ z. pos (e ∙ z)))
