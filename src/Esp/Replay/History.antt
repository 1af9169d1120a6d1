-- ===== src/Esp/Replay/History.antt =====
-- What an anti-replay window promises, with no bitmap: a packet is fresh if its sequence number is not
-- 0, and is either above all accepted ones or inside the window and not among them.
use go_ipsec.Common.{
  ℕ, ◌-◌, ◌<◌, ◌≡◌, ◌≢◌, max, refl, Bool, true, false, not, ◌&&◌, ◌||◌, List, [], ◌∷◌, ltb, ◌==◌,
  if◌then◌else◌, arith, Bool-cases, inl, inr,
}

unfoldable pub contains : ℕ → List ℕ → Bool
contains x [] = false
contains x (y ∷ ys) = x == y || contains x ys

-- The highest sequence number accepted so far, 0 at first.
unfoldable pub newest : List ℕ → ℕ
newest [] = 0
newest (x ∷ xs) = max x (newest xs)

unfoldable pub fresh : ℕ → List ℕ → ℕ → Bool
fresh size seen seq =
    not (seq == 0)
    && (ltb (newest seen) seq || ltb (newest seen - seq) size && not (contains seq seen))

-- The accepted sequence numbers behind a run, the latest first.
unfoldable pub history : ℕ → List ℕ → List ℕ → List ℕ
history size seen [] = seen
history size seen (seq ∷ seqs) =
    history size (if fresh size seen seq then seq ∷ seen else seen) seqs

-- No number stands twice in the list.
abbrev pub AreDistinct : List ℕ → Type 0
AreDistinct [] = Unit {0}
AreDistinct (x ∷ xs) = (contains x xs ≡ false) × AreDistinct xs

pub contains-newest : (x : ℕ) (xs : List ℕ) → newest xs < x → contains x xs ≡ false
unfolding contains newest
contains-newest x [] h = refl
contains-newest x (y ∷ ys) h = ground (arith, contains-newest x ys)

fresh-not_seen :
    (size : ℕ) (seen : List ℕ) (seq : ℕ) → fresh size seen seq ≡ true → contains seq seen ≡ false
unfolding fresh
fresh-not_seen size seen seq h = ground (arith, contains-newest seq seen)

pub history-AreDistinct :
    (size : ℕ) (seen seqs : List ℕ) → AreDistinct seen → AreDistinct (history size seen seqs)
unfolding history
history-AreDistinct size seen [] h = h
history-AreDistinct size seen (seq ∷ seqs) h = elim (Bool-cases (fresh size seen seq)) [
  | inl new ↦
      rw new (history-AreDistinct size (seq ∷ seen) seqs (fresh-not_seen size seen seq new, h))
  | inr old ↦ rw old (history-AreDistinct size seen seqs h)
]

pub contains-newest_self : (xs : List ℕ) → newest xs ≢ 0 → contains (newest xs) xs ≡ true
unfolding contains newest
contains-newest_self [] h = absurd (h refl)
contains-newest_self (x ∷ xs) h = ground (arith, contains-newest_self xs)
