-- ===== src/Esp/Replay/Runs.antt =====
-- Runs of the window over a sequence of packets.
use go_ipsec.Common.{
  ℕ, ◌+◌, ◌*◌, ◌/◌, ◌%◌, ◌^◌, ◌≤◌, ◌<◌, ◌≡◌, refl, ◌∙◌, List, [], ◌∷◌, length, length-replicate,
  get_or-replicate, arith, if◌then◌else◌, Outcome, ok, ◌>>=◌, run-bind,
}
use go_ipsec.Common.Bits.{test_bit-zero}
use go_ipsec.Esp.Replay.{ReplayWindow, clamp_size, new_replay_window, accept}
use go_ipsec.Esp.Replay.History.{contains, newest, fresh, history, AreDistinct, history-AreDistinct}
use go_ipsec.Esp.Replay.Refine.{Tracks, accept_refines}

-- A run of the window over the sequence numbers of the packets, in the order in which their calls of
-- Accept take the mutex; the numbers accepted are kept, the latest first.
unfoldable pub run : ReplayWindow → List ℕ → List ℕ → Outcome ⊥ (List ℕ)
run w seen [] = ok seen
run w seen (seq ∷ seqs) = do
  (answer, w') ← accept w seq
  run w' (if answer then seq ∷ seen else seen) seqs

run_refines :
    (w : ReplayWindow) (seen seqs : List ℕ)
    → Tracks w seen
    → run w seen seqs ≡ ok (history w.size seen seqs)
unfolding run history
run_refines w seen [] t = refl
run_refines w seen (seq ∷ seqs) t =
    let (w', answered, same_size, t') = accept_refines w seen seq t in
    run-bind _ _ _ answered
      (run_refines w' (if fresh w.size seen seq then seq ∷ seen else seen) seqs t' ∙ rw same_size)

clamp_bounds : (size : ℕ) → (64 ≤ clamp_size size) × (clamp_size size ≤ 2 ^ 20)
unfolding clamp_size
clamp_bounds size = ground arith

clamp_exact : (size : ℕ) → 64 ≤ size → size ≤ 2 ^ 20 → clamp_size size ≡ size
unfolding clamp_size
clamp_exact size lo hi = ground arith

-- A new window has a whole number of words, at least one and at most 2 ^ 20 bits; a size in these bounds
-- is rounded up by less than a word.
pub new_replay_window_size :
    (size : ℕ)
    → let w = new_replay_window size in
      (w.size ≡ 64 * length w.bits)
      × (64 ≤ w.size)
      × (w.size ≤ 2 ^ 20)
      × (64 ≤ size → size ≤ 2 ^ 20 → (size ≤ w.size) × (w.size < size + 64))
unfolding new_replay_window
new_replay_window_size size =
    let n = (clamp_size size + 63) / 64 in
    let bounds = clamp_bounds size in
    let words = length-replicate {A = ℕ} n 0 in
    (
      omega (arith, bounds, words),
      omega (arith, bounds),
      omega (arith, bounds),
      λ lo hi. omega (arith, bounds, clamp_exact size lo hi),
    )

pub new_replay_window-Tracks : (size : ℕ) → Tracks (new_replay_window size) []
unfolding new_replay_window
new_replay_window-Tracks size =
    let n = (clamp_size size + 63) / 64 in
    let words = length-replicate {A = ℕ} n 0 in
    let bounds = clamp_bounds size in
    record {
      sized = (new_replay_window_size size).0;
      some_words = omega (arith, words, bounds);
      are_words = λ j. omega (arith, get_or-replicate {A = ℕ} n j 0);
      highest = unfold newest in refl;
      marks = λ o h.
          unfold contains in rw (get_or-replicate {A = ℕ} n (o / 64) 0) (test_bit-zero (o % 64));
      no_zero = unfold contains in refl;
    }

-- From a new window of any size, over any packets in any order, Accept accepts exactly the numbers that
-- are fresh by the history of accepted ones: not 0, and above all of them or both inside the window and
-- not among them. No call panics.
pub run-history :
    (size : ℕ) (seqs : List ℕ)
    → let w = new_replay_window size in run w [] seqs ≡ ok (history w.size [] seqs)
run-history size seqs = run_refines (new_replay_window size) [] seqs (new_replay_window-Tracks size)

-- No sequence number is accepted twice, whatever the size of the window and the packets.
pub run-AreDistinct :
    (size : ℕ) (seqs : List ℕ)
    → (accepted : List ℕ) × (run (new_replay_window size) [] seqs ≡ ok accepted)
      × AreDistinct accepted
run-AreDistinct size seqs =
    let w = new_replay_window size in
    (history w.size [] seqs, run-history size seqs, history-AreDistinct w.size [] seqs tt)
