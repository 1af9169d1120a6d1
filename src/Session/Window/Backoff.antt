-- ===== src/Session/Window/Backoff.antt =====
-- The delays between retransmissions.
use go_ipsec.Common.{ℕ, zero, suc, ◌*◌, ◌-◌, ◌≤◌, leb, Bool-cases, inl, inr, arith}
use go_ipsec.Session.Window.{
  Timing, retransmit_base, retransmit_max, backoff_from, retrans_backoff, fast_dpd_base,
  PendingExchange, Session, pending_backoff,
}

-- No delay is longer than `bound`.
pub record IsBounded (c : Timing) (bound : ℕ) : Type 0 where
  pub base_fits : retransmit_base c ≤ bound
  pub max_fits : retransmit_max c ≤ bound
  pub fast_fits : fast_dpd_base ≤ bound

backoff_from_le :
    (c : Timing) (bound k d : ℕ) → d ≤ bound → retransmit_max c ≤ bound → backoff_from c k d ≤ bound
unfolding backoff_from
backoff_from_le c bound zero d h m = h
backoff_from_le c bound (suc k) d h m = elim (Bool-cases (leb (retransmit_max c) (d * 2))) [
  | inl reached ↦ rw reached m
  | inr below ↦ rw below (backoff_from_le c bound k (d * 2) (ground (arith, m)) m)
]

pub pending_backoff_le :
    {Aead : Type 0} (s : Session Aead) (x : PendingExchange) (bound n : ℕ)
    → IsBounded s.timing bound
    → pending_backoff s x n ≤ bound
unfolding pending_backoff retrans_backoff
pending_backoff_le s x bound n b = elim (Bool-cases x.fast) [
  | inl fast ↦ rw fast b.fast_fits
  | inr slow ↦
      rw slow
        (backoff_from_le s.timing bound (n - 1) (retransmit_base s.timing) b.base_fits b.max_fits)
]
