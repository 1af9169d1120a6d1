-- ===== src/Session/Window/Replies.antt =====
-- The cached responses: what a repeated request of the peer is answered with.
use go_ipsec.Common.{
  ℕ, ◌<◌, ◌≡◌, refl, Bool, true, false, List, leb-of_le, leb-of_gt, ==-of_eq, ==-of_ne,
  if◌then◌else◌, arith,
}
use go_ipsec.Session.Window.{
  Session, send_datagram, dedup_slot, resend, dedup_peer_request, record_peer_response,
}

-- Once a response is recorded for a request under one of the two SAs, a request under that SA is a
-- duplicate just if its Message ID is not greater: the same request gets the recorded bytes again, an older
-- one gets nothing, and in neither case does anything else of the session change; a newer one is passed on.
-- The slot of the other SA is left as it was.
pub dedup_peer_request-record_peer_response :
    {Aead : Type 0} (s : Session Aead) (via_old : Bool) (msg_id next : ℕ) (raw : List ℕ)
    → let s' = record_peer_response s via_old msg_id raw in
      (next ≡ msg_id → dedup_peer_request s' next via_old ≡ (true, send_datagram s' raw))
      × (next < msg_id → dedup_peer_request s' next via_old ≡ (true, s'))
      × (msg_id < next → dedup_peer_request s' next via_old ≡ (false, s'))
      × (dedup_slot s' (if via_old then false else true)
          ≡ dedup_slot s (if via_old then false else true))
unfolding dedup_peer_request record_peer_response dedup_slot resend
dedup_peer_request-record_peer_response s true msg_id next raw = (
  λ e. rw (leb-of_le next msg_id (omega arith), ==-of_eq next msg_id e) refl,
  λ h. rw (leb-of_le next msg_id (omega arith), ==-of_ne next msg_id (omega arith)) refl,
  λ h. rw (leb-of_gt next msg_id h) refl,
  refl,
)
dedup_peer_request-record_peer_response s false msg_id next raw = (
  λ e. rw (leb-of_le next msg_id (omega arith), ==-of_eq next msg_id e) refl,
  λ h. rw (leb-of_le next msg_id (omega arith), ==-of_ne next msg_id (omega arith)) refl,
  λ h. rw (leb-of_gt next msg_id h) refl,
  refl,
)
