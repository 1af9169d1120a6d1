-- ===== src/Session/Driver/Orderly.antt =====
-- The invariant of the driver's session, and the steps that its functions are made of.
use go_ipsec.Common.{ℕ, ◌+◌, ◌%◌, ◌^◌, ◌≡◌, refl, Bool, true, false, Option, none, some, List}
use go_ipsec.Ikesa.Dh.Total.{HasKey}
use go_ipsec.Ikesa.Keys.{IkeSa}
use go_ipsec.Ikesa.Sk.Total.{IsKeyed}
use go_ipsec.Session.Protected.{IkeContext}
use go_ipsec.Session.Suites.Lengths.{OnSome}
use go_ipsec.Session.Window.{
  ExchangeKind, dpd, child_rekey, ike_rekey, delete_sa, ChildRekey, IkeRekey, PendingExchange,
  PeerDedup, Session, record_peer_response, send_datagram,
}
use go_ipsec.Session.Act.{Fresh}
use go_ipsec.Session.Rekey.{open_request, swap_ike}

-- What a rekey holds for its completion: its context, with a private key where it has a Diffie-Hellman part.
abbrev pub Carries : ExchangeKind → Option ChildRekey → Option IkeRekey → Type 0
Carries child_rekey none i = ⊥
Carries child_rekey (some c) i = OnSome HasKey c.dh
Carries ike_rekey c none = ⊥
Carries ike_rekey c (some i) = HasKey i.dh
Carries dpd c i = Unit {0}
Carries delete_sa c i = Unit {0}

-- The outstanding request has the latest message ID of the SA.
abbrev pub PendingFits : Option PendingExchange → ℕ → Type 0
PendingFits none id = Unit {0}
PendingFits (some x) id = ((x.msg_id + 1) % 2 ^ 32 ≡ id) × Carries x.kind x.child x.ike

abbrev pub HasOld : {Aead : Type 0} → Option (IkeContext Aead) → Type 0
HasOld none = ⊥
HasOld (some old) = Unit {0}

abbrev pub IsAnswered : PeerDedup → Type 0
IsAnswered dd = dd.set ≡ true → (resp : List ℕ) × (dd.resp ≡ some resp)

-- The invariant, over the fields that it reads. `via_old` is whether a request of the superseded SA is handled.
pub record Orderly {Aead : Type 0} (via_old : Bool) (current : IkeSa Aead)
    (old : Option (IkeContext Aead)) (pending : Option PendingExchange) (message_id : ℕ)
    (peer old_peer : PeerDedup) (data_plane : Bool) : Type 0 where
  pub current_keyed : IsKeyed current
  pub old_keyed : OnSome (λ c. IsKeyed c.ike_sa) old
  pub old_there : via_old ≡ true → HasOld old
  pub pending_fits : PendingFits pending message_id
  pub answered_fits : IsAnswered peer
  pub old_answered_fits : IsAnswered old_peer
  pub wired : data_plane ≡ true

abbrev pub IsOrderly : {Aead : Type 0} → Bool → Session Aead → Type 0
IsOrderly via_old s =
    Orderly via_old s.current.ike_sa s.old_ike s.pending s.message_id s.peer s.old_peer s.data_plane

module _ {Aead : Type 0} (v : Bool) where
  pub open_request-IsOrderly :
      (kind : ExchangeKind) (raw : List ℕ) (child : Option ChildRekey) (ike : Option IkeRekey)
      (clock : ℕ) (s : Session Aead)
      → Carries kind child ike
      → IsOrderly v s
      → IsOrderly v (open_request kind raw child ike clock s)
  unfolding open_request
  open_request-IsOrderly kind raw child ike clock s carries h = record {
    current_keyed = h.current_keyed;
    old_keyed = h.old_keyed;
    old_there = h.old_there;
    pending_fits = (refl, carries);
    answered_fits = h.answered_fits;
    old_answered_fits = h.old_answered_fits;
    wired = h.wired;
  }

  pub set_pending_none :
      (s : Session Aead) → IsOrderly v s → IsOrderly v (record s { pending = none })
  set_pending_none s h = record {
    current_keyed = h.current_keyed;
    old_keyed = h.old_keyed;
    old_there = h.old_there;
    pending_fits = tt;
    answered_fits = h.answered_fits;
    old_answered_fits = h.old_answered_fits;
    wired = h.wired;
  }

  pub swap_ike-IsOrderly :
      (fresh : Fresh) (new_ike : IkeSa Aead) (spii spir : ℕ) (s : Session Aead)
      → IsKeyed new_ike
      → IsOrderly v s
      → IsOrderly v (swap_ike fresh new_ike spii spir s)
  unfolding swap_ike
  swap_ike-IsOrderly fresh new_ike spii spir s keyed h = record {
    current_keyed = keyed;
    old_keyed = h.current_keyed;
    old_there = λ _. tt;
    pending_fits = tt;
    answered_fits = λ e. absurd cc;
    old_answered_fits = h.answered_fits;
    wired = h.wired;
  }

  pub record_peer_response-IsOrderly :
      (via_old : Bool) (msg_id : ℕ) (raw : List ℕ) (s : Session Aead)
      → IsOrderly v s
      → IsOrderly v (record_peer_response s via_old msg_id raw)
  unfolding record_peer_response
  record_peer_response-IsOrderly true msg_id raw s h = record {
    current_keyed = h.current_keyed;
    old_keyed = h.old_keyed;
    old_there = h.old_there;
    pending_fits = h.pending_fits;
    answered_fits = h.answered_fits;
    old_answered_fits = λ _. (raw, refl);
    wired = h.wired;
  }
  record_peer_response-IsOrderly false msg_id raw s h = record {
    current_keyed = h.current_keyed;
    old_keyed = h.old_keyed;
    old_there = h.old_there;
    pending_fits = h.pending_fits;
    answered_fits = λ _. (raw, refl);
    old_answered_fits = h.old_answered_fits;
    wired = h.wired;
  }

  -- `send_datagram` changes only the list of what was sent.
  pub send_datagram-IsOrderly :
      (raw : List ℕ) (s : Session Aead) → IsOrderly v s → IsOrderly v (send_datagram s raw)
  unfolding send_datagram
  send_datagram-IsOrderly raw s h = h
