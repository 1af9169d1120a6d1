-- ===== src/Session/Driver/Handlers.antt =====
-- What handleInbound calls keeps the driver's invariant, and does not panic.
use go_ipsec.Common.{
  ℕ, suc, refl, Bool, true, false, ◌&&◌, ◌||◌, Option, none, some, List, [], ◌∷◌, ◌==◌,
  if◌then◌else◌, Outcome, ok, err, panic, stuck, Any, Ensures, yields,
}
use go_ipsec.Crypto.{Primitives, Lawful}
use go_ipsec.Ikemsg.Const.{protocol_ike, protocol_esp}
use go_ipsec.Ikemsg.Notify.{DeletePayload}
use go_ipsec.Ikemsg.Message.{Payload, delete}
use go_ipsec.Ikesa.Dh.{DhPrimitives}
use go_ipsec.Session.Window.{
  ExchangeKind, dpd, child_rekey, ike_rekey, delete_sa, ChildRekey, IkeRekey, PendingExchange,
  Session, send_datagram, dedup_slot, resend, dedup_peer_request, clear_old_ike_delete,
  clear_pending, is_dpd, is_delete,
}
use go_ipsec.Session.Act.{DriverError, Fresh, Act, pure, modify, logged, and_then, ◌>>=◌}
use go_ipsec.Session.Act.Safe.{
  Leaves, Safe, Safe-bind, Safe-pure, Safe-gets, Safe-modify, Safe-if, Safe-tried, forgiven,
}
use go_ipsec.Session.Driver.{
  is_free, is_rekey, deletes_child, note_reestablishment, reestablish_if_free,
  handle_inbound_child_delete, handle_payload, handle_payloads, complete_rekey, complete_pending,
  complete_matching_rekey, unless_repeated,
}
use go_ipsec.Session.Driver.Orderly.{IsOrderly, Carries, PendingFits, set_pending_none}
use go_ipsec.Session.Driver.Rekeys.{IsFresh, initiate_child_rekey-Safe, complete_child_rekey-Safe}
use go_ipsec.Session.Driver.IkeRekeys.{IsIdle, complete_ike_rekey-Safe}

module _ {Aead : Type 0} (v : Bool) where
  pub note_reestablishment-Safe :
      (retry_at : ℕ) (r : Outcome DriverError (Unit {0}))
      → Ensures Any r
      → Safe {Aead = Aead} (IsOrderly v) Any (note_reestablishment retry_at r)
  unfolding note_reestablishment
  note_reestablishment-Safe retry_at (ok a) e = Safe-modify _ λ _ h. h
  note_reestablishment-Safe retry_at (err a) e = Safe-modify _ λ _ h. h
  note_reestablishment-Safe retry_at panic e = elim e [ ]
  note_reestablishment-Safe retry_at stuck e = elim e [ ]

  resend-IsOrderly :
      (o : Option (List ℕ)) (s : Session Aead) → IsOrderly v s → IsOrderly v (resend s o)
  unfolding resend send_datagram
  resend-IsOrderly none s h = h
  resend-IsOrderly (some raw) s h = h

  pub if_kept :
      {A : Type 0} (t : Bool) (a b : A × Session Aead)
      → IsOrderly v a.1
      → IsOrderly v b.1
      → IsOrderly v (if t then a else b).1
  if_kept true a b h k = h
  if_kept false a b h k = k

  pub if_same :
      (t : Bool) (a b : Session Aead)
      → IsOrderly v a
      → IsOrderly v b
      → IsOrderly v (if t then a else b)
  if_same true a b h k = h
  if_same false a b h k = k

  dedup_peer_request-IsOrderly :
      (s : Session Aead) (msg_id : ℕ) (via_old : Bool)
      → IsOrderly v s
      → IsOrderly v (dedup_peer_request s msg_id via_old).1
  unfolding dedup_peer_request dedup_slot
  dedup_peer_request-IsOrderly s msg_id via_old h =
      if_kept _ _ _ (if_same _ _ _ (resend-IsOrderly _ s h) h) h

  once_only :
      (k : Act Aead Bool) (t : Bool) (s : Session Aead)
      → Safe (IsOrderly v) Any k
      → IsOrderly v s
      → Leaves (IsOrderly v) Any (if t then (ok false, s) else k s)
  once_only k true s h i = record { result = yields tt; kept = i }
  once_only k false s h i = h.runs s i

  pub clear_old_ike_delete-IsOrderly :
      (s : Session Aead) (msg_id : ℕ) → IsOrderly v s → IsOrderly v (clear_old_ike_delete s msg_id)
  unfolding clear_old_ike_delete
  clear_old_ike_delete-IsOrderly s msg_id h =
      elim s.old_ike_delete
        as (λ o. IsOrderly v (elim o [
          | none ↦ s
          | some d ↦ if d.msg_id == msg_id then record s { old_ike_delete = none } else s
        ])) [ none ↦ h | some d ↦ if_same _ _ _ h h ]

  pub clear_pending-IsOrderly :
      (s : Session Aead) (msg_id : ℕ) → IsOrderly v s → IsOrderly v (clear_pending s msg_id)
  unfolding clear_pending
  clear_pending-IsOrderly s msg_id h =
      elim s.pending
        as (λ o. IsOrderly v (elim o [
          | none ↦ s
          | some x ↦
              if x.msg_id == msg_id && (is_dpd x.kind || is_delete x.kind)
              then record s { pending = none }
              else s
        ])) [ none ↦ h | some x ↦ if_same _ _ _ (set_pending_none v s h) h ]

module _ (p : Primitives) (q : DhPrimitives) (laws : Lawful p) (v : Bool) where
  pub unless_repeated-Safe :
      (msg_id : ℕ) (via_old : Bool) (k : Act p.Aead Bool)
      → Safe (IsOrderly v) Any k
      → Safe (IsOrderly v) Any (unless_repeated p q msg_id via_old k)
  unfolding unless_repeated
  unless_repeated-Safe msg_id via_old k h = record {
    runs = λ s i. once_only v k _ _ h (dedup_peer_request-IsOrderly v s msg_id via_old i);
  }

  reestablish_if_free-Safe :
      (free : Bool) (fresh : Fresh)
      → IsFresh fresh
      → Safe (IsOrderly v) Any (reestablish_if_free p q free fresh)
  unfolding reestablish_if_free
  reestablish_if_free-Safe true fresh f = Safe-bind {Q = Any} _ _ (Safe-gets _ λ _ _. tt) λ s _.
      Safe-bind _ _ (Safe-tried _ (initiate_child_rekey-Safe p q laws v true fresh f))
        λ r e. note_reestablishment-Safe v _ r e
  reestablish_if_free-Safe false fresh f = Safe-modify _ λ _ h. h

  handle_inbound_child_delete-Safe :
      (d : DeletePayload) (fresh : Fresh)
      → IsFresh fresh
      → Safe (IsOrderly v) Any (handle_inbound_child_delete p q d fresh)
  unfolding handle_inbound_child_delete
  handle_inbound_child_delete-Safe d fresh f =
      Safe-bind {Q = Any} _ _ (Safe-gets _ λ _ _. tt) λ s _.
        Safe-if (s.data_plane && deletes_child d s.child) _ _
          (λ _. reestablish_if_free-Safe (is_free s.pending) fresh f) (λ _. Safe-pure _ tt)

  handle_payload-Safe :
      (via_old : Bool) (fresh : Fresh) (x : Payload)
      → IsFresh fresh
      → Safe (IsOrderly v) Any (handle_payload p q via_old fresh x)
  unfolding handle_payload
  handle_payload-Safe via_old fresh (delete d) f =
      Safe-if (d.protocol == protocol_ike) _ _ (λ _. Safe-pure _ tt)
        λ _.
          Safe-if (d.protocol == protocol_esp) _ _
            (λ _. Safe-bind _ _ (handle_inbound_child_delete-Safe d fresh f) λ _ _. Safe-pure _ tt)
            (λ _. Safe-pure _ tt)
  handle_payload-Safe via_old fresh _ f = Safe-pure _ tt

  pub handle_payloads-Safe :
      (via_old : Bool) (fresh : ℕ → Fresh) (xs : List Payload)
      → ((i : ℕ) → IsFresh (fresh i))
      → Safe (IsOrderly v) Any (handle_payloads p q via_old fresh xs)
  unfolding handle_payloads
  handle_payloads-Safe via_old fresh [] f = Safe-pure _ tt
  handle_payloads-Safe via_old fresh (x ∷ xs) f =
      Safe-bind _ _ (handle_payload-Safe via_old (fresh 0) x (f 0)) λ now _.
        Safe-bind _ _ (handle_payloads-Safe via_old (λ i. fresh (suc i)) xs (λ i. f (suc i)))
          λ later _. Safe-pure _ tt

  forget_idle :
      {A : Type 0} {r : Outcome DriverError A × Session p.Aead}
      → Leaves (IsIdle p q laws v) Any r
      → Leaves (IsOrderly v) Any r
  forget_idle l = record { result = l.result; kept = l.kept.0 }

  -- The window is free by the time that a rekey is completed.
  complete_rekey-Leaves :
      (kind : ExchangeKind) (c : Option ChildRekey) (i : Option IkeRekey) (inner : List Payload)
      (fresh : Fresh) (s : Session p.Aead)
      → Carries kind c i
      → IsIdle p q laws v s
      → Leaves (IsOrderly v) Any (complete_rekey p q kind c i inner fresh s)
  unfolding complete_rekey pure
  complete_rekey-Leaves child_rekey (some c) i inner fresh s carries idle =
      (Safe-bind _ _ (complete_child_rekey-Safe p q laws v inner c fresh carries)
          λ _ _. Safe-modify _ λ _ h. h).runs
        s idle.0
  complete_rekey-Leaves child_rekey none i inner fresh s carries idle = absurd carries
  complete_rekey-Leaves ike_rekey c (some i) inner fresh s carries idle =
      forget_idle ((complete_ike_rekey-Safe p q laws v inner i fresh carries).runs s idle)
  complete_rekey-Leaves ike_rekey c none inner fresh s carries idle = absurd carries
  complete_rekey-Leaves dpd c i inner fresh s carries idle = record {
    result = yields tt;
    kept = idle.0;
  }
  complete_rekey-Leaves delete_sa c i inner fresh s carries idle = record {
    result = yields tt;
    kept = idle.0;
  }

  complete_pending-Safe :
      (o : Option PendingExchange) (id msg_id : ℕ) (inner : List Payload) (fresh : Fresh)
      → PendingFits o id
      → Safe (IsOrderly v) Any (complete_pending p q o msg_id inner fresh)
  unfolding complete_pending ◌>>=◌ and_then modify logged
  complete_pending-Safe none id msg_id inner fresh fits = Safe-pure tt tt
  complete_pending-Safe (some x) id msg_id inner fresh fits =
      Safe-if (x.msg_id == msg_id && is_rekey x.kind) _ _
        (λ _. record {
          runs = λ s h.
              let l =
                complete_rekey-Leaves x.kind x.child x.ike inner fresh (record s { pending = none })
                  fits.1 (set_pending_none v s h, refl) in
              forgiven _ _ l.result l.kept;
        })
        (λ _. Safe-pure tt tt)

  pub complete_matching_rekey-Safe :
      (msg_id : ℕ) (inner : List Payload) (via_old : Bool) (fresh : Fresh)
      → Safe (IsOrderly v) Any (complete_matching_rekey p q msg_id inner via_old fresh)
  unfolding complete_matching_rekey
  complete_matching_rekey-Safe msg_id inner via_old fresh =
      Safe-bind {Q = λ s. PendingFits s.pending s.message_id} _ _
        (Safe-gets _ λ _ h. h.pending_fits)
        λ s fits.
          Safe-if via_old _ _ (λ _. Safe-pure tt tt)
            (λ _. complete_pending-Safe s.pending s.message_id msg_id inner fresh fits)
