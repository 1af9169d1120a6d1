-- ===== src/Session/Driver/Quiet.antt =====
-- What the driver calls may fail; its handlers log such an error and return none.
use go_ipsec.Common.{
  ℕ, suc, Bool, true, false, ◌&&◌, Option, none, some, List, [], ◌∷◌, ltb, ◌==◌, if◌then◌else◌,
  Outcome, ok, err, panic, stuck,
}
use go_ipsec.Crypto.{Primitives}
use go_ipsec.Ikemsg.Const.{
  protocol_ike, protocol_esp, is_response, exchange_informational, exchange_create_child_sa,
}
use go_ipsec.Ikemsg.Message.{Message, Payload, delete}
use go_ipsec.Ikesa.Dh.{DhPrimitives}
use go_ipsec.Session.Protected.{Failure}
use go_ipsec.Session.Window.{PendingExchange, Session, Verdict, idle, busy, dead}
use go_ipsec.Session.Act.{DriverError, Fresh, Act}
use go_ipsec.Session.Rekey.{send_notify_response, send_temporary_failure}
use go_ipsec.Session.Rekey.Payloads.{is_ike_rekey}
use go_ipsec.Session.Driver.{
  rekeys, is_free, is_rekey, deletes_child, note_reestablishment, reestablish_if_free,
  handle_inbound_child_delete, handle_payload, handle_payloads, acknowledge,
  handle_informational_request, complete_pending, complete_matching_rekey, handle_rekey_request,
  unless_repeated, dispatch, dispatch_decoded, handle_inbound,
}
use go_ipsec.Session.Driver.Loop.{
  Traffic, start_exchange, after_tick, housekeeping, Event, datagram, ticked, handle_event, go_on,
  drive, must_reestablish, is_voluminous, ike_is_due, child_is_due, dpd_interval, idle_time,
}
use go_ipsec.Session.Act.Quiet.{
  IsNoError, Quiet, Quiet-bind, Quiet-pure, Quiet-gets, Quiet-modify, Quiet-tried, Quiet-lifted,
  Quiet-logged, Quiet-if,
}

module _ {Aead : Type 0} where
  note_reestablishment-Quiet :
      (retry_at : ℕ) (r : Outcome DriverError (Unit {0}))
      → Quiet {Aead = Aead} (note_reestablishment retry_at r)
  unfolding note_reestablishment
  note_reestablishment-Quiet retry_at (ok a) = Quiet-modify _
  note_reestablishment-Quiet retry_at (err e) = Quiet-modify _
  note_reestablishment-Quiet retry_at panic = Quiet-lifted panic tt
  note_reestablishment-Quiet retry_at stuck = Quiet-lifted stuck tt

  if_either :
      {A : Type 0} (k : Act Aead A) (a : A) (t : Bool) (s : Session Aead)
      → Quiet k
      → IsNoError (if t then (ok a, s) else k s).0
  if_either k a true s h = tt
  if_either k a false s h = h.none_of s

module _ (p : Primitives) (q : DhPrimitives) where
  reestablish_if_free-Quiet :
      (free : Bool) (fresh : Fresh) → Quiet (reestablish_if_free p q free fresh)
  unfolding reestablish_if_free
  reestablish_if_free-Quiet true fresh =
      Quiet-bind _ _ (Quiet-gets _)
        λ s. Quiet-bind _ _ (Quiet-tried _) λ r. note_reestablishment-Quiet _ r
  reestablish_if_free-Quiet false fresh = Quiet-modify _

  handle_payload-Quiet :
      (via_old : Bool) (fresh : Fresh) (x : Payload) → Quiet (handle_payload p q via_old fresh x)
  unfolding handle_payload handle_inbound_child_delete
  handle_payload-Quiet via_old fresh (delete d) =
      Quiet-if (d.protocol == protocol_ike) _ _ (Quiet-pure _) (
        Quiet-if (d.protocol == protocol_esp) _ _
          (Quiet-bind _ _
            (Quiet-bind _ _ (Quiet-gets _) λ s.
              Quiet-if (s.data_plane && deletes_child d s.child) _ _
                (reestablish_if_free-Quiet (is_free s.pending) fresh) (Quiet-pure _))
            λ _. Quiet-pure _)
          (Quiet-pure _))
  handle_payload-Quiet via_old fresh _ = Quiet-pure _

  handle_payloads-Quiet :
      (via_old : Bool) (fresh : ℕ → Fresh) (xs : List Payload)
      → Quiet (handle_payloads p q via_old fresh xs)
  unfolding handle_payloads
  handle_payloads-Quiet via_old fresh [] = Quiet-pure _
  handle_payloads-Quiet via_old fresh (x ∷ xs) =
      Quiet-bind _ _ (handle_payload-Quiet via_old (fresh 0) x) λ now.
        Quiet-bind _ _ (handle_payloads-Quiet via_old (λ i. fresh (suc i)) xs) λ later. Quiet-pure _

  handle_informational_request-Quiet :
      (msg_id : ℕ) (inner : List Payload) (via_old : Bool) (fresh : ℕ → Fresh)
      → Quiet (handle_informational_request p q msg_id inner via_old fresh)
  unfolding handle_informational_request acknowledge
  handle_informational_request-Quiet msg_id inner via_old fresh =
      Quiet-bind _ _ (handle_payloads-Quiet via_old _ inner)
        λ teardown. Quiet-bind _ _ (Quiet-logged _) λ _. Quiet-pure _

  complete_pending-Quiet :
      (o : Option PendingExchange) (msg_id : ℕ) (inner : List Payload) (fresh : Fresh)
      → Quiet (complete_pending p q o msg_id inner fresh)
  unfolding complete_pending
  complete_pending-Quiet none msg_id inner fresh = Quiet-pure _
  complete_pending-Quiet (some x) msg_id inner fresh =
      Quiet-if (x.msg_id == msg_id && is_rekey x.kind) _ _
        (Quiet-bind _ _ (Quiet-modify _) λ _. Quiet-logged _) (Quiet-pure _)

  handle_rekey_request-Quiet :
      (msg_id : ℕ) (inner : List Payload) (via_old : Bool) (fresh : Fresh)
      → Quiet (handle_rekey_request p q msg_id inner via_old fresh)
  unfolding handle_rekey_request send_temporary_failure send_notify_response
  handle_rekey_request-Quiet msg_id inner via_old fresh = Quiet-bind _ _ (Quiet-gets _) λ s.
      Quiet-if (rekeys s.pending) _ _ (Quiet-logged _) (
        Quiet-if (is_ike_rekey inner && via_old) _ _ (Quiet-logged _)
          (Quiet-if (is_ike_rekey inner) _ _ (Quiet-logged _) (Quiet-logged _)))

  unless_repeated-Quiet :
      (msg_id : ℕ) (via_old : Bool) (k : Act p.Aead Bool)
      → Quiet k
      → Quiet (unless_repeated p q msg_id via_old k)
  unfolding unless_repeated
  unless_repeated-Quiet msg_id via_old k h = record { none_of = λ s. if_either k false _ _ h }

  dispatch-Quiet :
      (hdr : Message) (inner : List Payload) (via_old : Bool) (fresh : ℕ → Fresh)
      → Quiet (dispatch p q hdr inner via_old fresh)
  unfolding dispatch complete_matching_rekey
  dispatch-Quiet hdr inner via_old fresh =
      Quiet-if (hdr.exchange == exchange_informational) _ _
        (Quiet-if (is_response hdr.flags) _ _ (Quiet-bind _ _ (Quiet-modify _) λ _. Quiet-pure _) (
          unless_repeated-Quiet _ via_old _
            (handle_informational_request-Quiet _ inner via_old fresh)))
        (Quiet-if (hdr.exchange == exchange_create_child_sa) _ _
          (Quiet-if (is_response hdr.flags) _ _
            (Quiet-bind _ _
              (Quiet-bind _ _ (Quiet-gets _) λ s.
                Quiet-if via_old _ _ (Quiet-pure _)
                  (complete_pending-Quiet s.pending _ inner (fresh 0)))
              λ _. Quiet-pure _)
            (unless_repeated-Quiet _ via_old _ (
              Quiet-bind _ _ (handle_rekey_request-Quiet _ inner via_old (fresh 0))
                λ _. Quiet-pure _)))
          (Quiet-pure _))

  dispatch_decoded-Quiet :
      (m : Outcome Failure (Message × List Payload)) (via_old : Bool) (fresh : ℕ → Fresh)
      → Quiet (dispatch_decoded p q m via_old fresh)
  unfolding dispatch_decoded
  dispatch_decoded-Quiet (ok (hdr, inner)) via_old fresh =
      Quiet-bind _ _ (Quiet-modify _) λ _. dispatch-Quiet hdr inner via_old fresh
  dispatch_decoded-Quiet (err e) via_old fresh = Quiet-pure _
  dispatch_decoded-Quiet panic via_old fresh = Quiet-lifted panic tt
  dispatch_decoded-Quiet stuck via_old fresh = Quiet-lifted stuck tt

  start_exchange-Quiet :
      (now : ℕ) (traffic : Traffic) (fresh : Fresh) → Quiet (start_exchange p q now traffic fresh)
  unfolding start_exchange
  start_exchange-Quiet now traffic fresh = Quiet-bind _ _ (Quiet-gets _) λ s.
      Quiet-if s.fast_dpd_due _ _ (Quiet-bind _ _ (Quiet-modify _) λ _. Quiet-logged _) (
        Quiet-if (must_reestablish s now) _ _
          (Quiet-bind _ _ (Quiet-tried _) λ r. note_reestablishment-Quiet _ r)
          (Quiet-if (is_voluminous s now traffic) _ _
            (Quiet-bind _ _ (Quiet-modify _) λ _. Quiet-logged _)
            (Quiet-if (ike_is_due s now) _ _ (Quiet-bind _ _ (Quiet-modify _) λ _. Quiet-logged _) (
              Quiet-if (child_is_due s now) _ _
                (Quiet-bind _ _ (Quiet-modify _) λ _. Quiet-logged _)
                (Quiet-if (ltb (dpd_interval s) (idle_time s now traffic)) _ _ (Quiet-logged _)
                  (Quiet-pure tt))))))

  after_tick-Quiet :
      (r : Outcome ⊥ (Verdict × Session p.Aead)) (now : ℕ) (traffic : Traffic) (fresh : Fresh)
      → Quiet (after_tick p q r now traffic fresh)
  unfolding after_tick
  after_tick-Quiet (ok (dead, s')) now traffic fresh = record { none_of = λ s. tt }
  after_tick-Quiet (ok (busy, s')) now traffic fresh = record { none_of = λ s. tt }
  after_tick-Quiet (ok (idle, s')) now traffic fresh = record {
    none_of = λ s.
        (Quiet-bind _ _ (start_exchange-Quiet now traffic fresh) λ _. Quiet-pure false).none_of s';
  }
  after_tick-Quiet (err e) now traffic fresh = absurd e
  after_tick-Quiet panic now traffic fresh = record { none_of = λ s. tt }
  after_tick-Quiet stuck now traffic fresh = record { none_of = λ s. tt }

  handle_event-Quiet : (e : Event) → Quiet (handle_event p q e)
  unfolding handle_event handle_inbound housekeeping
  handle_event-Quiet (datagram raw now fresh) = record {
    none_of = λ s. (dispatch_decoded-Quiet _ _ fresh).none_of s;
  }
  handle_event-Quiet (ticked now later random traffic fresh) = record {
    none_of = λ s. (after_tick-Quiet _ _ traffic fresh).none_of s;
  }

  go_on-Quiet : (ended : Bool) (rest : Act p.Aead Bool) → Quiet rest → Quiet (go_on p q ended rest)
  unfolding go_on
  go_on-Quiet true rest h = Quiet-pure true
  go_on-Quiet false rest h = h

  pub drive-Quiet : (es : List Event) → Quiet (drive p q es)
  unfolding drive
  drive-Quiet [] = Quiet-pure false
  drive-Quiet (e ∷ es) =
      Quiet-bind _ _ (handle_event-Quiet e) λ ended. go_on-Quiet ended _ (drive-Quiet es)
