-- ===== src/Session/Driver.antt =====
-- internal/session/informational.go: the driver. It takes datagrams and ticks, one after the other.
pub mod Handlers
pub mod Inbound
pub mod Loop
pub mod Orderly
pub mod Quiet
pub mod Rekeys
pub mod Runs
pub mod Steps
pub mod IkeRekeys
pub mod Ticks
use go_ipsec.Common.{
  ℕ, zero, suc, ◌+◌, ◌-◌, ◌^◌, Bool, true, false, not, ◌&&◌, ◌||◌, Option, none, some, List, [],
  ◌∷◌, length, ltb, leb, ◌==◌, if◌then◌else◌, word32, min, Outcome, ok, err, panic, stuck, map_err,
}
use go_ipsec.Crypto.{Primitives}
use go_ipsec.Ikemsg.Const.{
  exchange_informational, exchange_create_child_sa, flag_response, protocol_ike, protocol_esp,
  is_response,
}
use go_ipsec.Ikemsg.Notify.{DeletePayload, spi_size}
use go_ipsec.Ikemsg.Message.{Message, Payload, delete}
use go_ipsec.Ikesa.Dh.{DhPrimitives}
use go_ipsec.Session.Child.{ChildSa}
use go_ipsec.Session.Protected.{Failure, IkeContexts, decode_sk_with, decode_ike}
use go_ipsec.Session.Window.{
  second, rekey_retry_interval, Instant, ExchangeKind, dpd, child_rekey, ike_rekey, delete_sa,
  ChildRekey, IkeRekey, PendingExchange, Session, dedup_peer_request, record_peer_response,
  clear_old_ike_delete, clear_pending, initiate_dpd, Verdict, idle, busy, dead, tick,
}
use go_ipsec.Session.Act.{
  DriverError, session, Fresh, Act, pure, fail, lifted, gets, modify, logged, forgive, tried, send,
  ◌>>=◌, ◌>>◌,
}
use go_ipsec.Session.Rekey.{jittered_deadline, encode_response, send_temporary_failure}
use go_ipsec.Session.Rekey.Payloads.{is_ike_rekey}
use go_ipsec.Session.Rekey.ChildSide.{
  initiate_child_rekey, complete_child_rekey, handle_child_rekey_request,
}
use go_ipsec.Session.Rekey.IkeSide.{
  initiate_ike_rekey, complete_ike_rekey, handle_ike_rekey_request,
}

-- Whether a DELETE names the Child SA, by either of its SPIs.
unfoldable pub refs_child : List (List ℕ) → ChildSa → Bool
refs_child [] child = false
refs_child (raw ∷ spis) child =
    length raw == 4 && (word32 raw 0 == child.responder_spi || word32 raw 0 == child.initiator_spi)
    || refs_child spis child

unfoldable pub deletes_child : DeletePayload → Option ChildSa → Bool
deletes_child d none = false
deletes_child d (some child) = spi_size d.spis == 4 && refs_child d.spis child

unfoldable pub is_rekey : ExchangeKind → Bool
is_rekey child_rekey = true
is_rekey ike_rekey = true
is_rekey _ = false

unfoldable pub rekeys : Option PendingExchange → Bool
rekeys none = false
rekeys (some x) = is_rekey x.kind

unfoldable pub is_free : Option PendingExchange → Bool
is_free none = true
is_free (some x) = false

module _ {Aead : Type 0} where
  -- The result of an attempt to replace a Child SA that the peer has deleted.
  unfoldable pub note_reestablishment : ℕ → Outcome DriverError (Unit {0}) → Act Aead (Unit {0})
  note_reestablishment retry_at (ok _) =
      modify (λ s. record s { child_reestablish = false; next_child_reestablish = 0 })
  note_reestablishment retry_at (err e) =
      modify (λ s. record s { child_reestablish = true; next_child_reestablish = retry_at })
  note_reestablishment retry_at panic = lifted panic
  note_reestablishment retry_at stuck = lifted stuck

module _ (p : Primitives) (q : DhPrimitives) where
  unfoldable pub reestablish_if_free : Bool → Fresh → Act p.Aead (Unit {0})
  reestablish_if_free true fresh = do
    s ← gets (λ s. s)
    r ← tried (initiate_child_rekey p q true fresh)
    note_reestablishment s.next_child_reestablish r
  reestablish_if_free false fresh = modify (λ s. record s { child_reestablish = true })

  unfoldable pub handle_inbound_child_delete : DeletePayload → Fresh → Act p.Aead (Unit {0})
  handle_inbound_child_delete d fresh = do
    s ← gets (λ s. s)
    if s.data_plane && deletes_child d s.child
        then reestablish_if_free (is_free s.pending) fresh
        else pure tt

  -- One payload of an INFORMATIONAL request: whether it tears the session down.
  unfoldable pub handle_payload : Bool → Fresh → Payload → Act p.Aead Bool
  handle_payload via_old fresh (delete d) =
      if d.protocol == protocol_ike
      then pure (not via_old)
      else if d.protocol == protocol_esp
      then (handle_inbound_child_delete d fresh >>= λ _. pure false)
      else pure false
  handle_payload via_old fresh _ = pure false

  unfoldable pub handle_payloads : Bool → (ℕ → Fresh) → List Payload → Act p.Aead Bool
  handle_payloads via_old fresh [] = pure false
  handle_payloads via_old fresh (x ∷ xs) = do
    now ← handle_payload via_old (fresh 0) x
    later ← handle_payloads via_old (λ i. fresh (suc i)) xs
    pure (now || later)

  -- The answer is an empty message; an error of it is only logged.
  unfoldable pub acknowledge : ℕ → Bool → Fresh → Act p.Aead (Unit {0})
  acknowledge msg_id via_old fresh = logged (do
    raw ← encode_response p exchange_informational msg_id via_old [] fresh.iv
    modify (λ s. record_peer_response s via_old msg_id raw)
    send fresh raw)

  unfoldable pub handle_informational_request :
      ℕ → List Payload → Bool → (ℕ → Fresh) → Act p.Aead Bool
  handle_informational_request msg_id inner via_old fresh = do
    teardown ← handle_payloads via_old (λ i. fresh (suc i)) inner
    acknowledge msg_id via_old (fresh 0)
    pure teardown

  -- The switch of completeMatchingRekey. A nil context is dereferenced.
  unfoldable pub complete_rekey :
      ExchangeKind
      → Option ChildRekey
      → Option IkeRekey
      → List Payload
      → Fresh
      → Act p.Aead (Unit {0})
  complete_rekey child_rekey (some c) i inner fresh = do
    complete_child_rekey p q inner c fresh
    modify (λ s. record s {
      next_child_rekey = jittered_deadline fresh s.child_installed_at s.settings.rekey_lifetime;
    })
  complete_rekey child_rekey none i inner fresh = lifted panic
  complete_rekey ike_rekey c (some i) inner fresh = complete_ike_rekey p q inner i fresh
  complete_rekey ike_rekey c none inner fresh = lifted panic
  complete_rekey _ c i inner fresh = pure tt

  unfoldable pub complete_pending :
      Option PendingExchange → ℕ → List Payload → Fresh → Act p.Aead (Unit {0})
  complete_pending none msg_id inner fresh = pure tt
  complete_pending (some x) msg_id inner fresh =
      if x.msg_id == msg_id && is_rekey x.kind
      then (modify (λ s. record s { pending = none }) >>= λ _.
          logged (complete_rekey x.kind x.child x.ike inner fresh))
      else pure tt

  unfoldable pub complete_matching_rekey : ℕ → List Payload → Bool → Fresh → Act p.Aead (Unit {0})
  complete_matching_rekey msg_id inner via_old fresh = do
    s ← gets (λ s. s)
    if via_old then pure tt else complete_pending s.pending msg_id inner fresh

  unfoldable pub handle_rekey_request : ℕ → List Payload → Bool → Fresh → Act p.Aead (Unit {0})
  handle_rekey_request msg_id inner via_old fresh = do
    s ← gets (λ s. s)
    if rekeys s.pending
        then send_temporary_failure p msg_id via_old fresh.iv fresh
        else if is_ike_rekey inner && via_old
        then send_temporary_failure p msg_id via_old fresh.iv fresh
        else if is_ike_rekey inner
        then logged (handle_ike_rekey_request p q msg_id inner fresh)
        else logged (handle_child_rekey_request p q msg_id via_old inner fresh)

  -- A request that was answered before is not handled again.
  unfoldable pub unless_repeated : ℕ → Bool → Act p.Aead Bool → Act p.Aead Bool
  unless_repeated msg_id via_old k s =
      let (repeated, s') = dedup_peer_request s msg_id via_old in
      if repeated then (ok false, s') else k s'

  unfoldable pub dispatch : Message → List Payload → Bool → (ℕ → Fresh) → Act p.Aead Bool
  dispatch hdr inner via_old fresh =
      if hdr.exchange == exchange_informational
      then (if is_response hdr.flags
          then (modify (λ s.
                if via_old
                then clear_old_ike_delete s hdr.message_id
                else clear_pending s hdr.message_id)
              >>= λ _. pure false)
          else unless_repeated hdr.message_id via_old
              (handle_informational_request hdr.message_id inner via_old fresh))
      else if hdr.exchange == exchange_create_child_sa
      then (if is_response hdr.flags
          then (complete_matching_rekey hdr.message_id inner via_old (fresh 0) >>= λ _. pure false)
          else unless_repeated hdr.message_id via_old
              (handle_rekey_request hdr.message_id inner via_old (fresh 0) >>= λ _. pure false))
      else pure false

  abbrev contexts : Session p.Aead → IkeContexts p.Aead
  contexts s = record { current = s.current; old_ike = s.old_ike; old_ike_until = s.old_ike_until }

  -- A datagram that the current SA does not read was read under the superseded one: `dec.sa == s.oldIKE.sa`.
  unfoldable pub is_via_old : Outcome Failure (Message × List Payload) → Bool
  is_via_old (ok r) = false
  is_via_old _ = true

  unfoldable pub dispatch_decoded :
      Outcome Failure (Message × List Payload) → Bool → (ℕ → Fresh) → Act p.Aead Bool
  dispatch_decoded (ok (hdr, inner)) via_old fresh = do
    modify (λ s. record s { last_inbound = (fresh 0).clock })
    dispatch hdr inner via_old fresh
  dispatch_decoded (err e) via_old fresh = pure false
  dispatch_decoded panic via_old fresh = lifted panic
  dispatch_decoded stuck via_old fresh = lifted stuck

  -- `now` is the clock when the datagram is decoded. The result is whether the driver ends.
  unfoldable pub handle_inbound : List ℕ → ℕ → (ℕ → Fresh) → Act p.Aead Bool
  handle_inbound raw now fresh s =
      dispatch_decoded (decode_ike p (contexts s) now raw).0
        (is_via_old (decode_sk_with p s.current.ike_sa raw)) fresh s
