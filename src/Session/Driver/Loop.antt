-- ===== src/Session/Driver/Loop.antt =====
-- internal/session/informational.go: housekeeping, whole, and the driver's loop.
use go_ipsec.Common.{
  ℕ, ◌+◌, ◌*◌, ◌-◌, ◌^◌, ◌%◌, Bool, true, false, not, ◌&&◌, Option, List, [], ◌∷◌, ltb, leb, ◌==◌,
  if◌then◌else◌, min, Outcome, ok, err, panic, stuck, map_err,
}
use go_ipsec.Ikemsg.Const.{exchange_informational, protocol_ike}
use go_ipsec.Ikemsg.Message.{delete}
use go_ipsec.Crypto.{Primitives}
use go_ipsec.Ikesa.Dh.{DhPrimitives}
use go_ipsec.Session.Window.{
  second, rekey_retry_interval, Instant, Session, initiate_dpd, Verdict, idle, busy, dead, tick,
}
use go_ipsec.Session.Act.{
  session, Fresh, Act, pure, gets, modify, logged, send, encode_request, tried, ◌>>=◌, ◌>>◌,
}
use go_ipsec.Session.Rekey.{jittered_deadline, ike_rekey_lifetime}
use go_ipsec.Session.Rekey.ChildSide.{initiate_child_rekey}
use go_ipsec.Session.Rekey.IkeSide.{initiate_ike_rekey}
use go_ipsec.Session.Driver.{note_reestablishment, handle_inbound}

abbrev pub default_rekey_max_packets : ℕ
default_rekey_max_packets = 2 ^ 31

-- What the data plane reports: the outbound sequence number, and when an ESP packet came in last, or 0.
pub record Traffic : Type 0 where
  pub volume : ℕ
  pub last_data_inbound : ℕ

module _ {Aead : Type 0} where
  unfoldable pub dpd_interval : Session Aead → ℕ
  dpd_interval s = if ltb 0 s.settings.dpd_timeout then s.settings.dpd_timeout else 30 * second

  unfoldable pub rekey_max_packets : Session Aead → ℕ
  rekey_max_packets s =
      if ltb 0 s.settings.rekey_max_packets_setting
      then s.settings.rekey_max_packets_setting
      else default_rekey_max_packets

  unfoldable pub idle_time : Session Aead → ℕ → Traffic → ℕ
  idle_time s now traffic =
      let quiet = now - s.last_inbound in
      if s.data_plane && not (traffic.last_data_inbound == 0)
      then min quiet (now - traffic.last_data_inbound)
      else quiet

  -- What housekeeping starts while no request is outstanding.
  unfoldable pub must_reestablish : Session Aead → ℕ → Bool
  must_reestablish s now = s.child_reestablish && s.data_plane && ltb s.next_child_reestablish now

  unfoldable pub is_voluminous : Session Aead → ℕ → Traffic → Bool
  is_voluminous s now traffic =
      s.data_plane
      && not s.child_reestablish
      && ltb s.next_volume_rekey now
      && leb (rekey_max_packets s) traffic.volume

  unfoldable pub ike_is_due : Session Aead → ℕ → Bool
  ike_is_due s now =
      s.data_plane
      && ltb 0 s.settings.rekey_lifetime
      && not (s.next_ike_rekey == 0)
      && ltb s.next_ike_rekey now

  unfoldable pub child_is_due : Session Aead → ℕ → Bool
  child_is_due s now =
      s.data_plane
      && ltb 0 s.settings.rekey_lifetime
      && not s.child_reestablish
      && not (s.next_child_rekey == 0)
      && ltb s.next_child_rekey now

module _ (p : Primitives) (q : DhPrimitives) where
  unfoldable pub probe : Bool → Fresh → Act p.Aead (Unit {0})
  probe fast fresh s =
      let (r, s') = initiate_dpd p s fresh.clock fast fresh.iv in (map_err session r, s')

  unfoldable pub start_exchange : ℕ → Traffic → Fresh → Act p.Aead (Unit {0})
  start_exchange now traffic fresh = do
    s ← gets (λ s. s)
    if s.fast_dpd_due
        then (modify (λ s. record s { fast_dpd_due = false }) >> logged (probe true fresh))
        else if must_reestablish s now
        then (tried (initiate_child_rekey p q true fresh) >>= λ r.
            note_reestablishment (now + rekey_retry_interval) r)
        else if is_voluminous s now traffic
        then (modify (λ s. record s { next_volume_rekey = now + rekey_retry_interval })
            >> logged (initiate_child_rekey p q false fresh))
        else if ike_is_due s now
        then (modify (λ s. record s { next_ike_rekey = now + rekey_retry_interval })
            >> logged (initiate_ike_rekey p q fresh))
        else if child_is_due s now
        then (modify (λ s. record s { next_child_rekey = now + rekey_retry_interval })
            >> logged (initiate_child_rekey p q false fresh))
        else if ltb (dpd_interval s) (idle_time s now traffic)
        then logged (probe false fresh)
        else pure tt

  unfoldable pub after_tick :
      Outcome ⊥ (Verdict × Session p.Aead) → ℕ → Traffic → Fresh → Act p.Aead Bool
  after_tick (ok (dead, s')) now traffic fresh s = (ok true, s')
  after_tick (ok (busy, s')) now traffic fresh s = (ok false, s')
  after_tick (ok (idle, s')) now traffic fresh s =
      (start_exchange now traffic fresh >>= λ _. pure false) s'
  after_tick (err e) now traffic fresh s = absurd e
  after_tick panic now traffic fresh s = (panic, s)
  after_tick stuck now traffic fresh s = (stuck, s)

  -- The first random argument is for the probe of detectSuspend.
  unfoldable pub housekeeping : Instant → ℕ → Option (List ℕ) → Traffic → Fresh → Act p.Aead Bool
  housekeeping now later random traffic fresh s =
      after_tick (tick p s now later random) now.mono traffic fresh s

  -- The baselines that Driver sets before its loop.
  unfoldable pub start_driver : Instant → Fresh → Session p.Aead → Session p.Aead
  start_driver now fresh s =
      let child_at = if s.child_installed_at == 0 then now.mono else s.child_installed_at in
      let ike_at = if s.ike_installed_at == 0 then now.mono else s.ike_installed_at in
      record s {
        last_inbound = now.mono;
        last_tick_wall = now.wall;
        child_installed_at = child_at;
        ike_installed_at = ike_at;
        next_child_rekey = jittered_deadline fresh child_at s.settings.rekey_lifetime;
        next_ike_rekey = jittered_deadline fresh ike_at (ike_rekey_lifetime s);
      }

-- What the loop's select gets: a datagram, or a tick.
pub data Event : Type 0 where
  datagram : List ℕ → ℕ → (ℕ → Fresh) → Event
  ticked : Instant → ℕ → Option (List ℕ) → Traffic → Fresh → Event

module _ (p : Primitives) (q : DhPrimitives) where
  unfoldable pub handle_event : Event → Act p.Aead Bool
  handle_event (datagram raw now fresh) = handle_inbound p q raw now fresh
  handle_event (ticked now later random traffic fresh) =
      housekeeping p q now later random traffic fresh

  -- What the loop does when its context ends.
  unfoldable pub send_graceful_delete : Fresh → Act p.Aead (Unit {0})
  send_graceful_delete fresh = logged (do
    raw ←
        encode_request p exchange_informational
          (delete (record { protocol = protocol_ike; spis = [] }) ∷ []) fresh.iv
    modify (λ s. record s { message_id = (s.message_id + 1) % 2 ^ 32 })
    send fresh raw)

  unfoldable pub go_on : Bool → Act p.Aead Bool → Act p.Aead Bool
  go_on true rest = pure true
  go_on false rest = rest

  -- The loop over what comes in, until a handler ends it.
  unfoldable pub drive : List Event → Act p.Aead Bool
  drive [] = pure false
  drive (e ∷ es) = do ended ← handle_event e; go_on ended (drive es)

  -- Driver, for what comes in until its context ends at `closing`.
  unfoldable pub run_driver : Instant → Fresh → List Event → Fresh → Act p.Aead (Unit {0})
  run_driver now fresh es closing = do
    modify (start_driver p q now fresh)
    ended ← drive es
    if ended then pure tt else send_graceful_delete closing
