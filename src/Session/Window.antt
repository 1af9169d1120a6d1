-- ===== src/Session/Window.antt =====
-- internal/session/informational.go, with the state of session.go and rekey.go that it keeps: the one
-- outstanding request with its retransmissions, dead peer detection, and the responses that are cached for
-- the peer's retransmissions. Times and durations are numbers of nanoseconds; an unset one is 0.
pub mod Backoff
pub mod Liveness
pub mod Replies
use go_ipsec.Ikesa.Dh.{Dh}
use go_ipsec.Common.{
  ℕ, zero, suc, ◌+◌, ◌*◌, ◌-◌, ◌%◌, ◌^◌, Bool, true, false, not, ◌&&◌, ◌||◌, Option, none, some,
  List, [], ◌∷◌, ◌++◌, ltb, leb, ◌==◌, if◌then◌else◌, Outcome, ok, err, panic, stuck,
}
use go_ipsec.Crypto.{Primitives}
use go_ipsec.Natt.{wrap_ike}
use go_ipsec.Ikemsg.Const.{exchange_informational, payload_none}
use go_ipsec.Ikesa.Keys.{IkeSa}
use go_ipsec.Ikesa.Sk.{encrypt_to_sk}
use go_ipsec.Session.Child.{ChildSa, ChildSaUpdate, Settings}
use go_ipsec.Session.Protected.{SessionError, ike_role_bit, sk_message, IkeContext}

abbrev pub second : ℕ
second = 10 ^ 9

abbrev pub rekey_retry_interval : ℕ
rekey_retry_interval = 60 * second

abbrev pub suspend_threshold : ℕ
suspend_threshold = 5 * second

abbrev pub fast_dpd_base : ℕ
fast_dpd_base = 1 * second

abbrev pub fast_dpd_tries : ℕ
fast_dpd_tries = 2

-- The settings of Config that the driver's timing reads.
pub record Timing : Type 0 where
  pub retransmit_base_setting : ℕ
  pub retransmit_max_setting : ℕ
  pub retransmit_tries_setting : ℕ

unfoldable pub retransmit_base : Timing → ℕ
retransmit_base c =
    if ltb 0 c.retransmit_base_setting then c.retransmit_base_setting else 2 * second

unfoldable pub retransmit_max : Timing → ℕ
retransmit_max c = if ltb 0 c.retransmit_max_setting then c.retransmit_max_setting else 30 * second

unfoldable pub retransmit_tries : Timing → ℕ
retransmit_tries c = if ltb 0 c.retransmit_tries_setting then c.retransmit_tries_setting else 5

-- The loop of retransBackoff with `k` rounds left.
unfoldable pub backoff_from : Timing → ℕ → ℕ → ℕ
backoff_from c zero d = d
backoff_from c (suc k) d =
    let rest = backoff_from c k (d * 2) in
    if leb (retransmit_max c) (d * 2) then retransmit_max c else rest

unfoldable pub retrans_backoff : Timing → ℕ → ℕ
retrans_backoff c attempt = backoff_from c (attempt - 1) (retransmit_base c)

pub data ExchangeKind : Type 0 where
  dpd child_rekey ike_rekey delete_sa : ExchangeKind

unfoldable pub is_dpd : ExchangeKind → Bool
is_dpd dpd = true
is_dpd _ = false

unfoldable pub is_delete : ExchangeKind → Bool
is_delete delete_sa = true
is_delete _ = false

pub record ChildRekey : Type 0 where
  pub new_in_spi : ℕ
  pub old_in_spi : ℕ
  pub ni : List ℕ
  pub reestablish : Bool
  pub dh : Option Dh

pub record IkeRekey : Type 0 where
  pub new_spii : ℕ
  pub ni : List ℕ
  pub dh : Dh

pub record PendingExchange : Type 0 where
  pub kind : ExchangeKind
  pub msg_id : ℕ
  pub raw : List ℕ
  pub attempts : ℕ
  pub next_retransmit : ℕ
  pub child : Option ChildRekey
  pub ike : Option IkeRekey
  pub fast : Bool

-- `resp` is `none` for nil.
pub record PeerDedup : Type 0 where
  pub msg_id : ℕ
  pub set : Bool
  pub resp : Option (List ℕ)

abbrev pub no_dedup : PeerDedup
no_dedup = record { msg_id = 0; set = false; resp = none }

-- What time.Now gives: the monotonic clock, and the wall clock, which goes on while the host sleeps.
pub record Instant : Type 0 where
  pub mono : ℕ
  pub wall : ℕ

-- The fields of the session that the driver uses: `data_plane` is whether there is one, `installed` what it was
-- given so far and `sent` the datagrams sent so far, the last in front.
pub record Session (Aead : Type 0) : Type 0 where
  pub timing : Timing
  pub settings : Settings
  pub current : IkeContext Aead
  pub message_id : ℕ
  pub natt_mode : Bool
  pub pending : Option PendingExchange
  pub last_tick_wall : ℕ
  pub fast_dpd_due : Bool
  pub old_ike : Option (IkeContext Aead)
  pub old_ike_until : ℕ
  pub child_reestablish : Bool
  pub next_child_reestablish : ℕ
  pub peer : PeerDedup
  pub old_peer : PeerDedup
  pub old_ike_delete : Option PendingExchange
  pub child : Option ChildSa
  pub data_plane : Bool
  pub installed : List ChildSaUpdate
  pub last_inbound : ℕ
  pub child_installed_at : ℕ
  pub ike_installed_at : ℕ
  pub next_child_rekey : ℕ
  pub next_ike_rekey : ℕ
  pub next_volume_rekey : ℕ
  pub child_pfs : Bool
  pub child_pfs_group : ℕ
  pub ike_dh_group : ℕ
  pub sent : List (List ℕ)

module _ {Aead : Type 0} where
  -- The datagram goes out; the callers below only log what Send returns.
  unfoldable pub send_datagram : Session Aead → List ℕ → Session Aead
  send_datagram s raw = record s { sent = (if s.natt_mode then wrap_ike raw else raw) ∷ s.sent }

  unfoldable pub dedup_slot : Session Aead → Bool → PeerDedup
  dedup_slot s via_old = if via_old then s.old_peer else s.peer

  unfoldable pub resend : Session Aead → Option (List ℕ) → Session Aead
  resend s none = s
  resend s (some resp) = send_datagram s resp

  unfoldable pub dedup_peer_request : Session Aead → ℕ → Bool → Bool × Session Aead
  dedup_peer_request s msg_id via_old =
      let dd = dedup_slot s via_old in
      if dd.set && leb msg_id dd.msg_id
      then (true, if msg_id == dd.msg_id then resend s dd.resp else s)
      else (false, s)

  unfoldable pub record_peer_response : Session Aead → Bool → ℕ → List ℕ → Session Aead
  record_peer_response s via_old msg_id raw =
      let dd : PeerDedup = record { msg_id = msg_id; set = true; resp = some raw } in
      if via_old then record s { old_peer = dd } else record s { peer = dd }

  unfoldable pub clear_old_ike_delete : Session Aead → ℕ → Session Aead
  clear_old_ike_delete s msg_id = elim s.old_ike_delete [
    | none ↦ s
    | some d ↦ if d.msg_id == msg_id then record s { old_ike_delete = none } else s
  ]

  unfoldable pub clear_pending : Session Aead → ℕ → Session Aead
  clear_pending s msg_id = elim s.pending [
    | none ↦ s
    | some x ↦
        if x.msg_id == msg_id && (is_dpd x.kind || is_delete x.kind)
        then record s { pending = none }
        else s
  ]

  unfoldable pub pending_tries : Session Aead → PendingExchange → ℕ
  pending_tries s x = if x.fast then fast_dpd_tries else retransmit_tries s.timing

  unfoldable pub pending_backoff : Session Aead → PendingExchange → ℕ → ℕ
  pending_backoff s x attempt = if x.fast then fast_dpd_base else retrans_backoff s.timing attempt

-- An SK message with no inner payloads, and the SA that the call leaves.
unfoldable pub encode_sk_empty_with :
    (p : Primitives)
    → IkeContext p.Aead
    → ℕ
    → ℕ
    → ℕ
    → Option (List ℕ)
    → Outcome SessionError (List ℕ) × IkeSa p.Aead
encode_sk_empty_with p c exchange flags msg_id random =
    let (sealed, sa') = encrypt_to_sk p c.ike_sa [] random in
    (sk_message p sa' c.spii c.spir exchange flags msg_id payload_none sealed, sa')

-- `now` is the monotonic clock.
unfoldable pub initiate_dpd :
    (p : Primitives)
    → Session p.Aead
    → ℕ
    → Bool
    → Option (List ℕ)
    → Outcome SessionError (Unit {0}) × Session p.Aead
initiate_dpd p s now fast random =
    let msg_id = s.message_id in
    let (encoded, sa') =
      encode_sk_empty_with p s.current exchange_informational (ike_role_bit s.current.ike_sa.role)
        msg_id random in
    let s' = record s { current = record s.current { ike_sa = sa' } } in
    elim encoded [
      | err e ↦ (err e, s')
      | panic ↦ (panic, s')
      | stuck ↦ (stuck, s')
      | ok raw ↦ (
        ok tt,
        send_datagram
            (record s' {
              message_id = (msg_id + 1) % 2 ^ 32;
              pending = some (record {
                kind = dpd;
                msg_id = msg_id;
                raw = raw;
                attempts = 1;
                next_retransmit = now + (if fast then fast_dpd_base else retransmit_base s.timing);
                child = none;
                ike = none;
                fast = fast;
              });
            })
            raw,
      )
    ]

-- The switch of detectSuspend: `later` is the clock when the probe is recorded.
unfoldable pub probe_after_wake :
    (p : Primitives)
    → Session p.Aead
    → Instant
    → ℕ
    → Option (List ℕ)
    → Outcome SessionError (Unit {0}) × Session p.Aead
probe_after_wake p s now later random = elim s.pending [
  | none ↦ initiate_dpd p s later true random
  | some x ↦ (
    ok tt,
    record s {
      pending = some (record x { fast = true; next_retransmit = now.mono });
      fast_dpd_due = s.fast_dpd_due || not (is_dpd x.kind);
    },
  )
]

unfoldable pub detect_suspend :
    (p : Primitives)
    → Session p.Aead
    → Instant
    → ℕ
    → Option (List ℕ)
    → Outcome SessionError (Unit {0}) × Session p.Aead
detect_suspend p s now later random =
    let s' = record s { last_tick_wall = now.wall } in
    if s.last_tick_wall == 0 || leb (now.wall - s.last_tick_wall) suspend_threshold
    then (ok tt, s')
    else probe_after_wake p s' now later random

module _ {Aead : Type 0} where
  -- The superseded SA goes when its grace period is over.
  unfoldable pub expire_context : Option (IkeContext Aead) → ℕ → Session Aead → Session Aead
  expire_context none now s = s
  expire_context (some old) now s =
      if ltb s.old_ike_until now
      then record s { old_ike = none; old_peer = no_dedup; old_ike_delete = none }
      else s

  unfoldable pub expire_old_ike : ℕ → Session Aead → Session Aead
  expire_old_ike now s = expire_context s.old_ike now s

  unfoldable pub resend_old_delete : ℕ → PendingExchange → Session Aead → Session Aead
  resend_old_delete now d s =
      let attempts = d.attempts + 1 in
      if ltb (retransmit_tries s.timing) attempts
      then record s { old_ike_delete = none }
      else send_datagram
          (record s {
            old_ike_delete = some (record d {
              attempts = attempts;
              next_retransmit = now + retrans_backoff s.timing attempts;
            });
          })
          d.raw

  unfoldable pub retransmit_delete :
      Option PendingExchange → Option (IkeContext Aead) → ℕ → Session Aead → Session Aead
  retransmit_delete none old now s = s
  retransmit_delete (some d) none now s = record s { old_ike_delete = none }
  retransmit_delete (some d) (some old) now s =
      if ltb d.next_retransmit now then resend_old_delete now d s else s

  unfoldable pub retransmit_old_delete : ℕ → Session Aead → Session Aead
  retransmit_old_delete now s = retransmit_delete s.old_ike_delete s.old_ike now s

-- How housekeeping goes on: with new exchanges, not at all while one is outstanding, or with the peer dead.
pub data Verdict : Type 0 where
  idle busy dead : Verdict

unfoldable pub is_reestablishment : PendingExchange → Bool
is_reestablishment x = elim x.child [ none ↦ false | some c ↦ c.reestablish ]

module _ {Aead : Type 0} where
  unfoldable pub give_up : ℕ → PendingExchange → Session Aead → Verdict × Session Aead
  give_up now x s =
      let s' = record s { pending = none } in
      if is_dpd x.kind then (dead, s') else (
        busy,
        if is_reestablishment x
            then record s' {
              child_reestablish = true;
              next_child_reestablish = now + rekey_retry_interval;
            }
            else s',
      )

  unfoldable pub retry : ℕ → PendingExchange → Session Aead → Verdict × Session Aead
  retry now x s =
      let attempts = x.attempts + 1 in
      if ltb (pending_tries s x) attempts then give_up now x s else (
        busy,
        send_datagram
            (record s {
              pending = some (record x {
                attempts = attempts;
                next_retransmit = now + pending_backoff s x attempts;
              });
            })
            x.raw,
      )

  unfoldable pub retransmit_request :
      Option PendingExchange → ℕ → Session Aead → Verdict × Session Aead
  retransmit_request none now s = (idle, s)
  retransmit_request (some x) now s = if ltb x.next_retransmit now then retry now x s else (busy, s)

  unfoldable pub retransmit_pending : ℕ → Session Aead → Verdict × Session Aead
  retransmit_pending now s = retransmit_request s.pending now s

  unfoldable pub after_probe :
      ℕ → Outcome SessionError (Unit {0}) × Session Aead → Outcome ⊥ (Verdict × Session Aead)
  after_probe now (ok _, s) =
      ok (retransmit_pending now (retransmit_old_delete now (expire_old_ike now s)))
  after_probe now (err _, s) =
      ok (retransmit_pending now (retransmit_old_delete now (expire_old_ike now s)))
  after_probe now (panic, s) = panic
  after_probe now (stuck, s) = stuck

-- housekeeping up to where it starts new exchanges. The error of a probe is only logged.
unfoldable pub tick :
    (p : Primitives)
    → Session p.Aead
    → Instant
    → ℕ
    → Option (List ℕ)
    → Outcome ⊥ (Verdict × Session p.Aead)
tick p s now later random = after_probe now.mono (detect_suspend p s now later random)
