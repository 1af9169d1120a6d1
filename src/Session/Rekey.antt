-- ===== src/Session/Rekey.antt =====
-- internal/session/rekey.go: what the exchanges that rekey an SA share, with the notify responses of
-- informational.go and the payload helpers of ikeauth.go.
pub mod Payloads
pub mod Negotiation
pub mod ChildSide
pub mod IkeSide
pub mod Total
pub mod Messages
pub mod Agreement
use go_ipsec.Common.{
  ℕ, zero, ◌+◌, ◌*◌, ◌%◌, ◌^◌, Bool, true, false, Option, none, some, List, [], ◌∷◌, ltb, ◌==◌,
  if◌then◌else◌, Outcome, ok, err, put_uint16, put_uint32,
}
use go_ipsec.Crypto.{Primitives}
use go_ipsec.Ikemsg.Const.{
  exchange_create_child_sa, exchange_informational, flag_response, protocol_none, protocol_ike,
  protocol_esp, notify_invalid_ke_payload, notify_temporary_failure, dh_x25519,
}
use go_ipsec.Ikemsg.Message.{Payload, notify, delete}
use go_ipsec.Session.Window.{
  second, Session, PendingExchange, ExchangeKind, delete_sa, ChildRekey, IkeRekey, retransmit_base,
  record_peer_response, no_dedup,
}
use go_ipsec.Session.Protected.{IkeContext}
use go_ipsec.Ikesa.Keys.{IkeSa}
use go_ipsec.Session.Act.{
  Fresh, Act, pure, modify, gets, logged, send, ◌>>=◌, ◌>>◌, answering, encode_under,
  encode_request,
}

abbrev pub ike_rekey_grace : ℕ
ike_rekey_grace = 30 * second

-- The jitter is an argument; a lifetime of 0 sets no deadline.
unfoldable pub jittered_deadline : Fresh → ℕ → ℕ → ℕ
jittered_deadline fresh base lifetime = if ltb 0 lifetime then base + fresh.scale lifetime else 0

module _ {Aead : Type 0} where
  unfoldable pub ike_rekey_lifetime : Session Aead → ℕ
  ike_rekey_lifetime s =
      if ltb 0 s.settings.ike_rekey_lifetime_setting
      then s.settings.ike_rekey_lifetime_setting
      else 4 * s.settings.rekey_lifetime

  -- The request that is encoded takes the next message ID, and the window.
  unfoldable pub open_request :
      ExchangeKind → List ℕ → Option ChildRekey → Option IkeRekey → ℕ → Session Aead → Session Aead
  open_request kind raw child ike clock s = record s {
    message_id = (s.message_id + 1) % 2 ^ 32;
    pending = some (record {
      kind = kind;
      msg_id = s.message_id;
      raw = raw;
      attempts = 1;
      next_retransmit = clock + retransmit_base s.timing;
      child = child;
      ike = ike;
      fast = false;
    });
  }

  unfoldable pub open_old_delete : List ℕ → ℕ → Session Aead → Session Aead
  open_old_delete raw clock s = record s {
    message_id = (s.message_id + 1) % 2 ^ 32;
    old_ike_delete = some (record {
      kind = delete_sa;
      msg_id = s.message_id;
      raw = raw;
      attempts = 1;
      next_retransmit = clock + retransmit_base s.timing;
      child = none;
      ike = none;
      fast = false;
    });
  }

  unfoldable pub swap_ike : Fresh → IkeSa Aead → ℕ → ℕ → Session Aead → Session Aead
  swap_ike fresh new_ike spii spir s = record s {
    old_ike = some s.current;
    old_ike_until = fresh.clock + ike_rekey_grace;
    old_peer = s.peer;
    peer = no_dedup;
    current = record { ike_sa = new_ike; spii = spii; spir = spir };
    message_id = 0;
    ike_installed_at = fresh.clock;
    next_ike_rekey = jittered_deadline fresh fresh.clock (ike_rekey_lifetime s);
    pending = none;
  }

module _ (p : Primitives) where
  -- A request under the current SA that takes the window.
  unfoldable pub request :
      ExchangeKind
      → ℕ
      → List Payload
      → Option ChildRekey
      → Option IkeRekey
      → Fresh
      → Act p.Aead (Unit {0})
  request kind exchange inner child ike fresh = do
    raw ← encode_request p exchange inner fresh.iv
    modify (open_request kind raw child ike fresh.clock)
    send fresh raw

  unfoldable pub send_child_delete : ℕ → Fresh → Act p.Aead (Unit {0})
  send_child_delete in_spi fresh =
      request delete_sa exchange_informational
        (delete (record { protocol = protocol_esp; spis = put_uint32 in_spi ∷ [] }) ∷ []) none none
        fresh

  unfoldable pub send_ike_delete_under_current : Fresh → Act p.Aead (Unit {0})
  send_ike_delete_under_current fresh = do
    raw ←
        encode_request p exchange_informational
          (delete (record { protocol = protocol_ike; spis = [] }) ∷ []) fresh.iv
    modify (open_old_delete raw fresh.clock)
    send fresh raw

  -- A response under the SA that carried the request.
  unfoldable pub encode_response :
      ℕ → ℕ → Bool → List Payload → Option (List ℕ) → Act p.Aead (List ℕ)
  encode_response exchange msg_id via_old inner iv s =
      encode_under p (answering p s via_old) via_old exchange flag_response msg_id inner iv s

  unfoldable pub send_notify_response :
      ℕ → Bool → ℕ → ℕ → List ℕ → Option (List ℕ) → Fresh → Act p.Aead (Unit {0})
  send_notify_response msg_id via_old protocol type bytes iv fresh = logged (do
    raw ←
        encode_response exchange_create_child_sa msg_id via_old
          (notify (record { protocol = protocol; type = type; spi = []; bytes = bytes }) ∷ []) iv
    modify (λ s. record_peer_response s via_old msg_id raw)
    send fresh raw)

  unfoldable pub send_temporary_failure : ℕ → Bool → Option (List ℕ) → Fresh → Act p.Aead (Unit {0})
  send_temporary_failure msg_id via_old iv fresh =
      send_notify_response msg_id via_old protocol_none notify_temporary_failure [] iv fresh

  unfoldable pub send_invalid_ke_payload : ℕ → Bool → Fresh → Act p.Aead (Unit {0})
  send_invalid_ke_payload msg_id via_old fresh =
      send_notify_response msg_id via_old protocol_none notify_invalid_ke_payload
        (put_uint16 dh_x25519) fresh.iv fresh
