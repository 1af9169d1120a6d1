-- ===== src/Session/Rekey/ChildSide.antt =====
-- internal/session/rekey.go: the rekey of the Child SA, initiated and answered.
use go_ipsec.Common.{
  ℕ, Bool, true, false, not, Option, none, some, List, [], ◌∷◌, ◌==◌, if◌then◌else◌, ok, panic,
  or_err, uint32_at,
}
use go_ipsec.Crypto.{Primitives}
use go_ipsec.Ikemsg.Const.{
  exchange_create_child_sa, protocol_none, protocol_esp, notify_child_sa_not_found,
  notify_no_proposal_chosen, notify_invalid_syntax, dh_x25519,
}
use go_ipsec.Ikemsg.Sa.{Proposal}
use go_ipsec.Ikemsg.Message.{Payload}
use go_ipsec.Ikesa.{ChildKeys}
use go_ipsec.Ikesa.Dh.{DhPrimitives, Dh}
use go_ipsec.Session.Suites.{esp_layer, TransformSuite, suites, enabled_suites}
use go_ipsec.Session.Child.{ChildSa, ChildSaUpdate}
use go_ipsec.Session.Window.{Session, ChildRekey, child_rekey, record_peer_response}
use go_ipsec.Session.Protected.{IkeContext}
use go_ipsec.Session.Act.{
  no_child, no_proposal, Fresh, Act, pure, fail, lifted, gets, modify, drawn, send, answered,
  no_random, answering, ◌>>=◌, ◌>>◌,
}
use go_ipsec.Session.Rekey.{
  jittered_deadline, request, send_child_delete, encode_response, send_notify_response,
  send_temporary_failure, send_invalid_ke_payload,
}
use go_ipsec.Session.Rekey.Payloads.{ChildRequest, child_rekey_request_payloads}
use go_ipsec.Session.Rekey.Negotiation.{
  ke_group, responder_dh, responder_secret, child_offer, child_answer, Choice, chosen, other_group,
  refusal, choose, responder_update, make_dh, child_result, responder_keys,
}

module _ {Aead : Type 0} where
  abbrev pub enabled_esp_suites : Session Aead → List (TransformSuite esp_layer)
  enabled_esp_suites s = enabled_suites s.settings.esp_suite_ids (suites esp_layer)

  unfoldable pub child_rekey_group : Session Aead → ℕ
  child_rekey_group s =
      if not (s.child_pfs_group == 0)
      then s.child_pfs_group
      else if not (s.ike_dh_group == 0)
      then s.ike_dh_group
      else dh_x25519

module _ (p : Primitives) (q : DhPrimitives) where
  unfoldable pub rekey_child : Option ChildSa → Bool → Fresh → Act p.Aead (Unit {0})
  rekey_child none reestablish fresh = fail no_child
  rekey_child (some child) reestablish fresh = do
    new_spi ← drawn fresh.spi
    ni ← drawn fresh.nonce_bytes
    s ← gets (λ s. s)
    d ← lifted (make_dh p q s.child_pfs (child_rekey_group s) fresh.dh_draw)
    new_in_spi ← lifted (uint32_at new_spi 0)
    request p child_rekey exchange_create_child_sa
        (child_offer (enabled_esp_suites s) (if reestablish then none else some child.initiator_spi)
          new_spi ni d s.settings.request_ipv6)
        (some (record {
          new_in_spi = new_in_spi;
          old_in_spi = child.initiator_spi;
          ni = ni;
          reestablish = reestablish;
          dh = d;
        }))
        none fresh

  unfoldable pub initiate_child_rekey : Bool → Fresh → Act p.Aead (Unit {0})
  initiate_child_rekey reestablish fresh s = rekey_child s.child reestablish fresh s

  -- InstallChildSA, on a nil data plane a nil dereference, and the fields that follow it.
  unfoldable pub install : ChildSaUpdate → ChildKeys → ℕ → Act p.Aead (Unit {0})
  install u keys clock s =
      if s.data_plane
      then (
        ok tt,
        record s {
          installed = u ∷ s.installed;
          child = some (record {
            initiator_spi = u.new_in_spi;
            responder_spi = u.new_out_spi;
            suite = u.suite;
            keys = keys;
          });
          child_installed_at = clock;
        },
      )
      else (panic, s)

  unfoldable pub after_install : ChildRekey → Fresh → Act p.Aead (Unit {0})
  after_install c fresh =
      if c.reestablish
      then pure tt
      else if c.old_in_spi == c.new_in_spi
      then pure tt
      else send_child_delete p c.old_in_spi fresh

  unfoldable pub complete_child_rekey : List Payload → ChildRekey → Fresh → Act p.Aead (Unit {0})
  complete_child_rekey inner c fresh = do
    s ← gets (λ s. s)
    (u, keys) ← lifted (child_result p q (enabled_esp_suites s) s.current.ike_sa.sk_d c inner)
    install u keys fresh.clock
    modify (λ t. record t { child_reestablish = false; next_child_reestablish = 0 })
    after_install c fresh

  unfoldable pub latch_pfs : Option Dh → Session p.Aead → Session p.Aead
  latch_pfs none s = s
  latch_pfs (some d) s = record s { child_pfs = true; child_pfs_group = d.group }

  unfoldable pub sk_d_of : Option (IkeContext p.Aead) → List ℕ
  sk_d_of none = []
  sk_d_of (some dec) = dec.ike_sa.sk_d

  -- The acceptance of a request: the response is encoded, the SA installed, and the response cached and sent.
  unfoldable pub accept_child_rekey :
      ℕ
      → Bool
      → ChildRequest
      → Proposal
      → TransformSuite esp_layer
      → Option Dh
      → Option (List ℕ)
      → List ℕ
      → List ℕ
      → ChildSa
      → Fresh
      → Act p.Aead (Unit {0})
  accept_child_rekey msg_id via_old r prop suite d secret new_spi nr child fresh = do
    s ← gets (λ s. s)
    server_spi ← lifted (uint32_at prop.spi 0)
    new_in_spi ← lifted (uint32_at new_spi 0)
    raw ←
        encode_response p exchange_create_child_sa msg_id via_old
          (child_answer r prop suite new_spi nr d s.settings.request_ipv6) fresh.iv
    keys ←
        lifted
          (responder_keys p q (sk_d_of (answering p s via_old)) secret r.request_nonce nr suite)
    modify (latch_pfs d)
    install (responder_update new_in_spi server_spi child.initiator_spi suite.id keys) keys
        fresh.clock
    modify (λ t. record t {
      next_child_rekey = jittered_deadline fresh fresh.clock t.settings.rekey_lifetime;
    })
    modify (λ t. record_peer_response t via_old msg_id raw)
    send fresh raw

  unfoldable pub handle_child_choice :
      ℕ → Bool → ChildRequest → ChildSa → Fresh → Choice esp_layer → Act p.Aead (Unit {0})
  handle_child_choice msg_id via_old r child fresh other_group =
      send_invalid_ke_payload p msg_id via_old fresh
  handle_child_choice msg_id via_old r child fresh refusal = do
    send_notify_response p msg_id via_old protocol_esp notify_no_proposal_chosen [] fresh.iv fresh
    fail no_proposal
  handle_child_choice msg_id via_old r child fresh (chosen prop suite) = do
    d ←
        answered (responder_dh p q r.ke_request fresh.dh_draw)
          (send_temporary_failure p msg_id via_old fresh.iv fresh)
    secret ← answered (responder_secret p q d r.ke_request) (
        send_notify_response p msg_id via_old protocol_none notify_invalid_syntax [] fresh.iv fresh)
    new_spi ←
        answered (or_err fresh.spi no_random)
          (send_temporary_failure p msg_id via_old fresh.iv fresh)
    nr ←
        answered (or_err fresh.nonce_bytes no_random)
          (send_temporary_failure p msg_id via_old fresh.iv fresh)
    accept_child_rekey msg_id via_old r prop suite d secret new_spi nr child fresh

  unfoldable pub handle_child_rekey_request :
      ℕ → Bool → List Payload → Fresh → Act p.Aead (Unit {0})
  handle_child_rekey_request msg_id via_old inner fresh = do
    s ← gets (λ s. s)
    child ← answered (or_err s.child no_child) (
        send_notify_response p msg_id via_old protocol_esp notify_child_sa_not_found [] fresh.iv
          fresh)
    r ← answered (child_rekey_request_payloads inner) (
        send_notify_response p msg_id via_old protocol_esp notify_no_proposal_chosen [] fresh.iv
          fresh)
    handle_child_choice msg_id via_old r child fresh
        (choose r.offers (enabled_esp_suites s) (ke_group r.ke_request))
