-- ===== src/Session/Rekey/IkeSide.antt =====
-- internal/session/rekey.go: the rekey of the IKE SA, initiated and answered.
use go_ipsec.Common.{
  ℕ, false, not, none, some, List, [], ◌∷◌, length, ◌==◌, if◌then◌else◌, map_err, or_err, uint64_at,
  put_uint64,
}
use go_ipsec.Crypto.{Primitives}
use go_ipsec.Ikemsg.Const.{
  exchange_create_child_sa, protocol_none, notify_no_proposal_chosen, notify_invalid_syntax,
}
use go_ipsec.Ikemsg.Sa.{Proposal}
use go_ipsec.Ikemsg.Message.{Payload, sa, ke, nonce}
use go_ipsec.Ikesa.Dh.{DhPrimitives, Dh, new_dh, shared}
use go_ipsec.Ikesa.Keys.{
  initiator, responder, SkSuite, sk_aes_cbc256_sha256, sk_aes_gcm256, sk_chacha20_poly1305,
  sk_unknown, derive_rekey_ike,
}
use go_ipsec.Session.Suites.{
  ike_layer, suite_aes_cbc256_sha256, suite_aes_gcm256, suite_chacha20_poly1305, TransformSuite,
  suites, enabled_suites, build_proposal_for_suite, build_proposals, selected_suite,
}
use go_ipsec.Session.Window.{Session, IkeRekey, ike_rekey, record_peer_response}
use go_ipsec.Session.Act.{
  dh, ike, no_proposal, bad_selection, wrong_group, no_random, Fresh, Act, fail, lifted, gets,
  modify, act_if, drawn, answered, tried, logged, send, ◌>>=◌, ◌>>◌,
}
use go_ipsec.Session.Rekey.{
  swap_ike, request, send_ike_delete_under_current, encode_response, send_notify_response,
  send_temporary_failure, send_invalid_ke_payload,
}
use go_ipsec.Session.Rekey.Payloads.{IkePayloads, ike_rekey_payloads, first_proposal}
use go_ipsec.Session.Rekey.Negotiation.{Choice, chosen, other_group, refusal, choose}

module _ {Aead : Type 0} where
  abbrev pub enabled_ike_suites : Session Aead → List (TransformSuite ike_layer)
  enabled_ike_suites s = enabled_suites s.settings.ike_suite_ids (suites ike_layer)

-- The number of a suite as a value of ikesa.Suite.
unfoldable pub sk_suite : ℕ → SkSuite
sk_suite id =
    if id == suite_aes_cbc256_sha256
    then sk_aes_cbc256_sha256
    else if id == suite_aes_gcm256
    then sk_aes_gcm256
    else if id == suite_chacha20_poly1305
    then sk_chacha20_poly1305
    else sk_unknown id

abbrev pub ke_of : Dh → Payload
ke_of d = ke (record { group = d.group; bytes = d.public_value })

module _ (p : Primitives) (q : DhPrimitives) where
  unfoldable pub initiate_ike_rekey : Fresh → Act p.Aead (Unit {0})
  initiate_ike_rekey fresh = do
    new_spii ← drawn fresh.spi64
    s ← gets (λ s. s)
    d ← lifted (map_err dh (new_dh q s.ike_dh_group fresh.dh_draw))
    ni ← drawn fresh.nonce_bytes
    request p ike_rekey exchange_create_child_sa
        (sa (build_proposals (put_uint64 new_spii) (enabled_ike_suites s) (d.group ∷ []))
          ∷ nonce ni
          ∷ ke_of d
          ∷ [])
        none (some (record { new_spii = new_spii; ni = ni; dh = d })) fresh

  -- The new SA keyed from the answer, the DELETE of the old one under the old one, and the cutover.
  unfoldable pub complete_ike_rekey : List Payload → IkeRekey → Fresh → Act p.Aead (Unit {0})
  complete_ike_rekey inner c fresh = do
    s ← gets (λ s. s)
    r ← lifted (ike_rekey_payloads inner)
    prop ← lifted (or_err (first_proposal r.ike_offers) no_proposal)
    suite ← lifted (or_err (selected_suite prop (enabled_ike_suites s)) bad_selection)
    act_if (not (length prop.spi == 8)) bad_selection
    new_spir ← lifted (uint64_at prop.spi 0)
    act_if (not (r.ike_ke.group == c.dh.group)) wrong_group
    secret ← lifted (map_err dh (shared q c.dh r.ike_ke.bytes))
    new_ike ← lifted (
        map_err ike (
          derive_rekey_ike p (sk_suite suite.id) s.current.ike_sa.sk_d initiator c.new_spii new_spir
            c.ni r.ike_nonce secret))
    logged (send_ike_delete_under_current p fresh)
    modify (swap_ike fresh new_ike c.new_spii new_spir)

  -- The acceptance of a request: the response is cached, and the session cut over, before it is sent.
  unfoldable pub accept_ike_rekey :
      ℕ → IkePayloads → Proposal → TransformSuite ike_layer → Fresh → Act p.Aead (Unit {0})
  accept_ike_rekey msg_id r prop suite fresh = do
    let declined = send_temporary_failure p msg_id false fresh.iv fresh
    s ← gets (λ s. s)
    server_spii ← lifted (uint64_at prop.spi 0)
    d ← answered (map_err dh (new_dh q r.ike_ke.group fresh.dh_draw)) declined
    secret ←
        answered (map_err dh (shared q d r.ike_ke.bytes)) (
          send_notify_response p msg_id false protocol_none notify_invalid_syntax [] fresh.iv fresh)
    new_spir ← answered (or_err fresh.spi64 no_random) declined
    nr ← answered (or_err fresh.nonce_bytes no_random) declined
    new_ike ←
        answered
          (map_err ike (
            derive_rekey_ike p (sk_suite suite.id) s.current.ike_sa.sk_d responder server_spii
              new_spir r.ike_nonce nr secret))
          declined
    encoded ← tried (
        encode_response p exchange_create_child_sa msg_id false
          (sa (build_proposal_for_suite prop.number suite (put_uint64 new_spir) (d.group ∷ []) ∷ [])
            ∷ nonce nr
            ∷ ke_of d
            ∷ [])
          fresh.iv)
    raw ← answered encoded (send_temporary_failure p msg_id false fresh.iv_again fresh)
    modify (λ t. record_peer_response t false msg_id raw)
    modify (swap_ike fresh new_ike server_spii new_spir)
    modify (λ t. record t { ike_dh_group = d.group })
    send fresh raw

  unfoldable pub handle_ike_choice :
      ℕ → IkePayloads → Fresh → Choice ike_layer → Act p.Aead (Unit {0})
  handle_ike_choice msg_id r fresh other_group = send_invalid_ke_payload p msg_id false fresh
  handle_ike_choice msg_id r fresh refusal = do
    send_notify_response p msg_id false protocol_none notify_no_proposal_chosen [] fresh.iv fresh
    fail no_proposal
  handle_ike_choice msg_id r fresh (chosen prop suite) = accept_ike_rekey msg_id r prop suite fresh

  unfoldable pub handle_ike_rekey_request : ℕ → List Payload → Fresh → Act p.Aead (Unit {0})
  handle_ike_rekey_request msg_id inner fresh = do
    s ← gets (λ s. s)
    r ← answered (ike_rekey_payloads inner) (
        send_notify_response p msg_id false protocol_none notify_no_proposal_chosen [] fresh.iv
          fresh)
    handle_ike_choice msg_id r fresh
        (choose r.ike_offers (enabled_ike_suites s) (some r.ike_ke.group))
