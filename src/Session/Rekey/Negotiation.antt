-- ===== src/Session/Rekey/Negotiation.antt =====
-- internal/session/rekey.go: what the two ends of a Child SA rekey put in their messages and make of them.
use go_ipsec.Common.{
  ℕ, Bool, true, false, not, ◌&&◌, Option, none, some, List, [], ◌∷◌, ◌++◌, length, ltb, ◌==◌,
  if◌then◌else◌, Outcome, ok, err, ◌>>=◌, ◌>>◌, fail_if, map_err, lift, uint32_at, put_uint32,
}
use go_ipsec.Crypto.{Primitives}
use go_ipsec.Ikemsg.Const.{protocol_esp, notify_rekey_sa}
use go_ipsec.Ikemsg.Sa.{Proposal}
use go_ipsec.Ikemsg.Simple.{KePayload}
use go_ipsec.Ikemsg.Message.{Payload, sa, ke, nonce, notify, tsi, tsr}
use go_ipsec.Ikesa.{ChildKeys, derive_child_keys, derive_child_keys_pfs}
use go_ipsec.Ikesa.Dh.{DhPrimitives, Dh, Randomness, new_dh, shared}
use go_ipsec.Session.Suites.{
  Layer, esp_layer, TransformSuite, build_proposal_for_suite, build_proposals, select_proposal,
  supported_dh_group, selected_dh_group,
}
use go_ipsec.Session.Child.{ChildSaUpdate}
use go_ipsec.Session.Window.{ChildRekey}
use go_ipsec.Session.Act.{DriverError, dh, wrong_group, unsolicited_ke, omitted_ke}
use go_ipsec.Session.Rekey.Payloads.{
  ChildResponse, child_rekey_response, ChildRequest, traffic_selectors,
}

-- The parts of a message that a Diffie-Hellman exchange adds.
unfoldable pub dh_groups : Option Dh → List ℕ
dh_groups none = []
dh_groups (some d) = d.group ∷ []

unfoldable pub ke_group : Option KePayload → Option ℕ
ke_group none = none
ke_group (some k) = some k.group

unfoldable pub ke_payloads : Option Dh → List Payload
ke_payloads none = []
ke_payloads (some d) = ke (record { group = d.group; bytes = d.public_value }) ∷ []

-- The request: `old_spi` is that of the SA to rekey, or `none` to make a new one in its place.
unfoldable pub rekey_notify : Option ℕ → List Payload
rekey_notify none = []
rekey_notify (some old_spi) =
    notify (record {
      protocol = protocol_esp;
      type = notify_rekey_sa;
      spi = put_uint32 old_spi;
      bytes = [];
    })
    ∷ []

unfoldable pub child_offer :
    List (TransformSuite esp_layer) → Option ℕ → List ℕ → List ℕ → Option Dh → Bool → List Payload
child_offer rows old_spi new_spi ni d include_v6 =
    rekey_notify old_spi
    ++ (sa (build_proposals new_spi rows (dh_groups d))
        ∷ nonce ni
        ∷ (ke_payloads d ++ traffic_selectors include_v6))

-- The answer, with the suite that was selected.
unfoldable pub answered_selectors : ChildRequest → Bool → List Payload
answered_selectors r include_v6 =
    if ltb 0 (length r.ts_i) && ltb 0 (length r.ts_r)
    then tsi r.ts_i ∷ tsr r.ts_r ∷ []
    else traffic_selectors include_v6

unfoldable pub child_answer :
    ChildRequest
    → Proposal
    → TransformSuite esp_layer
    → List ℕ
    → List ℕ
    → Option Dh
    → Bool
    → List Payload
child_answer r prop suite new_spi nr d include_v6 =
    sa (build_proposal_for_suite prop.number suite new_spi (dh_groups d) ∷ [])
    ∷ nonce nr
    ∷ (ke_payloads d ++ answered_selectors r include_v6)

-- What a request is answered with: a proposal of the offer with the suite that it is for, the group that we would
-- take, or a refusal.
pub data Choice (layer : Layer) : Type 0 where
  chosen : Proposal → TransformSuite layer → Choice layer
  other_group refusal : Choice layer

module _ {layer : Layer} where
  unfoldable pub without_group : Bool → Option (Proposal × TransformSuite layer) → Choice layer
  without_group required none = refusal
  without_group required (some _) = if required then other_group else refusal

  unfoldable pub choice_of :
      Option (Proposal × TransformSuite layer)
      → Bool
      → Option (Proposal × TransformSuite layer)
      → Choice layer
  choice_of (some (prop, suite)) required sans = chosen prop suite
  choice_of none required sans = without_group required sans

  -- `group` is that of the KE payload, if one came in.
  unfoldable pub choose : List Proposal → List (TransformSuite layer) → Option ℕ → Choice layer
  choose offers rows none = choice_of (select_proposal offers rows 0) false none
  choose offers rows (some group) =
      if supported_dh_group group
      then choice_of (select_proposal offers rows group) true (select_proposal offers rows 0)
      else other_group

-- The new SA of the end that initiated the exchange, as the data plane gets it.
unfoldable pub initiator_update : ChildRekey → ℕ → ℕ → ChildKeys → ChildSaUpdate
initiator_update c resp_spi suite keys = record {
  new_in_spi = c.new_in_spi;
  new_out_spi = resp_spi;
  old_in_spi = c.old_in_spi;
  suite = suite;
  out_encr = keys.encr_ir;
  out_integ = keys.integ_ir;
  in_encr = keys.encr_ri;
  in_integ = keys.integ_ri;
}

-- The same of the end that answered it.
unfoldable pub responder_update : ℕ → ℕ → ℕ → ℕ → ChildKeys → ChildSaUpdate
responder_update new_in_spi out_spi old_in_spi suite keys = record {
  new_in_spi = new_in_spi;
  new_out_spi = out_spi;
  old_in_spi = old_in_spi;
  suite = suite;
  out_encr = keys.encr_ri;
  out_integ = keys.integ_ri;
  in_encr = keys.encr_ir;
  in_integ = keys.integ_ir;
}

module _ (p : Primitives) (q : DhPrimitives) where
  unfoldable pub make_dh : Bool → ℕ → Randomness → Outcome DriverError (Option Dh)
  make_dh false group random = ok none
  make_dh true group random = do d ← map_err dh (new_dh q group random); ok (some d)

  -- KEYMAT of an exchange that we initiated.
  unfoldable pub initiator_keys :
      List ℕ
      → ChildRekey
      → Option Dh
      → Option KePayload
      → ChildResponse
      → Outcome DriverError ChildKeys
  initiator_keys sk_d c (some d) (some k) r = do
    fail_if (not (k.group == d.group)) wrong_group
    secret ← map_err dh (shared q d k.bytes)
    lift (
        derive_child_keys_pfs p.hmac_sha256 sk_d secret c.ni r.nr r.suite.encr_key_len
          r.suite.integ_key_len)
  initiator_keys sk_d c none (some k) r = err unsolicited_ke
  initiator_keys sk_d c (some d) none r = do
    fail_if (not (selected_dh_group r.proposal == 0)) omitted_ke
    lift (derive_child_keys p.hmac_sha256 sk_d c.ni r.nr r.suite.encr_key_len r.suite.integ_key_len)
  initiator_keys sk_d c none none r =
      lift
        (derive_child_keys p.hmac_sha256 sk_d c.ni r.nr r.suite.encr_key_len r.suite.integ_key_len)

  -- What an answer to our request comes to: the SA to install, with its keys.
  unfoldable pub child_result :
      List (TransformSuite esp_layer)
      → List ℕ
      → ChildRekey
      → List Payload
      → Outcome DriverError (ChildSaUpdate × ChildKeys)
  child_result rows sk_d c inner = do
    r ← child_rekey_response rows inner
    resp_spi ← uint32_at r.proposal.spi 0
    keys ← initiator_keys sk_d c c.dh r.ke_answer r
    ok (initiator_update c resp_spi r.suite.id keys, keys)

  -- KEYMAT of an exchange that we answered, with the secret of a KE payload.
  unfoldable pub responder_keys :
      List ℕ
      → Option (List ℕ)
      → List ℕ
      → List ℕ
      → TransformSuite esp_layer
      → Outcome DriverError ChildKeys
  responder_keys sk_d none ni nr suite =
      lift (derive_child_keys p.hmac_sha256 sk_d ni nr suite.encr_key_len suite.integ_key_len)
  responder_keys sk_d (some secret) ni nr suite =
      lift (
        derive_child_keys_pfs p.hmac_sha256 sk_d secret ni nr suite.encr_key_len
          suite.integ_key_len)

  -- Our side of the exchange that a KE payload asks for, and the secret. The error of the second part is the peer's.
  unfoldable pub responder_dh : Option KePayload → Randomness → Outcome DriverError (Option Dh)
  responder_dh none random = ok none
  responder_dh (some k) random = make_dh true k.group random

  unfoldable pub responder_secret :
      Option Dh → Option KePayload → Outcome DriverError (Option (List ℕ))
  responder_secret (some d) (some k) = do secret ← map_err dh (shared q d k.bytes); ok (some secret)
  responder_secret _ _ = ok none
