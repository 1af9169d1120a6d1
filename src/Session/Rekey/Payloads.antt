-- ===== src/Session/Rekey/Payloads.antt =====
-- What the rekey exchanges read from the payloads of a CREATE_CHILD_SA message, and the selectors that they offer.
use go_ipsec.Common.{
  ℕ, Bool, true, false, Option, none, some, List, [], ◌∷◌, length, replicate, ◌==◌, ◌&&◌, not,
  if◌then◌else◌, Outcome, ok, err, ◌>>=◌, ◌>>◌, fail_if, or_err,
}
use go_ipsec.Ikemsg.Const.{protocol_ike, ts_ipv4_addr_range, ts_ipv6_addr_range, is_error}
use go_ipsec.Ikemsg.Sa.{Proposal}
use go_ipsec.Ikemsg.Simple.{KePayload}
use go_ipsec.Ikemsg.Notify.{NotifyPayload}
use go_ipsec.Ikemsg.Ts.{TrafficSelector}
use go_ipsec.Ikemsg.Message.{Payload, sa, ke, nonce, notify, tsi, tsr}
use go_ipsec.Session.Suites.{esp_layer, TransformSuite, selected_suite}
use go_ipsec.Session.Act.{
  DriverError, error_notify, missing_sa, missing_nonce, missing_ke, no_proposal, bad_selection,
}

unfoldable pub notify_error : NotifyPayload → Bool
notify_error n = is_error n.type

-- The last payload of each kind, as the loops over the payloads leave them. A nil is `none`, or empty.
pub record Contents : Type 0 where
  pub proposals : Option (List Proposal)
  pub nonce_data : List ℕ
  pub key_exchange : Option KePayload
  pub initiator_selectors : List TrafficSelector
  pub responder_selectors : List TrafficSelector

abbrev pub nothing : Contents
nothing = record {
  proposals = none;
  nonce_data = [];
  key_exchange = none;
  initiator_selectors = [];
  responder_selectors = [];
}

-- The loops of childRekeyResponse, childRekeyRequestPayloads and ikeRekeyPayloads. The first of them and the last
-- stop at an error notify, and these two do not read the selectors that are collected here.
unfoldable pub contents_from : Bool → Contents → List Payload → Outcome DriverError Contents
contents_from stops c [] = ok c
contents_from stops c (sa ps ∷ rest) = contents_from stops (record c { proposals = some ps }) rest
contents_from stops c (nonce bytes ∷ rest) =
    contents_from stops (record c { nonce_data = bytes }) rest
contents_from stops c (ke k ∷ rest) = contents_from stops (record c { key_exchange = some k }) rest
contents_from stops c (tsi ts ∷ rest) =
    contents_from stops (record c { initiator_selectors = ts }) rest
contents_from stops c (tsr ts ∷ rest) =
    contents_from stops (record c { responder_selectors = ts }) rest
contents_from stops c (notify n ∷ rest) =
    let others = contents_from stops c rest in
    if stops && notify_error n then err error_notify else others
contents_from stops c (p ∷ rest) = contents_from stops c rest

unfoldable pub contents : Bool → List Payload → Outcome DriverError Contents
contents stops inner = contents_from stops nothing inner

unfoldable pub first_proposal : List Proposal → Option Proposal
first_proposal [] = none
first_proposal (p ∷ ps) = some p

pub record ChildResponse : Type 0 where
  pub proposal : Proposal
  pub suite : TransformSuite esp_layer
  pub nr : List ℕ
  pub ke_answer : Option KePayload

unfoldable pub child_rekey_response :
    List (TransformSuite esp_layer) → List Payload → Outcome DriverError ChildResponse
child_rekey_response rows inner = do
  c ← contents true inner
  proposals ← or_err c.proposals missing_sa
  prop ← or_err (first_proposal proposals) no_proposal
  suite ← or_err (selected_suite prop rows) bad_selection
  fail_if (not (length prop.spi == 4)) bad_selection
  fail_if (length c.nonce_data == 0) missing_nonce
  ok (record { proposal = prop; suite = suite; nr = c.nonce_data; ke_answer = c.key_exchange })

pub record ChildRequest : Type 0 where
  pub offers : List Proposal
  pub request_nonce : List ℕ
  pub ke_request : Option KePayload
  pub ts_i : List TrafficSelector
  pub ts_r : List TrafficSelector

unfoldable pub child_rekey_request_payloads : List Payload → Outcome DriverError ChildRequest
child_rekey_request_payloads inner = do
  c ← contents false inner
  proposals ← or_err c.proposals missing_sa
  fail_if (length c.nonce_data == 0) missing_nonce
  ok (record {
    offers = proposals;
    request_nonce = c.nonce_data;
    ke_request = c.key_exchange;
    ts_i = c.initiator_selectors;
    ts_r = c.responder_selectors;
  })

pub record IkePayloads : Type 0 where
  pub ike_offers : List Proposal
  pub ike_nonce : List ℕ
  pub ike_ke : KePayload

unfoldable pub ike_rekey_payloads : List Payload → Outcome DriverError IkePayloads
ike_rekey_payloads inner = do
  c ← contents true inner
  proposals ← or_err c.proposals missing_sa
  fail_if (length c.nonce_data == 0) missing_ke
  k ← or_err c.key_exchange missing_ke
  fail_if (length k.bytes == 0) missing_ke
  ok (record { ike_offers = proposals; ike_nonce = c.nonce_data; ike_ke = k })

unfoldable pub is_ike_proposal : Option Proposal → Bool
is_ike_proposal none = false
is_ike_proposal (some p) = p.protocol == protocol_ike

unfoldable pub is_ike_rekey : List Payload → Bool
is_ike_rekey [] = false
is_ike_rekey (sa ps ∷ rest) =
    let others = is_ike_rekey rest in if is_ike_proposal (first_proposal ps) then true else others
is_ike_rekey (p ∷ rest) = is_ike_rekey rest

abbrev pub all_ipv4 : TrafficSelector
all_ipv4 = record {
  ts_type = ts_ipv4_addr_range;
  protocol = 0;
  start_port = 0;
  end_port = 65535;
  start_addr = replicate 4 0;
  end_addr = replicate 4 255;
}

abbrev pub all_ipv6 : TrafficSelector
all_ipv6 = record {
  ts_type = ts_ipv6_addr_range;
  protocol = 0;
  start_port = 0;
  end_port = 65535;
  start_addr = replicate 16 0;
  end_addr = replicate 16 255;
}

-- appendTrafficSelectors: what it appends.
unfoldable pub traffic_selectors : Bool → List Payload
traffic_selectors include_v6 =
    let full = all_ipv4 ∷ (if include_v6 then all_ipv6 ∷ [] else []) in tsi full ∷ tsr full ∷ []
