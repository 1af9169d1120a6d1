-- ===== src/Tests/Codec.antt =====
-- The codec of internal/ikemsg on concrete messages.
use go_ipsec.Common.{
  ℕ, ◌+◌, ◌*◌, ◌≤◌, ◌≡◌, refl, true, false, List, [], ◌∷◌, ◌++◌, length, replicate, arith, Outcome,
  ok, err, Returns, Ensures, yields, Ensures-ok, if◌then◌else◌, ◌==◌, bit_and, drain_all, drain,
  byte_at, slice, slice_from, uint16_at, uint32_at, uint64_at, put_uint16, ◌>>=◌, fail_if,
}
use go_ipsec.Ikemsg.Const.{CodecError, unknown_critical_payload}
use go_ipsec.Ikemsg.Notify.{
  NotifyPayload, DeletePayload, marshal_notify, unmarshal_notify, marshal_delete, unmarshal_delete,
}
use go_ipsec.Ikemsg.Notify.RoundTrip.{IsNotify, notify_round}
use go_ipsec.Ikemsg.Notify.DeleteRound.{IsDelete, delete_round}
use go_ipsec.Ikemsg.Ts.{TrafficSelector, addr_len, marshal_ts_body, parse_ts_body}
use go_ipsec.Ikemsg.Ts.RoundTrip.{IsSelector, ts_body_round}
use go_ipsec.Ikemsg.Config.{ConfigPayload, marshal_config, unmarshal_config}
use go_ipsec.Ikemsg.Config.RoundTrip.{config_round}
use go_ipsec.Ikemsg.Sa.{
  Transform, Proposal, marshal_proposals, marshal_proposal, marshal_transforms, marshal_transform,
  key_length_attr, unmarshal_sa,
}
use go_ipsec.Ikemsg.Sa.RoundTrip.{IsProposal, proposals_round}
use go_ipsec.Ikemsg.Message.{
  Payload, sa, nonce, vendor_id, parse_payload, parse_known, set_inner_first, unmarshal_body,
  payload_type, next_type, notify, Message, new_payload, marshal_body, marshal_payloads, first_type,
  marshal_chain, marshal, parse_chain, parse_payloads, parse,
}
use go_ipsec.Ikemsg.Message.Total.{IsParsed, parse-Returns, parse-IsParsed}
use go_ipsec.Ikemsg.Message.RoundTrip.{
  IsChain, IsMessage, parse-marshal, parse_payloads-marshal_chain,
}
use go_ipsec.Ikemsg.Message.Unknown.{type_before, Linked, behind, link, parse_chain_unknown}

abbrev aes256 : Transform
aes256 = record { type = 1; id = 12; key_length = 256; has_key_length = true }

abbrev x25519 : Transform
x25519 = record { type = 4; id = 31; key_length = 0; has_key_length = false }

abbrev proposal : Proposal
proposal = record { number = 1; protocol = 1; spi = 9 ∷ []; transforms = aes256 ∷ x25519 ∷ [] }

proposal-IsProposal : IsProposal proposal
proposal-IsProposal = record {
  number_fits = omega arith;
  protocol_fits = omega arith;
  spi_fits = omega arith;
  few_transforms = omega arith;
  transforms_valid = (
    record {
      type_fits = omega arith;
      id_fits = omega arith;
      key_length_fits = omega arith;
      flagged = λ e. absurd cc;
    },
    (
      record {
        type_fits = omega arith;
        id_fits = omega arith;
        key_length_fits = omega arith;
        flagged = λ e. refl;
      },
      tt,
    ),
  );
}

proposals_round_example :
    (bs : List ℕ) × (marshal_proposals (proposal ∷ []) ≡ ok bs)
    × (length bs ≤ 3323 * length (proposal ∷ []))
    × ((out : List Proposal) → unmarshal_sa out bs ≡ ok (out ++ proposal ∷ []))
proposals_round_example = proposals_round (proposal ∷ []) (proposal-IsProposal, tt)

abbrev cookie : NotifyPayload
cookie = record { protocol = 0; type = 16390; spi = []; bytes = 1 ∷ 2 ∷ 3 ∷ [] }

cookie-IsNotify : IsNotify cookie
cookie-IsNotify = record {
  protocol_fits = omega arith;
  type_fits = omega arith;
  spi_fits = omega arith;
}

notify_round_example : unmarshal_notify (marshal_notify cookie) ≡ ok cookie
notify_round_example = notify_round cookie cookie-IsNotify

abbrev two_spis : DeletePayload
two_spis = record { protocol = 3; spis = (1 ∷ 2 ∷ 3 ∷ 4 ∷ []) ∷ (5 ∷ 6 ∷ 7 ∷ 8 ∷ []) ∷ [] }

two_spis-IsDelete : IsDelete two_spis
two_spis-IsDelete = record {
  protocol_fits = omega arith;
  width = 4;
  width_pos = omega arith;
  width_fits = omega arith;
  same_width = (refl, (refl, tt));
  count_fits = omega arith;
}

delete_round_example :
    (bs : List ℕ) × (marshal_delete two_spis ≡ ok bs) × (unmarshal_delete bs ≡ ok two_spis)
delete_round_example = delete_round two_spis two_spis-IsDelete

abbrev any_ipv4 : TrafficSelector
any_ipv4 = record {
  ts_type = 7;
  protocol = 0;
  start_port = 0;
  end_port = 65535;
  start_addr = 0 ∷ 0 ∷ 0 ∷ 0 ∷ [];
  end_addr = 255 ∷ 255 ∷ 255 ∷ 255 ∷ [];
}

any_ipv4-IsSelector : IsSelector any_ipv4
any_ipv4-IsSelector = record {
  supported = unfold addr_len in omega arith;
  type_fits = omega arith;
  protocol_fits = omega arith;
  start_port_fits = omega arith;
  end_port_fits = omega arith;
  start_width = unfold addr_len in refl;
  end_width = unfold addr_len in refl;
}

ts_body_round_example :
    (bs : List ℕ) × (marshal_ts_body (any_ipv4 ∷ []) ≡ ok bs)
    × (parse_ts_body bs ≡ ok (any_ipv4 ∷ []))
ts_body_round_example =
    ts_body_round (any_ipv4 ∷ []) (any_ipv4-IsSelector, tt) (omega arith) (omega arith)

abbrev address_reply : ConfigPayload
address_reply = record {
  cfg_type = 2;
  attributes = record { type = 1; value = 10 ∷ 0 ∷ 0 ∷ 2 ∷ [] } ∷ [];
}

config_round_example : unmarshal_config [] (marshal_config address_reply) ≡ ok address_reply
config_round_example =
    config_round address_reply (record { type_fits = omega arith; value_fits = omega arith }, tt)

abbrev init_payloads : List Payload
init_payloads = sa (proposal ∷ []) ∷ nonce (replicate 16 7) ∷ notify cookie ∷ []

abbrev init_request : Message
init_request = record {
  initiator_spi = 81985529216486895;
  responder_spi = 0;
  exchange = 34;
  flags = 8;
  message_id = 0;
  payloads = init_payloads;
}

within :
    {limit : ℕ} {m : Outcome CodecError (List ℕ)}
    → Ensures (λ bs. length bs ≤ limit) m
    → (bs : List ℕ) → m ≡ ok bs
    → length bs ≤ limit
within h bs e = Ensures-ok h e

init_payloads-IsChain : IsChain init_payloads
unfolding marshal_body marshal_notify
init_payloads-IsChain =
    let (bs, wrote, few, reads) = proposals_round_example in
    (
      (proposal-IsProposal, tt),
      within (rw wrote (yields (omega (arith, few)))),
      tt,
      (
        (omega arith, omega arith),
        within (yields (omega arith)),
        tt,
        (cookie-IsNotify, within (yields (omega arith)), tt, tt),
      ),
    )

parse_payloads-marshal_chain_example :
    (bs : List ℕ) × (marshal_chain init_payloads ≡ ok (first_type init_payloads, bs))
    × (parse_payloads (first_type init_payloads) bs ≡ ok init_payloads)
parse_payloads-marshal_chain_example =
    parse_payloads-marshal_chain init_payloads init_payloads-IsChain

init_length : Ensures (λ bs. length bs ≤ 100) (marshal_payloads init_payloads)
unfolding marshal_payloads marshal_body marshal_proposals marshal_proposal marshal_transforms
    marshal_transform key_length_attr marshal_notify payload_type next_type fail_if ◌>>=◌
init_length = yields (omega arith)

init_request-IsMessage : IsMessage init_request
init_request-IsMessage = record {
  initiator_fits = omega arith;
  responder_fits = omega arith;
  exchange_fits = omega arith;
  flags_fit = omega arith;
  id_fits = omega arith;
  chain_fits = init_payloads-IsChain;
  length_fits = λ bs e. omega (arith, within init_length bs e);
}

parse-marshal_example :
    (bs : List ℕ) × (marshal init_request ≡ ok bs) × (parse bs ≡ ok init_request)
parse-marshal_example = parse-marshal init_request init_request-IsMessage

-- The header of a datagram of 33 bytes, and a payload of 5 with a body of one.
abbrev cut_nonce : List ℕ
cut_nonce =
    replicate 16 1 ++ (40 ∷ 0x20 ∷ 34 ∷ 8 ∷ 0 ∷ 0 ∷ 0 ∷ 0 ∷ 0 ∷ 0 ∷ 0 ∷ 33 ∷ 0 ∷ 0 ∷ 0 ∷ 5 ∷ 7 ∷ [])

parse-Returns_example : Returns (parse cut_nonce)
parse-Returns_example = parse-Returns cut_nonce

-- The same with a payload of a vendor ID.
abbrev vendor_datagram : List ℕ
vendor_datagram =
    replicate 16 1 ++ (43 ∷ 0x20 ∷ 34 ∷ 8 ∷ 0 ∷ 0 ∷ 0 ∷ 0 ∷ 0 ∷ 0 ∷ 0 ∷ 33 ∷ 0 ∷ 0 ∷ 0 ∷ 5 ∷ 7 ∷ [])

abbrev vendor_message : Message
vendor_message = record {
  initiator_spi = 72340172838076673;
  responder_spi = 72340172838076673;
  exchange = 34;
  flags = 8;
  message_id = 0;
  payloads = vendor_id (7 ∷ []) ∷ [];
}

vendor_parsed : parse vendor_datagram ≡ ok vendor_message
unfolding parse parse_chain drain_all drain parse_payload parse_known new_payload set_inner_first
    unmarshal_body fail_if ◌>>=◌ byte_at slice slice_from uint16_at uint32_at uint64_at
vendor_parsed = refl

parse-IsParsed_example : IsParsed vendor_datagram vendor_message
parse-IsParsed_example = parse-IsParsed vendor_datagram vendor_message vendor_parsed

-- A payload of type 200 with a clear critical bit, and a Vendor ID behind it.
abbrev unknown_then_vendor : List ℕ
unknown_then_vendor =
    43 ∷ 0 ∷ (put_uint16 (4 + length {A = ℕ} (1 ∷ [])) ++ ((1 ∷ []) ++ (0 ∷ 0 ∷ 0 ∷ 4 ∷ [])))

abbrev some_nonce : List ℕ
some_nonce = replicate 16 7

abbrev nonce_then_unknown : List ℕ
nonce_then_unknown =
    200 ∷ 0 ∷ (put_uint16 (4 + length some_nonce) ++ (some_nonce ++ unknown_then_vendor))

nonce-Linked : Linked 200 unknown_then_vendor (nonce some_nonce ∷ []) nonce_then_unknown
unfolding marshal_body
nonce-Linked =
    link (nonce some_nonce) some_nonce (omega arith, omega arith) refl (omega arith) tt behind

parse_chain_unknown_example :
    parse_chain (type_before 200 (nonce some_nonce ∷ [])) nonce_then_unknown ≡ (
      if bit_and 0 0x80 == 0
      then (parse_chain 43 (0 ∷ 0 ∷ 0 ∷ 4 ∷ []) >>= λ qs. ok ((nonce some_nonce ∷ []) ++ qs))
      else err unknown_critical_payload)
parse_chain_unknown_example =
    parse_chain_unknown (nonce some_nonce ∷ []) 200 43 0 (1 ∷ []) (0 ∷ 0 ∷ 0 ∷ 4 ∷ [])
      nonce_then_unknown (unfold new_payload in refl) (omega arith) nonce-Linked
