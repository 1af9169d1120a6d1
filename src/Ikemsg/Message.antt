-- ===== src/Ikemsg/Message.antt =====
-- internal/ikemsg/payload.go and message.go: the payload chain and the IKE message.
pub mod Total
pub mod Marshal
pub mod RoundTrip
pub mod Unknown
use go_ipsec.Common.{
  ℕ, ◌+◌, ◌%◌, ◌-◌, Bool, true, false, not, ◌&&◌, Option, none, some, List, [], ◌∷◌, ◌++◌, bit_and,
  ltb, ◌==◌, if◌then◌else◌, length, Outcome, ok, err, ◌>>=◌, ◌>>◌, fail_if, byte_at, slice,
  slice_from, uint16_at, uint32_at, uint64_at, put_uint16, put_uint32, put_uint64, drain_all,
}
use go_ipsec.Ikemsg.Const.{
  CodecError, payload_none, payload_sa, payload_ke, payload_idi, payload_idr, payload_cert,
  payload_cert_req, payload_auth, payload_nonce, payload_notify, payload_delete, payload_vendor_id,
  payload_tsi, payload_tsr, payload_sk, payload_cp, payload_eap, datagram_short,
  header_length_small, datagram_length_mismatch, payload_header_truncated, payload_length_small,
  payload_length_overrun, unknown_critical_payload, payload_too_long, cert_empty,
  cert_request_empty,
}
use go_ipsec.Ikemsg.Simple.{
  KePayload, IdPayload, AuthPayload, CertPayload, marshal_ke, unmarshal_ke, unmarshal_nonce,
  marshal_id_body, parse_id_body, marshal_auth, unmarshal_auth, marshal_cert, unmarshal_cert,
}
use go_ipsec.Ikemsg.Notify.{
  NotifyPayload, DeletePayload, marshal_notify, unmarshal_notify, marshal_delete, unmarshal_delete,
}
use go_ipsec.Ikemsg.Ts.{TrafficSelector, marshal_ts_body, parse_ts_body}
use go_ipsec.Ikemsg.Config.{ConfigPayload, ConfigAttr, marshal_config, unmarshal_config}
use go_ipsec.Ikemsg.Sa.{Proposal, marshal_proposals, unmarshal_sa}

-- One constructor for each type that implements the interface `Payload`.
pub data Payload : Type 0 where
  sa : List Proposal → Payload
  ke : KePayload → Payload
  idi idr : IdPayload → Payload
  cert cert_request : CertPayload → Payload
  auth : AuthPayload → Payload
  nonce : List ℕ → Payload
  notify : NotifyPayload → Payload
  delete : DeletePayload → Payload
  vendor_id : List ℕ → Payload
  tsi tsr : List TrafficSelector → Payload
  encrypted : ℕ → List ℕ → Payload
  config : ConfigPayload → Payload
  eap : List ℕ → Payload

pub record Message : Type 0 where
  pub initiator_spi : ℕ
  pub responder_spi : ℕ
  pub exchange : ℕ
  pub flags : ℕ
  pub message_id : ℕ
  pub payloads : List Payload

abbrev pub header_len : ℕ
header_len = 28

abbrev pub generic_header_len : ℕ
generic_header_len = 4

abbrev pub critical_bit : ℕ
critical_bit = 0x80

unfoldable pub payload_type : Payload → ℕ
payload_type (sa _) = payload_sa
payload_type (ke _) = payload_ke
payload_type (idi _) = payload_idi
payload_type (idr _) = payload_idr
payload_type (cert _) = payload_cert
payload_type (cert_request _) = payload_cert_req
payload_type (auth _) = payload_auth
payload_type (nonce _) = payload_nonce
payload_type (notify _) = payload_notify
payload_type (delete _) = payload_delete
payload_type (vendor_id _) = payload_vendor_id
payload_type (tsi _) = payload_tsi
payload_type (tsr _) = payload_tsr
payload_type (encrypted _ _) = payload_sk
payload_type (config _) = payload_cp
payload_type (eap _) = payload_eap

unfoldable pub marshal_body : Payload → Outcome CodecError (List ℕ)
marshal_body (sa ps) = marshal_proposals ps
marshal_body (ke p) = ok (marshal_ke p)
marshal_body (idi p) = ok (marshal_id_body p.id_type p.bytes)
marshal_body (idr p) = ok (marshal_id_body p.id_type p.bytes)
marshal_body (cert p) = ok (marshal_cert p)
marshal_body (cert_request p) = ok (marshal_cert p)
marshal_body (auth p) = ok (marshal_auth p)
marshal_body (nonce bytes) = ok bytes
marshal_body (notify p) = ok (marshal_notify p)
marshal_body (delete p) = marshal_delete p
marshal_body (vendor_id bytes) = ok bytes
marshal_body (tsi tss) = marshal_ts_body tss
marshal_body (tsr tss) = marshal_ts_body tss
marshal_body (encrypted _ bytes) = ok bytes
marshal_body (config p) = ok (marshal_config p)
marshal_body (eap bytes) = ok bytes

-- `nextType` in `Payloads.Marshal`: of the payload behind `p`, or for the last one the type that an
-- SK payload announces, or none.
unfoldable pub next_type : Payload → List Payload → ℕ
next_type p (q ∷ qs) = payload_type q
next_type (encrypted inner_first _) [] = inner_first
next_type p [] = payload_none

-- The loop of `Payloads.Marshal`.
unfoldable pub marshal_payloads : List Payload → Outcome CodecError (List ℕ)
marshal_payloads [] = ok []
marshal_payloads (p ∷ ps) = do
  body ← marshal_body p
  fail_if (ltb (0xffff - generic_header_len) (length body)) payload_too_long
  rest ← marshal_payloads ps
  ok (next_type p ps ∷ 0 ∷ (put_uint16 (generic_header_len + length body) ++ (body ++ rest)))

unfoldable pub first_type : List Payload → ℕ
first_type [] = payload_none
first_type (p ∷ ps) = payload_type p

unfoldable pub marshal_chain : List Payload → Outcome CodecError (ℕ × List ℕ)
marshal_chain ps = do body ← marshal_payloads ps; ok (first_type ps, body)

unfoldable pub marshal : Message → Outcome CodecError (List ℕ)
marshal m = do
  (first, body) ← marshal_chain m.payloads
  ok (
      put_uint64 m.initiator_spi
      ++ (put_uint64 m.responder_spi
          ++ first
            ∷ 0x20
            ∷ m.exchange
            ∷ m.flags
            ∷ (put_uint32 m.message_id ++ (put_uint32 (header_len + length body) ++ body))))

-- The zero value of the payload type for `t`.
unfoldable pub new_payload : ℕ → Option Payload
new_payload t =
    if t == payload_sa
    then some (sa [])
    else if t == payload_ke
    then some (ke (record { group = 0; bytes = [] }))
    else if t == payload_idi
    then some (idi (record { id_type = 0; bytes = [] }))
    else if t == payload_idr
    then some (idr (record { id_type = 0; bytes = [] }))
    else if t == payload_cert
    then some (cert (record { encoding = 0; bytes = [] }))
    else if t == payload_cert_req
    then some (cert_request (record { encoding = 0; bytes = [] }))
    else if t == payload_auth
    then some (auth (record { method = 0; bytes = [] }))
    else if t == payload_nonce
    then some (nonce [])
    else if t == payload_notify
    then some (notify (record { protocol = 0; type = 0; spi = []; bytes = [] }))
    else if t == payload_delete
    then some (delete (record { protocol = 0; spis = [] }))
    else if t == payload_vendor_id
    then some (vendor_id [])
    else if t == payload_tsi
    then some (tsi [])
    else if t == payload_tsr
    then some (tsr [])
    else if t == payload_sk
    then some (encrypted 0 [])
    else if t == payload_cp
    then some (config (record { cfg_type = 0; attributes = [] }))
    else if t == payload_eap
    then some (eap [])
    else none

-- `if enc, ok := p.(*EncryptedPayload); ok { enc.InnerFirst = following }`
unfoldable pub set_inner_first : ℕ → Payload → Payload
set_inner_first following (encrypted _ bytes) = encrypted following bytes
set_inner_first following p = p

-- `p.unmarshalBody(body)`, with what it leaves in the receiver `p`.
unfoldable pub unmarshal_body : Payload → List ℕ → Outcome CodecError Payload
unmarshal_body (sa ps) body = do ps' ← unmarshal_sa ps body; ok (sa ps')
unmarshal_body (ke _) body = do p ← unmarshal_ke body; ok (ke p)
unmarshal_body (idi _) body = do p ← parse_id_body body; ok (idi p)
unmarshal_body (idr _) body = do p ← parse_id_body body; ok (idr p)
unmarshal_body (cert _) body = do p ← unmarshal_cert cert_empty body; ok (cert p)
unmarshal_body (cert_request _) body = do
  p ← unmarshal_cert cert_request_empty body
  ok (cert_request p)
unmarshal_body (auth _) body = do p ← unmarshal_auth body; ok (auth p)
unmarshal_body (nonce _) body = do bytes ← unmarshal_nonce body; ok (nonce bytes)
unmarshal_body (notify _) body = do p ← unmarshal_notify body; ok (notify p)
unmarshal_body (delete _) body = do p ← unmarshal_delete body; ok (delete p)
unmarshal_body (vendor_id _) body = ok (vendor_id body)
unmarshal_body (tsi _) body = do tss ← parse_ts_body body; ok (tsi tss)
unmarshal_body (tsr _) body = do tss ← parse_ts_body body; ok (tsr tss)
unmarshal_body (encrypted inner_first _) body = ok (encrypted inner_first body)
unmarshal_body (config c) body = do p ← unmarshal_config c.attributes body; ok (config p)
unmarshal_body (eap _) body = ok (eap body)

-- What a round of the chain loop assigns: the type of the next payload and the payloads so far.
pub record Chain : Type 0 where
  pub next : ℕ
  pub out : List Payload

-- The rest of a round, behind the checks of the generic header: skip, refuse, or decode.
unfoldable pub parse_known :
    Option Payload → Bool → ℕ → ℕ → List Payload → List ℕ → Outcome CodecError (Chain × List ℕ)
parse_known none critical following plen out body = do
  fail_if critical unknown_critical_payload
  rest ← slice_from body plen
  ok (record { next = following; out = out }, rest)
parse_known (some p) critical following plen out body = do
  bytes ← slice body generic_header_len plen
  p' ← unmarshal_body (set_inner_first following p) bytes
  rest ← slice_from body plen
  ok (record { next = following; out = out ++ p' ∷ [] }, rest)

-- One round of the loop of `parseChain`.
unfoldable pub parse_payload : Chain → List ℕ → Outcome CodecError (Chain × List ℕ)
parse_payload s body = do
  fail_if (ltb (length body) generic_header_len) payload_header_truncated
  following ← byte_at body 0
  flags ← byte_at body 1
  plen ← uint16_at body 2
  fail_if (ltb plen generic_header_len) payload_length_small
  fail_if (ltb (length body) plen) payload_length_overrun
  parse_known (new_payload s.next) (not (bit_and flags critical_bit == 0)) following plen s.out body

unfoldable pub parse_chain : ℕ → List ℕ → Outcome CodecError (List Payload)
parse_chain first body = do
  s ← drain_all parse_payload (record { next = first; out = [] }) body
  ok s.out

unfoldable pub parse_payloads : ℕ → List ℕ → Outcome CodecError (List Payload)
parse_payloads first body = parse_chain first body

unfoldable pub parse : List ℕ → Outcome CodecError Message
parse raw = do
  fail_if (ltb (length raw) header_len) datagram_short
  len ← uint32_at raw 24
  fail_if (ltb len header_len) header_length_small
  fail_if (not (length raw == len)) datagram_length_mismatch
  initiator_spi ← uint64_at raw 0
  responder_spi ← uint64_at raw 8
  exchange ← byte_at raw 18
  flags ← byte_at raw 19
  message_id ← uint32_at raw 20
  first ← byte_at raw 16
  chain ← slice_from raw header_len
  payloads ← parse_chain first chain
  ok (record {
    initiator_spi = initiator_spi;
    responder_spi = responder_spi;
    exchange = exchange;
    flags = flags;
    message_id = message_id;
    payloads = payloads;
  })
