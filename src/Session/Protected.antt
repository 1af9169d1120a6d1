-- ===== src/Session/Protected.antt =====
-- internal/session/protected.go: messages with an SK payload, and the EAP packet in one.
pub mod RoundTrip
pub mod Total
pub mod Writing
use go_ipsec.Common.{
  ℕ, Bool, true, false, not, ◌&&◌, Option, none, some, List, [], ◌∷◌, length, ltb, if◌then◌else◌,
  Outcome, ok, err, panic, stuck, ◌>>=◌, or_err, map_err,
}
use go_ipsec.Crypto.{Primitives}
use go_ipsec.Eap.{EapError, EapPacket, parse_packet}
use go_ipsec.Ikemsg.Const.{CodecError, flag_initiator}
use go_ipsec.Ikemsg.Message.{
  Payload, encrypted, eap, Message, marshal_chain, marshal, parse_payloads, parse,
}
use go_ipsec.Ikesa.Keys.{IkeError, Role, initiator, responder, IkeSa}
use go_ipsec.Ikesa.Sk.{Refusal, unauthenticated, authenticated, encrypt_to_sk, finalize_sk, open_sk}

pub data SessionError : Type 0 where
  codec : CodecError → SessionError
  ike : IkeError → SessionError
  malformed_eap : EapError → SessionError
  no_sk_payload : SessionError

unfoldable pub ike_role_bit : Role → ℕ
ike_role_bit initiator = flag_initiator
ike_role_bit responder = 0

-- What encodeSKWith makes of the result of EncryptToSK: the message around it, finalized.
unfoldable pub sk_message :
    (p : Primitives)
    → IkeSa p.Aead
    → ℕ
    → ℕ
    → ℕ
    → ℕ
    → ℕ
    → ℕ
    → Outcome IkeError (List ℕ)
    → Outcome SessionError (List ℕ)
sk_message p s spii spir exchange flags msg_id first_type sealed = do
  sk_data ← map_err ike sealed
  raw ← map_err codec (
      marshal (record {
        initiator_spi = spii;
        responder_spi = spir;
        exchange = exchange;
        flags = flags;
        message_id = msg_id;
        payloads = encrypted first_type sk_data ∷ [];
      }))
  map_err ike (finalize_sk p s raw (length sk_data))

-- The datagram, and the SA that the call leaves. `random` is what the IV is read from.
unfoldable pub encode_sk_with :
    (p : Primitives)
    → IkeSa p.Aead
    → ℕ
    → ℕ
    → ℕ
    → ℕ
    → ℕ
    → List Payload
    → Option (List ℕ)
    → Outcome SessionError (List ℕ) × IkeSa p.Aead
encode_sk_with p s spii spir exchange flags msg_id inner random = elim (marshal_chain inner) [
  | ok (first_type, plaintext) ↦
      let (sealed, s') = encrypt_to_sk p s plaintext random in
      (sk_message p s' spii spir exchange flags msg_id first_type sealed, s')
  | err e ↦ (err (codec e), s)
  | panic ↦ (panic, s)
  | stuck ↦ (stuck, s)
]

-- What decodeSKWith returns next to its error: the message, if it was parsed, and `icvOK`.
pub record Failure : Type 0 where
  pub message : Option Message
  pub icv_ok : Bool
  pub error : SessionError

-- The loop for the first SK payload: the type of its first inner payload, and its data.
unfoldable pub find_encrypted : List Payload → Option (ℕ × List ℕ)
find_encrypted [] = none
find_encrypted (encrypted inner_first bytes ∷ ps) = some (inner_first, bytes)
find_encrypted (p ∷ ps) = find_encrypted ps

unfoldable pub refused : Message → Refusal → Failure
refused m (unauthenticated e) = record { message = some m; icv_ok = false; error = ike e }
refused m (authenticated e) = record { message = some m; icv_ok = true; error = ike e }

unfoldable pub decode_sk_with :
    (p : Primitives) → IkeSa p.Aead → List ℕ → Outcome Failure (Message × List Payload)
decode_sk_with p s raw = do
  m ← map_err (λ e. record { message = none; icv_ok = false; error = codec e }) (parse raw)
  (inner_first, sk_data) ←
      or_err (find_encrypted m.payloads)
        (record { message = some m; icv_ok = false; error = no_sk_payload })
  plaintext ← map_err (refused m) (open_sk p s raw sk_data)
  inner ←
      map_err (λ e. record { message = none; icv_ok = true; error = codec e })
        (parse_payloads inner_first plaintext)
  ok (m, inner)

-- ikeCtx: an IKE SA with the SPIs of its headers.
pub record IkeContext (Aead : Type 0) : Type 0 where
  pub ike_sa : IkeSa Aead
  pub spii : ℕ
  pub spir : ℕ

-- The fields of the session that decodeIKE reads: the current SA and, until a point in time, the one
-- that a rekey has superseded.
pub record IkeContexts (Aead : Type 0) : Type 0 where
  pub current : IkeContext Aead
  pub old_ike : Option (IkeContext Aead)
  pub old_ike_until : ℕ

-- The superseded SA, where it may be tried: `!icvOK && s.oldIKE != nil && time.Now().Before(s.oldIKEUntil)`.
unfoldable pub grace : {Aead : Type 0} → IkeContexts Aead → ℕ → Bool → Option (IkeContext Aead)
grace cs now icv_ok = if not icv_ok && ltb now cs.old_ike_until then cs.old_ike else none

-- What decodeIKE answers from the superseded SA, if that is tried: its result, or the current SA's failure.
unfoldable pub fall_back :
    (p : Primitives)
    → Option (IkeContext p.Aead)
    → IkeContext p.Aead
    → Failure
    → List ℕ
    → Outcome Failure (Message × List Payload) × IkeContext p.Aead
fall_back p none current f raw = (err f, current)
fall_back p (some old) current f raw = elim (decode_sk_with p old.ike_sa raw) [
  | ok r ↦ (ok r, old)
  | err g ↦ (err f, current)
  | panic ↦ (panic, current)
  | stuck ↦ (stuck, current)
]

-- The message with its inner payloads, and the SA to answer under.
unfoldable pub decode_ike :
    (p : Primitives)
    → IkeContexts p.Aead
    → ℕ
    → List ℕ
    → Outcome Failure (Message × List Payload) × IkeContext p.Aead
decode_ike p cs now raw = elim (decode_sk_with p cs.current.ike_sa raw) [
  | ok r ↦ (ok r, cs.current)
  | err f ↦ fall_back p (grace cs now f.icv_ok) cs.current f raw
  | panic ↦ (panic, cs.current)
  | stuck ↦ (stuck, cs.current)
]

-- decodeSK: the result without the SA.
unfoldable pub decode_sk :
    (p : Primitives) → IkeContexts p.Aead → ℕ → List ℕ → Outcome Failure (Message × List Payload)
decode_sk p cs now raw = (decode_ike p cs now raw).0

-- The first EAP payload's packet: `none` if there is no EAP payload.
unfoldable pub first_eap : List Payload → Outcome SessionError (Option EapPacket)
first_eap [] = ok none
first_eap (eap bytes ∷ ps) = do pkt ← map_err malformed_eap (parse_packet bytes); ok (some pkt)
first_eap (p ∷ ps) = first_eap ps
