-- ===== src/Ikemsg/Message/RoundTrip/Bodies.antt =====
-- The body of each type of payload, through its writer and its reader.
use go_ipsec.Common.{
  ℕ, ◌≤◌, ◌<◌, ◌≡◌, refl, ap, some, List, [], length, All, ok, IsByte, IsU16, run-bind,
}
use go_ipsec.Ikemsg.Const.{cert_empty, cert_request_empty}
use go_ipsec.Ikemsg.Simple.RoundTrip.{ke_round, nonce_round, id_round, auth_round, cert_round}
use go_ipsec.Ikemsg.Notify.RoundTrip.{IsNotify, notify_round}
use go_ipsec.Ikemsg.Notify.DeleteRound.{IsDelete, delete_round}
use go_ipsec.Ikemsg.Ts.RoundTrip.{IsSelector, ts_body_round}
use go_ipsec.Ikemsg.Config.RoundTrip.{IsConfigAttr, config_round}
use go_ipsec.Ikemsg.Sa.RoundTrip.{IsProposal, proposals_round}
use go_ipsec.Ikemsg.Message.{
  Payload, sa, ke, idi, idr, cert, cert_request, auth, nonce, notify, delete, vendor_id, tsi, tsr,
  encrypted, config, eap, payload_type, marshal_body, new_payload, set_inner_first, unmarshal_body,
}

-- The payload fits its wire format.
abbrev pub IsPayload : Payload → Type 0
IsPayload (sa ps) = All IsProposal ps
IsPayload (ke p) = IsU16 p.group
IsPayload (idi p) = IsByte p.id_type
IsPayload (idr p) = IsByte p.id_type
IsPayload (cert p) = IsByte p.encoding
IsPayload (cert_request p) = IsByte p.encoding
IsPayload (auth p) = IsByte p.method
IsPayload (nonce bytes) = (16 ≤ length bytes) × (length bytes ≤ 256)
IsPayload (notify p) = IsNotify p
IsPayload (delete p) = IsDelete p
IsPayload (vendor_id bytes) = Unit {0}
IsPayload (tsi tss) = All IsSelector tss × (0 < length tss) × (length tss ≤ 255)
IsPayload (tsr tss) = All IsSelector tss × (0 < length tss) × (length tss ≤ 255)
IsPayload (encrypted inner_first bytes) = IsByte inner_first
IsPayload (config p) = All IsConfigAttr p.attributes × IsByte p.cfg_type
IsPayload (eap bytes) = Unit {0}

-- The type that the generic header names next is the one that an SK payload announces.
abbrev pub Announces : ℕ → Payload → Type 0
Announces following (encrypted inner_first _) = following ≡ inner_first
Announces following _ = Unit {0}

-- The body is written, and what is read from it into the zero value of the type is the payload.
abbrev pub BodyRound : Payload → Type 0
BodyRound p =
    (bs : List ℕ) × (z : Payload) × (marshal_body p ≡ ok bs)
    × (new_payload (payload_type p) ≡ some z)
    × ((following : ℕ)
        → Announces following p
        → unmarshal_body (set_inner_first following z) bs ≡ ok p)

pub body_round : (p : Payload) → IsPayload p → BodyRound p
unfolding marshal_body payload_type new_payload set_inner_first unmarshal_body
body_round (sa ps) v =
    let (bs, wrote, few, reads) = proposals_round ps v in
    (bs, sa [], wrote, refl, λ _ _. run-bind _ ps _ (reads []) refl)
body_round (ke p) v = (_, _, refl, refl, λ _ _. run-bind _ p _ (ke_round p v) refl)
body_round (idi p) v = (_, _, refl, refl, λ _ _. run-bind _ p _ (id_round p) refl)
body_round (idr p) v = (_, _, refl, refl, λ _ _. run-bind _ p _ (id_round p) refl)
body_round (cert p) v = (_, _, refl, refl, λ _ _. run-bind _ p _ (cert_round cert_empty p) refl)
body_round (cert_request p) v =
    (_, _, refl, refl, λ _ _. run-bind _ p _ (cert_round cert_request_empty p) refl)
body_round (auth p) v = (_, _, refl, refl, λ _ _. run-bind _ p _ (auth_round p) refl)
body_round (nonce bytes) v =
    (_, _, refl, refl, λ _ _. run-bind _ bytes _ (nonce_round bytes v.0 v.1) refl)
body_round (notify p) v = (_, _, refl, refl, λ _ _. run-bind _ p _ (notify_round p v) refl)
body_round (delete p) v =
    let (bs, wrote, reads) = delete_round p v in
    (bs, _, wrote, refl, λ _ _. run-bind _ p _ reads refl)
body_round (vendor_id bytes) v = (_, _, refl, refl, λ _ _. refl)
body_round (tsi tss) v =
    let (bs, wrote, reads) = ts_body_round tss v.0 v.1 v.2 in
    (bs, _, wrote, refl, λ _ _. run-bind _ tss _ reads refl)
body_round (tsr tss) v =
    let (bs, wrote, reads) = ts_body_round tss v.0 v.1 v.2 in
    (bs, _, wrote, refl, λ _ _. run-bind _ tss _ reads refl)
body_round (encrypted inner_first bytes) v =
    (_, encrypted 0 [], refl, refl, λ following e. ap (λ t. ok (encrypted t bytes)) e)
body_round (config p) v = (_, _, refl, refl, λ _ _. run-bind _ p _ (config_round p v.0) refl)
body_round (eap bytes) v = (_, _, refl, refl, λ _ _. refl)
