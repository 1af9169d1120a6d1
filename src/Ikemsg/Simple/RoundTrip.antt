-- ===== src/Ikemsg/Simple/RoundTrip.antt =====
-- The payloads of payloads_simple.go on any body, and on the bodies that their writers give.
use go_ipsec.Common.{
  ℕ, ◌≤◌, ◌≡◌, List, length, arith, ok, ◌>>=◌, fail_if, byte_at, slice_from, uint16_at, IsU16,
  Ensures, Any, ensures_rules, Ensures-fail_if, yields,
}
use go_ipsec.Ikemsg.Const.{CodecError}
use go_ipsec.Ikemsg.Simple.{
  KePayload, IdPayload, AuthPayload, CertPayload, marshal_ke, unmarshal_ke, unmarshal_nonce,
  marshal_id_body, parse_id_body, marshal_auth, unmarshal_auth, marshal_cert, unmarshal_cert,
}

pub ke-Ensures : (body : List ℕ) → Ensures Any (unmarshal_ke body)
unfolding unmarshal_ke
ke-Ensures body = search (ensures_rules, Ensures-fail_if, yields, arith) depth 12

pub nonce-Ensures :
    (body : List ℕ) → Ensures (λ bs. (16 ≤ length bs) × (length bs ≤ 256)) (unmarshal_nonce body)
unfolding unmarshal_nonce
nonce-Ensures body = Ensures-fail_if _ _ _ λ fits. yields (ground arith, ground arith)

pub id-Ensures : (body : List ℕ) → Ensures Any (parse_id_body body)
unfolding parse_id_body
id-Ensures body = search (ensures_rules, Ensures-fail_if, yields, arith) depth 12

pub auth-Ensures : (body : List ℕ) → Ensures Any (unmarshal_auth body)
unfolding unmarshal_auth
auth-Ensures body = search (ensures_rules, Ensures-fail_if, yields, arith) depth 12

pub cert-Ensures : (e : CodecError) (body : List ℕ) → Ensures Any (unmarshal_cert e body)
unfolding unmarshal_cert
cert-Ensures e body = search (ensures_rules, Ensures-fail_if, yields, arith) depth 12

pub ke_round : (ke : KePayload) → IsU16 ke.group → unmarshal_ke (marshal_ke ke) ≡ ok ke
unfolding unmarshal_ke marshal_ke ◌>>=◌ fail_if uint16_at slice_from
ke_round ke h = ground arith

pub nonce_round :
    (bytes : List ℕ) → 16 ≤ length bytes → length bytes ≤ 256 → unmarshal_nonce bytes ≡ ok bytes
unfolding unmarshal_nonce ◌>>=◌ fail_if
nonce_round bytes h k = ground arith

pub id_round : (p : IdPayload) → parse_id_body (marshal_id_body p.id_type p.bytes) ≡ ok p
unfolding parse_id_body marshal_id_body ◌>>=◌ fail_if byte_at slice_from
id_round p = ground arith

pub auth_round : (a : AuthPayload) → unmarshal_auth (marshal_auth a) ≡ ok a
unfolding unmarshal_auth marshal_auth ◌>>=◌ fail_if byte_at slice_from
auth_round a = ground arith

pub cert_round : (e : CodecError) (c : CertPayload) → unmarshal_cert e (marshal_cert c) ≡ ok c
unfolding unmarshal_cert marshal_cert ◌>>=◌ fail_if byte_at slice_from
cert_round e c = ground arith
