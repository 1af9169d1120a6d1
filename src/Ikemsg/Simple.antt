-- ===== src/Ikemsg/Simple.antt =====
-- internal/ikemsg/payloads_simple.go: payloads whose body is a short header and a run of bytes.
pub mod RoundTrip
use go_ipsec.Common.{
  ℕ, ◌||◌, List, [], ◌∷◌, ◌++◌, ltb, length, Outcome, ok, ◌>>=◌, ◌>>◌, fail_if, byte_at, slice_from,
  uint16_at, put_uint16,
}
use go_ipsec.Ikemsg.Const.{
  CodecError, ke_short, nonce_length, id_short, auth_short, cert_empty, cert_request_empty,
}

pub record KePayload : Type 0 where
  pub group : ℕ
  pub bytes : List ℕ

pub record IdPayload : Type 0 where
  pub id_type : ℕ
  pub bytes : List ℕ

pub record AuthPayload : Type 0 where
  pub method : ℕ
  pub bytes : List ℕ

pub record CertPayload : Type 0 where
  pub encoding : ℕ
  pub bytes : List ℕ

abbrev pub min_nonce_len : ℕ
min_nonce_len = 16

abbrev pub max_nonce_len : ℕ
max_nonce_len = 256

unfoldable pub marshal_ke : KePayload → List ℕ
marshal_ke ke = put_uint16 ke.group ++ 0 ∷ 0 ∷ ke.bytes

unfoldable pub unmarshal_ke : List ℕ → Outcome CodecError KePayload
unmarshal_ke body = do
  fail_if (ltb (length body) 4) ke_short
  group ← uint16_at body 0
  bytes ← slice_from body 4
  ok (record { group = group; bytes = bytes })

unfoldable pub unmarshal_nonce : List ℕ → Outcome CodecError (List ℕ)
unmarshal_nonce body = do
  fail_if (ltb (length body) min_nonce_len || ltb max_nonce_len (length body)) nonce_length
  ok body

unfoldable pub marshal_id_body : ℕ → List ℕ → List ℕ
marshal_id_body id_type bytes = id_type ∷ 0 ∷ 0 ∷ 0 ∷ bytes

unfoldable pub parse_id_body : List ℕ → Outcome CodecError IdPayload
parse_id_body body = do
  fail_if (ltb (length body) 4) id_short
  id_type ← byte_at body 0
  bytes ← slice_from body 4
  ok (record { id_type = id_type; bytes = bytes })

unfoldable pub marshal_auth : AuthPayload → List ℕ
marshal_auth a = a.method ∷ 0 ∷ 0 ∷ 0 ∷ a.bytes

unfoldable pub unmarshal_auth : List ℕ → Outcome CodecError AuthPayload
unmarshal_auth body = do
  fail_if (ltb (length body) 4) auth_short
  method ← byte_at body 0
  bytes ← slice_from body 4
  ok (record { method = method; bytes = bytes })

-- Certificate and Certificate Request differ in the error of the empty body only.
unfoldable pub marshal_cert : CertPayload → List ℕ
marshal_cert c = c.encoding ∷ c.bytes

unfoldable pub unmarshal_cert : CodecError → List ℕ → Outcome CodecError CertPayload
unmarshal_cert empty body = do
  fail_if (ltb (length body) 1) empty
  encoding ← byte_at body 0
  bytes ← slice_from body 1
  ok (record { encoding = encoding; bytes = bytes })
