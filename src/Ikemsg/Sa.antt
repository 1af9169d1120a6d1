-- ===== src/Ikemsg/Sa.antt =====
-- internal/ikemsg/payloads_sa.go: proposals, transforms and their attributes. Fields of the types
-- uint8 and uint16 are numbers; a byte slice is a list of numbers.
pub mod Total
pub mod RoundTrip
use go_ipsec.Common.{
  ℕ, ◌+◌, ◌%◌, Bool, true, false, not, ◌&&◌, List, [], ◌∷◌, ◌++◌, bit_and, bit_or, ltb, ◌==◌,
  if◌then◌else◌, length, Outcome, ok, ◌>>=◌, ◌>>◌, fail_if, byte_at, slice, slice_from, uint16_at,
  put_uint16, drain_all,
}
use go_ipsec.Ikemsg.Const.{
  CodecError, attr_key_length, key_length_unset, spi_too_long, too_many_transforms, attr_truncated,
  attr_overrun, transform_truncated, transform_length_small, transform_overrun, proposal_truncated,
  proposal_length_small, proposal_overrun, proposal_spi_overrun,
}

pub record Transform : Type 0 where
  pub type : ℕ
  pub id : ℕ
  pub key_length : ℕ
  pub has_key_length : Bool

pub record Proposal : Type 0 where
  pub number : ℕ
  pub protocol : ℕ
  pub spi : List ℕ
  pub transforms : List Transform

unfoldable pub by_type : ℕ → List Transform → List Transform
by_type t [] = []
by_type t (tr ∷ trs) = if tr.type == t then tr ∷ by_type t trs else by_type t trs

unfoldable pub key_length_attr : Transform → List ℕ
key_length_attr t =
    if t.has_key_length
    then put_uint16 (bit_or 0x8000 attr_key_length) ++ put_uint16 t.key_length
    else []

unfoldable pub marshal_transform : Transform → Bool → Outcome CodecError (List ℕ)
marshal_transform t more = do
  fail_if (not (t.key_length == 0) && not t.has_key_length) key_length_unset
  let attr = key_length_attr t
  ok (
      (if more then 3 else 0)
      ∷ 0
      ∷ (put_uint16 (8 + length attr) ++ t.type ∷ 0 ∷ (put_uint16 t.id ++ attr)))

unfoldable pub marshal_transforms : List Transform → Outcome CodecError (List ℕ)
marshal_transforms [] = ok []
marshal_transforms (t ∷ ts) = do
  td ← marshal_transform t (ltb 0 (length ts))
  rest ← marshal_transforms ts
  ok (td ++ rest)

unfoldable pub marshal_proposal : Proposal → Bool → Outcome CodecError (List ℕ)
marshal_proposal p more = do
  fail_if (ltb 255 (length p.spi)) spi_too_long
  fail_if (ltb 255 (length p.transforms)) too_many_transforms
  tds ← marshal_transforms p.transforms
  ok (
      (if more then 2 else 0)
      ∷ 0
      ∷ (put_uint16 (8 + length (p.spi ++ tds))
          ++ p.number
            ∷ p.protocol
            ∷ (length p.spi % 256)
            ∷ (length p.transforms % 256)
            ∷ (p.spi ++ tds)))

unfoldable pub marshal_proposals : List Proposal → Outcome CodecError (List ℕ)
marshal_proposals [] = ok []
marshal_proposals (p ∷ ps) = do
  pd ← marshal_proposal p (ltb 0 (length ps))
  rest ← marshal_proposals ps
  ok (pd ++ rest)

-- The branch for the TV form, type | value, which keeps the Key Length.
unfoldable pub tv_attr : Transform → ℕ → List ℕ → Outcome CodecError (Transform × List ℕ)
tv_attr t af attrs = do
  v ← uint16_at attrs 2
  rest ← slice_from attrs 4
  ok (
    if bit_and af 0x7fff == attr_key_length
        then record t { key_length = v; has_key_length = true }
        else t,
    rest,
  )

-- The branch for the TLV form, type | length | value, which is skipped.
unfoldable pub tlv_attr : Transform → List ℕ → Outcome CodecError (Transform × List ℕ)
tlv_attr t attrs = do
  alen ← uint16_at attrs 2
  fail_if (ltb (length attrs) (4 + alen)) attr_overrun
  rest ← slice_from attrs (4 + alen)
  ok (t, rest)

-- One round of the attribute loop: the TV form, with the Key Length attribute kept, and the TLV form.
unfoldable pub parse_attr : Transform → List ℕ → Outcome CodecError (Transform × List ℕ)
parse_attr t attrs = do
  fail_if (ltb (length attrs) 4) attr_truncated
  af ← uint16_at attrs 0
  if not (bit_and af 0x8000 == 0) then tv_attr t af attrs else tlv_attr t attrs

-- One round of the transform loop.
unfoldable pub parse_transform :
    List Transform → List ℕ → Outcome CodecError (List Transform × List ℕ)
parse_transform out body = do
  fail_if (ltb (length body) 8) transform_truncated
  tlen ← uint16_at body 2
  fail_if (ltb tlen 8) transform_length_small
  fail_if (ltb (length body) tlen) transform_overrun
  type ← byte_at body 4
  id ← uint16_at body 6
  attrs ← slice body 8 tlen
  t ←
      drain_all parse_attr (record { type = type; id = id; key_length = 0; has_key_length = false })
        attrs
  rest ← slice_from body tlen
  ok (out ++ t ∷ [], rest)

unfoldable pub parse_transforms : List ℕ → Outcome CodecError (List Transform)
parse_transforms body = drain_all parse_transform [] body

-- One round of the proposal loop.
unfoldable pub parse_proposal : List Proposal → List ℕ → Outcome CodecError (List Proposal × List ℕ)
parse_proposal out body = do
  fail_if (ltb (length body) 8) proposal_truncated
  plen ← uint16_at body 2
  fail_if (ltb plen 8) proposal_length_small
  fail_if (ltb (length body) plen) proposal_overrun
  spi_size ← byte_at body 6
  fail_if (ltb plen (8 + spi_size)) proposal_spi_overrun
  number ← byte_at body 4
  protocol ← byte_at body 5
  spi ← slice body 8 (8 + spi_size)
  transforms_bytes ← slice body (8 + spi_size) plen
  transforms ← parse_transforms transforms_bytes
  rest ← slice_from body plen
  ok (
    out ++ record { number = number; protocol = protocol; spi = spi; transforms = transforms } ∷ [],
    rest,
  )

-- `sa.Proposals` grows from what the receiver holds.
unfoldable pub unmarshal_sa : List Proposal → List ℕ → Outcome CodecError (List Proposal)
unmarshal_sa proposals body = drain_all parse_proposal proposals body
