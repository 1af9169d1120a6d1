-- ===== src/Ikemsg/Config.antt =====
-- internal/ikemsg/payloads_config.go: the Configuration payload. The Encrypted and the EAP payload of
-- that file carry their bytes as they are (Message).
pub mod RoundTrip
use go_ipsec.Common.{
  ℕ, ◌+◌, ◌%◌, List, [], ◌∷◌, ◌++◌, bit_and, ltb, length, Outcome, ok, ◌>>=◌, ◌>>◌, fail_if,
  byte_at, slice, slice_from, uint16_at, put_uint16, drain_all,
}
use go_ipsec.Ikemsg.Const.{CodecError, config_short, config_header_truncated, config_overrun}

pub record ConfigAttr : Type 0 where
  pub type : ℕ
  pub value : List ℕ

pub record ConfigPayload : Type 0 where
  pub cfg_type : ℕ
  pub attributes : List ConfigAttr

unfoldable pub marshal_attrs : List ConfigAttr → List ℕ
marshal_attrs [] = []
marshal_attrs (a ∷ as_) =
    put_uint16 (bit_and a.type 0x7fff)
    ++ (put_uint16 (length a.value) ++ (a.value ++ marshal_attrs as_))

unfoldable pub marshal_config : ConfigPayload → List ℕ
marshal_config c = c.cfg_type ∷ 0 ∷ 0 ∷ 0 ∷ marshal_attrs c.attributes

-- One round of the attribute loop.
unfoldable pub parse_config_attr :
    List ConfigAttr → List ℕ → Outcome CodecError (List ConfigAttr × List ℕ)
parse_config_attr out rest = do
  fail_if (ltb (length rest) 4) config_header_truncated
  type ← uint16_at rest 0
  len ← uint16_at rest 2
  fail_if (ltb (length rest) (4 + len)) config_overrun
  value ← slice rest 4 (4 + len)
  after ← slice_from rest (4 + len)
  ok (out ++ record { type = bit_and type 0x7fff; value = value } ∷ [], after)

-- The receiver's attributes are kept, as `append` does.
unfoldable pub unmarshal_config : List ConfigAttr → List ℕ → Outcome CodecError ConfigPayload
unmarshal_config attributes body = do
  fail_if (ltb (length body) 4) config_short
  cfg_type ← byte_at body 0
  rest ← slice_from body 4
  out ← drain_all parse_config_attr attributes rest
  ok (record { cfg_type = cfg_type; attributes = out })
