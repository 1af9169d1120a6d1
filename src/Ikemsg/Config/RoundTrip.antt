-- ===== src/Ikemsg/Config/RoundTrip.antt =====
-- The Configuration payload on any body, and on the bodies that its writer gives.
use go_ipsec.Common.{
  ℕ, ◌^◌, ◌<◌, ◌≡◌, refl, sym, ap, ◌∙◌, List, [], ◌∷◌, ◌++◌, length, arith, ok, IsU16, All,
  length-append, run-fail_if_lt, run-byte_at, run-uint16_at, run-slice, run-slice_from, run-bind,
  take-append, drop-append, append_assoc, append-nil, put_uint16, bit_and, drain_all,
  drain_all_step, drain_all-Ensures, Advances, Ensures, Any, Ensures-fail_if_lt, Ensures-byte_at,
  Ensures-uint16_at, Ensures-slice, Ensures-slice_from, Ensures-bind, yields,
}
use go_ipsec.Common.Bits.{bit_and_mask}
use go_ipsec.Ikemsg.Config.{
  ConfigAttr, ConfigPayload, marshal_attrs, marshal_config, parse_config_attr, unmarshal_config,
}

parse_config_attr-Advances : Advances Any parse_config_attr
unfolding parse_config_attr
parse_config_attr-Advances out rest h _ = Ensures-fail_if_lt _ _ _ _ λ p.
    Ensures-uint16_at _ _ _ (omega arith) λ type _. Ensures-uint16_at _ _ _ (omega arith) λ len _.
      Ensures-fail_if_lt _ _ _ _ λ q.
        Ensures-slice _ _ _ _ (omega arith) q
          λ value _. Ensures-slice_from _ _ _ q λ after e. yields (omega arith, tt)

pub config-Ensures :
    (attrs : List ConfigAttr) (body : List ℕ) → Ensures Any (unmarshal_config attrs body)
unfolding unmarshal_config
config-Ensures attrs body = Ensures-fail_if_lt _ _ _ _ λ p.
    Ensures-byte_at _ _ _ (omega arith) λ cfg_type _. Ensures-slice_from _ _ _ p λ rest _.
      Ensures-bind _ _ (drain_all-Ensures parse_config_attr-Advances attrs rest tt)
        λ out _. yields tt

-- The type leaves the reserved bit clear, and the value's length fits its field.
pub record IsConfigAttr (a : ConfigAttr) : Type 0 where
  pub type_fits : a.type < 2 ^ 15
  pub value_fits : IsU16 (length a.value)

masked : (t : ℕ) → t < 2 ^ 15 → bit_and t 0x7fff ≡ t
masked t h = bit_and_mask 15 t ∙ omega arith

-- The type and the length as they are written.
abbrev attr_header : ConfigAttr → List ℕ
attr_header a = put_uint16 (bit_and a.type 0x7fff) ++ put_uint16 (length a.value)

attr_read :
    (a : ConfigAttr) (out : List ConfigAttr) (rest : List ℕ)
    → IsConfigAttr a
    → parse_config_attr out (attr_header a ++ (a.value ++ rest)) ≡ ok (out ++ a ∷ [], rest)
unfolding parse_config_attr
attr_read a out rest v =
    let same = masked a.type v.type_fits in
    let type_fits = v.type_fits in
    let value_fits = v.value_fits in
    let all = length-append a.value rest in
    run-fail_if_lt _ _ _ _ (omega arith) (
      run-uint16_at _ _ a.type _ (omega arith) (omega arith) (
        run-uint16_at _ _ (length a.value) _ (omega arith) (omega arith) (
          run-fail_if_lt _ _ _ _ (omega (arith, all)) (
            run-slice _ _ _ a.value _ (omega arith) (omega (arith, all))
              (take-append _ a.value rest (omega arith))
              (run-slice_from _ _ rest _ (omega (arith, all))
                (drop-append _ (attr_header a ++ a.value) rest (omega arith)) (rw same))))))

attrs_round :
    (attrs out : List ConfigAttr)
    → All IsConfigAttr attrs
    → drain_all parse_config_attr out (marshal_attrs attrs) ≡ ok (out ++ attrs)
unfolding marshal_attrs
attrs_round [] out h = unfold drain_all in ap ok (sym (append-nil out))
attrs_round (a ∷ attrs) out (v, h) =
    drain_all_step parse_config_attr-Advances out _ (out ++ a ∷ []) (marshal_attrs attrs)
      (omega arith) tt (attr_read a out (marshal_attrs attrs) v)
    ∙ attrs_round attrs (out ++ a ∷ []) h
    ∙ ap ok (append_assoc out (a ∷ []) attrs)

-- A Configuration payload, with attribute types below 2 ^ 15 and values of less than 2 ^ 16 bytes, is
-- written and read back.
pub config_round :
    (c : ConfigPayload)
    → All IsConfigAttr c.attributes
    → unmarshal_config [] (marshal_config c) ≡ ok c
unfolding unmarshal_config marshal_config
config_round c h = run-fail_if_lt _ _ _ _ (omega arith) (
    run-byte_at _ _ c.cfg_type _ (omega arith) refl (
      run-slice_from _ _ (marshal_attrs c.attributes) _ (omega arith) refl
        (run-bind _ c.attributes _ (attrs_round c.attributes [] h) refl)))
