-- ===== src/Ikemsg/Ts/Total.antt =====
-- The reader of payloads_ts.go on any body.
use go_ipsec.Common.{
  ℕ, zero, suc, ◌<◌, ◌≡◌, List, length, All, arith, Ensures, Ensures-fail_if_lt, Ensures-fail_if,
  Ensures-byte_at, Ensures-uint16_at, Ensures-slice, Ensures-slice_from, Ensures-bind, yields,
}
use go_ipsec.Ikemsg.Ts.{TrafficSelector, addr_len, parse_selector, parse_selectors, parse_ts_body}

-- Of a supported type, with both addresses of its width.
pub record HasWidth (ts : TrafficSelector) : Type 0 where
  pub supported : 0 < addr_len ts.ts_type
  pub start_width : length ts.start_addr ≡ addr_len ts.ts_type
  pub end_width : length ts.end_addr ≡ addr_len ts.ts_type

parse_selector-Ensures : (rest : List ℕ) → Ensures (λ r. HasWidth r.0) (parse_selector rest)
unfolding parse_selector
parse_selector-Ensures rest = Ensures-fail_if_lt _ _ _ _ λ p.
    Ensures-byte_at _ _ _ (omega arith) λ ts_type _. Ensures-fail_if _ _ _ λ known.
      Ensures-uint16_at _ _ _ (omega arith) λ sel_len _. Ensures-fail_if _ _ _ λ same.
        Ensures-fail_if_lt _ _ _ _ λ q. Ensures-byte_at _ _ _ (omega arith) λ protocol _.
          Ensures-uint16_at _ _ _ (omega arith) λ start_port _.
            Ensures-uint16_at _ _ _ (omega arith) λ end_port _.
              Ensures-slice _ _ _ _ (omega arith) (ground arith) λ start_addr e.
                Ensures-slice _ _ _ _ (omega arith) (ground arith) λ end_addr e'.
                  Ensures-slice_from _ _ _ q λ after _. yields (record {
                    supported = ground arith;
                    start_width = omega arith;
                    end_width = omega arith;
                  })

parse_selectors-Ensures :
    (count : ℕ) (rest : List ℕ)
    → Ensures (λ r. All HasWidth r.0 × (length r.0 ≡ count)) (parse_selectors count rest)
unfolding parse_selectors
parse_selectors-Ensures zero rest = yields (tt, omega arith)
parse_selectors-Ensures (suc count) rest = Ensures-bind _ _ (parse_selector-Ensures rest) λ r w.
    Ensures-bind _ _ (parse_selectors-Ensures count r.1) λ _ (ws, e). yields ((w, ws), omega arith)

-- On every body, the reader of traffic selectors returns an error or at least one selector, each of a
-- supported type with both addresses of the width of its type.
pub ts_body-Ensures :
    (body : List ℕ) → Ensures (λ tss. All HasWidth tss × (0 < length tss)) (parse_ts_body body)
unfolding parse_ts_body
ts_body-Ensures body = Ensures-fail_if_lt _ _ _ _ λ p.
    Ensures-byte_at _ _ _ (omega arith) λ count _. Ensures-fail_if _ _ _ λ some_.
      Ensures-slice_from _ _ _ p λ rest _.
        Ensures-bind _ _ (parse_selectors-Ensures count rest)
          λ _ (ws, e). Ensures-fail_if _ _ _ λ _. yields (ws, ground arith)
