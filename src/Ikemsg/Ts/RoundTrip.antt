-- ===== src/Ikemsg/Ts/RoundTrip.antt =====
-- payloads_ts.go: the writer and the reader of selectors together.
use go_ipsec.Common.{
  ℕ, ◌+◌, ◌%◌, ◌≤◌, ◌<◌, ◌≡◌, refl, List, [], ◌∷◌, ◌++◌, length, arith, ok, IsByte, IsU16, All,
  length-append, run-fail_if_lt, run-fail_if, run-byte_at, run-uint16_at, run-slice, run-slice_from,
  run-bind, drop-append, slice_middle, append_assoc, put_uint16,
}
use go_ipsec.Ikemsg.Ts.{
  TrafficSelector, addr_len, marshal_selector, marshal_selectors, marshal_ts_body, parse_selector,
  parse_selectors, parse_ts_body,
}

-- An IPv4 or IPv6 range with addresses of its width, in fields that fit.
pub record IsSelector (ts : TrafficSelector) : Type 0 where
  pub supported : 0 < addr_len ts.ts_type
  pub type_fits : IsByte ts.ts_type
  pub protocol_fits : IsByte ts.protocol
  pub start_port_fits : IsU16 ts.start_port
  pub end_port_fits : IsU16 ts.end_port
  pub start_width : length ts.start_addr ≡ addr_len ts.ts_type
  pub end_width : length ts.end_addr ≡ addr_len ts.ts_type

addr_len-le : (ts_type : ℕ) → addr_len ts_type ≤ 16
unfolding addr_len
addr_len-le ts_type = ground arith

module _ (ts : TrafficSelector) (v : IsSelector ts) where
  abbrev addresses : List ℕ
  addresses = ts.start_addr ++ ts.end_addr

  abbrev selector_header : List ℕ
  selector_header =
      ts.ts_type
      ∷ ts.protocol
      ∷ (put_uint16 (8 + length addresses) ++ (put_uint16 ts.start_port ++ put_uint16 ts.end_port))

  selector_bytes : List ℕ
  selector_bytes = selector_header ++ addresses

  selector_wrote : marshal_selector ts ≡ ok selector_bytes
  unfolding marshal_selector selector_bytes
  selector_wrote =
      run-fail_if _ _ _ (ground (arith, v.supported))
        (run-fail_if _ _ _ (ground (arith, v.start_width, v.end_width)) refl)

  selector_read : (rest : List ℕ) → parse_selector (selector_bytes ++ rest) ≡ ok (ts, rest)
  unfolding parse_selector selector_bytes
  selector_read rest =
      let few = addr_len-le ts.ts_type in
      let sw = v.start_width in
      let ew = v.end_width in
      let some_ = v.supported in
      let sp = v.start_port_fits in
      let ep = v.end_port_fits in
      let cut = length-append ts.start_addr ts.end_addr in
      let all = length-append addresses rest in
      run-fail_if_lt _ _ _ _ (omega arith) (
        run-byte_at _ _ ts.ts_type _ (omega arith) refl (
          run-fail_if _ _ _ (ground arith) (
            run-uint16_at _ _ (8 + length addresses) _ (omega arith) (omega (arith, cut)) (
              run-fail_if _ _ _ (ground (arith, cut)) (
                run-fail_if_lt _ _ _ _ (omega (arith, all)) (
                  run-byte_at _ _ ts.protocol _ (omega arith) refl (
                    run-uint16_at _ _ ts.start_port _ (omega arith) (omega arith) (
                      run-uint16_at _ _ ts.end_port _ (omega arith) (omega arith) (
                        run-slice _ _ _ ts.start_addr _ (omega arith) (omega (arith, all, cut))
                          (rw (append_assoc ts.start_addr ts.end_addr rest) (
                            slice_middle selector_header ts.start_addr (ts.end_addr ++ rest) _ _
                              refl (omega arith)))
                          (run-slice _ _ _ ts.end_addr _ (omega arith) (omega (arith, all, cut))
                            (rw (append_assoc ts.start_addr ts.end_addr rest) (
                              slice_middle (selector_header ++ ts.start_addr) ts.end_addr rest _ _
                                (omega arith) (omega arith)))
                            (run-slice_from _ _ rest _ (omega (arith, all))
                              (drop-append _ (selector_header ++ addresses) rest (omega arith))
                              refl)))))))))))

selectors_round :
    (tss : List TrafficSelector)
    → All IsSelector tss
    → (bs : List ℕ) × (marshal_selectors tss ≡ ok bs)
      × (parse_selectors (length tss) bs ≡ ok (tss, []))
unfolding marshal_selectors parse_selectors
selectors_round [] h = ([], refl, refl)
selectors_round (ts ∷ tss) (v, h) =
    let (bs, wrote, reads) = selectors_round tss h in
    (
      selector_bytes ts v ++ bs,
      run-bind _ _ _ (selector_wrote ts v) (run-bind _ bs _ wrote refl),
      run-bind _ _ _ (selector_read ts v bs) (run-bind _ _ _ reads refl),
    )

-- A Traffic Selector body of 1 to 255 selectors, of a supported type with addresses of its width and with
-- fields that fit, is written and read back.
pub ts_body_round :
    (tss : List TrafficSelector)
    → All IsSelector tss
    → 0 < length tss
    → length tss ≤ 255
    → (bs : List ℕ) × (marshal_ts_body tss ≡ ok bs) × (parse_ts_body bs ≡ ok tss)
unfolding marshal_ts_body parse_ts_body
ts_body_round tss h some_ few =
    let (bs, wrote, reads) = selectors_round tss h in
    (
      (length tss % 256) ∷ 0 ∷ 0 ∷ 0 ∷ bs,
      run-fail_if _ _ _ (ground arith) (run-bind _ bs _ wrote refl),
      run-fail_if_lt _ _ _ _ (omega arith) (
          run-byte_at _ _ (length tss) _ (omega arith) (omega arith) (
            run-fail_if _ _ _ (ground arith) (
              run-slice_from _ _ bs _ (omega arith) refl
                (run-bind _ _ _ reads (run-fail_if _ _ _ refl refl))))),
    )
