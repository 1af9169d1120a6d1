-- ===== src/Ikemsg/Ts.antt =====
-- internal/ikemsg/payloads_ts.go: traffic selectors. TSi and TSr share the body.
pub mod Total
pub mod RoundTrip
use go_ipsec.Common.{
  ℕ, zero, suc, ◌+◌, ◌*◌, ◌%◌, Bool, not, ◌||◌, List, [], ◌∷◌, ◌++◌, ltb, ◌==◌, if◌then◌else◌,
  length, Outcome, ok, ◌>>=◌, ◌>>◌, fail_if, byte_at, slice, slice_from, uint16_at, put_uint16,
}
use go_ipsec.Ikemsg.Const.{
  CodecError, ts_ipv4_addr_range, ts_ipv6_addr_range, ts_none, ts_unsupported, ts_address_length,
  ts_short, ts_zero, ts_header_truncated, ts_length, ts_overrun, ts_trailing,
}

pub record TrafficSelector : Type 0 where
  pub ts_type : ℕ
  pub protocol : ℕ
  pub start_port : ℕ
  pub end_port : ℕ
  pub start_addr : List ℕ
  pub end_addr : List ℕ

-- Of the method `addrLen` of a selector; it reads the type only.
unfoldable pub addr_len : ℕ → ℕ
addr_len ts_type =
    if ts_type == ts_ipv4_addr_range then 4 else if ts_type == ts_ipv6_addr_range then 16 else 0

-- One round of the writer's loop.
unfoldable pub marshal_selector : TrafficSelector → Outcome CodecError (List ℕ)
marshal_selector ts = do
  let alen = addr_len ts.ts_type
  fail_if (alen == 0) ts_unsupported
  fail_if (not (length ts.start_addr == alen) || not (length ts.end_addr == alen)) ts_address_length
  ok (
      ts.ts_type
      ∷ ts.protocol
      ∷ (put_uint16 (8 + length (ts.start_addr ++ ts.end_addr))
          ++ (put_uint16 ts.start_port
              ++ (put_uint16 ts.end_port ++ (ts.start_addr ++ ts.end_addr)))))

unfoldable pub marshal_selectors : List TrafficSelector → Outcome CodecError (List ℕ)
marshal_selectors [] = ok []
marshal_selectors (ts ∷ tss) = do
  sel ← marshal_selector ts
  rest ← marshal_selectors tss
  ok (sel ++ rest)

unfoldable pub marshal_ts_body : List TrafficSelector → Outcome CodecError (List ℕ)
marshal_ts_body selectors = do
  fail_if (length selectors == 0) ts_none
  sels ← marshal_selectors selectors
  ok ((length selectors % 256) ∷ 0 ∷ 0 ∷ 0 ∷ sels)

-- One round of the reader's loop: the selector and what follows it.
unfoldable pub parse_selector : List ℕ → Outcome CodecError (TrafficSelector × List ℕ)
parse_selector rest = do
  fail_if (ltb (length rest) 8) ts_header_truncated
  ts_type ← byte_at rest 0
  let alen = addr_len ts_type
  fail_if (alen == 0) ts_unsupported
  sel_len ← uint16_at rest 2
  fail_if (not (sel_len == 8 + 2 * alen)) ts_length
  fail_if (ltb (length rest) sel_len) ts_overrun
  protocol ← byte_at rest 1
  start_port ← uint16_at rest 4
  end_port ← uint16_at rest 6
  start_addr ← slice rest 8 (8 + alen)
  end_addr ← slice rest (8 + alen) (8 + 2 * alen)
  after ← slice_from rest sel_len
  ok (
    record {
      ts_type = ts_type;
      protocol = protocol;
      start_port = start_port;
      end_port = end_port;
      start_addr = start_addr;
      end_addr = end_addr;
    },
    after,
  )

-- `for range count`
unfoldable pub parse_selectors : ℕ → List ℕ → Outcome CodecError (List TrafficSelector × List ℕ)
parse_selectors zero rest = ok ([], rest)
parse_selectors (suc count) rest = do
  (ts, after) ← parse_selector rest
  (tss, last) ← parse_selectors count after
  ok (ts ∷ tss, last)

unfoldable pub parse_ts_body : List ℕ → Outcome CodecError (List TrafficSelector)
parse_ts_body body = do
  fail_if (ltb (length body) 4) ts_short
  count ← byte_at body 0
  fail_if (count == 0) ts_zero
  rest ← slice_from body 4
  (out, last) ← parse_selectors count rest
  fail_if (not (length last == 0)) ts_trailing
  ok out
