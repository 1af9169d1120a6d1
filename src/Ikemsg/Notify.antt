-- ===== src/Ikemsg/Notify.antt =====
-- internal/ikemsg/payloads_notify.go: the Notify and the Delete payload.
pub mod RoundTrip
pub mod DeleteRound
use go_ipsec.Common.{
  ℕ, zero, suc, ◌+◌, ◌*◌, ◌%◌, Bool, not, ◌&&◌, List, [], ◌∷◌, ◌++◌, ltb, ◌==◌, length, Outcome, ok,
  ◌>>=◌, ◌>>◌, fail_if, byte_at, slice, slice_from, uint16_at, put_uint16,
}
use go_ipsec.Ikemsg.Const.{
  CodecError, notify_short, notify_spi_overrun, delete_spi_widths, delete_short, delete_zero_width,
  delete_overrun,
}

pub record NotifyPayload : Type 0 where
  pub protocol : ℕ
  pub type : ℕ
  pub spi : List ℕ
  pub bytes : List ℕ

pub record DeletePayload : Type 0 where
  pub protocol : ℕ
  pub spis : List (List ℕ)

unfoldable pub marshal_notify : NotifyPayload → List ℕ
marshal_notify n = n.protocol ∷ (length n.spi % 256) ∷ (put_uint16 n.type ++ (n.spi ++ n.bytes))

unfoldable pub unmarshal_notify : List ℕ → Outcome CodecError NotifyPayload
unmarshal_notify body = do
  fail_if (ltb (length body) 4) notify_short
  spi_size ← byte_at body 1
  fail_if (ltb (length body) (4 + spi_size)) notify_spi_overrun
  protocol ← byte_at body 0
  type ← uint16_at body 2
  spi ← slice body 4 (4 + spi_size)
  bytes ← slice_from body (4 + spi_size)
  ok (record { protocol = protocol; type = type; spi = spi; bytes = bytes })

-- `SPISize`: 0 with no SPIs, else the length of the first, as a uint8.
unfoldable pub spi_size : List (List ℕ) → ℕ
spi_size [] = 0
spi_size (spi ∷ spis) = length spi % 256

-- The loop that compares the widths.
unfoldable pub check_widths : ℕ → List (List ℕ) → Outcome CodecError (Unit {0})
check_widths size [] = ok tt
check_widths size (spi ∷ spis) = do
  fail_if (not (length spi % 256 == size)) delete_spi_widths
  check_widths size spis

unfoldable pub concat_spis : List (List ℕ) → List ℕ
concat_spis [] = []
concat_spis (spi ∷ spis) = spi ++ concat_spis spis

unfoldable pub marshal_delete : DeletePayload → Outcome CodecError (List ℕ)
marshal_delete d = do
  check_widths (spi_size d.spis) d.spis
  ok (d.protocol ∷ spi_size d.spis ∷ (put_uint16 (length d.spis) ++ concat_spis d.spis))

-- The loop over `count`, from offset `off` on.
unfoldable pub parse_spis : ℕ → ℕ → ℕ → List ℕ → Outcome CodecError (List (List ℕ))
parse_spis zero off size body = ok []
parse_spis (suc count) off size body = do
  spi ← slice body off (off + size)
  spis ← parse_spis count (off + size) size body
  ok (spi ∷ spis)

unfoldable pub unmarshal_delete : List ℕ → Outcome CodecError DeletePayload
unmarshal_delete body = do
  fail_if (ltb (length body) 4) delete_short
  protocol ← byte_at body 0
  size ← byte_at body 1
  count ← uint16_at body 2
  fail_if (size == 0 && ltb 0 count) delete_zero_width
  fail_if (ltb (length body) (4 + size * count)) delete_overrun
  spis ← parse_spis count 4 size body
  ok (record { protocol = protocol; spis = spis })
