-- ===== src/Esp/Trailer.antt =====
-- internal/esp/esp.go: the trailer (padding, pad length, next header) of the plaintext of a packet.
pub mod RoundTrip
pub mod Total
use go_ipsec.Common.{
  ℕ, zero, suc, ◌+◌, ◌-◌, ◌/◌, ◌%◌, List, [], ◌∷◌, ◌++◌, length, take, drop, not, ◌&&◌, ltb, ◌==◌,
  if◌then◌else◌, Outcome, ok, panic, ◌>>=◌, ◌>>◌, fail_if, byte_at, set_at, slice,
}

pub data EspError : Type 0 where
  replay seq_exhausted key_material unknown_suite cipher_failed random_failed : EspError
  packet_too_short unknown_spi icv_failed not_block_aligned aead_failed : EspError
  trailer_too_short pad_out_of_range malformed_padding unexpected_next_header : EspError

abbrev pub next_header_ipv4 : ℕ
next_header_ipv4 = 4

abbrev pub next_header_ipv6 : ℕ
next_header_ipv6 = 41

-- `inner[0]>>4 == 6` on a packet that is not empty.
unfoldable pub next_header_for : List ℕ → ℕ
next_header_for [] = next_header_ipv4
next_header_for (b ∷ inner) = if b / 16 == 6 then next_header_ipv6 else next_header_ipv4

-- `copy(dst, src)`
abbrev pub copy : List ℕ → List ℕ → List ℕ
copy dst src = take (length dst) src ++ drop (length src) dst

-- `for i := range padLen { plain[start+i] = byte(i + 1) }`, from `i` on with `k` rounds left.
unfoldable pub fill_padding : ℕ → ℕ → ℕ → List ℕ → Outcome EspError (List ℕ)
fill_padding zero i start plain = ok plain
fill_padding (suc k) i start plain = do
  plain' ← set_at plain (start + i) ((i + 1) % 256)
  fill_padding k (i + 1) start plain'

-- `plain[len(plain)-k]`; below 0 the index is out of range.
unfoldable pub set_from_end : List ℕ → ℕ → ℕ → Outcome EspError (List ℕ)
set_from_end plain k v = if ltb (length plain) k then panic else set_at plain (length plain - k) v

unfoldable pub fill_trailer : List ℕ → List ℕ → ℕ → Outcome EspError (List ℕ)
fill_trailer plain inner pad_len = do
  padded ← fill_padding pad_len 0 (length inner) (copy plain inner)
  sized ← set_from_end padded 2 (pad_len % 256)
  set_from_end sized 1 (next_header_for inner)

-- `for i, b := range pad { if int(b) != i+1 { return } }`, from `i` on.
unfoldable pub check_padding : ℕ → List ℕ → Outcome EspError (Unit {0})
check_padding i [] = ok tt
check_padding i (b ∷ pad) = do
  fail_if (not (b == i + 1)) malformed_padding
  check_padding (i + 1) pad

unfoldable pub parse_trailer : List ℕ → Outcome EspError (List ℕ)
parse_trailer plain = do
  fail_if (ltb (length plain) 2) trailer_too_short
  pad_len ← byte_at plain (length plain - 2)
  fail_if (ltb (length plain) (pad_len + 2)) pad_out_of_range
  pad ← slice plain (length plain - 2 - pad_len) (length plain - 2)
  check_padding 0 pad
  nh ← byte_at plain (length plain - 1)
  fail_if (not (nh == next_header_ipv4) && not (nh == next_header_ipv6)) unexpected_next_header
  slice plain 0 (length plain - pad_len - 2)
