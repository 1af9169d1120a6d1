-- ===== src/Eap.antt =====
-- internal/eap/eap.go: the framing of EAP packets.
pub mod Framing
pub mod Mschap
use go_ipsec.Common.{
  ℕ, ◌+◌, ◌%◌, Bool, ◌||◌, List, [], ◌∷◌, ◌++◌, length, ltb, ◌==◌, if◌then◌else◌, Outcome, ok,
  ◌>>=◌, ◌>>◌, fail_if, byte_at, slice, uint16_at, put_uint16,
}

pub data EapError : Type 0 where
  packet_short bad_length : EapError

abbrev pub code_success : ℕ
code_success = 3

abbrev pub code_failure : ℕ
code_failure = 4

-- The field `Data` is `bytes`.
pub record EapPacket : Type 0 where
  pub code : ℕ
  pub identifier : ℕ
  pub type : ℕ
  pub bytes : List ℕ

-- The fields behind the header, of a packet of more than 4 bytes.
unfoldable pub parse_typed : EapPacket → ℕ → List ℕ → Outcome EapError EapPacket
parse_typed p len raw = do
  type ← byte_at raw 4
  bytes ← slice raw 5 len
  ok (record p { type = type; bytes = bytes })

unfoldable pub parse_packet : List ℕ → Outcome EapError EapPacket
parse_packet raw = do
  fail_if (ltb (length raw) 4) packet_short
  len ← uint16_at raw 2
  fail_if (ltb len 4 || ltb (length raw) len) bad_length
  code ← byte_at raw 0
  identifier ← byte_at raw 1
  let p : EapPacket = record { code = code; identifier = identifier; type = 0; bytes = [] }
  if len == 4 then ok p else parse_typed p len raw

unfoldable pub marshal_packet : EapPacket → List ℕ
marshal_packet p =
    if p.code == code_success || p.code == code_failure
    then p.code ∷ p.identifier ∷ put_uint16 4
    else p.code ∷ p.identifier ∷ (put_uint16 (5 + length p.bytes) ++ p.type ∷ p.bytes)
