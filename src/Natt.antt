-- ===== src/Natt.antt =====
-- internal/natt/natt.go: the framing of datagrams on UDP port 4500, and the NAT-detection hash.
pub mod Framing
use go_ipsec.Common.{
  ℕ, Bool, ◌&&◌, List, [], ◌∷◌, ◌++◌, length, drop, get_or, leb, ◌==◌, if◌then◌else◌, word32,
  put_uint16, put_uint64, Outcome, ok, byte_at, uint32_at, ◌>>=◌,
}

abbrev pub non_esp_marker : List ℕ
non_esp_marker = 0 ∷ 0 ∷ 0 ∷ 0 ∷ []

abbrev pub keepalive_byte : ℕ
keepalive_byte = 0xFF

-- SHA-1 and the methods of netip.Addr are those of other packages.
unfoldable pub detection_hash :
    {Addr : Type 0} (sha1 : List ℕ → List ℕ) (is4 : Addr → Bool) (as4 as16 : Addr → List ℕ)
    → ℕ
    → ℕ
    → Addr
    → ℕ
    → List ℕ
detection_hash sha1 is4 as4 as16 spi_i spi_r ip port = sha1 (
    put_uint64 spi_i
    ++ (put_uint64 spi_r ++ ((if is4 ip then as4 ip else as16 ip) ++ put_uint16 port)))

unfoldable pub wrap_ike : List ℕ → List ℕ
wrap_ike ike = non_esp_marker ++ ike

pub data Kind : Type 0 where
  kind_unknown kind_ike kind_esp kind_keepalive : Kind

unfoldable pub is_keepalive : List ℕ → Bool
is_keepalive datagram = length datagram == 1 && get_or datagram 0 0 == keepalive_byte

unfoldable pub classify : List ℕ → Outcome ⊥ (Kind × List ℕ)
classify datagram =
    if is_keepalive datagram
    then ok (kind_keepalive, [])
    else if leb 4 (length datagram)
    then (do
      marker ← uint32_at datagram 0
      if marker == 0 then ok (kind_ike, drop 4 datagram) else ok (kind_esp, datagram))
    else ok (kind_unknown, [])
