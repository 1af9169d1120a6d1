-- ===== src/Tests/Peers.antt =====
-- EAP packets and identities, on concrete values; the addresses are lists of 4 or 16 bytes.
use go_ipsec.Common.{
  ℕ, ◌≡◌, refl, true, false, [], ◌∷◌, ◌++◌, length, replicate, arith, ok, err, ◌>>=◌, if◌then◌else◌,
  ◌==◌, not, ◌&&◌, Bool,
}
use go_ipsec.Ikemsg.Simple.{marshal_id_body, parse_id_body}
use go_ipsec.Identity.{
  AddrMethods, IkeIdentity, invalid_kind, empty_identity, fqdn, email, key_id, ipv4, ipv6, check,
  default_eap_identity, id_type, id_data, identity_from_wire,
}
use go_ipsec.Identity.Wire.{AddrLaws, identity_from_wire-parse_id_body, check_built}
use go_ipsec.Eap.{EapPacket, parse_packet, marshal_packet}
use go_ipsec.Eap.Framing.{IsEapPacket, parse_packet-marshal_packet}

abbrev identity_response : EapPacket
identity_response = record { code = 2; identifier = 1; type = 1; bytes = 97 ∷ 98 ∷ [] }

identity_response-IsEapPacket : IsEapPacket identity_response
identity_response-IsEapPacket = record { length_fits = omega arith; bare = λ e. absurd cc }

parse_packet-marshal_packet_example :
    parse_packet (marshal_packet identity_response ++ 9 ∷ []) ≡ ok identity_response
parse_packet-marshal_packet_example =
    parse_packet-marshal_packet identity_response (9 ∷ []) identity_response-IsEapPacket

abbrev gateway_name : IkeIdentity
gateway_name = record { kind = 2; bytes = 118 ∷ 112 ∷ 110 ∷ [] }

identity_from_wire-parse_id_body_example :
    (parse_id_body (marshal_id_body (id_type gateway_name) (id_data gateway_name)) >>= λ p.
    ok (identity_from_wire p.id_type p.bytes))
    ≡ ok gateway_name
identity_from_wire-parse_id_body_example = identity_from_wire-parse_id_body gateway_name

-- One IPv4 address, 10.0.0.1, and one IPv6 address.
abbrev two_addresses : AddrMethods
two_addresses = record {
  Addr = Bool;
  unmap = λ a. a;
  is4 = λ a. a;
  is6 = λ a. not a;
  is4_in6 = λ a. false;
  as4 = λ a. 10 ∷ 0 ∷ 0 ∷ 1 ∷ [];
  as16 = λ a. replicate 16 0;
}

two_addresses-AddrLaws : AddrLaws two_addresses
two_addresses-AddrLaws = record { as4_length = λ a. refl; as16_length = λ a. refl }

check_built_example :
    (check (ipv4 two_addresses true)
      ≡ (if two_addresses.is4 (two_addresses.unmap true) then ok tt else err invalid_kind))
    × (check (ipv6 two_addresses true) ≡ (
        if two_addresses.is6 true && not (two_addresses.is4_in6 true)
        then ok tt
        else err invalid_kind))
    × (check (fqdn (97 ∷ []))
        ≡ (if length {A = ℕ} (97 ∷ []) == 0 then err empty_identity else ok tt))
    × (check (email (97 ∷ []))
        ≡ (if length {A = ℕ} (97 ∷ []) == 0 then err empty_identity else ok tt))
    × (check (key_id (97 ∷ []))
        ≡ (if length {A = ℕ} (97 ∷ []) == 0 then err empty_identity else ok tt))
    × (check (default_eap_identity (97 ∷ []))
        ≡ (if length {A = ℕ} (97 ∷ []) == 0 then err empty_identity else ok tt))
check_built_example = check_built two_addresses two_addresses-AddrLaws true (97 ∷ [])
