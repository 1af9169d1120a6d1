-- ===== src/Identity/Wire.antt =====
-- Identities through the check of the configuration and through the Identification payload.
use go_ipsec.Common.{
  ℕ, ◌≡◌, refl, not, ◌&&◌, List, length, arith, ◌==◌, if◌then◌else◌, ok, err, ◌>>=◌, fail_if,
  run-bind,
}
use go_ipsec.Ikemsg.Simple.{marshal_id_body, parse_id_body}
use go_ipsec.Ikemsg.Simple.RoundTrip.{id_round}
use go_ipsec.Identity.{
  AddrMethods, invalid_kind, empty_identity, IkeIdentity, fqdn, email, key_id, ipv4, ipv6, check,
  default_eap_identity, id_type, id_data, identity_from_wire,
}

-- An identity goes through an Identification payload unchanged: its type and data are marshalled by
-- MarshalIDBody, and parseIDBody and identityFromWire give the same identity.
pub identity_from_wire-parse_id_body :
    (id : IkeIdentity)
    → (parse_id_body (marshal_id_body (id_type id) (id_data id)) >>= λ p.
        ok (identity_from_wire p.id_type p.bytes))
      ≡ ok id
unfolding id_type id_data identity_from_wire
identity_from_wire-parse_id_body id =
    run-bind _ (record { id_type = id.kind; bytes = id.bytes }) _ (id_round _) refl

-- What As4 and As16 document: 4 and 16 bytes.
pub record AddrLaws (m : AddrMethods) : Type 0 where
  pub as4_length : (a : m.Addr) → length (m.as4 a) ≡ 4
  pub as16_length : (a : m.Addr) → length (m.as16 a) ≡ 16

-- The check accepts an address identity just if the constructor was given an address of its family: an
-- IPv4 one, mapped or not, for IPv4, and an IPv6 one that is not a mapped IPv4 one for IPv6. Any other is
-- refused as of an invalid kind. A name, an e-mail address, a key ID, and the default identity of an EAP
-- user are accepted just if they are not empty.
pub check_built :
    (m : AddrMethods) (laws : AddrLaws m) (addr : m.Addr) (name : List ℕ)
    → (check (ipv4 m addr) ≡ (if m.is4 (m.unmap addr) then ok tt else err invalid_kind))
      × (check (ipv6 m addr)
          ≡ (if m.is6 addr && not (m.is4_in6 addr) then ok tt else err invalid_kind))
      × (check (fqdn name) ≡ (if length name == 0 then err empty_identity else ok tt))
      × (check (email name) ≡ (if length name == 0 then err empty_identity else ok tt))
      × (check (key_id name) ≡ (if length name == 0 then err empty_identity else ok tt))
      × (check (default_eap_identity name)
          ≡ (if length name == 0 then err empty_identity else ok tt))
unfolding check ipv4 ipv6 fqdn email key_id default_eap_identity fail_if
check_built m laws addr name =
    let four = laws.as4_length (m.unmap addr) in
    let sixteen = laws.as16_length addr in
    (
      ground (arith, four),
      ground (arith, sixteen),
      ground arith,
      ground arith,
      ground arith,
      ground arith,
    )
