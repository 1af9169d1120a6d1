-- ===== src/Identity.antt =====
-- identity.go: IKE identities, over the addresses of net/netip. A string is the list of its bytes.
pub mod Wire
use go_ipsec.Common.{
  ℕ, Bool, true, false, not, ◌||◌, List, [], ◌∷◌, length, ◌==◌, if◌then◌else◌, Outcome, ok, err,
  fail_if,
}
use go_ipsec.Ikemsg.Const.{id_type_ipv4, id_type_fqdn, id_type_rfc822, id_type_ipv6, id_type_key_id}

-- The methods of netip.Addr that identities use.
pub record AddrMethods : Type 1 where
  pub Addr : Type 0
  pub unmap : Addr → Addr
  pub is4 : Addr → Bool
  pub is6 : Addr → Bool
  pub is4_in6 : Addr → Bool
  pub as4 : Addr → List ℕ
  pub as16 : Addr → List ℕ

pub data IdentityError : Type 0 where
  ipv4_length ipv6_length empty_identity invalid_kind : IdentityError

abbrev pub id_kind_none : ℕ
id_kind_none = 0

abbrev pub id_kind_ipv4 : ℕ
id_kind_ipv4 = id_type_ipv4

abbrev pub id_kind_fqdn : ℕ
id_kind_fqdn = id_type_fqdn

abbrev pub id_kind_email : ℕ
id_kind_email = id_type_rfc822

abbrev pub id_kind_ipv6 : ℕ
id_kind_ipv6 = id_type_ipv6

abbrev pub id_kind_key_id : ℕ
id_kind_key_id = id_type_key_id

abbrev pub id_kind_invalid : ℕ
id_kind_invalid = 255

-- The field `Data` is `bytes`.
pub record IkeIdentity : Type 0 where
  pub kind : ℕ
  pub bytes : List ℕ

unfoldable pub fqdn : List ℕ → IkeIdentity
fqdn name = record { kind = id_kind_fqdn; bytes = name }

unfoldable pub email : List ℕ → IkeIdentity
email addr = record { kind = id_kind_email; bytes = addr }

unfoldable pub key_id : List ℕ → IkeIdentity
key_id id = record { kind = id_kind_key_id; bytes = id }

unfoldable pub ipv4 : (m : AddrMethods) → m.Addr → IkeIdentity
ipv4 m addr =
    let addr' = m.unmap addr in
    if not (m.is4 addr')
    then record { kind = id_kind_invalid; bytes = [] }
    else record { kind = id_kind_ipv4; bytes = m.as4 addr' }

unfoldable pub ipv6 : (m : AddrMethods) → m.Addr → IkeIdentity
ipv6 m addr =
    if not (m.is6 addr) || m.is4_in6 addr
    then record { kind = id_kind_invalid; bytes = [] }
    else record { kind = id_kind_ipv6; bytes = m.as16 addr }

unfoldable pub is_zero : IkeIdentity → Bool
is_zero id = id.kind == id_kind_none

unfoldable pub check : IkeIdentity → Outcome IdentityError (Unit {0})
check id =
    if id.kind == id_kind_none
    then ok tt
    else if id.kind == id_kind_ipv4
    then fail_if (not (length id.bytes == 4)) ipv4_length
    else if id.kind == id_kind_ipv6
    then fail_if (not (length id.bytes == 16)) ipv6_length
    else if id.kind == id_kind_fqdn || (id.kind == id_kind_email || id.kind == id_kind_key_id)
    then fail_if (length id.bytes == 0) empty_identity
    else err invalid_kind

-- `strings.Contains(username, "@")`
unfoldable pub contains_at : List ℕ → Bool
contains_at [] = false
contains_at (c ∷ cs) = c == 64 || contains_at cs

unfoldable pub default_eap_identity : List ℕ → IkeIdentity
default_eap_identity username = if contains_at username then email username else fqdn username

unfoldable pub id_type : IkeIdentity → ℕ
id_type id = id.kind

unfoldable pub id_data : IkeIdentity → List ℕ
id_data id = id.bytes

unfoldable pub identity_from_wire : ℕ → List ℕ → IkeIdentity
identity_from_wire id_type bytes = record { kind = id_type; bytes = bytes }
