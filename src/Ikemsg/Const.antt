-- ===== src/Ikemsg/Const.antt =====
-- internal/ikemsg/const.go: the IANA numbers that the codec and its callers test, and the errors of
-- the codec, one for each place that returns one (the texts of the messages are left out).
use go_ipsec.Common.{ℕ, Bool, not, ◌&&◌, ltb, ◌==◌, bit_and}

-- The codec's errors.
pub data CodecError : Type 0 where
  -- Parse and parseChain
  datagram_short header_length_small datagram_length_mismatch : CodecError
  payload_header_truncated payload_length_small payload_length_overrun : CodecError
  unknown_critical_payload payload_too_long : CodecError
  -- payload bodies
  ke_short nonce_length id_short auth_short cert_empty cert_request_empty : CodecError
  notify_short notify_spi_overrun : CodecError
  delete_spi_widths delete_short delete_zero_width delete_overrun : CodecError
  ts_none ts_unsupported ts_address_length : CodecError
  ts_short ts_zero ts_header_truncated ts_length ts_overrun ts_trailing : CodecError
  config_short config_header_truncated config_overrun : CodecError
  spi_too_long too_many_transforms key_length_unset : CodecError
  proposal_truncated proposal_length_small proposal_overrun proposal_spi_overrun : CodecError
  transform_truncated transform_length_small transform_overrun : CodecError
  attr_truncated attr_overrun : CodecError

abbrev pub payload_none : ℕ
payload_none = 0

abbrev pub payload_sa : ℕ
payload_sa = 33

abbrev pub payload_ke : ℕ
payload_ke = 34

abbrev pub payload_idi : ℕ
payload_idi = 35

abbrev pub payload_idr : ℕ
payload_idr = 36

abbrev pub payload_cert : ℕ
payload_cert = 37

abbrev pub payload_cert_req : ℕ
payload_cert_req = 38

abbrev pub payload_auth : ℕ
payload_auth = 39

abbrev pub payload_nonce : ℕ
payload_nonce = 40

abbrev pub payload_notify : ℕ
payload_notify = 41

abbrev pub payload_delete : ℕ
payload_delete = 42

abbrev pub payload_vendor_id : ℕ
payload_vendor_id = 43

abbrev pub payload_tsi : ℕ
payload_tsi = 44

abbrev pub payload_tsr : ℕ
payload_tsr = 45

abbrev pub payload_sk : ℕ
payload_sk = 46

abbrev pub payload_cp : ℕ
payload_cp = 47

abbrev pub payload_eap : ℕ
payload_eap = 48

abbrev pub attr_key_length : ℕ
attr_key_length = 14

abbrev pub notify_status : ℕ
notify_status = 16384

abbrev pub ts_ipv4_addr_range : ℕ
ts_ipv4_addr_range = 7

abbrev pub ts_ipv6_addr_range : ℕ
ts_ipv6_addr_range = 8

abbrev pub flag_initiator : ℕ
flag_initiator = 0x08

abbrev pub flag_version : ℕ
flag_version = 0x10

abbrev pub flag_response : ℕ
flag_response = 0x20

abbrev pub exchange_ike_sa_init : ℕ
exchange_ike_sa_init = 34

abbrev pub exchange_ikeauth : ℕ
exchange_ikeauth = 35

abbrev pub exchange_create_child_sa : ℕ
exchange_create_child_sa = 36

abbrev pub exchange_informational : ℕ
exchange_informational = 37

abbrev pub protocol_none : ℕ
protocol_none = 0

abbrev pub protocol_ike : ℕ
protocol_ike = 1

abbrev pub protocol_ah : ℕ
protocol_ah = 2

abbrev pub protocol_esp : ℕ
protocol_esp = 3

abbrev pub transform_encr : ℕ
transform_encr = 1

abbrev pub transform_prf : ℕ
transform_prf = 2

abbrev pub transform_integ : ℕ
transform_integ = 3

abbrev pub transform_dh : ℕ
transform_dh = 4

abbrev pub transform_esn : ℕ
transform_esn = 5

abbrev pub encr_aes_cbc : ℕ
encr_aes_cbc = 12

abbrev pub encr_aes_gcm_16 : ℕ
encr_aes_gcm_16 = 20

abbrev pub encr_chacha20_poly1305 : ℕ
encr_chacha20_poly1305 = 28

abbrev pub prf_hmac_sha2_256 : ℕ
prf_hmac_sha2_256 = 5

abbrev pub auth_none : ℕ
auth_none = 0

abbrev pub auth_hmac_sha2_256_128 : ℕ
auth_hmac_sha2_256_128 = 12

abbrev pub dh_modp2048 : ℕ
dh_modp2048 = 14

abbrev pub dh_x25519 : ℕ
dh_x25519 = 31

abbrev pub esn_none : ℕ
esn_none = 0

abbrev pub notify_invalid_syntax : ℕ
notify_invalid_syntax = 7

abbrev pub notify_no_proposal_chosen : ℕ
notify_no_proposal_chosen = 14

abbrev pub notify_invalid_ke_payload : ℕ
notify_invalid_ke_payload = 17

abbrev pub notify_authentication_failed : ℕ
notify_authentication_failed = 24

abbrev pub notify_temporary_failure : ℕ
notify_temporary_failure = 43

abbrev pub notify_child_sa_not_found : ℕ
notify_child_sa_not_found = 44

abbrev pub notify_initial_contact : ℕ
notify_initial_contact = 16384

abbrev pub notify_nat_detection_source_ip : ℕ
notify_nat_detection_source_ip = 16388

abbrev pub notify_nat_detection_destination_ip : ℕ
notify_nat_detection_destination_ip = 16389

abbrev pub notify_cookie : ℕ
notify_cookie = 16390

abbrev pub notify_rekey_sa : ℕ
notify_rekey_sa = 16393

abbrev pub id_type_ipv4 : ℕ
id_type_ipv4 = 1

abbrev pub id_type_fqdn : ℕ
id_type_fqdn = 2

abbrev pub id_type_rfc822 : ℕ
id_type_rfc822 = 3

abbrev pub id_type_ipv6 : ℕ
id_type_ipv6 = 5

abbrev pub id_type_der_asn1_dn : ℕ
id_type_der_asn1_dn = 9

abbrev pub id_type_key_id : ℕ
id_type_key_id = 11

abbrev pub config_request : ℕ
config_request = 1

abbrev pub config_reply : ℕ
config_reply = 2

abbrev pub config_set : ℕ
config_set = 3

abbrev pub config_ack : ℕ
config_ack = 4

abbrev pub config_attr_internal_ip4_address : ℕ
config_attr_internal_ip4_address = 1

abbrev pub config_attr_internal_ip4_netmask : ℕ
config_attr_internal_ip4_netmask = 2

abbrev pub config_attr_internal_ip4_dns : ℕ
config_attr_internal_ip4_dns = 3

abbrev pub config_attr_internal_ip6_address : ℕ
config_attr_internal_ip6_address = 8

abbrev pub config_attr_internal_ip6_dns : ℕ
config_attr_internal_ip6_dns = 10

abbrev pub cert_x509_signature : ℕ
cert_x509_signature = 4

-- Notify types from 1 to 16383 are errors.
unfoldable pub is_error : ℕ → Bool
is_error t = not (t == 0) && ltb t notify_status

unfoldable pub is_initiator : ℕ → Bool
is_initiator f = not (bit_and f flag_initiator == 0)

unfoldable pub is_response : ℕ → Bool
is_response f = not (bit_and f flag_response == 0)
