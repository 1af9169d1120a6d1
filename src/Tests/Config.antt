-- ===== src/Tests/Config.antt =====
-- A configuration with a pre-shared key and too small an MTU.
use go_ipsec.Common.{◌≡◌, refl, [], ◌∷◌, ok, ◌>>=◌, fail_if, map_err}
use go_ipsec.Identity.{fqdn, check, is_zero}
use go_ipsec.Session.Suites.{is_among}
use go_ipsec.Config.{
  Config, pos, negsuc, validate, check_credentials, default_local_id, validate_cipher_suites,
  validate_suites_from, esp_suite_known, ike_suite_known, fill_defaults, clamp,
}
use go_ipsec.Config.Validation.{validate-IsValid, validate_unchanged}

abbrev by_key : Config
by_key = record {
  server = 103 ∷ 119 ∷ [];
  local_id = fqdn (109 ∷ 101 ∷ []);
  remote_id = record { kind = 0; bytes = [] };
  eap_username = [];
  eap_password = [];
  psk = 107 ∷ [];
  mtu = 14;
  keep_alive = negsuc 0;
  dpd_timeout = pos 0;
  rekey_lifetime = pos 7;
  ike_rekey_lifetime = pos 0;
  replay_window = 0;
  rekey_max_packets = 1;
  esp_cipher_suites = 3 ∷ 1 ∷ [];
  ike_cipher_suites = [];
  reconnect_backoff_base = pos 0;
  reconnect_backoff_max = pos 0;
  reconnect_attempt_timeout = pos 0;
}

abbrev filled : Config
filled = clamp (fill_defaults by_key)

by_key_accepted : validate by_key ≡ ok filled
unfolding validate check_credentials default_local_id validate_cipher_suites validate_suites_from
    esp_suite_known ike_suite_known is_among is_zero check fqdn ◌>>=◌ fail_if map_err
by_key_accepted = refl

validate_unchanged_example : validate filled ≡ ok filled
validate_unchanged_example =
    validate_unchanged filled (validate-IsValid by_key filled by_key_accepted)
