-- ===== src/Config.antt =====
-- config.go: the checks and the defaults of a tunnel's configuration. A string is the list of its bytes, a
-- duration a number of nanoseconds. The fields that `validate` leaves alone are left out, and so is the logger.
pub mod Checks
pub mod Validation
use go_ipsec.Common.{
  ℕ, ◌*◌, ◌^◌, Bool, true, false, not, ◌&&◌, ◌||◌, Option, none, some, List, [], ◌∷◌, length, ltb,
  ◌==◌, if◌then◌else◌, Outcome, ok, err, ◌>>=◌, ◌>>◌, fail_if, map_err,
}
use go_ipsec.Identity.{IkeIdentity, IdentityError, is_zero, check, default_eap_identity}
use go_ipsec.Esp.Replay.{max_replay_window}
use go_ipsec.Session.Suites.{is_among}

pub data ℤ : Type 0 where
  pos negsuc : ℕ → ℤ

abbrev pub seconds : ℕ → ℤ
seconds n = pos (n * 10 ^ 9)

abbrev pub default_mtu : ℕ
default_mtu = 1400

abbrev pub min_mtu : ℕ
min_mtu = 576

abbrev pub default_keep_alive : ℤ
default_keep_alive = seconds 20

abbrev pub default_dpd_timeout : ℤ
default_dpd_timeout = seconds 30

abbrev pub default_rekey_lifetime : ℤ
default_rekey_lifetime = seconds 3600

abbrev pub default_ike_rekey_lifetime : ℤ
default_ike_rekey_lifetime = seconds 14400

abbrev pub default_replay_window : ℕ
default_replay_window = 64

abbrev pub min_rekey_max_packets : ℕ
min_rekey_max_packets = 4096

abbrev pub default_reconnect_backoff_base : ℤ
default_reconnect_backoff_base = seconds 1

abbrev pub default_reconnect_backoff_max : ℤ
default_reconnect_backoff_max = seconds 30

abbrev pub default_reconnect_attempt_timeout : ℤ
default_reconnect_attempt_timeout = seconds 20

-- The suites are their numbers: AES-GCM, ChaCha20-Poly1305, AES-CBC.
pub record Config : Type 0 where
  pub server : List ℕ
  pub local_id : IkeIdentity
  pub remote_id : IkeIdentity
  pub eap_username : List ℕ
  pub eap_password : List ℕ
  pub psk : List ℕ
  pub mtu : ℕ
  pub keep_alive : ℤ
  pub dpd_timeout : ℤ
  pub rekey_lifetime : ℤ
  pub ike_rekey_lifetime : ℤ
  pub replay_window : ℕ
  pub rekey_max_packets : ℕ
  pub esp_cipher_suites : List ℕ
  pub ike_cipher_suites : List ℕ
  pub reconnect_backoff_base : ℤ
  pub reconnect_backoff_max : ℤ
  pub reconnect_attempt_timeout : ℤ

pub data ConfigError : Type 0 where
  no_server both_credentials no_credentials no_username no_password no_local_id : ConfigError
  bad_local_id bad_remote_id : IdentityError → ConfigError
  suite_unsupported suite_unknown suite_duplicate : ConfigError

-- The second result of espSuite and of ikeSuite.
unfoldable pub esp_suite_known : ℕ → Bool
esp_suite_known cs = cs == 1 || (cs == 2 || cs == 3)

unfoldable pub ike_suite_known : ℕ → Bool
ike_suite_known cs = cs == 1 || (cs == 2 || cs == 3)

unfoldable pub suite_defined : ℕ → Bool
suite_defined cs = esp_suite_known cs || ike_suite_known cs

-- The loop over the suites, with those that were seen.
unfoldable pub validate_suites_from : (ℕ → Bool) → List ℕ → List ℕ → Outcome ConfigError (Unit {0})
validate_suites_from known seen [] = ok tt
validate_suites_from known seen (cs ∷ suites) = do
  fail_if (not (known cs)) (if suite_defined cs then suite_unsupported else suite_unknown)
  fail_if (is_among cs seen) suite_duplicate
  validate_suites_from known (cs ∷ seen) suites

unfoldable pub validate_cipher_suites : List ℕ → (ℕ → Bool) → Outcome ConfigError (Unit {0})
validate_cipher_suites suites known = validate_suites_from known [] suites

abbrev pub is_given : List ℕ → Bool
is_given s = not (length s == 0)

unfoldable pub check_credentials : Config → Outcome ConfigError (Unit {0})
check_credentials c = do
  let has_eap = is_given c.eap_username || is_given c.eap_password
  fail_if (is_given c.psk && has_eap) both_credentials
  fail_if (not (is_given c.psk) && not has_eap) no_credentials
  fail_if (has_eap && not (is_given c.eap_username)) no_username
  fail_if (has_eap && not (is_given c.eap_password)) no_password

unfoldable pub default_local_id : Config → Outcome ConfigError Config
default_local_id c =
    if is_zero c.local_id
    then if is_given c.psk
      then err no_local_id
      else ok (record c { local_id = default_eap_identity c.eap_username })
    else ok c

unfoldable pub is_positive : ℤ → Bool
is_positive (pos n) = ltb 0 n
is_positive (negsuc n) = false

unfoldable pub or_default : ℤ → ℤ → ℤ
or_default default d = if is_positive d then d else default

unfoldable pub fill_defaults : Config → Config
fill_defaults c = record c {
  mtu = if c.mtu == 0 then default_mtu else c.mtu;
  keep_alive = or_default default_keep_alive c.keep_alive;
  dpd_timeout = or_default default_dpd_timeout c.dpd_timeout;
  rekey_lifetime = or_default default_rekey_lifetime c.rekey_lifetime;
  ike_rekey_lifetime = or_default default_ike_rekey_lifetime c.ike_rekey_lifetime;
  replay_window = if c.replay_window == 0 then default_replay_window else c.replay_window;
  reconnect_backoff_base = or_default default_reconnect_backoff_base c.reconnect_backoff_base;
  reconnect_backoff_max = or_default default_reconnect_backoff_max c.reconnect_backoff_max;
  reconnect_attempt_timeout =
      or_default default_reconnect_attempt_timeout c.reconnect_attempt_timeout;
}

unfoldable pub clamp : Config → Config
clamp c = record c {
  replay_window =
      if ltb max_replay_window c.replay_window then max_replay_window else c.replay_window;
  rekey_max_packets =
      if not (c.rekey_max_packets == 0) && ltb c.rekey_max_packets min_rekey_max_packets
      then min_rekey_max_packets
      else c.rekey_max_packets;
  mtu = if ltb c.mtu min_mtu then min_mtu else c.mtu;
}

-- The configuration as `validate` leaves it; after an error the caller drops it.
unfoldable pub validate : Config → Outcome ConfigError Config
validate c = do
  fail_if (not (is_given c.server)) no_server
  check_credentials c
  d ← default_local_id c
  map_err bad_local_id (check d.local_id)
  map_err bad_remote_id (check d.remote_id)
  validate_cipher_suites d.esp_cipher_suites esp_suite_known
  validate_cipher_suites d.ike_cipher_suites ike_suite_known
  ok (clamp (fill_defaults d))
