-- ===== src/Config/Validation.antt =====
-- What a configuration that passes `validate` is, and that a second pass changes nothing.
use mathlib.Core.Path.{subst}
use go_ipsec.Common.{
  ◌<◌, ◌≤◌, ◌≡◌, refl, ap, ◌∙◌, ◌⊎◌, inl, inr, arith, true, false, [], length, ltb, ◌==◌, not, ◌&&◌,
  Bool-cases, if◌then◌else◌, ◌^◌, Outcome, ok, err, panic, stuck, map_err, bind_values, ok-eq,
  run-bind, fail_if-eq-ok, fail_if-false,
}
use go_ipsec.Identity.{is_zero, check}
use go_ipsec.Esp.Replay.{max_replay_window}
use go_ipsec.Config.{
  ℤ, Config, bad_local_id, bad_remote_id, esp_suite_known, ike_suite_known, validate_cipher_suites,
  default_local_id, is_positive, or_default, fill_defaults, clamp, validate, default_mtu,
  default_keep_alive, default_dpd_timeout, default_rekey_lifetime, default_ike_rekey_lifetime,
  default_reconnect_backoff_base, default_reconnect_backoff_max, default_reconnect_attempt_timeout,
  min_mtu, default_replay_window, min_rekey_max_packets,
}
use go_ipsec.Config.Checks.{
  AreSuites, HasOneCredential, not-true, validate_suites_from-AreSuites, validate_suites_from-ok,
  given, is_given-lt, check_credentials-HasOneCredential, check_credentials_passes,
  default_local_id_named,
}

pub record IsValid (c : Config) : Type 0 where
  pub server_given : 0 < length c.server
  pub one_credential : HasOneCredential c
  pub local_given : is_zero c.local_id ≡ false
  pub local_fits : check c.local_id ≡ ok tt
  pub remote_fits : check c.remote_id ≡ ok tt
  pub esp_suites : AreSuites esp_suite_known [] c.esp_cipher_suites
  pub ike_suites : AreSuites ike_suite_known [] c.ike_cipher_suites
  pub mtu_floor : 576 ≤ c.mtu
  pub window_used : 0 < c.replay_window
  pub window_bound : c.replay_window ≤ 2 ^ 20
  pub packets_floor : (c.rekey_max_packets ≡ 0) ⊎ (4096 ≤ c.rekey_max_packets)
  pub keeps_alive : is_positive c.keep_alive ≡ true
  pub probes : is_positive c.dpd_timeout ≡ true
  pub rekeys : is_positive c.rekey_lifetime ≡ true
  pub ike_rekeys : is_positive c.ike_rekey_lifetime ≡ true
  pub backs_off : is_positive c.reconnect_backoff_base ≡ true
  pub backs_off_to : is_positive c.reconnect_backoff_max ≡ true
  pub attempts : is_positive c.reconnect_attempt_timeout ≡ true

or_default-is_positive :
    (default d : ℤ) → is_positive default ≡ true → is_positive (or_default default d) ≡ true
unfolding or_default
or_default-is_positive default d h = elim (Bool-cases (is_positive d)) [
  | inl given ↦ rw given given
  | inr missing ↦ rw missing h
]

or_default_kept : (default d : ℤ) → is_positive d ≡ true → or_default default d ≡ d
unfolding or_default
or_default_kept default d h = rw h refl

map_err-eq-ok :
    {E F A : Type 0} (f : E → F) (m : Outcome E A) {a : A} → map_err f m ≡ ok a → m ≡ ok a
unfolding map_err
map_err-eq-ok f (ok b) h = ap ok (ok-eq h)
map_err-eq-ok f (err e) h = cc
map_err-eq-ok f panic h = cc
map_err-eq-ok f stuck h = cc

module _ (c : Config) where
  used : ltb 0 (clamp (fill_defaults c)).replay_window ≡ true
  unfolding clamp fill_defaults
  used = ground arith

  bounded : ltb (2 ^ 20) (clamp (fill_defaults c)).replay_window ≡ false
  unfolding clamp fill_defaults
  bounded = ground arith

  floored : ltb (clamp (fill_defaults c)).mtu 576 ≡ false
  unfolding clamp fill_defaults
  floored = ground arith

  packets :
      ((clamp (fill_defaults c)).rekey_max_packets ≡ 0)
      ⊎ (4096 ≤ (clamp (fill_defaults c)).rekey_max_packets)
  unfolding clamp fill_defaults
  packets = ground arith

module _ (c : Config) where
  filled-IsValid :
      0 < length c.server
      → HasOneCredential c
      → is_zero c.local_id ≡ false
      → check c.local_id ≡ ok tt
      → check c.remote_id ≡ ok tt
      → AreSuites esp_suite_known [] c.esp_cipher_suites
      → AreSuites ike_suite_known [] c.ike_cipher_suites
      → IsValid (clamp (fill_defaults c))
  unfolding clamp fill_defaults is_positive
  filled-IsValid server credential named local remote esp ike = record {
    server_given = server;
    one_credential = credential;
    local_given = named;
    local_fits = local;
    remote_fits = remote;
    esp_suites = esp;
    ike_suites = ike;
    mtu_floor = ground (arith, floored c);
    window_used = ground (arith, used c);
    window_bound = ground (arith, bounded c);
    packets_floor = packets c;
    keeps_alive = or_default-is_positive default_keep_alive c.keep_alive refl;
    probes = or_default-is_positive default_dpd_timeout c.dpd_timeout refl;
    rekeys = or_default-is_positive default_rekey_lifetime c.rekey_lifetime refl;
    ike_rekeys = or_default-is_positive default_ike_rekey_lifetime c.ike_rekey_lifetime refl;
    backs_off = or_default-is_positive default_reconnect_backoff_base c.reconnect_backoff_base refl;
    backs_off_to =
        or_default-is_positive default_reconnect_backoff_max c.reconnect_backoff_max refl;
    attempts =
        or_default-is_positive default_reconnect_attempt_timeout c.reconnect_attempt_timeout refl;
  }

  fill_defaults_unchanged : IsValid c → fill_defaults c ≡ c
  unfolding fill_defaults
  fill_defaults_unchanged v =
      let mtu_kept : (if c.mtu == 0 then default_mtu else c.mtu) ≡ c.mtu =
        let floor = v.mtu_floor in ground arith in
      let window_kept : (if c.replay_window == 0 then default_replay_window else c.replay_window)
          ≡ c.replay_window =
        let some_window = v.window_used in ground arith in
      λ i. record c {
        mtu = mtu_kept i;
        keep_alive = or_default_kept default_keep_alive c.keep_alive v.keeps_alive i;
        dpd_timeout = or_default_kept default_dpd_timeout c.dpd_timeout v.probes i;
        rekey_lifetime = or_default_kept default_rekey_lifetime c.rekey_lifetime v.rekeys i;
        ike_rekey_lifetime =
            or_default_kept default_ike_rekey_lifetime c.ike_rekey_lifetime v.ike_rekeys i;
        replay_window = window_kept i;
        reconnect_backoff_base =
            or_default_kept default_reconnect_backoff_base c.reconnect_backoff_base v.backs_off i;
        reconnect_backoff_max =
            or_default_kept default_reconnect_backoff_max c.reconnect_backoff_max v.backs_off_to i;
        reconnect_attempt_timeout =
            or_default_kept default_reconnect_attempt_timeout c.reconnect_attempt_timeout v.attempts
              i;
      }

  clamp_unchanged : IsValid c → clamp c ≡ c
  unfolding clamp
  clamp_unchanged v =
      let window_kept : (if ltb max_replay_window c.replay_window
            then max_replay_window
            else c.replay_window)
          ≡ c.replay_window =
        let bound = v.window_bound in ground arith in
      let packets_kept : (if not (c.rekey_max_packets == 0)
              && ltb c.rekey_max_packets min_rekey_max_packets
            then min_rekey_max_packets
            else c.rekey_max_packets)
          ≡ c.rekey_max_packets =
        let floor = v.packets_floor in ground arith in
      let mtu_kept : (if ltb c.mtu min_mtu then min_mtu else c.mtu) ≡ c.mtu =
        let floor = v.mtu_floor in ground arith in
      λ i. record c {
        replay_window = window_kept i;
        rekey_max_packets = packets_kept i;
        mtu = mtu_kept i;
      }

pub validate-IsValid : (c d : Config) → validate c ≡ ok d → IsValid d
unfolding validate validate_cipher_suites
validate-IsValid c d h = bind_values h (λ _ e1 h1. bind_values h1 (λ _ e2 h2.
    bind_values h2 (λ b e3 h3. bind_values h3 (λ _ e4 h4. bind_values h4 (λ _ e5 h5.
      bind_values h5 (λ _ e6 h6. bind_values h6 (λ _ e7 h7.
        let (id, set, same) = default_local_id_named c b e3 in
        subst (λ x. IsValid x) (ok-eq h7)
          (filled-IsValid b
            (subst (λ x. 0 < length x.server) same
              (given c.server (not-true _ (fail_if-eq-ok _ _ e1))))
            (subst (λ x. HasOneCredential x) same (check_credentials-HasOneCredential c e2))
            (subst (λ x. is_zero x.local_id ≡ false) same set) (map_err-eq-ok _ _ e4)
            (map_err-eq-ok _ _ e5) (validate_suites_from-AreSuites _ _ _ e6)
            (validate_suites_from-AreSuites _ _ _ e7)))))))))

default_local_id_kept : (c : Config) → is_zero c.local_id ≡ false → default_local_id c ≡ ok c
unfolding default_local_id
default_local_id_kept c named = rw named refl

map_err-ok : {E F A : Type 0} (f : E → F) {m : Outcome E A} {a : A} → m ≡ ok a → map_err f m ≡ ok a
unfolding map_err
map_err-ok f h = rw h refl

-- A valid configuration is accepted and left as it is.
pub validate_unchanged : (c : Config) → IsValid c → validate c ≡ ok c
unfolding validate validate_cipher_suites
validate_unchanged c v =
    run-bind _ tt _ (fail_if-false _ _ (ap not (is_given-lt c.server v.server_given))) (
      run-bind _ tt _ (check_credentials_passes c v.one_credential) (
        run-bind _ c _ (default_local_id_kept c v.local_given) (
          run-bind _ tt _ (map_err-ok bad_local_id v.local_fits) (
            run-bind _ tt _ (map_err-ok bad_remote_id v.remote_fits) (
              run-bind _ tt _ (validate_suites_from-ok _ _ _ v.esp_suites) (
                run-bind _ tt _ (validate_suites_from-ok _ _ _ v.ike_suites)
                  (ap ok (ap clamp (fill_defaults_unchanged c v) ∙ clamp_unchanged c v))))))))
