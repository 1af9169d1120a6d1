-- ===== src/Tests/Driver.antt =====
-- The driver's timing and its cached responses on a concrete session.
use go_ipsec.Common.{
  ℕ, ◌*◌, ◌<◌, ◌≡◌, refl, true, false, List, [], ◌∷◌, some, none, arith, ok, if◌then◌else◌, inl,
  inr,
}
use go_ipsec.Tests.Cipher.{plain_text}
use go_ipsec.Ikesa.Keys.{initiator, sk_aes_gcm256, IkeSa}
use go_ipsec.Session.Child.{Settings}
use go_ipsec.Session.Window.{
  second, retransmit_base, retransmit_max, Timing, dpd, is_dpd, PendingExchange, no_dedup, Session,
  dead, pending_tries, send_datagram, dedup_slot, dedup_peer_request, record_peer_response,
}
use go_ipsec.Session.Window.Backoff.{IsBounded}
use go_ipsec.Session.Window.Liveness.{Draw, run, IsProbing, run-dead}
use go_ipsec.Session.Window.Replies.{dedup_peer_request-record_peer_response}

abbrev short : Timing
short = record {
  retransmit_base_setting = second;
  retransmit_max_setting = second;
  retransmit_tries_setting = 0;
}

-- A probe on the fast schedule, sent once.
abbrev probe : PendingExchange
probe = record {
  kind = dpd;
  msg_id = 4;
  raw = 1 ∷ 2 ∷ [];
  attempts = 1;
  next_retransmit = second;
  child = none;
  ike = none;
  fast = true;
}

abbrev some_sa : IkeSa (Unit {0})
some_sa = record {
  role = initiator;
  suite = sk_aes_gcm256;
  initiator_spi = 1;
  responder_spi = 2;
  sk_d = [];
  sk_ai = [];
  sk_ar = [];
  sk_ei = [];
  sk_er = [];
  sk_pi = [];
  sk_pr = [];
  aead = none;
  sk_seq = 0;
}

abbrev defaults : Settings
defaults = record {
  esp_suite_ids = [];
  ike_suite_ids = [];
  request_ipv6 = false;
  dpd_timeout = 0;
  rekey_lifetime = 0;
  ike_rekey_lifetime_setting = 0;
  rekey_max_packets_setting = 0;
}

abbrev pub waiting : Session (Unit {0})
waiting = record {
  timing = short;
  settings = defaults;
  current = record { ike_sa = some_sa; spii = 1; spir = 2 };
  message_id = 5;
  natt_mode = true;
  pending = some probe;
  last_tick_wall = 7;
  fast_dpd_due = false;
  old_ike = none;
  old_ike_until = 0;
  child_reestablish = false;
  next_child_reestablish = 0;
  peer = no_dedup;
  old_peer = no_dedup;
  old_ike_delete = none;
  child = none;
  data_plane = false;
  installed = [];
  last_inbound = 0;
  child_installed_at = 0;
  ike_installed_at = 0;
  next_child_rekey = 0;
  next_ike_rekey = 0;
  next_volume_rekey = 0;
  child_pfs = false;
  child_pfs_group = 0;
  ike_dh_group = 31;
  sent = [];
}

short-IsBounded : IsBounded short second
unfolding retransmit_base retransmit_max
short-IsBounded = record {
  base_fits = omega arith;
  max_fits = omega arith;
  fast_fits = omega arith;
}

waiting-IsProbing : IsProbing waiting probe 7
unfolding is_dpd pending_tries
waiting-IsProbing = record {
  waits = refl;
  probes = refl;
  attempts_left = omega arith;
  ticked = refl;
}

abbrev tick_at : ℕ → ℕ → Draw
tick_at mono wall = record { now = record { mono = mono; wall = wall }; later = 0; random = none }

abbrev three_ticks : List Draw
three_ticks = tick_at (2 * second) 9 ∷ tick_at (3 * second) 12 ∷ tick_at (4 * second) 15 ∷ []

tries_of_probe : pending_tries waiting probe ≡ 2
unfolding pending_tries
tries_of_probe = refl

run-dead_example : (s' : Session (Unit {0})) × (run plain_text waiting three_ticks ≡ ok (dead, s'))
run-dead_example =
    run-dead plain_text second second (omega arith) waiting probe
      (record { mono = second; wall = 7 }) three_ticks short-IsBounded waiting-IsProbing
      (omega arith)
      (omega arith, omega arith, (omega arith, omega arith, (omega arith, omega arith, tt)))
      (inr (inr (inl (rw tries_of_probe (omega arith)))))

dedup_peer_request-record_peer_response_example :
    let id : ℕ = 3 in
    let s' = record_peer_response waiting false id (1 ∷ []) in
    (id ≡ id → dedup_peer_request s' id false ≡ (true, send_datagram s' (1 ∷ [])))
    × (id < id → dedup_peer_request s' id false ≡ (true, s'))
    × (id < id → dedup_peer_request s' id false ≡ (false, s'))
    × (dedup_slot s' (if false then false else true)
        ≡ dedup_slot waiting (if false then false else true))
dedup_peer_request-record_peer_response_example =
    dedup_peer_request-record_peer_response waiting false 3 3 (1 ∷ [])
