-- ===== src/Tests/Exchanges.antt =====
-- The driver and the rekey exchanges on concrete sessions, with the stand-in cryptography.
use go_ipsec.Common.{
  ℕ, ◌*◌, ◌≡◌, refl, Bool, true, false, List, [], ◌∷◌, replicate, some, none, Outcome, ok, err,
  panic, stuck,
}
use go_ipsec.Tests.Cipher.{plain_text, plain_text-Lawful}
use go_ipsec.Tests.Dh.{plain}
use go_ipsec.Tests.Session.{zero_state, end_of, test_nonce}
use go_ipsec.Tests.Driver.{waiting}
use go_ipsec.Ikemsg.Const.{exchange_informational, protocol_ike}
use go_ipsec.Ikemsg.Message.{delete}
use go_ipsec.Ikesa.{ChildKeys}
use go_ipsec.Ikesa.Keys.{initiator, responder}
use go_ipsec.Session.Protected.{SessionError, encode_sk_with}
use go_ipsec.Session.Child.{ChildSa}
use go_ipsec.Session.Window.{second, Session}
use go_ipsec.Session.Act.{Fresh}
use go_ipsec.Session.Driver.Loop.{Event, datagram, ticked, drive}
use go_ipsec.Session.Driver.Orderly.{IsOrderly}
use go_ipsec.Session.Driver.Runs.{drive-returns}

abbrev no_keys : ChildKeys
no_keys = record { encr_ir = []; integ_ir = []; encr_ri = []; integ_ri = [] }

abbrev live_child : ChildSa
live_child = record { initiator_spi = 17; responder_spi = 18; suite = 1; keys = no_keys }

-- A session with a Child SA, with nothing outstanding and its rekey due.
abbrev connected : Session (Unit {0})
connected = record waiting {
  current = record { ike_sa = end_of initiator; spii = 1; spir = 2 };
  pending = none;
  child = some live_child;
  data_plane = true;
  child_reestablish = true;
}

abbrev draw_at : ℕ → Fresh
draw_at clock = record {
  clock = clock;
  spi = some (1 ∷ 2 ∷ 3 ∷ 4 ∷ []);
  spi64 = some 5;
  nonce_bytes = some test_nonce;
  dh_draw = record { number = some 7; key = some (replicate 32 1) };
  iv = some (replicate 16 0);
  iv_again = some (replicate 16 0);
  scale = λ n. n;
  send_fails = false;
}

abbrev bytes_of : Outcome SessionError (List ℕ) → List ℕ
bytes_of (ok raw) = raw
bytes_of (err e) = []
bytes_of panic = []
bytes_of stuck = []

-- The peer's DELETE of the IKE SA.
abbrev goodbye : List ℕ
goodbye =
    bytes_of
      (encode_sk_with plain_text (end_of responder) 1 2 exchange_informational 0 0
        (delete (record { protocol = protocol_ike; spis = [] }) ∷ []) (some (replicate 16 0))).0

abbrev events : List Event
events =
    ticked (record { mono = 2 * second; wall = 9 }) 0 none
      (record { volume = 0; last_data_inbound = 0 }) (draw_at (2 * second))
    ∷ datagram (1 ∷ 2 ∷ 3 ∷ []) (2 * second) (λ i. draw_at (2 * second))
    ∷ datagram goodbye (3 * second) (λ i. draw_at (3 * second))
    ∷ []

connected-IsOrderly : IsOrderly false connected
connected-IsOrderly = record {
  current_keyed = λ _. (zero_state, refl);
  old_keyed = tt;
  old_there = λ e. absurd cc;
  pending_fits = tt;
  answered_fits = λ e. absurd cc;
  old_answered_fits = λ e. absurd cc;
  wired = refl;
}

drive-returns_example :
    ((ended : Bool) × ((drive plain_text plain events connected).0 ≡ ok ended))
    × IsOrderly false (drive plain_text plain events connected).1
drive-returns_example =
    drive-returns plain_text plain plain_text-Lawful events connected
      (refl, ((λ i. refl), ((λ i. refl), tt))) connected-IsOrderly
