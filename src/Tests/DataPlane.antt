-- ===== src/Tests/DataPlane.antt =====
-- The data plane of internal/esp and the framing of internal/natt on concrete packets.
use go_ipsec.Common.{
  ℕ, ◌+◌, ◌*◌, ◌≤◌, ◌<◌, ◌^◌, ◌≡◌, refl, List, [], ◌∷◌, length, replicate, some, none, arith, ok,
  err, Returns, if◌then◌else◌,
}
use go_ipsec.Esp.Replay.{new_replay_window}
use go_ipsec.Esp.Replay.History.{fresh, history, AreDistinct}
use go_ipsec.Esp.Replay.Refine.{Tracks}
use go_ipsec.Esp.Replay.Runs.{
  run, run-history, run-AreDistinct, new_replay_window_size, new_replay_window-Tracks,
}
use go_ipsec.Tests.Cipher.{plain_text, plain_text-Lawful}
use go_ipsec.Esp.Trailer.{replay, fill_trailer, parse_trailer}
use go_ipsec.Esp.Trailer.RoundTrip.{plaintext, fill_trailer-plaintext, parse_trailer-plaintext}
use go_ipsec.Esp.Packet.{Sa, cbc_keys, aes_cbc256_sha256, encrypt, decrypt}
use go_ipsec.Esp.Packet.Delivery.{ArePeers, decrypt-encrypt}
use go_ipsec.Esp.Packet.Numbers.{encrypt_all, AreIncreasing, encrypt_all-AreIncreasing}
use go_ipsec.Esp.Packet.Total.{Grows, decrypt-Returns}
use go_ipsec.Natt.{Kind, kind_ike, classify, wrap_ike}
use go_ipsec.Natt.Framing.{IsClassified, classify-IsClassified, classify-wrap_ike}

run-history_example :
    run (new_replay_window 100) [] (5 ∷ 3 ∷ 5 ∷ 900 ∷ 700 ∷ [])
    ≡ ok (history (new_replay_window 100).size [] (5 ∷ 3 ∷ 5 ∷ 900 ∷ 700 ∷ []))
run-history_example = run-history 100 (5 ∷ 3 ∷ 5 ∷ 900 ∷ 700 ∷ [])

run-AreDistinct_example :
    (accepted : List ℕ) × (run (new_replay_window 100) [] (5 ∷ 3 ∷ 5 ∷ []) ≡ ok accepted)
    × AreDistinct accepted
run-AreDistinct_example = run-AreDistinct 100 (5 ∷ 3 ∷ 5 ∷ [])

new_replay_window_size_example :
    let w = new_replay_window 100 in
    (w.size ≡ 64 * length w.bits)
    × (64 ≤ w.size)
    × (w.size ≤ 2 ^ 20)
    × (64 ≤ 100 → 100 ≤ 2 ^ 20 → (100 ≤ w.size) × (w.size < 100 + 64))
new_replay_window_size_example = new_replay_window_size 100

fill_trailer-plaintext_example :
    fill_trailer (replicate (length {A = ℕ} (0x60 ∷ 1 ∷ []) + 2 + 2) 0) (0x60 ∷ 1 ∷ []) 2
    ≡ ok (plaintext (0x60 ∷ 1 ∷ []) 2)
fill_trailer-plaintext_example = fill_trailer-plaintext (0x60 ∷ 1 ∷ []) 2 (omega arith)

parse_trailer-plaintext_example : parse_trailer (plaintext (0x60 ∷ 1 ∷ []) 2) ≡ ok (0x60 ∷ 1 ∷ [])
parse_trailer-plaintext_example = parse_trailer-plaintext (0x60 ∷ 1 ∷ []) 2 (omega arith)

abbrev gateway_end : Sa (Unit {0}) (Unit {0})
gateway_end = record {
  suite = aes_cbc256_sha256;
  out_spi = 7;
  in_spi = 9;
  keys = cbc_keys tt tt (1 ∷ []) (2 ∷ []);
  seq = 0;
  window = new_replay_window 64;
}

abbrev client_end : Sa (Unit {0}) (Unit {0})
client_end = record {
  suite = aes_cbc256_sha256;
  out_spi = 9;
  in_spi = 7;
  keys = cbc_keys tt tt (2 ∷ []) (1 ∷ []);
  seq = 41;
  window = new_replay_window 64;
}

ends-ArePeers : ArePeers client_end gateway_end
ends-ArePeers = record { spi_agrees = refl; spi_fits = omega arith; keys_agree = (refl, refl) }

decrypt-encrypt_example :
    let sent = encrypt plain_text client_end (0x45 ∷ 0 ∷ []) (some (replicate 16 3)) in
    let new = fresh gateway_end.window.size [] (client_end.seq + 1) in
    (pkt : List ℕ) × (sent.0 ≡ ok pkt)
    × (sent.1.seq ≡ client_end.seq + 1)
    × ((decrypt plain_text gateway_end pkt).0 ≡ (if new then ok (0x45 ∷ 0 ∷ []) else err replay))
    × Tracks
        (decrypt plain_text gateway_end pkt).1.window
        (if new then (client_end.seq + 1) ∷ [] else [])
decrypt-encrypt_example =
    decrypt-encrypt plain_text plain_text-Lawful client_end gateway_end [] (0x45 ∷ 0 ∷ [])
      (replicate 16 3) ends-ArePeers (omega arith) refl (new_replay_window-Tracks 64)

decrypt-Returns_example :
    let r = decrypt plain_text gateway_end (replicate 60 0) in
    Returns r.0
    × (after : List ℕ) × Tracks r.1.window after
    × Grows gateway_end.window.size [] after
decrypt-Returns_example =
    decrypt-Returns plain_text plain_text-Lawful gateway_end [] (replicate 60 0)
      (new_replay_window-Tracks 64)

encrypt_all-AreIncreasing_example :
    AreIncreasing client_end.seq
      (encrypt_all plain_text client_end ((1 ∷ [], some (replicate 16 3)) ∷ (2 ∷ [], none) ∷ []))
encrypt_all-AreIncreasing_example =
    encrypt_all-AreIncreasing plain_text client_end
      ((1 ∷ [], some (replicate 16 3)) ∷ (2 ∷ [], none) ∷ []) (omega arith)

classify-IsClassified_example :
    (r : Kind × List ℕ) × (classify (0 ∷ 0 ∷ 0 ∷ 1 ∷ []) ≡ ok r)
    × IsClassified (0 ∷ 0 ∷ 0 ∷ 1 ∷ []) r
classify-IsClassified_example = classify-IsClassified (0 ∷ 0 ∷ 0 ∷ 1 ∷ [])

classify-wrap_ike_example : classify (wrap_ike (1 ∷ 2 ∷ [])) ≡ ok (kind_ike, 1 ∷ 2 ∷ [])
classify-wrap_ike_example = classify-wrap_ike (1 ∷ 2 ∷ [])
