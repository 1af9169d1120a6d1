-- ===== src/Esp/Packet/Delivery.antt =====
-- Packets between the two ends of a pair of Child SAs.
use go_ipsec.Common.{
  ℕ, ◌+◌, ◌-◌, ◌^◌, ◌<◌, ◌≡◌, refl, List, ◌∷◌, length, some, arith, Bool-cases, inl, inr, ==-of_ne,
  if◌then◌else◌, Outcome, ok, err,
}
use go_ipsec.Crypto.{Primitives, Lawful}
use go_ipsec.Esp.Trailer.{EspError, replay}
use go_ipsec.Esp.Replay.{accept}
use go_ipsec.Esp.Replay.History.{fresh}
use go_ipsec.Esp.Replay.Refine.{Tracks, accept_refines}
use go_ipsec.Esp.Packet.{
  Sa, Keys, cbc_keys, aead_keys, encrypt_with, encrypt, admitted, after_check, decrypt_with,
  decrypt, open_cbc, verify_cbc, verify_aead,
}
use go_ipsec.Esp.Packet.RoundTrip.{
  cbc_packet, encrypt_cbc_run, verify_cbc_run, open_cbc_run, aead_packet, aead_plain,
  encrypt_aead_run, verify_aead_run, parse_aead_run,
}

-- The outbound half of the first end's keys is the inbound half of the other's.
abbrev pub AreMirrored :
    {Block : Type 0} {Aead : Type 0} → Keys Block Aead → Keys Block Aead → Type 0
AreMirrored (cbc_keys ob ib oi ii) (cbc_keys ob' ib' oi' ii') = (ob ≡ ib') × (oi ≡ ii')
AreMirrored (aead_keys oa ia os is) (aead_keys oa' ia' os' is') = (oa ≡ ia') × (os ≡ is')
AreMirrored _ _ = ⊥

-- What the two ends of a pair agree on.
pub record ArePeers {Block : Type 0} {Aead : Type 0} (a b : Sa Block Aead) : Type 0 where
  pub spi_agrees : a.out_spi ≡ b.in_spi
  pub spi_fits : a.out_spi < 2 ^ 32
  pub keys_agree : AreMirrored a.keys b.keys

module _ {Block : Type 0} {Aead : Type 0} (sa : Sa Block Aead) (seen : List ℕ) (seq : ℕ)
    (t : Tracks sa.window seen) where
  -- An authentic packet goes on to the rest of the call, and is recorded, if its number is fresh.
  admitted_answer :
      (rest : Outcome EspError (List ℕ))
      → let new = fresh sa.window.size seen seq in
        let r = admitted sa (accept sa.window seq) rest in
        (r.0 ≡ (if new then rest else err replay))
        × Tracks r.1.window (if new then seq ∷ seen else seen)
  unfolding admitted
  admitted_answer rest =
      let (w', answered, size, t') = accept_refines sa.window seen seq t in
      elim (Bool-cases (fresh sa.window.size seen seq)) [
        | inl new ↦ rw (answered, new) (refl, rw new at t')
        | inr old ↦ rw (answered, old) (refl, rw old at t')
      ]

module _ (p : Primitives) (laws : Lawful p) where
  delivered_with :
      (ka kb : Keys p.Block p.Aead) (b : Sa p.Block p.Aead) (spi seq : ℕ) (seen inner iv : List ℕ)
      → AreMirrored ka kb
      → spi ≡ b.in_spi
      → spi < 2 ^ 32
      → seq < 2 ^ 32
      → length iv ≡ 16
      → Tracks b.window seen
      → let new = fresh b.window.size seen seq in
        (pkt : List ℕ) × (encrypt_with p ka spi inner seq (some iv) ≡ ok pkt)
        × ((decrypt_with p kb b pkt).0 ≡ (if new then ok inner else err replay))
        × Tracks (decrypt_with p kb b pkt).1.window (if new then seq ∷ seen else seen)
  unfolding encrypt_with decrypt_with after_check
  delivered_with (cbc_keys ob ib oi ii) (cbc_keys ob' ib' oi' ii') b spi seq seen inner iv m
        same_spi fits fits' iv_len t =
      let pkt = cbc_packet p laws spi seq inner fits fits' ob oi iv iv_len in
      let checked : verify_cbc p b.in_spi ii' pkt ≡ ok seq =
        rw (← same_spi, ← m.1) (verify_cbc_run p laws spi seq inner fits fits' ob oi iv iv_len) in
      let opened : open_cbc p ib' pkt ≡ ok inner =
        rw (← m.0) (open_cbc_run p laws spi seq inner fits fits' ob oi iv iv_len) in
      let answer = admitted_answer b seen seq t (ok inner) in
      (
        pkt,
        encrypt_cbc_run p laws spi seq inner fits fits' ob oi iv iv_len,
        rw (checked, opened) answer.0,
        rw (checked, opened) answer.1,
      )
  delivered_with (aead_keys oa ia os is) (aead_keys oa' ia' os' is') b spi seq seen inner iv m
        same_spi fits fits' iv_len t =
      let pkt = aead_packet p laws spi seq inner fits fits' oa os in
      let checked : verify_aead p b.in_spi ia' is' pkt
          ≡ ok (seq, aead_plain p laws spi seq inner fits fits' oa os) =
        rw (← same_spi, ← m.0, ← m.1) (verify_aead_run p laws spi seq inner fits fits' oa os) in
      let opened = parse_aead_run p laws spi seq inner fits fits' oa os in
      let answer = admitted_answer b seen seq t (ok inner) in
      (
        pkt,
        encrypt_aead_run p laws spi seq inner fits fits' oa os,
        rw (checked, opened) answer.0,
        rw (checked, opened) answer.1,
      )
  delivered_with (cbc_keys ob ib oi ii) (aead_keys oa' ia' os' is') b spi seq seen inner iv m
        same_spi fits fits' iv_len t =
      absurd m
  delivered_with (aead_keys oa ia os is) (cbc_keys ob' ib' oi' ii') b spi seq seen inner iv m
        same_spi fits fits' iv_len t =
      absurd m

-- Between two ends that agree on the SPI and the keys, with cryptography that keeps the laws: a packet
-- that one end encrypts, before its counter is exhausted and with 16 random bytes for the IV, decrypts
-- at the other end to the same datagram, for a CBC and for an AEAD suite, if its sequence number is
-- fresh by the history of the numbers that the window accepted; otherwise it is refused as a replay.
-- The number is recorded just if it was fresh, and the sender's counter goes up by one.
pub decrypt-encrypt :
    (p : Primitives) (laws : Lawful p) (a b : Sa p.Block p.Aead) (seen inner iv : List ℕ)
    → ArePeers a b
    → a.seq < 2 ^ 32 - 1
    → length iv ≡ 16
    → Tracks b.window seen
    → let sent = encrypt p a inner (some iv) in
      let new = fresh b.window.size seen (a.seq + 1) in
      (pkt : List ℕ) × (sent.0 ≡ ok pkt)
      × (sent.1.seq ≡ a.seq + 1)
      × ((decrypt p b pkt).0 ≡ (if new then ok inner else err replay))
      × Tracks (decrypt p b pkt).1.window (if new then (a.seq + 1) ∷ seen else seen)
unfolding encrypt decrypt
decrypt-encrypt p laws a b seen inner iv peers below iv_len t =
    let (pkt, sent, received, recorded) =
      delivered_with p laws a.keys b.keys b a.out_spi (a.seq + 1) seen inner iv peers.keys_agree
        peers.spi_agrees peers.spi_fits (omega arith) iv_len t in
    rw (==-of_ne a.seq (2 ^ 32 - 1) (omega arith)) (pkt, sent, refl, received, recorded)
