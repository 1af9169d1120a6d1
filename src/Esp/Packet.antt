-- ===== src/Esp/Packet.antt =====
-- internal/esp/esp.go: the packets of a pair of Child SAs, for the CBC and the AEAD suites. Encrypt takes
-- its sequence number by one compare-and-swap, and the replay window has a mutex: each call is one step
-- on the state, which it returns with its outcome. The buffer that Encrypt fills in place is the
-- concatenation of its parts here.
pub mod Shape
pub mod RoundTrip
pub mod Delivery
pub mod Numbers
pub mod Total
use go_ipsec.Common.{
  ℕ, ◌+◌, ◌-◌, ◌%◌, ◌^◌, Bool, true, false, not, ◌&&◌, ◌||◌, Option, none, some, List, [], ◌++◌,
  length, take, drop, replicate, ltb, ◌==◌, if◌then◌else◌, Outcome, ok, err, panic, stuck, ◌>>=◌,
  ◌>>◌, fail_if, slice, slice_from, uint32_at, put_uint32, put_uint64,
}
use go_ipsec.Esp.Replay.{ReplayWindow, new_replay_window, accept}
use go_ipsec.Esp.Trailer.{
  EspError, replay, seq_exhausted, key_material, unknown_suite, cipher_failed, random_failed,
  packet_too_short, unknown_spi, icv_failed, not_block_aligned, aead_failed, fill_trailer,
  parse_trailer,
}
use go_ipsec.Crypto.{Primitives, bytes_equal}

pub data Suite : Type 0 where
  aes_cbc256_sha256 aes_gcm256 chacha20_poly1305 : Suite
  unknown_suite_id : ℕ → Suite

abbrev pub esp_header_len : ℕ
esp_header_len = 8

abbrev pub cbc_iv_len : ℕ
cbc_iv_len = 16

abbrev pub esp_icv_len : ℕ
esp_icv_len = 16

abbrev pub esp_block : ℕ
esp_block = 16

abbrev pub aead_iv_len : ℕ
aead_iv_len = 8

-- The contexts that newSA sets: those of the CBC suite (the outbound and the inbound block, then the
-- integrity keys), or those of an AEAD suite (the ciphers, then the salts).
pub data Keys (Block : Type 0) (Aead : Type 0) : Type 0 where
  cbc_keys : Block → Block → List ℕ → List ℕ → Keys Block Aead
  aead_keys : Aead → Aead → List ℕ → List ℕ → Keys Block Aead

-- One half of the traffic key material is outbound, the other inbound.
pub record Sa (Block : Type 0) (Aead : Type 0) : Type 0 where
  pub suite : Suite
  pub out_spi : ℕ
  pub in_spi : ℕ
  pub keys : Keys Block Aead
  pub seq : ℕ
  pub window : ReplayWindow

-- A returned error of another package becomes this error.
unfoldable pub or_fail : {A : Type 0} → Option A → EspError → Outcome EspError A
or_fail none e = err e
or_fail (some a) e = ok a

-- The bytes of padding after which `length inner + 2` is a multiple of `align`.
unfoldable pub padding_for : ℕ → List ℕ → ℕ
padding_for align inner = (align - (length inner + 2) % align) % align

module _ (p : Primitives) where
  -- `CryptBlocks`, which panics unless its input is a whole number of blocks.
  unfoldable pub crypt_blocks :
      (p.Block → List ℕ → List ℕ → List ℕ) → p.Block → List ℕ → List ℕ → Outcome EspError (List ℕ)
  crypt_blocks f block iv src = if length src % esp_block == 0 then ok (f block iv src) else panic

  unfoldable pub new_aead : Suite → List ℕ → Outcome EspError p.Aead
  new_aead aes_gcm256 key = do
    b ← or_fail (p.aes_new_cipher key) cipher_failed
    or_fail (p.new_gcm b) cipher_failed
  new_aead chacha20_poly1305 key = or_fail (p.new_chacha20_poly1305 key) cipher_failed
  new_aead aes_cbc256_sha256 key = err unknown_suite
  new_aead (unknown_suite_id n) key = err unknown_suite

  -- The branch of newSA for the AEAD suites.
  unfoldable pub new_aead_keys :
      Suite → List ℕ → List ℕ → List ℕ → List ℕ → Outcome EspError (Keys p.Block p.Aead)
  new_aead_keys suite out_encr out_integ in_encr in_integ = do
    fail_if (not (length out_encr == 36) || not (length out_integ == 0)) key_material
    fail_if (not (length in_encr == 36) || not (length in_integ == 0)) key_material
    oa ← new_aead suite (take 32 out_encr)
    ia ← new_aead suite (take 32 in_encr)
    ok (aead_keys oa ia (drop 32 out_encr) (drop 32 in_encr))

  unfoldable pub new_keys :
      Suite → List ℕ → List ℕ → List ℕ → List ℕ → Outcome EspError (Keys p.Block p.Aead)
  new_keys aes_cbc256_sha256 out_encr out_integ in_encr in_integ = do
    fail_if (not (length out_encr == 32) || not (length out_integ == 32)) key_material
    fail_if (not (length in_encr == 32) || not (length in_integ == 32)) key_material
    ob ← or_fail (p.aes_new_cipher out_encr) cipher_failed
    ib ← or_fail (p.aes_new_cipher in_encr) cipher_failed
    ok (cbc_keys ob ib out_integ in_integ)
  new_keys aes_gcm256 out_encr out_integ in_encr in_integ =
      new_aead_keys aes_gcm256 out_encr out_integ in_encr in_integ
  new_keys chacha20_poly1305 out_encr out_integ in_encr in_integ =
      new_aead_keys chacha20_poly1305 out_encr out_integ in_encr in_integ
  new_keys (unknown_suite_id n) out_encr out_integ in_encr in_integ = err unknown_suite

  unfoldable pub new_sa :
      Suite → ℕ → ℕ → List ℕ → List ℕ → List ℕ → List ℕ → ℕ → Outcome EspError (Sa p.Block p.Aead)
  new_sa suite out_spi in_spi out_encr out_integ in_encr in_integ replay_window = do
    keys ← new_keys suite out_encr out_integ in_encr in_integ
    ok (record {
      suite = suite;
      out_spi = out_spi;
      in_spi = in_spi;
      keys = keys;
      seq = 0;
      window = new_replay_window replay_window;
    })

  -- `random` is what `io.ReadFull(rand.Reader, iv)` leaves in `iv`.
  unfoldable pub encrypt_cbc :
      ℕ → p.Block → List ℕ → List ℕ → ℕ → Option (List ℕ) → Outcome EspError (List ℕ)
  encrypt_cbc out_spi out_block out_integ inner seq random = do
    let pad_len = padding_for esp_block inner
    iv ← or_fail random random_failed
    plain ← fill_trailer (replicate (length inner + pad_len + 2) 0) inner pad_len
    ciphertext ← crypt_blocks p.cbc_encrypt out_block iv plain
    let packet = put_uint32 out_spi ++ (put_uint32 seq ++ (iv ++ ciphertext))
    ok (packet ++ take esp_icv_len (p.hmac_sha256 out_integ packet))

  unfoldable pub encrypt_aead : ℕ → p.Aead → List ℕ → List ℕ → ℕ → Outcome EspError (List ℕ)
  encrypt_aead out_spi out_aead out_salt inner seq = do
    let pad_len = padding_for 4 inner
    let header = put_uint32 out_spi ++ put_uint32 seq
    let iv = put_uint64 seq
    plain ← fill_trailer (replicate (length inner + pad_len + 2) 0) inner pad_len
    ok (header ++ (iv ++ p.seal out_aead (out_salt ++ iv) plain header))

  unfoldable pub encrypt_with :
      Keys p.Block p.Aead → ℕ → List ℕ → ℕ → Option (List ℕ) → Outcome EspError (List ℕ)
  encrypt_with (cbc_keys ob ib oi ii) out_spi inner seq random =
      encrypt_cbc out_spi ob oi inner seq random
  encrypt_with (aead_keys oa ia os is) out_spi inner seq random =
      encrypt_aead out_spi oa os inner seq

  unfoldable pub encrypt :
      Sa p.Block p.Aead → List ℕ → Option (List ℕ) → Outcome EspError (List ℕ) × Sa p.Block p.Aead
  encrypt sa inner random = if sa.seq == 2 ^ 32 - 1 then (err seq_exhausted, sa) else (
    encrypt_with sa.keys sa.out_spi inner (sa.seq + 1) random,
    record sa { seq = sa.seq + 1 },
  )

  -- The checks of decryptCBC before the window is asked; what follows is `open_cbc`.
  unfoldable pub verify_cbc : ℕ → List ℕ → List ℕ → Outcome EspError ℕ
  verify_cbc in_spi in_integ pkt = do
    fail_if (ltb (length pkt) (esp_header_len + cbc_iv_len + esp_block + esp_icv_len))
        packet_too_short
    spi ← uint32_at pkt 0
    fail_if (not (spi == in_spi)) unknown_spi
    seq ← uint32_at pkt 4
    let icv_start = length pkt - esp_icv_len
    signed ← slice pkt 0 icv_start
    icv ← slice_from pkt icv_start
    mac ← slice (p.hmac_sha256 in_integ signed) 0 esp_icv_len
    fail_if (not (bytes_equal mac icv)) icv_failed
    ok seq

  unfoldable pub open_cbc : p.Block → List ℕ → Outcome EspError (List ℕ)
  open_cbc in_block pkt = do
    let icv_start = length pkt - esp_icv_len
    iv ← slice pkt esp_header_len (esp_header_len + cbc_iv_len)
    ct ← slice pkt (esp_header_len + cbc_iv_len) icv_start
    fail_if (length ct == 0 || not (length ct % esp_block == 0)) not_block_aligned
    plain ← crypt_blocks p.cbc_decrypt in_block iv ct
    parse_trailer plain

  -- The same for decryptAEAD: the sequence number, and the plaintext that Open authenticates.
  unfoldable pub verify_aead : ℕ → p.Aead → List ℕ → List ℕ → Outcome EspError (ℕ × List ℕ)
  verify_aead in_spi in_aead in_salt pkt = do
    fail_if (ltb (length pkt) (esp_header_len + aead_iv_len + 2 + esp_icv_len)) packet_too_short
    spi ← uint32_at pkt 0
    fail_if (not (spi == in_spi)) unknown_spi
    seq ← uint32_at pkt 4
    iv ← slice pkt esp_header_len (esp_header_len + aead_iv_len)
    sealed ← slice_from pkt (esp_header_len + aead_iv_len)
    header ← slice pkt 0 esp_header_len
    plain ← or_fail (p.unseal in_aead (in_salt ++ iv) sealed header) aead_failed
    ok (seq, plain)

module _ {Block : Type 0} {Aead : Type 0} where
  -- The window is asked once the packet is authentic; a packet that it takes goes on to `rest`.
  unfoldable pub admitted :
      Sa Block Aead
      → Outcome ⊥ (Bool × ReplayWindow)
      → Outcome EspError (List ℕ)
      → Outcome EspError (List ℕ) × Sa Block Aead
  admitted sa (ok (true, w)) rest = (rest, record sa { window = w })
  admitted sa (ok (false, w)) rest = (err replay, record sa { window = w })
  admitted sa (err e) rest = absurd e
  admitted sa panic rest = (panic, sa)
  admitted sa stuck rest = (stuck, sa)

  -- What an authentic packet with the sequence number of `checked` comes to; the window of any other
  -- packet is not asked.
  unfoldable pub after_check :
      {A : Type 0}
      → Sa Block Aead
      → Outcome EspError A
      → (A → ℕ)
      → (A → Outcome EspError (List ℕ))
      → Outcome EspError (List ℕ) × Sa Block Aead
  after_check sa (ok a) seq rest = admitted sa (accept sa.window (seq a)) (rest a)
  after_check sa (err e) seq rest = (err e, sa)
  after_check sa panic seq rest = (panic, sa)
  after_check sa stuck seq rest = (stuck, sa)

module _ (p : Primitives) where
  unfoldable pub decrypt_with :
      Keys p.Block p.Aead
      → Sa p.Block p.Aead
      → List ℕ
      → Outcome EspError (List ℕ) × Sa p.Block p.Aead
  decrypt_with (cbc_keys ob ib oi ii) sa pkt =
      after_check sa (verify_cbc p sa.in_spi ii pkt) (λ seq. seq) (λ seq. open_cbc p ib pkt)
  decrypt_with (aead_keys oa ia os is) sa pkt =
      after_check sa (verify_aead p sa.in_spi ia is pkt) (λ c. c.0) (λ c. parse_trailer c.1)

  unfoldable pub decrypt :
      Sa p.Block p.Aead → List ℕ → Outcome EspError (List ℕ) × Sa p.Block p.Aead
  decrypt sa pkt = decrypt_with sa.keys sa pkt
