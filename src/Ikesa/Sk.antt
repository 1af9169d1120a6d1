-- ===== src/Ikesa/Sk.antt =====
-- internal/ikesa/keys.go and crypto.go: the protection of messages in an SK payload.
pub mod Padding
pub mod Checksummed
pub mod Sealed
pub mod RoundTrip
pub mod Total
pub mod Writing
use go_ipsec.Common.{
  ℕ, zero, suc, ◌+◌, ◌-◌, ◌%◌, ◌^◌, Bool, true, false, not, ◌||◌, Option, none, some, List, [], ◌∷◌,
  ◌++◌, length, take, replicate, ltb, ◌==◌, if◌then◌else◌, Outcome, ok, err, panic, stuck, ◌>>=◌,
  ◌>>◌, fail_if, or_err, map_err, byte_at, slice, slice_from, put_uint64,
}
use go_ipsec.Crypto.{Primitives, bytes_equal}
use go_ipsec.Ikesa.Keys.{
  IkeError, plaintext_not_aligned, random_failed, message_too_short, shorter_than_icv, sk_too_short,
  authentication_failed, pad_out_of_range, shorter_than_iv, ciphertext_not_aligned, no_cipher,
  AeadState, IkeSa, is_aead, outbound_integ_key, inbound_integ_key, outbound_encr_key,
  inbound_encr_key,
}

abbrev pub integ_icv_len : ℕ
integ_icv_len = 16

abbrev pub aes_block : ℕ
aes_block = 16

abbrev pub sk_iv_len : ℕ
sk_iv_len = 8

abbrev pub aead_tag_len : ℕ
aead_tag_len = 16

abbrev pub ike_hdr_len : ℕ
ike_hdr_len = 28

abbrev pub generic_hdr_len : ℕ
generic_hdr_len = 4

-- An error of OpenSK comes with `icvOK`, whether the message was authentic.
pub data Refusal : Type 0 where
  unauthenticated authenticated : IkeError → Refusal

-- `for i := 1; i <= padLen; i++ { padded = append(padded, byte(i)) }`, from `i` on with `k` rounds left.
unfoldable pub sk_padding : ℕ → ℕ → List ℕ
sk_padding zero i = []
sk_padding (suc k) i = (i % 256) ∷ sk_padding k (i + 1)

-- The RFC 7296 trailer behind the plaintext.
unfoldable pub pad_plaintext : List ℕ → List ℕ
pad_plaintext plaintext =
    let pad_len = (aes_block - (length plaintext + 1) % aes_block) % aes_block in
    plaintext ++ (sk_padding pad_len 1 ++ (pad_len % 256) ∷ [])

-- The last octet of the padded plaintext, and the plaintext in front of that many octets.
unfoldable pub strip_padding : List ℕ → Outcome IkeError (List ℕ)
strip_padding padded = do
  pad_len ← if length padded == 0 then panic else byte_at padded (length padded - 1)
  fail_if (ltb (length padded) (pad_len + 1)) pad_out_of_range
  slice padded 0 (length padded - pad_len - 1)

module _ (p : Primitives) where
  unfoldable pub integ : List ℕ → List ℕ → Outcome IkeError (List ℕ)
  integ key text = slice (p.hmac_sha256 key text) 0 integ_icv_len

  -- `random` is what `io.ReadFull(rand.Reader, iv)` leaves in `iv`.
  unfoldable pub aes_cbc_encrypt : List ℕ → List ℕ → Option (List ℕ) → Outcome IkeError (List ℕ)
  aes_cbc_encrypt key plaintext random = do
    fail_if (not (length plaintext % aes_block == 0)) plaintext_not_aligned
    block ← or_err (p.aes_new_cipher key) no_cipher
    iv ← or_err random random_failed
    ok (iv ++ p.cbc_encrypt block iv plaintext)

  unfoldable pub aes_cbc_decrypt : List ℕ → List ℕ → Outcome IkeError (List ℕ)
  aes_cbc_decrypt key iv_and_ct = do
    fail_if (ltb (length iv_and_ct) aes_block) shorter_than_iv
    iv ← slice iv_and_ct 0 aes_block
    ct ← slice_from iv_and_ct aes_block
    fail_if (length ct == 0 || not (length ct % aes_block == 0)) ciphertext_not_aligned
    block ← or_err (p.aes_new_cipher key) no_cipher
    ok (p.cbc_decrypt block iv ct)

  unfoldable pub encrypt_cbc_sk :
      IkeSa p.Aead → List ℕ → Option (List ℕ) → Outcome IkeError (List ℕ)
  encrypt_cbc_sk s plaintext random = do
    iv_ct ← aes_cbc_encrypt (outbound_encr_key s) (pad_plaintext plaintext) random
    ok (iv_ct ++ replicate integ_icv_len 0)

  -- The body to be finalized, and the SA that the call leaves.
  unfoldable pub encrypt_to_sk :
      IkeSa p.Aead → List ℕ → Option (List ℕ) → Outcome IkeError (List ℕ) × IkeSa p.Aead
  encrypt_to_sk s plaintext random =
      let seq = (s.sk_seq + 1) % 2 ^ 64 in
      if is_aead s.suite
      then (
        ok (put_uint64 seq ++ (plaintext ++ replicate (1 + aead_tag_len) 0)),
        record s { sk_seq = seq },
      )
      else (encrypt_cbc_sk s plaintext random, s)

  unfoldable pub checksum : IkeSa p.Aead → List ℕ → Outcome IkeError (List ℕ)
  checksum s msg = do
    fail_if (ltb (length msg) integ_icv_len) shorter_than_icv
    signed ← slice msg 0 (length msg - integ_icv_len)
    mac ← integ (outbound_integ_key s) signed
    ok (signed ++ mac)

  -- The message with the last `sk_data_len` bytes sealed in place.
  unfoldable pub seal_message : Option (AeadState p.Aead) → List ℕ → ℕ → Outcome IkeError (List ℕ)
  seal_message none raw sk_data_len = panic
  seal_message (some a) raw sk_data_len = do
    let sk_start = length raw - sk_data_len
    iv ← slice raw sk_start (sk_start + sk_iv_len)
    pt ← slice raw (sk_start + sk_iv_len) (length raw - aead_tag_len)
    ad ← slice raw 0 sk_start
    ok (take (sk_start + sk_iv_len) raw ++ p.seal a.out_aead (a.out_salt ++ iv) pt ad)

  -- `raw` is changed in place: the message that the call leaves.
  unfoldable pub finalize_sk : IkeSa p.Aead → List ℕ → ℕ → Outcome IkeError (List ℕ)
  finalize_sk s raw sk_data_len = if not (is_aead s.suite) then checksum s raw else (do
    fail_if
        (ltb (length raw) (sk_data_len + (ike_hdr_len + generic_hdr_len))
          || ltb sk_data_len (sk_iv_len + 1 + aead_tag_len))
        message_too_short
    seal_message s.aead raw sk_data_len)

  unfoldable pub verify_checksum : IkeSa p.Aead → List ℕ → Outcome IkeError Bool
  verify_checksum s msg = if ltb (length msg) integ_icv_len then ok false else (do
    want ← slice_from msg (length msg - integ_icv_len)
    signed ← slice msg 0 (length msg - integ_icv_len)
    got ← integ (inbound_integ_key s) signed
    ok (bytes_equal want got))

  unfoldable pub decrypt_sk : IkeSa p.Aead → List ℕ → Outcome IkeError (List ℕ)
  decrypt_sk s sk_data = do
    fail_if (ltb (length sk_data) (integ_icv_len + aes_block)) sk_too_short
    iv_ct ← slice sk_data 0 (length sk_data - integ_icv_len)
    padded ← aes_cbc_decrypt (inbound_encr_key s) iv_ct
    strip_padding padded

  -- `Open` on the parts of the message; a nil cipher panics.
  unfoldable pub unseal_parts :
      Option (AeadState p.Aead) → List ℕ → List ℕ → Outcome IkeError (List ℕ)
  unseal_parts none raw sk_data = panic
  unseal_parts (some a) raw sk_data = do
    iv ← slice sk_data 0 sk_iv_len
    sealed ← slice_from sk_data sk_iv_len
    ad ← slice raw 0 (length raw - length sk_data)
    or_err (p.unseal a.in_aead (a.in_salt ++ iv) sealed ad) authentication_failed

  unfoldable pub open_message :
      Option (AeadState p.Aead) → List ℕ → List ℕ → Outcome IkeError (List ℕ)
  open_message a raw sk_data = do
    fail_if
        (ltb (length raw) (length sk_data + (ike_hdr_len + generic_hdr_len))
          || ltb (length sk_data) (sk_iv_len + 1 + aead_tag_len))
        sk_too_short
    unseal_parts a raw sk_data

unfoldable pub open_sk :
    (p : Primitives) → IkeSa p.Aead → List ℕ → List ℕ → Outcome Refusal (List ℕ)
open_sk p s raw sk_data =
    if is_aead s.suite
    then (do
      padded ← map_err unauthenticated (open_message p s.aead raw sk_data)
      map_err authenticated (strip_padding padded))
    else (do
      authentic ← map_err unauthenticated (verify_checksum p s raw)
      fail_if (not authentic) (unauthenticated authentication_failed)
      map_err authenticated (decrypt_sk p s sk_data))
