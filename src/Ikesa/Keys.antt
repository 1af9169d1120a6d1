-- ===== src/Ikesa/Keys.antt =====
-- internal/ikesa/keys.go: the keys of an IKE SA.
pub mod Peers
pub mod Rekeyed
pub mod Total
use go_ipsec.Common.{
  ℕ, ◌+◌, ◌*◌, ◌-◌, Bool, true, false, not, ◌||◌, Option, none, some, List, [], ◌∷◌, ◌++◌, length,
  ltb, ◌==◌, if◌then◌else◌, Outcome, ok, err, ◌>>=◌, ◌>>◌, fail_if, lift, or_err, slice, slice_from,
  put_uint64,
}
use go_ipsec.Crypto.{Primitives}
use go_ipsec.Ikesa.{prf_plus}

pub data IkeError : Type 0 where
  short_nonce empty_dh_shared empty_old_sk_d no_cipher : IkeError
  plaintext_not_aligned random_failed message_too_short shorter_than_icv : IkeError
  sk_too_short authentication_failed pad_out_of_range : IkeError
  shorter_than_iv ciphertext_not_aligned : IkeError

pub data Role : Type 0 where
  initiator responder : Role

pub data SkSuite : Type 0 where
  sk_aes_cbc256_sha256 sk_aes_gcm256 sk_chacha20_poly1305 : SkSuite
  sk_unknown : ℕ → SkSuite

unfoldable pub is_aead : SkSuite → Bool
is_aead sk_aes_gcm256 = true
is_aead sk_chacha20_poly1305 = true
is_aead _ = false

abbrev pub prf_key_len : ℕ
prf_key_len = 32

abbrev pub aead_salt_len : ℕ
aead_salt_len = 4

-- The lengths of SK_e* and SK_a*.
unfoldable pub key_lens : SkSuite → ℕ × ℕ
key_lens s = if is_aead s then (36, 0) else (32, 32)

abbrev pub ike_min_nonce_len : ℕ
ike_min_nonce_len = 16

-- The AEAD state is that of both directions: `none` before it is built, and for the CBC suite.
pub record AeadState (Aead : Type 0) : Type 0 where
  pub out_aead : Aead
  pub in_aead : Aead
  pub out_salt : List ℕ
  pub in_salt : List ℕ

-- `sk_seq` is a uint64.
pub record IkeSa (Aead : Type 0) : Type 0 where
  pub role : Role
  pub suite : SkSuite
  pub initiator_spi : ℕ
  pub responder_spi : ℕ
  pub sk_d : List ℕ
  pub sk_ai : List ℕ
  pub sk_ar : List ℕ
  pub sk_ei : List ℕ
  pub sk_er : List ℕ
  pub sk_pi : List ℕ
  pub sk_pr : List ℕ
  pub aead : Option (AeadState Aead)
  pub sk_seq : ℕ

-- The choice of `s.SKai` or `s.SKar`, and so on, for the role.
unfoldable pub by_role : Role → List ℕ → List ℕ → List ℕ
by_role initiator own other = own
by_role responder own other = other

module _ {Aead : Type 0} where
  unfoldable pub outbound_integ_key : IkeSa Aead → List ℕ
  outbound_integ_key s = by_role s.role s.sk_ai s.sk_ar

  unfoldable pub inbound_integ_key : IkeSa Aead → List ℕ
  inbound_integ_key s = by_role s.role s.sk_ar s.sk_ai

  unfoldable pub outbound_encr_key : IkeSa Aead → List ℕ
  outbound_encr_key s = by_role s.role s.sk_ei s.sk_er

  unfoldable pub inbound_encr_key : IkeSa Aead → List ℕ
  inbound_encr_key s = by_role s.role s.sk_er s.sk_ei

module _ (p : Primitives) where
  unfoldable pub new_sk_aead : SkSuite → List ℕ → Outcome IkeError p.Aead
  new_sk_aead sk_aes_gcm256 key = do
    b ← or_err (p.aes_new_cipher key) no_cipher
    or_err (p.new_gcm b) no_cipher
  new_sk_aead sk_chacha20_poly1305 key = or_err (p.new_chacha20_poly1305 key) no_cipher
  new_sk_aead _ key = err no_cipher

  -- The AEAD state from the keys of the two directions, each a cipher key with its salt behind it.
  unfoldable pub new_aead_state : SkSuite → List ℕ → List ℕ → Outcome IkeError (AeadState p.Aead)
  new_aead_state suite out in_ = do
    let encr_len = (key_lens suite).0
    out_key ← slice out 0 (encr_len - aead_salt_len)
    out_aead ← new_sk_aead suite out_key
    in_key ← slice in_ 0 (encr_len - aead_salt_len)
    in_aead ← new_sk_aead suite in_key
    out_salt ← slice_from out (encr_len - aead_salt_len)
    in_salt ← slice_from in_ (encr_len - aead_salt_len)
    ok (record { out_aead = out_aead; in_aead = in_aead; out_salt = out_salt; in_salt = in_salt })

  -- The seven keys, cut off the key stream one after the other.
  unfoldable pub split_keys : SkSuite → Role → ℕ → ℕ → ℕ → List ℕ → Outcome IkeError (IkeSa p.Aead)
  split_keys suite role spii spir sk_seq ks = do
    let (e, i) = key_lens suite
    sk_d ← slice ks 0 prf_key_len
    sk_ai ← slice ks prf_key_len (prf_key_len + i)
    sk_ar ← slice ks (prf_key_len + i) (prf_key_len + 2 * i)
    sk_ei ← slice ks (prf_key_len + 2 * i) (prf_key_len + 2 * i + e)
    sk_er ← slice ks (prf_key_len + 2 * i + e) (prf_key_len + 2 * i + 2 * e)
    sk_pi ← slice ks (prf_key_len + 2 * i + 2 * e) (2 * prf_key_len + 2 * i + 2 * e)
    sk_pr ← slice ks (2 * prf_key_len + 2 * i + 2 * e) (3 * prf_key_len + 2 * i + 2 * e)
    ok (record {
      role = role;
      suite = suite;
      initiator_spi = spii;
      responder_spi = spir;
      sk_d = sk_d;
      sk_ai = sk_ai;
      sk_ar = sk_ar;
      sk_ei = sk_ei;
      sk_er = sk_er;
      sk_pi = sk_pi;
      sk_pr = sk_pr;
      aead = none;
      sk_seq = sk_seq;
    })

  -- `sk_seq` is the counter of the receiver, which a derivation leaves as it is.
  unfoldable pub derive_from_skeyseed :
      SkSuite → Role → ℕ → ℕ → List ℕ → List ℕ → ℕ → List ℕ → Outcome IkeError (IkeSa p.Aead)
  derive_from_skeyseed suite role spii spir nonce_i nonce_r sk_seq skeyseed = do
    let seed = nonce_i ++ (nonce_r ++ (put_uint64 spii ++ put_uint64 spir))
    let (e, i) = key_lens suite
    ks ← lift (prf_plus p.hmac_sha256 skeyseed seed (prf_key_len + 2 * i + 2 * e + 2 * prf_key_len))
    s ← split_keys suite role spii spir sk_seq ks
    if is_aead suite
        then (do
          state ← new_aead_state suite (outbound_encr_key s) (inbound_encr_key s)
          ok (record s { aead = some state }))
        else ok s

  unfoldable pub derive :
      SkSuite → Role → ℕ → ℕ → List ℕ → List ℕ → ℕ → List ℕ → Outcome IkeError (IkeSa p.Aead)
  derive suite role spii spir nonce_i nonce_r sk_seq dh_shared = do
    fail_if (ltb (length nonce_i) ike_min_nonce_len || ltb (length nonce_r) ike_min_nonce_len)
        short_nonce
    fail_if (length dh_shared == 0) empty_dh_shared
    derive_from_skeyseed suite role spii spir nonce_i nonce_r sk_seq
        (p.hmac_sha256 (nonce_i ++ nonce_r) dh_shared)

  unfoldable pub derive_rekey_ike :
      SkSuite → List ℕ → Role → ℕ → ℕ → List ℕ → List ℕ → List ℕ → Outcome IkeError (IkeSa p.Aead)
  derive_rekey_ike suite old_sk_d role spii spir nonce_i nonce_r dh_shared = do
    fail_if (length old_sk_d == 0) empty_old_sk_d
    fail_if (ltb (length nonce_i) ike_min_nonce_len || ltb (length nonce_r) ike_min_nonce_len)
        short_nonce
    fail_if (length dh_shared == 0) empty_dh_shared
    derive_from_skeyseed suite role spii spir nonce_i nonce_r 0
        (p.hmac_sha256 old_sk_d (dh_shared ++ (nonce_i ++ nonce_r)))
