-- ===== src/Ikesa/Dh.antt =====
-- internal/ikesa/dh.go: one side of a Diffie-Hellman exchange, in group 14 or 31. A big.Int is a number;
-- math/big and crypto/ecdh are a record of operations, with what their documentation promises.
pub mod Agreement
pub mod Total
use go_ipsec.Common.{
  ℕ, ◌+◌, ◌*◌, ◌-◌, ◌%◌, ◌^◌, ◌<◌, ◌≡◌, Bool, ◌||◌, not, Option, none, some, List, ◌++◌, length,
  replicate, ltb, leb, ◌==◌, if◌then◌else◌, Outcome, ok, err, panic, ◌>>=◌, ◌>>◌, fail_if, or_err,
}

-- `exp` is big.Int.Exp, `set_bytes` and `to_bytes` are SetBytes and Bytes. A private key of crypto/ecdh is its
-- bytes; `new_public_key` and `ecdh` return `none` for an error.
pub record DhPrimitives : Type 0 where
  pub exp : ℕ → ℕ → ℕ → ℕ
  pub set_bytes : List ℕ → ℕ
  pub to_bytes : ℕ → List ℕ
  pub public_key : List ℕ → List ℕ
  pub new_public_key : List ℕ → Option (List ℕ)
  pub ecdh : List ℕ → List ℕ → Option (List ℕ)

pub record DhLaws (p : DhPrimitives) : Type 0 where
  pub exp_mod : (x y m : ℕ) → 0 < m → p.exp x y m ≡ (x ^ y) % m
  pub set_bytes_to_bytes : (zeros n : ℕ) → p.set_bytes (replicate zeros 0 ++ p.to_bytes n) ≡ n
  pub new_public_key_public_key :
      (k : List ℕ) → p.new_public_key (p.public_key k) ≡ some (p.public_key k)
  pub ecdh_agrees : (k l : List ℕ) → p.ecdh k (p.public_key l) ≡ p.ecdh l (p.public_key k)

pub data DhError : Type 0 where
  no_number no_key unsupported_group wrong_length out_of_range invalid_public_key no_agreement :
      DhError

abbrev pub dh_group14 : ℕ
dh_group14 = 14

abbrev pub dh_group31 : ℕ
dh_group31 = 31

abbrev pub modp2048_len : ℕ
modp2048_len = 256

abbrev pub modp2048_p : ℕ
modp2048_p =
    0xFFFFFFFFFFFFFFFFC90FDAA22168C234C4C6628B80DC1CD1_29024E088A67CC74020BBEA63B139B22514A08798E3404DD_EF9519B3CD3A431B302B0A6DF25F14374FE1356D6D51C245_E485B576625E7EC6F44C42E9A637ED6B0BFF5CB6F406B7ED_EE386BFB5A899FA5AE9F24117C4B1FE649286651ECE45B3D_C2007CB8A163BF0598DA48361C55D39A69163FA8FD24CF5F_83655D23DCA3AD961C62F356208552BB9ED529077096966D_670C354E4ABC9804F1746C08CA18217C32905E462E36CE3B_E39E772C180E86039B2783A2EC07A28FB5C55DF06F4C52C9_DE2BCBF6955817183995497CEA956AE515D2261898FA0510_15728E5A8AACAA68FFFFFFFFFFFFFFFF

abbrev pub modp2048_g : ℕ
modp2048_g = 2

abbrev pub modp2048_p_minus2 : ℕ
modp2048_p_minus2 = modp2048_p - 2

-- A private key of the other group is nil, `none`.
pub record Dh : Type 0 where
  pub group : ℕ
  pub public_value : List ℕ
  pub priv_modp : Option ℕ
  pub priv_x25519 : Option (List ℕ)

-- What `rand.Int` or `GenerateKey` returns.
pub record Randomness : Type 0 where
  pub number : Option ℕ
  pub key : Option (List ℕ)

unfoldable pub left_pad : List ℕ → ℕ → List ℕ
left_pad b n = if leb n (length b) then b else replicate (n - length b) 0 ++ b

module _ (p : DhPrimitives) where
  unfoldable pub modp_side : ℕ → Dh
  modp_side n =
      let priv = n + 2 in
      record {
        group = dh_group14;
        public_value = left_pad (p.to_bytes (p.exp modp2048_g priv modp2048_p)) modp2048_len;
        priv_modp = some priv;
        priv_x25519 = none;
      }

  unfoldable pub x25519_side : List ℕ → Dh
  x25519_side priv = record {
    group = dh_group31;
    public_value = p.public_key priv;
    priv_modp = none;
    priv_x25519 = some priv;
  }

  unfoldable pub new_dh : ℕ → Randomness → Outcome DhError Dh
  new_dh group random =
      if group == dh_group14
      then (or_err random.number no_number >>= λ n. ok (modp_side n))
      else if group == dh_group31
      then (or_err random.key no_key >>= λ priv. ok (x25519_side priv))
      else err unsupported_group

  -- A nil private key is dereferenced.
  unfoldable pub modp_secret : Option ℕ → ℕ → Outcome DhError (List ℕ)
  modp_secret none peer = panic
  modp_secret (some priv) peer =
      ok (left_pad (p.to_bytes (p.exp peer priv modp2048_p)) modp2048_len)

  unfoldable pub shared_modp : Option ℕ → List ℕ → Outcome DhError (List ℕ)
  shared_modp priv peer_public = do
    fail_if (not (length peer_public == modp2048_len)) wrong_length
    let peer = p.set_bytes peer_public
    fail_if (leb peer 1 || ltb modp2048_p_minus2 peer) out_of_range
    modp_secret priv peer

  unfoldable pub x25519_secret : Option (List ℕ) → List ℕ → Outcome DhError (List ℕ)
  x25519_secret none peer = panic
  x25519_secret (some priv) peer = or_err (p.ecdh priv peer) no_agreement

  unfoldable pub shared_x25519 : Option (List ℕ) → List ℕ → Outcome DhError (List ℕ)
  shared_x25519 priv peer_public = do
    peer ← or_err (p.new_public_key peer_public) invalid_public_key
    x25519_secret priv peer

  unfoldable pub shared : Dh → List ℕ → Outcome DhError (List ℕ)
  shared d peer_public =
      if d.group == dh_group14
      then shared_modp d.priv_modp peer_public
      else if d.group == dh_group31
      then shared_x25519 d.priv_x25519 peer_public
      else err unsupported_group
