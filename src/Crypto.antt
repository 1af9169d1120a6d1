-- ===== src/Crypto.antt =====
-- The cryptography that internal/esp and internal/ikesa take from other packages (crypto/aes, crypto/cipher, crypto/hmac,
-- golang.org/x/crypto/chacha20poly1305), and what their documentation promises.
use go_ipsec.Common.{
  refl, arith, ℕ, ◌+◌, ◌%◌, ◌≡◌, Bool, true, false, ◌&&◌, Option, some, List, [], ◌∷◌, length, ◌==◌,
  and-left, and-right,
}

-- `Block` and `Aead` are cipher.Block and cipher.AEAD, the first argument of each call on them; `none` is
-- a returned error. `seal` and `unseal` are Seal and Open: nonce, text, associated data.
pub record Primitives : Type 1 where
  pub Block : Type 0
  pub Aead : Type 0
  pub aes_new_cipher : List ℕ → Option Block
  pub new_gcm : Block → Option Aead
  pub new_chacha20_poly1305 : List ℕ → Option Aead
  pub cbc_encrypt : Block → List ℕ → List ℕ → List ℕ
  pub cbc_decrypt : Block → List ℕ → List ℕ → List ℕ
  pub hmac_sha256 : List ℕ → List ℕ → List ℕ
  pub seal : Aead → List ℕ → List ℕ → List ℕ → List ℕ
  pub unseal : Aead → List ℕ → List ℕ → List ℕ → Option (List ℕ)

-- Decryption with the same key, IV and associated data gives the plaintext back; the lengths are those
-- documented: a CBC text is as long as the other, a SHA-256 MAC has 32 bytes, sealing appends a tag of 16,
-- and opening takes it off.
pub record Lawful (p : Primitives) : Type 0 where
  pub cbc_round :
      (b : p.Block) (iv plain : List ℕ)
      → length plain % 16 ≡ 0
      → p.cbc_decrypt b iv (p.cbc_encrypt b iv plain) ≡ plain
  pub cbc_encrypt_length :
      (b : p.Block) (iv plain : List ℕ) → length (p.cbc_encrypt b iv plain) ≡ length plain
  pub cbc_decrypt_length :
      (b : p.Block) (iv text : List ℕ) → length (p.cbc_decrypt b iv text) ≡ length text
  pub hmac_length : (key message : List ℕ) → length (p.hmac_sha256 key message) ≡ 32
  pub unseal_seal :
      (a : p.Aead) (nonce plain ad : List ℕ)
      → p.unseal a nonce (p.seal a nonce plain ad) ad ≡ some plain
  pub unseal_length :
      (a : p.Aead) (nonce text ad plain : List ℕ)
      → p.unseal a nonce text ad ≡ some plain
      → length plain + 16 ≡ length text
  pub seal_length :
      (a : p.Aead) (nonce plain ad : List ℕ) → length (p.seal a nonce plain ad) ≡ length plain + 16

-- `hmac.Equal` and `bytes.Equal`
unfoldable pub bytes_equal : List ℕ → List ℕ → Bool
bytes_equal [] [] = true
bytes_equal [] (y ∷ ys) = false
bytes_equal (x ∷ xs) [] = false
bytes_equal (x ∷ xs) (y ∷ ys) = x == y && bytes_equal xs ys

pub bytes_equal_refl : (xs : List ℕ) → bytes_equal xs xs ≡ true
unfolding bytes_equal
bytes_equal_refl [] = refl
bytes_equal_refl (x ∷ xs) = ground (arith, bytes_equal_refl xs)

pub bytes_equal-eq : (xs ys : List ℕ) → bytes_equal xs ys ≡ true → xs ≡ ys
unfolding bytes_equal
bytes_equal-eq [] [] h = refl
bytes_equal-eq [] (y ∷ ys) h = cc
bytes_equal-eq (x ∷ xs) [] h = cc
bytes_equal-eq (x ∷ xs) (y ∷ ys) h =
    let same : x ≡ y = ground (arith, and-left (x == y) (bytes_equal xs ys) h) in
    let rest = bytes_equal-eq xs ys (and-right (x == y) (bytes_equal xs ys) h) in cc
