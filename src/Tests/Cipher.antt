-- ===== src/Tests/Cipher.antt =====
-- A stand-in for the cryptography: ciphers that leave the text as it is, and MACs and tags of zeros.
use go_ipsec.Common.{
  ℕ, ◌+◌, ◌-◌, ◌≤◌, ◌≡◌, refl, ap, List, ◌++◌, length, length-append, length-take, take,
  take-append, replicate, some, none, Option, arith, ltb, ltb-of_le, if◌then◌else◌, Bool-cases, inl,
  inr,
}
use go_ipsec.Crypto.{Primitives, Lawful}

-- A text of at least a tag, without it.
abbrev untag : List ℕ → Option (List ℕ)
untag text = if ltb (length text) 16 then none else some (take (length text - 16) text)

abbrev pub plain_text : Primitives
plain_text = record {
  Block = Unit {0};
  Aead = Unit {0};
  aes_new_cipher = λ key. some tt;
  new_gcm = λ b. some tt;
  new_chacha20_poly1305 = λ key. some tt;
  cbc_encrypt = λ b iv plain. plain;
  cbc_decrypt = λ b iv text. text;
  hmac_sha256 = λ key message. replicate 32 0;
  seal = λ a nonce plain ad. plain ++ replicate 16 0;
  unseal = λ a nonce text ad. untag text;
}

untag-append : (plain : List ℕ) → untag (plain ++ replicate 16 0) ≡ some plain
untag-append plain =
    let all = length-append plain (replicate 16 0) in
    rw (ltb-of_le (length (plain ++ replicate 16 0)) 16 (omega (arith, all))) (
      ap some (
        take-append (length (plain ++ replicate 16 0) - 16) plain (replicate 16 0)
          (omega (arith, all))))

untag-length : (text plain : List ℕ) → untag text ≡ some plain → length plain + 16 ≡ length text
untag-length text plain h = elim (Bool-cases (ltb (length text) 16)) [
  | inl short ↦ let h' : none ≡ some plain = rw short at h in cc
  | inr long ↦
      let h' : some (take (length text - 16) text) ≡ some plain = rw long at h in
      let e : take (length text - 16) text ≡ plain = cc in
      let bound : 16 ≤ length text = ground arith in
      omega (arith, length-take (length text - 16) text, ap length e)
]

pub plain_text-Lawful : Lawful plain_text
plain_text-Lawful = record {
  cbc_round = λ b iv plain h. refl;
  cbc_encrypt_length = λ b iv plain. refl;
  cbc_decrypt_length = λ b iv text. refl;
  hmac_length = λ key message. refl;
  unseal_seal = λ a nonce plain ad. untag-append plain;
  unseal_length = λ a nonce text ad plain. untag-length text plain;
  seal_length = λ a nonce plain ad. length-append plain (replicate 16 0);
}
