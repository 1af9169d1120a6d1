-- ===== src/Esp/Packet/RoundTrip.antt =====
-- A packet from one end of a pair of SAs to the other.
use go_ipsec.Common.{
  append_assoc, ℕ, ◌+◌, ◌-◌, ◌%◌, ◌^◌, ◌≤◌, ◌<◌, ◌≡◌, refl, ap, ◌∙◌, not, List, ◌++◌, length, take,
  length-take, length-append, take-append, drop-append, some, arith, ==-of_eq, ==-of_ne, ok,
  run-bind, run-fail_if, run-fail_if_lt, run-uint32_at, run-slice, run-slice_from, slice_middle,
  put_uint32, put_uint64,
}
use go_ipsec.Crypto.{bytes_equal_refl, Primitives, Lawful}
use go_ipsec.Esp.Trailer.{parse_trailer}
use go_ipsec.Esp.Trailer.RoundTrip.{
  plaintext, length-plaintext, fill_trailer-plaintext, parse_trailer-plaintext,
}
use go_ipsec.Esp.Packet.{
  padding_for, or_fail, crypt_blocks, encrypt_cbc, encrypt_aead, verify_cbc, open_cbc, verify_aead,
}
use go_ipsec.Esp.Packet.Shape.{
  padding_for_block, padding_for_word, word32-put_uint32, word32-put_uint32_after,
}

module _ (p : Primitives) (laws : Lawful p) (spi seq : ℕ) (inner : List ℕ) (spi_fits : spi < 2 ^ 32)
    (seq_fits : seq < 2 ^ 32) where
  module _ (block : p.Block) (integ iv : List ℕ) (iv_len : length iv ≡ 16) where
    cbc_plain : List ℕ
    cbc_plain = plaintext inner (padding_for 16 inner)

    signed : List ℕ
    signed = put_uint32 spi ++ (put_uint32 seq ++ (iv ++ p.cbc_encrypt block iv cbc_plain))

    pub cbc_packet : List ℕ
    cbc_packet = signed ++ take 16 (p.hmac_sha256 integ signed)

    cbc_plain_whole : length cbc_plain % 16 ≡ 0
    unfolding cbc_plain
    cbc_plain_whole =
        omega (arith, length-plaintext inner (padding_for 16 inner), padding_for_block inner)

    cipher_length : length (p.cbc_encrypt block iv cbc_plain) ≡ length cbc_plain
    cipher_length = laws.cbc_encrypt_length block iv cbc_plain

    pub encrypt_cbc_run : encrypt_cbc p spi block integ inner seq (some iv) ≡ ok cbc_packet
    unfolding encrypt_cbc cbc_packet signed or_fail cbc_plain crypt_blocks
    encrypt_cbc_run = run-bind _ iv _ refl (
        run-bind _ cbc_plain _
          (fill_trailer-plaintext inner (padding_for 16 inner)
            (omega (arith, padding_for_block inner)))
          (run-bind _ (p.cbc_encrypt block iv cbc_plain) _
            (rw (==-of_eq (length cbc_plain % 16) 0 cbc_plain_whole) refl) refl))

    signed-length : length signed ≡ 24 + length cbc_plain
    unfolding signed
    signed-length =
        omega (arith, length-append iv (p.cbc_encrypt block iv cbc_plain), cipher_length)

    icv_length : length (take 16 (p.hmac_sha256 integ signed)) ≡ 16
    icv_length =
        omega (arith, length-take 16 (p.hmac_sha256 integ signed), laws.hmac_length integ signed)

    packet_length : length cbc_packet ≡ 40 + length cbc_plain
    unfolding cbc_packet
    packet_length = omega (
      arith,
      length-append signed (take 16 (p.hmac_sha256 integ signed)),
      signed-length,
      icv_length,
    )

    plain_length : 16 ≤ length cbc_plain
    unfolding cbc_plain
    plain_length = omega (arith, length-plaintext inner (padding_for 16 inner), cbc_plain_whole)

    pub verify_cbc_run : verify_cbc p spi integ cbc_packet ≡ ok seq
    unfolding verify_cbc
    verify_cbc_run =
        let len = packet_length in
        let tag = take 16 (p.hmac_sha256 integ signed) in
        let body = (iv ++ p.cbc_encrypt block iv cbc_plain) ++ tag in
        let split : cbc_packet ≡ signed ++ tag = unfold cbc_packet in refl in
        let words : cbc_packet ≡ put_uint32 spi ++ (put_uint32 seq ++ body) =
          unfold cbc_packet signed in refl in
        run-fail_if_lt _ _ _ _ (omega (arith, len, plain_length)) (
          run-uint32_at _ _ spi _ (omega (arith, len))
            (rw words (word32-put_uint32 spi (put_uint32 seq ++ body) spi_fits))
            (run-fail_if _ _ _ (ground arith) (
              run-uint32_at _ _ seq _ (omega (arith, len))
                (rw words (word32-put_uint32_after spi seq body seq_fits))
                (run-slice _ _ _ signed _ (omega arith) (omega arith)
                  (rw split (
                    take-append (length (signed ++ tag) - 16 - 0) signed tag
                      (omega (arith, len, signed-length, ap length split))))
                  (run-slice_from _ _ tag _ (omega arith)
                    (rw split (
                      drop-append (length (signed ++ tag) - 16) signed tag
                        (omega (arith, len, signed-length, ap length split))))
                    (run-slice _ _ _ tag _ (omega arith)
                      (omega (arith, laws.hmac_length integ signed)) refl
                      (run-fail_if _ _ _ (ap not (bytes_equal_refl tag)) refl)))))))

    pub open_cbc_run : open_cbc p block cbc_packet ≡ ok inner
    unfolding open_cbc crypt_blocks
    open_cbc_run =
        let ct = p.cbc_encrypt block iv cbc_plain in
        let tag = take 16 (p.hmac_sha256 integ signed) in
        let len = packet_length in
        let header = put_uint32 spi ++ put_uint32 seq in
        let parts : cbc_packet ≡ header ++ (iv ++ (ct ++ tag)) =
          unfold cbc_packet signed in ap (λ t. header ++ t) (append_assoc iv ct tag) in
        let parts' : cbc_packet ≡ (header ++ iv) ++ (ct ++ tag) = parts ∙ refl in
        let whole : length ct % 16 ≡ 0 = omega (arith, cipher_length, cbc_plain_whole) in
        run-slice _ _ _ iv _ (omega arith) (omega (arith, len))
          (rw parts (slice_middle header iv (ct ++ tag) 8 24 refl (omega (arith, iv_len))))
          (run-slice _ _ _ ct _ (omega (arith, len, plain_length)) (omega arith)
            (rw parts' (
              slice_middle (header ++ iv) ct tag 24 (length ((header ++ iv) ++ (ct ++ tag)) - 16)
                (omega (arith, iv_len)) (omega (arith, len, ap length parts', cipher_length))))
            (run-fail_if _ _ _
              (rw
                (
                  ==-of_ne (length ct) 0 (omega (arith, cipher_length, plain_length)),
                  ==-of_eq (length ct % 16) 0 whole,
                )
                refl)
              (run-bind _ cbc_plain _
                (rw (==-of_eq (length ct % 16) 0 whole)
                  (ap ok (laws.cbc_round block iv cbc_plain cbc_plain_whole)))
                (unfold cbc_plain in
                  parse_trailer-plaintext inner (padding_for 16 inner)
                    (omega (arith, padding_for_block inner))))))

  module _ (cipher : p.Aead) (salt : List ℕ) where
    aead_header : List ℕ
    aead_header = put_uint32 spi ++ put_uint32 seq

    pub aead_plain : List ℕ
    aead_plain = plaintext inner (padding_for 4 inner)

    sealed : List ℕ
    sealed = p.seal cipher (salt ++ put_uint64 seq) aead_plain aead_header

    pub aead_packet : List ℕ
    aead_packet = aead_header ++ (put_uint64 seq ++ sealed)

    pub encrypt_aead_run : encrypt_aead p spi cipher salt inner seq ≡ ok aead_packet
    unfolding encrypt_aead aead_packet sealed aead_plain aead_header
    encrypt_aead_run =
        run-bind _ aead_plain _
          (fill_trailer-plaintext inner (padding_for 4 inner)
            (omega (arith, padding_for_word inner)))
          refl

    pub verify_aead_run : verify_aead p spi cipher salt aead_packet ≡ ok (seq, aead_plain)
    unfolding verify_aead aead_packet aead_header or_fail
    verify_aead_run =
        let size : length sealed ≡ length aead_plain + 16 =
          unfold sealed in
          (laws.seal_length cipher (salt ++ put_uint64 seq) aead_plain aead_header) in
        let plain_size : length aead_plain ≡ length inner + padding_for 4 inner + 2 =
          unfold aead_plain in length-plaintext inner (padding_for 4 inner) in
        run-fail_if_lt _ _ _ _ (omega (arith, size, plain_size)) (
          run-uint32_at _ _ spi _ (omega arith)
            (word32-put_uint32 spi (put_uint32 seq ++ (put_uint64 seq ++ sealed)) spi_fits)
            (run-fail_if _ _ _ (ground arith) (
              run-uint32_at _ _ seq _ (omega arith)
                (word32-put_uint32_after spi seq (put_uint64 seq ++ sealed) seq_fits)
                (run-slice _ _ _ (put_uint64 seq) _ (omega arith) (omega arith) refl (
                  run-slice_from _ _ sealed _ (omega arith) refl (
                    run-slice _ _ _ aead_header _ (omega arith) (omega arith) refl (
                      run-bind _ aead_plain _
                        (unfold sealed in
                          rw
                            (laws.unseal_seal cipher (salt ++ put_uint64 seq) aead_plain
                              aead_header)
                            refl)
                        refl)))))))

    pub parse_aead_run : parse_trailer aead_plain ≡ ok inner
    unfolding aead_plain
    parse_aead_run =
        parse_trailer-plaintext inner (padding_for 4 inner) (omega (arith, padding_for_word inner))
