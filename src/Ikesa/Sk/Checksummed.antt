-- ===== src/Ikesa/Sk/Checksummed.antt =====
-- A message through encryption and checksum of one end and the checks of the other, in the CBC suite.
use go_ipsec.Common.{
  ℕ, ◌+◌, ◌-◌, ◌%◌, ◌≤◌, ◌<◌, ◌≡◌, refl, sym, ap, true, false, some, List, ◌++◌, length, take,
  replicate, length-append, length-take, take-append, drop-append, append_assoc, arith, ltb-of_le,
  ==-of_eq, ==-of_ne, ok, ◌>>=◌, fail_if, or_err, map_err, slice-le, run-bind, run-fail_if,
  run-fail_if_lt, run-slice, run-slice_from,
}
use go_ipsec.Crypto.{bytes_equal_refl, Primitives, Lawful}
use go_ipsec.Ikesa.Keys.{IkeSa, is_aead, outbound_integ_key, outbound_encr_key, inbound_encr_key}
use go_ipsec.Ikesa.Keys.Peers.{AreSkPeers}
use go_ipsec.Ikesa.Sk.{
  pad_plaintext, integ, aes_cbc_encrypt, aes_cbc_decrypt, encrypt_cbc_sk, encrypt_to_sk, checksum,
  finalize_sk, verify_checksum, decrypt_sk, open_sk,
}
use go_ipsec.Ikesa.Sk.Padding.{pad_plaintext-strip, pad_plaintext-whole, Protects}

module _ (p : Primitives) (laws : Lawful p) (a b : IkeSa p.Aead) (peers : AreSkPeers a b)
    (plain : List ℕ) where
  module _ (cbc : is_aead a.suite ≡ false) (block : p.Block)
      (keyed : p.aes_new_cipher (outbound_encr_key a) ≡ some block) (iv : List ℕ)
      (iv_len : length iv ≡ 16) where
    padded : List ℕ
    padded = pad_plaintext plain

    ivct : List ℕ
    ivct = iv ++ p.cbc_encrypt block iv padded

    encrypt_run : encrypt_cbc_sk p a plain (some iv) ≡ ok (ivct ++ replicate 16 0)
    unfolding encrypt_cbc_sk aes_cbc_encrypt or_err ivct padded ◌>>=◌ fail_if
    encrypt_run = rw (==-of_eq (length padded % 16) 0 (pad_plaintext-whole plain).0, keyed) refl

    ivct-length : length ivct ≡ 16 + length padded
    unfolding ivct
    ivct-length = omega (
      arith,
      length-append iv (p.cbc_encrypt block iv padded),
      laws.cbc_encrypt_length block iv padded,
    )

    decrypt_run : aes_cbc_decrypt p (inbound_encr_key b) ivct ≡ ok padded
    unfolding aes_cbc_decrypt ivct
    decrypt_run =
        let ct = p.cbc_encrypt block iv padded in
        let whole : (length padded % 16 ≡ 0)
            × (0 < length padded)
            × (length padded ≤ length plain + 16) =
          unfold padded in pad_plaintext-whole plain in
        let same = laws.cbc_encrypt_length block iv padded in
        let all = length-append iv ct in
        run-fail_if_lt _ _ _ _ (omega (arith, all)) (
          run-slice _ _ _ iv _ (omega arith) (omega (arith, all))
            (take-append 16 iv ct (sym iv_len))
            (run-slice_from _ _ ct _ (omega (arith, all)) (drop-append 16 iv ct (sym iv_len)) (
              run-fail_if _ _ _
                (rw
                  (
                    ==-of_ne (length ct) 0 (omega (arith, whole, same)),
                    ==-of_eq (length ct % 16) 0 (omega (arith, whole, same)),
                  )
                  refl)
                (run-bind _ block _ (unfold or_err in rw (← peers.encr_agrees, keyed) refl)
                  (ap ok (laws.cbc_round block iv padded whole.0))))))

    mac_of : List ℕ → List ℕ
    mac_of header = take 16 (p.hmac_sha256 (outbound_integ_key a) (header ++ ivct))

    mac_length : (header : List ℕ) → length (mac_of header) ≡ 16
    unfolding mac_of
    mac_length header = omega (
      arith,
      length-take 16 (p.hmac_sha256 (outbound_integ_key a) (header ++ ivct)),
      laws.hmac_length (outbound_integ_key a) (header ++ ivct),
    )

    integ_run :
        (header : List ℕ) → integ p (outbound_integ_key a) (header ++ ivct) ≡ ok (mac_of header)
    unfolding integ mac_of
    integ_run header =
        slice-le _ 0 16 (omega arith)
          (omega (arith, laws.hmac_length (outbound_integ_key a) (header ++ ivct)))

    checksum_run :
        (header : List ℕ)
        → length header ≡ 32
        → checksum p a (header ++ (ivct ++ replicate 16 0)) ≡ ok (header ++ (ivct ++ mac_of header))
    unfolding checksum
    checksum_run header h =
        let all = length-append header (ivct ++ replicate 16 0) in
        let tail = length-append ivct (replicate 16 0) in
        let front = append_assoc header ivct in
        run-fail_if_lt _ _ _ _ (omega (arith, all, tail)) (
          run-slice _ _ _ (header ++ ivct) _ (omega arith) (omega arith)
            (rw (sym (front (replicate 16 0))) (
              take-append (length ((header ++ ivct) ++ replicate 16 0) - 16 - 0) (header ++ ivct)
                (replicate 16 0) (omega (arith, length-append (header ++ ivct) (replicate 16 0)))))
            (run-bind _ (mac_of header) _ (integ_run header) (ap ok (front (mac_of header)))))

    verify_run :
        (header : List ℕ)
        → length header ≡ 32
        → verify_checksum p b (header ++ (ivct ++ mac_of header)) ≡ ok true
    unfolding verify_checksum
    verify_run header h =
        let mac = mac_of header in
        let msg = (header ++ ivct) ++ mac in
        let all = length-append (header ++ ivct) mac in
        let sized = mac_length header in
        rw
          (
            sym (append_assoc header ivct mac),
            ltb-of_le (length msg) 16 (omega (arith, all, sized)),
            ← peers.integ_agrees,
          )
          (run-slice_from _ _ mac _ (omega arith)
            (drop-append (length msg - 16) (header ++ ivct) mac (omega (arith, all, sized)))
            (run-slice _ _ _ (header ++ ivct) _ (omega arith) (omega arith)
              (take-append (length msg - 16 - 0) (header ++ ivct) mac (omega (arith, all, sized)))
              (run-bind _ mac _ (integ_run header) (ap ok (bytes_equal_refl mac)))))

    decrypt_sk_run : (header : List ℕ) → decrypt_sk p b (ivct ++ mac_of header) ≡ ok plain
    unfolding decrypt_sk
    decrypt_sk_run header =
        let mac = mac_of header in
        let all = length-append ivct mac in
        let sized = mac_length header in
        let whole : 16 ≤ length padded =
          unfold padded in omega (arith, pad_plaintext-whole plain) in
        run-fail_if_lt _ _ _ _ (omega (arith, all, sized, ivct-length)) (
          run-slice _ _ _ ivct _ (omega arith) (omega arith)
            (take-append (length (ivct ++ mac) - 16 - 0) ivct mac (omega (arith, all, sized)))
            (run-bind _ padded _ decrypt_run (unfold padded in pad_plaintext-strip plain)))

    receiver_cbc : is_aead b.suite ≡ false
    receiver_cbc = rw (← peers.suite_agrees) cbc

    pub cbc-Protects : Protects p b plain (encrypt_to_sk p a plain (some iv))
    unfolding encrypt_to_sk
    cbc-Protects = rw cbc (
      ivct ++ replicate 16 0,
      encrypt_run,
      unfold padded in
          omega
            (arith, length-append ivct (replicate 16 0), ivct-length, pad_plaintext-whole plain),
      λ header h. (
        ivct ++ mac_of header,
        omega (
          arith,
          length-append ivct (replicate 16 0),
          length-append ivct (mac_of header),
          mac_length header,
        ),
        unfold finalize_sk in rw cbc (checksum_run header h),
        unfold open_sk map_err in
            rw (receiver_cbc, verify_run header h, decrypt_sk_run header)
              (unfold ◌>>=◌ fail_if in refl),
      ),
    )
