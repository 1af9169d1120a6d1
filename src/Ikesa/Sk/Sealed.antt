-- ===== src/Ikesa/Sk/Sealed.antt =====
-- A message sealed by one end and opened by the other, in the AEAD suites.
use go_ipsec.Common.{
  ℕ, ◌+◌, ◌-◌, ◌%◌, ◌^◌, ◌≡◌, refl, sym, ap, ◌∙◌, true, false, Option, none, some, List, [], ◌∷◌,
  ◌++◌, length, replicate, length-append, take-append, drop-append, append_assoc, arith, ltb,
  ltb-of_le, ok, or_err, map_err, run-bind, run-fail_if, run-slice, run-slice_from, slice_middle,
  put_uint64,
}
use go_ipsec.Crypto.{Primitives, Lawful}
use go_ipsec.Ikesa.Keys.{authentication_failed, AeadState, IkeSa, is_aead}
use go_ipsec.Ikesa.Keys.Peers.{AreSkPeers}
use go_ipsec.Ikesa.Sk.{
  unauthenticated, authenticated, strip_padding, encrypt_to_sk, seal_message, finalize_sk,
  unseal_parts, open_message, open_sk,
}
use go_ipsec.Ikesa.Sk.Padding.{strip_padding_run, Protects}

module _ (p : Primitives) (laws : Lawful p) (a b : IkeSa p.Aead) (peers : AreSkPeers a b)
    (plain : List ℕ) where
  module _ (aead : is_aead a.suite ≡ true) (x y : AeadState p.Aead) (sending : a.aead ≡ some x)
      (receiving : b.aead ≡ some y) (same_cipher : x.out_aead ≡ y.in_aead)
      (same_salt : x.out_salt ≡ y.in_salt) where
    iv_bytes : List ℕ
    iv_bytes = put_uint64 ((a.sk_seq + 1) % 2 ^ 64)

    iv_length : length iv_bytes ≡ 8
    unfolding iv_bytes
    iv_length = refl

    unsealed : List ℕ
    unsealed = plain ++ 0 ∷ []

    sealed : List ℕ → List ℕ
    sealed header = p.seal x.out_aead (x.out_salt ++ iv_bytes) unsealed header

    length-sealed : (header : List ℕ) → length (sealed header) ≡ length plain + 17
    unfolding sealed unsealed
    length-sealed header = omega (
      arith,
      laws.seal_length x.out_aead (x.out_salt ++ iv_bytes) (plain ++ 0 ∷ []) header,
      length-append plain (0 ∷ []),
    )

    seal_run :
        (header : List ℕ)
        → length header ≡ 32
        → (n : ℕ) → n ≡ length plain + 25
        → seal_message p a.aead (header ++ (iv_bytes ++ (unsealed ++ replicate 16 0))) n
          ≡ ok (header ++ (iv_bytes ++ sealed header))
    unfolding seal_message sealed
    seal_run header h n e =
        let zeros = replicate {A = ℕ} 16 0 in
        let raw = header ++ (iv_bytes ++ (unsealed ++ zeros)) in
        let a1 = length-append header (iv_bytes ++ (unsealed ++ zeros)) in
        let a2 = length-append iv_bytes (unsealed ++ zeros) in
        let a3 = length-append unsealed zeros in
        let a4 : length unsealed ≡ length plain + 1 =
          unfold unsealed in omega (arith, length-append plain (0 ∷ [])) in
        let at_iv : length raw - n ≡ 32 = omega (arith, a1, a2, a3, a4, iv_length) in
        let front = append_assoc header iv_bytes (unsealed ++ zeros) in
        rw sending (
          run-slice raw _ _ iv_bytes _ (omega arith)
            (omega (arith, at_iv, a1, a2, a3, a4, iv_length))
            (slice_middle header iv_bytes (unsealed ++ zeros) _ _ (omega (arith, at_iv, h))
              (omega (arith, at_iv, iv_length)))
            (run-slice raw _ _ unsealed _ (omega (arith, at_iv, a1, a2, a3, a4, iv_length))
              (omega arith)
              (rw (sym front) (
                slice_middle (header ++ iv_bytes) unsealed zeros _ _
                  (omega (
                    arith,
                    a1,
                    a2,
                    a3,
                    a4,
                    iv_length,
                    h,
                    e,
                    ap length front,
                    length-append header iv_bytes,
                  ))
                  (omega (
                    arith,
                    a1,
                    a2,
                    a3,
                    a4,
                    iv_length,
                    h,
                    e,
                    ap length front,
                    length-append header iv_bytes,
                  ))))
              (run-slice raw _ _ header _ (omega arith) (omega arith)
                (take-append (length raw - n - 0) header (iv_bytes ++ (unsealed ++ zeros))
                  (omega (arith, at_iv, h)))
                (rw (sym front) (
                  ap (λ t. ok (t ++ p.seal x.out_aead (x.out_salt ++ iv_bytes) unsealed header))
                    (take-append _ (header ++ iv_bytes) (unsealed ++ zeros) (
                      omega (
                        arith,
                        a1,
                        a2,
                        a3,
                        a4,
                        iv_length,
                        h,
                        e,
                        ap length front,
                        length-append header iv_bytes,
                      )))
                  ∙ ap ok (
                      append_assoc header iv_bytes
                        (p.seal x.out_aead (x.out_salt ++ iv_bytes) unsealed header)))))))

    body : List ℕ
    body = iv_bytes ++ (plain ++ replicate 17 0)

    body_layout : body ≡ iv_bytes ++ (unsealed ++ replicate 16 0)
    unfolding body unsealed
    body_layout = ap (λ t. iv_bytes ++ t) (sym (append_assoc plain (0 ∷ []) (replicate 16 0)))

    length-body : length body ≡ length plain + 25
    unfolding body
    length-body = omega (
      arith,
      length-append iv_bytes (plain ++ replicate 17 0),
      length-append plain (replicate 17 0),
      iv_length,
    )

    final_length : (header : List ℕ) → length (iv_bytes ++ sealed header) ≡ length plain + 25
    final_length header =
        omega (arith, length-append iv_bytes (sealed header), length-sealed header, iv_length)

    finalize_run :
        (header : List ℕ)
        → length header ≡ 32
        → finalize_sk p (encrypt_to_sk p a plain none).1 (header ++ body) (length body)
          ≡ ok (header ++ (iv_bytes ++ sealed header))
    unfolding finalize_sk encrypt_to_sk
    finalize_run header h =
        let all = length-append header body in
        let long : ltb (length (header ++ body)) (length body + 32) ≡ false =
          ltb-of_le _ _ (omega (arith, all, h)) in
        let enough : ltb (length body) 25 ≡ false = ltb-of_le _ _ (omega (arith, length-body)) in
        rw (aead, aead, long, enough, body_layout)
          (run-fail_if _ _ _ refl (
            seal_run header h (length (iv_bytes ++ (unsealed ++ replicate 16 0)))
              (ap length (sym body_layout) ∙ length-body)))

    unseal_run :
        (header : List ℕ)
        → length header ≡ 32
        → unseal_parts p b.aead (header ++ (iv_bytes ++ sealed header)) (iv_bytes ++ sealed header)
          ≡ ok unsealed
    unfolding unseal_parts sealed or_err
    unseal_run header h =
        let final = iv_bytes ++ sealed header in
        let size = final_length header in
        let opened : p.unseal y.in_aead (y.in_salt ++ iv_bytes) (sealed header) header
            ≡ some unsealed =
          unfold sealed in
          rw (← same_cipher, ← same_salt)
            (laws.unseal_seal x.out_aead (x.out_salt ++ iv_bytes) unsealed header) in
        rw receiving (
          run-slice final _ _ iv_bytes _ (omega arith) (omega (arith, size))
            (take-append 8 iv_bytes (sealed header) (sym iv_length))
            (run-slice_from final _ (sealed header) _ (omega (arith, size))
              (drop-append 8 iv_bytes (sealed header) (sym iv_length))
              (run-slice (header ++ final) _ _ header _ (omega arith) (omega arith)
                (take-append _ header final (omega (arith, length-append header final)))
                (ap (λ r. or_err r authentication_failed) opened))))

    open_run :
        (header : List ℕ)
        → length header ≡ 32
        → open_message p b.aead (header ++ (iv_bytes ++ sealed header)) (iv_bytes ++ sealed header)
          ≡ ok unsealed
    unfolding open_message
    open_run header h =
        let size = final_length header in
        let all = length-append header (iv_bytes ++ sealed header) in
        run-fail_if _ _ _
          (rw
            (
              ltb-of_le (length (header ++ (iv_bytes ++ sealed header)))
                  (length (iv_bytes ++ sealed header) + 32) (omega (arith, all, h)),
              ltb-of_le (length (iv_bytes ++ sealed header)) 25 (omega (arith, size)),
            )
            refl)
          (unseal_run header h)

    receiver_aead : is_aead b.suite ≡ true
    receiver_aead = rw (← peers.suite_agrees) aead

    open_sk_run :
        (header : List ℕ)
        → length header ≡ 32
        → open_sk p b (header ++ (iv_bytes ++ sealed header)) (iv_bytes ++ sealed header) ≡ ok plain
    unfolding open_sk unsealed
    open_sk_run header h =
        let opened : map_err unauthenticated (
              open_message p b.aead (header ++ (iv_bytes ++ sealed header))
                (iv_bytes ++ sealed header))
            ≡ ok (plain ++ 0 ∷ []) =
          ap (map_err unauthenticated) (open_run header h) ∙ (unfold map_err unsealed in refl) in
        let stripped : map_err authenticated (strip_padding (plain ++ 0 ∷ [])) ≡ ok plain =
          ap (map_err authenticated) (strip_padding_run plain [] 0 refl)
          ∙ (unfold map_err in refl) in
        rw receiver_aead (run-bind _ (plain ++ 0 ∷ []) _ opened stripped)

    pub aead-Protects :
        (random : Option (List ℕ)) → Protects p b plain (encrypt_to_sk p a plain random)
    unfolding encrypt_to_sk
    aead-Protects random =
        let sent : encrypt_to_sk p a plain none
            ≡ (ok body, record a { sk_seq = (a.sk_seq + 1) % 2 ^ 64 }) =
          rw aead (unfold body iv_bytes in refl) in
        rw aead (
          body,
          (unfold body iv_bytes in refl),
          omega (arith, length-body),
          λ header h. (
            iv_bytes ++ sealed header,
            omega (arith, final_length header, length-body),
            ap (λ s. finalize_sk p s.1 (header ++ body) (length body)) (sym sent)
                ∙ finalize_run header h,
            open_sk_run header h,
          ),
        )
