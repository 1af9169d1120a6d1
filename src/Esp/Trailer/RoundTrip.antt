-- ===== src/Esp/Trailer/RoundTrip.antt =====
-- internal/esp/esp.go: `fillTrailer` and `parseTrailer` together.
use go_ipsec.Common.{
  append_assoc, ℕ, zero, suc, ◌+◌, ◌-◌, ◌%◌, ◌≤◌, ◌≡◌, refl, sym, ap, ◌∙◌, List, [], ◌∷◌, ◌++◌,
  length, get_or, set, replicate, length-append, length-replicate, take-append, drop-append,
  take-all, slice_middle, get_or-append_ge, false, not, ◌&&◌, ltb-of_le, ◌==◌, arith, ok, run-bind,
  run-fail_if, run-fail_if_lt, run-byte_at, run-slice, set_at-lt, slice-le,
}
use go_ipsec.Esp.Trailer.{
  EspError, next_header_for, copy, fill_padding, set_from_end, fill_trailer, check_padding,
  parse_trailer,
}

-- The octets `i + 1`, ..., `i + n`.
abbrev pub padding : ℕ → ℕ → List ℕ
padding zero i = []
padding (suc n) i = (i + 1) ∷ padding n (i + 1)

-- The plaintext of a packet, as RFC 4303 §2.4 lays it out.
abbrev pub plaintext : List ℕ → ℕ → List ℕ
plaintext inner pad_len = inner ++ (padding pad_len 0 ++ (pad_len ∷ next_header_for inner ∷ []))

pub length-padding : (n i : ℕ) → length (padding n i) ≡ n
length-padding zero i = refl
length-padding (suc n) i = ap suc (length-padding n (i + 1))

pub length-plaintext : (inner : List ℕ) (n : ℕ) → length (plaintext inner n) ≡ length inner + n + 2
length-plaintext inner n =
    let tail = n ∷ next_header_for inner ∷ [] in
    omega (
      arith,
      length-append inner (padding n 0 ++ tail),
      length-append (padding n 0) tail,
      length-padding n 0,
    )

set-append :
    (pre : List ℕ) (x : ℕ) (post : List ℕ) (i v : ℕ)
    → i ≡ length pre
    → set (pre ++ (x ∷ post)) i v ≡ pre ++ (v ∷ post)
set-append [] x post zero v e = refl
set-append [] x post (suc i) v e = absurd (omega arith)
set-append (p ∷ pre) x post zero v e = absurd (omega arith)
set-append (p ∷ pre) x post (suc i) v e = ap (λ t. p ∷ t) (set-append pre x post i v (omega arith))

fill_padding_run :
    (k i start : ℕ) (pre post : List ℕ)
    → length pre ≡ start + i
    → i + k ≤ 255
    → fill_padding k i start (pre ++ (replicate k 0 ++ post)) ≡ ok (pre ++ (padding k i ++ post))
unfolding fill_padding
fill_padding_run zero i start pre post e h = refl
fill_padding_run (suc k) i start pre post e h =
    let after = replicate k 0 ++ post in
    let byte : (i + 1) % 256 ≡ i + 1 = omega arith in
    run-bind _ (pre ++ ((i + 1) ∷ after)) _
      (set_at-lt _ _ _ (omega (arith, length-append pre (0 ∷ after)))
        ∙ ap ok (rw byte (set-append pre 0 after (start + i) (i + 1) (omega arith))))
      (rw
        (
          sym (append_assoc pre ((i + 1) ∷ []) after),
          sym (append_assoc pre ((i + 1) ∷ []) (padding k (i + 1) ++ post)),
        )
        (fill_padding_run k (i + 1) start (pre ++ ((i + 1) ∷ [])) post
          (omega (arith, length-append pre ((i + 1) ∷ []))) (omega arith)))

set_from_end_run :
    (pre : List ℕ) (x : ℕ) (post : List ℕ) (k v : ℕ)
    → k ≡ suc (length post)
    → set_from_end (pre ++ (x ∷ post)) k v ≡ ok (pre ++ (v ∷ post))
unfolding set_from_end
set_from_end_run pre x post k v e =
    let all = length-append pre (x ∷ post) in
    rw
      (
        ltb-of_le (length (pre ++ (x ∷ post))) k (omega (arith, all)),
        set_at-lt {E = EspError} (pre ++ (x ∷ post)) (length (pre ++ (x ∷ post)) - k) v
            (omega (arith, all)),
      )
      (ap ok (set-append pre x post _ v (omega (arith, all))))

replicate-add : (a b : ℕ) → replicate {A = ℕ} (a + b) 0 ≡ replicate a 0 ++ replicate b 0
replicate-add zero b = ap (λ k. replicate k 0) (omega arith)
replicate-add (suc a) b =
    let sum : suc a + b ≡ suc (a + b) = omega arith in
    ap (λ k. replicate {A = ℕ} k 0) sum ∙ ap (λ t. 0 ∷ t) (replicate-add a b)

copy_zeros :
    (inner : List ℕ) (n : ℕ) (post : List ℕ)
    → post ≡ replicate n 0
    → copy (replicate (length inner + n) 0) inner ≡ inner ++ post
copy_zeros inner n post e =
    let len = length-replicate {A = ℕ} (length inner + n) 0 in
    rw
      (
        take-all (length (replicate {A = ℕ} (length inner + n) 0)) inner (omega (arith, len)),
        replicate-add (length inner) n,
        drop-append (length inner) (replicate (length inner) 0) (replicate n 0)
            (sym (length-replicate {A = ℕ} (length inner) 0)),
        e,
      )
      refl

-- Into a fresh buffer of the right size, fillTrailer writes the packet, the octets 1 to the pad
-- length, the pad length and the next header, for every pad length up to 255.
pub fill_trailer-plaintext :
    (inner : List ℕ) (n : ℕ)
    → n ≤ 255
    → fill_trailer (replicate (length inner + n + 2) 0) inner n ≡ ok (plaintext inner n)
unfolding fill_trailer
fill_trailer-plaintext inner n h =
    let nh = next_header_for inner in
    let byte : n % 256 ≡ n = omega arith in
    let sum : length inner + n + 2 ≡ length inner + (n + 2) = omega arith in
    let whole = append_assoc inner (padding n 0) in
    run-bind _ (inner ++ (padding n 0 ++ (0 ∷ 0 ∷ []))) _
      (rw (sum, copy_zeros inner (n + 2) (replicate n 0 ++ (0 ∷ 0 ∷ [])) (sym (replicate-add n 2)))
        (fill_padding_run n 0 (length inner) inner (0 ∷ 0 ∷ []) (omega arith) (omega arith)))
      (run-bind _ (inner ++ (padding n 0 ++ (n ∷ 0 ∷ []))) _
        (rw (byte, sym (whole (0 ∷ 0 ∷ [])), sym (whole (n ∷ 0 ∷ [])))
          (set_from_end_run (inner ++ padding n 0) 0 (0 ∷ []) 2 n refl))
        (rw
          (
            sym (whole (n ∷ 0 ∷ [])),
            sym (whole (n ∷ nh ∷ [])),
            sym (append_assoc (inner ++ padding n 0) (n ∷ []) (0 ∷ [])),
            sym (append_assoc (inner ++ padding n 0) (n ∷ []) (nh ∷ [])),
          )
          (set_from_end_run ((inner ++ padding n 0) ++ (n ∷ [])) 0 [] 1 nh refl)))

check_padding_run : (n i : ℕ) → check_padding i (padding n i) ≡ ok tt
unfolding check_padding
check_padding_run zero i = refl
check_padding_run (suc n) i = run-fail_if _ _ _ (ground arith) (check_padding_run n (i + 1))

get_middle : (pre post : List ℕ) (x i : ℕ) → i ≡ length pre → get_or (pre ++ (x ∷ post)) i 0 ≡ x
get_middle pre post x i e =
    rw (get_or-append_ge pre (x ∷ post) i 0 (omega arith)) (ground (arith, e))

known_header :
    (inner : List ℕ)
    → (not (next_header_for inner == 4) && not (next_header_for inner == 41)) ≡ false
unfolding next_header_for
known_header [] = refl
known_header (b ∷ inner) = ground arith

-- parseTrailer takes the trailer off the plaintext that fillTrailer lays out, for every packet and every
-- pad length that a byte holds.
pub parse_trailer-plaintext :
    (inner : List ℕ) (n : ℕ) → n ≤ 255 → parse_trailer (plaintext inner n) ≡ ok inner
unfolding parse_trailer
parse_trailer-plaintext inner n h =
    let nh = next_header_for inner in
    let len = length-plaintext inner n in
    let pads = length-append inner (padding n 0) in
    let count = length-padding n 0 in
    let before = append_assoc inner (padding n 0) (n ∷ nh ∷ []) in
    let before' = append_assoc (inner ++ padding n 0) (n ∷ []) (nh ∷ []) in
    run-fail_if_lt _ _ _ _ (omega (arith, len)) (
      run-byte_at _ _ n _ (omega (arith, len))
        (rw (sym before) (
          get_middle (inner ++ padding n 0) (nh ∷ []) n _
            (omega (arith, len, pads, count, ap length before))))
        (run-fail_if_lt _ _ _ _ (omega (arith, len)) (
          run-slice _ _ _ (padding n 0) _ (omega (arith, len)) (omega (arith, len))
            (slice_middle inner (padding n 0) (n ∷ nh ∷ []) _ _ (omega (arith, len))
              (omega (arith, len, count)))
            (run-bind _ tt _ (check_padding_run n 0) (
              run-byte_at _ _ nh _ (omega (arith, len))
                (rw (sym before, sym before')
                  (get_middle ((inner ++ padding n 0) ++ (n ∷ [])) [] nh _ (
                    omega (
                      arith,
                      len,
                      pads,
                      count,
                      ap length before,
                      ap length before',
                      length-append (inner ++ padding n 0) (n ∷ []),
                    ))))
                (run-fail_if _ _ _ (known_header inner) (
                  slice-le _ _ _ (omega arith) (omega (arith, len))
                  ∙ ap ok (
                      take-append (length (plaintext inner n) - n - 2 - 0) inner _
                        (omega (arith, len))))))))))
