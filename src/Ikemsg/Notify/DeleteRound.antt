-- ===== src/Ikemsg/Notify/DeleteRound.antt =====
-- The Delete payload on any body, and on the bodies that its writer gives.
use mathlib.Core.Bool.{false}
use native.Mathlib.Nat.{mul-suc}
use go_ipsec.Common.{
  ℕ, zero, suc, ◌+◌, ◌*◌, ◌≤◌, ◌<◌, ◌≡◌, refl, List, [], ◌∷◌, ◌++◌, length, arith, ok, Ensures,
  IsByte, IsU16, length-append, All, Ensures-fail_if_lt, Ensures-fail_if, Ensures-byte_at,
  Ensures-uint16_at, Ensures-slice, yields, Ensures-bind, run-fail_if_lt, run-fail_if, run-byte_at,
  run-uint16_at, run-slice, run-bind, slice_middle, put_uint16, ◌>>=◌, fail_if, byte_at, uint16_at,
  ltb, ◌==◌, ◌&&◌, append_assoc,
}
use go_ipsec.Ikemsg.Notify.{
  DeletePayload, spi_size, check_widths, concat_spis, marshal_delete, parse_spis, unmarshal_delete,
}

parse_spis-Ensures :
    (count off size : ℕ) (body : List ℕ)
    → off + size * count ≤ length body
    → Ensures (All (λ spi. length spi ≡ size)) (parse_spis count off size body)
unfolding parse_spis
parse_spis-Ensures zero off size body h = yields tt
parse_spis-Ensures (suc count) off size body h =
    let grows = mul-suc size count in
    Ensures-slice _ _ _ _ (omega arith) (omega (arith, grows)) λ spi e.
      Ensures-bind _ _ (parse_spis-Ensures count (off + size) size body (omega (arith, grows)))
        λ spis es. yields (omega arith, es)

pub delete-Ensures :
    (body : List ℕ)
    → Ensures (λ d. (w : ℕ) × All (λ spi. length spi ≡ w) d.spis) (unmarshal_delete body)
unfolding unmarshal_delete
delete-Ensures body = Ensures-fail_if_lt _ _ _ _ λ p.
    Ensures-byte_at _ _ _ (omega arith) λ protocol _. Ensures-byte_at _ _ _ (omega arith) λ size _.
      Ensures-uint16_at _ _ _ (omega arith) λ count _. Ensures-fail_if _ _ _ λ _.
        Ensures-fail_if_lt _ _ _ _ λ q.
          Ensures-bind _ _ (parse_spis-Ensures count 4 size body q) λ spis es. yields (size, es)

-- The SPIs have one width, from 1 to 255, and their count fits its field; there may be none.
pub record IsDelete (d : DeletePayload) : Type 0 where
  pub protocol_fits : IsByte d.protocol
  pub width : ℕ
  pub width_pos : 0 < width
  pub width_fits : width ≤ 255
  pub same_width : All (λ spi. length spi ≡ width) d.spis
  pub count_fits : IsU16 (length d.spis)

length-concat_spis :
    (w : ℕ) (spis : List (List ℕ))
    → All (λ spi. length spi ≡ w) spis
    → length (concat_spis spis) ≡ w * length spis
unfolding concat_spis
length-concat_spis w [] h = omega arith
length-concat_spis w (spi ∷ spis) h = omega (
  arith,
  length-append spi (concat_spis spis),
  length-concat_spis w spis h.1,
  mul-suc w (length spis),
)

check_widths-ok :
    (w : ℕ) (spis : List (List ℕ))
    → w ≤ 255
    → All (λ spi. length spi ≡ w) spis
    → check_widths w spis ≡ ok tt
unfolding check_widths
check_widths-ok w [] fits h = refl
check_widths-ok w (spi ∷ spis) fits h =
    run-fail_if _ _ _ (ground arith) (check_widths-ok w spis fits h.1)

-- The SPIs behind any bytes are read back.
parse_spis-concat_spis :
    (w : ℕ) (spis : List (List ℕ)) (pre : List ℕ) (off : ℕ)
    → off ≡ length pre
    → All (λ spi. length spi ≡ w) spis
    → parse_spis (length spis) off w (pre ++ concat_spis spis) ≡ ok spis
unfolding parse_spis concat_spis
parse_spis-concat_spis w [] pre off e h = refl
parse_spis-concat_spis w (spi ∷ spis) pre off e h =
    run-slice _ _ _ spi _ (omega arith)
      (omega
        (arith, length-append pre (spi ++ concat_spis spis), length-append spi (concat_spis spis)))
      (slice_middle pre spi (concat_spis spis) _ _ e (omega (arith, h.0)))
      (run-bind _ spis _
        (rw (← append_assoc pre spi (concat_spis spis)) (
          parse_spis-concat_spis w spis (pre ++ spi) (off + w)
            (omega (arith, length-append pre spi, h.0)) h.1))
        refl)

-- What is read from the bytes that are written for `size` as the SPI size.
module _ (protocol w size : ℕ) (spis : List (List ℕ)) (fits : IsU16 (length spis)) where
  delete_bytes : List ℕ
  delete_bytes = protocol ∷ size ∷ (put_uint16 (length spis) ++ concat_spis spis)

  delete_read :
      (size == 0 && ltb 0 (length spis)) ≡ false
      → size * length spis ≡ w * length spis
      → All (λ spi. length spi ≡ w) spis
      → parse_spis (length spis) 4 size delete_bytes ≡ ok spis
      → unmarshal_delete delete_bytes ≡ ok (record { protocol = protocol; spis = spis })
  unfolding unmarshal_delete delete_bytes
  delete_read nonzero total h reads = run-fail_if_lt _ _ _ _ (omega arith) (
      run-byte_at _ _ protocol _ (omega arith) refl (
        run-byte_at _ _ size _ (omega arith) refl (
          run-uint16_at _ _ (length spis) _ (omega arith) (omega arith) (
            run-fail_if _ _ _ nonzero (
              run-fail_if_lt _ _ _ _ (omega (arith, length-concat_spis w spis h, total))
                (run-bind _ spis _ reads refl))))))

-- A Delete payload, of fewer than 2 ^ 16 SPIs of one width from 1 to 255, is written and read back.
pub delete_round :
    (d : DeletePayload)
    → IsDelete d
    → (bs : List ℕ) × (marshal_delete d ≡ ok bs) × (unmarshal_delete bs ≡ ok d)
unfolding marshal_delete delete_bytes
delete_round d v = by_spis d.spis v.same_width v.count_fits
  where
    size_of :
        (spi : List ℕ) (spis : List (List ℕ))
        → length spi ≡ v.width
        → spi_size (spi ∷ spis) ≡ v.width
    size_of spi spis e = unfold spi_size in omega (arith, v.width_fits)

    by_spis :
        (spis : List (List ℕ))
        → All (λ spi. length spi ≡ v.width) spis
        → IsU16 (length spis)
        → let d' : DeletePayload = record { protocol = d.protocol; spis = spis } in
          (bs : List ℕ) × (marshal_delete d' ≡ ok bs) × (unmarshal_delete bs ≡ ok d')
    by_spis [] h fits = (
      d.protocol ∷ 0 ∷ 0 ∷ 0 ∷ [],
      unfold spi_size check_widths concat_spis in run-bind _ tt _ refl refl,
      unfold unmarshal_delete parse_spis ◌>>=◌ fail_if byte_at uint16_at in refl,
    )
    by_spis (spi ∷ spis) h fits = (
      delete_bytes d.protocol v.width v.width (spi ∷ spis) fits,
      rw (size_of spi spis h.0)
          (run-bind _ tt _ (check_widths-ok v.width (spi ∷ spis) v.width_fits h) refl),
      delete_read d.protocol v.width v.width (spi ∷ spis) fits (ground (arith, v.width_pos)) refl h
          (parse_spis-concat_spis v.width (spi ∷ spis)
            (d.protocol ∷ v.width ∷ put_uint16 (length (spi ∷ spis))) 4 refl h),
    )
