-- ===== src/Ikemsg/Notify/RoundTrip.antt =====
-- The Notify payload on any body, and on the bodies that its writer gives.
use go_ipsec.Common.{
  ℕ, ◌≤◌, ◌≡◌, refl, List, ◌∷◌, ◌++◌, length, arith, ok, Ensures, Any, Ensures-fail_if_lt,
  Ensures-byte_at, Ensures-uint16_at, Ensures-slice, Ensures-slice_from, yields, IsByte, IsU16,
  length-append, run-fail_if_lt, run-byte_at, run-uint16_at, run-slice, run-slice_from, take-append,
  drop-append, put_uint16, ◌%◌,
}
use go_ipsec.Ikemsg.Notify.{NotifyPayload, marshal_notify, unmarshal_notify}

pub notify-Ensures : (body : List ℕ) → Ensures Any (unmarshal_notify body)
unfolding unmarshal_notify
notify-Ensures body = Ensures-fail_if_lt _ _ _ _ λ p.
    Ensures-byte_at _ _ _ (omega arith) λ spi_size _. Ensures-fail_if_lt _ _ _ _ λ q.
      Ensures-byte_at _ _ _ (omega arith) λ protocol _.
        Ensures-uint16_at _ _ _ (omega arith) λ type _.
          Ensures-slice _ _ _ _ (omega arith) q
            λ spi _. Ensures-slice_from _ _ _ q λ bytes _. yields tt

-- The fields fit their Go types, and the SPI its one-octet length.
pub record IsNotify (n : NotifyPayload) : Type 0 where
  pub protocol_fits : IsByte n.protocol
  pub type_fits : IsU16 n.type
  pub spi_fits : length n.spi ≤ 255

abbrev notify_header : NotifyPayload → List ℕ
notify_header n = n.protocol ∷ (length n.spi % 256) ∷ put_uint16 n.type

-- A Notify payload that fits, with an SPI of at most 255 bytes, is written and read back.
pub notify_round : (n : NotifyPayload) → IsNotify n → unmarshal_notify (marshal_notify n) ≡ ok n
unfolding unmarshal_notify marshal_notify
notify_round n v =
    let few = v.spi_fits in
    let type_fits = v.type_fits in
    let all = length-append n.spi n.bytes in
    run-fail_if_lt _ _ _ _ (omega arith) (
      run-byte_at _ _ (length n.spi) _ (omega arith) (omega arith) (
        run-fail_if_lt _ _ _ _ (omega (arith, all)) (
          run-byte_at _ _ n.protocol _ (omega arith) refl (
            run-uint16_at _ _ n.type _ (omega arith) (omega arith) (
              run-slice _ _ _ n.spi _ (omega arith) (omega (arith, all))
                (take-append _ n.spi n.bytes (omega arith))
                (run-slice_from _ _ n.bytes _ (omega (arith, all))
                  (drop-append _ (notify_header n ++ n.spi) n.bytes (omega arith)) refl))))))
