-- ===== src/Esp/Trailer/Total.antt =====
-- `parseTrailer` on any plaintext that decryption may give.
use go_ipsec.Common.{
  List, [], ◌∷◌, ◌+◌, ◌-◌, length, ℕ, arith, Any, Ensures, Ensures-fail_if, Ensures-fail_if_lt,
  Ensures-byte_at, Ensures-slice, Ensures-bind, yields, slice-le,
}
use go_ipsec.Esp.Trailer.{EspError, check_padding, parse_trailer}

check_padding-Ensures : (i : ℕ) (pad : List ℕ) → Ensures Any (check_padding i pad)
unfolding check_padding
check_padding-Ensures i [] = yields tt
check_padding-Ensures i (b ∷ pad) = Ensures-fail_if _ _ _ (λ _. check_padding-Ensures (i + 1) pad)

pub parse_trailer-Ensures : (plain : List ℕ) → Ensures Any (parse_trailer plain)
unfolding parse_trailer
parse_trailer-Ensures plain = Ensures-fail_if_lt _ _ _ _ (λ two.
    Ensures-byte_at _ _ _ (omega arith) (λ pad_len _. Ensures-fail_if_lt _ _ _ _ (λ fits.
      Ensures-slice _ _ _ _ (omega arith) (omega arith) (λ pad _.
        Ensures-bind _ _ (check_padding-Ensures _ _) (λ _ _.
          Ensures-byte_at _ _ _ (omega arith) (λ nh _. Ensures-fail_if _ _ _ (λ _.
            rw
              (slice-le {E = EspError} plain 0 (length plain - pad_len - 2) (omega arith)
                (omega arith))
              (yields tt))))))))
