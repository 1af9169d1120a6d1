-- ===== src/Eap/Framing.antt =====
-- EAP packets through their reader and their writer.
use go_ipsec.Common.{
  ℕ, ◌^◌, sym, ◌+◌, ◌-◌, ◌<◌, ◌≡◌, refl, ap, ◌∙◌, true, ◌||◌, List, [], ◌∷◌, ◌++◌, length,
  length-append, take-append, arith, ◌==◌, ==-of_ne, ok, put_uint16, Bool-cases, inl, inr,
  run-fail_if, run-fail_if_lt, run-uint16_at, run-byte_at, run-slice, Any, Returns, yields,
  Ensures-Returns, Ensures-fail_if, Ensures-fail_if_lt, Ensures-uint16_at, Ensures-byte_at,
  Ensures-slice, Ensures-if,
}
use go_ipsec.Eap.{EapPacket, code_success, code_failure, parse_typed, parse_packet, marshal_packet}

-- The packet fits: its length does, and Success and Failure have no type and no data.
pub record IsEapPacket (p : EapPacket) : Type 0 where
  pub length_fits : 5 + length p.bytes < 2 ^ 16
  pub bare :
      (p.code == code_success || p.code == code_failure) ≡ true → (p.type ≡ 0) × (p.bytes ≡ [])

typed_read :
    (p : EapPacket) (rest : List ℕ)
    → 5 + length p.bytes < 2 ^ 16
    → parse_packet
        (p.code ∷ p.identifier ∷ (put_uint16 (5 + length p.bytes) ++ p.type ∷ (p.bytes ++ rest)))
      ≡ ok p
unfolding parse_packet parse_typed
typed_read p rest h =
    let all = length-append p.bytes rest in
    run-fail_if_lt _ _ _ _ (omega arith) (
      run-uint16_at _ _ (5 + length p.bytes) _ (omega arith) (omega arith) (
        run-fail_if _ _ _ (ground (arith, all)) (
          run-byte_at _ _ p.code _ (omega arith) refl (
            run-byte_at _ _ p.identifier _ (omega arith) refl (
              rw (==-of_ne (5 + length p.bytes) 4 (omega arith)) (
                run-byte_at _ _ p.type _ (omega arith) refl (
                  run-slice _ _ _ p.bytes _ (omega arith) (omega (arith, all))
                    (take-append (5 + length p.bytes - 5) p.bytes rest (omega arith)) refl)))))))

bare_read :
    (c i : ℕ) (rest : List ℕ)
    → parse_packet (c ∷ i ∷ (put_uint16 4 ++ rest))
      ≡ ok (record { code = c; identifier = i; type = 0; bytes = [] })
unfolding parse_packet
bare_read c i rest = run-fail_if_lt _ _ _ _ (omega arith) (
    run-uint16_at _ _ 4 _ (omega arith) (omega arith) (
      run-fail_if _ _ _ (ground arith)
        (run-byte_at _ _ c _ (omega arith) refl (run-byte_at _ _ i _ (omega arith) refl refl))))

-- A packet that fits is written by Marshal, and Parse reads it back, whatever bytes follow it.
pub parse_packet-marshal_packet :
    (p : EapPacket) (rest : List ℕ) → IsEapPacket p → parse_packet (marshal_packet p ++ rest) ≡ ok p
unfolding marshal_packet
parse_packet-marshal_packet p rest v =
    elim (Bool-cases (p.code == code_success || p.code == code_failure)) [
      | inl last ↦ rw last (
          bare_read p.code p.identifier rest
          ∙ ap (λ t. ok (record p { type = t; bytes = [] })) (sym (v.bare last).0)
          ∙ ap (λ d. ok (record p { bytes = d })) (sym (v.bare last).1))
      | inr typed ↦ rw typed (typed_read p rest v.length_fits)
    ]

-- On every body, Parse returns a packet or an error.
pub parse_packet-Returns : (raw : List ℕ) → Returns (parse_packet raw)
unfolding parse_packet parse_typed
parse_packet-Returns raw = Ensures-Returns {P = Any} (
    Ensures-fail_if_lt _ _ _ _ λ long. Ensures-uint16_at _ _ _ (omega arith) λ len _.
      Ensures-fail_if _ _ _ λ fits. Ensures-byte_at _ _ _ (omega arith) λ code _.
        Ensures-byte_at _ _ _ (omega arith) λ identifier _.
          Ensures-if (len == 4) _ _ (λ _. yields tt)
            λ more.
              Ensures-byte_at _ _ _ (ground arith)
                λ type _. Ensures-slice _ _ _ _ (ground arith) (ground arith) λ bytes _. yields tt)
