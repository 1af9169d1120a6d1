-- ===== src/Ikemsg/Message/RoundTrip.antt =====
-- Marshal and Parse together, on messages that fit the wire format.
pub mod Bodies
use go_ipsec.Common.{
  ℕ, ◌+◌, ◌*◌, ◌-◌, ◌%◌, ◌/◌, ◌≤◌, ◌<◌, ◌≡◌, refl, sym, ap, ◌∙◌, Bool, true, false, Option, some,
  List, [], ◌∷◌, ◌++◌, length, arith, ok, IsByte, IsU16, IsU32, IsU64, append-nil, append_assoc,
  length-append, put_uint16, put_uint32, put_uint64, take-append, drop-append, drain_all,
  drain_all_step, run-fail_if_lt, run-fail_if, run-byte_at, run-uint16_at, run-uint32_at,
  run-uint64_at, run-slice, run-slice_from, run-bind, err, none, if◌then◌else◌, not, bit_and, ◌==◌,
  Outcome, word64, word32, All, All-append, Ensures-ok,
}
use go_ipsec.Ikemsg.Message.{
  Payload, Message, Chain, payload_type, marshal_body, next_type, marshal_payloads, first_type,
  marshal_chain, marshal, new_payload, set_inner_first, unmarshal_body, parse_known, parse_payload,
  parse_chain, parse_payloads, parse,
}
use go_ipsec.Ikemsg.Const.{CodecError, unknown_critical_payload}
use go_ipsec.Ikemsg.Message.Total.{parse_payload-Advances}
use go_ipsec.Ikemsg.Message.RoundTrip.Bodies.{IsPayload, Announces, BodyRound, body_round}

-- The body fits the 16-bit length of the generic header.
abbrev BodyFits : Payload → Type 0
BodyFits p = (bs : List ℕ) → marshal_body p ≡ ok bs → length bs ≤ 0xffff - 4

-- Each payload fits, and an SK payload announces the payload that follows it, if one does.
abbrev pub IsChain : List Payload → Type 0
IsChain [] = Unit {0}
IsChain (p ∷ ps) = IsPayload p × BodyFits p × Announces (next_type p ps) p × IsChain ps

-- One payload behind its generic header.
module _ (following : ℕ) (body : List ℕ) where
  unfoldable pub framed : List ℕ → List ℕ
  framed rest = following ∷ 0 ∷ (put_uint16 (4 + length body) ++ (body ++ rest))

  pub framed_read :
      (p z : Payload) (out : List Payload) (rest : List ℕ)
      → length body ≤ 0xffff - 4
      → new_payload (payload_type p) ≡ some z
      → unmarshal_body (set_inner_first following z) body ≡ ok p
      → parse_payload (record { next = payload_type p; out = out }) (framed rest)
        ≡ ok (record { next = following; out = out ++ p ∷ [] }, rest)
  unfolding framed parse_payload
  framed_read p z out rest fits zero_value reads =
      let all = length-append body rest in
      run-fail_if_lt _ _ _ _ (omega arith) (
        run-byte_at _ _ following _ (omega arith) refl (
          run-byte_at _ _ 0 _ (omega arith) refl (
            run-uint16_at _ _ (4 + length body) _ (omega arith) (omega arith) (
              run-fail_if_lt _ _ _ _ (omega arith)
                (run-fail_if_lt _ _ _ _ (omega (arith, all)) (rw zero_value known))))))
    where
      known :
          parse_known (some z) false following (4 + length body) out (framed rest)
          ≡ ok (record { next = following; out = out ++ p ∷ [] }, rest)
      known =
          unfold parse_known in
          run-slice _ _ _ body _ (omega arith) (omega (arith, length-append body rest))
            (take-append _ body rest (omega arith))
            (run-bind _ p _ reads (
              run-slice_from _ _ rest _ (omega (arith, length-append body rest))
                (drop-append _ (following ∷ 0 ∷ (put_uint16 (4 + length body) ++ body)) rest
                  (omega arith))
                refl))

-- The type that the chain loop has for its next payload is that of the payload, if one is left.
abbrev Starts : ℕ → List Payload → Type 0
Starts k [] = Unit {0}
Starts k (p ∷ ps) = k ≡ payload_type p

next_type-Starts : (p : Payload) (ps : List Payload) → Starts (next_type p ps) ps
unfolding next_type
next_type-Starts p [] = tt
next_type-Starts p (q ∷ qs) = refl

first_type-Starts : (ps : List Payload) → Starts (first_type ps) ps
unfolding first_type
first_type-Starts [] = tt
first_type-Starts (p ∷ ps) = refl

pub framed_step :
    (following : ℕ) (p : Payload) (body rest : List ℕ) (out : List Payload) (k : ℕ)
    → k ≡ payload_type p
    → parse_payload (record { next = payload_type p; out = out }) (framed following body rest)
      ≡ ok (record { next = following; out = out ++ p ∷ [] }, rest)
    → drain_all parse_payload (record { next = k; out = out }) (framed following body rest)
      ≡ drain_all parse_payload (record { next = following; out = out ++ p ∷ [] }) rest
unfolding framed
framed_step following p body rest out k e reads =
    drain_all_step parse_payload-Advances _ _ _ rest (omega arith) tt (rw e reads)

chain_round :
    (ps : List Payload)
    → IsChain ps
    → (bs : List ℕ) × (last : ℕ → ℕ) × (marshal_payloads ps ≡ ok bs)
      × ((k : ℕ) (out : List Payload)
          → Starts k ps
          → drain_all parse_payload (record { next = k; out = out }) bs
            ≡ ok (record { next = last k; out = out ++ ps }))
unfolding marshal_payloads framed
chain_round [] h = (
  [],
  λ k. k,
  refl,
  λ k out e. unfold drain_all in ap (λ t. ok (record { next = k; out = t })) (sym (append-nil out)),
)
chain_round (p ∷ ps) (v, fits, announced, h) =
    let (body, z, wrote, zero_value, reads) = body_round p v in
    let (rest, last, wrote', reads') = chain_round ps h in
    let next = next_type p ps in
    (
      framed next body rest,
      λ _. last next,
      run-bind _ body _ wrote
          (run-fail_if_lt _ _ _ _ (fits body wrote) (run-bind _ rest _ wrote' refl)),
      λ k out e.
          framed_step next p body rest out k e
            (framed_read next body p z out rest (fits body wrote) zero_value (reads next announced))
          ∙ reads' next (out ++ p ∷ []) (next_type-Starts p ps)
          ∙ ap (λ t. ok (record { next = last next; out = t })) (append_assoc out (p ∷ []) ps),
    )

chain_written :
    (ps : List Payload)
    → IsChain ps
    → (bs : List ℕ) × (marshal_payloads ps ≡ ok bs)
      × (marshal_chain ps ≡ ok (first_type ps, bs))
      × (parse_chain (first_type ps) bs ≡ ok ps)
unfolding marshal_chain parse_chain
chain_written ps h =
    let (bs, last, wrote, reads) = chain_round ps h in
    (
      bs,
      wrote,
      run-bind _ bs _ wrote refl,
      run-bind _ _ _ (reads (first_type ps) [] (first_type-Starts ps)) refl,
    )

-- A chain of payloads that fit the wire format is written, and ParsePayloads reads it back, from the
-- bytes and from the type that Marshal returns for the first payload.
pub parse_payloads-marshal_chain :
    (ps : List Payload)
    → IsChain ps
    → (bs : List ℕ) × (marshal_chain ps ≡ ok (first_type ps, bs))
      × (parse_payloads (first_type ps) bs ≡ ok ps)
unfolding parse_payloads
parse_payloads-marshal_chain ps h =
    let (bs, wrote, wrote', reads) = chain_written ps h in (bs, wrote', reads)

-- The header's fields fit their Go types, the payloads fit, and so does the length of the whole.
pub record IsMessage (m : Message) : Type 0 where
  pub initiator_fits : IsU64 m.initiator_spi
  pub responder_fits : IsU64 m.responder_spi
  pub exchange_fits : IsByte m.exchange
  pub flags_fit : IsByte m.flags
  pub id_fits : IsU32 m.message_id
  pub chain_fits : IsChain m.payloads
  pub length_fits : (bs : List ℕ) → marshal_payloads m.payloads ≡ ok bs → IsU32 (28 + length bs)

module _ (m : Message) (first : ℕ) (body : List ℕ) where
  message_bytes : List ℕ
  message_bytes =
      put_uint64 m.initiator_spi
      ++ (put_uint64 m.responder_spi
          ++ first
            ∷ 0x20
            ∷ m.exchange
            ∷ m.flags
            ∷ (put_uint32 m.message_id ++ (put_uint32 (28 + length body) ++ body)))

  message_read :
      IsMessage m
      → IsU32 (28 + length body)
      → parse_chain first body ≡ ok m.payloads
      → parse message_bytes ≡ ok m
  unfolding message_bytes parse
  message_read v fits reads =
      let initiator_fits = v.initiator_fits in
      let responder_fits = v.responder_fits in
      let id_fits = v.id_fits in
      run-fail_if_lt _ _ _ _ (omega arith) (
        run-uint32_at _ _ (28 + length body) _ (omega arith) (omega arith) (
          run-fail_if_lt _ _ _ _ (omega arith) (
            run-fail_if _ _ _ (ground arith) (
              run-uint64_at _ _ m.initiator_spi _ (omega arith) (omega arith) (
                run-uint64_at _ _ m.responder_spi _ (omega arith) (omega arith) (
                  run-byte_at _ _ m.exchange _ (omega arith) refl (
                    run-byte_at _ _ m.flags _ (omega arith) refl (
                      run-uint32_at _ _ m.message_id _ (omega arith) (omega arith) (
                        run-byte_at _ _ first _ (omega arith) refl (
                          run-slice_from _ _ body _ (omega arith) refl
                            (run-bind _ m.payloads _ reads refl)))))))))))

-- A message that fits the wire format is written, and Parse reads the same message back from the bytes:
-- every header field and every payload, of each of the sixteen types, in order.
pub parse-marshal :
    (m : Message) → IsMessage m → (bs : List ℕ) × (marshal m ≡ ok bs) × (parse bs ≡ ok m)
unfolding marshal message_bytes
parse-marshal m v =
    let (body, wrote, wrote', reads) = chain_written m.payloads v.chain_fits in
    (
      message_bytes m (first_type m.payloads) body,
      run-bind _ _ _ wrote' refl,
      message_read m (first_type m.payloads) body v (v.length_fits body wrote) reads,
    )
