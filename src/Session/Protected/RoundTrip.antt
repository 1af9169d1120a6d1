-- ===== src/Session/Protected/RoundTrip.antt =====
-- A protected message of one end through the decoder of the other.
use go_ipsec.Common.{
  ℕ, suc, ◌+◌, ◌-◌, ◌≤◌, ◌≡◌, refl, sym, ap, ◌∙◌, false, Option, some, List, [], ◌∷◌, ◌++◌,
  append-nil, length, length-append, arith, Outcome, ok, ◌>>=◌, or_err, map_err, fail_if, IsByte,
  IsU32, IsU64, put_uint16, put_uint32, put_uint64, ltb, ltb-of_le, Bool-cases, inl, inr, run-bind,
  ok-eq,
}
use go_ipsec.Crypto.{Primitives, Lawful}
use go_ipsec.Ikemsg.Message.{
  Payload, encrypted, Message, payload_type, marshal_body, next_type, marshal_payloads, first_type,
  marshal_chain, marshal, parse_payloads, parse,
}
use go_ipsec.Ikemsg.Message.RoundTrip.{
  IsChain, IsMessage, parse_payloads-marshal_chain, parse-marshal,
}
use go_ipsec.Ikesa.Keys.{IkeError, IkeSa, is_aead, outbound_integ_key, outbound_encr_key}
use go_ipsec.Ikesa.Keys.Peers.{AreSkPeers}
use go_ipsec.Ikesa.Sk.{encrypt_to_sk, finalize_sk, open_sk}
use go_ipsec.Ikesa.Sk.Padding.{HasCipher}
use go_ipsec.Ikesa.Sk.RoundTrip.{protects}
use go_ipsec.Session.Protected.{
  codec, ike, find_encrypted, sk_message, encode_sk_with, decode_sk_with,
}

-- The header fields of a message, within their Go types.
abbrev pub AreHeaderFields : ℕ → ℕ → ℕ → ℕ → ℕ → Type 0
AreHeaderFields spii spir exchange flags msg_id =
    IsU64 spii × IsU64 spir × IsByte exchange × IsByte flags × IsU32 msg_id

module _ (spii spir exchange flags msg_id first : ℕ) where
  -- The message around the data of an SK payload.
  abbrev pub around : List ℕ → Message
  around sk_data = record {
    initiator_spi = spii;
    responder_spi = spir;
    exchange = exchange;
    flags = flags;
    message_id = msg_id;
    payloads = encrypted first sk_data ∷ [];
  }

  -- The bytes in front of `n` bytes of SK data.
  front : ℕ → List ℕ
  front n =
      put_uint64 spii
      ++ (put_uint64 spir
          ++ 46
            ∷ 0x20
            ∷ exchange
            ∷ flags
            ∷ (put_uint32 msg_id
                ++ (put_uint32 (28 + suc (suc (suc (suc n)))) ++ first ∷ 0 ∷ put_uint16 (4 + n))))

  length-front : (n : ℕ) → length (front n) ≡ 32
  unfolding front
  length-front n = refl

  marshal-around :
      (sk_data : List ℕ)
      → length sk_data ≤ 0xffff - 4
      → marshal (around sk_data) ≡ ok (front (length sk_data) ++ sk_data)
  unfolding marshal marshal_chain marshal_payloads marshal_body next_type first_type payload_type
      front fail_if ◌>>=◌
  marshal-around sk_data fits = rw (ltb-of_le 65531 (length sk_data) fits, append-nil sk_data) refl

  wire :
      (sk_data bs : List ℕ)
      → ltb 65531 (length sk_data) ≡ false
      → marshal_payloads (encrypted first sk_data ∷ []) ≡ ok bs
      → IsU32 (28 + length bs)
  unfolding marshal_payloads marshal_body next_type ◌>>=◌ fail_if
  wire sk_data bs fits e =
      let e' : ok (first ∷ 0 ∷ (put_uint16 (4 + length sk_data) ++ (sk_data ++ []))) ≡ ok bs =
        rw fits at e in
      let short : length sk_data ≤ 65531 = ground arith in
      omega (arith, short, ap length (ok-eq e'), length-append sk_data [])

  IsMessage-around :
      AreHeaderFields spii spir exchange flags msg_id
      → IsByte first
      → (sk_data : List ℕ) → length sk_data ≤ 0xffff - 4
      → IsMessage (around sk_data)
  unfolding marshal_payloads marshal_body next_type ◌>>=◌ fail_if
  IsMessage-around (h1, h2, h3, h4, h5) fb sk_data fits = record {
    initiator_fits = h1;
    responder_fits = h2;
    exchange_fits = h3;
    flags_fit = h4;
    id_fits = h5;
    chain_fits = (fb, (λ bs e. omega (arith, fits, ap length (ok-eq e))), refl, tt);
    length_fits = λ bs e. wire sk_data bs (ltb-of_le 65531 (length sk_data) fits) e;
  }

  parse-around :
      AreHeaderFields spii spir exchange flags msg_id
      → IsByte first
      → (sk_data : List ℕ) → length sk_data ≤ 0xffff - 4
      → parse (front (length sk_data) ++ sk_data) ≡ ok (around sk_data)
  parse-around fields fb sk_data fits =
      let (bs, wrote, reads) =
        parse-marshal (around sk_data) (IsMessage-around fields fb sk_data fits) in
      let same : bs ≡ front (length sk_data) ++ sk_data =
        ok-eq (sym wrote ∙ marshal-around sk_data fits) in
      ap parse (sym same) ∙ reads

-- The first payload's type fits a byte, of every payload there is.
payload_type-IsByte : (p : Payload) → IsByte (payload_type p)
unfolding payload_type
payload_type-IsByte p = ground arith

first_type-IsByte : (ps : List Payload) → IsByte (first_type ps)
unfolding first_type
first_type-IsByte [] = omega arith
first_type-IsByte (p ∷ ps) = payload_type-IsByte p

-- The plaintext leaves room for the IV, the padding and the checksum in the 16-bit length of the payload.
abbrev pub LeavesRoom : List Payload → Type 0
LeavesRoom inner = (c : ℕ × List ℕ) → marshal_chain inner ≡ ok c → length c.1 ≤ 0xffff - 52

-- Sending moves nothing but the counter.
encrypt_to_sk-AreSkPeers :
    (p : Primitives) (a b : IkeSa p.Aead) (plain : List ℕ) (random : Option (List ℕ))
    → AreSkPeers a b
    → AreSkPeers (encrypt_to_sk p a plain random).1 b
unfolding encrypt_to_sk outbound_integ_key outbound_encr_key
encrypt_to_sk-AreSkPeers p a b plain random peers = elim (Bool-cases (is_aead a.suite)) [
  | inl aead ↦ rw aead (record {
    suite_agrees = peers.suite_agrees;
    integ_agrees = peers.integ_agrees;
    encr_agrees = peers.encr_agrees;
    aead_agrees = peers.aead_agrees;
  })
  | inr cbc ↦ rw cbc peers
]

module _ (p : Primitives) (spii spir exchange flags msg_id : ℕ) where
  encode_run :
      (a : IkeSa p.Aead) (inner : List Payload) (first : ℕ) (plain : List ℕ)
      (random : Option (List ℕ))
      → marshal_chain inner ≡ ok (first, plain)
      → let sent = encrypt_to_sk p a plain random in
        encode_sk_with p a spii spir exchange flags msg_id inner random
        ≡ (sk_message p sent.1 spii spir exchange flags msg_id first sent.0, sent.1)
  unfolding encode_sk_with
  encode_run a inner first plain random wrote = rw (encode_sk_with, wrote) refl

  sk_message_run :
      (s : IkeSa p.Aead) (first : ℕ) (sealed : Outcome IkeError (List ℕ)) (body raw : List ℕ)
      → sealed ≡ ok body
      → length body ≤ 0xffff - 4
      → finalize_sk p s
          (front spii spir exchange flags msg_id first (length body) ++ body)
          (length body)
        ≡ ok raw
      → sk_message p s spii spir exchange flags msg_id first sealed ≡ ok raw
  unfolding sk_message map_err
  sk_message_run s first sealed body raw made fits finalized = rw made (
      run-bind _ body _ refl (
        run-bind _ _ _
          (ap (map_err codec) (marshal-around spii spir exchange flags msg_id first body fits))
          (ap (map_err ike) finalized)))

  decode_run :
      (b : IkeSa p.Aead) (first : ℕ) (inner : List Payload) (sk_data plain : List ℕ)
      → AreHeaderFields spii spir exchange flags msg_id
      → IsByte first
      → length sk_data ≤ 0xffff - 4
      → let raw = front spii spir exchange flags msg_id first (length sk_data) ++ sk_data in
        open_sk p b raw sk_data ≡ ok plain
        → parse_payloads first plain ≡ ok inner
        → decode_sk_with p b raw ≡ ok (around spii spir exchange flags msg_id first sk_data, inner)
  unfolding decode_sk_with map_err find_encrypted or_err
  decode_run b first inner sk_data plain fields fb fits opened reads =
      run-bind _ (around spii spir exchange flags msg_id first sk_data) _
        (ap (map_err _) (parse-around spii spir exchange flags msg_id first fields fb sk_data fits))
        (run-bind _ (first, sk_data) _ refl
          (run-bind _ plain _ (ap (map_err _) opened)
            (run-bind _ inner _ (ap (map_err _) reads) refl)))

module _ (p : Primitives) (laws : Lawful p) where
  -- Payloads that fit the wire format go from one end of an IKE SA to the other: encodeSKWith writes a
  -- datagram, and the peer's decodeSKWith checks it, and reads the header's fields and the same payloads
  -- in the same order. The sender stays the receiver's peer. The cryptography keeps its laws, the sender
  -- has its cipher, and the plaintext leaves room in the 16-bit length of the payload.
  pub decode_sk_with-encode_sk_with :
      (a b : IkeSa p.Aead) (spii spir exchange flags msg_id : ℕ) (inner : List Payload)
      (iv : List ℕ)
      → AreSkPeers a b
      → HasCipher p a
      → AreHeaderFields spii spir exchange flags msg_id
      → IsChain inner
      → LeavesRoom inner
      → length iv ≡ 16
      → let sent = encode_sk_with p a spii spir exchange flags msg_id inner (some iv) in
        AreSkPeers sent.1 b
        × (raw : List ℕ) × (sk_data : List ℕ) × (sent.0 ≡ ok raw)
        × (decode_sk_with p b raw
            ≡ ok (around spii spir exchange flags msg_id (first_type inner) sk_data, inner))
  decode_sk_with-encode_sk_with a b spii spir exchange flags msg_id inner iv peers cipher fields
        chain room iv_len =
      let (plain, wrote, reads) = parse_payloads-marshal_chain inner chain in
      let (body, sealed, short, opens) = protects p laws a b peers cipher plain iv iv_len in
      let first = first_type inner in
      let fits : length body ≤ 0xffff - 4 = omega (arith, short, room _ wrote) in
      let head = front spii spir exchange flags msg_id first (length body) in
      let (final, same_length, finalized, opened) =
        opens head (length-front spii spir exchange flags msg_id first (length body)) in
      let received =
        decode_run p spii spir exchange flags msg_id b first inner final plain fields
          (first_type-IsByte inner) (omega (arith, fits, same_length)) in
      rw (encode_run p spii spir exchange flags msg_id a inner first plain (some iv) wrote) (
        encrypt_to_sk-AreSkPeers p a b plain (some iv) peers,
        head ++ final,
        final,
        sk_message_run p spii spir exchange flags msg_id _ first _ body _ sealed fits finalized,
        rw same_length at received opened reads,
      )
