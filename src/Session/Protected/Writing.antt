-- ===== src/Session/Protected/Writing.antt =====
-- encodeSKWith returns, whatever the payloads, and leaves the SA with its ciphers; and where a decoded
-- datagram may come from.
use go_ipsec.Common.{
  ℕ, List, Option, Outcome, Any, inl, inr, length, Ensures, fails, Ensures-bind, Ensures-cases,
}
use go_ipsec.Crypto.{Primitives, Lawful}
use go_ipsec.Ikemsg.Message.{Payload}
use go_ipsec.Ikemsg.Message.Marshal.{marshal_chain-Ensures, marshal-Ensures}
use go_ipsec.Ikesa.Keys.{IkeError, IkeSa}
use go_ipsec.Ikesa.Sk.Total.{IsKeyed, map_err-Ensures}
use go_ipsec.Ikesa.Sk.Writing.{encrypt_to_sk-Ensures, finalize_sk-Ensures}
use go_ipsec.Session.Protected.{sk_message, encode_sk_with}

-- The outcome is no panic, and the SA keeps its ciphers.
abbrev pub Writes : {E A : Type 0} {Aead : Type 0} → Outcome E A × IkeSa Aead → Type 0
Writes (r, s) = Ensures Any r × IsKeyed s

module _ (p : Primitives) (laws : Lawful p) where
  pub sk_message-Ensures :
      (s : IkeSa p.Aead) (spii spir exchange flags msg_id first_type : ℕ)
      (sealed : Outcome IkeError (List ℕ))
      → IsKeyed s
      → Ensures Any sealed
      → Ensures Any (sk_message p s spii spir exchange flags msg_id first_type sealed)
  unfolding sk_message
  sk_message-Ensures s spii spir exchange flags msg_id first_type sealed keyed h =
      Ensures-bind _ _ (map_err-Ensures _ _ h) λ sk_data _.
        Ensures-bind _ _ (map_err-Ensures _ _ (marshal-Ensures _))
          λ raw _. map_err-Ensures _ _ (finalize_sk-Ensures p laws s keyed raw (length sk_data))

  pub encode_sk_with-Writes :
      (s : IkeSa p.Aead) (spii spir exchange flags msg_id : ℕ) (inner : List Payload)
      (random : Option (List ℕ))
      → IsKeyed s
      → Writes (encode_sk_with p s spii spir exchange flags msg_id inner random)
  unfolding encode_sk_with
  encode_sk_with-Writes s spii spir exchange flags msg_id inner random keyed =
      elim (Ensures-cases (marshal_chain-Ensures inner)) [
        | inl (r, e) ↦
            let (sealed, kept) = encrypt_to_sk-Ensures p laws s r.1 random keyed in
            rw (encode_sk_with, e) (sk_message-Ensures _ _ _ _ _ _ _ _ kept sealed, kept)
        | inr (x, e) ↦ rw (encode_sk_with, e) (fails, keyed)
      ]
