-- ===== src/Natt/Framing.antt =====
-- What the demultiplexer of port 4500 makes of the datagrams that the client's own code frames.
use native.Mathlib.Decide.{ℕ_discrete}
use go_ipsec.Common.{
  ℕ, ◌≤◌, ◌<◌, ◌≡◌, ◌≢◌, refl, ap, List, [], ◌∷◌, length, arith, ok, ◌>>=◌, word32, uint32_at,
}
use go_ipsec.Natt.{
  Kind, kind_ike, kind_esp, kind_keepalive, kind_unknown, wrap_ike, is_keepalive, classify,
}

-- What Classify promises of its answer: `kind` with the payload to process.
pub data IsClassified (datagram : List ℕ) : Kind × List ℕ → Type 0 where
  keepalive : datagram ≡ 0xFF ∷ [] → IsClassified datagram (kind_keepalive, [])
  ike : (message : List ℕ) → datagram ≡ wrap_ike message → IsClassified datagram (kind_ike, message)
  esp : 4 ≤ length datagram → word32 datagram 0 ≢ 0 → IsClassified datagram (kind_esp, datagram)
  unknown : length datagram < 4 → datagram ≢ 0xFF ∷ [] → IsClassified datagram (kind_unknown, [])

marker_bytes :
    (a b c d : ℕ) (rest : List ℕ)
    → word32 (a ∷ b ∷ c ∷ d ∷ rest) 0 ≡ 0
    → a ∷ b ∷ c ∷ d ∷ rest ≡ 0 ∷ 0 ∷ 0 ∷ 0 ∷ rest
marker_bytes a b c d rest e = ground arith

-- Every datagram has exactly the kind that Classify answers: the one-byte keepalive, an IKE message behind
-- the marker, which is stripped, an ESP packet with its first word not 0, or none of them.
pub classify-IsClassified :
    (datagram : List ℕ) → (r : Kind × List ℕ) × (classify datagram ≡ ok r) × IsClassified datagram r
unfolding classify is_keepalive uint32_at wrap_ike ◌>>=◌
classify-IsClassified [] = (_, refl, unknown (omega arith) (λ e. cc))
classify-IsClassified (a ∷ []) = elim (ℕ_discrete a 0xFF) [
  | yes e ↦ ((kind_keepalive, []), ground arith, keepalive (ap (λ t. t ∷ []) e))
  | no ne ↦ ((kind_unknown, []), ground arith, unknown (omega arith) (λ e. ne cc))
]
classify-IsClassified (a ∷ b ∷ []) = (_, refl, unknown (omega arith) (λ e. cc))
classify-IsClassified (a ∷ b ∷ c ∷ []) = (_, refl, unknown (omega arith) (λ e. cc))
classify-IsClassified (a ∷ b ∷ c ∷ d ∷ rest) =
    elim (ℕ_discrete (word32 (a ∷ b ∷ c ∷ d ∷ rest) 0) 0) [
      | yes e ↦ ((kind_ike, rest), ground arith, ike rest (marker_bytes a b c d rest e))
      | no ne ↦ ((kind_esp, a ∷ b ∷ c ∷ d ∷ rest), ground arith, esp (omega arith) ne)
    ]

-- A wrapped IKE message comes out of Classify as it went in, whatever its bytes.
pub classify-wrap_ike : (message : List ℕ) → classify (wrap_ike message) ≡ ok (kind_ike, message)
unfolding classify is_keepalive uint32_at wrap_ike ◌>>=◌
classify-wrap_ike message = ground arith
