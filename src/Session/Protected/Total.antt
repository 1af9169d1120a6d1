-- ===== src/Session/Protected/Total.antt =====
-- decodeIKE on any datagram whatever, and the SA that it answers from.
use go_ipsec.Common.{
  ℕ, ◌<◌, ◌≤◌, ◌≡◌, refl, ◌∙◌, true, false, List, some, none, Option-cases, arith, ltb, Bool-cases,
  inl, inr, Outcome, ok, err, Any, Returns, Ensures, yields, Ensures-bind, Ensures-cases,
  Returns-Ensures,
}
use go_ipsec.Crypto.{Primitives, Lawful}
use go_ipsec.Ikemsg.Message.{Message, Payload}
use go_ipsec.Ikemsg.Message.Total.{parse-Returns, parse_payloads-Returns}
use go_ipsec.Ikesa.Keys.{IkeSa}
use go_ipsec.Ikesa.Sk.Total.{IsKeyed, or_err-Ensures, map_err-Ensures, open_sk-Ensures}
use go_ipsec.Session.Protected.{
  Failure, decode_sk_with, IkeContext, IkeContexts, grace, fall_back, decode_ike,
}

returned : {E A : Type 0} (m : Outcome E A) → Returns m → Ensures Any m
returned m r = Returns-Ensures m r λ _ _. tt

module _ (p : Primitives) (laws : Lawful p) where
  decode_sk_with-Ensures :
      (s : IkeSa p.Aead) → IsKeyed s → (raw : List ℕ) → Ensures Any (decode_sk_with p s raw)
  unfolding decode_sk_with
  decode_sk_with-Ensures s keyed raw =
      Ensures-bind _ _ (map_err-Ensures _ _ (returned _ (parse-Returns raw))) λ m _.
        Ensures-bind {Q = Any} _ _ (or_err-Ensures _ _ λ _ _. tt) λ f _.
          Ensures-bind _ _ (map_err-Ensures _ _ (open_sk-Ensures p laws s keyed raw f.1))
            λ plaintext _.
              Ensures-bind _ _
                (map_err-Ensures _ _ (returned _ (parse_payloads-Returns f.0 plaintext)))
                λ inner _. yields tt

module _ (p : Primitives) (cs : IkeContexts p.Aead) (now : ℕ) (raw : List ℕ) where
  abbrev pub by_sa : IkeContext p.Aead → Outcome Failure (Message × List Payload)
  by_sa c = decode_sk_with p c.ike_sa raw

  -- Under which SA a datagram is decoded, or whose refusal is the answer.
  pub data Answers : Outcome Failure (Message × List Payload) × IkeContext p.Aead → Type 0 where
    by_current : {r : Message × List Payload} → by_sa cs.current ≡ ok r → Answers (ok r, cs.current)
    by_old :
        {f : Failure} {old : IkeContext p.Aead} {r : Message × List Payload}
        → by_sa cs.current ≡ err f
        → f.icv_ok ≡ false
        → cs.old_ike ≡ some old
        → now < cs.old_ike_until
        → by_sa old ≡ ok r
        → Answers (ok r, old)
    authentic :
        {f : Failure} → by_sa cs.current ≡ err f → f.icv_ok ≡ true → Answers (err f, cs.current)
    none_left :
        {f : Failure} → by_sa cs.current ≡ err f → cs.old_ike ≡ none → Answers (err f, cs.current)
    over :
        {f : Failure}
        → by_sa cs.current ≡ err f
        → cs.old_ike_until ≤ now
        → Answers (err f, cs.current)
    by_neither :
        {f g : Failure} {old : IkeContext p.Aead}
        → by_sa cs.current ≡ err f
        → cs.old_ike ≡ some old
        → by_sa old ≡ err g
        → Answers (err f, cs.current)

module _ (p : Primitives) (laws : Lawful p) (cs : IkeContexts p.Aead) (now : ℕ) (raw : List ℕ)
    (keyed : IsKeyed cs.current.ike_sa)
    (old_keyed : (old : IkeContext p.Aead) → cs.old_ike ≡ some old → IsKeyed old.ike_sa) where
  fall_back-Answers :
      (f : Failure)
      → by_sa p cs now raw cs.current ≡ err f
      → Answers p cs now raw (fall_back p (grace cs now f.icv_ok) cs.current f raw)
  unfolding fall_back grace
  fall_back-Answers f e = elim (Bool-cases f.icv_ok) [
    | inl checked ↦
        let shut : grace cs now f.icv_ok ≡ none = rw checked refl in rw shut (authentic e checked)
    | inr unchecked ↦ elim (Bool-cases (ltb now cs.old_ike_until)) [
      | inr late ↦
          let shut : grace cs now f.icv_ok ≡ none = rw (unchecked, late) refl in
          rw shut (over e (ground arith))
      | inl early ↦
          let same : grace cs now f.icv_ok ≡ cs.old_ike = rw (unchecked, early) refl in
          elim (Option-cases cs.old_ike) [
            | inl nothing ↦ rw (same ∙ nothing) (none_left e nothing)
            | inr (old, there) ↦
                elim (Ensures-cases
                  (decode_sk_with-Ensures p laws old.ike_sa (old_keyed old there) raw)) [
                    | inl (r, found) ↦
                        rw (same ∙ there, fall_back, found)
                          (by_old e unchecked there (ground arith) found)
                    | inr (g, failed) ↦
                        rw (same ∙ there, fall_back, failed) (by_neither e there failed)
                  ]
          ]
    ]
  ]

  -- On every datagram decodeIKE returns, where the SAs of AEAD suites have their ciphers. It answers from the
  -- current SA; from the superseded one only if the datagram is not authentic under the current SA, the
  -- grace period is not over, and the superseded SA decodes it; and else with the current SA's failure.
  pub decode_ike-Answers : Answers p cs now raw (decode_ike p cs now raw)
  unfolding decode_ike
  decode_ike-Answers =
      elim (Ensures-cases (decode_sk_with-Ensures p laws cs.current.ike_sa keyed raw)) [
        | inl (r, e) ↦ rw (decode_ike, e) (by_current e)
        | inr (f, e) ↦ rw (decode_ike, e) (fall_back-Answers f e)
      ]
