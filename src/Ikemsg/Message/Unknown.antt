-- ===== src/Ikemsg/Message/Unknown.antt =====
-- Payload types that the codec does not know, and the critical bit.
use mathlib.Core.Path.{subst}
use go_ipsec.Common.{
  ℕ, zero, suc, ◌+◌, ◌-◌, ◌≤◌, ◌≡◌, refl, sym, ◌∙◌, ap, Bool, true, false, not, Bool-cases, inl,
  inr, Option, none, some, List, [], ◌∷◌, ◌++◌, length, length-append, append-nil, append_assoc,
  arith, Outcome, ok, err, panic, stuck, ok-eq, ◌>>=◌, bit_and, ◌==◌, if◌then◌else◌, put_uint16,
  drop-append, drain, drain_all, drain_all_step, drain_all_err, fail_if-true, run-failed,
  run-fail_if, run-fail_if_lt, run-byte_at, run-uint16_at, run-slice_from,
}
use go_ipsec.Ikemsg.Const.{CodecError, unknown_critical_payload}
use go_ipsec.Ikemsg.Message.{
  Payload, Chain, payload_type, marshal_body, unmarshal_body, set_inner_first, new_payload,
  parse_known, parse_payload, parse_chain,
}
use go_ipsec.Ikemsg.Message.Total.{parse_payload-Advances}
use go_ipsec.Ikemsg.Message.RoundTrip.{framed, framed_read, framed_step}
use go_ipsec.Ikemsg.Message.RoundTrip.Bodies.{IsPayload, Announces, body_round}

module _ (t following flags : ℕ) (body rest : List ℕ) (out : List Payload) where
  unknown_bytes : List ℕ
  unknown_bytes = following ∷ flags ∷ (put_uint16 (4 + length body) ++ (body ++ rest))

  -- The round comes to the branch for unknown types.
  at_unknown :
      new_payload t ≡ none
      → length body ≤ 0xffff - 4
      → parse_payload (record { next = t; out = out }) unknown_bytes
        ≡ parse_known none
            (not (bit_and flags 0x80 == 0))
            following
            (4 + length body)
            out
            unknown_bytes
  unfolding parse_payload unknown_bytes
  at_unknown unknown fits =
      let all = length-append body rest in
      run-fail_if_lt _ _ _ _ (omega arith) (
        run-byte_at _ _ following _ (omega arith) refl (
          run-byte_at _ _ flags _ (omega arith) refl (
            run-uint16_at _ _ (4 + length body) _ (omega arith) (omega arith) (
              run-fail_if_lt _ _ _ _ (omega arith)
                (run-fail_if_lt _ _ _ _ (omega (arith, all)) (rw unknown))))))

  skipped :
      (bit_and flags 0x80 == 0) ≡ true
      → parse_known none
          (not (bit_and flags 0x80 == 0))
          following
          (4 + length body)
          out
          unknown_bytes
        ≡ ok (record { next = following; out = out }, rest)
  unfolding parse_known unknown_bytes
  skipped clear = run-fail_if _ _ _ (ap not clear) (
      run-slice_from _ _ rest _ (omega (arith, length-append body rest))
        (drop-append _ (following ∷ flags ∷ (put_uint16 (4 + length body) ++ body)) rest
          (omega arith))
        refl)

  refused :
      (bit_and flags 0x80 == 0) ≡ false
      → parse_known none
          (not (bit_and flags 0x80 == 0))
          following
          (4 + length body)
          out
          unknown_bytes
        ≡ err unknown_critical_payload
  unfolding parse_known
  refused set = run-failed _ unknown_critical_payload _ (fail_if-true _ _ (ap not set)) refl

-- The type that the chain has for the first of the payloads `ps`, in front of one of the type `t`.
abbrev pub type_before : ℕ → List Payload → ℕ
type_before t [] = t
type_before t (p ∷ ps) = payload_type p

-- The bytes of the payloads `ps`, each behind a generic header that names the type of the next one; behind
-- them, the bytes `tail` of a payload of the type `t`.
pub data Linked (t : ℕ) (tail : List ℕ) : List Payload → List ℕ → Type 0 where
  behind : Linked t tail [] tail
  link :
      {ps : List Payload} {bytes : List ℕ} (p : Payload) (body : List ℕ)
      → IsPayload p
      → marshal_body p ≡ ok body
      → length body ≤ 0xffff - 4
      → Announces (type_before t ps) p
      → Linked t tail ps bytes
      → Linked t tail
          (p ∷ ps)
          (type_before t ps ∷ 0 ∷ (put_uint16 (4 + length body) ++ (body ++ bytes)))

-- The payloads in front are read.
front_read :
    (t : ℕ) (tail : List ℕ) {ps : List Payload} {bytes : List ℕ} (out : List Payload)
    → Linked t tail ps bytes
    → drain_all parse_payload (record { next = type_before t ps; out = out }) bytes
      ≡ drain_all parse_payload (record { next = t; out = out ++ ps }) tail
unfolding framed
front_read t tail out behind =
    ap (λ x. drain_all parse_payload (record { next = t; out = x }) tail) (sym (append-nil out))
front_read t tail out (link {ps = ps} {bytes = bytes} p body fits wrote short announced rest) =
    let (bs, z, wrote', zero_value, reads) = body_round p fits in
    let same : bs ≡ body = ok-eq (sym wrote' ∙ wrote) in
    let following = type_before t ps in
    framed_step following p body bytes out (payload_type p) refl (
      framed_read following body p z out bytes short zero_value (
        subst (λ x. unmarshal_body (set_inner_first following z) x ≡ ok p) same
          (reads following announced)))
    ∙ front_read t tail (out ++ p ∷ []) rest
    ∙ ap (λ x. drain_all parse_payload (record { next = t; out = x }) tail)
        (append_assoc out (p ∷ []) ps)

-- A step commutes with what is done to its value.
bind_through :
    {E A B C : Type 0} (m : Outcome E A) (f' : A → Outcome E C) (f : A → Outcome E B)
    (g : B → Outcome E C)
    → ((a : A) → f' a ≡ (f a >>= g))
    → (m >>= f') ≡ ((m >>= f) >>= g)
unfolding ◌>>=◌
bind_through (ok a) f' f g h = h a
bind_through (err e) f' f g h = refl
bind_through panic f' f g h = refl
bind_through stuck f' f g h = refl

ok_through : {E B C : Type 0} (b : B) (g : B → Outcome E C) → g b ≡ (ok b >>= g)
unfolding ◌>>=◌
ok_through b g = refl

bind_after :
    {E A B C D : Type 0} (m : Outcome E A) (g : A → Outcome E B) (f' : B → Outcome E D)
    (f : A → Outcome E C) (h : C → Outcome E D)
    → ((a : A) → (g a >>= f') ≡ (f a >>= h))
    → ((m >>= g) >>= f') ≡ ((m >>= f) >>= h)
unfolding ◌>>=◌
bind_after (ok a) g f' f h e = e a
bind_after (err x) g f' f h e = refl
bind_after panic g f' f h e = refl
bind_after stuck g f' f h e = refl

one_round :
    (fuel : ℕ) (s : Chain) (b : ℕ) (bs : List ℕ)
    → drain parse_payload (suc fuel) s (b ∷ bs)
      ≡ (parse_payload s (b ∷ bs) >>= λ r. drain parse_payload fuel r.0 r.1)
unfolding drain
one_round fuel s b bs = refl

-- The payloads so far are only kept: they stand in front of what a run without them collects.
module _ (front : List Payload) where
  abbrev put_front : Chain → Chain
  put_front s = record { next = s.next; out = front ++ s.out }

  abbrev put_round : Chain × List ℕ → Outcome CodecError (Chain × List ℕ)
  put_round r = ok (put_front r.0, r.1)

  parse_known-front :
      (o : Option Payload) (critical : Bool) (following plen : ℕ) (out : List Payload)
      (body : List ℕ)
      → parse_known o critical following plen (front ++ out) body
        ≡ (parse_known o critical following plen out body >>= put_round)
  unfolding parse_known
  parse_known-front none critical following plen out body =
      bind_through _ _ _ _ λ _. bind_through _ _ _ _ λ rest. ok_through _ _
  parse_known-front (some p) critical following plen out body = bind_through _ _ _ _ λ bytes.
      bind_through _ _ _ _ λ p'. bind_through _ _ _ _ λ rest.
        ap (λ x. ok (record { next = following; out = x }, rest)) (append_assoc front out (p' ∷ []))
        ∙ ok_through _ _

  parse_payload_front :
      (s : Chain) (body : List ℕ)
      → parse_payload (put_front s) body ≡ (parse_payload s body >>= put_round)
  unfolding parse_payload
  parse_payload_front s body = bind_through _ _ _ _ λ _. bind_through _ _ _ _ λ following.
      bind_through _ _ _ _ λ flags. bind_through _ _ _ _ λ plen. bind_through _ _ _ _ λ _.
        bind_through _ _ _ _ λ _.
          parse_known-front (new_payload s.next) (not (bit_and flags 0x80 == 0)) following plen
            s.out body

  drain_front :
      (fuel : ℕ) (s : Chain) (body : List ℕ)
      → drain parse_payload fuel (put_front s) body
        ≡ (drain parse_payload fuel s body >>= λ s'. ok (put_front s'))
  drain_front fuel s [] = unfold drain in ok_through s (λ s'. ok (put_front s'))
  drain_front zero s (b ∷ bs) = unfold drain in unfold ◌>>=◌ in refl
  drain_front (suc fuel) s (b ∷ bs) =
      one_round fuel (put_front s) b bs
      ∙ (ap (λ m. m >>= λ r. drain parse_payload fuel r.0 r.1) (parse_payload_front s (b ∷ bs))
          ∙ (bind_after (parse_payload s (b ∷ bs)) _ _ (λ r. drain parse_payload fuel r.0 r.1) _
                (λ r. sym (ok_through _ _) ∙ drain_front fuel r.0 r.1)
              ∙ ap (λ m. m >>= λ s'. ok (put_front s')) (sym (one_round fuel s b bs))))

  -- What is parsed behind the front.
  parse_behind :
      (t : ℕ) (body : List ℕ)
      → (drain_all parse_payload (record { next = t; out = front }) body >>= λ s. ok s.out)
        ≡ (parse_chain t body >>= λ qs. ok (front ++ qs))
  unfolding parse_chain drain_all
  parse_behind t body =
      let s : Chain = record { next = t; out = [] } in
      ap
        (λ x.
          drain parse_payload (length body) (record { next = t; out = x }) body >>= λ s. ok s.out)
        (sym (append-nil front))
      ∙ (ap (λ m. m >>= λ s. ok s.out) (drain_front (length body) s body)
          ∙ bind_after (drain parse_payload (length body) s body) _ _ _ _
              (λ s'. sym (ok_through _ _) ∙ ok_through _ _))

-- A payload of a type that the codec does not know, with a body of at most 0xffff - 4 bytes, behind any
-- payloads that fit the wire format, is skipped when its critical bit is clear: the payloads in front and those
-- that the rest holds are what the chain parses to, in order, as if the payload were not there. With the
-- critical bit set the whole chain is refused.
pub parse_chain_unknown :
    (ps : List Payload) (t following flags : ℕ) (body rest bytes : List ℕ)
    → new_payload t ≡ none
    → length body ≤ 0xffff - 4
    → Linked t (following ∷ flags ∷ (put_uint16 (4 + length body) ++ (body ++ rest))) ps bytes
    → parse_chain (type_before t ps) bytes ≡ (
        if bit_and flags 0x80 == 0
        then (parse_chain following rest >>= λ qs. ok (ps ++ qs))
        else err unknown_critical_payload)
unfolding parse_chain unknown_bytes
parse_chain_unknown ps t following flags body rest bytes unknown fits linked =
    let read = front_read t (unknown_bytes t following flags body rest ps) [] linked in
    elim (Bool-cases (bit_and flags 0x80 == 0)) [
      | inl clear ↦ rw clear (
          ap (λ m. m >>= λ s. ok s.out)
            (read
              ∙ drain_all_step parse_payload-Advances _ _ _ rest (omega arith) tt (
                  at_unknown t following flags body rest ps unknown fits
                  ∙ skipped t following flags body rest ps clear))
          ∙ parse_behind ps following rest)
      | inr set ↦ rw set (
          run-failed _ unknown_critical_payload _
            (read
              ∙ drain_all_err parse_payload _ _ _ (omega arith) (
                  at_unknown t following flags body rest ps unknown fits
                  ∙ refused t following flags body rest ps set))
            refl)
    ]
