-- ===== src/Eap/Mschap/Verified.antt =====
-- What it takes for the server's response to count as checked.
use mathlib.Core.List.{Memᴰ}
use mathlib.Core.List.Memᴰ.{head, tail}
use go_ipsec.Common.{
  ℕ, ◌<◌, ◌≡◌, refl, Bool, true, false, not, ◌||◌, Option, none, some, List, ◌∷◌, length, take,
  drop, get_or, ◌+◌, ◌≤◌, ltb, sym, ap, ◌∙◌, ok-eq, byte_at-lt, slice-le, arith, ◌==◌, Outcome, ok,
  err, panic, stuck, bind_values, fail_if-eq-ok,
}
use go_ipsec.Crypto.{bytes_equal-eq}
use go_ipsec.Eap.{EapPacket}
use go_ipsec.Eap.Mschap.{
  Hashes, MschapError, Mschapv2, new_mschapv2, read_challenge, with_auth_response, with_utf16,
  with_nt_response, compute_hashes, answer_challenge, take_challenge, handle_challenge,
  type_mschapv2, op_success, auth_challenge_len, message_body, check_success, accept_success,
  handle_success, verified,
}
use go_ipsec.Eap.Mschap.Conversation.{
  Handled, challenge_handled, success_handled, IsReached, start, challenged, succeeded, IsExpected,
  HasProved, now, before,
}

or_not_right : (a b : Bool) → a || not b ≡ false → b ≡ true
or_not_right true b h = cc
or_not_right false true h = refl
or_not_right false false h = cc

-- An accepted Success.
record Accepted (m : Mschapv2) (req : EapPacket) : Type 0 where
  of_method : req.type ≡ 26
  opcode : get_or req.bytes 0 0 ≡ 3
  some_bytes : 0 < length m.auth_response
  begins : take (length m.auth_response) (message_body req.bytes) ≡ m.auth_response

check_success-Accepted :
    (m : Mschapv2) (req : EapPacket) → check_success m req ≡ ok tt → Accepted m req
unfolding check_success
check_success-Accepted m req h = bind_values h (λ _ method h1. bind_values h1 (λ _ long h2.
    bind_values h2 (λ op read h3. bind_values h3 (λ _ _ h4. bind_values h4 (λ _ is_success h5.
      bind_values h5 (λ _ some_resp h6.
        let present = fail_if-eq-ok (length m.auth_response == 0) _ some_resp in
        let same = fail_if-eq-ok _ _ h6 in
        let typed = fail_if-eq-ok (not (req.type == type_mschapv2)) _ method in
        let not_empty = fail_if-eq-ok (ltb (length req.bytes) 1) _ long in
        let coded = fail_if-eq-ok (not (op == op_success)) _ is_success in
        let first : get_or req.bytes 0 0 ≡ op =
          ok-eq (sym (byte_at-lt req.bytes 0 (ground (arith, not_empty))) ∙ read) in
        record {
          of_method = ground (arith, typed);
          opcode = first ∙ ground (arith, coded);
          some_bytes = ground (arith, present);
          begins = bytes_equal-eq _ _ (or_not_right _ _ same);
        }))))))

-- The challenge of a request that was read.
read_challenge-value :
    (req : EapPacket) (ms_chap_id : ℕ) (value : List ℕ)
    → read_challenge req ≡ ok (ms_chap_id, value)
    → take 16 (drop 5 req.bytes) ≡ value
unfolding read_challenge
read_challenge-value req ms_chap_id value h = bind_values h (λ _ _ h1. bind_values h1 (λ _ _ h2.
    bind_values h2 (λ op _ h3. bind_values h3 (λ _ _ h4. bind_values h4 (λ id _ h5.
      bind_values h5 (λ size _ h6. bind_values h6 (λ _ enough h7. bind_values h7 (λ v cut h8.
        let fits =
          fail_if-eq-ok
            (not (size == auth_challenge_len) || ltb (length req.bytes) (5 + auth_challenge_len)) _
            enough in
        let long : 21 ≤ length req.bytes = ground (arith, fits) in
        ok-eq (sym (slice-le req.bytes 5 21 (omega arith) long) ∙ cut)
        ∙ ap (λ r. r.1) (ok-eq h8)))))))))

module _ (h : Hashes) (username password : List ℕ) where
  -- What holds of every reached state.
  record IsSound (es : List Handled) (m : Mschapv2) : Type 0 where
    same_user : m.username ≡ username
    same_password : m.password ≡ password
    expects : 0 < length m.auth_response → IsExpected h username password es m.auth_response
    proved : m.auth_checked ≡ true → HasProved h username password es

  module _ {es : List Handled} where
    with_auth_response-IsSound :
        (m : Mschapv2) (o : Option (List ℕ))
        → IsSound es m
        → ((resp : List ℕ) → o ≡ some resp → IsExpected h username password es resp)
        → IsSound es (with_auth_response h m o).1
    unfolding with_auth_response
    with_auth_response-IsSound m none s f = s
    with_auth_response-IsSound m (some resp) s f = record {
      same_user = s.same_user;
      same_password = s.same_password;
      expects = λ _. f resp refl;
      proved = s.proved;
    }

    with_utf16-IsSound :
        (m : Mschapv2) (o : Option (List ℕ))
        → IsSound es m
        → ((resp : List ℕ)
            → h.generate_authenticator_response m.auth_challenge m.peer_challenge m.nt_response
                m.username m.password
              ≡ some resp
            → IsExpected h username password es resp)
        → IsSound es (with_utf16 h m o).1
    unfolding with_utf16
    with_utf16-IsSound m none s f = s
    with_utf16-IsSound m (some ucs2) s f =
        with_auth_response-IsSound _ _
          (record {
            same_user = s.same_user;
            same_password = s.same_password;
            expects = s.expects;
            proved = s.proved;
          })
          f

    with_nt_response-IsSound :
        (m : Mschapv2) (o : Option (List ℕ))
        → IsSound es m
        → (req : EapPacket) → Memᴰ (challenge_handled req (some m.peer_challenge)) es
        → take 16 (drop 5 req.bytes) ≡ m.auth_challenge
        → h.generate_nt_response m.auth_challenge m.peer_challenge m.username m.password ≡ o
        → IsSound es (with_nt_response h m o).1
    unfolding with_nt_response
    with_nt_response-IsSound m none s req drawn given made = s
    with_nt_response-IsSound m (some nt) s req drawn given made =
        let user = s.same_user in
        let secret = s.same_password in
        with_utf16-IsSound _ _
          (record {
            same_user = user;
            same_password = secret;
            expects = s.expects;
            proved = s.proved;
          })
          (λ resp e. record {
            request = req;
            auth_challenge = m.auth_challenge;
            peer_challenge = m.peer_challenge;
            nt_response = nt;
            handled = drawn;
            from_server = given;
            own_response = cc;
            from_password = cc;
          })

  module _ {es : List Handled} where
    later_request :
        {resp : List ℕ} (e : Handled)
        → IsExpected h username password es resp
        → IsExpected h username password (e ∷ es) resp
    later_request e x = record {
      request = x.request;
      auth_challenge = x.auth_challenge;
      peer_challenge = x.peer_challenge;
      nt_response = x.nt_response;
      handled = tail x.handled;
      from_server = x.from_server;
      own_response = x.own_response;
      from_password = x.from_password;
    }

    IsSound-later : (m : Mschapv2) (e : Handled) → IsSound es m → IsSound (e ∷ es) m
    IsSound-later m e s = record {
      same_user = s.same_user;
      same_password = s.same_password;
      expects = λ some_resp. later_request e (s.expects some_resp);
      proved = λ checked. before e (s.proved checked);
    }

    compute_hashes-IsSound :
        (m : Mschapv2) (req : EapPacket) (random : Option (List ℕ))
        → IsSound es m
        → take 16 (drop 5 req.bytes) ≡ m.auth_challenge
        → IsSound (challenge_handled req random ∷ es) (compute_hashes h m random).1
    unfolding compute_hashes
    compute_hashes-IsSound m req none s given = IsSound-later m _ s
    compute_hashes-IsSound m req (some peer) s given =
        let l = IsSound-later m (challenge_handled req (some peer)) s in
        with_nt_response-IsSound _ _
          (record {
            same_user = l.same_user;
            same_password = l.same_password;
            expects = l.expects;
            proved = l.proved;
          })
          req (head refl) given refl

    take_challenge-IsSound :
        (m : Mschapv2) (req : EapPacket) (random : Option (List ℕ))
        (o : Outcome MschapError (ℕ × List ℕ))
        → read_challenge req ≡ o
        → IsSound es m
        → IsSound (challenge_handled req random ∷ es) (take_challenge h m req random o).1
    unfolding take_challenge answer_challenge
    take_challenge-IsSound m req random (ok (ms_chap_id, value)) e s =
        compute_hashes-IsSound _ req random
          (record {
            same_user = s.same_user;
            same_password = s.same_password;
            expects = s.expects;
            proved = s.proved;
          })
          (read_challenge-value req ms_chap_id value e)
    take_challenge-IsSound m req random (err x) e s = IsSound-later m _ s
    take_challenge-IsSound m req random panic e s = IsSound-later m _ s
    take_challenge-IsSound m req random stuck e s = IsSound-later m _ s

    accept_success-IsSound :
        (m : Mschapv2) (req : EapPacket) (o : Outcome MschapError (Unit {0}))
        → check_success m req ≡ o
        → IsSound es m
        → IsSound (success_handled req ∷ es) (accept_success m req o).1
    unfolding accept_success
    accept_success-IsSound m req (ok _) e s =
        let a = check_success-Accepted m req e in
        let l = IsSound-later m (success_handled req) s in
        record {
          same_user = s.same_user;
          same_password = s.same_password;
          expects = l.expects;
          proved = λ _. now (record {
            resp = m.auth_response;
            expected = s.expects a.some_bytes;
            of_method = a.of_method;
            opcode = a.opcode;
            some_bytes = a.some_bytes;
            begins = a.begins;
          });
        }
    accept_success-IsSound m req (err e) h s = IsSound-later m _ s
    accept_success-IsSound m req panic h s = IsSound-later m _ s
    accept_success-IsSound m req stuck h s = IsSound-later m _ s

  IsReached-IsSound :
      {es : List Handled} {m : Mschapv2} → IsReached h username password es m → IsSound es m
  unfolding new_mschapv2 handle_challenge handle_success
  IsReached-IsSound start = record {
    same_user = refl;
    same_password = refl;
    expects = λ h. absurd (omega (arith, h));
    proved = λ e. cc;
  }
  IsReached-IsSound (challenged {m = m} r req random) =
      take_challenge-IsSound m req random (read_challenge req) refl (IsReached-IsSound r)
  IsReached-IsSound (succeeded {m = m} r req) =
      accept_success-IsSound m req (check_success m req) refl (IsReached-IsSound r)

  -- In a conversation that HandleChallenge and HandleSuccess made from a new state, answered or refused,
  -- Verified is true only if one of the handled requests was an EAP-MSCHAPv2 Success whose message began with the
  -- authenticator response, not empty, that is made of the username, the password, the challenge of a
  -- Challenge that was handled before it, and the challenge that this end drew for that one.
  pub verified-HasProved :
      {es : List Handled} {m : Mschapv2}
      → IsReached h username password es m
      → verified m ≡ true
      → HasProved h username password es
  unfolding verified
  verified-HasProved r e = (IsReached-IsSound r).proved e
