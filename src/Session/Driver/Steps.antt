-- ===== src/Session/Driver/Steps.antt =====
-- The messages that the driver writes leave its invariant.
use go_ipsec.Common.{ℕ, ◌+◌, ◌≡◌, refl, Bool, true, false, Option, none, some, List, Any}
use go_ipsec.Crypto.{Primitives, Lawful}
use go_ipsec.Ikemsg.Message.{Payload}
use go_ipsec.Ikesa.Sk.Total.{IsKeyed, map_err-Ensures}
use go_ipsec.Session.Protected.{IkeContext, ike_role_bit}
use go_ipsec.Session.Protected.Writing.{encode_sk_with-Writes}
use go_ipsec.Session.Suites.Lengths.{OnSome}
use go_ipsec.Session.Window.{
  ExchangeKind, delete_sa, ChildRekey, IkeRekey, Session, record_peer_response,
}
use go_ipsec.Session.Act.{
  Fresh, keep_sa, answering, encode_under, encode_request, send, ◌>>◌, modify,
}
use go_ipsec.Session.Act.Safe.{Leaves, Safe, Safe-bind, Safe-modify, Safe-send, Safe-logged}
use go_ipsec.Session.Rekey.{
  request, send_child_delete, encode_response, send_notify_response, send_temporary_failure,
  send_invalid_ke_payload,
}
use go_ipsec.Session.Driver.Orderly.{
  Carries, HasOld, IsOrderly, open_request-IsOrderly, record_peer_response-IsOrderly,
  send_datagram-IsOrderly,
}

module _ (p : Primitives) (laws : Lawful p) (v : Bool) where
  encode_under-Leaves :
      (dec : IkeContext p.Aead) (via_old : Bool) (exchange flags msg_id : ℕ) (inner : List Payload)
      (iv : Option (List ℕ)) (s : Session p.Aead)
      → IsKeyed dec.ike_sa
      → IsOrderly v s
      → Leaves
          (IsOrderly v)
          Any
          (encode_under p (some dec) via_old exchange flags msg_id inner iv s)
  unfolding encode_under keep_sa
  encode_under-Leaves dec via_old exchange flags msg_id inner iv s keyed h =
      let (result, kept) =
        encode_sk_with-Writes p laws dec.ike_sa dec.spii dec.spir exchange
          (ike_role_bit dec.ike_sa.role + flags) msg_id inner iv keyed in
      elim via_old
        as (λ t.
          Leaves (IsOrderly v) Any (encode_under p (some dec) t exchange flags msg_id inner iv s)) [
            | true ↦ record {
              result = map_err-Ensures _ _ result;
              kept = record {
                current_keyed = h.current_keyed;
                old_keyed = kept;
                old_there = λ _. tt;
                pending_fits = h.pending_fits;
                answered_fits = h.answered_fits;
                old_answered_fits = h.old_answered_fits;
                wired = h.wired;
              };
            }
            | false ↦ record {
              result = map_err-Ensures _ _ result;
              kept = record {
                current_keyed = kept;
                old_keyed = h.old_keyed;
                old_there = h.old_there;
                pending_fits = h.pending_fits;
                answered_fits = h.answered_fits;
                old_answered_fits = h.old_answered_fits;
                wired = h.wired;
              };
            }
          ]

  pub encode_request-Safe :
      (exchange : ℕ) (inner : List Payload) (iv : Option (List ℕ))
      → Safe (IsOrderly v) Any (encode_request p exchange inner iv)
  unfolding encode_request
  encode_request-Safe exchange inner iv = record {
    runs = λ s h.
        encode_under-Leaves s.current false exchange 0 s.message_id inner iv s h.current_keyed h;
  }

  under_old :
      (old : Option (IkeContext p.Aead)) (exchange flags msg_id : ℕ) (inner : List Payload)
      (iv : Option (List ℕ)) (s : Session p.Aead)
      → HasOld old
      → OnSome (λ c. IsKeyed c.ike_sa) old
      → IsOrderly v s
      → Leaves (IsOrderly v) Any (encode_under p old true exchange flags msg_id inner iv s)
  under_old none exchange flags msg_id inner iv s there keyed h = absurd there
  under_old (some old) exchange flags msg_id inner iv s there keyed h =
      encode_under-Leaves old true exchange flags msg_id inner iv s keyed h

  -- A response goes out under the superseded SA only while there is one.
  pub encode_response-Safe :
      (exchange msg_id : ℕ) (via_old : Bool) (inner : List Payload) (iv : Option (List ℕ))
      → (via_old ≡ true → v ≡ true)
      → Safe (IsOrderly v) Any (encode_response p exchange msg_id via_old inner iv)
  unfolding encode_response answering
  encode_response-Safe exchange msg_id true inner iv same = record {
    runs = λ s h.
        under_old s.old_ike exchange _ msg_id inner iv s (h.old_there (same refl)) h.old_keyed h;
  }
  encode_response-Safe exchange msg_id false inner iv same = record {
    runs =
        λ s h. encode_under-Leaves s.current false exchange _ msg_id inner iv s h.current_keyed h;
  }

  pub request-Safe :
      (kind : ExchangeKind) (exchange : ℕ) (inner : List Payload) (child : Option ChildRekey)
      (ike : Option IkeRekey) (fresh : Fresh)
      → Carries kind child ike
      → Safe (IsOrderly v) Any (request p kind exchange inner child ike fresh)
  unfolding request
  request-Safe kind exchange inner child ike fresh carries =
      Safe-bind _ _ (encode_request-Safe exchange inner fresh.iv) λ raw _.
        Safe-bind _ _
          (Safe-modify _ λ s h. open_request-IsOrderly v kind raw child ike fresh.clock s carries h)
          λ _ _. Safe-send fresh raw (send_datagram-IsOrderly v raw)

  pub send_child_delete-Safe :
      (in_spi : ℕ) (fresh : Fresh) → Safe (IsOrderly v) Any (send_child_delete p in_spi fresh)
  unfolding send_child_delete
  send_child_delete-Safe in_spi fresh = request-Safe delete_sa _ _ none none fresh tt

  -- The answer to a request is recorded before it is sent.
  pub respond-Safe :
      (msg_id : ℕ) (via_old : Bool) (fresh : Fresh) (raw : List ℕ)
      → Safe {Aead = p.Aead}
          (IsOrderly v)
          Any
          (modify (λ s. record_peer_response s via_old msg_id raw) >> send fresh raw)
  respond-Safe msg_id via_old fresh raw =
      Safe-bind _ _ (Safe-modify _ (record_peer_response-IsOrderly v via_old msg_id raw))
        λ _ _. Safe-send fresh raw (send_datagram-IsOrderly v raw)

  pub send_notify_response-Safe :
      (msg_id : ℕ) (via_old : Bool) (protocol type : ℕ) (bytes : List ℕ) (iv : Option (List ℕ))
      (fresh : Fresh)
      → (via_old ≡ true → v ≡ true)
      → Safe (IsOrderly v) Any (send_notify_response p msg_id via_old protocol type bytes iv fresh)
  unfolding send_notify_response
  send_notify_response-Safe msg_id via_old protocol type bytes iv fresh same = Safe-logged _ (
      Safe-bind _ _ (encode_response-Safe _ msg_id via_old _ iv same)
        λ raw _. respond-Safe msg_id via_old fresh raw)

  pub send_temporary_failure-Safe :
      (msg_id : ℕ) (via_old : Bool) (iv : Option (List ℕ)) (fresh : Fresh)
      → (via_old ≡ true → v ≡ true)
      → Safe (IsOrderly v) Any (send_temporary_failure p msg_id via_old iv fresh)
  unfolding send_temporary_failure
  send_temporary_failure-Safe msg_id via_old iv fresh same =
      send_notify_response-Safe msg_id via_old _ _ _ iv fresh same

  pub send_invalid_ke_payload-Safe :
      (msg_id : ℕ) (via_old : Bool) (fresh : Fresh)
      → (via_old ≡ true → v ≡ true)
      → Safe (IsOrderly v) Any (send_invalid_ke_payload p msg_id via_old fresh)
  unfolding send_invalid_ke_payload
  send_invalid_ke_payload-Safe msg_id via_old fresh same =
      send_notify_response-Safe msg_id via_old _ _ _ fresh.iv fresh same
