-- ===== src/Session/Driver/IkeRekeys.antt =====
-- The functions that rekey the IKE SA keep the driver's invariant and do not panic.
use mathlib.Core.Path.{subst}
use go_ipsec.Common.{
  ℕ, ◌+◌, ◌%◌, ◌^◌, ◌≡◌, refl, sym, Bool, true, false, Option, none, List, length, arith, Any,
}
use go_ipsec.Crypto.{Primitives, Lawful}
use go_ipsec.Ikemsg.Message.{Payload}
use go_ipsec.Ikemsg.Sa.{Proposal}
use go_ipsec.Ikesa.Dh.{DhPrimitives}
use go_ipsec.Ikesa.Dh.Total.{HasKey, new_dh-Ensures, shared-Ensures}
use go_ipsec.Ikesa.Keys.Total.{derive_rekey_ike-Ensures}
use go_ipsec.Ikesa.Sk.Total.{IsKeyed, or_err-Ensures, map_err-Ensures}
use go_ipsec.Session.Suites.{ike_layer, TransformSuite, spi_len}
use go_ipsec.Ikesa.Keys.{IkeSa}
use go_ipsec.Session.Window.{send_datagram, Session, IkeRekey, ike_rekey}
use go_ipsec.Session.Act.{encode_request, encode_under, keep_sa, Fresh}
use go_ipsec.Session.Act.Safe.{
  Safe, Safe-bind, Safe-fail, Safe-lifted, Safe-gets, Safe-modify, Safe-act_if, Safe-drawn,
  Safe-answered, Safe-tried, Safe-logged, Safe-send,
}
use go_ipsec.Session.Rekey.{
  send_ike_delete_under_current, open_old_delete, swap_ike, send_temporary_failure,
  send_notify_response,
}
use go_ipsec.Session.Rekey.Payloads.{IkePayloads}
use go_ipsec.Session.Rekey.Negotiation.{Choice, chosen, other_group, refusal}
use go_ipsec.Session.Rekey.Total.{ike_rekey_payloads-Ensures}
use go_ipsec.Session.Rekey.IkeSide.{
  initiate_ike_rekey, complete_ike_rekey, accept_ike_rekey, handle_ike_choice,
  handle_ike_rekey_request,
}
use go_ipsec.Session.Driver.Orderly.{
  IsOrderly, PendingFits, swap_ike-IsOrderly, record_peer_response-IsOrderly,
  send_datagram-IsOrderly,
}
use go_ipsec.Session.Driver.Steps.{
  encode_request-Safe, encode_response-Safe, request-Safe, send_notify_response-Safe,
  send_temporary_failure-Safe, send_invalid_ke_payload-Safe,
}
use go_ipsec.Session.Driver.Rekeys.{uint64_at-Ensures, Chosen, choose-Chosen, every_row}

module _ (p : Primitives) (q : DhPrimitives) (laws : Lawful p) (v : Bool) where
  pub initiate_ike_rekey-Safe :
      (fresh : Fresh) → Safe (IsOrderly v) Any (initiate_ike_rekey p q fresh)
  unfolding initiate_ike_rekey
  initiate_ike_rekey-Safe fresh =
      Safe-bind {Q = Any} _ _ (Safe-drawn fresh.spi64 (λ _ _. tt)) λ new_spii _.
        Safe-bind {Q = Any} _ _ (Safe-gets _ λ _ _. tt) λ s _.
          Safe-bind _ _
            (Safe-lifted _ (map_err-Ensures _ _ (new_dh-Ensures q s.ike_dh_group fresh.dh_draw)))
            λ d has.
              Safe-bind {Q = Any} _ _ (Safe-drawn fresh.nonce_bytes (λ _ _. tt))
                λ ni _. request-Safe p laws v ike_rekey _ _ none _ fresh has

  -- While no request is outstanding.
  abbrev pub IsIdle : Session p.Aead → Type 0
  IsIdle s = IsOrderly v s × (s.pending ≡ none)

  open_old_delete-IsIdle :
      (raw : List ℕ) (clock : ℕ) (s : Session p.Aead)
      → IsIdle s
      → IsIdle (open_old_delete raw clock s)
  unfolding open_old_delete
  open_old_delete-IsIdle raw clock s (h, e) = (
    record {
      current_keyed = h.current_keyed;
      old_keyed = h.old_keyed;
      old_there = h.old_there;
      pending_fits = subst (λ x. PendingFits x ((s.message_id + 1) % 2 ^ 32)) (sym e) tt;
      answered_fits = h.answered_fits;
      old_answered_fits = h.old_answered_fits;
      wired = h.wired;
    },
    e,
  )

  encode_request-IsIdle :
      (exchange : ℕ) (inner : List Payload) (iv : Option (List ℕ))
      → Safe IsIdle Any (encode_request p exchange inner iv)
  unfolding encode_request encode_under keep_sa
  encode_request-IsIdle exchange inner iv = record {
    runs = λ s h.
        let l = (encode_request-Safe p laws v exchange inner iv).runs s h.0 in
        record { result = l.result; kept = (l.kept, h.1) };
  }

  send_datagram-IsIdle :
      (raw : List ℕ) (s : Session p.Aead) → IsIdle s → IsIdle (send_datagram s raw)
  unfolding send_datagram
  send_datagram-IsIdle raw s h = h

  send_ike_delete-Safe : (fresh : Fresh) → Safe IsIdle Any (send_ike_delete_under_current p fresh)
  unfolding send_ike_delete_under_current
  send_ike_delete-Safe fresh = Safe-bind _ _ (encode_request-IsIdle _ _ fresh.iv) λ raw _.
      Safe-bind _ _ (Safe-modify _ (open_old_delete-IsIdle raw fresh.clock))
        λ _ _. Safe-send fresh raw (send_datagram-IsIdle raw)

  swap_ike-IsIdle :
      (fresh : Fresh) (new_ike : IkeSa p.Aead) (spii spir : ℕ) (s : Session p.Aead)
      → IsKeyed new_ike
      → IsIdle s
      → IsIdle (swap_ike fresh new_ike spii spir s)
  unfolding swap_ike
  swap_ike-IsIdle fresh new_ike spii spir s keyed h =
      (swap_ike-IsOrderly v fresh new_ike spii spir s keyed h.0, refl)

  pub complete_ike_rekey-Safe :
      (inner : List Payload) (c : IkeRekey) (fresh : Fresh)
      → HasKey c.dh
      → Safe IsIdle Any (complete_ike_rekey p q inner c fresh)
  unfolding complete_ike_rekey
  complete_ike_rekey-Safe inner c fresh has = Safe-bind {Q = Any} _ _ (Safe-gets _ λ _ _. tt) λ s _.
      Safe-bind _ _ (Safe-lifted _ (ike_rekey_payloads-Ensures inner)) λ r _.
        Safe-bind {Q = Any} _ _ (Safe-lifted _ (or_err-Ensures _ _ λ _ _. tt)) λ prop _.
          Safe-bind {Q = Any} _ _ (Safe-lifted _ (or_err-Ensures _ _ λ _ _. tt)) λ suite _.
            Safe-bind _ _ (Safe-act_if _ _) λ _ sized.
              Safe-bind _ _ (Safe-lifted _ (uint64_at-Ensures prop.spi (ground (arith, sized))))
                λ new_spir _. Safe-bind _ _ (Safe-act_if _ _) λ _ _.
                  Safe-bind _ _
                    (Safe-lifted _ (map_err-Ensures _ _ (shared-Ensures q c.dh has r.ike_ke.bytes)))
                    λ secret _.
                      Safe-bind _ _
                        (Safe-lifted _ (
                          map_err-Ensures _ _
                            (derive_rekey_ike-Ensures p laws _ _ _ _ _ _ _ secret)))
                        λ new_ike keyed.
                          Safe-bind _ _ (Safe-logged _ (send_ike_delete-Safe fresh)) λ _ _.
                            Safe-modify _
                              (λ t. swap_ike-IsIdle fresh new_ike c.new_spii new_spir t keyed)

  -- The answers below are under the current SA.
  module _ (msg_id : ℕ) (fresh : Fresh) where
    never : false ≡ true → v ≡ true
    never e = absurd cc

    declined-Safe :
        (iv : Option (List ℕ))
        → Safe (IsOrderly v) Any (send_temporary_failure p msg_id false iv fresh)
    declined-Safe iv = send_temporary_failure-Safe p laws v msg_id false iv fresh never

    notified-Safe :
        (protocol type : ℕ) (bytes : List ℕ)
        → Safe
            (IsOrderly v)
            Any
            (send_notify_response p msg_id false protocol type bytes fresh.iv fresh)
    notified-Safe protocol type bytes =
        send_notify_response-Safe p laws v msg_id false protocol type bytes fresh.iv fresh never

    accept_ike_rekey-Safe :
        (r : IkePayloads) (prop : Proposal) (suite : TransformSuite ike_layer)
        → length prop.spi ≡ 8
        → Safe (IsOrderly v) Any (accept_ike_rekey p q msg_id r prop suite fresh)
    unfolding accept_ike_rekey
    accept_ike_rekey-Safe r prop suite size = Safe-bind {Q = Any} _ _ (Safe-gets _ λ _ _. tt) λ s _.
        Safe-bind _ _ (Safe-lifted _ (uint64_at-Ensures prop.spi size)) λ server_spii _.
          Safe-bind _ _
            (Safe-answered _ _ (map_err-Ensures _ _ (new_dh-Ensures q r.ike_ke.group fresh.dh_draw))
              (declined-Safe fresh.iv))
            λ d has.
              Safe-bind _ _
                (Safe-answered _ _ (map_err-Ensures _ _ (shared-Ensures q d has r.ike_ke.bytes))
                  (notified-Safe _ _ _))
                λ secret _.
                  Safe-bind {Q = Any} _ _
                    (Safe-answered _ _ (or_err-Ensures _ _ λ _ _. tt) (declined-Safe fresh.iv))
                    λ new_spir _.
                      Safe-bind {Q = Any} _ _
                        (Safe-answered _ _ (or_err-Ensures _ _ λ _ _. tt) (declined-Safe fresh.iv))
                        λ nr _.
                          Safe-bind _ _
                            (Safe-answered _ _
                              (map_err-Ensures _ _
                                (derive_rekey_ike-Ensures p laws _ _ _ _ _ _ nr secret))
                              (declined-Safe fresh.iv))
                            λ new_ike keyed.
                              Safe-bind _ _
                                (Safe-tried _
                                  (encode_response-Safe p laws v _ msg_id false _ fresh.iv never))
                                λ encoded written.
                                  Safe-bind _ _
                                    (Safe-answered _ _ written (declined-Safe fresh.iv_again))
                                    λ raw _.
                                      Safe-bind _ _
                                        (Safe-modify _
                                          (record_peer_response-IsOrderly v false msg_id raw))
                                        λ _ _.
                                          Safe-bind _ _
                                            (Safe-modify _ λ t.
                                              swap_ike-IsOrderly v fresh new_ike server_spii
                                                new_spir t keyed)
                                            λ _ _. Safe-bind _ _ (Safe-modify _ λ _ h. h) λ _ _.
                                              Safe-send fresh raw (send_datagram-IsOrderly v raw)

    handle_ike_choice-Safe :
        (r : IkePayloads) (c : Choice ike_layer)
        → Chosen (λ _. Unit {0}) c
        → Safe (IsOrderly v) Any (handle_ike_choice p q msg_id r fresh c)
    unfolding handle_ike_choice spi_len
    handle_ike_choice-Safe r other_group h =
        send_invalid_ke_payload-Safe p laws v msg_id false fresh never
    handle_ike_choice-Safe r refusal h = Safe-bind _ _ (notified-Safe _ _ _) λ _ _. Safe-fail _
    handle_ike_choice-Safe r (chosen prop suite) h = accept_ike_rekey-Safe r prop suite h.0

    pub handle_ike_rekey_request-Safe :
        (inner : List Payload)
        → Safe (IsOrderly v) Any (handle_ike_rekey_request p q msg_id inner fresh)
    unfolding handle_ike_rekey_request
    handle_ike_rekey_request-Safe inner = Safe-bind {Q = Any} _ _ (Safe-gets _ λ _ _. tt) λ s _.
        Safe-bind _ _ (Safe-answered _ _ (ike_rekey_payloads-Ensures inner) (notified-Safe _ _ _))
          λ r _.
            handle_ike_choice-Safe r _
              (choose-Chosen (λ _. Unit {0}) r.ike_offers _ _ (every_row _))
