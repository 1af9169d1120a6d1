-- ===== src/Session/Driver/Inbound.antt =====
-- handleInbound on any datagram: the driver keeps its invariant and does not panic.
use mathlib.Core.Path.{subst}
use go_ipsec.Common.{
  ℕ, suc, ◌≡◌, sym, Bool, true, false, ◌&&◌, Option, none, some, List, ◌==◌, Outcome, ok, err, Any,
  yields,
}
use go_ipsec.Crypto.{Primitives, Lawful}
use go_ipsec.Ikemsg.Const.{is_response, exchange_informational, exchange_create_child_sa}
use go_ipsec.Ikemsg.Message.{Message, Payload}
use go_ipsec.Ikesa.Dh.{DhPrimitives}
use go_ipsec.Session.Protected.{Failure, IkeContext, decode_sk_with}
use go_ipsec.Session.Protected.Total.{
  Answers, by_current, by_old, authentic, none_left, over, by_neither, decode_ike-Answers,
}
use go_ipsec.Session.Suites.Lengths.{OnSome}
use go_ipsec.Session.Window.{Session}
use go_ipsec.Session.Act.{DriverError, Fresh, pure}
use go_ipsec.Session.Act.Safe.{
  Leaves, Safe, Safe-bind, Safe-pure, Safe-gets, Safe-modify, Safe-if, Safe-logged,
}
use go_ipsec.Session.Rekey.Payloads.{is_ike_rekey}
use go_ipsec.Session.Driver.{
  rekeys, acknowledge, handle_informational_request, handle_rekey_request, dispatch, contexts,
  is_via_old, dispatch_decoded, handle_inbound,
}
use go_ipsec.Session.Driver.Orderly.{IsOrderly, HasOld}
use go_ipsec.Session.Driver.Steps.{encode_response-Safe, respond-Safe, send_temporary_failure-Safe}
use go_ipsec.Session.Driver.Rekeys.{IsFresh, handle_child_rekey_request-Safe}
use go_ipsec.Session.Driver.IkeRekeys.{handle_ike_rekey_request-Safe}
use go_ipsec.Session.Driver.Handlers.{
  if_same, clear_old_ike_delete-IsOrderly, clear_pending-IsOrderly, unless_repeated-Safe,
  handle_payloads-Safe, complete_matching_rekey-Safe,
}

module _ (p : Primitives) (q : DhPrimitives) (laws : Lawful p) (via_old : Bool) where
  acknowledge-Safe :
      (msg_id : ℕ) (fresh : Fresh)
      → Safe (IsOrderly via_old) Any (acknowledge p q msg_id via_old fresh)
  unfolding acknowledge
  acknowledge-Safe msg_id fresh = Safe-logged _ (
      Safe-bind _ _ (encode_response-Safe p laws via_old _ msg_id via_old _ _ (λ e. e))
        λ raw _. respond-Safe p laws via_old msg_id via_old fresh raw)

  handle_informational_request-Safe :
      (msg_id : ℕ) (inner : List Payload) (fresh : ℕ → Fresh)
      → ((i : ℕ) → IsFresh (fresh i))
      → Safe (IsOrderly via_old) Any (handle_informational_request p q msg_id inner via_old fresh)
  unfolding handle_informational_request
  handle_informational_request-Safe msg_id inner fresh f =
      Safe-bind _ _ (handle_payloads-Safe p q laws via_old via_old _ inner (λ i. f (suc i)))
        λ teardown _. Safe-bind _ _ (acknowledge-Safe msg_id (fresh 0)) λ _ _. Safe-pure _ tt

  handle_rekey_request-Safe :
      (msg_id : ℕ) (inner : List Payload) (fresh : Fresh)
      → IsFresh fresh
      → Safe (IsOrderly via_old) Any (handle_rekey_request p q msg_id inner via_old fresh)
  unfolding handle_rekey_request
  handle_rekey_request-Safe msg_id inner fresh f =
      let failure =
        send_temporary_failure-Safe p laws via_old msg_id via_old fresh.iv fresh (λ e. e) in
      Safe-bind {Q = Any} _ _ (Safe-gets _ λ _ _. tt) λ s _.
        Safe-if (rekeys s.pending) _ _ (λ _. failure)
          λ _.
            Safe-if (is_ike_rekey inner && via_old) _ _ (λ _. failure)
              λ _.
                Safe-if (is_ike_rekey inner) _ _
                  (λ _.
                    Safe-logged _
                      (handle_ike_rekey_request-Safe p q laws via_old msg_id fresh inner))
                  (λ _. Safe-logged _ (
                    handle_child_rekey_request-Safe p q laws via_old msg_id via_old fresh f (λ e. e)
                      inner))

  dispatch-Safe :
      (hdr : Message) (inner : List Payload) (fresh : ℕ → Fresh)
      → ((i : ℕ) → IsFresh (fresh i))
      → Safe (IsOrderly via_old) Any (dispatch p q hdr inner via_old fresh)
  unfolding dispatch
  dispatch-Safe hdr inner fresh f =
      Safe-if (hdr.exchange == exchange_informational) _ _
        (λ _.
          Safe-if (is_response hdr.flags) _ _
            (λ _.
              Safe-bind _ _
                (Safe-modify _ λ s h.
                  if_same via_old via_old _ _ (clear_old_ike_delete-IsOrderly via_old s _ h)
                    (clear_pending-IsOrderly via_old s _ h))
                λ _ _. Safe-pure _ tt)
            (λ _.
              unless_repeated-Safe p q laws via_old _ via_old _
                (handle_informational_request-Safe _ inner fresh f)))
        λ _.
          Safe-if (hdr.exchange == exchange_create_child_sa) _ _
            (λ _.
              Safe-if (is_response hdr.flags) _ _
                (λ _.
                  Safe-bind _ _
                    (complete_matching_rekey-Safe p q laws via_old _ inner via_old (fresh 0))
                    λ _ _. Safe-pure _ tt)
                (λ _. unless_repeated-Safe p q laws via_old _ via_old _ (
                  Safe-bind _ _ (handle_rekey_request-Safe _ inner (fresh 0) (f 0))
                    λ _ _. Safe-pure _ tt)))
            (λ _. Safe-pure _ tt)

  decoded-Safe :
      (r : Message × List Payload) (fresh : ℕ → Fresh)
      → ((i : ℕ) → IsFresh (fresh i))
      → Safe (IsOrderly via_old) Any (dispatch_decoded p q (ok r) via_old fresh)
  unfolding dispatch_decoded
  decoded-Safe (hdr, inner) fresh f =
      Safe-bind _ _ (Safe-modify _ λ _ h. h) λ _ _. dispatch-Safe hdr inner fresh f

module _ (p : Primitives) (q : DhPrimitives) (laws : Lawful p) where
  from_some :
      (P : IkeContext p.Aead → Type 0) (o : Option (IkeContext p.Aead)) (old : IkeContext p.Aead)
      → OnSome P o
      → o ≡ some old
      → P old
  from_some P none old h e = absurd cc
  from_some P (some c) old h e = subst (OnSome P) e h

  with_old :
      (s : Session p.Aead) (old : IkeContext p.Aead)
      → s.old_ike ≡ some old
      → IsOrderly false s
      → IsOrderly true s
  with_old s old there h = record {
    current_keyed = h.current_keyed;
    old_keyed = h.old_keyed;
    old_there = λ _. subst HasOld (sym there) tt;
    pending_fits = h.pending_fits;
    answered_fits = h.answered_fits;
    old_answered_fits = h.old_answered_fits;
    wired = h.wired;
  }

  forget_old :
      {A : Type 0} {r : Outcome DriverError A × Session p.Aead}
      → Leaves (IsOrderly true) Any r
      → Leaves (IsOrderly false) Any r
  forget_old l =
      let h = l.kept in
      record {
        result = l.result;
        kept = record {
          current_keyed = h.current_keyed;
          old_keyed = h.old_keyed;
          old_there = λ e. absurd cc;
          pending_fits = h.pending_fits;
          answered_fits = h.answered_fits;
          old_answered_fits = h.old_answered_fits;
          wired = h.wired;
        };
      }

  module _ (raw : List ℕ) (now : ℕ) (fresh : ℕ → Fresh) (f : (i : ℕ) → IsFresh (fresh i))
      (s : Session p.Aead) (h : IsOrderly false s) where
    refused_Leaves :
        (g : Failure) (via_old : Bool)
        → Leaves (IsOrderly false) Any (dispatch_decoded p q (err g) via_old fresh s)
    unfolding dispatch_decoded pure
    refused_Leaves g via_old = record { result = yields tt; kept = h }

    answer_Leaves :
        (d : Outcome Failure (Message × List Payload) × IkeContext p.Aead)
        → Answers p (contexts p q s) now raw d
        → Leaves (IsOrderly false) Any (
            dispatch_decoded p q d.0
              (is_via_old p q (decode_sk_with p s.current.ike_sa raw))
              fresh
              s)
    unfolding is_via_old
    answer_Leaves d (by_current {r = r} e) = rw e ((decoded-Safe p q laws false r fresh f).runs s h)
    answer_Leaves d (by_old {old = old} {r = r} e unchecked there early found) =
        rw e (forget_old ((decoded-Safe p q laws true r fresh f).runs s (with_old s old there h)))
    answer_Leaves d (authentic {f = g} e checked) = refused_Leaves g _
    answer_Leaves d (none_left {f = g} e nothing) = refused_Leaves g _
    answer_Leaves d (over {f = g} e late) = refused_Leaves g _
    answer_Leaves d (by_neither {f = g} e there failed) = refused_Leaves g _

  pub handle_inbound-Safe :
      (raw : List ℕ) (now : ℕ) (fresh : ℕ → Fresh)
      → ((i : ℕ) → IsFresh (fresh i))
      → Safe (IsOrderly false) Any (handle_inbound p q raw now fresh)
  unfolding handle_inbound
  handle_inbound-Safe raw now fresh f = record {
    runs = λ s h. answer_Leaves raw now fresh f s h _ (
        decode_ike-Answers p laws (contexts p q s) now raw h.current_keyed
          (λ old there. from_some _ s.old_ike old h.old_keyed there));
  }
