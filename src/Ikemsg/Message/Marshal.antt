-- ===== src/Ikemsg/Message/Marshal.antt =====
-- Writing a message: a value or an error, whatever the payloads.
use go_ipsec.Common.{
  List, [], ◌∷◌, Bool, ltb, length, ℕ, Any, Ensures, yields, Ensures-fail_if, Ensures-bind,
}
use go_ipsec.Ikemsg.Sa.{
  Transform, Proposal, marshal_transform, marshal_transforms, marshal_proposal, marshal_proposals,
}
use go_ipsec.Ikemsg.Notify.{DeletePayload, check_widths, marshal_delete}
use go_ipsec.Ikemsg.Ts.{TrafficSelector, marshal_selector, marshal_selectors, marshal_ts_body}
use go_ipsec.Ikemsg.Message.{
  Payload, sa, ke, idi, idr, cert, cert_request, auth, nonce, notify, delete, vendor_id, tsi, tsr,
  encrypted, config, eap, Message, marshal_body, marshal_payloads, marshal_chain, marshal,
}

marshal_transform-Ensures : (t : Transform) (more : Bool) → Ensures Any (marshal_transform t more)
unfolding marshal_transform
marshal_transform-Ensures t more = Ensures-fail_if _ _ _ λ _. yields tt

marshal_transforms-Ensures : (ts : List Transform) → Ensures Any (marshal_transforms ts)
unfolding marshal_transforms
marshal_transforms-Ensures [] = yields tt
marshal_transforms-Ensures (t ∷ ts) =
    Ensures-bind _ _ (marshal_transform-Ensures t (ltb 0 (length ts)))
      λ td _. Ensures-bind _ _ (marshal_transforms-Ensures ts) λ rest _. yields tt

marshal_proposal-Ensures : (p : Proposal) (more : Bool) → Ensures Any (marshal_proposal p more)
unfolding marshal_proposal
marshal_proposal-Ensures p more = Ensures-fail_if _ _ _ λ _.
    Ensures-fail_if _ _ _
      λ _. Ensures-bind _ _ (marshal_transforms-Ensures p.transforms) λ tds _. yields tt

marshal_proposals-Ensures : (ps : List Proposal) → Ensures Any (marshal_proposals ps)
unfolding marshal_proposals
marshal_proposals-Ensures [] = yields tt
marshal_proposals-Ensures (p ∷ ps) =
    Ensures-bind _ _ (marshal_proposal-Ensures p (ltb 0 (length ps)))
      λ pd _. Ensures-bind _ _ (marshal_proposals-Ensures ps) λ rest _. yields tt

check_widths-Ensures : (size : ℕ) (spis : List (List ℕ)) → Ensures Any (check_widths size spis)
unfolding check_widths
check_widths-Ensures size [] = yields tt
check_widths-Ensures size (spi ∷ spis) = Ensures-fail_if _ _ _ λ _. check_widths-Ensures size spis

marshal_delete-Ensures : (d : DeletePayload) → Ensures Any (marshal_delete d)
unfolding marshal_delete
marshal_delete-Ensures d = Ensures-bind _ _ (check_widths-Ensures _ d.spis) λ _ _. yields tt

marshal_selector-Ensures : (ts : TrafficSelector) → Ensures Any (marshal_selector ts)
unfolding marshal_selector
marshal_selector-Ensures ts = Ensures-fail_if _ _ _ λ _. Ensures-fail_if _ _ _ λ _. yields tt

marshal_selectors-Ensures : (tss : List TrafficSelector) → Ensures Any (marshal_selectors tss)
unfolding marshal_selectors
marshal_selectors-Ensures [] = yields tt
marshal_selectors-Ensures (ts ∷ tss) =
    Ensures-bind _ _ (marshal_selector-Ensures ts)
      λ sel _. Ensures-bind _ _ (marshal_selectors-Ensures tss) λ rest _. yields tt

marshal_ts_body-Ensures : (tss : List TrafficSelector) → Ensures Any (marshal_ts_body tss)
unfolding marshal_ts_body
marshal_ts_body-Ensures tss =
    Ensures-fail_if _ _ _ λ _. Ensures-bind _ _ (marshal_selectors-Ensures tss) λ sels _. yields tt

marshal_body-Ensures : (p : Payload) → Ensures Any (marshal_body p)
unfolding marshal_body
marshal_body-Ensures (sa ps) = marshal_proposals-Ensures ps
marshal_body-Ensures (ke p) = yields tt
marshal_body-Ensures (idi p) = yields tt
marshal_body-Ensures (idr p) = yields tt
marshal_body-Ensures (cert p) = yields tt
marshal_body-Ensures (cert_request p) = yields tt
marshal_body-Ensures (auth p) = yields tt
marshal_body-Ensures (nonce bytes) = yields tt
marshal_body-Ensures (notify p) = yields tt
marshal_body-Ensures (delete d) = marshal_delete-Ensures d
marshal_body-Ensures (vendor_id bytes) = yields tt
marshal_body-Ensures (tsi tss) = marshal_ts_body-Ensures tss
marshal_body-Ensures (tsr tss) = marshal_ts_body-Ensures tss
marshal_body-Ensures (encrypted t bytes) = yields tt
marshal_body-Ensures (config p) = yields tt
marshal_body-Ensures (eap bytes) = yields tt

marshal_payloads-Ensures : (ps : List Payload) → Ensures Any (marshal_payloads ps)
unfolding marshal_payloads
marshal_payloads-Ensures [] = yields tt
marshal_payloads-Ensures (p ∷ ps) = Ensures-bind _ _ (marshal_body-Ensures p) λ body _.
    Ensures-fail_if _ _ _ λ _. Ensures-bind _ _ (marshal_payloads-Ensures ps) λ rest _. yields tt

pub marshal_chain-Ensures : (ps : List Payload) → Ensures Any (marshal_chain ps)
unfolding marshal_chain
marshal_chain-Ensures ps = Ensures-bind _ _ (marshal_payloads-Ensures ps) λ body _. yields tt

pub marshal-Ensures : (m : Message) → Ensures Any (marshal m)
unfolding marshal
marshal-Ensures m = Ensures-bind _ _ (marshal_chain-Ensures m.payloads) λ r _. yields tt
