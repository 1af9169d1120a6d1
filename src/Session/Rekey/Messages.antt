-- ===== src/Session/Rekey/Messages.antt =====
-- What the two ends of a Child SA rekey read in each other's messages.
use mathlib.Core.Path.{subst}
use mathlib.Core.List.{Memᴰ}
use go_ipsec.Common.{
  ℕ, ◌+◌, ◌≤◌, ◌≡◌, refl, sym, ap, ◌∙◌, Bool, true, false, ◌&&◌, Option, none, some, some-eq, List,
  [], ◌∷◌, ◌++◌, All, length, ltb, ◌==◌, if◌then◌else◌, arith, Outcome, ok, err, panic, stuck,
  map_err, fail_if, or_err, ◌>>=◌, bind_values, ok-eq, Bool-cases, inl, inr,
}
use go_ipsec.Ikemsg.Sa.{Proposal}
use go_ipsec.Ikemsg.Simple.{KePayload}
use go_ipsec.Ikemsg.Ts.{TrafficSelector}
use go_ipsec.Ikemsg.Message.{Payload, tsi, tsr}
use go_ipsec.Ikesa.Dh.{Dh}
use go_ipsec.Session.Suites.{
  esp_layer, Layer, TransformSuite, suites, enabled_suites, build_proposal_for_suite,
  build_proposals, proposals_from, supported_dh_group,
}
use go_ipsec.Session.Suites.Choice.{selected_suite-build_proposal_for_suite}
use go_ipsec.Session.Suites.Picked.{Picks, nothing, here, later, select_proposal-Picks}
use go_ipsec.Session.Rekey.Payloads.{
  contents_from, contents, first_proposal, ChildResponse, child_rekey_response, ChildRequest,
  child_rekey_request_payloads, all_ipv4, all_ipv6, traffic_selectors, Contents,
}
use go_ipsec.Session.Rekey.Negotiation.{
  dh_groups, ke_payloads, rekey_notify, child_offer, answered_selectors, child_answer, chosen,
  other_group, refusal, without_group, choice_of, choose,
}

-- The KE payload that a side of an exchange sends.
abbrev pub ke_sent : Option Dh → Option KePayload
ke_sent none = none
ke_sent (some d) = some (record { group = d.group; bytes = d.public_value })

abbrev full_range : Bool → List TrafficSelector
full_range include_v6 = all_ipv4 ∷ (if include_v6 then all_ipv6 ∷ [] else [])

selectors_pair :
    (r : ChildRequest) (include_v6 : Bool)
    → (a : List TrafficSelector) × (b : List TrafficSelector) × (answered_selectors r include_v6
        ≡ tsi a ∷ tsr b ∷ [])
unfolding answered_selectors traffic_selectors
selectors_pair r include_v6 = elim (Bool-cases (ltb 0 (length r.ts_i) && ltb 0 (length r.ts_r))) [
  | inl echoed ↦ (r.ts_i, r.ts_r, rw echoed refl)
  | inr full ↦ (full_range include_v6, full_range include_v6, rw full refl)
]

request_of :
    (inner : List Payload) (c : Contents) (ps : List Proposal) {r : ChildRequest}
    → contents false inner ≡ ok c
    → c.proposals ≡ some ps
    → child_rekey_request_payloads inner ≡ ok r
    → (r.offers ≡ ps) × (r.request_nonce ≡ c.nonce_data) × (r.ke_request ≡ c.key_exchange)
unfolding child_rekey_request_payloads or_err
request_of inner c ps read there e = bind_values e (λ c' read' e1. bind_values e1 (λ ps' there' e2.
    bind_values e2 (λ _ _ made.
      let same : c' ≡ c = ok-eq (sym read' ∙ read) in
      let kept = rw (ap (λ x. x.proposals) same ∙ there) at there' in
      let x = sym (ok-eq made) in
      (
        ap (λ r. r.offers) x ∙ sym (ok-eq kept),
        ap (λ r. r.request_nonce) x ∙ ap (λ c. c.nonce_data) same,
        ap (λ r. r.ke_request) x ∙ ap (λ c. c.key_exchange) same,
      ))))

-- What comes out of the request.
pub offered :
    (rows : List (TransformSuite esp_layer)) (old_spi : Option ℕ) (new_spi ni : List ℕ)
    (d : Option Dh) (include_v6 : Bool) {r : ChildRequest}
    → child_rekey_request_payloads (child_offer rows old_spi new_spi ni d include_v6) ≡ ok r
    → (r.offers ≡ build_proposals new_spi rows (dh_groups d))
      × (r.request_nonce ≡ ni)
      × (r.ke_request ≡ ke_sent d)
unfolding child_offer rekey_notify ke_payloads traffic_selectors contents contents_from
offered rows none new_spi ni none include_v6 e = request_of _ _ _ refl refl e
offered rows none new_spi ni (some d) include_v6 e = request_of _ _ _ refl refl e
offered rows (some old) new_spi ni none include_v6 e = request_of _ _ _ refl refl e
offered rows (some old) new_spi ni (some d) include_v6 e = request_of _ _ _ refl refl e

-- What comes out of the answer.
abbrev answer_contents :
    Proposal
    → TransformSuite esp_layer
    → List ℕ
    → List ℕ
    → Option Dh
    → List TrafficSelector
    → List TrafficSelector
    → Contents
answer_contents prop suite spi nr d a b = record {
  proposals = some (build_proposal_for_suite prop.number suite spi (dh_groups d) ∷ []);
  nonce_data = nr;
  key_exchange = ke_sent d;
  initiator_selectors = a;
  responder_selectors = b;
}

contents-child_answer :
    (r : ChildRequest) (prop : Proposal) (suite : TransformSuite esp_layer) (spi nr : List ℕ)
    (d : Option Dh) (include_v6 : Bool)
    → let pair = selectors_pair r include_v6 in
      contents true (child_answer r prop suite spi nr d include_v6)
      ≡ ok (answer_contents prop suite spi nr d pair.0 pair.1)
unfolding child_answer ke_payloads contents contents_from
contents-child_answer r prop suite spi nr none include_v6 = rw (selectors_pair r include_v6).2 refl
contents-child_answer r prop suite spi nr (some d) include_v6 =
    rw (selectors_pair r include_v6).2 refl

abbrev pub response :
    Proposal → TransformSuite esp_layer → List ℕ → List ℕ → Option Dh → ChildResponse
response prop suite spi nr d = record {
  proposal = build_proposal_for_suite prop.number suite spi (dh_groups d);
  suite = suite;
  nr = nr;
  ke_answer = ke_sent d;
}

few_groups : (d : Option Dh) → length (dh_groups d) ≤ 1
unfolding dh_groups
few_groups none = omega arith
few_groups (some d) = omega arith

pub child_rekey_response-child_answer :
    (configured : List ℕ) (r : ChildRequest) (prop : Proposal) (suite : TransformSuite esp_layer)
    (spi nr : List ℕ) (d : Option Dh) (include_v6 : Bool)
    → Memᴰ suite (enabled_suites configured (suites esp_layer))
    → length spi ≡ 4
    → 1 ≤ length nr
    → child_rekey_response
        (enabled_suites configured (suites esp_layer))
        (child_answer r prop suite spi nr d include_v6)
      ≡ ok (response prop suite spi nr d)
unfolding child_rekey_response first_proposal or_err fail_if ◌>>=◌ build_proposal_for_suite
child_rekey_response-child_answer configured r prop suite spi nr d include_v6 m size long =
    let read = contents-child_answer r prop suite spi nr d include_v6 in
    let found =
      selected_suite-build_proposal_for_suite esp_layer configured suite prop.number spi
        (dh_groups d) m (few_groups d) in
    let given : (length nr == 0) ≡ false = ground (arith, long) in
    rw (child_rekey_response, read, found, size, given) refl

pub map_err-ok :
    {E F : Type 0} {A : Type 0} (f : E → F) (m : Outcome E A) (a : A)
    → map_err f m ≡ ok a
    → m ≡ ok a
unfolding map_err
map_err-ok f (ok x) a h = ap ok (ok-eq h)
map_err-ok f (err e) a h = absurd cc
map_err-ok f panic a h = absurd cc
map_err-ok f stuck a h = absurd cc

-- The SPI of the proposal that is chosen is the one that was offered.
pub proposals_from-spi :
    {layer : Layer} (i : ℕ) (spi : List ℕ) (rows : List (TransformSuite layer)) (groups : List ℕ)
    → All (λ prop. prop.spi ≡ spi) (proposals_from i spi rows groups)
unfolding proposals_from build_proposal_for_suite
proposals_from-spi i spi [] groups = tt
proposals_from-spi i spi (s ∷ rows) groups = (refl, proposals_from-spi (i + 1) spi rows groups)

All-middle :
    {A : Type 0} (P : A → Type 0) (before : List A) (x : A) (after : List A)
    → All P (before ++ x ∷ after)
    → P x
All-middle P [] x after h = h.0
All-middle P (y ∷ before) x after h = All-middle P before x after h.1

picked_of_offer :
    {layer : Layer} (P : Proposal → Type 0) (group : ℕ) (ps : List Proposal)
    (rows : List (TransformSuite layer)) (o : Option (Proposal × TransformSuite layer))
    {prop : Proposal} {s : TransformSuite layer}
    → All P ps
    → Picks group ps rows o
    → o ≡ some (prop, s)
    → P prop
picked_of_offer P group ps [] none all nothing e = absurd cc
picked_of_offer P group ps rows o all (here {p = x} before after split none_before fits) e =
    subst P (ap (λ r. r.0) (some-eq e)) (All-middle P before x after (subst (All P) split all))
picked_of_offer P group ps rows o all (later none_here rest) e =
    picked_of_offer P group ps _ o all rest e

choice_of-some :
    {layer : Layer} (o sans : Option (Proposal × TransformSuite layer)) (required : Bool)
    {prop : Proposal} {s : TransformSuite layer}
    → choice_of o required sans ≡ chosen prop s
    → o ≡ some (prop, s)
unfolding choice_of without_group
choice_of-some (some (x, t)) sans required e =
    ap (λ c. elim c [ chosen y u ↦ some (y, u) | other_group ↦ none | refusal ↦ none ]) e
choice_of-some none none required e = absurd cc
choice_of-some none (some x) true e = absurd cc
choice_of-some none (some x) false e = absurd cc

pub chosen_of_offer :
    {layer : Layer} (P : Proposal → Type 0) (offers : List Proposal)
    (rows : List (TransformSuite layer)) (group : Option ℕ) {prop : Proposal}
    {s : TransformSuite layer}
    → All P offers
    → choose offers rows group ≡ chosen prop s
    → P prop
unfolding choose
chosen_of_offer P offers rows none all e =
    picked_of_offer P 0 offers rows _ all (select_proposal-Picks offers rows 0)
      (choice_of-some _ _ false e)
chosen_of_offer P offers rows (some g) all e = elim (Bool-cases (supported_dh_group g)) [
  | inl supported ↦
      picked_of_offer P g offers rows _ all (select_proposal-Picks offers rows g)
        (choice_of-some _ _ true (rw supported at e))
  | inr other ↦ let e' = rw other at e in absurd cc
]
