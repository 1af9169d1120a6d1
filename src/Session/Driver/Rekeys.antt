-- ===== src/Session/Driver/Rekeys.antt =====
-- The functions that rekey the Child SA keep the driver's invariant and do not panic.
use mathlib.Core.Path.{subst}
use go_ipsec.Common.{
  some-eq, ℕ, ◌≡◌, sym, Bool, true, false, Option, none, some, List, [], ◌∷◌, All, length, ◌==◌,
  if◌then◌else◌, arith, ok, panic, Any, uint32_at, uint64_at, uint32_at-le, uint64_at-le, Ensures,
  yields,
}
use go_ipsec.Crypto.{Primitives, Lawful}
use go_ipsec.Ikemsg.Message.{Payload}
use go_ipsec.Ikemsg.Sa.{Proposal}
use go_ipsec.Ikesa.Dh.{DhPrimitives, Dh}
use go_ipsec.Ikesa.Dh.Total.{HasKey}
use go_ipsec.Ikesa.Sk.Total.{or_err-Ensures}
use go_ipsec.Session.Suites.{
  Layer, esp_layer, TransformSuite, suites, spi_len, select_proposal, supported_dh_group,
}
use go_ipsec.Session.Suites.Lengths.{
  OnSome, IsShort, HasSpi, enabled_suites-All, select_proposal-OnSome, suites-AreShort,
}
use go_ipsec.Session.Child.{ChildSa, ChildSaUpdate}
use go_ipsec.Ikesa.{ChildKeys}
use go_ipsec.Session.Window.{Session, ChildRekey, child_rekey}
use go_ipsec.Session.Act.{Fresh}
use go_ipsec.Session.Act.Safe.{
  Leaves, Safe, Safe-bind, Safe-pure, Safe-fail, Safe-lifted, Safe-gets, Safe-modify, Safe-if,
  Safe-drawn, Safe-answered,
}
use go_ipsec.Session.Rekey.{send_temporary_failure}
use go_ipsec.Session.Rekey.Payloads.{ChildRequest}
use go_ipsec.Session.Rekey.Negotiation.{
  Choice, chosen, other_group, refusal, without_group, choice_of, choose,
}
use go_ipsec.Session.Rekey.Total.{
  or_err-OnSome, child_rekey_request_payloads-Ensures, child_result-Ensures, responder_keys-Ensures,
  make_dh-Ensures, responder_dh-Ensures, responder_secret-Ensures,
}
use go_ipsec.Session.Rekey.ChildSide.{
  enabled_esp_suites, rekey_child, initiate_child_rekey, install, after_install,
  complete_child_rekey, latch_pfs, accept_child_rekey, handle_child_choice,
  handle_child_rekey_request,
}
use go_ipsec.Session.Driver.Orderly.{IsOrderly}
use go_ipsec.Session.Driver.Steps.{
  encode_response-Safe, request-Safe, send_child_delete-Safe, respond-Safe,
  send_notify_response-Safe, send_temporary_failure-Safe, send_invalid_ke_payload-Safe,
}

-- The SPI that is drawn for a Child SA has 4 bytes.
abbrev pub IsFresh : Fresh → Type 0
IsFresh fresh = OnSome (λ x. length x ≡ 4) fresh.spi

pub OnSome-some :
    {A : Type 0} (P : A → Type 0) (o : Option A) (a : A) → OnSome P o → o ≡ some a → P a
OnSome-some P none a h e = absurd cc
OnSome-some P (some b) a h e = subst (λ x. P x) (some-eq e) h

pub uint32_at-Ensures :
    {E : Type 0} (xs : List ℕ) → length xs ≡ 4 → Ensures {E = E} Any (uint32_at xs 0)
uint32_at-Ensures xs h = rw (uint32_at-le xs 0 (omega (arith, h))) (yields tt)

pub uint64_at-Ensures :
    {E : Type 0} (xs : List ℕ) → length xs ≡ 8 → Ensures {E = E} Any (uint64_at xs 0)
uint64_at-Ensures xs h = rw (uint64_at-le xs 0 (omega (arith, h))) (yields tt)

-- A chosen proposal has an SPI of its protocol's size.
abbrev pub Chosen : {layer : Layer} → (TransformSuite layer → Type 0) → Choice layer → Type 0
Chosen P (chosen prop s) = HasSpi P (prop, s)
Chosen P other_group = Unit {0}
Chosen P refusal = Unit {0}

choice_of-Chosen :
    {layer : Layer} (P : TransformSuite layer → Type 0)
    (o : Option (Proposal × TransformSuite layer)) (required : Bool)
    (sans : Option (Proposal × TransformSuite layer))
    → OnSome (HasSpi P) o
    → Chosen P (choice_of o required sans)
unfolding choice_of without_group
choice_of-Chosen P (some (prop, s)) required sans h = h
choice_of-Chosen P none required none h = tt
choice_of-Chosen P none true (some x) h = tt
choice_of-Chosen P none false (some x) h = tt

pub choose-Chosen :
    {layer : Layer} (P : TransformSuite layer → Type 0) (offers : List Proposal)
    (rows : List (TransformSuite layer)) (group : Option ℕ)
    → All P rows
    → Chosen P (choose offers rows group)
unfolding choose
choose-Chosen P offers rows none h =
    choice_of-Chosen P _ false none (select_proposal-OnSome P offers rows 0 h)
choose-Chosen P offers rows (some g) h =
    elim (supported_dh_group g)
      as (λ t. Chosen P (
        if t
        then choice_of (select_proposal offers rows g) true (select_proposal offers rows 0)
        else other_group)) [
          | true ↦ choice_of-Chosen P _ true _ (select_proposal-OnSome P offers rows g h)
          | false ↦ tt
        ]

pub every_row : {layer : Layer} (rows : List (TransformSuite layer)) → All (λ _. Unit {0}) rows
every_row [] = tt
every_row (s ∷ rows) = (tt, every_row rows)

module _ (p : Primitives) (q : DhPrimitives) (laws : Lawful p) (v : Bool) where
  enabled_short : (s : Session p.Aead) → All IsShort (enabled_esp_suites s)
  enabled_short s =
      enabled_suites-All IsShort s.settings.esp_suite_ids (suites esp_layer) suites-AreShort

  rekey_child-Safe :
      (child : Option ChildSa) (reestablish : Bool) (fresh : Fresh)
      → IsFresh fresh
      → Safe (IsOrderly v) Any (rekey_child p q child reestablish fresh)
  unfolding rekey_child
  rekey_child-Safe none reestablish fresh f = Safe-fail _
  rekey_child-Safe (some child) reestablish fresh f =
      Safe-bind _ _ (Safe-drawn fresh.spi (λ a e. OnSome-some (λ x. length x ≡ 4) fresh.spi a f e))
        λ new_spi size. Safe-bind {Q = Any} _ _ (Safe-drawn fresh.nonce_bytes (λ _ _. tt)) λ ni _.
          Safe-bind {Q = Any} _ _ (Safe-gets _ λ _ _. tt) λ s _.
            Safe-bind _ _ (Safe-lifted _ (make_dh-Ensures p q laws s.child_pfs _ fresh.dh_draw))
              λ d has.
                Safe-bind _ _ (Safe-lifted _ (uint32_at-Ensures new_spi size))
                  λ new_in_spi _. request-Safe p laws v child_rekey _ _ _ none fresh has

  pub initiate_child_rekey-Safe :
      (reestablish : Bool) (fresh : Fresh)
      → IsFresh fresh
      → Safe (IsOrderly v) Any (initiate_child_rekey p q reestablish fresh)
  unfolding initiate_child_rekey
  initiate_child_rekey-Safe reestablish fresh f = record {
    runs = λ s h. (rekey_child-Safe s.child reestablish fresh f).runs s h;
  }

  install-Safe :
      (u : ChildSaUpdate) (keys : ChildKeys) (clock : ℕ)
      → Safe (IsOrderly v) Any (install p q u keys clock)
  unfolding install
  install-Safe u keys clock = record {
    runs = λ s h.
        let installed_there : Session p.Aead = record s {
          installed = u ∷ s.installed;
          child = some (record {
            initiator_spi = u.new_in_spi;
            responder_spi = u.new_out_spi;
            suite = u.suite;
            keys = keys;
          });
          child_installed_at = clock;
        } in
        subst (λ t. Leaves (IsOrderly v) Any (if t then (ok tt, installed_there) else (panic, s)))
          (sym h.wired) (record { result = yields tt; kept = h });
  }

  after_install-Safe :
      (c : ChildRekey) (fresh : Fresh) → Safe (IsOrderly v) Any (after_install p q c fresh)
  unfolding after_install
  after_install-Safe c fresh =
      Safe-if c.reestablish _ _ (λ _. Safe-pure tt tt)
        (λ _.
          Safe-if (c.old_in_spi == c.new_in_spi) _ _ (λ _. Safe-pure tt tt)
            (λ _. send_child_delete-Safe p laws v c.old_in_spi fresh))

  pub complete_child_rekey-Safe :
      (inner : List Payload) (c : ChildRekey) (fresh : Fresh)
      → OnSome HasKey c.dh
      → Safe (IsOrderly v) Any (complete_child_rekey p q inner c fresh)
  unfolding complete_child_rekey
  complete_child_rekey-Safe inner c fresh has =
      Safe-bind {Q = Any} _ _ (Safe-gets _ λ _ _. tt) λ s _.
        Safe-bind _ _
          (Safe-lifted _ (child_result-Ensures p q laws _ _ c inner (enabled_short s) has))
          λ r _.
            Safe-bind _ _ (install-Safe r.0 r.1 fresh.clock)
              λ _ _. Safe-bind _ _ (Safe-modify _ λ _ h. h) λ _ _. after_install-Safe c fresh

  latch_pfs-kept :
      (d : Option Dh) (s : Session p.Aead) → IsOrderly v s → IsOrderly v (latch_pfs p q d s)
  unfolding latch_pfs
  latch_pfs-kept none s h = h
  latch_pfs-kept (some d) s h = h

  module _ (msg_id : ℕ) (via_old : Bool) (fresh : Fresh) (f : IsFresh fresh)
      (same : via_old ≡ true → v ≡ true) where
    accept_child_rekey-Safe :
        (r : ChildRequest) (prop : Proposal) (suite : TransformSuite esp_layer) (d : Option Dh)
        (secret : Option (List ℕ)) (new_spi nr : List ℕ) (child : ChildSa)
        → length prop.spi ≡ 4
        → IsShort suite
        → length new_spi ≡ 4
        → Safe
            (IsOrderly v)
            Any
            (accept_child_rekey p q msg_id via_old r prop suite d secret new_spi nr child fresh)
    unfolding accept_child_rekey
    accept_child_rekey-Safe r prop suite d secret new_spi nr child size short new_size =
        Safe-bind {Q = Any} _ _ (Safe-gets _ λ _ _. tt) λ s _.
          Safe-bind _ _ (Safe-lifted _ (uint32_at-Ensures prop.spi size)) λ server_spi _.
            Safe-bind _ _ (Safe-lifted _ (uint32_at-Ensures new_spi new_size)) λ new_in_spi _.
              Safe-bind _ _ (encode_response-Safe p laws v _ msg_id via_old _ fresh.iv same)
                λ raw _.
                  Safe-bind _ _
                    (Safe-lifted _
                      (responder_keys-Ensures p q laws _ secret r.request_nonce nr suite short))
                    λ keys _. Safe-bind _ _ (Safe-modify _ (latch_pfs-kept d)) λ _ _.
                      Safe-bind _ _ (install-Safe _ keys fresh.clock) λ _ _.
                        Safe-bind _ _ (Safe-modify _ λ _ h. h)
                          λ _ _. respond-Safe p laws v msg_id via_old fresh raw

    failure-Safe : Safe (IsOrderly v) Any (send_temporary_failure p msg_id via_old fresh.iv fresh)
    failure-Safe = send_temporary_failure-Safe p laws v msg_id via_old fresh.iv fresh same

    handle_child_choice-Safe :
        (r : ChildRequest) (child : ChildSa) (c : Choice esp_layer)
        → Chosen IsShort c
        → Safe (IsOrderly v) Any (handle_child_choice p q msg_id via_old r child fresh c)
    unfolding handle_child_choice spi_len
    handle_child_choice-Safe r child other_group h =
        send_invalid_ke_payload-Safe p laws v msg_id via_old fresh same
    handle_child_choice-Safe r child refusal h =
        Safe-bind _ _ (send_notify_response-Safe p laws v msg_id via_old _ _ _ fresh.iv fresh same)
          λ _ _. Safe-fail _
    handle_child_choice-Safe r child (chosen prop suite) h =
        Safe-bind _ _
          (Safe-answered _ _ (responder_dh-Ensures p q laws r.ke_request fresh.dh_draw)
            failure-Safe)
          λ d has.
            Safe-bind _ _
              (Safe-answered _ _ (responder_secret-Ensures p q laws d r.ke_request has)
                (send_notify_response-Safe p laws v msg_id via_old _ _ _ fresh.iv fresh same))
              λ secret _.
                Safe-bind _ _ (Safe-answered _ _ (or_err-OnSome fresh.spi _ f) failure-Safe)
                  λ new_spi new_size.
                    Safe-bind {Q = Any} _ _
                      (Safe-answered _ _ (or_err-Ensures _ _ λ _ _. tt) failure-Safe)
                      λ nr _.
                        accept_child_rekey-Safe r prop suite d secret new_spi nr child h.0 h.1
                          new_size

    pub handle_child_rekey_request-Safe :
        (inner : List Payload)
        → Safe (IsOrderly v) Any (handle_child_rekey_request p q msg_id via_old inner fresh)
    unfolding handle_child_rekey_request
    handle_child_rekey_request-Safe inner = Safe-bind {Q = Any} _ _ (Safe-gets _ λ _ _. tt) λ s _.
        Safe-bind {Q = Any} _ _
          (Safe-answered _ _ (or_err-Ensures _ _ λ _ _. tt)
            (send_notify_response-Safe p laws v msg_id via_old _ _ _ fresh.iv fresh same))
          λ child _.
            Safe-bind _ _
              (Safe-answered _ _ (child_rekey_request_payloads-Ensures inner)
                (send_notify_response-Safe p laws v msg_id via_old _ _ _ fresh.iv fresh same))
              λ r _.
                handle_child_choice-Safe r child _
                  (choose-Chosen IsShort r.offers _ _ (enabled_short s))
