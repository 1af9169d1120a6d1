-- ===== src/Session/Driver/Ticks.antt =====
-- The driver's timers keep its invariant, and do not panic.
use mathlib.Core.Path.{subst}
use go_ipsec.Common.{
  ℕ, ◌≡◌, refl, Bool, true, false, Option, none, some, List, [], if◌then◌else◌, Outcome, ok, err,
  panic, stuck, Any, Ensures, yields, fails, inl, inr, Ensures-cases, Option-cases,
}
use go_ipsec.Crypto.{Primitives, Lawful}
use go_ipsec.Ikesa.Sk.Total.{IsKeyed}
use go_ipsec.Ikesa.Sk.Writing.{encrypt_to_sk-Ensures}
use go_ipsec.Ikemsg.Const.{exchange_informational}
use go_ipsec.Session.Protected.{ike_role_bit, SessionError, IkeContext}
use go_ipsec.Session.Protected.Writing.{Writes, sk_message-Ensures}
use go_ipsec.Session.Window.{
  Instant, PendingExchange, Session, encode_sk_empty_with, initiate_dpd, probe_after_wake,
  detect_suspend, expire_context, expire_old_ike, resend_old_delete, retransmit_delete,
  retransmit_old_delete, Verdict, give_up, retry, retransmit_request, retransmit_pending,
  after_probe, tick, send_datagram, no_dedup,
}
use go_ipsec.Session.Driver.Orderly.{IsOrderly, PendingFits, set_pending_none}
use go_ipsec.Session.Driver.Handlers.{if_kept, if_same}

-- Timers and retransmissions, between requests.
module _ {Aead : Type 0} where
  -- A retransmission changes when the outstanding request goes out next, and how often it did.
  same_request :
      (x : PendingExchange) (attempts next_retransmit : ℕ) (fast : Bool) (s : Session Aead)
      → s.pending ≡ some x
      → IsOrderly false s
      → IsOrderly false (record s {
        pending =
            some (record x { attempts = attempts; next_retransmit = next_retransmit; fast = fast });
      })
  same_request x attempts next_retransmit fast s e h = record {
    current_keyed = h.current_keyed;
    old_keyed = h.old_keyed;
    old_there = h.old_there;
    pending_fits = subst (λ o. PendingFits o s.message_id) e h.pending_fits;
    answered_fits = h.answered_fits;
    old_answered_fits = h.old_answered_fits;
    wired = h.wired;
  }

  forget_context :
      (s : Session Aead)
      → IsOrderly false s
      → IsOrderly false (record s { old_ike = none; old_peer = no_dedup; old_ike_delete = none })
  forget_context s h = record {
    current_keyed = h.current_keyed;
    old_keyed = tt;
    old_there = λ e. absurd cc;
    pending_fits = h.pending_fits;
    answered_fits = h.answered_fits;
    old_answered_fits = λ e. absurd cc;
    wired = h.wired;
  }

  expire_context-IsOrderly :
      (o : Option (IkeContext Aead)) (now : ℕ) (s : Session Aead)
      → IsOrderly false s
      → IsOrderly false (expire_context o now s)
  unfolding expire_context
  expire_context-IsOrderly none now s h = h
  expire_context-IsOrderly (some old) now s h = if_same false _ _ _ (forget_context s h) h

  resend_old_delete-IsOrderly :
      (now : ℕ) (d : PendingExchange) (s : Session Aead)
      → IsOrderly false s
      → IsOrderly false (resend_old_delete now d s)
  unfolding resend_old_delete send_datagram
  resend_old_delete-IsOrderly now d s h = if_same false _ _ _ h h

  retransmit_delete-IsOrderly :
      (d : Option PendingExchange) (old : Option (IkeContext Aead)) (now : ℕ) (s : Session Aead)
      → IsOrderly false s
      → IsOrderly false (retransmit_delete d old now s)
  unfolding retransmit_delete
  retransmit_delete-IsOrderly none old now s h = h
  retransmit_delete-IsOrderly (some d) none now s h = h
  retransmit_delete-IsOrderly (some d) (some old) now s h =
      if_same false _ _ _ (resend_old_delete-IsOrderly now d s h) h

  give_up-IsOrderly :
      (now : ℕ) (x : PendingExchange) (s : Session Aead)
      → IsOrderly false s
      → IsOrderly false (give_up now x s).1
  unfolding give_up
  give_up-IsOrderly now x s h =
      let free = set_pending_none false s h in
      if_kept false _ _ _ free (if_same false _ _ _ free free)

  retry-IsOrderly :
      (now : ℕ) (x : PendingExchange) (s : Session Aead)
      → s.pending ≡ some x
      → IsOrderly false s
      → IsOrderly false (retry now x s).1
  unfolding retry send_datagram
  retry-IsOrderly now x s e h =
      if_kept false _ _ _ (give_up-IsOrderly now x s h) (same_request x _ _ x.fast s e h)

  retransmit_request-IsOrderly :
      (o : Option PendingExchange) (now : ℕ) (s : Session Aead)
      → s.pending ≡ o
      → IsOrderly false s
      → IsOrderly false (retransmit_request o now s).1
  unfolding retransmit_request
  retransmit_request-IsOrderly none now s e h = h
  retransmit_request-IsOrderly (some x) now s e h =
      if_kept false _ _ _ (retry-IsOrderly now x s e h) h

  timers-IsOrderly :
      (now : ℕ) (s : Session Aead)
      → IsOrderly false s
      → IsOrderly false
          (retransmit_pending now (retransmit_old_delete now (expire_old_ike now s))).1
  unfolding retransmit_pending retransmit_old_delete expire_old_ike
  timers-IsOrderly now s h =
      retransmit_request-IsOrderly _ now _ refl
        (retransmit_delete-IsOrderly _ _ now _ (expire_context-IsOrderly _ now s h))

module _ (p : Primitives) (laws : Lawful p) where
  encode_sk_empty_with-Writes :
      (c : IkeContext p.Aead) (exchange flags msg_id : ℕ) (random : Option (List ℕ))
      → IsKeyed c.ike_sa
      → Writes (encode_sk_empty_with p c exchange flags msg_id random)
  unfolding encode_sk_empty_with
  encode_sk_empty_with-Writes c exchange flags msg_id random keyed =
      let (sealed, kept) = encrypt_to_sk-Ensures p laws c.ike_sa [] random keyed in
      (sk_message-Ensures p laws _ _ _ _ _ _ _ _ kept sealed, kept)

  -- A probe returns, and leaves the invariant.
  abbrev pub Probes : Outcome SessionError (Unit {0}) × Session p.Aead → Type 0
  Probes r = Ensures Any r.0 × IsOrderly false r.1

  either_way :
      (t : Bool) (a b : Outcome SessionError (Unit {0}) × Session p.Aead)
      → Probes a
      → Probes b
      → Probes (if t then a else b)
  either_way true a b h k = h
  either_way false a b h k = k

  pub initiate_dpd-Probes :
      (s : Session p.Aead) (now : ℕ) (fast : Bool) (random : Option (List ℕ))
      → IsOrderly false s
      → Probes (initiate_dpd p s now fast random)
  unfolding initiate_dpd send_datagram
  initiate_dpd-Probes s now fast random h =
      let (encoded, kept) =
        encode_sk_empty_with-Writes s.current exchange_informational
          (ike_role_bit s.current.ike_sa.role) s.message_id random h.current_keyed in
      elim (Ensures-cases encoded) [
        | inl (raw, e) ↦
            rw (initiate_dpd, e)
              (
                yields tt,
                record {
                  current_keyed = kept;
                  old_keyed = h.old_keyed;
                  old_there = h.old_there;
                  pending_fits = (refl, tt);
                  answered_fits = h.answered_fits;
                  old_answered_fits = h.old_answered_fits;
                  wired = h.wired;
                },
              )
        | inr (x, e) ↦
            rw (initiate_dpd, e)
              (
                fails,
                record {
                  current_keyed = kept;
                  old_keyed = h.old_keyed;
                  old_there = h.old_there;
                  pending_fits = h.pending_fits;
                  answered_fits = h.answered_fits;
                  old_answered_fits = h.old_answered_fits;
                  wired = h.wired;
                },
              )
      ]

  probe_after_wake-Probes :
      (s : Session p.Aead) (now : Instant) (later : ℕ) (random : Option (List ℕ))
      → IsOrderly false s
      → Probes (probe_after_wake p s now later random)
  unfolding probe_after_wake
  probe_after_wake-Probes s now later random h = elim (Option-cases s.pending) [
    | inl nothing ↦ rw (probe_after_wake, nothing) (initiate_dpd-Probes s later true random h)
    | inr (x, there) ↦
        rw (probe_after_wake, there) (yields tt, same_request x x.attempts now.mono true s there h)
  ]

  detect_suspend-Probes :
      (s : Session p.Aead) (now : Instant) (later : ℕ) (random : Option (List ℕ))
      → IsOrderly false s
      → Probes (detect_suspend p s now later random)
  unfolding detect_suspend
  detect_suspend-Probes s now later random h =
      either_way _ _ _ (yields tt, h) (probe_after_wake-Probes _ now later random h)

  -- What a tick leaves.
  abbrev pub Ticked : Verdict × Session p.Aead → Type 0
  Ticked r = IsOrderly false r.1

  after_probe-Ticked :
      (now : ℕ) (r : Outcome SessionError (Unit {0}) × Session p.Aead)
      → Probes r
      → Ensures Ticked (after_probe now r)
  unfolding after_probe
  after_probe-Ticked now (ok a, s) (e, h) = yields (timers-IsOrderly now s h)
  after_probe-Ticked now (err a, s) (e, h) = yields (timers-IsOrderly now s h)
  after_probe-Ticked now (panic, s) (e, h) = elim e [ ]
  after_probe-Ticked now (stuck, s) (e, h) = elim e [ ]

  pub tick-Ticked :
      (s : Session p.Aead) (now : Instant) (later : ℕ) (random : Option (List ℕ))
      → IsOrderly false s
      → Ensures Ticked (tick p s now later random)
  unfolding tick
  tick-Ticked s now later random h =
      after_probe-Ticked now.mono _ (detect_suspend-Probes s now later random h)
