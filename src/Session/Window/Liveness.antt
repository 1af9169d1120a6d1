-- ===== src/Session/Window/Liveness.antt =====
-- A probe that is never answered, over the ticks of the driver.
use mathlib.Core.Path.{subst}
use go_ipsec.Common.{
  ℕ, zero, suc, ◌+◌, ◌*◌, ◌-◌, ◌≤◌, ◌<◌, ◌≡◌, refl, sym, ap, ◌∙◌, Bool, true, false, ◌||◌, Option,
  some, none, List, [], ◌∷◌, Bool-cases, inl, inr, ltb, leb-of_le, arith, ◌==◌, ◌⊎◌, if◌then◌else◌,
  Outcome, ok, ◌>>=◌,
}
use go_ipsec.Crypto.{Primitives}
use go_ipsec.Session.Protected.{IkeContext}
use go_ipsec.Session.Window.{
  fast_dpd_tries, suspend_threshold, retransmit_tries, is_dpd, PendingExchange, Instant, Session,
  pending_tries, pending_backoff, send_datagram, detect_suspend, expire_context, expire_old_ike,
  resend_old_delete, retransmit_delete, retransmit_old_delete, Verdict, idle, busy, dead, give_up,
  retry, retransmit_request, retransmit_pending, after_probe, tick,
}
use go_ipsec.Session.Window.Backoff.{IsBounded, pending_backoff_le}

-- A tick with what it draws from outside: its instant, the clock when a probe is recorded, and randomness.
pub record Draw : Type 0 where
  pub now : Instant
  pub later : ℕ
  pub random : Option (List ℕ)

-- The driver's loop while no datagram comes in, as long as a request is outstanding.
abbrev pub goes_on :
    {Aead : Type 0}
    → (Session Aead → Outcome ⊥ (Verdict × Session Aead))
    → Verdict × Session Aead
    → Outcome ⊥ (Verdict × Session Aead)
goes_on k (busy, s) = k s
goes_on k (idle, s) = ok (idle, s)
goes_on k (dead, s) = ok (dead, s)

unfoldable pub run :
    (p : Primitives) → Session p.Aead → List Draw → Outcome ⊥ (Verdict × Session p.Aead)
run p s [] = ok (busy, s)
run p s (t ∷ ts) = tick p s t.now t.later t.random >>= goes_on (λ s'. run p s' ts)

pred_mul : (k b : ℕ) → 1 ≤ k → (k - 1) * b + b ≡ k * b
pred_mul zero b h = absurd (omega arith)
pred_mul (suc k) b h = grind arith

-- What the steps before the retransmission leave alone.
record Keeps {Aead : Type 0} (s s' : Session Aead) : Type 0 where
  pending_kept : s'.pending ≡ s.pending
  timing_kept : s'.timing ≡ s.timing
  wall_kept : s'.last_tick_wall ≡ s.last_tick_wall

Keeps-refl : {Aead : Type 0} (s : Session Aead) → Keeps s s
Keeps-refl s = record { pending_kept = refl; timing_kept = refl; wall_kept = refl }

Keeps-if :
    {Aead : Type 0} (s a b : Session Aead) (t : Bool)
    → Keeps s a
    → Keeps s b
    → Keeps s (if t then a else b)
Keeps-if s a b true ha hb = ha
Keeps-if s a b false ha hb = hb

Keeps-trans : {Aead : Type 0} (a b c : Session Aead) → Keeps a b → Keeps b c → Keeps a c
Keeps-trans a b c h k = record {
  pending_kept = k.pending_kept ∙ h.pending_kept;
  timing_kept = k.timing_kept ∙ h.timing_kept;
  wall_kept = k.wall_kept ∙ h.wall_kept;
}

module _ {Aead : Type 0} (now : ℕ) (s : Session Aead) where
  same_fields :
      (s' : Session Aead)
      → s'.pending ≡ s.pending
      → s'.timing ≡ s.timing
      → s'.last_tick_wall ≡ s.last_tick_wall
      → Keeps s s'
  same_fields s' e1 e2 e3 = record { pending_kept = e1; timing_kept = e2; wall_kept = e3 }

  expire_context-Keeps : (o : Option (IkeContext Aead)) → Keeps s (expire_context o now s)
  unfolding expire_context
  expire_context-Keeps none = Keeps-refl s
  expire_context-Keeps (some old) =
      Keeps-if s _ s (ltb s.old_ike_until now) (same_fields _ refl refl refl) (Keeps-refl s)

  retransmit_delete-Keeps :
      (d : Option PendingExchange) (o : Option (IkeContext Aead))
      → Keeps s (retransmit_delete d o now s)
  unfolding retransmit_delete resend_old_delete send_datagram
  retransmit_delete-Keeps none o = Keeps-refl s
  retransmit_delete-Keeps (some d) none = same_fields _ refl refl refl
  retransmit_delete-Keeps (some d) (some old) =
      Keeps-if s _ s (ltb d.next_retransmit now)
        (Keeps-if s _ _ (ltb (retransmit_tries s.timing) (d.attempts + 1))
          (same_fields _ refl refl refl) (same_fields _ refl refl refl))
        (Keeps-refl s)

-- A probe that is waited for, with attempts left or used up, at a tick seen at `wall`.
pub record IsProbing {Aead : Type 0} (s : Session Aead) (x : PendingExchange) (wall : ℕ)
    : Type 0 where
  pub waits : s.pending ≡ some x
  pub probes : is_dpd x.kind ≡ true
  pub attempts_left : x.attempts ≤ pending_tries s x
  pub ticked : s.last_tick_wall ≡ wall

or-true : (a b : Bool) → b ≡ true → a || b ≡ true
or-true true b h = refl
or-true false b h = h

-- A tick without a wake in between leads to the retransmission.
module _ (p : Primitives) (s : Session p.Aead) (t : Draw)
    (awake : t.now.wall ≤ s.last_tick_wall + suspend_threshold) where
  ready : Session p.Aead
  ready =
      retransmit_old_delete t.now.mono
        (expire_old_ike t.now.mono (record s { last_tick_wall = t.now.wall }))

  no_wake :
      detect_suspend p s t.now t.later t.random ≡ (ok tt, record s { last_tick_wall = t.now.wall })
  unfolding detect_suspend
  no_wake =
      rw
        (or-true (s.last_tick_wall == 0) _
          (leb-of_le (t.now.wall - s.last_tick_wall) suspend_threshold (omega arith)))
        refl

  tick_run : tick p s t.now t.later t.random ≡ ok (retransmit_pending t.now.mono ready)
  unfolding tick ready after_probe
  tick_run = ap (after_probe t.now.mono) no_wake

  ready-Keeps : Keeps (record s { last_tick_wall = t.now.wall }) ready
  unfolding ready expire_old_ike retransmit_old_delete
  ready-Keeps =
      Keeps-trans _ (expire_old_ike t.now.mono (record s { last_tick_wall = t.now.wall })) _
        (expire_context-Keeps t.now.mono _ _) (retransmit_delete-Keeps t.now.mono _ _ _)

module _ (p : Primitives) (bound gap : ℕ) (short : gap ≤ suspend_threshold) where
  -- The ticks come at least every `gap`, on both clocks, from the last one on.
  abbrev pub AreEvery : Instant → List Draw → Type 0
  AreEvery last [] = Unit {0}
  AreEvery last (t ∷ ts) =
      (t.now.mono ≤ last.mono + gap) × (t.now.wall ≤ last.wall + gap) × AreEvery t.now ts

  -- One of the ticks is later than `time`.
  abbrev pub ReachesBeyond : ℕ → List Draw → Type 0
  ReachesBeyond time [] = ⊥
  ReachesBeyond time (t ∷ ts) = (time < t.now.mono) ⊎ ReachesBeyond time ts

  -- The end of all waiting: a delay and a gap for each attempt that is left.
  abbrev pub deadline : Session p.Aead → PendingExchange → ℕ
  deadline s x = x.next_retransmit + (pending_tries s x - x.attempts) * (bound + gap)

  -- What one tick makes of the probe: it waits on, is sent again, or the peer is dead.
  data Step (s : Session p.Aead) (x : PendingExchange) (t : Draw)
      : Outcome ⊥ (Verdict × Session p.Aead) → Type 0 where
    waits_on :
        {s' : Session p.Aead}
        → t.now.mono ≤ x.next_retransmit
        → pending_tries s' x ≡ pending_tries s x
        → IsProbing s' x t.now.wall
        → s'.timing ≡ s.timing
        → Step s x t (ok (busy, s'))
    sent_again :
        {s' : Session p.Aead} {x' : PendingExchange}
        → x.next_retransmit < t.now.mono
        → x'.attempts ≡ x.attempts + 1
        → x'.next_retransmit ≤ t.now.mono + bound
        → t.now.mono ≤ x'.next_retransmit
        → pending_tries s' x' ≡ pending_tries s x
        → IsProbing s' x' t.now.wall
        → s'.timing ≡ s.timing
        → Step s x t (ok (busy, s'))
    gives_up : {s' : Session p.Aead} → Step s x t (ok (dead, s'))

  -- The same for the state `r` that the first steps of the tick leave.
  module _ (s r : Session p.Aead) (x : PendingExchange) (t : Draw) (b : IsBounded s.timing bound)
      (waiting : r.pending ≡ some x) (timing : r.timing ≡ s.timing)
      (ticked : r.last_tick_wall ≡ t.now.wall) (probes : is_dpd x.kind ≡ true)
      (left : x.attempts ≤ pending_tries s x) where
    tries_kept :
        (s' : Session p.Aead) (x' : PendingExchange)
        → s'.timing ≡ s.timing
        → x'.fast ≡ x.fast
        → pending_tries s' x' ≡ pending_tries s x
    unfolding pending_tries
    tries_kept s' x' e f =
        ap (λ c. if x'.fast then fast_dpd_tries else retransmit_tries c) e
        ∙ ap (λ q. if q then fast_dpd_tries else retransmit_tries s.timing) f

    retry-Step : x.next_retransmit < t.now.mono → Step s x t (ok (retry t.now.mono x r))
    unfolding retry give_up send_datagram pending_tries
    retry-Step due = elim (Bool-cases (ltb (pending_tries r x) (x.attempts + 1))) [
      | inl spent ↦ rw (spent, probes) gives_up
      | inr some_left ↦
          let tries = tries_kept r x timing refl in
          let fits : pending_backoff r x (x.attempts + 1) ≤ bound =
            pending_backoff_le r x bound (x.attempts + 1)
              (subst (λ c. IsBounded c bound) (sym timing) b) in
          let more : x.attempts + 1 ≤ pending_tries r x = ground arith in
          rw some_left (
            sent_again
              {x' = record x {
                attempts = x.attempts + 1;
                next_retransmit = t.now.mono + pending_backoff r x (x.attempts + 1);
              }}
              due refl (omega (arith, fits)) (omega arith) tries
              (record { waits = refl; probes = probes; attempts_left = more; ticked = ticked })
              timing)
    ]

    request-Step : Step s x t (ok (retransmit_pending t.now.mono r))
    unfolding retransmit_pending retransmit_request
    request-Step = elim (Bool-cases (ltb x.next_retransmit t.now.mono)) [
      | inl due ↦
          let e : retransmit_pending t.now.mono r ≡ retry t.now.mono x r =
            ap (λ o. retransmit_request o t.now.mono r) waiting ∙ rw due refl in
          subst (λ v. Step s x t (ok v)) (sym e) (retry-Step (ground arith))
      | inr quiet ↦
          let e : retransmit_pending t.now.mono r ≡ (busy, r) =
            ap (λ o. retransmit_request o t.now.mono r) waiting ∙ rw quiet refl in
          let tries = tries_kept r x timing refl in
          subst (λ v. Step s x t (ok v)) (sym e)
            (waits_on (ground arith) tries
              (record {
                waits = waiting;
                probes = probes;
                attempts_left = omega (arith, tries, left);
                ticked = ticked;
              })
              timing)
    ]

  tick-Step :
      (s : Session p.Aead) (x : PendingExchange) (t : Draw) (wall : ℕ)
      → IsBounded s.timing bound
      → IsProbing s x wall
      → t.now.wall ≤ wall + gap
      → Step s x t (tick p s t.now t.later t.random)
  tick-Step s x t wall b probing near =
      let awake : t.now.wall ≤ s.last_tick_wall + suspend_threshold =
        omega (arith, short, near, probing.ticked) in
      let kept = ready-Keeps p s t awake in
      rw (tick_run p s t awake) (
        request-Step s (ready p s t awake) x t b (kept.pending_kept ∙ probing.waits)
          kept.timing_kept kept.wall_kept probing.probes probing.attempts_left)

  sooner :
      (late early : ℕ) (ts : List Draw)
      → early ≤ late
      → ReachesBeyond late ts
      → ReachesBeyond early ts
  sooner late early [] h beyond = beyond
  sooner late early (t ∷ ts) h (inl now) = inl (omega arith)
  sooner late early (t ∷ ts) h (inr rest) = inr (sooner late early ts h rest)

  -- A step towards the deadline: the rest of the ticks reaches beyond that of the state it leaves.
  after-Step :
      (s : Session p.Aead) (x : PendingExchange) (t : Draw) (ts : List Draw)
      → IsBounded s.timing bound
      → t.now.mono ≤ x.next_retransmit + gap
      → ReachesBeyond (deadline s x) (t ∷ ts)
      → (k : Session p.Aead → Outcome ⊥ (Verdict × Session p.Aead))
      → ((s' : Session p.Aead) (x' : PendingExchange)
          → IsBounded s'.timing bound
          → IsProbing s' x' t.now.wall
          → t.now.mono ≤ x'.next_retransmit
          → ReachesBeyond (deadline s' x') ts
          → (s'' : Session p.Aead) × (k s' ≡ ok (dead, s'')))
      → {o : Outcome ⊥ (Verdict × Session p.Aead)} → Step s x t o
      → (s'' : Session p.Aead) × ((o >>= goes_on k) ≡ ok (dead, s''))
  unfolding ◌>>=◌
  after-Step s x t ts b near beyond k ih (gives_up {s' = s'}) = (s', refl)
  after-Step s x t ts b near (inl now) k ih (waits_on quiet tries probing timing) =
      absurd (omega arith)
  after-Step s x t ts b near (inr rest) k ih (waits_on {s' = s'} quiet tries probing timing) =
      ih s' x (subst (λ c. IsBounded c bound) (sym timing) b) probing quiet (
        subst (λ n. ReachesBeyond (x.next_retransmit + (n - x.attempts) * (bound + gap)) ts)
          (sym tries) rest)
  after-Step s x t ts b near beyond k ih
        (sent_again {s' = s'} {x' = x'} due more late later tries probing timing) =
      let left = pending_tries s x - x.attempts in
      let counted : (left - 1) * (bound + gap) + (bound + gap) ≡ left * (bound + gap) =
        pred_mul left (bound + gap) (omega (arith, more, tries, probing.attempts_left)) in
      let fewer : pending_tries s' x' - x'.attempts ≡ left - 1 = omega (arith, more, tries) in
      let step : deadline s' x' ≤ deadline s x = rw fewer (omega (arith, counted, near, late)) in
      ih s' x' (subst (λ c. IsBounded c bound) (sym timing) b) probing later (elim beyond [
        | inl now ↦ absurd (omega (arith, counted, near, now))
        | inr rest ↦ sooner (deadline s x) (deadline s' x') ts step rest
      ])

  -- The peer of an unanswered probe is declared dead: with ticks at least every `gap`, of at most 5 seconds
  -- so that none is taken for a wake, and retransmission delays of at most `bound`, the driver's loop ends
  -- with the verdict `dead` if one tick is later than the next retransmission by a `bound` and a `gap` for
  -- each attempt that is left. No datagram comes in meanwhile.
  pub run-dead :
      (s : Session p.Aead) (x : PendingExchange) (last : Instant) (ts : List Draw)
      → IsBounded s.timing bound
      → IsProbing s x last.wall
      → last.mono ≤ x.next_retransmit
      → AreEvery last ts
      → ReachesBeyond (deadline s x) ts
      → (s' : Session p.Aead) × (run p s ts ≡ ok (dead, s'))
  unfolding run
  run-dead s x last [] b probing early every beyond = absurd beyond
  run-dead s x last (t ∷ ts) b probing early (mono, wall, every) beyond =
      after-Step s x t ts b (omega arith) beyond (λ s'. run p s' ts)
        (λ s' x' b' probing' early' beyond'.
          run-dead s' x' t.now ts b' probing' early' every beyond')
        (tick-Step s x t last.wall b probing wall)
