-- ===== src/Session/Driver/Runs.antt =====
-- Driver over any sequence of datagrams and ticks.
use go_ipsec.Common.{
  ℕ, ◌≡◌, Bool, true, false, Option, List, [], ◌∷◌, All, ltb, Outcome, ok, err, panic, stuck, Any,
  Ensures, yields,
}
use go_ipsec.Crypto.{Primitives, Lawful}
use go_ipsec.Ikesa.Dh.{DhPrimitives}
use go_ipsec.Ikesa.Sk.Total.{map_err-Ensures}
use go_ipsec.Session.Window.{Instant, Session, Verdict, idle, busy, dead}
use go_ipsec.Session.Act.{Fresh, Act}
use go_ipsec.Session.Act.Safe.{
  Leaves, Safe, Safe-bind, Safe-pure, Safe-gets, Safe-modify, Safe-if, Safe-tried, Safe-logged,
}
use go_ipsec.Session.Driver.Loop.{
  Traffic, probe, start_exchange, after_tick, housekeeping, Event, datagram, ticked, handle_event,
  go_on, drive, must_reestablish, is_voluminous, ike_is_due, child_is_due, dpd_interval, idle_time,
}
use go_ipsec.Session.Act.Quiet.{yielded}
use go_ipsec.Session.Driver.Quiet.{drive-Quiet}
use go_ipsec.Session.Driver.Orderly.{IsOrderly}
use go_ipsec.Session.Driver.Rekeys.{IsFresh, initiate_child_rekey-Safe}
use go_ipsec.Session.Driver.IkeRekeys.{initiate_ike_rekey-Safe}
use go_ipsec.Session.Driver.Handlers.{note_reestablishment-Safe}
use go_ipsec.Session.Driver.Inbound.{handle_inbound-Safe}
use go_ipsec.Session.Driver.Ticks.{initiate_dpd-Probes, Ticked, tick-Ticked}

module _ (p : Primitives) (q : DhPrimitives) (laws : Lawful p) where
  probe-Safe : (fast : Bool) (fresh : Fresh) → Safe (IsOrderly false) Any (probe p q fast fresh)
  unfolding probe
  probe-Safe fast fresh = record {
    runs = λ s h.
        let (e, k) = initiate_dpd-Probes p laws s fresh.clock fast fresh.iv h in
        record { result = map_err-Ensures _ _ e; kept = k };
  }

  start_exchange-Safe :
      (now : ℕ) (traffic : Traffic) (fresh : Fresh)
      → IsFresh fresh
      → Safe (IsOrderly false) Any (start_exchange p q now traffic fresh)
  unfolding start_exchange
  start_exchange-Safe now traffic fresh f =
      let child : (again : Bool) → Safe (IsOrderly false) Any _ =
        λ again. initiate_child_rekey-Safe p q laws false again fresh f in
      Safe-bind {Q = Any} _ _ (Safe-gets _ λ _ _. tt) λ s _.
        Safe-if s.fast_dpd_due _ _
          (λ _. Safe-bind _ _ (Safe-modify _ λ _ h. h) λ _ _. Safe-logged _ (probe-Safe true fresh))
          λ _.
            Safe-if (must_reestablish s now) _ _
              (λ _.
                Safe-bind _ _ (Safe-tried _ (child true))
                  λ r e. note_reestablishment-Safe false _ r e)
              λ _.
                Safe-if (is_voluminous s now traffic) _ _
                  (λ _. Safe-bind _ _ (Safe-modify _ λ _ h. h) λ _ _. Safe-logged _ (child false))
                  λ _.
                    Safe-if (ike_is_due s now) _ _
                      (λ _.
                        Safe-bind _ _ (Safe-modify _ λ _ h. h)
                          λ _ _. Safe-logged _ (initiate_ike_rekey-Safe p q laws false fresh))
                      λ _.
                        Safe-if (child_is_due s now) _ _
                          (λ _.
                            Safe-bind _ _ (Safe-modify _ λ _ h. h)
                              λ _ _. Safe-logged _ (child false))
                          λ _.
                            Safe-if (ltb (dpd_interval s) (idle_time s now traffic)) _ _
                              (λ _. Safe-logged _ (probe-Safe false fresh)) λ _. Safe-pure tt tt

  module _ (now : Instant) (later : ℕ) (random : Option (List ℕ)) (traffic : Traffic)
      (fresh : Fresh) (f : IsFresh fresh) where
    after_tick-Leaves :
        (r : Outcome ⊥ (Verdict × Session p.Aead)) (s : Session p.Aead)
        → Ensures (Ticked p laws) r
        → Leaves (IsOrderly false) Any (after_tick p q r now.mono traffic fresh s)
    unfolding after_tick
    after_tick-Leaves (ok (dead, s')) s (yields h) = record { result = yields tt; kept = h }
    after_tick-Leaves (ok (busy, s')) s (yields h) = record { result = yields tt; kept = h }
    after_tick-Leaves (ok (idle, s')) s (yields h) =
        (Safe-bind _ _ (start_exchange-Safe now.mono traffic fresh f)
            λ _ _. Safe-pure false tt).runs
          s' h
    after_tick-Leaves (err e) s h = absurd e
    after_tick-Leaves panic s h = elim h [ ]
    after_tick-Leaves stuck s h = elim h [ ]

    housekeeping-Safe : Safe (IsOrderly false) Any (housekeeping p q now later random traffic fresh)
    unfolding housekeeping
    housekeeping-Safe = record {
      runs = λ s h. after_tick-Leaves _ s (tick-Ticked p laws s now later random h);
    }

  -- Where crypto/rand gives an SPI for a Child SA, it gives the 4 bytes that were asked for.
  abbrev pub IsSupplied : Event → Type 0
  IsSupplied (datagram raw now fresh) = (i : ℕ) → IsFresh (fresh i)
  IsSupplied (ticked now later random traffic fresh) = IsFresh fresh

  handle_event-Safe : (e : Event) → IsSupplied e → Safe (IsOrderly false) Any (handle_event p q e)
  unfolding handle_event
  handle_event-Safe (datagram raw now fresh) f = handle_inbound-Safe p q laws raw now fresh f
  handle_event-Safe (ticked now later random traffic fresh) f =
      housekeeping-Safe now later random traffic fresh f

  go_on-Safe :
      (ended : Bool) (rest : Act p.Aead Bool)
      → Safe (IsOrderly false) Any rest
      → Safe (IsOrderly false) Any (go_on p q ended rest)
  unfolding go_on
  go_on-Safe true rest h = Safe-pure true tt
  go_on-Safe false rest h = h

  drive-Safe : (es : List Event) → All IsSupplied es → Safe (IsOrderly false) Any (drive p q es)
  unfolding drive
  drive-Safe [] h = Safe-pure false tt
  drive-Safe (e ∷ es) (f, h) =
      Safe-bind _ _ (handle_event-Safe e f) λ ended _. go_on-Safe ended _ (drive-Safe es h)

  -- The driver goes through any datagrams and ticks, whatever their bytes and clocks, without a panic and
  -- without an error: it ends, or is ready for the next one, and the session keeps the invariant that it had: the
  -- SAs of AEAD suites have their ciphers, an outstanding request has the latest message ID and what
  -- completes it, a response is there for each request that was answered, and there is a data plane. The
  -- cryptography keeps its laws, and an SPI that crypto/rand gives for a Child SA has 4 bytes.
  pub drive-returns :
      (es : List Event) (s : Session p.Aead)
      → All IsSupplied es
      → IsOrderly false s
      → ((ended : Bool) × ((drive p q es s).0 ≡ ok ended)) × IsOrderly false (drive p q es s).1
  drive-returns es s supplied h =
      let left = (drive-Safe es supplied).runs s h in
      (yielded _ ((drive-Quiet p q es).none_of s) left.result, left.kept)
