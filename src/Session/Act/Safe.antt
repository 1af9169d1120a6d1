-- ===== src/Session/Act/Safe.antt =====
-- Functions of the driver that return from every session with a property, and leave it one.
use go_ipsec.Common.{
  ℕ, ◌≡◌, refl, Bool, true, false, Option, none, some, List, if◌then◌else◌, Outcome, ok, err, panic,
  stuck, Any, Ensures, yields, fails,
}
use go_ipsec.Session.Window.{Session, send_datagram}
use go_ipsec.Session.Act.{
  DriverError, send_failed, Fresh, Act, pure, fail, lifted, gets, modify, and_then, ◌>>=◌, act_if,
  drawn, answered, tried, forgive, logged, send,
}

-- The outcome is no panic, its value has `Q`, and the session has `I`.
pub record Leaves {Aead : Type 0} (I : Session Aead → Type 0) {A : Type 0} (Q : A → Type 0)
    (r : Outcome DriverError A × Session Aead) : Type 0 where
  pub result : Ensures Q r.0
  pub kept : I r.1

pub record Safe {Aead : Type 0} (I : Session Aead → Type 0) {A : Type 0} (Q : A → Type 0)
    (m : Act Aead A) : Type 0 where
  pub runs : (s : Session Aead) → I s → Leaves I Q (m s)

sent_result : (t : Bool) → Ensures {A = Unit {0}} Any (if t then err send_failed else ok tt)
sent_result true = fails
sent_result false = yields tt

module _ {Aead : Type 0} {I : Session Aead → Type 0} where
  leaves :
      {A : Type 0} {Q : A → Type 0} (r : Outcome DriverError A) (s : Session Aead)
      → Ensures Q r
      → I s
      → Leaves I Q (r, s)
  leaves r s h i = record { result = h; kept = i }

  from_result :
      {A B : Type 0} {Q : A → Type 0} {P : B → Type 0} (r : Outcome DriverError A)
      (s : Session Aead) (f : A → Act Aead B)
      → Ensures Q r
      → I s
      → ((a : A) → Q a → Safe I P (f a))
      → Leaves I P (and_then (r, s) f)
  unfolding and_then
  from_result (ok a) s f (yields q) i k = (k a q).runs s i
  from_result (err e) s f fails i k = leaves _ s fails i
  from_result panic s f h i k = elim h [ ]
  from_result stuck s f h i k = elim h [ ]

  pub Safe-bind :
      {A B : Type 0} {Q : A → Type 0} {P : B → Type 0} (m : Act Aead A) (f : A → Act Aead B)
      → Safe I Q m
      → ((a : A) → Q a → Safe I P (f a))
      → Safe I P (m >>= f)
  unfolding ◌>>=◌
  Safe-bind m f h k = record {
    runs = λ s i. let l = h.runs s i in from_result (m s).0 (m s).1 f l.result l.kept k;
  }

  pub Safe-pure : {A : Type 0} {Q : A → Type 0} (a : A) → Q a → Safe I Q (pure a)
  unfolding pure
  Safe-pure a q = record { runs = λ s i. leaves _ s (yields q) i }

  pub Safe-lifted :
      {A : Type 0} {Q : A → Type 0} (m : Outcome DriverError A) → Ensures Q m → Safe I Q (lifted m)
  unfolding lifted
  Safe-lifted m h = record { runs = λ s i. leaves _ s h i }

  pub Safe-fail : {A : Type 0} {Q : A → Type 0} (e : DriverError) → Safe I Q (fail {A = A} e)
  unfolding fail
  Safe-fail e = record { runs = λ s i. leaves _ s fails i }

  pub Safe-gets :
      {A : Type 0} {Q : A → Type 0} (f : Session Aead → A)
      → ((s : Session Aead) → I s → Q (f s))
      → Safe I Q (gets f)
  unfolding gets
  Safe-gets f h = record { runs = λ s i. leaves _ s (yields (h s i)) i }

  pub Safe-modify :
      (f : Session Aead → Session Aead)
      → ((s : Session Aead) → I s → I (f s))
      → Safe I Any (modify f)
  unfolding modify
  Safe-modify f h = record { runs = λ s i. leaves _ (f s) (yields tt) (h s i) }

  pub Safe-if :
      {A : Type 0} {Q : A → Type 0} (t : Bool) (m n : Act Aead A)
      → (t ≡ true → Safe I Q m)
      → (t ≡ false → Safe I Q n)
      → Safe I Q (if t then m else n)
  Safe-if true m n h k = h refl
  Safe-if false m n h k = k refl

  pub Safe-act_if : (t : Bool) (e : DriverError) → Safe I (λ _. t ≡ false) (act_if t e)
  unfolding act_if
  Safe-act_if true e = Safe-fail e
  Safe-act_if false e = Safe-pure tt refl

  pub Safe-drawn :
      {A : Type 0} {Q : A → Type 0} (o : Option A)
      → ((a : A) → o ≡ some a → Q a)
      → Safe I Q (drawn o)
  unfolding drawn
  Safe-drawn none h = Safe-fail _
  Safe-drawn (some a) h = Safe-pure a (h a refl)

  pub Safe-answered :
      {A : Type 0} {Q : A → Type 0} (m : Outcome DriverError A) (answer : Act Aead (Unit {0}))
      → Ensures Q m
      → Safe I Any answer
      → Safe I Q (answered m answer)
  unfolding answered
  Safe-answered (ok a) answer (yields q) h = Safe-pure a q
  Safe-answered (err e) answer fails h = Safe-bind answer _ h (λ _ _. Safe-fail e)
  Safe-answered panic answer x h = elim x [ ]
  Safe-answered stuck answer x h = elim x [ ]

  pub Safe-tried :
      {A : Type 0} {Q : A → Type 0} (m : Act Aead A)
      → Safe I Q m
      → Safe I (λ r. Ensures Q r) (tried m)
  unfolding tried
  Safe-tried m h = record {
    runs = λ s i. let l = h.runs s i in leaves _ (m s).1 (yields l.result) l.kept;
  }

  pub forgiven :
      (r : Outcome DriverError (Unit {0})) (s : Session Aead)
      → Ensures Any r
      → I s
      → Leaves I Any (forgive (r, s))
  unfolding forgive
  forgiven (ok a) s h i = leaves _ s (yields tt) i
  forgiven (err e) s h i = leaves _ s (yields tt) i
  forgiven panic s h i = elim h [ ]
  forgiven stuck s h i = elim h [ ]

  pub Safe-logged : (m : Act Aead (Unit {0})) → Safe I Any m → Safe I Any (logged m)
  unfolding logged
  Safe-logged m h = record {
    runs = λ s i. let l = h.runs s i in forgiven (m s).0 (m s).1 l.result l.kept;
  }

  pub Safe-send :
      (fresh : Fresh) (raw : List ℕ)
      → ((s : Session Aead) → I s → I (send_datagram s raw))
      → Safe I Any (send fresh raw)
  unfolding send
  Safe-send fresh raw h = record { runs = λ s i. leaves _ _ (sent_result fresh.send_fails) (h s i) }
