-- ===== src/Session/Act/Quiet.antt =====
-- Functions of the driver that return no error.
use go_ipsec.Common.{
  ◌≡◌, refl, Bool, true, false, if◌then◌else◌, Outcome, ok, err, panic, stuck, Any, Ensures,
}
use go_ipsec.Session.Window.{Session}
use go_ipsec.Session.Act.{
  DriverError, Act, pure, lifted, gets, modify, and_then, ◌>>=◌, tried, forgive, logged,
}

abbrev pub IsNoError : {A : Type 0} → Outcome DriverError A → Type 0
IsNoError (ok a) = Unit {0}
IsNoError (err e) = ⊥
IsNoError panic = Unit {0}
IsNoError stuck = Unit {0}

pub record Quiet {Aead : Type 0} {A : Type 0} (m : Act Aead A) : Type 0 where
  pub none_of : (s : Session Aead) → IsNoError (m s).0

pub yielded :
    {A : Type 0} (r : Outcome DriverError A) → IsNoError r → Ensures Any r → (a : A) × (r ≡ ok a)
yielded (ok a) h e = (a, refl)
yielded (err x) h e = absurd h
yielded panic h e = elim e [ ]
yielded stuck h e = elim e [ ]

module _ {Aead : Type 0} where
  from_result :
      {A B : Type 0} (r : Outcome DriverError A × Session Aead) (f : A → Act Aead B)
      → IsNoError r.0
      → ((a : A) → Quiet (f a))
      → IsNoError (and_then r f).0
  unfolding and_then
  from_result (ok a, s) f h k = (k a).none_of s
  from_result (err e, s) f h k = absurd h
  from_result (panic, s) f h k = tt
  from_result (stuck, s) f h k = tt

  pub Quiet-bind :
      {A B : Type 0} (m : Act Aead A) (f : A → Act Aead B)
      → Quiet m
      → ((a : A) → Quiet (f a))
      → Quiet (m >>= f)
  unfolding ◌>>=◌
  Quiet-bind m f h k = record { none_of = λ s. from_result (m s) f (h.none_of s) k }

  pub Quiet-pure : {A : Type 0} (a : A) → Quiet {Aead = Aead} (pure a)
  unfolding pure
  Quiet-pure a = record { none_of = λ s. tt }

  pub Quiet-gets : {A : Type 0} (f : Session Aead → A) → Quiet (gets f)
  unfolding gets
  Quiet-gets f = record { none_of = λ s. tt }

  pub Quiet-modify : (f : Session Aead → Session Aead) → Quiet (modify f)
  unfolding modify
  Quiet-modify f = record { none_of = λ s. tt }

  pub Quiet-tried : {A : Type 0} (m : Act Aead A) → Quiet (tried m)
  unfolding tried
  Quiet-tried m = record { none_of = λ s. tt }

  pub Quiet-lifted :
      {A : Type 0} (r : Outcome DriverError A) → IsNoError r → Quiet {Aead = Aead} (lifted r)
  unfolding lifted
  Quiet-lifted r h = record { none_of = λ s. h }

  forgiven_error : (r : Outcome DriverError (Unit {0}) × Session Aead) → IsNoError (forgive r).0
  unfolding forgive
  forgiven_error (ok a, s) = tt
  forgiven_error (err e, s) = tt
  forgiven_error (panic, s) = tt
  forgiven_error (stuck, s) = tt

  pub Quiet-logged : (m : Act Aead (Unit {0})) → Quiet (logged m)
  unfolding logged
  Quiet-logged m = record { none_of = λ s. forgiven_error (m s) }

  pub Quiet-if :
      {A : Type 0} (t : Bool) (m n : Act Aead A) → Quiet m → Quiet n → Quiet (if t then m else n)
  Quiet-if true m n h k = h
  Quiet-if false m n h k = k
