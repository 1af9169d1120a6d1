-- ===== src/Session/Act.antt =====
-- The driver's functions: they read and change the session, and may return an error. A change that was made
-- before an error stays. What such a function takes from outside is an argument.
pub mod Quiet
pub mod Safe
use go_ipsec.Common.{
  ℕ, ◌+◌, Bool, true, false, Option, none, some, List, if◌then◌else◌, Outcome, ok, err, panic,
  stuck, map_err,
}
use go_ipsec.Crypto.{Primitives}
use go_ipsec.Ikesa.Dh.{DhError, Randomness}
use go_ipsec.Ikesa.Keys.{IkeError, IkeSa}
use go_ipsec.Ikemsg.Message.{Payload}
use go_ipsec.Session.Protected.{SessionError, IkeContext, ike_role_bit, encode_sk_with}
use go_ipsec.Session.Window.{Session, send_datagram}

pub data DriverError : Type 0 where
  session : SessionError → DriverError
  dh : DhError → DriverError
  ike : IkeError → DriverError
  no_random send_failed no_child : DriverError
  error_notify missing_sa missing_nonce missing_ke no_proposal : DriverError
  bad_selection wrong_group unsolicited_ke omitted_ke : DriverError

-- What one operation takes from outside: the clock, what crypto/rand gives for SPIs, the nonce, the
-- Diffie-Hellman key and the IVs of two messages, how the jitter scales a lifetime, and whether Send fails.
pub record Fresh : Type 0 where
  pub clock : ℕ
  pub spi : Option (List ℕ)
  pub spi64 : Option ℕ
  pub nonce_bytes : Option (List ℕ)
  pub dh_draw : Randomness
  pub iv : Option (List ℕ)
  pub iv_again : Option (List ℕ)
  pub scale : ℕ → ℕ
  pub send_fails : Bool

abbrev pub Act : Type 0 → Type 0 → Type 0
Act Aead A = Session Aead → Outcome DriverError A × Session Aead

module _ {Aead : Type 0} where
  unfoldable pub pure : {A : Type 0} → A → Act Aead A
  pure a s = (ok a, s)

  unfoldable pub fail : {A : Type 0} → DriverError → Act Aead A
  fail e s = (err e, s)

  unfoldable pub lifted : {A : Type 0} → Outcome DriverError A → Act Aead A
  lifted m s = (m, s)

  unfoldable pub gets : {A : Type 0} → (Session Aead → A) → Act Aead A
  gets f s = (ok (f s), s)

  unfoldable pub modify : (Session Aead → Session Aead) → Act Aead (Unit {0})
  modify f s = (ok tt, f s)

  unfoldable pub and_then :
      {A B : Type 0}
      → Outcome DriverError A × Session Aead
      → (A → Act Aead B)
      → Outcome DriverError B × Session Aead
  and_then (ok a, s) f = f a s
  and_then (err e, s) f = (err e, s)
  and_then (panic, s) f = (panic, s)
  and_then (stuck, s) f = (stuck, s)

  infixl 5 ◌>>=◌ ◌>>◌
  unfoldable pub ◌>>=◌ : {A B : Type 0} → Act Aead A → (A → Act Aead B) → Act Aead B
  (m >>= f) s = and_then (m s) f

  abbrev pub ◌>>◌ : {B : Type 0} → Act Aead (Unit {0}) → Act Aead B → Act Aead B
  m >> k = m >>= λ _. k

  unfoldable pub act_if : Bool → DriverError → Act Aead (Unit {0})
  act_if true e = fail e
  act_if false e = pure tt

  unfoldable pub drawn : {A : Type 0} → Option A → Act Aead A
  drawn none = fail no_random
  drawn (some a) = pure a

  -- A step whose error is answered before it is returned.
  unfoldable pub answered : {A : Type 0} → Outcome DriverError A → Act Aead (Unit {0}) → Act Aead A
  answered (ok a) answer = pure a
  answered (err e) answer = answer >>= λ _. fail e
  answered panic answer = lifted panic
  answered stuck answer = lifted stuck

  -- A call whose result is looked at.
  unfoldable pub tried : {A : Type 0} → Act Aead A → Act Aead (Outcome DriverError A)
  tried m s = let (r, s') = m s in (ok r, s')

  -- A call whose error is only logged.
  unfoldable pub forgive :
      Outcome DriverError (Unit {0}) × Session Aead → Outcome DriverError (Unit {0}) × Session Aead
  forgive (err e, s) = (ok tt, s)
  forgive (m, s) = (m, s)

  unfoldable pub logged : Act Aead (Unit {0}) → Act Aead (Unit {0})
  logged m s = forgive (m s)

  -- sendDatagram, with the error that Send returns.
  unfoldable pub send : Fresh → List ℕ → Act Aead (Unit {0})
  send fresh raw s = (if fresh.send_fails then err send_failed else ok tt, send_datagram s raw)

module _ (p : Primitives) where
  -- The SA under which a request came in, and under which it is answered.
  unfoldable pub answering : Session p.Aead → Bool → Option (IkeContext p.Aead)
  answering s via_old = if via_old then s.old_ike else some s.current

  unfoldable pub keep_sa : Bool → IkeContext p.Aead → IkeSa p.Aead → Session p.Aead → Session p.Aead
  keep_sa via_old dec sa' s =
      let dec' : IkeContext p.Aead = record dec { ike_sa = sa' } in
      if via_old then record s { old_ike = some dec' } else record s { current = dec' }

  -- A nil context is dereferenced.
  unfoldable pub encode_under :
      Option (IkeContext p.Aead)
      → Bool
      → ℕ
      → ℕ
      → ℕ
      → List Payload
      → Option (List ℕ)
      → Act p.Aead (List ℕ)
  encode_under none via_old exchange flags msg_id inner iv s = (panic, s)
  encode_under (some dec) via_old exchange flags msg_id inner iv s =
      let (encoded, sa') =
        encode_sk_with p dec.ike_sa dec.spii dec.spir exchange
          (ike_role_bit dec.ike_sa.role + flags) msg_id inner iv in
      (map_err session encoded, keep_sa via_old dec sa' s)

  -- encodeSK, for a request with the next message ID.
  unfoldable pub encode_request : ℕ → List Payload → Option (List ℕ) → Act p.Aead (List ℕ)
  encode_request exchange inner iv s =
      encode_under (some s.current) false exchange 0 s.message_id inner iv s
