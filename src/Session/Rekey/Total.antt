-- ===== src/Session/Rekey/Total.antt =====
-- Reading the payloads of a rekey and deriving its keys returns, whatever the peer sends.
use go_ipsec.Common.{
  ℕ, ◌≡◌, Bool, true, false, Option, none, some, List, [], ◌∷◌, All, length, ◌&&◌, arith, err,
  or_err, lift, Any, Ensures, yields, fails, Ensures-bind, Ensures-if, Ensures-fail_if,
  Ensures-uint32_at,
}
use go_ipsec.Crypto.{Primitives, Lawful}
use go_ipsec.Ikemsg.Message.{
  Payload, sa, ke, idi, idr, cert, cert_request, auth, nonce, notify, delete, vendor_id, tsi, tsr,
  encrypted, config, eap,
}
use go_ipsec.Ikemsg.Simple.{KePayload}
use go_ipsec.Ikesa.{derive_child_keys, derive_child_keys_pfs}
use go_ipsec.Ikesa.KeyStream.{derive_child_keys_pfs-split}
use go_ipsec.Ikesa.Dh.{DhPrimitives, Dh, Randomness}
use go_ipsec.Ikesa.Dh.Total.{HasKey, new_dh-Ensures, shared-Ensures}
use go_ipsec.Ikesa.Sk.Total.{or_err-Ensures, map_err-Ensures}
use go_ipsec.Session.Suites.{esp_layer, TransformSuite}
use go_ipsec.Session.Suites.Lengths.{OnSome, IsShort, selected_suite-OnSome}
use go_ipsec.Session.Window.{ChildRekey}
use go_ipsec.Session.Act.{DriverError, error_notify}
use go_ipsec.Session.Rekey.Payloads.{
  Contents, contents_from, contents, notify_error, ChildResponse, child_rekey_response,
  child_rekey_request_payloads, ike_rekey_payloads,
}
use go_ipsec.Session.Rekey.Negotiation.{
  make_dh, initiator_keys, child_result, responder_keys, responder_dh, responder_secret,
}

contents_from-Ensures :
    (stops : Bool) (c : Contents) (inner : List Payload) → Ensures Any (contents_from stops c inner)
unfolding contents_from
contents_from-Ensures stops c [] = yields tt
contents_from-Ensures stops c (sa ps ∷ rest) = contents_from-Ensures stops _ rest
contents_from-Ensures stops c (nonce bytes ∷ rest) = contents_from-Ensures stops _ rest
contents_from-Ensures stops c (ke k ∷ rest) = contents_from-Ensures stops _ rest
contents_from-Ensures stops c (tsi ts ∷ rest) = contents_from-Ensures stops _ rest
contents_from-Ensures stops c (tsr ts ∷ rest) = contents_from-Ensures stops _ rest
contents_from-Ensures stops c (notify n ∷ rest) =
    Ensures-if (stops && notify_error n) (err error_notify) _ (λ _. fails)
      (λ _. contents_from-Ensures stops c rest)
contents_from-Ensures stops c (idi x ∷ rest) = contents_from-Ensures stops c rest
contents_from-Ensures stops c (idr x ∷ rest) = contents_from-Ensures stops c rest
contents_from-Ensures stops c (cert x ∷ rest) = contents_from-Ensures stops c rest
contents_from-Ensures stops c (cert_request x ∷ rest) = contents_from-Ensures stops c rest
contents_from-Ensures stops c (auth x ∷ rest) = contents_from-Ensures stops c rest
contents_from-Ensures stops c (delete x ∷ rest) = contents_from-Ensures stops c rest
contents_from-Ensures stops c (vendor_id x ∷ rest) = contents_from-Ensures stops c rest
contents_from-Ensures stops c (encrypted t x ∷ rest) = contents_from-Ensures stops c rest
contents_from-Ensures stops c (config x ∷ rest) = contents_from-Ensures stops c rest
contents_from-Ensures stops c (eap x ∷ rest) = contents_from-Ensures stops c rest

contents-Ensures : (stops : Bool) (inner : List Payload) → Ensures Any (contents stops inner)
unfolding contents
contents-Ensures stops inner = contents_from-Ensures stops _ inner

pub or_err-OnSome :
    {E A : Type 0} {P : A → Type 0} (o : Option A) (e : E) → OnSome P o → Ensures P (or_err o e)
unfolding or_err
or_err-OnSome none e h = fails
or_err-OnSome (some a) e h = yields h

-- A selection has an SPI of 4 bytes, and its suite a key stream that is long enough.
pub record IsSelection (r : ChildResponse) : Type 0 where
  spi_size : length r.proposal.spi ≡ 4
  short : IsShort r.suite

pub child_rekey_response-Ensures :
    (rows : List (TransformSuite esp_layer)) (inner : List Payload)
    → All IsShort rows
    → Ensures IsSelection (child_rekey_response rows inner)
unfolding child_rekey_response
child_rekey_response-Ensures rows inner h = Ensures-bind _ _ (contents-Ensures true inner) λ c _.
    Ensures-bind {Q = Any} _ _ (or_err-Ensures _ _ λ _ _. tt) λ proposals _.
      Ensures-bind {Q = Any} _ _ (or_err-Ensures _ _ λ _ _. tt) λ prop _.
        Ensures-bind _ _ (or_err-OnSome _ _ (selected_suite-OnSome IsShort prop rows h))
          λ suite short. Ensures-fail_if _ _ _ λ sized.
            Ensures-fail_if _ _ _
              λ _. yields (record { spi_size = ground (arith, sized); short = short })

pub child_rekey_request_payloads-Ensures :
    (inner : List Payload) → Ensures Any (child_rekey_request_payloads inner)
unfolding child_rekey_request_payloads
child_rekey_request_payloads-Ensures inner = Ensures-bind _ _ (contents-Ensures false inner) λ c _.
    Ensures-bind {Q = Any} _ _ (or_err-Ensures _ _ λ _ _. tt)
      λ proposals _. Ensures-fail_if _ _ _ λ _. yields tt

pub ike_rekey_payloads-Ensures : (inner : List Payload) → Ensures Any (ike_rekey_payloads inner)
unfolding ike_rekey_payloads
ike_rekey_payloads-Ensures inner = Ensures-bind _ _ (contents-Ensures true inner) λ c _.
    Ensures-bind {Q = Any} _ _ (or_err-Ensures _ _ λ _ _. tt) λ proposals _.
      Ensures-fail_if _ _ _ λ _.
        Ensures-bind {Q = Any} _ _ (or_err-Ensures _ _ λ _ _. tt)
          λ k _. Ensures-fail_if _ _ _ λ _. yields tt

module _ (p : Primitives) (q : DhPrimitives) (laws : Lawful p) where
  child_keys-Ensures :
      (sk_d secret ni nr : List ℕ) (suite : TransformSuite esp_layer)
      → IsShort suite
      → Ensures Any (
          lift {E = DriverError} (
            derive_child_keys_pfs p.hmac_sha256 sk_d secret ni nr suite.encr_key_len
              suite.integ_key_len))
  unfolding lift
  child_keys-Ensures sk_d secret ni nr suite short =
      let split =
        derive_child_keys_pfs-split p.hmac_sha256 sk_d secret ni nr suite.encr_key_len
          suite.integ_key_len laws.hmac_length short in
      rw split.1 (yields tt)

  initiator_keys-Ensures :
      (sk_d : List ℕ) (c : ChildRekey) (d : Option Dh) (k : Option KePayload) (r : ChildResponse)
      → OnSome HasKey d
      → IsShort r.suite
      → Ensures Any (initiator_keys p q sk_d c d k r)
  unfolding initiator_keys derive_child_keys
  initiator_keys-Ensures sk_d c (some d) (some k) r has short = Ensures-fail_if _ _ _ λ _.
      Ensures-bind _ _ (map_err-Ensures _ _ (shared-Ensures q d has k.bytes))
        λ secret _. child_keys-Ensures sk_d secret c.ni r.nr r.suite short
  initiator_keys-Ensures sk_d c none (some k) r has short = fails
  initiator_keys-Ensures sk_d c (some d) none r has short =
      Ensures-fail_if _ _ _ λ _. child_keys-Ensures sk_d [] c.ni r.nr r.suite short
  initiator_keys-Ensures sk_d c none none r has short =
      child_keys-Ensures sk_d [] c.ni r.nr r.suite short

  pub child_result-Ensures :
      (rows : List (TransformSuite esp_layer)) (sk_d : List ℕ) (c : ChildRekey)
      (inner : List Payload)
      → All IsShort rows
      → OnSome HasKey c.dh
      → Ensures Any (child_result p q rows sk_d c inner)
  unfolding child_result
  child_result-Ensures rows sk_d c inner h has =
      Ensures-bind _ _ (child_rekey_response-Ensures rows inner h) λ r fits.
        Ensures-uint32_at _ _ _ (omega (arith, fits.spi_size)) λ resp_spi _.
          Ensures-bind _ _ (initiator_keys-Ensures sk_d c c.dh r.ke_answer r has fits.short)
            λ keys _. yields tt

  pub responder_keys-Ensures :
      (sk_d : List ℕ) (secret : Option (List ℕ)) (ni nr : List ℕ) (suite : TransformSuite esp_layer)
      → IsShort suite
      → Ensures Any (responder_keys p q sk_d secret ni nr suite)
  unfolding responder_keys derive_child_keys
  responder_keys-Ensures sk_d none ni nr suite short = child_keys-Ensures sk_d [] ni nr suite short
  responder_keys-Ensures sk_d (some secret) ni nr suite short =
      child_keys-Ensures sk_d secret ni nr suite short

  pub make_dh-Ensures :
      (t : Bool) (group : ℕ) (random : Randomness)
      → Ensures (OnSome HasKey) (make_dh p q t group random)
  unfolding make_dh
  make_dh-Ensures false group random = yields tt
  make_dh-Ensures true group random =
      Ensures-bind _ _ (map_err-Ensures _ _ (new_dh-Ensures q group random)) λ d has. yields has

  pub responder_dh-Ensures :
      (k : Option KePayload) (random : Randomness)
      → Ensures (OnSome HasKey) (responder_dh p q k random)
  unfolding responder_dh
  responder_dh-Ensures none random = yields tt
  responder_dh-Ensures (some k) random = make_dh-Ensures true k.group random

  pub responder_secret-Ensures :
      (d : Option Dh) (k : Option KePayload)
      → OnSome HasKey d
      → Ensures Any (responder_secret p q d k)
  unfolding responder_secret
  responder_secret-Ensures (some d) (some k) has =
      Ensures-bind _ _ (map_err-Ensures _ _ (shared-Ensures q d has k.bytes)) λ secret _. yields tt
  responder_secret-Ensures (some d) none has = yields tt
  responder_secret-Ensures none (some k) has = yields tt
  responder_secret-Ensures none none has = yields tt
