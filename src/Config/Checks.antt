-- ===== src/Config/Checks.antt =====
-- The steps of `validate` that can fail: the loop over the suites, the credentials, and the local identity.
use go_ipsec.Common.{
  ℕ, ◌<◌, ◌≡◌, refl, ◌⊎◌, inl, inr, arith, Bool, true, false, List, [], ◌∷◌, length, not, ◌&&◌,
  ◌||◌, Bool-cases, if◌then◌else◌, ok, ◌>>=◌, fail_if, bind_values, ok-eq, fail_if-eq-ok,
}
use go_ipsec.Identity.{IkeIdentity, is_zero, default_eap_identity, email, fqdn, contains_at}
use go_ipsec.Session.Suites.{is_among}
use go_ipsec.Config.{Config, validate_suites_from, is_given, check_credentials, default_local_id}

-- The suites are of the layer and new.
abbrev pub AreSuites : (ℕ → Bool) → List ℕ → List ℕ → Type 0
AreSuites known seen [] = Unit {0}
AreSuites known seen (x ∷ xs) =
    (known x ≡ true) × (is_among x seen ≡ false) × AreSuites known (x ∷ seen) xs

pub not-true : (b : Bool) → not b ≡ false → b ≡ true
not-true true h = refl
not-true false h = cc

pub validate_suites_from-AreSuites :
    (known : ℕ → Bool) (seen xs : List ℕ)
    → validate_suites_from known seen xs ≡ ok tt
    → AreSuites known seen xs
unfolding validate_suites_from
validate_suites_from-AreSuites known seen [] h = tt
validate_suites_from-AreSuites known seen (x ∷ xs) h = bind_values h (λ _ of_layer h1.
    bind_values h1 (λ _ new h2. (
      not-true (known x) (fail_if-eq-ok _ _ of_layer),
      fail_if-eq-ok _ _ new,
      validate_suites_from-AreSuites known (x ∷ seen) xs h2,
    )))

pub validate_suites_from-ok :
    (known : ℕ → Bool) (seen xs : List ℕ)
    → AreSuites known seen xs
    → validate_suites_from known seen xs ≡ ok tt
unfolding validate_suites_from fail_if ◌>>=◌
validate_suites_from-ok known seen [] h = refl
validate_suites_from-ok known seen (x ∷ xs) (of_layer, new, rest) =
    rw (of_layer, new) (validate_suites_from-ok known (x ∷ seen) xs rest)

-- One credential: a pre-shared key, or a username with its password.
abbrev pub HasOneCredential : Config → Type 0
HasOneCredential c =
    ((0 < length c.psk) × (length c.eap_username ≡ 0) × (length c.eap_password ≡ 0))
    ⊎ ((length c.psk ≡ 0) × (0 < length c.eap_username) × (0 < length c.eap_password))

one_of :
    (p u w : Bool)
    → p && (u || w) ≡ false
    → not p && not (u || w) ≡ false
    → (u || w) && not u ≡ false
    → (u || w) && not w ≡ false
    → ((p ≡ true) × (u ≡ false) × (w ≡ false)) ⊎ ((p ≡ false) × (u ≡ true) × (w ≡ true))
one_of true true w a b c d = cc
one_of true false true a b c d = cc
one_of true false false a b c d = inl (refl, refl, refl)
one_of false true true a b c d = inr (refl, refl, refl)
one_of false true false a b c d = cc
one_of false false true a b c d = cc
one_of false false false a b c d = cc

pub given : (xs : List ℕ) → is_given xs ≡ true → 0 < length xs
given xs h = ground arith

not_given : (xs : List ℕ) → is_given xs ≡ false → length xs ≡ 0
not_given xs h = ground arith

pub is_given-lt : (xs : List ℕ) → 0 < length xs → is_given xs ≡ true
is_given-lt xs h = ground arith

is_given-zero : (xs : List ℕ) → length xs ≡ 0 → is_given xs ≡ false
is_given-zero xs h = ground arith

pub check_credentials-HasOneCredential :
    (c : Config) → check_credentials c ≡ ok tt → HasOneCredential c
unfolding check_credentials
check_credentials-HasOneCredential c h = bind_values h (λ _ e1 h1. bind_values h1 (λ _ e2 h2.
    bind_values h2 (λ _ e3 h3.
      elim (one_of (is_given c.psk) (is_given c.eap_username) (is_given c.eap_password)
        (fail_if-eq-ok _ _ e1) (fail_if-eq-ok _ _ e2) (fail_if-eq-ok _ _ e3)
        (fail_if-eq-ok _ _ h3)) [
          | inl (p, u, w) ↦
              inl (given c.psk p, not_given c.eap_username u, not_given c.eap_password w)
          | inr (p, u, w) ↦ inr (not_given c.psk p, given c.eap_username u, given c.eap_password w)
        ])))

pub check_credentials_passes : (c : Config) → HasOneCredential c → check_credentials c ≡ ok tt
unfolding check_credentials fail_if ◌>>=◌
check_credentials_passes c (inl (p, u, w)) =
    rw (is_given-lt c.psk p, is_given-zero c.eap_username u, is_given-zero c.eap_password w) refl
check_credentials_passes c (inr (p, u, w)) =
    rw (is_given-zero c.psk p, is_given-lt c.eap_username u, is_given-lt c.eap_password w) refl

-- The local identity after its default.
is_zero-default_eap_identity : (username : List ℕ) → is_zero (default_eap_identity username) ≡ false
unfolding default_eap_identity is_zero email fqdn
is_zero-default_eap_identity username =
    elim (contains_at username)
      as (λ t. is_zero (if t then email username else fqdn username) ≡ false) [
        | true ↦ refl
        | false ↦ refl
      ]

pub default_local_id_named :
    (c d : Config)
    → default_local_id c ≡ ok d
    → (id : IkeIdentity) × (is_zero id ≡ false) × ((record c { local_id = id }) ≡ d)
unfolding default_local_id
default_local_id_named c d h = elim (Bool-cases (is_zero c.local_id)) [
  | inl unset ↦ elim (Bool-cases (is_given c.psk)) [
    | inl keyed ↦ absurd (let refused = rw (unset, keyed) at h in cc)
    | inr no_key ↦
        let defaulted = rw (unset, no_key) at h in
        (
          default_eap_identity c.eap_username,
          is_zero-default_eap_identity c.eap_username,
          ok-eq defaulted,
        )
  ]
  | inr set ↦ let kept = rw set at h in (c.local_id, set, ok-eq kept)
]
