-- ===== src/Session/Suites/Transforms.antt =====
-- Reading the tests on the transforms of a proposal as statements about single transforms.
use mathlib.Core.List.{Memᴰ}
use mathlib.Core.List.Memᴰ.{head, tail}
use go_ipsec.Common.{
  ℕ, ◌≡◌, ◌≢◌, refl, sym, ap, ◌∙◌, Bool, true, false, not, ◌&&◌, ◌||◌, and-left, and-right, Option,
  none, some, List, [], ◌∷◌, All, length, ◌==◌, ==-of_eq, ==-of_ne, arith, Bool-cases, inl, inr,
  ◌⊎◌,
}
use go_ipsec.Ikemsg.Const.{
  protocol_ike, protocol_esp, transform_prf, transform_integ, transform_esn, prf_hmac_sha2_256,
  esn_none,
}
use go_ipsec.Ikemsg.Sa.{Transform, by_type}
use go_ipsec.Session.Suites.{
  Layer, esp_layer, ike_layer, protocol, spi_len, key_length_agrees, has_transform, layer_matches,
}

abbrev pub by_layer : Layer → ℕ → ℕ → ℕ
by_layer ike_layer i e = i
by_layer esp_layer i e = e

-- One of the transforms has the type, the number, and what `P` says.
abbrev pub Holds : List Transform → ℕ → ℕ → (Transform → Type 0) → Type 0
Holds ts type id P = (t : Transform) × Memᴰ t ts × (t.type ≡ type) × (t.id ≡ id) × P t

abbrev pub Has : List Transform → ℕ → ℕ → Type 0
Has ts type id = Holds ts type id (λ t. Unit {0})

-- A Key Length attribute of `bits`, or none for a cipher with one key length.
abbrev pub HasBits : ℕ → Transform → Type 0
HasBits bits t =
    ((bits ≡ 0) × (t.has_key_length ≡ false))
    ⊎ ((bits ≢ 0) × (t.has_key_length ≡ true) × (t.key_length ≡ bits))

pub of_number : (a b : ℕ) → a == b ≡ true → a ≡ b
of_number a b h = ground (arith, h)

pub or_true : (a : Bool) → a || true ≡ true
or_true true = refl
or_true false = refl

pub all_of :
    (a b c d e f : Bool)
    → a && b && c && d && e && f ≡ true
    → (a ≡ true) × (b ≡ true) × (c ≡ true) × (d ≡ true) × (e ≡ true) × (f ≡ true)
all_of true true true true true true h = (refl, refl, refl, refl, refl, refl)
all_of false b c d e f h = cc
all_of true false c d e f h = cc
all_of true true false d e f h = cc
all_of true true true false e f h = cc
all_of true true true true false f h = cc
all_of true true true true true false h = cc

not-true : (b : Bool) → not b ≡ true → b ≡ false
not-true true h = cc
not-true false h = refl

module _ (type id : ℕ) (k : Option ℕ) where
  abbrev Agrees : Transform → Type 0
  Agrees t = key_length_agrees k t ≡ true

  pub found :
      (ts : List Transform) → has_transform (by_type type ts) id k ≡ true → Holds ts type id Agrees
  unfolding has_transform by_type
  found [] h = cc
  found (x ∷ ts) h = elim (Bool-cases (x.type == type)) [
    | inr other ↦ let (t, m, a, b, c) = found ts (rw other at h) in (t, tail m, a, b, c)
    | inl same ↦
        let h' : x.id == id && key_length_agrees k x || has_transform (by_type type ts) id k
            ≡ true =
          rw same at h in
        elim (Bool-cases (x.id == id && key_length_agrees k x)) [
          | inl yes_x ↦ (
            x,
            head refl,
            of_number x.type type same,
            of_number x.id id (and-left _ _ yes_x),
            and-right (x.id == id) (key_length_agrees k x) yes_x,
          )
          | inr no_x ↦ let (t, m, a, b, c) = found ts (rw no_x at h') in (t, tail m, a, b, c)
        ]
  ]

  pub counted :
      (ts : List Transform) → Holds ts type id Agrees → has_transform (by_type type ts) id k ≡ true
  unfolding has_transform by_type
  counted [] (t, m, a, b, c) = elim m [ ]
  counted (x ∷ ts) (t, head is_x, of_type, of_id, agrees) =
      let typed : x.type == type ≡ true =
        ==-of_eq x.type type (ap (λ y. y.type) (sym is_x) ∙ of_type) in
      let numbered : x.id == id ≡ true = ==-of_eq x.id id (ap (λ y. y.id) (sym is_x) ∙ of_id) in
      let long : key_length_agrees k x ≡ true =
        ap (λ y. key_length_agrees k y) (sym is_x) ∙ agrees in
      rw (typed, numbered, long) refl
  counted (x ∷ ts) (t, tail m, a, b, c) =
      let later = counted ts (t, m, a, b, c) in
      elim (Bool-cases (x.type == type)) [
        | inl same ↦ rw (same, later) (or_true _)
        | inr other ↦ rw other later
      ]

pub no_integrity :
    (ts : List Transform)
    → length (by_type transform_integ ts) == 0 ≡ true
    → All (λ t. t.type ≢ transform_integ) ts
unfolding by_type
no_integrity [] h = tt
no_integrity (x ∷ ts) h = elim (Bool-cases (x.type == transform_integ)) [
  | inl same ↦ let h' = rw same at h in absurd (ground (arith, h'))
  | inr other ↦ (
    λ e. let clash = sym (==-of_eq x.type transform_integ e) ∙ other in absurd cc,
    no_integrity ts (rw other at h),
  )
]

pub none_counted :
    (ts : List Transform)
    → All (λ t. t.type ≢ transform_integ) ts
    → length (by_type transform_integ ts) == 0 ≡ true
unfolding by_type
none_counted [] h = refl
none_counted (x ∷ ts) (other, h) = rw (==-of_ne x.type transform_integ other) (none_counted ts h)

pub with_any :
    (type id : ℕ) (ts : List Transform)
    → Has ts type id
    → has_transform (by_type type ts) id none ≡ true
unfolding key_length_agrees
with_any type id ts (t, m, a, b, c) = counted type id none ts (t, m, a, b, refl)

pub any_found :
    (type id : ℕ) (ts : List Transform)
    → has_transform (by_type type ts) id none ≡ true
    → Has ts type id
any_found type id ts h = let (t, m, a, b, c) = found type id none ts h in (t, m, a, b, tt)

pub bits_read : (bits : ℕ) (t : Transform) → key_length_agrees (some bits) t ≡ true → HasBits bits t
unfolding key_length_agrees
bits_read bits t h = elim (Bool-cases (bits == 0)) [
  | inl fixed ↦ let h' = rw fixed at h in inl (of_number bits 0 fixed, not-true _ h')
  | inr given ↦
      let h' : t.has_key_length && t.key_length == bits ≡ true = rw given at h in
      inr (
        λ e. let clash = sym (==-of_eq bits 0 e) ∙ given in absurd cc,
        and-left _ _ h',
        of_number t.key_length bits (and-right _ _ h'),
      )
]

pub bits_counted :
    (bits : ℕ) (t : Transform) → HasBits bits t → key_length_agrees (some bits) t ≡ true
unfolding key_length_agrees
bits_counted bits t (inl (fixed, without)) = rw (==-of_eq bits 0 fixed, without) refl
bits_counted bits t (inr (given, with, same)) =
    rw (==-of_ne bits 0 given, with, ==-of_eq t.key_length bits same) refl

pub protocol-by_layer : (layer : Layer) → protocol layer ≡ by_layer layer protocol_ike protocol_esp
unfolding protocol
protocol-by_layer ike_layer = refl
protocol-by_layer esp_layer = refl

pub spi_len-by_layer : (layer : Layer) → spi_len layer ≡ by_layer layer 8 4
unfolding spi_len
spi_len-by_layer ike_layer = refl
spi_len-by_layer esp_layer = refl

pub layer_read :
    (layer : Layer) (ts : List Transform)
    → layer_matches layer ts ≡ true
    → Has ts
        (by_layer layer transform_prf transform_esn)
        (by_layer layer prf_hmac_sha2_256 esn_none)
unfolding layer_matches
layer_read ike_layer ts h = any_found _ _ ts h
layer_read esp_layer ts h = any_found _ _ ts h

pub layer_counted :
    (layer : Layer) (ts : List Transform)
    → Has ts
        (by_layer layer transform_prf transform_esn)
        (by_layer layer prf_hmac_sha2_256 esn_none)
    → layer_matches layer ts ≡ true
unfolding layer_matches
layer_counted ike_layer ts h = with_any _ _ ts h
layer_counted esp_layer ts h = with_any _ _ ts h
