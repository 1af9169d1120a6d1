-- ===== src/Session/Suites.antt =====
-- internal/session/suite.go: the transform suites, what is offered for them, and what is selected.
pub mod Offer
pub mod Choice
pub mod Transforms
pub mod Acceptable
pub mod Offered
pub mod Picked
pub mod Lengths
use go_ipsec.Common.{
  ℕ, zero, suc, ◌+◌, ◌%◌, Bool, true, false, not, ◌&&◌, ◌||◌, Option, none, some, List, [], ◌∷◌,
  ◌++◌, map, length, ltb, ◌==◌, if◌then◌else◌, Outcome, ok, err, ◌>>=◌, ◌>>◌, fail_if,
}
use go_ipsec.Ikemsg.Const.{
  protocol_ike, protocol_esp, transform_encr, transform_prf, transform_integ, transform_dh,
  transform_esn, encr_aes_cbc, encr_aes_gcm_16, encr_chacha20_poly1305, prf_hmac_sha2_256,
  auth_none, auth_hmac_sha2_256_128, dh_modp2048, dh_x25519, esn_none,
}
use go_ipsec.Ikemsg.Sa.{Transform, Proposal, by_type}

-- The type parameter of `transformSuite`: esp.Suite or ikesa.Suite.
pub data Layer : Type 0 where
  esp_layer ike_layer : Layer

-- `id` is the number of the suite in its layer's type.
pub record TransformSuite (layer : Layer) : Type 0 where
  pub id : ℕ
  pub encr_id : ℕ
  pub key_bits : ℕ
  pub encr_key_len : ℕ
  pub integ_id : ℕ
  pub integ_key_len : ℕ

abbrev pub key_len_aes256 : ℕ
key_len_aes256 = 256

-- The values of the enumerations esp.Suite and ikesa.Suite, which agree.
abbrev pub suite_aes_cbc256_sha256 : ℕ
suite_aes_cbc256_sha256 = 0

abbrev pub suite_aes_gcm256 : ℕ
suite_aes_gcm256 = 1

abbrev pub suite_chacha20_poly1305 : ℕ
suite_chacha20_poly1305 = 2

unfoldable pub protocol : Layer → ℕ
protocol esp_layer = protocol_esp
protocol ike_layer = protocol_ike

module _ {layer : Layer} where
  unfoldable pub aead : TransformSuite layer → Bool
  aead s = s.integ_id == 0

unfoldable pub spi_len : Layer → ℕ
spi_len esp_layer = 4
spi_len ike_layer = 8

-- `espSuites` and `ikeSuites` have the same rows.
abbrev pub suites : (layer : Layer) → List (TransformSuite layer)
suites layer =
    record {
      id = suite_aes_gcm256;
      encr_id = encr_aes_gcm_16;
      key_bits = key_len_aes256;
      encr_key_len = 36;
      integ_id = 0;
      integ_key_len = 0;
    }
    ∷ record {
      id = suite_chacha20_poly1305;
      encr_id = encr_chacha20_poly1305;
      key_bits = 0;
      encr_key_len = 36;
      integ_id = 0;
      integ_key_len = 0;
    }
    ∷ record {
      id = suite_aes_cbc256_sha256;
      encr_id = encr_aes_cbc;
      key_bits = key_len_aes256;
      encr_key_len = 32;
      integ_id = auth_hmac_sha2_256_128;
      integ_key_len = 32;
    }
    ∷ []

-- A transform without a Key Length attribute.
abbrev pub plain_transform : ℕ → ℕ → Transform
plain_transform t id = record { type = t; id = id; key_length = 0; has_key_length = false }

unfoldable pub prf_transforms : Layer → List Transform
prf_transforms esp_layer = []
prf_transforms ike_layer = plain_transform transform_prf prf_hmac_sha2_256 ∷ []

unfoldable pub esn_transforms : Layer → List Transform
esn_transforms esp_layer = plain_transform transform_esn esn_none ∷ []
esn_transforms ike_layer = []

module _ {layer : Layer} where
  unfoldable pub suite_by_id : ℕ → List (TransformSuite layer) → Option (TransformSuite layer)
  suite_by_id id [] = none
  suite_by_id id (s ∷ table) = if s.id == id then some s else suite_by_id id table

  -- `if s, ok := suiteByID(id, table); ok { out = append(out, s) }`
  unfoldable pub keep_row :
      Option (TransformSuite layer) → List (TransformSuite layer) → List (TransformSuite layer)
  keep_row none rows = rows
  keep_row (some s) rows = s ∷ rows

  unfoldable pub enabled_rows : List ℕ → List (TransformSuite layer) → List (TransformSuite layer)
  enabled_rows [] table = []
  enabled_rows (id ∷ ids) table = keep_row (suite_by_id id table) (enabled_rows ids table)

  unfoldable pub enabled_suites : List ℕ → List (TransformSuite layer) → List (TransformSuite layer)
  enabled_suites configured table =
      if length configured == 0 then table else enabled_rows configured table

  -- The error is the id that has no row.
  unfoldable pub check_suites : List ℕ → List (TransformSuite layer) → Option ℕ
  check_suites [] table = none
  check_suites (id ∷ ids) table = elim (suite_by_id id table) [
    | none ↦ some id
    | some s ↦ check_suites ids table
  ]

  unfoldable pub integ_transforms : TransformSuite layer → List Transform
  integ_transforms s = if aead s then [] else plain_transform transform_integ s.integ_id ∷ []

  unfoldable pub build_proposal_for_suite : ℕ → TransformSuite layer → List ℕ → List ℕ → Proposal
  build_proposal_for_suite number s spi groups = record {
    number = number;
    protocol = protocol layer;
    spi = spi;
    transforms =
        record {
          type = transform_encr;
          id = s.encr_id;
          key_length = s.key_bits;
          has_key_length = not (s.key_bits == 0);
        }
        ∷ (prf_transforms layer
            ++ (integ_transforms s
                ++ (map (plain_transform transform_dh) groups ++ esn_transforms layer)));
  }

  -- The loop of buildProposals, from the row `i` on: `uint8(i+1)`.
  unfoldable pub proposals_from : ℕ → List ℕ → List (TransformSuite layer) → List ℕ → List Proposal
  proposals_from i spi [] groups = []
  proposals_from i spi (s ∷ rows) groups =
      build_proposal_for_suite ((i + 1) % 256) s spi groups ∷ proposals_from (i + 1) spi rows groups

  unfoldable pub build_proposals : List ℕ → List (TransformSuite layer) → List ℕ → List Proposal
  build_proposals spi rows groups = proposals_from 0 spi rows groups

-- The constraint on the Key Length attribute: `none` asks for nothing, and 0 for its absence.
unfoldable pub key_length_agrees : Option ℕ → Transform → Bool
key_length_agrees none t = true
key_length_agrees (some k) t =
    if k == 0 then not t.has_key_length else t.has_key_length && t.key_length == k

unfoldable pub has_transform : List Transform → ℕ → Option ℕ → Bool
has_transform [] id key_len = false
has_transform (t ∷ ts) id key_len =
    t.id == id && key_length_agrees key_len t || has_transform ts id key_len

-- The PRF that an IKE proposal must carry, and the ESN transform of an ESP proposal.
unfoldable pub layer_matches : Layer → List Transform → Bool
layer_matches ike_layer ts = has_transform (by_type transform_prf ts) prf_hmac_sha2_256 none
layer_matches esp_layer ts = has_transform (by_type transform_esn ts) esn_none none

-- Exactly one PRF for IKE, exactly one ESN transform for ESP.
unfoldable pub layer_narrowed : Layer → List Transform → Bool
layer_narrowed ike_layer ts = length (by_type transform_prf ts) == 1
layer_narrowed esp_layer ts = length (by_type transform_esn ts) == 1

unfoldable pub is_single_none : List Transform → Bool
is_single_none (t ∷ []) = t.id == auth_none
is_single_none _ = false

module _ {layer : Layer} where
  unfoldable pub integ_matches : TransformSuite layer → List Transform → Bool
  integ_matches s integs =
      if aead s
      then length integs == 0 || has_transform integs auth_none none
      else has_transform integs s.integ_id none

  unfoldable pub suite_matches : TransformSuite layer → Proposal → Bool
  suite_matches s p =
      p.protocol == protocol layer
      && has_transform (by_type transform_encr p.transforms) s.encr_id (some s.key_bits)
      && layer_matches layer p.transforms
      && integ_matches s (by_type transform_integ p.transforms)

  unfoldable pub integ_narrowed : TransformSuite layer → List Transform → Bool
  integ_narrowed s integs =
      if aead s then length integs == 0 || is_single_none integs else length integs == 1

  unfoldable pub is_selection_for : TransformSuite layer → Proposal → Bool
  is_selection_for s p =
      suite_matches s p
      && length (by_type transform_encr p.transforms) == 1
      && not (ltb 1 (length (by_type transform_dh p.transforms)))
      && layer_narrowed layer p.transforms
      && integ_narrowed s (by_type transform_integ p.transforms)

  unfoldable pub selected_suite :
      Proposal → List (TransformSuite layer) → Option (TransformSuite layer)
  selected_suite p [] = none
  selected_suite p (s ∷ rows) = if is_selection_for s p then some s else selected_suite p rows

unfoldable pub proposal_has_dh_group : Proposal → ℕ → Bool
proposal_has_dh_group p g = has_transform (by_type transform_dh p.transforms) g none

module _ {layer : Layer} where
  -- What the inner loop of selectProposal asks of a proposal for the suite.
  unfoldable pub is_acceptable : ℕ → TransformSuite layer → Proposal → Bool
  is_acceptable require_group s p =
      suite_matches s p
      && length p.spi == spi_len layer
      && (require_group == 0 || proposal_has_dh_group p require_group)

  unfoldable pub first_acceptable : ℕ → TransformSuite layer → List Proposal → Option Proposal
  first_acceptable require_group s [] = none
  first_acceptable require_group s (p ∷ ps) =
      if is_acceptable require_group s p then some p else first_acceptable require_group s ps

  unfoldable pub select_proposal :
      List Proposal → List (TransformSuite layer) → ℕ → Option (Proposal × TransformSuite layer)
  select_proposal ps [] require_group = none
  select_proposal ps (s ∷ rows) require_group = elim (first_acceptable require_group s ps) [
    | some p ↦ some (p, s)
    | none ↦ select_proposal ps rows require_group
  ]

abbrev pub preferred_dh_groups : List ℕ
preferred_dh_groups = dh_x25519 ∷ dh_modp2048 ∷ []

unfoldable pub is_among : ℕ → List ℕ → Bool
is_among g [] = false
is_among g (x ∷ xs) = x == g || is_among g xs

unfoldable pub supported_dh_group : ℕ → Bool
supported_dh_group g = is_among g preferred_dh_groups

unfoldable pub selected_dh_group : Proposal → ℕ
selected_dh_group p = elim (by_type transform_dh p.transforms) [ [] ↦ 0 | t ∷ ts ↦ t.id ]
