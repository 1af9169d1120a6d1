-- ===== src/Tests/Rekeying.antt =====
-- A Child SA rekey with a Diffie-Hellman exchange between two concrete ends, with the stand-in cryptography.
use go_ipsec.Common.{
  ℕ, ◌≡◌, refl, true, false, List, [], ◌∷◌, replicate, some, none, ok, arith, uint32_at, map_err,
  lift, or_err, slice, slice_from, fail_if, ◌>>=◌,
}
use go_ipsec.Tests.Cipher.{plain_text}
use go_ipsec.Tests.Dh.{plain, plain-DhLaws}
use go_ipsec.Tests.Session.{end_of, test_nonce, chacha_row, chacha_row-Mem}
use go_ipsec.Ikemsg.Sa.{Proposal, by_type}
use go_ipsec.Ikesa.{ChildKeys, derive_child_keys_pfs, prf_plus, prf_plus_from}
use go_ipsec.Ikesa.Keys.{
  initiator, responder, sk_aes_gcm256, IkeSa, derive_rekey_ike, derive_from_skeyseed, split_keys,
  key_lens, is_aead, new_aead_state, new_sk_aead, outbound_encr_key, inbound_encr_key, by_role,
}
use go_ipsec.Ikesa.Keys.Peers.{AreSkPeers}
use go_ipsec.Ikesa.Keys.Rekeyed.{derive_rekey_ike-ArePaired}
use go_ipsec.Ikesa.Dh.{Dh, Randomness, x25519_side, new_dh, shared, shared_x25519, x25519_secret}
use go_ipsec.Session.Suites.{
  esp_layer, TransformSuite, suites, enabled_suites, build_proposal_for_suite, build_proposals,
  proposals_from, supported_dh_group, is_among, select_proposal, first_acceptable, is_acceptable,
  proposal_has_dh_group, suite_matches, integ_matches, layer_matches, has_transform,
  key_length_agrees, integ_transforms, esn_transforms, prf_transforms, protocol, aead, spi_len,
}
use go_ipsec.Session.Child.{ChildSaUpdate}
use go_ipsec.Session.Window.{ChildRekey}
use go_ipsec.Session.Rekey.Payloads.{
  all_ipv4, ChildRequest, child_rekey_request_payloads, traffic_selectors, contents, contents_from,
}
use go_ipsec.Session.Rekey.Negotiation.{
  dh_groups, ke_group, ke_payloads, rekey_notify, child_offer, child_answer, chosen, choose,
  choice_of, responder_update, make_dh, child_result, responder_keys, responder_dh,
  responder_secret,
}
use go_ipsec.Session.Rekey.Messages.{ke_sent}
use go_ipsec.Session.Rekey.Agreement.{Mirrors, child_result-Mirrors}

abbrev draw_of : ℕ → Randomness
draw_of n = record { number = none; key = some (n ∷ []) }

-- The two sides of the exchange.
abbrev asking : Dh
asking = x25519_side plain (5 ∷ [])

abbrev answering_side : Dh
answering_side = x25519_side plain (6 ∷ [])

abbrev new_spi : List ℕ
new_spi = 1 ∷ 2 ∷ 3 ∷ 4 ∷ []

abbrev spi_of_answer : List ℕ
spi_of_answer = 0 ∷ 0 ∷ 0 ∷ 9 ∷ []

abbrev rekeying : ChildRekey
rekeying = record {
  new_in_spi = 16909060;
  old_in_spi = 17;
  ni = test_nonce;
  reestablish = false;
  dh = some asking;
}

abbrev our_rows : List (TransformSuite esp_layer)
our_rows = enabled_suites [] (suites esp_layer)

abbrev read_request : ChildRequest
read_request = record {
  offers = build_proposals new_spi our_rows (31 ∷ []);
  request_nonce = test_nonce;
  ke_request = ke_sent (some asking);
  ts_i = all_ipv4 ∷ [];
  ts_r = all_ipv4 ∷ [];
}

abbrev second_offer : Proposal
second_offer = build_proposal_for_suite 2 chacha_row new_spi (31 ∷ [])

abbrev zero_keys : ChildKeys
zero_keys = record {
  encr_ir = replicate 36 0;
  integ_ir = [];
  encr_ri = replicate 36 0;
  integ_ri = [];
}

own_side : make_dh plain_text plain true 31 (draw_of 5) ≡ ok rekeying.dh
unfolding make_dh new_dh map_err ◌>>=◌ or_err
own_side = refl

request_read :
    child_rekey_request_payloads
      (child_offer our_rows (some 17) new_spi test_nonce rekeying.dh false)
    ≡ ok read_request
unfolding child_rekey_request_payloads child_offer rekey_notify ke_payloads traffic_selectors
    contents contents_from or_err fail_if ◌>>=◌ dh_groups x25519_side
request_read = refl

second_chosen :
    choose read_request.offers (chacha_row ∷ []) (ke_group read_request.ke_request)
    ≡ chosen second_offer chacha_row
unfolding choose choice_of ke_group supported_dh_group is_among select_proposal first_acceptable
    is_acceptable proposal_has_dh_group suite_matches integ_matches layer_matches has_transform
    key_length_agrees build_proposals proposals_from build_proposal_for_suite integ_transforms
    esn_transforms prf_transforms protocol aead spi_len enabled_suites x25519_side by_type
second_chosen = refl

other_side :
    responder_dh plain_text plain read_request.ke_request (draw_of 6) ≡ ok (some answering_side)
unfolding responder_dh make_dh new_dh map_err ◌>>=◌ or_err x25519_side
other_side = refl

secret_there :
    responder_secret plain_text plain (some answering_side) read_request.ke_request
    ≡ ok (some (11 ∷ []))
unfolding responder_secret shared shared_x25519 x25519_secret map_err ◌>>=◌ or_err x25519_side
secret_there = refl

secret_here :
    responder_secret plain_text plain rekeying.dh (ke_sent (some answering_side))
    ≡ ok (some (11 ∷ []))
unfolding responder_secret shared shared_x25519 x25519_secret map_err ◌>>=◌ or_err x25519_side
secret_here = refl

keys_there :
    responder_keys plain_text plain [] (some (11 ∷ [])) test_nonce test_nonce chacha_row
    ≡ ok zero_keys
unfolding responder_keys derive_child_keys_pfs prf_plus prf_plus_from lift slice fail_if ◌>>=◌
keys_there = refl

child_result-Mirrors_example :
    (u : ChildSaUpdate) × (child_result plain_text plain our_rows [] rekeying (
        child_answer read_request second_offer chacha_row spi_of_answer test_nonce
          (some answering_side)
          false)
      ≡ ok (u, zero_keys))
    × Mirrors u (responder_update 9 16909060 20 2 zero_keys)
unfolding uint32_at build_proposal_for_suite
child_result-Mirrors_example =
    child_result-Mirrors plain_text plain plain-DhLaws [] rekeying (some 17) new_spi false true 31
      (draw_of 5) (draw_of 6) [] (chacha_row ∷ []) read_request second_offer chacha_row
      (some answering_side) (some (11 ∷ [])) (some (11 ∷ [])) spi_of_answer test_nonce false 9
      16909060 20 zero_keys refl own_side request_read second_chosen chacha_row-Mem other_side
      secret_there refl refl refl (omega arith) keys_there secret_here

sides_made :
    (new_dh plain 31 (draw_of 5) ≡ ok asking) × (new_dh plain 31 (draw_of 6) ≡ ok answering_side)
unfolding new_dh ◌>>=◌ or_err
sides_made = (refl, refl)

sides_agree :
    (shared plain asking answering_side.public_value ≡ ok (11 ∷ []))
    × (shared plain answering_side asking.public_value ≡ ok (11 ∷ []))
unfolding shared shared_x25519 x25519_secret ◌>>=◌ or_err x25519_side
sides_agree = (refl, refl)

rekeyed_run :
    derive_rekey_ike plain_text sk_aes_gcm256
      (replicate 32 1)
      initiator
      1
      2
      test_nonce
      test_nonce
      (11 ∷ [])
    ≡ ok (end_of initiator)
unfolding derive_rekey_ike derive_from_skeyseed split_keys key_lens is_aead prf_plus prf_plus_from
    lift or_err new_aead_state new_sk_aead slice slice_from fail_if ◌>>=◌ outbound_encr_key
    inbound_encr_key by_role
rekeyed_run = refl

derive_rekey_ike-ArePaired_example :
    (b : IkeSa (Unit {0})) × (derive_rekey_ike plain_text sk_aes_gcm256
        (replicate 32 1)
        responder
        1
        2
        test_nonce
        test_nonce
        (11 ∷ [])
      ≡ ok b)
    × (AreSkPeers (end_of initiator) b × AreSkPeers b (end_of initiator))
derive_rekey_ike-ArePaired_example =
    derive_rekey_ike-ArePaired plain_text plain plain-DhLaws sk_aes_gcm256 (replicate 32 1) 1 2
      test_nonce test_nonce 31 (draw_of 5) (draw_of 6) asking answering_side (11 ∷ []) (11 ∷ [])
      (end_of initiator) sides_made.0 sides_made.1 sides_agree.0 sides_agree.1 rekeyed_run
