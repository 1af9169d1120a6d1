-- ===== src/Tests/Session.antt =====
-- The protected exchange and the negotiation of suites on concrete SAs, with the stand-in cryptography.
use mathlib.Core.Path.{subst}
use mathlib.Core.List.{Memᴰ}
use mathlib.Core.List.Memᴰ.{head, tail}
use go_ipsec.Common.{
  ℕ, ◌≡◌, refl, List, [], ◌∷◌, length, replicate, some, some-eq, arith, ◌-◌, ok-eq, lift, or_err,
  slice, slice_from, fail_if, ◌>>=◌, ok, ◌≤◌, ap,
}
use go_ipsec.Tests.Cipher.{plain_text, plain_text-Lawful}
use go_ipsec.Ikemsg.Message.{
  Payload, nonce, first_type, next_type, marshal_body, marshal_payloads, marshal_chain,
}
use go_ipsec.Ikemsg.Sa.{Proposal}
use go_ipsec.Ikesa.{prf_plus, prf_plus_from}
use go_ipsec.Ikesa.Keys.{
  Role, initiator, responder, sk_aes_gcm256, IkeSa, AeadState, derive, derive_from_skeyseed,
  split_keys, key_lens, is_aead, new_aead_state, new_sk_aead, outbound_integ_key, inbound_integ_key,
  outbound_encr_key, inbound_encr_key, by_role,
}
use go_ipsec.Ikesa.Keys.Peers.{AreSkPeers, derive-ArePaired}
use go_ipsec.Ikesa.Sk.Padding.{HasCipher}
use go_ipsec.Ikesa.Sk.Total.{IsKeyed}
use go_ipsec.Session.Protected.{IkeContexts, encode_sk_with, decode_sk_with, decode_ike}
use go_ipsec.Session.Protected.RoundTrip.{around, LeavesRoom, decode_sk_with-encode_sk_with}
use go_ipsec.Session.Protected.Total.{Answers, decode_ike-Answers}
use go_ipsec.Session.Suites.{
  TransformSuite, ike_layer, esp_layer, suites, enabled_suites, build_proposal_for_suite,
  selected_suite, select_proposal,
}
use go_ipsec.Session.Suites.Choice.{selected_suite-build_proposal_for_suite}
use go_ipsec.Session.Suites.Picked.{Picks, select_proposal-Picks}

abbrev pub zero_state : AeadState (Unit {0})
zero_state = record {
  out_aead = tt;
  in_aead = tt;
  out_salt = replicate 4 0;
  in_salt = replicate 4 0;
}

-- The SA of each end, from a key stream of zeros.
abbrev pub end_of : Role → IkeSa (Unit {0})
end_of role = record {
  role = role;
  suite = sk_aes_gcm256;
  initiator_spi = 1;
  responder_spi = 2;
  sk_d = replicate 32 0;
  sk_ai = [];
  sk_ar = [];
  sk_ei = replicate 36 0;
  sk_er = replicate 36 0;
  sk_pi = replicate 32 0;
  sk_pr = replicate 32 0;
  aead = some zero_state;
  sk_seq = 0;
}

abbrev pub test_nonce : List ℕ
test_nonce = replicate 16 7

derive_run :
    derive plain_text sk_aes_gcm256 initiator 1 2 test_nonce test_nonce 0 (9 ∷ [])
    ≡ ok (end_of initiator)
unfolding derive derive_from_skeyseed split_keys key_lens is_aead prf_plus prf_plus_from lift or_err
    new_aead_state new_sk_aead slice slice_from fail_if ◌>>=◌ outbound_encr_key inbound_encr_key
    by_role
derive_run = refl

derive-ArePaired_example :
    (b : IkeSa (Unit {0})) × (derive plain_text sk_aes_gcm256 responder 1 2 test_nonce test_nonce 0
        (9 ∷ [])
      ≡ ok b)
    × (AreSkPeers (end_of initiator) b × AreSkPeers b (end_of initiator))
derive-ArePaired_example =
    derive-ArePaired plain_text sk_aes_gcm256 1 2 test_nonce test_nonce 0 0 (9 ∷ [])
      (end_of initiator) derive_run

ends-AreSkPeers : AreSkPeers (end_of initiator) (end_of responder)
unfolding outbound_integ_key inbound_integ_key outbound_encr_key inbound_encr_key by_role
ends-AreSkPeers = record {
  suite_agrees = refl;
  integ_agrees = refl;
  encr_agrees = refl;
  aead_agrees = (refl, refl);
}

nonce_fits : (bs : List ℕ) → marshal_body (nonce test_nonce) ≡ ok bs → length bs ≤ 0xffff - 4
unfolding marshal_body
nonce_fits bs e = omega (arith, ap length (ok-eq e))

nonce-LeavesRoom : LeavesRoom (nonce test_nonce ∷ [])
unfolding marshal_chain marshal_payloads marshal_body next_type first_type fail_if ◌>>=◌
nonce-LeavesRoom c e = omega (arith, ap (λ x. length x.1) (ok-eq e))

end-HasCipher : HasCipher plain_text (end_of initiator)
unfolding is_aead
end-HasCipher = (zero_state, refl)

decode_sk_with-encode_sk_with_example :
    let inner : List Payload = nonce test_nonce ∷ [] in
    let sent =
      encode_sk_with plain_text (end_of initiator) 1 2 36 8 3 inner (some (replicate 16 0)) in
    AreSkPeers sent.1 (end_of responder)
    × (raw : List ℕ) × (sk_data : List ℕ) × (sent.0 ≡ ok raw)
    × (decode_sk_with plain_text (end_of responder) raw
        ≡ ok (around 1 2 36 8 3 (first_type inner) sk_data, inner))
decode_sk_with-encode_sk_with_example =
    decode_sk_with-encode_sk_with plain_text plain_text-Lawful (end_of initiator) (end_of responder)
      1 2 36 8 3 (nonce test_nonce ∷ []) (replicate 16 0) ends-AreSkPeers end-HasCipher
      (omega arith, omega arith, omega arith, omega arith, omega arith)
      ((omega arith, omega arith), nonce_fits, tt, tt) nonce-LeavesRoom refl

abbrev contexts : IkeContexts (Unit {0})
contexts = record {
  current = record { ike_sa = end_of initiator; spii = 1; spir = 2 };
  old_ike = some (record { ike_sa = end_of responder; spii = 3; spir = 4 });
  old_ike_until = 30;
}

decode_ike-Answers_example :
    Answers plain_text contexts 5
      (replicate 40 0)
      (decode_ike plain_text contexts 5 (replicate 40 0))
decode_ike-Answers_example =
    decode_ike-Answers plain_text plain_text-Lawful contexts 5 (replicate 40 0)
      (λ _. (zero_state, refl))
      (λ old e. subst (λ c. IsKeyed c.ike_sa) (some-eq e) (λ _. (zero_state, refl)))

abbrev pub chacha_row : TransformSuite esp_layer
chacha_row = record {
  id = 2;
  encr_id = 28;
  key_bits = 0;
  encr_key_len = 36;
  integ_id = 0;
  integ_key_len = 0;
}

pub chacha_row-Mem : Memᴰ chacha_row (enabled_suites [] (suites esp_layer))
unfolding enabled_suites
chacha_row-Mem = tail (head refl)

selected_suite-build_proposal_for_suite_example :
    selected_suite
      (build_proposal_for_suite 2 chacha_row (1 ∷ 2 ∷ 3 ∷ 4 ∷ []) (31 ∷ []))
      (enabled_suites [] (suites esp_layer))
    ≡ some chacha_row
selected_suite-build_proposal_for_suite_example =
    selected_suite-build_proposal_for_suite esp_layer [] chacha_row 2 (1 ∷ 2 ∷ 3 ∷ 4 ∷ []) (31 ∷ [])
      chacha_row-Mem (omega arith)

abbrev offer : List Proposal
offer =
    build_proposal_for_suite {layer = ike_layer} 1
      (record {
        id = 0;
        encr_id = 12;
        key_bits = 256;
        encr_key_len = 32;
        integ_id = 12;
        integ_key_len = 32;
      })
      (replicate 8 1) (31 ∷ 14 ∷ [])
    ∷ []

select_proposal-Picks_example :
    Picks 14 offer (suites ike_layer) (select_proposal offer (suites ike_layer) 14)
select_proposal-Picks_example = select_proposal-Picks offer (suites ike_layer) 14
