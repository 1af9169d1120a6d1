-- ===== src/Tests/Mschap.antt =====
-- A conversation with stand-in hashes: each is the list of its arguments, one after the other.
use go_ipsec.Common.{
  ◌≡◌, refl, true, List, [], ◌∷◌, ◌++◌, replicate, some, take, ◌>>=◌, fail_if, byte_at, slice,
}
use go_ipsec.Crypto.{bytes_equal}
use go_ipsec.Eap.{EapPacket}
use go_ipsec.Eap.Mschap.{
  Hashes, new_mschapv2, read_challenge, with_auth_response, with_utf16, with_nt_response,
  compute_hashes, answer_challenge, take_challenge, handle_challenge, message_body, check_success,
  accept_success, handle_success, verified,
}
use go_ipsec.Eap.Mschap.Conversation.{
  Handled, challenge_handled, success_handled, IsReached, start, challenged, succeeded, HasProved,
}
use go_ipsec.Eap.Mschap.Verified.{verified-HasProved}

abbrev joined : Hashes
joined = record {
  generate_nt_response = λ auth peer user secret. some (take 24 (auth ++ peer));
  to_utf16 = λ secret. some secret;
  nt_password_hash = λ secret. secret;
  generate_authenticator_response = λ auth peer nt user secret. some (user ++ secret);
  get_master_key = λ hash nt. hash;
  get_asymmetric_start_key = λ master is_send. some master;
}

abbrev challenge : EapPacket
challenge = record {
  code = 1;
  identifier = 1;
  type = 26;
  bytes = 1 ∷ 7 ∷ 0 ∷ 21 ∷ 16 ∷ replicate 16 3;
}

abbrev success : EapPacket
success = record { code = 1; identifier = 2; type = 26; bytes = 3 ∷ 7 ∷ 0 ∷ 6 ∷ 97 ∷ 98 ∷ 32 ∷ [] }

abbrev requests : List Handled
requests = success_handled success ∷ challenge_handled challenge (some (replicate 16 5)) ∷ []

conversation : IsReached joined (97 ∷ []) (98 ∷ []) requests (
    (handle_success
      (handle_challenge joined
        (new_mschapv2 (97 ∷ []) (98 ∷ []))
        challenge
        (some (replicate 16 5))).1
      success).1)
conversation = succeeded (challenged start challenge (some (replicate 16 5))) success

is_verified :
    verified
      (handle_success
        (handle_challenge joined
          (new_mschapv2 (97 ∷ []) (98 ∷ []))
          challenge
          (some (replicate 16 5))).1
        success).1
    ≡ true
unfolding verified handle_success check_success accept_success handle_challenge take_challenge
    answer_challenge compute_hashes with_nt_response with_utf16 with_auth_response read_challenge
    new_mschapv2 message_body bytes_equal ◌>>=◌ fail_if byte_at slice
is_verified = refl

verified-HasProved_example : HasProved joined (97 ∷ []) (98 ∷ []) requests
verified-HasProved_example = verified-HasProved joined (97 ∷ []) (98 ∷ []) conversation is_verified
