-- ===== src/Eap/Mschap.antt =====
-- internal/eap/mschapv2.go and msk.go: the peer's side of EAP-MSCHAPv2, and the key it exports. The hashes of
-- layeh.com/radius (rfc2759, rfc3079) are a record of operations; `none` is a returned error.
pub mod Conversation
pub mod Verified
use go_ipsec.Common.{
  ℕ, ◌+◌, ◌%◌, ◌^◌, Bool, true, false, not, ◌||◌, Option, none, some, List, [], ◌∷◌, ◌++◌, length,
  take, drop, replicate, ltb, leb, ◌==◌, if◌then◌else◌, Outcome, ok, err, panic, stuck, ◌>>=◌, ◌>>◌,
  fail_if, or_err, byte_at, slice, put_uint16,
}
use go_ipsec.Crypto.{bytes_equal}
use go_ipsec.Eap.{EapPacket}

pub record Hashes : Type 0 where
  pub generate_nt_response : List ℕ → List ℕ → List ℕ → List ℕ → Option (List ℕ)
  pub to_utf16 : List ℕ → Option (List ℕ)
  pub nt_password_hash : List ℕ → List ℕ
  pub generate_authenticator_response : List ℕ → List ℕ → List ℕ → List ℕ → List ℕ → Option (List ℕ)
  pub get_master_key : List ℕ → List ℕ → List ℕ
  pub get_asymmetric_start_key : List ℕ → Bool → Option (List ℕ)

pub data MschapError : Type 0 where
  wrong_type malformed_challenge bad_value_size no_random no_nt_response bad_password
        no_auth_response :
      MschapError
  empty_success server_failure wrong_opcode success_before_challenge response_mismatch : MschapError
  missing_msk_inputs no_start_key : MschapError

abbrev pub code_response : ℕ
code_response = 2

abbrev pub type_identity : ℕ
type_identity = 1

abbrev pub type_mschapv2 : ℕ
type_mschapv2 = 26

abbrev pub op_challenge : ℕ
op_challenge = 1

abbrev pub op_response : ℕ
op_response = 2

abbrev pub op_success : ℕ
op_success = 3

abbrev pub op_failure : ℕ
op_failure = 4

abbrev pub auth_challenge_len : ℕ
auth_challenge_len = 16

abbrev pub peer_challenge_len : ℕ
peer_challenge_len = 16

abbrev pub response_value_len : ℕ
response_value_len = 49

-- A nil slice is the empty list.
pub record Mschapv2 : Type 0 where
  pub username : List ℕ
  pub password : List ℕ
  pub peer_challenge : List ℕ
  pub nt_response : List ℕ
  pub auth_challenge : List ℕ
  pub password_hash_hash : List ℕ
  pub auth_response : List ℕ
  pub auth_checked : Bool

unfoldable pub new_mschapv2 : List ℕ → List ℕ → Mschapv2
new_mschapv2 username password = record {
  username = username;
  password = password;
  peer_challenge = [];
  nt_response = [];
  auth_challenge = [];
  password_hash_hash = [];
  auth_response = [];
  auth_checked = false;
}

unfoldable pub wipe : Mschapv2 → Mschapv2
wipe m = record m {
  password = [];
  peer_challenge = [];
  nt_response = [];
  auth_challenge = [];
  password_hash_hash = [];
  auth_response = [];
}

-- The checks of a Challenge: its MS-CHAPv2-ID and its value.
unfoldable pub read_challenge : EapPacket → Outcome MschapError (ℕ × List ℕ)
read_challenge req = do
  fail_if (not (req.type == type_mschapv2)) wrong_type
  fail_if (ltb (length req.bytes) 5) malformed_challenge
  op ← byte_at req.bytes 0
  fail_if (not (op == op_challenge)) malformed_challenge
  ms_chap_id ← byte_at req.bytes 1
  value_size ← byte_at req.bytes 4
  fail_if
      (not (value_size == auth_challenge_len) || ltb (length req.bytes) (5 + auth_challenge_len))
      bad_value_size
  value ← slice req.bytes 5 (5 + auth_challenge_len)
  ok (ms_chap_id, value)

-- `copy` into `n` zero bytes.
unfoldable pub copied : ℕ → List ℕ → List ℕ
copied n xs = take n (xs ++ replicate n 0)

-- The Response to a challenge, from the state with the computed hashes. `byte` and `uint16` cut off.
unfoldable pub challenge_response : Mschapv2 → EapPacket → ℕ → EapPacket
challenge_response m req ms_chap_id =
    let value =
      copied 16 m.peer_challenge ++ (replicate 8 0 ++ (copied 24 m.nt_response ++ 0 ∷ [])) in
    let rest = response_value_len ∷ (value ++ m.username) in
    record {
      code = code_response;
      identifier = req.identifier;
      type = type_mschapv2;
      bytes = op_response ∷ ms_chap_id ∷ (put_uint16 ((4 + length rest) % 2 ^ 16) ++ rest);
    }

module _ (h : Hashes) where
  -- The three hashes, one after the other; the state keeps those that were computed before an error.
  unfoldable pub with_auth_response :
      Mschapv2 → Option (List ℕ) → Outcome MschapError (Unit {0}) × Mschapv2
  with_auth_response m none = (err no_auth_response, m)
  with_auth_response m (some resp) = (ok tt, record m { auth_response = resp })

  unfoldable pub with_utf16 : Mschapv2 → Option (List ℕ) → Outcome MschapError (Unit {0}) × Mschapv2
  with_utf16 m none = (err bad_password, m)
  with_utf16 m (some ucs2) =
      with_auth_response
        (record m { password_hash_hash = h.nt_password_hash (h.nt_password_hash ucs2) })
        (h.generate_authenticator_response m.auth_challenge m.peer_challenge m.nt_response
          m.username m.password)

  unfoldable pub with_nt_response :
      Mschapv2 → Option (List ℕ) → Outcome MschapError (Unit {0}) × Mschapv2
  with_nt_response m none = (err no_nt_response, m)
  with_nt_response m (some nt) = with_utf16 (record m { nt_response = nt }) (h.to_utf16 m.password)

  -- `random` is what `rand.Read(peerChal)` leaves in the fresh peer challenge.
  unfoldable pub compute_hashes :
      Mschapv2 → Option (List ℕ) → Outcome MschapError (Unit {0}) × Mschapv2
  compute_hashes m none = (err no_random, m)
  compute_hashes m (some peer) =
      with_nt_response (record m { peer_challenge = peer })
        (h.generate_nt_response m.auth_challenge peer m.username m.password)

  unfoldable pub answer_challenge :
      EapPacket
      → ℕ
      → Outcome MschapError (Unit {0}) × Mschapv2
      → Outcome MschapError EapPacket × Mschapv2
  answer_challenge req ms_chap_id (computed, m) =
      (computed >>= λ _. ok (challenge_response m req ms_chap_id), m)

  unfoldable pub take_challenge :
      Mschapv2
      → EapPacket
      → Option (List ℕ)
      → Outcome MschapError (ℕ × List ℕ)
      → Outcome MschapError EapPacket × Mschapv2
  take_challenge m req random (ok (ms_chap_id, value)) =
      answer_challenge req ms_chap_id (compute_hashes (record m { auth_challenge = value }) random)
  take_challenge m req random (err e) = (err e, m)
  take_challenge m req random panic = (panic, m)
  take_challenge m req random stuck = (stuck, m)

  unfoldable pub handle_challenge :
      Mschapv2 → EapPacket → Option (List ℕ) → Outcome MschapError EapPacket × Mschapv2
  handle_challenge m req random = take_challenge m req random (read_challenge req)

  unfoldable pub derive_msk : List ℕ → List ℕ → Outcome MschapError (List ℕ)
  derive_msk password_hash_hash nt_response = do
    fail_if (length password_hash_hash == 0 || length nt_response == 0) missing_msk_inputs
    let master = h.get_master_key password_hash_hash nt_response
    recv_key ← or_err (h.get_asymmetric_start_key master false) no_start_key
    send_key ← or_err (h.get_asymmetric_start_key master true) no_start_key
    ok (copied 16 recv_key ++ (copied 16 send_key ++ replicate 32 0))

-- The message of a Success or Failure, of at least one octet.
unfoldable pub message_body : List ℕ → List ℕ
message_body d = if leb 4 (length d) then drop 4 d else drop 1 d

unfoldable pub check_success : Mschapv2 → EapPacket → Outcome MschapError (Unit {0})
check_success m req = do
  fail_if (not (req.type == type_mschapv2)) wrong_type
  fail_if (ltb (length req.bytes) 1) empty_success
  op ← byte_at req.bytes 0
  fail_if (op == op_failure) server_failure
  fail_if (not (op == op_success)) wrong_opcode
  let msg = message_body req.bytes
  fail_if (length m.auth_response == 0) success_before_challenge
  fail_if
      (ltb (length msg) (length m.auth_response)
        || not (bytes_equal (take (length m.auth_response) msg) m.auth_response))
      response_mismatch

unfoldable pub accept_success :
    Mschapv2 → EapPacket → Outcome MschapError (Unit {0}) → Outcome MschapError EapPacket × Mschapv2
accept_success m req (ok _) = (
  ok (record {
    code = code_response;
    identifier = req.identifier;
    type = type_mschapv2;
    bytes = op_success ∷ [];
  }),
  record m { auth_checked = true },
)
accept_success m req (err e) = (err e, m)
accept_success m req panic = (panic, m)
accept_success m req stuck = (stuck, m)

unfoldable pub handle_success : Mschapv2 → EapPacket → Outcome MschapError EapPacket × Mschapv2
handle_success m req = accept_success m req (check_success m req)

unfoldable pub identity_response : Mschapv2 → EapPacket → EapPacket
identity_response m req = record {
  code = code_response;
  identifier = req.identifier;
  type = type_identity;
  bytes = m.username;
}

-- MSKInputs, and the check by which the IKE layer admits an EAP-Success.
unfoldable pub msk_inputs : Mschapv2 → List ℕ × List ℕ
msk_inputs m = (m.password_hash_hash, m.nt_response)

unfoldable pub verified : Mschapv2 → Bool
verified m = m.auth_checked
