-- ===== src/Eap/Mschap/Conversation.antt =====
-- The conversation with the server, and what the server has to send to prove that it knows the password.
use mathlib.Core.List.{Memᴰ}
use go_ipsec.Common.{ℕ, ◌<◌, ◌≡◌, Option, some, List, [], ◌∷◌, length, take, drop, get_or}
use go_ipsec.Eap.{EapPacket}
use go_ipsec.Eap.Mschap.{
  Hashes, Mschapv2, new_mschapv2, handle_challenge, message_body, handle_success,
}

-- A request that was handled, answered or refused: a Challenge with what the random source gave for it, or a
-- Success.
pub data Handled : Type 0 where
  challenge_handled : EapPacket → Option (List ℕ) → Handled
  success_handled : EapPacket → Handled

-- The conversation so far, from a new state. The list holds the requests, the last one first.
pub data IsReached (h : Hashes) (username password : List ℕ)
    : List Handled → Mschapv2 → Type 0 where
  start : IsReached h username password [] (new_mschapv2 username password)
  challenged :
      {es : List Handled} {m : Mschapv2}
      → IsReached h username password es m
      → (req : EapPacket) (random : Option (List ℕ))
      → IsReached h username password
          (challenge_handled req random ∷ es)
          (handle_challenge h m req random).1
  succeeded :
      {es : List Handled} {m : Mschapv2}
      → IsReached h username password es m
      → (req : EapPacket)
      → IsReached h username password (success_handled req ∷ es) (handle_success m req).1

-- The server's proof for the challenge of a handled request and the one that this end drew for it, which
-- takes the hash of the password.
pub record IsExpected (h : Hashes) (username password : List ℕ) (es : List Handled) (resp : List ℕ)
    : Type 0 where
  pub request : EapPacket
  pub auth_challenge : List ℕ
  pub peer_challenge : List ℕ
  pub nt_response : List ℕ
  pub handled : Memᴰ (challenge_handled request (some peer_challenge)) es
  pub from_server : take 16 (drop 5 request.bytes) ≡ auth_challenge
  pub own_response :
      h.generate_nt_response auth_challenge peer_challenge username password ≡ some nt_response
  pub from_password :
      h.generate_authenticator_response auth_challenge peer_challenge nt_response username password
      ≡ some resp

-- A Success, behind the requests `es`, whose message begins with such a proof, of at least one byte.
pub record IsProof (h : Hashes) (username password : List ℕ) (es : List Handled)
    (success : EapPacket) : Type 0 where
  pub resp : List ℕ
  pub expected : IsExpected h username password es resp
  pub of_method : success.type ≡ 26
  pub opcode : get_or success.bytes 0 0 ≡ 3
  pub some_bytes : 0 < length resp
  pub begins : take (length resp) (message_body success.bytes) ≡ resp

-- One of the handled requests is a Success with the proof for a Challenge that was handled before it.
pub data HasProved (h : Hashes) (username password : List ℕ) : List Handled → Type 0 where
  now :
      {es : List Handled} {success : EapPacket}
      → IsProof h username password es success
      → HasProved h username password (success_handled success ∷ es)
  before :
      {es : List Handled} (e : Handled)
      → HasProved h username password es
      → HasProved h username password (e ∷ es)
