-- ===== src/Ikesa.antt =====
-- internal/ikesa: prf+ of crypto.go, and the keys of a Child SA of child.go. HMAC-SHA2-256 is an argument.
-- Keys and Sk are keys.go, Dh is dh.go.
pub mod Dh
pub mod KeyStream
pub mod Keys
pub mod Sk
use go_ipsec.Common.{
  ℕ, zero, suc, ◌+◌, ◌*◌, ◌%◌, Bool, List, [], ◌∷◌, ◌++◌, length, ltb, if◌then◌else◌, Outcome, ok,
  panic, stuck, ◌>>=◌, slice,
}

module _ (hmac : List ℕ → List ℕ → List ℕ) (key seed : List ℕ) where
  -- The block `Tn` behind `prev`.
  abbrev pub next_block : ℕ → List ℕ → List ℕ
  next_block i prev = hmac key (prev ++ (seed ++ (i % 256) ∷ []))

  -- The loop, with `i` the index of the block to come.
  unfoldable pub prf_plus_from : ℕ → ℕ → ℕ → List ℕ → List ℕ → Outcome ⊥ (List ℕ)
  prf_plus_from zero key_len i prev out = stuck
  prf_plus_from (suc fuel) key_len i prev out =
      let prev' = next_block i prev in
      let rest = prf_plus_from fuel key_len (i + 1) prev' (out ++ prev') in
      if ltb (length out) key_len then (if ltb 255 i then panic else rest) else ok out

  unfoldable pub prf_plus : ℕ → Outcome ⊥ (List ℕ)
  prf_plus key_len = do out ← prf_plus_from 257 key_len 1 [] []; slice out 0 key_len

pub record ChildKeys : Type 0 where
  pub encr_ir : List ℕ
  pub integ_ir : List ℕ
  pub encr_ri : List ℕ
  pub integ_ri : List ℕ

-- `take` in the source: the next `n` bytes of the key stream, from `off` on.
unfoldable pub derive_child_keys_pfs :
    (hmac : List ℕ → List ℕ → List ℕ)
    → List ℕ
    → List ℕ
    → List ℕ
    → List ℕ
    → ℕ
    → ℕ
    → Outcome ⊥ ChildKeys
derive_child_keys_pfs hmac sk_d dh_shared nonce_i nonce_r encr_len integ_len = do
  ks ← prf_plus hmac sk_d (dh_shared ++ (nonce_i ++ nonce_r)) (2 * (encr_len + integ_len))
  encr_ir ← slice ks 0 encr_len
  integ_ir ← slice ks encr_len (encr_len + integ_len)
  encr_ri ← slice ks (encr_len + integ_len) (encr_len + integ_len + encr_len)
  integ_ri ←
      slice ks (encr_len + integ_len + encr_len) (encr_len + integ_len + encr_len + integ_len)
  ok (record { encr_ir = encr_ir; integ_ir = integ_ir; encr_ri = encr_ri; integ_ri = integ_ri })

unfoldable pub derive_child_keys :
    (hmac : List ℕ → List ℕ → List ℕ) → List ℕ → List ℕ → List ℕ → ℕ → ℕ → Outcome ⊥ ChildKeys
derive_child_keys hmac sk_d nonce_i nonce_r encr_len integ_len =
    derive_child_keys_pfs hmac sk_d [] nonce_i nonce_r encr_len integ_len
