-- ===== src/Esp/Packet/Total.antt =====
-- Decrypt on any packet whatever.
use go_ipsec.Common.{
  ℕ, ◌%◌, ◌≤◌, ◌≡◌, refl, true, List, ◌∷◌, length, Option, some, none, arith, ◌==◌, ◌⊎◌, inl, inr,
  Bool-cases, Outcome, Any, Returns, Ensures, yields, fails, Ensures-Returns, Ensures-weaken,
  Ensures-fail_if, Ensures-fail_if_lt, Ensures-uint32_at, Ensures-slice, Ensures-slice_from,
  Ensures-bind, Ensures-if,
}
use go_ipsec.Crypto.{Primitives, Lawful}
use go_ipsec.Esp.Trailer.{EspError}
use go_ipsec.Esp.Trailer.Total.{parse_trailer-Ensures}
use go_ipsec.Esp.Replay.{accept}
use go_ipsec.Esp.Replay.History.{fresh}
use go_ipsec.Esp.Replay.Refine.{Tracks, accept_refines}
use go_ipsec.Esp.Packet.{
  Sa, Keys, cbc_keys, aead_keys, or_fail, crypt_blocks, verify_cbc, open_cbc, verify_aead, admitted,
  after_check, decrypt_with, decrypt,
}

or_fail-Ensures : {A : Type 0} (o : Option A) (e : EspError) → Ensures Any (or_fail o e)
unfolding or_fail
or_fail-Ensures none e = fails
or_fail-Ensures (some a) e = yields tt

module _ (p : Primitives) (laws : Lawful p) (pkt : List ℕ) where
  verify_cbc-Ensures :
      (spi : ℕ) (integ : List ℕ) → Ensures (λ _. 56 ≤ length pkt) (verify_cbc p spi integ pkt)
  unfolding verify_cbc
  verify_cbc-Ensures spi integ = Ensures-fail_if_lt _ _ _ _ λ long.
      Ensures-uint32_at _ _ _ (omega arith) λ _ _. Ensures-fail_if _ _ _ λ _.
        Ensures-uint32_at _ _ _ (omega arith) λ _ _.
          Ensures-slice _ _ _ _ (omega arith) (omega arith) λ signed _.
            Ensures-slice_from _ _ _ (omega arith) λ _ _.
              Ensures-slice _ _ _ _ (omega arith) (omega (arith, laws.hmac_length integ signed))
                λ _ _. Ensures-fail_if _ _ _ λ _. yields long

  open_cbc-Ensures : (block : p.Block) → 56 ≤ length pkt → Ensures Any (open_cbc p block pkt)
  unfolding open_cbc crypt_blocks
  open_cbc-Ensures block long = Ensures-slice _ _ _ _ (omega arith) (omega arith) λ iv _.
      Ensures-slice _ _ _ _ (omega arith) (omega arith) λ ct _. Ensures-fail_if _ _ _ λ aligned.
        Ensures-bind {Q = Any} _ _
          (Ensures-if (length ct % 16 == 0) _ _ (λ _. yields tt) (λ odd. absurd (ground arith)))
          λ plain _. parse_trailer-Ensures plain

  verify_aead-Ensures :
      (spi : ℕ) (cipher : p.Aead) (salt : List ℕ) → Ensures Any (verify_aead p spi cipher salt pkt)
  unfolding verify_aead
  verify_aead-Ensures spi cipher salt = Ensures-fail_if_lt _ _ _ _ λ long.
      Ensures-uint32_at _ _ _ (omega arith) λ _ _. Ensures-fail_if _ _ _ λ _.
        Ensures-uint32_at _ _ _ (omega arith) λ _ _.
          Ensures-slice _ _ _ _ (omega arith) (omega arith) λ _ _.
            Ensures-slice_from _ _ _ (omega arith) λ _ _.
              Ensures-slice _ _ _ _ (omega arith) (omega arith)
                λ _ _. Ensures-bind _ _ (or_fail-Ensures _ _) λ _ _. yields tt

-- The history `after` a call: as before it, or with one fresh sequence number more.
abbrev pub Grows : ℕ → List ℕ → List ℕ → Type 0
Grows size seen after =
    (after ≡ seen) ⊎ ((seq : ℕ) × (fresh size seen seq ≡ true) × (after ≡ seq ∷ seen))

module _ {Block : Type 0} {Aead : Type 0} (sa : Sa Block Aead) (seen : List ℕ)
    (t : Tracks sa.window seen) where
  abbrev Answered : Outcome EspError (List ℕ) × Sa Block Aead → Type 0
  Answered r =
      Returns r.0 × (after : List ℕ) × Tracks r.1.window after × Grows sa.window.size seen after

  admitted-Answered :
      (seq : ℕ) (rest : Outcome EspError (List ℕ))
      → Returns rest
      → Answered (admitted sa (accept sa.window seq) rest)
  unfolding admitted
  admitted-Answered seq rest h =
      let (w', answered, size, t') = accept_refines sa.window seen seq t in
      elim (Bool-cases (fresh sa.window.size seen seq)) [
        | inl new ↦ rw (answered, new) (h, seq ∷ seen, rw new at t', inr (seq, new, refl))
        | inr old ↦ rw (answered, old) (tt, seen, rw old at t', inl refl)
      ]

  after_check-Answered :
      {A : Type 0} (m : Outcome EspError A) (seq : A → ℕ) (rest : A → Outcome EspError (List ℕ))
      → Ensures (λ a. Returns (rest a)) m
      → Answered (after_check sa m seq rest)
  unfolding after_check
  after_check-Answered m seq rest (yields {a = a} h) = admitted-Answered (seq a) (rest a) h
  after_check-Answered m seq rest (fails {e = e}) = (tt, seen, t, inl refl)

-- On every packet, of any length and content, Decrypt returns, on an SA whose window holds a history
-- and with cryptography that keeps the laws: no index or slice is out of range, and no block function
-- gets a ragged input. It leaves a window that holds the same history, or that history with one
-- sequence number more, which was fresh.
pub decrypt-Returns :
    (p : Primitives) (laws : Lawful p) (sa : Sa p.Block p.Aead) (seen pkt : List ℕ)
    → Tracks sa.window seen
    → let r = decrypt p sa pkt in
      Returns r.0 × (after : List ℕ) × Tracks r.1.window after × Grows sa.window.size seen after
unfolding decrypt decrypt_with
decrypt-Returns p laws sa seen pkt t = by_keys sa.keys
  where
    by_keys : (k : Keys p.Block p.Aead) → Answered sa seen t (decrypt_with p k sa pkt)
    by_keys (cbc_keys ob ib oi ii) = after_check-Answered sa seen t _ _ _ (
        Ensures-weaken (verify_cbc-Ensures p laws pkt sa.in_spi ii)
          λ _ long. Ensures-Returns (open_cbc-Ensures p laws pkt ib long))
    by_keys (aead_keys oa ia os is) = after_check-Answered sa seen t _ _ _ (
        Ensures-weaken (verify_aead-Ensures p laws pkt sa.in_spi ia is)
          λ c _. Ensures-Returns (parse_trailer-Ensures c.1))
