-- ===== src/Esp/Packet/Numbers.antt =====
-- The sequence numbers that the calls of Encrypt on one SA put into their packets.
use go_ipsec.Common.{
  ℕ, ◌+◌, ◌-◌, ◌%◌, ◌^◌, ◌≤◌, ◌<◌, ◌≡◌, refl, List, [], ◌∷◌, length, some, none, Option, arith,
  ==-of_eq, ==-of_ne, Outcome, ok, err, panic, stuck, word32, Ensures, yields, fails, Ensures-ok,
  ◌>>=◌,
}
use native.Mathlib.Decide.{ℕ_discrete}
use go_ipsec.Crypto.{Primitives}
use go_ipsec.Esp.Trailer.{EspError}
use go_ipsec.Esp.Trailer.RoundTrip.{plaintext, length-plaintext, fill_trailer-plaintext}
use go_ipsec.Esp.Packet.{
  Sa, Keys, cbc_keys, aead_keys, or_fail, padding_for, crypt_blocks, encrypt_cbc, encrypt_aead,
  encrypt_with, encrypt,
}
use go_ipsec.Esp.Packet.Shape.{padding_for_block, padding_for_word}

-- The outcomes of calls of Encrypt, one after the other; each has a datagram and the random bytes read.
unfoldable pub encrypt_all :
    (p : Primitives)
    → Sa p.Block p.Aead
    → List (List ℕ × Option (List ℕ))
    → List (Outcome EspError (List ℕ))
encrypt_all p sa [] = []
encrypt_all p sa ((inner, random) ∷ calls) =
    let r = encrypt p sa inner random in r.0 ∷ encrypt_all p r.1 calls

-- The sequence numbers on the wire go up from `last` on and fit their field; no call panics.
abbrev pub AreIncreasing : ℕ → List (Outcome EspError (List ℕ)) → Type 0
AreIncreasing last [] = Unit {0}
AreIncreasing last (ok pkt ∷ rest) =
    (last < word32 pkt 4) × (word32 pkt 4 < 2 ^ 32) × AreIncreasing (word32 pkt 4) rest
AreIncreasing last (err e ∷ rest) = AreIncreasing last rest
AreIncreasing last (panic ∷ rest) = ⊥
AreIncreasing last (stuck ∷ rest) = ⊥

module _ (p : Primitives) where
  number_sent :
      (k : Keys p.Block p.Aead) (spi seq : ℕ) (inner : List ℕ) (random : Option (List ℕ))
      → seq < 2 ^ 32
      → Ensures (λ pkt. word32 pkt 4 ≡ seq) (encrypt_with p k spi inner seq random)
  unfolding encrypt_with encrypt_cbc encrypt_aead or_fail crypt_blocks ◌>>=◌
  number_sent (cbc_keys ob ib oi ii) spi seq inner none h = fails
  number_sent (cbc_keys ob ib oi ii) spi seq inner (some iv) h =
      let n = padding_for 16 inner in
      let whole : length (plaintext inner n) % 16 ≡ 0 =
        omega (arith, length-plaintext inner n, padding_for_block inner) in
      rw
        (
          fill_trailer-plaintext inner n (omega (arith, padding_for_block inner)),
          ==-of_eq (length (plaintext inner n) % 16) 0 whole,
        )
        (yields (omega arith))
  number_sent (aead_keys oa ia os is) spi seq inner random h =
      rw
        (fill_trailer-plaintext inner (padding_for 4 inner) (omega (arith, padding_for_word inner)))
        (yields (omega arith))

  AreIncreasing-lower :
      (lo hi : ℕ) (outs : List (Outcome EspError (List ℕ)))
      → lo ≤ hi
      → AreIncreasing hi outs
      → AreIncreasing lo outs
  AreIncreasing-lower lo hi [] h i = tt
  AreIncreasing-lower lo hi (ok pkt ∷ outs) h i = (omega (arith, i.0), i.1, i.2)
  AreIncreasing-lower lo hi (err e ∷ outs) h i = AreIncreasing-lower lo hi outs h i
  AreIncreasing-lower lo hi (panic ∷ outs) h i = i
  AreIncreasing-lower lo hi (stuck ∷ outs) h i = i

  number_first :
      (last seq : ℕ) (out : Outcome EspError (List ℕ)) (rest : List (Outcome EspError (List ℕ)))
      → Ensures (λ pkt. word32 pkt 4 ≡ seq) out
      → last < seq
      → seq < 2 ^ 32
      → AreIncreasing seq rest
      → AreIncreasing last (out ∷ rest)
  number_first last seq (ok pkt) rest e lt fits i =
      let same = Ensures-ok e refl in (rw same lt, rw same fits, rw same i)
  number_first last seq (err x) rest e lt fits i = AreIncreasing-lower last seq rest (omega arith) i
  number_first last seq panic rest e lt fits i = absurd (no_panic e refl)
    where
      no_panic :
          {m : Outcome EspError (List ℕ)} → Ensures (λ pkt. word32 pkt 4 ≡ seq) m → m ≡ panic → ⊥
      no_panic (yields x) h = cc
      no_panic fails h = cc
  number_first last seq stuck rest e lt fits i = absurd (no_stuck e refl)
    where
      no_stuck :
          {m : Outcome EspError (List ℕ)} → Ensures (λ pkt. word32 pkt 4 ≡ seq) m → m ≡ stuck → ⊥
      no_stuck (yields x) h = cc
      no_stuck fails h = cc

-- Over any calls of Encrypt on one SA, failing ones included, the sequence numbers on the wire go up
-- strictly from the SA's 32-bit counter and never reach 2 ^ 32: none is used twice, and the counter
-- does not wrap. No call panics, whatever the cryptography.
pub encrypt_all-AreIncreasing :
    (p : Primitives) (sa : Sa p.Block p.Aead) (calls : List (List ℕ × Option (List ℕ)))
    → sa.seq < 2 ^ 32
    → AreIncreasing sa.seq (encrypt_all p sa calls)
unfolding encrypt_all encrypt
encrypt_all-AreIncreasing p sa [] h = tt
encrypt_all-AreIncreasing p sa ((inner, random) ∷ calls) h = elim (ℕ_discrete sa.seq (2 ^ 32 - 1)) [
  | yes last ↦ rw (==-of_eq sa.seq (2 ^ 32 - 1) last) (encrypt_all-AreIncreasing p sa calls h)
  | no below ↦ rw (==-of_ne sa.seq (2 ^ 32 - 1) below) (
      number_first p sa.seq (sa.seq + 1) _ _
        (number_sent p sa.keys sa.out_spi (sa.seq + 1) inner random (omega arith)) (omega arith)
        (omega arith)
        (encrypt_all-AreIncreasing p (record sa { seq = sa.seq + 1 }) calls (omega arith)))
]
