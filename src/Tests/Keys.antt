-- ===== src/Tests/Keys.antt =====
-- Key derivation on concrete secrets, with a MAC of zeros.
use go_ipsec.Common.{
  ℕ, ◌+◌, ◌*◌, ◌≡◌, refl, List, [], ◌∷◌, ◌++◌, length, take, replicate, arith, ok,
}
use go_ipsec.Ikesa.{prf_plus, ChildKeys, derive_child_keys_pfs}
use go_ipsec.Ikesa.KeyStream.{stream, prf_plus-stream, derive_child_keys_pfs-split}

abbrev zero_mac : List ℕ → List ℕ → List ℕ
zero_mac key message = replicate 32 0

prf_plus-stream_example :
    prf_plus zero_mac (1 ∷ []) (2 ∷ []) 72
    ≡ ok (take 72 (stream zero_mac (1 ∷ []) (2 ∷ []) 255 1 []))
prf_plus-stream_example = prf_plus-stream zero_mac (1 ∷ []) (2 ∷ []) (λ k m. refl) 72 (omega arith)

derive_child_keys_pfs-split_example :
    let seed : List ℕ = [] ++ ((2 ∷ []) ++ (3 ∷ [])) in
    (keys : ChildKeys) × (derive_child_keys_pfs zero_mac (1 ∷ []) [] (2 ∷ []) (3 ∷ []) 32 32
      ≡ ok keys)
    × (length keys.encr_ir ≡ 32)
    × (length keys.integ_ir ≡ 32)
    × (length keys.encr_ri ≡ 32)
    × (length keys.integ_ri ≡ 32)
    × (keys.encr_ir ++ (keys.integ_ir ++ (keys.encr_ri ++ keys.integ_ri))
        ≡ take (2 * (32 + 32)) (stream zero_mac (1 ∷ []) seed 255 1 []))
derive_child_keys_pfs-split_example =
    derive_child_keys_pfs-split zero_mac (1 ∷ []) [] (2 ∷ []) (3 ∷ []) 32 32 (λ k m. refl)
      (omega arith)
