-- ===== src/Esp/Packet/Shape.antt =====
-- The lengths and the words of the packets of one pair of SAs.
use go_ipsec.Common.{ℕ, ◌+◌, ◌%◌, ◌^◌, ◌≤◌, ◌<◌, ◌≡◌, List, ◌++◌, length, arith, word32, put_uint32}
use go_ipsec.Esp.Packet.{padding_for}

-- The padding is at most what a byte holds, and makes the plaintext a whole number of blocks.
pub padding_for_block :
    (inner : List ℕ) → let n = padding_for 16 inner in (n ≤ 15) × ((length inner + n + 2) % 16 ≡ 0)
unfolding padding_for
padding_for_block inner = (omega arith, omega arith)

pub padding_for_word :
    (inner : List ℕ) → let n = padding_for 4 inner in (n ≤ 3) × ((length inner + n + 2) % 4 ≡ 0)
unfolding padding_for
padding_for_word inner = (omega arith, omega arith)

pub word32-put_uint32 : (v : ℕ) (rest : List ℕ) → v < 2 ^ 32 → word32 (put_uint32 v ++ rest) 0 ≡ v
word32-put_uint32 v rest h = omega arith

pub word32-put_uint32_after :
    (u v : ℕ) (rest : List ℕ) → v < 2 ^ 32 → word32 (put_uint32 u ++ (put_uint32 v ++ rest)) 4 ≡ v
word32-put_uint32_after u v rest h = omega arith
