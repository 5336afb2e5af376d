-- ===== src/Store/Crc.antt =====
-- `crc32` of src/store/container.cpp: the reflected IEEE 802.3 checksum, by its table.
use Prim.Native.Nat.{bit_and, bit_xor}
use rag_cpp.Common.{
  ℕ, zero, suc, ◌+◌, ◌/◌, ◌%◌, ◌^◌, ◌<◌, ◌≡◌, refl, List, [], ◌∷◌, arith, ◌==◌, if◌then◌else◌,
  get_or,
}
use rag_cpp.Core.{bytes}

-- `c = (c & 1) ? (0xEDB88320u ^ (c >> 1)) : (c >> 1)`, `rounds` times
shift_rounds : ℕ → ℕ → ℕ
shift_rounds zero c = c
shift_rounds (suc k) c =
    shift_rounds k (if bit_and c 1 == 0 then c / 2 else bit_xor 0xEDB88320 (c / 2))

table_from : ℕ → ℕ → List ℕ
unfolding shift_rounds
table_from zero i = []
table_from (suc n) i = shift_rounds 8 i ∷ table_from n (i + 1)

crc_table : List ℕ
unfolding table_from
crc_table = table_from 256 0

-- One byte: `crc = table[(crc ^ b) & 0xFF] ^ (crc >> 8)`
crc_step : List ℕ → ℕ → ℕ → ℕ
crc_step table crc b = bit_xor (get_or table (bit_and (bit_xor crc b) 0xFF) 0) (crc / 256)

crc_loop : List ℕ → ℕ → List ℕ → ℕ
unfolding crc_step
crc_loop table crc [] = crc
crc_loop table crc (b ∷ data_) = crc_loop table (crc_step table crc b) data_

-- The result is a `std::uint32_t`.
unfoldable pub crc32 : List ℕ → ℕ
unfolding crc_loop crc_table
crc32 s = bit_xor (crc_loop crc_table 0xFFFFFFFF s) 0xFFFFFFFF % 2 ^ 32

pub crc32-lt : (s : List ℕ) → crc32 s < 256 ^ 4
unfolding crc32
crc32-lt s = omega arith

crc32_check : crc32 (bytes "123456789") ≡ 0xCBF43926
unfolding crc32
crc32_check = refl
