-- ===== src/Wal/Checksum.antt =====
-- `crc32.ChecksumIEEE` of hash/crc32, which frames the records of pkg/wal/wal.go.
use Prim.Native.Nat.{bit_xor}
use mathlib.Core.List.{foldl}
use s3search.Base.{ℕ, zero, suc, ◌/◌, ◌%◌, ◌^◌, ◌≡◌, refl, arith, Bytes, IsU32, ◌==◌, ◌∷◌, []}
use s3search.Base.{if◌then◌else◌}

crc_bits : ℕ → ℕ → ℕ
crc_bits zero c = c
crc_bits (suc k) c = crc_bits k (if c % 2 == 1 then bit_xor (c / 2) 0xedb88320 else c / 2)

crc_byte : ℕ → ℕ → ℕ
crc_byte c b = crc_bits 8 (bit_xor c b)

unfoldable pub checksum_ieee : Bytes → ℕ
unfolding crc_byte crc_bits
checksum_ieee p = bit_xor (foldl crc_byte 0xffffffff p) 0xffffffff % 2 ^ 32

pub checksum_ieee-IsU32 : (p : Bytes) → IsU32 (checksum_ieee p)
unfolding checksum_ieee
checksum_ieee-IsU32 p = omega arith

-- the check value of the polynomial, on "123456789"
checksum_check : checksum_ieee (49 ∷ 50 ∷ 51 ∷ 52 ∷ 53 ∷ 54 ∷ 55 ∷ 56 ∷ 57 ∷ []) ≡ 0xcbf43926
unfolding checksum_ieee
checksum_check = refl
