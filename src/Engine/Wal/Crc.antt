-- ===== src/Engine/Wal/Crc.antt =====
-- crc32.ChecksumIEEE of the Go library hash/crc32: the reflected polynomial 0xedb88320, bit by bit.
use Prim.Native.Nat.{bit_xor}
use scoria_db.Base.{
  ℕ, zero, suc, ◌/◌, ◌%◌, ◌^◌, ◌<◌, ◌≡◌, refl, [], ◌∷◌, arith, ◌==◌, if◌then◌else◌,
}
use scoria_db.Base.Bytes.{Bytes}

crc_bits : ℕ → ℕ → ℕ
crc_bits zero c = c
crc_bits (suc n) c = crc_bits n (if c % 2 == 1 then bit_xor (c / 2) 0xedb88320 else c / 2)

crc_bytes : ℕ → Bytes → ℕ
unfolding crc_bits
crc_bytes c [] = c
crc_bytes c (b ∷ bs) = crc_bytes (crc_bits 8 (bit_xor c b)) bs

-- The result is a uint32.
unfoldable pub checksum : Bytes → ℕ
unfolding crc_bytes
checksum bs = bit_xor (crc_bytes 0xffffffff bs) 0xffffffff % 2 ^ 32

pub checksum-lt : (bs : Bytes) → checksum bs < 2 ^ 32
unfolding checksum
checksum-lt bs = omega arith

-- The check value of CRC-32: the checksum of the text "123456789".
checksum_check_value :
    checksum (0x31 ∷ 0x32 ∷ 0x33 ∷ 0x34 ∷ 0x35 ∷ 0x36 ∷ 0x37 ∷ 0x38 ∷ 0x39 ∷ []) ≡ 0xcbf43926
unfolding checksum
checksum_check_value = refl
