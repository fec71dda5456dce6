-- ===== src/Wal/Format.antt =====
-- wal/format.h and util/crc32c.h: record types and checksums.
use treeline.Prelude.{
  ℕ, zero, suc, ◌+◌, ◌-◌, ◌*◌, ◌/◌, ◌%◌, ◌^◌, ◌<◌, ◌≡◌, refl, arith, Option, none, some, List, ◌++◌,
}

abbrev pub header_size : ℕ
header_size = 7

pub data RecordType : Type 0 where
  zero_type full_type first_type middle_type last_type eof_type bad_record : RecordType

unfoldable pub byte_of_type : RecordType → ℕ
byte_of_type zero_type = 0
byte_of_type full_type = 1
byte_of_type first_type = 2
byte_of_type middle_type = 3
byte_of_type last_type = 4
byte_of_type eof_type = 5
byte_of_type bad_record = 6

-- `none` is a byte above `kMaxRecordType`.
unfoldable pub type_of_byte : ℕ → Option RecordType
type_of_byte zero = some zero_type
type_of_byte (suc zero) = some full_type
type_of_byte (suc (suc zero)) = some first_type
type_of_byte (suc (suc (suc zero))) = some middle_type
type_of_byte (suc (suc (suc (suc zero)))) = some last_type
type_of_byte (suc (suc (suc (suc (suc zero))))) = some eof_type
type_of_byte (suc (suc (suc (suc (suc (suc zero)))))) = some bad_record
type_of_byte (suc (suc (suc (suc (suc (suc (suc n))))))) = none

pub type_of-byte_of : (t : RecordType) → type_of_byte (byte_of_type t) ≡ some t
unfolding type_of_byte byte_of_type
type_of-byte_of zero_type = refl
type_of-byte_of full_type = refl
type_of-byte_of first_type = refl
type_of-byte_of middle_type = refl
type_of-byte_of last_type = refl
type_of-byte_of eof_type = refl
type_of-byte_of bad_record = refl

-- The checksum of the crc32c library, which the repository does not hold: a 32-bit word, and extending
-- the checksum of some bytes by more bytes gives the checksum of them all.
pub record Crc : Type 0 where
  pub extend : ℕ → List ℕ → ℕ
  pub extend-extend : (xs ys : List ℕ) → extend (extend 0 xs) ys ≡ extend 0 (xs ++ ys)
  pub extend_bound : (c : ℕ) (xs : List ℕ) → extend c xs < 2 ^ 32

-- `kMaskDelta`.
abbrev pub mask_delta : ℕ
mask_delta = 2726488792

-- A rotation to the right by 15 bits; the two parts have no bit in common.
unfoldable pub mask : ℕ → ℕ
mask crc = (crc / 2 ^ 15 + crc * 2 ^ 17 % 2 ^ 32 + mask_delta) % 2 ^ 32

unfoldable pub unmask : ℕ → ℕ
unmask masked_crc =
    let rot = (masked_crc + 2 ^ 32 - mask_delta) % 2 ^ 32 in rot / 2 ^ 17 + rot * 2 ^ 15 % 2 ^ 32

-- A 32-bit checksum is got back from its masked form.
pub unmask-mask : (crc : ℕ) → crc < 2 ^ 32 → (unmask (mask crc) ≡ crc) × (mask crc < 2 ^ 32)
unfolding mask unmask
unmask-mask crc h = omega arith
