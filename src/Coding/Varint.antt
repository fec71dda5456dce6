-- ===== src/Coding/Varint.antt =====
-- Variable-length integers are read back, and `VarintLength` is the length that is written.
use treeline.Prelude.{
  ℕ, zero, suc, ◌+◌, ◌*◌, ◌/◌, ◌%◌, ◌^◌, ◌≤◌, ◌<◌, ◌≡◌, ap, sym, some, List, ◌++◌, arith, length,
}
use native.Mathlib.Nat.{mod-eq_of_lt, pow-suc}
use native.Mathlib.Numerals.{towards_suc}
use treeline.Coding.{
  encode_varint32, encode_varint64_loop, encode_varint64, get_varint_loop, get_varint32_ptr,
  get_varint64_ptr, varint_length_loop, varint_length,
}

-- A 32-bit value is read back from its encoding, whatever follows it.
pub get-encode_varint32 :
    (v : ℕ) (rest : List ℕ)
    → v < 2 ^ 32
    → get_varint32_ptr (encode_varint32 v ++ rest) ≡ some (v, rest)
unfolding get_varint32_ptr encode_varint32
get-encode_varint32 v rest h = ground arith

-- The encoding takes from one to five bytes.
pub length-encode_varint32 :
    (v : ℕ) → (1 ≤ length (encode_varint32 v)) × (length (encode_varint32 v) ≤ 5)
unfolding encode_varint32
length-encode_varint32 v = ground arith

pow-add_seven : (shift : ℕ) → 2 ^ (shift + 7) ≡ 128 * 2 ^ shift
pow-add_seven shift = simp towards_suc (omega arith)

-- A group of seven bits is not cut off where the whole value is not, and the rest of the value goes on
-- seven bits higher.
group_fits :
    (v p : ℕ)
    → v * p < 2 ^ 64
    → ((v % 128) * p % 2 ^ 64 ≡ (v % 128) * p) × ((v % 128) * p + v / 128 * (128 * p) ≡ v * p)
group_fits v p h =
    let parts : v ≡ v % 128 + 128 * (v / 128) = omega arith in
    let total : v * p ≡ (v % 128) * p + v / 128 * (128 * p) =
      omega (arith, ap (λ (t : ℕ). t * p) parts) in
    let fits : (v % 128) * p < 2 ^ 64 = omega arith in (mod-eq_of_lt fits, sym total)

get-encode_loop :
    (rounds shift v result : ℕ) (rest : List ℕ)
    → v < 2 ^ 7 * 128 ^ rounds
    → shift + 7 * rounds ≤ 63
    → v * 2 ^ shift < 2 ^ 64
    → get_varint_loop 64 63 shift result (encode_varint64_loop rounds v ++ rest)
      ≡ some (result + v * 2 ^ shift, rest)
unfolding get_varint_loop encode_varint64_loop
get-encode_loop zero shift v result rest h k small = ground (arith, group_fits v (2 ^ shift) small)
get-encode_loop (suc rounds) shift v result rest h k small = ground (
  arith,
  group_fits v (2 ^ shift) small,
  pow-add_seven shift,
  pow-suc 128 rounds,
  get-encode_loop rounds (shift + 7) (v / 128) (result + (v % 128) * 2 ^ shift) rest,
)

-- A 64-bit value is read back from its encoding, whatever follows it.
pub get-encode_varint64 :
    (v : ℕ) (rest : List ℕ)
    → v < 2 ^ 64
    → get_varint64_ptr (encode_varint64 v ++ rest) ≡ some (v, rest)
unfolding get_varint64_ptr encode_varint64
get-encode_varint64 v rest h = ground (arith, get-encode_loop 9 0 v 0 rest)

length-encode_loop :
    (rounds v len : ℕ)
    → varint_length_loop rounds v (len + 1) ≡ len + length (encode_varint64_loop rounds v)
unfolding varint_length_loop encode_varint64_loop
length-encode_loop zero v len = omega arith
length-encode_loop (suc rounds) v len =
    ground (arith, length-encode_loop rounds (v / 128) (len + 1))

-- `VarintLength` is the number of bytes that are written.
pub varint_length-encode : (v : ℕ) → varint_length v ≡ length (encode_varint64 v)
unfolding varint_length encode_varint64
varint_length-encode v = omega (arith, length-encode_loop 9 v 0)
