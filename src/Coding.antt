-- ===== src/Coding.antt =====
-- util/coding.{h,cc}: fixed-length and variable-length integers, and length-prefixed slices.
-- A buffer is a list of bytes, each below 256, and a pointer into it is the rest of the list. A cast to
-- `uint8_t` is a remainder by 256, a shift a product or quotient; `|` joins bits that do not overlap, and
-- is a sum.
pub mod Fixed
pub mod Varint
pub mod Prefixed
use treeline.Prelude.{
  ℕ, zero, suc, ◌+◌, ◌-◌, ◌*◌, ◌/◌, ◌%◌, ◌^◌, ◌<◌, Bool, true, false, Option, none, some, List, [],
  ◌∷◌, ◌++◌, ltb, leb, if◌then◌else◌, length, take, drop, get_or,
}

abbrev pub byte : ℕ → ℕ
byte v = v % 256

-- `v | 128` as a byte.
abbrev pub continued : ℕ → ℕ
continued v = v % 128 + 128

unfoldable pub encode_fixed32 : ℕ → List ℕ
encode_fixed32 v = byte v ∷ byte (v / 2 ^ 8) ∷ byte (v / 2 ^ 16) ∷ byte (v / 2 ^ 24) ∷ []

unfoldable pub encode_fixed64 : ℕ → List ℕ
encode_fixed64 v =
    byte v
    ∷ byte (v / 2 ^ 8)
    ∷ byte (v / 2 ^ 16)
    ∷ byte (v / 2 ^ 24)
    ∷ byte (v / 2 ^ 32)
    ∷ byte (v / 2 ^ 40)
    ∷ byte (v / 2 ^ 48)
    ∷ byte (v / 2 ^ 56)
    ∷ []

-- The decoders check no bounds; `none` is a read past the end of the buffer.
unfoldable pub decode_fixed32 : List ℕ → Option ℕ
decode_fixed32 (b0 ∷ b1 ∷ b2 ∷ b3 ∷ rest) = some (b0 + b1 * 2 ^ 8 + b2 * 2 ^ 16 + b3 * 2 ^ 24)
decode_fixed32 short = none

unfoldable pub decode_fixed64 : List ℕ → Option ℕ
decode_fixed64 (b0 ∷ b1 ∷ b2 ∷ b3 ∷ b4 ∷ b5 ∷ b6 ∷ b7 ∷ rest) = some (
    b0
    + b1 * 2 ^ 8
    + b2 * 2 ^ 16
    + b3 * 2 ^ 24
    + b4 * 2 ^ 32
    + b5 * 2 ^ 40
    + b6 * 2 ^ 48
    + b7 * 2 ^ 56)
decode_fixed64 short = none

unfoldable pub put_fixed32 : List ℕ → ℕ → List ℕ
unfolding encode_fixed32
put_fixed32 dst value = dst ++ encode_fixed32 value

unfoldable pub put_fixed64 : List ℕ → ℕ → List ℕ
unfolding encode_fixed64
put_fixed64 dst value = dst ++ encode_fixed64 value

unfoldable pub encode_varint32 : ℕ → List ℕ
encode_varint32 v =
    if ltb v (2 ^ 7)
    then byte v ∷ []
    else (if ltb v (2 ^ 14)
        then continued v ∷ byte (v / 2 ^ 7) ∷ []
        else (if ltb v (2 ^ 21)
            then continued v ∷ continued (v / 2 ^ 7) ∷ byte (v / 2 ^ 14) ∷ []
            else (if ltb v (2 ^ 28)
                then continued v
                  ∷ continued (v / 2 ^ 7)
                  ∷ continued (v / 2 ^ 14)
                  ∷ byte (v / 2 ^ 21)
                  ∷ []
                else continued v
                  ∷ continued (v / 2 ^ 7)
                  ∷ continued (v / 2 ^ 14)
                  ∷ continued (v / 2 ^ 21)
                  ∷ byte (v / 2 ^ 28)
                  ∷ [])))

unfoldable pub put_varint32 : List ℕ → ℕ → List ℕ
put_varint32 dst v = dst ++ encode_varint32 v

-- The loops on `v >= 128`. Nine rounds are enough: 2 ^ 64 / 128 ^ 9 is 2.
unfoldable pub encode_varint64_loop : ℕ → ℕ → List ℕ
encode_varint64_loop zero v = byte v ∷ []
encode_varint64_loop (suc rounds) v =
    let more = continued v ∷ encode_varint64_loop rounds (v / 2 ^ 7) in
    if leb 128 v then more else byte v ∷ []

unfoldable pub encode_varint64 : ℕ → List ℕ
unfolding encode_varint64_loop
encode_varint64 v = encode_varint64_loop 9 v

unfoldable pub put_varint64 : List ℕ → ℕ → List ℕ
unfolding encode_varint64
put_varint64 dst v = dst ++ encode_varint64 v

unfoldable pub varint_length_loop : ℕ → ℕ → ℕ → ℕ
varint_length_loop zero v len = len
varint_length_loop (suc rounds) v len =
    let more = varint_length_loop rounds (v / 2 ^ 7) (len + 1) in if leb 128 v then more else len

unfoldable pub varint_length : ℕ → ℕ
unfolding varint_length_loop
varint_length v = varint_length_loop 9 v 1

-- The loop of the two decoders, for a width of `w` bits and shifts up to `last`; on success the value
-- and the rest of the buffer.
unfoldable pub get_varint_loop : ℕ → ℕ → ℕ → ℕ → List ℕ → Option (ℕ × List ℕ)
get_varint_loop w last shift result [] = none
get_varint_loop w last shift result (b ∷ p) =
    let more = get_varint_loop w last (shift + 7) (result + (b % 128) * 2 ^ shift % 2 ^ w) p in
    if leb shift last
    then (if leb 128 b then more else some (result + b * 2 ^ shift % 2 ^ w, p))
    else none

unfoldable pub get_varint32_ptr_fallback : List ℕ → Option (ℕ × List ℕ)
unfolding get_varint_loop
get_varint32_ptr_fallback p = get_varint_loop 32 28 0 0 p

unfoldable pub get_varint32_ptr : List ℕ → Option (ℕ × List ℕ)
unfolding get_varint32_ptr_fallback
get_varint32_ptr [] = get_varint32_ptr_fallback []
get_varint32_ptr (b ∷ p) = if ltb b 128 then some (b, p) else get_varint32_ptr_fallback (b ∷ p)

unfoldable pub get_varint32 : List ℕ → Option (ℕ × List ℕ)
get_varint32 input = get_varint32_ptr input

unfoldable pub get_varint64_ptr : List ℕ → Option (ℕ × List ℕ)
unfolding get_varint_loop
get_varint64_ptr p = get_varint_loop 64 63 0 0 p

unfoldable pub get_varint64 : List ℕ → Option (ℕ × List ℕ)
unfolding get_varint64_ptr
get_varint64 input = get_varint64_ptr input

-- The size is narrowed to 32 bits on its way to `PutVarint32`.
unfoldable pub put_length_prefixed_slice : List ℕ → List ℕ → List ℕ
put_length_prefixed_slice dst value = put_varint32 dst (length value % 2 ^ 32) ++ value

-- On success the slice and the rest of the input.
unfoldable pub get_length_prefixed_slice : List ℕ → Option (List ℕ × List ℕ)
get_length_prefixed_slice input = elim (get_varint32 input) [
  | none ↦ none
  | some (len, rest) ↦ if leb len (length rest) then some (take len rest, drop len rest) else none
]
