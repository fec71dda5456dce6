-- ===== src/Coding/Prefixed.antt =====
-- A length-prefixed slice is read back.
use treeline.Prelude.{
  ℕ, ◌^◌, ◌<◌, ◌≡◌, refl, ap, some, List, [], ◌∷◌, ◌++◌, arith, length, take, drop, length-append,
}
use mathlib.Core.List.{append_assoc}
use native.Mathlib.Nat.{mod-eq_of_lt}
use treeline.Coding.{
  get_varint32, put_varint32, get_varint32_ptr, put_length_prefixed_slice,
  get_length_prefixed_slice,
}
use treeline.Coding.Varint.{get-encode_varint32}

pub take-length_append : (xs ys : List ℕ) → take (length xs) (xs ++ ys) ≡ xs
take-length_append [] ys = refl
take-length_append (x ∷ xs) ys = ap (◌∷◌ x) (take-length_append xs ys)

pub drop-length_append : (xs ys : List ℕ) → drop (length xs) (xs ++ ys) ≡ ys
drop-length_append [] ys = refl
drop-length_append (x ∷ xs) ys = drop-length_append xs ys

get_prefixed_of_varint :
    (input value rest : List ℕ)
    → get_varint32_ptr input ≡ some (length value, value ++ rest)
    → get_length_prefixed_slice input ≡ some (value, rest)
unfolding get_length_prefixed_slice get_varint32
get_prefixed_of_varint input value rest h =
    rw (h, get_length_prefixed_slice)
      (ground (
        arith,
        length-append value rest,
        take-length_append value rest,
        drop-length_append value rest,
      ))

-- A slice of less than 2 ^ 32 bytes that is put into an empty buffer is read back, and the rest of the
-- input is what follows it.
pub get-put_length_prefixed :
    (value rest : List ℕ)
    → length value < 2 ^ 32
    → get_length_prefixed_slice (put_length_prefixed_slice [] value ++ rest) ≡ some (value, rest)
unfolding put_length_prefixed_slice put_varint32
get-put_length_prefixed value rest h =
    get_prefixed_of_varint _ value rest
      (rw (append_assoc, mod-eq_of_lt h) (get-encode_varint32 (length value) (value ++ rest) h))
