-- ===== src/Tests/Coding.antt =====
-- Runs of the integer codes.
use treeline.Prelude.{◌-◌, ◌^◌, ◌≡◌, refl, some, [], ◌∷◌, ◌++◌, arith}
use treeline.Coding.{
  encode_varint32, encode_varint64, get_varint64_ptr, put_length_prefixed_slice,
  get_length_prefixed_slice,
}
use treeline.Coding.Varint.{get-encode_varint64}
use treeline.Coding.Prefixed.{get-put_length_prefixed}

encode_varint32_300 : encode_varint32 300 ≡ 172 ∷ 2 ∷ []
unfolding encode_varint32
encode_varint32_300 = refl

get-encode_varint64_example :
    get_varint64_ptr (encode_varint64 (2 ^ 64 - 1) ++ (1 ∷ [])) ≡ some (2 ^ 64 - 1, 1 ∷ [])
get-encode_varint64_example = get-encode_varint64 (2 ^ 64 - 1) (1 ∷ []) (omega arith)

get-put_length_prefixed_example :
    get_length_prefixed_slice (put_length_prefixed_slice [] (5 ∷ 6 ∷ []) ++ (9 ∷ []))
    ≡ some (5 ∷ 6 ∷ [], 9 ∷ [])
get-put_length_prefixed_example = get-put_length_prefixed (5 ∷ 6 ∷ []) (9 ∷ []) (omega arith)
