-- ===== src/Coding/Fixed.antt =====
-- Fixed-length integers are read back.
use treeline.Prelude.{ℕ, ◌^◌, ◌<◌, ◌≡◌, some, List, ◌++◌, arith}
use treeline.Coding.{encode_fixed32, encode_fixed64, decode_fixed32, decode_fixed64}

-- A 32-bit value is read back from the four bytes written for it, whatever follows them.
pub decode-encode_fixed32 :
    (v : ℕ) (rest : List ℕ) → v < 2 ^ 32 → decode_fixed32 (encode_fixed32 v ++ rest) ≡ some v
unfolding decode_fixed32 encode_fixed32
decode-encode_fixed32 v rest h = ground arith

-- A 64-bit value is read back from the eight bytes written for it, whatever follows them.
pub decode-encode_fixed64 :
    (v : ℕ) (rest : List ℕ) → v < 2 ^ 64 → decode_fixed64 (encode_fixed64 v ++ rest) ≡ some v
unfolding decode_fixed64 encode_fixed64
decode-encode_fixed64 v rest h = ground arith
