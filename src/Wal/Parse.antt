-- ===== src/Wal/Parse.antt =====
-- A physical record that the writer made is parsed back.
use treeline.Prelude.{
  ℕ, suc, ◌+◌, ◌^◌, ◌≤◌, ◌<◌, ◌≡◌, refl, ap, ◌∙◌, Bool, true, false, ◌&&◌, not, some, List, [], ◌∷◌,
  ◌++◌, ltb, arith, length, take, drop, get_or, length-append, ==_iff,
}
use treeline.Coding.{encode_fixed32, decode_fixed32}
use treeline.Coding.Fixed.{decode-encode_fixed32}
use treeline.Coding.Prefixed.{take-length_append, drop-length_append}
use treeline.Wal.Format.{
  RecordType, byte_of_type, type_of_byte, type_of-byte_of, header_size, Crc, unmask, unmask-mask,
}
use treeline.Wal.Writer.{checksum, physical_record}
use treeline.Wal.Reader.{
  Reader, is_zero_type, record_length, checksum_matches, accept, check_record, parse_record,
}

always_passes : (b : Bool) → b && not true ≡ false
always_passes true = refl
always_passes false = refl

not_below_zero : (a b : ℕ) → b ≡ 0 → ltb a b ≡ false
not_below_zero a b h = ground arith

pub not_below : (a b : ℕ) → b ≤ a → ltb a b ≡ false
not_below a b h = ground arith

module _ (c : Crc) (block_size : ℕ) (checks : Bool) where
  pub length-physical :
      (t : RecordType) (d : List ℕ) → length (physical_record c block_size t d) ≡ 7 + length d
  unfolding physical_record encode_fixed32
  length-physical t d = omega arith

  matches_if :
      (r : Reader) (len stored : ℕ)
      → decode_fixed32 r.buffer ≡ some stored
      → c.extend 0 (take (1 + len) (drop 6 r.buffer)) ≡ unmask stored
      → checksum_matches c block_size checks r len ≡ true
  unfolding checksum_matches
  matches_if r len stored decoded same = rw (decoded, checksum_matches) ((==_iff _ _).1 same)

  accept_if :
      (r : Reader) (t : RecordType) (len : ℕ)
      → is_zero_type t ≡ false
      → checksum_matches c block_size checks r len ≡ true
      → r.initial_offset ≡ 0
      → check_record c block_size checks r t len ≡ (
        t,
        take len (drop header_size r.buffer),
        record r { buffer = drop (header_size + len) r.buffer },
      )
  unfolding check_record accept
  accept_if r t len data_type same from_start =
      rw (data_type, same, always_passes checks, not_below_zero _ r.initial_offset from_start) refl

  parse_if :
      (r : Reader) (t : RecordType) (len : ℕ)
      → record_length c block_size checks r ≡ len
      → header_size + len ≤ length r.buffer
      → type_of_byte (get_or r.buffer 6 0) ≡ some t
      → parse_record c block_size checks r ≡ check_record c block_size checks r t len
  unfolding parse_record
  parse_if r t len long whole known =
      rw
        (
          not_below (length r.buffer) (header_size + record_length c block_size checks r)
              (omega (arith, long, whole)),
          known,
        )
        (ap (check_record c block_size checks r t) long)

  module _ (t : RecordType) (d : List ℕ) where
    stored_bound : checksum c block_size (byte_of_type t) d < 2 ^ 32
    unfolding checksum
    stored_bound = (unmask-mask _ (c.extend_bound _ d)).1

    unmask-checksum :
        unmask (checksum c block_size (byte_of_type t) d) ≡ c.extend 0 (byte_of_type t ∷ d)
    unfolding checksum
    unmask-checksum =
        (unmask-mask _ (c.extend_bound _ d)).0 ∙ c.extend-extend (byte_of_type t ∷ []) d

  module _ (r : Reader) (t : RecordType) (d rest : List ℕ) (small : length d < 65536) where
    abbrev before : Reader
    before = record r { buffer = physical_record c block_size t d ++ rest }

    record_length_lem : record_length c block_size checks before ≡ length d
    unfolding record_length physical_record encode_fixed32
    record_length_lem = omega arith

    checksum_matches_lem : checksum_matches c block_size checks before (length d) ≡ true
    unfolding physical_record encode_fixed32
    checksum_matches_lem =
        let ty = byte_of_type t in
        let stored = checksum c block_size ty d in
        let one_more : 1 + length d ≡ suc (length d) = omega arith in
        let data_bytes : take (1 + length d) (ty ∷ (d ++ rest)) ≡ ty ∷ d =
          rw one_more (ap (◌∷◌ ty) (take-length_append d rest)) in
        matches_if before (length d) stored (decode-encode_fixed32 stored _ (stored_bound t d))
          (rw (data_bytes, unmask-checksum t d) refl)

    drop-before : drop (header_size + length d) before.buffer ≡ rest
    drop-before =
        rw (length-physical t d) at (drop-length_append (physical_record c block_size t d) rest)

    type-before : type_of_byte (get_or before.buffer 6 0) ≡ some t
    unfolding physical_record encode_fixed32
    type-before = type_of-byte_of t

    long-before : header_size + length d ≤ length before.buffer
    long-before =
        omega (arith, length-append (physical_record c block_size t d) rest, length-physical t d)

    take-before : take (length d) (drop header_size before.buffer) ≡ d
    unfolding physical_record encode_fixed32
    take-before = take-length_append d rest

    pub parse-physical :
        r.initial_offset ≡ 0
        → is_zero_type t ≡ false
        → parse_record c block_size checks before ≡ (t, d, record r { buffer = rest })
    parse-physical from_start data_type =
        parse_if before t (length d) record_length_lem long-before type-before
        ∙ accept_if before t (length d) data_type checksum_matches_lem from_start
        ∙ cc (drop-before, take-before)
