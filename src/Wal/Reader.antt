-- ===== src/Wal/Reader.antt =====
-- wal/reader.cc: the log's reader. The file is the list of the bytes not read yet, and a read gives a
-- whole block where the file holds one; reads do not fail.
use treeline.Prelude.{
  ℕ, ◌+◌, ◌-◌, ◌*◌, ◌%◌, ◌^◌, Bool, true, false, ◌&&◌, not, none, some, List, [], ◌∷◌, ltb, leb,
  ◌==◌, if◌then◌else◌, length, take, drop, get_or,
}
use treeline.Coding.{decode_fixed32}
use treeline.Wal.Format.{
  RecordType, zero_type, eof_type, bad_record, type_of_byte, header_size, Crc, unmask,
}

pub data Reason : Type 0 where
  bad_length unknown_type checksum_mismatch : Reason
  partial_record missing_start error_in_middle unknown_record : Reason

-- `drops` is what the reporter was told, the latest first.
pub record Reader : Type 0 where
  pub file : List ℕ
  pub buffer : List ℕ
  pub eof : Bool
  pub last_record_offset : ℕ
  pub end_of_buffer_offset : ℕ
  pub initial_offset : ℕ
  pub resyncing : Bool
  pub drops : List (ℕ × Reason)

-- Offsets are 64-bit words, whose differences wrap.
abbrev pub minus : ℕ → ℕ → ℕ
minus a b = (a + (2 ^ 64 - b % 2 ^ 64)) % 2 ^ 64

unfoldable pub make_reader : List ℕ → ℕ → Reader
make_reader file initial_offset = record {
  file = file;
  buffer = [];
  eof = false;
  last_record_offset = 0;
  end_of_buffer_offset = 0;
  initial_offset = initial_offset;
  resyncing = ltb 0 initial_offset;
  drops = [];
}

unfoldable pub report_corruption : Reader → ℕ → Reason → Reader
report_corruption r bytes reason =
    if leb r.initial_offset (minus (minus r.end_of_buffer_offset (length r.buffer)) bytes)
    then record r { drops = (bytes, reason) ∷ r.drops }
    else r

abbrev pub clear : Reader → Reader
clear r = record r { buffer = [] }

abbrev pub is_zero_type : RecordType → Bool
is_zero_type zero_type = true
is_zero_type t = false

-- The type and the data of a physical record, and the reader behind it.
abbrev pub Physical : Type 0
Physical = RecordType × List ℕ × Reader

-- `checks` is the constructor's `checksum`.
module _ (c : Crc) (block_size : ℕ) (checks : Bool) where
  unfoldable pub skip_to_initial_block : Reader → Reader
  skip_to_initial_block r =
      let offset_in_block = r.initial_offset % block_size in
      let start = r.initial_offset - offset_in_block in
      let block_start_location =
        if ltb (block_size - 6) offset_in_block then start + block_size else start in
      record r {
        end_of_buffer_offset = block_start_location;
        file = drop block_start_location r.file;
      }

  unfoldable pub read_next_block : Reader → Reader
  read_next_block r =
      let block = take block_size r.file in
      record r {
        file = drop block_size r.file;
        buffer = block;
        end_of_buffer_offset = r.end_of_buffer_offset + length block;
        eof = ltb (length block) block_size;
      }

  unfoldable pub reject : Reader → ℕ → Reason → Physical
  unfolding report_corruption
  reject r drop_size reason = (bad_record, [], report_corruption (clear r) drop_size reason)

  unfoldable pub record_length : Reader → ℕ
  record_length r = get_or r.buffer 4 0 + get_or r.buffer 5 0 * 2 ^ 8

  unfoldable pub checksum_matches : Reader → ℕ → Bool
  checksum_matches r len = elim (decode_fixed32 r.buffer) [
    | none ↦ false
    | some stored ↦ c.extend 0 (take (1 + len) (drop 6 r.buffer)) == unmask stored
  ]

  -- A record that passed the checks leaves the buffer.
  unfoldable pub accept : Reader → RecordType → ℕ → Physical
  accept r t len =
      let r' = record r { buffer = drop (header_size + len) r.buffer } in
      let start =
        minus (minus (minus r'.end_of_buffer_offset (length r'.buffer)) header_size) len in
      if ltb start r.initial_offset
      then (bad_record, [], r')
      else (t, take len (drop header_size r.buffer), r')

  unfoldable pub check_record : Reader → RecordType → ℕ → Physical
  unfolding checksum_matches reject accept
  check_record r t len =
      if is_zero_type t && len == 0
      then (bad_record, [], clear r)
      else (if checks && not (checksum_matches r len)
          then reject r (length r.buffer) checksum_mismatch
          else accept r t len)

  -- The part of `ReadPhysicalRecord` below the header's presence.
  unfoldable pub parse_record : Reader → Physical
  unfolding record_length reject check_record
  parse_record r =
      let len = record_length r in
      if ltb (length r.buffer) (header_size + len)
      then (if r.eof then (eof_type, [], clear r) else reject r (length r.buffer) bad_length)
      else (elim (type_of_byte (get_or r.buffer 6 0)) [
        | none ↦ reject r (length r.buffer) unknown_type
        | some t ↦ check_record r t len
      ])

  -- The two rounds of its loop: a buffer without a header is refilled once, and is at the end then if it
  -- still has none.
  unfoldable pub read_physical_record : Reader → Physical
  unfolding parse_record read_next_block
  read_physical_record r =
      let r' = read_next_block r in
      let refilled =
        if ltb (length r'.buffer) header_size then (eof_type, [], clear r') else parse_record r' in
      if ltb (length r.buffer) header_size
      then (if r.eof then (eof_type, [], clear r) else refilled)
      else parse_record r
