-- ===== src/Wal/Writer.antt =====
-- wal/writer.cc: the log's writer. What the log holds is a list of bytes; writes do not fail.
use treeline.Prelude.{
  ℕ, zero, suc, ◌+◌, ◌-◌, ◌*◌, ◌/◌, ◌%◌, Bool, true, false, Option, none, some, List, [], ◌∷◌, ◌++◌,
  ltb, ◌==◌, if◌then◌else◌, length, take, drop, replicate, min,
}
use treeline.Coding.{encode_fixed32, byte}
use treeline.Wal.Format.{
  RecordType, full_type, first_type, middle_type, last_type, byte_of_type, header_size, Crc, mask,
}

pub record Writer : Type 0 where
  pub log : List ℕ
  pub block_offset : ℕ

abbrev pub make_writer : Writer
make_writer = record { log = []; block_offset = 0 }

unfoldable pub fragment_type : Bool → Bool → RecordType
fragment_type true true = full_type
fragment_type true false = first_type
fragment_type false true = last_type
fragment_type false false = middle_type

-- `block_size` is 32 KiB in the source.
module _ (c : Crc) (block_size : ℕ) where
  -- The checksum of the record's type, `type_crc_`, extended by the data.
  unfoldable pub checksum : ℕ → List ℕ → ℕ
  checksum t data_bytes = mask (c.extend (c.extend 0 (t ∷ [])) data_bytes)

  unfoldable pub physical_record : RecordType → List ℕ → List ℕ
  unfolding checksum
  physical_record t data_bytes =
      encode_fixed32 (checksum (byte_of_type t) data_bytes)
      ++ (length data_bytes % 256 ∷ byte (length data_bytes / 256) ∷ byte_of_type t ∷ [])
      ++ data_bytes

  unfoldable pub emit_physical_record : Writer → RecordType → List ℕ → Writer
  unfolding physical_record
  emit_physical_record w t data_bytes = record {
    log = w.log ++ physical_record t data_bytes;
    block_offset = w.block_offset + (header_size + length data_bytes);
  }

  -- The switch to a new block where a header does not fit, with zeros for the trailer.
  unfoldable pub switch_block : Writer → Writer
  switch_block w =
      let leftover = block_size - w.block_offset in
      if ltb leftover header_size
      then record { log = w.log ++ replicate leftover 0; block_offset = 0 }
      else w

  -- One round of the loop: the writer, and the bytes that are left.
  unfoldable pub add_fragment : Writer → Bool → List ℕ → Writer × List ℕ
  unfolding switch_block emit_physical_record fragment_type
  add_fragment w begin left =
      let w' = switch_block w in
      let avail = block_size - w'.block_offset - header_size in
      let fragment_length = min (length left) avail in
      let end = length left == fragment_length in
      (
        emit_physical_record w' (fragment_type begin end) (take fragment_length left),
        drop fragment_length left,
      )

  -- The loop, on fuel; `none` is a loop that is cut off.
  unfoldable pub add_fragments : ℕ → Writer → Bool → List ℕ → Option Writer
  unfolding add_fragment
  add_fragments zero w begin left = none
  add_fragments (suc fuel) w begin left =
      let (w', left') = add_fragment w begin left in
      let more = add_fragments fuel w' false left' in if length left' == 0 then some w' else more

  unfoldable pub add_entry : Writer → List ℕ → Option Writer
  add_entry w payload = add_fragments (2 * length payload + 2) w true payload

  unfoldable pub add_entries : Writer → List (List ℕ) → Option Writer
  add_entries w [] = some w
  add_entries w (payload ∷ payloads) = elim (add_entry w payload) [
    | none ↦ none
    | some w' ↦ add_entries w' payloads
  ]
