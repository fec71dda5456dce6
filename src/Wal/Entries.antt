-- ===== src/Wal/Entries.antt =====
-- wal/reader.cc: `ReadEntry`, which puts the fragments of an entry together.
use treeline.Prelude.{
  ℕ, zero, suc, ◌+◌, Bool, true, false, ◌&&◌, not, Option, none, some, List, [], ◌∷◌, ◌++◌, ltb,
  ◌==◌, if◌then◌else◌, length,
}
use treeline.Wal.Format.{
  RecordType, zero_type, full_type, first_type, middle_type, last_type, eof_type, bad_record,
  header_size, Crc,
}
use treeline.Wal.Reader.{
  Reader, partial_record, missing_start, error_in_middle, unknown_record, minus, report_corruption,
  Physical, skip_to_initial_block, read_physical_record,
}

-- The locals of `ReadEntry`.
pub record Progress : Type 0 where
  pub in_fragmented_record : Bool
  pub scratch : List ℕ
  pub prospective_record_offset : ℕ

abbrev pub no_progress : Progress
no_progress = record { in_fragmented_record = false; scratch = []; prospective_record_offset = 0 }

-- `none` is a loop that is cut off, `some (none, r)` the result false.
abbrev pub Entry : Type 0
Entry = Option (Option (List ℕ) × Reader)

-- A whole or first fragment that comes where an entry is not complete.
unfoldable pub report_partial : Reader → Progress → Reader
report_partial r p =
    if p.in_fragmented_record && not (length p.scratch == 0)
    then report_corruption r (length p.scratch) partial_record
    else r

-- The `switch`, over the rest of the loop.
unfoldable pub dispatch :
    (Reader → Progress → Entry) → ℕ → RecordType → List ℕ → Reader → Progress → Entry
unfolding report_partial
dispatch again offset full_type fragment r p =
    some (some fragment, record (report_partial r p) { last_record_offset = offset })
dispatch again offset first_type fragment r p =
    again (report_partial r p) (record {
      in_fragmented_record = true;
      scratch = fragment;
      prospective_record_offset = offset;
    })
dispatch again offset middle_type fragment r p =
    again
      (if p.in_fragmented_record then r else report_corruption r (length fragment) missing_start)
      (if p.in_fragmented_record then record p { scratch = p.scratch ++ fragment } else p)
dispatch again offset last_type fragment r p = elim p.in_fragmented_record [
  | true ↦
      some (
        some (p.scratch ++ fragment),
        record r { last_record_offset = p.prospective_record_offset },
      )
  | false ↦ again (report_corruption r (length fragment) missing_start) p
]
dispatch again offset eof_type fragment r p = some (none, r)
dispatch again offset bad_record fragment r p =
    again
      (if p.in_fragmented_record then report_corruption r (length p.scratch) error_in_middle else r)
      (if p.in_fragmented_record
        then record p { in_fragmented_record = false; scratch = [] }
        else p)
dispatch again offset zero_type fragment r p =
    again
      (report_corruption r
        (length fragment + (if p.in_fragmented_record then length p.scratch else 0)) unknown_record)
      (record p { in_fragmented_record = false; scratch = [] })

-- A reader that started in the middle of the log skips what is left of an entry.
unfoldable pub resync :
    (Reader → Progress → Entry) → ℕ → RecordType → List ℕ → Reader → Progress → Entry
unfolding dispatch
resync again offset middle_type fragment r p = again r p
resync again offset last_type fragment r p = again (record r { resyncing = false }) p
resync again offset t fragment r p =
    dispatch again offset t fragment (record r { resyncing = false }) p

unfoldable pub handle_record : (Reader → Progress → Entry) → Physical → Progress → Entry
unfolding dispatch resync
handle_record again (t, fragment, r) p =
    let offset =
      minus (minus (minus r.end_of_buffer_offset (length r.buffer)) header_size)
        (length fragment) in
    elim r.resyncing [
      | true ↦ resync again offset t fragment r p
      | false ↦ dispatch again offset t fragment r p
    ]

module _ (c : Crc) (block_size : ℕ) (checks : Bool) where
  unfoldable pub read_entry_loop : ℕ → Reader → Progress → Entry
  read_entry_loop zero r p = none
  read_entry_loop (suc fuel) r p =
      handle_record (read_entry_loop fuel) (read_physical_record c block_size checks r) p

  unfoldable pub read_entry : ℕ → Reader → Entry
  unfolding skip_to_initial_block
  read_entry fuel r =
      read_entry_loop fuel
        (if ltb r.last_record_offset r.initial_offset
          then skip_to_initial_block c block_size checks r
          else r)
        no_progress

  -- The loop of a caller that reads until there is no more entry.
  unfoldable pub read_all : ℕ → ℕ → Reader → Option (List (List ℕ) × Reader)
  read_all zero fuel r = none
  read_all (suc rounds) fuel r = elim (read_entry fuel r) [
    | none ↦ none
    | some (none, r') ↦ some ([], r')
    | some (some entry, r') ↦ elim (read_all rounds fuel r') [
      | none ↦ none
      | some (entries, r'') ↦ some (entry ∷ entries, r'')
    ]
  ]
