-- ===== src/PageDb.antt =====
-- page_grouping/pg_db_impl.cc: the checks of a bulk load and of a scan, and the merge of what the record
-- cache and the disk have.
-- What the manager of segments loads and scans, and what the cache finds, are parameters.
pub mod Load
pub mod Merge
pub mod Scan
use treeline.Prelude.{
  ℕ, zero, suc, ◌+◌, ◌-◌, ◌^◌, Bool, true, false, ◌||◌, Option, none, some, List, [], ◌∷◌, ◌++◌,
  ◌==◌, ltb, leb, if◌then◌else◌, take,
}

abbrev pub min_reserved_key : ℕ
min_reserved_key = 0

abbrev pub max_reserved_key : ℕ
max_reserved_key = 2 ^ 64 - 1

pub data DbStatus : Type 0 where
  ok not_supported no_records reserved_key not_sorted duplicate_key : DbStatus

abbrev pub is_reserved : ℕ → Bool
is_reserved key = key == min_reserved_key || key == max_reserved_key

-- The two tests against the key before, if there is one.
unfoldable pub check_order : Option ℕ → ℕ → DbStatus
check_order none key = ok
check_order (some prev) key =
    if ltb key prev then not_sorted else if prev == key then duplicate_key else ok

unfoldable pub check_key : Option ℕ → ℕ → DbStatus
unfolding check_order
check_key prev key = if is_reserved key then reserved_key else check_order prev key

abbrev pub and_then : DbStatus → DbStatus → DbStatus
and_then ok next = next
and_then not_supported next = not_supported
and_then no_records next = no_records
and_then reserved_key next = reserved_key
and_then not_sorted next = not_sorted
and_then duplicate_key next = duplicate_key

module _ {ℓ} {V : Type ℓ} where
  unfoldable pub check_records : Option ℕ → List (ℕ × V) → DbStatus
  unfolding check_key
  check_records prev [] = ok
  check_records prev ((key, value) ∷ records) =
      and_then (check_key prev key) (check_records (some key) records)

  -- The status; where it is `ok`, the manager loads the records into a new database.
  unfoldable pub bulk_load : Bool → List (ℕ × V) → DbStatus
  unfolding check_records
  bulk_load has_manager [] = if has_manager then not_supported else no_records
  bulk_load has_manager ((key, value) ∷ records) =
      if has_manager then not_supported else check_records none ((key, value) ∷ records)

  -- The three loops: while both have records, and then what one of them has left.
  unfoldable pub merge : ℕ → List (ℕ × V) → List (ℕ × V) → List (ℕ × V)
  merge zero cached stored = []
  merge (suc left) [] stored = take (suc left) stored
  merge (suc left) (c ∷ cached) [] = take (suc left) (c ∷ cached)
  merge (suc left) (c ∷ cached) (d ∷ stored) =
      let from_cache = merge left cached (if c.0 == d.0 then stored else d ∷ stored) in
      let from_disk = merge left (c ∷ cached) stored in
      if leb c.0 d.0 then c ∷ from_cache else d ∷ from_disk

  -- The status, and what `results_out` then holds.
  unfoldable pub get_range :
      Bool
      → Bool
      → (ℕ → ℕ → List (ℕ × V))
      → (ℕ → ℕ → List (ℕ × V))
      → ℕ
      → ℕ
      → List (ℕ × V)
      → DbStatus × List (ℕ × V)
  unfolding merge
  get_range has_manager bypass_cache scan_cache scan_disk start_key num_records results_out =
      if has_manager
      then (if is_reserved start_key then (reserved_key, results_out) else (
        ok,
        results_out
            ++ merge num_records (if bypass_cache then [] else scan_cache start_key num_records)
                (scan_disk start_key num_records),
      ))
      else (ok, [])
