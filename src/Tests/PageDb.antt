-- ===== src/Tests/PageDb.antt =====
-- Runs of the page-grouped database's checks and merge.
use treeline.Prelude.{
  IsAscending, value_of, or_else, ℕ, ◌≤◌, ◌≡◌, ◌≢◌, ◌↔◌, refl, arith, false, List, [], ◌∷◌, ◌++◌,
  true, take, length,
}
use treeline.PageDb.{ok, bulk_load, merge, get_range}
use treeline.PageDb.Load.{Ascends, bulk_load_lem}
use treeline.PageDb.Merge.{Tells}
use treeline.PageDb.Scan.{get_range_lem}

abbrev records : List (ℕ × ℕ)
records = (3, 30) ∷ (5, 50) ∷ (9, 90) ∷ []

bulk_load_lem_example :
    (bulk_load false records ≡ ok) ↔ ((false ≡ false) × (records ≢ []) × Ascends 0 records)
bulk_load_lem_example = bulk_load_lem false records

abbrev cached : List (ℕ × ℕ)
cached = (4, 44) ∷ (5, 55) ∷ []

abbrev scan : List (ℕ × ℕ) → ℕ → ℕ → List (ℕ × ℕ)
scan from start_key n = take n from

get_range_lem_example :
    (rs : List (ℕ × ℕ)) × (get_range true false (scan cached) (scan records) 2 3 []
      ≡ (ok, [] ++ rs))
    × IsAscending 2 rs
    × (length rs ≤ 3)
    × ((k : ℕ) → Tells 3 rs k (or_else (value_of k cached) (value_of k records)))
get_range_lem_example =
    get_range_lem (scan cached) (scan records) 2 3 cached records [] refl refl refl (omega arith)
      (omega arith)

merged : merge 4 cached records ≡ (3, 30) ∷ (4, 44) ∷ (5, 55) ∷ (9, 90) ∷ []
unfolding merge
merged = refl
