-- ===== src/PageDb/Load.antt =====
-- page_grouping/pg_db_impl.cc: which records a bulk load takes.
use treeline.Prelude.{
  ℕ, ◌<◌, ◌≡◌, ◌≢◌, ◌↔◌, refl, arith, Bool, true, false, Option, none, some, List, [], ◌∷◌,
}
use treeline.PageDb.{
  DbStatus, ok, not_supported, no_records, reserved_key, not_sorted, duplicate_key,
  max_reserved_key, check_order, check_key, check_records, bulk_load, and_then,
}

-- Each key is above the bound and above the one before it, and not the highest.
abbrev pub Ascends {ℓ} : {V : Type ℓ} → ℕ → List (ℕ × V) → Type 0
Ascends low [] = Unit {0}
Ascends low ((key, value) ∷ records) = (low < key) × (key ≢ max_reserved_key) × Ascends key records

-- The key that is before, or 0, which is reserved.
abbrev bound : Option ℕ → ℕ
bound none = 0
bound (some key) = key

and_then_ok : (s next : DbStatus) → and_then s next ≡ ok → (s ≡ ok) × (next ≡ ok)
and_then_ok ok next h = (refl, h)
and_then_ok not_supported next h = ground arith
and_then_ok no_records next h = ground arith
and_then_ok reserved_key next h = ground arith
and_then_ok not_sorted next h = ground arith
and_then_ok duplicate_key next h = ground arith

check_key_ok :
    (prev : Option ℕ) (key : ℕ)
    → check_key prev key ≡ ok
    → (bound prev < key) × (key ≢ max_reserved_key)
unfolding check_key check_order
check_key_ok none key h = (ground arith, λ e. ground arith)
check_key_ok (some prev) key h = (ground arith, λ e. ground arith)

key_ok-check :
    (prev : Option ℕ) (key : ℕ)
    → bound prev < key
    → key ≢ max_reserved_key
    → check_key prev key ≡ ok
unfolding check_key check_order
key_ok-check none key h k = ground arith
key_ok-check (some prev) key h k = ground arith

module _ {ℓ} {V : Type ℓ} where
  check_records_ok :
      (prev : Option ℕ) (records : List (ℕ × V))
      → (check_records prev records ≡ ok) ↔ Ascends (bound prev) records
  unfolding check_records
  check_records_ok prev [] = (λ h. tt, λ h. refl)
  check_records_ok prev ((key, value) ∷ records) = (
    λ h.
        let (mine, rest) = and_then_ok (check_key prev key) (check_records (some key) records) h in
        let (above, below) = check_key_ok prev key mine in
        (above, below, (check_records_ok (some key) records).0 rest),
    λ a.
        let mine = key_ok-check prev key a.0 a.1 in
        rw mine ((check_records_ok (some key) records).1 a.2),
  )

  -- A bulk load is accepted exactly for a new database and at least one record, with keys that strictly
  -- ascend and are none of the two reserved keys.
  pub bulk_load_lem :
      (has_manager : Bool) (records : List (ℕ × V))
      → (bulk_load has_manager records ≡ ok)
        ↔ ((has_manager ≡ false) × (records ≢ []) × Ascends 0 records)
  unfolding bulk_load
  bulk_load_lem true [] = (λ h. absurd (ground arith), λ h. ground arith)
  bulk_load_lem false [] = (λ h. absurd (ground arith), λ h. absurd (h.1 refl))
  bulk_load_lem true ((key, value) ∷ records) = (λ h. absurd (ground arith), λ h. ground arith)
  bulk_load_lem false ((key, value) ∷ records) = (
    λ h. (refl, λ e. cc, (check_records_ok none ((key, value) ∷ records)).0 h),
    λ h. (check_records_ok none ((key, value) ∷ records)).1 h.2,
  )
