-- ===== src/Locks/Table.antt =====
-- The concurrent hash table that the lock manager keeps its counters in (libcuckoo, which the
-- repository does not hold), as an interface with the table's documented behaviour.
use treeline.Prelude.{ℕ, ◌≡◌, Bool, true, false, Option, none, some, ◌==◌, if◌then◌else◌}

-- What a closure passed to the table does to a value: the new value, the flag that it sets in its
-- caller, and what it returns, by which the table erases the entry.
pub record Outcome (V : Type 0) : Type 0 where
  pub value : V
  pub flag : Bool
  pub erases : Bool

abbrev pub keep : {V : Type 0} → V × Bool → Outcome V
keep (v, b) = record { value = v; flag = b; erases = false }

abbrev pub entry_after : {V : Type 0} → Outcome V → Option V
entry_after o = if o.erases then none else some o.value

abbrev pub is_some : {V : Type 0} → Option V → Bool
is_some none = false
is_some (some v) = true

abbrev pub flag_of : {V : Type 0} → (V → Outcome V) → Option V → Bool
flag_of fn none = false
flag_of fn (some v) = (fn v).flag

abbrev pub entry_uprase : {V : Type 0} → (V → Outcome V) → V → Option V → Option V
entry_uprase fn w none = some w
entry_uprase fn w (some v) = entry_after (fn v)

abbrev pub entry_update : {V : Type 0} → (V → Outcome V) → Option V → Option V
entry_update fn none = none
entry_update fn (some v) = entry_after (fn v)

-- `uprase_fn` runs the closure on the entry or inserts a value where there is none, and says whether
-- it inserted; `erase_fn` (and `update_fn`, for a closure that keeps the entry) only run the closure,
-- and say whether there was an entry. The last result is the flag, false if the closure did not run.
pub record CuckooMap (V : Type 0) : Type 1 where
  pub Map : Type 0
  pub find : Map → ℕ → Option V
  pub uprase_fn : Map → ℕ → (V → Outcome V) → V → Map × Bool × Bool
  pub erase_fn : Map → ℕ → (V → Outcome V) → Map × Bool × Bool
  pub find-uprase_fn :
      (m : Map) (k : ℕ) (fn : V → Outcome V) (w : V) (j : ℕ)
      → find (uprase_fn m k fn w).0 j ≡ (if j == k then entry_uprase fn w (find m k) else find m j)
  pub found-uprase_fn :
      (m : Map) (k : ℕ) (fn : V → Outcome V) (w : V)
      → (is_some (find m k) ≡ true → (uprase_fn m k fn w).1 ≡ false)
        × (is_some (find m k) ≡ false → (uprase_fn m k fn w).1 ≡ true)
        × ((uprase_fn m k fn w).2 ≡ flag_of fn (find m k))
  pub find-erase_fn :
      (m : Map) (k : ℕ) (fn : V → Outcome V) (j : ℕ)
      → find (erase_fn m k fn).0 j ≡ (if j == k then entry_update fn (find m k) else find m j)
  pub found-erase_fn :
      (m : Map) (k : ℕ) (fn : V → Outcome V)
      → ((erase_fn m k fn).1 ≡ is_some (find m k)) × ((erase_fn m k fn).2 ≡ flag_of fn (find m k))
