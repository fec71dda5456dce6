-- ===== src/SegmentIndex/OrderedMap.antt =====
-- The ordered map under the segment index (tlx::btree_map, which the repository does not hold), as an
-- interface with the container's documented behaviour. An iterator is a position in the walk from
-- `begin()`, and `end()` is the length of that walk.
use treeline.Prelude.{ℕ, ◌+◌, ◌-◌, ◌<◌, ◌≡◌, List, [], ◌∷◌, ◌==◌, ltb, leb, if◌then◌else◌, All}

abbrev pub Item : Type 0 → Type 0
Item V = ℕ × V

-- The keys of a walk rise.
abbrev pub Ascending : {V : Type 0} → List (Item V) → Type 0
Ascending [] = Unit {0}
Ascending ((k, v) ∷ rest) = All (λ i. k < i.0) rest × Ascending rest

-- How many items of a rising walk have a key of at most, and below, the given one.
abbrev pub count_le : {V : Type 0} → ℕ → List (Item V) → ℕ
count_le key [] = 0
count_le key ((k, v) ∷ rest) = if leb k key then 1 + count_le key rest else 0

abbrev pub count_lt : {V : Type 0} → ℕ → List (Item V) → ℕ
count_lt key [] = 0
count_lt key ((k, v) ∷ rest) = if ltb k key then 1 + count_lt key rest else 0

-- Assigning through an iterator.
abbrev pub set_value : {V : Type 0} → List (Item V) → ℕ → (V → V) → List (Item V)
set_value [] i f = []
set_value ((k, v) ∷ rest) i f =
    if i == 0 then (k, f v) ∷ rest else (k, v) ∷ set_value rest (i - 1) f

pub record OrderedMap (V : Type 0) : Type 1 where
  pub Map : Type 0
  pub walk : Map → List (Item V)
  pub upper_bound : Map → ℕ → ℕ
  pub lower_bound : Map → ℕ → ℕ
  pub modify : Map → ℕ → (V → V) → Map
  pub walk-Ascending : (m : Map) → Ascending (walk m)
  pub upper_bound_lem : (m : Map) (key : ℕ) → upper_bound m key ≡ count_le key (walk m)
  pub lower_bound_lem : (m : Map) (key : ℕ) → lower_bound m key ≡ count_lt key (walk m)
  pub walk-modify : (m : Map) (i : ℕ) (f : V → V) → walk (modify m i f) ≡ set_value (walk m) i f
