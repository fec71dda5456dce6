-- ===== src/SegmentIndex/Lookup.antt =====
-- page_grouping/segment_index.cc: the operations that find a segment by its key.
use treeline.Prelude.{
  ℕ, ◌-◌, ◌^◌, Bool, ◌&&◌, not, Option, none, some, List, [], ◌∷◌, ◌==◌, ltb, leb, if◌then◌else◌,
  length, drop,
}
use treeline.Segments.{SegmentInfo, set_overflow, has_overflow}
use treeline.SegmentIndex.OrderedMap.{OrderedMap, Item}

abbrev pub max_key : ℕ
max_key = 2 ^ 64 - 1

pub record Entry (Line : Type 0) : Type 0 where
  pub lower : ℕ
  pub upper : ℕ
  pub sinfo : SegmentInfo Line

module _ {Line : Type 0} where
  -- The key at the next position, or the largest one at `end()`.
  unfoldable pub upper_of : List (Item (SegmentInfo Line)) → ℕ
  upper_of [] = max_key
  upper_of ((k, s) ∷ rest) = k

  -- `IndexIteratorToEntry`, for the iterator at the head of the rest of a walk; `none` is a read at
  -- `end()`.
  unfoldable pub entry_at : List (Item (SegmentInfo Line)) → Option (Entry Line)
  unfolding upper_of
  entry_at [] = none
  entry_at ((k, s) ∷ rest) = some (record { lower = k; upper = upper_of rest; sinfo = s })

  -- `while (it != end && it->first < end_key && !it->second.HasOverflow()) ++it;`
  unfoldable pub skip_clean : ℕ → List (Item (SegmentInfo Line)) → List (Item (SegmentInfo Line))
  skip_clean end_key [] = []
  skip_clean end_key ((k, s) ∷ rest) =
      if ltb k end_key && not (has_overflow s) then skip_clean end_key rest else (k, s) ∷ rest

  -- The rounds of the `do` loop after the first.
  unfoldable pub collect_overflow : ℕ → List (Item (SegmentInfo Line)) → List (Entry Line)
  unfolding upper_of
  collect_overflow end_key [] = []
  collect_overflow end_key ((k, s) ∷ rest) =
      if ltb k end_key && has_overflow s
      then record { lower = k; upper = upper_of rest; sinfo = s } ∷ collect_overflow end_key rest
      else []

  unfoldable pub region_from : ℕ → List (Item (SegmentInfo Line)) → List (Entry Line)
  unfolding upper_of collect_overflow
  region_from end_key [] = []
  region_from end_key ((k, s) ∷ rest) =
      if leb end_key k
      then []
      else record { lower = k; upper = upper_of rest; sinfo = s } ∷ collect_overflow end_key rest

  module _ (t : OrderedMap (SegmentInfo Line)) where
    open t use {Map, walk, upper_bound, modify}

    unfoldable pub segment_for_key_impl : Map → ℕ → ℕ
    segment_for_key_impl m key = let it = upper_bound m key in if it == 0 then it else it - 1

    unfoldable pub segment_for_key : Map → ℕ → Option (Entry Line)
    unfolding entry_at segment_for_key_impl
    segment_for_key m key = entry_at (drop (segment_for_key_impl m key) (walk m))

    -- Both kinds of nothing are `none`: the iterator is at `end()` exactly when there is no entry.
    unfoldable pub next_segment_for_key : Map → ℕ → Option (Entry Line)
    unfolding entry_at
    next_segment_for_key m key = entry_at (drop (upper_bound m key) (walk m))

    unfoldable pub get_segment_bounds_for : Map → ℕ → Option (ℕ × ℕ)
    unfolding upper_of segment_for_key_impl
    get_segment_bounds_for m key = elim (drop (segment_for_key_impl m key) (walk m)) [
      | [] ↦ none
      | i ∷ rest ↦ some (i.0, upper_of rest)
    ]

    unfoldable pub set_segment_overflow : Map → ℕ → Bool → Map
    unfolding segment_for_key_impl
    set_segment_overflow m key overflow =
        modify m (segment_for_key_impl m key) (λ s. set_overflow s overflow)

    -- The search of `FindAndLockNextOverflowRegion`, before it locks.
    unfoldable pub next_overflow_region : Map → ℕ → ℕ → List (Entry Line)
    unfolding segment_for_key_impl skip_clean region_from
    next_overflow_region m start_key end_key =
        region_from end_key (skip_clean end_key (drop (segment_for_key_impl m start_key) (walk m)))

    unfoldable pub get_num_entries : Map → ℕ
    get_num_entries m = length (walk m)
