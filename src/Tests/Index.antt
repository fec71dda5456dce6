-- ===== src/Tests/Index.antt =====
-- Runs of the segment index.
use treeline.Prelude.{
  ℕ, ◌+◌, ◌^◌, ◌≤◌, ◌<◌, ◌≡◌, refl, ◌⊎◌, Bool, Option, none, some, List, [], ◌∷◌, ◌==◌, arith,
}
use treeline.Segments.{SegmentInfo, info_id, has_overflow}
use treeline.Locks.Table.{CuckooMap}
use treeline.SegmentIndex.OrderedMap.{OrderedMap, Item, Ascending}
use treeline.SegmentIndex.Lookup.{
  next_overflow_region, Entry, max_key, segment_for_key, next_segment_for_key,
  get_segment_bounds_for,
}
use treeline.SegmentIndex.Tiling.{segment_holds_key, segment_is_unique, next_segment_adjoins}
use treeline.Locks.Modes.{page_read, reorg, SegmentLockState}
use treeline.Locks.Segments.{try_acquire_segment_lock}
use treeline.SegmentIndex.Locking.{
  World, find_with_lock, lock_entry, lock_segments_for_rewrite, lock_segments, try_lock_segment,
  check_locked, still_valid,
}
use treeline.SegmentIndex.Rewrite.{segments_to_rewrite}
use treeline.SegmentIndex.Current.{
  IsRegion, next_overflow-IsRegion, IsCurrent, find_with_lock-IsCurrent, InRow, from_front,
  lock_for_rewrite_current,
}
use treeline.Tests.Tables.{rising_map, function_map}

abbrev info : ℕ → SegmentInfo ℕ
info raw_id = record { raw_id = raw_id; model = none }

abbrev index : OrderedMap (SegmentInfo ℕ)
index = rising_map (SegmentInfo ℕ)

-- Three segments, from the keys 0, 10 and 20 on.
abbrev three : List (Item (SegmentInfo ℕ))
three = (0, info 1) ∷ (10, info 2) ∷ (20, info 3) ∷ []

three-Ascending : Ascending three
three-Ascending = ground arith

abbrev filled : index.Map
filled = (three, three-Ascending)

abbrev middle : Entry ℕ
middle = record { lower = 10; upper = 20; sinfo = info 2 }

segment_holds_key_example :
    (e : Entry ℕ) × (segment_for_key index filled 15 ≡ some e) × (e.lower ≤ 15) × (15 < e.upper)
segment_holds_key_example = segment_holds_key index filled 15 (omega arith) (omega arith)

segment_is_unique_example : segment_for_key index filled 19 ≡ some middle
unfolding segment_for_key
segment_is_unique_example =
    segment_is_unique index filled 15 19 middle (omega arith) refl (omega arith) (omega arith)

next_segment_adjoins_example :
    (get_segment_bounds_for index filled 15 ≡ some (10, 20))
    × (((next_segment_for_key index filled 15 ≡ none) × (middle.upper ≡ max_key))
        ⊎ ((e' : Entry ℕ) × (next_segment_for_key index filled 15 ≡ some e') × (e'.lower ≡ 20)))
unfolding segment_for_key
next_segment_adjoins_example = next_segment_adjoins index filled 15 middle (omega arith) refl

-- The second and the third segment have an overflow.
abbrev overflowing : List (Item (SegmentInfo ℕ))
overflowing = (0, info 1) ∷ (10, info (2 ^ 63 + 2)) ∷ (20, info (2 ^ 63 + 3)) ∷ []

overflowing-Ascending : Ascending overflowing
overflowing-Ascending = ground arith

abbrev filled_over : index.Map
filled_over = (overflowing, overflowing-Ascending)

next_overflow-IsRegion_example : IsRegion 30 (next_overflow_region index filled_over 5 30)
next_overflow-IsRegion_example = next_overflow-IsRegion index filled_over 5 30

-- From the third segment on backward, up to the first, which has no overflow.
rewrite_backward :
    segments_to_rewrite index filled_over 20 5
    ≡ some (
        record { lower = 10; upper = 20; sinfo = info (2 ^ 63 + 2) }
        ∷ record { lower = 20; upper = max_key; sinfo = info (2 ^ 63 + 3) }
        ∷ [])
unfolding segments_to_rewrite has_overflow
rewrite_backward = refl

-- A radius of one segment on each side.
rewrite_radius :
    segments_to_rewrite index filled_over 0 1
    ≡ some (
        record { lower = 0; upper = 10; sinfo = info 1 }
        ∷ record { lower = 10; upper = 20; sinfo = info (2 ^ 63 + 2) }
        ∷ [])
unfolding segments_to_rewrite has_overflow
rewrite_radius = refl

rewrite_past_end : segments_to_rewrite index filled_over 21 5 ≡ none
unfolding segments_to_rewrite
rewrite_past_end = refl

abbrev table : CuckooMap SegmentLockState
table = function_map SegmentLockState

abbrev no_locks : ℕ → Option SegmentLockState
no_locks id = none

abbrev world : World index table
world = record { index = filled; locks = no_locks }

abbrev locked_world : World index table
locked_world = record world { locks = (try_acquire_segment_lock table no_locks 2 page_read).0 }

find_with_lock-IsCurrent_example :
    IsCurrent index table (λ m. segment_for_key index m 15) page_read middle locked_world
unfolding find_with_lock lock_entry segment_for_key try_acquire_segment_lock info_id
find_with_lock-IsCurrent_example =
    find_with_lock-IsCurrent index table [] (λ m. segment_for_key index m 15) world locked_world
      page_read middle refl

abbrev same_info : SegmentInfo ℕ → SegmentInfo ℕ → Bool
same_info a b = a.raw_id == b.raw_id

abbrev reorg_world : World index table
reorg_world = record world { locks = (try_acquire_segment_lock table no_locks 2 reorg).0 }

lock_for_rewrite_current_example :
    InRow index table same_info
      (from_front index table same_info filled (middle ∷ []))
      (middle ∷ [])
unfolding lock_segments_for_rewrite lock_segments try_lock_segment lock_entry check_locked
    still_valid try_acquire_segment_lock info_id
lock_for_rewrite_current_example =
    lock_for_rewrite_current index table same_info 2 [] world reorg_world (middle ∷ []) refl
