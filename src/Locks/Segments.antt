-- ===== src/Locks/Segments.antt =====
-- page_grouping/lock_manager.cc: the operations on segment locks.
use treeline.Prelude.{
  ℕ, Bool, true, false, ◌||◌, Option, none, some, List, [], ◌∷◌, ◌==◌, if◌then◌else◌,
}
use treeline.Locks.Modes.{
  SegmentMode, SegmentLockState, initial_segment_state, request_segment, drop_segment,
  is_segment_unlocked, upgrade_segment,
}
use treeline.Locks.Table.{Outcome, keep, CuckooMap}

-- The closures passed to the table.
abbrev pub acquire_closure : SegmentMode → SegmentLockState → Outcome SegmentLockState
acquire_closure mode s = keep (request_segment mode s)

abbrev pub release_closure : SegmentMode → SegmentLockState → Outcome SegmentLockState
release_closure mode s =
    let s' = drop_segment mode s in
    record { value = s'; flag = true; erases = is_segment_unlocked s' }

abbrev pub upgrade_closure : SegmentLockState → Outcome SegmentLockState
upgrade_closure s = keep (upgrade_segment s)

module _ (t : CuckooMap SegmentLockState) where
  open t use {Map, find, uprase_fn, erase_fn}

  -- `SegmentLockId` is the segment id's value.
  unfoldable pub try_acquire_segment_lock : Map → ℕ → SegmentMode → Map × Bool
  try_acquire_segment_lock m id mode =
      let (m', inserted_new, granted) =
        uprase_fn m id (acquire_closure mode) (initial_segment_state mode) in
      (m', inserted_new || granted)

  unfoldable pub release_segment_lock : Map → ℕ → SegmentMode → Map
  release_segment_lock m id mode = (erase_fn m id (release_closure mode)).0

  -- The first half of `UpgradeSegmentLockToReorgExclusive`, and `can_return`.
  unfoldable pub start_upgrade : Map → ℕ → Map × Bool
  start_upgrade m id =
      let (m', lock_state_found, can_return) = erase_fn m id upgrade_closure in (m', can_return)

  -- One look of its spin loop at the readers.
  unfoldable pub readers_are_done : Map → ℕ → Bool
  readers_are_done m id = elim (find m id) [ none ↦ false | some s ↦ s.num_page_read == 0 ]

  -- The spin loop. An entry of the list is what the other threads do to the table during one
  -- `backoff.Wait()`; `none` is a thread that still waits when the list ends.
  unfoldable pub await_readers : List (Map → Map) → Map → ℕ → Option Map
  await_readers [] m id = none
  await_readers (others ∷ rest) m id =
      let m' = others m in
      let more = await_readers rest m' id in if readers_are_done m' id then some m' else more

  unfoldable pub upgrade_segment_lock : List (Map → Map) → Map → ℕ → Option Map
  upgrade_segment_lock waits m id =
      let (m', can_return) = start_upgrade m id in
      let spun = await_readers waits m' id in if can_return then some m' else spun
