-- ===== src/Locks/Modes.antt =====
-- page_grouping/lock_manager.{h,cc}: the lock modes, the counters kept for a segment or a page, and
-- the closures that the manager runs under the table's bucket lock.
use treeline.Prelude.{ℕ, ◌+◌, ◌%◌, Bool, true, false, ◌&&◌, ◌==◌, if◌then◌else◌}

-- `LockCount` is a `uint16_t`: `++` and `--` wrap.
abbrev pub count_mod : ℕ
count_mod = 65536

abbrev pub increment : ℕ → ℕ
increment n = (n + 1) % count_mod

abbrev pub decrement : ℕ → ℕ
decrement n = (n + 65535) % count_mod

pub data SegmentMode : Type 0 where
  page_read page_write reorg reorg_exclusive : SegmentMode

pub data PageMode : Type 0 where
  shared exclusive : PageMode

pub record SegmentLockState : Type 0 where
  pub num_page_read : ℕ
  pub num_page_write : ℕ
  pub num_reorg : ℕ
  pub num_reorg_exclusive : ℕ

pub record PageLockState : Type 0 where
  pub num_shared : ℕ
  pub num_exclusive : ℕ

abbrev pub unlocked_segment : SegmentLockState
unlocked_segment = record {
  num_page_read = 0;
  num_page_write = 0;
  num_reorg = 0;
  num_reorg_exclusive = 0;
}

abbrev pub unlocked_page : PageLockState
unlocked_page = record { num_shared = 0; num_exclusive = 0 }

-- The constructors of the two states. The assertion on `reorg_exclusive` is compiled out.
unfoldable pub initial_segment_state : SegmentMode → SegmentLockState
initial_segment_state page_read = record unlocked_segment { num_page_read = 1 }
initial_segment_state page_write = record unlocked_segment { num_page_write = 1 }
initial_segment_state reorg = record unlocked_segment { num_reorg = 1 }
initial_segment_state reorg_exclusive = unlocked_segment

unfoldable pub initial_page_state : PageMode → PageLockState
initial_page_state exclusive = record unlocked_page { num_exclusive = 1 }
initial_page_state shared = record unlocked_page { num_shared = 1 }

-- The closure of `TryAcquireSegmentLock`: the new state, and `granted`.
unfoldable pub request_segment : SegmentMode → SegmentLockState → SegmentLockState × Bool
request_segment page_read s =
    if s.num_reorg_exclusive == 0
    then (record s { num_page_read = increment s.num_page_read }, true)
    else (s, false)
request_segment page_write s =
    if s.num_reorg == 0 && s.num_reorg_exclusive == 0
    then (record s { num_page_write = increment s.num_page_write }, true)
    else (s, false)
request_segment reorg s =
    if s.num_page_write == 0 && s.num_reorg == 0 && s.num_reorg_exclusive == 0
    then (record s { num_reorg = increment s.num_reorg }, true)
    else (s, false)
request_segment reorg_exclusive s = (s, false)

-- The closure of `ReleaseSegmentLock`: the new state, and whether the table drops it.
unfoldable pub drop_segment : SegmentMode → SegmentLockState → SegmentLockState
drop_segment page_read s = record s { num_page_read = decrement s.num_page_read }
drop_segment page_write s = record s { num_page_write = decrement s.num_page_write }
drop_segment reorg s = record s { num_reorg = decrement s.num_reorg }
drop_segment reorg_exclusive s = record s { num_reorg_exclusive = decrement s.num_reorg_exclusive }

unfoldable pub is_segment_unlocked : SegmentLockState → Bool
is_segment_unlocked s =
    s.num_page_read == 0 && s.num_page_write == 0 && s.num_reorg == 0 && s.num_reorg_exclusive == 0

-- The closure of `UpgradeSegmentLockToReorgExclusive`: the new state, and `can_return`.
unfoldable pub upgrade_segment : SegmentLockState → SegmentLockState × Bool
upgrade_segment s = (record s { num_reorg = 0; num_reorg_exclusive = 1 }, s.num_page_read == 0)

-- The closures of `TryAcquirePageLock` and `ReleasePageLock`.
unfoldable pub request_page : PageMode → PageLockState → PageLockState × Bool
request_page exclusive s =
    if s.num_exclusive == 0 && s.num_shared == 0
    then (record s { num_exclusive = increment s.num_exclusive }, true)
    else (s, false)
request_page shared s =
    if s.num_exclusive == 0
    then (record s { num_shared = increment s.num_shared }, true)
    else (s, false)

unfoldable pub drop_page : PageMode → PageLockState → PageLockState
drop_page exclusive s = record s { num_exclusive = decrement s.num_exclusive }
drop_page shared s = record s { num_shared = decrement s.num_shared }

unfoldable pub is_page_unlocked : PageLockState → Bool
is_page_unlocked s = s.num_shared == 0 && s.num_exclusive == 0
