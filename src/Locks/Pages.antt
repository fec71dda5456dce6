-- ===== src/Locks/Pages.antt =====
-- page_grouping/lock_manager.cc: the operations on page locks.
pub mod Holders
pub mod History
pub mod Ids
use treeline.Prelude.{
  ℕ, ◌+◌, ◌%◌, ◌^◌, Bool, true, ◌||◌, Option, none, some, List, [], ◌∷◌, if◌then◌else◌,
}
use treeline.Locks.Modes.{
  PageMode, PageLockState, initial_page_state, request_page, drop_page, is_page_unlocked,
}
use treeline.Locks.Table.{Outcome, keep, CuckooMap}

abbrev pub acquire_closure : PageMode → PageLockState → Outcome PageLockState
acquire_closure mode s = keep (request_page mode s)

abbrev pub release_closure : PageMode → PageLockState → Outcome PageLockState
release_closure mode s =
    let s' = drop_page mode s in record { value = s'; flag = true; erases = is_page_unlocked s' }

-- The sum of two 64-bit words.
unfoldable pub page_lock_id : ℕ → ℕ → ℕ
page_lock_id seg_id page_idx = (seg_id + page_idx) % 2 ^ 64

module _ (t : CuckooMap PageLockState) where
  open t use {Map, uprase_fn, erase_fn}

  unfoldable pub try_acquire_page_lock : Map → ℕ → ℕ → PageMode → Map × Bool
  try_acquire_page_lock m seg_id page_idx mode =
      let (m', inserted_new, granted) =
        uprase_fn m (page_lock_id seg_id page_idx) (acquire_closure mode)
          (initial_page_state mode) in
      (m', inserted_new || granted)

  -- The retry loop. An entry of the list is what the other threads do to the table during one
  -- `backoff.Wait()`; `none` is a thread that still waits when the list ends.
  unfoldable pub acquire_page_lock : List (Map → Map) → Map → ℕ → ℕ → PageMode → Option Map
  acquire_page_lock [] m seg_id page_idx mode =
      let (m', granted) = try_acquire_page_lock m seg_id page_idx mode in
      if granted then some m' else none
  acquire_page_lock (others ∷ rest) m seg_id page_idx mode =
      let (m', granted) = try_acquire_page_lock m seg_id page_idx mode in
      let again = acquire_page_lock rest (others m') seg_id page_idx mode in
      if granted then some m' else again

  unfoldable pub release_page_lock : Map → ℕ → ℕ → PageMode → Map
  release_page_lock m seg_id page_idx mode =
      (erase_fn m (page_lock_id seg_id page_idx) (release_closure mode)).0
