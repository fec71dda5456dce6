-- ===== src/Locks/Tracks.antt =====
-- The counters of one segment against the list of its holders.
use treeline.Prelude.{
  ◌<◌, ◌≡◌, refl, Bool, ◌||◌, not, Option, none, some, List, ◌∷◌, ltb, if◌then◌else◌, arith, length,
  ◌≢◌,
}
use treeline.Locks.Modes.{
  SegmentMode, page_read, page_write, reorg, reorg_exclusive, SegmentLockState, unlocked_segment,
  initial_segment_state, request_segment, drop_segment, is_segment_unlocked, upgrade_segment,
}
use treeline.Locks.Table.{is_some, flag_of, entry_uprase, entry_update}
use treeline.Locks.Segments.{acquire_closure, release_closure, upgrade_closure}
use treeline.Locks.Holders.{
  all_compatible, count, remove, length-eq-counts, counts-remove, page_read_compatible,
  page_write_compatible, reorg_compatible,
}

abbrev pub counters : Option SegmentLockState → SegmentLockState
counters none = unlocked_segment
counters (some s) = s

-- The entry of a segment holds the number of holders of each mode, and there is an entry exactly
-- when there is a holder.
pub record Tracks (o : Option SegmentLockState) (hs : List SegmentMode) : Type 0 where
  pub reads : (counters o).num_page_read ≡ count page_read hs
  pub writes : (counters o).num_page_write ≡ count page_write hs
  pub reorgs : (counters o).num_reorg ≡ count reorg hs
  pub exclusives : (counters o).num_reorg_exclusive ≡ count reorg_exclusive hs
  pub present : is_some o ≡ ltb 0 (length hs)

abbrev pub granted : SegmentMode → Option SegmentLockState → Bool
granted mode o = not (is_some o) || flag_of (acquire_closure mode) o

module _ (o : Option SegmentLockState) (hs : List SegmentMode) (v : Tracks o hs) where
  pub granted_iff_compatible :
      (mode : SegmentMode) → mode ≢ reorg_exclusive → granted mode o ≡ all_compatible mode hs
  unfolding request_segment
  granted_iff_compatible page_read h = ground (arith, page_read_compatible hs, length-eq-counts hs)
  granted_iff_compatible page_write h =
      ground (arith, page_write_compatible hs, length-eq-counts hs)
  granted_iff_compatible reorg h = ground (arith, reorg_compatible hs, length-eq-counts hs)
  granted_iff_compatible reorg_exclusive h = absurd (h refl)

  pub acquire-Tracks :
      (mode : SegmentMode)
      → mode ≢ reorg_exclusive
      → length hs < 65535
      → Tracks
          (entry_uprase (acquire_closure mode) (initial_segment_state mode) o)
          (if granted mode o then mode ∷ hs else hs)
  unfolding request_segment initial_segment_state
  acquire-Tracks page_read h small = ground (arith, length-eq-counts hs)
  acquire-Tracks page_write h small = ground (arith, length-eq-counts hs)
  acquire-Tracks reorg h small = ground (arith, length-eq-counts hs)
  acquire-Tracks reorg_exclusive h small = absurd (h refl)

  pub release-Tracks :
      (mode : SegmentMode)
      → 0 < count mode hs
      → length hs < 65536
      → Tracks (entry_update (release_closure mode) o) (remove mode hs)
  unfolding drop_segment is_segment_unlocked
  release-Tracks page_read held small =
      ground (arith, counts-remove page_read hs, length-eq-counts hs)
  release-Tracks page_write held small =
      ground (arith, counts-remove page_write hs, length-eq-counts hs)
  release-Tracks reorg held small = ground (arith, counts-remove reorg hs, length-eq-counts hs)
  release-Tracks reorg_exclusive held small =
      ground (arith, counts-remove reorg_exclusive hs, length-eq-counts hs)

  pub upgrade-Tracks :
      count reorg hs ≡ 1
      → count reorg_exclusive hs ≡ 0
      → Tracks (entry_update upgrade_closure o) (reorg_exclusive ∷ remove reorg hs)
  unfolding upgrade_segment
  upgrade-Tracks one none_yet = ground (arith, counts-remove reorg hs, length-eq-counts hs)
