-- ===== src/SegmentIndex/Locking.antt =====
-- page_grouping/segment_index.cc: the operations that lock what they find.
use treeline.Prelude.{
  ℕ, zero, suc, Bool, true, false, ◌&&◌, not, Option, none, some, List, [], ◌∷◌, ◌++◌, ◌==◌,
  if◌then◌else◌, drop,
}
use treeline.Segments.{SegmentInfo, info_id}
use treeline.Locks.Modes.{SegmentMode, reorg, SegmentLockState}
use treeline.Locks.Table.{CuckooMap}
use treeline.Locks.Segments.{try_acquire_segment_lock, release_segment_lock}
use treeline.SegmentIndex.OrderedMap.{OrderedMap, Item}
use treeline.SegmentIndex.Lookup.{
  Entry, segment_for_key, next_segment_for_key, next_overflow_region,
}

module _ {Line : Type 0} (t : OrderedMap (SegmentInfo Line)) (k : CuckooMap SegmentLockState) where
  -- The index and the lock table, which other threads change while a thread waits.
  pub record World : Type 0 where
    pub index : t.Map
    pub locks : k.Map

  -- What a lookup under the index's latch finds.
  abbrev pub Find : Type 0
  Find = t.Map → Option (Entry Line)

  -- One attempt to lock the entry that was found.
  unfoldable pub lock_entry : World → SegmentMode → Entry Line → World × Bool
  lock_entry w mode e =
      let (locks', granted) = try_acquire_segment_lock k w.locks (info_id e.sinfo).value mode in
      (record w { locks = locks' }, granted)

  -- The loop of the two lookups. An entry of the list is what the other threads do during one
  -- `backoff.Wait()`, and `none` is a thread that still waits when the list ends; within, `none` is a
  -- lookup that finds no segment.
  unfoldable pub find_with_lock :
      List (World → World) → Find → World → SegmentMode → Option (Option (Entry Line) × World)
  unfolding lock_entry
  find_with_lock [] find w mode = elim (find w.index) [
    | none ↦ some (none, w)
    | some e ↦
        let (w', granted) = lock_entry w mode e in if granted then some (some e, w') else none
  ]
  find_with_lock (others ∷ rest) find w mode = elim (find w.index) [
    | none ↦ some (none, w)
    | some e ↦
        let (w', granted) = lock_entry w mode e in
        let again = find_with_lock rest find (others w') mode in
        if granted then some (some e, w') else again
  ]

  unfoldable pub segment_for_key_with_lock :
      List (World → World) → World → ℕ → SegmentMode → Option (Option (Entry Line) × World)
  segment_for_key_with_lock waits w key mode =
      find_with_lock waits (λ m. segment_for_key t m key) w mode

  unfoldable pub next_segment_for_key_with_lock :
      List (World → World) → World → ℕ → SegmentMode → Option (Option (Entry Line) × World)
  next_segment_for_key_with_lock waits w key mode =
      find_with_lock waits (λ m. next_segment_for_key t m key) w mode

  -- One `backoff.Wait()`; nothing happens when the list has ended.
  abbrev pub wait : List (World → World) → World → World × List (World → World)
  wait [] w = (w, [])
  wait (others ∷ rest) w = (others w, rest)

  -- The attempts at one segment of `LockSegmentsForRewrite`, with the waits that are left.
  unfoldable pub try_lock_segment :
      ℕ → List (World → World) → World → Entry Line → Bool × World × List (World → World)
  try_lock_segment zero waits w e = (false, w, waits)
  try_lock_segment (suc attempts) waits w e =
      let (w', granted) = lock_entry w reorg e in
      let (w'', rest) = wait waits w' in
      let again = try_lock_segment attempts rest w'' e in
      if granted then (true, w', waits) else again

  unfoldable pub release_segments : World → List (Entry Line) → World
  release_segments w [] = w
  release_segments w (e ∷ es) =
      release_segments
        (record w { locks = release_segment_lock k w.locks (info_id e.sinfo).value reorg }) es

  -- The first loop of `LockSegmentsForRewrite`: on failure the locks that were granted are released.
  unfoldable pub lock_segments :
      ℕ → List (World → World) → World → List (Entry Line) → List (Entry Line) → Bool × World
  lock_segments attempts waits w granted [] = (true, w)
  lock_segments attempts waits w granted (e ∷ es) =
      let (locked, w', rest) = try_lock_segment attempts waits w e in
      let more = lock_segments attempts rest w' (granted ++ (e ∷ [])) es in
      if locked then more else (false, release_segments w' granted)

  module _ (same_info : SegmentInfo Line → SegmentInfo Line → Bool) where
    -- The check that the locked segments are still those of the index, from the first one on.
    unfoldable pub still_valid : List (Item (SegmentInfo Line)) → List (Entry Line) → Bool
    still_valid walk [] = true
    still_valid [] (e ∷ es) = false
    still_valid (i ∷ rest) (e ∷ es) =
        i.0 == e.lower && (same_info i.1 e.sinfo && still_valid rest es)

    abbrev pub front_lower : List (Entry Line) → ℕ
    front_lower [] = 0
    front_lower (e ∷ es) = e.lower

    unfoldable pub check_locked : List (Entry Line) → Bool × World → Bool × World
    check_locked es (locked, w) =
        let valid =
          still_valid (drop (t.lower_bound w.index (front_lower es)) (t.walk w.index)) es in
        if locked && not valid then (false, release_segments w es) else (locked, w)

    unfoldable pub lock_segments_for_rewrite :
        ℕ → List (World → World) → World → List (Entry Line) → Bool × World
    lock_segments_for_rewrite attempts waits w es =
        check_locked es (lock_segments attempts waits w [] es)

    -- `FindAndLockNextOverflowRegion`; `none` tells the caller to retry.
    unfoldable pub find_and_lock_next_overflow_region :
        ℕ → List (World → World) → World → ℕ → ℕ → Option (List (Entry Line)) × World
    find_and_lock_next_overflow_region attempts waits w start_key end_key =
        elim (next_overflow_region t w.index start_key end_key) [
          | [] ↦ (some [], w)
          | e ∷ es ↦
              let (succeeded, w') = lock_segments_for_rewrite attempts waits w (e ∷ es) in
              (if succeeded then some (e ∷ es) else none, w')
        ]
