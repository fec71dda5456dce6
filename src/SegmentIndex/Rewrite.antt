-- ===== src/SegmentIndex/Rewrite.antt =====
-- page_grouping/segment_index.cc: `FindAndLockRewriteRegion`, which locks a segment and those around it
-- that have overflows.
use treeline.Prelude.{
  ℕ, zero, suc, Bool, Option, none, some, List, [], ◌∷◌, ◌++◌, leb, if◌then◌else◌, drop,
}
use treeline.Segments.{SegmentInfo, has_overflow}
use treeline.Locks.Modes.{SegmentLockState}
use treeline.Locks.Table.{CuckooMap}
use treeline.SegmentIndex.OrderedMap.{OrderedMap, Item}
use treeline.SegmentIndex.Lookup.{Entry, entry_at}
use treeline.SegmentIndex.Locking.{World, lock_segments_for_rewrite}

module _ {Line : Type 0} where
  -- The backward scan from the position of `prev_it`, which ends at `begin()`.
  unfoldable pub scan_backward : ℕ → ℕ → List (Item (SegmentInfo Line)) → List (Entry Line)
  unfolding entry_at
  scan_backward num_to_check zero walk = []
  scan_backward zero (suc prev_it) walk = []
  scan_backward (suc num_to_check) (suc prev_it) walk =
      let more = scan_backward num_to_check prev_it walk in
      elim (entry_at (drop prev_it walk)) [
        | none ↦ []
        | some e ↦ if has_overflow e.sinfo then e ∷ more else []
      ]

  -- The forward scan, over the rest of a walk.
  unfoldable pub scan_forward : ℕ → List (Item (SegmentInfo Line)) → List (Entry Line)
  unfolding entry_at
  scan_forward zero walk = []
  scan_forward (suc num_to_check) [] = []
  scan_forward (suc num_to_check) (i ∷ rest) =
      let more = scan_forward num_to_check rest in
      elim (entry_at (i ∷ rest)) [
        | none ↦ []
        | some e ↦ if has_overflow e.sinfo then e ∷ more else []
      ]

  -- `std::sort` by the lower bounds, which differ.
  unfoldable pub insert_entry : Entry Line → List (Entry Line) → List (Entry Line)
  insert_entry e [] = e ∷ []
  insert_entry e (f ∷ fs) =
      let later = insert_entry e fs in if leb e.lower f.lower then e ∷ f ∷ fs else f ∷ later

  unfoldable pub sort_entries : List (Entry Line) → List (Entry Line)
  unfolding insert_entry
  sort_entries [] = []
  sort_entries (e ∷ es) = insert_entry e (sort_entries es)

  module _ (t : OrderedMap (SegmentInfo Line)) where
    -- The segments to rewrite; `none` is a base past every segment, which fails an assertion.
    unfoldable pub segments_to_rewrite : t.Map → ℕ → ℕ → Option (List (Entry Line))
    unfolding entry_at scan_backward scan_forward sort_entries
    segments_to_rewrite m segment_base search_radius =
        let it = t.lower_bound m segment_base in
        elim (entry_at (drop it (t.walk m))) [
          | none ↦ none
          | some e ↦ some (
              sort_entries (
                e
                ∷ (scan_backward search_radius it (t.walk m)
                    ++ scan_forward search_radius (drop (suc it) (t.walk m)))))
        ]

    module _ (k : CuckooMap SegmentLockState)
        (same_info : SegmentInfo Line → SegmentInfo Line → Bool) where
      -- No segments are a region that was not locked.
      unfoldable pub find_and_lock_rewrite_region :
          ℕ
          → List (World t k → World t k)
          → World t k
          → ℕ
          → ℕ
          → Option (List (Entry Line) × World t k)
      unfolding segments_to_rewrite
      find_and_lock_rewrite_region attempts waits w segment_base search_radius =
          elim (segments_to_rewrite w.index segment_base search_radius) [
            | none ↦ none
            | some es ↦
                let (succeeded, w') = lock_segments_for_rewrite t k same_info attempts waits w es in
                some (if succeeded then es else [], w')
          ]
