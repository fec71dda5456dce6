-- ===== src/Locks/Exclusion.antt =====
-- What the segment locks guarantee: one reorganisation at a time and no writer beside it, and an
-- upgraded lock that stands alone.
use treeline.Prelude.{ℕ, ◌+◌, ◌≡◌, ◌≢◌, refl, ◌⊎◌, inl, List, [], ◌∷◌, if◌then◌else◌, arith, none}
use treeline.Locks.Modes.{
  SegmentMode, page_read, page_write, reorg, reorg_exclusive, SegmentLockState,
}
use treeline.Locks.Table.{CuckooMap}
use treeline.Locks.Holders.{
  all_compatible, count, counts-remove, page_read_compatible, page_write_compatible,
  reorg_compatible,
}
use treeline.Locks.Tracks.{Tracks, counters}
use treeline.Locks.History.{
  Holders, Call, acquire, release, upgrade, IsDisciplined, AllDisciplined, spec_call, spec_run, run,
  run_refines,
}

-- At most one holder reorganises, and then none writes.
abbrev pub IsExclusive : List SegmentMode → Type 0
IsExclusive hs =
    (count reorg hs + count reorg_exclusive hs ≡ 0)
    ⊎ ((count reorg hs + count reorg_exclusive hs ≡ 1) × (count page_write hs ≡ 0))

acquire-IsExclusive :
    (mode : SegmentMode) (hs : List SegmentMode)
    → mode ≢ reorg_exclusive
    → IsExclusive hs
    → IsExclusive (if all_compatible mode hs then mode ∷ hs else hs)
acquire-IsExclusive page_read hs h v = ground (arith, page_read_compatible hs)
acquire-IsExclusive page_write hs h v = ground (arith, page_write_compatible hs)
acquire-IsExclusive reorg hs h v = ground (arith, reorg_compatible hs)
acquire-IsExclusive reorg_exclusive hs h v = absurd (h refl)

spec_call-IsExclusive :
    (h : Holders) (c : Call)
    → IsDisciplined h c
    → ((id : ℕ) → IsExclusive (h id))
    → (id : ℕ) → IsExclusive ((spec_call h c).0 id)
spec_call-IsExclusive h (acquire k mode) d v id =
    ground (arith, acquire-IsExclusive mode (h k) d.0 (v k), v id)
spec_call-IsExclusive h (release k page_read) d v id =
    ground (arith, v k, v id, counts-remove page_read (h k) d.0)
spec_call-IsExclusive h (release k page_write) d v id =
    ground (arith, v k, v id, counts-remove page_write (h k) d.0)
spec_call-IsExclusive h (release k reorg) d v id =
    ground (arith, v k, v id, counts-remove reorg (h k) d.0)
spec_call-IsExclusive h (release k reorg_exclusive) d v id =
    ground (arith, v k, v id, counts-remove reorg_exclusive (h k) d.0)
spec_call-IsExclusive h (upgrade k) d v id =
    ground (arith, v k, v id, counts-remove reorg (h k) (omega arith))

spec_run-IsExclusive :
    (cs : List Call) (h : Holders)
    → AllDisciplined h cs
    → ((id : ℕ) → IsExclusive (h id))
    → (id : ℕ) → IsExclusive ((spec_run h cs).0 id)
spec_run-IsExclusive [] h d v = v
spec_run-IsExclusive (c ∷ cs) h d v =
    spec_run-IsExclusive cs (spec_call h c).0 d.1 (spec_call-IsExclusive h c d.0 v)

pub idle-Tracks : Tracks none []
idle-Tracks = ground arith

abbrev pub nobody : Holders
nobody id = []

module _ (t : CuckooMap SegmentLockState) where
  open t use {Map, find}

  -- From an empty table and after any disciplined history of calls, the counters of every segment
  -- show at most one lock in `reorg` or `reorg_exclusive` mode, and no writer beside one.
  pub run-IsExclusive :
      (cs : List Call) (m : Map)
      → ((id : ℕ) → find m id ≡ none)
      → AllDisciplined nobody cs
      → (id : ℕ)
      → let s = counters (find (run t m cs).0 id) in
        (s.num_reorg + s.num_reorg_exclusive ≡ 0)
        ⊎ ((s.num_reorg + s.num_reorg_exclusive ≡ 1) × (s.num_page_write ≡ 0))
  run-IsExclusive cs m empty d id = ground (
    arith,
    (run_refines t cs m nobody (λ j. rw (empty j) idle-Tracks) d).0 id,
    spec_run-IsExclusive cs nobody d (λ j. inl refl) id,
  )
