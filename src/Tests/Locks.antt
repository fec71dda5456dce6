-- ===== src/Tests/Locks.antt =====
-- Runs of the lock manager.
use treeline.Prelude.{
  ℕ, ◌+◌, ◌≡◌, refl, ◌⊎◌, true, false, Option, none, some, List, [], ◌∷◌, ◌==◌, if◌then◌else◌,
  arith,
}
use treeline.Locks.Modes.{page_read, page_write, reorg, SegmentLockState}
use treeline.Locks.Table.{CuckooMap}
use treeline.Locks.Segments.{try_acquire_segment_lock, upgrade_segment_lock}
use treeline.Locks.Tracks.{Tracks, counters}
use treeline.Locks.History.{
  Call, acquire, release, upgrade, AllDisciplined, Holders, run, Represents, spec_run, run_refines,
}
use treeline.Locks.Exclusion.{nobody, idle-Tracks, run-IsExclusive}
use treeline.Locks.Upgrade.{Agrees, others, spec_upgrade, upgrade_refines, exclusive_refuses}
use treeline.Tests.Tables.{function_map}

abbrev segments : CuckooMap SegmentLockState
segments = function_map SegmentLockState

abbrev no_segments : ℕ → Option SegmentLockState
no_segments id = none

-- A reader and a writer, a refused and a granted reorganisation, and an upgrade.
abbrev calls : List Call
calls =
    acquire 8 page_read
    ∷ acquire 8 page_write
    ∷ acquire 8 reorg
    ∷ release 8 page_write
    ∷ acquire 8 reorg
    ∷ upgrade 8
    ∷ []

calls-AllDisciplined : AllDisciplined nobody calls
calls-AllDisciplined = ground arith

run_refines_example :
    Represents segments (run segments no_segments calls).0 (spec_run nobody calls).0
    × ((run segments no_segments calls).1 ≡ (spec_run nobody calls).1)
run_refines_example =
    run_refines segments calls no_segments nobody (λ id. idle-Tracks) calls-AllDisciplined

run_answers : (spec_run nobody calls).1 ≡ true ∷ true ∷ false ∷ true ∷ true ∷ false ∷ []
run_answers = refl

run-IsExclusive_example :
    let s = counters ((run segments no_segments calls).0 8) in
    (s.num_reorg + s.num_reorg_exclusive ≡ 0)
    ⊎ ((s.num_reorg + s.num_reorg_exclusive ≡ 1) × (s.num_page_write ≡ 0))
run-IsExclusive_example =
    run-IsExclusive segments calls no_segments (λ id. refl) calls-AllDisciplined 8

-- One reader, and the lock to be upgraded; the reader leaves during the second wait.
abbrev reader_and_reorg : Holders
reader_and_reorg = (spec_run nobody (acquire 8 page_read ∷ acquire 8 reorg ∷ [])).0

abbrev held_table : ℕ → Option SegmentLockState
held_table id =
    if id == 8
    then some
        (record { num_page_read = 1; num_page_write = 0; num_reorg = 1; num_reorg_exclusive = 0 })
    else none

held_table-Represents : Represents segments held_table reader_and_reorg
held_table-Represents id = ground arith

abbrev waits : List (List Call)
waits = (acquire 9 page_read ∷ []) ∷ (release 8 page_read ∷ []) ∷ []

upgrade_refines_example :
    Agrees segments
      (upgrade_segment_lock segments (others segments waits) held_table 8)
      (spec_upgrade waits reader_and_reorg 8)
upgrade_refines_example =
    upgrade_refines segments waits held_table reader_and_reorg 8 held_table-Represents
      (ground arith) (ground arith)

abbrev upgraded : Holders
upgraded = (spec_run nobody (acquire 8 reorg ∷ upgrade 8 ∷ [])).0

abbrev upgraded_table : ℕ → Option SegmentLockState
upgraded_table id =
    if id == 8
    then some
        (record { num_page_read = 0; num_page_write = 0; num_reorg = 0; num_reorg_exclusive = 1 })
    else none

upgraded_table-Represents : Represents segments upgraded_table upgraded
upgraded_table-Represents id = ground arith

exclusive_refuses_example :
    ((try_acquire_segment_lock segments upgraded_table 8 page_read).1 ≡ false)
    × ((j : ℕ)
        → Tracks ((try_acquire_segment_lock segments upgraded_table 8 page_read).0 j) (upgraded j))
exclusive_refuses_example =
    exclusive_refuses segments upgraded_table upgraded 8 page_read upgraded_table-Represents
      (ground arith) (ground arith)
