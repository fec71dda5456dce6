-- ===== src/Tests/Pages.antt =====
-- Runs of the lock manager's page locks.
use treeline.Prelude.{
  ℕ, ◌+◌, ◌^◌, ◌≡◌, refl, true, false, Option, none, some, List, [], ◌∷◌, ◌==◌, if◌then◌else◌,
  arith,
}
use treeline.Segments.{SegmentId, make_segment_id}
use treeline.Locks.Modes.{shared, exclusive, PageLockState}
use treeline.Locks.Table.{CuckooMap}
use treeline.Locks.Pages.{page_lock_id, acquire_page_lock}
use treeline.Locks.Pages.Holders.{idle-Tracks}
use treeline.Locks.Pages.History.{
  Holders, Call, acquire, release, AllDisciplined, AllRetried, spec_run, spec_acquire, run,
  Represents, others, Agrees, page_run_refines, acquire_refines,
}
use treeline.Locks.Pages.Ids.{page_lock_id_injective}
use treeline.Tests.Tables.{function_map}

abbrev pages : CuckooMap PageLockState
pages = function_map PageLockState

abbrev no_pages : ℕ → Option PageLockState
no_pages id = none

abbrev nobody : Holders
nobody id = []

-- Page 1 of segment 8 and page 0 of segment 9 share a lock id.
abbrev calls : List Call
calls =
    acquire 8 1 shared
    ∷ acquire 8 1 shared
    ∷ acquire 9 0 exclusive
    ∷ release 8 1 shared
    ∷ release 8 1 shared
    ∷ acquire 9 0 exclusive
    ∷ []

calls-AllDisciplined : AllDisciplined nobody calls
unfolding page_lock_id
calls-AllDisciplined = ground arith

page_run_refines_example :
    Represents pages (run pages no_pages calls).0 (spec_run nobody calls).0
    × ((run pages no_pages calls).1 ≡ (spec_run nobody calls).1)
page_run_refines_example =
    page_run_refines pages calls no_pages nobody (λ id. idle-Tracks) calls-AllDisciplined

page_run_answers : (spec_run nobody calls).1 ≡ true ∷ true ∷ false ∷ true ∷ true ∷ true ∷ []
unfolding page_lock_id
page_run_answers = refl

-- One holder of page 2 of segment 8, who leaves during the second wait.
abbrev one_holder : Holders
one_holder id = if id == 10 then shared ∷ [] else []

abbrev held_table : ℕ → Option PageLockState
held_table id = if id == 10 then some (record { num_shared = 1; num_exclusive = 0 }) else none

held_table-Represents : Represents pages held_table one_holder
held_table-Represents id = ground arith

abbrev waits : List (List Call)
waits = (acquire 3 0 shared ∷ []) ∷ (release 8 2 shared ∷ []) ∷ []

waits-AllRetried : AllRetried waits one_holder 8 2 exclusive
unfolding page_lock_id
waits-AllRetried = ground arith

acquire_refines_example :
    Agrees pages
      (acquire_page_lock pages (others pages waits) held_table 8 2 exclusive)
      (spec_acquire waits one_holder 8 2 exclusive)
acquire_refines_example =
    acquire_refines pages waits held_table one_holder 8 2 exclusive held_table-Represents
      waits-AllRetried

abbrev id_at : ℕ → SegmentId
id_at offset = record { value = 2 ^ 60 + offset }

page_lock_id_injective_example : (◌≡◌ {A = ℕ} 1 1) × (◌≡◌ {A = ℕ} (6 + 1) (7 + 0))
unfolding make_segment_id page_lock_id
page_lock_id_injective_example =
    page_lock_id_injective 1 1 6 7 1 0 (id_at 6) (id_at 7) refl refl (omega arith) (omega arith)
      refl
