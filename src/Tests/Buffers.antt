-- ===== src/Tests/Buffers.antt =====
-- Runs of the queues and of the buffer manager.
use treeline.Prelude.{
  ℕ, ◌+◌, ◌≡◌, refl, ap, sym, subst, arith, Bool, true, false, Option, some, List, [], ◌∷◌, ◌==◌,
  if◌then◌else◌, inl, inr,
}
use treeline.Buffers.HashQueue.{empty_queue, enqueue, dequeue}
use treeline.Buffers.Calls.{
  QueueCall, enqueue_call, delete_call, move_call, contains_call, dequeue_call, queue_run, list_run,
  queue_run-refines,
}
use treeline.Buffers.Pool.{
  BufferManager, make_buffer_manager, fix_page_impl, Outcome, returns, waits, throws,
}
use treeline.Buffers.Sound.{view, IsSound}
use treeline.Buffers.Misses.{fix_page-Fixes}
use treeline.Buffers.Unfix.{release, release_lem}
use treeline.Buffers.Start.{make_buffer_manager-IsSound}

abbrev queue_calls : List QueueCall
queue_calls =
    enqueue_call 4
    ∷ enqueue_call 7
    ∷ enqueue_call 9
    ∷ move_call 4
    ∷ delete_call 9
    ∷ contains_call 9
    ∷ dequeue_call
    ∷ []

queue_run-refines_example :
    ((queue_run queue_calls empty_queue).0 ≡ (list_run queue_calls []).0)
    × ((queue_run queue_calls empty_queue).1.items ≡ (list_run queue_calls []).1)
queue_run-refines_example =
    queue_run-refines queue_calls (refl, (refl, (refl, (tt, (tt, (tt, (tt, tt)))))))

abbrev disk : ℕ → ℕ
disk p = p + 100

abbrev everywhere : ℕ → Bool
everywhere p = true

-- Two frames, and pages that are numbers.
pool : BufferManager ℕ
unfolding make_buffer_manager
pool = make_buffer_manager 0 2 disk

pool-IsSound : IsSound pool
unfolding pool
pool-IsSound = (make_buffer_manager-IsSound 0 2 disk).0

make_buffer_manager-IsSound_example :
    IsSound (make_buffer_manager {P = ℕ} 0 2 disk)
    × ((p : ℕ) → view (make_buffer_manager 0 2 disk) p ≡ disk p)
    × ((make_buffer_manager {P = ℕ} 0 2 disk).num_frames ≡ 2)
make_buffer_manager-IsSound_example = make_buffer_manager-IsSound 0 2 disk

abbrev pool_of : Outcome (Option ℕ × BufferManager ℕ) → BufferManager ℕ
pool_of (returns (i, m)) = m
pool_of waits = pool
pool_of throws = pool

-- The state after the fix.
fixed_pool : BufferManager ℕ
unfolding fix_page_impl
fixed_pool = pool_of (fix_page_impl (some everywhere) pool 5 false false)

fixed_pool-IsSound : IsSound fixed_pool
unfolding fixed_pool fix_page_impl pool make_buffer_manager enqueue dequeue
fixed_pool-IsSound =
    elim (fix_page-Fixes everywhere (λ p. refl) pool 5 false pool-IsSound (omega arith)) [
      | inl (i, m, e, f) ↦ subst IsSound (sym (ap pool_of e)) f.sound
      | inr (absent, all, e) ↦
          let h : false ≡ true = all 0 (omega arith) in absurd (ground (arith, h))
    ]

release_lem_example :
    IsSound (release fixed_pool 0 42 true)
    × ((q : ℕ) → view (release fixed_pool 0 42 true) q ≡ (if q == 5 then 42 else view fixed_pool q))
unfolding fixed_pool pool make_buffer_manager fix_page_impl enqueue dequeue
release_lem_example = release_lem fixed_pool 5 0 42 true fixed_pool-IsSound refl refl (λ h. cc)
