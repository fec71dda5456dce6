-- ===== src/Buffers/Start.antt =====
-- bufmgr/buffer_manager.cc: new frames, of a new buffer manager or of one that grows.
use treeline.Prelude.{
  same_or_not, update, update_ne, update_self, ℕ, zero, suc, ◌+◌, ◌<◌, ◌≡◌, ◌≢◌, refl, ap, sym, ◌∙◌,
  subst, true, false, inl, inr, Option, none, some, List, arith, Bool-cases,
}
use treeline.Buffers.HashQueue.{has}
use treeline.Buffers.Frames.{
  BufferFrame, invalid_page_id, make_frame, TwoQueue, empty_strategy, insert,
}
use treeline.Buffers.Calls.{no_items}
use treeline.Buffers.Pool.{BufferManager, add_frame, add_frames, make_buffer_manager}
use treeline.Buffers.Sound.{view, view_of, IsQueued, Holds, AreQueues, IsSound}
use treeline.Buffers.Strategy.{Joins, insert-Joins}
use treeline.Buffers.Fix.{never_some}

wider : (q : TwoQueue) (n : ℕ) → AreQueues q n → AreQueues q (n + 1)
wider q n a = record {
  fifo-IsQueue = a.fifo-IsQueue;
  lru-IsQueue = a.lru-IsQueue;
  fifo_bound = λ i h. let low = a.fifo_bound i h in omega arith;
  lru_bound = λ i h. let low = a.lru_bound i h in omega arith;
}

not_below : (xs : List ℕ) (n : ℕ) → ((i : ℕ) → has i xs ≡ true → i < n) → has n xs ≡ false
not_below xs n bound = elim (Bool-cases (has n xs)) [
  | inl h ↦ absurd (let low = bound n h in omega arith)
  | inr h ↦ h
]

module _ {ℓ} {P : Type ℓ} where
  module _ (memory : P) (m : BufferManager P) (s : IsSound m) where
    abbrev added : BufferFrame P
    added = (insert m.strategy m.num_frames (make_frame memory)).1

    abbrev grown : BufferManager P
    grown = record m {
      frames = update m.frames m.num_frames added;
      num_frames = m.num_frames + 1;
      strategy = (insert m.strategy m.num_frames (make_frame memory)).0;
    }

    joins :
        Joins m.strategy
          (m.num_frames + 1)
          m.num_frames
          (insert m.strategy m.num_frames (make_frame memory)).0
          (insert m.strategy m.num_frames (make_frame memory)).1
    unfolding make_frame
    joins =
        insert-Joins m.strategy (m.num_frames + 1) m.num_frames (make_frame memory)
          (wider m.strategy m.num_frames s.queues) (omega arith) refl
          (not_below m.strategy.fifo.items m.num_frames s.queues.fifo_bound)
          (not_below m.strategy.lru.items m.num_frames s.queues.lru_bound) (λ h. cc)

    old_frame : (j : ℕ) → j ≢ m.num_frames → grown.frames j ≡ m.frames j
    old_frame j h = update_ne m.frames m.num_frames j added h

    new_frame : grown.frames m.num_frames ≡ added
    new_frame = update_self m.frames m.num_frames added

    never_used :
        (added.page_id ≡ invalid_page_id) × (added.is_dirty ≡ false) × (added.fix_count ≡ 0)
    unfolding insert make_frame
    never_used = (refl, refl, refl)

    below_last : {j : ℕ} → j < m.num_frames → j ≢ m.num_frames
    below_last low e = omega arith

    grown-IsQueued : (j : ℕ) → j < m.num_frames + 1 → IsQueued grown.strategy j (grown.frames j)
    grown-IsQueued j low = elim (same_or_not m.num_frames j) [
      | inl same ↦
          rw same (subst (IsQueued grown.strategy m.num_frames) (sym new_frame) joins.queued)
      | inr differs ↦
          let below : j < m.num_frames = omega arith in
          let g = s.queued j below never_some in
          subst (IsQueued grown.strategy j) (sym (old_frame j differs)) (record {
            in_fifo = joins.fifo j differs ∙ g.in_fifo;
            in_lru = joins.lru j differs ∙ g.in_lru;
            unfixed = g.unfixed;
            later = g.later;
          })
    ]

    grown-Holds : (j : ℕ) → j < m.num_frames + 1 → Holds grown j
    grown-Holds j low = elim (same_or_not m.num_frames j) [
      | inl same ↦ rw same (
          inr (
            ap (λ f. f.page_id) new_frame ∙ never_used.0,
            ap (λ f. f.is_dirty) new_frame ∙ never_used.1,
            ap (λ f. f.fix_count) new_frame ∙ never_used.2,
          ))
      | inr differs ↦
          let e = old_frame j differs in
          let below : j < m.num_frames = omega arith in
          elim (s.holds j below never_some) [
            | inl there ↦ inl (ap (λ f. m.page_to_frame_map f.page_id) e ∙ there)
            | inr (invalid, clean, unfixed) ↦ inr (
              ap (λ f. f.page_id) e ∙ invalid,
              ap (λ f. f.is_dirty) e ∙ clean,
              ap (λ f. f.fix_count) e ∙ unfixed,
            )
          ]
    ]

    grown-IsSound : IsSound grown
    grown-IsSound = record {
      queues = joins.queues;
      queued = λ j low but. grown-IsQueued j low;
      holds = λ j low but. grown-Holds j low;
      table = λ p j h.
          let (low, but, page, valid) = s.table p j h in
          let e = old_frame j (below_last low) in
          (omega arith, never_some, ap (λ f. f.page_id) e ∙ page, valid);
      coherent = λ p j h clean.
          let e = old_frame j (below_last (s.table p j h).0) in
          ap (λ f. f.contents) e ∙ s.coherent p j h (ap (λ f. f.is_dirty) (sym e) ∙ clean);
      out = λ j e. absurd (never_some e);
    }

    grown-view : (p : ℕ) → view grown p ≡ view m p
    grown-view p = others (m.page_to_frame_map p) refl
      where
        others : (o : Option ℕ) → m.page_to_frame_map p ≡ o → view_of grown p o ≡ view_of m p o
        others none e = refl
        others (some j) e = ap (λ f. f.contents) (old_frame j (below_last (s.table p j e).0))

  -- New frames can be evicted, and no page reads otherwise than before.
  pub add_frames-IsSound :
      (memory : P) (n : ℕ) (m : BufferManager P)
      → IsSound m
      → IsSound (add_frames memory n m)
        × ((p : ℕ) → view (add_frames memory n m) p ≡ view m p)
        × ((add_frames memory n m).num_frames ≡ m.num_frames + n)
  unfolding add_frames add_frame
  add_frames-IsSound memory zero m s = (s, λ p. refl, omega arith)
  add_frames-IsSound memory (suc n) m s =
      let (sound, same, count) =
        add_frames-IsSound memory n (add_frame memory m) (grown-IsSound memory m s) in
      (sound, λ p. same p ∙ grown-view memory m s p, omega (arith, count))

  -- A new buffer manager, of any size, is sound, and every page reads as on the disk.
  pub make_buffer_manager-IsSound :
      (memory : P) (size : ℕ) (disk : ℕ → P)
      → IsSound (make_buffer_manager memory size disk)
        × ((p : ℕ) → view (make_buffer_manager memory size disk) p ≡ disk p)
        × ((make_buffer_manager memory size disk).num_frames ≡ size)
  unfolding make_buffer_manager
  make_buffer_manager-IsSound memory size disk =
      let (sound, same, count) = add_frames-IsSound memory size _ empty in
      (sound, same, count ∙ omega arith)
    where
      empty : IsSound (record {
        frames = λ (i : ℕ). make_frame memory;
        num_frames = 0;
        page_to_frame_map = λ (p : ℕ). none;
        strategy = empty_strategy;
        buffer_manager_size = size;
        num_fixes = 0;
        num_misses = 0;
        disk = disk;
      })
      empty = record {
        queues = record {
          fifo-IsQueue = no_items;
          lru-IsQueue = no_items;
          fifo_bound = λ i h. cc;
          lru_bound = λ i h. cc;
        };
        queued = λ i low but. absurd (omega arith);
        holds = λ i low but. absurd (omega arith);
        table = λ p i h. cc;
        coherent = λ p i h clean. cc;
        out = λ i e. absurd (never_some e);
      }
