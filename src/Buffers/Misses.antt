-- ===== src/Buffers/Misses.antt =====
-- bufmgr/buffer_manager.cc: fixing any page, whether a frame holds it or not.
use treeline.Prelude.{
  update, update_ne, update_self, ℕ, ◌<◌, ◌≡◌, ◌≢◌, refl, ap, sym, ◌∙◌, Bool, true, false, ◌&&◌,
  ◌||◌, ◌⊎◌, inl, inr, Option, none, some, [], if◌then◌else◌, arith, Bool-cases, Option-cases,
}
use treeline.Buffers.HashQueue.{has}
use treeline.Buffers.Frames.{
  BufferFrame, invalid_page_id, TwoQueue, evict, inc_fix_count, unset_eviction,
}
use treeline.Buffers.Pool.{
  BufferManager, take_evicted, take_frame, fill_frame, fix_found, fix_page_impl, finish_miss,
  load_page, then_do, Outcome, returns, waits,
}
use treeline.Buffers.Sound.{view, view_of, is_fixed, IsQueued, IsSound}
use treeline.Buffers.Strategy.{Leaves, evict_lem}
use treeline.Buffers.Fix.{never_some, fix_found-IsSound}
use treeline.Buffers.Evict.{taken, taken-IsSoundBut, taken-view, written_back}
use treeline.Buffers.Load.{
  clean_frame-Cleans, loaded, load_lem, loaded-IsSound, loaded-view, loaded_self, loaded_other,
}

module _ {ℓ} {P : Type ℓ} where
  -- The page is fixed in the frame `i`: the frame holds what the page held, no page reads otherwise than
  -- before, and no other frame that was fixed has changed.
  pub record Fixes (m : BufferManager P) (page_id i : ℕ) (m' : BufferManager P) : Type ℓ where
    pub sound : IsSound m'
    pub mapped : m'.page_to_frame_map page_id ≡ some i
    pub fixed : is_fixed (m'.frames i) ≡ true
    pub contents : (m'.frames i).contents ≡ view m page_id
    pub view_lem : (p : ℕ) → view m' p ≡ view m p
    pub others : (j : ℕ) → is_fixed (m.frames j) ≡ true → j ≢ i → m'.frames j ≡ m.frames j

  -- Every frame below the number of frames is fixed.
  abbrev pub AllFixed : BufferManager P → Type 0
  AllFixed m = (i : ℕ) → i < m.num_frames → is_fixed (m.frames i) ≡ true

  found-Fixes :
      (m : BufferManager P) (page_id i : ℕ)
      → IsSound m
      → m.page_to_frame_map page_id ≡ some i
      → Fixes m page_id i (fix_found m i)
  unfolding fix_found inc_fix_count
  found-Fixes m page_id i s e =
      let (sound, same) = fix_found-IsSound m page_id i s e in
      let self = update_self m.frames i (inc_fix_count (m.frames i)) in
      record {
        sound = sound;
        mapped = e;
        fixed = ap is_fixed self ∙ ground arith;
        contents = ap (λ f. f.contents) self ∙ sym (ap (view_of m page_id) e);
        view_lem = same;
        others = λ j fixed differs. update_ne m.frames i j _ differs;
      }

  apart :
      (q : TwoQueue) (f : BufferFrame P) (i : ℕ)
      → IsQueued q i f
      → has i q.fifo.items && has i q.lru.items ≡ false
  apart q f i g = ground (arith, g.in_fifo, g.in_lru)

  queued-unfixed :
      (q : TwoQueue) (f : BufferFrame P) (i : ℕ)
      → IsQueued q i f
      → has i q.fifo.items || has i q.lru.items ≡ true
      → is_fixed f ≡ false
  queued-unfixed q f i g h = ground (arith, g.in_fifo, g.in_lru)

  disjoint :
      (m : BufferManager P)
      → IsSound m
      → (j : ℕ) → has j m.strategy.fifo.items && has j m.strategy.lru.items ≡ false
  disjoint m s j = elim (Bool-cases (has j m.strategy.fifo.items)) [
    | inl there ↦
        apart m.strategy (m.frames j) j (s.queued j (s.queues.fifo_bound j there) never_some)
    | inr gone ↦ ground arith
  ]

  all-fixed :
      (m : BufferManager P)
      → IsSound m
      → m.strategy.fifo.items ≡ []
      → m.strategy.lru.items ≡ []
      → AllFixed m
  all-fixed m s no_fifo no_lru j low =
      let g = s.queued j low never_some in
      let out_fifo : has j m.strategy.fifo.items ≡ false = ap (has j) no_fifo in
      let out_lru : has j m.strategy.lru.items ≡ false = ap (has j) no_lru in
      ground (arith, g.in_fifo, g.in_lru)

  nothing_taken :
      (m : BufferManager P) (p : Option ℕ × TwoQueue) → p.0 ≡ none → take_evicted m p ≡ none
  unfolding take_evicted
  nothing_taken m (none, q) h = refl
  nothing_taken m (some i, q) h = cc

  in_bound :
      (m : BufferManager P)
      → IsSound m
      → (i : ℕ) → has i m.strategy.fifo.items || has i m.strategy.lru.items ≡ true
      → i < m.num_frames
  in_bound m s i there = elim (Bool-cases (has i m.strategy.fifo.items)) [
    | inl first ↦ s.queues.fifo_bound i first
    | inr second ↦ s.queues.lru_bound i (ground arith)
  ]

  absent_still :
      (m : BufferManager P) (page_id old : ℕ)
      → m.page_to_frame_map page_id ≡ none
      → update m.page_to_frame_map old none page_id ≡ none
  absent_still m page_id old h = ground (arith, h)

  module _ (allocated : ℕ → Bool) (all : (p : ℕ) → allocated p ≡ true) where
    -- The frame that is taken, cleaned and filled.
    filled-Fixes :
        (m : BufferManager P) (page_id i : ℕ) (q : TwoQueue)
        → IsSound m
        → m.page_to_frame_map page_id ≡ none
        → page_id ≢ invalid_page_id
        → has i m.strategy.fifo.items || has i m.strategy.lru.items ≡ true
        → Leaves m.strategy m.num_frames i q
        → (m' : BufferManager P) × (fill_frame (some allocated) page_id false (
          i,
          record m {
            strategy = q;
            frames = update m.frames i (unset_eviction (m.frames i));
            page_to_frame_map = update m.page_to_frame_map (m.frames i).page_id none;
          },
        )
            ≡ returns (some i, m'))
          × Fixes m page_id i m'
    unfolding fill_frame unset_eviction
    filled-Fixes m page_id i q s absent valid there left =
        let below : i < m.num_frames = in_bound m s i there in
        let g = s.queued i below never_some in
        let free = queued-unfixed m.strategy (m.frames i) i g there in
        let m1 = taken m i q s left below in
        let gone : m1.page_to_frame_map (m1.frames i).page_id ≡ none =
          ap (λ f. m1.page_to_frame_map f.page_id)
            (update_self m.frames i (unset_eviction (m.frames i)))
          ∙ update_self m.page_to_frame_map (m.frames i).page_id none in
        let (m2, cleans, c) =
          clean_frame-Cleans m1 i (taken-IsSoundBut m i q s left below) gone allocated all in
        let still_absent : m2.page_to_frame_map page_id ≡ none =
          ap (λ f. f page_id) c.map ∙ absent_still m page_id (m.frames i).page_id absent in
        let m3 = loaded m2 i page_id c.sound still_absent valid in
        let same : (p : ℕ) → view m3 p ≡ view m p = λ p.
          loaded-view m2 i page_id c.sound still_absent valid p
          ∙ (c.view_lem p
              ∙ (ap (λ f. written_back f (view m1) p)
                    (update_self m.frames i (unset_eviction (m.frames i)))
                  ∙ sym (taken-view m i q s left below p))) in
        let mapped : m3.page_to_frame_map page_id ≡ some i =
          update_self m2.page_to_frame_map page_id (some i) in
        (
          m3,
          ap
                (λ o.
                  then_do (finish_miss (some allocated) i page_id)
                    (then_do (λ m'. load_page (some allocated) m' i page_id false) o))
                cleans
              ∙ load_lem m2 i page_id c.sound still_absent valid allocated all,
          record {
            sound = loaded-IsSound m2 i page_id c.sound still_absent valid;
            mapped = mapped;
            fixed = ap is_fixed (loaded_self m2 i page_id c.sound still_absent valid);
            contents = sym (ap (view_of m3 page_id) mapped) ∙ same page_id;
            view_lem = same;
            others = λ j fixed differs.
                loaded_other m2 i page_id c.sound still_absent valid j differs
                ∙ (c.frames j differs
                    ∙ update_ne m.frames i j (unset_eviction (m.frames i)) differs);
          },
        )

    abbrev fill_or_wait :
        BufferManager P
        → ℕ
        → Bool
        → Option (ℕ × BufferManager P)
        → Outcome (Option ℕ × BufferManager P)
    fill_or_wait m page_id abort (some taken) = fill_frame (some allocated) page_id false taken
    fill_or_wait m page_id abort none = if abort then returns (none, m) else waits

    abbrev fix_or_miss :
        BufferManager P → ℕ → Bool → Option ℕ → Outcome (Option ℕ × BufferManager P)
    fix_or_miss m page_id abort (some i) = returns (some i, fix_found m i)
    fix_or_miss m page_id abort none = fill_or_wait m page_id abort (take_frame m)

    by_cases :
        (m : BufferManager P) (page_id : ℕ) (abort : Bool)
        → fix_page_impl (some allocated) m page_id abort false
          ≡ fix_or_miss m page_id abort (m.page_to_frame_map page_id)
    unfolding fix_page_impl
    by_cases m page_id abort = elim (Option-cases (m.page_to_frame_map page_id)) [
      | inr (i, e) ↦ rw (e, fix_page_impl) refl
      | inl e ↦
          rw (e, fix_page_impl)
            (elim (Option-cases (take_frame m)) [ inr (taken, t) ↦ rw t refl | inl t ↦ rw t refl ])
    ]

    pub fix_page-Fixes :
        (m : BufferManager P) (page_id : ℕ) (abort : Bool)
        → IsSound m
        → page_id ≢ invalid_page_id
        → ((i : ℕ) × (m' : BufferManager P) × (fix_page_impl (some allocated) m page_id abort false
              ≡ returns (some i, m'))
            × Fixes m page_id i m')
          ⊎ ((m.page_to_frame_map page_id ≡ none)
              × AllFixed m
              × (fix_page_impl (some allocated) m page_id abort false
                  ≡ (if abort then returns (none, m) else waits)))
    unfolding take_frame take_evicted
    fix_page-Fixes m page_id abort s valid = elim (Option-cases (m.page_to_frame_map page_id)) [
      | inr (i, e) ↦ inl (
        i,
        fix_found m i,
        by_cases m page_id abort ∙ ap (fix_or_miss m page_id abort) e,
        found-Fixes m page_id i s e,
      )
      | inl e ↦
          let miss = by_cases m page_id abort ∙ ap (fix_or_miss m page_id abort) e in
          elim (evict_lem m.strategy m.num_frames s.queues (disjoint m s)) [
            | inl (no_fifo, no_lru, nothing) ↦ inr (
              e,
              all-fixed m s no_fifo no_lru,
              miss ∙ ap (fill_or_wait m page_id abort) (nothing_taken m (evict m.strategy) nothing),
            )
            | inr (i, q, evicted, there, left) ↦
                let (m', filled, fixes) = filled-Fixes m page_id i q s e valid there left in
                inl (
                  i,
                  m',
                  miss
                      ∙ (ap (λ p. fill_or_wait m page_id abort (take_evicted m p)) evicted
                          ∙ filled),
                  fixes,
                )
          ]
    ]
