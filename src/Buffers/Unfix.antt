-- ===== src/Buffers/Unfix.antt =====
-- bufmgr/buffer_manager.cc: giving up a fix, after which the frame can be evicted if it was the last.
use treeline.Prelude.{
  update, update_self, update_twice, ℕ, ◌-◌, ◌<◌, ◌≡◌, refl, ap, sym, ◌∙◌, subst, Bool, true, false,
  not, ◌||◌, some, ◌==◌, if◌then◌else◌, arith,
}
use treeline.Buffers.HashQueue.{has}
use treeline.Buffers.Frames.{BufferFrame, TwoQueue, insert, dec_fix_count}
use treeline.Buffers.Pool.{BufferManager, set_frame, unfix_page}
use treeline.Buffers.Sound.{view, is_fixed, IsQueued, AreQueues, IsSound}
use treeline.Buffers.Strategy.{insert-Joins}
use treeline.Buffers.Fix.{never_some, Touches, touch-IsSound, view-Touches, Requeues}

module _ {ℓ} {P : Type ℓ} where
  -- A caller that fixed a page writes to its frame, and gives up the fix.
  abbrev pub release : BufferManager P → ℕ → P → Bool → BufferManager P
  release m i contents is_dirty =
      unfix_page (set_frame m i (record (m.frames i) { contents = contents })) i is_dirty

  -- The frame with its dirty flag and its count.
  abbrev mark : Bool → BufferFrame P → BufferFrame P
  mark is_dirty f = dec_fix_count (if is_dirty then record f { is_dirty = true } else f)

  record Marks (f g : BufferFrame P) (is_dirty : Bool) : Type ℓ where
    pub same_contents : g.contents ≡ f.contents
    pub same_page : g.page_id ≡ f.page_id
    pub fifo_flag : g.been_in_fifo ≡ f.been_in_fifo
    pub lru_flag : g.been_in_lru ≡ f.been_in_lru
    pub count : g.fix_count ≡ f.fix_count - 1
    pub dirty_set : g.is_dirty ≡ f.is_dirty || is_dirty

  dec-Marks : (f : BufferFrame P) → Marks f (dec_fix_count f) false
  unfolding dec_fix_count
  dec-Marks f = record {
    same_contents = ground arith;
    same_page = ground arith;
    fifo_flag = ground arith;
    lru_flag = ground arith;
    count = ground arith;
    dirty_set = ground arith;
  }

  mark-Marks : (f : BufferFrame P) (is_dirty : Bool) → Marks f (mark is_dirty f) is_dirty
  mark-Marks f false = dec-Marks f
  mark-Marks f true =
      let m = dec-Marks (record f { is_dirty = true }) in
      record {
        same_contents = m.same_contents;
        same_page = m.same_page;
        fifo_flag = m.fifo_flag;
        lru_flag = m.lru_flag;
        count = m.count;
        dirty_set = ground (arith, m.dirty_set);
      }

  insert_keeps :
      (q : TwoQueue) (i : ℕ) (f : BufferFrame P)
      → ((insert q i f).1.contents ≡ f.contents)
        × ((insert q i f).1.page_id ≡ f.page_id)
        × ((insert q i f).1.is_dirty ≡ f.is_dirty)
  unfolding insert
  insert_keeps q i f = (ground arith, ground arith, ground arith)

  -- The queues and the frame after a fix is given up.
  abbrev given_up : TwoQueue → ℕ → BufferFrame P → TwoQueue × BufferFrame P
  given_up q i g =
      if◌then◌else◌ {A = TwoQueue × BufferFrame P} (g.fix_count == 0) (insert q i g) (q, g)

  -- What giving up a fix keeps of the frame, and what it does to the queues.
  record GivesUp (q : TwoQueue) (n i : ℕ) (f g : BufferFrame P) (r : TwoQueue × BufferFrame P)
      : Type ℓ where
    pub requeues : Requeues q n i r.0 r.1
    pub contents : r.1.contents ≡ g.contents
    pub page_id : r.1.page_id ≡ g.page_id
    pub is_dirty : r.1.is_dirty ≡ g.is_dirty

  gives_up :
      (last : Bool) (q : TwoQueue) (n i : ℕ) (f g : BufferFrame P) (is_dirty : Bool)
      → (g.fix_count == 0) ≡ last
      → i < n
      → Marks f g is_dirty
      → is_fixed f ≡ true
      → AreQueues q n
      → IsQueued q i f
      → GivesUp q n i f g (if◌then◌else◌ {A = TwoQueue × BufferFrame P} last (insert q i g) (q, g))
  gives_up true q n i f g is_dirty last below m fixed a queued =
      let no_fifo : has i q.fifo.items ≡ false = ground (arith, queued.in_fifo) in
      let no_lru : has i q.lru.items ≡ false = ground (arith, queued.in_lru) in
      let j =
        insert-Joins q n i g a below (ap not last) no_fifo no_lru
          (λ h. m.fifo_flag ∙ queued.later (sym m.lru_flag ∙ h)) in
      let keeps = insert_keeps q i g in
      record {
        requeues = record {
          queues = j.queues;
          queued = j.queued;
          others = λ k h. (j.fifo k h, j.lru k h);
        };
        contents = keeps.0;
        page_id = keeps.1;
        is_dirty = keeps.2;
      }
  gives_up false q n i f g is_dirty more below m fixed a queued = record {
    requeues = record {
      queues = a;
      queued = record {
        in_fifo = ground (arith, queued.in_fifo, m.lru_flag);
        in_lru = ground (arith, queued.in_lru, m.lru_flag);
        unfixed = λ h. absurd (ground arith);
        later = λ h. m.fifo_flag ∙ queued.later (sym m.lru_flag ∙ h);
      };
      others = λ k h. (refl, refl);
    };
    contents = refl;
    page_id = refl;
    is_dirty = refl;
  }

  abbrev requeue : BufferManager P → ℕ → TwoQueue × BufferFrame P → BufferManager P
  requeue m i r = record m { frames = update m.frames i r.1; strategy = r.0 }

  requeue_cases :
      (last : Bool) (m : BufferManager P) (i : ℕ) (g : BufferFrame P)
      → (if◌then◌else◌ {A = BufferManager P} last
          (record m {
            frames = update m.frames i (insert m.strategy i g).1;
            strategy = (insert m.strategy i g).0;
          })
          (set_frame m i g))
        ≡ requeue m i (
            if◌then◌else◌ {A = TwoQueue × BufferFrame P} last
              (insert m.strategy i g)
              (m.strategy, g))
  requeue_cases true m i g = refl
  requeue_cases false m i g = refl

  unfix_lem :
      (m : BufferManager P) (i : ℕ) (is_dirty : Bool)
      → unfix_page m i is_dirty ≡ requeue m i (given_up m.strategy i (mark is_dirty (m.frames i)))
  unfolding unfix_page
  unfix_lem m i is_dirty =
      requeue_cases ((mark is_dirty (m.frames i)).fix_count == 0) m i (mark is_dirty (m.frames i))

  -- A caller that holds a fix and writes to the frame only where it gives it up as dirty: the state stays
  -- sound, the page then reads as the caller wrote it, and every other page as before.
  pub release_lem :
      (m : BufferManager P) (p i : ℕ) (contents : P) (is_dirty : Bool)
      → IsSound m
      → m.page_to_frame_map p ≡ some i
      → is_fixed (m.frames i) ≡ true
      → (is_dirty ≡ false → contents ≡ (m.frames i).contents)
      → IsSound (release m i contents is_dirty)
        × ((q : ℕ)
            → view (release m i contents is_dirty) q ≡ (if q == p then contents else view m q))
  release_lem m p i contents is_dirty s e fixed honest =
      let (below, but, page, valid) = s.table p i e in
      let at : m.page_to_frame_map (m.frames i).page_id ≡ some i =
        ap m.page_to_frame_map page ∙ e in
      let f : BufferFrame P = record (m.frames i) { contents = contents } in
      let g = mark is_dirty f in
      let marks = mark-Marks f is_dirty in
      let queued : IsQueued m.strategy i f = record {
        in_fifo = (s.queued i below never_some).in_fifo;
        in_lru = (s.queued i below never_some).in_lru;
        unfixed = (s.queued i below never_some).unfixed;
        later = (s.queued i below never_some).later;
      } in
      let r = given_up m.strategy i g in
      let up =
        gives_up (g.fix_count == 0) m.strategy m.num_frames i f g is_dirty refl below marks fixed
          s.queues queued in
      let m' = requeue m i r in
      let same : release m i contents is_dirty ≡ m' =
        unfix_lem (set_frame m i f) i is_dirty
        ∙ (ap (λ h. requeue (set_frame m i f) i (given_up m.strategy i (mark is_dirty h)))
              (update_self m.frames i f)
            ∙ ap (λ fs. record m { frames = fs; strategy = r.0 })
                (update_twice m.frames i f r.1)) in
      let t : Touches m i m' = record {
        frame = r.1;
        frames = refl;
        map = refl;
        disk = refl;
        num = refl;
        page_id = up.page_id ∙ marks.same_page;
        dirty = λ h.
            let clean : (m.frames i).is_dirty || is_dirty ≡ false =
              sym marks.dirty_set ∙ (sym up.is_dirty ∙ h) in
            (ground arith, up.contents ∙ (marks.same_contents ∙ honest (ground arith)));
      } in
      let sound =
        touch-IsSound m m' i t s at up.requeues.queues up.requeues.queued up.requeues.others in
      let now : (q : ℕ) → view m' q ≡ (if q == p then contents else view m q) = λ q.
        view-Touches m m' i q t s at
        ∙ (ap (λ k. if q == k then r.1.contents else view m q) page
            ∙ ap (λ c. if q == p then c else view m q) (up.contents ∙ marks.same_contents)) in
      (subst IsSound (sym same) sound, λ q. ap (λ k. view k q) same ∙ now q)
