-- ===== src/Buffers/Fix.antt =====
-- bufmgr/buffer_manager.cc: fixing a page that is in a frame, and giving up a fix.
use treeline.Prelude.{
  same_or_not, update, update_ne, update_self, ℕ, ◌+◌, ◌<◌, ◌≡◌, ◌≢◌, refl, ap, sym, ◌∙◌, subst,
  Bool, true, false, not, ◌&&◌, inl, inr, Option, none, some, ◌==◌, if◌then◌else◌, arith,
}
use treeline.Buffers.HashQueue.{has}
use treeline.Buffers.Frames.{BufferFrame, TwoQueue, remove, inc_fix_count}
use treeline.Buffers.Pool.{BufferManager, fix_found}
use treeline.Buffers.Sound.{view, view_of, IsQueued, Holds, AreQueues, IsSound}
use treeline.Buffers.Strategy.{remove-Leaves}

pub never_some : {i : ℕ} → none ≢ some i
never_some e = cc

pub leaving : (b : Bool) (k i : ℕ) → k ≢ i → b && not (k == i) ≡ b
leaving b k i h = ground arith

module _ {ℓ} {P : Type ℓ} where
  -- A change of the frame `i` alone, which keeps its page, and its contents where it is not dirty.
  pub record Touches (m : BufferManager P) (i : ℕ) (m' : BufferManager P) : Type ℓ where
    pub frame : BufferFrame P
    pub frames : m'.frames ≡ update m.frames i frame
    pub map : m'.page_to_frame_map ≡ m.page_to_frame_map
    pub disk : m'.disk ≡ m.disk
    pub num : m'.num_frames ≡ m.num_frames
    pub page_id : frame.page_id ≡ (m.frames i).page_id
    pub dirty :
        frame.is_dirty ≡ false
        → ((m.frames i).is_dirty ≡ false) × (frame.contents ≡ (m.frames i).contents)

  -- Each field of a frame that a change keeps.
  kept {κ} :
      {B : Type κ} (m m' : BufferManager P) (i j : ℕ) (field : BufferFrame P → B)
      → (t : Touches m i m') → field t.frame ≡ field (m.frames i)
      → field (m'.frames j) ≡ field (m.frames j)
  kept m m' i j field t e = elim (same_or_not i j) [
    | inl same ↦
        rw same (ap (λ f. field (f i)) t.frames ∙ (ap field (update_self m.frames i t.frame) ∙ e))
    | inr differs ↦
        ap (λ f. field (f j)) t.frames ∙ ap field (update_ne m.frames i j t.frame differs)
  ]

  frame_ne : (m m' : BufferManager P) (i j : ℕ) → Touches m i m' → j ≢ i → m'.frames j ≡ m.frames j
  frame_ne m m' i j t h = ap (λ f. f j) t.frames ∙ update_ne m.frames i j t.frame h

  frame_self : (m m' : BufferManager P) (i : ℕ) → (t : Touches m i m') → m'.frames i ≡ t.frame
  frame_self m m' i t = ap (λ f. f i) t.frames ∙ update_self m.frames i t.frame

  touch-IsQueued :
      (m m' : BufferManager P) (i j : ℕ) (t : Touches m i m')
      → IsSound m
      → IsQueued m'.strategy i t.frame
      → ((k : ℕ)
          → k ≢ i
          → (has k m'.strategy.fifo.items ≡ has k m.strategy.fifo.items)
            × (has k m'.strategy.lru.items ≡ has k m.strategy.lru.items))
      → j < m.num_frames
      → IsQueued m'.strategy j (m'.frames j)
  touch-IsQueued m m' i j t s mine others below = elim (same_or_not i j) [
    | inl same ↦
        subst (λ k. IsQueued m'.strategy k (m'.frames k)) (sym same)
          (subst (λ f. IsQueued m'.strategy i f) (sym (frame_self m m' i t)) mine)
    | inr differs ↦
        let q = s.queued j below never_some in
        let old : IsQueued m'.strategy j (m.frames j) = record {
          in_fifo = (others j differs).0 ∙ q.in_fifo;
          in_lru = (others j differs).1 ∙ q.in_lru;
          unfixed = q.unfixed;
          later = q.later;
        } in
        subst (λ f. IsQueued m'.strategy j f) (sym (frame_ne m m' i j t differs)) old
  ]

  touch-Holds :
      (m m' : BufferManager P) (i j : ℕ) (t : Touches m i m')
      → m.page_to_frame_map (m.frames i).page_id ≡ some i
      → Holds m j
      → Holds m' j
  touch-Holds m m' i j t at h = elim (same_or_not i j) [
    | inl same ↦ rw same (inl (moved i ∙ at))
    | inr differs ↦ elim h [
      | inl there ↦ inl (moved j ∙ there)
      | inr (invalid, clean, unfixed) ↦
          let e = frame_ne m m' i j t differs in
          inr (
            ap (λ f. f.page_id) e ∙ invalid,
            ap (λ f. f.is_dirty) e ∙ clean,
            ap (λ f. f.fix_count) e ∙ unfixed,
          )
    ]
  ]
    where
      moved :
          (k : ℕ)
          → m'.page_to_frame_map (m'.frames k).page_id ≡ m.page_to_frame_map (m.frames k).page_id
      moved k =
          ap (λ f. f (m'.frames k).page_id) t.map
          ∙ ap m.page_to_frame_map (kept m m' i k (λ f. f.page_id) t t.page_id)

  clean_before :
      (m m' : BufferManager P) (i j : ℕ) (t : Touches m i m')
      → (m'.frames j).is_dirty ≡ false
      → ((m.frames j).is_dirty ≡ false) × ((m'.frames j).contents ≡ (m.frames j).contents)
  clean_before m m' i j t h = elim (same_or_not i j) [
    | inl same ↦
        let self = frame_self m m' i t in
        let (clean, contents) = t.dirty (ap (λ f. f.is_dirty) (sym self) ∙ (rw same at h)) in
        rw same (clean, ap (λ f. f.contents) self ∙ contents)
    | inr differs ↦
        let e = frame_ne m m' i j t differs in
        (ap (λ f. f.is_dirty) (sym e) ∙ h, ap (λ f. f.contents) e)
  ]

  -- The view changes at the frame's page alone, to the frame's contents.
  pub view-Touches :
      (m m' : BufferManager P) (i p : ℕ) (t : Touches m i m')
      → IsSound m
      → m.page_to_frame_map (m.frames i).page_id ≡ some i
      → view m' p ≡ (if p == (m.frames i).page_id then t.frame.contents else view m p)
  view-Touches m m' i p t s at =
      ap (λ f. view_of m' p (f p)) t.map ∙ elim (same_or_not (m.frames i).page_id p) [
        | inl same ↦
            let here : (p == (m.frames i).page_id) ≡ true = ground arith in
            let mapped : m.page_to_frame_map p ≡ some i = ap m.page_to_frame_map same ∙ at in
            let held : view_of m' p (m.page_to_frame_map p) ≡ t.frame.contents =
              ap (view_of m' p) mapped ∙ ap (λ f. f.contents) (frame_self m m' i t) in
            rw here held
        | inr differs ↦
            let elsewhere : (p == (m.frames i).page_id) ≡ false = ground arith in
            rw elsewhere (other differs (m.page_to_frame_map p) refl)
      ]
    where
      other :
          p ≢ (m.frames i).page_id
          → (o : Option ℕ) → m.page_to_frame_map p ≡ o
          → view_of m' p o ≡ view_of m p o
      other differs none e = ap (λ d. d p) t.disk
      other differs (some j) e =
          let page = (s.table p j e).2 in
          let apart : j ≢ i = λ h. differs (sym page ∙ ap (λ k. (m.frames k).page_id) h) in
          ap (λ f. f.contents) (frame_ne m m' i j t apart)

  -- A change of one frame of the table that keeps the queues right keeps all of it right.
  pub touch-IsSound :
      (m m' : BufferManager P) (i : ℕ) (t : Touches m i m')
      → IsSound m
      → m.page_to_frame_map (m.frames i).page_id ≡ some i
      → AreQueues m'.strategy m.num_frames
      → IsQueued m'.strategy i t.frame
      → ((k : ℕ)
          → k ≢ i
          → (has k m'.strategy.fifo.items ≡ has k m.strategy.fifo.items)
            × (has k m'.strategy.lru.items ≡ has k m.strategy.lru.items))
      → IsSound m'
  touch-IsSound m m' i t s at queues mine others = record {
    queues = subst (AreQueues m'.strategy) (sym t.num) queues;
    queued = λ j below but. touch-IsQueued m m' i j t s mine others (omega (arith, t.num));
    holds = λ j below but. touch-Holds m m' i j t at (s.holds j (omega (arith, t.num)) never_some);
    table = λ p j h.
        let old : m.page_to_frame_map p ≡ some j = ap (λ f. f p) (sym t.map) ∙ h in
        let (below, but, page, valid) = s.table p j old in
        (
          omega (arith, t.num),
          never_some,
          kept m m' i j (λ f. f.page_id) t t.page_id ∙ page,
          valid,
        );
    coherent = λ p j h clean.
        let old : m.page_to_frame_map p ≡ some j = ap (λ f. f p) (sym t.map) ∙ h in
        let (before, contents) = clean_before m m' i j t clean in
        contents ∙ (s.coherent p j old before ∙ ap (λ d. d p) (sym t.disk));
    out = λ j e. absurd (never_some e);
  }

  pub view-same :
      (m m' : BufferManager P) (i p : ℕ) (t : Touches m i m')
      → IsSound m
      → m.page_to_frame_map (m.frames i).page_id ≡ some i
      → t.frame.contents ≡ (m.frames i).contents
      → view m' p ≡ view m p
  view-same m m' i p t s at e =
      view-Touches m m' i p t s at ∙ elim (same_or_not (m.frames i).page_id p) [
        | inl same ↦
            let here : (p == (m.frames i).page_id) ≡ true = ground arith in
            let mapped : m.page_to_frame_map p ≡ some i = ap m.page_to_frame_map same ∙ at in
            let seen : view m p ≡ (m.frames i).contents = ap (view_of m p) mapped in
            rw here (e ∙ sym seen)
        | inr differs ↦
            let elsewhere : (p == (m.frames i).page_id) ≡ false = ground arith in rw elsewhere refl
      ]

  -- Queues in which the frame `i` is as `f` says, and the others as before.
  pub record Requeues (q : TwoQueue) (n i : ℕ) (q' : TwoQueue) (f : BufferFrame P) : Type 0 where
    pub queues : AreQueues q' n
    pub queued : IsQueued q' i f
    pub others :
        (k : ℕ)
        → k ≢ i
        → (has k q'.fifo.items ≡ has k q.fifo.items) × (has k q'.lru.items ≡ has k q.lru.items)

  pins :
      (b : Bool) (q : TwoQueue) (n i : ℕ) (f : BufferFrame P)
      → (f.fix_count + 1 == 1) ≡ b
      → AreQueues q n
      → IsQueued q i f
      → Requeues q n i (if b then remove q i (inc_fix_count f) else q) (inc_fix_count f)
  unfolding inc_fix_count
  pins true q n i f e a g =
      let left = remove-Leaves q n i f a g (ground arith) in
      record {
        queues = left.queues;
        queued = record {
          in_fifo = left.fifo i ∙ ground arith;
          in_lru = left.lru i ∙ ground arith;
          unfixed = λ h. absurd (ground arith);
          later = g.later;
        };
        others = λ k h. (left.fifo k ∙ leaving _ k i h, left.lru k ∙ leaving _ k i h);
      }
  pins false q n i f e a g = record {
    queues = a;
    queued = record {
      in_fifo = ground (arith, g.in_fifo);
      in_lru = ground (arith, g.in_lru);
      unfixed = λ h. absurd (ground arith);
      later = g.later;
    };
    others = λ k h. (refl, refl);
  }

  -- The frame has one more fix, and no longer can be evicted.
  pub fix_found-IsSound :
      (m : BufferManager P) (p i : ℕ)
      → IsSound m
      → m.page_to_frame_map p ≡ some i
      → IsSound (fix_found m i) × ((q : ℕ) → view (fix_found m i) q ≡ view m q)
  unfolding fix_found inc_fix_count
  fix_found-IsSound m p i s e =
      let (below, but, page, valid) = s.table p i e in
      let at : m.page_to_frame_map (m.frames i).page_id ≡ some i =
        ap m.page_to_frame_map page ∙ e in
      let g = s.queued i below never_some in
      let t : Touches m i (fix_found m i) = record {
        frame = inc_fix_count (m.frames i);
        frames = refl;
        map = refl;
        disk = refl;
        num = refl;
        page_id = refl;
        dirty = λ h. (h, refl);
      } in
      let r =
        pins ((m.frames i).fix_count + 1 == 1) m.strategy m.num_frames i (m.frames i) refl s.queues
          g in
      (
        touch-IsSound m (fix_found m i) i t s at r.queues r.queued r.others,
        λ q. view-same m (fix_found m i) i q t s at refl,
      )
