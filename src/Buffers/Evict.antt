-- ===== src/Buffers/Evict.antt =====
-- bufmgr/buffer_manager.cc: the frame that is taken for another page leaves the table, and what it held
-- goes to the disk where it is dirty.
use treeline.Prelude.{
  same_or_not, update, update_ne, update_self, ℕ, ◌<◌, ◌≡◌, ◌≢◌, refl, ap, sym, ◌∙◌, subst, true,
  false, ◌&&◌, inl, inr, Option, none, some, ◌==◌, if◌then◌else◌, arith, Bool-cases, Option-cases,
}
use treeline.Buffers.Frames.{BufferFrame, invalid_page_id, TwoQueue, unset_eviction}
use treeline.Buffers.Pool.{BufferManager}
use treeline.Buffers.Sound.{view, view_of, IsQueued, Holds, IsSoundBut, IsSound}
use treeline.Buffers.Strategy.{Leaves}
use treeline.Buffers.Fix.{never_some, leaving}

pub other_than : {i j : ℕ} → some i ≢ some j → j ≢ i
other_than h e = h (ap some (sym e))

module _ {ℓ} {P : Type ℓ} where
  -- The view with the contents of a dirty frame at its page.
  abbrev pub written_back : BufferFrame P → (ℕ → P) → ℕ → P
  written_back f v p = if f.is_dirty && (p == f.page_id) then f.contents else v p

  pub written_elsewhere :
      (f : BufferFrame P) (v : ℕ → P) (p : ℕ) → p ≢ f.page_id → written_back f v p ≡ v p
  written_elsewhere f v p h =
      let test : f.is_dirty && (p == f.page_id) ≡ false = ground arith in
      ap (λ b. if b then f.contents else v p) test

  pub written_clean :
      (f : BufferFrame P) (v : ℕ → P) (p : ℕ) → f.is_dirty ≡ false → written_back f v p ≡ v p
  written_clean f v p h =
      let test : f.is_dirty && (p == f.page_id) ≡ false = ground arith in
      ap (λ b. if b then f.contents else v p) test

  pub written_here :
      (f : BufferFrame P) (v : ℕ → P) (p : ℕ)
      → p ≡ f.page_id
      → f.is_dirty ≡ true
      → written_back f v p ≡ f.contents
  written_here f v p e h =
      let test : f.is_dirty && (p == f.page_id) ≡ true = ground arith in
      ap (λ b. if b then f.contents else v p) test

  invalid-none : (m : BufferManager P) → IsSound m → m.page_to_frame_map invalid_page_id ≡ none
  invalid-none m s = elim (Option-cases (m.page_to_frame_map invalid_page_id)) [
    | inl h ↦ h
    | inr (i, h) ↦ absurd ((s.table invalid_page_id i h).3 refl)
  ]

  module _ (m : BufferManager P) (i : ℕ) (q : TwoQueue) (s : IsSound m)
      (left : Leaves m.strategy m.num_frames i q) (below : i < m.num_frames) where
    abbrev pub taken : BufferManager P
    taken = record m {
      strategy = q;
      frames = update m.frames i (unset_eviction (m.frames i));
      page_to_frame_map = update m.page_to_frame_map (m.frames i).page_id none;
    }

    -- Another frame that holds a page holds another page.
    other_page : (p j : ℕ) → m.page_to_frame_map p ≡ some j → j ≢ i → p ≢ (m.frames i).page_id
    other_page p j h differs same = elim (s.holds i below never_some) [
      | inl mine ↦ differs (ground (arith, ap m.page_to_frame_map same))
      | inr (invalid, clean, unfixed) ↦ (s.table p j h).3 (same ∙ invalid)
    ]

    old_entry :
        (p j : ℕ) → taken.page_to_frame_map p ≡ some j → (m.page_to_frame_map p ≡ some j) × (j ≢ i)
    old_entry p j h = elim (same_or_not (m.frames i).page_id p) [
      | inl same ↦ absurd (
          never_some (
            sym (update_self m.page_to_frame_map (m.frames i).page_id none)
            ∙ (ap taken.page_to_frame_map (sym same) ∙ h)))
      | inr differs ↦
          let old : m.page_to_frame_map p ≡ some j =
            sym (update_ne m.page_to_frame_map (m.frames i).page_id p none differs) ∙ h in
          (old, λ e. differs (sym ((s.table p j old).2) ∙ ap (λ k. (m.frames k).page_id) e))
    ]

    frame_other : (j : ℕ) → j ≢ i → taken.frames j ≡ m.frames j
    frame_other j h = update_ne m.frames i j (unset_eviction (m.frames i)) h

    taken-IsQueued : (j : ℕ) → j < m.num_frames → j ≢ i → IsQueued q j (taken.frames j)
    taken-IsQueued j low h =
        let g = s.queued j low never_some in
        subst (IsQueued q j) (sym (frame_other j h)) (record {
          in_fifo = left.fifo j ∙ (leaving _ j i h ∙ g.in_fifo);
          in_lru = left.lru j ∙ (leaving _ j i h ∙ g.in_lru);
          unfixed = g.unfixed;
          later = g.later;
        })

    taken-Holds : (j : ℕ) → j < m.num_frames → j ≢ i → Holds taken j
    taken-Holds j low h =
        let e = frame_other j h in
        elim (s.holds j low never_some) [
          | inl there ↦
              let apart = other_page (m.frames j).page_id j there h in
              inl (
                ap (λ f. taken.page_to_frame_map f.page_id) e
                ∙ (update_ne m.page_to_frame_map (m.frames i).page_id (m.frames j).page_id none
                      apart
                    ∙ there))
          | inr (invalid, clean, unfixed) ↦ inr (
            ap (λ f. f.page_id) e ∙ invalid,
            ap (λ f. f.is_dirty) e ∙ clean,
            ap (λ f. f.fix_count) e ∙ unfixed,
          )
        ]

    pub taken-IsSoundBut : IsSoundBut (some i) taken
    taken-IsSoundBut = record {
      queues = left.queues;
      queued = λ j low but. taken-IsQueued j low (other_than but);
      holds = λ j low but. taken-Holds j low (other_than but);
      table = λ p j h.
          let (old, apart) = old_entry p j h in
          let (low, but, page, valid) = s.table p j old in
          (low, λ e. apart (ground arith), ap (λ f. f.page_id) (frame_other j apart) ∙ page, valid);
      coherent = λ p j h clean.
          let (old, apart) = old_entry p j h in
          let e = frame_other j apart in
          ap (λ f. f.contents) e ∙ s.coherent p j old (ap (λ f. f.is_dirty) (sym e) ∙ clean);
      out = λ j e.
          let same : j ≡ i = ground arith in
          (
            omega (arith, same),
            rw same (left.fifo i ∙ ground arith),
            rw same (left.lru i ∙ ground arith),
          );
    }

    others :
        (p : ℕ) (o : Option ℕ)
        → m.page_to_frame_map p ≡ o
        → p ≢ (m.frames i).page_id
        → view_of taken p o ≡ view_of m p o
    others p none e differs = refl
    others p (some j) e differs =
        let page = (s.table p j e).2 in
        let apart : j ≢ i = λ h. differs (sym page ∙ ap (λ k. (m.frames k).page_id) h) in
        ap (λ f. f.contents) (frame_other j apart)

    -- What is lost with the frame is what a dirty one holds.
    pub taken-view : (p : ℕ) → view m p ≡ written_back (m.frames i) (view taken) p
    taken-view p = elim (same_or_not (m.frames i).page_id p) [
      | inl same ↦
          let gone : view taken p ≡ m.disk p = ap (view_of taken p) (
            ap taken.page_to_frame_map same
            ∙ update_self m.page_to_frame_map (m.frames i).page_id none) in
          elim (s.holds i below never_some) [
            | inl mine ↦
                let mapped : m.page_to_frame_map p ≡ some i = ap m.page_to_frame_map same ∙ mine in
                let seen : view m p ≡ (m.frames i).contents = ap (view_of m p) mapped in
                elim (Bool-cases (m.frames i).is_dirty) [
                  | inl dirty ↦ seen ∙ sym (written_here (m.frames i) (view taken) p same dirty)
                  | inr clean ↦
                      seen
                      ∙ (s.coherent p i mapped clean
                          ∙ (sym gone ∙ sym (written_clean (m.frames i) (view taken) p clean)))
                ]
            | inr (invalid, clean, unfixed) ↦
                let absent : m.page_to_frame_map p ≡ none =
                  ap m.page_to_frame_map (same ∙ invalid) ∙ invalid-none m s in
                ap (view_of m p) absent
                ∙ (sym gone ∙ sym (written_clean (m.frames i) (view taken) p clean))
          ]
      | inr differs ↦
          let kept : view taken p ≡ view_of taken p (m.page_to_frame_map p) =
            ap (view_of taken p)
              (update_ne m.page_to_frame_map (m.frames i).page_id p none differs) in
          sym (
            written_elsewhere (m.frames i) (view taken) p differs
            ∙ (kept ∙ others p (m.page_to_frame_map p) refl differs))
    ]
