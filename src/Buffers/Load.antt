-- ===== src/Buffers/Load.antt =====
-- bufmgr/buffer_manager.cc: a frame that was taken is cleaned, and filled with another page.
use treeline.Prelude.{
  same_or_not, update, update_ne, update_self, update_twice, ℕ, ◌+◌, ◌<◌, ◌≡◌, ◌≢◌, refl, ap, sym,
  ◌∙◌, subst, Bool, true, false, ◌⊎◌, inl, inr, Option, none, some, if◌then◌else◌, arith,
  Bool-cases,
}
use treeline.Buffers.Frames.{BufferFrame, invalid_page_id, initialize, inc_fix_count}
use treeline.Buffers.Pool.{
  BufferManager, set_frame, clean_frame, write_page_out, read_page_in, load_page, finish_miss,
  mark_clean, then_do, returns, throws,
}
use treeline.Buffers.Sound.{view, view_of, IsQueued, Holds, IsSoundBut, IsSound}
use treeline.Buffers.Fix.{never_some}
use treeline.Buffers.Evict.{
  other_than, written_back, written_elsewhere, written_clean, written_here,
}

module _ {ℓ} {P : Type ℓ} where
  -- The disk and the frame `i` change alone.
  pub record Cleans (m : BufferManager P) (i : ℕ) (m' : BufferManager P) : Type ℓ where
    pub sound : IsSoundBut (some i) m'
    pub view_lem : (p : ℕ) → view m' p ≡ written_back (m.frames i) (view m) p
    pub frames : (j : ℕ) → j ≢ i → m'.frames j ≡ m.frames j
    pub map : m'.page_to_frame_map ≡ m.page_to_frame_map
    pub num : m'.num_frames ≡ m.num_frames

  module _ (m : BufferManager P) (i : ℕ) (s : IsSoundBut (some i) m)
      (absent : m.page_to_frame_map (m.frames i).page_id ≡ none) where
    cleaned : BufferManager P
    cleaned = record m {
      disk = update m.disk (m.frames i).page_id (m.frames i).contents;
      frames = update m.frames i (record (m.frames i) { is_dirty = false });
    }

    still : (j : ℕ) → j ≢ i → cleaned.frames j ≡ m.frames j
    unfolding cleaned
    still j h = update_ne m.frames i j (record (m.frames i) { is_dirty = false }) h

    elsewhere : (p j : ℕ) → m.page_to_frame_map p ≡ some j → p ≢ (m.frames i).page_id
    elsewhere p j h e = never_some (sym absent ∙ (ap m.page_to_frame_map (sym e) ∙ h))

    cleaned-IsSoundBut : IsSoundBut (some i) cleaned
    unfolding cleaned
    cleaned-IsSoundBut = record {
      queues = s.queues;
      queued = λ j low but.
          subst (IsQueued m.strategy j) (sym (still j (other_than but))) (s.queued j low but);
      holds = λ j low but.
          let e = still j (other_than but) in
          elim (s.holds j low but) [
            | inl there ↦ inl (ap (λ f. m.page_to_frame_map f.page_id) e ∙ there)
            | inr (invalid, clean, unfixed) ↦ inr (
              ap (λ f. f.page_id) e ∙ invalid,
              ap (λ f. f.is_dirty) e ∙ clean,
              ap (λ f. f.fix_count) e ∙ unfixed,
            )
          ];
      table = λ p j h.
          let (low, but, page, valid) = s.table p j h in
          (low, but, ap (λ f. f.page_id) (still j (other_than but)) ∙ page, valid);
      coherent = λ p j h clean.
          let e = still j (other_than (s.table p j h).1) in
          ap (λ f. f.contents) e
          ∙ (s.coherent p j h (ap (λ f. f.is_dirty) (sym e) ∙ clean)
              ∙ sym (
                  update_ne m.disk (m.frames i).page_id p (m.frames i).contents (elsewhere p j h)));
      out = s.out;
    }

    cleaned-view :
        (m.frames i).is_dirty ≡ true
        → (p : ℕ) → view cleaned p ≡ written_back (m.frames i) (view m) p
    unfolding cleaned
    cleaned-view dirty p = elim (same_or_not (m.frames i).page_id p) [
      | inl same ↦
          ap (view_of cleaned p) (ap m.page_to_frame_map same ∙ absent)
          ∙ (ap (update m.disk (m.frames i).page_id (m.frames i).contents) same
              ∙ (update_self m.disk (m.frames i).page_id (m.frames i).contents
                  ∙ sym (written_here (m.frames i) (view m) p same dirty)))
      | inr differs ↦
          other p (m.page_to_frame_map p) refl differs
          ∙ sym (written_elsewhere (m.frames i) (view m) p differs)
    ]
      where
        other :
            (p : ℕ) (o : Option ℕ)
            → m.page_to_frame_map p ≡ o
            → p ≢ (m.frames i).page_id
            → view_of cleaned p o ≡ view_of m p o
        other p none e differs =
            update_ne m.disk (m.frames i).page_id p (m.frames i).contents differs
        other p (some j) e differs = ap (λ f. f.contents) (still j (other_than (s.table p j e).1))

    -- A dirty frame is written to the disk at its page, and a clean one is left.
    pub clean_frame-Cleans :
        (allocated : ℕ → Bool)
        → ((p : ℕ) → allocated p ≡ true)
        → (m' : BufferManager P) × (clean_frame (some allocated) m i ≡ returns m') × Cleans m i m'
    unfolding clean_frame write_page_out cleaned
    clean_frame-Cleans allocated all = elim (Bool-cases (m.frames i).is_dirty) [
      | inl dirty ↦ (
        cleaned,
        ap
              (λ b.
                if b
                then then_do (mark_clean (some allocated) i) (write_page_out (some allocated) m i)
                else returns m)
              dirty
            ∙ ap (then_do (mark_clean (some allocated) i)) (
                ap
                  (λ b.
                    if b
                    then returns (record m {
                      disk = update m.disk (m.frames i).page_id (m.frames i).contents;
                    })
                    else throws)
                  (all (m.frames i).page_id)),
        record {
          sound = cleaned-IsSoundBut;
          view_lem = cleaned-view dirty;
          frames = still;
          map = refl;
          num = refl;
        },
      )
      | inr clean ↦ (
        m,
        ap
            (λ b.
              if b
              then then_do (mark_clean (some allocated) i) (write_page_out (some allocated) m i)
              else returns m)
            clean,
        record {
          sound = s;
          view_lem = λ p. sym (written_clean (m.frames i) (view m) p clean);
          frames = λ j h. refl;
          map = refl;
          num = refl;
        },
      )
    ]

  module _ (m : BufferManager P) (i page_id : ℕ) (s : IsSoundBut (some i) m)
      (absent : m.page_to_frame_map page_id ≡ none) (valid : page_id ≢ invalid_page_id) where
    abbrev pub loaded_frame : BufferFrame P
    loaded_frame = record {
      contents = m.disk page_id;
      page_id = page_id;
      is_dirty = false;
      been_in_fifo = false;
      been_in_lru = false;
      is_valid = true;
      fix_count = 1;
    }

    abbrev pub loaded : BufferManager P
    loaded = record m {
      frames = update m.frames i loaded_frame;
      page_to_frame_map = update m.page_to_frame_map page_id (some i);
      num_misses = m.num_misses + 1;
      num_fixes = m.num_fixes + 1;
    }

    pub load_lem :
        (allocated : ℕ → Bool)
        → ((p : ℕ) → allocated p ≡ true)
        → then_do
            (finish_miss (some allocated) i page_id)
            (load_page (some allocated) m i page_id false)
          ≡ returns (some i, loaded)
    unfolding finish_miss load_page read_page_in initialize inc_fix_count
    load_lem allocated all =
        let first : BufferFrame P = inc_fix_count (initialize page_id (m.frames i)) in
        let read = λ (f : BufferFrame P). then_do (finish_miss (some allocated) i page_id) (
          if allocated f.page_id
          then returns
              (set_frame (set_frame m i first) i (record f { contents = m.disk f.page_id }))
          else throws) in
        ap read (update_self m.frames i first)
        ∙ (ap
              (λ b. then_do (finish_miss (some allocated) i page_id) (
                if b
                then returns
                    (set_frame (set_frame m i first) i (record first { contents = m.disk page_id }))
                else throws))
              (all page_id)
            ∙ ap
                (λ fs. returns (
                  some i,
                  record m {
                    frames = fs;
                    page_to_frame_map = update m.page_to_frame_map page_id (some i);
                    num_misses = m.num_misses + 1;
                    num_fixes = m.num_fixes + 1;
                  },
                ))
                (update_twice m.frames i first loaded_frame))

    pub loaded_other : (j : ℕ) → j ≢ i → loaded.frames j ≡ m.frames j
    loaded_other j h = update_ne m.frames i j loaded_frame h

    pub loaded_self : loaded.frames i ≡ loaded_frame
    loaded_self = update_self m.frames i loaded_frame

    entries :
        (p j : ℕ)
        → loaded.page_to_frame_map p ≡ some j
        → ((p ≡ page_id) × (j ≡ i)) ⊎ ((m.page_to_frame_map p ≡ some j) × (p ≢ page_id))
    entries p j h = elim (same_or_not page_id p) [
      | inl same ↦
          let mine : loaded.page_to_frame_map p ≡ some i =
            ap loaded.page_to_frame_map same ∙ update_self m.page_to_frame_map page_id (some i) in
          inl (same, ground (arith, mine, h))
      | inr differs ↦
          inr (sym (update_ne m.page_to_frame_map page_id p (some i) differs) ∙ h, differs)
    ]

    loaded-IsQueued : (j : ℕ) → j < m.num_frames → IsQueued m.strategy j (loaded.frames j)
    loaded-IsQueued j low = elim (same_or_not i j) [
      | inl same ↦
          let (below, no_fifo, no_lru) = s.out i refl in
          rw same (
            subst (IsQueued m.strategy i) (sym loaded_self)
              (record { in_fifo = no_fifo; in_lru = no_lru; unfixed = λ h. cc; later = λ h. cc }))
      | inr differs ↦
          subst (IsQueued m.strategy j) (sym (loaded_other j differs))
            (s.queued j low (λ e. differs (ground arith)))
    ]

    loaded-Holds : (j : ℕ) → j < m.num_frames → Holds loaded j
    loaded-Holds j low = elim (same_or_not i j) [
      | inl same ↦ rw same (
          inl (
            ap (λ f. loaded.page_to_frame_map f.page_id) loaded_self
            ∙ update_self m.page_to_frame_map page_id (some i)))
      | inr differs ↦
          let e = loaded_other j differs in
          elim (s.holds j low (λ h. differs (ground arith))) [
            | inl there ↦
                let apart : (m.frames j).page_id ≢ page_id =
                  λ h. never_some (sym absent ∙ (ap m.page_to_frame_map (sym h) ∙ there)) in
                inl (
                  ap (λ f. loaded.page_to_frame_map f.page_id) e
                  ∙ (update_ne m.page_to_frame_map page_id (m.frames j).page_id (some i) apart
                      ∙ there))
            | inr (invalid, clean, unfixed) ↦ inr (
              ap (λ f. f.page_id) e ∙ invalid,
              ap (λ f. f.is_dirty) e ∙ clean,
              ap (λ f. f.fix_count) e ∙ unfixed,
            )
          ]
    ]

    pub loaded-IsSound : IsSound loaded
    loaded-IsSound = record {
      queues = s.queues;
      queued = λ j low but. loaded-IsQueued j low;
      holds = λ j low but. loaded-Holds j low;
      table = λ p j h. elim (entries p j h) [
        | inl (at, same) ↦ (
          omega (arith, same, (s.out i refl).0),
          never_some,
          ap (λ k. (loaded.frames k).page_id) same ∙ (ap (λ f. f.page_id) loaded_self ∙ sym at),
          λ e. valid (sym at ∙ e),
        )
        | inr (old, differs) ↦
            let (low, but, page, fine) = s.table p j old in
            (low, never_some, ap (λ f. f.page_id) (loaded_other j (other_than but)) ∙ page, fine)
      ];
      coherent = λ p j h clean. elim (entries p j h) [
        | inl (at, same) ↦
            ap (λ k. (loaded.frames k).contents) same
            ∙ (ap (λ f. f.contents) loaded_self ∙ ap m.disk (sym at))
        | inr (old, differs) ↦
            let e = loaded_other j (other_than (s.table p j old).1) in
            ap (λ f. f.contents) e ∙ s.coherent p j old (ap (λ f. f.is_dirty) (sym e) ∙ clean)
      ];
      out = λ j e. absurd (never_some e);
    }

    -- The page is read as the disk has it, and the others are not touched.
    pub loaded-view : (p : ℕ) → view loaded p ≡ view m p
    loaded-view p = elim (same_or_not page_id p) [
      | inl same ↦
          let mine : loaded.page_to_frame_map p ≡ some i =
            ap loaded.page_to_frame_map same ∙ update_self m.page_to_frame_map page_id (some i) in
          let none_before : view m p ≡ m.disk page_id =
            ap (view m) same ∙ ap (view_of m page_id) absent in
          ap (view_of loaded p) mine ∙ (ap (λ f. f.contents) loaded_self ∙ sym none_before)
      | inr differs ↦
          ap (view_of loaded p) (update_ne m.page_to_frame_map page_id p (some i) differs)
          ∙ others (m.page_to_frame_map p) refl
    ]
      where
        others : (o : Option ℕ) → m.page_to_frame_map p ≡ o → view_of loaded p o ≡ view_of m p o
        others none e = refl
        others (some j) e = ap (λ f. f.contents) (loaded_other j (other_than (s.table p j e).1))
