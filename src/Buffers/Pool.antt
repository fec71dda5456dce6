-- ===== src/Buffers/Pool.antt =====
-- bufmgr/buffer_manager.{h,cc}: the frames, the table of the pages that they hold, and the disk.
-- One thread: each call runs whole, and the latch of a frame is left out. The file manager is the disk
-- `disk` and the pages that are allocated on it; reading or writing another page throws.
use treeline.Prelude.{
  update, ℕ, zero, suc, ◌+◌, Bool, true, false, Option, none, some, List, [], ◌∷◌, ◌==◌,
  if◌then◌else◌,
}
use treeline.Buffers.Frames.{
  BufferFrame, make_frame, initialize, inc_fix_count, dec_fix_count, unset_eviction, TwoQueue,
  empty_strategy, insert, remove, evict,
}

pub record BufferManager {ℓ} (P : Type ℓ) : Type ℓ where
  pub frames : ℕ → BufferFrame P
  -- The number of frames that were made; the next frame.
  pub num_frames : ℕ
  pub page_to_frame_map : ℕ → Option ℕ
  pub strategy : TwoQueue
  pub buffer_manager_size : ℕ
  pub num_fixes : ℕ
  pub num_misses : ℕ
  pub disk : ℕ → P

-- What a call comes to: a value, waiting for another thread, or an exception.
pub data Outcome {ℓ} (A : Type ℓ) : Type ℓ where
  returns : A → Outcome A
  waits : Outcome A
  throws : Outcome A

-- Goes on with `next` where a value is returned.
abbrev pub then_do {ℓ κ} : {A : Type ℓ} {B : Type κ} → (A → Outcome B) → Outcome A → Outcome B
then_do next (returns a) = next a
then_do next waits = waits
then_do next throws = throws

module _ {ℓ} {P : Type ℓ} where
  abbrev pub set_frame : BufferManager P → ℕ → BufferFrame P → BufferManager P
  set_frame m i f = record m { frames = update m.frames i f }

  -- A new frame, which can be evicted at once.
  unfoldable pub add_frame : P → BufferManager P → BufferManager P
  unfolding insert make_frame
  add_frame memory m =
      let (strategy, f) = insert m.strategy m.num_frames (make_frame memory) in
      record m {
        frames = update m.frames m.num_frames f;
        num_frames = m.num_frames + 1;
        strategy = strategy;
      }

  unfoldable pub add_frames : P → ℕ → BufferManager P → BufferManager P
  unfolding add_frame
  add_frames memory zero m = m
  add_frames memory (suc n) m = add_frames memory n (add_frame memory m)

  unfoldable pub make_buffer_manager : P → ℕ → (ℕ → P) → BufferManager P
  unfolding add_frames make_frame
  make_buffer_manager memory size disk = add_frames memory size (record {
    frames = λ i. make_frame memory;
    num_frames = 0;
    page_to_frame_map = λ p. none;
    strategy = empty_strategy;
    buffer_manager_size = size;
    num_fixes = 0;
    num_misses = 0;
    disk = disk;
  })

  unfoldable pub contains_page : BufferManager P → ℕ → Bool
  contains_page m page_id = elim (m.page_to_frame_map page_id) [ none ↦ false | some i ↦ true ]

  unfoldable pub take_evicted : BufferManager P → Option ℕ × TwoQueue → Option (ℕ × BufferManager P)
  unfolding unset_eviction
  take_evicted m (none, strategy) = none
  take_evicted m (some i, strategy) = some (
    i,
    record m {
      strategy = strategy;
      frames = update m.frames i (unset_eviction (m.frames i));
      page_to_frame_map = update m.page_to_frame_map (m.frames i).page_id none;
    },
  )

  -- The frame that is evicted leaves the table.
  unfoldable pub take_frame : BufferManager P → Option (ℕ × BufferManager P)
  unfolding evict take_evicted
  take_frame m = take_evicted m (evict m.strategy)

  unfoldable pub fix_found : BufferManager P → ℕ → BufferManager P
  unfolding inc_fix_count remove
  fix_found m i =
      let f = inc_fix_count (m.frames i) in
      record m {
        frames = update m.frames i f;
        strategy = if f.fix_count == 1 then remove m.strategy i f else m.strategy;
        num_fixes = m.num_fixes + 1;
      }

  -- A page that is fixed can be evicted once its last fix is given up.
  unfoldable pub unfix_page : BufferManager P → ℕ → Bool → BufferManager P
  unfolding dec_fix_count insert
  unfix_page m i is_dirty =
      let marked = if is_dirty then record (m.frames i) { is_dirty = true } else m.frames i in
      let f = dec_fix_count marked in
      if f.fix_count == 0
      then record m {
        frames = update m.frames i (insert m.strategy i f).1;
        strategy = (insert m.strategy i f).0;
      }
      else set_frame m i f

  -- `none` is the simulation mode, which has no file manager.
  module _ (file_manager : Option (ℕ → Bool)) where
    unfoldable pub write_page_out : BufferManager P → ℕ → Outcome (BufferManager P)
    write_page_out m i = elim file_manager [
      | none ↦ returns m
      | some allocated ↦
          let f = m.frames i in
          if allocated f.page_id
          then returns (record m { disk = update m.disk f.page_id f.contents })
          else throws
    ]

    unfoldable pub read_page_in : BufferManager P → ℕ → Outcome (BufferManager P)
    read_page_in m i = elim file_manager [
      | none ↦ returns m
      | some allocated ↦
          let f = m.frames i in
          if allocated f.page_id
          then returns (set_frame m i (record f { contents = m.disk f.page_id }))
          else throws
    ]

    abbrev pub mark_clean : ℕ → BufferManager P → Outcome (BufferManager P)
    mark_clean i m = returns (set_frame m i (record (m.frames i) { is_dirty = false }))

    -- The page that an evicted frame holds goes to the disk where it is dirty.
    unfoldable pub clean_frame : BufferManager P → ℕ → Outcome (BufferManager P)
    unfolding write_page_out
    clean_frame m i =
        if (m.frames i).is_dirty then then_do (mark_clean i) (write_page_out m i) else returns m

    unfoldable pub load_page : BufferManager P → ℕ → ℕ → Bool → Outcome (BufferManager P)
    unfolding initialize inc_fix_count read_page_in
    load_page m i page_id is_newly_allocated =
        let m' = set_frame m i (inc_fix_count (initialize page_id (m.frames i))) in
        if is_newly_allocated then returns m' else read_page_in m' i

    -- The statistics are counted last.
    unfoldable pub finish_miss : ℕ → ℕ → BufferManager P → Outcome (Option ℕ × BufferManager P)
    finish_miss i page_id m = returns (
      some i,
      record m {
        page_to_frame_map = update m.page_to_frame_map page_id (some i);
        num_misses = m.num_misses + 1;
        num_fixes = m.num_fixes + 1;
      },
    )

    unfoldable pub fill_frame :
        ℕ → Bool → ℕ × BufferManager P → Outcome (Option ℕ × BufferManager P)
    unfolding clean_frame load_page finish_miss
    fill_frame page_id is_newly_allocated (i, m) =
        then_do (finish_miss i page_id)
          (then_do (λ m'. load_page m' i page_id is_newly_allocated) (clean_frame m i))

    -- The frame, or `none` where the caller does not wait for one; with no other thread waiting is for
    -- ever.
    unfoldable pub fix_page_impl :
        BufferManager P → ℕ → Bool → Bool → Outcome (Option ℕ × BufferManager P)
    unfolding take_frame fill_frame fix_found
    fix_page_impl m page_id abort_if_no_frames is_newly_allocated =
        elim (m.page_to_frame_map page_id) [
          | some i ↦ returns (some i, fix_found m i)
          | none ↦ elim (take_frame m) [
            | some taken ↦ fill_frame page_id is_newly_allocated taken
            | none ↦ if abort_if_no_frames then returns (none, m) else waits
          ]
        ]

    abbrev pub fix_page : BufferManager P → ℕ → Bool → Outcome (Option ℕ × BufferManager P)
    fix_page m page_id is_newly_allocated = fix_page_impl m page_id false is_newly_allocated

    unfoldable pub flush_and_unfix_page : BufferManager P → ℕ → Outcome (BufferManager P)
    unfolding write_page_out unfix_page
    flush_and_unfix_page m i = then_do (λ m'. returns (unfix_page m' i false)) (write_page_out m i)

    -- The loop over the table, whose pages come in the order of its buckets.
    unfoldable pub flush_pages : List ℕ → BufferManager P → Outcome (BufferManager P)
    unfolding clean_frame
    flush_pages [] m = returns m
    flush_pages (page_id ∷ pages) m = elim (m.page_to_frame_map page_id) [
      | none ↦ flush_pages pages m
      | some i ↦ then_do (flush_pages pages) (clean_frame m i)
    ]
