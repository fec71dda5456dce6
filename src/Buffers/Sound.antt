-- ===== src/Buffers/Sound.antt =====
-- bufmgr/buffer_manager.cc: what holds between calls: the table and the frames agree, the frames that
-- are not fixed are those that can be evicted, and a page that is not dirty is as on the disk.
use treeline.Prelude.{ℕ, ◌<◌, ◌≡◌, ◌≢◌, Bool, true, false, not, ◌&&◌, ◌⊎◌, Option, none, some, ◌==◌}
use treeline.Buffers.HashQueue.{has}
use treeline.Buffers.Queues.{IsQueue}
use treeline.Buffers.Frames.{BufferFrame, invalid_page_id, TwoQueue}
use treeline.Buffers.Pool.{BufferManager}

-- Two queues of frames below `n`.
pub record AreQueues (q : TwoQueue) (n : ℕ) : Type 0 where
  pub fifo-IsQueue : IsQueue q.fifo
  pub lru-IsQueue : IsQueue q.lru
  pub fifo_bound : (i : ℕ) → has i q.fifo.items ≡ true → i < n
  pub lru_bound : (i : ℕ) → has i q.lru.items ≡ true → i < n

module _ {ℓ} {P : Type ℓ} where
  -- What a page holds for the callers: what its frame holds, or the disk.
  abbrev pub view_of : BufferManager P → ℕ → Option ℕ → P
  view_of m p none = m.disk p
  view_of m p (some i) = (m.frames i).contents

  abbrev pub view : BufferManager P → ℕ → P
  view m p = view_of m p (m.page_to_frame_map p)

  abbrev pub is_fixed : BufferFrame P → Bool
  is_fixed f = not (f.fix_count == 0)

  -- The queues hold the frame where it is not fixed, the first queue at its first time.
  pub record IsQueued (q : TwoQueue) (i : ℕ) (f : BufferFrame P) : Type 0 where
    pub in_fifo : has i q.fifo.items ≡ not (is_fixed f) && not f.been_in_lru
    pub in_lru : has i q.lru.items ≡ not (is_fixed f) && f.been_in_lru
    pub unfixed : is_fixed f ≡ false → f.been_in_fifo ≡ true
    pub later : f.been_in_lru ≡ true → f.been_in_fifo ≡ true

  -- The frame holds a page of the table, or was never used.
  abbrev pub Holds : BufferManager P → ℕ → Type 0
  Holds m i =
      (m.page_to_frame_map (m.frames i).page_id ≡ some i)
      ⊎ (((m.frames i).page_id ≡ invalid_page_id)
          × ((m.frames i).is_dirty ≡ false)
          × ((m.frames i).fix_count ≡ 0))

  -- All but the frame `but`, which is in no queue and holds no page of the table.
  pub record IsSoundBut (but : Option ℕ) (m : BufferManager P) : Type ℓ where
    pub queues : AreQueues m.strategy m.num_frames
    pub queued : (i : ℕ) → i < m.num_frames → but ≢ some i → IsQueued m.strategy i (m.frames i)
    pub holds : (i : ℕ) → i < m.num_frames → but ≢ some i → Holds m i
    pub table :
        (p i : ℕ)
        → m.page_to_frame_map p ≡ some i
        → (i < m.num_frames) × (but ≢ some i) × ((m.frames i).page_id ≡ p) × (p ≢ invalid_page_id)
    pub coherent :
        (p i : ℕ)
        → m.page_to_frame_map p ≡ some i
        → (m.frames i).is_dirty ≡ false
        → (m.frames i).contents ≡ m.disk p
    pub out :
        (i : ℕ)
        → but ≡ some i
        → (i < m.num_frames)
          × (has i m.strategy.fifo.items ≡ false)
          × (has i m.strategy.lru.items ≡ false)

  abbrev pub IsSound : BufferManager P → Type ℓ
  IsSound m = IsSoundBut none m
