-- ===== src/Buffers/Frames.antt =====
-- bufmgr/buffer_frame.{h,cc} and bufmgr/twoqueue_eviction.{h,cc}: the flags and the fix count of a frame,
-- and the two queues of frames that can be evicted. A frame is its number; the bits of its flags are
-- Booleans.
use treeline.Prelude.{ℕ, ◌+◌, ◌-◌, ◌^◌, Bool, true, false, Option, none, ◌==◌, if◌then◌else◌}
use treeline.Buffers.HashQueue.{HashQueue, empty_queue, is_empty, enqueue, dequeue, delete}

pub record BufferFrame {ℓ} (P : Type ℓ) : Type ℓ where
  pub contents : P
  pub page_id : ℕ
  pub is_dirty : Bool
  pub been_in_fifo : Bool
  pub been_in_lru : Bool
  pub is_valid : Bool
  pub fix_count : ℕ

-- `kInvalidValue`.
abbrev pub invalid_page_id : ℕ
invalid_page_id = 2 ^ 64 - 1

module _ {ℓ} {P : Type ℓ} where
  -- A new frame holds what the allocator leaves in memory.
  unfoldable pub make_frame : P → BufferFrame P
  make_frame memory = record {
    contents = memory;
    page_id = invalid_page_id;
    is_dirty = false;
    been_in_fifo = false;
    been_in_lru = false;
    is_valid = false;
    fix_count = 0;
  }

  unfoldable pub initialize : ℕ → BufferFrame P → BufferFrame P
  initialize page_id f = record f {
    page_id = page_id;
    is_dirty = false;
    been_in_fifo = false;
    been_in_lru = false;
    is_valid = true;
    fix_count = 0;
  }

  unfoldable pub inc_fix_count : BufferFrame P → BufferFrame P
  inc_fix_count f = record f { fix_count = f.fix_count + 1 }

  -- The count does not fall below 0.
  unfoldable pub dec_fix_count : BufferFrame P → BufferFrame P
  dec_fix_count f = if f.fix_count == 0 then f else record f { fix_count = f.fix_count - 1 }

  unfoldable pub unset_eviction : BufferFrame P → BufferFrame P
  unset_eviction f = record f { been_in_fifo = false; been_in_lru = false }

pub record TwoQueue : Type 0 where
  pub fifo : HashQueue
  pub lru : HashQueue

abbrev pub empty_strategy : TwoQueue
empty_strategy = record { fifo = empty_queue; lru = empty_queue }

module _ {ℓ} {P : Type ℓ} where
  unfoldable pub insert : TwoQueue → ℕ → BufferFrame P → TwoQueue × BufferFrame P
  insert q i f =
      if f.been_in_fifo
      then (record q { lru = enqueue q.lru i }, record f { been_in_lru = true })
      else (record q { fifo = enqueue q.fifo i }, record f { been_in_fifo = true })

  unfoldable pub remove : TwoQueue → ℕ → BufferFrame P → TwoQueue
  remove q i f =
      if f.been_in_lru
      then record q { lru = (delete q.lru i).1 }
      else (if f.been_in_fifo then record q { fifo = (delete q.fifo i).1 } else q)

-- The frame to evict; its eviction flags are to be unset.
unfoldable pub evict : TwoQueue → Option ℕ × TwoQueue
unfolding is_empty
evict q =
    if is_empty q.fifo
    then ((dequeue q.lru).0, record q { lru = (dequeue q.lru).1 })
    else ((dequeue q.fifo).0, record q { fifo = (dequeue q.fifo).1 })

-- bufmgr/lru_eviction.cc: one queue.
module _ {ℓ} {P : Type ℓ} where
  unfoldable pub lru_insert : HashQueue → ℕ → BufferFrame P → HashQueue × BufferFrame P
  lru_insert lru i f = (enqueue lru i, record f { been_in_lru = true })

  unfoldable pub lru_remove : HashQueue → ℕ → BufferFrame P → HashQueue
  lru_remove lru i f = if f.been_in_lru then (delete lru i).1 else lru

unfoldable pub lru_evict : HashQueue → Option ℕ × HashQueue
unfolding is_empty
lru_evict lru = if◌then◌else◌ {A = Option ℕ × HashQueue} (is_empty lru) (none, lru) (dequeue lru)
