-- ===== src/Tests/Places.antt =====
-- Runs of the segment ids, the page buffer and the free list.
use treeline.Prelude.{
  ℕ, zero, suc, ◌+◌, ◌*◌, ◌^◌, ◌<◌, ◌≡◌, refl, ◌⊎◌, none, some, List, [], ◌∷◌, ◌++◌, ◌==◌,
  if◌then◌else◌, arith,
}
use treeline.Segments.{SegmentId, get_file_id}
use treeline.PageBuffer.{PageBuffer, num_allocated_pages, allocate, free, free_unchecked}
use treeline.PageBuffer.Window.{pages, IsValid, None}
use treeline.PageBuffer.Order.{allocate_lem, free_lem}
use treeline.FreeList.{FreeList, add_impl, add_batch, get, page_count_to_segment}
use treeline.FreeList.Queues.{queue, IsFiled, add_batch-IsFiled, get_lem}

abbrev id_of : ℕ → ℕ → SegmentId
id_of file_id offset = record { value = file_id * 2 ^ 60 + offset }

-- Pages 2 and 0 are allocated, and page 1 is free.
abbrev wrapped : PageBuffer
wrapped = record { num_pages = 3; head_idx = 1; tail_idx = 2; free_pages = 1 }

wrapped-IsValid : IsValid wrapped
wrapped-IsValid = ground arith

wrapped-pages : pages wrapped ≡ 2 ∷ 0 ∷ []
wrapped-pages = refl

allocate_lem_example :
    ((wrapped.free_pages ≡ 0) × (allocate wrapped ≡ none))
    ⊎ ((p : ℕ) × (b' : PageBuffer) × (allocate wrapped ≡ some (p, b'))
        × (p < 3)
        × None p (pages wrapped)
        × (pages b' ≡ pages wrapped ++ (p ∷ []))
        × IsValid b')
allocate_lem_example = allocate_lem wrapped wrapped-IsValid

-- A full buffer.
abbrev full : PageBuffer
full = record { num_pages = 3; head_idx = 2; tail_idx = 2; free_pages = 0 }

full-IsValid : IsValid full
full-IsValid = ground arith

free_lem_example :
    ((0 < num_allocated_pages full)
      × (0 < full.free_pages)
      × (free full ≡ some (free_unchecked full)))
    ⊎ (((num_allocated_pages full ≡ 0) ⊎ (full.free_pages ≡ 0)) × (free full ≡ none))
free_lem_example = free_lem full full-IsValid

-- Two places of two pages and one of eight.
abbrev free_list : FreeList
free_list = record { list = [] ∷ (id_of 1 4 ∷ id_of 1 2 ∷ []) ∷ [] ∷ (id_of 3 0 ∷ []) ∷ [] ∷ [] }

free_list-IsFiled : IsFiled free_list
unfolding get_file_id
free_list-IsFiled zero = tt
free_list-IsFiled (suc zero) = (refl, (refl, tt))
free_list-IsFiled (suc (suc zero)) = tt
free_list-IsFiled (suc (suc (suc zero))) = (refl, tt)
free_list-IsFiled (suc (suc (suc (suc zero)))) = tt
free_list-IsFiled (suc (suc (suc (suc (suc k))))) = tt

abbrev batch : List SegmentId
batch = id_of 0 7 ∷ id_of 1 6 ∷ []

get_lem_example :
    ((queue free_list 1 ≡ []) × (get free_list 2 ≡ some (none, free_list)))
    ⊎ ((id : SegmentId) × (rest : List SegmentId) × (f' : FreeList) × (queue free_list 1
          ≡ id ∷ rest)
        × (get free_list 2 ≡ some (some id, f'))
        × ((k : ℕ) → queue f' k ≡ (if k == 1 then rest else queue free_list k)))
unfolding page_count_to_segment
get_lem_example = get_lem free_list 2 1 refl (omega arith)

abbrev with_batch : FreeList
with_batch = record {
  list =
      (id_of 0 7 ∷ []) ∷ (id_of 1 4 ∷ id_of 1 2 ∷ id_of 1 6 ∷ []) ∷ [] ∷ (id_of 3 0 ∷ []) ∷ [] ∷ [];
}

add_batch-IsFiled_example : IsFiled with_batch
unfolding add_batch add_impl get_file_id
add_batch-IsFiled_example =
    add_batch-IsFiled batch free_list with_batch (omega arith, (omega arith, tt)) refl
      free_list-IsFiled
