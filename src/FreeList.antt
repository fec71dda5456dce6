-- ===== src/FreeList.antt =====
-- page_grouping/free_list.{h,cc}, with the segment sizes of page_grouping/segment_builder.cc: the free
-- places on disk, one queue for each segment size.
pub mod Queues
use treeline.Prelude.{
  ℕ, ◌+◌, ◌<◌, Bool, true, false, Option, none, some, List, [], ◌∷◌, ◌++◌, ◌==◌, ltb, if◌then◌else◌,
  length, set, get_or, replicate,
}
use treeline.Segments.{SegmentId, get_file_id}

unfoldable pub segment_page_counts : List ℕ
segment_page_counts = 1 ∷ 2 ∷ 4 ∷ 8 ∷ 16 ∷ []

-- The lookup in the map from page counts to segment sizes; `none` is a failed lookup.
unfoldable pub page_count_to_segment : ℕ → Option ℕ
page_count_to_segment page_count =
    if page_count == 1
    then some 0
    else (if page_count == 2
        then some 1
        else (if page_count == 4
            then some 2
            else (if page_count == 8 then some 3 else (if page_count == 16 then some 4 else none))))

-- One queue for each size, its front first.
pub record FreeList : Type 0 where
  pub list : List (List SegmentId)

unfoldable pub make_free_list : FreeList
unfolding segment_page_counts
make_free_list = record { list = replicate (length segment_page_counts) [] }

-- `none` is an access out of the bounds of `list_`.
unfoldable pub add_impl : FreeList → SegmentId → Option FreeList
add_impl f id =
    let i = get_file_id id in
    if ltb i (length f.list)
    then some (record { list = set f.list i (get_or f.list i [] ++ (id ∷ [])) })
    else none

unfoldable pub add : FreeList → SegmentId → Option FreeList
unfolding add_impl
add f id = add_impl f id

unfoldable pub add_batch : FreeList → List SegmentId → Option FreeList
add_batch f [] = some f
add_batch f (id ∷ ids) = elim (add_impl f id) [ none ↦ none | some f' ↦ add_batch f' ids ]

-- What is taken from the front of a queue.
unfoldable pub take_front : FreeList → ℕ → List SegmentId → Option SegmentId × FreeList
take_front f file_id [] = (none, f)
take_front f file_id (free ∷ rest) = (some free, record { list = set f.list file_id rest })

-- `none` is a page count that is no segment size, the failed assertion; within, `none` is a list with no
-- free segment of that size.
unfoldable pub get : FreeList → ℕ → Option (Option SegmentId × FreeList)
unfolding page_count_to_segment take_front
get f page_count = elim (page_count_to_segment page_count) [
  | none ↦ none
  | some file_id ↦ some (take_front f file_id (get_or f.list file_id []))
]

abbrev pub total_entries : List (List SegmentId) → ℕ
total_entries [] = 0
total_entries (l ∷ ls) = length l + total_entries ls

unfoldable pub get_num_entries : FreeList → ℕ
get_num_entries f = total_entries f.list
