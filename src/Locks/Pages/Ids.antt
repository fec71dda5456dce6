-- ===== src/Locks/Pages/Ids.antt =====
-- The ids of page locks: a page of a segment is named by its place on disk.
use treeline.Prelude.{ℕ, ◌+◌, ◌<◌, ◌≡◌, some, arith}
use treeline.Segments.{SegmentId, make_segment_id, offset_unit}
use treeline.Locks.Pages.{page_lock_id}

-- Two pages of made segments that end within the offset's 60 bits have the same lock id only if they are
-- the same page of the same file.
pub page_lock_id_injective :
    (file file' offset offset' page page' : ℕ) (id id' : SegmentId)
    → make_segment_id file offset ≡ some id
    → make_segment_id file' offset' ≡ some id'
    → offset + page < offset_unit
    → offset' + page' < offset_unit
    → page_lock_id id.value page ≡ page_lock_id id'.value page'
    → (file ≡ file') × (offset + page ≡ offset' + page')
unfolding make_segment_id page_lock_id
page_lock_id_injective file file' offset offset' page page' id id' made made' fits fits' same =
    ground arith
