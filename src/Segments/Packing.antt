-- ===== src/Segments/Packing.antt =====
-- The packed segment id: its fields can be read back, and which fields are refused.
use treeline.Prelude.{ℕ, ◌+◌, ◌≤◌, ◌<◌, ◌≡◌, ◌⊎◌, ◌↔◌, true, none, some, arith}
use treeline.Segments.{
  SegmentId, make_segment_id, set_offset, set_file_id, get_file_id, get_offset, is_valid,
  offset_unit, word,
}

-- A made id is valid and 64 bits wide, and its fields are the ones that were given.
pub make_segment_id_fields :
    (file_id offset : ℕ) {id : SegmentId}
    → make_segment_id file_id offset ≡ some id
    → (get_file_id id ≡ file_id)
      × (get_offset id ≡ offset)
      × (is_valid id ≡ true)
      × (id.value < word)
unfolding make_segment_id get_file_id get_offset is_valid
make_segment_id_fields file_id offset h = ground arith

-- Refused are exactly a file id of more than 4 bits, an offset of more than 60 bits, and the pair of
-- the largest file id and the largest offset.
pub make_segment_id_refuses :
    (file_id offset : ℕ)
    → (make_segment_id file_id offset ≡ none)
      ↔ ((16 ≤ file_id) ⊎ (offset_unit ≤ offset) ⊎ ((file_id ≡ 15) × (offset + 1 ≡ offset_unit)))
unfolding make_segment_id
make_segment_id_refuses file_id offset = ground arith

-- A setter that succeeds changes its own field only.
pub set_offset_lem :
    (id id' : SegmentId) (offset : ℕ)
    → set_offset id offset ≡ some id'
    → (get_offset id' ≡ offset) × (get_file_id id' ≡ get_file_id id) × (is_valid id' ≡ true)
unfolding set_offset get_file_id get_offset is_valid
set_offset_lem id id' offset h = ground arith

pub set_file_id_lem :
    (id id' : SegmentId) (file_id : ℕ)
    → set_file_id id file_id ≡ some id'
    → (get_file_id id' ≡ file_id) × (get_offset id' ≡ get_offset id) × (is_valid id' ≡ true)
unfolding set_file_id get_file_id get_offset is_valid
set_file_id_lem id id' file_id h = ground arith

-- The fields of a valid 64-bit id make up that id.
pub make-get :
    (id : SegmentId)
    → id.value < word
    → is_valid id ≡ true
    → make_segment_id (get_file_id id) (get_offset id) ≡ some id
unfolding make_segment_id get_file_id get_offset is_valid
make-get id small v = ground arith
