-- ===== src/Segments.antt =====
-- page_grouping/persist/segment_id.{h,cc} and page_grouping/segment_info.h: where a segment lies on
-- disk, packed in one 64-bit word, and what the index keeps of a segment.
pub mod Packing
pub mod Flags
use treeline.Prelude.{
  ℕ, ◌+◌, ◌-◌, ◌*◌, ◌/◌, ◌%◌, ◌^◌, Bool, true, false, ◌&&◌, not, Option, none, some, ◌==◌, ltb, leb,
  if◌then◌else◌,
}

-- The low `offset_bits_` = 60 bits are the offset in pages, the high 4 bits the file id. A mask of low
-- bits is a remainder, a shift a quotient or a product, and `|` of disjoint bits a sum.
abbrev pub offset_unit : ℕ
offset_unit = 2 ^ 60

abbrev pub word : ℕ
word = 2 ^ 64

abbrev pub invalid_value : ℕ
invalid_value = 2 ^ 64 - 1

pub record SegmentId : Type 0 where
  pub value : ℕ

unfoldable pub invalid_id : SegmentId
invalid_id = record { value = invalid_value }

abbrev pub check_file_id : ℕ → Bool
check_file_id file_id = ltb file_id 16

abbrev pub check_offset : ℕ → Bool
check_offset offset = ltb offset offset_unit

abbrev pub check_valid : ℕ → Option SegmentId
check_valid temp_value =
    if temp_value == invalid_value then none else some (record { value = temp_value })

-- The constructor and the two setters; `none` is the exception of a failed check.
unfoldable pub make_segment_id : ℕ → ℕ → Option SegmentId
make_segment_id file_id offset =
    if check_file_id file_id && check_offset offset
    then check_valid (offset % offset_unit + file_id * offset_unit % word)
    else none

unfoldable pub set_offset : SegmentId → ℕ → Option SegmentId
set_offset id offset =
    if check_offset offset
    then check_valid (id.value - id.value % offset_unit + offset % offset_unit)
    else none

unfoldable pub set_file_id : SegmentId → ℕ → Option SegmentId
set_file_id id file_id =
    if check_file_id file_id
    then check_valid (id.value % offset_unit + file_id * offset_unit % word)
    else none

unfoldable pub get_file_id : SegmentId → ℕ
get_file_id id = id.value / offset_unit

unfoldable pub get_offset : SegmentId → ℕ
get_offset id = id.value % offset_unit

unfoldable pub is_valid : SegmentId → Bool
is_valid id = not (id.value == invalid_value)

-- `SegmentInfo`: 63 bits of the id, with the most significant bit for an overflow, and the model of the
-- segment, a line over floats that is only passed on.
abbrev pub overflow_unit : ℕ
overflow_unit = 2 ^ 63

abbrev pub invalid_raw_id : ℕ
invalid_raw_id = 2 ^ 63 - 1

pub record SegmentInfo (Line : Type 0) : Type 0 where
  pub raw_id : ℕ
  pub model : Option Line

module _ {Line : Type 0} where
  unfoldable pub make_info : SegmentId → Option Line → SegmentInfo Line
  make_info id model = record { raw_id = id.value % overflow_unit; model = model }

  unfoldable pub invalid_info : SegmentInfo Line
  invalid_info = record { raw_id = invalid_raw_id; model = none }

  unfoldable pub info_id : SegmentInfo Line → SegmentId
  unfolding invalid_id
  info_id s =
      if s.raw_id == invalid_raw_id then invalid_id else record { value = s.raw_id % overflow_unit }

  unfoldable pub page_count : SegmentInfo Line → ℕ
  unfolding get_file_id info_id
  page_count s = 2 ^ get_file_id (info_id s) % word

  unfoldable pub set_overflow : SegmentInfo Line → Bool → SegmentInfo Line
  set_overflow s overflow =
      let kept = s.raw_id % overflow_unit in
      record s { raw_id = if overflow then kept + overflow_unit else kept }

  unfoldable pub has_overflow : SegmentInfo Line → Bool
  has_overflow s = leb overflow_unit s.raw_id
