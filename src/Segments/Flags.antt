-- ===== src/Segments/Flags.antt =====
-- The overflow flag that a `SegmentInfo` keeps in the top bit of its id.
use treeline.Prelude.{◌<◌, ◌≡◌, Bool, false, Option, arith}
use treeline.Segments.{
  SegmentId, SegmentInfo, make_info, invalid_raw_id, info_id, page_count, set_overflow,
  has_overflow,
}

module _ {Line : Type 0} where
  -- For an id of a file below 8 that is not the reserved one, the info keeps the id, and marking the
  -- overflow either way is read back and changes neither the id, the page count nor the model.
  pub set_overflow_lem :
      (id : SegmentId) (model : Option Line) (overflow : Bool)
      → id.value < invalid_raw_id
      → let s = make_info id model in
        let s' = set_overflow s overflow in
        (info_id s ≡ id)
        × (has_overflow s ≡ false)
        × (has_overflow s' ≡ overflow)
        × (info_id s' ≡ id)
        × (page_count s' ≡ page_count s)
        × (s'.model ≡ model)
  unfolding make_info info_id page_count set_overflow has_overflow
  set_overflow_lem id model overflow small = ground arith

  -- Unmarking brings the info back, whatever was marked before.
  pub set_overflow-set_overflow :
      (s : SegmentInfo Line) (a b : Bool) → set_overflow (set_overflow s a) b ≡ set_overflow s b
  unfolding set_overflow
  set_overflow-set_overflow s a b = ground arith
