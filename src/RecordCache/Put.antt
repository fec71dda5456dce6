-- ===== src/RecordCache/Put.antt =====
-- record_cache/record_cache.cc: the metadata that `Put` leaves.
use treeline.Prelude.{ℕ, ◌≡◌, ap, subst, Bool, true, false, ◌||◌, if◌then◌else◌, min}
use treeline.RecordCache.{put_metadata, set_valid_to, set_dirty_to, is_dirty, set_write_type}
use treeline.RecordCache.Metadata.{
  Fields, valid_call, dirty_call, type_call, priority_call, HasFields, call-HasFields,
}

by_type :
    (m : ℕ) (f : Fields)
    → HasFields m f
    → (dirty is_delete : Bool)
    → HasFields
        (if dirty then set_write_type m is_delete else m)
        (record f { deleted = if dirty then is_delete else f.deleted })
by_type m f h true is_delete = call-HasFields m f h (type_call is_delete)
by_type m f h false is_delete = h

-- `Put` leaves a valid entry with the given priority, at most 7; the entry is dirty if the write is, or if
-- it held the key and was dirty; and its write type is that of a dirty write, and otherwise the one that
-- the entry had before, also where the entry held another key.
pub put_metadata-HasFields :
    (m : ℕ) (f : Fields) (found dirty is_delete : Bool) (priority : ℕ)
    → HasFields m f
    → HasFields (put_metadata m found dirty is_delete priority) (record {
      valid = true;
      dirty = if found then dirty || f.dirty else dirty;
      deleted = if dirty then is_delete else f.deleted;
      priority = min priority 7;
    })
unfolding put_metadata
put_metadata-HasFields m f found dirty is_delete priority h =
    let v = call-HasFields m f h (valid_call true) in
    let marks = if found then dirty || is_dirty (set_valid_to m true) else dirty in
    let d = call-HasFields (set_valid_to m true) (record f { valid = true }) v (dirty_call marks) in
    let marked = set_dirty_to (set_valid_to m true) marks in
    let same : marks ≡ (if found then dirty || f.dirty else dirty) =
      ap (λ b. if found then dirty || b else dirty) v.dirty in
    let typed = by_type marked (record f { valid = true; dirty = marks }) d dirty is_delete in
    subst
      (λ b. HasFields (put_metadata m found dirty is_delete priority) (record {
        valid = true;
        dirty = b;
        deleted = if dirty then is_delete else f.deleted;
        priority = min priority 7;
      }))
      same (call-HasFields _ _ typed (priority_call priority))
