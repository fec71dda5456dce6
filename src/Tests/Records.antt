-- ===== src/Tests/Records.antt =====
-- Runs of the record cache's metadata and clock.
use treeline.Prelude.{ℕ, ◌≡◌, refl, arith, true, false, some, List, [], ◌∷◌}
use treeline.RecordCache.{
  Clocked, put_metadata, select_for_eviction, is_valid, is_dirty, is_delete, get_priority,
}
use treeline.RecordCache.Metadata.{
  Fields, FieldCall, valid_call, dirty_call, type_call, priority_call, increment_call,
  decrement_call, field_run, fields_run, HasFields, field_run-HasFields,
}
use treeline.RecordCache.Put.{put_metadata-HasFields}
use treeline.RecordCache.Clock.{Evicts, select_for_eviction-Evicts}

abbrev no_fields : Fields
no_fields = record { valid = false; dirty = false; deleted = false; priority = 0 }

abbrev field_calls : List FieldCall
field_calls =
    valid_call true
    ∷ dirty_call true
    ∷ priority_call 9
    ∷ increment_call
    ∷ type_call true
    ∷ decrement_call
    ∷ dirty_call false
    ∷ []

zero-HasFields : HasFields 0 no_fields
unfolding is_valid is_dirty is_delete get_priority
zero-HasFields = record {
  byte = omega arith;
  valid = refl;
  dirty = refl;
  deleted = refl;
  priority = refl;
}

field_run-HasFields_example : HasFields (field_run field_calls 0) (fields_run field_calls no_fields)
field_run-HasFields_example = field_run-HasFields field_calls 0 no_fields zero-HasFields

-- Three entries; the first without priority is dirty.
abbrev three : Clocked
three = record { metadata = 0x84 ∷ 0xC0 ∷ 0x81 ∷ []; clock = 4 }

select_for_eviction-Evicts_example :
    (i : ℕ) × (c : Clocked) × (select_for_eviction 22 three ≡ some (i, c)) × Evicts three i c
select_for_eviction-Evicts_example = select_for_eviction-Evicts 22 three (omega arith) (omega arith)

-- The hand stands at the dirty entry, and then finds none that is clean and has no priority.
select_clean :
    select_for_eviction 22 three
    ≡ some (1, record { metadata = 0x83 ∷ 0xC0 ∷ 0x80 ∷ []; clock = 8 })
unfolding select_for_eviction
select_clean = refl

-- The metadata of a deletion that was written out.
abbrev old_deletion : Fields
old_deletion = record { valid = true; dirty = false; deleted = true; priority = 0 }

old_deletion-HasFields : HasFields 0xA0 old_deletion
unfolding is_valid is_dirty is_delete get_priority
old_deletion-HasFields = record {
  byte = omega arith;
  valid = refl;
  dirty = refl;
  deleted = refl;
  priority = refl;
}

put_metadata-HasFields_example :
    HasFields
      (put_metadata 0xA0 false false false 4)
      (record { valid = true; dirty = false; deleted = true; priority = 4 })
put_metadata-HasFields_example =
    put_metadata-HasFields 0xA0 old_deletion false false false 4 old_deletion-HasFields
