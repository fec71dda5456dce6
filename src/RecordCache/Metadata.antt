-- ===== src/RecordCache/Metadata.antt =====
-- record_cache/record_cache_entry.cc: the fields of the metadata byte do not touch one another.
use treeline.Prelude.{
  ℕ, ◌+◌, ◌-◌, ◌/◌, ◌%◌, ◌<◌, ◌≡◌, ◌∙◌, arith, Bool, true, false, min, List, [], ◌∷◌,
}
use treeline.RecordCache.{
  set_valid_to, is_valid, set_dirty_to, is_dirty, set_write_type, is_delete, get_priority,
  set_priority_to, increment_priority, decrement_priority,
}

pub record Fields : Type 0 where
  pub valid : Bool
  pub dirty : Bool
  pub deleted : Bool
  pub priority : ℕ

pub data FieldCall : Type 0 where
  valid_call dirty_call type_call : Bool → FieldCall
  priority_call : ℕ → FieldCall
  increment_call decrement_call : FieldCall

abbrev pub field_call : FieldCall → ℕ → ℕ
field_call (valid_call val) m = set_valid_to m val
field_call (dirty_call val) m = set_dirty_to m val
field_call (type_call is_delete) m = set_write_type m is_delete
field_call (priority_call priority) m = (set_priority_to m priority).1
field_call increment_call m = (increment_priority m false).1
field_call decrement_call m = (decrement_priority m false).1

-- The same on the fields; a priority stops at 7 and at 0.
abbrev pub fields_call : FieldCall → Fields → Fields
fields_call (valid_call val) f = record f { valid = val }
fields_call (dirty_call val) f = record f { dirty = val }
fields_call (type_call is_delete) f = record f { deleted = is_delete }
fields_call (priority_call priority) f = record f { priority = min priority 7 }
fields_call increment_call f = record f { priority = min (f.priority + 1) 7 }
fields_call decrement_call f = record f { priority = f.priority - 1 }

abbrev pub field_run : List FieldCall → ℕ → ℕ
field_run [] m = m
field_run (call ∷ calls) m = field_run calls (field_call call m)

abbrev pub fields_run : List FieldCall → Fields → Fields
fields_run [] f = f
fields_run (call ∷ calls) f = fields_run calls (fields_call call f)

-- The byte has the fields.
pub record HasFields (m : ℕ) (f : Fields) : Type 0 where
  pub byte : m < 256
  pub valid : is_valid m ≡ f.valid
  pub dirty : is_dirty m ≡ f.dirty
  pub deleted : is_delete m ≡ f.deleted
  pub priority : get_priority m ≡ f.priority

module _ (m : ℕ) (f : Fields) (h : HasFields m f) where
  valid-HasFields : (val : Bool) → HasFields (set_valid_to m val) (record f { valid = val })
  unfolding set_valid_to is_valid is_dirty is_delete get_priority
  valid-HasFields true = record {
    byte = omega (arith, h.byte);
    valid = ground (arith, h.byte);
    dirty = ground (arith, h.byte) ∙ h.dirty;
    deleted = ground (arith, h.byte) ∙ h.deleted;
    priority = omega (arith, h.byte, h.priority);
  }
  valid-HasFields false = record {
    byte = omega (arith, h.byte);
    valid = ground (arith, h.byte);
    dirty = ground (arith, h.byte) ∙ h.dirty;
    deleted = ground (arith, h.byte) ∙ h.deleted;
    priority = omega (arith, h.byte, h.priority);
  }

  dirty-HasFields : (val : Bool) → HasFields (set_dirty_to m val) (record f { dirty = val })
  unfolding set_dirty_to is_valid is_dirty is_delete get_priority
  dirty-HasFields true = record {
    byte = omega (arith, h.byte);
    valid = ground (arith, h.byte) ∙ h.valid;
    dirty = ground (arith, h.byte);
    deleted = ground (arith, h.byte) ∙ h.deleted;
    priority = omega (arith, h.byte, h.priority);
  }
  dirty-HasFields false = record {
    byte = omega (arith, h.byte);
    valid = ground (arith, h.byte) ∙ h.valid;
    dirty = ground (arith, h.byte);
    deleted = ground (arith, h.byte) ∙ h.deleted;
    priority = omega (arith, h.byte, h.priority);
  }

  type-HasFields : (val : Bool) → HasFields (set_write_type m val) (record f { deleted = val })
  unfolding set_write_type is_valid is_dirty is_delete get_priority
  type-HasFields true = record {
    byte = omega (arith, h.byte);
    valid = ground (arith, h.byte) ∙ h.valid;
    dirty = ground (arith, h.byte) ∙ h.dirty;
    deleted = ground (arith, h.byte);
    priority = omega (arith, h.byte, h.priority);
  }
  type-HasFields false = record {
    byte = omega (arith, h.byte);
    valid = ground (arith, h.byte) ∙ h.valid;
    dirty = ground (arith, h.byte) ∙ h.dirty;
    deleted = ground (arith, h.byte);
    priority = omega (arith, h.byte, h.priority);
  }

  -- Only the three lowest bits change.
  low_bits :
      (m' priority : ℕ)
      → m' / 8 ≡ m / 8
      → m' % 8 ≡ priority
      → HasFields m' (record f { priority = priority })
  unfolding is_valid is_dirty is_delete get_priority
  low_bits m' priority high low = record {
    byte = omega (arith, h.byte);
    valid = ground (arith, h.byte) ∙ h.valid;
    dirty = ground (arith, h.byte) ∙ h.dirty;
    deleted = ground (arith, h.byte) ∙ h.deleted;
    priority = low;
  }

  pub call-HasFields : (call : FieldCall) → HasFields (field_call call m) (fields_call call f)
  unfolding set_priority_to increment_priority decrement_priority get_priority
  call-HasFields (valid_call val) = valid-HasFields val
  call-HasFields (dirty_call val) = dirty-HasFields val
  call-HasFields (type_call val) = type-HasFields val
  call-HasFields (priority_call priority) =
      low_bits _ (min priority 7) (ground arith) (ground arith)
  call-HasFields increment_call =
      low_bits _ (min (f.priority + 1) 7) (ground arith) (ground (arith, h.priority))
  call-HasFields decrement_call =
      low_bits _ (f.priority - 1) (ground arith) (ground (arith, h.priority))

-- Any calls on a metadata byte leave a byte whose fields are those of the calls on the fields alone: no
-- call touches another field, and a priority stays between 0 and 7.
pub field_run-HasFields :
    (calls : List FieldCall) (m : ℕ) (f : Fields)
    → HasFields m f
    → HasFields (field_run calls m) (fields_run calls f)
field_run-HasFields [] m f h = h
field_run-HasFields (call ∷ calls) m f h =
    field_run-HasFields calls (field_call call m) (fields_call call f) (call-HasFields m f h call)
