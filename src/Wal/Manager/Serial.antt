-- ===== src/Wal/Manager/Serial.antt =====
-- wal/manager.cc: the form of a record in the log, there and back.
use treeline.Prelude.{
  ℕ, ◌+◌, ◌*◌, ◌^◌, ◌≤◌, ◌<◌, ◌≡◌, refl, ap, false, Option, some, List, [], ◌∷◌, ◌++◌, ltb, arith,
  length, length-append, All, map,
}
use mathlib.Core.List.{append_assoc}
use treeline.Coding.{put_varint32, get_varint32, encode_varint32}
use treeline.Coding.Varint.{get-encode_varint32, length-encode_varint32}
use treeline.Coding.Prefixed.{take-length_append, drop-length_append}
use treeline.Wal.Manager.{
  WriteType, write_type, delete_type, byte_of_write, write_of_byte, LogRecord, serialize,
  split_record, parse_key, parse_entry, ok, posix_error, Status,
}
use treeline.Wal.Manager.Replay.{
  Callback, deliver, deliver_entries, handle_entry, and_then, when_ok,
}

not_shorter : (a b : ℕ) → ltb (a + b) a ≡ false
not_shorter a b = ground arith

write_of-byte_of : (t : WriteType) → write_of_byte (byte_of_write t) ≡ some t
unfolding write_of_byte byte_of_write
write_of-byte_of write_type = refl
write_of-byte_of delete_type = refl

split-joined :
    (t : WriteType) (key value : List ℕ)
    → split_record t (length key, key ++ value)
      ≡ some (record { key = key; value = value; type = t })
unfolding split_record
split-joined t key value =
    rw
      (
        length-append key value,
        not_shorter,
        take-length_append key value,
        drop-length_append key value,
      )
      refl

parse-joined :
    (t : WriteType) (key value : List ℕ)
    → length key < 2 ^ 32
    → parse_key t (encode_varint32 (length key) ++ (key ++ value))
      ≡ some (record { key = key; value = value; type = t })
unfolding parse_key get_varint32
parse-joined t key value h =
    rw (get-encode_varint32 (length key) (key ++ value) h, parse_key) (split-joined t key value)

-- A record whose key's length has 32 bits is read back from its serialized form.
pub parse_entry-serialize :
    (r : LogRecord) → length r.key < 2 ^ 32 → parse_entry (serialize r) ≡ some (some r)
unfolding parse_entry serialize put_varint32
parse_entry-serialize r h =
    rw (append_assoc (encode_varint32 (length r.key)) r.key r.value)
      (rw (write_of-byte_of r.type, parse_entry) (ap some (parse-joined r.type r.key r.value h)))

length-serialize : (r : LogRecord) → length (serialize r) ≤ 6 + (length r.key + length r.value)
unfolding serialize put_varint32
length-serialize r = omega (
  arith,
  length-append (encode_varint32 (length r.key) ++ r.key) r.value,
  length-append (encode_varint32 (length r.key)) r.key,
  length-encode_varint32 (length r.key),
)

-- A key whose length has 32 bits, and fuel to read the record in fragments.
abbrev pub Fits : ℕ → LogRecord → Type 0
Fits fuel r = (length r.key < 2 ^ 32) × (2 * (6 + (length r.key + length r.value)) + 2 ≤ fuel)

pub enough-Fits :
    (fuel : ℕ) (rs : List LogRecord)
    → All (Fits fuel) rs
    → All (λ payload. 2 * length payload + 2 ≤ fuel) (map serialize rs)
enough-Fits fuel [] h = tt
enough-Fits fuel (r ∷ rs) h = (omega (arith, length-serialize r), enough-Fits fuel rs h.1)

module _ {ℓ} {S : Type ℓ} where
  pub and_then-some :
      (next : S → Option (Status × S)) (next' : S → Status × S) (p : Status × S)
      → ((s : S) → next s ≡ some (next' s))
      → and_then next p ≡ some (when_ok next' p)
  and_then-some next next' (ok, s) same = same s
  and_then-some next next' (posix_error e, s) same = refl

  pub deliver-serialized :
      (callback : Callback S) (fuel : ℕ) (rs : List LogRecord) (s : S)
      → All (Fits fuel) rs
      → deliver_entries callback (map serialize rs) s ≡ some (deliver callback rs s)
  unfolding handle_entry
  deliver-serialized callback fuel [] s h = refl
  deliver-serialized callback fuel (r ∷ rs) s h =
      rw (parse_entry-serialize r h.0.0, handle_entry)
        (and_then-some _ _ (callback r s) (λ s'. deliver-serialized callback fuel rs s' h.1))
