-- ===== src/Wal/Ends.antt =====
-- Reading an entry ends, whatever bytes the log holds.
use treeline.Prelude.{
  ℕ, zero, suc, ◌+◌, ◌≤◌, ◌<◌, ◌≡◌, refl, ◌≢◌, ◌⊎◌, inl, inr, Bool, true, false, ◌&&◌, not, none,
  some, List, [], ltb, ◌==◌, if◌then◌else◌, arith, length, drop, get_or, length-take, length-drop,
  Bool-cases, Option-cases,
}
use treeline.Wal.Format.{
  RecordType, zero_type, full_type, first_type, middle_type, last_type, eof_type, bad_record,
  header_size, type_of_byte, Crc,
}
use treeline.Wal.Reader.{
  Reader, Reason, minus, report_corruption, clear, is_zero_type, Physical, skip_to_initial_block,
  read_next_block, reject, record_length, checksum_matches, accept, check_record, parse_record,
  read_physical_record, bad_length,
}
use treeline.Wal.Entries.{
  Progress, Entry, no_progress, dispatch, resync, handle_record, read_entry_loop, read_entry,
  report_partial,
}

-- The bytes that are not used yet.
abbrev pub size : Reader → ℕ
size r = length r.buffer + length r.file

size-report :
    (r : Reader) (bytes : ℕ) (reason : Reason) → size (report_corruption r bytes reason) ≡ size r
unfolding report_corruption
size-report r bytes reason = ground arith

size-either : (b : Bool) (r r' : Reader) → size r' ≡ size r → size (if b then r' else r) ≡ size r
size-either true r r' e = e
size-either false r r' e = refl

size-or : (b : Bool) (r r' : Reader) → size r' ≡ size r → size (if b then r else r') ≡ size r
size-or true r r' e = refl
size-or false r r' e = e

size-partial : (r : Reader) (p : Progress) → size (report_partial r p) ≡ size r
unfolding report_partial
size-partial r p = size-either _ r _ (size-report r _ _)

-- A record that was read is the end, or used bytes up.
record Uses (n : ℕ) (physical : Physical) : Type 0 where
  spent : (physical.0 ≡ eof_type) ⊎ (size physical.2 < n)

abbrev pub Ends : Entry → Type 0
Ends none = ⊥
Ends (some e) = Unit {0}

module _ (n : ℕ) (again : Reader → Progress → Entry)
    (ends : (r : Reader) (p : Progress) → size r < n → Ends (again r p)) where
  again-Ends :
      (t : RecordType) (r r' : Reader) (p : Progress)
      → t ≢ eof_type
      → (t ≡ eof_type) ⊎ (size r < n)
      → size r' ≡ size r
      → Ends (again r' p)
  again-Ends t r r' p other h e = elim h [
    | inl end ↦ absurd (other end)
    | inr less ↦ ends r' p (omega arith)
  ]

  dispatch-Ends :
      (offset : ℕ) (t : RecordType) (fragment : List ℕ) (r : Reader) (p : Progress)
      → (t ≡ eof_type) ⊎ (size r < n)
      → Ends (dispatch again offset t fragment r p)
  unfolding dispatch
  dispatch-Ends offset zero_type fragment r p h =
      again-Ends zero_type r _ _ (λ e. cc) h (size-report r _ _)
  dispatch-Ends offset full_type fragment r p h = tt
  dispatch-Ends offset first_type fragment r p h =
      again-Ends first_type r _ _ (λ e. cc) h (size-partial r p)
  dispatch-Ends offset middle_type fragment r p h =
      again-Ends middle_type r _ _ (λ e. cc) h (size-or _ r _ (size-report r _ _))
  dispatch-Ends offset last_type fragment r p h = elim (Bool-cases p.in_fragmented_record) [
    | inl begun ↦ rw begun tt
    | inr lost ↦ rw lost (again-Ends last_type r _ _ (λ e. cc) h (size-report r _ _))
  ]
  dispatch-Ends offset eof_type fragment r p h = tt
  dispatch-Ends offset bad_record fragment r p h =
      again-Ends bad_record r _ _ (λ e. cc) h (size-either _ r _ (size-report r _ _))

  resync-Ends :
      (offset : ℕ) (t : RecordType) (fragment : List ℕ) (r : Reader) (p : Progress)
      → (t ≡ eof_type) ⊎ (size r < n)
      → Ends (resync again offset t fragment r p)
  unfolding resync
  resync-Ends offset middle_type fragment r p h = again-Ends middle_type r r p (λ e. cc) h refl
  resync-Ends offset last_type fragment r p h =
      again-Ends last_type r (record r { resyncing = false }) p (λ e. cc) h refl
  resync-Ends offset zero_type fragment r p h =
      dispatch-Ends offset zero_type fragment (record r { resyncing = false }) p h
  resync-Ends offset full_type fragment r p h =
      dispatch-Ends offset full_type fragment (record r { resyncing = false }) p h
  resync-Ends offset first_type fragment r p h =
      dispatch-Ends offset first_type fragment (record r { resyncing = false }) p h
  resync-Ends offset eof_type fragment r p h =
      dispatch-Ends offset eof_type fragment (record r { resyncing = false }) p h
  resync-Ends offset bad_record fragment r p h =
      dispatch-Ends offset bad_record fragment (record r { resyncing = false }) p h

  handle-Ends :
      (physical : Physical) (p : Progress) → Uses n physical → Ends (handle_record again physical p)
  unfolding handle_record
  handle-Ends (t, fragment, r) p h =
      let offset =
        minus (minus (minus r.end_of_buffer_offset (length r.buffer)) header_size)
          (length fragment) in
      elim r.resyncing
        as (λ q. Ends (elim q [
          | true ↦ resync again offset t fragment r p
          | false ↦ dispatch again offset t fragment r p
        ])) [
          | true ↦ resync-Ends offset t fragment r p h.spent
          | false ↦ dispatch-Ends offset t fragment r p h.spent
        ]

Uses-if :
    (n : ℕ) (b : Bool) (x y : Physical)
    → (b ≡ true → Uses n x)
    → (b ≡ false → Uses n y)
    → Uses n (if b then x else y)
Uses-if n true x y f g = f refl
Uses-if n false x y f g = g refl

ltb-false : (a b : ℕ) → ltb a b ≡ false → b ≤ a
ltb-false a b h = ground arith

module _ (c : Crc) (block_size : ℕ) (checks : Bool) where
  reject-Uses :
      (r : Reader) (bytes : ℕ) (reason : Reason)
      → 7 ≤ length r.buffer
      → Uses (size r) (reject c block_size checks r bytes reason)
  unfolding reject
  reject-Uses r bytes reason h = record {
    spent = inr (omega (arith, size-report (clear r) bytes reason));
  }

  accept-Uses :
      (r : Reader) (t : RecordType) (len : ℕ)
      → 7 ≤ length r.buffer
      → Uses (size r) (accept c block_size checks r t len)
  unfolding accept
  accept-Uses r t len h =
      let less = length-drop (7 + len) r.buffer in
      let start =
        minus
          (minus (minus r.end_of_buffer_offset (length (drop (header_size + len) r.buffer)))
            header_size)
          len in
      elim (Bool-cases (ltb start r.initial_offset)) [
        | inl early ↦ rw early (record { spent = inr (omega (arith, less)) })
        | inr kept ↦ rw kept (record { spent = inr (omega (arith, less)) })
      ]

  check-Uses :
      (r : Reader) (t : RecordType) (len : ℕ)
      → 7 ≤ length r.buffer
      → Uses (size r) (check_record c block_size checks r t len)
  unfolding check_record
  check-Uses r t len h = elim (Bool-cases (is_zero_type t && len == 0)) [
    | inl empty ↦ rw empty (record { spent = inr (omega arith) })
    | inr kept ↦
        rw kept (elim (Bool-cases (checks && not (checksum_matches c block_size checks r len))) [
          | inl wrong ↦ rw wrong (reject-Uses r _ _ h)
          | inr right ↦ rw right (accept-Uses r t len h)
        ])
  ]

  parse-Uses :
      (r : Reader) → 7 ≤ length r.buffer → Uses (size r) (parse_record c block_size checks r)
  unfolding parse_record
  parse-Uses r h =
      elim (Bool-cases
        (ltb (length r.buffer) (header_size + record_length c block_size checks r))) [
          | inl short ↦ rw short (
              Uses-if (size r) r.eof (eof_type, [], clear r)
                (reject c block_size checks r (length r.buffer) bad_length)
                (λ e. record { spent = inl refl }) (λ e. reject-Uses r _ _ h))
          | inr whole ↦ rw whole (elim (Option-cases (type_of_byte (get_or r.buffer 6 0))) [
            | inl unknown ↦ rw unknown (reject-Uses r _ _ h)
            | inr (t, known) ↦ rw known (check-Uses r t _ h)
          ])
        ]

  next_block-size : (r : Reader) → size (read_next_block c block_size checks r) ≤ size r
  unfolding read_next_block
  next_block-size r = omega (arith, length-take block_size r.file, length-drop block_size r.file)

  Uses-more : (n m : ℕ) (physical : Physical) → n ≤ m → Uses n physical → Uses m physical
  Uses-more n m physical h u = elim u.spent [
    | inl e ↦ record { spent = inl e }
    | inr less ↦ record { spent = inr (omega arith) }
  ]

  read_physical-Uses : (r : Reader) → Uses (size r) (read_physical_record c block_size checks r)
  unfolding read_physical_record
  read_physical-Uses r =
      let r' = read_next_block c block_size checks r in
      let refilled =
        if ltb (length r'.buffer) header_size
        then (eof_type, [], clear r')
        else parse_record c block_size checks r' in
      Uses-if (size r) (ltb (length r.buffer) header_size)
        (if r.eof then (eof_type, [], clear r) else refilled) (parse_record c block_size checks r)
        (λ short.
          Uses-if (size r) r.eof (eof_type, [], clear r) refilled (λ e. record { spent = inl refl })
            (λ more.
              Uses-if (size r) (ltb (length r'.buffer) header_size) (eof_type, [], clear r')
                (parse_record c block_size checks r') (λ e. record { spent = inl refl })
                (λ whole.
                  Uses-more (size r') (size r) _ (next_block-size r)
                    (parse-Uses r' (ltb-false _ _ whole)))))
        (λ whole. parse-Uses r (ltb-false _ _ whole))

  loop-Ends :
      (fuel : ℕ) (r : Reader) (p : Progress)
      → size r < fuel
      → Ends (read_entry_loop c block_size checks fuel r p)
  unfolding read_entry_loop
  loop-Ends zero r p h = absurd (omega arith)
  loop-Ends (suc fuel) r p h =
      handle-Ends fuel (read_entry_loop c block_size checks fuel) (loop-Ends fuel) _ p
        (Uses-more (size r) fuel _ (omega arith) (read_physical-Uses r))

  skip-size : (r : Reader) → size (skip_to_initial_block c block_size checks r) ≤ size r
  unfolding skip_to_initial_block
  skip-size r = omega (arith, length-drop _ r.file)

  -- On any file, whatever its bytes, and from any state of the reader, reading an entry ends, with fuel
  -- for one round more than there are bytes that are not used yet.
  pub read_entry-Ends :
      (fuel : ℕ) (r : Reader) → size r < fuel → Ends (read_entry c block_size checks fuel r)
  unfolding read_entry
  read_entry-Ends fuel r h = elim (Bool-cases (ltb r.last_record_offset r.initial_offset)) [
    | inl skip ↦ rw skip (loop-Ends fuel _ no_progress (omega (arith, skip-size r)))
    | inr stay ↦ rw stay (loop-Ends fuel r no_progress h)
  ]
