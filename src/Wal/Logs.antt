-- ===== src/Wal/Logs.antt =====
-- A whole log: the entries written to it are those that a reader finds, to the end.
use treeline.Prelude.{
  ℕ, zero, suc, ◌+◌, ◌-◌, ◌*◌, ◌≤◌, ◌<◌, ◌≡◌, refl, ap, sym, ◌∙◌, inl, inr, Bool, true, false, none,
  some, List, [], ◌∷◌, ◌++◌, ltb, if◌then◌else◌, arith, length, length-append, length-take,
  Bool-cases, All, lt→ltb,
}
use mathlib.Core.List.{append-nil, append_assoc}
use treeline.Wal.Format.{eof_type, header_size, Crc}
use treeline.Wal.Writer.{Writer, make_writer, add_entry, add_entries}
use treeline.Wal.Reader.{
  Reader, make_reader, clear, read_next_block, parse_record, read_physical_record,
}
use treeline.Wal.Entries.{
  no_progress, dispatch, read_entry_loop, read_entry, read_all, handle_record,
}
use treeline.Wal.Place.{At}
use treeline.Wal.Collect.{Same, handle_reading}
use treeline.Wal.Fragments.{Reads}
use treeline.Wal.RoundTrip.{entry-Written}

-- Fuel for every entry, and a round for the end.
abbrev pub IsEnough : ℕ → List (List ℕ) → Type 0
IsEnough fuel payloads = (1 ≤ fuel) × All (λ payload. 2 * length payload + 2 ≤ fuel) payloads

not_below_zero : (a b : ℕ) → b ≡ 0 → ltb a b ≡ false
not_below_zero a b h = ground arith

fresh_block : (block_size : ℕ) → 7 < block_size → Same block_size block_size 0
fresh_block block_size big =
    let none_left : block_size - block_size ≡ 0 = omega arith in
    let room : ltb (block_size - 0) header_size ≡ false = ground arith in
    rw (none_left, room) (refl, refl)

module _ (c : Crc) (block_size : ℕ) (checks : Bool) (big : 7 < block_size)
    (small : block_size < 65543) where
  no_skip :
      (fuel : ℕ) (r : Reader)
      → r.initial_offset ≡ 0
      → read_entry c block_size checks fuel r
        ≡ read_entry_loop c block_size checks fuel r no_progress
  unfolding read_entry
  no_skip fuel r e = rw (not_below_zero r.last_record_offset r.initial_offset e) refl

  physical_end :
      (r : Reader) (off : ℕ)
      → At block_size off [] r
      → (r' : Reader) × (read_physical_record c block_size checks r ≡ (eof_type, [], r'))
        × (r'.resyncing ≡ false)
        × (r'.drops ≡ [])
  unfolding read_physical_record read_next_block
  physical_end r off a =
      let nothing : length r.buffer + length r.file ≡ 0 =
        omega (arith, ap length a.0, length-append r.buffer r.file) in
      let short : ltb (length r.buffer) header_size ≡ true = lt→ltb _ _ (omega (arith, nothing)) in
      let r' = read_next_block c block_size checks r in
      let still_short : ltb (length r'.buffer) header_size ≡ true =
        lt→ltb _ _ (omega (arith, nothing, length-take block_size r.file)) in
      let refilled =
        if ltb (length r'.buffer) header_size
        then (eof_type, [], clear r')
        else parse_record c block_size checks r' in
      elim (Bool-cases r.eof) [
        | inl end ↦ (
          clear r,
          rw short (ap (λ q. if q then (eof_type, [], clear r) else refilled) end),
          a.2,
          a.4,
        )
        | inr more ↦ (
          clear r',
          rw short (
              ap (λ q. if q then (eof_type, [], clear r) else refilled) more
              ∙ ap
                  (λ q. if q then (eof_type, [], clear r') else parse_record c block_size checks r')
                  still_short),
          a.2,
          a.4,
        )
      ]

  read_end :
      (fuel : ℕ) (r : Reader) (off : ℕ)
      → 1 ≤ fuel
      → At block_size off [] r
      → (r' : Reader) × (read_entry c block_size checks fuel r ≡ some (none, r')) × (r'.drops ≡ [])
  unfolding read_entry_loop dispatch
  read_end zero r off h a = absurd (omega arith)
  read_end (suc fuel) r off h a =
      let (r', e, reading, quiet) = physical_end r off a in
      (
        r',
        no_skip (suc fuel) r a.3
            ∙ ap (λ x. handle_record (read_entry_loop c block_size checks fuel) x no_progress) e
            ∙ handle_reading c block_size _ eof_type [] r' no_progress reading,
        quiet,
      )

  abbrev AllRead : ℕ → List (List ℕ) → Reader → Type 0
  AllRead fuel payloads r =
      (r' : Reader) × (read_all c block_size checks (suc (length payloads)) fuel r
        ≡ some (payloads, r'))
      × (r'.drops ≡ [])

  all-Written :
      (payloads : List (List ℕ)) (w : Writer)
      → w.block_offset ≤ block_size
      → (w' : Writer) × (bytes : List ℕ) × (add_entries c block_size w payloads ≡ some w')
        × (w'.log ≡ w.log ++ bytes)
        × ((fuel : ℕ) (r : Reader) (roff : ℕ)
            → IsEnough fuel payloads
            → Same block_size roff w.block_offset
            → At block_size roff bytes r
            → AllRead fuel payloads r)
  unfolding add_entries read_all add_entry Reads
  all-Written [] w fits = (
    w,
    [],
    refl,
    sym (append-nil w.log),
    λ fuel r roff enough same a.
        let (r', e, quiet) = read_end fuel r roff enough.0 a in (r', rw (e, read_all) refl, quiet),
  )
  all-Written (payload ∷ payloads) w fits =
      let (w1, bytes, e, l, f, reads) =
        entry-Written c block_size checks big small w payload fits in
      let (w2, bytes', e', l', later) = all-Written payloads w1 f in
      (
        w2,
        bytes ++ bytes',
        rw (e, add_entries) e',
        l' ∙ ap (λ z. z ++ bytes') l ∙ append_assoc w.log bytes bytes',
        λ fuel r roff enough same a.
            let (r1, found, a1) =
              reads [] bytes' r no_progress roff fuel same enough.1.0 (refl, refl) a in
            let (r2, found', quiet) =
              later fuel r1 w1.block_offset (enough.0, enough.1.1) (refl, refl) a1 in
            (r2, rw (no_skip fuel r a.3 ∙ found, read_all) (rw found' refl), quiet),
      )

  -- With a block of more than seven bytes and less than 65543, and fuel for every entry, writing entries
  -- to a new log ends, and reading that log from its start gives those entries, in order, and then the
  -- end; nothing is reported as dropped.
  pub read_all-add_entries :
      (payloads : List (List ℕ)) (fuel : ℕ)
      → IsEnough fuel payloads
      → (w : Writer) × (r : Reader) × (add_entries c block_size make_writer payloads ≡ some w)
        × (read_all c block_size checks (suc (length payloads)) fuel (make_reader w.log 0)
            ≡ some (payloads, r))
        × (r.drops ≡ [])
  unfolding make_reader
  read_all-add_entries payloads fuel enough =
      let (w, bytes, written, log, reads) = all-Written payloads make_writer (omega arith) in
      let (r, found, quiet) =
        reads fuel (make_reader w.log 0) block_size enough (fresh_block block_size big)
          (log, inl (refl, omega arith), refl, refl, refl) in
      (w, r, written, found, quiet)
