-- ===== src/Wal/Place.antt =====
-- Where a reader stands in a log that the writer made.
use treeline.Prelude.{
  ℕ, ◌+◌, ◌-◌, ◌≤◌, ◌<◌, ◌≡◌, refl, ap, sym, ◌∙◌, ◌⊎◌, inl, inr, Bool, true, false, List, [], ◌∷◌,
  ◌++◌, ltb, if◌then◌else◌, arith, length, take, drop, replicate, length-append, length-take,
  length-drop, length-replicate, take-append-drop, Bool-cases, ltb→lt, lt→ltb,
}
use treeline.Wal.Format.{RecordType, header_size, Crc}
use treeline.Wal.Writer.{physical_record}
use treeline.Wal.Reader.{Reader, is_zero_type, read_next_block, parse_record, read_physical_record}
use treeline.Wal.Parse.{length-physical, parse-physical, not_below}

-- Where two splits of a list meet: the longer first part begins with the shorter one.
split_prefix :
    (xs ys us vs : List ℕ)
    → xs ++ ys ≡ us ++ vs
    → length us ≤ length xs
    → (zs : List ℕ) × (xs ≡ us ++ zs) × (zs ++ ys ≡ vs)
split_prefix xs ys [] vs e h = (xs, refl, e)
split_prefix [] ys (u ∷ us) vs e h = absurd (omega arith)
split_prefix (x ∷ xs) ys (u ∷ us) vs e h =
    let (zs, a, b) = split_prefix xs ys us vs (ground (arith, e)) (omega arith) in
    let heads : x ≡ u = ground (arith, e) in (zs, cc (heads, a), b)

empty_of_length : (xs : List ℕ) → length xs ≡ 0 → xs ≡ []
empty_of_length [] h = refl
empty_of_length (x ∷ xs) h = absurd (omega arith)

not_short : {a b : ℕ} → ltb a b ≡ false → b ≤ a
not_short {a} {b} h = ground arith

module _ (block_size : ℕ) where
  -- The zeros that fill a block too short for a header, and where the next record starts.
  abbrev pub trailer : ℕ → List ℕ
  trailer off = if ltb (block_size - off) header_size then replicate (block_size - off) 0 else []

  abbrev pub start : ℕ → ℕ
  start off = if ltb (block_size - off) header_size then 0 else off

  -- The buffer reaches to the end of its block, or to the end of the file.
  abbrev Reaches : ℕ → Reader → Type 0
  Reaches off r =
      ((r.eof ≡ false) × (length r.buffer + off ≡ block_size))
      ⊎ ((r.eof ≡ true) × (r.file ≡ []) × (length r.buffer + off < block_size))

  -- The reader stands at an offset of a block, has all of the rest before it, and dropped nothing.
  abbrev pub At : ℕ → List ℕ → Reader → Type 0
  At off rest r =
      (r.buffer ++ r.file ≡ rest)
      × Reaches off r
      × (r.resyncing ≡ false)
      × (r.initial_offset ≡ 0)
      × (r.drops ≡ [])

  module _ (c : Crc) (checks : Bool) where
    parse-At :
        (r : Reader) (off : ℕ) (t : RecordType) (d rest : List ℕ)
        → At off (physical_record c block_size t d ++ rest) r
        → length d < 65536
        → is_zero_type t ≡ false
        → off + (7 + length d) ≤ block_size
        → (r' : Reader) × (parse_record c block_size checks r ≡ (t, d, r'))
          × At (off + (7 + length d)) rest r'
          × (7 ≤ length r.buffer)
    parse-At r off t d rest a small data_type fits =
        let record_size = length-physical c block_size checks t d in
        let long : length (physical_record c block_size t d) ≤ length r.buffer = elim a.1 [
          | inl (more, full) ↦ omega (arith, full, fits, record_size)
          | inr (end, empty, short) ↦ omega (
            arith,
            ap length a.0,
            ap length empty,
            length-append r.buffer r.file,
            length-append (physical_record c block_size t d) rest,
          )
        ] in
        let (left, whole, later) = split_prefix r.buffer r.file _ rest a.0 long in
        let used = ap length whole ∙ length-append (physical_record c block_size t d) left in
        let reached : Reaches (off + (7 + length d)) (record r { buffer = left }) = elim a.1 [
          | inl (more, full) ↦ inl (more, omega (arith, full, used, record_size))
          | inr (end, empty, short) ↦ inr (end, empty, omega (arith, short, used, record_size))
        ] in
        (
          record r { buffer = left },
          ap (λ b. parse_record c block_size checks (record r { buffer = b })) whole
              ∙ parse-physical c block_size checks r t d left small a.3 data_type,
          (later, reached, a.2, a.3, a.4),
          omega (arith, long, record_size),
        )

    pub block-Reaches : (r : Reader) → Reaches 0 (read_next_block c block_size checks r)
    unfolding read_next_block
    block-Reaches r =
        let size = length-take block_size r.file in
        elim (Bool-cases (ltb (length (take block_size r.file)) block_size)) [
          | inl cut ↦ inr (
            cut,
            empty_of_length (drop block_size r.file)
                (omega (arith, size, ltb→lt _ _ cut, length-drop block_size r.file)),
            omega (arith, ltb→lt _ _ cut),
          )
          | inr whole ↦ inl (whole, omega (arith, size, not_short whole))
        ]

    refill-At :
        (r : Reader) (off : ℕ) (t : RecordType) (d rest : List ℕ)
        → 7 < block_size
        → At off (replicate (block_size - off) 0 ++ (physical_record c block_size t d ++ rest)) r
        → block_size - off < 7
        → (r.eof ≡ false)
          × (length r.buffer < 7)
          × At 0 (physical_record c block_size t d ++ rest) (read_next_block c block_size checks r)
    unfolding read_next_block
    refill-At r off t d rest big a short = elim a.1 [
      | inr (end, empty, cut) ↦ absurd (
          omega (
            arith,
            cut,
            ap length a.0,
            ap length empty,
            length-append r.buffer r.file,
            length-append (replicate (block_size - off) 0)
                (physical_record c block_size t d ++ rest),
            length-append (physical_record c block_size t d) rest,
            length-physical c block_size checks t d,
            length-replicate {A = ℕ} (block_size - off) 0,
          ))
      | inl (more, full) ↦
          let zeros = length-replicate {A = ℕ} (block_size - off) 0 in
          let (left, whole, later) =
            split_prefix r.buffer r.file (replicate (block_size - off) 0) _ a.0
              (omega (arith, full, zeros)) in
          let used = ap length whole ∙ length-append (replicate (block_size - off) 0) left in
          let none_left : left ≡ [] = empty_of_length left (omega (arith, used, full, zeros)) in
          let next : r.file ≡ physical_record c block_size t d ++ rest =
            sym (ap (λ l. l ++ r.file) none_left) ∙ later in
          (
            more,
            omega (arith, full, short),
            (take-append-drop block_size r.file ∙ next, block-Reaches r, a.2, a.3, a.4),
          )
    ]

    pub read_next :
        (r : Reader) (off : ℕ) (t : RecordType) (d rest : List ℕ)
        → 7 < block_size
        → At off (trailer off ++ (physical_record c block_size t d ++ rest)) r
        → length d < 65536
        → is_zero_type t ≡ false
        → start off + (7 + length d) ≤ block_size
        → (r' : Reader) × (read_physical_record c block_size checks r ≡ (t, d, r'))
          × At (start off + (7 + length d)) rest r'
    unfolding read_physical_record
    read_next r off t d rest big a small data_type fits =
        elim (Bool-cases (ltb (block_size - off) header_size)) [
          | inr room ↦
              let (r', parsed, a', long) =
                parse-At r off t d rest (rw room at a) small data_type (rw room at fits) in
              (r', rw (not_below (length r.buffer) header_size long) parsed, rw room a')
          | inl none_left ↦
              let (not_end, no_header, a0) =
                refill-At r off t d rest big (rw none_left at a) (ltb→lt _ _ none_left) in
              let (r', parsed, a', long) =
                parse-At (read_next_block c block_size checks r) 0 t d rest a0 small data_type
                  (rw none_left at fits) in
              (
                r',
                rw (lt→ltb (length r.buffer) header_size no_header, not_end)
                    (rw (not_below _ header_size long) parsed),
                rw none_left a',
              )
        ]
