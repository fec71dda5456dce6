-- ===== src/Wal/Collect.antt =====
-- What the writer and the reader do with one fragment of an entry.
use treeline.Prelude.{
  ℕ, ◌-◌, ◌≡◌, refl, ap, sym, ◌∙◌, inl, inr, Bool, true, false, ◌&&◌, not, some, List, [], ◌++◌,
  ltb, ◌==◌, if◌then◌else◌, length, Bool-cases,
}
use mathlib.Core.List.{append-nil}
use treeline.Wal.Format.{
  RecordType, full_type, first_type, middle_type, last_type, header_size, Crc,
}
use treeline.Wal.Writer.{Writer, fragment_type, switch_block}
use treeline.Wal.Reader.{
  Reader, minus, report_corruption, partial_record, missing_start, is_zero_type,
}
use treeline.Wal.Entries.{Progress, Entry, dispatch, resync, handle_record, report_partial}
use treeline.Wal.Place.{trailer, start, At}

-- Two offsets of a block from which the next record starts at the same place.
abbrev pub Same : ℕ → ℕ → ℕ → Type 0
Same block_size a b =
    (trailer block_size a ≡ trailer block_size b) × (start block_size a ≡ start block_size b)

-- What the reader has collected when the writer goes on with an entry.
abbrev pub Collected : Bool → List ℕ → Progress → Type 0
Collected true got p = (p.in_fragmented_record ≡ false) × (got ≡ [])
Collected false got p = (p.in_fragmented_record ≡ true) × (got ≡ p.scratch)

abbrev offset_of : Reader → List ℕ → ℕ
offset_of r d =
    minus (minus (minus r.end_of_buffer_offset (length r.buffer)) header_size) (length d)

pub data_type : (a b : Bool) → is_zero_type (fragment_type a b) ≡ false
unfolding fragment_type
data_type true true = refl
data_type true false = refl
data_type false true = refl
data_type false false = refl

module _ (c : Crc) (block_size : ℕ) where
  pub switch_lem :
      (w : Writer)
      → ((switch_block c block_size w).log ≡ w.log ++ trailer block_size w.block_offset)
        × ((switch_block c block_size w).block_offset ≡ start block_size w.block_offset)
  unfolding switch_block
  switch_lem w = elim (Bool-cases (ltb (block_size - w.block_offset) header_size)) [
    | inl full ↦ rw full (refl, refl)
    | inr room ↦ rw room (sym (append-nil w.log), refl)
  ]

  pub handle_reading :
      (again : Reader → Progress → Entry) (t : RecordType) (d : List ℕ) (r : Reader) (p : Progress)
      → r.resyncing ≡ false
      → handle_record again (t, d, r) p ≡ dispatch again (offset_of r d) t d r p
  unfolding handle_record
  handle_reading again t d r p e =
      ap
        (λ q. elim q [
          | true ↦ resync again (offset_of r d) t d r p
          | false ↦ dispatch again (offset_of r d) t d r p
        ])
        e

  no_partial : (r : Reader) (p : Progress) → p.in_fragmented_record ≡ false → report_partial r p ≡ r
  unfolding report_partial
  no_partial r p e =
      ap
        (λ q.
          if q && not (length p.scratch == 0)
          then report_corruption r (length p.scratch) partial_record
          else r)
        e

  -- A last fragment completes the entry, and another one is collected.
  pub step_last :
      (again : Reader → Progress → Entry) (begin : Bool) (d got : List ℕ) (r : Reader)
      (p : Progress) (off : ℕ) (rest : List ℕ)
      → Collected begin got p
      → At block_size off rest r
      → (r' : Reader) × (handle_record again (fragment_type begin true, d, r) p
          ≡ some (some (got ++ d), r'))
        × At block_size off rest r'
  unfolding dispatch fragment_type
  step_last again true d got r p off rest v a = (
    record r { last_record_offset = offset_of r d },
    handle_reading again full_type d r p a.2
        ∙ ap (λ q. some (some d, record q { last_record_offset = offset_of r d }))
            (no_partial r p v.0)
        ∙ ap (λ g. some (some (g ++ d), record r { last_record_offset = offset_of r d })) (sym v.1),
    a,
  )
  step_last again false d got r p off rest v a = (
    record r { last_record_offset = p.prospective_record_offset },
    handle_reading again last_type d r p a.2
        ∙ ap
            (λ q. elim q [
              | true ↦ some (
                some (p.scratch ++ d),
                record r { last_record_offset = p.prospective_record_offset },
              )
              | false ↦ again (report_corruption r (length d) missing_start) p
            ])
            v.0
        ∙ ap
            (λ g.
              some (some (g ++ d), record r { last_record_offset = p.prospective_record_offset }))
            (sym v.1),
    a,
  )

  pub step_more :
      (again : Reader → Progress → Entry) (begin : Bool) (d got : List ℕ) (r : Reader)
      (p : Progress)
      → Collected begin got p
      → r.resyncing ≡ false
      → (p' : Progress) × (handle_record again (fragment_type begin false, d, r) p ≡ again r p')
        × Collected false (got ++ d) p'
  unfolding dispatch fragment_type
  step_more again true d got r p v reading =
      let p' : Progress = record {
        in_fragmented_record = true;
        scratch = d;
        prospective_record_offset = offset_of r d;
      } in
      (
        p',
        handle_reading again first_type d r p reading ∙ ap (λ q. again q p') (no_partial r p v.0),
        (refl, ap (λ g. g ++ d) v.1),
      )
  step_more again false d got r p v reading =
      let p' : Progress = record p { scratch = p.scratch ++ d } in
      (
        p',
        handle_reading again middle_type d r p reading
            ∙ ap
                (λ q.
                  again (if q then r else report_corruption r (length d) missing_start)
                    (if q then p' else p))
                v.0,
        (v.0, ap (λ g. g ++ d) v.1),
      )
