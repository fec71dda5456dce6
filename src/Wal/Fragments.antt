-- ===== src/Wal/Fragments.antt =====
-- One fragment of an entry, as the writer leaves it and as the reader finds it.
use treeline.Prelude.{
  ℕ, zero, suc, ◌+◌, ◌-◌, ◌≤◌, ◌<◌, ◌≡◌, refl, ap, sym, subst, ◌∙◌, Bool, true, false, some, List,
  [], ◌∷◌, ◌++◌, ◌==◌, arith, length, take, drop, min, length-take, length-drop, take-append-drop,
  ==_iff,
}
use mathlib.Core.List.{append_assoc}
use treeline.Wal.Format.{RecordType, header_size, Crc}
use treeline.Wal.Writer.{
  Writer, fragment_type, physical_record, emit_physical_record, switch_block, add_fragment,
  add_fragments,
}
use treeline.Wal.Reader.{Reader, is_zero_type}
use treeline.Wal.Entries.{Progress, handle_record, read_entry_loop}
use treeline.Wal.Collect.{Same, Collected, data_type, switch_lem, step_last, step_more}
use treeline.Wal.Place.{trailer, start, At, read_next}

take_all : (n : ℕ) (xs : List ℕ) → n ≡ length xs → take n xs ≡ xs
take_all zero [] h = refl
take_all zero (x ∷ xs) h = absurd (omega arith)
take_all (suc n) [] h = absurd (omega arith)
take_all (suc n) (x ∷ xs) h = ap (◌∷◌ x) (take_all n xs (omega arith))

pub min_less : (a b : ℕ) → (a == min a b) ≡ false → min a b < a
min_less a b h = ground arith

nonzero_test : (x : ℕ) → 0 < x → (x == 0) ≡ false
nonzero_test x h = ground arith

module _ (c : Crc) (block_size : ℕ) (checks : Bool) (big : 7 < block_size)
    (small : block_size < 65543) where
  -- From where the writer went on with an entry, a reader that has collected what came before goes on to
  -- the whole entry, and stands where the writer stopped.
  unfoldable pub Reads : ℕ → Bool → List ℕ → ℕ → List ℕ → ℕ → Type 0
  Reads fuel begin left off bytes off' =
      (got rest : List ℕ) (r : Reader) (p : Progress) (roff rfuel : ℕ)
      → Same block_size roff off
      → fuel ≤ rfuel
      → Collected begin got p
      → At block_size roff (bytes ++ rest) r
      → (r' : Reader) × (read_entry_loop c block_size checks rfuel r p
          ≡ some (some (got ++ left), r'))
        × At block_size off' rest r'

  pub start_bound : (off : ℕ) → off ≤ block_size → start block_size off + 7 ≤ block_size
  start_bound off h = ground arith

  -- A fragment behind its trailer is read in one round of the reader's loop.
  read_one :
      (fuel : ℕ) (t : RecordType) (d rest : List ℕ) (r : Reader) (p : Progress) (roff off : ℕ)
      → Same block_size roff off
      → At block_size roff ((trailer block_size off ++ physical_record c block_size t d) ++ rest) r
      → start block_size off + (7 + length d) ≤ block_size
      → is_zero_type t ≡ false
      → (r' : Reader) × (read_entry_loop c block_size checks (suc fuel) r p
          ≡ handle_record (read_entry_loop c block_size checks fuel) (t, d, r') p)
        × At block_size (start block_size off + (7 + length d)) rest r'
  unfolding read_entry_loop
  read_one fuel t d rest r p roff off same a fits data_type =
      let bytes =
        a.0
        ∙ append_assoc (trailer block_size off) (physical_record c block_size t d) rest
        ∙ ap (λ z. z ++ (physical_record c block_size t d ++ rest)) (sym same.0) in
      let (r', e, a') =
        read_next block_size c checks r roff t d rest big (bytes, a.1, a.2, a.3, a.4)
          (omega (arith, fits, small)) data_type (omega (arith, fits, same.1)) in
      (
        r',
        ap (λ x. handle_record (read_entry_loop c block_size checks fuel) x p) e,
        subst (λ o. At block_size (o + (7 + length d)) rest r') same.1 a',
      )

  module _ (fuel : ℕ) (w : Writer) (begin : Bool) (left : List ℕ) where
    abbrev pub w1 : Writer
    w1 = switch_block c block_size w

    abbrev pub n : ℕ
    n = min (length left) (block_size - w1.block_offset - header_size)

    abbrev pub emitted : Bool → Writer
    emitted end = emit_physical_record c block_size w1 (fragment_type begin end) (take n left)

    pub add_last :
        (length left == n) ≡ true
        → add_fragments c block_size (suc fuel) w begin left ≡ some (emitted true)
    unfolding add_fragments add_fragment
    add_last end =
        let none_left : (length (drop n left) == 0) ≡ true =
          (==_iff _ _).1 (omega (arith, length-drop n left, (==_iff _ _).0 end)) in
        rw (none_left, end) refl

    pub add_more :
        (length left == n) ≡ false
        → add_fragments c block_size (suc fuel) w begin left
          ≡ add_fragments c block_size fuel (emitted false) false (drop n left)
    unfolding add_fragments add_fragment
    add_more more =
        let some_left : (length (drop n left) == 0) ≡ false =
          nonzero_test _ (omega (arith, length-drop n left, min_less (length left) _ more)) in
        rw (some_left, more) refl

    pub emitted_lem :
        (end : Bool)
        → w.block_offset ≤ block_size
        → ((emitted end).log
            ≡ w.log
              ++ (trailer block_size w.block_offset
                  ++ physical_record c block_size (fragment_type begin end) (take n left)))
          × ((emitted end).block_offset
              ≡ start block_size w.block_offset + (7 + length (take n left)))
          × (start block_size w.block_offset + (7 + length (take n left)) ≤ block_size)
    unfolding emit_physical_record
    emitted_lem end fits =
        let (log1, off1) = switch_lem c block_size w in
        (
          ap (λ l. l ++ physical_record c block_size (fragment_type begin end) (take n left)) log1
              ∙ append_assoc w.log _ _,
          ap (λ o. o + (7 + length (take n left))) off1,
          omega (arith, off1, length-take n left, start_bound w.block_offset fits),
        )

    -- A fragment that leaves bytes fills its block.
    pub full_block :
        w.block_offset ≤ block_size
        → (length left == n) ≡ false
        → ((emitted false).block_offset ≡ block_size)
          × (length (drop n left) + (block_size - start block_size w.block_offset - 7)
              ≡ length left)
    full_block fits more =
        let (log1, off1) = switch_lem c block_size w in
        let (log, off, bound) = emitted_lem false fits in
        let less = min_less (length left) _ more in
        let edge = start_bound w.block_offset fits in
        (
          omega (arith, off, less, length-take n left, off1, edge),
          omega (arith, less, length-drop n left, off1, edge),
        )

    unfoldable pub written_bytes : Bool → List ℕ
    written_bytes end =
        trailer block_size w.block_offset
        ++ physical_record c block_size (fragment_type begin end) (take n left)

    pub last-Reads :
        w.block_offset ≤ block_size
        → (length left == n) ≡ true
        → Reads
            (suc fuel)
            begin
            left
            w.block_offset
            (written_bytes true)
            (emitted true).block_offset
    unfolding Reads written_bytes
    last-Reads fits end got rest r p roff zero same more v a = absurd (omega arith)
    last-Reads fits end got rest r p roff (suc k) same more v a =
        let (log, off, bound) = emitted_lem true fits in
        let (r1, e, a1) =
          read_one k _ (take n left) rest r p roff w.block_offset same a bound
            (data_type begin true) in
        let (r', e', a') =
          step_last c block_size (read_entry_loop c block_size checks k) begin (take n left) got r1
            p (start block_size w.block_offset + (7 + length (take n left))) rest v a1 in
        (
          r',
          e
              ∙ e'
              ∙ ap (λ d. some (some (got ++ d), r')) (take_all n left (sym ((==_iff _ _).0 end))),
          subst (λ o. At block_size o rest r') (sym off) a',
        )

    pub more-Reads :
        (bytes : List ℕ) (off' : ℕ)
        → w.block_offset ≤ block_size
        → Reads fuel false (drop n left) (emitted false).block_offset bytes off'
        → Reads (suc fuel) begin left w.block_offset (written_bytes false ++ bytes) off'
    unfolding Reads written_bytes
    more-Reads bytes off' fits later got rest r p roff zero same more v a = absurd (omega arith)
    more-Reads bytes off' fits later got rest r p roff (suc k) same more v a =
        let (log, off, bound) = emitted_lem false fits in
        let all = a.0 ∙ append_assoc (written_bytes false) bytes rest in
        let (r1, e, a1) =
          read_one k _ (take n left) (bytes ++ rest) r p roff w.block_offset same
            (all, a.1, a.2, a.3, a.4) bound (data_type begin false) in
        let (p', e', v') =
          step_more c block_size (read_entry_loop c block_size checks k) begin (take n left) got r1
            p v a1.2 in
        let (r', e'', a') =
          later (got ++ take n left) rest r1 p'
            (start block_size w.block_offset + (7 + length (take n left))) k
            (ap (trailer block_size) (sym off), ap (start block_size) (sym off)) (omega arith) v'
            a1 in
        (
          r',
          e
              ∙ e'
              ∙ e''
              ∙ ap (λ l. some (some l, r'))
                  (append_assoc got (take n left) (drop n left)
                    ∙ ap (λ l. got ++ l) (take-append-drop n left)),
          a',
        )
