-- ===== src/Wal/RoundTrip.antt =====
-- The entries that are written to a log are read back from it.
use treeline.Prelude.{
  ℕ, zero, suc, ◌+◌, ◌-◌, ◌*◌, ◌≤◌, ◌<◌, ◌≡◌, ap, ◌∙◌, ◌⊎◌, inl, inr, Bool, true, false, some, List,
  ◌++◌, ◌==◌, arith, length, drop, Bool-cases,
}
use mathlib.Core.List.{append_assoc}
use treeline.Wal.Format.{Crc}
use treeline.Wal.Writer.{Writer, add_fragments}
use treeline.Wal.Place.{start}
use treeline.Wal.Fragments.{
  Reads, n, emitted, add_last, add_more, emitted_lem, written_bytes, last-Reads, more-Reads,
  full_block,
}

module _ (c : Crc) (block_size : ℕ) (checks : Bool) (big : 7 < block_size)
    (small : block_size < 65543) where
  abbrev pub Written : ℕ → Writer → Bool → List ℕ → Type 0
  Written fuel w begin left =
      (w' : Writer) × (bytes : List ℕ) × (add_fragments c block_size fuel w begin left ≡ some w')
      × (w'.log ≡ w.log ++ bytes)
      × (w'.block_offset ≤ block_size)
      × Reads c block_size checks big small fuel begin left w.block_offset bytes w'.block_offset

  -- Enough fuel: one round for each byte, and one for a fragment of no bytes at the end of a block.
  Room : ℕ → Writer → List ℕ → Type 0
  Room fuel w left =
      (2 * length left + 2 ≤ fuel)
      ⊎ ((8 ≤ block_size - start block_size w.block_offset) × (2 * length left + 1 ≤ fuel))

  start_of_full : (off : ℕ) → off ≡ block_size → start block_size off ≡ 0
  start_of_full off h = ground arith

  Room-after :
      (w : Writer) (begin : Bool) (left : List ℕ) (fuel : ℕ)
      → w.block_offset ≤ block_size
      → Room (suc fuel) w left
      → (length left == n c block_size checks big small fuel w begin left) ≡ false
      → Room fuel
          (emitted c block_size checks big small fuel w begin left false)
          (drop (n c block_size checks big small fuel w begin left) left)
  unfolding Room
  Room-after w begin left fuel fits room more =
      let (full, shorter) = full_block c block_size checks big small fuel w begin left fits more in
      let whole = start_of_full _ full in
      elim room [
        | inl twice ↦ inr (omega (arith, whole, big), omega (arith, shorter, twice))
        | inr (avail, once) ↦ inr (omega (arith, whole, big), omega (arith, shorter, avail, once))
      ]

  fragments-Written :
      (fuel : ℕ) (w : Writer) (begin : Bool) (left : List ℕ)
      → w.block_offset ≤ block_size
      → Room fuel w left
      → Written fuel w begin left
  unfolding Room written_bytes
  fragments-Written zero w begin left fits room = absurd (omega (arith, room))
  fragments-Written (suc fuel) w begin left fits room =
      let frag = n c block_size checks big small fuel w begin left in
      elim (Bool-cases (length left == frag)) [
        | inl end ↦
            let (log, off, bound) =
              emitted_lem c block_size checks big small fuel w begin left true fits in
            (
              emitted c block_size checks big small fuel w begin left true,
              written_bytes c block_size checks big small fuel w begin left true,
              add_last c block_size checks big small fuel w begin left end,
              log,
              omega (arith, off, bound),
              last-Reads c block_size checks big small fuel w begin left fits end,
            )
        | inr more ↦
            let (log, off, bound) =
              emitted_lem c block_size checks big small fuel w begin left false fits in
            let (w', bytes, e, l, f, reads) =
              fragments-Written fuel (emitted c block_size checks big small fuel w begin left false)
                false (drop frag left) (omega (arith, off, bound))
                (Room-after w begin left fuel fits room more) in
            (
              w',
              written_bytes c block_size checks big small fuel w begin left false ++ bytes,
              add_more c block_size checks big small fuel w begin left more ∙ e,
              l ∙ ap (λ z. z ++ bytes) log ∙ append_assoc w.log _ bytes,
              f,
              more-Reads c block_size checks big small fuel w begin left bytes _ fits reads,
            )
      ]

  pub entry-Written :
      (w : Writer) (payload : List ℕ)
      → w.block_offset ≤ block_size
      → Written (2 * length payload + 2) w true payload
  unfolding Room
  entry-Written w payload fits =
      fragments-Written (2 * length payload + 2) w true payload fits (inl (omega arith))
