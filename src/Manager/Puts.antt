-- ===== src/Manager/Puts.antt =====
-- page_grouping/manager.cc: `WriteToSegment`, and the records that it hands over to a rewrite.
use treeline.Prelude.{
  ℕ, suc, ◌+◌, ◌*◌, ◌≤◌, ◌<◌, ◌≡◌, ap, sym, ◌∙◌, subst, false, Option, some, List, [], ◌∷◌, ◌++◌,
  if◌then◌else◌, arith, length, length-append, ltb, IsAscending,
}
use treeline.Segments.{SegmentInfo, page_count}
use treeline.SegmentIndex.OrderedMap.{OrderedMap}
use treeline.SegmentIndex.Lookup.{Entry}
use treeline.Manager.Store.{PageOps, LockOps, OnLine, Store}
use treeline.Manager.Write.{
  Options, Reorg, page_of, open_page, after_loop, write_to_segment, rewrite,
}
use treeline.Manager.Sound.{IsSound, open_lem}
use treeline.Manager.Batch.{Wrote, AllWithin}
use treeline.Manager.Split.{write_records-Splits}

module _ {Page V Line Locks : Type 0} (o : PageOps Page V) (t : OrderedMap (SegmentInfo Line))
    (l : LockOps Locks) (seg : Entry Line) (n : ℕ) (on_line : OnLine Line)
    (in_segment : (key : ℕ) → page_of o t l seg on_line key < n) where
  -- The answer where the loop has written `written` and leaves `left`: without any left, the count of all
  -- the records; otherwise those left are handed over to a rewrite of the segment, and count if it succeeds.
  abbrev pub answer :
      Options
      → Reorg (Store Page t.Map Locks) V
      → List (ℕ × V)
      → List (ℕ × V)
      → Store Page t.Map Locks
      → Option (ℕ × Store Page t.Map Locks)
  answer options r written [] s = some (length written, s)
  answer options r written (full ∷ left) s =
      let (succeeded, s') = rewrite o t l seg on_line options r s (full ∷ left) in
      some (if succeeded then length written + length (full ∷ left) else length written, s')

  loop_answer :
      (options : Options) (r : Reorg (Store Page t.Map Locks) V) (written left : List (ℕ × V))
      (s : Store Page t.Map Locks)
      → after_loop o t l seg on_line options r (length written + length left) (some (left, s))
        ≡ answer options r written left s
  unfolding after_loop
  loop_answer options r written [] s = ap (λ k. some (k, s)) (omega arith)
  loop_answer options r written (full ∷ left) s =
      let (succeeded, s') = rewrite o t l seg on_line options r s (full ∷ left) in
      ap (λ k. some (if succeeded then length written + length (full ∷ left) else k, s'))
        (omega arith)

  -- Records that ascend by key, each within the boundaries of its page, and no more than the threshold of an
  -- immediate rewrite, are written to a segment with room for as many overflow pages; every key's page lies in
  -- the segment. Then the call returns: it has written a first part of the records and left the segment sound,
  -- and hands the rest, if any, over to a rewrite. At that point, of the keys within the boundaries of their
  -- pages, each that was written reads as its value, or as before where it was on its page before; every
  -- other reads as before.
  pub write_to_segment_lem :
      (options : Options) (r : Reorg (Store Page t.Map Locks) V) (s : Store Page t.Map Locks)
      (key low : ℕ) (value : V) (records : List (ℕ × V))
      → IsSound o t l seg n s (suc (length records))
      → IsAscending low ((key, value) ∷ records)
      → AllWithin o t l seg n on_line in_segment s.disk ((key, value) ∷ records)
      → suc (length records) ≤ options.records_per_page_goal * page_count seg.sinfo * 2
      → (written left : List (ℕ × V)) × (s' : Store Page t.Map Locks) × ((key, value) ∷ records
          ≡ written ++ left)
        × Wrote o t l seg n on_line in_segment s.disk written s'
        × (write_to_segment o t l seg on_line options r s key ((key, value) ∷ records)
            ≡ answer options r written left s')
  unfolding write_to_segment
  write_to_segment_lem options r s key low value records sound ascends within few =
      let all : List (ℕ × V) = (key, value) ∷ records in
      let (opened, same) =
        open_lem o t l seg n on_line s (suc (length records)) (page_of o t l seg on_line key) sound
          (in_segment key) in
      let w = open_page o t l seg on_line s (page_of o t l seg on_line key) in
      let loop =
        write_records-Splits o t l seg n on_line in_segment options w low all opened ascends
          (subst (λ d. AllWithin o t l seg n on_line in_segment d all) (sym same) within) in
      let small : ltb (options.records_per_page_goal * page_count seg.sinfo * 2)
            (suc (length records))
          ≡ false =
        ground arith in
      let total : suc (length records) ≡ length loop.written + length loop.left =
        ap length loop.split ∙ length-append loop.written loop.left in
      (
        loop.written,
        loop.left,
        loop.after,
        loop.split,
        subst (λ d. Wrote o t l seg n on_line in_segment d loop.written loop.after) same loop.wrote,
        rw small (
            ap (after_loop o t l seg on_line options r (suc (length records))) loop.result
            ∙ (ap (λ k. after_loop o t l seg on_line options r k (some (loop.left, loop.after)))
                  total
                ∙ loop_answer options r loop.written loop.left loop.after)),
      )
