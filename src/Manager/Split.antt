-- ===== src/Manager/Split.antt =====
-- page_grouping/manager.cc: the loop of `WriteToSegment`.
use treeline.Prelude.{
  ℕ, suc, ◌<◌, ◌≡◌, inl, inr, refl, ap, sym, ◌∙◌, subst, true, Option, some, List, [], ◌∷◌, ◌++◌,
  length, IsAscending, prefix-IsAscending,
}
use treeline.Segments.{SegmentInfo}
use treeline.SegmentIndex.OrderedMap.{OrderedMap}
use treeline.SegmentIndex.Lookup.{Entry}
use treeline.Manager.Store.{PageOps, LockOps, OnLine, Store}
use treeline.Manager.Write.{
  Options, page_of, close_page, switch_page, release_segment, after_record, write_records,
  write_record_to_chain,
}
use treeline.Manager.Chains.{main}
use treeline.Manager.Sound.{id}
use treeline.Manager.Steps.{W, disk, Open}
use treeline.Manager.Record.{write_record_cases}
use treeline.Manager.Batch.{
  Wrote, AllWithin, AllWithin-same, read, switch_lem, end_lem, reads-cons, nothing-Wrote,
}

module _ {Page V Line Locks : Type 0} (o : PageOps Page V) (t : OrderedMap (SegmentInfo Line))
    (l : LockOps Locks) (seg : Entry Line) (n : ℕ) (on_line : OnLine Line)
    (in_segment : (key : ℕ) → page_of o t l seg on_line key < n) where
  abbrev S : Type 0
  S = Store Page t.Map Locks

  abbrev pages : ℕ → ℕ
  pages key = page_of o t l seg on_line key

  -- The records are written up to the first that does not fit.
  pub record Splits (records : List (ℕ × V)) (d : ℕ → Page) (r : Option (List (ℕ × V) × S))
      : Type 0 where
    pub written : List (ℕ × V)
    pub left : List (ℕ × V)
    pub after : S
    pub result : r ≡ some (left, after)
    pub split : records ≡ written ++ left
    pub wrote : Wrote o t l seg n on_line in_segment d written after

  step-Splits :
      (options : Options) (w : W o t l seg n) (key low : ℕ) (v : V) (records : List (ℕ × V))
      → Open o t l seg n w (suc (length records))
      → w.curr_page_idx ≡ pages key
      → IsAscending (suc key) records
      → AllWithin o t l seg n on_line in_segment (disk o t l seg n w) ((key, v) ∷ records)
      → ((w' : W o t l seg n)
          → Open o t l seg n w' (length records)
          → AllWithin o t l seg n on_line in_segment (disk o t l seg n w') records
          → Splits records
              (disk o t l seg n w')
              (write_records o t l seg on_line options w' records))
      → Splits ((key, v) ∷ records) (disk o t l seg n w) (
          after_record o t l seg on_line
            (λ w'. write_records o t l seg on_line options w' records)
            ((key, v) ∷ records)
            (write_record_to_chain o t l seg options w key v))
  unfolding after_record
  step-Splits options w key low v records h at ascends within others =
      elim (write_record_cases o t l seg n options w (length records) key v h (
        subst (λ i. o.fits (disk o t l seg n w (main o (id o t l seg n) n i)) key ≡ true) (sym at)
          within.0)) [
            | inl (w', e, puts) ↦
                let rest = others w' puts.open_page (
                  AllWithin-same o t l seg n on_line in_segment (disk o t l seg n w)
                    (disk o t l seg n w') records puts.writes.fences within.1) in
                let prefix =
                  prefix-IsAscending (suc key) rest.written rest.left
                    (subst (IsAscending (suc key)) rest.split ascends) in
                record {
                  written = (key, v) ∷ rest.written;
                  left = rest.left;
                  after = rest.after;
                  result =
                      ap
                        (after_record o t l seg on_line
                          (λ w'. write_records o t l seg on_line options w' records)
                          ((key, v) ∷ records))
                        e
                      ∙ rest.result;
                  split = ap (λ rs. (key, v) ∷ rs) rest.split;
                  wrote =
                      reads-cons o t l seg n on_line in_segment w w' (length records) key v
                        rest.written rest.after puts at prefix rest.wrote;
                }
            | inr (w', e, stays) ↦
                let (sound, flushed) =
                  end_lem o t l seg n on_line in_segment w' (length records) stays.open_page in
                let s' = release_segment o t l seg on_line (close_page o t l seg on_line w') in
                record {
                  written = [];
                  left = (key, v) ∷ records;
                  after = s';
                  result =
                      ap
                        (after_record o t l seg on_line
                          (λ w'. write_records o t l seg on_line options w' records)
                          ((key, v) ∷ records))
                        e;
                  split = refl;
                  wrote = record {
                    sound = sound;
                    reads = λ k within. inl (
                        ap (λ d. read o t l seg n on_line in_segment d k) flushed
                        ∙ stays.keeps.on_chain (pages k) k (in_segment k));
                  };
                }
          ]

  pub write_records-Splits :
      (options : Options) (w : W o t l seg n) (low : ℕ) (records : List (ℕ × V))
      → Open o t l seg n w (length records)
      → IsAscending low records
      → AllWithin o t l seg n on_line in_segment (disk o t l seg n w) records
      → Splits records (disk o t l seg n w) (write_records o t l seg on_line options w records)
  unfolding write_records
  write_records-Splits options w low [] h a within =
      let (sound, flushed) = end_lem o t l seg n on_line in_segment w 0 h in
      record {
        written = [];
        left = [];
        after = release_segment o t l seg on_line (close_page o t l seg on_line w);
        result = refl;
        split = refl;
        wrote =
            nothing-Wrote o t l seg n on_line in_segment (disk o t l seg n w)
              (release_segment o t l seg on_line (close_page o t l seg on_line w)) sound flushed;
      }
  write_records-Splits options w low ((key, v) ∷ records) h a within =
      let w1 = switch_page o t l seg on_line w (pages key) in
      let (opened, same, at) =
        switch_lem o t l seg n on_line in_segment w (suc (length records)) (pages key) h
          (in_segment key) in
      subst
        (λ d.
          Splits ((key, v) ∷ records) d
            (write_records o t l seg on_line options w ((key, v) ∷ records)))
        same
        (step-Splits options w1 key low v records opened at a.1
          (subst (λ d. AllWithin o t l seg n on_line in_segment d ((key, v) ∷ records)) (sym same)
            within)
          (λ w' h' within'. write_records-Splits options w' (suc key) records h' a.1 within'))
