-- ===== src/Manager/PutBatch.antt =====
-- page_grouping/manager.cc: `PutBatchImpl`, the loop that gives each segment its records.
use treeline.Prelude.{
  ℕ, zero, suc, ◌+◌, ◌-◌, ◌*◌, ◌≤◌, ◌<◌, ◌≡◌, refl, inl, inr, ◌&&◌, Option, none, some, List, [],
  ◌∷◌, ◌==◌, if◌then◌else◌, arith, length, ltb, leb, take, drop, Bool-cases,
}
use treeline.Segments.{SegmentInfo, info_id}
use treeline.Locks.Modes.{page_write}
use treeline.SegmentIndex.OrderedMap.{OrderedMap}
use treeline.SegmentIndex.Lookup.{segment_for_key}
use treeline.Manager.Store.{PageOps, LockOps, OnLine, Store}
use treeline.Manager.Write.{Options, Reorg, write_to_segment}

-- The exception after `kMaxAttempts`, an exception of the allocation or an index without segments, and a
-- loop that is cut off.
pub data BatchResult (S : Type 0) : Type 0 where
  written : S → BatchResult S
  too_many_attempts : BatchResult S
  failed : BatchResult S
  cut_off : BatchResult S

abbrev pub max_attempts : ℕ
max_attempts = 1000

-- `std::lower_bound` on the records, which ascend: how many lie below the next segment.
unfoldable pub range_size : {V : Type 0} → ℕ → List (ℕ × V) → ℕ
range_size upper [] = 0
range_size upper ((key, value) ∷ records) =
    if ltb key upper then suc (range_size upper records) else 0

module _ {Page V Line Locks : Type 0} (o : PageOps Page V) (t : OrderedMap (SegmentInfo Line))
    (l : LockOps Locks) (on_line : OnLine Line) (options : Options)
    (r : Reorg (Store Page t.Map Locks) V) where
  -- The records of the segment of the first key, under the segment's lock.
  unfoldable pub write_range :
      Store Page t.Map Locks → ℕ → List (ℕ × V) → Option (ℕ × Store Page t.Map Locks)
  unfolding write_to_segment range_size
  write_range s key records = elim (segment_for_key t s.index key) [
    | none ↦ none
    | some seg ↦
        let locks = l.acquire_segment_lock s.locks (info_id seg.sinfo) page_write in
        write_to_segment o t l seg on_line options r (record s { locks = locks }) key
          (take (range_size seg.upper records) records)
  ]

  -- The end of a round: the next one starts behind what was written.
  unfoldable pub end_round :
      (ℕ → Store Page t.Map Locks → List (ℕ × V) → BatchResult (Store Page t.Map Locks))
      → ℕ
      → List (ℕ × V)
      → Option (ℕ × Store Page t.Map Locks)
      → BatchResult (Store Page t.Map Locks)
  end_round next num_attempts records none = failed
  end_round next num_attempts records (some (num_written, s)) =
      if num_written == 0 && leb max_attempts num_attempts
      then too_many_attempts
      else next (if num_written == 0 then num_attempts else 0) s (drop num_written records)

  unfoldable pub put_batch_impl :
      ℕ → ℕ → Store Page t.Map Locks → List (ℕ × V) → BatchResult (Store Page t.Map Locks)
  unfolding write_range end_round
  put_batch_impl fuel num_attempts s [] = written s
  put_batch_impl zero num_attempts s ((key, value) ∷ records) = cut_off
  put_batch_impl (suc fuel) num_attempts s ((key, value) ∷ records) =
      end_round (put_batch_impl fuel) (num_attempts + 1) ((key, value) ∷ records)
        (write_range s key ((key, value) ∷ records))

  -- `PutBatch`, with the rounds that are enough.
  unfoldable pub put_batch :
      Store Page t.Map Locks → List (ℕ × V) → BatchResult (Store Page t.Map Locks)
  unfolding put_batch_impl
  put_batch s records = put_batch_impl (length records * max_attempts + max_attempts) 0 s records

  length-drop : (n : ℕ) (rs : List (ℕ × V)) → length (drop n rs) ≡ length rs - n
  length-drop zero rs = omega arith
  length-drop (suc n) [] = omega arith
  length-drop (suc n) (r ∷ rs) = omega (arith, length-drop n rs)

  -- Rounds from a store to another, each of which starts behind the records that the last one wrote, until
  -- none is left.
  pub data Rounds : Store Page t.Map Locks → List (ℕ × V) → Store Page t.Map Locks → Type 0 where
    none_left : (s : Store Page t.Map Locks) → Rounds s [] s
    round :
        (s s1 s' : Store Page t.Map Locks) (key num_written : ℕ) (value : V)
        (records : List (ℕ × V))
        → write_range s key ((key, value) ∷ records) ≡ some (num_written, s1)
        → Rounds s1 (drop num_written ((key, value) ∷ records)) s'
        → Rounds s ((key, value) ∷ records) s'

  -- The batch is written in rounds, or there is an exception: the loop is not cut off.
  abbrev pub Ends :
      Store Page t.Map Locks → List (ℕ × V) → BatchResult (Store Page t.Map Locks) → Type 0
  Ends s records (written s') = Rounds s records s'
  Ends s records too_many_attempts = Unit {0}
  Ends s records failed = Unit {0}
  Ends s records cut_off = ⊥

  step-Ends :
      (s s1 : Store Page t.Map Locks) (key num_written : ℕ) (value : V) (records : List (ℕ × V))
      (result : BatchResult (Store Page t.Map Locks))
      → write_range s key ((key, value) ∷ records) ≡ some (num_written, s1)
      → Ends s1 (drop num_written ((key, value) ∷ records)) result
      → Ends s ((key, value) ∷ records) result
  step-Ends s s1 key num_written value records (written s') e h =
      round s s1 s' key num_written value records e h
  step-Ends s s1 key num_written value records too_many_attempts e h = tt
  step-Ends s s1 key num_written value records failed e h = tt
  step-Ends s s1 key num_written value records cut_off e h = h

  -- A round ends, if the next ones do.
  round-Ends :
      (fuel num_attempts : ℕ) (s : Store Page t.Map Locks) (key : ℕ) (value : V)
      (records : List (ℕ × V)) (w : Option (ℕ × Store Page t.Map Locks))
      → write_range s key ((key, value) ∷ records) ≡ w
      → num_attempts ≤ max_attempts
      → suc (length records) * max_attempts + (max_attempts - num_attempts) ≤ fuel
      → ((k : ℕ) (s : Store Page t.Map Locks) (rest : List (ℕ × V))
          → k < max_attempts
          → length rest * max_attempts + (max_attempts - k) ≤ fuel
          → Ends s rest (put_batch_impl fuel k s rest))
      → Ends s
          ((key, value) ∷ records)
          (end_round (put_batch_impl fuel) num_attempts ((key, value) ∷ records) w)
  unfolding end_round
  round-Ends fuel num_attempts s key value records none e attempts enough next = tt
  round-Ends fuel num_attempts s key value records (some (num_written, s1)) e attempts enough next =
      let all : List (ℕ × V) = (key, value) ∷ records in
      let left = length-drop num_written all in
      let go =
        λ (k : ℕ) (few : k < max_attempts)
            (enough' : length (drop num_written all) * max_attempts + (max_attempts - k) ≤ fuel).
          step-Ends s s1 key num_written value records
            (put_batch_impl fuel k s1 (drop num_written all)) e
            (next k s1 (drop num_written all) few enough') in
      elim (Bool-cases (num_written == 0)) [
        | inl nothing ↦ elim (Bool-cases (leb max_attempts num_attempts)) [
          | inl over ↦ rw (nothing, over) tt
          | inr more ↦ rw (nothing, more) (go num_attempts (ground arith) (ground arith))
        ]
        | inr progress ↦ rw progress (go 0 (omega arith) (ground arith))
      ]

  -- With more rounds than a thousand for each record, and a thousand, the loop ends.
  put_batch_impl-Ends :
      (fuel num_attempts : ℕ) (s : Store Page t.Map Locks) (records : List (ℕ × V))
      → num_attempts < max_attempts
      → length records * max_attempts + (max_attempts - num_attempts) ≤ fuel
      → Ends s records (put_batch_impl fuel num_attempts s records)
  unfolding put_batch_impl
  put_batch_impl-Ends fuel num_attempts s [] attempts enough = none_left s
  put_batch_impl-Ends zero num_attempts s ((key, value) ∷ records) attempts enough =
      absurd (omega arith)
  put_batch_impl-Ends (suc fuel) num_attempts s ((key, value) ∷ records) attempts enough =
      round-Ends fuel (num_attempts + 1) s key value records
        (write_range s key ((key, value) ∷ records)) refl (omega arith) (omega arith)
        (λ k s' rest attempts' enough'. put_batch_impl-Ends fuel k s' rest attempts' enough')

  -- Writing a batch ends, whatever the pages, the index and the rewrites do. Either it ends with an exception,
  -- or the records were written in rounds: each round gives a segment the records from its first key on, the
  -- next one starts behind as many records as the round says it wrote, and after the last one none is left.
  pub put_batch-Ends :
      (s : Store Page t.Map Locks) (records : List (ℕ × V)) → Ends s records (put_batch s records)
  unfolding put_batch
  put_batch-Ends s records =
      put_batch_impl-Ends (length records * max_attempts + max_attempts) 0 s records (omega arith)
        (omega arith)
