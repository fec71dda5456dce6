-- ===== src/Buffers/Strategy.antt =====
-- bufmgr/twoqueue_eviction.cc: what each operation does to the frames in the queues.
use treeline.Prelude.{
  ℕ, ◌<◌, ◌≡◌, ◌≢◌, refl, ap, sym, ◌∙◌, subst, Bool, true, false, not, ◌&&◌, ◌||◌, ◌⊎◌, inl, inr,
  none, some, List, [], ◌∷◌, ◌==◌, if◌then◌else◌, arith, Bool-cases,
}
use treeline.Buffers.HashQueue.{HashQueue, has, enqueue, delete, dequeue, is_empty}
use treeline.Buffers.Queues.{
  has-enqueue, enqueue-IsQueue, has-delete, delete-IsQueue, dequeue_lem, Takes,
}
use treeline.Buffers.Frames.{BufferFrame, TwoQueue, insert, remove, evict, inc_fix_count}
use treeline.Buffers.Sound.{AreQueues, IsQueued, is_fixed}

-- The frame `i` has left the queues, and the others stay.
pub record Leaves (q : TwoQueue) (n i : ℕ) (q' : TwoQueue) : Type 0 where
  pub queues : AreQueues q' n
  pub fifo : (j : ℕ) → has j q'.fifo.items ≡ has j q.fifo.items && not (j == i)
  pub lru : (j : ℕ) → has j q'.lru.items ≡ has j q.lru.items && not (j == i)

absent_stays : (i j : ℕ) (xs : List ℕ) → has i xs ≡ false → has j xs ≡ has j xs && not (j == i)
absent_stays i j xs h = elim (Bool-cases (j == i)) [
  | inl same ↦ let at : j ≡ i = ground arith in rw at (ground arith)
  | inr differs ↦ ground arith
]

and_first : (a b : Bool) → a && b ≡ true → a ≡ true
and_first a b h = ground arith

leave_fifo :
    (q : TwoQueue) (n i : ℕ)
    → AreQueues q n
    → has i q.lru.items ≡ false
    → Leaves q n i (record q { fifo = (delete q.fifo i).1 })
leave_fifo q n i a absent = record {
  queues = record {
    fifo-IsQueue = delete-IsQueue q.fifo i a.fifo-IsQueue;
    lru-IsQueue = a.lru-IsQueue;
    fifo_bound =
        λ j h. a.fifo_bound j (and_first _ _ (sym (has-delete q.fifo i j a.fifo-IsQueue) ∙ h));
    lru_bound = a.lru_bound;
  };
  fifo = λ j. has-delete q.fifo i j a.fifo-IsQueue;
  lru = λ j. absent_stays i j q.lru.items absent;
}

leave_lru :
    (q : TwoQueue) (n i : ℕ)
    → AreQueues q n
    → has i q.fifo.items ≡ false
    → Leaves q n i (record q { lru = (delete q.lru i).1 })
leave_lru q n i a absent = record {
  queues = record {
    fifo-IsQueue = a.fifo-IsQueue;
    lru-IsQueue = delete-IsQueue q.lru i a.lru-IsQueue;
    fifo_bound = a.fifo_bound;
    lru_bound = λ j h. a.lru_bound j (and_first _ _ (sym (has-delete q.lru i j a.lru-IsQueue) ∙ h));
  };
  fifo = λ j. absent_stays i j q.fifo.items absent;
  lru = λ j. has-delete q.lru i j a.lru-IsQueue;
}

join_bound :
    (x : HashQueue) (n i j : ℕ)
    → ((k : ℕ) → has k x.items ≡ true → k < n)
    → i < n
    → has j (enqueue x i).items ≡ true
    → j < n
join_bound x n i j bound below h = ground (arith, has-enqueue x i j, bound j)

other_stays : (x : HashQueue) (i j : ℕ) → j ≢ i → has j (enqueue x i).items ≡ has j x.items
other_stays x i j h = ground (arith, has-enqueue x i j)

self_joins : (x : HashQueue) (i : ℕ) → has i (enqueue x i).items ≡ true
self_joins x i = ground (arith, has-enqueue x i i)

module _ {ℓ} {P : Type ℓ} where
  pub remove-Leaves :
      (q : TwoQueue) (n i : ℕ) (f : BufferFrame P)
      → AreQueues q n
      → IsQueued q i f
      → is_fixed f ≡ false
      → Leaves q n i (remove q i (inc_fix_count f))
  unfolding remove inc_fix_count
  remove-Leaves q n i f a g unfixed = elim (Bool-cases f.been_in_lru) [
    | inl late ↦
        let absent : has i q.fifo.items ≡ false = ground (arith, g.in_fifo) in
        subst
          (λ b. Leaves q n i (
            if b
            then record q { lru = (delete q.lru i).1 }
            else (if f.been_in_fifo then record q { fifo = (delete q.fifo i).1 } else q)))
          (sym late) (leave_lru q n i a absent)
    | inr early ↦
        let absent : has i q.lru.items ≡ false = ground (arith, g.in_lru) in
        let left : Leaves q n i
            (if f.been_in_fifo then record q { fifo = (delete q.fifo i).1 } else q) =
          subst (λ b. Leaves q n i (if b then record q { fifo = (delete q.fifo i).1 } else q))
            (sym (g.unfixed unfixed)) (leave_fifo q n i a absent) in
        subst
          (λ b. Leaves q n i (
            if b
            then record q { lru = (delete q.lru i).1 }
            else (if f.been_in_fifo then record q { fifo = (delete q.fifo i).1 } else q)))
          (sym early) left
  ]

  -- The frame `i` has joined the queues, with its new flags.
  pub record Joins (q : TwoQueue) (n i : ℕ) (q' : TwoQueue) (f' : BufferFrame P) : Type 0 where
    pub queues : AreQueues q' n
    pub queued : IsQueued q' i f'
    pub fifo : (j : ℕ) → j ≢ i → has j q'.fifo.items ≡ has j q.fifo.items
    pub lru : (j : ℕ) → j ≢ i → has j q'.lru.items ≡ has j q.lru.items

  pub insert-Joins :
      (q : TwoQueue) (n i : ℕ) (f : BufferFrame P)
      → AreQueues q n
      → i < n
      → is_fixed f ≡ false
      → has i q.fifo.items ≡ false
      → has i q.lru.items ≡ false
      → (f.been_in_lru ≡ true → f.been_in_fifo ≡ true)
      → Joins q n i (insert q i f).0 (insert q i f).1
  unfolding insert
  insert-Joins q n i f a below unfixed no_fifo no_lru later = elim (Bool-cases f.been_in_fifo) [
    | inl again ↦
        let q' = record q { lru = enqueue q.lru i } in
        let f' = record f { been_in_lru = true } in
        let joined : Joins q n i q' f' = record {
          queues = record {
            fifo-IsQueue = a.fifo-IsQueue;
            lru-IsQueue = enqueue-IsQueue q.lru i a.lru-IsQueue no_lru;
            fifo_bound = a.fifo_bound;
            lru_bound = λ j h. join_bound q.lru n i j a.lru_bound below h;
          };
          queued = record {
            in_fifo = ground (arith);
            in_lru = ground (arith, self_joins q.lru i);
            unfixed = λ h. again;
            later = λ h. again;
          };
          fifo = λ j h. refl;
          lru = λ j h. other_stays q.lru i j h;
        } in
        subst
          (λ (b : Bool).
            let r : TwoQueue × BufferFrame P =
              if b
              then (q', f')
              else (record q { fifo = enqueue q.fifo i }, record f { been_in_fifo = true }) in
            Joins q n i r.0 r.1)
          (sym again) joined
    | inr first ↦
        let q' = record q { fifo = enqueue q.fifo i } in
        let f' = record f { been_in_fifo = true } in
        let early : f.been_in_lru ≡ false = ground (arith, later) in
        let joined : Joins q n i q' f' = record {
          queues = record {
            fifo-IsQueue = enqueue-IsQueue q.fifo i a.fifo-IsQueue no_fifo;
            lru-IsQueue = a.lru-IsQueue;
            fifo_bound = λ j h. join_bound q.fifo n i j a.fifo_bound below h;
            lru_bound = a.lru_bound;
          };
          queued = record {
            in_fifo = ground (arith, self_joins q.fifo i);
            in_lru = ground arith;
            unfixed = λ h. refl;
            later = λ h. refl;
          };
          fifo = λ j h. other_stays q.fifo i j h;
          lru = λ j h. refl;
        } in
        subst
          (λ (b : Bool).
            let r : TwoQueue × BufferFrame P =
              if b
              then (record q { lru = enqueue q.lru i }, record f { been_in_lru = true })
              else (q', f') in
            Joins q n i r.0 r.1)
          (sym first) joined
  ]

empty_lem : (q : HashQueue) → q.items ≡ [] → is_empty q ≡ true
unfolding is_empty
empty_lem q h = rw (h, is_empty) refl

full_lem : (q : HashQueue) (x : ℕ) (rest : List ℕ) → q.items ≡ x ∷ rest → is_empty q ≡ false
unfolding is_empty
full_lem q x rest h = rw (h, is_empty) refl

first_there : (x : ℕ) (xs rest : List ℕ) → xs ≡ x ∷ rest → has x xs ≡ true
first_there x xs rest h = ground (arith, h)

take_fifo :
    (q : TwoQueue) (n i : ℕ) (fifo : HashQueue)
    → AreQueues q n
    → has i q.lru.items ≡ false
    → Takes q.fifo i fifo
    → Leaves q n i (record q { fifo = fifo })
take_fifo q n i fifo a absent t = record {
  queues = record {
    fifo-IsQueue = t.rest-IsQueue;
    lru-IsQueue = a.lru-IsQueue;
    fifo_bound = λ j h. a.fifo_bound j (and_first _ _ (sym (t.items j) ∙ h));
    lru_bound = a.lru_bound;
  };
  fifo = t.items;
  lru = λ j. absent_stays i j q.lru.items absent;
}

take_lru :
    (q : TwoQueue) (n i : ℕ) (lru : HashQueue)
    → AreQueues q n
    → has i q.fifo.items ≡ false
    → Takes q.lru i lru
    → Leaves q n i (record q { lru = lru })
take_lru q n i lru a absent t = record {
  queues = record {
    fifo-IsQueue = a.fifo-IsQueue;
    lru-IsQueue = t.rest-IsQueue;
    fifo_bound = a.fifo_bound;
    lru_bound = λ j h. a.lru_bound j (and_first _ _ (sym (t.items j) ∙ h));
  };
  fifo = λ j. absent_stays i j q.fifo.items absent;
  lru = t.items;
}

-- The two cases of the test of the first queue.
evict_first :
    (q : TwoQueue)
    → is_empty q.fifo ≡ false
    → evict q ≡ ((dequeue q.fifo).0, record q { fifo = (dequeue q.fifo).1 })
unfolding evict
evict_first q h = rw (h, evict) refl

evict_second :
    (q : TwoQueue)
    → is_empty q.fifo ≡ true
    → evict q ≡ ((dequeue q.lru).0, record q { lru = (dequeue q.lru).1 })
unfolding evict
evict_second q h = rw (h, evict) refl

pub evict_lem :
    (q : TwoQueue) (n : ℕ)
    → AreQueues q n
    → ((j : ℕ) → has j q.fifo.items && has j q.lru.items ≡ false)
    → ((q.fifo.items ≡ []) × (q.lru.items ≡ []) × ((evict q).0 ≡ none))
      ⊎ ((i : ℕ) × (q' : TwoQueue) × (evict q ≡ (some i, q'))
          × (has i q.fifo.items || has i q.lru.items ≡ true)
          × Leaves q n i q')
evict_lem q n a apart = elim (dequeue_lem q.fifo a.fifo-IsQueue) [
  | inr (i, fifo, e, t) ↦
      let there = first_there i q.fifo.items fifo.items t.first in
      let absent : has i q.lru.items ≡ false = ground (arith, apart i) in
      inr (
        i,
        record q { fifo = fifo },
        evict_first q (full_lem q.fifo i fifo.items t.first)
            ∙ ap (λ p. (p.0, record q { fifo = p.1 })) e,
        ground arith,
        take_fifo q n i fifo a absent t,
      )
  | inl (empty, e) ↦
      let second = evict_second q (empty_lem q.fifo empty) in
      elim (dequeue_lem q.lru a.lru-IsQueue) [
        | inl (empty', e') ↦ inl (empty, empty', ap (λ p. p.0) second ∙ ap (λ p. p.0) e')
        | inr (i, lru, e', t) ↦
            let absent : has i q.fifo.items ≡ false = ap (has i) empty in
            let there = first_there i q.lru.items lru.items t.first in
            inr (
              i,
              record q { lru = lru },
              second ∙ ap (λ p. (p.0, record q { lru = p.1 })) e',
              ground arith,
              take_lru q n i lru a absent t,
            )
      ]
]
