-- ===== src/Buffers/Queues.antt =====
-- util/hash_queue.h: a queue with no item twice, and what each operation does to its items.
use treeline.Prelude.{
  ℕ, ◌≡◌, refl, ap, sym, ◌∙◌, true, false, not, ◌&&◌, none, some, List, [], ◌∷◌, ◌++◌, ◌==◌, ◌||◌,
  arith, subst, ◌⊎◌, inl, inr, Bool-cases,
}
use treeline.Buffers.HashQueue.{HashQueue, has, unlink, enqueue, dequeue, dequeue_from, delete}

abbrev pub Distinct : List ℕ → Type 0
Distinct [] = Unit {0}
Distinct (x ∷ xs) = (has x xs ≡ false) × Distinct xs

-- No item stands twice, and the map has the items of the list.
pub record IsQueue (q : HashQueue) : Type 0 where
  pub distinct : Distinct q.items
  pub distinct_keys : Distinct q.mapped
  pub same : (x : ℕ) → has x q.mapped ≡ has x q.items

pub has-append : (y : ℕ) (xs ys : List ℕ) → has y (xs ++ ys) ≡ has y xs || has y ys
has-append y [] ys = refl
has-append y (x ∷ xs) ys = ground (arith, has-append y xs ys)

pub has-unlink :
    (x y : ℕ) (xs : List ℕ) → Distinct xs → has y (unlink x xs) ≡ has y xs && not (y == x)
unfolding unlink
has-unlink x y [] d = refl
has-unlink x y (z ∷ xs) d = ground (arith, has-unlink x y xs d.1, d.0)

pub unlink-Distinct : (x : ℕ) (xs : List ℕ) → Distinct xs → Distinct (unlink x xs)
unfolding unlink
unlink-Distinct x [] d = tt
unlink-Distinct x (z ∷ xs) d = ground (arith, has-unlink x z xs d.1, unlink-Distinct x xs d.1)

pub append-Distinct :
    (x : ℕ) (xs : List ℕ) → has x xs ≡ false → Distinct xs → Distinct (xs ++ (x ∷ []))
append-Distinct x [] h d = (refl, tt)
append-Distinct x (z ∷ xs) h d = ground (arith, has-append z xs (x ∷ []), append-Distinct x xs)

pub has-enqueue : (q : HashQueue) (x y : ℕ) → has y (enqueue q x).items ≡ has y q.items || (y == x)
unfolding enqueue
has-enqueue q x y = ground (arith, has-append y q.items (x ∷ []))

pub enqueue-IsQueue :
    (q : HashQueue) (x : ℕ) → IsQueue q → has x q.items ≡ false → IsQueue (enqueue q x)
unfolding enqueue
enqueue-IsQueue q x v h =
    let fresh : has x q.mapped ≡ false = v.same x ∙ h in
    record {
      distinct = append-Distinct x q.items h v.distinct;
      distinct_keys = rw fresh (fresh, v.distinct_keys);
      same = λ y. ground (arith, v.same y, has-append y q.items (x ∷ []));
    }

record-IsQueue :
    (q : HashQueue) (x : ℕ)
    → IsQueue q
    → has x q.mapped ≡ true
    → IsQueue (record { items = unlink x q.items; mapped = unlink x q.mapped })
record-IsQueue q x v h = record {
  distinct = unlink-Distinct x q.items v.distinct;
  distinct_keys = unlink-Distinct x q.mapped v.distinct_keys;
  same = λ y.
      has-unlink x y q.mapped v.distinct_keys
      ∙ (ap (λ b. b && not (y == x)) (v.same y) ∙ sym (has-unlink x y q.items v.distinct));
}

pub has-delete :
    (q : HashQueue) (x y : ℕ)
    → IsQueue q
    → has y (delete q x).1.items ≡ has y q.items && not (y == x)
unfolding delete
has-delete q x y v = elim (Bool-cases (has x q.mapped)) [
  | inl there ↦ rw there (has-unlink x y q.items v.distinct)
  | inr gone ↦ rw gone (ground (arith, v.same x))
]

pub delete-IsQueue : (q : HashQueue) (x : ℕ) → IsQueue q → IsQueue (delete q x).1
unfolding delete
delete-IsQueue q x v = elim (Bool-cases (has x q.mapped)) [
  | inl there ↦ rw there (record-IsQueue q x v there)
  | inr gone ↦ rw gone v
]

-- The queue with its first item taken.
pub record Takes (q : HashQueue) (x : ℕ) (q' : HashQueue) : Type 0 where
  pub first : q.items ≡ x ∷ q'.items
  pub rest-IsQueue : IsQueue q'
  pub items : (y : ℕ) → has y q'.items ≡ has y q.items && not (y == x)

pub dequeue_lem :
    (q : HashQueue)
    → IsQueue q
    → ((q.items ≡ []) × (dequeue q ≡ (none, q)))
      ⊎ ((x : ℕ) × (q' : HashQueue) × (dequeue q ≡ (some x, q')) × Takes q x q')
unfolding dequeue
dequeue_lem q v = take q.items refl
  where
    take :
        (items : List ℕ)
        → q.items ≡ items
        → ((q.items ≡ []) × (dequeue_from q.items q ≡ (none, q)))
          ⊎ ((x : ℕ) × (q' : HashQueue) × (dequeue_from q.items q ≡ (some x, q')) × Takes q x q')
    take [] e = inl (e, ap (λ l. dequeue_from l q) e)
    take (x ∷ rest) e =
        let distinct = subst Distinct e v.distinct in
        let there : has x q.mapped ≡ true = ground (arith, v.same x) in
        let items : (y : ℕ) → has y rest ≡ has y q.items && not (y == x) =
          λ y. ground (arith, e, distinct.0) in
        inr (
          x,
          record { items = rest; mapped = unlink x q.mapped },
          ap (λ l. dequeue_from l q) e,
          record {
            first = e;
            rest-IsQueue = record {
              distinct = distinct.1;
              distinct_keys = unlink-Distinct x q.mapped v.distinct_keys;
              same = λ y.
                  has-unlink x y q.mapped v.distinct_keys
                  ∙ (ap (λ b. b && not (y == x)) (v.same y) ∙ sym (items y));
            };
            items = items;
          },
        )
