-- ===== src/Buffers/Calls.antt =====
-- util/hash_queue.h: a history of calls answers as a list does.
use treeline.Prelude.{
  ℕ, ◌≡◌, refl, ap, sym, ◌∙◌, Bool, false, Option, none, some, List, [], ◌∷◌, ◌++◌, ◌==◌,
  if◌then◌else◌, arith, inl, inr, Bool-cases, subst,
}
use treeline.Buffers.HashQueue.{
  HashQueue, empty_queue, has, unlink, enqueue, dequeue, delete, move_to_back, contains,
}
use treeline.Buffers.Queues.{
  Distinct, IsQueue, enqueue-IsQueue, delete-IsQueue, dequeue_lem, unlink-Distinct, has-unlink,
  append-Distinct, has-append,
}

pub data QueueCall : Type 0 where
  enqueue_call delete_call move_call contains_call : ℕ → QueueCall
  dequeue_call : QueueCall

-- What a call answers: whether an item was there, an item, or nothing.
pub data Answer : Type 0 where
  done : Answer
  found : Bool → Answer
  item : Option ℕ → Answer

abbrev pub queue_call : QueueCall → HashQueue → Answer × HashQueue
queue_call (enqueue_call x) q = (done, enqueue q x)
queue_call (delete_call x) q = (found (delete q x).0, (delete q x).1)
queue_call (move_call x) q = (found (move_to_back q x).0, (move_to_back q x).1)
queue_call (contains_call x) q = (found (contains q x), q)
queue_call dequeue_call q = (item (dequeue q).0, (dequeue q).1)

abbrev pub without : ℕ → List ℕ → List ℕ
without x [] = []
without x (y ∷ ys) = if x == y then without x ys else y ∷ without x ys

abbrev pub list_call : QueueCall → List ℕ → Answer × List ℕ
list_call (enqueue_call x) xs = (done, xs ++ (x ∷ []))
list_call (delete_call x) xs = (found (has x xs), without x xs)
list_call (move_call x) xs = (found (has x xs), without x xs ++ (x ∷ []))
list_call (contains_call x) xs = (found (has x xs), xs)
list_call dequeue_call [] = (item none, [])
list_call dequeue_call (x ∷ xs) = (item (some x), xs)

-- An item is put into the queue where it is not there.
abbrev pub Allowed : QueueCall → List ℕ → Type 0
Allowed (enqueue_call x) xs = has x xs ≡ false
Allowed call xs = Unit {0}

abbrev pub AllAllowed : List QueueCall → List ℕ → Type 0
AllAllowed [] xs = Unit {0}
AllAllowed (call ∷ calls) xs = Allowed call xs × AllAllowed calls (list_call call xs).1

abbrev pub queue_run : List QueueCall → HashQueue → List Answer × HashQueue
queue_run [] q = ([], q)
queue_run (call ∷ calls) q =
    let (answer, q') = queue_call call q in
    let (answers, q'') = queue_run calls q' in (answer ∷ answers, q'')

abbrev pub list_run : List QueueCall → List ℕ → List Answer × List ℕ
list_run [] xs = ([], xs)
list_run (call ∷ calls) xs =
    let (answer, xs') = list_call call xs in
    let (answers, xs'') = list_run calls xs' in (answer ∷ answers, xs'')

without_absent : (x : ℕ) (xs : List ℕ) → has x xs ≡ false → without x xs ≡ xs
without_absent x [] h = refl
without_absent x (y ∷ ys) h = ground (arith, without_absent x ys)

unlink_lem : (x : ℕ) (xs : List ℕ) → Distinct xs → unlink x xs ≡ without x xs
unfolding unlink
unlink_lem x [] d = refl
unlink_lem x (y ∷ ys) d = ground (arith, unlink_lem x ys d.1, without_absent x ys, d.0)

-- The queue holds the items of the list, and after the call those of the list's call.
abbrev Agrees : QueueCall → HashQueue → Type 0
Agrees call q =
    ((queue_call call q).0 ≡ (list_call call q.items).0)
    × ((queue_call call q).1.items ≡ (list_call call q.items).1)
    × IsQueue (queue_call call q).1

move-Agrees : (q : HashQueue) (x : ℕ) → IsQueue q → Agrees (move_call x) q
unfolding move_to_back enqueue
move-Agrees q x v = elim (Bool-cases (has x q.mapped)) [
  | inl there ↦
      let absent : has x (unlink x q.items) ≡ false =
        ground (arith, has-unlink x x q.items v.distinct) in
      rw there (
        ap found (sym there ∙ v.same x),
        ap (λ l. l ++ (x ∷ [])) (unlink_lem x q.items v.distinct),
        record {
          distinct =
              append-Distinct x (unlink x q.items) absent (unlink-Distinct x q.items v.distinct);
          distinct_keys = v.distinct_keys;
          same = λ y. ground (
            arith,
            v.same y,
            v.same x,
            has-append y (unlink x q.items) (x ∷ []),
            has-unlink x y q.items v.distinct,
          );
        },
      )
  | inr gone ↦
      let absent : has x q.items ≡ false = sym (v.same x) ∙ gone in
      rw gone (
        ap found (sym absent),
        ap (λ l. l ++ (x ∷ [])) (sym (without_absent x q.items absent)),
        rw gone at (enqueue-IsQueue q x v absent),
      )
]

delete-Agrees : (q : HashQueue) (x : ℕ) → IsQueue q → Agrees (delete_call x) q
unfolding delete
delete-Agrees q x v = elim (Bool-cases (has x q.mapped)) [
  | inl there ↦ (
    rw there (ap found (sym there ∙ v.same x)),
    rw there (unlink_lem x q.items v.distinct),
    delete-IsQueue q x v,
  )
  | inr gone ↦
      let absent : has x q.items ≡ false = sym (v.same x) ∙ gone in
      (
        rw gone (ap found (sym absent)),
        rw gone (sym (without_absent x q.items absent)),
        delete-IsQueue q x v,
      )
]

dequeue-Agrees : (q : HashQueue) → IsQueue q → Agrees dequeue_call q
dequeue-Agrees q v = elim (dequeue_lem q v) [
  | inl (empty, e) ↦ (
    ap (λ p. item p.0) e ∙ sym (ap (λ l. (list_call dequeue_call l).0) empty),
    ap (λ p. p.1.items) e ∙ (empty ∙ sym (ap (λ l. (list_call dequeue_call l).1) empty)),
    subst (λ p. IsQueue p.1) (sym e) v,
  )
  | inr (x, q', e, taken) ↦ (
    ap (λ p. item p.0) e ∙ sym (ap (λ l. (list_call dequeue_call l).0) taken.first),
    ap (λ p. p.1.items) e ∙ sym (ap (λ l. (list_call dequeue_call l).1) taken.first),
    subst (λ p. IsQueue p.1) (sym e) taken.rest-IsQueue,
  )
]

call-Agrees : (call : QueueCall) (q : HashQueue) → IsQueue q → Allowed call q.items → Agrees call q
call-Agrees (enqueue_call x) q v ok = (refl, unfold enqueue in refl, enqueue-IsQueue q x v ok)
call-Agrees (delete_call x) q v ok = delete-Agrees q x v
call-Agrees (move_call x) q v ok = move-Agrees q x v
call-Agrees (contains_call x) q v ok = (ap found (unfold contains in v.same x), refl, v)
call-Agrees dequeue_call q v ok = dequeue-Agrees q v

pub no_items : IsQueue empty_queue
no_items = record { distinct = tt; distinct_keys = tt; same = λ x. refl }

run_agrees :
    (calls : List QueueCall) (q : HashQueue) (xs : List ℕ)
    → IsQueue q
    → q.items ≡ xs
    → AllAllowed calls xs
    → ((queue_run calls q).0 ≡ (list_run calls xs).0)
      × ((queue_run calls q).1.items ≡ (list_run calls xs).1)
run_agrees [] q xs v e ok = (refl, e)
run_agrees (call ∷ calls) q xs v e ok =
    let (answers, items, v') = call-Agrees call q v (subst (Allowed call) (sym e) ok.0) in
    let (later, left) =
      run_agrees calls (queue_call call q).1 (list_call call xs).1 v'
        (items ∙ ap (λ l. (list_call call l).1) e) ok.1 in
    let first = answers ∙ ap (λ l. (list_call call l).0) e in (rw (first, later) refl, left)

-- From an empty queue, any calls that put an item in only where it is not there answer as on a list:
-- `Dequeue` takes the front, `Delete` and `MoveToBack` find exactly the items that are there, and the
-- queue then holds the items of the list in its order.
pub queue_run-refines :
    (calls : List QueueCall)
    → AllAllowed calls []
    → ((queue_run calls empty_queue).0 ≡ (list_run calls []).0)
      × ((queue_run calls empty_queue).1.items ≡ (list_run calls []).1)
queue_run-refines calls ok = run_agrees calls empty_queue [] no_items refl ok
