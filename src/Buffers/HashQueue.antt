-- ===== src/Buffers/HashQueue.antt =====
-- util/hash_queue.h: a queue from which any item can be taken.
-- The linked list is the list of its items, front first, and the map from items to nodes is the list of
-- its keys; the node of a key is the first that holds it.
use treeline.Prelude.{
  ℕ, Bool, true, false, Option, none, some, List, [], ◌∷◌, ◌++◌, ◌==◌, ◌||◌, if◌then◌else◌,
}

pub record HashQueue : Type 0 where
  pub items : List ℕ
  pub mapped : List ℕ

abbrev pub empty_queue : HashQueue
empty_queue = record { items = []; mapped = [] }

abbrev pub has : ℕ → List ℕ → Bool
has x [] = false
has x (y ∷ ys) = x == y || has x ys

-- Takes out the first node with the item.
unfoldable pub unlink : ℕ → List ℕ → List ℕ
unlink x [] = []
unlink x (y ∷ ys) = if x == y then ys else y ∷ unlink x ys

unfoldable pub is_empty : HashQueue → Bool
is_empty q = elim q.items [ [] ↦ true | _ ↦ false ]

-- An insertion into the map keeps a key that is there.
unfoldable pub enqueue : HashQueue → ℕ → HashQueue
enqueue q item = record {
  items = q.items ++ (item ∷ []);
  mapped = if has item q.mapped then q.mapped else item ∷ q.mapped;
}

unfoldable pub dequeue_from : List ℕ → HashQueue → Option ℕ × HashQueue
unfolding unlink
dequeue_from [] q = (none, q)
dequeue_from (item ∷ rest) q = (some item, record { items = rest; mapped = unlink item q.mapped })

-- `none` is the value 0 of an empty queue, a null pointer for frames.
unfoldable pub dequeue : HashQueue → Option ℕ × HashQueue
unfolding dequeue_from
dequeue q = dequeue_from q.items q

unfoldable pub contains : HashQueue → ℕ → Bool
contains q item = has item q.mapped

unfoldable pub delete : HashQueue → ℕ → Bool × HashQueue
unfolding unlink
delete q item =
    if has item q.mapped
    then (true, record { items = unlink item q.items; mapped = unlink item q.mapped })
    else (false, q)

unfoldable pub move_to_back : HashQueue → ℕ → Bool × HashQueue
unfolding unlink enqueue
move_to_back q item =
    if has item q.mapped
    then (true, record q { items = unlink item q.items ++ (item ∷ []) })
    else (false, enqueue q item)
