-- ===== src/FreeList/Queues.antt =====
-- The free list as one first-in first-out queue for each segment size.
use treeline.Prelude.{
  ℕ, ◌^◌, ◌<◌, ◌≡◌, refl, ◌∙◌, sym, ◌⊎◌, inl, inr, none, some, List, [], ◌∷◌, ◌++◌, ◌==◌,
  if◌then◌else◌, arith, length, set, get_or, get_or-set, length-set, All, All-append, Bool-cases,
  Option-cases, ==_iff,
}
use mathlib.Core.List.{append-nil, append_assoc}
use treeline.Segments.{SegmentId, get_file_id}
use treeline.FreeList.{FreeList, page_count_to_segment, add_impl, add_batch, take_front, get}

abbrev pub queue : FreeList → ℕ → List SegmentId
queue f k = get_or f.list k []

-- The ids of one file, in order.
abbrev pub of_file : ℕ → List SegmentId → List SegmentId
of_file k [] = []
of_file k (id ∷ ids) = if k == get_file_id id then id ∷ of_file k ids else of_file k ids

abbrev pub InRange : FreeList → List SegmentId → Type 0
InRange f ids = All (λ id. get_file_id id < length f.list) ids

add_impl_lem :
    (f : FreeList) (id : SegmentId)
    → get_file_id id < length f.list
    → (f' : FreeList) × (add_impl f id ≡ some f')
      × (length f'.list ≡ length f.list)
      × ((k : ℕ) → queue f' k ≡ (if k == get_file_id id then queue f k ++ (id ∷ []) else queue f k))
unfolding add_impl
add_impl_lem f id h = (
  record { list = set f.list (get_file_id id) (queue f (get_file_id id) ++ (id ∷ [])) },
  ground arith,
  length-set f.list (get_file_id id) _,
  λ k.
      ground
        (arith, get_or-set f.list (get_file_id id) k (queue f (get_file_id id) ++ (id ∷ [])) [] h),
)

-- Ids whose files are all in range are added, each at the end of its file's queue, in order.
pub add_batch_lem :
    (ids : List SegmentId) (f : FreeList)
    → InRange f ids
    → (f' : FreeList) × (add_batch f ids ≡ some f')
      × (length f'.list ≡ length f.list)
      × ((k : ℕ) → queue f' k ≡ queue f k ++ of_file k ids)
unfolding add_batch
add_batch_lem [] f h = (f, refl, refl, λ k. sym (append-nil (queue f k)))
add_batch_lem (id ∷ ids) f h =
    let (f', e, l, q) = add_impl_lem f id h.0 in
    let (f'', e', l', q') = add_batch_lem ids f' (rw l h.1) in
    (
      f'',
      rw (e, add_batch) e',
      l' ∙ l,
      λ k. ground (arith, q k, q' k, append_assoc (queue f k) (id ∷ []) (of_file k ids)),
    )

-- Where the queue of a size is empty, `Get` returns nothing and keeps the list; otherwise it returns the
-- front of that queue, and removes it there and nowhere else.
pub get_lem :
    (f : FreeList) (page_count c : ℕ)
    → page_count_to_segment page_count ≡ some c
    → c < length f.list
    → ((queue f c ≡ []) × (get f page_count ≡ some (none, f)))
      ⊎ ((id : SegmentId) × (rest : List SegmentId) × (f' : FreeList) × (queue f c ≡ id ∷ rest)
          × (get f page_count ≡ some (some id, f'))
          × ((k : ℕ) → queue f' k ≡ (if k == c then rest else queue f k)))
unfolding get
get_lem f page_count c e h = rw (e, get) (go (queue f c) refl)
  where
    go :
        (q : List SegmentId)
        → queue f c ≡ q
        → ((q ≡ []) × (some (take_front f c q) ≡ some (none, f)))
          ⊎ ((id : SegmentId) × (rest : List SegmentId) × (f' : FreeList) × (q ≡ id ∷ rest)
              × (some (take_front f c q) ≡ some (some id, f'))
              × ((k : ℕ) → queue f' k ≡ (if k == c then rest else queue f k)))
    go [] e' = inl (refl, refl)
    go (id ∷ rest) e' = inr (
      id,
      rest,
      record { list = set f.list c rest },
      refl,
      refl,
      λ k. get_or-set f.list c k rest [] h,
    )

-- Every id is in the queue of its own file.
abbrev pub IsFiled : FreeList → Type 0
IsFiled f = (k : ℕ) → All (λ id. get_file_id id ≡ k) (queue f k)

of_file-All : (k : ℕ) (ids : List SegmentId) → All (λ id. get_file_id id ≡ k) (of_file k ids)
of_file-All k [] = tt
of_file-All k (id ∷ ids) = ground (arith, of_file-All k ids)

-- A batch in range keeps every id in the queue of its own file.
pub add_batch-IsFiled :
    (ids : List SegmentId) (f f' : FreeList)
    → InRange f ids
    → add_batch f ids ≡ some f'
    → IsFiled f
    → IsFiled f'
add_batch-IsFiled ids f f' h e v k =
    let (g, e', l, q) = add_batch_lem ids f h in
    let same_list : g ≡ f' = ground (arith, e, e') in
    rw (← same_list, q k) (All-append _ (queue f k) (of_file k ids) (v k) (of_file-All k ids))

page_count_cases :
    (page_count c : ℕ)
    → page_count_to_segment page_count ≡ some c
    → ((c ≡ 0) × (page_count ≡ 1))
      ⊎ ((c ≡ 1) × (page_count ≡ 2))
      ⊎ ((c ≡ 2) × (page_count ≡ 4))
      ⊎ ((c ≡ 3) × (page_count ≡ 8))
      ⊎ ((c ≡ 4) × (page_count ≡ 16))
unfolding page_count_to_segment
page_count_cases page_count c e = ground arith

page_count_of_segment :
    (page_count c : ℕ) → page_count_to_segment page_count ≡ some c → (c < 5) × (2 ^ c ≡ page_count)
page_count_of_segment page_count c e = elim (page_count_cases page_count c e) [
  | inl (i, p) ↦ rw (i, p) (omega arith, refl)
  | inr (inl (i, p)) ↦ rw (i, p) (omega arith, refl)
  | inr (inr (inl (i, p))) ↦ rw (i, p) (omega arith, refl)
  | inr (inr (inr (inl (i, p)))) ↦ rw (i, p) (omega arith, refl)
  | inr (inr (inr (inr (i, p)))) ↦ rw (i, p) (omega arith, refl)
]

get-unknown_size :
    (f : FreeList) (page_count : ℕ)
    → page_count_to_segment page_count ≡ none
    → get f page_count ≡ none
unfolding get
get-unknown_size f page_count e = rw (e, get)

-- From a list with every id in the queue of its own file, `Get` returns ids of segments of the size
-- that was asked for, and keeps the ids so.
pub get_right_size :
    (f f' : FreeList) (page_count : ℕ) (id : SegmentId)
    → IsFiled f
    → length f.list ≡ 5
    → get f page_count ≡ some (some id, f')
    → (2 ^ get_file_id id ≡ page_count) × IsFiled f'
get_right_size f f' page_count id v five e =
    elim (Option-cases (page_count_to_segment page_count)) [
      | inl unknown ↦ cc (get-unknown_size f page_count unknown)
      | inr (c, known) ↦
          let size = page_count_of_segment page_count c known in
          elim (get_lem f page_count c known (omega (arith, size))) [
            | inl (_, e') ↦ cc e'
            | inr (id', rest, g, front, e', q) ↦
                let same_id : id' ≡ id = ground (arith, e, e') in
                let same_list : g ≡ f' = ground (arith, e, e') in
                let filed : All (λ i. get_file_id i ≡ c) (id' ∷ rest) = rw front at (v c) in
                (
                  rw (← same_id, filed.0) size.1,
                  λ k.
                      rw (← same_list, q k)
                        (elim (Bool-cases (k == c)) [
                          | inl hit ↦ rw (hit, (==_iff k c).0 hit) filed.1
                          | inr miss ↦ rw miss (v k)
                        ]),
                )
          ]
    ]
