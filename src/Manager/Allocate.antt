-- ===== src/Manager/Allocate.antt =====
-- page_grouping/manager.cc and page_grouping/free_list.cc: where the next overflow pages come from.
use treeline.Prelude.{
  ℕ, suc, ◌+◌, ◌≤◌, ◌<◌, ◌≡◌, ◌≢◌, ◌⊎◌, inl, inr, refl, sym, ◌∙◌, subst, true, some, List, [], ◌∷◌,
  arith, length, set, get_or-set, length-set, All,
}
use treeline.Segments.{SegmentId, offset_unit, get_file_id, get_offset, is_valid, make_segment_id}
use treeline.FreeList
use treeline.FreeList.{FreeList, take_front}
use treeline.FreeList.Queues.{queue}
use treeline.Manager.Store.{Store, address, allocate_at_end, take_or_allocate, allocate_page}

-- The page at the address is in the queue of free pages.
abbrev pub InQueue : ℕ → List SegmentId → Type 0
InQueue a [] = ⊥
InQueue a (id ∷ ids) = (a ≡ address id 0) ⊎ InQueue a ids

-- The free pages are valid ids below the end of the file, and none is there twice.
abbrev pub AreSpare : ℕ → List SegmentId → Type 0
AreSpare file_end [] = Unit {0}
AreSpare file_end (id ∷ ids) =
    (is_valid id ≡ true)
    × (address id 0 < file_end)
    × All (λ x. address x 0 ≢ address id 0) ids
    × AreSpare file_end ids

not_again :
    (a : ℕ) (id : SegmentId) (ids : List SegmentId)
    → All (λ x. address x 0 ≢ address id 0) ids
    → InQueue a ids
    → a ≢ address id 0
not_again a id [] h m = elim m [ ]
not_again a id (x ∷ ids) h (inl e) = λ same. h.0 (sym e ∙ same)
not_again a id (x ∷ ids) h (inr m) = not_again a id ids h.1 m

below_end :
    (a file_end : ℕ) (ids : List SegmentId) → AreSpare file_end ids → InQueue a ids → a < file_end
below_end a file_end [] h m = elim m [ ]
below_end a file_end (x ∷ ids) h (inl e) = omega arith
below_end a file_end (x ∷ ids) h (inr m) = below_end a file_end ids h.3 m

later_end :
    (file_end : ℕ) (ids : List SegmentId) → AreSpare file_end ids → AreSpare (file_end + 1) ids
later_end file_end [] h = tt
later_end file_end (x ∷ ids) h = (h.0, omega arith, h.2, later_end file_end ids h.3)

module _ {Page Map Locks : Type 0} where
  -- The page at the address can be handed out.
  abbrev pub Available : Store Page Map Locks → ℕ → Type 0
  Available s a = InQueue a (queue s.free 0) ⊎ ((s.file_end ≤ a) × (a < offset_unit))

  -- The free pages are sound, and the next `n` allocations stay in range.
  pub record HasRoom (s : Store Page Map Locks) (n : ℕ) : Type 0 where
    pub listed : 0 < length s.free.list
    pub spare : AreSpare s.file_end (queue s.free 0)
    pub room : s.file_end + n < offset_unit

  -- `id` is handed out, and `s'` is left.
  pub record Allocates (s : Store Page Map Locks) (n : ℕ) (id : SegmentId)
      (s' : Store Page Map Locks) : Type 0 where
    pub disk : s'.disk ≡ s.disk
    pub index : s'.index ≡ s.index
    pub valid : is_valid id ≡ true
    pub available : Available s (address id 0)
    pub fewer : (a : ℕ) → Available s' a → Available s a × (a ≢ address id 0)
    pub room : HasRoom s' n

  end_fewer :
      (s : Store Page Map Locks) (a : ℕ)
      → AreSpare s.file_end (queue s.free 0)
      → Available (record s { file_end = s.file_end + 1 }) a
      → Available s a × (a ≢ s.file_end)
  end_fewer s a h (inl m) =
      let below = below_end a s.file_end (queue s.free 0) h m in (inl m, λ e. absurd (omega arith))
  end_fewer s a h (inr above) = (inr (omega arith, above.1), λ e. absurd (omega arith))

  at_end :
      (s : Store Page Map Locks) (n : ℕ)
      → HasRoom s (suc n)
      → (id : SegmentId) × (s' : Store Page Map Locks) × (allocate_at_end s ≡ some (id, s'))
        × Allocates s n id s'
  unfolding allocate_at_end make_segment_id get_file_id get_offset is_valid
  at_end s n h =
      let room = h.room in
      let at : address (record { value = s.file_end }) 0 ≡ s.file_end = omega arith in
      (
        record { value = s.file_end },
        record s { file_end = s.file_end + 1 },
        ground arith,
        record {
          disk = refl;
          index = refl;
          valid = ground arith;
          available = inr (omega arith, omega arith);
          fewer = λ a m. let less = end_fewer s a h.spare m in (less.0, λ e. less.1 (e ∙ at));
          room = record {
            listed = h.listed;
            spare = later_end s.file_end (queue s.free 0) h.spare;
            room = omega arith;
          };
        },
      )

  queue_fewer :
      (s : Store Page Map Locks) (id : SegmentId) (rest : List SegmentId) (f : FreeList) (a : ℕ)
      → AreSpare s.file_end (id ∷ rest)
      → queue s.free 0 ≡ id ∷ rest
      → queue f 0 ≡ rest
      → Available (record s { free = f }) a
      → Available s a × (a ≢ address id 0)
  queue_fewer s id rest f a h e e' (inl m) =
      let m' : InQueue a rest = subst (InQueue a) e' m in
      (inl (subst (InQueue a) (sym e) (inr m')), not_again a id rest h.2 m')
  queue_fewer s id rest f a h e e' (inr above) = (inr above, λ same. absurd (omega arith))

  from_queue :
      (s : Store Page Map Locks) (n : ℕ) (q : List SegmentId)
      → HasRoom s (suc n)
      → queue s.free 0 ≡ q
      → (id : SegmentId) × (s' : Store Page Map Locks) × (take_or_allocate s
            (some (take_front s.free 0 q))
          ≡ some (id, s'))
        × Allocates s n id s'
  unfolding take_or_allocate take_front
  from_queue s n [] h e = at_end s n h
  from_queue s n (id ∷ rest) h e =
      let f : FreeList = record { list = set s.free.list 0 rest } in
      let now : queue f 0 ≡ rest = get_or-set s.free.list 0 0 rest [] h.listed in
      let spare = subst (AreSpare s.file_end) e h.spare in
      (
        id,
        record s { free = f },
        refl,
        record {
          disk = refl;
          index = refl;
          valid = spare.0;
          available = inl (subst (InQueue (address id 0)) (sym e) (inl refl));
          fewer = λ a m. queue_fewer s id rest f a spare e now m;
          room = record {
            listed = rw (length-set s.free.list 0 rest) h.listed;
            spare = subst (AreSpare s.file_end) (sym now) spare.3;
            room = omega (arith, h.room);
          };
        },
      )

  -- With room for one page more, a page is handed out.
  pub allocate_lem :
      (s : Store Page Map Locks) (n : ℕ)
      → HasRoom s (suc n)
      → (id : SegmentId) × (s' : Store Page Map Locks) × (allocate_page s ≡ some (id, s'))
        × Allocates s n id s'
  unfolding allocate_page FreeList.get FreeList.page_count_to_segment
  allocate_lem s n h = from_queue s n (queue s.free 0) h refl
