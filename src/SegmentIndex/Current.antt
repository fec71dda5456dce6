-- ===== src/SegmentIndex/Current.antt =====
-- What is locked is what the index holds at that moment.
use treeline.Prelude.{
  ℕ, ◌<◌, ◌≤◌, ◌≡◌, refl, ap, subst, ◌⊎◌, Bool, true, false, ◌&&◌, not, Option, none, some, List,
  [], ◌∷◌, ltb, leb, if◌then◌else◌, drop, Bool-cases, Option-cases, inl, inr, arith,
}
use treeline.Segments.{SegmentInfo, info_id, has_overflow}
use treeline.Locks.Modes.{SegmentMode, SegmentLockState}
use treeline.Locks.Table.{CuckooMap}
use treeline.Locks.Segments.{try_acquire_segment_lock}
use treeline.SegmentIndex.OrderedMap.{OrderedMap, Item}
use treeline.SegmentIndex.Lookup.{
  Entry, upper_of, skip_clean, collect_overflow, region_from, segment_for_key_impl,
  next_overflow_region,
}
use treeline.SegmentIndex.Locking.{
  World, Find, lock_entry, find_with_lock, lock_segments, still_valid, front_lower, check_locked,
  lock_segments_for_rewrite,
}

module _ {Line : Type 0} where
  -- The entries of a region have an overflow and start below the end, and each adjoins the next.
  abbrev pub IsRegion : ℕ → List (Entry Line) → Type 0
  IsRegion end_key [] = Unit {0}
  IsRegion end_key (e ∷ []) = (e.lower < end_key) × (has_overflow e.sinfo ≡ true)
  IsRegion end_key (e ∷ e' ∷ es) =
      (e.lower < end_key)
      × (has_overflow e.sinfo ≡ true)
      × (e.upper ≡ e'.lower)
      × IsRegion end_key (e' ∷ es)

  -- The first item of the rest of a walk, if any, ends the skipping.
  abbrev Stops : ℕ → List (Item (SegmentInfo Line)) → Type 0
  Stops end_key [] = Unit {0}
  Stops end_key ((k, s) ∷ rest) = (end_key ≤ k) ⊎ (has_overflow s ≡ true)

  skip-Stops :
      (end_key : ℕ) (w : List (Item (SegmentInfo Line))) → Stops end_key (skip_clean end_key w)
  unfolding skip_clean
  skip-Stops end_key [] = tt
  skip-Stops end_key ((k, s) ∷ rest) = elim (Bool-cases (ltb k end_key && not (has_overflow s))) [
    | inl clean ↦ rw clean (skip-Stops end_key rest)
    | inr stop ↦ rw stop (ground arith)
  ]

  collect-IsRegion :
      (end_key k : ℕ) (s : SegmentInfo Line) (rest : List (Item (SegmentInfo Line)))
      → k < end_key
      → has_overflow s ≡ true
      → IsRegion end_key
          (record { lower = k; upper = upper_of rest; sinfo = s } ∷ collect_overflow end_key rest)
  unfolding collect_overflow upper_of
  collect-IsRegion end_key k s [] below overflow = (below, overflow)
  collect-IsRegion end_key k s ((k', s') ∷ rest) below overflow =
      ground (arith, collect-IsRegion end_key k' s' rest)

  from-IsRegion :
      (end_key : ℕ) (rest : List (Item (SegmentInfo Line)))
      → Stops end_key rest
      → IsRegion end_key (region_from end_key rest)
  unfolding region_from
  from-IsRegion end_key [] h = tt
  from-IsRegion end_key ((k, s) ∷ rest) h = elim (Bool-cases (leb end_key k)) [
    | inl past ↦ rw past tt
    | inr below ↦ rw below (collect-IsRegion end_key k s rest (ground arith) (ground (arith, h)))
  ]

  module _ (t : OrderedMap (SegmentInfo Line)) where
    -- The region that is searched for has overflows only, starts below the end key, and is one run of
    -- adjoining segments.
    pub next_overflow-IsRegion :
        (m : t.Map) (start_key end_key : ℕ)
        → IsRegion end_key (next_overflow_region t m start_key end_key)
    unfolding next_overflow_region
    next_overflow-IsRegion m start_key end_key =
        let w = drop (segment_for_key_impl t m start_key) (t.walk m) in
        from-IsRegion end_key (skip_clean end_key w) (skip-Stops end_key w)

    module _ (k : CuckooMap SegmentLockState) where
      -- The entry was found in a world in which the request for its lock is granted.
      abbrev pub IsCurrent : Find t k → SegmentMode → Entry Line → World t k → Type 0
      IsCurrent find mode e w' =
          (w0 : World t k) × (find w0.index ≡ some e)
          × (w'.index ≡ w0.index)
          × (try_acquire_segment_lock k w0.locks (info_id e.sinfo).value mode ≡ (w'.locks, true))

      attempt-IsCurrent :
          (find : Find t k) (w w' : World t k) (mode : SegmentMode) (e e' : Entry Line)
          (later : Option (Option (Entry Line) × World t k))
          → find w.index ≡ some e'
          → (later ≡ some (some e, w') → IsCurrent find mode e w')
          → (if (lock_entry t k w mode e').1
              then some (some e', (lock_entry t k w mode e').0)
              else later)
            ≡ some (some e, w')
          → IsCurrent find mode e w'
      unfolding lock_entry
      attempt-IsCurrent find w w' mode e e' later found after h =
          let (locks', answer) = try_acquire_segment_lock k w.locks (info_id e'.sinfo).value mode in
          elim (Bool-cases answer) [
            | inr refused ↦ after (rw refused at h)
            | inl granted ↦
                let h' : some (some e', record w { locks = locks' }) ≡ some (some e, w') =
                  rw granted at h in
                let same_entry : e' ≡ e = cc h' in
                let same_world : record w { locks = locks' } ≡ w' = cc h' in
                subst (λ x. IsCurrent find mode x w') same_entry
                  (subst (λ x. IsCurrent find mode e' x) same_world
                    (w, found, refl, ap (λ b. (locks', b)) granted))
          ]

      -- A lookup that returns an entry found it in the index at the moment at which the lock was granted.
      pub find_with_lock-IsCurrent :
          (waits : List (World t k → World t k)) (find : Find t k) (w w' : World t k)
          (mode : SegmentMode) (e : Entry Line)
          → find_with_lock t k waits find w mode ≡ some (some e, w')
          → IsCurrent find mode e w'
      unfolding find_with_lock
      find_with_lock-IsCurrent [] find w w' mode e h = elim (Option-cases (find w.index)) [
        | inl nothing ↦ cc (rw (nothing, find_with_lock) at h)
        | inr (e', found) ↦
            attempt-IsCurrent find w w' mode e e' none found (λ x. cc x)
              (rw (found, find_with_lock) at h)
      ]
      find_with_lock-IsCurrent (others ∷ rest) find w w' mode e h =
          elim (Option-cases (find w.index)) [
            | inl nothing ↦ cc (rw (nothing, find_with_lock) at h)
            | inr (e', found) ↦
                attempt-IsCurrent find w w' mode e e' _ found
                  (find_with_lock-IsCurrent rest find (others (lock_entry t k w mode e').0) w' mode
                    e)
                  (rw (found, find_with_lock) at h)
          ]

      module _ (same_info : SegmentInfo Line → SegmentInfo Line → Bool) where
        -- The items of a walk begin with the entries, one after the other: each has the entry's lower bound and
        -- an equal info.
        abbrev pub InRow : List (Item (SegmentInfo Line)) → List (Entry Line) → Type 0
        InRow walk [] = Unit {0}
        InRow [] (e ∷ es) = ⊥
        InRow (i ∷ rest) (e ∷ es) = (i.0 ≡ e.lower) × (same_info i.1 e.sinfo ≡ true) × InRow rest es

        still_valid-InRow :
            (walk : List (Item (SegmentInfo Line))) (es : List (Entry Line))
            → still_valid t k same_info walk es ≡ true
            → InRow walk es
        unfolding still_valid
        still_valid-InRow walk [] h = tt
        still_valid-InRow [] (e ∷ es) h = cc h
        still_valid-InRow (i ∷ rest) (e ∷ es) h =
            (ground (arith, h), ground (arith, h), still_valid-InRow rest es (ground (arith, h)))

        -- The index from the first entry's lower bound on.
        abbrev pub from_front : t.Map → List (Entry Line) → List (Item (SegmentInfo Line))
        from_front m es = drop (t.lower_bound m (front_lower t k same_info es)) (t.walk m)

        check-InRow :
            (es : List (Entry Line)) (result : Bool × World t k) (w' : World t k)
            → check_locked t k same_info es result ≡ (true, w')
            → InRow (from_front w'.index es) es
        unfolding check_locked
        check-InRow es (false, w) w' h = cc h
        check-InRow es (true, w) w' h =
            elim (Bool-cases (still_valid t k same_info (from_front w.index es) es)) [
              | inl good ↦
                  let same_world : w ≡ w' = cc (rw good at h) in
                  subst (λ x. InRow (from_front x.index es) es) same_world
                    (still_valid-InRow (from_front w.index es) es good)
              | inr bad ↦ cc (rw bad at h)
            ]

        -- If locking a region for a rewrite succeeds, then the items of the index from the first segment's lower
        -- bound on begin with the region's segments, one after the other, with the same lower bounds and infos.
        pub lock_for_rewrite_current :
            (attempts : ℕ) (waits : List (World t k → World t k)) (w w' : World t k)
            (es : List (Entry Line))
            → lock_segments_for_rewrite t k same_info attempts waits w es ≡ (true, w')
            → InRow (from_front w'.index es) es
        unfolding lock_segments_for_rewrite
        lock_for_rewrite_current attempts waits w w' es h =
            check-InRow es (lock_segments t k attempts waits w [] es) w' h
