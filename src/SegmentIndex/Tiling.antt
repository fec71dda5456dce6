-- ===== src/SegmentIndex/Tiling.antt =====
-- The segments of an index tile the keys from the first segment's lower bound on.
use treeline.Prelude.{
  ℕ, suc, ◌+◌, ◌-◌, ◌≤◌, ◌<◌, ◌≡◌, ◌≢◌, refl, ap, ◌∙◌, ◌⊎◌, inl, inr, Option, none, some, List, [],
  ◌∷◌, leb, if◌then◌else◌, arith, drop, Bool-cases,
}
use treeline.Segments.{SegmentInfo}
use treeline.SegmentIndex.OrderedMap.{OrderedMap, Item, Ascending, count_le}
use treeline.SegmentIndex.Lookup.{
  Entry, max_key, upper_of, entry_at, segment_for_key_impl, segment_for_key, next_segment_for_key,
  get_segment_bounds_for,
}

module _ {Line : Type 0} where
  -- The index has a segment that starts at or below the key.
  abbrev pub Covers : List (Item (SegmentInfo Line)) → ℕ → Type 0
  Covers [] key = ⊥
  Covers ((k, s) ∷ rest) key = k ≤ key

  -- The rest of a walk from the last item whose key is at most the given one.
  abbrev stop_at : ℕ → List (Item (SegmentInfo Line)) → List (Item (SegmentInfo Line))
  stop_at key [] = []
  stop_at key (i ∷ []) = i ∷ []
  stop_at key (i ∷ (k, s) ∷ rest) =
      let later = stop_at key ((k, s) ∷ rest) in if leb k key then later else i ∷ (k, s) ∷ rest

  abbrev lower_at : List (Item (SegmentInfo Line)) → ℕ
  lower_at [] = 0
  lower_at (i ∷ rest) = i.0

  abbrev tail_of : List (Item (SegmentInfo Line)) → List (Item (SegmentInfo Line))
  tail_of [] = []
  tail_of (i ∷ rest) = rest

  drop-stop_at :
      (w : List (Item (SegmentInfo Line))) (key : ℕ)
      → Covers w key
      → (drop (count_le key w - 1) w ≡ stop_at key w)
        × (drop (count_le key w) w ≡ tail_of (stop_at key w))
        × (0 < count_le key w)
  drop-stop_at [] key h = absurd h
  drop-stop_at (i ∷ []) key h = ground arith
  drop-stop_at ((k', s') ∷ (k, s) ∷ rest) key h =
      let c = count_le key ((k, s) ∷ rest) in
      let all : count_le key ((k', s') ∷ (k, s) ∷ rest) ≡ suc c = ground arith in
      let less : suc c - 1 ≡ c = omega arith in
      rw (all, less)
        (elim (Bool-cases (leb k key)) [
          | inl more ↦
              let (d, d', p) = drop-stop_at ((k, s) ∷ rest) key (ground arith) in
              let up : 1 + count_le key rest ≡ suc (count_le key rest) = omega arith in
              let down : 1 + count_le key rest - 1 ≡ count_le key rest = omega arith in
              rw (more, up) (rw (more, down) at d, rw (more, up) at d', omega arith)
          | inr last ↦ rw last (refl, refl, omega arith)
        ])

  stop_at-bounds :
      (w : List (Item (SegmentInfo Line))) (key : ℕ)
      → Covers w key
      → key < max_key
      → (lower_at (stop_at key w) ≤ key)
        × (key < upper_of (tail_of (stop_at key w)))
        × (stop_at key w ≢ [])
  unfolding upper_of
  stop_at-bounds [] key h small = absurd h
  stop_at-bounds (i ∷ []) key h small = ground arith
  stop_at-bounds (i ∷ (k, s) ∷ rest) key h small =
      ground (arith, stop_at-bounds ((k, s) ∷ rest) key)

  lower_at-stop_at :
      (w : List (Item (SegmentInfo Line))) (key : ℕ)
      → Ascending w
      → lower_at w ≤ lower_at (stop_at key w)
  lower_at-stop_at [] key a = omega arith
  lower_at-stop_at (i ∷ []) key a = omega arith
  lower_at-stop_at (i ∷ (k, s) ∷ rest) key a =
      ground (arith, lower_at-stop_at ((k, s) ∷ rest) key a.1)

  stop_at-same :
      (w : List (Item (SegmentInfo Line))) (key key' : ℕ)
      → Ascending w
      → Covers w key
      → lower_at (stop_at key w) ≤ key'
      → key' < upper_of (tail_of (stop_at key w))
      → stop_at key' w ≡ stop_at key w
  unfolding upper_of
  stop_at-same [] key key' a h lo hi = refl
  stop_at-same (i ∷ []) key key' a h lo hi = refl
  stop_at-same (i ∷ (k, s) ∷ rest) key key' a h lo hi =
      ground
        (arith, stop_at-same ((k, s) ∷ rest) key key' a.1, lower_at-stop_at ((k, s) ∷ rest) key a.1)

  entry_lem :
      (w : List (Item (SegmentInfo Line)))
      → w ≢ []
      → (e : Entry Line) × (entry_at w ≡ some e)
        × (e.lower ≡ lower_at w)
        × (e.upper ≡ upper_of (tail_of w))
  unfolding entry_at
  entry_lem [] h = absurd (h refl)
  entry_lem ((k, s) ∷ rest) h =
      (record { lower = k; upper = upper_of rest; sinfo = s }, refl, refl, refl)

  entry_at-bounds :
      (w : List (Item (SegmentInfo Line))) (e : Entry Line)
      → entry_at w ≡ some e
      → (e.lower ≡ lower_at w) × (e.upper ≡ upper_of (tail_of w))
  unfolding entry_at
  entry_at-bounds [] e h = cc
  entry_at-bounds (i ∷ rest) e h = ground arith

  Covers-above :
      (w : List (Item (SegmentInfo Line))) (key key' : ℕ)
      → Covers w key
      → lower_at w ≤ key'
      → Covers w key'
  Covers-above [] key key' h le = h
  Covers-above (i ∷ rest) key key' h le = le

  -- The next entry of a walk adjoins the one at its head.
  Adjoins : List (Item (SegmentInfo Line)) → Entry Line → Type 0
  Adjoins next e =
      ((entry_at next ≡ none) × (e.upper ≡ max_key))
      ⊎ ((e' : Entry Line) × (entry_at next ≡ some e') × (e'.lower ≡ e.upper))

  Adjoins-tail :
      (w : List (Item (SegmentInfo Line))) (e : Entry Line)
      → entry_at w ≡ some e
      → Adjoins (tail_of w) e
  unfolding entry_at Adjoins
  Adjoins-tail [] e h = cc
  Adjoins-tail (i ∷ []) e h = inl (refl, ground arith)
  Adjoins-tail (i ∷ (k, s) ∷ rest) e h =
      inr (record { lower = k; upper = upper_of rest; sinfo = s }, refl, ground arith)

  bounds_of : List (Item (SegmentInfo Line)) → Option (ℕ × ℕ)
  bounds_of w = elim w [ [] ↦ none | i ∷ rest ↦ some (i.0, upper_of rest) ]

  bounds_of-entry :
      (w : List (Item (SegmentInfo Line))) (e : Entry Line)
      → entry_at w ≡ some e
      → bounds_of w ≡ some (e.lower, e.upper)
  unfolding entry_at bounds_of
  bounds_of-entry [] e h = cc
  bounds_of-entry (i ∷ rest) e h = ground arith

  module _ (t : OrderedMap (SegmentInfo Line)) where
    open t use {Map, walk, upper_bound_lem, walk-Ascending}

    impl-stop_at :
        (m : Map) (key : ℕ)
        → Covers (walk m) key
        → drop (segment_for_key_impl t m key) (walk m) ≡ stop_at key (walk m)
    unfolding segment_for_key_impl
    impl-stop_at m key h =
        let (d, d', p) = drop-stop_at (walk m) key h in
        let e : segment_for_key_impl t m key ≡ count_le key (walk m) - 1 =
          ground (arith, upper_bound_lem m key) in
        rw e d

    -- A key that is not below the first segment and is not the largest key has a segment, whose bounds
    -- hold the key.
    pub segment_holds_key :
        (m : Map) (key : ℕ)
        → Covers (walk m) key
        → key < max_key
        → (e : Entry Line) × (segment_for_key t m key ≡ some e) × (e.lower ≤ key) × (key < e.upper)
    unfolding segment_for_key
    segment_holds_key m key h small =
        let (lo, hi, full) = stop_at-bounds (walk m) key h small in
        let (e, found, l, u) = entry_lem (stop_at key (walk m)) full in
        (e, rw (impl-stop_at m key h) found, rw l lo, rw u hi)

    -- Every key within the bounds of that segment is given the same segment.
    pub segment_is_unique :
        (m : Map) (key key' : ℕ) (e : Entry Line)
        → Covers (walk m) key
        → segment_for_key t m key ≡ some e
        → e.lower ≤ key'
        → key' < e.upper
        → segment_for_key t m key' ≡ some e
    unfolding segment_for_key
    segment_is_unique m key key' e h found lo hi =
        let w = walk m in
        let here : entry_at (stop_at key w) ≡ some e = rw (impl-stop_at m key h) at found in
        let (l, u) = entry_at-bounds (stop_at key w) e here in
        let first = lower_at-stop_at w key (walk-Ascending m) in
        let h' = Covers-above w key key' h (omega arith) in
        rw (impl-stop_at m key' h')
          (rw (stop_at-same w key key' (walk-Ascending m) h (omega arith) (omega arith)) here)

    -- The bounds of a key's segment are those of its entry, and the next segment starts where it ends;
    -- if there is no next one it ends at the largest key.
    pub next_segment_adjoins :
        (m : Map) (key : ℕ) (e : Entry Line)
        → Covers (walk m) key
        → segment_for_key t m key ≡ some e
        → (get_segment_bounds_for t m key ≡ some (e.lower, e.upper))
          × (((next_segment_for_key t m key ≡ none) × (e.upper ≡ max_key))
              ⊎ ((e' : Entry Line) × (next_segment_for_key t m key ≡ some e')
                  × (e'.lower ≡ e.upper)))
    unfolding segment_for_key next_segment_for_key get_segment_bounds_for bounds_of Adjoins
    next_segment_adjoins m key e h found =
        let w = walk m in
        let here : entry_at (stop_at key w) ≡ some e = rw (impl-stop_at m key h) at found in
        let (d, d', p) = drop-stop_at w key h in
        (
          ap bounds_of (impl-stop_at m key h) ∙ bounds_of-entry (stop_at key w) e here,
          rw (upper_bound_lem m key, d') (Adjoins-tail (stop_at key w) e here),
        )
