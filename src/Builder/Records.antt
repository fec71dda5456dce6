-- ===== src/Builder/Records.antt =====
-- The records of the stream builder: what its segments and its own records hold together.
use treeline.Prelude.{
  ℕ, zero, suc, ◌-◌, ◌*◌, ◌^◌, subst, ◌≤◌, ◌<◌, ◌≡◌, refl, ap, sym, ◌∙◌, true, false, none, some,
  List, [], ◌∷◌, ◌++◌, leb, arith, length, take, get_or,
}
use mathlib.Core.List.{append_assoc}
use treeline.FreeList.{segment_page_counts}
use treeline.Builder.Model.{
  Fed, Regression, State, need_base, has_base, filling_single_page, Item, key_diff, Segment,
  Builder, allowed_records, reset_stream, segment_size_end, count_sizes, last_key, count_below,
  num_records_in_segment, Outcome,
}

module _ {V : Type 0} where
  -- The records begin with the one at the given key.
  abbrev pub Starts : ℕ → List (Item V) → Type 0
  Starts key [] = ⊥
  Starts key (r ∷ rs) = r.0 ≡ key

  abbrev pub InvOf : State → ℕ → ℕ → List (Item V) → Type 0
  InvOf need_base goal key rs = rs ≡ []
  InvOf has_base goal key rs = Starts key rs
  InvOf filling_single_page goal key rs = Starts key rs × (length rs ≤ goal)

  -- Keys of 64 bits that ascend from the bound on.
  abbrev pub IsStream : ℕ → List (Item V) → Type 0
  IsStream low [] = Unit {0}
  IsStream low (r ∷ rs) = (low ≤ r.0) × (r.0 < 2 ^ 64) × IsStream (suc r.0) rs

  IsStream-lower :
      (low low' : ℕ) (rs : List (Item V)) → low' ≤ low → IsStream low rs → IsStream low' rs
  IsStream-lower low low' [] h s = tt
  IsStream-lower low low' (r ∷ rs) h s = (omega (arith, h, s.0), s.1, s.2)

  pub prefix-IsStream :
      (low : ℕ) (rs more : List (Item V)) → IsStream low (rs ++ more) → IsStream low rs
  prefix-IsStream low [] more s = tt
  prefix-IsStream low (r ∷ rs) more s = (s.0, s.1, prefix-IsStream (suc r.0) rs more s.2)

  pub suffix-IsStream :
      (low : ℕ) (rs more : List (Item V)) → IsStream low (rs ++ more) → IsStream 0 more
  suffix-IsStream low [] more s = IsStream-lower low 0 more (omega arith) s
  suffix-IsStream low (r ∷ rs) more s = suffix-IsStream (suc r.0) rs more s.2

  -- The middle of a stream, up to the next record.
  pub next-IsStream :
      (low : ℕ) (before ps : List (Item V)) (r : Item V) (rs : List (Item V))
      → IsStream low (before ++ (ps ++ (r ∷ rs)))
      → IsStream 0 (ps ++ (r ∷ []))
  next-IsStream low before ps r rs s = prefix-IsStream 0 (ps ++ (r ∷ [])) rs (
      subst (IsStream 0) (sym (append_assoc ps (r ∷ []) rs))
        (suffix-IsStream low before (ps ++ (r ∷ rs)) s))

  pub Starts-append : (key : ℕ) (rs ys : List (Item V)) → Starts key rs → Starts key (rs ++ ys)
  Starts-append key [] ys h = absurd h
  Starts-append key (r ∷ rs) ys h = h

  pub Starts-take :
      (key n : ℕ) (rs : List (Item V)) → 0 < n → Starts key rs → Starts key (take n rs)
  Starts-take key zero rs h s = absurd (omega arith)
  Starts-take key (suc n) [] h s = absurd s
  Starts-take key (suc n) (r ∷ rs) h s = s

  pub length_pos : (key : ℕ) (rs : List (Item V)) → Starts key rs → 0 < length rs
  length_pos key [] h = absurd h
  length_pos key (r ∷ rs) h = omega arith

module _ (g : Regression) (V : Type 0) where
  abbrev pub all_records : List (Segment g V) → List (Item V)
  all_records [] = []
  all_records (s ∷ ss) = s.records ++ all_records ss

  pub all_records-append :
      (xs ys : List (Segment g V)) → all_records (xs ++ ys) ≡ all_records xs ++ all_records ys
  all_records-append [] ys = refl
  all_records-append (s ∷ ss) ys =
      ap (◌++◌ s.records) (all_records-append ss ys) ∙ sym (append_assoc s.records _ _)

  -- A segment holds a record at least, and starts at its base key.
  abbrev pub AllStart : List (Segment g V) → Type 0
  AllStart [] = Unit {0}
  AllStart (s ∷ ss) = Starts s.base_key s.records × AllStart ss

  pub AllStart-append :
      (xs ys : List (Segment g V)) → AllStart xs → AllStart ys → AllStart (xs ++ ys)
  AllStart-append [] ys a b = b
  AllStart-append (s ∷ ss) ys a b = (a.0, AllStart-append ss ys a.1 b)

  last_key-append :
      (key : ℕ) (rs : List (Item V)) (r : Item V) → last_key g V key (rs ++ (r ∷ [])) ≡ r.0
  last_key-append key [] r = refl
  last_key-append key (q ∷ rs) r = last_key-append q.0 rs r

  last_key_bounds :
      (key : ℕ) (rs : List (Item V)) (r : Item V)
      → IsStream (suc key) (rs ++ (r ∷ []))
      → (key ≤ last_key g V key rs) × (last_key g V key rs < r.0) × (r.0 < 2 ^ 64)
  last_key_bounds key [] r s = (omega arith, omega (arith, s.0), s.1)
  last_key_bounds key (q ∷ rs) r s =
      let (above, below, word) = last_key_bounds q.0 rs r s.2 in
      (omega (arith, above, s.0), below, word)

  -- The points offered to the regression have ascending x.
  pub diffs_ascend :
      (base_key : ℕ) (rs : List (Item V)) (r : Item V)
      → Starts base_key rs
      → IsStream 0 (rs ++ (r ∷ []))
      → key_diff (last_key g V base_key rs) base_key < key_diff r.0 base_key
  diffs_ascend base_key [] r h s = absurd h
  diffs_ascend base_key (q ∷ rs) r h s =
      let (above, below, word) = last_key_bounds q.0 rs r s.2 in
      omega (arith, h, above, below, word)

  -- The key of the last point, once another record is kept.
  pub diff-append :
      (base_key : ℕ) (rs : List (Item V)) (r : Item V)
      → key_diff (last_key g V base_key (rs ++ (r ∷ []))) base_key ≡ key_diff r.0 base_key
  diff-append base_key rs r = ap (λ k. key_diff k base_key) (last_key-append base_key rs r)

  -- The records kept fit the state, and the builder makes pages of `goal` records.
  pub record IsValid (goal : ℕ) (b : Builder g V) : Type 0 where
    pub goal_is : b.records_per_page_goal ≡ goal
    pub fits : InvOf b.state goal b.base_key b.processed_records
    pub fed :
        b.state ≡ has_base
        → Fed g.offer g.make_plr b.plr
            (length b.processed_records)
            (key_diff (last_key g V b.base_key b.processed_records) b.base_key)

  -- The operation ends; what it emits and what it keeps are the given records, in order.
  abbrev pub Conserves : ℕ → List (Item V) → Outcome g V → Type 0
  Conserves goal rs none = ⊥
  Conserves goal rs (some (segments, b)) =
      (all_records segments ++ b.processed_records ≡ rs) × IsValid goal b × AllStart segments

  pub reset-IsValid :
      (goal : ℕ) (b : Builder g V)
      → b.records_per_page_goal ≡ goal
      → IsValid goal (reset_stream g V b)
  unfolding reset_stream
  reset-IsValid goal b h = record { goal_is = h; fits = refl; fed = λ e. absurd (cc) }

  count_sizes-le : (l : g.Line) (x : ℕ) (ns : List ℕ) → count_sizes g V l x ns ≤ length ns
  count_sizes-le l x [] = omega arith
  count_sizes-le l x (n ∷ ns) = ground (arith, count_sizes-le l x ns)

  allowed-ge :
      (b : Builder g V) (idx : ℕ)
      → 0 < idx
      → idx < 5
      → 2 * b.records_per_page_goal ≤ get_or (allowed_records g V b) idx 0
  unfolding allowed_records segment_page_counts
  allowed-ge b zero h k = absurd (omega arith)
  allowed-ge b (suc zero) h k = omega arith
  allowed-ge b (suc (suc zero)) h k = omega arith
  allowed-ge b (suc (suc (suc zero))) h k = omega arith
  allowed-ge b (suc (suc (suc (suc zero)))) h k = omega arith
  allowed-ge b (suc (suc (suc (suc (suc n))))) h k = absurd (omega arith)

  count_below_pos :
      (l : g.Line) (key n : ℕ) (rs : List (Item V))
      → Starts key rs
      → g.below l 0 n ≡ true
      → 0 < count_below g V l key n rs
  count_below_pos l key n [] s h = absurd s
  count_below_pos l key n (r ∷ rs) s h =
      let same : key_diff r.0 key ≡ 0 = omega arith in rw (same, h) (omega arith)

  segment_size_end-le : (b : Builder g V) (l : g.Line) → segment_size_end g V b l ≤ 5
  unfolding segment_size_end allowed_records segment_page_counts
  segment_size_end-le b l =
      count_sizes-le l (key_diff (last_key g V b.base_key b.processed_records) b.base_key)
        (allowed_records g V b)

  -- A segment of several pages gets the first record at least.
  pub records_in_segment_pos :
      (goal : ℕ) (b : Builder g V) (l : g.Line)
      → ((n : ℕ) → 2 * goal ≤ n → g.below l 0 n ≡ true)
      → b.records_per_page_goal ≡ goal
      → Starts b.base_key b.processed_records
      → leb (segment_size_end g V b l) 1 ≡ false
      → 0 < num_records_in_segment g V b l (segment_size_end g V b l - 1)
  unfolding num_records_in_segment
  records_in_segment_pos goal b l low v s several =
      count_below_pos l b.base_key _ b.processed_records s
        (low _ (rw (← v) (allowed-ge b _ (ground arith) (omega (arith, segment_size_end-le b l)))))
