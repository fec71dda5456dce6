-- ===== src/Builder/Model.antt =====
-- page_grouping/segment_builder.cc: the stream builder. The piecewise linear regression (the abstract
-- class `PLRBuilder` of page_grouping/plr/plr.h) and its lines work on floats, and are an interface, whose
-- laws are about the streams that the builder offers.
use treeline.Prelude.{
  ℕ, zero, suc, ◌+◌, ◌-◌, ◌*◌, ◌%◌, ◌^◌, ◌≤◌, ◌<◌, ◌≡◌, Bool, true, false, ◌&&◌, Option, none, some,
  List, [], ◌∷◌, ◌++◌, ltb, leb, if◌then◌else◌, length, get_or, take, drop, map,
}
use treeline.FreeList.{segment_page_counts}

-- What a regression is after a stream of points: the first is (0, 0), the x ascend, each y counts the points
-- before, and none has ended a line. The indices are the number of points and the last x.
pub data Fed {Plr Line : Type 0} (offer : Plr → ℕ → ℕ → Plr × Option Line) (make_plr : Plr)
    : Plr → ℕ → ℕ → Type 0 where
  fed_first : Fed offer make_plr (offer make_plr 0 0).0 1 0
  fed_next :
      (b : Plr) (n last x : ℕ)
      → Fed offer make_plr b n last
      → last < x
      → (offer b x n).1 ≡ none
      → Fed offer make_plr (offer b x n).0 (suc n) x

-- `offer b x y` is `Offer` of the point (x, y); `below l x n` is the comparison of floats `l(x) < n`, and
-- `above l x n` is `1.0 + max(0.0, l(x)) < n`. The laws are about one line of such a stream, up to the point
-- that ends it: the line passes the first point with an error below `error_bound`, which is a whole number
-- above `records_per_page_epsilon_`, and it takes more than one point for `Finish` to have none.
pub record Regression : Type 1 where
  pub Line : Type 0
  pub Plr : Type 0
  pub make_plr : Plr
  pub offer : Plr → ℕ → ℕ → Plr × Option Line
  pub finish : Plr → Option Line
  pub rescale : Line → ℕ → Line
  pub below : Line → ℕ → ℕ → Bool
  pub above : Line → ℕ → ℕ → Bool
  pub error_bound : ℕ
  pub finish_none : (b : Plr) (n last : ℕ) → Fed offer make_plr b n last → finish b ≡ none → n ≤ 1
  pub offer_passes_origin :
      (b : Plr) (n last x k : ℕ) (l : Line)
      → Fed offer make_plr b n last
      → last < x
      → (offer b x n).1 ≡ some l
      → error_bound ≤ k
      → below l 0 k ≡ true
  pub finish_passes_origin :
      (b : Plr) (n last k : ℕ) (l : Line)
      → Fed offer make_plr b n last
      → finish b ≡ some l
      → error_bound ≤ k
      → below l 0 k ≡ true

pub data State : Type 0 where
  need_base has_base filling_single_page : State

-- A key with the record's value, which is only moved.
abbrev pub Item : Type 0 → Type 0
Item V = ℕ × V

abbrev pub max_key_diff : ℕ
max_key_diff = 2 ^ 53

-- Keys are 64-bit words, and their difference wraps.
abbrev pub key_diff : ℕ → ℕ → ℕ
key_diff key base_key = (key + 2 ^ 64 - base_key) % 2 ^ 64

module _ (g : Regression) (V : Type 0) where
  open g use {Line, Plr, make_plr, offer, finish, rescale, below, above}

  pub record Segment : Type 0 where
    pub base_key : ℕ
    pub page_count : ℕ
    pub records : List (Item V)
    pub model : Option Line

  -- `max_records_in_segment` is computed from floats by the constructor.
  pub record Builder : Type 0 where
    pub records_per_page_goal : ℕ
    pub max_records_in_segment : ℕ
    pub state : State
    pub plr : Plr
    pub base_key : ℕ
    pub processed_records : List (Item V)

  unfoldable pub allowed_records : Builder → List ℕ
  unfolding segment_page_counts
  allowed_records b = map (λ pages. pages * b.records_per_page_goal) segment_page_counts

  unfoldable pub reset_stream : Builder → Builder
  reset_stream b = record b {
    processed_records = [];
    state = need_base;
    plr = make_plr;
    base_key = 0;
  }

  -- `CreateSegmentUsing`: the first `num_records` records leave the builder.
  unfoldable pub create_segment_using : Builder → Option Line → ℕ → ℕ → Segment × Builder
  create_segment_using b model page_count num_records = (
    record {
      base_key = b.base_key;
      page_count = page_count;
      records = take num_records b.processed_records;
      model = model;
    },
    record b { processed_records = drop num_records b.processed_records },
  )

  abbrev pub last_key : ℕ → List (Item V) → ℕ
  last_key key [] = key
  last_key key (r ∷ rs) = last_key r.0 rs

  -- How many allowed sizes come before the first that is above the position of the last record.
  abbrev pub count_sizes : Line → ℕ → List ℕ → ℕ
  count_sizes l x [] = 0
  count_sizes l x (n ∷ ns) = if above l x n then 0 else 1 + count_sizes l x ns

  -- `ComputeSegmentSizeIndex`, plus one.
  unfoldable pub segment_size_end : Builder → Line → ℕ
  unfolding allowed_records
  segment_size_end b l =
      count_sizes l (key_diff (last_key b.base_key b.processed_records) b.base_key)
        (allowed_records b)

  abbrev pub count_below : Line → ℕ → ℕ → List (Item V) → ℕ
  count_below l base_key n [] = 0
  count_below l base_key n (r ∷ rs) =
      if below l (key_diff r.0 base_key) n then 1 + count_below l base_key n rs else 0

  -- `ComputeNumRecordsInSegment`: the partition point that the binary search looks for.
  unfoldable pub num_records_in_segment : Builder → Line → ℕ → ℕ
  unfolding allowed_records
  num_records_in_segment b l segment_size_idx =
      count_below l b.base_key (get_or (allowed_records b) segment_size_idx 0) b.processed_records

  -- What an operation leaves: the segments it emits and the builder, or `none` where the fuel of the
  -- re-offering runs out.
  abbrev pub Outcome : Type 0
  Outcome = Option (List Segment × Builder)

  -- The loop of `DrainRemainingRecordsAndReset`, over an `Offer`.
  unfoldable pub offer_all :
      (Builder → Item V → Outcome) → List Segment → Builder → List (Item V) → Outcome
  offer_all again to_return b [] = some (to_return, b)
  offer_all again to_return b (r ∷ rs) = elim (again b r) [
    | none ↦ none
    | some (res, b') ↦ offer_all again (to_return ++ res) b' rs
  ]

  unfoldable pub drain :
      (Builder → Item V → Outcome) → List Segment → Builder → List (Item V) → Outcome
  unfolding reset_stream
  drain again to_return b extra =
      offer_all again to_return (reset_stream b) (b.processed_records ++ extra)

  unfoldable pub single_page : Builder → Segment × Builder
  single_page b = create_segment_using b none 1 (get_or (allowed_records b) 0 0)

  unfoldable pub many_pages : Builder → Line → ℕ → Segment × Builder
  many_pages b l segment_size_idx =
      create_segment_using b (some (rescale l b.records_per_page_goal))
        (get_or segment_page_counts segment_size_idx 0)
        (num_records_in_segment b l segment_size_idx)

  unfoldable pub push : Builder → Item V → Builder
  push b r = record b { processed_records = b.processed_records ++ (r ∷ []) }

  -- The size of a single page, `allowed_records_per_segment_[0]`.
  unfoldable pub target_size : Builder → ℕ
  unfolding allowed_records
  target_size b = get_or (allowed_records b) 0 0

  unfoldable pub emit_and_drain :
      (Builder → Item V → Outcome) → Segment × Builder → List (Item V) → Outcome
  emit_and_drain again (segment, b) extra = drain again (segment ∷ []) b extra

  unfoldable pub fill_single_page : (Builder → Item V → Outcome) → Builder → Item V → Outcome
  fill_single_page again b r =
      if ltb (length b.processed_records) (target_size b)
      then some ([], record (push b r) { state = filling_single_page })
      else emit_and_drain again (single_page b) (r ∷ [])

  -- The part of `Offer` below the question whether the regression absorbs the record.
  unfoldable pub close_segment :
      (Builder → Item V → Outcome) → Builder → Item V → Option Line → Outcome
  close_segment again b r none = fill_single_page again b r
  close_segment again b r (some l) =
      if leb (segment_size_end b l) 1
      then fill_single_page again b r
      else emit_and_drain again (many_pages b l (segment_size_end b l - 1)) (r ∷ [])

  unfoldable pub offer_has_base : (Builder → Item V → Outcome) → Builder → Item V → Outcome
  offer_has_base again b r =
      let diff = key_diff r.0 b.base_key in
      if ltb (length b.processed_records) b.max_records_in_segment && leb diff max_key_diff
      then (let (plr', line) = offer b.plr diff (length b.processed_records) in
          let b' = record b { plr = plr' } in
          elim line [ none ↦ some ([], push b' r) | some l ↦ close_segment again b' r (some l) ])
      else close_segment again b r (finish b.plr)

  unfoldable pub offer_need_base : Builder → Item V → Outcome
  offer_need_base b r =
      let b' = record b { base_key = r.0; plr = (offer make_plr 0 0).0; state = has_base } in
      some ([], push b' r)

  unfoldable pub offer_step : State → (Builder → Item V → Outcome) → Builder → Item V → Outcome
  offer_step need_base again b r = offer_need_base b r
  offer_step has_base again b r = offer_has_base again b r
  offer_step filling_single_page again b r = fill_single_page again b r

  unfoldable pub offer_record : ℕ → Builder → Item V → Outcome
  offer_record zero b r = none
  offer_record (suc fuel) b r = offer_step b.state (offer_record fuel) b r

  -- `Finish` re-offers what is left of its records, and calls itself.
  unfoldable pub finish_rest :
      (Builder → Item V → Outcome) → (Builder → Outcome) → Segment × Builder → Outcome
  finish_rest again finish_again made = elim (emit_and_drain again made []) [
    | none ↦ none
    | some (results, b) ↦ elim (finish_again b) [
      | none ↦ none
      | some (more, b') ↦ some (results ++ more, b')
    ]
  ]

  unfoldable pub finish_has_base :
      (Builder → Item V → Outcome) → (Builder → Outcome) → Builder → Option Line → Outcome
  finish_has_base again finish_again b none =
      let (segment, b') = create_segment_using b none 1 1 in some (segment ∷ [], reset_stream b')
  finish_has_base again finish_again b (some l) =
      if leb (segment_size_end b l) 1
      then finish_rest again finish_again (single_page b)
      else finish_rest again finish_again (many_pages b l (segment_size_end b l - 1))

  unfoldable pub finish_filling : Builder → Outcome
  finish_filling b = let (segment, b') = single_page b in some (segment ∷ [], reset_stream b')

  unfoldable pub finish_step :
      State → (Builder → Item V → Outcome) → (Builder → Outcome) → Builder → Outcome
  finish_step need_base again finish_again b = some ([], reset_stream b)
  finish_step has_base again finish_again b = finish_has_base again finish_again b (finish b.plr)
  finish_step filling_single_page again finish_again b = finish_filling b

  unfoldable pub finish_stream : ℕ → Builder → Outcome
  finish_stream zero b = none
  finish_stream (suc fuel) b = finish_step b.state (offer_record fuel) (finish_stream fuel) b

  unfoldable pub current_base_key : Builder → Option ℕ
  current_base_key b = elim b.state [ need_base ↦ none | _ ↦ some b.base_key ]

  -- `BuildFromDataset`. With `force_add_min_key` the reserved key 0 is offered first, with an empty
  -- value, and what that returns is discarded.
  unfoldable pub start_dataset : ℕ → Builder → Bool → V → Outcome
  start_dataset fuel b false empty = some ([], reset_stream b)
  start_dataset fuel b true empty = elim (offer_record fuel (reset_stream b) (0, empty)) [
    | none ↦ none
    | some (discarded, b') ↦ some ([], b')
  ]

  unfoldable pub build_from_dataset : ℕ → Builder → List (Item V) → Bool → V → Outcome
  build_from_dataset fuel b dataset force_add_min_key empty =
      elim (start_dataset fuel b force_add_min_key empty) [
        | none ↦ none
        | some (none_yet, b') ↦ elim (offer_all (offer_record fuel) none_yet b' dataset) [
          | none ↦ none
          | some (segments, b'') ↦ elim (finish_stream fuel b'') [
            | none ↦ none
            | some (more, end) ↦ some (segments ++ more, end)
          ]
        ]
      ]
