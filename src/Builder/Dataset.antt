-- ===== src/Builder/Dataset.antt =====
-- `BuildFromDataset`: every record of a dataset ends up in a segment.
use treeline.Prelude.{
  ℕ, zero, suc, ◌+◌, ◌*◌, ◌≤◌, ◌<◌, ◌≡◌, refl, ap, sym, subst, inl, inr, Bool, true, false, none,
  some, List, [], ◌∷◌, ◌++◌, if◌then◌else◌, arith, length, length-append, Option-cases,
}
use mathlib.Core.List.{append_assoc}
use treeline.Builder.Model.{
  Regression, fed_first, Item, Segment, Builder, reset_stream, offer_all, offer_record,
  finish_stream, start_dataset, build_from_dataset, offer_step, offer_need_base, push,
}
use treeline.Builder.Records.{
  IsStream, suffix-IsStream, all_records, all_records-append, AllStart-append, Conserves,
}
use treeline.Builder.Conserve.{offer_all-Conserves, offer_record-Conserves}
use treeline.Builder.Finish.{Finishes, finish_stream-Finishes}

length-placeholder :
    {V : Type 0} (force : Bool) (r : V) (rs : List V) (fuel : ℕ)
    → length rs + 2 ≤ fuel
    → length ((if force then r ∷ [] else []) ++ rs) < fuel
length-placeholder false r rs fuel h = omega arith
length-placeholder true r rs fuel h = omega arith

module _ (g : Regression) (V : Type 0) where
  module _ (goal : ℕ) (pos : 0 < goal) (low : g.error_bound ≤ 2 * goal) where
    started :
        (fuel : ℕ) (b : Builder g V) (force : Bool) (empty : V)
        → b.records_per_page_goal ≡ goal
        → Conserves g V goal
            (if force then (0, empty) ∷ [] else [])
            (start_dataset g V (suc fuel) b force empty)
    unfolding start_dataset reset_stream offer_record offer_step offer_need_base push
    started fuel b false empty h =
        (refl, record { goal_is = h; fits = refl; fed = λ e. absurd (cc) }, tt)
    started fuel b true empty h =
        (refl, record { goal_is = h; fits = refl; fed = λ e. fed_first }, tt)

    -- The segments of the last step follow those emitted before it.
    concluded :
        (fuel : ℕ) (rs : List (Item V)) (segments : List (Segment g V)) (b : Builder g V)
        → Conserves g V goal rs (some (segments, b))
        → IsStream 0 rs
        → length rs < fuel
        → Finishes g V rs (elim (finish_stream g V fuel b) [
          | none ↦ none
          | some (more, end) ↦ some (segments ++ more, end)
        ])
    concluded fuel rs segments b c q h =
        let fewer : length b.processed_records < fuel =
          omega
            (arith, ap length c.0, length-append (all_records g V segments) b.processed_records) in
        let last =
          finish_stream-Finishes g V goal pos low fuel b c.1
            (suffix-IsStream 0 (all_records g V segments) b.processed_records
              (subst (IsStream 0) (sym c.0) q))
            fewer in
        elim (Option-cases (finish_stream g V fuel b)) [
          | inl stuck ↦ absurd (rw stuck at last)
          | inr ((more, end), e) ↦
              let rest : Finishes g V b.processed_records (some (more, end)) = rw e at last in
              rw e (
                cc (all_records-append g V segments more, rest.0, c.0),
                AllStart-append g V segments more c.2 rest.1,
                rest.2,
              )
        ]

    offered_all :
        (fuel : ℕ) (rs : List (Item V)) (segments : List (Segment g V)) (b : Builder g V)
        (dataset : List (Item V))
        → Conserves g V goal rs (some (segments, b))
        → IsStream 0 (rs ++ dataset)
        → length (rs ++ dataset) < fuel
        → Finishes g V
            (rs ++ dataset)
            (elim (offer_all g V (offer_record g V fuel) segments b dataset) [
              | none ↦ none
              | some (segments', b') ↦ elim (finish_stream g V fuel b') [
                | none ↦ none
                | some (more, end) ↦ some (segments' ++ more, end)
              ]
            ])
    offered_all fuel rs segments b dataset c q h =
        let all : all_records g V segments ++ (b.processed_records ++ dataset) ≡ rs ++ dataset =
          cc (append_assoc (all_records g V segments) b.processed_records dataset, c.0) in
        let fits : length b.processed_records + length dataset ≤ fuel = omega (
          arith,
          ap length all,
          length-append (all_records g V segments) (b.processed_records ++ dataset),
          length-append b.processed_records dataset,
        ) in
        let offered : Conserves g V goal (rs ++ dataset)
            (offer_all g V (offer_record g V fuel) segments b dataset) =
          subst
            (λ ps. Conserves g V goal ps (offer_all g V (offer_record g V fuel) segments b dataset))
            all
            (offer_all-Conserves g V goal (offer_record g V fuel) fuel
              (offer_record-Conserves g V goal pos low fuel) dataset segments b c.1 c.2
              (subst (IsStream 0) (sym all) q) fits) in
        elim (Option-cases (offer_all g V (offer_record g V fuel) segments b dataset)) [
          | inl stuck ↦ absurd (rw stuck at offered)
          | inr ((segments', b'), e) ↦
              rw e (concluded fuel (rs ++ dataset) segments' b' (rw e at offered) q h)
        ]

  -- Of pages of some records each, with at least half as many as the regression's error bound, and with two
  -- units of fuel more than there are records, building from a dataset ends, if its keys, behind the key 0 of
  -- the placeholder if that was asked for, ascend and have 64 bits: the records of the segments are the
  -- dataset in order, behind the placeholder, and each segment starts at its base key.
  pub build_from_dataset-Finishes :
      (goal : ℕ)
      → 0 < goal
      → g.error_bound ≤ 2 * goal
      → (fuel : ℕ) (b : Builder g V) (dataset : List (Item V)) (force : Bool) (empty : V)
      → b.records_per_page_goal ≡ goal
      → IsStream 0 ((if force then (0, empty) ∷ [] else []) ++ dataset)
      → length dataset + 2 ≤ fuel
      → Finishes g V
          ((if force then (0, empty) ∷ [] else []) ++ dataset)
          (build_from_dataset g V fuel b dataset force empty)
  unfolding build_from_dataset
  build_from_dataset-Finishes goal pos low zero b dataset force empty v q h = absurd (omega arith)
  build_from_dataset-Finishes goal pos low (suc fuel) b dataset force empty v q h =
      elim (Option-cases (start_dataset g V (suc fuel) b force empty)) [
        | inl stuck ↦ absurd (rw stuck at (started goal pos low fuel b force empty v))
        | inr ((none_yet, b'), e) ↦
            rw (e, build_from_dataset)
              (offered_all goal pos low (suc fuel) _ none_yet b' dataset
                (rw e at (started goal pos low fuel b force empty v)) q
                (length-placeholder force (0, empty) dataset (suc fuel) h))
      ]
