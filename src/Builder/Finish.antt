-- ===== src/Builder/Finish.antt =====
-- `Finish` ends, and leaves no record behind.
use treeline.Prelude.{
  ℕ, zero, suc, ◌*◌, ◌≤◌, ◌<◌, ◌≡◌, refl, ap, sym, ◌∙◌, subst, inl, inr, true, Option, none, some,
  List, [], ◌∷◌, ◌++◌, leb, arith, length, take, drop, get_or, length-append, Bool-cases,
  Option-cases,
}
use mathlib.Core.List.{append-nil}
use treeline.FreeList.{segment_page_counts}
use treeline.Builder.Model.{
  Regression, key_diff, last_key, State, need_base, has_base, filling_single_page, Item, Segment,
  Builder, Outcome, reset_stream, create_segment_using, offer_all, single_page, many_pages,
  offer_record, finish_rest, finish_has_base, finish_filling, finish_step, finish_stream, drain,
  segment_size_end, emit_and_drain, allowed_records,
}
use treeline.Builder.Records.{
  IsStream, suffix-IsStream, Starts, Starts-take, length_pos, InvOf, all_records,
  all_records-append, AllStart, AllStart-append, IsValid, Conserves, records_in_segment_pos,
}
use treeline.Builder.Conserve.{emit-Conserves, offer_record-Conserves}

take_all : {V : Type 0} (n : ℕ) (xs : List V) → length xs ≤ n → take n xs ≡ xs
take_all zero [] h = refl
take_all zero (x ∷ xs) h = absurd (omega arith)
take_all (suc n) [] h = refl
take_all (suc n) (x ∷ xs) h = ap (◌∷◌ x) (take_all n xs (omega arith))

module _ (g : Regression) (V : Type 0) where
  offer_all-grows :
      (again : Builder g V → Item V → Outcome g V) (rs : List (Item V))
      (segments : List (Segment g V)) (b : Builder g V) (out : List (Segment g V))
      (b' : Builder g V)
      → offer_all g V again segments b rs ≡ some (out, b')
      → length (all_records g V segments) ≤ length (all_records g V out)
  unfolding offer_all
  offer_all-grows again [] segments b out b' e =
      let same : segments ≡ out = ground (arith, e) in rw same (omega arith)
  offer_all-grows again (r ∷ rs) segments b out b' e = elim (Option-cases (again b r)) [
    | inl stuck ↦ cc (rw (stuck, offer_all) at e)
    | inr ((res, c), found) ↦
        let later =
          offer_all-grows again rs (segments ++ res) c out b' (rw (found, offer_all) at e) in
        omega (
          arith,
          later,
          ap length (all_records-append g V segments res),
          length-append (all_records g V segments) (all_records g V res),
        )
  ]

  emitted_pos :
      (again : Builder g V → Item V → Outcome g V) (b : Builder g V) (model : Option g.Line)
      (page_count n : ℕ) (results : List (Segment g V)) (c : Builder g V)
      → Starts b.base_key b.processed_records
      → 0 < n
      → emit_and_drain g V again (create_segment_using g V b model page_count n) []
        ≡ some (results, c)
      → 0 < length (all_records g V results)
  unfolding emit_and_drain create_segment_using drain
  emitted_pos again b model page_count n results c s h e = omega (
    arith,
    offer_all-grows again (drop n b.processed_records ++ []) _ _ results c e,
    length_pos b.base_key (take n b.processed_records)
        (Starts-take b.base_key n b.processed_records h s),
    ap length (append-nil (take n b.processed_records)),
  )

  target_size_lem : (b : Builder g V) → get_or (allowed_records g V b) 0 0 ≡ b.records_per_page_goal
  unfolding allowed_records segment_page_counts
  target_size_lem b = omega arith

  -- The stream ends, all its records are in the segments, and the builder is empty.
  abbrev pub Finishes : List (Item V) → Outcome g V → Type 0
  Finishes rs none = ⊥
  Finishes rs (some (segments, b)) =
      (all_records g V segments ≡ rs) × AllStart g V segments × (b.processed_records ≡ [])

  module _ (goal : ℕ) (again : Builder g V → Item V → Outcome g V)
      (finish_again : Builder g V → Outcome g V) (bound : ℕ)
      (again-Conserves : (b : Builder g V) (r : Item V)
        → IsValid g V goal b
        → IsStream 0 (b.processed_records ++ (r ∷ []))
        → length b.processed_records < bound
        → Conserves g V goal (b.processed_records ++ (r ∷ [])) (again b r))
      (again-Finishes : (b : Builder g V)
        → IsValid g V goal b
        → IsStream 0 b.processed_records
        → length b.processed_records < bound
        → Finishes b.processed_records (finish_again b)) where
    rest-Finishes :
        (b : Builder g V) (model : Option g.Line) (page_count n : ℕ)
        → b.records_per_page_goal ≡ goal
        → Starts b.base_key b.processed_records
        → 0 < n
        → IsStream 0 b.processed_records
        → length b.processed_records ≤ bound
        → Finishes b.processed_records
            (finish_rest g V again finish_again (create_segment_using g V b model page_count n))
    unfolding finish_rest
    rest-Finishes b model page_count n v s h q k =
        let made = create_segment_using g V b model page_count n in
        let all =
          emit-Conserves g V goal again bound again-Conserves b model page_count n [] v s h
            (subst (IsStream 0) (sym (append-nil b.processed_records)) q) (omega arith) in
        elim (Option-cases (emit_and_drain g V again made [])) [
          | inl stuck ↦ absurd (rw stuck at all)
          | inr ((results, c), e) ↦
              let kept : Conserves g V goal (b.processed_records ++ []) (some (results, c)) =
                rw e at all in
              let fewer : length c.processed_records < length b.processed_records = omega (
                arith,
                emitted_pos again b model page_count n results c s h e,
                ap length kept.0,
                length-append (all_records g V results) c.processed_records,
                ap length (append-nil b.processed_records),
              ) in
              let later =
                again-Finishes c kept.1
                  (suffix-IsStream 0 (all_records g V results) c.processed_records
                    (subst (IsStream 0) (sym (kept.0 ∙ append-nil b.processed_records)) q))
                  (omega arith) in
              elim (Option-cases (finish_again c)) [
                | inl stuck ↦ absurd (rw stuck at later)
                | inr ((more, d), f) ↦
                    let end : Finishes c.processed_records (some (more, d)) = rw f at later in
                    rw (e, f, finish_rest)
                      (
                        cc (
                          all_records-append g V results more,
                          end.0,
                          kept.0,
                          append-nil b.processed_records,
                        ),
                        AllStart-append g V results more kept.2 end.1,
                        end.2,
                      )
              ]
        ]

    single-Finishes :
        (b : Builder g V)
        → b.records_per_page_goal ≡ goal
        → 0 < goal
        → Starts b.base_key b.processed_records
        → IsStream 0 b.processed_records
        → length b.processed_records ≤ bound
        → Finishes b.processed_records (finish_rest g V again finish_again (single_page g V b))
    unfolding single_page
    single-Finishes b v pos s q k =
        rest-Finishes b none 1 _ v s (omega (arith, target_size_lem b)) q k

    has_base-Finishes :
        (b : Builder g V) (line : Option g.Line)
        → b.records_per_page_goal ≡ goal
        → 0 < goal
        → Starts b.base_key b.processed_records
        → IsStream 0 b.processed_records
        → length b.processed_records ≤ bound
        → (line ≡ none → length b.processed_records ≤ 1)
        → ((l : g.Line) → line ≡ some l → (n : ℕ) → 2 * goal ≤ n → g.below l 0 n ≡ true)
        → Finishes b.processed_records (finish_has_base g V again finish_again b line)
    unfolding finish_has_base many_pages create_segment_using reset_stream
    has_base-Finishes b none v pos s q k one low = (
      rw append-nil (take_all 1 b.processed_records (one refl)),
      (Starts-take b.base_key 1 b.processed_records (omega arith) s, tt),
      refl,
    )
    has_base-Finishes b (some l) v pos s q k one low =
        elim (Bool-cases (leb (segment_size_end g V b l) 1)) [
          | inl single ↦ rw single (single-Finishes b v pos s q k)
          | inr several ↦ rw several (
              rest-Finishes b (some (g.rescale l b.records_per_page_goal)) _ _ v s
                (records_in_segment_pos g V goal b l (low l refl) v s several) q k)
        ]

  -- A page that is being filled holds all its records.
  filling-Finishes :
      (goal : ℕ) (b : Builder g V)
      → b.records_per_page_goal ≡ goal
      → 0 < goal
      → Starts b.base_key b.processed_records
      → length b.processed_records ≤ goal
      → Finishes b.processed_records (finish_filling g V b)
  unfolding finish_filling single_page create_segment_using reset_stream
  filling-Finishes goal b v pos s k =
      let size = target_size_lem b in
      (
        rw append-nil (take_all _ b.processed_records (omega (arith, size))),
        (Starts-take b.base_key _ b.processed_records (omega (arith, size)) s, tt),
        refl,
      )

  abbrev last : Builder g V → ℕ
  last b = key_diff (last_key g V b.base_key b.processed_records) b.base_key

  -- Of pages of some records each, with at least half as many as the regression's error bound, and with more
  -- fuel than records kept, `Finish` ends on a valid builder, if the records kept have ascending keys of 64
  -- bits: they are in the segments emitted, in order, each segment starts at its base key, and no record is
  -- left.
  pub finish_stream-Finishes :
      (goal : ℕ)
      → 0 < goal
      → g.error_bound ≤ 2 * goal
      → (fuel : ℕ) (b : Builder g V) → IsValid g V goal b
      → IsStream 0 b.processed_records
      → length b.processed_records < fuel
      → Finishes b.processed_records (finish_stream g V fuel b)
  unfolding finish_stream finish_step reset_stream
  finish_stream-Finishes goal pos low zero b v q h = absurd (omega arith)
  finish_stream-Finishes goal pos low (suc fuel) b v q h =
      step b.state refl (finish_stream-Finishes goal pos low fuel)
    where
      step :
          (at : State)
          → b.state ≡ at
          → ((b : Builder g V)
              → IsValid g V goal b
              → IsStream 0 b.processed_records
              → length b.processed_records < fuel
              → Finishes b.processed_records (finish_stream g V fuel b))
          → Finishes b.processed_records
              (finish_step g V at (offer_record g V fuel) (finish_stream g V fuel) b)
      step need_base st ih =
          (sym (subst (λ q. InvOf q goal b.base_key b.processed_records) st v.fits), tt, refl)
      step has_base st ih =
          has_base-Finishes goal (offer_record g V fuel) (finish_stream g V fuel) fuel
            (offer_record-Conserves g V goal pos low fuel) ih b (g.finish b.plr) v.goal_is pos
            (subst (λ q. InvOf q goal b.base_key b.processed_records) st v.fits) q (omega arith)
            (λ e. g.finish_none b.plr (length b.processed_records) (last b) (v.fed st) e)
            (λ l e n k.
              g.finish_passes_origin b.plr (length b.processed_records) (last b) n l (v.fed st) e
                (omega arith))
      step filling_single_page st ih =
          let (s, k) = subst (λ q. InvOf q goal b.base_key b.processed_records) st v.fits in
          filling-Finishes goal b v.goal_is pos s k
