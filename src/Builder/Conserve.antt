-- ===== src/Builder/Conserve.antt =====
-- `Offer` loses no record, keeps their order, and ends.
use treeline.Prelude.{
  ℕ, zero, suc, ◌+◌, ◌*◌, ◌≤◌, ◌<◌, ◌≡◌, refl, ap, sym, subst, ◌∙◌, inl, inr, true, ◌&&◌, Option,
  none, some, List, [], ◌∷◌, ◌++◌, ltb, leb, arith, tests, length, take, drop, length-append,
  length-drop, take-append-drop, Bool-cases, Option-cases,
}
use mathlib.Core.List.{append-nil, append_assoc}
use treeline.FreeList.{segment_page_counts}
use treeline.Builder.Model.{
  Fed, fed_first, fed_next, Regression, last_key, State, need_base, has_base, filling_single_page,
  Item, key_diff, max_key_diff, Segment, Builder, allowed_records, reset_stream,
  create_segment_using, segment_size_end, Outcome, offer_all, drain, single_page, many_pages, push,
  target_size, emit_and_drain, fill_single_page, close_segment, offer_has_base, offer_need_base,
  offer_step, offer_record,
}
use treeline.Builder.Records.{
  IsStream, next-IsStream, diffs_ascend, diff-append, Starts, Starts-append, Starts-take,
  length_pos, InvOf, all_records, all_records-append, AllStart, AllStart-append, IsValid, Conserves,
  records_in_segment_pos,
}

module _ (g : Regression) (V : Type 0) where
  module _ (goal : ℕ) (again : Builder g V → Item V → Outcome g V) (bound : ℕ)
      (again-Conserves : (b : Builder g V) (r : Item V)
        → IsValid g V goal b
        → IsStream 0 (b.processed_records ++ (r ∷ []))
        → length b.processed_records < bound
        → Conserves g V goal (b.processed_records ++ (r ∷ [])) (again b r)) where
    pub offer_all-Conserves :
        (rs : List (Item V)) (segments : List (Segment g V)) (b : Builder g V)
        → IsValid g V goal b
        → AllStart g V segments
        → IsStream 0 (all_records g V segments ++ (b.processed_records ++ rs))
        → length b.processed_records + length rs ≤ bound
        → Conserves g V goal
            (all_records g V segments ++ (b.processed_records ++ rs))
            (offer_all g V again segments b rs)
    unfolding offer_all
    offer_all-Conserves [] segments b v a q h = (rw append-nil, v, a)
    offer_all-Conserves (r ∷ rs) segments b v a q h =
        let next = next-IsStream 0 (all_records g V segments) b.processed_records r rs q in
        elim (Option-cases (again b r)) [
          | inl e ↦ absurd (rw e at (again-Conserves b r v next (omega arith)))
          | inr ((res, b'), e) ↦
              let c : Conserves g V goal (b.processed_records ++ (r ∷ [])) (some (res, b')) =
                rw e at (again-Conserves b r v next (omega arith)) in
              let all : all_records g V (segments ++ res) ++ (b'.processed_records ++ rs)
                  ≡ all_records g V segments ++ (b.processed_records ++ (r ∷ rs)) =
                cc (
                  all_records-append g V segments res,
                  append_assoc (all_records g V segments) (all_records g V res)
                      (b'.processed_records ++ rs),
                  append_assoc (all_records g V res) b'.processed_records rs,
                  append_assoc b.processed_records (r ∷ []) rs,
                  c.0,
                ) in
              let kept : length b'.processed_records + length rs ≤ bound = omega (
                arith,
                ap length c.0,
                length-append (all_records g V res) b'.processed_records,
                length-append b.processed_records (r ∷ []),
              ) in
              rw (e, offer_all)
                (subst
                  (λ all_rs.
                    Conserves g V goal all_rs (offer_all g V again (segments ++ res) b' rs))
                  all
                  (offer_all-Conserves rs (segments ++ res) b' c.1
                    (AllStart-append g V segments res a c.2) (subst (IsStream 0) (sym all) q) kept))
        ]

    pub emit-Conserves :
        (b : Builder g V) (model : Option g.Line) (page_count n : ℕ) (extra : List (Item V))
        → b.records_per_page_goal ≡ goal
        → Starts b.base_key b.processed_records
        → 0 < n
        → IsStream 0 (b.processed_records ++ extra)
        → length b.processed_records + length extra ≤ bound + 1
        → Conserves g V goal
            (b.processed_records ++ extra)
            (emit_and_drain g V again (create_segment_using g V b model page_count n) extra)
    unfolding emit_and_drain create_segment_using drain reset_stream
    emit-Conserves b model page_count n extra v s h q k =
        let ps = b.processed_records in
        let all : (take n ps ++ []) ++ (drop n ps ++ extra) ≡ ps ++ extra =
          rw (append-nil, ← append_assoc, take-append-drop) in
        subst
          (λ all_rs.
            Conserves g V goal all_rs
              (emit_and_drain g V again (create_segment_using g V b model page_count n) extra))
          all
          (offer_all-Conserves (drop n ps ++ extra) _ _
            (record { goal_is = v; fits = refl; fed = λ e. absurd (cc) })
            (Starts-take b.base_key n ps h s, tt) (subst (IsStream 0) (sym all) q)
            (omega (
              arith,
              length-append (drop n ps) extra,
              length-drop n ps,
              length_pos b.base_key ps s,
            )))

    fill-Conserves :
        (b : Builder g V) (r : Item V)
        → b.records_per_page_goal ≡ goal
        → 0 < goal
        → Starts b.base_key b.processed_records
        → IsStream 0 (b.processed_records ++ (r ∷ []))
        → length b.processed_records ≤ bound
        → Conserves g V goal (b.processed_records ++ (r ∷ [])) (fill_single_page g V again b r)
    unfolding fill_single_page target_size allowed_records segment_page_counts push single_page
    fill-Conserves b r v pos s q k =
        elim (Bool-cases (ltb (length b.processed_records) (target_size g V b))) [
          | inl room ↦ rw room (
            refl,
            record {
              goal_is = v;
              fits = (
                Starts-append b.base_key b.processed_records (r ∷ []) s,
                omega (tests, room, length-append b.processed_records (r ∷ [])),
              );
              fed = λ e. absurd (cc);
            },
            tt,
          )
          | inr full ↦
              rw full (emit-Conserves b none 1 _ (r ∷ []) v s (omega arith) q (omega arith))
        ]

    close-Conserves :
        (b : Builder g V) (r : Item V) (line : Option g.Line)
        → b.records_per_page_goal ≡ goal
        → 0 < goal
        → Starts b.base_key b.processed_records
        → IsStream 0 (b.processed_records ++ (r ∷ []))
        → length b.processed_records ≤ bound
        → ((l : g.Line) → line ≡ some l → (n : ℕ) → 2 * goal ≤ n → g.below l 0 n ≡ true)
        → Conserves g V goal (b.processed_records ++ (r ∷ [])) (close_segment g V again b r line)
    unfolding close_segment many_pages
    close-Conserves b r none v pos s q k low = fill-Conserves b r v pos s q k
    close-Conserves b r (some l) v pos s q k low =
        elim (Bool-cases (leb (segment_size_end g V b l) 1)) [
          | inl single ↦ rw single (fill-Conserves b r v pos s q k)
          | inr several ↦ rw several (
              emit-Conserves b _ _ _ (r ∷ []) v s
                (records_in_segment_pos g V goal b l (low l refl) v s several) q (omega arith))
        ]

    has_base-Conserves :
        (b : Builder g V) (r : Item V)
        → IsValid g V goal b
        → b.state ≡ has_base
        → 0 < goal
        → g.error_bound ≤ 2 * goal
        → IsStream 0 (b.processed_records ++ (r ∷ []))
        → length b.processed_records ≤ bound
        → Conserves g V goal (b.processed_records ++ (r ∷ [])) (offer_has_base g V again b r)
    unfolding offer_has_base push
    has_base-Conserves b r v st pos low q k =
        let ps = b.processed_records in
        let diff = key_diff r.0 b.base_key in
        let s : Starts b.base_key ps = subst (λ q. InvOf q goal b.base_key ps) st v.fits in
        let last = key_diff (last_key g V b.base_key ps) b.base_key in
        let fed = v.fed st in
        let one_more : suc (length ps) ≡ length (ps ++ (r ∷ [])) =
          omega (arith, length-append ps (r ∷ [])) in
        let ascends : last < diff = diffs_ascend g V b.base_key ps r s q in
        elim (Bool-cases (ltb (length ps) b.max_records_in_segment && leb diff max_key_diff)) [
          | inr over ↦ rw over (
              close-Conserves b r (g.finish b.plr) v.goal_is pos s q k
                (λ l e n h. g.finish_passes_origin b.plr (length ps) last n l fed e (omega arith)))
          | inl fits ↦ rw fits (elim (Option-cases (g.offer b.plr diff (length ps)).1) [
            | inl absorbed ↦ rw absorbed (
              refl,
              record {
                goal_is = v.goal_is;
                fits =
                    subst (λ q. InvOf q goal b.base_key (ps ++ (r ∷ []))) (sym st)
                      (Starts-append b.base_key ps (r ∷ []) s);
                fed = λ same.
                    subst
                      (λ x.
                        Fed g.offer g.make_plr (g.offer b.plr diff (length ps)).0
                          (length (ps ++ (r ∷ []))) x)
                      (sym (diff-append g V b.base_key ps r))
                      (subst (λ n. Fed g.offer g.make_plr (g.offer b.plr diff (length ps)).0 n diff)
                        one_more (fed_next b.plr (length ps) last diff fed ascends absorbed));
              },
              tt,
            )
            | inr (l, e) ↦ rw e (
                close-Conserves (record b { plr = (g.offer b.plr diff (length ps)).0 }) r (some l)
                  v.goal_is pos s q k
                  (λ l' e' n h.
                    g.offer_passes_origin b.plr (length ps) last diff n l' fed ascends (e ∙ e')
                      (omega arith)))
          ])
        ]

  -- Of pages of some records each, with at least half as many as the regression's error bound, and with more
  -- fuel than records kept, `Offer` ends on a valid builder, if the records kept and the new one have
  -- ascending keys of 64 bits. The records it emits and those it keeps are those it had and the new one, in
  -- order; each segment emitted starts at its base key; and the builder stays valid.
  pub offer_record-Conserves :
      (goal : ℕ)
      → 0 < goal
      → g.error_bound ≤ 2 * goal
      → (fuel : ℕ) (b : Builder g V) (r : Item V) → IsValid g V goal b
      → IsStream 0 (b.processed_records ++ (r ∷ []))
      → length b.processed_records < fuel
      → Conserves g V goal (b.processed_records ++ (r ∷ [])) (offer_record g V fuel b r)
  unfolding offer_record offer_step offer_need_base push
  offer_record-Conserves goal pos low zero b r v q h = absurd (omega arith)
  offer_record-Conserves goal pos low (suc fuel) b r v q h =
      step b.state refl (offer_record-Conserves goal pos low fuel)
    where
      step :
          (at : State)
          → b.state ≡ at
          → ((b : Builder g V) (r : Item V)
              → IsValid g V goal b
              → IsStream 0 (b.processed_records ++ (r ∷ []))
              → length b.processed_records < fuel
              → Conserves g V goal (b.processed_records ++ (r ∷ [])) (offer_record g V fuel b r))
          → Conserves g V goal
              (b.processed_records ++ (r ∷ []))
              (offer_step g V at (offer_record g V fuel) b r)
      step need_base st ih =
          let from_base : 0 ≡ key_diff r.0 r.0 = omega arith in
          let empty = subst (λ q. InvOf q goal b.base_key b.processed_records) st v.fits in
          (
            refl,
            record {
              goal_is = v.goal_is;
              fits = subst (λ ps. Starts r.0 (ps ++ (r ∷ []))) (sym empty) refl;
              fed = λ same.
                  subst
                    (λ ps.
                      Fed g.offer g.make_plr (g.offer g.make_plr 0 0).0 (length (ps ++ (r ∷ [])))
                        (key_diff (last_key g V r.0 (ps ++ (r ∷ []))) r.0))
                    (sym empty)
                    (subst (Fed g.offer g.make_plr (g.offer g.make_plr 0 0).0 1) from_base
                      fed_first);
            },
            tt,
          )
      step has_base st ih =
          has_base-Conserves goal (offer_record g V fuel) fuel ih b r v st pos low q (omega arith)
      step filling_single_page st ih =
          fill-Conserves goal (offer_record g V fuel) fuel ih b r v.goal_is pos
            (subst (λ q. InvOf q goal b.base_key b.processed_records) st v.fits).0 q (omega arith)
