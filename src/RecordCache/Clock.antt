-- ===== src/RecordCache/Clock.antt =====
-- record_cache/record_cache.cc: the entry that `SelectForEviction` chooses.
use treeline.Prelude.{
  ℕ, zero, suc, ◌*◌, ◌%◌, ◌<◌, ◌≡◌, refl, ap, sym, ◌∙◌, subst, arith, Bool, not, ◌&&◌, ◌==◌,
  if◌then◌else◌, some, length, Bool-cases, inl, inr,
}
use treeline.RecordCache.{
  Clocked, hand, tick, entry, decrement_at, find_candidate, look_ahead, lookahead, prefer_clean,
  select_for_eviction, get_priority, is_dirty,
}
use treeline.RecordCache.Priorities.{
  total_priority, total_priority-le, Lowers, tick-Lowers, Lowers-trans, decrement_at-Lowers,
  decrement_at-total,
}

-- The entry `i` can be evicted in `c'`, which differs from `c` in priorities alone.
pub record Evicts (c : Clocked) (i : ℕ) (c' : Clocked) : Type 0 where
  pub in_range : i < length c.metadata
  pub no_priority : get_priority (entry c' i) ≡ 0
  pub lowers : Lowers c c'

hand_bound : (c : Clocked) → 0 < length c.metadata → hand c < length c.metadata
hand_bound c h = omega arith

pass : (c : Clocked) → 0 < length c.metadata → Lowers c (decrement_at (hand c) (tick c))
pass c h =
    Lowers-trans c (tick c) (decrement_at (hand c) (tick c)) (tick-Lowers c)
      (decrement_at-Lowers (tick c) (hand c) (hand_bound c h))

find_candidate-Evicts :
    (fuel : ℕ) (c : Clocked)
    → 0 < length c.metadata
    → total_priority c.metadata < fuel
    → (i : ℕ) × (c' : Clocked) × (find_candidate fuel c ≡ some (i, c')) × Evicts c i c'
unfolding find_candidate get_priority
find_candidate-Evicts zero c h f = absurd (omega arith)
find_candidate-Evicts (suc fuel) c h f = elim (Bool-cases (entry c (hand c) % 8 == 0)) [
  | inl free ↦ (
    hand c,
    tick c,
    rw free refl,
    record { in_range = hand_bound c h; no_priority = ground arith; lowers = tick-Lowers c },
  )
  | inr taken ↦
      let next = decrement_at (hand c) (tick c) in
      let lowers = pass c h in
      let less = decrement_at-total (tick c) (hand c) (hand_bound c h) (λ e. ground arith) in
      let (i, c', e, v) =
        find_candidate-Evicts fuel next (omega (arith, lowers.same_length)) (omega arith) in
      (
        i,
        c',
        ap (λ q. if q then some (hand c, tick c) else find_candidate fuel next) taken ∙ e,
        record {
          in_range = omega (arith, v.in_range, lowers.same_length);
          no_priority = v.no_priority;
          lowers = Lowers-trans c next c' lowers v.lowers;
        },
      )
]

look_ahead-Evicts :
    (rounds candidate : ℕ) (c : Clocked)
    → 0 < length c.metadata
    → candidate < length c.metadata
    → get_priority (entry c candidate) ≡ 0
    → Evicts c (look_ahead rounds candidate c).0 (look_ahead rounds candidate c).1
unfolding look_ahead get_priority
look_ahead-Evicts zero candidate c h k p = record {
  in_range = k;
  no_priority = p;
  lowers = record { same_length = refl; fields = λ i. refl; lower = λ i. omega arith };
}
look_ahead-Evicts (suc rounds) candidate c h k p =
    let clean = entry c (hand c) % 8 == 0 && not (is_dirty (entry c (hand c))) in
    let next = decrement_at (hand c) (tick c) in
    let lowers = pass c h in
    elim (Bool-cases clean) [
      | inl found ↦
          rw found (record {
            in_range = hand_bound c h;
            no_priority = ground arith;
            lowers = tick-Lowers c;
          })
      | inr dirty ↦
          let v =
            look_ahead-Evicts rounds candidate next (omega (arith, lowers.same_length))
              (omega (arith, lowers.same_length)) (omega (arith, lowers.lower candidate)) in
          subst
            (λ (q : Bool).
              let r : ℕ × Clocked =
                if◌then◌else◌ {A = ℕ × Clocked} q (hand c, tick c)
                  (look_ahead rounds candidate next) in
              Evicts c r.0 r.1)
            (sym dirty)
            (record {
              in_range = omega (arith, v.in_range, lowers.same_length);
              no_priority = v.no_priority;
              lowers = Lowers-trans c next _ lowers v.lowers;
            })
    ]

-- In a cache with any entry, with more rounds than seven times the entries, choosing an entry to evict
-- ends; it gives an index in range of an entry without priority, and of all the entries it changes
-- nothing but to lower priorities.
pub select_for_eviction-Evicts :
    (fuel : ℕ) (c : Clocked)
    → 0 < length c.metadata
    → 7 * length c.metadata < fuel
    → (i : ℕ) × (c' : Clocked) × (select_for_eviction fuel c ≡ some (i, c')) × Evicts c i c'
unfolding select_for_eviction prefer_clean
select_for_eviction-Evicts fuel c h f =
    let (i, c1, e, v) =
      find_candidate-Evicts fuel c h (omega (arith, total_priority-le c.metadata)) in
    let ahead =
      look_ahead-Evicts (lookahead c1) i c1 (omega (arith, v.lowers.same_length))
        (omega (arith, v.in_range, v.lowers.same_length)) v.no_priority in
    elim (Bool-cases (is_dirty (entry c1 i))) [
      | inl dirty ↦ (
        (look_ahead (lookahead c1) i c1).0,
        (look_ahead (lookahead c1) i c1).1,
        ap prefer_clean e ∙ rw dirty refl,
        record {
          in_range = omega (arith, ahead.in_range, v.lowers.same_length);
          no_priority = ahead.no_priority;
          lowers = Lowers-trans c c1 _ v.lowers ahead.lowers;
        },
      )
      | inr clean ↦ (i, c1, ap prefer_clean e ∙ rw clean refl, v)
    ]
