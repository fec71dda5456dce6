-- ===== src/Tests/Tables.antt =====
-- Concrete tables: a hash table as a function, an ordered map as a rising list, and a regression that
-- fits the line through the points (n, n).
use treeline.Prelude.{
  ◌≡◌, ◌≤◌, ℕ, ◌+◌, ◌-◌, ◌<◌, refl, Option, none, some, List, [], ◌∷◌, ◌==◌, ltb, leb,
  if◌then◌else◌, arith, not, All, Bool-cases, inl, inr,
}
use treeline.Locks.Table.{is_some, flag_of, entry_uprase, entry_update, CuckooMap}
use treeline.SegmentIndex.OrderedMap.{OrderedMap, Item, Ascending, count_le, count_lt, set_value}
use treeline.Builder.Model.{Fed, fed_first, fed_next, Regression}

abbrev pub function_map : (V : Type 0) → CuckooMap V
function_map V = record {
  Map = ℕ → Option V;
  find = λ m k. m k;
  uprase_fn = λ m k fn w. (
    (λ j. if j == k then entry_uprase fn w (m k) else m j),
    not (is_some (m k)),
    flag_of fn (m k),
  );
  erase_fn = λ m k fn.
      ((λ j. if j == k then entry_update fn (m k) else m j), is_some (m k), flag_of fn (m k));
  find-uprase_fn = λ m k fn w j. refl;
  found-uprase_fn = λ m k fn w. ((λ h. rw h), (λ h. rw h), refl);
  find-erase_fn = λ m k fn j. refl;
  found-erase_fn = λ m k fn. (refl, refl);
}

module _ {V : Type 0} where
  set_value-All :
      (k : ℕ) (w : List (Item V)) (i : ℕ) (f : V → V)
      → All (λ item. k < item.0) w
      → All (λ item. k < item.0) (set_value w i f)
  set_value-All k [] i f h = tt
  set_value-All k ((k', v) ∷ rest) i f h = elim (Bool-cases (i == 0)) [
    | inl here ↦ rw here h
    | inr later ↦ rw later (h.0, set_value-All k rest (i - 1) f h.1)
  ]

  pub set_value-Ascending :
      (w : List (Item V)) (i : ℕ) (f : V → V) → Ascending w → Ascending (set_value w i f)
  set_value-Ascending [] i f h = tt
  set_value-Ascending ((k, v) ∷ rest) i f h = elim (Bool-cases (i == 0)) [
    | inl here ↦ rw here h
    | inr later ↦
        rw later (set_value-All k rest (i - 1) f h.0, set_value-Ascending rest (i - 1) f h.1)
  ]

abbrev pub rising_map : (V : Type 0) → OrderedMap V
rising_map V = record {
  Map = (w : List (Item V)) × Ascending w;
  walk = λ m. m.0;
  upper_bound = λ m key. count_le key m.0;
  lower_bound = λ m key. count_lt key m.0;
  modify = λ m i f. (set_value m.0 i f, set_value-Ascending m.0 i f m.1);
  walk-Ascending = λ m. m.1;
  upper_bound_lem = λ m key. refl;
  lower_bound_lem = λ m key. refl;
  walk-modify = λ m i f. refl;
}

abbrev diagonal_offer : ℕ → ℕ → ℕ → ℕ × Option ℕ
diagonal_offer seen x y =
    if seen == 0 then (1, none) else (if x == y then (seen + 1, none) else (seen, some 1))

abbrev diagonal_finish : ℕ → Option ℕ
diagonal_finish seen = if leb seen 1 then none else some 1

diagonal_seen : (b n last : ℕ) → Fed diagonal_offer 0 b n last → b ≡ n
diagonal_seen b n last fed_first = refl
diagonal_seen b n last (fed_next c m low x f a e) =
    let seen = diagonal_seen c m low f in ground arith

pub diagonal_one : (b n last : ℕ) → Fed diagonal_offer 0 b n last → diagonal_finish b ≡ none → n ≤ 1
diagonal_one b n last f e = let seen = diagonal_seen b n last f in ground arith

abbrev pub diagonal : Regression
diagonal = record {
  Line = ℕ;
  Plr = ℕ;
  make_plr = 0;
  offer = diagonal_offer;
  finish = diagonal_finish;
  rescale = λ l goal. l;
  below = λ l x n. ltb x n;
  above = λ l x n. ltb (x + 1) n;
  error_bound = 1;
  finish_none = λ b n last f e. diagonal_one b n last f e;
  offer_passes_origin = λ b n last x k l f a e h. ground arith;
  finish_passes_origin = λ b n last k l f e h. ground arith;
}
