-- ===== src/RecordCache/Priorities.antt =====
-- record_cache/record_cache.cc: the priorities of the entries, which the clock's hand lowers.
use treeline.Prelude.{
  ℕ, zero, suc, ◌+◌, ◌-◌, ◌*◌, ◌/◌, ◌%◌, ◌≤◌, ◌<◌, ◌≡◌, ◌≢◌, refl, ap, ◌∙◌, arith, true, false,
  ◌==◌, List, [], ◌∷◌, length, get_or, set, length-set, get_or-set, Bool-cases, inl, inr,
}
use treeline.RecordCache.{Clocked, tick, entry, decrement_at, decrement_priority, get_priority}

abbrev pub total_priority : List ℕ → ℕ
total_priority [] = 0
total_priority (m ∷ ms) = m % 8 + total_priority ms

pub total_priority-le : (ms : List ℕ) → total_priority ms ≤ 7 * length ms
total_priority-le [] = omega arith
total_priority-le (m ∷ ms) = omega (arith, total_priority-le ms)

total-set :
    (ms : List ℕ) (i v : ℕ)
    → i < length ms
    → total_priority (set ms i v) + get_or ms i 0 % 8 ≡ total_priority ms + v % 8
total-set [] i v h = absurd (omega arith)
total-set (m ∷ ms) zero v h = omega arith
total-set (m ∷ ms) (suc i) v h = omega (arith, total-set ms i v (omega arith))

decrement_lem :
    (m : ℕ)
    → ((decrement_priority m false).1 / 8 ≡ m / 8)
      × ((decrement_priority m false).1 % 8 ≡ m % 8 - 1)
unfolding decrement_priority get_priority
decrement_lem m = (ground arith, ground arith)

-- The entries but for their priorities are the same, and no priority is higher.
pub record Lowers (c c' : Clocked) : Type 0 where
  pub same_length : length c'.metadata ≡ length c.metadata
  pub fields : (i : ℕ) → entry c' i / 8 ≡ entry c i / 8
  pub lower : (i : ℕ) → entry c' i % 8 ≤ entry c i % 8

pub tick-Lowers : (c : Clocked) → Lowers c (tick c)
tick-Lowers c = record { same_length = refl; fields = λ i. refl; lower = λ i. omega arith }

pub Lowers-trans : (c c' c'' : Clocked) → Lowers c c' → Lowers c' c'' → Lowers c c''
Lowers-trans c c' c'' a b = record {
  same_length = b.same_length ∙ a.same_length;
  fields = λ i. b.fields i ∙ a.fields i;
  lower = λ i. omega (arith, a.lower i, b.lower i);
}

pub decrement_at-Lowers :
    (c : Clocked) (i : ℕ) → i < length c.metadata → Lowers c (decrement_at i c)
decrement_at-Lowers c i h =
    let v = (decrement_priority (entry c i) false).1 in
    let (high, low) = decrement_lem (entry c i) in
    record {
      same_length = length-set c.metadata i v;
      fields = λ j. elim (Bool-cases (j == i)) [
        | inl same ↦
            let at : j ≡ i = ground arith in
            rw at (
              let there : (i == i) ≡ true = ground arith in
              ap (λ m. m / 8) (get_or-set c.metadata i i v 0 h) ∙ rw there high)
        | inr differs ↦ ap (λ m. m / 8) (get_or-set c.metadata i j v 0 h) ∙ rw differs refl
      ];
      lower = λ j. ground (arith, get_or-set c.metadata i j v 0 h, low);
    }

-- Each step of the hand over an entry that has a priority takes one off the total.
pub decrement_at-total :
    (c : Clocked) (i : ℕ)
    → i < length c.metadata
    → entry c i % 8 ≢ 0
    → total_priority (decrement_at i c).metadata < total_priority c.metadata
decrement_at-total c i h p =
    let v = (decrement_priority (entry c i) false).1 in
    let low = (decrement_lem (entry c i)).1 in
    let moved = total-set c.metadata i v h in ground (arith, moved, low)
