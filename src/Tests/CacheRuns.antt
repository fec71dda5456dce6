-- ===== src/Tests/CacheRuns.antt =====
-- Runs of the record cache in front of a store.
use treeline.Prelude.{
  ℕ, zero, suc, ◌+◌, subst, ◌<◌, ◌≡◌, refl, true, false, Option, none, some, [], ◌∷◌, ◌==◌,
  if◌then◌else◌, arith,
}
use mathlib.Core.Option.{some-injective}
use treeline.RecordCache.{
  is_valid, is_dirty, is_delete, select_for_eviction, put_metadata, increment_priority,
}
use treeline.RecordCache.Cache.{
  Cache, meta, view, write_one, write_scanned, write_dirty, write_out_dirty, put,
}
use treeline.RecordCache.Coherent.{IsCoherent}
use treeline.RecordCache.Scan.{IsAbove}
use treeline.RecordCache.ReadWrite.{Holds}
use treeline.RecordCache.Refines.{put-Holds}
use treeline.RecordCache.Flush.{UnusedIsClean, write_out_dirty_lem}

-- Two entries: the key 7 with a value that the store does not have, and the key 8.
abbrev two : Cache ℕ
two = record {
  clocked = record { metadata = 0xC0 ∷ 0x80 ∷ []; clock = 0 };
  keys = λ i. if i == 0 then 7 else 8;
  values = λ i. if i == 0 then 70 else 80;
  tree = λ k. if k == 7 then some 0 else if k == 8 then some 1 else none;
  store = λ k. if k == 8 then some 80 else if k == 7 then some 1 else none;
}

two_bytes : (i : ℕ) → meta two i < 256
two_bytes zero = omega arith
two_bytes (suc zero) = omega arith
two_bytes (suc (suc i)) = omega arith

two_deletes : (i : ℕ) → is_delete (meta two i) ≡ false
unfolding is_delete
two_deletes zero = refl
two_deletes (suc zero) = refl
two_deletes (suc (suc i)) = refl

two_mapped :
    (k i : ℕ) → two.tree k ≡ some i → (i < 2) × (two.keys i ≡ k) × (is_valid (meta two i) ≡ true)
unfolding is_valid
two_mapped k zero at = ground arith
two_mapped k (suc zero) at = ground arith
two_mapped k (suc (suc i)) at = ground arith

two_valid : (i : ℕ) → i < 2 → is_valid (meta two i) ≡ true → two.tree (two.keys i) ≡ some i
two_valid zero low v = refl
two_valid (suc zero) low v = refl
two_valid (suc (suc i)) low v = absurd (omega arith)

two_clean :
    (k i : ℕ)
    → two.tree k ≡ some i
    → is_dirty (meta two i) ≡ false
    → two.store k ≡ some (two.values i)
unfolding is_dirty
two_clean k zero at d = ground arith
two_clean k (suc zero) at d = ground arith
two_clean k (suc (suc i)) at d = ground arith

two-IsCoherent : IsCoherent two
two-IsCoherent = record {
  bytes = two_bytes;
  mapped = two_mapped;
  valid = two_valid;
  clean = two_clean;
  no_deletes = two_deletes;
}

-- A page of the key and nine more.
abbrev ten_more : Option (ℕ → ℕ)
ten_more = some (λ k. k + 10)

ten_more-IsAbove : IsAbove ten_more
ten_more-IsAbove upper_bound e k =
    let same : (λ q. q + 10) ≡ upper_bound = some-injective (λ q. q + 10) upper_bound e in
    subst (λ f. k < f k) same (omega arith)

put-Holds_example :
    (c' : Cache ℕ) × (put ten_more 15 two 9 90 true false 4 ≡ some c') × Holds two 9 90 true c'
put-Holds_example =
    put-Holds ten_more 15 two 9 90 true 4 ten_more-IsAbove two-IsCoherent (omega arith)
      (omega arith) (λ e. absurd (cc))

two_unused : UnusedIsClean two
unfolding is_valid is_dirty
two_unused zero v = absurd (cc)
two_unused (suc zero) v = refl
two_unused (suc (suc i)) v = refl

write_out_dirty_lem_example :
    IsCoherent (write_out_dirty ten_more two)
    × ((k : ℕ) → view (write_out_dirty ten_more two) k ≡ view two k)
    × ((k : ℕ) → (write_out_dirty ten_more two).store k ≡ view two k)
write_out_dirty_lem_example =
    write_out_dirty_lem ten_more two ten_more-IsAbove two-IsCoherent two_unused

-- What is read after the write, and the store's value of the key that was evicted.
abbrev read_after : ℕ → Option (Option ℕ × Option ℕ)
read_after key = elim (put ten_more 15 two 9 90 true false 4) [
  | none ↦ none
  | some c ↦ some (view c key, c.store 7)
]

read_written : read_after 9 ≡ some (some 90, some 1)
unfolding put select_for_eviction is_delete is_valid put_metadata
read_written = refl

read_kept : read_after 7 ≡ some (some 70, some 1)
unfolding put select_for_eviction is_delete is_valid put_metadata
read_kept = refl

-- The store's value of the key 8, whose record is dirty too, after the key 7 is evicted.
abbrev stored_after : Option (ℕ → ℕ) → Option (Option ℕ)
stored_after bounds =
    let both_dirty = record two {
      clocked = record { metadata = 0xC0 ∷ 0xC0 ∷ []; clock = 0 };
      store = λ k. none;
    } in
    elim (put bounds 15 both_dirty 9 90 true false 4) [ none ↦ none | some c ↦ some (c.store 8) ]

page_written : stored_after ten_more ≡ some (some 80)
unfolding put select_for_eviction is_delete is_valid put_metadata write_dirty write_scanned
    write_one increment_priority
page_written = refl

next_page_kept : stored_after (some (λ k. 8)) ≡ some none
unfolding put select_for_eviction is_delete is_valid put_metadata write_dirty write_scanned
    write_one increment_priority
next_page_kept = refl

alone_written : stored_after none ≡ some none
unfolding put select_for_eviction is_delete is_valid put_metadata write_dirty write_one
alone_written = refl
