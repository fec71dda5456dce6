-- ===== src/PageDb/Scan.antt =====
-- page_grouping/pg_db_impl.cc: a scan of what the cache and the disk have from the start key on.
use treeline.Prelude.{
  IsAscending, value_of, or_else, ℕ, zero, suc, ◌≤◌, ◌≡◌, ap, refl, arith, true, false, List, [],
  ◌∷◌, ◌++◌, ◌==◌, leb, length, take, Bool-cases, inl, inr,
}
use treeline.PageDb.{ok, is_reserved, merge, get_range}
use treeline.PageDb.Merge.{Tells, merge_lem}

take-take {ℓ} : {A : Type ℓ} → (n a : ℕ) (xs : List A) → n ≤ a → take n (take a xs) ≡ take n xs
take-take zero a xs h = refl
take-take (suc n) zero xs h = absurd (omega arith)
take-take (suc n) (suc a) [] h = refl
take-take (suc n) (suc a) (x ∷ xs) h = ap (λ t. x ∷ t) (take-take n a xs (omega arith))

module _ {ℓ} {V : Type ℓ} where
  -- A merge of `n` records looks at no more than the first `n` of each list.
  merge-take :
      (n a b : ℕ) (cached stored : List (ℕ × V))
      → n ≤ a
      → n ≤ b
      → merge n (take a cached) (take b stored) ≡ merge n cached stored
  unfolding merge
  merge-take zero a b cached stored h k = refl
  merge-take (suc n) zero b cached stored h k = absurd (omega arith)
  merge-take (suc n) (suc a) zero cached stored h k = absurd (omega arith)
  merge-take (suc n) (suc a) (suc b) [] [] h k = refl
  merge-take (suc n) (suc a) (suc b) [] (d ∷ stored) h k =
      ap (λ t. d ∷ t) (take-take n b stored (omega arith))
  merge-take (suc n) (suc a) (suc b) (c ∷ cached) [] h k =
      ap (λ t. c ∷ t) (take-take n a cached (omega arith))
  merge-take (suc n) (suc a) (suc b) ((ck, cv) ∷ cached) ((dk, dv) ∷ stored) h k =
      elim (Bool-cases (leb ck dk)) [
        | inl first ↦ elim (Bool-cases (ck == dk)) [
          | inl same ↦ rw (first, same, merge-take n a b cached stored (omega arith) (omega arith))
          | inr differs ↦ rw (
            first,
            differs,
            merge-take n a (suc b) cached ((dk, dv) ∷ stored) (omega arith) (omega arith),
          )
        ]
        | inr second ↦
            rw (
              second,
              merge-take n (suc a) b ((ck, cv) ∷ cached) stored (omega arith) (omega arith),
            )
      ]

  -- Let a scan of the cache and one of the disk each give the first records, in the number asked for, of
  -- those they have from the start key on, which ascend by key; the start key is not reserved. Then a scan
  -- of the database that does not bypass the cache succeeds and adds records behind those in its result
  -- that ascend, as many as are asked for at most; of every key they have the value in the cache, or else
  -- the one on the disk, if there is any, unless they are as many as are asked for and all of them are
  -- below that key.
  pub get_range_lem :
      (scan_cache scan_disk : ℕ → ℕ → List (ℕ × V)) (start_key n : ℕ)
      (cached stored results_out : List (ℕ × V))
      → is_reserved start_key ≡ false
      → scan_cache start_key n ≡ take n cached
      → scan_disk start_key n ≡ take n stored
      → IsAscending start_key cached
      → IsAscending start_key stored
      → (rs : List (ℕ × V)) × (get_range true false scan_cache scan_disk start_key n results_out
          ≡ (ok, results_out ++ rs))
        × IsAscending start_key rs
        × (length rs ≤ n)
        × ((k : ℕ) → Tells n rs k (or_else (value_of k cached) (value_of k stored)))
  unfolding get_range
  get_range_lem scan_cache scan_disk start_key n cached stored results_out free c d a b =
      let (ascending, short, tells) = merge_lem n start_key cached stored a b in
      (
        merge n cached stored,
        rw (free, c, d, merge-take n n n cached stored (omega arith) (omega arith)) refl,
        ascending,
        short,
        tells,
      )
