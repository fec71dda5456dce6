-- ===== src/Wal/Manager/Versions.antt =====
-- wal/manager.cc: the versions that are collected from the directory, whatever the order of its listing.
use treeline.Prelude.{
  ℕ, suc, ◌+◌, ◌≤◌, ◌≡◌, refl, sym, ◌∙◌, Option, none, some, List, [], ◌∷◌, ◌==◌, if◌then◌else◌,
  arith, All,
}
use treeline.Wal.Manager.{insert_sorted, sort, LogFiles}

abbrev pub occurrences : ℕ → List ℕ → ℕ
occurrences v [] = 0
occurrences v (x ∷ xs) = (if v == x then 1 else 0) + occurrences v xs

abbrev pub IsSorted : List ℕ → Type 0
IsSorted [] = Unit {0}
IsSorted (x ∷ xs) = All (λ y. x ≤ y) xs × IsSorted xs

pub at_least : (x y : ℕ) (xs : List ℕ) → x ≤ y → All (λ z. y ≤ z) xs → All (λ z. x ≤ z) xs
at_least x y [] h a = tt
at_least x y (z ∷ xs) h a = (omega arith, at_least x y xs h a.1)

insert-least :
    (x y : ℕ) (xs : List ℕ) → x ≤ y → All (λ z. x ≤ z) xs → All (λ z. x ≤ z) (insert_sorted y xs)
unfolding insert_sorted
insert-least x y [] h a = (h, tt)
insert-least x y (z ∷ xs) h a = ground (arith, insert-least x y xs h a.1)

insert-IsSorted : (x : ℕ) (xs : List ℕ) → IsSorted xs → IsSorted (insert_sorted x xs)
unfolding insert_sorted
insert-IsSorted x [] s = (tt, tt)
insert-IsSorted x (y ∷ xs) s =
    ground (arith, at_least x y xs, insert-least y x xs, insert-IsSorted x xs s.1)

sort-IsSorted : (xs : List ℕ) → IsSorted (sort xs)
unfolding sort
sort-IsSorted [] = tt
sort-IsSorted (x ∷ xs) = insert-IsSorted x (sort xs) (sort-IsSorted xs)

occurrences-insert :
    (v x : ℕ) (xs : List ℕ) → occurrences v (insert_sorted x xs) ≡ occurrences v (x ∷ xs)
unfolding insert_sorted
occurrences-insert v x [] = refl
occurrences-insert v x (y ∷ xs) = ground (arith, occurrences-insert v x xs)

occurrences-sort : (v : ℕ) (xs : List ℕ) → occurrences v (sort xs) ≡ occurrences v xs
unfolding sort
occurrences-sort v [] = refl
occurrences-sort v (x ∷ xs) = omega (arith, occurrences-insert v x (sort xs), occurrences-sort v xs)

none_below : (v : ℕ) (xs : List ℕ) → All (λ y. suc v ≤ y) xs → occurrences v xs ≡ 0
none_below v [] a = refl
none_below v (x ∷ xs) a = ground (arith, none_below v xs a.1)

head_bound : (x y : ℕ) (ys : List ℕ) → IsSorted (y ∷ ys) → 1 ≤ occurrences x (y ∷ ys) → y ≤ x
head_bound x y ys s h = ground (arith, none_below x ys, at_least (suc x) y ys)

-- Two sorted lists with the same numbers, as often, are one.
sorted_same :
    (xs ys : List ℕ)
    → IsSorted xs
    → IsSorted ys
    → ((v : ℕ) → occurrences v xs ≡ occurrences v ys)
    → xs ≡ ys
sorted_same [] [] s t h = refl
sorted_same [] (y ∷ ys) s t h = absurd (ground (arith, h y))
sorted_same (x ∷ xs) [] s t h = absurd (ground (arith, h x))
sorted_same (x ∷ xs) (y ∷ ys) s t h =
    let heads : x ≡ y = ground (arith, h x, h y, head_bound x y ys t, head_bound y x xs s) in
    let tails : xs ≡ ys = sorted_same xs ys s.1 t.1 (λ v. ground (arith, h v)) in cc

abbrev pub one_if : Option (List ℕ) → ℕ
one_if none = 0
one_if (some bytes) = 1

-- Every file of the directory is listed once.
pub record Lists (listing : List ℕ) (files : LogFiles) : Type 0 where
  pub once : (v : ℕ) → occurrences v listing ≡ one_if (files v)

-- Any listing is sorted to the one sorted list of the files' versions.
pub sort-Lists :
    (listing versions : List ℕ) (files : LogFiles)
    → Lists listing files
    → IsSorted versions
    → ((v : ℕ) → occurrences v versions ≡ one_if (files v))
    → sort listing ≡ versions
sort-Lists listing versions files l s h =
    sorted_same (sort listing) versions (sort-IsSorted listing) s
      (λ v. occurrences-sort v listing ∙ l.once v ∙ sym (h v))
