-- ===== src/PageDb/Merge.antt =====
-- page_grouping/pg_db_impl.cc: what a scan gives of the records in the cache and on the disk.
use treeline.Prelude.{
  IsAscending, value_of, or_else, absent, ℕ, zero, suc, ◌≤◌, ◌<◌, ◌≡◌, ◌≢◌, ◌⊎◌, inl, inr, refl, ap,
  sym, ◌∙◌, arith, false, Option, none, some, List, [], ◌∷◌, ◌==◌, leb, if◌then◌else◌, length, take,
  Bool-cases,
}
use treeline.PageDb.{merge}

module _ {ℓ} {V : Type ℓ} where
  abbrev pub AllBelow : ℕ → List (ℕ × V) → Type 0
  AllBelow k [] = Unit {0}
  AllBelow k ((key, value) ∷ rs) = (key < k) × AllBelow k rs

  lower : (low high : ℕ) (rs : List (ℕ × V)) → low ≤ high → IsAscending high rs → IsAscending low rs
  lower low high [] h a = tt
  lower low high ((key, value) ∷ rs) h a = (omega arith, a.1)

  -- What a result `rs` of at most `n` records says of a key that has the value `o`.
  abbrev pub Tells : ℕ → List (ℕ × V) → ℕ → Option V → Type ℓ
  Tells n rs k o = (value_of k rs ≡ o) ⊎ ((value_of k rs ≡ none) × (length rs ≡ n) × AllBelow k rs)

  take-IsAscending :
      (n low : ℕ) (rs : List (ℕ × V)) → IsAscending low rs → IsAscending low (take n rs)
  take-IsAscending zero low rs a = tt
  take-IsAscending (suc n) low [] a = tt
  take-IsAscending (suc n) low ((key, value) ∷ rs) a = (a.0, take-IsAscending n (suc key) rs a.1)

  take-short : (n : ℕ) (rs : List (ℕ × V)) → length (take n rs) ≤ n
  take-short zero rs = omega arith
  take-short (suc n) [] = omega arith
  take-short (suc n) (r ∷ rs) = omega (arith, take-short n rs)

  -- One record more in front.
  Tells-cons :
      (n key : ℕ) (value : V) (rs : List (ℕ × V)) (k : ℕ) (o o' : Option V)
      → (k ≡ key → o ≡ some value)
      → (k ≢ key → o ≡ o')
      → (k ≤ key → value_of k rs ≡ none)
      → (k < key → o ≡ none)
      → Tells n rs k o'
      → Tells (suc n) ((key, value) ∷ rs) k o
  Tells-cons n key value rs k o o' here there gone below t = elim (Bool-cases (k == key)) [
    | inl same ↦ let at : k ≡ key = ground arith in inl (rw same (sym (here at)))
    | inr differs ↦
        let apart : k ≢ key = λ e. ground arith in
        elim t [
          | inl found ↦ inl (rw differs (found ∙ sym (there apart)))
          | inr (missing, full, all) ↦ elim (Bool-cases (leb k key)) [
            | inl low ↦ inl (rw differs (missing ∙ sym (below (ground arith))))
            | inr high ↦ inr (rw differs missing, ap suc full, (ground arith, all))
          ]
        ]
  ]

  take-Tells :
      (n low : ℕ) (rs : List (ℕ × V)) (k : ℕ)
      → IsAscending low rs
      → Tells n (take n rs) k (value_of k rs)
  take-Tells zero low rs k a = inr (refl, refl, tt)
  take-Tells (suc n) low [] k a = inl refl
  take-Tells (suc n) low ((key, value) ∷ rs) k a =
      Tells-cons n key value (take n rs) k (value_of k ((key, value) ∷ rs)) (value_of k rs)
        (λ e. ground arith) (λ e. ground arith)
        (λ h. absent k (suc key) (take n rs) (omega arith) (take-IsAscending n (suc key) rs a.1))
        (λ h. absent k key ((key, value) ∷ rs) h (omega arith, a.1))
        (take-Tells n (suc key) rs k a.1)

  past-IsAscending :
      (key low : ℕ) (d : ℕ × V) (stored : List (ℕ × V))
      → key ≤ d.0
      → IsAscending low (d ∷ stored)
      → IsAscending (suc key) (if key == d.0 then stored else d ∷ stored)
  past-IsAscending key low (dk, dv) stored h a = elim (Bool-cases (key == dk)) [
    | inl same ↦
        let at : key ≡ dk = ground arith in
        rw same (lower (suc key) (suc dk) stored (omega arith) a.1)
    | inr differs ↦ rw differs (ground arith, a.1)
  ]

  past-value :
      (key k : ℕ) (d : ℕ × V) (stored : List (ℕ × V))
      → k ≢ key
      → value_of k (if key == d.0 then stored else d ∷ stored) ≡ value_of k (d ∷ stored)
  past-value key k (dk, dv) stored h = elim (Bool-cases (key == dk)) [
    | inl same ↦
        let differs : (k == dk) ≡ false = ground arith in
        rw same (sym (ap (λ b. if b then some dv else value_of k stored) differs))
    | inr differs ↦ rw differs refl
  ]

  none_or : (o : Option V) → or_else o none ≡ o
  none_or none = refl
  none_or (some v) = refl

  merge-IsAscending :
      (n low : ℕ) (cached stored : List (ℕ × V))
      → IsAscending low cached
      → IsAscending low stored
      → IsAscending low (merge n cached stored)
  unfolding merge
  merge-IsAscending zero low cached stored a b = tt
  merge-IsAscending (suc n) low [] stored a b = take-IsAscending (suc n) low stored b
  merge-IsAscending (suc n) low ((ck, cv) ∷ cached) [] a b =
      take-IsAscending (suc n) low ((ck, cv) ∷ cached) a
  merge-IsAscending (suc n) low ((ck, cv) ∷ cached) ((dk, dv) ∷ stored) a b =
      elim (Bool-cases (leb ck dk)) [
        | inl first ↦ rw first (
          a.0,
          merge-IsAscending n (suc ck) cached (if ck == dk then stored else (dk, dv) ∷ stored) a.1
              (past-IsAscending ck low (dk, dv) stored (ground arith) b),
        )
        | inr second ↦
            rw second
              (b.0, merge-IsAscending n (suc dk) ((ck, cv) ∷ cached) stored (ground arith, a.1) b.1)
      ]

  merge-short : (n : ℕ) (cached stored : List (ℕ × V)) → length (merge n cached stored) ≤ n
  unfolding merge
  merge-short zero cached stored = omega arith
  merge-short (suc n) [] stored = take-short (suc n) stored
  merge-short (suc n) (c ∷ cached) [] = take-short (suc n) (c ∷ cached)
  merge-short (suc n) (c ∷ cached) (d ∷ stored) = elim (Bool-cases (leb c.0 d.0)) [
    | inl first ↦
        let rest = merge-short n cached (if c.0 == d.0 then stored else d ∷ stored) in
        rw first (omega arith)
    | inr second ↦ let rest = merge-short n (c ∷ cached) stored in rw second (omega arith)
  ]

  merge-Tells :
      (n low k : ℕ) (cached stored : List (ℕ × V))
      → IsAscending low cached
      → IsAscending low stored
      → Tells n (merge n cached stored) k (or_else (value_of k cached) (value_of k stored))
  unfolding merge
  merge-Tells zero low k cached stored a b = inr (refl, refl, tt)
  merge-Tells (suc n) low k [] stored a b = take-Tells (suc n) low stored k b
  merge-Tells (suc n) low k ((ck, cv) ∷ cached) [] a b =
      rw (none_or (value_of k ((ck, cv) ∷ cached))) (take-Tells (suc n) low ((ck, cv) ∷ cached) k a)
  merge-Tells (suc n) low k ((ck, cv) ∷ cached) ((dk, dv) ∷ stored) a b =
      elim (Bool-cases (leb ck dk)) [
        | inl first ↦
            let rest = if ck == dk then stored else (dk, dv) ∷ stored in
            let past = past-IsAscending ck low (dk, dv) stored (ground arith) b in
            rw first (
              Tells-cons n ck cv (merge n cached rest) k
                (or_else (value_of k ((ck, cv) ∷ cached)) (value_of k ((dk, dv) ∷ stored)))
                (or_else (value_of k cached) (value_of k rest)) (λ e. ground arith)
                (λ e. ground (arith, past-value ck k (dk, dv) stored e))
                (λ h.
                  absent k (suc ck) (merge n cached rest) (omega arith)
                    (merge-IsAscending n (suc ck) cached rest a.1 past))
                (λ h. ground (
                  arith,
                  absent k ck ((ck, cv) ∷ cached) h (omega arith, a.1),
                  absent k dk ((dk, dv) ∷ stored) (ground arith) (omega arith, b.1),
                ))
                (merge-Tells n (suc ck) k cached rest a.1 past))
        | inr second ↦
            let later : IsAscending (suc dk) ((ck, cv) ∷ cached) = (ground arith, a.1) in
            rw second (
              Tells-cons n dk dv (merge n ((ck, cv) ∷ cached) stored) k
                (or_else (value_of k ((ck, cv) ∷ cached)) (value_of k ((dk, dv) ∷ stored)))
                (or_else (value_of k ((ck, cv) ∷ cached)) (value_of k stored))
                (λ e. ground (arith, absent k (suc dk) ((ck, cv) ∷ cached) (omega arith) later))
                (λ e. ground arith)
                (λ h.
                  absent k (suc dk) (merge n ((ck, cv) ∷ cached) stored) (omega arith)
                    (merge-IsAscending n (suc dk) ((ck, cv) ∷ cached) stored later b.1))
                (λ h. ground (
                  arith,
                  absent k (suc dk) ((ck, cv) ∷ cached) (omega arith) later,
                  absent k dk ((dk, dv) ∷ stored) h (omega arith, b.1),
                ))
                (merge-Tells n (suc dk) k ((ck, cv) ∷ cached) stored later b.1))
      ]

  -- Two lists that ascend by key from the bound on.
  pub merge_lem :
      (n low : ℕ) (cached stored : List (ℕ × V))
      → IsAscending low cached
      → IsAscending low stored
      → IsAscending low (merge n cached stored)
        × (length (merge n cached stored) ≤ n)
        × ((k : ℕ)
            → Tells n (merge n cached stored) k (or_else (value_of k cached) (value_of k stored)))
  merge_lem n low cached stored a b = (
    merge-IsAscending n low cached stored a b,
    merge-short n cached stored,
    λ k. merge-Tells n low k cached stored a b,
  )
