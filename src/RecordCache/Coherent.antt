-- ===== src/RecordCache/Coherent.antt =====
-- record_cache/record_cache.cc: the cache and the store behind it read as one map.
use treeline.Prelude.{
  same_or_not, ℕ, ◌/◌, ◌<◌, ◌≡◌, ◌≢◌, inl, inr, refl, ap, sym, ◌∙◌, subst, true, false, Option,
  none, some, ◌==◌, if◌then◌else◌, arith, length, get_or-set, length-set, Bool-cases, Option-cases,
}
use treeline.RecordCache.{
  Clocked, entry, is_valid, is_dirty, is_delete, increment_priority, get_priority,
}
use treeline.RecordCache.Metadata.{Fields, HasFields, call-HasFields, increment_call}
use treeline.RecordCache.Cache.{Cache, meta, with_meta, stored, view, found_at, touch}

abbrev pub fields_of : ℕ → Fields
fields_of m = record {
  valid = is_valid m;
  dirty = is_dirty m;
  deleted = is_delete m;
  priority = get_priority m;
}

pub own : (m : ℕ) → m < 256 → HasFields m (fields_of m)
own m h = record { byte = h; valid = refl; dirty = refl; deleted = refl; priority = refl }

-- Metadata that differs in the priority alone.
pub record SameMarks (m m' : ℕ) : Type 0 where
  pub byte : m' < 256
  pub valid : is_valid m' ≡ is_valid m
  pub dirty : is_dirty m' ≡ is_dirty m
  pub deleted : is_delete m' ≡ is_delete m

pub same_high : (m m' : ℕ) → m < 256 → m' / 8 ≡ m / 8 → SameMarks m m'
unfolding is_valid is_dirty is_delete
same_high m m' h e = record {
  byte = omega arith;
  valid = ground arith;
  dirty = ground arith;
  deleted = ground arith;
}

incremented : (m : ℕ) → m < 256 → SameMarks m (increment_priority m false).1
incremented m h =
    let f = call-HasFields m (fields_of m) (own m h) increment_call in
    record { byte = f.byte; valid = f.valid; dirty = f.dirty; deleted = f.deleted }

module _ {V : Type 0} where
  -- The tree and the valid entries agree, a clean entry is what the store has, and none is a deletion.
  pub record IsCoherent (c : Cache V) : Type 0 where
    pub bytes : (i : ℕ) → meta c i < 256
    pub mapped :
        (k i : ℕ)
        → c.tree k ≡ some i
        → (i < length c.clocked.metadata) × (c.keys i ≡ k) × (is_valid (meta c i) ≡ true)
    pub valid :
        (i : ℕ)
        → i < length c.clocked.metadata
        → is_valid (meta c i) ≡ true
        → c.tree (c.keys i) ≡ some i
    pub clean :
        (k i : ℕ) → c.tree k ≡ some i → is_dirty (meta c i) ≡ false → c.store k ≡ some (c.values i)
    pub no_deletes : (i : ℕ) → is_delete (meta c i) ≡ false

  pub stored_lem : (c : Cache V) (i : ℕ) → IsCoherent c → stored c i ≡ some (c.values i)
  stored_lem c i h = ap (λ b. if b then none else some (c.values i)) (h.no_deletes i)

  -- What a reader finds, where nothing is a deletion.
  abbrev look : Cache V → ℕ → Option ℕ → Option V
  look c k (some i) = some (c.values i)
  look c k none = c.store k

  look_lem : (c : Cache V) (k : ℕ) (o : Option ℕ) → IsCoherent c → found_at c k o ≡ look c k o
  look_lem c k none h = refl
  look_lem c k (some i) h = stored_lem c i h

  -- Only priorities differ.
  pub remarked-IsCoherent :
      (c : Cache V) (clocked : Clocked)
      → IsCoherent c
      → length clocked.metadata ≡ length c.clocked.metadata
      → ((i : ℕ) → SameMarks (meta c i) (entry clocked i))
      → IsCoherent (record c { clocked = clocked })
  remarked-IsCoherent c clocked h e s = record {
    bytes = λ i. (s i).byte;
    mapped = λ k i at.
        let (below, key, valid) = h.mapped k i at in (omega arith, key, (s i).valid ∙ valid);
    valid = λ i below v. h.valid i (omega arith) (sym (s i).valid ∙ v);
    clean = λ k i at d. h.clean k i at (sym (s i).dirty ∙ d);
    no_deletes = λ i. (s i).deleted ∙ h.no_deletes i;
  }

  pub view_remarked :
      (c : Cache V) (clocked : Clocked)
      → IsCoherent c
      → IsCoherent (record c { clocked = clocked })
      → (k : ℕ) → view (record c { clocked = clocked }) k ≡ view c k
  view_remarked c clocked h h' k =
      let c' : Cache V = record c { clocked = clocked } in
      elim (Option-cases (c.tree k)) [
        | inl absent ↦ ap (found_at c' k) absent ∙ sym (ap (found_at c k) absent)
        | inr (i, at) ↦
            ap (found_at c' k) at
            ∙ (stored_lem c' i h' ∙ (sym (stored_lem c i h) ∙ sym (ap (found_at c k) at)))
      ]

  -- A hit changes the priority alone.
  pub touch-SameMarks :
      (c : Cache V) (i : ℕ)
      → IsCoherent c
      → i < length c.clocked.metadata
      → (j : ℕ) → SameMarks (meta c j) (meta (touch c (some i)) j)
  unfolding touch
  touch-SameMarks c i h below j =
      let m = (increment_priority (meta c i) false).1 in
      subst (SameMarks (meta c j)) (sym (get_or-set c.clocked.metadata i j m 0 below))
        (elim (Bool-cases (j == i)) [
          | inl same ↦
              let at : j ≡ i = ground arith in
              subst (λ q. SameMarks (meta c q) (if q == i then m else meta c q)) (sym at)
                (let self : (i == i) ≡ true = ground arith in
                  rw self (incremented (meta c i) (h.bytes i)))
          | inr other ↦ rw other (same_high (meta c j) (meta c j) (h.bytes j) refl)
        ])

  pub touch-IsCoherent :
      (c : Cache V) (i : ℕ)
      → IsCoherent c
      → i < length c.clocked.metadata
      → IsCoherent (touch c (some i))
  unfolding touch
  touch-IsCoherent c i h below =
      let m = (increment_priority (meta c i) false).1 in
      remarked-IsCoherent c (with_meta c i m).clocked h (length-set c.clocked.metadata i m)
        (touch-SameMarks c i h below)

  module _ (c : Cache V) (i m : ℕ) (below : i < length c.clocked.metadata) where
    pub meta_self : meta (with_meta c i m) i ≡ m
    meta_self =
        let self : (i == i) ≡ true = ground arith in
        get_or-set c.clocked.metadata i i m 0 below ∙ ap (λ b. if b then m else meta c i) self

    pub meta_other : (j : ℕ) → j ≢ i → meta (with_meta c i m) j ≡ meta c j
    meta_other j h =
        let differs : (j == i) ≡ false = ground arith in
        get_or-set c.clocked.metadata i j m 0 below ∙ ap (λ b. if b then m else meta c j) differs

    -- What holds of the new metadata and of the old.
    pub at_entries :
        (P : ℕ → ℕ → Type 0)
        → P i m
        → ((j : ℕ) → P j (meta c j))
        → (j : ℕ) → P j (meta (with_meta c i m) j)
    at_entries P new old j = elim (same_or_not i j) [
      | inl same ↦
          subst (λ q. P q (meta (with_meta c i m) q)) (sym same) (subst (P i) (sym meta_self) new)
      | inr other ↦ subst (P j) (sym (meta_other j other)) (old j)
    ]

  pub tree_one : (c : Cache V) (k i j : ℕ) → c.tree k ≡ some i → c.tree k ≡ some j → i ≡ j
  tree_one c k i j e f = let g : some i ≡ some j = sym e ∙ f in cc
