-- ===== src/RecordCache/WriteOne.antt =====
-- record_cache/record_cache.cc: an entry that is written out, and one that a scan has touched before.
use treeline.Prelude.{
  same_or_not, ℕ, ◌<◌, ◌≡◌, ◌≢◌, inl, inr, refl, ap, sym, ◌∙◌, subst, true, false, none, some,
  if◌then◌else◌, arith, length, length-set, Bool-cases, Option-cases, update, update_self,
  update_ne,
}
use treeline.RecordCache.{increment_priority, is_valid, is_dirty, is_delete, set_dirty_to}
use treeline.RecordCache.Metadata.{call-HasFields, dirty_call}
use treeline.RecordCache.Cache.{Cache, meta, with_meta, stored, view, found_at, touch, write_one}
use treeline.RecordCache.Coherent.{
  fields_of, own, IsCoherent, stored_lem, touch-SameMarks, touch-IsCoherent, view_remarked,
  meta_self, meta_other, at_entries, tree_one,
}

module _ {V : Type 0} where
  -- What is left of the record of an entry that is written out.
  pub record WritesOut (c : Cache V) (i : ℕ) (c' : Cache V) : Type 0 where
    pub coherent : IsCoherent c'
    pub views : (k : ℕ) → view c' k ≡ view c k
    pub dirty : is_dirty (meta c' i) ≡ false
    pub keys : c'.keys ≡ c.keys
    pub tree : c'.tree ≡ c.tree
    pub valid : (j : ℕ) → is_valid (meta c' j) ≡ is_valid (meta c j)
    pub cleans : (j : ℕ) → is_dirty (meta c j) ≡ false → is_dirty (meta c' j) ≡ false
    pub same_length : length c'.clocked.metadata ≡ length c.clocked.metadata

  write_dirty_one :
      (c : Cache V) (i : ℕ)
      → IsCoherent c
      → i < length c.clocked.metadata
      → is_valid (meta c i) ≡ true
      → WritesOut c i (
          with_meta
            (record c { store = update c.store (c.keys i) (stored c i) })
            i
            (set_dirty_to (meta c i) false))
  write_dirty_one c i h below v =
      let m = set_dirty_to (meta c i) false in
      let f =
        call-HasFields (meta c i) (fields_of (meta c i)) (own (meta c i) (h.bytes i))
          (dirty_call false) in
      let x : Cache V =
        with_meta (record c { store = update c.store (c.keys i) (stored c i) }) i m in
      let here : c.tree (c.keys i) ≡ some i = h.valid i below v in
      let valids : (j : ℕ) → is_valid (meta x j) ≡ is_valid (meta c j) =
        at_entries c i m below (λ j n. is_valid n ≡ is_valid (meta c j)) f.valid (λ j. refl) in
      let coherent : IsCoherent x = record {
        bytes = at_entries c i m below (λ j n. n < 256) f.byte h.bytes;
        mapped = λ k j at.
            let (low, key, valid) = h.mapped k j at in
            let len = length-set c.clocked.metadata i m in (omega arith, key, valids j ∙ valid);
        valid = λ j low valid.
            let len = length-set c.clocked.metadata i m in
            h.valid j (omega arith) (sym (valids j) ∙ valid);
        clean = λ k j at d. elim (same_or_not i j) [
          | inl same ↦
              let is_key : c.keys i ≡ k = ap c.keys (sym same) ∙ (h.mapped k j at).1 in
              subst (λ q. update c.store (c.keys i) (stored c i) q ≡ some (c.values j)) is_key
                (update_self c.store (c.keys i) (stored c i)
                  ∙ (stored_lem c i h ∙ ap (λ q. some (c.values q)) (sym same)))
          | inr other ↦
              let not_key : k ≢ c.keys i = λ e. other (tree_one c k j i at (ap c.tree e ∙ here)) in
              update_ne c.store (c.keys i) k (stored c i) not_key
              ∙ h.clean k j at (sym (ap is_dirty (meta_other c i m below j other)) ∙ d)
        ];
        no_deletes =
            at_entries c i m below (λ j n. is_delete n ≡ false) (f.deleted ∙ h.no_deletes i)
              h.no_deletes;
      } in
      record {
        coherent = coherent;
        views = λ k. elim (Option-cases (c.tree k)) [
          | inl absent ↦
              let not_key : k ≢ c.keys i =
                λ e. let bad : none ≡ some i = sym absent ∙ (ap c.tree e ∙ here) in cc in
              ap (found_at x k) absent
              ∙ (update_ne c.store (c.keys i) k (stored c i) not_key
                  ∙ sym (ap (found_at c k) absent))
          | inr (j, at) ↦
              ap (found_at x k) at
              ∙ (stored_lem x j coherent ∙ (sym (stored_lem c j h) ∙ sym (ap (found_at c k) at)))
        ];
        dirty = ap is_dirty (meta_self c i m below) ∙ f.dirty;
        keys = refl;
        tree = refl;
        valid = valids;
        cleans =
            at_entries c i m below (λ j n. is_dirty (meta c j) ≡ false → is_dirty n ≡ false)
              (λ d. f.dirty) (λ j d. d);
        same_length = length-set c.clocked.metadata i m;
      }

  pub write_one-WritesOut :
      (c : Cache V) (i : ℕ)
      → IsCoherent c
      → i < length c.clocked.metadata
      → is_valid (meta c i) ≡ true
      → WritesOut c i (write_one c i)
  unfolding write_one
  write_one-WritesOut c i h below v = elim (Bool-cases (is_dirty (meta c i))) [
    | inl dirty ↦
        subst
          (λ b. WritesOut c i (
            if b
            then with_meta (record c { store = update c.store (c.keys i) (stored c i) }) i
                (set_dirty_to (meta c i) false)
            else c))
          (sym dirty) (write_dirty_one c i h below v)
    | inr clean ↦
        subst
          (λ b. WritesOut c i (
            if b
            then with_meta (record c { store = update c.store (c.keys i) (stored c i) }) i
                (set_dirty_to (meta c i) false)
            else c))
          (sym clean)
          (record {
            coherent = h;
            views = λ k. refl;
            dirty = clean;
            keys = refl;
            tree = refl;
            valid = λ j. refl;
            cleans = λ j d. d;
            same_length = refl;
          })
  ]

  -- An entry that is touched and written out.
  pub scanned-WritesOut :
      (c : Cache V) (i : ℕ)
      → IsCoherent c
      → i < length c.clocked.metadata
      → is_valid (meta c i) ≡ true
      → WritesOut c i (write_one (touch c (some i)) i)
  unfolding touch
  scanned-WritesOut c i h below v =
      let marks = touch-SameMarks c i h below in
      let coherent = touch-IsCoherent c i h below in
      let same = touched c i in
      let w =
        write_one-WritesOut (touch c (some i)) i coherent (omega (arith, same.2, below))
          ((marks i).valid ∙ v) in
      record {
        coherent = w.coherent;
        views = λ k. w.views k ∙ same_view k;
        dirty = w.dirty;
        keys = w.keys ∙ same.0;
        tree = w.tree ∙ same.1;
        valid = λ j. w.valid j ∙ (marks j).valid;
        cleans = λ j d. w.cleans j ((marks j).dirty ∙ d);
        same_length = w.same_length ∙ same.2;
      }
    where
      touched :
          (c : Cache V) (i : ℕ)
          → ((touch c (some i)).keys ≡ c.keys)
            × ((touch c (some i)).tree ≡ c.tree)
            × (length (touch c (some i)).clocked.metadata ≡ length c.clocked.metadata)
      touched c i =
          (refl, refl, length-set c.clocked.metadata i (increment_priority (meta c i) false).1)

      same_view : (k : ℕ) → view (touch c (some i)) k ≡ view c k
      same_view = view_remarked c (touch c (some i)).clocked h (touch-IsCoherent c i h below)
