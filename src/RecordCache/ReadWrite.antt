-- ===== src/RecordCache/ReadWrite.antt =====
-- record_cache/record_cache.cc: `Put` on a cache in front of a store, as a write to the map that they are
-- read as.
use treeline.Prelude.{
  ℕ, ◌<◌, ◌≡◌, ◌≢◌, inl, inr, refl, ap, sym, ◌∙◌, subst, Bool, true, false, ◌||◌, ◌&&◌, Option,
  none, some, ◌==◌, if◌then◌else◌, arith, length, Bool-cases, update, update_self, update_ne,
  same_or_not,
}
use treeline.RecordCache.{is_valid, is_dirty, is_delete, put_metadata}
use treeline.RecordCache.Put.{put_metadata-HasFields}
use treeline.RecordCache.Cache.{
  Cache, meta, view, found_at, write_out_if_dirty, vacate, fill, insert_at,
}
use treeline.RecordCache.Coherent.{fields_of, own, IsCoherent, stored_lem, tree_one}
use treeline.RecordCache.Scan.{IsAbove, write_out-WritesOut}
use treeline.RecordCache.Install.{IsPut, Vacates, placed, placed_lem}

-- `Put` of a record that is no deletion, into an entry whose record was none.
pub put_metadata-IsPut :
    (m : ℕ) (found dirty : Bool) (priority : ℕ)
    → m < 256
    → is_delete m ≡ false
    → IsPut
        (put_metadata m found dirty false priority)
        (if found then dirty || is_dirty m else dirty)
put_metadata-IsPut m found dirty priority h old =
    let f = put_metadata-HasFields m (fields_of m) found dirty false priority (own m h) in
    record {
      byte = f.byte;
      valid = f.valid;
      dirty_flag = f.dirty;
      not_deleted = f.deleted ∙ kept dirty (is_delete m) old;
    }
  where
    kept : (b d : Bool) → d ≡ false → (if b then false else d) ≡ false
    kept true d e = refl
    kept false d e = e

module _ {V : Type 0} where
  -- A tree that loses the key of the entry `i`, whose record is in the store unless it has the new key.
  pub leave-Vacates :
      (c : Cache V) (i key : ℕ)
      → IsCoherent c
      → i < length c.clocked.metadata
      → is_valid (meta c i) ≡ true
      → (c.keys i ≢ key → is_dirty (meta c i) ≡ false)
      → Vacates c i key (update c.tree (c.keys i) none)
  leave-Vacates c i key h below v d =
      let here : c.tree (c.keys i) ≡ some i = h.valid i below v in
      record {
        others = λ k j at. elim (same_or_not (c.keys i) k) [
          | inl same ↦
              let gone : none ≡ some j =
                sym (ap (update c.tree (c.keys i) none) same ∙ update_self c.tree (c.keys i) none)
                ∙ at in
              absurd (cc)
          | inr other ↦
              let there = sym (update_ne c.tree (c.keys i) k none other) ∙ at in
              (there, λ e. other (sym (h.mapped k j there).1 ∙ ap c.keys e))
        ];
        stays = λ k j at other.
            update_ne c.tree (c.keys i) k none
              (λ e. other (tree_one c k j i at (ap c.tree e ∙ here)))
            ∙ at;
        in_store = λ k not_key out. elim (same_or_not (c.keys i) k) [
          | inl same ↦
              ap c.store same
              ∙ (h.clean (c.keys i) i here (d (λ e. not_key (same ∙ e)))
                  ∙ (sym (stored_lem c i h)
                      ∙ (sym (ap (found_at c (c.keys i)) here) ∙ sym (ap (view c) same))))
          | inr other ↦
              let absent = sym (update_ne c.tree (c.keys i) k none other) ∙ out in
              sym (ap (found_at c k) absent)
        ];
      }

  unused-Vacates :
      (c : Cache V) (i key : ℕ)
      → IsCoherent c
      → is_valid (meta c i) ≡ false
      → Vacates c i key c.tree
  unused-Vacates c i key h v = record {
    others = λ k j at. (
      at,
      λ e.
          let bad : true ≡ false =
            sym (h.mapped k j at).2 ∙ (ap (λ q. is_valid (meta c q)) e ∙ v) in
          cc,
    );
    stays = λ k j at other. at;
    in_store = λ k not_key absent. sym (ap (found_at c k) absent);
  }

  -- A cache that is as good as `c`, and whose tree may lose the entry `i`.
  record Vacated (c : Cache V) (i key : ℕ) (c' : Cache V) : Type 0 where
    pub before : Cache V
    pub coherent : IsCoherent before
    pub below : i < length before.clocked.metadata
    pub views : (k : ℕ) → view before k ≡ view c k
    pub tree : ℕ → Option ℕ
    pub vacates : Vacates before i key tree
    pub is_after : c' ≡ record before { tree = tree }
    pub same_tree : before.tree ≡ c.tree

  vacate-Vacated :
      (bounds : Option (ℕ → ℕ)) (c : Cache V) (i key : ℕ)
      → IsAbove bounds
      → IsCoherent c
      → i < length c.clocked.metadata
      → Vacated c i key (vacate bounds c i)
  unfolding vacate
  vacate-Vacated bounds c i key above h below = elim (Bool-cases (is_valid (meta c i))) [
    | inl valid ↦
        let w = write_out-WritesOut bounds c i above h below valid in
        let c' = write_out_if_dirty bounds c i in
        let low : i < length c'.clocked.metadata = omega (arith, w.same_length) in
        let gone = leave-Vacates c' i key w.coherent low (w.valid i ∙ valid) (λ e. w.dirty) in
        record {
          before = c';
          coherent = w.coherent;
          below = low;
          views = w.views;
          tree = update c'.tree (c'.keys i) none;
          vacates = gone;
          is_after =
              ap (λ b. if b then record c' { tree = update c'.tree (c.keys i) none } else c) valid
              ∙ ap (λ ks. record c' { tree = update c'.tree (ks i) none }) (sym w.keys);
          same_tree = w.tree;
        }
    | inr invalid ↦ record {
      before = c;
      coherent = h;
      below = below;
      views = λ k. refl;
      tree = c.tree;
      vacates = unused-Vacates c i key h invalid;
      is_after =
          ap
            (λ b.
              if b
              then record (write_out_if_dirty bounds c i) {
                tree = update (write_out_if_dirty bounds c i).tree (c.keys i) none;
              }
              else c)
            invalid;
      same_tree = refl;
    }
  ]

  -- A cache that reads as `c`, but for the key where the write is dirty.
  pub record Holds (c : Cache V) (key : ℕ) (value : V) (dirty : Bool) (c' : Cache V) : Type 0 where
    pub coherent : IsCoherent c'
    pub views : (k : ℕ) → view c' k ≡ (if dirty && k == key then some value else view c k)

  as_dirty :
      (dirty : Bool) (c c' : Cache V) (key : ℕ) (value : V)
      → (dirty ≡ false → view c key ≡ some value)
      → ((k : ℕ) → view c' k ≡ (if k == key then some value else view c k))
      → (k : ℕ) → view c' k ≡ (if dirty && k == key then some value else view c k)
  as_dirty true c c' key value known h k = h k
  as_dirty false c c' key value known h k = elim (same_or_not key k) [
    | inl same ↦
        let yes : (k == key) ≡ true = ground arith in
        h k
        ∙ (ap (λ b. if b then some value else view c k) yes
            ∙ (sym (known refl) ∙ ap (view c) (sym same)))
    | inr other ↦
        let no : (k == key) ≡ false = ground arith in
        h k ∙ ap (λ b. if b then some value else view c k) no
  ]

  pub insert-Holds :
      (bounds : Option (ℕ → ℕ)) (c : Cache V) (i key : ℕ) (value : V) (dirty : Bool) (priority : ℕ)
      → IsAbove bounds
      → IsCoherent c
      → i < length c.clocked.metadata
      → c.tree key ≡ none
      → (dirty ≡ false → c.store key ≡ some value)
      → Holds c key value dirty (insert_at bounds c i key value dirty false priority)
  unfolding insert_at fill
  insert-Holds bounds c i key value dirty priority above h below absent known =
      let u = vacate-Vacated bounds c i key above h below in
      let b = u.before in
      let m = put_metadata (meta b i) false dirty false priority in
      let p : IsPut m dirty =
        put_metadata-IsPut (meta b i) false dirty priority (u.coherent.bytes i)
          (u.coherent.no_deletes i) in
      let out : b.tree key ≡ none = ap (λ f. f key) u.same_tree ∙ absent in
      let seen : view c key ≡ c.store key = ap (found_at c key) absent in
      let kept : dirty ≡ false → b.store key ≡ some value =
        λ e. sym (ap (found_at b key) out) ∙ (u.views key ∙ (seen ∙ known e)) in
      let (coherent, views) =
        placed_lem b i key m value dirty u.coherent u.below p u.tree u.vacates
          (λ j at. let bad : none ≡ some j = sym out ∙ at in absurd (cc)) kept in
      let new = placed b i key m value dirty u.coherent u.below p u.tree in
      let same : new ≡ insert_at bounds c i key value dirty false priority = sym (
        ap
          (λ q.
            let c' = fill q i false key value dirty false priority in
            record c' { tree = update c'.tree key (some i) })
          u.is_after) in
      subst (Holds c key value dirty) same (record {
        coherent = coherent;
        views =
            as_dirty dirty c new key value (λ e. seen ∙ known e)
              (λ k. views k ∙ ap (λ x. if k == key then some value else x) (u.views k));
      })
