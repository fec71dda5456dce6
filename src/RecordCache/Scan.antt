-- ===== src/RecordCache/Scan.antt =====
-- record_cache/record_cache.cc: `WriteOutIfDirty`, which may write a page's records out together.
use treeline.Prelude.{
  ℕ, zero, suc, ◌<◌, ◌≡◌, inl, inr, refl, ap, sym, ◌∙◌, subst, Bool, true, false, ◌&&◌, Option,
  none, some, ◌==◌, if◌then◌else◌, arith, length, Bool-cases, same_or_not, leb, ltb,
}
use treeline.RecordCache.{is_valid, is_dirty}
use treeline.RecordCache.Cache.{
  Cache, meta, view, is_at, is_scanned, touch, write_one, write_scanned, write_dirty,
  write_out_if_dirty,
}
use treeline.RecordCache.Coherent.{IsCoherent}
use treeline.RecordCache.WriteOne.{WritesOut, write_one-WritesOut, scanned-WritesOut}

-- The upper bound of a key's page is above the key.
abbrev pub IsAbove : Option (ℕ → ℕ) → Type 0
IsAbove bounds = (upper_bound : ℕ → ℕ) → bounds ≡ some upper_bound → (k : ℕ) → k < upper_bound k

is_at_self : (i : ℕ) (o : Option ℕ) → is_at i o ≡ true → o ≡ some i
is_at_self i none e = absurd (cc)
is_at_self i (some j) e = let same : i ≡ j = ground arith in ap some (sym same)

both : (a b : Bool) → (a && b) ≡ true → b ≡ true
both true b e = e
both false b e = absurd (cc)

module _ {V : Type 0} where
  -- A scanned entry is in the tree.
  scanned_valid :
      (c : Cache V) (lower upper i : ℕ)
      → IsCoherent c
      → is_scanned c lower upper i ≡ true
      → (i < length c.clocked.metadata) × (is_valid (meta c i) ≡ true)
  scanned_valid c lower upper i h s =
      let at = is_at_self i (c.tree (c.keys i)) (
        both (ltb (c.keys i) upper) (is_at i (c.tree (c.keys i)))
          (both (leb lower (c.keys i)) (ltb (c.keys i) upper && is_at i (c.tree (c.keys i))) s)) in
      let (below, keyed, valid) = h.mapped (c.keys i) i at in (below, valid)

  self_scanned :
      (c : Cache V) (i upper : ℕ)
      → c.tree (c.keys i) ≡ some i
      → c.keys i < upper
      → is_scanned c (c.keys i) upper i ≡ true
  self_scanned c i upper here low =
      let from : leb (c.keys i) (c.keys i) ≡ true = ground arith in
      let to : ltb (c.keys i) upper ≡ true = ground arith in
      let self : (i == i) ≡ true = ground arith in
      ap (λ b. b && (ltb (c.keys i) upper && is_at i (c.tree (c.keys i)))) from
      ∙ (ap (λ b. b && is_at i (c.tree (c.keys i))) to ∙ (ap (is_at i) here ∙ self))

  -- What the batch of the first `n` entries leaves; the entry `i` is clean once it is among them.
  record Written (c : Cache V) (i n : ℕ) (c' : Cache V) : Type 0 where
    pub coherent : IsCoherent c'
    pub views : (k : ℕ) → view c' k ≡ view c k
    pub dirty : i < n → is_dirty (meta c' i) ≡ false
    pub valid : (j : ℕ) → is_valid (meta c' j) ≡ is_valid (meta c j)
    pub cleans : (j : ℕ) → is_dirty (meta c j) ≡ false → is_dirty (meta c' j) ≡ false
    pub keys : c'.keys ≡ c.keys
    pub tree : c'.tree ≡ c.tree
    pub same_length : length c'.clocked.metadata ≡ length c.clocked.metadata

  module _ (c : Cache V) (i upper : ℕ) (h : IsCoherent c) (here : c.tree (c.keys i) ≡ some i)
      (low : c.keys i < upper) where
    written_next :
        (n : ℕ) (c' : Cache V)
        → Written c i n c'
        → is_scanned c' (c.keys i) upper n ≡ true
        → Written c i (suc n) (write_one (touch c' (some n)) n)
    written_next n c' w s =
        let (below, valid) = scanned_valid c' (c.keys i) upper n w.coherent s in
        let next = scanned-WritesOut c' n w.coherent below valid in
        record {
          coherent = next.coherent;
          views = λ k. next.views k ∙ w.views k;
          dirty = λ within. elim (same_or_not n i) [
            | inl same ↦
                subst (λ q. is_dirty (meta (write_one (touch c' (some n)) n) q) ≡ false) (sym same)
                  next.dirty
            | inr other ↦ next.cleans i (w.dirty (omega arith))
          ];
          valid = λ j. next.valid j ∙ w.valid j;
          cleans = λ j d. next.cleans j (w.cleans j d);
          keys = next.keys ∙ w.keys;
          tree = next.tree ∙ w.tree;
          same_length = next.same_length ∙ w.same_length;
        }

    written_past :
        (n : ℕ) (c' : Cache V)
        → Written c i n c'
        → is_scanned c' (c.keys i) upper n ≡ false
        → Written c i (suc n) c'
    written_past n c' w s = record {
      coherent = w.coherent;
      views = w.views;
      dirty = λ within. elim (same_or_not n i) [
        | inl same ↦
            let key : c'.keys i ≡ c.keys i = ap (λ f. f i) w.keys in
            let there : c'.tree (c'.keys i) ≡ some i =
              ap c'.tree key ∙ (ap (λ f. f (c.keys i)) w.tree ∙ here) in
            let self = self_scanned c' i upper there (omega (arith, key, low)) in
            let bad : true ≡ false =
              sym self
              ∙ (ap (λ k. is_scanned c' k upper i) key
                  ∙ (ap (is_scanned c' (c.keys i) upper) same ∙ s)) in
            absurd (cc)
        | inr other ↦ w.dirty (omega arith)
      ];
      valid = w.valid;
      cleans = w.cleans;
      keys = w.keys;
      tree = w.tree;
      same_length = w.same_length;
    }

    written : (n : ℕ) → Written c i n (write_scanned n (c.keys i) upper c)
    unfolding write_scanned
    written zero = record {
      coherent = h;
      views = λ k. refl;
      dirty = λ within. absurd (omega arith);
      valid = λ j. refl;
      cleans = λ j d. d;
      keys = refl;
      tree = refl;
      same_length = refl;
    }
    written (suc n) =
        let c' = write_scanned n (c.keys i) upper c in
        let at : Bool → Cache V = λ b. if b then write_one (touch c' (some n)) n else c' in
        let s = is_scanned c' (c.keys i) upper n in
        elim (Bool-cases s) [
          | inl is_in ↦
              subst (λ b. Written c i (suc n) (at b)) (sym is_in)
                (written_next n c' (written n) is_in)
          | inr is_out ↦
              subst (λ b. Written c i (suc n) (at b)) (sym is_out)
                (written_past n c' (written n) is_out)
        ]

  write_dirty-WritesOut :
      (bounds : Option (ℕ → ℕ)) (c : Cache V) (i : ℕ)
      → IsAbove bounds
      → IsCoherent c
      → i < length c.clocked.metadata
      → is_valid (meta c i) ≡ true
      → WritesOut c i (write_dirty bounds c i)
  unfolding write_dirty
  write_dirty-WritesOut none c i above h below v = write_one-WritesOut c i h below v
  write_dirty-WritesOut (some upper_bound) c i above h below v =
      let here = h.valid i below v in
      let w =
        written c i (upper_bound (c.keys i)) h here (above upper_bound refl (c.keys i))
          (length c.clocked.metadata) in
      record {
        coherent = w.coherent;
        views = w.views;
        dirty = w.dirty below;
        keys = w.keys;
        tree = w.tree;
        valid = w.valid;
        cleans = w.cleans;
        same_length = w.same_length;
      }

  pub write_out-WritesOut :
      (bounds : Option (ℕ → ℕ)) (c : Cache V) (i : ℕ)
      → IsAbove bounds
      → IsCoherent c
      → i < length c.clocked.metadata
      → is_valid (meta c i) ≡ true
      → WritesOut c i (write_out_if_dirty bounds c i)
  unfolding write_out_if_dirty
  write_out-WritesOut bounds c i above h below v =
      let at : Bool → Cache V = λ b. if b then write_dirty bounds c i else c in
      elim (Bool-cases (is_dirty (meta c i))) [
        | inl dirty ↦
            subst (λ b. WritesOut c i (at b)) (sym dirty)
              (write_dirty-WritesOut bounds c i above h below v)
        | inr clean ↦
            subst (λ b. WritesOut c i (at b)) (sym clean)
              (record {
                coherent = h;
                views = λ k. refl;
                dirty = clean;
                keys = refl;
                tree = refl;
                valid = λ j. refl;
                cleans = λ j d. d;
                same_length = refl;
              })
      ]
