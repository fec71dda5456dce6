-- ===== src/RecordCache/Flush.antt =====
-- record_cache/record_cache.cc: `WriteOutDirty`, after which the store has all that readers find.
use treeline.Prelude.{
  ℕ, zero, suc, ◌<◌, ◌≡◌, inl, inr, refl, ap, sym, ◌∙◌, subst, Bool, true, false, Option, arith,
  length, if◌then◌else◌, Bool-cases, Option-cases, same_or_not,
}
use treeline.RecordCache.{is_valid, is_dirty}
use treeline.RecordCache.Cache.{
  Cache, meta, view, found_at, write_out_if_dirty, write_out_entries, write_out_dirty,
}
use treeline.RecordCache.Coherent.{IsCoherent, stored_lem}
use treeline.RecordCache.Scan.{IsAbove, write_out-WritesOut}

module _ {V : Type 0} where
  -- An entry without a record is clean.
  abbrev pub UnusedIsClean : Cache V → Type 0
  UnusedIsClean c = (i : ℕ) → is_valid (meta c i) ≡ false → is_dirty (meta c i) ≡ false

  -- What the loop leaves once the first `n` entries are written out.
  record Flushed (c : Cache V) (n : ℕ) (c' : Cache V) : Type 0 where
    pub coherent : IsCoherent c'
    pub views : (k : ℕ) → view c' k ≡ view c k
    pub unused : UnusedIsClean c'
    pub cleans : (i : ℕ) → i < n → is_dirty (meta c' i) ≡ false
    pub same_length : length c'.clocked.metadata ≡ length c.clocked.metadata

  used :
      (c : Cache V) (i : ℕ)
      → UnusedIsClean c
      → is_dirty (meta c i) ≡ true
      → is_valid (meta c i) ≡ true
  used c i unused dirty = elim (Bool-cases (is_valid (meta c i))) [
    | inl valid ↦ valid
    | inr invalid ↦ let bad : true ≡ false = sym dirty ∙ unused i invalid in absurd (cc)
  ]

  module _ (bounds : Option (ℕ → ℕ)) (c : Cache V) (above : IsAbove bounds) where
    flush_one :
        (n : ℕ) (c' : Cache V)
        → n < length c.clocked.metadata
        → Flushed c n c'
        → is_dirty (meta c' n) ≡ true
        → Flushed c (suc n) (write_out_if_dirty bounds c' n)
    flush_one n c' low w dirty =
        let valid = used c' n w.unused dirty in
        let next =
          write_out-WritesOut bounds c' n above w.coherent (omega (arith, low, w.same_length))
            valid in
        record {
          coherent = next.coherent;
          views = λ k. next.views k ∙ w.views k;
          unused = λ i v. next.cleans i (w.unused i (sym (next.valid i) ∙ v));
          cleans = λ i within. elim (same_or_not n i) [
            | inl same ↦
                subst (λ q. is_dirty (meta (write_out_if_dirty bounds c' n) q) ≡ false) (sym same)
                  next.dirty
            | inr other ↦ next.cleans i (w.cleans i (omega arith))
          ];
          same_length = next.same_length ∙ w.same_length;
        }

    flush_past :
        (n : ℕ) (c' : Cache V)
        → Flushed c n c'
        → is_dirty (meta c' n) ≡ false
        → Flushed c (suc n) c'
    flush_past n c' w clean = record {
      coherent = w.coherent;
      views = w.views;
      unused = w.unused;
      cleans = λ i within. elim (same_or_not n i) [
        | inl same ↦ ap (λ q. is_dirty (meta c' q)) same ∙ clean
        | inr other ↦ w.cleans i (omega arith)
      ];
      same_length = w.same_length;
    }

    flushed :
        (n : ℕ)
        → n < suc (length c.clocked.metadata)
        → IsCoherent c
        → UnusedIsClean c
        → Flushed c n (write_out_entries bounds n c)
    unfolding write_out_entries
    flushed zero low h unused = record {
      coherent = h;
      views = λ k. refl;
      unused = unused;
      cleans = λ i within. absurd (omega arith);
      same_length = refl;
    }
    flushed (suc n) low h unused =
        let c' = write_out_entries bounds n c in
        let w = flushed n (omega arith) h unused in
        let at : Bool → Cache V = λ b. if b then write_out_if_dirty bounds c' n else c' in
        elim (Bool-cases (is_dirty (meta c' n))) [
          | inl dirty ↦
              subst (λ b. Flushed c (suc n) (at b)) (sym dirty)
                (flush_one n c' (omega arith) w dirty)
          | inr clean ↦ subst (λ b. Flushed c (suc n) (at b)) (sym clean) (flush_past n c' w clean)
        ]

  -- Where no entry is dirty, the store has what readers find.
  clean_store :
      (c : Cache V)
      → IsCoherent c
      → ((i : ℕ) → i < length c.clocked.metadata → is_dirty (meta c i) ≡ false)
      → (k : ℕ) → c.store k ≡ view c k
  clean_store c h cleans k = elim (Option-cases (c.tree k)) [
    | inl absent ↦ sym (ap (found_at c k) absent)
    | inr (i, at) ↦
        h.clean k i at (cleans i (h.mapped k i at).0)
        ∙ (sym (stored_lem c i h) ∙ sym (ap (found_at c k) at))
  ]

  -- In a coherent cache whose entries without a record are clean, with key bounds, if any, above their keys,
  -- `WriteOutDirty` keeps the cache coherent and what readers find for each key, and the store then has just
  -- that.
  pub write_out_dirty_lem :
      (bounds : Option (ℕ → ℕ)) (c : Cache V)
      → IsAbove bounds
      → IsCoherent c
      → UnusedIsClean c
      → IsCoherent (write_out_dirty bounds c)
        × ((k : ℕ) → view (write_out_dirty bounds c) k ≡ view c k)
        × ((k : ℕ) → (write_out_dirty bounds c).store k ≡ view c k)
  unfolding write_out_dirty
  write_out_dirty_lem bounds c above h unused =
      let w = flushed bounds c above (length c.clocked.metadata) (omega arith) h unused in
      let store =
        clean_store (write_out_dirty bounds c) w.coherent
          (λ i low. w.cleans i (omega (arith, low, w.same_length))) in
      (w.coherent, w.views, λ k. store k ∙ w.views k)
