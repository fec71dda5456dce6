-- ===== src/RecordCache/Install.antt =====
-- record_cache/record_cache.cc: what `Put` does to the entry that it fills.
use treeline.Prelude.{
  ℕ, ◌<◌, ◌≡◌, ◌≢◌, ◌⊎◌, inl, inr, ap, sym, ◌∙◌, subst, Bool, true, false, Option, none, some, ◌==◌,
  if◌then◌else◌, arith, length, length-set, Option-cases, update, update_self, update_ne,
  same_or_not,
}
use treeline.RecordCache.{is_valid, is_dirty, is_delete}
use treeline.RecordCache.Cache.{Cache, meta, with_meta, view, found_at}
use treeline.RecordCache.Coherent.{IsCoherent, stored_lem, meta_self, meta_other, at_entries}

-- The metadata that `Put` leaves, of a record that is no deletion.
pub record IsPut (m : ℕ) (dirty : Bool) : Type 0 where
  pub byte : m < 256
  pub valid : is_valid m ≡ true
  pub dirty_flag : is_dirty m ≡ dirty
  pub not_deleted : is_delete m ≡ false

module _ {V : Type 0} where
  -- The tree without the record of the entry `i`, and what the store has of it, but for the key.
  pub record Vacates (c : Cache V) (i key : ℕ) (tree : ℕ → Option ℕ) : Type 0 where
    pub others : (k j : ℕ) → tree k ≡ some j → (c.tree k ≡ some j) × (j ≢ i)
    pub stays : (k j : ℕ) → c.tree k ≡ some j → j ≢ i → tree k ≡ some j
    pub in_store : (k : ℕ) → k ≢ key → tree k ≡ none → c.store k ≡ view c k

  module _ (c : Cache V) (i key m : ℕ) (value : V) (dirty : Bool) (h : IsCoherent c)
      (below : i < length c.clocked.metadata) (p : IsPut m dirty) where
    abbrev pub filled : Cache V
    filled =
        with_meta (record c { keys = update c.keys i key; values = update c.values i value }) i m

    -- The entry in the tree under the key.
    abbrev pub placed : (ℕ → Option ℕ) → Cache V
    placed tree = record filled { tree = update tree key (some i) }

    now_length : length filled.clocked.metadata ≡ length c.clocked.metadata
    now_length = length-set c.clocked.metadata i m

    bytes : (j : ℕ) → meta filled j < 256
    bytes = at_entries c i m below (λ j n. n < 256) p.byte h.bytes

    no_deletes : (j : ℕ) → is_delete (meta filled j) ≡ false
    no_deletes = at_entries c i m below (λ j n. is_delete n ≡ false) p.not_deleted h.no_deletes

    other_meta : (j : ℕ) → j ≢ i → meta filled j ≡ meta c j
    other_meta = meta_other c i m below

    self_meta : meta filled i ≡ m
    self_meta = meta_self c i m below

    self_valid : is_valid (meta filled i) ≡ true
    self_valid = ap is_valid self_meta ∙ p.valid

    other_key : (j : ℕ) → j ≢ i → filled.keys j ≡ c.keys j
    other_key j other = update_ne c.keys i j key other

    other_value : (j : ℕ) → j ≢ i → filled.values j ≡ c.values j
    other_value j other = update_ne c.values i j value other

    module _ (tree : ℕ → Option ℕ) (v : Vacates c i key tree)
        (no_other : (j : ℕ) → c.tree key ≡ some j → j ≡ i)
        (known : dirty ≡ false → c.store key ≡ some value) where
      -- The key's own place in the tree, and the others.
      place :
          (k j : ℕ)
          → (placed tree).tree k ≡ some j
          → ((k ≡ key) × (j ≡ i)) ⊎ ((k ≢ key) × (c.tree k ≡ some j) × (j ≢ i))
      place k j at = elim (same_or_not key k) [
        | inl same ↦
            let e : some i ≡ some j =
              sym (ap (update tree key (some i)) same ∙ update_self tree key (some i)) ∙ at in
            inl (same, cc)
        | inr other ↦
            let (there, not_i) = v.others k j (sym (update_ne tree key k (some i) other) ∙ at) in
            inr (other, there, not_i)
      ]

      placed-IsCoherent : IsCoherent (placed tree)
      placed-IsCoherent = record {
        bytes = bytes;
        mapped = λ k j at. elim (place k j at) [
          | inl (is_key, is_i) ↦
              subst
                (λ q.
                  (q < length filled.clocked.metadata)
                  × (filled.keys q ≡ k)
                  × (is_valid (meta filled q) ≡ true))
                (sym is_i)
                (omega (arith, now_length), update_self c.keys i key ∙ sym is_key, self_valid)
          | inr (other, there, not_i) ↦
              let (low, keyed, valid) = h.mapped k j there in
              (
                omega (arith, now_length),
                other_key j not_i ∙ keyed,
                ap is_valid (other_meta j not_i) ∙ valid,
              )
        ];
        valid = λ j low valid. elim (same_or_not i j) [
          | inl same ↦
              ap (λ q. update tree key (some i) (filled.keys q)) same
              ∙ (ap (update tree key (some i)) (update_self c.keys i key)
                  ∙ (update_self tree key (some i) ∙ ap some (sym same)))
          | inr other ↦
              let there =
                h.valid j (omega (arith, now_length))
                  (sym (ap is_valid (other_meta j other)) ∙ valid) in
              let not_key : c.keys j ≢ key = λ e. other (no_other j (ap c.tree (sym e) ∙ there)) in
              ap (update tree key (some i)) (other_key j other)
              ∙ (update_ne tree key (c.keys j) (some i) not_key ∙ v.stays (c.keys j) j there other)
        ];
        clean = λ k j at d. elim (place k j at) [
          | inl (is_key, is_i) ↦
              let clean =
                sym p.dirty_flag
                ∙ (sym (ap is_dirty self_meta)
                    ∙ (ap (λ q. is_dirty (meta filled q)) (sym is_i) ∙ d)) in
              ap c.store is_key
              ∙ (known clean ∙ ap some (sym (ap filled.values is_i ∙ update_self c.values i value)))
          | inr (other, there, not_i) ↦
              h.clean k j there (sym (ap is_dirty (other_meta j not_i)) ∙ d)
              ∙ ap some (sym (other_value j not_i))
        ];
        no_deletes = no_deletes;
      }

      view_key : view (placed tree) key ≡ some value
      view_key =
          ap (found_at (placed tree) key) (update_self tree key (some i))
          ∙ (stored_lem (placed tree) i placed-IsCoherent ∙ ap some (update_self c.values i value))

      view_other : (k : ℕ) → k ≢ key → view (placed tree) k ≡ view c k
      view_other k other =
          ap (found_at (placed tree) k) (update_ne tree key k (some i) other)
          ∙ elim (Option-cases (tree k)) [
            | inl out ↦ ap (found_at (placed tree) k) out ∙ v.in_store k other out
            | inr (j, at) ↦
                let (there, not_i) = v.others k j at in
                ap (found_at (placed tree) k) at
                ∙ (stored_lem (placed tree) j placed-IsCoherent
                    ∙ (ap some (other_value j not_i)
                        ∙ (sym (stored_lem c j h) ∙ sym (ap (found_at c k) there))))
          ]

      -- The key reads as its value, and every other key as before.
      pub placed_lem :
          IsCoherent (placed tree)
          × ((k : ℕ) → view (placed tree) k ≡ (if k == key then some value else view c k))
      placed_lem = (
        placed-IsCoherent,
        λ k. elim (same_or_not key k) [
          | inl same ↦
              let yes : (k == key) ≡ true = ground arith in
              ap (view (placed tree)) same
              ∙ (view_key ∙ sym (ap (λ b. if b then some value else view c k) yes))
          | inr other ↦
              let no : (k == key) ≡ false = ground arith in
              view_other k other ∙ sym (ap (λ b. if b then some value else view c k) no)
        ],
      )
