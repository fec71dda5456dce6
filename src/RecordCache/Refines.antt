-- ===== src/RecordCache/Refines.antt =====
-- record_cache/record_cache.cc: the whole of `Put`.
use treeline.Prelude.{
  Option, ℕ, ◌*◌, ◌<◌, ◌≡◌, ap, sym, ◌∙◌, subst, Bool, true, false, ◌&&◌, none, some, ◌==◌,
  if◌then◌else◌, arith, length, Option-cases, inl, inr, update, update_same, update_twice,
}
use treeline.RecordCache.{entry, put_metadata}
use treeline.RecordCache.Clock.{select_for_eviction-Evicts}
use treeline.RecordCache.Cache.{
  Cache, meta, view, touch, fill, insert_at, put_evicting, put_found, put,
}
use treeline.RecordCache.Coherent.{
  same_high, IsCoherent, tree_one, remarked-IsCoherent, touch-IsCoherent, view_remarked,
}
use treeline.RecordCache.Scan.{IsAbove}
use treeline.RecordCache.Install.{IsPut, placed_lem}
use treeline.RecordCache.ReadWrite.{put_metadata-IsPut, leave-Vacates, Holds, insert-Holds}

module _ {V : Type 0} where
  overwrite-Holds :
      (c : Cache V) (i key : ℕ) (value : V) (priority : ℕ)
      → IsCoherent c
      → c.tree key ≡ some i
      → Holds c key value true (fill c i true key value true false priority)
  unfolding fill
  overwrite-Holds c i key value priority h at =
      let (below, keyed, valid) = h.mapped key i at in
      let m = put_metadata (meta c i) true true false priority in
      let p : IsPut m true =
        put_metadata-IsPut (meta c i) true true priority (h.bytes i) (h.no_deletes i) in
      let tree = update c.tree (c.keys i) none in
      let gone = leave-Vacates c i key h below valid (λ differs. absurd (differs keyed)) in
      let (coherent, views) =
        placed_lem c i key m value true h below p tree gone (λ j at'. tree_one c key j i at' at)
          (λ e. absurd (cc)) in
      let same_tree : update tree key (some i) ≡ c.tree =
        ap (λ q. update (update c.tree q none) key (some i)) keyed
        ∙ (update_twice c.tree key none (some i)
            ∙ (ap (update c.tree key) (sym at) ∙ update_same c.tree key)) in
      subst (Holds c key value true)
        (ap (λ f. record (fill c i true key value true false priority) { tree = f }) same_tree)
        (record { coherent = coherent; views = views })

  -- A hit.
  hit-Holds :
      (dirty : Bool) (c : Cache V) (i key : ℕ) (value : V) (priority : ℕ)
      → IsCoherent c
      → c.tree key ≡ some i
      → Holds c key value dirty (
          if dirty
          then fill (touch c (some i)) i true key value dirty false priority
          else touch c (some i))
  unfolding touch
  hit-Holds dirty c i key value priority h at =
      let low = (h.mapped key i at).0 in
      let touched = touch-IsCoherent c i h low in
      let same = view_remarked c (touch c (some i)).clocked h touched in go dirty touched same
    where
      go :
          (b : Bool)
          → IsCoherent (touch c (some i))
          → ((k : ℕ) → view (touch c (some i)) k ≡ view c k)
          → Holds c key value b (
              if b
              then fill (touch c (some i)) i true key value b false priority
              else touch c (some i))
      go true touched same =
          let w = overwrite-Holds (touch c (some i)) i key value priority touched at in
          record {
            coherent = w.coherent;
            views = λ k. w.views k ∙ ap (λ x. if k == key then some value else x) (same k);
          }
      go false touched same = record { coherent = touched; views = same }

  -- In a coherent cache with any entry, with key bounds, if any, above their keys, and with more rounds of the clock than seven times the entries, `Put`
  -- of a record that is no deletion ends and keeps the cache coherent. A dirty write sets the value that the
  -- key is read as, and no other; a write that is not dirty, of the value that the store has, changes nothing
  -- that is read, whatever it evicts.
  pub put-Holds :
      (bounds : Option (ℕ → ℕ)) (fuel : ℕ) (c : Cache V) (key : ℕ) (value : V) (dirty : Bool)
      (priority : ℕ)
      → IsAbove bounds
      → IsCoherent c
      → 0 < length c.clocked.metadata
      → 7 * length c.clocked.metadata < fuel
      → (dirty ≡ false → c.store key ≡ some value)
      → (c' : Cache V) × (put bounds fuel c key value dirty false priority ≡ some c')
        × Holds c key value dirty c'
  unfolding put
  put-Holds bounds fuel c key value dirty priority above h some_entry rounds known =
      elim (Option-cases (c.tree key)) [
        | inr (i, at) ↦ (
          if dirty
              then fill (touch c (some i)) i true key value dirty false priority
              else touch c (some i),
          ap (put_found bounds fuel c key value dirty false priority) at,
          hit-Holds dirty c i key value priority h at,
        )
        | inl absent ↦
            let (i, clocked, e, v) = select_for_eviction-Evicts fuel c.clocked some_entry rounds in
            let c1 : Cache V = record c { clocked = clocked } in
            let coherent =
              remarked-IsCoherent c clocked h v.lowers.same_length
                (λ j. same_high (meta c j) (entry clocked j) (h.bytes j) (v.lowers.fields j)) in
            let w =
              insert-Holds bounds c1 i key value dirty priority above coherent
                (omega (arith, v.in_range, v.lowers.same_length)) absent known in
            (
              insert_at bounds c1 i key value dirty false priority,
              ap (put_found bounds fuel c key value dirty false priority) absent
                  ∙ ap (put_evicting bounds c key value dirty false priority) e,
              record {
                coherent = w.coherent;
                views = λ k.
                    w.views k
                    ∙ ap (λ x. if dirty && k == key then some value else x)
                        (view_remarked c clocked h coherent k);
              },
            )
      ]
