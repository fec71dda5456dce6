-- ===== src/RecordCache/Cache.antt =====
-- record_cache/record_cache.cc: the cached records, the tree that finds them, and the store behind them, with
-- the clock as the policy.
-- One thread uses the cache. The tree and the write-out function are not in the cache; the tree is a map from
-- keys to indices, and the function, which the cache has, puts the records of a batch into a store. The key
-- bounds are the upper bounds of the keys' pages, or `none` where the cache has no such function.
use treeline.Prelude.{
  ℕ, zero, suc, Bool, true, false, ◌&&◌, Option, none, some, if◌then◌else◌, set, update, leb, ltb,
  ◌==◌, length,
}
use treeline.RecordCache.{
  Clocked, entry, is_valid, is_dirty, is_delete, set_dirty_to, increment_priority, put_metadata,
  select_for_eviction,
}

pub record Cache (V : Type 0) : Type 0 where
  pub clocked : Clocked
  pub keys : ℕ → ℕ
  pub values : ℕ → V
  pub tree : ℕ → Option ℕ
  pub store : ℕ → Option V

abbrev pub is_at : ℕ → Option ℕ → Bool
is_at i none = false
is_at i (some j) = i == j

module _ {V : Type 0} where
  abbrev pub meta : Cache V → ℕ → ℕ
  meta c i = entry c.clocked i

  abbrev pub with_meta : Cache V → ℕ → ℕ → Cache V
  with_meta c i m = record c {
    clocked = record c.clocked { metadata = set c.clocked.metadata i m };
  }

  -- What an entry gives for its key: nothing where it is a deletion.
  abbrev pub stored : Cache V → ℕ → Option V
  stored c i = if is_delete (meta c i) then none else some (c.values i)

  -- What a reader finds: the cached record, or else that of the store.
  abbrev pub found_at : Cache V → ℕ → Option ℕ → Option V
  found_at c key (some i) = stored c i
  found_at c key none = c.store key

  abbrev pub view : Cache V → ℕ → Option V
  view c key = found_at c key (c.tree key)

  -- A hit, whose priority rises.
  unfoldable pub touch : Cache V → Option ℕ → Cache V
  touch c none = c
  touch c (some i) = with_meta c i (increment_priority (meta c i) false).1

  -- A record is put in the store, if it is dirty.
  unfoldable pub write_one : Cache V → ℕ → Cache V
  write_one c i =
      if is_dirty (meta c i)
      then with_meta (record c { store = update c.store (c.keys i) (stored c i) }) i
          (set_dirty_to (meta c i) false)
      else c

  -- The entry is one that a scan of the tree gives, from the first key on and below the second.
  abbrev pub is_scanned : Cache V → ℕ → ℕ → ℕ → Bool
  is_scanned c lower upper i =
      leb lower (c.keys i) && (ltb (c.keys i) upper && is_at i (c.tree (c.keys i)))

  -- The batch of what a scan gives, among the first entries. A scan raises the priority of each.
  unfoldable pub write_scanned : ℕ → ℕ → ℕ → Cache V → Cache V
  write_scanned zero lower upper c = c
  write_scanned (suc i) lower upper c =
      let c' = write_scanned i lower upper c in
      if is_scanned c' lower upper i then write_one (touch c' (some i)) i else c'

  -- Without key bounds, the record alone; with them, the records from it to the upper bound of its page.
  unfoldable pub write_dirty : Option (ℕ → ℕ) → Cache V → ℕ → Cache V
  write_dirty none c i = write_one c i
  write_dirty (some upper_bound) c i =
      write_scanned (length c.clocked.metadata) (c.keys i) (upper_bound (c.keys i)) c

  unfoldable pub write_out_if_dirty : Option (ℕ → ℕ) → Cache V → ℕ → Cache V
  write_out_if_dirty bounds c i = if is_dirty (meta c i) then write_dirty bounds c i else c

  -- The loop over the first entries.
  unfoldable pub write_out_entries : Option (ℕ → ℕ) → ℕ → Cache V → Cache V
  write_out_entries bounds zero c = c
  write_out_entries bounds (suc i) c =
      let c' = write_out_entries bounds i c in
      if is_dirty (meta c' i) then write_out_if_dirty bounds c' i else c'

  unfoldable pub write_out_dirty : Option (ℕ → ℕ) → Cache V → Cache V
  unfolding write_out_entries
  write_out_dirty bounds c = write_out_entries bounds (length c.clocked.metadata) c

  -- The record in the entry is written out and taken out of the tree.
  unfoldable pub vacate : Option (ℕ → ℕ) → Cache V → ℕ → Cache V
  unfolding write_out_if_dirty
  vacate bounds c i =
      let c' = write_out_if_dirty bounds c i in
      if is_valid (meta c i) then record c' { tree = update c'.tree (c.keys i) none } else c

  -- The key, the value and the metadata of an entry.
  unfoldable pub fill : Cache V → ℕ → Bool → ℕ → V → Bool → Bool → ℕ → Cache V
  fill c i found key value dirty is_delete priority =
      with_meta (record c { keys = update c.keys i key; values = update c.values i value }) i
        (put_metadata (meta c i) found dirty is_delete priority)

  unfoldable pub insert_at : Option (ℕ → ℕ) → Cache V → ℕ → ℕ → V → Bool → Bool → ℕ → Cache V
  unfolding vacate fill
  insert_at bounds c i key value dirty is_delete priority =
      let c' = fill (vacate bounds c i) i false key value dirty is_delete priority in
      record c' { tree = update c'.tree key (some i) }

  -- The entry that is chosen; `none` is a clock that is cut off.
  unfoldable pub put_evicting :
      Option (ℕ → ℕ) → Cache V → ℕ → V → Bool → Bool → ℕ → Option (ℕ × Clocked) → Option (Cache V)
  unfolding insert_at
  put_evicting bounds c key value dirty is_delete priority none = none
  put_evicting bounds c key value dirty is_delete priority (some (i, clocked)) =
      some (insert_at bounds (record c { clocked = clocked }) i key value dirty is_delete priority)

  -- By what `GetCacheIndex` finds.
  unfoldable pub put_found :
      Option (ℕ → ℕ) → ℕ → Cache V → ℕ → V → Bool → Bool → ℕ → Option ℕ → Option (Cache V)
  unfolding touch fill put_evicting
  put_found bounds fuel c key value dirty is_delete priority (some i) =
      let c' = touch c (some i) in
      some (if dirty then fill c' i true key value dirty is_delete priority else c')
  put_found bounds fuel c key value dirty is_delete priority none =
      put_evicting bounds c key value dirty is_delete priority (select_for_eviction fuel c.clocked)

  unfoldable pub put : Option (ℕ → ℕ) → ℕ → Cache V → ℕ → V → Bool → Bool → ℕ → Option (Cache V)
  unfolding put_found
  put bounds fuel c key value dirty is_delete priority =
      put_found bounds fuel c key value dirty is_delete priority (c.tree key)
