-- ===== src/Manager/Steps.antt =====
-- page_grouping/manager.cc: what writing one record to a chain does to the disk.
use treeline.Prelude.{
  ℕ, ◌<◌, ◌≡◌, ◌⊎◌, inl, inr, refl, ap, sym, ◌∙◌, subst, Bool, true, false, none, some,
  Option-cases, update, update_twice, update_swap,
}
use treeline.Segments.{SegmentId, SegmentInfo, is_valid}
use treeline.SegmentIndex.OrderedMap.{OrderedMap}
use treeline.SegmentIndex.Lookup.{Entry}
use treeline.Manager.Store.{PageOps, LockOps, Store, address}
use treeline.Manager.Write.{Writing, put_on}
use treeline.Manager.Chains.{main, over, Writes}
use treeline.Manager.Changes.{put_main, put_over}
use treeline.Manager.Sound.{
  id, disk_of, IsOpen, IsUnused-same, base_of, disk_of_lem, main_page, not_current, over_page,
  over-id,
}

module _ {Page V Line Locks : Type 0} (o : PageOps Page V) (t : OrderedMap (SegmentInfo Line))
    (l : LockOps Locks) (seg : Entry Line) (n : ℕ) where
  abbrev pub W : Type 0
  W = Writing Page (Store Page t.Map Locks)

  abbrev pub here : SegmentId
  here = id o t l seg n

  abbrev pub disk : W → ℕ → Page
  disk w = disk_of o t l seg n w

  abbrev pub Open : W → ℕ → Type 0
  Open w m = IsOpen o t l seg n w m

  -- The key lies within the boundaries of the current page.
  abbrev pub Fits : W → ℕ → Type 0
  Fits w key = o.fits (disk w (main o here n w.curr_page_idx)) key ≡ true

  -- The record is written to the chain of the current page.
  pub record Puts (w w' : W) (m key : ℕ) (v : V) : Type 0 where
    pub open_page : IsOpen o t l seg n w' m
    pub same_page : w'.curr_page_idx ≡ w.curr_page_idx
    pub writes :
        Writes o
          (id o t l seg n)
          n
          (disk_of o t l seg n w)
          (disk_of o t l seg n w')
          w.curr_page_idx
          key
          v

  put_main-Puts :
      (w : W) (m key : ℕ) (v : V) (p : Page)
      → Open w m
      → w.on_overflow ≡ false
      → Fits w key
      → o.put w.orig_page key v ≡ some p
      → Puts w (record w { orig_page = p }) m key v
  put_main-Puts w m key v p h off f e =
      let w' : W = record w { orig_page = p } in
      let at = main o here n w.curr_page_idx in
      let same : update (disk w) at p ≡ disk w' =
        ap (λ d. update d at p) (disk_of_lem o t l seg n w false (h.clean off))
        ∙ (update_twice w.store.disk at w.orig_page p
            ∙ sym (disk_of_lem o t l seg n w' false (h.clean off))) in
      let (writes, overs) =
        put_main o here n (disk w) w.curr_page_idx key v p h.in_segment h.apart f
          (ap (λ q. o.put q key v) (main_page o t l seg n w) ∙ e) in
      let overs' : (j : ℕ) → j < n → over o here n (disk w') j ≡ over o here n (disk w) j =
        subst (λ d. (j : ℕ) → j < n → over o here n d j ≡ over o here n (disk w) j) same overs in
      let writes' = subst (λ d. Writes o here n (disk w) d w.curr_page_idx key v) same writes in
      record {
        open_page = record {
          in_segment = h.in_segment;
          apart = writes'.apart;
          unused = λ a u. IsUnused-same o t l seg n (disk w) (disk w') a overs' (h.unused a u);
          room = h.room;
          loaded = λ on. absurd (cc);
          clean = h.clean;
        };
        same_page = refl;
        writes = writes';
      }

  put_over-Puts :
      (w : W) (m key : ℕ) (v : V) (q : Page)
      → Open w m
      → w.on_overflow ≡ true
      → Fits w key
      → o.put w.overflow_page key v ≡ some q
      → Puts w (record w { overflow_page = q; overflow_page_dirty = true }) m key v
  put_over-Puts w m key v q h on f e =
      let w' : W = record w { overflow_page = q; overflow_page_dirty = true } in
      let loaded = h.loaded on in
      let at = main o here n w.curr_page_idx in
      let spot = address w.overflow_page_id 0 in
      let here_id = over-id o t l seg n w loaded in
      let dirtied : (b : Bool)
          → update (update (base_of o t l seg n b w) spot q) at w.orig_page
            ≡ update (update w.store.disk spot q) at w.orig_page =
        λ b. ap (λ d. update d at w.orig_page) (over_base b w spot q refl) in
      let same : update (disk w) spot q ≡ disk w' =
        ap (λ d. update d spot q) (disk_of_lem o t l seg n w w.overflow_page_dirty refl)
        ∙ (update_swap (base_of o t l seg n w.overflow_page_dirty w) at spot w.orig_page q
              (λ c. not_current o t l seg n w m h loaded (sym c))
            ∙ (dirtied w.overflow_page_dirty ∙ sym (disk_of_lem o t l seg n w' true refl))) in
      let (writes, overs) =
        put_over o here n (disk w) w.curr_page_idx key v q h.in_segment h.apart
          (ap is_valid here_id ∙ loaded.valid) f
          (ap (λ x. o.put (disk w (address x 0)) key v) here_id
            ∙ (ap (λ p. o.put p key v) (over_page o t l seg n w m h loaded) ∙ e)) in
      let same' : update (disk w) (address (over o here n (disk w) w.curr_page_idx) 0) q ≡ disk w' =
        ap (λ x. update (disk w) (address x 0) q) here_id ∙ same in
      let overs' : (j : ℕ) → j < n → over o here n (disk w') j ≡ over o here n (disk w) j =
        subst (λ d. (j : ℕ) → j < n → over o here n d j ≡ over o here n (disk w) j) same' overs in
      let writes' = subst (λ d. Writes o here n (disk w) d w.curr_page_idx key v) same' writes in
      record {
        open_page = record {
          in_segment = h.in_segment;
          apart = writes'.apart;
          unused = λ a u. IsUnused-same o t l seg n (disk w) (disk w') a overs' (h.unused a u);
          room = h.room;
          loaded =
              λ c. record { linked = loaded.linked; valid = loaded.valid; page = λ c. absurd (cc) };
          clean = λ off. absurd (cc);
        };
        same_page = refl;
        writes = writes';
      }
    where
      over_base :
          (b : Bool) (w : W) (spot : ℕ) (q : Page)
          → address w.overflow_page_id 0 ≡ spot
          → update (base_of o t l seg n b w) spot q ≡ update w.store.disk spot q
      over_base true w spot q e =
          ap (λ a. update (update w.store.disk a w.overflow_page) spot q) e
          ∙ update_twice w.store.disk spot w.overflow_page q
      over_base false w spot q e = refl

  -- `Put` on the current page either finds it full or writes the record.
  pub put_on_cases :
      (b : Bool) (w : W) (m key : ℕ) (v : V)
      → w.on_overflow ≡ b
      → Open w m
      → Fits w key
      → (put_on o t l seg b w key v ≡ none)
        ⊎ ((w' : W) × (put_on o t l seg b w key v ≡ some w') × Puts w w' m key v)
  unfolding put_on
  put_on_cases true w m key v e h f = elim (Option-cases (o.put w.overflow_page key v)) [
    | inl full ↦ inl (rw full refl)
    | inr (q, fits) ↦ inr (
      record w { overflow_page = q; overflow_page_dirty = true },
      rw fits refl,
      put_over-Puts w m key v q h e f fits,
    )
  ]
  put_on_cases false w m key v e h f = elim (Option-cases (o.put w.orig_page key v)) [
    | inl full ↦ inl (rw full refl)
    | inr (p, fits) ↦
        inr (record w { orig_page = p }, rw fits refl, put_main-Puts w m key v p h e f fits)
  ]
