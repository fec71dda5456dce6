-- ===== src/Manager/Stale.antt =====
-- page_grouping/manager.cc: a record that is written behind one that did not fit on its page.
use treeline.Prelude.{ℕ, ◌≡◌, refl, ap, ◌∙◌, Bool, true, false, Option, none, some, or_else}
use treeline.Segments.{SegmentInfo}
use treeline.SegmentIndex.OrderedMap.{OrderedMap}
use treeline.SegmentIndex.Lookup.{Entry}
use treeline.Manager.Store.{PageOps, LockOps, Store, find_on_overflow}
use treeline.Manager.Write.{
  Writing, Options, put_on, keep_overflow, put_or_next, write_record_to_chain,
}
use treeline.Manager.Chains.{chain}
use treeline.Manager.Sound.{id, disk_of, main_page}

module _ {Page V Line Locks : Type 0} (o : PageOps Page V) (t : OrderedMap (SegmentInfo Line))
    (l : LockOps Locks) (seg : Entry Line) (n : ℕ) where
  abbrev W : Type 0
  W = Writing Page (Store Page t.Map Locks)

  found_on_page :
      (w : W) (key : ℕ) (old : V)
      → o.get w.orig_page key ≡ some old
      → chain o (id o t l seg n) n (disk_of o t l seg n w) w.curr_page_idx key ≡ some old
  found_on_page w key old e =
      let d = disk_of o t l seg n w in
      ap (λ p. or_else (o.get p key) (find_on_overflow o d (o.overflow p) key))
        (main_page o t l seg n w)
      ∙ ap (λ x. or_else x (find_on_overflow o d (o.overflow w.orig_page) key)) e

  after_put :
      (options : Options) (w : W) (key : ℕ) (v old : V)
      → w.on_overflow ≡ true
      → o.get w.orig_page key ≡ some old
      → (p : Option Page)
      → (written : Bool) × (w' : W) × (put_or_next o t l seg options w key v
            (keep_overflow o t l seg w p)
          ≡ some (written, w'))
        × (chain o (id o t l seg n) n (disk_of o t l seg n w') w.curr_page_idx key ≡ some old)
  unfolding put_or_next keep_overflow
  after_put options w key v old h e none = (false, w, rw h refl, found_on_page w key old e)
  after_put options w key v old h e (some p) =
      let w' : W = record w { overflow_page = p; overflow_page_dirty = true } in
      (true, w', refl, found_on_page w' key old e)

  -- Once a record of a page had to go to the overflow page, a record whose key is on the page itself goes to
  -- the overflow page too, if anywhere, and the key is found with its old value.
  pub stale_update :
      (options : Options) (w : W) (key : ℕ) (v old : V)
      → w.on_overflow ≡ true
      → o.get w.orig_page key ≡ some old
      → (written : Bool) × (w' : W) × (write_record_to_chain o t l seg options w key v
          ≡ some (written, w'))
        × (chain o (id o t l seg n) n (disk_of o t l seg n w') w.curr_page_idx key ≡ some old)
  unfolding write_record_to_chain
  stale_update options w key v old h e =
      let (written, w', result, found) =
        after_put options w key v old h e (o.put w.overflow_page key v) in
      (
        written,
        w',
        ap (λ b. put_or_next o t l seg options w key v (put_on o t l seg b w key v)) h ∙ result,
        found,
      )
