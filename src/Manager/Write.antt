-- ===== src/Manager/Write.antt =====
-- page_grouping/manager.cc: `WriteToSegment` and `PutBatchImpl`.
-- Where a page is written, the dirty flag of the overflow page is that of the source; the test of the
-- other flag in `write_dirty_pages` is one of a pointer that is never null, so that the page of the segment
-- is always written.
use treeline.Prelude.{
  update, ℕ, ◌-◌, ◌*◌, Bool, true, false, ◌||◌, Option, none, some, List, [], ◌∷◌, ◌==◌, ltb,
  if◌then◌else◌, length,
}
use treeline.Segments.{SegmentId, SegmentInfo, is_valid, invalid_id, info_id, page_count}
use treeline.Locks.Modes.{page_write, exclusive}
use treeline.SegmentIndex.OrderedMap.{OrderedMap}
use treeline.SegmentIndex.Lookup.{Entry, set_segment_overflow}
use treeline.Manager.Store.{PageOps, LockOps, OnLine, Store, address, page_for_key, allocate_page}

pub record Options : Type 0 where
  pub records_per_page_goal : ℕ
  pub use_segments : Bool
  pub disable_overflow_creation : Bool

-- What page_grouping/manager_rewrite.cc does with a segment's base and the records to merge in; the result
-- says whether the status is ok.
pub record Reorg (S V : Type 0) : Type 0 where
  pub rewrite_segments : S → ℕ → List (ℕ × V) → Bool × S
  pub flatten_chain : S → ℕ → List (ℕ × V) → Bool × S

-- The locals of `WriteToSegment`; `on_overflow` says that `curr_page` points to the overflow page.
pub record Writing (Page S : Type 0) : Type 0 where
  pub store : S
  pub curr_page_idx : ℕ
  pub orig_page : Page
  pub overflow_page : Page
  pub overflow_page_id : SegmentId
  pub overflow_page_dirty : Bool
  pub on_overflow : Bool

module _ {Page V Line Locks : Type 0} (o : PageOps Page V) (t : OrderedMap (SegmentInfo Line))
    (l : LockOps Locks) where
  abbrev pub World : Type 0
  World = Store Page t.Map Locks

  abbrev pub write_page : World → SegmentId → ℕ → Page → World
  write_page s id page_idx page = record s { disk = update s.disk (address id page_idx) page }

  module _ (seg : Entry Line) where
    abbrev pub segment_id : SegmentId
    segment_id = info_id seg.sinfo

    unfoldable pub write_dirty_pages : Writing Page World → World
    write_dirty_pages w =
        let s =
          if w.overflow_page_dirty
          then write_page w.store w.overflow_page_id 0 w.overflow_page
          else w.store in
        write_page s segment_id w.curr_page_idx w.orig_page

    -- The outcome of `Put` on the page of the segment and on the overflow page; `none` is a full page.
    unfoldable pub keep_main : Writing Page World → Option Page → Option (Writing Page World)
    keep_main w none = none
    keep_main w (some page) = some (record w { orig_page = page })

    unfoldable pub keep_overflow : Writing Page World → Option Page → Option (Writing Page World)
    keep_overflow w none = none
    keep_overflow w (some page) =
        some (record w { overflow_page = page; overflow_page_dirty = true })

    -- `curr_page->Put`, on the page that `curr_page` points to.
    unfoldable pub put_on : Bool → Writing Page World → ℕ → V → Option (Writing Page World)
    unfolding keep_main keep_overflow
    put_on true w key value = keep_overflow w (o.put w.overflow_page key value)
    put_on false w key value = keep_main w (o.put w.orig_page key value)

    unfoldable pub put_current : Writing Page World → ℕ → V → Option (Writing Page World)
    unfolding put_on
    put_current w key value = put_on w.on_overflow w key value

    unfoldable pub load_overflow : Writing Page World → Writing Page World
    load_overflow w = record w {
      overflow_page_id = o.overflow w.orig_page;
      overflow_page = w.store.disk (address (o.overflow w.orig_page) 0);
      on_overflow = true;
    }

    unfoldable pub link_overflow : Writing Page World → SegmentId → World → Writing Page World
    link_overflow w id s = record w {
      store = record s { index = set_segment_overflow t s.index seg.lower true };
      overflow_page_id = id;
      overflow_page = o.set_overflow (o.make_overflow (o.new_like w.orig_page)) invalid_id;
      overflow_page_dirty = true;
      orig_page = o.set_overflow w.orig_page id;
      on_overflow = true;
    }

    unfoldable pub link_allocated :
        Writing Page World → Option (SegmentId × World) → Option (Writing Page World)
    unfolding link_overflow
    link_allocated w none = none
    link_allocated w (some (id, s)) = some (link_overflow w id s)

    unfoldable pub create_overflow : Writing Page World → Option (Writing Page World)
    unfolding link_allocated
    create_overflow w = link_allocated w (allocate_page w.store)

    unfoldable pub next_page : Writing Page World → Option (Writing Page World)
    unfolding load_overflow create_overflow
    next_page w =
        if is_valid (o.overflow w.orig_page) then some (load_overflow w) else create_overflow w

    -- The last attempt, on the overflow page.
    unfoldable pub last_put :
        Writing Page World → Option (Writing Page World) → Option (Bool × Writing Page World)
    last_put w none = some (false, w)
    last_put w (some w') = some (true, w')

    unfoldable pub put_next :
        ℕ → V → Option (Writing Page World) → Option (Bool × Writing Page World)
    unfolding put_current last_put
    put_next key value none = none
    put_next key value (some w) = last_put w (put_current w key value)

    -- What follows the first attempt. `none` is an exception of the allocation.
    unfoldable pub put_or_next :
        Options
        → Writing Page World
        → ℕ
        → V
        → Option (Writing Page World)
        → Option (Bool × Writing Page World)
    unfolding next_page put_next
    put_or_next options w key value (some w') = some (true, w')
    put_or_next options w key value none =
        if w.on_overflow || options.disable_overflow_creation
        then some (false, w)
        else put_next key value (next_page w)

    unfoldable pub write_record_to_chain :
        Options → Writing Page World → ℕ → V → Option (Bool × Writing Page World)
    unfolding put_current put_or_next
    write_record_to_chain options w key value =
        put_or_next options w key value (put_current w key value)

    module _ (on_line : OnLine Line) where
      abbrev pub page_of : ℕ → ℕ
      page_of key = page_for_key on_line seg.sinfo seg.lower key

      -- The page is locked and read.
      unfoldable pub open_page : World → ℕ → Writing Page World
      open_page s page_idx = record {
        store = record s { locks = l.acquire_page_lock s.locks segment_id page_idx exclusive };
        curr_page_idx = page_idx;
        orig_page = s.disk (address segment_id page_idx);
        overflow_page = s.disk (address segment_id page_idx);
        overflow_page_id = invalid_id;
        overflow_page_dirty = false;
        on_overflow = false;
      }

      -- The dirty pages are written and the page's lock is given up.
      unfoldable pub close_page : Writing Page World → World
      unfolding write_dirty_pages
      close_page w =
          let s = write_dirty_pages w in
          record s { locks = l.release_page_lock s.locks segment_id w.curr_page_idx exclusive }

      unfoldable pub switch_page : Writing Page World → ℕ → Writing Page World
      unfolding open_page close_page
      switch_page w page_idx =
          if page_idx == w.curr_page_idx then w else open_page (close_page w) page_idx

      unfoldable pub release_segment : World → World
      release_segment s = record s { locks = l.release_segment_lock s.locks segment_id page_write }

      -- What follows a record: the other records, or the end of the loop.
      unfoldable pub after_record :
          (Writing Page World → Option (List (ℕ × V) × World))
          → List (ℕ × V)
          → Option (Bool × Writing Page World)
          → Option (List (ℕ × V) × World)
      unfolding close_page release_segment
      after_record others records none = none
      after_record others records (some (true, w)) = others w
      after_record others records (some (false, w)) = some (records, release_segment (close_page w))

      -- How the loop ends: with the records that are left, the first of which does not fit.
      unfoldable pub write_records :
          Options → Writing Page World → List (ℕ × V) → Option (List (ℕ × V) × World)
      unfolding write_record_to_chain switch_page after_record
      write_records options w [] = some ([], release_segment (close_page w))
      write_records options w ((key, value) ∷ records) =
          after_record (λ w'. write_records options w' records) ((key, value) ∷ records)
            (write_record_to_chain options (switch_page w (page_of key)) key value)

      unfoldable pub rewrite : Options → Reorg World V → World → List (ℕ × V) → Bool × World
      rewrite options r s records =
          if options.use_segments
          then r.rewrite_segments s seg.lower records
          else r.flatten_chain s seg.lower records

      -- The count of what is written when the segment is full after `done` records.
      unfoldable pub after_loop :
          Options → Reorg World V → ℕ → Option (List (ℕ × V) × World) → Option (ℕ × World)
      unfolding rewrite
      after_loop options r total none = none
      after_loop options r total (some ([], s)) = some (total, s)
      after_loop options r total (some (full ∷ left, s)) =
          let (succeeded, s') = rewrite options r s (full ∷ left) in
          some (if succeeded then total else total - length (full ∷ left), s')

      -- The page of the first key is opened, which is read though there may be no record to write.
      unfoldable pub write_first :
          Options → World → ℕ → List (ℕ × V) → Option (List (ℕ × V) × World)
      unfolding write_records open_page
      write_first options s first_key records =
          write_records options (open_page s (page_of first_key)) records

      -- The records of one segment, with the key at the index where they start.
      unfoldable pub write_to_segment :
          Options → Reorg World V → World → ℕ → List (ℕ × V) → Option (ℕ × World)
      unfolding write_first after_loop rewrite
      write_to_segment options r s first_key records =
          if ltb (options.records_per_page_goal * page_count seg.sinfo * 2) (length records)
          then (let (succeeded, s') = rewrite options r (release_segment s) records in
              some (if succeeded then length records else 0, s'))
          else after_loop options r (length records) (write_first options s first_key records)
