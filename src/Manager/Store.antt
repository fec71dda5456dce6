-- ===== src/Manager/Store.antt =====
-- page_grouping/manager.cc and page_grouping/persist/{page,segment_file}.h: the pages on disk, where a
-- new overflow page comes from, and reading one record.
use treeline.Prelude.{
  or_else, ℕ, ◌+◌, ◌*◌, ◌≡◌, Bool, true, Option, none, some, ◌==◌, if◌then◌else◌,
}
use treeline.Segments.{
  SegmentId, SegmentInfo, offset_unit, get_file_id, get_offset, is_valid, make_segment_id, info_id,
  page_count,
}
use treeline.FreeList
use treeline.FreeList.{FreeList}
use treeline.Locks.Modes.{SegmentMode, page_read, PageMode, shared}
use treeline.SegmentIndex.OrderedMap.{OrderedMap}
use treeline.SegmentIndex.Lookup.{segment_for_key}

-- What the manager uses of a page. `fits` says that a key lies within the page's boundaries, which calls do
-- not change: a page keeps the keys without their common prefix, so that only such keys are told apart.
-- `put` is `none` on a page that is full; `new_like` is the constructor that takes the boundaries of another
-- page.
pub record PageOps (Page V : Type 0) : Type 0 where
  pub get : Page → ℕ → Option V
  pub put : Page → ℕ → V → Option Page
  pub fits : Page → ℕ → Bool
  pub overflow : Page → SegmentId
  pub set_overflow : Page → SegmentId → Page
  pub new_like : Page → Page
  pub make_overflow : Page → Page
  pub get-put :
      (p q : Page) (key j : ℕ) (v : V)
      → put p key v ≡ some q
      → fits p key ≡ true
      → fits p j ≡ true
      → get q j ≡ (if j == key then some v else get p j)
  pub overflow-put : (p q : Page) (key : ℕ) (v : V) → put p key v ≡ some q → overflow q ≡ overflow p
  pub get-set_overflow : (p : Page) (id : SegmentId) (j : ℕ) → get (set_overflow p id) j ≡ get p j
  pub overflow-set_overflow : (p : Page) (id : SegmentId) → overflow (set_overflow p id) ≡ id
  pub get-new_like : (p : Page) (j : ℕ) → get (new_like p) j ≡ none
  pub get-make_overflow : (p : Page) (j : ℕ) → get (make_overflow p) j ≡ get p j
  pub fits-put : (p q : Page) (key j : ℕ) (v : V) → put p key v ≡ some q → fits q j ≡ fits p j
  pub fits-set_overflow :
      (p : Page) (id : SegmentId) (j : ℕ) → fits (set_overflow p id) j ≡ fits p j
  pub fits-new_like : (p : Page) (j : ℕ) → fits (new_like p) j ≡ fits p j
  pub fits-make_overflow : (p : Page) (j : ℕ) → fits (make_overflow p) j ≡ fits p j

-- The calls of the lock manager, as they change its state; a call that blocks returns once it has the
-- lock.
pub record LockOps (Locks : Type 0) : Type 0 where
  pub acquire_segment_lock : Locks → SegmentId → SegmentMode → Locks
  pub release_segment_lock : Locks → SegmentId → SegmentMode → Locks
  pub acquire_page_lock : Locks → SegmentId → ℕ → PageMode → Locks
  pub release_page_lock : Locks → SegmentId → ℕ → PageMode → Locks

-- The position of a page: in units of pages, the files one behind another.
abbrev pub address : SegmentId → ℕ → ℕ
address id page_idx = get_file_id id * offset_unit + (get_offset id + page_idx)

-- `pg::PageForKey` on a line over floats is a parameter.
abbrev pub OnLine : Type 0 → Type 0
OnLine Line = ℕ → Option Line → ℕ → ℕ → ℕ

unfoldable pub page_for_key : {Line : Type 0} → OnLine Line → SegmentInfo Line → ℕ → ℕ → ℕ
unfolding page_count
page_for_key on_line s base_key candidate =
    if page_count s == 1 then 0 else on_line base_key s.model (page_count s) candidate

-- `file_end` is the end of what is allocated in the file of single pages, in pages.
pub record Store (Page Map Locks : Type 0) : Type 0 where
  pub disk : ℕ → Page
  pub free : FreeList
  pub file_end : ℕ
  pub index : Map
  pub locks : Locks

module _ {Page Map Locks : Type 0} where
  -- `AllocateSegment` and the id of what it gives; `none` is an offset that is out of range.
  unfoldable pub allocate_at_end : Store Page Map Locks → Option (SegmentId × Store Page Map Locks)
  unfolding make_segment_id
  allocate_at_end s = elim (make_segment_id 0 s.file_end) [
    | none ↦ none
    | some id ↦ some (id, record s { file_end = s.file_end + 1 })
  ]

  -- The answer of `free_->Get(1)`.
  unfoldable pub take_or_allocate :
      Store Page Map Locks
      → Option (Option SegmentId × FreeList)
      → Option (SegmentId × Store Page Map Locks)
  unfolding allocate_at_end
  take_or_allocate s none = none
  take_or_allocate s (some (some id, free)) = some (id, record s { free = free })
  take_or_allocate s (some (none, free)) = allocate_at_end s

  unfoldable pub allocate_page : Store Page Map Locks → Option (SegmentId × Store Page Map Locks)
  unfolding take_or_allocate
  allocate_page s = take_or_allocate s (FreeList.get s.free 1)

module _ {Page V : Type 0} (o : PageOps Page V) where
  -- The overflow page of a page, if it has one.
  abbrev pub find_on_overflow : (ℕ → Page) → SegmentId → ℕ → Option V
  find_on_overflow disk id key = if is_valid id then o.get (disk (address id 0)) key else none

  -- The search on a page, and then on its overflow page.
  abbrev pub find_on_chain : (ℕ → Page) → ℕ → ℕ → Option V
  find_on_chain disk main key =
      or_else (o.get (disk main) key) (find_on_overflow disk (o.overflow (disk main)) key)

  module _ {Line Locks : Type 0} (t : OrderedMap (SegmentInfo Line)) where
    -- `none` is an index without segments. The pages that were read are not given back.
    unfoldable pub get_with_pages :
        LockOps Locks
        → OnLine Line
        → Store Page t.Map Locks
        → ℕ
        → Option (Option V × Store Page t.Map Locks)
    unfolding page_for_key
    get_with_pages l on_line s key = elim (segment_for_key t s.index key) [
      | none ↦ none
      | some seg ↦
          let id = info_id seg.sinfo in
          let page_idx = page_for_key on_line seg.sinfo seg.lower key in
          let segment_locked = l.acquire_segment_lock s.locks id page_read in
          let page_locked = l.acquire_page_lock segment_locked id page_idx shared in
          let found = find_on_chain s.disk (address id page_idx) key in
          let page_released = l.release_page_lock page_locked id page_idx shared in
          some (found, record s { locks = l.release_segment_lock page_released id page_read })
    ]
