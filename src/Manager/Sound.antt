-- ===== src/Manager/Sound.antt =====
-- page_grouping/manager.cc: the state of `WriteToSegment`, and what the disk holds once its dirty pages are
-- written.
use treeline.Prelude.{
  ℕ, suc, ◌<◌, ◌≡◌, ◌≢◌, refl, ap, sym, ◌∙◌, subst, Bool, true, false, arith, length, if◌then◌else◌,
  update, update_self, update_ne, update_same,
}
use treeline.Segments.{SegmentId, SegmentInfo, is_valid}
use treeline.SegmentIndex.OrderedMap.{OrderedMap}
use treeline.SegmentIndex.Lookup.{Entry}
use treeline.FreeList.Queues.{queue}
use treeline.Manager.Store.{PageOps, LockOps, OnLine, Store, address}
use treeline.Manager.Write.{
  Writing, segment_id, write_page, write_dirty_pages, open_page, close_page,
}
use treeline.Manager.Allocate.{AreSpare, Available, HasRoom}
use treeline.Manager.Chains.{main, over, IsApart}

module _ {Page V Line Locks : Type 0} (o : PageOps Page V) (t : OrderedMap (SegmentInfo Line))
    (l : LockOps Locks) (seg : Entry Line) (n : ℕ) where
  abbrev pub id : SegmentId
  id = segment_id o t l seg

  -- The address is that of no page of the segment's chains.
  pub record IsUnused (d : ℕ → Page) (a : ℕ) : Type 0 where
    pub not_main : (j : ℕ) → j < n → a ≢ main o id n j
    pub not_over :
        (j : ℕ) → j < n → is_valid (over o id n d j) ≡ true → a ≢ address (over o id n d j) 0

  -- The chains of the segment lie apart, what can be handed out is in none of them, and there is room for
  -- `m` overflow pages more.
  pub record IsSound (s : Store Page t.Map Locks) (m : ℕ) : Type 0 where
    pub apart : IsApart o id n s.disk
    pub unused : (a : ℕ) → Available s a → IsUnused s.disk a
    pub room : HasRoom s m

  abbrev pub disk_of : Writing Page (Store Page t.Map Locks) → ℕ → Page
  disk_of w = (write_dirty_pages o t l seg w).disk

  -- The overflow page in the buffer is that of the page in the other buffer.
  pub record IsLoaded (w : Writing Page (Store Page t.Map Locks)) : Type 0 where
    pub linked : o.overflow w.orig_page ≡ w.overflow_page_id
    pub valid : is_valid w.overflow_page_id ≡ true
    pub page :
        w.overflow_page_dirty ≡ false
        → w.store.disk (address w.overflow_page_id 0) ≡ w.overflow_page

  pub record IsOpen (w : Writing Page (Store Page t.Map Locks)) (m : ℕ) : Type 0 where
    pub in_segment : w.curr_page_idx < n
    pub apart : IsApart o id n (disk_of w)
    pub unused : (a : ℕ) → Available w.store a → IsUnused (disk_of w) a
    pub room : HasRoom w.store m
    pub loaded : w.on_overflow ≡ true → IsLoaded w
    pub clean : w.on_overflow ≡ false → w.overflow_page_dirty ≡ false

  pub fewer_rooms : (s : Store Page t.Map Locks) (m : ℕ) → HasRoom s (suc m) → HasRoom s m
  fewer_rooms s m h =
      let room = h.room in record { listed = h.listed; spare = h.spare; room = omega arith }

  pub IsUnused-same :
      (d d' : ℕ → Page) (a : ℕ)
      → ((j : ℕ) → j < n → over o id n d' j ≡ over o id n d j)
      → IsUnused d a
      → IsUnused d' a
  IsUnused-same d d' a same u = record {
    not_main = u.not_main;
    not_over = λ j h v.
        subst (λ x. a ≢ address x 0) (sym (same j h))
          (u.not_over j h (sym (ap is_valid (same j h)) ∙ v));
  }

  -- The disk with the overflow page that is dirty.
  abbrev pub base_of : Bool → Writing Page (Store Page t.Map Locks) → ℕ → Page
  base_of true w = update w.store.disk (address w.overflow_page_id 0) w.overflow_page
  base_of false w = w.store.disk

  flushed :
      (b : Bool) (s : Store Page t.Map Locks) (x : SegmentId) (p : Page)
      → let s' = if b then write_page o t l s x 0 p else s in
        (s'.disk ≡ (if b then update s.disk (address x 0) p else s.disk))
        × (s'.free ≡ s.free)
        × (s'.file_end ≡ s.file_end)
  flushed true s x p = (refl, refl, refl)
  flushed false s x p = (refl, refl, refl)

  base_if :
      (b : Bool) (w : Writing Page (Store Page t.Map Locks))
      → (if b
          then update w.store.disk (address w.overflow_page_id 0) w.overflow_page
          else w.store.disk)
        ≡ base_of b w
  base_if true w = refl
  base_if false w = refl

  pub disk_of_lem :
      (w : Writing Page (Store Page t.Map Locks)) (b : Bool)
      → w.overflow_page_dirty ≡ b
      → disk_of w ≡ update (base_of b w) (main o id n w.curr_page_idx) w.orig_page
  unfolding write_dirty_pages
  disk_of_lem w b e =
      ap (λ d. update d (main o id n w.curr_page_idx) w.orig_page)
        ((flushed w.overflow_page_dirty w.store w.overflow_page_id w.overflow_page).0
          ∙ (base_if w.overflow_page_dirty w ∙ ap (λ c. base_of c w) e))

  -- What can be handed out is the same before and after the dirty pages are written.
  Available-flushed :
      (w : Writing Page (Store Page t.Map Locks)) (s : Store Page t.Map Locks)
      → s.free ≡ w.store.free
      → s.file_end ≡ w.store.file_end
      → (a : ℕ) → Available s a
      → Available w.store a
  Available-flushed w s e f a h =
      subst (λ q. Available (record w.store { free = q }) a) e
        (subst (λ k. Available (record w.store { free = s.free; file_end = k }) a) f h)

  room_flushed :
      (w : Writing Page (Store Page t.Map Locks)) (s : Store Page t.Map Locks) (m : ℕ)
      → s.free ≡ w.store.free
      → s.file_end ≡ w.store.file_end
      → HasRoom w.store m
      → HasRoom s m
  room_flushed w s m e f h =
      let room = h.room in
      record {
        listed = subst (λ q. 0 < length q.list) (sym e) h.listed;
        spare =
            subst (λ q. AreSpare s.file_end (queue q 0)) (sym e)
              (subst (λ k. AreSpare k (queue w.store.free 0)) (sym f) h.spare);
        room = omega arith;
      }

  -- The page in the buffer, and the overflow page in the other one.
  pub main_page :
      (w : Writing Page (Store Page t.Map Locks))
      → disk_of w (main o id n w.curr_page_idx) ≡ w.orig_page
  main_page w =
      ap (λ d. d (main o id n w.curr_page_idx)) (disk_of_lem w w.overflow_page_dirty refl)
      ∙ update_self (base_of w.overflow_page_dirty w) (main o id n w.curr_page_idx) w.orig_page

  pub over-id :
      (w : Writing Page (Store Page t.Map Locks))
      → IsLoaded w
      → over o id n (disk_of w) w.curr_page_idx ≡ w.overflow_page_id
  over-id w h = ap o.overflow (main_page w) ∙ h.linked

  base_page :
      (b : Bool) (w : Writing Page (Store Page t.Map Locks))
      → w.overflow_page_dirty ≡ b
      → IsLoaded w
      → base_of b w (address w.overflow_page_id 0) ≡ w.overflow_page
  base_page true w e h = update_self w.store.disk (address w.overflow_page_id 0) w.overflow_page
  base_page false w e h = h.page e

  pub not_current :
      (w : Writing Page (Store Page t.Map Locks)) (m : ℕ)
      → IsOpen w m
      → IsLoaded w
      → address w.overflow_page_id 0 ≢ main o id n w.curr_page_idx
  not_current w m h loaded =
      subst (λ x. address x 0 ≢ main o id n w.curr_page_idx) (over-id w loaded)
        (h.apart.from_main w.curr_page_idx w.curr_page_idx h.in_segment h.in_segment
          (ap is_valid (over-id w loaded) ∙ loaded.valid))

  pub over_page :
      (w : Writing Page (Store Page t.Map Locks)) (m : ℕ)
      → IsOpen w m
      → IsLoaded w
      → disk_of w (address w.overflow_page_id 0) ≡ w.overflow_page
  over_page w m h loaded =
      ap (λ d. d (address w.overflow_page_id 0)) (disk_of_lem w w.overflow_page_dirty refl)
      ∙ (update_ne (base_of w.overflow_page_dirty w) (main o id n w.curr_page_idx)
            (address w.overflow_page_id 0) w.orig_page (not_current w m h loaded)
          ∙ base_page w.overflow_page_dirty w refl loaded)

  module _ (on_line : OnLine Line) where
    -- Opening a page of a sound store changes nothing on disk, were it closed at once.
    pub open_lem :
        (s : Store Page t.Map Locks) (m j : ℕ)
        → IsSound s m
        → j < n
        → IsOpen (open_page o t l seg on_line s j) m
          × (disk_of (open_page o t l seg on_line s j) ≡ s.disk)
    unfolding open_page
    open_lem s m j h below =
        let w = open_page o t l seg on_line s j in
        let same : disk_of w ≡ s.disk =
          disk_of_lem w false refl ∙ update_same s.disk (main o id n j) in
        (
          record {
            in_segment = below;
            apart = subst (IsApart o id n) (sym same) h.apart;
            unused = λ a u. subst (λ d. IsUnused d a) (sym same) (h.unused a u);
            room = record { listed = h.room.listed; spare = h.room.spare; room = h.room.room };
            loaded = λ e. absurd (cc);
            clean = λ e. refl;
          },
          same,
        )

    pub close-IsSound :
        (w : Writing Page (Store Page t.Map Locks)) (m : ℕ)
        → IsOpen w m
        → IsSound (close_page o t l seg on_line w) m
          × ((close_page o t l seg on_line w).disk ≡ disk_of w)
    unfolding close_page write_dirty_pages
    close-IsSound w m h =
        let f = flushed w.overflow_page_dirty w.store w.overflow_page_id w.overflow_page in
        let s = close_page o t l seg on_line w in
        (
          record {
            apart = h.apart;
            unused = λ a u. h.unused a (Available-flushed w s f.1 f.2 a u);
            room = room_flushed w s m f.1 f.2 h.room;
          },
          refl,
        )
