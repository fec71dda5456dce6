-- ===== src/Manager/Record.antt =====
-- page_grouping/manager.cc: the overflow page that is loaded or created for a record that does not fit,
-- and `write_record_to_chain`.
use treeline.Prelude.{
  same_or_not, ℕ, suc, ◌≡◌, ◌⊎◌, inl, inr, refl, ap, sym, ◌∙◌, subst, Bool, true, false, ◌||◌,
  Option, none, some, arith, if◌then◌else◌, Bool-cases, update, update_twice, update_swap,
}
use treeline.Segments.{SegmentId, SegmentInfo, is_valid, invalid_id}
use treeline.SegmentIndex.OrderedMap.{OrderedMap}
use treeline.SegmentIndex.Lookup.{Entry}
use treeline.Manager.Store.{PageOps, LockOps, Store, address, allocate_page}
use treeline.Manager.Write.{
  Options, put_on, load_overflow, link_overflow, link_allocated, create_overflow, next_page,
  last_put, put_next, put_or_next, write_record_to_chain,
}
use treeline.Manager.Allocate.{Available, Allocates, allocate_lem}
use treeline.Manager.Chains.{main, over, IsApart, Keeps, Writes, keep-Writes}
use treeline.Manager.Link.{IsFresh, over_self, over_other, link-Keeps}
use treeline.Manager.Sound.{IsUnused, IsOpen, fewer_rooms, disk_of_lem, main_page}
use treeline.Manager.Steps.{W, here, disk, Open, Fits, Puts, put_on_cases}

module _ {Page V Line Locks : Type 0} (o : PageOps Page V) (t : OrderedMap (SegmentInfo Line))
    (l : LockOps Locks) (seg : Entry Line) (n : ℕ) where
  -- Nothing that is found changes, and the page stays the current one.
  pub record Stays (w w' : W o t l seg n) (m : ℕ) : Type 0 where
    pub open_page : IsOpen o t l seg n w' m
    pub same_page : w'.curr_page_idx ≡ w.curr_page_idx
    pub keeps : Keeps o (here o t l seg n) n (disk o t l seg n w) (disk o t l seg n w')

  pub fewer-IsOpen : (w : W o t l seg n) (m : ℕ) → Open o t l seg n w (suc m) → Open o t l seg n w m
  fewer-IsOpen w m h = record {
    in_segment = h.in_segment;
    apart = h.apart;
    unused = h.unused;
    room = fewer_rooms o t l seg n w.store m h.room;
    loaded = h.loaded;
    clean = h.clean;
  }

  pub stay : (w : W o t l seg n) (m : ℕ) → Open o t l seg n w m → Stays w w m
  stay w m h = record {
    open_page = h;
    same_page = refl;
    keeps = record {
      apart = h.apart;
      fences = λ j k b. refl;
      on_main = λ j k b. refl;
      on_chain = λ j k b. refl;
    };
  }

  load-Stays :
      (w : W o t l seg n) (m : ℕ)
      → Open o t l seg n w m
      → w.on_overflow ≡ false
      → is_valid (o.overflow w.orig_page) ≡ true
      → Stays w (load_overflow o t l seg w) m
  unfolding load_overflow
  load-Stays w m h off valid =
      let w' = load_overflow o t l seg w in
      let same : disk o t l seg n w ≡ disk o t l seg n w' =
        disk_of_lem o t l seg n w false (h.clean off)
        ∙ sym (disk_of_lem o t l seg n w' false (h.clean off)) in
      record {
        open_page = record {
          in_segment = h.in_segment;
          apart = subst (IsApart o (here o t l seg n) n) same h.apart;
          unused = λ a u. subst (λ d. IsUnused o t l seg n d a) same (h.unused a u);
          room = h.room;
          loaded = λ e. record { linked = refl; valid = valid; page = λ c. refl };
          clean = λ e. absurd (cc);
        };
        same_page = refl;
        keeps = subst (Keeps o (here o t l seg n) n (disk o t l seg n w)) same (stay w m h).keeps;
      }

  module _ (w : W o t l seg n) (m : ℕ) (x : SegmentId) (s : Store Page t.Map Locks)
      (h : Open o t l seg n w (suc m)) (off : w.on_overflow ≡ false)
      (invalid : is_valid (o.overflow w.orig_page) ≡ false) (al : Allocates w.store m x s) where
    abbrev linked : W o t l seg n
    linked = link_overflow o t l seg w x s

    abbrev empty_page : Page
    empty_page = o.set_overflow (o.make_overflow (o.new_like w.orig_page)) invalid_id

    abbrev linking_page : Page
    linking_page = o.set_overflow w.orig_page x

    fresh : IsFresh o (here o t l seg n) n (disk o t l seg n w) x
    fresh =
        let unused = h.unused (address x 0) al.available in
        record { valid = al.valid; not_main = unused.not_main; not_over = unused.not_over }

    no_overflow :
        is_valid (over o (here o t l seg n) n (disk o t l seg n w) w.curr_page_idx) ≡ false
    no_overflow = ap (λ p. is_valid (o.overflow p)) (main_page o t l seg n w) ∙ invalid

    empty : (k : ℕ) → o.get empty_page k ≡ none
    empty k =
        o.get-set_overflow (o.make_overflow (o.new_like w.orig_page)) invalid_id k
        ∙ (o.get-make_overflow (o.new_like w.orig_page) k ∙ o.get-new_like w.orig_page k)

    kept :
        (k : ℕ)
        → o.get linking_page k
          ≡ o.get (disk o t l seg n w (main o (here o t l seg n) n w.curr_page_idx)) k
    kept k =
        o.get-set_overflow w.orig_page x k ∙ sym (ap (λ p. o.get p k) (main_page o t l seg n w))

    empty_fits :
        (k : ℕ)
        → o.fits empty_page k
          ≡ o.fits (disk o t l seg n w (main o (here o t l seg n) n w.curr_page_idx)) k
    empty_fits k =
        o.fits-set_overflow (o.make_overflow (o.new_like w.orig_page)) invalid_id k
        ∙ (o.fits-make_overflow (o.new_like w.orig_page) k
            ∙ (o.fits-new_like w.orig_page k
                ∙ sym (ap (λ p. o.fits p k) (main_page o t l seg n w))))

    kept_fits :
        (k : ℕ)
        → o.fits linking_page k
          ≡ o.fits (disk o t l seg n w (main o (here o t l seg n) n w.curr_page_idx)) k
    kept_fits k =
        o.fits-set_overflow w.orig_page x k ∙ sym (ap (λ p. o.fits p k) (main_page o t l seg n w))

    Keeps-linked : Keeps o (here o t l seg n) n (disk o t l seg n w) (
        update
          (update (disk o t l seg n w) (address x 0) empty_page)
          (main o (here o t l seg n) n w.curr_page_idx)
          linking_page)
    Keeps-linked =
        link-Keeps o (here o t l seg n) n (disk o t l seg n w) w.curr_page_idx x empty_page
          linking_page h.in_segment h.apart fresh no_overflow empty kept empty_fits kept_fits
          (o.overflow-set_overflow w.orig_page x)

    disk_linked :
        update
          (update (disk o t l seg n w) (address x 0) empty_page)
          (main o (here o t l seg n) n w.curr_page_idx)
          linking_page
        ≡ disk o t l seg n linked
    unfolding link_overflow
    disk_linked =
        let at = main o (here o t l seg n) n w.curr_page_idx in
        let spot = address x 0 in
        ap (λ d. update (update d spot empty_page) at linking_page)
          (disk_of_lem o t l seg n w false (h.clean off))
        ∙ (ap (λ d. update d at linking_page)
              (update_swap w.store.disk at spot w.orig_page empty_page
                (λ c. fresh.not_main w.curr_page_idx h.in_segment (sym c)))
            ∙ (update_twice (update w.store.disk spot empty_page) at w.orig_page linking_page
                ∙ (ap (λ d. update (update d spot empty_page) at linking_page) (sym al.disk)
                    ∙ sym (disk_of_lem o t l seg n linked true refl))))

    IsUnused-linked :
        (a : ℕ)
        → Available s a
        → IsUnused o t l seg n
            (update
              (update (disk o t l seg n w) (address x 0) empty_page)
              (main o (here o t l seg n) n w.curr_page_idx)
              linking_page)
            a
    IsUnused-linked a u =
        let (before, other) = al.fewer a u in
        let old = h.unused a before in
        let i = w.curr_page_idx in
        let d = disk o t l seg n w in
        let id = here o t l seg n in
        let p_linked = o.overflow-set_overflow w.orig_page x in
        record {
          not_main = old.not_main;
          not_over = λ j below v. elim (same_or_not i j) [
            | inl is_i ↦ λ e. other (
                e
                ∙ ap (λ y. address y 0)
                    (over_self o id n d i x empty_page linking_page h.in_segment h.apart fresh
                      no_overflow empty kept empty_fits kept_fits p_linked j is_i))
            | inr is_other ↦
                let same =
                  over_other o id n d i x empty_page linking_page h.in_segment h.apart fresh
                    no_overflow empty kept empty_fits kept_fits p_linked j below is_other in
                λ e.
                  old.not_over j below (sym (ap is_valid same) ∙ v) (e ∙ ap (λ y. address y 0) same)
          ];
        }

    link-Stays : Stays w linked m
    unfolding link_overflow
    link-Stays = record {
      open_page = record {
        in_segment = h.in_segment;
        apart =
            (subst (Keeps o (here o t l seg n) n (disk o t l seg n w)) disk_linked
              Keeps-linked).apart;
        unused = λ a u. subst (λ d. IsUnused o t l seg n d a) disk_linked (IsUnused-linked a u);
        room = record { listed = al.room.listed; spare = al.room.spare; room = al.room.room };
        loaded = λ e. record {
          linked = o.overflow-set_overflow w.orig_page x;
          valid = al.valid;
          page = λ c. absurd (cc);
        };
        clean = λ e. absurd (cc);
      };
      same_page = refl;
      keeps = subst (Keeps o (here o t l seg n) n (disk o t l seg n w)) disk_linked Keeps-linked;
    }

  create_lem :
      (w : W o t l seg n) (x : SegmentId) (s : Store Page t.Map Locks)
      → allocate_page w.store ≡ some (x, s)
      → create_overflow o t l seg w ≡ some (link_overflow o t l seg w x s)
  unfolding create_overflow
  create_lem w x s e = ap (link_allocated o t l seg w) e

  -- The next page of the chain is loaded or created.
  next_page_lem :
      (w : W o t l seg n) (m : ℕ)
      → Open o t l seg n w (suc m)
      → w.on_overflow ≡ false
      → (w' : W o t l seg n) × (next_page o t l seg w ≡ some w') × Stays w w' m
  unfolding next_page
  next_page_lem w m h off = elim (Bool-cases (is_valid (o.overflow w.orig_page))) [
    | inl valid ↦
        (load_overflow o t l seg w, rw valid refl, load-Stays w m (fewer-IsOpen w m h) off valid)
    | inr invalid ↦
        let (x, s, e, al) = allocate_lem w.store m h.room in
        (
          link_overflow o t l seg w x s,
          rw invalid (create_lem w x s e),
          link-Stays w m x s h off invalid al,
        )
  ]

  -- Writing a record to the chain of the current page does not fail with an exception. Either the record is
  -- written, or it does not fit and nothing that is found changes.
  pub write_record_cases :
      (options : Options) (w : W o t l seg n) (m key : ℕ) (v : V)
      → Open o t l seg n w (suc m)
      → Fits o t l seg n w key
      → ((w' : W o t l seg n) × (write_record_to_chain o t l seg options w key v ≡ some (true, w'))
          × Puts o t l seg n w w' m key v)
        ⊎ ((w' : W o t l seg n) × (write_record_to_chain o t l seg options w key v
              ≡ some (false, w'))
            × Stays w w' m)
  unfolding write_record_to_chain
  write_record_cases options w m key v h f =
      let now = fewer-IsOpen w m h in
      let after : Option (Bool × W o t l seg n) =
        put_next o t l seg key v (next_page o t l seg w) in
      let skip = λ (e : put_on o t l seg w.on_overflow w key v ≡ none).
        ap (put_or_next o t l seg options w key v) e in
      let choose = λ (e : (w.on_overflow || options.disable_overflow_creation) ≡ false).
        ap (λ b. if◌then◌else◌ {A = Option (Bool × W o t l seg n)} b (some (false, w)) after) e in
      elim (put_on_cases o t l seg n w.on_overflow w m key v refl now f) [
        | inr (w', e, puts) ↦ inl (w', ap (put_or_next o t l seg options w key v) e, puts)
        | inl full ↦ elim (Bool-cases (w.on_overflow || options.disable_overflow_creation)) [
          | inl last ↦
              inr (w, skip full ∙ ap (λ b. if b then some (false, w) else after) last, stay w m now)
          | inr more ↦
              let (w1, e1, stays) = next_page_lem w m h (ground arith) in
              elim (put_on_cases o t l seg n w1.on_overflow w1 m key v refl stays.open_page (
                ap (λ i. o.fits (disk o t l seg n w1 (main o (here o t l seg n) n i)) key)
                  stays.same_page
                ∙ (stays.keeps.fences w.curr_page_idx key h.in_segment ∙ f))) [
                  | inr (w', e, puts) ↦ inl (
                    w',
                    skip full
                        ∙ (choose more
                            ∙ (ap (put_next o t l seg key v) e1 ∙ ap (last_put o t l seg w1) e)),
                    record {
                      open_page = puts.open_page;
                      same_page = puts.same_page ∙ stays.same_page;
                      writes =
                          keep-Writes o (here o t l seg n) n (disk o t l seg n w)
                            (disk o t l seg n w1) (disk o t l seg n w') w.curr_page_idx key v
                            h.in_segment stays.keeps
                            (subst
                              (λ i.
                                Writes o (here o t l seg n) n (disk o t l seg n w1)
                                  (disk o t l seg n w') i key v)
                              stays.same_page puts.writes);
                    },
                  )
                  | inl full' ↦ inr (
                    w1,
                    skip full
                        ∙ (choose more
                            ∙ (ap (put_next o t l seg key v) e1
                                ∙ ap (last_put o t l seg w1) full')),
                    stays,
                  )
                ]
        ]
      ]
