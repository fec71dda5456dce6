-- ===== src/Tests/Writes.antt =====
-- Runs of writes to a segment, over pages that hold two records, and that keep the last two digits of a key.
use treeline.Prelude.{
  ap, sym, ◌∙◌, ◌/◌, ◌%◌, Bool-cases, ℕ, ◌+◌, ◌-◌, ◌^◌, ◌<◌, ◌≡◌, ◌≢◌, inl, inr, refl, Bool, true,
  false, Option, none, some, List, [], ◌∷◌, ◌++◌, ◌==◌, if◌then◌else◌, arith, ltb, update,
}
use treeline.Segments.{
  SegmentId, SegmentInfo, invalid_id, is_valid, get_file_id, get_offset, page_count, info_id,
}
use treeline.FreeList
use treeline.FreeList.{FreeList}
use treeline.SegmentIndex.OrderedMap.{OrderedMap, Item, Ascending}
use treeline.SegmentIndex.Lookup.{Entry}
use treeline.Manager.Store.{PageOps, LockOps, OnLine, Store, address, page_for_key, allocate_page}
use treeline.Manager.Write.{
  Options, Reorg, Writing, page_of, write_to_segment, write_record_to_chain,
}
use treeline.Manager.Allocate.{Available, HasRoom}
use treeline.Manager.Sound.{IsSound, id, disk_of}
use treeline.Manager.Chains.{chain}
use treeline.Manager.Stale.{stale_update}
use treeline.Manager.Batch.{Wrote, AllWithin, read}
use treeline.Manager.Puts.{answer, write_to_segment_lem}
use treeline.Manager.PutBatch.{Ends, put_batch, put_batch-Ends}
use treeline.Tests.Tables.{rising_map}

record SmallPage : Type 0 where
  pub contents : ℕ → Option ℕ
  pub count : ℕ
  pub link : SegmentId
  pub prefix : ℕ

abbrev put_at : SmallPage → ℕ → ℕ → Option ℕ → Option SmallPage
put_at p key v (some old) = some (record p { contents = update p.contents key (some v) })
put_at p key v none =
    if ltb p.count 2
    then some (record p { contents = update p.contents key (some v); count = p.count + 1 })
    else none

put_at_get :
    (p q : SmallPage) (key j v : ℕ) (old : Option ℕ)
    → put_at p key v old ≡ some q
    → q.contents j ≡ (if j == key then some v else p.contents j)
put_at_get p q key j v none e = ground arith
put_at_get p q key j v (some old) e = ground arith

put_at_link :
    (p q : SmallPage) (key v : ℕ) (old : Option ℕ) → put_at p key v old ≡ some q → q.link ≡ p.link
put_at_link p q key v none e = ground arith
put_at_link p q key v (some old) e = ground arith

put_at_prefix :
    (p q : SmallPage) (key v : ℕ) (old : Option ℕ)
    → put_at p key v old ≡ some q
    → q.prefix ≡ p.prefix
put_at_prefix p q key v none e = ground arith
put_at_prefix p q key v (some old) e = ground arith

-- Keys with the prefix of a page are told apart by their last two digits.
same_digits :
    (prefix key j : ℕ)
    → (key / 100 == prefix) ≡ true
    → (j / 100 == prefix) ≡ true
    → (j % 100 == key % 100) ≡ (j == key)
same_digits prefix key j f f' = elim (Bool-cases (j == key)) [
  | inl same ↦
      let equal : j ≡ key = ground arith in
      let digits : (j % 100 == key % 100) ≡ true = ground arith in digits ∙ sym same
  | inr other ↦ let apart : (j % 100 == key % 100) ≡ false = ground arith in apart ∙ sym other
]

abbrev small_pages : PageOps SmallPage ℕ
small_pages = record {
  get = λ p key. p.contents (key % 100);
  put = λ p key v. put_at p (key % 100) v (p.contents (key % 100));
  overflow = λ p. p.link;
  set_overflow = λ p id. record p { link = id };
  new_like = λ p. record { contents = λ k. none; count = 0; link = invalid_id; prefix = p.prefix };
  make_overflow = λ p. p;
  fits = λ p key. key / 100 == p.prefix;
  get-put = λ p q key j v e f f'.
      put_at_get p q (key % 100) (j % 100) v (p.contents (key % 100)) e
      ∙ ap (λ b. if b then some v else p.contents (j % 100)) (same_digits p.prefix key j f f');
  overflow-put = λ p q key v e. put_at_link p q (key % 100) v (p.contents (key % 100)) e;
  get-set_overflow = λ p id j. refl;
  overflow-set_overflow = λ p id. refl;
  get-new_like = λ p j. refl;
  get-make_overflow = λ p j. refl;
  fits-put = λ p q key j v e.
      ap (λ n. j / 100 == n) (put_at_prefix p q (key % 100) v (p.contents (key % 100)) e);
  fits-set_overflow = λ p id j. refl;
  fits-new_like = λ p j. refl;
  fits-make_overflow = λ p j. refl;
}

-- How many locks are held.
abbrev counted : LockOps ℕ
counted = record {
  acquire_segment_lock = λ locks id mode. locks + 1;
  release_segment_lock = λ locks id mode. locks - 1;
  acquire_page_lock = λ locks id page_idx mode. locks + 1;
  release_page_lock = λ locks id page_idx mode. locks - 1;
}

-- The keys from 100 on are on the second page.
abbrev halves : OnLine ℕ
halves base model pages key = if ltb key 100 then 0 else 1

abbrev index : OrderedMap (SegmentInfo ℕ)
index = rising_map (SegmentInfo ℕ)

-- A segment of two pages.
abbrev info : SegmentInfo ℕ
info = record { raw_id = 2 ^ 60; model = some 1 }

abbrev one : List (Item (SegmentInfo ℕ))
one = (0, info) ∷ []

one-Ascending : Ascending one
one-Ascending = ground arith

abbrev segment : Entry ℕ
segment = record { lower = 0; upper = 2 ^ 64 - 1; sinfo = info }

abbrev two_records : ℕ → Option ℕ
two_records key = if key == 3 then some 30 else if key == 9 then some 90 else none

abbrev full_page : SmallPage
full_page = record { contents = two_records; count = 2; link = invalid_id; prefix = 0 }

abbrev empty_page : SmallPage
empty_page = record { contents = λ k. none; count = 0; link = invalid_id; prefix = 2 }

abbrev free_list : FreeList
free_list = record { list = (record { value = 2 } ∷ []) ∷ [] ∷ [] ∷ [] ∷ [] ∷ [] }

-- The first page of the segment is full; the place 2 is free. The segment's lock is held.
abbrev store : Store SmallPage (index.Map) ℕ
store = record {
  disk = λ a. if a == 2 ^ 60 then full_page else empty_page;
  free = free_list;
  file_end = 5;
  index = (one, one-Ascending);
  locks = 1;
}

no_overflows : (a : ℕ) → is_valid ((store.disk a).link) ≡ false
unfolding is_valid invalid_id
no_overflows a = ground arith

halves_in_segment : (key : ℕ) → page_of small_pages index counted segment halves key < 2
unfolding page_for_key page_count get_file_id info_id
halves_in_segment key = ground arith

far_away : (a j : ℕ) → Available store a → a ≢ address (id small_pages index counted segment 2) j
unfolding info_id get_file_id get_offset
far_away a j (inl (inl e)) = λ h. absurd (omega arith)
far_away a j (inl (inr m)) = elim m [ ]
far_away a j (inr above) = λ h. absurd (omega arith)

store-HasRoom : HasRoom store 3
unfolding is_valid get_file_id get_offset
store-HasRoom = record {
  listed = omega arith;
  spare = (refl, omega arith, tt, tt);
  room = omega arith;
}

store-IsSound : IsSound small_pages index counted segment 2 store 3
store-IsSound = record {
  apart = record {
    alike =
        λ i k h v. absurd (cc (no_overflows (address (id small_pages index counted segment 2) i)));
    from_main = λ i j h k v.
        absurd (cc (no_overflows (address (id small_pages index counted segment 2) i)));
    from_over = λ i j h k e v w.
        absurd (cc (no_overflows (address (id small_pages index counted segment 2) i)));
  };
  unused = λ a u. record {
    not_main = λ j h. far_away a j u;
    not_over =
        λ j h v. absurd (cc (no_overflows (address (id small_pages index counted segment 2) j)));
  };
  room = store-HasRoom;
}

abbrev options : Options
options = record {
  records_per_page_goal = 2;
  use_segments = true;
  disable_overflow_creation = false;
}

-- A rewrite that refuses.
abbrev refusing : Reorg (Store SmallPage index.Map ℕ) ℕ
refusing = record {
  rewrite_segments = λ s base records. (false, s);
  flatten_chain = λ s base records. (false, s);
}

abbrev batch : List (ℕ × ℕ)
batch = (5, 50) ∷ (9, 91) ∷ (200, 7) ∷ []

batch_within :
    AllWithin small_pages index counted segment 2 halves halves_in_segment store.disk batch
unfolding page_count get_file_id get_offset info_id page_for_key
batch_within = (refl, (refl, (refl, tt)))

write_to_segment_lem_example :
    (done left : List (ℕ × ℕ)) × (s' : Store SmallPage index.Map ℕ) × (batch ≡ done ++ left)
    × Wrote small_pages index counted segment 2 halves halves_in_segment store.disk done s'
    × (write_to_segment small_pages index counted segment halves options refusing store 5 batch
        ≡ answer small_pages index counted segment 2 halves halves_in_segment options refusing done
            left s')
unfolding page_count get_file_id info_id
write_to_segment_lem_example =
    write_to_segment_lem small_pages index counted segment 2 halves halves_in_segment options
      refusing store 5 0 50 ((9, 91) ∷ (200, 7) ∷ []) store-IsSound (omega arith) batch_within
      (omega arith)

put_batch-Ends_example :
    Ends small_pages index counted halves options refusing store batch
      (put_batch small_pages index counted halves options refusing store batch)
put_batch-Ends_example =
    put_batch-Ends small_pages index counted halves options refusing store batch

-- A record of the first page has gone to the overflow page.
abbrev behind : Writing SmallPage (Store SmallPage index.Map ℕ)
behind = record {
  store = store;
  curr_page_idx = 0;
  orig_page = full_page;
  overflow_page = empty_page;
  overflow_page_id = record { value = 2 };
  overflow_page_dirty = true;
  on_overflow = true;
}

stale_update_example :
    (done : Bool) × (w' : Writing SmallPage (Store SmallPage index.Map ℕ)) × (write_record_to_chain
        small_pages index counted segment options behind 9 91
      ≡ some (done, w'))
    × (chain small_pages
          (id small_pages index counted segment 2)
          2
          (disk_of small_pages index counted segment 2 w')
          0
          9
        ≡ some 90)
stale_update_example =
    stale_update small_pages index counted segment 2 options behind 9 91 90 refl refl

-- What is found after the batch, and how many locks are held.
abbrev found_after : ℕ → Option (ℕ × Option ℕ × ℕ)
found_after key =
    elim (write_to_segment small_pages index counted segment halves options refusing store 5
      batch) [
        | none ↦ none
        | some (count, s) ↦ some (
          count,
          read small_pages index counted segment 2 halves halves_in_segment s.disk key,
          s.locks,
        )
      ]

-- The record that does not fit is found on a new overflow page.
found_new : found_after 5 ≡ some (3, some 50, 0)
unfolding write_to_segment page_count page_for_key get_offset is_valid allocate_page FreeList.get
found_new = refl

-- The record that is written behind it is not found, since its old value is on the page.
found_old : found_after 9 ≡ some (3, some 90, 0)
unfolding write_to_segment page_count page_for_key get_offset is_valid allocate_page FreeList.get
found_old = refl

found_second_page : found_after 200 ≡ some (3, some 7, 0)
unfolding write_to_segment page_count page_for_key get_offset is_valid allocate_page FreeList.get
found_second_page = refl
