-- ===== src/Manager/Batch.antt =====
-- page_grouping/manager.cc: what a batch of records that is written to a segment reads as afterwards.
use treeline.Prelude.{
  ℕ, suc, ◌<◌, ◌≡◌, ◌≢◌, ◌⊎◌, inl, inr, refl, ap, sym, ◌∙◌, subst, true, false, Option, none, some,
  List, [], ◌∷◌, ◌==◌, if◌then◌else◌, arith, Bool-cases, IsAscending, value_of, or_else, absent,
}
use treeline.Segments.{SegmentInfo}
use treeline.SegmentIndex.OrderedMap.{OrderedMap}
use treeline.SegmentIndex.Lookup.{Entry}
use treeline.Manager.Store.{PageOps, LockOps, OnLine, Store}
use treeline.Manager.Write.{page_of, open_page, close_page, switch_page, release_segment}
use treeline.Manager.Chains.{main, chain, SameFences}
use treeline.Manager.Sound.{id, IsSound, open_lem, close-IsSound}
use treeline.Manager.Steps.{W, disk, Open, Puts}

-- A key that was written reads as its value, or it reads as before and was on its page before. Any other
-- key reads as before.
abbrev pub Reads : {V : Type 0} → Option V → Option V → Option V → Option V → Type 0
Reads before on_page value after =
    (after ≡ or_else value before) ⊎ ((after ≡ before) × (on_page ≢ none))

module _ {Page V Line Locks : Type 0} (o : PageOps Page V) (t : OrderedMap (SegmentInfo Line))
    (l : LockOps Locks) (seg : Entry Line) (n : ℕ) (on_line : OnLine Line)
    (in_segment : (key : ℕ) → page_of o t l seg on_line key < n) where
  abbrev S : Type 0
  S = Store Page t.Map Locks

  abbrev pages : ℕ → ℕ
  pages key = page_of o t l seg on_line key

  -- What a key is found as on a disk, and on its page alone.
  abbrev pub read : (ℕ → Page) → ℕ → Option V
  read d key = chain o (id o t l seg n) n d (page_of o t l seg on_line key) key

  abbrev pub read_page : (ℕ → Page) → ℕ → Option V
  read_page d key = o.get (d (main o (id o t l seg n) n (page_of o t l seg on_line key))) key

  -- The key lies within the boundaries of its page.
  abbrev pub Within : (ℕ → Page) → ℕ → Type 0
  Within d key = o.fits (d (main o (id o t l seg n) n (page_of o t l seg on_line key))) key ≡ true

  abbrev pub AllWithin : (ℕ → Page) → List (ℕ × V) → Type 0
  AllWithin d [] = Unit {0}
  AllWithin d ((key, value) ∷ records) = Within d key × AllWithin d records

  pub AllWithin-same :
      (d d' : ℕ → Page) (records : List (ℕ × V))
      → SameFences o (id o t l seg n) n d d'
      → AllWithin d records
      → AllWithin d' records
  AllWithin-same d d' [] same h = tt
  AllWithin-same d d' ((key, value) ∷ records) same h =
      (same (pages key) key (in_segment key) ∙ h.0, AllWithin-same d d' records same h.1)

  -- From a disk, the records are written to a sound store.
  pub record Wrote (d : ℕ → Page) (written : List (ℕ × V)) (s' : Store Page t.Map Locks)
      : Type 0 where
    pub sound : IsSound o t l seg n s' 0
    pub reads :
        (k : ℕ)
        → Within d k
        → Reads (read d k) (read_page d k) (value_of k written) (read s'.disk k)

  pub switch_lem :
      (w : W o t l seg n) (m j : ℕ)
      → Open o t l seg n w m
      → j < n
      → Open o t l seg n (switch_page o t l seg on_line w j) m
        × (disk o t l seg n (switch_page o t l seg on_line w j) ≡ disk o t l seg n w)
        × ((switch_page o t l seg on_line w j).curr_page_idx ≡ j)
  unfolding switch_page
  switch_lem w m j h below = elim (Bool-cases (j == w.curr_page_idx)) [
    | inl same ↦ rw same (h, refl, ground arith)
    | inr other ↦
        let (sound, flushed) = close-IsSound o t l seg n on_line w m h in
        let (opened, read) =
          open_lem o t l seg n on_line (close_page o t l seg on_line w) m j sound below in
        rw other (opened, read ∙ flushed, opened_idx (close_page o t l seg on_line w) j)
  ]
    where
      opened_idx : (s : S) (j : ℕ) → (open_page o t l seg on_line s j).curr_page_idx ≡ j
      opened_idx s j = refl

  -- The loop ends: the last page is closed and the segment's lock given up.
  pub end_lem :
      (w : W o t l seg n) (m : ℕ)
      → Open o t l seg n w m
      → IsSound o t l seg n (release_segment o t l seg on_line (close_page o t l seg on_line w)) 0
        × ((release_segment o t l seg on_line (close_page o t l seg on_line w)).disk
            ≡ disk o t l seg n w)
  unfolding release_segment
  end_lem w m h =
      let (sound, flushed) = close-IsSound o t l seg n on_line w m h in
      let room = sound.room.room in
      (
        record {
          apart = sound.apart;
          unused = sound.unused;
          room = record {
            listed = sound.room.listed;
            spare = sound.room.spare;
            room = omega arith;
          };
        },
        flushed,
      )

  Reads-none : {before on_page after : Option V} → Reads before on_page none after → after ≡ before
  Reads-none (inl e) = e
  Reads-none (inr e) = e.0

  value_self : (key : ℕ) (v : V) (rs : List (ℕ × V)) → value_of key ((key, v) ∷ rs) ≡ some v
  value_self key v rs =
      let same : (key == key) ≡ true = ground arith in
      ap (λ b. if b then some v else value_of key rs) same

  value_other :
      (k key : ℕ) (v : V) (rs : List (ℕ × V)) → k ≢ key → value_of k ((key, v) ∷ rs) ≡ value_of k rs
  value_other k key v rs h =
      let differs : (k == key) ≡ false = ground arith in
      ap (λ b. if b then some v else value_of k rs) differs

  -- One record, and then the others.
  pub reads-cons :
      (w w' : W o t l seg n) (m key : ℕ) (v : V) (written : List (ℕ × V)) (s' : S)
      → Puts o t l seg n w w' m key v
      → w.curr_page_idx ≡ pages key
      → IsAscending (suc key) written
      → Wrote (disk o t l seg n w') written s'
      → Wrote (disk o t l seg n w) ((key, v) ∷ written) s'
  reads-cons w w' m key v written s' puts at ascends rest = record {
    sound = rest.sound;
    reads = λ k within. elim (Bool-cases (k == key)) [
      | inl same ↦
          let is_key : k ≡ key = ground arith in
          subst
            (λ k.
              Reads (read (disk o t l seg n w) k) (read_page (disk o t l seg n w) k)
                (value_of k ((key, v) ∷ written)) (read s'.disk k))
            (sym is_key) (itself (subst (Within (disk o t l seg n w)) is_key within))
      | inr other ↦
          let differs : k ≢ key = λ e. ground arith in
          let page = puts.writes.on_main (pages k) k (in_segment k) within differs in
          let found = puts.writes.on_chain (pages k) k (in_segment k) within differs in
          subst
            (λ value.
              Reads (read (disk o t l seg n w) k) (read_page (disk o t l seg n w) k) value
                (read s'.disk k))
            (sym (value_other k key v written differs))
            (subst
              (λ before.
                Reads before (read_page (disk o t l seg n w) k) (value_of k written)
                  (read s'.disk k))
              found
              (subst
                (λ on_page.
                  Reads (read (disk o t l seg n w') k) on_page (value_of k written)
                    (read s'.disk k))
                page (rest.reads k (still k within))))
    ];
  }
    where
      still : (k : ℕ) → Within (disk o t l seg n w) k → Within (disk o t l seg n w') k
      still k within = puts.writes.fences (pages k) k (in_segment k) ∙ within

      left_alone :
          Within (disk o t l seg n w) key → read s'.disk key ≡ read (disk o t l seg n w') key
      left_alone within = Reads-none (
          subst
            (λ value.
              Reads (read (disk o t l seg n w') key) (read_page (disk o t l seg n w') key) value
                (read s'.disk key))
            (absent key (suc key) written (omega arith) ascends)
            (rest.reads key (still key within)))

      here_written :
          (chain o (id o t l seg n) n (disk o t l seg n w') (pages key) key ≡ some v)
          ⊎ ((chain o (id o t l seg n) n (disk o t l seg n w') (pages key) key
                ≡ chain o (id o t l seg n) n (disk o t l seg n w) (pages key) key)
              × (o.get (disk o t l seg n w (main o (id o t l seg n) n (pages key))) key ≢ none))
      here_written =
          subst
            (λ i.
              (chain o (id o t l seg n) n (disk o t l seg n w') i key ≡ some v)
              ⊎ ((chain o (id o t l seg n) n (disk o t l seg n w') i key
                    ≡ chain o (id o t l seg n) n (disk o t l seg n w) i key)
                  × (o.get (disk o t l seg n w (main o (id o t l seg n) n i)) key ≢ none)))
            at puts.writes.written

      itself :
          Within (disk o t l seg n w) key
          → Reads
              (read (disk o t l seg n w) key)
              (read_page (disk o t l seg n w) key)
              (value_of key ((key, v) ∷ written))
              (read s'.disk key)
      itself within = elim here_written [
        | inl now ↦ inl (
            left_alone within
            ∙ (now
                ∙ sym (
                    ap (λ x. or_else x (read (disk o t l seg n w) key))
                      (value_self key v written))))
        | inr (same, there) ↦ inr (left_alone within ∙ same, there)
      ]

  pub nothing-Wrote :
      (d : ℕ → Page) (s' : S) → IsSound o t l seg n s' 0 → s'.disk ≡ d → Wrote d [] s'
  nothing-Wrote d s' sound same = record {
    sound = sound;
    reads = λ k within. inl (ap (λ e. read e k) same);
  }
