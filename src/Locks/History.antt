-- ===== src/Locks/History.antt =====
-- Any disciplined history of segment lock calls, over the whole table, against the specification
-- that keeps the holders of each segment.
use treeline.Prelude.{
  ℕ, ◌<◌, ◌≡◌, ◌≢◌, refl, inl, inr, Bool, true, List, [], ◌∷◌, ◌==◌, if◌then◌else◌, arith, length,
  Bool-cases, ==_iff, ap, sym, Option, ◌∙◌,
}
use treeline.Locks.Modes.{
  SegmentMode, page_read, reorg, reorg_exclusive, SegmentLockState, initial_segment_state,
  upgrade_segment,
}
use treeline.Locks.Table.{CuckooMap, entry_uprase, entry_update}
use treeline.Locks.Segments.{
  acquire_closure, release_closure, upgrade_closure, try_acquire_segment_lock, release_segment_lock,
  start_upgrade,
}
use treeline.Locks.Holders.{all_compatible, count, remove, length-eq-counts}
use treeline.Locks.Tracks.{
  Tracks, granted, granted_iff_compatible, acquire-Tracks, release-Tracks, upgrade-Tracks,
}

abbrev pub Holders : Type 0
Holders = ℕ → List SegmentMode

abbrev pub holders_with : Holders → ℕ → List SegmentMode → Holders
holders_with h id hs j = if j == id then hs else h j

pub holders_with_self : (h : Holders) (id j : ℕ) → holders_with h id (h id) j ≡ h j
holders_with_self h id j = elim (Bool-cases (j == id)) [
  | inl hit ↦ rw hit (ap h (sym ((==_iff j id).0 hit)))
  | inr miss ↦ rw miss
]

pub data Call : Type 0 where
  acquire release : ℕ → SegmentMode → Call
  upgrade : ℕ → Call

-- What a call must observe: no request for the exclusive mode, at most 2^16 - 1 holders of a segment,
-- no release of a lock that is not held, an upgrade by the holder in `reorg` mode.
abbrev pub IsDisciplined : Holders → Call → Type 0
IsDisciplined h (acquire id mode) = (mode ≢ reorg_exclusive) × (length (h id) < 65535)
IsDisciplined h (release id mode) = (0 < count mode (h id)) × (length (h id) < 65536)
IsDisciplined h (upgrade id) = (count reorg (h id) ≡ 1) × (count reorg_exclusive (h id) ≡ 0)

-- The specification: a request is granted when it is compatible with every holder.
abbrev pub spec_call : Holders → Call → Holders × Bool
spec_call h (acquire id mode) =
    let ok = all_compatible mode (h id) in
    (holders_with h id (if ok then mode ∷ h id else h id), ok)
spec_call h (release id mode) = (holders_with h id (remove mode (h id)), true)
spec_call h (upgrade id) =
    (holders_with h id (reorg_exclusive ∷ remove reorg (h id)), count page_read (h id) == 0)

abbrev pub AllDisciplined : Holders → List Call → Type 0
AllDisciplined h [] = Unit {0}
AllDisciplined h (c ∷ cs) = IsDisciplined h c × AllDisciplined (spec_call h c).0 cs

abbrev pub spec_run : Holders → List Call → Holders × List Bool
spec_run h [] = (h, [])
spec_run h (c ∷ cs) = let (h', b) = spec_call h c in let (h'', bs) = spec_run h' cs in (h'', b ∷ bs)

module _ (t : CuckooMap SegmentLockState) where
  open t use {Map, find, find-uprase_fn, found-uprase_fn, find-erase_fn, found-erase_fn}

  unfoldable pub call : Map → Call → Map × Bool
  call m (acquire id mode) = try_acquire_segment_lock t m id mode
  call m (release id mode) = (release_segment_lock t m id mode, true)
  call m (upgrade id) = start_upgrade t m id

  unfoldable pub run : Map → List Call → Map × List Bool
  run m [] = (m, [])
  run m (c ∷ cs) = let (m', b) = call m c in let (m'', bs) = run m' cs in (m'', b ∷ bs)

  abbrev pub Represents : Map → Holders → Type 0
  Represents m h = (id : ℕ) → Tracks (find m id) (h id)

  -- A closed form of what the calls do to an entry.
  pub find-acquire :
      (m : Map) (id : ℕ) (mode : SegmentMode) (j : ℕ)
      → find (try_acquire_segment_lock t m id mode).0 j ≡ (
          if j == id
          then entry_uprase (acquire_closure mode) (initial_segment_state mode) (find m id)
          else find m j)
  unfolding try_acquire_segment_lock
  find-acquire m id mode j =
      find-uprase_fn m id (acquire_closure mode) (initial_segment_state mode) j

  find-release :
      (m : Map) (id : ℕ) (mode : SegmentMode) (j : ℕ)
      → find (release_segment_lock t m id mode) j
        ≡ (if j == id then entry_update (release_closure mode) (find m id) else find m j)
  unfolding release_segment_lock
  find-release m id mode j = find-erase_fn m id (release_closure mode) j

  find-upgrade :
      (m : Map) (id : ℕ) (j : ℕ)
      → find (start_upgrade t m id).0 j
        ≡ (if j == id then entry_update upgrade_closure (find m id) else find m j)
  unfolding start_upgrade
  find-upgrade m id j = find-erase_fn m id upgrade_closure j

  pub acquire-granted :
      (m : Map) (id : ℕ) (mode : SegmentMode)
      → (try_acquire_segment_lock t m id mode).1 ≡ granted mode (find m id)
  unfolding try_acquire_segment_lock
  acquire-granted m id mode =
      ground (arith, found-uprase_fn m id (acquire_closure mode) (initial_segment_state mode))

  Tracks-with :
      (m m' : Map) (h : Holders) (id : ℕ) (o : Option SegmentLockState) (hs : List SegmentMode)
      → ((j : ℕ) → find m' j ≡ (if j == id then o else find m j))
      → Represents m h
      → Tracks o hs
      → Represents m' (holders_with h id hs)
  Tracks-with m m' h id o hs e r v j = elim (Bool-cases (j == id)) [
    | inl hit ↦ rw (e j, hit) v
    | inr miss ↦ rw (e j, miss) (r j)
  ]

  -- The flag that an upgrade returns: there are no readers.
  upgrade-can_return :
      (m : Map) (id : ℕ) (hs : List SegmentMode)
      → Tracks (find m id) hs
      → count reorg hs ≡ 1
      → (start_upgrade t m id).1 ≡ (count page_read hs == 0)
  unfolding start_upgrade upgrade_segment
  upgrade-can_return m id hs v one =
      ground (arith, (found-erase_fn m id upgrade_closure), length-eq-counts hs)

  pub call_refines :
      (m : Map) (h : Holders) (c : Call)
      → Represents m h
      → IsDisciplined h c
      → Represents (call m c).0 (spec_call h c).0 × ((call m c).1 ≡ (spec_call h c).1)
  unfolding call
  call_refines m h (acquire id mode) r d =
      let same_answer = granted_iff_compatible (find m id) (h id) (r id) mode d.0 in
      (
        Tracks-with m _ h id _ _ (find-acquire m id mode) r
            (rw same_answer at (acquire-Tracks (find m id) (h id) (r id) mode d.0 d.1)),
        acquire-granted m id mode ∙ same_answer,
      )
  call_refines m h (release id mode) r d = (
    Tracks-with m _ h id _ _ (find-release m id mode) r
        (release-Tracks (find m id) (h id) (r id) mode d.0 d.1),
    refl,
  )
  call_refines m h (upgrade id) r d = (
    Tracks-with m _ h id _ _ (find-upgrade m id) r
        (upgrade-Tracks (find m id) (h id) (r id) d.0 d.1),
    upgrade-can_return m id (h id) (r id) d.0,
  )

  -- From any represented table, a disciplined history of calls gives the answers of the
  -- specification, and leaves the table representing the specification's holders.
  pub run_refines :
      (cs : List Call) (m : Map) (h : Holders)
      → Represents m h
      → AllDisciplined h cs
      → Represents (run m cs).0 (spec_run h cs).0 × ((run m cs).1 ≡ (spec_run h cs).1)
  unfolding run
  run_refines [] m h r d = (r, refl)
  run_refines (c ∷ cs) m h r d =
      let step = call_refines m h c r d.0 in
      let rest = run_refines cs (call m c).0 (spec_call h c).0 step.0 d.1 in
      (rest.0, cc (step.1, rest.1))
