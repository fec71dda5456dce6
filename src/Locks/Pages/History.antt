-- ===== src/Locks/Pages/History.antt =====
-- Disciplined histories of page lock calls against the specification that keeps the holders of each
-- lock id, and the loop that retries a request.
use treeline.Prelude.{
  ℕ, ◌<◌, ◌≡◌, refl, ◌∙◌, inl, inr, Bool, true, List, [], ◌∷◌, ◌==◌, if◌then◌else◌, map, arith,
  length, Bool-cases, Option, none, some,
}
use treeline.Locks.Modes.{PageMode, PageLockState, initial_page_state}
use treeline.Locks.Table.{CuckooMap}
use treeline.Locks.Pages.{
  acquire_closure, release_closure, page_lock_id, try_acquire_page_lock, acquire_page_lock,
  release_page_lock,
}
use treeline.Locks.Pages.Holders.{
  all_compatible, count, remove, Tracks, granted, granted_iff_compatible, acquire-Tracks,
  release-Tracks,
}

abbrev pub Holders : Type 0
Holders = ℕ → List PageMode

abbrev pub holders_with : Holders → ℕ → List PageMode → Holders
holders_with h id hs j = if j == id then hs else h j

pub data Call : Type 0 where
  acquire release : ℕ → ℕ → PageMode → Call

abbrev pub IsDisciplined : Holders → Call → Type 0
IsDisciplined h (acquire seg page mode) = length (h (page_lock_id seg page)) < 65535
IsDisciplined h (release seg page mode) =
    (0 < count mode (h (page_lock_id seg page))) × (length (h (page_lock_id seg page)) < 65536)

abbrev pub spec_call : Holders → Call → Holders × Bool
spec_call h (acquire seg page mode) =
    let id = page_lock_id seg page in
    let ok = all_compatible mode (h id) in
    (holders_with h id (if ok then mode ∷ h id else h id), ok)
spec_call h (release seg page mode) =
    let id = page_lock_id seg page in (holders_with h id (remove mode (h id)), true)

abbrev pub AllDisciplined : Holders → List Call → Type 0
AllDisciplined h [] = Unit {0}
AllDisciplined h (c ∷ cs) = IsDisciplined h c × AllDisciplined (spec_call h c).0 cs

abbrev pub spec_run : Holders → List Call → Holders × List Bool
spec_run h [] = (h, [])
spec_run h (c ∷ cs) = let (h', b) = spec_call h c in let (h'', bs) = spec_run h' cs in (h'', b ∷ bs)

-- The retry loop of the specification: the holders after the first attempt that is granted. An entry
-- of the list is the calls of the other threads during one wait.
abbrev pub spec_acquire : List (List Call) → Holders → ℕ → ℕ → PageMode → Option Holders
spec_acquire [] h seg page mode =
    let (h', ok) = spec_call h (acquire seg page mode) in if ok then some h' else none
spec_acquire (cs ∷ rest) h seg page mode =
    let (h', ok) = spec_call h (acquire seg page mode) in
    let again = spec_acquire rest (spec_run h' cs).0 seg page mode in if ok then some h' else again

abbrev pub AllRetried : List (List Call) → Holders → ℕ → ℕ → PageMode → Type 0
AllRetried [] h seg page mode = IsDisciplined h (acquire seg page mode)
AllRetried (cs ∷ rest) h seg page mode =
    let h' = (spec_call h (acquire seg page mode)).0 in
    IsDisciplined h (acquire seg page mode)
    × AllDisciplined h' cs
    × AllRetried rest (spec_run h' cs).0 seg page mode

module _ (t : CuckooMap PageLockState) where
  open t use {Map, find, find-uprase_fn, found-uprase_fn, find-erase_fn}

  unfoldable pub call : Map → Call → Map × Bool
  call m (acquire seg page mode) = try_acquire_page_lock t m seg page mode
  call m (release seg page mode) = (release_page_lock t m seg page mode, true)

  unfoldable pub run : Map → List Call → Map × List Bool
  run m [] = (m, [])
  run m (c ∷ cs) = let (m', b) = call m c in let (m'', bs) = run m' cs in (m'', b ∷ bs)

  abbrev pub Represents : Map → Holders → Type 0
  Represents m h = (id : ℕ) → Tracks (find m id) (h id)

  abbrev pub others : List (List Call) → List (Map → Map)
  others = map λ cs m. (run m cs).0

  abbrev pub Agrees : Option Map → Option Holders → Type 0
  Agrees none none = Unit {0}
  Agrees (some m) (some h) = Represents m h
  Agrees none (some h) = ⊥
  Agrees (some m) none = ⊥

  Tracks-with :
      (m m' : Map) (h : Holders) (id : ℕ) (o : Option PageLockState) (hs : List PageMode)
      → ((j : ℕ) → find m' j ≡ (if j == id then o else find m j))
      → Represents m h
      → Tracks o hs
      → Represents m' (holders_with h id hs)
  Tracks-with m m' h id o hs e r v j = elim (Bool-cases (j == id)) [
    | inl hit ↦ rw (e j, hit) v
    | inr miss ↦ rw (e j, miss) (r j)
  ]

  acquire-granted :
      (m : Map) (seg page : ℕ) (mode : PageMode)
      → (try_acquire_page_lock t m seg page mode).1 ≡ granted mode (find m (page_lock_id seg page))
  unfolding try_acquire_page_lock
  acquire-granted m seg page mode = ground (
    arith,
    found-uprase_fn m (page_lock_id seg page) (acquire_closure mode) (initial_page_state mode),
  )

  pub call_refines :
      (m : Map) (h : Holders) (c : Call)
      → Represents m h
      → IsDisciplined h c
      → Represents (call m c).0 (spec_call h c).0 × ((call m c).1 ≡ (spec_call h c).1)
  unfolding call try_acquire_page_lock release_page_lock
  call_refines m h (acquire seg page mode) r d =
      let id = page_lock_id seg page in
      (
        Tracks-with m _ h id _ _
            (find-uprase_fn m id (acquire_closure mode) (initial_page_state mode)) r
            (acquire-Tracks (find m id) (h id) (r id) mode d),
        acquire-granted m seg page mode ∙ granted_iff_compatible (find m id) (h id) (r id) mode,
      )
  call_refines m h (release seg page mode) r d =
      let id = page_lock_id seg page in
      (
        Tracks-with m _ h id _ _ (find-erase_fn m id (release_closure mode)) r
            (release-Tracks (find m id) (h id) (r id) mode d.0 d.1),
        refl,
      )

  -- From any represented table, a disciplined history of page lock calls gives the answers of the
  -- specification, and leaves the table representing the specification's holders.
  pub page_run_refines :
      (cs : List Call) (m : Map) (h : Holders)
      → Represents m h
      → AllDisciplined h cs
      → Represents (run m cs).0 (spec_run h cs).0 × ((run m cs).1 ≡ (spec_run h cs).1)
  unfolding run
  page_run_refines [] m h r d = (r, refl)
  page_run_refines (c ∷ cs) m h r d =
      let step = call_refines m h c r d.0 in
      let rest = page_run_refines cs (call m c).0 (spec_call h c).0 step.0 d.1 in
      (rest.0, cc (step.1, rest.1))

  -- The retry loop returns after the first attempt at which the request is compatible with every
  -- holder, and then the table represents the specification's holders; if no attempt is, it still
  -- waits.
  pub acquire_refines :
      (waits : List (List Call)) (m : Map) (h : Holders) (seg page : ℕ) (mode : PageMode)
      → Represents m h
      → AllRetried waits h seg page mode
      → Agrees
          (acquire_page_lock t (others waits) m seg page mode)
          (spec_acquire waits h seg page mode)
  unfolding acquire_page_lock call
  acquire_refines [] m h seg page mode r d =
      let step = call_refines m h (acquire seg page mode) r d in
      elim (Bool-cases (all_compatible mode (h (page_lock_id seg page)))) [
        | inl ok ↦ rw (step.1, ok) (rw ok at step.0)
        | inr busy ↦ rw (step.1, busy) tt
      ]
  acquire_refines (cs ∷ rest) m h seg page mode r d =
      let step = call_refines m h (acquire seg page mode) r d.0 in
      let next = page_run_refines cs _ _ step.0 d.1 in
      elim (Bool-cases (all_compatible mode (h (page_lock_id seg page)))) [
        | inl ok ↦ rw (step.1, ok) (rw ok at step.0)
        | inr busy ↦
            rw (step.1, busy) (rw busy at (acquire_refines rest _ _ seg page mode next.0 d.2))
      ]
