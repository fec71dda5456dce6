-- ===== src/Locks/Upgrade.antt =====
-- The blocking upgrade of a segment lock: its spin loop against the specification of the holders, and
-- what the upgraded lock excludes.
use treeline.Prelude.{
  ℕ, ◌<◌, ◌≡◌, ◌∙◌, false, List, [], ◌∷◌, ◌==◌, if◌then◌else◌, map, arith, Option, none, some,
  Bool-cases, inl, inr,
}
use treeline.Locks.Modes.{SegmentMode, page_read, reorg_exclusive, SegmentLockState}
use treeline.Locks.Table.{CuckooMap}
use treeline.Locks.Segments.{
  try_acquire_segment_lock, readers_are_done, await_readers, upgrade_segment_lock,
}
use treeline.Locks.Holders.{count, exclusive_compatible, length-eq-counts}
use treeline.Locks.Tracks.{Tracks}
use treeline.Locks.History.{
  Holders, Call, holders_with_self, acquire, upgrade, AllDisciplined, IsDisciplined, spec_call,
  spec_run, run, Represents, call_refines, run_refines, call,
}

-- The specification of the spin loop: the holders at the first look that finds no reader. An entry of
-- the list is the calls of the other threads during one wait.
abbrev pub spec_await : List (List Call) → Holders → ℕ → Option Holders
spec_await [] h id = none
spec_await (cs ∷ rest) h id =
    let h' = (spec_run h cs).0 in
    let more = spec_await rest h' id in if count page_read (h' id) == 0 then some h' else more

-- The other threads keep to the rules, and nobody but the waiting thread gives its lock up.
abbrev pub AllKept : List (List Call) → Holders → ℕ → Type 0
AllKept [] h id = Unit {0}
AllKept (cs ∷ rest) h id =
    let h' = (spec_run h cs).0 in
    AllDisciplined h cs × (count reorg_exclusive (h' id) ≡ 1) × AllKept rest h' id

abbrev pub spec_upgrade : List (List Call) → Holders → ℕ → Option Holders
spec_upgrade waits h id =
    let (h', no_readers) = spec_call h (upgrade id) in
    let more = spec_await waits h' id in if no_readers then some h' else more

module _ (t : CuckooMap SegmentLockState) where
  open t use {Map, find}

  abbrev pub others : List (List Call) → List (Map → Map)
  others = map λ cs m. (run t m cs).0

  abbrev pub Agrees : Option Map → Option Holders → Type 0
  Agrees none none = Unit {0}
  Agrees (some m) (some h) = Represents t m h
  Agrees none (some h) = ⊥
  Agrees (some m) none = ⊥

  readers_are_done_lem :
      (m : Map) (id : ℕ) (hs : List SegmentMode)
      → Tracks (find m id) hs
      → count reorg_exclusive hs ≡ 1
      → readers_are_done t m id ≡ (count page_read hs == 0)
  unfolding readers_are_done
  readers_are_done_lem m id hs v one = ground (arith, length-eq-counts hs)

  await_refines :
      (waits : List (List Call)) (m : Map) (h : Holders) (id : ℕ)
      → Represents t m h
      → AllKept waits h id
      → Agrees (await_readers t (others waits) m id) (spec_await waits h id)
  unfolding await_readers
  await_refines [] m h id r k = tt
  await_refines (cs ∷ rest) m h id r k =
      let next = run_refines t cs m h r k.0 in
      let look = readers_are_done_lem (run t m cs).0 id ((spec_run h cs).0 id) (next.0 id) k.1 in
      elim (Bool-cases (count page_read ((spec_run h cs).0 id) == 0)) [
        | inl done ↦ rw (look, done) next.0
        | inr more ↦ rw (look, more) (await_refines rest _ _ id next.0 k.2)
      ]

  -- The upgrade of a lock held in `reorg` mode returns at the first look that finds no reader, and the
  -- table then represents the specification's holders; if every look finds one it still waits.
  pub upgrade_refines :
      (waits : List (List Call)) (m : Map) (h : Holders) (id : ℕ)
      → Represents t m h
      → IsDisciplined h (upgrade id)
      → AllKept waits (spec_call h (upgrade id)).0 id
      → Agrees (upgrade_segment_lock t (others waits) m id) (spec_upgrade waits h id)
  unfolding upgrade_segment_lock call
  upgrade_refines waits m h id r d k =
      let step = call_refines t m h (upgrade id) r d in
      elim (Bool-cases (count page_read (h id) == 0)) [
        | inl now ↦ rw (step.1, now) step.0
        | inr later ↦ rw (step.1, later) (await_refines waits _ _ id step.0 k)
      ]

  -- While a segment is held in `reorg_exclusive` mode every request for it is refused, and changes no
  -- holders.
  pub exclusive_refuses :
      (m : Map) (h : Holders) (id : ℕ) (mode : SegmentMode)
      → Represents t m h
      → IsDisciplined h (acquire id mode)
      → 0 < count reorg_exclusive (h id)
      → ((try_acquire_segment_lock t m id mode).1 ≡ false)
        × ((j : ℕ) → Tracks (find (try_acquire_segment_lock t m id mode).0 j) (h j))
  unfolding call
  exclusive_refuses m h id mode r d held =
      let step = call_refines t m h (acquire id mode) r d in
      let refused = exclusive_compatible mode (h id) held in
      (step.1 ∙ refused, λ j. rw (← holders_with_self h id j) (rw refused at step.0 j))
