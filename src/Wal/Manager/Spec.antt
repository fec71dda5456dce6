-- ===== src/Wal/Manager/Spec.antt =====
-- wal/manager.{h,cc}: histories of calls in write mode, and the generations of records that the calls
-- promise to keep.
use treeline.Prelude.{
  ℕ, suc, ◌+◌, ◌≡◌, refl, ◌∙◌, Bool, false, Option, none, some, List, [], ◌∷◌, ◌++◌, ltb,
  if◌then◌else◌, arith, inl, inr, Bool-cases, Option-cases,
}
use treeline.Wal.Format.{Crc}
use treeline.Wal.Writer.{Writer}
use treeline.Wal.Manager.{
  LogRecord, LogFiles, put_file, ok, System, write, Manager, Result, discard_loop, discard_front,
  discard_up_to_inclusive, discard_oldest, log_write, increment_log_version,
}
use treeline.Wal.Manager.Generations.{
  Generation, versions_of, Ascends, Written, Covers, Covers-tail, Covers-tail_absent,
  Ascends-weaken,
}

pub data Call : Type 0 where
  log_write_call : Bool → LogRecord → Call
  increment_call : Call
  discard_up_to_call discard_oldest_call : ℕ → Call

-- The immutable generations, and the one that is written to.
pub record Log : Type 0 where
  pub kept : List Generation
  pub active : ℕ
  pub current : List LogRecord

abbrev pub generations : Log → List Generation
generations l = l.kept ++ ((l.active, l.current) ∷ [])

abbrev pub empty_log : Log
empty_log = record { kept = []; active = 0; current = [] }

abbrev pub drop_up_to : ℕ → List Generation → List Generation
drop_up_to newest [] = []
drop_up_to newest ((v, rs) ∷ gens) = if ltb newest v then (v, rs) ∷ gens else drop_up_to newest gens

-- A generation with no records has no file, and stays.
abbrev pub drop_oldest : ℕ → List Generation → List Generation
drop_oldest newest [] = []
drop_oldest newest ((v, []) ∷ gens) = (v, []) ∷ gens
drop_oldest newest ((v, r ∷ rs) ∷ gens) = if ltb newest v then (v, r ∷ rs) ∷ gens else gens

abbrev pub log_step : Call → Log → Log
log_step (log_write_call sync r) l = record l { current = l.current ++ (r ∷ []) }
log_step increment_call l = record { kept = generations l; active = l.active + 1; current = [] }
log_step (discard_up_to_call newest) l = record l { kept = drop_up_to newest l.kept }
log_step (discard_oldest_call newest) l = record l { kept = drop_oldest newest l.kept }

abbrev pub log_run : List Call → Log → Log
log_run [] l = l
log_run (call ∷ calls) l = log_run calls (log_step call l)

-- Every call of the system succeeds.
pub record Works (s : System) : Type 0 where
  pub open_dir : s.open_log_dir ≡ ok
  pub list_dir : s.list_log_dir ≡ ok
  pub open_write : (v : ℕ) → s.open_writer v ≡ ok
  pub open_read : (v : ℕ) → s.open_reader v ≡ ok
  pub append : (v : ℕ) → s.append v ≡ ok
  pub remove : (v : ℕ) → s.remove v ≡ ok
  pub sync_dir : s.sync_log_dir ≡ ok

abbrev pub with_ok : LogFiles → Option (ℕ × Manager) → Option Result
with_ok files none = none
with_ok files (some (v, m)) = some (ok, m, files)

module _ (c : Crc) (block_size : ℕ) where
  abbrev pub HasWriter : List LogRecord → Option Writer → Type 0
  HasWriter [] writer = writer ≡ none
  HasWriter (r ∷ rs) writer = (w : Writer) × Written c block_size (r ∷ rs) w × (writer ≡ some w)

  -- The manager and the directory stand for the log.
  pub record Tracks (l : Log) (m : Manager) (files : LogFiles) : Type 0 where
    pub mode : m.mode ≡ write
    pub versions : m.log_versions ≡ versions_of l.kept
    pub active : m.active_log_version ≡ l.active
    pub ascends : Ascends 0 (generations l)
    pub has_writer : HasWriter l.current m.writer
    pub covers : Covers c block_size (generations l) files

  unfoldable pub manager_step : System → Call → Manager → LogFiles → Option Result
  manager_step s (log_write_call sync r) m files = log_write c block_size s sync r m files
  manager_step s increment_call m files = with_ok files (increment_log_version m)
  manager_step s (discard_up_to_call newest) m files =
      some (discard_up_to_inclusive s newest m files)
  manager_step s (discard_oldest_call newest) m files = discard_oldest s newest m files

  -- What one call comes to.
  abbrev pub Steps : System → Call → Log → Manager → LogFiles → Type 0
  Steps s call l m files =
      (m' : Manager) × (files' : LogFiles) × (manager_step s call m files ≡ some (ok, m', files'))
      × Tracks (log_step call l) m' files'

  module _ (s : System) (works : Works s) where
    -- What is left of the log, in the directory `files'`.
    abbrev pub Left : ℕ → List Generation → Generation → LogFiles → Type 0
    Left n gens last files' =
        Covers c block_size (gens ++ (last ∷ [])) files' × Ascends n (gens ++ (last ∷ []))

    discarded :
        (newest v : ℕ) (versions : List ℕ) (files : LogFiles)
        → ltb newest v ≡ false
        → (files' : LogFiles) × (discard_loop s newest (v ∷ versions) files
            ≡ discard_loop s newest versions files')
          × (((rs : List LogRecord) (gens : List Generation) (n : ℕ)
              → Ascends n ((v, rs) ∷ gens)
              → Covers c block_size ((v, rs) ∷ gens) files
              → Covers c block_size gens files'))
    unfolding discard_loop
    discarded newest v versions files older = elim (Option-cases (files v)) [
      | inl gone ↦ (
        files,
        rw older (rw (works.remove v) (rw gone refl)),
        λ rs gens n a k. Covers-tail_absent c block_size v rs gens files k gone,
      )
      | inr (bytes, found) ↦ (
        put_file files v none,
        rw older (rw (works.remove v) (rw found (simp works.sync_dir))),
        λ rs gens n a k. Covers-tail c block_size v n rs gens files a k,
      )
    ]

    pub loop-Covers :
        (newest n : ℕ) (gens : List Generation) (last : Generation) (files : LogFiles)
        → Ascends n (gens ++ (last ∷ []))
        → Covers c block_size (gens ++ (last ∷ [])) files
        → (files' : LogFiles) × (discard_loop s newest (versions_of gens) files
            ≡ (ok, versions_of (drop_up_to newest gens), files'))
          × Left n (drop_up_to newest gens) last files'
    unfolding discard_loop
    loop-Covers newest n [] last files a k = (files, refl, (k, a))
    loop-Covers newest n ((v, rs) ∷ gens) last files a k = elim (Bool-cases (ltb newest v)) [
      | inl newer ↦ rw newer (files, refl, (k, a))
      | inr older ↦
          let (files1, e1, clears) = discarded newest v (versions_of gens) files older in
          let weaker = Ascends-weaken n (suc v) (gens ++ (last ∷ [])) (omega arith) a.1 in
          let (files', e, left) =
            loop-Covers newest n gens last files1 weaker (clears rs (gens ++ (last ∷ [])) n a k) in
          (files', e1 ∙ e ∙ rw older refl, rw older left)
    ]

    pub front-Covers :
        (newest n : ℕ) (gens : List Generation) (last : Generation) (files : LogFiles)
        → Ascends n (gens ++ (last ∷ []))
        → Covers c block_size (gens ++ (last ∷ [])) files
        → (files' : LogFiles) × (discard_front s newest (versions_of gens) files
            ≡ (ok, versions_of (drop_oldest newest gens), files'))
          × Left n (drop_oldest newest gens) last files'
    unfolding discard_front
    front-Covers newest n [] last files a k = (files, refl, (k, a))
    front-Covers newest n ((v, []) ∷ gens) last files a k = elim (Bool-cases (ltb newest v)) [
      | inl newer ↦ (files, rw newer refl, (k, a))
      | inr older ↦ (files, rw older (rw (works.remove v) (rw k.images.0 refl)), (k, a))
    ]
    front-Covers newest n ((v, r ∷ rs) ∷ gens) last files a k =
        let (w, written, found) = k.images.0 in
        elim (Bool-cases (ltb newest v)) [
          | inl newer ↦ rw newer (files, refl, (k, a))
          | inr older ↦ rw older (
            put_file files v none,
            rw (works.remove v) (rw found (rw works.sync_dir refl)),
            (
              Covers-tail c block_size v n (r ∷ rs) (gens ++ (last ∷ [])) files a k,
              Ascends-weaken n (suc v) (gens ++ (last ∷ [])) (omega arith) a.1,
            ),
          )
        ]
