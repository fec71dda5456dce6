-- ===== src/Wal/Manager/History.antt =====
-- wal/manager.cc: any history of calls in write mode leaves the directory as the log that the calls
-- stand for.
use treeline.Prelude.{
  ℕ, ◌+◌, ◌^◌, ◌≤◌, ◌<◌, ◌≡◌, refl, ap, sym, ◌∙◌, subst, Bool, false, Option, none, some, List, [],
  ◌∷◌, ◌++◌, if◌then◌else◌, arith, All, length,
}
use treeline.Wal.Format.{Crc}
use treeline.Wal.Writer.{Writer}
use treeline.Wal.Manager.{
  LogRecord, LogFiles, put_file, ok, posix_error, System, write, Manager, Result, make_manager,
  prepare_for_write, prepare_after_open, open_and_collect_log_versions, collect_log_versions, sort,
  discard_up_to_inclusive, discard_oldest, set_versions, is_mode, increment_log_version,
  next_version, discard_loop, discard_front,
}
use treeline.Wal.Manager.Generations.{
  Generation, versions_of, Ascends-last, Ascends-push, no_version_above, Covers, Covers-last,
  Covers-push, Image, Written,
}
use treeline.Wal.Manager.Spec.{
  Call, log_write_call, increment_call, discard_up_to_call, discard_oldest_call, Log, generations,
  empty_log, log_step, log_run, Works, HasWriter, Tracks, manager_step, with_ok, Steps, loop-Covers,
  front-Covers, drop_up_to, drop_oldest,
}
use treeline.Wal.Manager.Writes.{log_write_lem, last-Image}

-- The assertion on a key's length.
abbrev pub IsCall : Call → Type 0
IsCall (log_write_call sync r) = length r.key < 2 ^ 32
IsCall increment_call = Unit {0}
IsCall (discard_up_to_call newest) = Unit {0}
IsCall (discard_oldest_call newest) = Unit {0}

versions_of-append :
    (gens : List Generation) (v : ℕ) (rs : List LogRecord)
    → versions_of (gens ++ ((v, rs) ∷ [])) ≡ versions_of gens ++ (v ∷ [])
versions_of-append [] v rs = refl
versions_of-append ((u, rs0) ∷ gens) v rs = rw (versions_of-append gens v rs) refl

has-writer :
    (c : Crc) (block_size : ℕ) (rs : List LogRecord) (r : LogRecord) (w : Writer)
    (writer : Option Writer) (file : Option (List ℕ))
    → Written c block_size (rs ++ (r ∷ [])) w
    → writer ≡ some w
    → file ≡ some w.log
    → HasWriter c block_size (rs ++ (r ∷ [])) writer × Image c block_size (rs ++ (r ∷ [])) file
has-writer c block_size [] r w writer file h e f = ((w, h, e), (w, h, f))
has-writer c block_size (r0 ∷ rs) r w writer file h e f = ((w, h, e), (w, h, f))

abbrev pub go_on : (Manager → LogFiles → Option Result) → Option Result → Option Result
go_on next none = none
go_on next (some (ok, m, files)) = next m files
go_on next (some (posix_error e, m, files)) = some (posix_error e, m, files)

module _ (c : Crc) (block_size : ℕ) where
  -- The calls, until one fails; `none` is a failed assertion.
  unfoldable pub manager_run : System → List Call → Manager → LogFiles → Option Result
  unfolding manager_step
  manager_run s [] m files = some (ok, m, files)
  manager_run s (call ∷ calls) m files =
      go_on (manager_run s calls) (manager_step c block_size s call m files)

module _ (c : Crc) (block_size : ℕ) (big : 7 < block_size) (small : block_size < 65543) (s : System)
    (works : Works s) where
  step_write :
      (sync : Bool) (r : LogRecord) (l : Log) (m : Manager) (files : LogFiles)
      → length r.key < 2 ^ 32
      → Tracks c block_size l m files
      → Steps c block_size s (log_write_call sync r) l m files
  unfolding manager_step
  step_write sync r l m files short t =
      let at : (a : ℕ)
          → m.active_log_version ≡ a
          → Image c block_size l.current (files a)
          → Image c block_size l.current (files m.active_log_version) =
        λ a e im. subst (λ b. Image c block_size l.current (files b)) (sym e) im in
      let image =
        at l.active t.active
          (last-Image c block_size big small l.kept files l.active l.current t.covers.images) in
      let (w, m', written, joined, writer, same) =
        log_write_lem c block_size big small s works sync r l.current m files t.mode short
          t.has_writer image in
      let both = has-writer c block_size l.current r w m'.writer (some w.log) joined writer refl in
      (
        m',
        put_file files m.active_log_version (some w.log),
        written,
        record {
          mode = same.mode ∙ t.mode;
          versions = same.versions ∙ t.versions;
          active = same.active ∙ t.active;
          ascends = Ascends-last l.kept l.active 0 l.current (l.current ++ (r ∷ [])) t.ascends;
          has_writer = both.0;
          covers =
              subst
                (λ a.
                  Covers c block_size (l.kept ++ ((l.active, l.current ++ (r ∷ [])) ∷ []))
                    (put_file files a (some w.log)))
                (sym t.active)
                (Covers-last c block_size l.kept files l.active 0 l.current (l.current ++ (r ∷ []))
                  (some w.log) t.ascends both.1 t.covers);
        },
      )

  step_increment :
      (l : Log) (m : Manager) (files : LogFiles)
      → l.active + 1 < 2 ^ 64
      → Tracks c block_size l m files
      → Steps c block_size s increment_call l m files
  unfolding manager_step increment_log_version
  step_increment l m files room t =
      let incremented : Manager = record m {
        log_versions = m.log_versions ++ (m.active_log_version ∷ []);
        active_log_version = next_version m.active_log_version;
        log_dir_writer_synced = false;
        writer = none;
      } in
      (
        incremented,
        files,
        ap
            (λ mode.
              with_ok files
                (if is_mode mode write then some (m.active_log_version, incremented) else none))
            t.mode,
        record {
          mode = t.mode;
          versions = rw (versions_of-append l.kept l.active l.current) (cc (t.versions, t.active));
          active = ap next_version t.active ∙ omega arith;
          ascends =
              Ascends-push l.kept l.active (l.active + 1) 0 l.current [] (omega arith) t.ascends;
          has_writer = refl;
          covers =
              Covers-push c block_size (generations l) files (l.active + 1)
                (no_version_above l.kept l.active (l.active + 1) 0 l.current (omega arith)
                  t.ascends)
                t.covers;
        },
      )

  step_discard_up_to :
      (newest : ℕ) (l : Log) (m : Manager) (files : LogFiles)
      → Tracks c block_size l m files
      → Steps c block_size s (discard_up_to_call newest) l m files
  unfolding manager_step discard_up_to_inclusive
  step_discard_up_to newest l m files t =
      let (files', e, left) =
        loop-Covers c block_size s works newest 0 l.kept (l.active, l.current) files t.ascends
          t.covers in
      (
        record m { log_versions = versions_of (drop_up_to newest l.kept) },
        files',
        ap (λ p. some (set_versions m p))
            (ap (λ versions. discard_loop s newest versions files) t.versions ∙ e),
        record {
          mode = t.mode;
          versions = refl;
          active = t.active;
          ascends = left.1;
          has_writer = t.has_writer;
          covers = left.0;
        },
      )

  step_discard_oldest :
      (newest : ℕ) (l : Log) (m : Manager) (files : LogFiles)
      → Tracks c block_size l m files
      → Steps c block_size s (discard_oldest_call newest) l m files
  unfolding manager_step discard_oldest
  step_discard_oldest newest l m files t =
      let (files', e, left) =
        front-Covers c block_size s works newest 0 l.kept (l.active, l.current) files t.ascends
          t.covers in
      let found = ap (λ versions. discard_front s newest versions files) t.versions ∙ e in
      (
        record m { log_versions = versions_of (drop_oldest newest l.kept) },
        files',
        ap
              (λ mode.
                if is_mode mode write
                then some (set_versions m (discard_front s newest m.log_versions files))
                else none)
              t.mode
            ∙ ap (λ p. some (set_versions m p)) found,
        record {
          mode = t.mode;
          versions = refl;
          active = t.active;
          ascends = left.1;
          has_writer = t.has_writer;
          covers = left.0;
        },
      )

  -- The step of any call.
  pub manager_step-Tracks :
      (call : Call) (l : Log) (m : Manager) (files : LogFiles)
      → IsCall call
      → l.active + 1 < 2 ^ 64
      → Tracks c block_size l m files
      → Steps c block_size s call l m files
  manager_step-Tracks (log_write_call sync r) l m files valid room t =
      step_write sync r l m files valid t
  manager_step-Tracks increment_call l m files valid room t = step_increment l m files room t
  manager_step-Tracks (discard_up_to_call newest) l m files valid room t =
      step_discard_up_to newest l m files t
  manager_step-Tracks (discard_oldest_call newest) l m files valid room t =
      step_discard_oldest newest l m files t

  active_bound : (call : Call) (l : Log) → (log_step call l).active ≤ l.active + 1
  active_bound (log_write_call sync r) l = omega arith
  active_bound increment_call l = omega arith
  active_bound (discard_up_to_call newest) l = omega arith
  active_bound (discard_oldest_call newest) l = omega arith

  manager_run_from :
      (calls : List Call) (l : Log) (m : Manager) (files : LogFiles)
      → All IsCall calls
      → l.active + length calls < 2 ^ 64
      → Tracks c block_size l m files
      → (m' : Manager) × (files' : LogFiles) × (manager_run c block_size s calls m files
          ≡ some (ok, m', files'))
        × Tracks c block_size (log_run calls l) m' files'
  unfolding manager_run
  manager_run_from [] l m files valid room t = (m, files, refl, t)
  manager_run_from (call ∷ calls) l m files valid room t =
      let (m1, files1, step, t1) = manager_step-Tracks call l m files valid.0 (omega arith) t in
      let (m', files', rest, t') =
        manager_run_from calls (log_step call l) m1 files1 valid.1
          (omega (arith, active_bound call l)) t1 in
      (m', files', ap (go_on (manager_run c block_size s calls)) step ∙ rest, t')

  pub collected :
      (listing : List ℕ) (m : Manager)
      → open_and_collect_log_versions s listing m ≡ (ok, record m { log_versions = sort listing })
  unfolding open_and_collect_log_versions collect_log_versions
  collected listing m = ground (arith, works.open_dir, works.list_dir)

  start_lem :
      (m : Manager) × (prepare_for_write s [] false make_manager (λ v. none)
        ≡ some (ok, m, λ v. none))
      × Tracks c block_size empty_log m (λ v. none)
  unfolding prepare_for_write make_manager prepare_after_open
  start_lem = (
    record {
      mode = write;
      log_versions = [];
      active_log_version = 0;
      writer = none;
      log_dir_writer_synced = false;
    },
    ap (λ p. some (prepare_after_open s false (λ v. none) p)) (collected [] make_manager),
    record {
      mode = refl;
      versions = refl;
      active = refl;
      ascends = (omega arith, tt);
      has_writer = refl;
      covers = record { images = (refl, tt); others = λ v h. refl };
    },
  )

  -- In an empty directory, with system calls that succeed, any calls in write mode whose keys' lengths
  -- have 32 bits end without an error or a failed assertion, if they are fewer than 2 ^ 64; the versions
  -- kept, and the bytes of every file, are then those of the log of the calls: a generation for each
  -- increment, less those discarded, each holding its records in order, with no other file.
  pub manager_run-Tracks :
      (calls : List Call)
      → All IsCall calls
      → 1 + length calls < 2 ^ 64
      → (m0 m : Manager) × (files : LogFiles) × (prepare_for_write s [] false make_manager
            (λ v. none)
          ≡ some (ok, m0, λ v. none))
        × (manager_run c block_size s calls m0 (λ v. none) ≡ some (ok, m, files))
        × Tracks c block_size (log_run calls empty_log) m files
  manager_run-Tracks calls valid room =
      let (m0, started, t) = start_lem in
      let (m, files, e, t') =
        manager_run_from calls empty_log m0 (λ v. none) valid (omega arith) t in
      (m0, m, files, started, e, t')
