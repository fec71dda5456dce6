-- ===== src/Tests/Manager.antt =====
-- Runs of the log's manager.
use treeline.Prelude.{
  ◌≡◌, refl, arith, true, false, Option, none, some, List, [], ◌∷◌, ◌++◌, ◌==◌, if◌then◌else◌,
}
use treeline.Tests.Wal.{sum}
use treeline.Wal.Writer.{Writer, make_writer, add_entry, add_entries, add_fragments}
use treeline.Coding.{encode_varint32}
use treeline.Wal.Manager.{
  LogRecord, write_type, delete_type, LogFiles, ok, System, write, Manager, make_manager,
  prepare_for_write, prepare_for_replay, serialize,
}
use treeline.Wal.Manager.Replay.{Callback, deliver, replay_log}
use treeline.Wal.Manager.Versions.{Lists}
use treeline.Wal.Manager.Generations.{records_of}
use treeline.Wal.Manager.Spec.{
  Call, log_write_call, increment_call, discard_up_to_call, discard_oldest_call, Log, generations,
  empty_log, log_run, Works, Tracks,
}
use treeline.Wal.Manager.History.{manager_run, manager_run-Tracks}
use treeline.Wal.Manager.Restart.{replay-Tracks}

abbrev system : System
system = record {
  open_log_dir = ok;
  list_log_dir = ok;
  open_writer = λ v. ok;
  open_reader = λ v. ok;
  append = λ v. ok;
  remove = λ v. ok;
  sync_log_dir = ok;
}

system-Works : Works system
system-Works = record {
  open_dir = refl;
  list_dir = refl;
  open_write = λ v. refl;
  open_read = λ v. refl;
  append = λ v. refl;
  remove = λ v. refl;
  sync_dir = refl;
}

abbrev first : LogRecord
first = record { key = 1 ∷ 2 ∷ []; value = 9 ∷ []; type = write_type }

abbrev second : LogRecord
second = record { key = 3 ∷ []; value = []; type = delete_type }

abbrev calls : List Call
calls =
    log_write_call true first
    ∷ increment_call
    ∷ discard_oldest_call 0
    ∷ log_write_call false second
    ∷ increment_call
    ∷ log_write_call true first
    ∷ discard_up_to_call 1
    ∷ []

manager_run-Tracks_example :
    (m0 m : Manager) × (files : LogFiles) × (prepare_for_write system [] false make_manager
        (λ v. none)
      ≡ some (ok, m0, λ v. none))
    × (manager_run sum 16 system calls m0 (λ v. none) ≡ some (ok, m, files))
    × Tracks sum 16 (log_run calls empty_log) m files
manager_run-Tracks_example =
    manager_run-Tracks sum 16 (omega arith) (omega arith) system system-Works calls
      (omega arith, (tt, (tt, (omega arith, (tt, (omega arith, (tt, tt))))))) (omega arith)

abbrev written : Option Writer → Writer
written none = make_writer
written (some w) = w

-- One generation of two records, and an empty one.
log_writer : Writer
unfolding add_entries
log_writer = written (add_entries sum 16 make_writer (serialize first ∷ serialize second ∷ []))

log_files : LogFiles
log_files v = if v == 4 then some log_writer.log else none

abbrev log : Log
log = record { kept = (4, first ∷ second ∷ []) ∷ []; active = 5; current = [] }

abbrev manager : Manager
manager = record {
  mode = write;
  log_versions = 4 ∷ [];
  active_log_version = 5;
  writer = none;
  log_dir_writer_synced = false;
}

log-Tracks : Tracks sum 16 log manager log_files
unfolding log_files log_writer add_entries add_entry add_fragments encode_varint32 serialize
log-Tracks = record {
  mode = refl;
  versions = refl;
  active = refl;
  ascends = (omega arith, (omega arith, tt));
  has_writer = refl;
  covers = record {
    images = ((log_writer, refl, refl), (refl, tt));
    others = λ v absent. ground arith;
  };
}

log-Lists : Lists (4 ∷ []) log_files
unfolding log_files
log-Lists = record { once = λ v. ground arith }

abbrev collect : Callback (List LogRecord)
collect r rs = (ok, rs ++ (r ∷ []))

replay-Tracks_example :
    (m : Manager) × (prepare_for_replay system (4 ∷ []) make_manager ≡ some (ok, m))
    × (replay_log sum 16 collect system log_files 3 30 m []
        ≡ some (deliver collect (records_of (generations log)) []))
replay-Tracks_example =
    replay-Tracks collect sum 16 (omega arith) (omega arith) 3 30 (omega arith) system system-Works
      log manager log_files (4 ∷ []) [] log-Tracks log-Lists
      (
        (omega arith, ((omega arith, omega arith), ((omega arith, omega arith), tt))),
        ((omega arith, tt), tt),
      )
