-- ===== src/Wal/Manager.antt =====
-- wal/manager.{h,cc}: the versions of the log, the form of a record in it, and its replay.
-- The log directory is a map from versions to contents. What the system calls answer is a parameter, as
-- is the order in which the directory is listed. A file that is no log, which `ParseLogVersion` skips, is
-- left out.
pub mod Replay
pub mod Serial
pub mod Versions
pub mod Generations
pub mod Spec
pub mod Writes
pub mod History
pub mod Restart
use treeline.Prelude.{
  ℕ, zero, suc, ◌+◌, ◌%◌, ◌^◌, Bool, true, false, Option, none, some, List, [], ◌∷◌, ◌++◌, ltb, leb,
  ◌==◌, if◌then◌else◌, length, take, drop, ◌&&◌, ◌||◌, not,
}
use treeline.Coding.{put_varint32, get_varint32}
use treeline.Wal.Format.{Crc}
use treeline.Wal.Writer.{Writer, make_writer, add_entry}
use treeline.Wal.Reader.{Reader, make_reader}
use treeline.Wal.Entries.{read_entry}

pub data WriteType : Type 0 where
  write_type delete_type : WriteType

unfoldable pub byte_of_write : WriteType → ℕ
byte_of_write write_type = 0
byte_of_write delete_type = 1

-- `none` is a byte above `kMaxWriteType`.
unfoldable pub write_of_byte : ℕ → Option WriteType
write_of_byte zero = some write_type
write_of_byte (suc zero) = some delete_type
write_of_byte (suc (suc n)) = none

pub record LogRecord : Type 0 where
  pub key : List ℕ
  pub value : List ℕ
  pub type : WriteType

pub data Status : Type 0 where
  ok : Status
  posix_error : ℕ → Status

-- The order of the steps of one serialized record.
unfoldable pub serialize : LogRecord → List ℕ
unfolding byte_of_write put_varint32
serialize r = put_varint32 (byte_of_write r.type ∷ []) (length r.key) ++ r.key ++ r.value

unfoldable pub split_record : WriteType → ℕ × List ℕ → Option LogRecord
split_record t (key_length, rest) =
    if ltb (length rest) key_length
    then none
    else some (record { key = take key_length rest; value = drop key_length rest; type = t })

-- `none` is an entry that is skipped.
unfoldable pub parse_key : WriteType → List ℕ → Option LogRecord
unfolding split_record
parse_key t rest = elim (get_varint32 rest) [ none ↦ none | some p ↦ split_record t p ]

-- The first `none` is an entry with no byte, the failed assertion; the second is one that is skipped.
unfoldable pub parse_entry : List ℕ → Option (Option LogRecord)
unfolding write_of_byte parse_key
parse_entry [] = none
parse_entry (raw_type ∷ rest) = elim (write_of_byte raw_type) [
  | none ↦ some none
  | some t ↦ some (parse_key t rest)
]

-- What the calls of the system answer, with the version where they have one.
pub record System : Type 0 where
  pub open_log_dir : Status
  pub list_log_dir : Status
  pub open_writer : ℕ → Status
  pub open_reader : ℕ → Status
  pub append : ℕ → Status
  pub remove : ℕ → Status
  pub sync_log_dir : Status

pub data Mode : Type 0 where
  created replay write : Mode

abbrev pub LogFiles : Type 0
LogFiles = ℕ → Option (List ℕ)

abbrev pub put_file : LogFiles → ℕ → Option (List ℕ) → LogFiles
put_file files version contents v = if v == version then contents else files v

pub record Manager : Type 0 where
  pub mode : Mode
  pub log_versions : List ℕ
  pub active_log_version : ℕ
  pub writer : Option Writer
  pub log_dir_writer_synced : Bool

unfoldable pub make_manager : Manager
make_manager = record {
  mode = created;
  log_versions = [];
  active_log_version = 0;
  writer = none;
  log_dir_writer_synced = false;
}

-- `std::sort`.
unfoldable pub insert_sorted : ℕ → List ℕ → List ℕ
insert_sorted x [] = x ∷ []
insert_sorted x (y ∷ ys) = if leb x y then x ∷ y ∷ ys else y ∷ insert_sorted x ys

unfoldable pub sort : List ℕ → List ℕ
unfolding insert_sorted
sort [] = []
sort (x ∷ xs) = insert_sorted x (sort xs)

-- With the versions in the order in which the directory is listed.
unfoldable pub collect_log_versions : System → List ℕ → Manager → Status × Manager
unfolding sort
collect_log_versions s listing m = elim s.list_log_dir [
  | ok ↦ (ok, record m { log_versions = sort listing })
  | posix_error e ↦ (posix_error e, m)
]

unfoldable pub open_and_collect_log_versions : System → List ℕ → Manager → Status × Manager
unfolding collect_log_versions
open_and_collect_log_versions s listing m = elim s.open_log_dir [
  | ok ↦ collect_log_versions s listing m
  | posix_error e ↦ (posix_error e, m)
]

abbrev pub is_mode : Mode → Mode → Bool
is_mode created created = true
is_mode replay replay = true
is_mode write write = true
is_mode _ _ = false

abbrev pub set_mode : Mode → Status × Manager → Status × Manager
set_mode mode (ok, m) = (ok, record m { mode = mode })
set_mode mode (posix_error e, m) = (posix_error e, m)

-- `none` is a failed assertion.
unfoldable pub prepare_for_replay : System → List ℕ → Manager → Option (Status × Manager)
unfolding open_and_collect_log_versions
prepare_for_replay s listing m =
    if is_mode m.mode created
    then some (set_mode replay (open_and_collect_log_versions s listing m))
    else none

-- The loop: the versions are taken from the front of the queue, the status and the rest of the state.
unfoldable pub discard_loop : System → ℕ → List ℕ → LogFiles → Status × List ℕ × LogFiles
discard_loop s newest [] files = (ok, [], files)
discard_loop s newest (oldest ∷ versions) files =
    let next = λ (f : LogFiles). discard_loop s newest versions f in
    if ltb newest oldest then (ok, oldest ∷ versions, files) else elim (s.remove oldest) [
      | posix_error e ↦ (posix_error e, versions, files)
      | ok ↦ elim (files oldest) [
        | none ↦ next files
        | some contents ↦ elim s.sync_log_dir [
          | posix_error e ↦ (posix_error e, versions, put_file files oldest none)
          | ok ↦ next (put_file files oldest none)
        ]
      ]
    ]

abbrev pub Result : Type 0
Result = Status × Manager × LogFiles

abbrev pub set_versions : Manager → Status × List ℕ × LogFiles → Result
set_versions m (status, versions, files) = (status, record m { log_versions = versions }, files)

unfoldable pub discard_up_to_inclusive : System → ℕ → Manager → LogFiles → Result
unfolding discard_loop
discard_up_to_inclusive s newest m files =
    set_versions m (discard_loop s newest m.log_versions files)

-- At most one version; the file's removal comes before the version's.
unfoldable pub discard_front : System → ℕ → List ℕ → LogFiles → Status × List ℕ × LogFiles
discard_front s newest [] files = (ok, [], files)
discard_front s newest (oldest ∷ versions) files =
    if ltb newest oldest then (ok, oldest ∷ versions, files) else elim (s.remove oldest) [
      | posix_error e ↦ (posix_error e, oldest ∷ versions, files)
      | ok ↦ elim (files oldest) [
        | none ↦ (ok, oldest ∷ versions, files)
        | some contents ↦ (s.sync_log_dir, versions, put_file files oldest none)
      ]
    ]

-- `none` is a failed assertion.
unfoldable pub discard_oldest : System → ℕ → Manager → LogFiles → Option Result
unfolding discard_front
discard_oldest s newest m files =
    if is_mode m.mode write
    then some (set_versions m (discard_front s newest m.log_versions files))
    else none

unfoldable pub last_version : List ℕ → Option ℕ
last_version [] = none
last_version (v ∷ []) = some v
last_version (v ∷ w ∷ versions) = last_version (w ∷ versions)

-- A version is a 64-bit number.
abbrev pub next_version : ℕ → ℕ
next_version v = (v + 1) % 2 ^ 64

unfoldable pub first_active : List ℕ → ℕ
unfolding last_version
first_active versions = elim (last_version versions) [ none ↦ 0 | some v ↦ next_version v ]

unfoldable pub discard_existing : System → Bool → Manager → LogFiles → Result
unfolding last_version discard_up_to_inclusive
discard_existing s discards m files = elim discards [
  | false ↦ (ok, m, files)
  | true ↦ elim (last_version m.log_versions) [
    | none ↦ (ok, m, files)
    | some newest ↦ discard_up_to_inclusive s newest m files
  ]
]

unfoldable pub start_write : Result → Result
unfolding first_active
start_write (posix_error e, m, files) = (posix_error e, m, files)
start_write (ok, m, files) = (
  ok,
  record m {
    active_log_version = first_active m.log_versions;
    mode = write;
    log_dir_writer_synced = false;
  },
  files,
)

unfoldable pub prepare_after_open : System → Bool → LogFiles → Status × Manager → Result
unfolding discard_existing start_write
prepare_after_open s discards files (posix_error e, m) = (posix_error e, m, files)
prepare_after_open s discards files (ok, m) = start_write (discard_existing s discards m files)

-- `none` is a failed assertion.
unfoldable pub prepare_for_write : System → List ℕ → Bool → Manager → LogFiles → Option Result
unfolding open_and_collect_log_versions prepare_after_open
prepare_for_write s listing discards m files = elim m.mode [
  | created ↦ some (prepare_after_open s discards files (open_and_collect_log_versions s listing m))
  | replay ↦ some (prepare_after_open s discards files (ok, m))
  | write ↦ none
]

abbrev pub contents_or_empty : Option (List ℕ) → List ℕ
contents_or_empty none = []
contents_or_empty (some bytes) = bytes

-- A log file is opened at its end, and is made where there is none.
unfoldable pub open_writer : System → Manager → LogFiles → Result
open_writer s m files = elim m.writer [
  | some w ↦ (ok, m, files)
  | none ↦
      let bytes = contents_or_empty (files m.active_log_version) in
      let m' = record m { writer = some (record { log = bytes; block_offset = 0 }) } in
      elim (s.open_writer m.active_log_version) [
        | posix_error e ↦ (posix_error e, m', files)
        | ok ↦ (ok, m', put_file files m.active_log_version (some bytes))
      ]
]

abbrev pub mark_synced : Status → Manager → LogFiles → Result
mark_synced ok m files = (ok, record m { log_dir_writer_synced = true }, files)
mark_synced (posix_error e) m files = (posix_error e, m, files)

-- The directory is synced once for a log file that is synced.
unfoldable pub sync_directory : System → Bool → Status → Manager → LogFiles → Result
sync_directory s sync (posix_error e) m files = (posix_error e, m, files)
sync_directory s sync ok m files =
    if not sync || m.log_dir_writer_synced
    then (ok, m, files)
    else mark_synced s.sync_log_dir m files

module _ (c : Crc) (block_size : ℕ) where
  -- `none` is an entry whose loop is cut off. A failed write leaves what the file held.
  unfoldable pub append_record :
      System → Bool → LogRecord → Manager → LogFiles → Writer → Option Result
  unfolding serialize sync_directory
  append_record s sync r m files w = elim (add_entry c block_size w (serialize r)) [
    | none ↦ none
    | some w' ↦ elim (s.append m.active_log_version) [
      | posix_error e ↦ some (posix_error e, m, files)
      | ok ↦ some (
          sync_directory s sync ok (record m { writer = some w' })
            (put_file files m.active_log_version (some w'.log)))
    ]
  ]

  unfoldable pub append_opened : System → Bool → LogRecord → Result → Option Result
  unfolding append_record
  append_opened s sync r (posix_error e, m, files) = some (posix_error e, m, files)
  append_opened s sync r (ok, m, files) = elim m.writer [
    | none ↦ none
    | some w ↦ append_record s sync r m files w
  ]

  -- `none` is a failed assertion: another mode, or a key whose length has no 32 bits.
  unfoldable pub log_write : System → Bool → LogRecord → Manager → LogFiles → Option Result
  unfolding open_writer append_opened
  log_write s sync r m files =
      if is_mode m.mode write && ltb (length r.key) (2 ^ 32)
      then append_opened s sync r (open_writer s m files)
      else none

-- The version before the increment comes back.
unfoldable pub increment_log_version : Manager → Option (ℕ × Manager)
increment_log_version m =
    if is_mode m.mode write
    then some (
      m.active_log_version,
      record m {
        log_versions = m.log_versions ++ (m.active_log_version ∷ []);
        active_log_version = next_version m.active_log_version;
        log_dir_writer_synced = false;
        writer = none;
      },
    )
    else none

unfoldable pub discard_all_for_clean_shutdown : System → Manager → LogFiles → Result
unfolding discard_up_to_inclusive
discard_all_for_clean_shutdown s m files =
    if is_mode m.mode write
    then discard_up_to_inclusive s m.active_log_version
        (record m { writer = none; log_versions = m.log_versions ++ (m.active_log_version ∷ []) })
        files
    else (ok, m, files)
