-- ===== src/Wal/Manager/Writes.antt =====
-- wal/manager.cc: `LogWrite`, which opens the log file at the first record of a generation.
use treeline.Prelude.{
  ℕ, ◌^◌, ◌≤◌, ◌<◌, ◌≡◌, refl, ap, ◌∙◌, Bool, true, false, Option, none, some, List, [], ◌∷◌, ◌++◌,
  ltb, if◌then◌else◌, arith, map, length, inl, inr, Option-cases, lt→ltb, ◌&&◌, ◌||◌, not,
}
use mathlib.Core.Path.{fun_ext}
use mathlib.Core.List.{map-append}
use treeline.Wal.Format.{Crc}
use treeline.Wal.Writer.{Writer, make_writer, add_entry, add_entries}
use treeline.Wal.RoundTrip.{entry-Written}
use treeline.Wal.Manager.{
  LogRecord, LogFiles, put_file, serialize, ok, System, write, Manager, log_write, open_writer,
  append_opened, append_record, sync_directory, mark_synced, is_mode,
}
use treeline.Wal.Manager.Generations.{Generation, Images, Written, Image}
use treeline.Wal.Manager.Spec.{Works, HasWriter}

-- What a write does not change.
pub record Same (m m' : Manager) : Type 0 where
  pub mode : m'.mode ≡ m.mode
  pub versions : m'.log_versions ≡ m.log_versions
  pub active : m'.active_log_version ≡ m.active_log_version

put_file_twice :
    (files : LogFiles) (a : ℕ) (x y : Option (List ℕ))
    → put_file (put_file files a x) a y ≡ put_file files a y
put_file_twice files a x y = fun_ext (λ v. ground arith)

module _ (c : Crc) (block_size : ℕ) (big : 7 < block_size) (small : block_size < 65543) where
  entry_added :
      (payload : List ℕ) (w : Writer)
      → w.block_offset ≤ block_size
      → (w' : Writer) × (add_entry c block_size w payload ≡ some w')
        × (w'.block_offset ≤ block_size)
  unfolding add_entry
  entry_added payload w h =
      let (w', bytes, e, l, fits, reads) = entry-Written c block_size true big small w payload h in
      (w', e, fits)

  entries_fit :
      (payloads : List (List ℕ)) (w w' : Writer)
      → w.block_offset ≤ block_size
      → add_entries c block_size w payloads ≡ some w'
      → w'.block_offset ≤ block_size
  unfolding add_entries
  entries_fit [] w w' h e = ground arith
  entries_fit (payload ∷ payloads) w w' h e =
      let (w1, added, fits) = entry_added payload w h in
      let rest : add_entries c block_size w1 payloads ≡ some w' = ground (arith, added) in
      entries_fit payloads w1 w' fits rest

  entries-append :
      (payloads : List (List ℕ)) (payload : List ℕ) (w w1 : Writer)
      → add_entries c block_size w payloads ≡ some w1
      → add_entries c block_size w (payloads ++ (payload ∷ []))
        ≡ add_entries c block_size w1 (payload ∷ [])
  unfolding add_entries
  entries-append [] payload w w1 e = let same : w ≡ w1 = ground arith in rw same refl
  entries-append (p ∷ payloads) payload w w1 e = elim (Option-cases (add_entry c block_size w p)) [
    | inl q ↦ absurd (ground arith)
    | inr (w', q) ↦
        let rest : add_entries c block_size w' payloads ≡ some w1 = ground arith in
        rw (q, add_entries) (entries-append payloads payload w' w1 rest)
  ]

  pub last-Image :
      (gens : List Generation) (files : LogFiles) (a : ℕ) (rs : List LogRecord)
      → Images c block_size (gens ++ ((a, rs) ∷ [])) files
      → Image c block_size rs (files a)
  last-Image [] files a rs im = im.0
  last-Image (g ∷ gens) files a rs im = last-Image gens files a rs im.1

  module _ (s : System) (works : Works s) where
    synced_or_not :
        (done : Bool) (m : Manager) (files : LogFiles)
        → (m' : Manager) × ((if done then (ok, m, files) else mark_synced ok m files)
            ≡ (ok, m', files))
          × Same m m'
          × (m'.writer ≡ m.writer)
    synced_or_not true m files =
        (m, refl, record { mode = refl; versions = refl; active = refl }, refl)
    synced_or_not false m files = (
      record m { log_dir_writer_synced = true },
      refl,
      record { mode = refl; versions = refl; active = refl },
      refl,
    )

    sync_lem :
        (sync : Bool) (m : Manager) (files : LogFiles)
        → (m' : Manager) × (sync_directory s sync ok m files ≡ (ok, m', files))
          × Same m m'
          × (m'.writer ≡ m.writer)
    unfolding sync_directory
    sync_lem sync m files =
        let done = not sync || m.log_dir_writer_synced in
        let (m', e, same, writer) = synced_or_not done m files in
        (
          m',
          ap (λ q. if done then (ok, m, files) else mark_synced q m files) works.sync_dir ∙ e,
          same,
          writer,
        )

    open_lem :
        (current : List LogRecord) (m : Manager) (files : LogFiles)
        → HasWriter c block_size current m.writer
        → Image c block_size current (files m.active_log_version)
        → (w : Writer) × (m1 : Manager) × (files1 : LogFiles) × (open_writer s m files
            ≡ (ok, m1, files1))
          × Written c block_size current w
          × (m1.writer ≡ some w)
          × Same m m1
          × ((x : Option (List ℕ))
              → put_file files1 m.active_log_version x ≡ put_file files m.active_log_version x)
    unfolding open_writer add_entries
    open_lem [] m files no_writer no_file = (
      make_writer,
      record m { writer = some make_writer },
      put_file files m.active_log_version (some []),
      rw (no_writer, open_writer)
          (rw (works.open_write m.active_log_version, open_writer) (rw no_file refl)),
      refl,
      refl,
      record { mode = refl; versions = refl; active = refl },
      λ x. put_file_twice files m.active_log_version (some []) x,
    )
    open_lem (r ∷ rs) m files (w, written, opened) (w', written', file) = (
      w,
      m,
      files,
      rw opened refl,
      written,
      opened,
      record { mode = refl; versions = refl; active = refl },
      λ x. refl,
    )

    append_lem :
        (sync : Bool) (r : LogRecord) (current : List LogRecord) (m : Manager) (files : LogFiles)
        (w : Writer)
        → Written c block_size current w
        → m.writer ≡ some w
        → (w' : Writer) × (m' : Manager) × (append_opened c block_size s sync r (ok, m, files)
            ≡ some (ok, m', put_file files m.active_log_version (some w'.log)))
          × Written c block_size (current ++ (r ∷ [])) w'
          × (m'.writer ≡ some w')
          × Same m m'
    unfolding append_opened add_entries
    append_lem sync r current m files w written opened =
        let fits = entries_fit (map serialize current) make_writer w (omega arith) written in
        let (w', added, fits') = entry_added (serialize r) w fits in
        let files' = put_file files m.active_log_version (some w'.log) in
        let (m', synced, same, writer) = sync_lem sync (record m { writer = some w' }) files' in
        let joined : Written c block_size (current ++ (r ∷ [])) w' =
          rw (map-append serialize current (r ∷ [])) (
            entries-append (map serialize current) (serialize r) make_writer w written
            ∙ (rw (added, add_entries) refl)) in
        (
          w',
          m',
          rw (opened, append_opened)
              (rw (added, append_record)
                (rw (works.append m.active_log_version, append_record) (ap some synced))),
          joined,
          writer,
          record { mode = same.mode; versions = same.versions; active = same.active },
        )

    -- A write adds the record to the current generation.
    pub log_write_lem :
        (sync : Bool) (r : LogRecord) (current : List LogRecord) (m : Manager) (files : LogFiles)
        → m.mode ≡ write
        → length r.key < 2 ^ 32
        → HasWriter c block_size current m.writer
        → Image c block_size current (files m.active_log_version)
        → (w : Writer) × (m' : Manager) × (log_write c block_size s sync r m files
            ≡ some (ok, m', put_file files m.active_log_version (some w.log)))
          × Written c block_size (current ++ (r ∷ [])) w
          × (m'.writer ≡ some w)
          × Same m m'
    unfolding log_write
    log_write_lem sync r current m files mode short has_writer image =
        let (w, m1, files1, opened, written, writer, same, puts) =
          open_lem current m files has_writer image in
        let (w', m', appended, written', writer', same') =
          append_lem sync r current m1 files1 w written writer in
        let test : (is_mode m.mode write && ltb (length r.key) (2 ^ 32)) ≡ true =
          rw mode (lt→ltb _ _ short) in
        let put : put_file files1 m1.active_log_version (some w'.log)
            ≡ put_file files m.active_log_version (some w'.log) =
          ap (λ a. put_file files1 a (some w'.log)) same.active ∙ puts (some w'.log) in
        (
          w',
          m',
          ap (λ q. if q then append_opened c block_size s sync r (open_writer s m files) else none)
                test
              ∙ (ap (append_opened c block_size s sync r) opened
                  ∙ (appended ∙ ap (λ f. some (ok, m', f)) put)),
          written',
          writer',
          record {
            mode = same'.mode ∙ same.mode;
            versions = same'.versions ∙ same.versions;
            active = same'.active ∙ same.active;
          },
        )
