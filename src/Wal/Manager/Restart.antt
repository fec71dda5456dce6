-- ===== src/Wal/Manager/Restart.antt =====
-- wal/manager.cc: the replay after a restart.
use treeline.Prelude.{
  ℕ, suc, ◌≤◌, ◌<◌, ◌≡◌, refl, ap, sym, ◌∙◌, true, some, List, [], ◌∷◌, ◌++◌, arith, All, map,
  length, length-map,
}
use treeline.Wal.Format.{Crc}
use treeline.Wal.Writer.{Writer}
use treeline.Wal.Reader.{make_reader}
use treeline.Wal.Logs.{read_all-add_entries}
use treeline.Wal.Manager.{
  LogRecord, LogFiles, Status, ok, posix_error, System, replay, Manager, make_manager, sort,
  prepare_for_replay, serialize, set_mode,
}
use treeline.Wal.Manager.Replay.{
  Callback, deliver, when_ok, replay_entries, replay_versions, replay_log, replay_entries-read_all,
}
use treeline.Wal.Manager.Serial.{Fits, enough-Fits, deliver-serialized, and_then-some}
use treeline.Wal.Manager.Versions.{Lists, sort-Lists}
use treeline.Wal.Manager.Generations.{
  Generation, versions_with_records, records_of, Written, Images, Covers-once,
  versions_with_records-IsSorted,
}
use treeline.Wal.Manager.Spec.{Log, generations, Works, Tracks}
use treeline.Wal.Manager.History.{collected}

-- Fuel for each record of a generation, and rounds for all of them and the end.
abbrev pub GenerationFits : ℕ → ℕ → Generation → Type 0
GenerationFits rounds fuel g = (length g.1 < rounds) × All (Fits fuel) g.1

module _ {ℓ} {S : Type ℓ} (callback : Callback S) where
  deliver-append :
      (xs ys : List LogRecord) (s : S)
      → deliver callback (xs ++ ys) s ≡ when_ok (deliver callback ys) (deliver callback xs s)
  deliver-append [] ys s = refl
  deliver-append (r ∷ xs) ys s = later (callback r s) (deliver-append xs ys)
    where
      later :
          (p : Status × S)
          → ((s' : S)
              → deliver callback (xs ++ ys) s'
                ≡ when_ok (deliver callback ys) (deliver callback xs s'))
          → when_ok (deliver callback (xs ++ ys)) p
            ≡ when_ok (deliver callback ys) (when_ok (deliver callback xs) p)
      later (ok, s') ih = ih s'
      later (posix_error e, s') ih = refl

  module _ (c : Crc) (block_size : ℕ) (big : 7 < block_size) (small : block_size < 65543)
      (rounds fuel : ℕ) (some_fuel : 1 ≤ fuel) where
    replay_file :
        (rs : List LogRecord) (w : Writer) (s : S)
        → GenerationFits rounds fuel (0, rs)
        → Written c block_size rs w
        → replay_entries c block_size callback rounds fuel (make_reader w.log 0) s
          ≡ some (deliver callback rs s)
    replay_file rs w s fits written =
        let (w', r, written', found, quiet) =
          read_all-add_entries c block_size true big small (map serialize rs) fuel
            (some_fuel, enough-Fits fuel rs fits.1) in
        let same : w' ≡ w = ground (arith, written', written) in
        ap (λ x. replay_entries c block_size callback rounds fuel (make_reader x.log 0) s)
          (sym same)
        ∙ (replay_entries-read_all c block_size callback (suc (length (map serialize rs))) rounds
              fuel (make_reader w'.log 0) r (map serialize rs) s
              (omega (arith, length-map rs serialize)) found
            ∙ deliver-serialized callback fuel rs s fits.1)

    replay_generations :
        (sys : System) (works : Works sys) (gens : List Generation) (files : LogFiles) (s : S)
        → All (GenerationFits rounds fuel) gens
        → Images c block_size gens files
        → replay_versions c block_size callback sys files rounds fuel (versions_with_records gens) s
          ≡ some (deliver callback (records_of gens) s)
    unfolding replay_versions
    replay_generations sys works [] files s fits im = refl
    replay_generations sys works ((v, []) ∷ gens) files s fits im =
        replay_generations sys works gens files s fits.1 im.1
    replay_generations sys works ((v, r ∷ rs) ∷ gens) files s fits im =
        let (w, written, file) = im.0 in
        let bytes = replay_file (r ∷ rs) w s fits.0 written in
        rw (works.open_read v, replay_versions)
          (rw (file, replay_versions)
            (rw (bytes, replay_versions)
              (and_then-some _ (deliver callback (records_of gens)) (deliver callback (r ∷ rs) s)
                  (λ s'. replay_generations sys works gens files s' fits.1 im.1)
                ∙ ap some (sym (deliver-append (r ∷ rs) (records_of gens) s)))))

    -- After a restart, with system calls that succeed, fuel and rounds for every record, and any listing
    -- of the directory that has each file once, a new manager's preparation and replay end, and the
    -- callback is called on the records of the log that the directory stands for, oldest first, each
    -- once, until it fails; the replay's status is that of its last call, or OK.
    pub replay-Tracks :
        (sys : System)
        → Works sys
        → (l : Log) (m : Manager) (files : LogFiles) (listing : List ℕ) (s : S)
        → Tracks c block_size l m files
        → Lists listing files
        → All (GenerationFits rounds fuel) (generations l)
        → (m' : Manager) × (prepare_for_replay sys listing make_manager ≡ some (ok, m'))
          × (replay_log c block_size callback sys files rounds fuel m' s
              ≡ some (deliver callback (records_of (generations l)) s))
    unfolding prepare_for_replay make_manager replay_log
    replay-Tracks sys works l m files listing s t listed fits =
        let gens = generations l in
        let sorted = versions_with_records-IsSorted gens 0 t.ascends in
        let versions =
          sort-Lists listing (versions_with_records gens) files listed sorted.1
            (λ v. Covers-once c block_size gens files 0 v t.ascends t.covers) in
        let ready = collected c block_size big small sys works listing make_manager in
        (
          record make_manager { mode = replay; log_versions = sort listing },
          ap (λ p. some (set_mode replay p)) ready,
          ap (λ vs. replay_versions c block_size callback sys files rounds fuel vs s) versions
              ∙ replay_generations sys works gens files s fits t.covers.images,
        )
