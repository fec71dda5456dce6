-- ===== src/Wal/Manager/Replay.antt =====
-- wal/manager.cc: `ReplayLog`, over the state that the callback keeps, and what it does to the entries
-- of one log file.
use treeline.Prelude.{
  ℕ, zero, suc, ◌≤◌, ◌≡◌, refl, ap, true, Option, none, some, List, [], ◌∷◌, if◌then◌else◌, arith,
  Option-cases, inl, inr,
}
use mathlib.Core.Path.{fun_ext}
use treeline.Wal.Format.{Crc}
use treeline.Wal.Reader.{Reader, make_reader}
use treeline.Wal.Entries.{Entry, read_entry, read_all}
use treeline.Wal.Manager.{
  LogRecord, Status, ok, posix_error, parse_entry, System, LogFiles, Manager, replay, is_mode,
}

abbrev pub Callback {ℓ} : Type ℓ → Type ℓ
Callback S = LogRecord → S → Status × S

-- `ENOENT`.
abbrev pub no_such_file : ℕ
no_such_file = 2

module _ {ℓ} {S : Type ℓ} where
  -- Goes on with `next` where the status is OK.
  abbrev pub and_then : (S → Option (Status × S)) → Status × S → Option (Status × S)
  and_then next (ok, s) = next s
  and_then next (posix_error e, s) = some (posix_error e, s)

  unfoldable pub handle_entry :
      Callback S → (S → Option (Status × S)) → List ℕ → S → Option (Status × S)
  unfolding parse_entry
  handle_entry callback next entry s = elim (parse_entry entry) [
    | none ↦ none
    | some none ↦ next s
    | some (some r) ↦ and_then next (callback r s)
  ]

  unfoldable pub handle_read :
      Callback S → (Reader → S → Option (Status × S)) → S → Entry → Option (Status × S)
  unfolding handle_entry
  handle_read callback next s none = none
  handle_read callback next s (some (none, r)) = some (ok, s)
  handle_read callback next s (some (some entry, r)) = handle_entry callback (next r) entry s

  module _ (c : Crc) (block_size : ℕ) (callback : Callback S) where
    -- The loop on `ReadEntry`; `none` is a loop that is cut off, or a failed assertion.
    unfoldable pub replay_entries : ℕ → ℕ → Reader → S → Option (Status × S)
    unfolding handle_read
    replay_entries zero fuel r s = none
    replay_entries (suc rounds) fuel r s =
        handle_read callback (replay_entries rounds fuel) s (read_entry c block_size true fuel r)

    -- The loop on the versions.
    unfoldable pub replay_versions : System → LogFiles → ℕ → ℕ → List ℕ → S → Option (Status × S)
    unfolding replay_entries
    replay_versions sys files rounds fuel [] s = some (ok, s)
    replay_versions sys files rounds fuel (v ∷ versions) s = elim (sys.open_reader v) [
      | posix_error e ↦ some (posix_error e, s)
      | ok ↦ elim (files v) [
        | none ↦ some (posix_error no_such_file, s)
        | some bytes ↦ elim (replay_entries rounds fuel (make_reader bytes 0) s) [
          | none ↦ none
          | some p ↦ and_then (replay_versions sys files rounds fuel versions) p
        ]
      ]
    ]

    unfoldable pub replay_log : System → LogFiles → ℕ → ℕ → Manager → S → Option (Status × S)
    unfolding replay_versions
    replay_log sys files rounds fuel m s =
        if is_mode m.mode replay
        then replay_versions sys files rounds fuel m.log_versions s
        else none

  abbrev pub when_ok : (S → Status × S) → Status × S → Status × S
  when_ok next (ok, s) = next s
  when_ok next (posix_error e, s) = (posix_error e, s)

  -- The callback on records, in order, until it fails.
  abbrev pub deliver : Callback S → List LogRecord → S → Status × S
  deliver callback [] s = (ok, s)
  deliver callback (r ∷ rs) s = when_ok (deliver callback rs) (callback r s)

  abbrev pub deliver_entries : Callback S → List (List ℕ) → S → Option (Status × S)
  deliver_entries callback [] s = some (ok, s)
  deliver_entries callback (entry ∷ entries) s =
      handle_entry callback (deliver_entries callback entries) entry s

  handle_entry_same :
      (callback : Callback S) (next next' : S → Option (Status × S)) (entry : List ℕ) (s : S)
      → ((s' : S) → next s' ≡ next' s')
      → handle_entry callback next entry s ≡ handle_entry callback next' entry s
  handle_entry_same callback next next' entry s same =
      ap (λ f. handle_entry callback f entry s) (fun_ext same)

  module _ (c : Crc) (block_size : ℕ) (callback : Callback S) where
    -- The loop gives the callback what a reader finds, entry by entry.
    pub replay_entries-read_all :
        (n rounds fuel : ℕ) (r r' : Reader) (entries : List (List ℕ)) (s : S)
        → n ≤ rounds
        → read_all c block_size true n fuel r ≡ some (entries, r')
        → replay_entries c block_size callback rounds fuel r s ≡ deliver_entries callback entries s
    unfolding replay_entries read_all
    replay_entries-read_all zero rounds fuel r r' entries s h e = cc
    replay_entries-read_all (suc n) zero fuel r r' entries s h e = absurd (omega arith)
    replay_entries-read_all (suc n) (suc rounds) fuel r r' entries s h e =
        elim (Option-cases (read_entry c block_size true fuel r)) [
          | inl q ↦ absurd (ground arith)
          | inr ((none, r1), q) ↦ let stop : entries ≡ [] = ground arith in rw (q, stop) refl
          | inr ((some entry, r1), q) ↦ elim (Option-cases (read_all c block_size true n fuel r1)) [
            | inl q' ↦ absurd (ground arith)
            | inr ((rest, r2), q') ↦
                let go_on : entries ≡ entry ∷ rest = ground arith in
                rw (q, go_on)
                  (handle_entry_same callback _ _ entry s
                    (λ s'. replay_entries-read_all n rounds fuel r1 r2 rest s' (omega arith) q'))
          ]
        ]
