-- ===== src/Tests/Wal.antt =====
-- Runs of the write-ahead log.
use treeline.Prelude.{ℕ, ◌+◌, ◌%◌, ◌^◌, ◌<◌, ◌≡◌, true, some, List, [], ◌∷◌, ◌++◌, arith}
use treeline.Wal.Format.{Crc}
use treeline.Wal.Writer.{make_writer, add_entries, Writer}
use treeline.Wal.Reader.{Reader, make_reader}
use treeline.Wal.Entries.{read_entry, read_all}
use treeline.Wal.Ends.{Ends, read_entry-Ends}
use treeline.Wal.Logs.{read_all-add_entries}

abbrev pub total : List ℕ → ℕ
total [] = 0
total (x ∷ xs) = x + total xs

total-append : (xs ys : List ℕ) → total (xs ++ ys) ≡ total xs + total ys
total-append [] ys = omega arith
total-append (x ∷ xs) ys = omega (arith, total-append xs ys)

pub sum_extends :
    (xs ys : List ℕ)
    → ((0 + total xs) % 2 ^ 32 + total ys) % 2 ^ 32 ≡ (0 + total (xs ++ ys)) % 2 ^ 32
sum_extends xs ys = omega (arith, total-append xs ys)

pub sum_bound : (c : ℕ) (xs : List ℕ) → (c + total xs) % 2 ^ 32 < 2 ^ 32
sum_bound c xs = omega arith

-- A sum in place of the checksum.
abbrev pub sum : Crc
sum = record {
  extend = λ c xs. (c + total xs) % 2 ^ 32;
  extend-extend = sum_extends;
  extend_bound = sum_bound;
}

-- In blocks of 16 bytes the first entry takes two records.
abbrev payloads : List (List ℕ)
payloads = (1 ∷ 2 ∷ 3 ∷ 4 ∷ 5 ∷ 6 ∷ 7 ∷ 8 ∷ 9 ∷ 10 ∷ 11 ∷ 12 ∷ []) ∷ [] ∷ (5 ∷ []) ∷ []

read_all-add_entries_example :
    (w : Writer) × (r : Reader) × (add_entries sum 16 make_writer payloads ≡ some w)
    × (read_all sum 16 true 4 30 (make_reader w.log 0) ≡ some (payloads, r))
    × (r.drops ≡ [])
read_all-add_entries_example =
    read_all-add_entries sum 16 true (omega arith) (omega arith) payloads 30
      (omega arith, (omega arith, (omega arith, (omega arith, tt))))

-- A file that is no log.
abbrev noise : List ℕ
noise = 9 ∷ 9 ∷ 9 ∷ 9 ∷ 1 ∷ 0 ∷ 3 ∷ 7 ∷ 7 ∷ []

read_entry-Ends_example : Ends (read_entry sum 16 true 10 (make_reader noise 0))
unfolding make_reader
read_entry-Ends_example = read_entry-Ends sum 16 true 10 (make_reader noise 0) (omega arith)
