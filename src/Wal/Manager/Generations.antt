-- ===== src/Wal/Manager/Generations.antt =====
-- wal/manager.cc: the log directory as generations of records, each in the file of its version.
use treeline.Prelude.{
  ℕ, suc, ◌≤◌, ◌<◌, ◌≡◌, refl, ap, Bool, true, false, Option, none, some, List, [], ◌∷◌, inl, inr,
  ◌++◌, ◌==◌, if◌then◌else◌, arith, All, All-append, Bool-cases, map, ◌||◌,
}
use treeline.Wal.Format.{Crc}
use treeline.Wal.Writer.{Writer, make_writer, add_entries}
use treeline.Wal.Manager.{LogRecord, LogFiles, put_file, serialize}
use treeline.Wal.Manager.Versions.{occurrences, one_if, IsSorted, at_least}

abbrev pub Generation : Type 0
Generation = ℕ × List LogRecord

abbrev pub versions_of : List Generation → List ℕ
versions_of [] = []
versions_of ((v, rs) ∷ gens) = v ∷ versions_of gens

abbrev pub has_version : ℕ → List Generation → Bool
has_version v [] = false
has_version v ((u, rs) ∷ gens) = v == u || has_version v gens

-- The versions of the generations that have records, which are those that have a file.
abbrev pub versions_with_records : List Generation → List ℕ
versions_with_records [] = []
versions_with_records ((v, []) ∷ gens) = versions_with_records gens
versions_with_records ((v, r ∷ rs) ∷ gens) = v ∷ versions_with_records gens

abbrev pub records_of : List Generation → List LogRecord
records_of [] = []
records_of ((v, rs) ∷ gens) = rs ++ records_of gens

-- Every version is above the number, and each above the one before it.
abbrev pub Ascends : ℕ → List Generation → Type 0
Ascends n [] = Unit {0}
Ascends n ((v, rs) ∷ gens) = (n ≤ v) × Ascends (suc v) gens

pub Ascends-last :
    (gens : List Generation) (a n : ℕ) (rs rs' : List LogRecord)
    → Ascends n (gens ++ ((a, rs) ∷ []))
    → Ascends n (gens ++ ((a, rs') ∷ []))
Ascends-last [] a n rs rs' h = h
Ascends-last ((v, rs0) ∷ gens) a n rs rs' h = (h.0, Ascends-last gens a (suc v) rs rs' h.1)

last_above :
    (gens : List Generation) (a n : ℕ) (rs : List LogRecord)
    → Ascends n (gens ++ ((a, rs) ∷ []))
    → n ≤ a
last_above [] a n rs h = h.0
last_above ((v, rs0) ∷ gens) a n rs h = let below = last_above gens a (suc v) rs h.1 in omega arith

pub Ascends-push :
    (gens : List Generation) (a b n : ℕ) (rs rs' : List LogRecord)
    → a < b
    → Ascends n (gens ++ ((a, rs) ∷ []))
    → Ascends n ((gens ++ ((a, rs) ∷ [])) ++ ((b, rs') ∷ []))
Ascends-push [] a b n rs rs' h k = (k.0, (h, tt))
Ascends-push ((v, rs0) ∷ gens) a b n rs rs' h k = (k.0, Ascends-push gens a b (suc v) rs rs' h k.1)

has_version-append :
    (v : ℕ) (gens gens' : List Generation)
    → has_version v (gens ++ gens') ≡ has_version v gens || has_version v gens'
has_version-append v [] gens' = refl
has_version-append v ((u, rs) ∷ gens) gens' = ground (arith, has_version-append v gens gens')

pub versions_with_records-IsSorted :
    (gens : List Generation) (n : ℕ)
    → Ascends n gens
    → All (λ v. n ≤ v) (versions_with_records gens) × IsSorted (versions_with_records gens)
versions_with_records-IsSorted [] n a = (tt, tt)
versions_with_records-IsSorted ((v, []) ∷ gens) n a =
    let (least, sorted) = versions_with_records-IsSorted gens (suc v) a.1 in
    (at_least n (suc v) (versions_with_records gens) (omega arith) least, sorted)
versions_with_records-IsSorted ((v, r ∷ rs) ∷ gens) n a =
    let (least, sorted) = versions_with_records-IsSorted gens (suc v) a.1 in
    let versions = versions_with_records gens in
    (
      (a.0, at_least n (suc v) versions (omega arith) least),
      (at_least v (suc v) versions (omega arith) least, sorted),
    )

module _ (c : Crc) (block_size : ℕ) where
  abbrev pub Written : List LogRecord → Writer → Type 0
  Written rs w = add_entries c block_size make_writer (map serialize rs) ≡ some w

  abbrev pub Image : List LogRecord → Option (List ℕ) → Type 0
  Image [] file = file ≡ none
  Image (r ∷ rs) file = (w : Writer) × Written (r ∷ rs) w × (file ≡ some w.log)

  abbrev pub Images : List Generation → LogFiles → Type 0
  Images gens files = All (λ (g : Generation). Image g.1 (files g.0)) gens

  -- Each generation with records has its file, and there are no other files.
  pub record Covers (gens : List Generation) (files : LogFiles) : Type 0 where
    pub images : Images gens files
    pub others : (v : ℕ) → has_version v gens ≡ false → files v ≡ none

  -- A file that no generation has can change.
  pub Images-put :
      (gens : List Generation) (files : LogFiles) (u n : ℕ) (file : Option (List ℕ))
      → u < n
      → Ascends n gens
      → Images gens files
      → Images gens (put_file files u file)
  Images-put [] files u n file h a im = tt
  Images-put ((v, rs) ∷ gens) files u n file h a im =
      let differs : (v == u) ≡ false = ground arith in
      (rw differs im.0, Images-put gens files u (suc v) file (omega arith) a.1 im.1)

  -- The first generation goes with its file.
  pub Covers-tail :
      (v n : ℕ) (rs : List LogRecord) (gens : List Generation) (files : LogFiles)
      → Ascends n ((v, rs) ∷ gens)
      → Covers ((v, rs) ∷ gens) files
      → Covers gens (put_file files v none)
  Covers-tail v n rs gens files a k = record {
    images = Images-put gens files v (suc v) none (omega arith) a.1 k.images.1;
    others = λ u absent. ground (arith, k.others u);
  }

  pub Covers-tail_absent :
      (v : ℕ) (rs : List LogRecord) (gens : List Generation) (files : LogFiles)
      → Covers ((v, rs) ∷ gens) files
      → files v ≡ none
      → Covers gens files
  Covers-tail_absent v rs gens files k e = record {
    images = k.images.1;
    others = λ u absent. elim (Bool-cases (u == v)) [
      | inl same ↦ let at : u ≡ v = ground arith in rw at e
      | inr differs ↦ k.others u (rw differs absent)
    ];
  }

  -- The last generation, and its file, change.
  Images-last :
      (gens : List Generation) (files : LogFiles) (a n : ℕ) (rs rs' : List LogRecord)
      (file : Option (List ℕ))
      → Ascends n (gens ++ ((a, rs) ∷ []))
      → Image rs' file
      → Images (gens ++ ((a, rs) ∷ [])) files
      → Images (gens ++ ((a, rs') ∷ [])) (put_file files a file)
  Images-last [] files a n rs rs' file asc im ims =
      let same : (a == a) ≡ true = ground arith in (rw same im, tt)
  Images-last ((v, rs0) ∷ gens) files a n rs rs' file asc im ims =
      let above = last_above gens a (suc v) rs asc.1 in
      let differs : (v == a) ≡ false = ground arith in
      (rw differs ims.0, Images-last gens files a (suc v) rs rs' file asc.1 im ims.1)

  pub Covers-last :
      (gens : List Generation) (files : LogFiles) (a n : ℕ) (rs rs' : List LogRecord)
      (file : Option (List ℕ))
      → Ascends n (gens ++ ((a, rs) ∷ []))
      → Image rs' file
      → Covers (gens ++ ((a, rs) ∷ [])) files
      → Covers (gens ++ ((a, rs') ∷ [])) (put_file files a file)
  Covers-last gens files a n rs rs' file asc im k = record {
    images = Images-last gens files a n rs rs' file asc im k.images;
    others = λ v absent.
        let split = has_version-append v gens ((a, rs') ∷ []) in
        let split' = has_version-append v gens ((a, rs) ∷ []) in ground (arith, k.others v);
  }

  pub Covers-push :
      (gens : List Generation) (files : LogFiles) (b : ℕ)
      → has_version b gens ≡ false
      → Covers gens files
      → Covers (gens ++ ((b, []) ∷ [])) files
  Covers-push gens files b fresh k = record {
    images = All-append _ gens ((b, []) ∷ []) k.images (k.others b fresh, tt);
    others = λ v absent.
        let split = has_version-append v gens ((b, []) ∷ []) in ground (arith, k.others v);
  }

  no_version_below :
      (v n : ℕ) (gens : List Generation)
      → v < n
      → Ascends n gens
      → (has_version v gens ≡ false) × (occurrences v (versions_with_records gens) ≡ 0)
  no_version_below v n [] h a = (refl, refl)
  no_version_below v n ((u, []) ∷ gens) h a = ground (arith, no_version_below v (suc u) gens)
  no_version_below v n ((u, r ∷ rs) ∷ gens) h a = ground (arith, no_version_below v (suc u) gens)

  versions_once :
      (gens : List Generation) (files : LogFiles) (v n : ℕ)
      → Ascends n gens
      → Images gens files
      → occurrences v (versions_with_records gens)
        ≡ (if has_version v gens then one_if (files v) else 0)
  versions_once [] files v n a im = refl
  versions_once ((u, []) ∷ gens) files v n a im = elim (Bool-cases (v == u)) [
    | inl same ↦
        let at : v ≡ u = ground arith in
        let file : one_if (files v) ≡ 0 = rw at (ap one_if im.0) in
        let later = no_version_below v (suc u) gens (omega arith) a.1 in
        rw same (omega (arith, later.1, file))
    | inr differs ↦ rw differs (omega (arith, versions_once gens files v (suc u) a.1 im.1))
  ]
  versions_once ((u, r ∷ rs) ∷ gens) files v n a im = elim (Bool-cases (v == u)) [
    | inl same ↦
        let at : v ≡ u = ground arith in
        let file : one_if (files v) ≡ 1 = rw at (ap one_if im.0.2) in
        let later = no_version_below v (suc u) gens (omega arith) a.1 in
        rw same (omega (arith, later.1, file))
    | inr differs ↦ rw differs (omega (arith, versions_once gens files v (suc u) a.1 im.1))
  ]

  -- The files of the directory are those of the generations with records, each once.
  pub Covers-once :
      (gens : List Generation) (files : LogFiles) (n v : ℕ)
      → Ascends n gens
      → Covers gens files
      → occurrences v (versions_with_records gens) ≡ one_if (files v)
  Covers-once gens files n v a k =
      let counted = versions_once gens files v n a k.images in
      elim (Bool-cases (has_version v gens)) [
        | inl present ↦ ground (arith)
        | inr absent ↦ ground (arith, k.others v absent)
      ]

pub Ascends-weaken : (n m : ℕ) (gens : List Generation) → n ≤ m → Ascends m gens → Ascends n gens
Ascends-weaken n m [] h a = tt
Ascends-weaken n m ((v, rs) ∷ gens) h a = (omega arith, a.1)

pub no_version_above :
    (gens : List Generation) (a b n : ℕ) (rs : List LogRecord)
    → a < b
    → Ascends n (gens ++ ((a, rs) ∷ []))
    → has_version b (gens ++ ((a, rs) ∷ [])) ≡ false
no_version_above [] a b n rs h k = ground arith
no_version_above ((v, rs0) ∷ gens) a b n rs h k =
    let above = last_above gens a (suc v) rs k.1 in
    ground (arith, no_version_above gens a b (suc v) rs h k.1)
