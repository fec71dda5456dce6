-- ===== src/Locks/Holders.antt =====
-- The specification of the segment locks: the modes in which a segment is held, and the table of
-- compatible modes in page_grouping/lock_manager.h.
use treeline.Prelude.{
  ℕ, ◌+◌, ◌-◌, ◌<◌, ◌≡◌, refl, Bool, true, false, ◌&&◌, List, [], ◌∷◌, ◌==◌, if◌then◌else◌, arith,
  length,
}
use treeline.Locks.Modes.{SegmentMode, page_read, page_write, reorg, reorg_exclusive}

-- The compatibility table: a requested mode against a held one.
abbrev pub compatible : SegmentMode → SegmentMode → Bool
compatible page_read reorg_exclusive = false
compatible page_read held = true
compatible page_write page_read = true
compatible page_write page_write = true
compatible page_write held = false
compatible reorg page_read = true
compatible reorg held = false
compatible reorg_exclusive held = false

abbrev pub all_compatible : SegmentMode → List SegmentMode → Bool
all_compatible mode [] = true
all_compatible mode (held ∷ hs) = compatible mode held && all_compatible mode hs

abbrev pub same : SegmentMode → SegmentMode → Bool
same page_read page_read = true
same page_write page_write = true
same reorg reorg = true
same reorg_exclusive reorg_exclusive = true
same a b = false

abbrev pub count : SegmentMode → List SegmentMode → ℕ
count mode [] = 0
count mode (held ∷ hs) = (if same mode held then 1 else 0) + count mode hs

-- One holder of the mode lets go.
abbrev pub remove : SegmentMode → List SegmentMode → List SegmentMode
remove mode [] = []
remove mode (held ∷ hs) = if same mode held then hs else held ∷ remove mode hs

pub length-eq-counts :
    (hs : List SegmentMode)
    → length hs
      ≡ count page_read hs + count page_write hs + count reorg hs + count reorg_exclusive hs
length-eq-counts [] = omega arith
length-eq-counts (page_read ∷ hs) = omega (arith, length-eq-counts hs)
length-eq-counts (page_write ∷ hs) = omega (arith, length-eq-counts hs)
length-eq-counts (reorg ∷ hs) = omega (arith, length-eq-counts hs)
length-eq-counts (reorg_exclusive ∷ hs) = omega (arith, length-eq-counts hs)

count-remove :
    (mode other : SegmentMode) (hs : List SegmentMode)
    → 0 < count mode hs
    → count other (remove mode hs) ≡ count other hs - (if same mode other then 1 else 0)
count-remove mode other [] h = absurd (omega arith)
count-remove mode other (held ∷ hs) h = ground (arith, count-remove mode other hs)

-- The four counts, and the length, after one holder has let go.
pub counts-remove :
    (mode : SegmentMode) (hs : List SegmentMode)
    → 0 < count mode hs
    → let hs' = remove mode hs in
      (count page_read hs' ≡ count page_read hs - (if same mode page_read then 1 else 0))
      × (count page_write hs' ≡ count page_write hs - (if same mode page_write then 1 else 0))
      × (count reorg hs' ≡ count reorg hs - (if same mode reorg then 1 else 0))
      × (count reorg_exclusive hs'
          ≡ count reorg_exclusive hs - (if same mode reorg_exclusive then 1 else 0))
      × (length hs'
          ≡ count page_read hs'
            + count page_write hs'
            + count reorg hs'
            + count reorg_exclusive hs')
counts-remove mode hs h = (
  count-remove mode page_read hs h,
  count-remove mode page_write hs h,
  count-remove mode reorg hs h,
  count-remove mode reorg_exclusive hs h,
  length-eq-counts (remove mode hs),
)

pub page_read_compatible :
    (hs : List SegmentMode) → all_compatible page_read hs ≡ (count reorg_exclusive hs == 0)
page_read_compatible [] = refl
page_read_compatible (held ∷ hs) = ground (arith, page_read_compatible hs)

pub page_write_compatible :
    (hs : List SegmentMode)
    → all_compatible page_write hs ≡ (count reorg hs == 0 && count reorg_exclusive hs == 0)
page_write_compatible [] = refl
page_write_compatible (held ∷ hs) = ground (arith, page_write_compatible hs)

pub reorg_compatible :
    (hs : List SegmentMode)
    → all_compatible reorg hs
      ≡ (count page_write hs == 0 && count reorg hs == 0 && count reorg_exclusive hs == 0)
reorg_compatible [] = refl
reorg_compatible (held ∷ hs) = ground (arith, reorg_compatible hs)

-- An exclusive holder is compatible with no request.
pub exclusive_compatible :
    (mode : SegmentMode) (hs : List SegmentMode)
    → 0 < count reorg_exclusive hs
    → all_compatible mode hs ≡ false
exclusive_compatible mode [] h = absurd (omega arith)
exclusive_compatible mode (held ∷ hs) h = ground (arith, exclusive_compatible mode hs)
