-- ===== src/Locks/Pages/Holders.antt =====
-- The specification of a page lock, by the compatibility table of page_grouping/lock_manager.h, and the
-- counters of one page against the list of its holders.
use treeline.Prelude.{
  ℕ, ◌+◌, ◌-◌, ◌<◌, ◌≡◌, refl, Bool, true, false, ◌&&◌, ◌||◌, not, Option, none, some, List, [],
  ◌∷◌, ◌==◌, ltb, if◌then◌else◌, arith, length,
}
use treeline.Locks.Modes.{
  PageMode, shared, exclusive, PageLockState, unlocked_page, initial_page_state, request_page,
  drop_page, is_page_unlocked,
}
use treeline.Locks.Table.{is_some, flag_of, entry_uprase, entry_update}
use treeline.Locks.Pages.{acquire_closure, release_closure}

abbrev pub compatible : PageMode → PageMode → Bool
compatible shared shared = true
compatible shared exclusive = false
compatible exclusive held = false

abbrev pub all_compatible : PageMode → List PageMode → Bool
all_compatible mode [] = true
all_compatible mode (held ∷ hs) = compatible mode held && all_compatible mode hs

abbrev pub same : PageMode → PageMode → Bool
same shared shared = true
same exclusive exclusive = true
same a b = false

abbrev pub count : PageMode → List PageMode → ℕ
count mode [] = 0
count mode (held ∷ hs) = (if same mode held then 1 else 0) + count mode hs

abbrev pub remove : PageMode → List PageMode → List PageMode
remove mode [] = []
remove mode (held ∷ hs) = if same mode held then hs else held ∷ remove mode hs

length-eq-counts : (hs : List PageMode) → length hs ≡ count shared hs + count exclusive hs
length-eq-counts [] = omega arith
length-eq-counts (shared ∷ hs) = omega (arith, length-eq-counts hs)
length-eq-counts (exclusive ∷ hs) = omega (arith, length-eq-counts hs)

count-remove :
    (mode other : PageMode) (hs : List PageMode)
    → 0 < count mode hs
    → count other (remove mode hs) ≡ count other hs - (if same mode other then 1 else 0)
count-remove mode other [] h = absurd (omega arith)
count-remove mode other (held ∷ hs) h = ground (arith, count-remove mode other hs)

shared_compatible : (hs : List PageMode) → all_compatible shared hs ≡ (count exclusive hs == 0)
shared_compatible [] = refl
shared_compatible (held ∷ hs) = ground (arith, shared_compatible hs)

exclusive_compatible :
    (hs : List PageMode)
    → all_compatible exclusive hs ≡ (count exclusive hs == 0 && count shared hs == 0)
exclusive_compatible [] = refl
exclusive_compatible (held ∷ hs) = ground (arith, exclusive_compatible hs)

abbrev pub counters : Option PageLockState → PageLockState
counters none = unlocked_page
counters (some s) = s

-- The entry of a page holds the number of holders of each mode, is there exactly when there is a
-- holder, and an exclusive holder is alone.
pub record Tracks (o : Option PageLockState) (hs : List PageMode) : Type 0 where
  pub shares : (counters o).num_shared ≡ count shared hs
  pub exclusives : (counters o).num_exclusive ≡ count exclusive hs
  pub present : is_some o ≡ ltb 0 (length hs)
  pub alone : 0 < count exclusive hs → length hs ≡ 1

abbrev pub granted : PageMode → Option PageLockState → Bool
granted mode o = not (is_some o) || flag_of (acquire_closure mode) o

pub idle-Tracks : Tracks none []
idle-Tracks = ground arith

module _ (o : Option PageLockState) (hs : List PageMode) (v : Tracks o hs) where
  pub granted_iff_compatible : (mode : PageMode) → granted mode o ≡ all_compatible mode hs
  unfolding request_page
  granted_iff_compatible shared = ground (arith, shared_compatible hs, length-eq-counts hs)
  granted_iff_compatible exclusive = ground (arith, exclusive_compatible hs, length-eq-counts hs)

  pub acquire-Tracks :
      (mode : PageMode)
      → length hs < 65535
      → Tracks
          (entry_uprase (acquire_closure mode) (initial_page_state mode) o)
          (if all_compatible mode hs then mode ∷ hs else hs)
  unfolding request_page initial_page_state
  acquire-Tracks shared small = ground (arith, shared_compatible hs, length-eq-counts hs)
  acquire-Tracks exclusive small = ground (arith, exclusive_compatible hs, length-eq-counts hs)

  pub release-Tracks :
      (mode : PageMode)
      → 0 < count mode hs
      → length hs < 65536
      → Tracks (entry_update (release_closure mode) o) (remove mode hs)
  unfolding drop_page is_page_unlocked
  release-Tracks shared held small = ground (
    arith,
    length-eq-counts hs,
    length-eq-counts (remove shared hs),
    count-remove shared shared hs,
    count-remove shared exclusive hs,
  )
  release-Tracks exclusive held small = ground (
    arith,
    length-eq-counts hs,
    length-eq-counts (remove exclusive hs),
    count-remove exclusive shared hs,
    count-remove exclusive exclusive hs,
  )
