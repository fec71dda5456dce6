-- ===== src/RecordCache.antt =====
-- record_cache/record_cache_entry.{h,cc} and record_cache/record_cache.cc: the metadata of a cached
-- record, and the choice of the entry to evict.
-- The metadata is a byte; `|` and `&` with a mask act on single digits of it and are written as sums and
-- remainders. A loop on `compare_exchange_weak` is one round, as no other thread is modelled.
pub mod Metadata
pub mod Priorities
pub mod Clock
pub mod Put
pub mod Cache
pub mod Coherent
pub mod Install
pub mod WriteOne
pub mod Scan
pub mod Flush
pub mod ReadWrite
pub mod Refines
use treeline.Prelude.{
  ℕ, zero, suc, ◌+◌, ◌-◌, ◌*◌, ◌/◌, ◌%◌, ◌^◌, ◌<◌, Bool, true, false, not, ◌&&◌, ◌||◌, Option, none,
  some, List, [], ◌∷◌, ◌==◌, ltb, leb, if◌then◌else◌, length, get_or, set,
}

abbrev pub valid_mask : ℕ
valid_mask = 0x80

abbrev pub dirty_mask : ℕ
dirty_mask = 0x40

abbrev pub write_type_mask : ℕ
write_type_mask = 0x20

abbrev pub priority_mask : ℕ
priority_mask = 0x07

-- The test of one bit, and setting and unsetting it.
abbrev pub has_bit : ℕ → ℕ → Bool
has_bit mask m = m / mask % 2 == 1

abbrev pub without_bit : ℕ → ℕ → ℕ
without_bit mask m = m - (m / mask % 2) * mask

abbrev pub with_bit : ℕ → ℕ → ℕ
with_bit mask m = without_bit mask m + mask

unfoldable pub set_valid_to : ℕ → Bool → ℕ
set_valid_to m val = if val then with_bit valid_mask m else without_bit valid_mask m

unfoldable pub is_valid : ℕ → Bool
is_valid m = has_bit valid_mask m

unfoldable pub set_dirty_to : ℕ → Bool → ℕ
set_dirty_to m val = if val then with_bit dirty_mask m else without_bit dirty_mask m

unfoldable pub is_dirty : ℕ → Bool
is_dirty m = has_bit dirty_mask m

-- The argument is whether the type is that of a deletion.
unfoldable pub set_write_type : ℕ → Bool → ℕ
set_write_type m is_delete =
    if is_delete then with_bit write_type_mask m else without_bit write_type_mask m

unfoldable pub is_delete : ℕ → Bool
is_delete m = has_bit write_type_mask m

unfoldable pub get_priority : ℕ → ℕ
get_priority m = m % 8

-- A priority that has more than three bits gives the highest, and the result false.
unfoldable pub set_priority_to : ℕ → ℕ → Bool × ℕ
set_priority_to m priority =
    if leb priority priority_mask
    then (true, m - m % 8 + priority)
    else (false, m - m % 8 + priority_mask)

unfoldable pub increment_priority : ℕ → Bool → ℕ × ℕ
unfolding get_priority
increment_priority m return_post =
    let old = get_priority m in
    if old == priority_mask then (old, m) else (if return_post then old + 1 else old, m + 1)

unfoldable pub decrement_priority : ℕ → Bool → ℕ × ℕ
unfolding get_priority
decrement_priority m return_post =
    let old = get_priority m in
    if old == 0 then (old, m) else (if return_post then old - 1 else old, m - 1)

-- The metadata of an entry that `Put` fills; `found` is whether it held the key before.
unfoldable pub put_metadata : ℕ → Bool → Bool → Bool → ℕ → ℕ
unfolding set_valid_to set_dirty_to is_dirty set_write_type set_priority_to
put_metadata m found dirty is_delete priority =
    let valid = set_valid_to m true in
    let marked = set_dirty_to valid (if found then dirty || is_dirty valid else dirty) in
    let typed = if dirty then set_write_type marked is_delete else marked in
    (set_priority_to typed priority).1

-- The metadata of the entries, in their order, and the clock, which wraps at 64 bits.
pub record Clocked : Type 0 where
  pub metadata : List ℕ
  pub clock : ℕ

-- The index that the clock shows, and the clock moved on.
abbrev pub hand : Clocked → ℕ
hand c = c.clock % length c.metadata

abbrev pub tick : Clocked → Clocked
tick c = record c { clock = (c.clock + 1) % 2 ^ 64 }

abbrev pub entry : Clocked → ℕ → ℕ
entry c i = get_or c.metadata i 0

abbrev pub decrement_at : ℕ → Clocked → Clocked
decrement_at i c = record c { metadata = set c.metadata i (decrement_priority (entry c i) false).1 }

-- The first loop, on fuel; `none` is a loop that is cut off.
unfoldable pub find_candidate : ℕ → Clocked → Option (ℕ × Clocked)
unfolding get_priority decrement_priority
find_candidate zero c = none
find_candidate (suc fuel) c =
    let more = find_candidate fuel (decrement_at (hand c) (tick c)) in
    if get_priority (entry c (hand c)) == 0 then some (hand c, tick c) else more

-- The second loop, which looks for an entry that is not dirty.
unfoldable pub look_ahead : ℕ → ℕ → Clocked → ℕ × Clocked
unfolding get_priority is_dirty decrement_priority
look_ahead zero candidate c = (candidate, c)
look_ahead (suc rounds) candidate c =
    let more = look_ahead rounds candidate (decrement_at (hand c) (tick c)) in
    if get_priority (entry c (hand c)) == 0 && not (is_dirty (entry c (hand c)))
    then (hand c, tick c)
    else more

-- `kDefaultEvictionLookahead`, or the capacity.
abbrev pub lookahead : Clocked → ℕ
lookahead c = if ltb (length c.metadata) 32 then length c.metadata else 32

unfoldable pub prefer_clean : Option (ℕ × Clocked) → Option (ℕ × Clocked)
unfolding look_ahead is_dirty
prefer_clean none = none
prefer_clean (some (candidate, c)) =
    if is_dirty (entry c candidate)
    then some (look_ahead (lookahead c) candidate c)
    else some (candidate, c)

-- The CLOCK policy; the queue of the other policy is util/hash_queue.h.
unfoldable pub select_for_eviction : ℕ → Clocked → Option (ℕ × Clocked)
unfolding find_candidate prefer_clean
select_for_eviction fuel c = prefer_clean (find_candidate fuel c)
