-- ===== src/PageBuffer.antt =====
-- page_grouping/circular_page_buffer.h: page-sized slots handed out and taken back in a ring.
pub mod Window
pub mod Order
use treeline.Prelude.{
  ℕ, ◌+◌, ◌-◌, Bool, true, false, ◌&&◌, not, Option, none, some, ◌==◌, ltb, leb, if◌then◌else◌,
}

-- A page is its index: `base_ + index * Page::kSize` in the source.
pub record PageBuffer : Type 0 where
  pub num_pages : ℕ
  pub head_idx : ℕ
  pub tail_idx : ℕ
  pub free_pages : ℕ

unfoldable pub make_page_buffer : ℕ → PageBuffer
make_page_buffer num_pages = record {
  num_pages = num_pages;
  head_idx = 0;
  tail_idx = 0;
  free_pages = num_pages;
}

unfoldable pub num_allocated_pages : PageBuffer → ℕ
num_allocated_pages b = b.num_pages - b.free_pages

abbrev pub wrap : ℕ → ℕ → ℕ
wrap num_pages idx = if leb num_pages idx then 0 else idx

-- `none` is a failed assertion.
unfoldable pub allocate : PageBuffer → Option (ℕ × PageBuffer)
allocate b =
    if ltb 0 b.free_pages
    then some (
      b.head_idx,
      record b { head_idx = wrap b.num_pages (b.head_idx + 1); free_pages = b.free_pages - 1 },
    )
    else none

-- The body of `Free` below its assertions, as it runs where they are compiled out.
unfoldable pub free_unchecked : PageBuffer → PageBuffer
free_unchecked b = record b {
  tail_idx = wrap b.num_pages (b.tail_idx + 1);
  free_pages = b.free_pages + 1;
}

unfoldable pub free : PageBuffer → Option PageBuffer
unfolding num_allocated_pages free_unchecked
free b =
    if ltb 0 (num_allocated_pages b) && not (b.tail_idx == b.head_idx)
    then some (free_unchecked b)
    else none
