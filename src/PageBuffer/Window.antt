-- ===== src/PageBuffer/Window.antt =====
-- The pages that are allocated, oldest first, as a window of the ring.
use treeline.Prelude.{
  ℕ, zero, suc, ◌+◌, ◌-◌, ◌≤◌, ◌<◌, ◌≡◌, ◌≢◌, List, [], ◌∷◌, ◌++◌, arith, leb, if◌then◌else◌,
}
use treeline.PageBuffer.{PageBuffer, wrap}

-- `count` indices from `start` on, going round at `n`.
abbrev pub window : ℕ → ℕ → ℕ → List ℕ
window n start zero = []
window n start (suc count) = start ∷ window n (wrap n (start + 1)) count

-- The index `count` steps after `start`.
abbrev pub advance : ℕ → ℕ → ℕ → ℕ
advance n start count = if leb n (start + count) then start + count - n else start + count

pub window-suc :
    (n start count : ℕ)
    → start < n
    → count < n
    → window n start (suc count) ≡ window n start count ++ (advance n start count ∷ [])
window-suc n start zero h k = ground arith
window-suc n start (suc count) h k = ground (arith, window-suc n (wrap n (start + 1)) count)

-- The allocated pages, oldest first.
abbrev pub pages : PageBuffer → List ℕ
pages b = window b.num_pages b.tail_idx (b.num_pages - b.free_pages)

pub record IsValid (b : PageBuffer) : Type 0 where
  pub free_bound : b.free_pages ≤ b.num_pages
  pub tail_bound : b.tail_idx < b.num_pages
  pub head_place : b.head_idx ≡ advance b.num_pages b.tail_idx (b.num_pages - b.free_pages)

abbrev pub None : ℕ → List ℕ → Type 0
None x [] = Unit {0}
None x (y ∷ ys) = (x ≢ y) × None x ys
