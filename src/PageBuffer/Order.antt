-- ===== src/PageBuffer/Order.antt =====
-- The page buffer hands out free pages and takes back the oldest one.
use treeline.Prelude.{
  ℕ, zero, suc, ◌+◌, ◌-◌, ◌<◌, ◌≡◌, ap, ◌⊎◌, inl, inr, none, some, [], ◌∷◌, ◌++◌, arith, ltb,
  Bool-cases, ◌∙◌,
}
use treeline.PageBuffer.{
  PageBuffer, wrap, make_page_buffer, num_allocated_pages, allocate, free, free_unchecked,
}
use treeline.PageBuffer.Window.{window, advance, window-suc, pages, IsValid, None}

advance-None :
    (n start count : ℕ)
    → start < n
    → count < n
    → None (advance n start count) (window n start count)
advance-None n start zero h k = tt
advance-None n start (suc count) h k = ground (arith, advance-None n (wrap n (start + 1)) count)

-- The window loses its first index when it starts one later.
window-pred :
    (n start count : ℕ)
    → 0 < count
    → window n start count ≡ start ∷ window n (wrap n (start + 1)) (count - 1)
window-pred n start zero h = absurd (omega arith)
window-pred n start (suc count) h = ap (λ k. start ∷ window n (wrap n (start + 1)) k) (omega arith)

-- A buffer of at least one page starts valid, with nothing allocated.
pub make-IsValid :
    (n : ℕ) → 0 < n → IsValid (make_page_buffer n) × (pages (make_page_buffer n) ≡ [])
unfolding make_page_buffer
make-IsValid n h = (ground arith, let e : n - n ≡ 0 = omega arith in rw e)

-- On a valid buffer `Allocate` fails exactly when no page is free. Otherwise it returns a page that is
-- not allocated, puts it behind the allocated ones, and the buffer stays valid.
pub allocate_lem :
    (b : PageBuffer)
    → IsValid b
    → ((b.free_pages ≡ 0) × (allocate b ≡ none))
      ⊎ ((p : ℕ) × (b' : PageBuffer) × (allocate b ≡ some (p, b'))
          × (p < b.num_pages)
          × None p (pages b)
          × (pages b' ≡ pages b ++ (p ∷ []))
          × IsValid b')
unfolding allocate
allocate_lem b v = elim (Bool-cases (ltb 0 b.free_pages)) [
  | inl some_free ↦ inr (
    b.head_idx,
    record b { head_idx = wrap b.num_pages (b.head_idx + 1); free_pages = b.free_pages - 1 },
    rw some_free,
    ground arith,
    rw v.head_place (advance-None b.num_pages b.tail_idx _ v.tail_bound (ground arith)),
    rw v.head_place (
        let e : b.num_pages - (b.free_pages - 1) ≡ suc (b.num_pages - b.free_pages) =
          ground arith in
        rw e (window-suc b.num_pages b.tail_idx _ v.tail_bound (ground arith))),
    ground arith,
  )
  | inr none_free ↦ inl (ground arith, rw none_free)
]

-- With a page allocated, the body of `Free` gives back the oldest one, and the buffer stays valid.
pub free_unchecked_lem :
    (b : PageBuffer)
    → IsValid b
    → 0 < num_allocated_pages b
    → (pages b ≡ b.tail_idx ∷ pages (free_unchecked b)) × IsValid (free_unchecked b)
unfolding num_allocated_pages free_unchecked
free_unchecked_lem b v h = (
  window-pred b.num_pages b.tail_idx (b.num_pages - b.free_pages) h
      ∙ ap (λ k. b.tail_idx ∷ window b.num_pages (wrap b.num_pages (b.tail_idx + 1)) k)
          (omega arith),
  ground arith,
)

-- On a valid buffer the assertions of `Free` hold exactly when some page is allocated and some page is
-- free: they reject a full buffer, although it has a page to give back.
pub free_lem :
    (b : PageBuffer)
    → IsValid b
    → ((0 < num_allocated_pages b) × (0 < b.free_pages) × (free b ≡ some (free_unchecked b)))
      ⊎ (((num_allocated_pages b ≡ 0) ⊎ (b.free_pages ≡ 0)) × (free b ≡ none))
unfolding free num_allocated_pages
free_lem b v = ground arith
