-- ===== src/Manager/Chains.antt =====
-- What the chains of a segment's pages read as, when one page of them is written.
use treeline.Prelude.{
  or_else, ℕ, ◌<◌, ◌≡◌, ◌≢◌, ◌⊎◌, inl, inr, refl, ap, sym, ◌∙◌, true, Option, none, some, subst,
  arith, Bool-cases,
}
use treeline.Segments.{SegmentId, is_valid}
use treeline.Manager.Store.{PageOps, address, find_on_overflow, find_on_chain}

module _ {Page V : Type 0} (o : PageOps Page V) (id : SegmentId) (n : ℕ) where
  abbrev pub main : ℕ → ℕ
  main j = address id j

  abbrev pub over : (ℕ → Page) → ℕ → SegmentId
  over d j = o.overflow (d (main j))

  abbrev pub chain : (ℕ → Page) → ℕ → ℕ → Option V
  chain d j key = find_on_chain o d (main j) key

  -- No overflow page of the segment is one of its pages, or the overflow page of another of them, and it has
  -- the boundaries of its page.
  pub record IsApart (d : ℕ → Page) : Type 0 where
    pub from_main :
        (i j : ℕ) → i < n → j < n → is_valid (over d i) ≡ true → address (over d i) 0 ≢ main j
    pub from_over :
        (i j : ℕ)
        → i < n
        → j < n
        → i ≢ j
        → is_valid (over d i) ≡ true
        → is_valid (over d j) ≡ true
        → address (over d i) 0 ≢ address (over d j) 0
    pub alike :
        (i k : ℕ)
        → i < n
        → is_valid (over d i) ≡ true
        → o.fits (d (address (over d i) 0)) k ≡ o.fits (d (main i)) k

  -- The pages of the segment have the same boundaries.
  abbrev pub SameFences : (ℕ → Page) → (ℕ → Page) → Type 0
  SameFences d d' = (j k : ℕ) → j < n → o.fits (d' (main j)) k ≡ o.fits (d (main j)) k

  -- Every key is found as before.
  pub record Keeps (d d' : ℕ → Page) : Type 0 where
    pub apart : IsApart d'
    pub fences : SameFences d d'
    pub on_main : (j k : ℕ) → j < n → o.get (d' (main j)) k ≡ o.get (d (main j)) k
    pub on_chain : (j k : ℕ) → j < n → chain d' j k ≡ chain d j k

  -- One key is written to the chain of the page `i`. Of the other keys, those within the boundaries of a page
  -- are found on it as before. The key is found there, or else what was found is found still, on the page
  -- itself.
  pub record Writes (d d' : ℕ → Page) (i key : ℕ) (v : V) : Type 0 where
    pub apart : IsApart d'
    pub fences : SameFences d d'
    pub on_main :
        (j k : ℕ)
        → j < n
        → o.fits (d (main j)) k ≡ true
        → k ≢ key
        → o.get (d' (main j)) k ≡ o.get (d (main j)) k
    pub on_chain :
        (j k : ℕ) → j < n → o.fits (d (main j)) k ≡ true → k ≢ key → chain d' j k ≡ chain d j k
    pub written :
        (chain d' i key ≡ some v)
        ⊎ ((chain d' i key ≡ chain d i key) × (o.get (d (main i)) key ≢ none))

  pub keep-Writes :
      (d d' d'' : ℕ → Page) (i key : ℕ) (v : V)
      → i < n
      → Keeps d d'
      → Writes d' d'' i key v
      → Writes d d'' i key v
  keep-Writes d d' d'' i key v h a b = record {
    apart = b.apart;
    fences = λ j k h. b.fences j k h ∙ a.fences j k h;
    on_main = λ j k h f e. b.on_main j k h (a.fences j k h ∙ f) e ∙ a.on_main j k h;
    on_chain = λ j k h f e. b.on_chain j k h (a.fences j k h ∙ f) e ∙ a.on_chain j k h;
    written = elim b.written [
      | inl now ↦ inl now
      | inr (same, there) ↦ inr (same ∙ a.on_chain i key h, λ e. there (a.on_main i key h ∙ e))
    ];
  }

  overflow_same :
      (d d' : ℕ → Page) (x : SegmentId) (k : ℕ)
      → (is_valid x ≡ true → o.get (d' (address x 0)) k ≡ o.get (d (address x 0)) k)
      → find_on_overflow o d' x k ≡ find_on_overflow o d x k
  overflow_same d d' x k h = elim (Bool-cases (is_valid x)) [
    | inl e ↦ rw e (h e)
    | inr e ↦ rw e refl
  ]

  pub chain_same :
      (d d' : ℕ → Page) (j k : ℕ)
      → over d' j ≡ over d j
      → o.get (d' (main j)) k ≡ o.get (d (main j)) k
      → (is_valid (over d j) ≡ true
          → o.get (d' (address (over d j) 0)) k ≡ o.get (d (address (over d j) 0)) k)
      → chain d' j k ≡ chain d j k
  chain_same d d' j k same here there =
      ap (λ x. or_else (o.get (d' (main j)) k) (find_on_overflow o d' x k)) same
      ∙ (ap (λ x. or_else x (find_on_overflow o d' (over d j) k)) here
          ∙ ap (or_else (o.get (d (main j)) k)) (overflow_same d d' (over d j) k there))

  pub IsApart-same :
      (d d' : ℕ → Page)
      → ((j : ℕ) → j < n → over d' j ≡ over d j)
      → SameFences d d'
      → ((j k : ℕ)
          → j < n
          → is_valid (over d j) ≡ true
          → o.fits (d' (address (over d j) 0)) k ≡ o.fits (d (address (over d j) 0)) k)
      → IsApart d
      → IsApart d'
  IsApart-same d d' same fences over_fences a = record {
    alike = λ i k h v.
        let before = sym (ap is_valid (same i h)) ∙ v in
        ap (λ x. o.fits (d' (address x 0)) k) (same i h)
        ∙ (over_fences i k h before ∙ (a.alike i k h before ∙ sym (fences i k h)));
    from_main = λ i j h k v.
        subst (λ x. address x 0 ≢ main j) (sym (same i h))
          (a.from_main i j h k (sym (ap is_valid (same i h)) ∙ v));
    from_over = λ i j h k e v w.
        subst (λ x. address x 0 ≢ address (over d' j) 0) (sym (same i h))
          (subst (λ x. address (over d i) 0 ≢ address x 0) (sym (same j k))
            (a.from_over i j h k e (sym (ap is_valid (same i h)) ∙ v)
              (sym (ap is_valid (same j k)) ∙ w)));
  }

  pub main_ne : (i j : ℕ) → i ≢ j → main i ≢ main j
  main_ne i j h = λ e. h (omega arith)
