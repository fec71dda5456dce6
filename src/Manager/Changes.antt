-- ===== src/Manager/Changes.antt =====
-- The writes to a segment's chains: to a page, and to its overflow page.
use treeline.Prelude.{
  same_or_not, or_else, ℕ, ◌<◌, ◌≡◌, ◌≢◌, ◌⊎◌, inl, inr, refl, ap, sym, ◌∙◌, subst, true, false,
  Option, none, some, ◌==◌, if◌then◌else◌, arith, update, update_self, update_ne,
}
use treeline.Segments.{SegmentId, is_valid}
use treeline.Manager.Store.{PageOps, address, find_on_overflow}
use treeline.Manager.Chains.{
  main, over, chain, IsApart, SameFences, Writes, chain_same, IsApart-same, main_ne,
}

module _ {Page V : Type 0} (o : PageOps Page V) (id : SegmentId) (n : ℕ) where
  get_other :
      (p q : Page) (key k : ℕ) (v : V)
      → o.put p key v ≡ some q
      → o.fits p key ≡ true
      → o.fits p k ≡ true
      → k ≢ key
      → o.get q k ≡ o.get p k
  get_other p q key k v e f f' h =
      let differs : (k == key) ≡ false = ground arith in
      o.get-put p q key k v e f f' ∙ ap (λ b. if b then some v else o.get p k) differs

  get_self :
      (p q : Page) (key : ℕ) (v : V)
      → o.put p key v ≡ some q
      → o.fits p key ≡ true
      → o.get q key ≡ some v
  get_self p q key v e f =
      let same : (key == key) ≡ true = ground arith in
      o.get-put p q key key v e f f ∙ ap (λ b. if b then some v else o.get p key) same

  -- Something of a segment's page that the written page has too.
  at_main :
      {A : Type 0} (f : Page → A) (d : ℕ → Page) (i j : ℕ) (p : Page)
      → (j ≡ i → f p ≡ f (d (main o id n i)))
      → f (update d (main o id n i) p (main o id n j)) ≡ f (d (main o id n j))
  at_main f d i j p e = elim (same_or_not i j) [
    | inl same ↦
        ap (λ k. f (update d (main o id n i) p (main o id n k))) same
        ∙ (ap f (update_self d (main o id n i) p)
            ∙ (e same ∙ ap (λ k. f (d (main o id n k))) (sym same)))
    | inr other ↦ ap f (update_ne d (main o id n i) (main o id n j) p (main_ne o id n j i other))
  ]

  -- A record is written to the page `i`.
  pub put_main :
      (d : ℕ → Page) (i key : ℕ) (v : V) (p : Page)
      → i < n
      → IsApart o id n d
      → o.fits (d (main o id n i)) key ≡ true
      → o.put (d (main o id n i)) key v ≡ some p
      → Writes o id n d (update d (main o id n i) p) i key v
        × ((j : ℕ) → j < n → over o id n (update d (main o id n i) p) j ≡ over o id n d j)
  put_main d i key v p h a f e =
      let m = main o id n i in
      let same : (j : ℕ) → over o id n (update d m p) j ≡ over o id n d j =
        λ j. at_main o.overflow d i j p (λ is_i. o.overflow-put (d m) p key v e) in
      let fences : SameFences o id n d (update d m p) =
        λ j k below. at_main (λ q. o.fits q k) d i j p (λ is_i. o.fits-put (d m) p key k v e) in
      let over_there : (j : ℕ)
          → j < n
          → is_valid (over o id n d j) ≡ true
          → update d m p (address (over o id n d j) 0) ≡ d (address (over o id n d j) 0) =
        λ j below valid.
          update_ne d m (address (over o id n d j) 0) p (a.from_main j i below h valid) in
      let there : (j k : ℕ)
          → o.fits (d (main o id n j)) k ≡ true
          → k ≢ key
          → o.get (update d m p (main o id n j)) k ≡ o.get (d (main o id n j)) k =
        λ j k f' differs.
          at_main (λ q. o.get q k) d i j p
            (λ is_i.
              get_other (d m) p key k v e f
                (subst (λ l. o.fits (d (main o id n l)) k ≡ true) is_i f') differs) in
      let now : o.get (update d m p m) key ≡ some v =
        ap (λ q. o.get q key) (update_self d m p) ∙ get_self (d m) p key v e f in
      (
        record {
          apart =
              IsApart-same o id n d (update d m p) (λ j k. same j) fences
                (λ j k below valid. ap (λ q. o.fits q k) (over_there j below valid)) a;
          fences = fences;
          on_main = λ j k below f' differs. there j k f' differs;
          on_chain = λ j k below f' differs.
              chain_same o id n d (update d m p) j k (same j) (there j k f' differs)
                (λ valid. ap (λ q. o.get q k) (over_there j below valid));
          written = inl (
              ap
                (λ x.
                  or_else x (find_on_overflow o (update d m p) (over o id n (update d m p) i) key))
                now);
        },
        λ j below. same j,
      )

  or_else_cases :
      (first : Option V) (v : V) (old : Option V)
      → (or_else first (some v) ≡ some v)
        ⊎ ((or_else first (some v) ≡ or_else first old) × (first ≢ none))
  or_else_cases none v old = inl refl
  or_else_cases (some w) v old = inr (refl, λ e. cc)

  -- A record is written to the overflow page of the page `i`.
  pub put_over :
      (d : ℕ → Page) (i key : ℕ) (v : V) (q : Page)
      → i < n
      → IsApart o id n d
      → is_valid (over o id n d i) ≡ true
      → o.fits (d (main o id n i)) key ≡ true
      → o.put (d (address (over o id n d i) 0)) key v ≡ some q
      → Writes o id n d (update d (address (over o id n d i) 0) q) i key v
        × ((j : ℕ)
            → j < n
            → over o id n (update d (address (over o id n d i) 0) q) j ≡ over o id n d j)
  put_over d i key v q h a valid f e =
      let x = over o id n d i in
      let d' = update d (address x 0) q in
      let here : (j : ℕ) → j < n → d' (main o id n j) ≡ d (main o id n j) = λ j below.
        update_ne d (address x 0) (main o id n j) q
          (λ same. a.from_main i j h below valid (sym same)) in
      let same : (j : ℕ) → j < n → over o id n d' j ≡ over o id n d j =
        λ j below. ap o.overflow (here j below) in
      let on_it : d' (address x 0) ≡ q = update_self d (address x 0) q in
      let fits_over : o.fits (d (address x 0)) key ≡ true = a.alike i key h valid ∙ f in
      let over_fences : (j k : ℕ)
          → j < n
          → is_valid (over o id n d j) ≡ true
          → o.fits (d' (address (over o id n d j) 0)) k
            ≡ o.fits (d (address (over o id n d j) 0)) k =
        λ j k below valid'. elim (same_or_not i j) [
          | inl is_i ↦
              subst
                (λ l.
                  o.fits (d' (address (over o id n d l) 0)) k
                  ≡ o.fits (d (address (over o id n d l) 0)) k)
                (sym is_i) (ap (λ p. o.fits p k) on_it ∙ o.fits-put (d (address x 0)) q key k v e)
          | inr other ↦
              ap (λ p. o.fits p k)
                (update_ne d (address x 0) (address (over o id n d j) 0) q
                  (a.from_over j i below h other valid' valid))
        ] in
      let there : (j k : ℕ)
          → j < n
          → o.fits (d (main o id n j)) k ≡ true
          → k ≢ key
          → is_valid (over o id n d j) ≡ true
          → o.get (d' (address (over o id n d j) 0)) k ≡ o.get (d (address (over o id n d j) 0)) k =
        λ j k below f' differs valid'. elim (same_or_not i j) [
          | inl is_i ↦
              subst
                (λ l.
                  o.get (d' (address (over o id n d l) 0)) k
                  ≡ o.get (d (address (over o id n d l) 0)) k)
                (sym is_i)
                (ap (λ p. o.get p k) on_it
                  ∙ get_other (d (address x 0)) q key k v e fits_over
                      (a.alike i k h valid
                        ∙ subst (λ l. o.fits (d (main o id n l)) k ≡ true) is_i f')
                      differs)
          | inr other ↦
              ap (λ p. o.get p k)
                (update_ne d (address x 0) (address (over o id n d j) 0) q
                  (a.from_over j i below h other valid' valid))
        ] in
      let found : find_on_overflow o d' x key ≡ some v =
        ap (λ b. if b then o.get (d' (address x 0)) key else none) valid
        ∙ (ap (λ p. o.get p key) on_it ∙ get_self (d (address x 0)) q key v e fits_over) in
      let after : chain o id n d' i key ≡ or_else (o.get (d (main o id n i)) key) (some v) =
        ap (λ p. or_else (o.get p key) (find_on_overflow o d' (o.overflow p) key)) (here i h)
        ∙ ap (or_else (o.get (d (main o id n i)) key)) found in
      (
        record {
          apart =
              IsApart-same o id n d d' same (λ j k below. ap (λ p. o.fits p k) (here j below))
                over_fences a;
          fences = λ j k below. ap (λ p. o.fits p k) (here j below);
          on_main = λ j k below f' differs. ap (λ p. o.get p k) (here j below);
          on_chain = λ j k below f' differs.
              chain_same o id n d d' j k (same j below) (ap (λ p. o.get p k) (here j below))
                (there j k below f' differs);
          written =
              elim (or_else_cases (o.get (d (main o id n i)) key) v (find_on_overflow o d x key)) [
                | inl now ↦ inl (after ∙ now)
                | inr (kept, shown) ↦ inr (after ∙ kept, shown)
              ];
        },
        same,
      )
