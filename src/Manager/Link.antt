-- ===== src/Manager/Link.antt =====
-- A new overflow page that is linked to a page of a segment.
use treeline.Prelude.{
  same_or_not, or_else, ℕ, ◌<◌, ◌≡◌, ◌≢◌, inl, inr, ap, sym, ◌∙◌, subst, true, false, none,
  if◌then◌else◌, update, update_self, update_ne,
}
use treeline.Segments.{SegmentId, is_valid}
use treeline.Manager.Store.{PageOps, address, find_on_overflow}
use treeline.Manager.Chains.{main, over, chain, IsApart, SameFences, Keeps, chain_same, main_ne}

module _ {Page V : Type 0} (o : PageOps Page V) (id : SegmentId) (n : ℕ) where
  -- An overflow page that holds nothing, and that is used by no chain yet.
  pub record IsFresh (d : ℕ → Page) (x : SegmentId) : Type 0 where
    pub valid : is_valid x ≡ true
    pub not_main : (j : ℕ) → j < n → address x 0 ≢ main o id n j
    pub not_over :
        (j : ℕ)
        → j < n
        → is_valid (over o id n d j) ≡ true
        → address x 0 ≢ address (over o id n d j) 0

  module _ (d : ℕ → Page) (i : ℕ) (x : SegmentId) (e p : Page) (below : i < n)
      (apart : IsApart o id n d) (fresh : IsFresh d x)
      (no_overflow : is_valid (over o id n d i) ≡ false) (empty : (k : ℕ) → o.get e k ≡ none)
      (kept : (k : ℕ) → o.get p k ≡ o.get (d (main o id n i)) k)
      (empty_fits : (k : ℕ) → o.fits e k ≡ o.fits (d (main o id n i)) k)
      (kept_fits : (k : ℕ) → o.fits p k ≡ o.fits (d (main o id n i)) k)
      (linked : o.overflow p ≡ x) where
    abbrev pub relinked : ℕ → Page
    relinked = update (update d (address x 0) e) (main o id n i) p

    self : relinked (main o id n i) ≡ p
    self = update_self (update d (address x 0) e) (main o id n i) p

    new : relinked (address x 0) ≡ e
    new =
        update_ne (update d (address x 0) e) (main o id n i) (address x 0) p
          (fresh.not_main i below)
        ∙ update_self d (address x 0) e

    elsewhere : (j : ℕ) → j < n → j ≢ i → relinked (main o id n j) ≡ d (main o id n j)
    elsewhere j h other =
        update_ne (update d (address x 0) e) (main o id n i) (main o id n j) p
          (main_ne o id n j i other)
        ∙ update_ne d (address x 0) (main o id n j) e (λ same. fresh.not_main j h (sym same))

    pub over_self : (j : ℕ) → j ≡ i → over o id n relinked j ≡ x
    over_self j same = ap (λ l. over o id n relinked l) same ∙ (ap o.overflow self ∙ linked)

    pub over_other : (j : ℕ) → j < n → j ≢ i → over o id n relinked j ≡ over o id n d j
    over_other j h other = ap o.overflow (elsewhere j h other)

    -- Two overflow pages lie apart.
    over_apart :
        (k j : ℕ)
        → k < n
        → j < n
        → k ≢ j
        → is_valid (over o id n relinked k) ≡ true
        → is_valid (over o id n relinked j) ≡ true
        → address (over o id n relinked k) 0 ≢ address (over o id n relinked j) 0
    over_apart k j h h' ne v w = elim (same_or_not i k) [
      | inl here ↦
          let other : j ≢ i = λ e. ne (here ∙ sym e) in
          let w' = sym (ap is_valid (over_other j h' other)) ∙ w in
          λ same. fresh.not_over j h' w' (
            ap (λ y. address y 0) (sym (over_self k here))
            ∙ (same ∙ ap (λ y. address y 0) (over_other j h' other)))
      | inr there ↦
          let v' = sym (ap is_valid (over_other k h there)) ∙ v in
          elim (same_or_not i j) [
            | inl here ↦ λ same. fresh.not_over k h v' (
                ap (λ y. address y 0) (sym (over_self j here))
                ∙ (sym same ∙ ap (λ y. address y 0) (over_other k h there)))
            | inr other ↦
                let w' = sym (ap is_valid (over_other j h' other)) ∙ w in
                λ same. apart.from_over k j h h' ne v' w' (
                  ap (λ y. address y 0) (sym (over_other k h there))
                  ∙ (same ∙ ap (λ y. address y 0) (over_other j h' other)))
          ]
    ]

    over_elsewhere :
        (j : ℕ)
        → j < n
        → is_valid (over o id n d j) ≡ true
        → relinked (address (over o id n d j) 0) ≡ d (address (over o id n d j) 0)
    over_elsewhere j h valid =
        update_ne (update d (address x 0) e) (main o id n i) (address (over o id n d j) 0) p
          (apart.from_main j i h below valid)
        ∙ update_ne d (address x 0) (address (over o id n d j) 0) e
            (λ same. fresh.not_over j h valid (sym same))

    relinked_fences : SameFences o id n d relinked
    relinked_fences j k h = elim (same_or_not i j) [
      | inl here ↦
          subst (λ l. o.fits (relinked (main o id n l)) k ≡ o.fits (d (main o id n l)) k) (sym here)
            (ap (λ q. o.fits q k) self ∙ kept_fits k)
      | inr there ↦ ap (λ q. o.fits q k) (elsewhere j h there)
    ]

    over_alike :
        (j k : ℕ)
        → j < n
        → is_valid (over o id n relinked j) ≡ true
        → o.fits (relinked (address (over o id n relinked j) 0)) k
          ≡ o.fits (relinked (main o id n j)) k
    over_alike j k h v = elim (same_or_not i j) [
      | inl here ↦
          ap (λ y. o.fits (relinked (address y 0)) k) (over_self j here)
          ∙ (ap (λ q. o.fits q k) new
              ∙ (empty_fits k
                  ∙ (sym (ap (λ l. o.fits (d (main o id n l)) k) here)
                      ∙ sym (relinked_fences j k h))))
      | inr there ↦
          let before = over_other j h there in
          let valid = sym (ap is_valid before) ∙ v in
          ap (λ y. o.fits (relinked (address y 0)) k) before
          ∙ (ap (λ q. o.fits q k) (over_elsewhere j h valid)
              ∙ (apart.alike j k h valid ∙ sym (relinked_fences j k h)))
    ]

    relinked-IsApart : IsApart o id n relinked
    relinked-IsApart = record {
      alike = over_alike;
      from_main = λ k j h h' v. elim (same_or_not i k) [
        | inl here ↦
            λ same. fresh.not_main j h' (ap (λ y. address y 0) (sym (over_self k here)) ∙ same)
        | inr there ↦ λ same.
            apart.from_main k j h h' (sym (ap is_valid (over_other k h there)) ∙ v)
              (ap (λ y. address y 0) (sym (over_other k h there)) ∙ same)
      ];
      from_over = over_apart;
    }

    chain_self : (k : ℕ) → chain o id n relinked i k ≡ chain o id n d i k
    chain_self k =
        let found : find_on_overflow o relinked x k ≡ none =
          ap (λ b. if b then o.get (relinked (address x 0)) k else none) fresh.valid
          ∙ (ap (λ q. o.get q k) new ∙ empty k) in
        let before : find_on_overflow o d (over o id n d i) k ≡ none =
          ap (λ b. if b then o.get (d (address (over o id n d i) 0)) k else none) no_overflow in
        ap (λ q. or_else (o.get q k) (find_on_overflow o relinked (o.overflow q) k)) self
        ∙ (ap (λ y. or_else (o.get p k) (find_on_overflow o relinked y k)) linked
            ∙ (ap (or_else (o.get p k)) found
                ∙ (ap (λ y. or_else y none) (kept k)
                    ∙ sym (ap (or_else (o.get (d (main o id n i)) k)) before))))

    -- Linking an empty overflow page to the page `i` keeps what is found.
    pub link-Keeps : Keeps o id n d relinked
    link-Keeps = record {
      apart = relinked-IsApart;
      fences = relinked_fences;
      on_main = λ j k h. elim (same_or_not i j) [
        | inl here ↦
            subst (λ l. o.get (relinked (main o id n l)) k ≡ o.get (d (main o id n l)) k) (sym here)
              (ap (λ q. o.get q k) self ∙ kept k)
        | inr there ↦ ap (λ q. o.get q k) (elsewhere j h there)
      ];
      on_chain = λ j k h. elim (same_or_not i j) [
        | inl here ↦
            subst (λ l. chain o id n relinked l k ≡ chain o id n d l k) (sym here) (chain_self k)
        | inr there ↦
            chain_same o id n d relinked j k (over_other j h there)
              (ap (λ q. o.get q k) (elsewhere j h there))
              (λ valid. ap (λ q. o.get q k) (over_elsewhere j h valid))
      ];
    }
