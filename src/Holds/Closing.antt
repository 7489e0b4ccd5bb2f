-- ===== src/Holds/Closing.antt =====
-- What is due when an auction is closed.
use mathlib.Core.List.{Memᴰ}
use mazadak_backend.Base.{
  ℕ, ℤ, pos, ◌+ℤ◌, ◌≡◌, ◌≢◌, refl, sym, ap, subst, ◌∙◌, Bool, true, false, not, ◌&&◌, ◌||◌, List,
  [], ◌∷◌, map, ◌==◌, ==_refl, All-map, Unique, Replaced, sum_of, here, there, Bool-cases, inl, inr,
  if◌then◌else◌, int_laws,
}
use mazadak_backend.Store.{Driver}
use mazadak_backend.Database.{Wallet, WithdrawalRequest, Bid, Auction}
use mazadak_backend.Wallet.Totals.{owned}
use mazadak_backend.Holds.{is_closed, is_shut, stake, stake_of, Owes, obligation_of}
use mazadak_backend.Holds.Market.{IsVacant, wins, differs}

closed_now :
    {a a' : Auction} {l k : List Auction}
    → Replaced a a' l k
    → a'.id ≡ a.id
    → is_shut a' ≡ true
    → is_closed a.id k ≡ true
closed_now {a} here e t = rw (e, ==_refl a.id, t) refl
closed_now {a} (there {x = x} r) e t = either (x.id == a.id && is_shut x) _ (closed_now r e t)
  where
    either : (b c : Bool) → c ≡ true → (b || c) ≡ true
    either true c h = refl
    either false c h = h

closed_else :
    (i : ℕ) {a a' : Auction} {l k : List Auction}
    → a.id ≢ i
    → Replaced a a' l k
    → a'.id ≡ a.id
    → is_closed i k ≡ is_closed i l
closed_else i {a} {a'} n here e = rw (e, differs a.id i n) refl
closed_else i n (there {x = x} r) e = ap (◌||◌ (x.id == i && is_shut x)) (closed_else i n r e)

-- The debt with the auctions changed and nothing closed.
pub same_stakes :
    {d : Driver} {missing : ℕ → ℤ} {ws : List Wallet} {rs : List WithdrawalRequest} {bs : List Bid}
    {l : List Auction} (k : List Auction) {g : ℕ}
    → ((u : ℕ) → stake_of u k bs ≡ stake_of u l bs)
    → Owes d missing ws rs bs l g
    → Owes d missing ws rs bs k g
same_stakes {missing = missing} {ws} {rs} {bs} {l} k e h = record {
  wallets = h.wallets;
  owners = h.owners;
  solvent = h.solvent;
  requests = h.requests;
  bids = h.bids;
  held = λ u.
      subst
        (λ x.
          sum_of (λ w. owned u w.user_id w.held_balance) ws +ℤ missing u ≡ obligation_of u rs +ℤ x)
        (sym (e u)) (h.held u);
}

-- The debt with what was due for a closed auction paid.
pub paid_stakes :
    {d : Driver} {missing : ℕ → ℤ} {ws : List Wallet} {rs : List WithdrawalRequest} {bs : List Bid}
    {l : List Auction} (k : List Auction) {g : ℕ} (missing' due : ℕ → ℤ)
    → ((u : ℕ) → stake_of u k bs +ℤ due u ≡ stake_of u l bs)
    → ((u : ℕ) → missing' u +ℤ due u ≡ missing u)
    → Owes d missing ws rs bs l g
    → Owes d missing' ws rs bs k g
paid_stakes {missing = missing} {ws} {rs} {bs} {l} k missing' due e m h = record {
  wallets = h.wallets;
  owners = h.owners;
  solvent = h.solvent;
  requests = h.requests;
  bids = h.bids;
  held =
      λ u. less _ (missing u) (missing' u) (obligation_of u rs) _ _ (due u) (h.held u) (e u) (m u);
}
  where
    less : (x m m' o s s' c : ℤ) → x +ℤ m ≡ o +ℤ s → s' +ℤ c ≡ s → m' +ℤ c ≡ m → x +ℤ m' ≡ o +ℤ s'
    less x m m' o s s' c p q r = grind int_laws

-- Nothing is closed or opened.
pub nothing_closed :
    (u : ℕ) (bs : List Bid) (l k : List Auction)
    → ((i : ℕ) → is_closed i k ≡ is_closed i l)
    → stake_of u k bs ≡ stake_of u l bs
nothing_closed u bs l k e = λ i.
    sum_of (λ b. owned u b.bidder_id (if wins b && not (e b.auction_id i) then b.amount else pos 0))
      bs

module _ {a a' : Auction} {l k : List Auction} (r : Replaced a a' l k) (same : a'.id ≡ a.id) where
  stake_else : (b : Bid) → (wins b ≡ true → b.auction_id ≢ a.id) → stake k b ≡ stake l b
  stake_else b h = elim (Bool-cases (wins b)) [
    | inl t ↦ rw (t, closed_else b.auction_id (λ q. h t (sym q)) r same) refl
    | inr f ↦ rw f refl
  ]

  -- The auction is vacant.
  pub vacant_closed : (u : ℕ) (bs : List Bid) → IsVacant a.id bs → stake_of u k bs ≡ stake_of u l bs
  vacant_closed u [] h = refl
  vacant_closed u (b ∷ bs) h =
      rw (stake_else b (h b (Memᴰ.head refl)), vacant_closed u bs (λ c m. h c (Memᴰ.tail m))) refl

  -- The auction's one winning bid does not count any more.
  pub winner_closed :
      (u : ℕ) (b : Bid) (bs : List Bid)
      → is_shut a' ≡ true
      → is_closed a.id l ≡ false
      → wins b ≡ true
      → b.auction_id ≡ a.id
      → Unique (map (λ x. x.id) bs)
      → Memᴰ b bs
      → ((c : Bid) → Memᴰ c bs → wins c ≡ true → c.auction_id ≡ a.id → c ≡ b)
      → stake_of u k bs +ℤ owned u b.bidder_id b.amount ≡ stake_of u l bs
  winner_closed u b [] shut op won at uni m only = elim m [ ]
  winner_closed u b (x ∷ bs) shut op won at uni (Memᴰ.head e) only =
      swap (owned u x.bidder_id (stake k x)) (owned u x.bidder_id (stake l x)) _ _ _
        (subst
          (λ y.
            owned u y.bidder_id (stake k y) +ℤ owned u b.bidder_id b.amount
            ≡ owned u y.bidder_id (stake l y))
          e freed)
        (vacant_closed u bs (λ c n t q.
          All-map (λ y. y.id) x.id c bs uni.0 n
            (ap (λ (y : Bid). y.id) (only c (Memᴰ.tail n) t q ∙ e))))
    where
      swap : (x y z s t : ℤ) → x +ℤ z ≡ y → s ≡ t → x +ℤ s +ℤ z ≡ y +ℤ t
      swap x y z s t p q = grind int_laws

      freed :
          owned u b.bidder_id (stake k b) +ℤ owned u b.bidder_id b.amount
          ≡ owned u b.bidder_id (stake l b)
      freed = elim (Bool-cases (b.bidder_id == u)) [
        | inl t ↦ rw (t, won, at, closed_now r same shut, op) (omega int_laws)
        | inr t ↦ rw t (omega int_laws)
      ]
  winner_closed u b (x ∷ bs) shut op won at uni (Memᴰ.tail m) only =
      shift _ _ _ _ _
        (ap (owned u x.bidder_id) (
          stake_else x (λ t q.
            All-map (λ y. y.id) x.id b bs uni.0 m
              (sym (ap (λ (y : Bid). y.id) (only x (Memᴰ.head refl) t q))))))
        (winner_closed u b bs shut op won at uni.1 m (λ c n. only c (Memᴰ.tail n)))
    where
      shift : (x y s t z : ℤ) → x ≡ y → s +ℤ z ≡ t → x +ℤ s +ℤ z ≡ y +ℤ t
      shift x y s t z p q = grind int_laws
