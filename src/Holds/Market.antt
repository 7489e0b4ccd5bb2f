-- ===== src/Holds/Market.antt =====
-- The invariant of auctions and bids.
use mathlib.Core.List.{Memᴰ}
use mazadak_backend.Base.{
  All-map, ◌⊎◌, Inserted-Memᴰ, Replaced-Memᴰ_new, Replaced-Memᴰ_old, ℕ, ◌≡◌, ◌≢◌, refl, sym, ap,
  ◌∙◌, subst, Bool, true, false, ◌&&◌, ◌||◌, List, [], ◌∷◌, map, ◌==◌, ==→eq, All, Unique,
  Unique-eq, Replaced, Inserted, map-Replaced, Replaced-Memᴰ, here, there, Bool-cases, inl, inr,
}
use mazadak_backend.Database.{Bid, Auction, AuctionStatus}
use mazadak_backend.Bids.Engine.{outbid}
use mazadak_backend.Bids.Repositories.{
  is_pending_auction, is_ended_auction, is_winning, is_active_auction,
}
use mazadak_backend.Holds.{is_shut, is_closed, is_cancelled}

abbrev pub wins : Bid → Bool
wins b = is_winning b.status

-- No bid of the auction is WINNING.
abbrev pub IsVacant : ℕ → List Bid → Type 0
IsVacant i bs = (b : Bid) → Memᴰ b bs → wins b ≡ true → b.auction_id ≢ i

-- An auction has at most one WINNING bid, its price is that bid's amount, a PENDING one has none, and
-- only an ENDED one is finalized.
pub record IsMarket (bs : List Bid) (l : List Auction) : Type 0 where
  pub auctions : Unique (map (λ a. a.id) l)
  pub running :
      (a : Auction) → Memᴰ a l → is_ended_auction a.status ≡ false → a.is_finalized ≡ false
  pub fresh : (a : Auction) → Memᴰ a l → is_pending_auction a.status ≡ true → IsVacant a.id bs
  pub winners :
      (b c : Bid)
      → Memᴰ b bs
      → Memᴰ c bs
      → wins b ≡ true
      → wins c ≡ true
      → b.auction_id ≡ c.auction_id
      → b ≡ c
  pub prices :
      (b : Bid) (a : Auction)
      → Memᴰ b bs
      → Memᴰ a l
      → wins b ≡ true
      → a.id ≡ b.auction_id
      → a.current_price ≡ b.amount

pub apart : true ≡ false → ⊥
apart q = cc q

pub differs : (i j : ℕ) → i ≢ j → (i == j) ≡ false
differs i j h = elim (Bool-cases (i == j)) [ inl e ↦ absurd (h (==→eq i j e)) | inr e ↦ e ]

parts : (b c r : Bool) → c ≡ false → r ≡ false → ((b && c) || r) ≡ false
parts true c r h k = rw (h, k) refl
parts false c r h k = k

not_there :
    (i : ℕ) (l : List Auction) → All (λ j. j ≢ i) (map (λ a. a.id) l) → is_closed i l ≡ false
not_there i [] h = refl
not_there i (a ∷ l) h = rw (differs a.id i h.0, not_there i l h.1) refl

pub not_cancelled : (st : AuctionStatus) → is_active_auction st ≡ true → is_cancelled st ≡ false
not_cancelled AuctionStatus.pending h = refl
not_cancelled AuctionStatus.active h = refl
not_cancelled AuctionStatus.ended h = refl
not_cancelled AuctionStatus.cancelled h = absurd (apart (sym h))

pub active_not_ended :
    (st : AuctionStatus) → is_active_auction st ≡ true → is_ended_auction st ≡ false
active_not_ended AuctionStatus.pending h = refl
active_not_ended AuctionStatus.active h = refl
active_not_ended AuctionStatus.ended h = sym h
active_not_ended AuctionStatus.cancelled h = refl

pub active_not_pending :
    (st : AuctionStatus) → is_active_auction st ≡ true → is_pending_auction st ≡ true → ⊥
active_not_pending AuctionStatus.pending h k = apart (sym h)
active_not_pending AuctionStatus.active h k = apart (sym k)
active_not_pending AuctionStatus.ended h k = apart (sym k)
active_not_pending AuctionStatus.cancelled h k = apart (sym k)

pub open_in :
    (a : Auction) (l : List Auction)
    → Unique (map (λ x. x.id) l)
    → Memᴰ a l
    → (is_shut a) ≡ false
    → is_closed a.id l ≡ false
open_in a [] u m t = refl
open_in a (x ∷ l) u (Memᴰ.head e) t =
    parts (x.id == a.id) (is_shut x) (is_closed a.id l) (subst (λ y. (is_shut y) ≡ false) e t)
      (not_there a.id l (subst (λ y. All (λ j. j ≢ y.id) (map (λ z. z.id) l)) (sym e) u.0))
open_in a (x ∷ l) u (Memᴰ.tail m) t =
    rw (differs x.id a.id (λ q. All-map (λ y. y.id) x.id a l u.0 m (sym q))) (open_in a l u.1 m t)

-- What is closed stays so, if the changed auction does.
pub closed_same :
    (i : ℕ) {a a' : Auction} {l k : List Auction}
    → Replaced a a' l k
    → a'.id ≡ a.id
    → is_shut a' ≡ is_shut a
    → is_closed i k ≡ is_closed i l
closed_same i here e q = rw (e, q) refl
closed_same i (there {x = x} r) e q = ap (◌||◌ (x.id == i && is_shut x)) (closed_same i r e q)

module _ {bs : List Bid} {l : List Auction} (h : IsMarket bs l) where
  -- An ACTIVE auction of the market is not closed.
  pub active_is_open :
      (a : Auction) → Memᴰ a l → is_active_auction a.status ≡ true → is_closed a.id l ≡ false
  active_is_open a m t =
      open_in a l h.auctions m
        (rw (not_cancelled a.status t, h.running a m (active_not_ended a.status t)) refl)

  module _ {b : Bid} {bs' : List Bid} (r : Replaced b (record b { status = outbid }) bs bs')
      (unique : Unique (map (λ x. x.id) bs)) (won : wins b ≡ true) where
    lost : ¬ (Memᴰ b bs')
    lost m = apart (
        sym won
        ∙ ap wins (
            Unique-eq (λ x. x.id) b (record b { status = outbid }) bs'
              (subst Unique (sym (map-Replaced (λ x. x.id) r refl)) unique) m (Replaced-Memᴰ_new r)
              refl))

    was : (c : Bid) → Memᴰ c bs' → wins c ≡ true → Memᴰ c bs
    was c m t = elim (Replaced-Memᴰ_old r m) [
      | inl e ↦ absurd (apart (sym t ∙ ap wins e))
      | inr n ↦ n
    ]

    -- The winning bid has lost.
    pub outbid-IsMarket : IsMarket bs' l
    outbid-IsMarket = record {
      auctions = h.auctions;
      running = h.running;
      fresh = λ x m p c n t e. h.fresh x m p c (was c n t) t e;
      winners = λ x y m n t u e. h.winners x y (was x m t) (was y n u) t u e;
      prices = λ x a m n t e. h.prices x a (was x m t) n t e;
    }

    pub outbid-IsVacant : IsVacant b.auction_id bs'
    outbid-IsVacant c m t e =
        lost (subst (λ x. Memᴰ x bs') (h.winners c b (was c m t) (Replaced-Memᴰ r) t won e) m)

  -- A bid that has not won is recorded.
  pub loser-IsMarket :
      {b : Bid} {bs' : List Bid} → Inserted b bs bs' → wins b ≡ false → IsMarket bs' l
  loser-IsMarket {b} {bs'} n lost = record {
    auctions = h.auctions;
    running = h.running;
    fresh = λ x m p c k t e. h.fresh x m p c (was c k t) t e;
    winners = λ x y m k t u e. h.winners x y (was x m t) (was y k u) t u e;
    prices = λ x a m k t e. h.prices x a (was x m t) k t e;
  }
    where
      was : (c : Bid) → Memᴰ c bs' → wins c ≡ true → Memᴰ c bs
      was c m t = elim (Inserted-Memᴰ n m) [
        | inl e ↦ absurd (apart (sym t ∙ ap wins e ∙ lost))
        | inr k ↦ k
      ]

  -- A winning bid for a vacant auction, at the new price.
  pub winner-IsMarket :
      {a : Auction} {b : Bid} {bs' : List Bid} {k : List Auction}
      → Inserted b bs bs'
      → Replaced a (record a { current_price = b.amount }) l k
      → b.auction_id ≡ a.id
      → is_active_auction a.status ≡ true
      → IsVacant a.id bs
      → IsMarket bs' k
  winner-IsMarket {a} {b} {bs'} {k} n r here_at on vacant = record {
    auctions = unique;
    running = λ x m t. elim (Replaced-Memᴰ_old r m) [
      | inl e ↦
          ap (λ (y : Auction). y.is_finalized) e
          ∙ h.running a (Replaced-Memᴰ r)
              (ap (λ (y : Auction). is_ended_auction y.status) (sym e) ∙ t)
      | inr o ↦ h.running x o t
    ];
    fresh = λ x m p c o t e. untouched x c (Replaced-Memᴰ_old r m) p (Inserted-Memᴰ n o) t e;
    winners = λ x y m o t u e. only x y (Inserted-Memᴰ n m) (Inserted-Memᴰ n o) t u e;
    prices = λ x y m o t e. priced x y (Inserted-Memᴰ n m) o t e;
  }
    where
      a' : Auction
      a' = record a { current_price = b.amount }

      unique : Unique (map (λ x. x.id) k)
      unique = subst Unique (sym (map-Replaced (λ x. x.id) r refl)) h.auctions

      untouched :
          (x : Auction) (c : Bid)
          → (x ≡ a') ⊎ Memᴰ x l
          → is_pending_auction x.status ≡ true
          → (c ≡ b) ⊎ Memᴰ c bs
          → wins c ≡ true
          → c.auction_id ≢ x.id
      untouched x c (inl q) p o t e =
          active_not_pending a.status on
            (ap (λ (y : Auction). is_pending_auction y.status) (sym q) ∙ p)
      untouched x c (inr m) p (inr o) t e = h.fresh x m p c o t e
      untouched x c (inr m) p (inl q) t e = active_not_pending a.status on (
          ap (λ (y : Auction). is_pending_auction y.status)
            (Unique-eq (λ y. y.id) a x l h.auctions (Replaced-Memᴰ r) m
              (sym here_at ∙ ap (λ (y : Bid). y.auction_id) (sym q) ∙ e))
          ∙ p)

      only :
          (x y : Bid)
          → (x ≡ b) ⊎ Memᴰ x bs
          → (y ≡ b) ⊎ Memᴰ y bs
          → wins x ≡ true
          → wins y ≡ true
          → x.auction_id ≡ y.auction_id
          → x ≡ y
      only x y (inl p) (inl q) t u e = p ∙ sym q
      only x y (inl p) (inr o) t u e =
          absurd (vacant y o u (sym e ∙ ap (λ (z : Bid). z.auction_id) p ∙ here_at))
      only x y (inr m) (inl q) t u e =
          absurd (vacant x m t (e ∙ ap (λ (z : Bid). z.auction_id) q ∙ here_at))
      only x y (inr m) (inr o) t u e = h.winners x y m o t u e

      priced :
          (x : Bid) (y : Auction)
          → (x ≡ b) ⊎ Memᴰ x bs
          → Memᴰ y k
          → wins x ≡ true
          → y.id ≡ x.auction_id
          → y.current_price ≡ x.amount
      priced x y (inl p) m t e =
          ap (λ (z : Auction). z.current_price)
            (Unique-eq (λ z. z.id) y a' k unique m (Replaced-Memᴰ_new r)
              (e ∙ ap (λ (z : Bid). z.auction_id) p ∙ here_at))
          ∙ sym (ap (λ (z : Bid). z.amount) p)
      priced x y (inr o) m t e = elim (Replaced-Memᴰ_old r m) [
        | inl q ↦ absurd (vacant x o t (sym e ∙ ap (λ (z : Auction). z.id) q))
        | inr v ↦ h.prices x y o v t e
      ]

  -- An auction's status changes.
  pub restated-IsMarket :
      {a a' : Auction} {k : List Auction}
      → Replaced a a' l k
      → a'.id ≡ a.id
      → a'.current_price ≡ a.current_price
      → (is_ended_auction a'.status ≡ false → a'.is_finalized ≡ false)
      → (is_pending_auction a'.status ≡ true → is_pending_auction a.status ≡ true)
      → IsMarket bs k
  restated-IsMarket {a} {a'} {k} r same price final fresh = record {
    auctions = subst Unique (sym (map-Replaced (λ x. x.id) r same)) h.auctions;
    running = λ x m t. elim (Replaced-Memᴰ_old r m) [
      | inl e ↦
          subst (λ (y : Auction). y.is_finalized ≡ false) (sym e)
            (final (subst (λ (y : Auction). is_ended_auction y.status ≡ false) e t))
      | inr o ↦ h.running x o t
    ];
    fresh = λ x m p c o t e. elim (Replaced-Memᴰ_old r m) [
      | inl q ↦
          h.fresh a (Replaced-Memᴰ r)
            (fresh (subst (λ (y : Auction). is_pending_auction y.status ≡ true) q p)) c o t
            (e ∙ ap (λ (y : Auction). y.id) q ∙ same)
      | inr v ↦ h.fresh x v p c o t e
    ];
    winners = h.winners;
    prices = λ x y m o t e. elim (Replaced-Memᴰ_old r o) [
      | inl q ↦
          ap (λ (y : Auction). y.current_price) q
          ∙ price
          ∙ h.prices x a m (Replaced-Memᴰ r) t (sym same ∙ ap (λ (y : Auction). y.id) (sym q) ∙ e)
      | inr v ↦ h.prices x y m v t e
    ];
  }
