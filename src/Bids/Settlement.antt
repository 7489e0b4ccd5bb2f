-- ===== src/Bids/Settlement.antt =====
-- The finalization of ended auctions keeps what is due and the market in order.
use mathlib.Core.List.{Memᴰ}
use mazadak_backend.Base.{
  ◌||◌, ℕ, ℤ, pos, ◌+ℤ◌, ◌-ℤ◌, ◌≡◌, ◌≢◌, refl, sym, ap, subst, ◌∙◌, Bool, true, false, not, ◌&&◌,
  Option, none, some, List, [], ◌∷◌, map, ◌==◌, ==→eq, ==_refl, inl, inr, is_some, All, Unique,
  Replaced, Replaced-Memᴰ_kept, given, ◌≤◌,
}
use mazadak_backend.Store.{Driver}
use mazadak_backend.Store.Keyed.{search_rule, update_rule}
use mazadak_backend.Database.{
  save_event, AutoBidStatus, Bid, Auction, AuctionStatus, Escrow, Event, TransactionReferenceType,
  object, Database, Result, ok, err, Action, ◌>>=◌, ◌>>◌, bind_rule, in_session, in_session_rule,
}
use mazadak_backend.Wallet.{Movement, capture}
use mazadak_backend.Wallet.Effect.{Moves, Moved, and_left, and_right}
use mazadak_backend.Wallet.Operations.{capture-Moves}
use mazadak_backend.Wallet.Totals.{owned, owned_back}
use mazadak_backend.Escrow.{create_escrow}
use mazadak_backend.Escrow.Creation.{create_escrow_rule}
use mazadak_backend.Holds.{
  OwesAt, nothing, is_shut, is_cancelled, Moved-Owes, Owes-IsKeyed, later_IsRegistered,
}
use mazadak_backend.Holds.Closing.{same_stakes, paid_stakes, vacant_closed, winner_closed}
use mazadak_backend.Holds.Market.{IsMarket, IsVacant, wins, apart, restated-IsMarket, open_in}
use mazadak_backend.Bids.Repositories.{
  finalize_auction, deactivate_all_for_auction, is_ended_auction, is_pending_auction,
}
use mazadak_backend.Bids.Finalizing.{
  is_unfinalized, escrow_due, close_unsold, close_sold, close_with, finalize_writes, finalize_each,
  finalize_ended_auctions,
}
use mazadak_backend.Bids.Trading.{IsTrading, IsWinner}

-- The other auctions are kept.
abbrev pub Keeps : Auction → List Auction → List Auction → Type 0
Keeps a l k = (x : Auction) → Memᴰ x l → x.id ≢ a.id → Memᴰ x k

pub kept : {a a' : Auction} {l k : List Auction} → Replaced a a' l k → Keeps a l k
kept r x m n = elim (Replaced-Memᴰ_kept r m) [
  | inl e ↦ absurd (n (ap (λ (y : Auction). y.id) e))
  | inr o ↦ o
]

-- What a call returns with is in order.
abbrev pub Settles : {A : Type 0} → Driver → Auction → List Auction → Result A × Database → Type 0
Settles d a l (ok _, t) = IsTrading d t × Keeps a l t.auctions
Settles d a l (err _, t) = Unit

-- An auction's hold has been released or captured.
pub record Released (d : Driver) (a : Auction) (b : Bid) (l : List Auction) (t : Database)
    : Type 0 where
  pub owes : OwesAt d (λ u. nothing u +ℤ owned u b.bidder_id b.amount) t
  pub market : IsMarket t.bids t.auctions
  pub same : t.auctions ≡ l
  pub stored : Memᴰ a t.auctions
  pub won : IsWinner a t.bids (some b)

unfinalized_ended : (a : Auction) → is_unfinalized a ≡ true → is_ended_auction a.status ≡ true
unfinalized_ended a h =
    and_left (is_ended_auction a.status) (not (is_some a.winner_id) && not a.is_finalized) h

pub unfinalized_open : (a : Auction) → is_unfinalized a ≡ true → is_shut a ≡ false
unfinalized_open a h = shut a.status a.is_finalized (unfinalized_ended a h) (
    and_right (not (is_some a.winner_id)) (not a.is_finalized)
      (and_right (is_ended_auction a.status) (not (is_some a.winner_id) && not a.is_finalized) h))
  where
    shut :
        (st : AuctionStatus) (f : Bool)
        → is_ended_auction st ≡ true
        → not f ≡ true
        → (is_cancelled st || f) ≡ false
    shut AuctionStatus.ended false e n = refl
    shut AuctionStatus.ended true e n = sym n
    shut AuctionStatus.pending f e n = absurd (apart (sym e))
    shut AuctionStatus.active f e n = absurd (apart (sym e))
    shut AuctionStatus.cancelled f e n = absurd (apart (sym e))

module _ (d : Driver) (s : Database) (h : IsTrading d s) where
  pub Moved-Released :
      {a : Auction} {b : Bid} {db : ℤ} {t : Database}
      → Memᴰ a s.auctions
      → IsWinner a s.bids (some b)
      → Moved b.bidder_id db (pos 0 -ℤ b.amount) s t
      → Released d a b s.auctions t
  Moved-Released {a} {b} {db} {t} stored w m = record {
    owes =
        Moved-Owes (λ u. nothing u +ℤ owned u b.bidder_id b.amount) h.0 m
          (λ u. sym (owned_back (nothing u) u b.bidder_id b.amount));
    market =
        subst (λ l. IsMarket t.bids l) (sym m.rest.auctions)
          (subst (λ bs. IsMarket bs s.auctions) (sym m.rest.bids) h.1);
    same = m.rest.auctions;
    stored = subst (Memᴰ a) (sym m.rest.auctions) stored;
    won = subst (λ bs. IsWinner a bs (some b)) (sym m.rest.bids) w;
  }

-- What is written elsewhere does not matter.
later_Released :
    {d : Driver} {a : Auction} {b : Bid} {l : List Auction} {t : Database} (es : List Escrow)
    (o : List Event) (g : ℕ)
    → t.generated ≤ g
    → Released d a b l t
    → Released d a b l (record t { escrows = es; outbox = o; generated = g })
later_Released es o g later h = record {
  owes = record {
    wallets = h.owes.wallets;
    owners = h.owes.owners;
    solvent = h.owes.solvent;
    requests = later_IsRegistered g _ later h.owes.requests;
    bids = later_IsRegistered g _ later h.owes.bids;
    held = h.owes.held;
  };
  market = h.market;
  same = h.same;
  stored = h.stored;
  won = h.won;
}

-- Then the auction is closed.
pub closed_out :
    {d : Driver} {a a' : Auction} {b : Bid} {l k : List Auction} {t : Database}
    → Released d a b l t
    → Replaced a a' t.auctions k
    → a'.id ≡ a.id
    → a'.current_price ≡ a.current_price
    → (is_ended_auction a'.status ≡ false → a'.is_finalized ≡ false)
    → (is_pending_auction a'.status ≡ true → is_pending_auction a.status ≡ true)
    → is_shut a ≡ false
    → is_shut a' ≡ true
    → IsTrading d (record t { auctions = k }) × Keeps a l k
closed_out {d} {a} {a'} {b} {l} {k} {t} h r same price final fresh was now = (
  (
    paid_stakes k nothing (λ u. owned u b.bidder_id b.amount)
        (λ u.
          winner_closed r same u b t.bids now (open_in a t.auctions h.market.auctions h.stored was)
            h.won.1 h.won.2 h.owes.bids.unique h.won.0
            (λ c m v e. h.market.winners c b m h.won.0 v h.won.1 (e ∙ sym h.won.2)))
        (λ u. refl) h.owes,
    restated-IsMarket h.market r same price final fresh,
  ),
  subst (λ x. Keeps a x k) h.same (kept r),
)

shut_now : (st : AuctionStatus) → (is_cancelled st || true) ≡ true
shut_now AuctionStatus.cancelled = refl
shut_now AuctionStatus.pending = refl
shut_now AuctionStatus.active = refl
shut_now AuctionStatus.ended = refl

module _ (d : Driver) (a : Auction) (due : is_unfinalized a ≡ true) where
  finalized : Option ℕ → Auction → Auction
  finalized o x = record x { is_finalized = true; winner_id = given o x.winner_id }

  module _ (s : Database) (h : IsTrading d s) (stored : Memᴰ a s.auctions) where
    close_unsold-Settles : IsVacant a.id s.bids → Settles d a s.auctions (close_unsold d a s)
    unfolding close_unsold finalized
    close_unsold-Settles vacant =
        update_rule d (λ x. x.id) (finalized none) a a.id s.auctions
          (λ y. Settles {A = Unit {0}} d a s.auctions (ok tt, record s { auctions = y.1 }))
          h.1.auctions stored refl
          (λ _ k r. (
            (
              same_stakes k (λ u. vacant_closed r refl u s.bids vacant) h.0,
              restated-IsMarket h.1 r refl refl
                  (λ e. absurd (apart (sym (unfinalized_ended a due) ∙ e))) (λ p. p),
            ),
            kept r,
          ))

    close_sold-Settles :
        (b : Bid) (now : ℕ)
        → IsWinner a s.bids (some b)
        → Settles d a s.auctions (close_sold d a b now s)
    unfolding close_sold finalized
    close_sold-Settles b now w =
        bind_rule (Moves b.bidder_id (pos 0 -ℤ b.amount) (pos 0 -ℤ b.amount) s)
          (Settles d a s.auctions)
          (capture d b.bidder_id b.amount (some (object a.id))
            (some TransactionReferenceType.auction))
          (λ m. create_escrow d (escrow_due a b) now >>= finish m) s
          (capture-Moves d b.bidder_id b.amount (some (object a.id))
            (some TransactionReferenceType.auction) s (Owes-IsKeyed s h.0))
          (λ m t moved.
            create_escrow_rule d (escrow_due a b) now (finish m) t (Settles d a s.auctions)
              (λ e es o g later.
                closing m e (record t { escrows = es; outbox = o; generated = g })
                  (later_Released es o g later (Moved-Released d s h stored w moved))))
          (λ _ _ _. tt)
      where
        finish : Movement → Escrow → Action (Unit {0})
        finish m e =
            finalize_auction d a.id (some b.bidder_id)
            >> (deactivate_all_for_auction d a.id AutoBidStatus.exhausted
                >> save_event d (
                    Event.auction_ended a.id a.title a.seller_id a.current_price (some b.bidder_id)
                      (some m.1.id) (some e.id)))

        closing :
            (m : Movement) (e : Escrow) (u : Database)
            → Released d a b s.auctions u
            → Settles d a s.auctions (finish m e u)
        closing m e u rel =
            update_rule d (λ x. x.id) (finalized (some b.bidder_id)) a a.id u.auctions
              (λ y. Settles {A = Unit {0}} d a s.auctions (ok tt, record u { auctions = y.1 }))
              rel.market.auctions rel.stored refl
              (λ _ k r.
                closed_out rel r refl refl (λ e. absurd (apart (sym (unfinalized_ended a due) ∙ e)))
                  (λ p. p) (unfinalized_open a due) (shut_now a.status))

    finalize_writes-Settles : (now : ℕ) → Settles d a s.auctions (finalize_writes d a now s)
    unfolding finalize_writes
    finalize_writes-Settles now =
        search_rule d (λ b. b.auction_id == a.id && wins b) s.bids
          (λ o. Settles d a s.auctions (close_with d a now o s))
          (λ b t m. close_sold-Settles b now (
            m,
            and_right (b.auction_id == a.id) (wins b) t,
            ==→eq b.auction_id a.id (and_left (b.auction_id == a.id) (wins b) t),
          ))
          (λ free.
            close_unsold-Settles (λ b m t e. apart (sym (rw (e, ==_refl a.id) t) ∙ free b m)))

module _ (d : Driver) (now : ℕ) where
  finalize_each-IsTrading :
      (l : List Auction) (s : Database)
      → IsTrading d s
      → Unique (map (λ a. a.id) l)
      → All (λ a. (is_unfinalized a ≡ true) × Memᴰ a s.auctions) l
      → IsTrading d (finalize_each d now l s)
  unfolding finalize_each
  finalize_each-IsTrading [] s h u m = h
  finalize_each-IsTrading (a ∷ l) s h u m =
      let (i, others) =
        in_session_rule (Settles d a s.auctions)
          (λ x. IsTrading d x.1 × Keeps a s.auctions x.1.auctions) (finalize_writes d a now) s
          (finalize_writes-Settles d a m.0.0 s h m.0.1 now) (λ _ _ q. q) (λ _. (h, λ _ n _. n)) in
      finalize_each-IsTrading l (in_session (finalize_writes d a now) s).1 i u.1
        (still l u.0 m.1 others)
    where
      still :
          {k : List Auction} (l : List Auction)
          → All (λ j. j ≢ a.id) (map (λ x. x.id) l)
          → All (λ x. (is_unfinalized x ≡ true) × Memᴰ x s.auctions) l
          → Keeps a s.auctions k
          → All (λ x. (is_unfinalized x ≡ true) × Memᴰ x k) l
      still [] u m keeps = tt
      still (x ∷ l) u m keeps = ((m.0.0, keeps x m.0.1 u.0), still l u.1 m.1 keeps)

  -- If every user has held exactly what is due for the user's open withdrawals and winning bids, and
  -- the market is in order, then so it is after a run of the finalization at any time, whichever
  -- auctions it fails for.
  pub finalize_ended_auctions-IsTrading :
      (locked : Bool) (s : Database)
      → IsTrading d s
      → IsTrading d (finalize_ended_auctions d locked now s)
  unfolding finalize_ended_auctions
  finalize_ended_auctions-IsTrading false s h = h
  finalize_ended_auctions-IsTrading true s h =
      finalize_each-IsTrading (d.find is_unfinalized s.auctions) s h
        (d.find_once is_unfinalized (λ a. a.id) s.auctions h.1.auctions)
        (d.find_sound is_unfinalized s.auctions)
