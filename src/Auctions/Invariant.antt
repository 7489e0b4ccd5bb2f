-- ===== src/Auctions/Invariant.antt =====
-- The auctions service keeps what is due and the market in order.
use Prim.Native.String.{String}
use mathlib.Core.List.{Memᴰ}
use mazadak_backend.Base.{
  trimmed_length, ℕ, pos, ◌-ℤ◌, ◌≡◌, refl, sym, ◌∙◌, Bool, true, false, not, ◌&&◌, Option, none,
  some, List, [], ◌∷◌, ◌==◌, ==→eq, ==_refl, if_cases, given, not-false, ltb,
}
use mazadak_backend.Store.{Driver}
use mazadak_backend.Store.Keyed.{search_rule, find_rule, update_rule}
use mazadak_backend.Database.{
  Bid, Auction, AuctionStatus, Event, object, Database, Error, Result, ok, err, Action, pure,
  or_throw, ◌>>=◌, ◌>>◌, throw_if, throw_if_rule, bind_rule, in_session, in_session_rule,
  save_event,
}
use mazadak_backend.Wallet.{release}
use mazadak_backend.Wallet.Effect.{Moves, and_left, and_right}
use mazadak_backend.Wallet.Operations.{release-Moves}
use mazadak_backend.Bids.Placing.{bidder_of}
use mazadak_backend.Holds.{is_cancelled, Owes-IsKeyed}
use mazadak_backend.Holds.Closing.{same_stakes, vacant_closed}
use mazadak_backend.Holds.Market.{IsVacant, wins, apart, restated-IsMarket}
use mazadak_backend.Bids.Repositories.{
  find_auction, is_ended_auction, is_pending_auction, is_active_auction, find_winning,
}
use mazadak_backend.Bids.Trading.{IsTrading, IsWinner}
use mazadak_backend.Bids.Settlement.{Keeps, kept, Settles, Released, Moved-Released, closed_out}
use mazadak_backend.Auctions.{
  cancel_all_for_seller, amount_of, is_cancellable, update_auction_status, release_highest,
  cancel_auction_writes, cancel_auction, admin_cancel_auction, cancel_each,
}

cancellable_running :
    (st : AuctionStatus)
    → is_cancellable st ≡ true
    → (is_ended_auction st ≡ false) × (is_cancelled st ≡ false)
cancellable_running AuctionStatus.pending c = (refl, refl)
cancellable_running AuctionStatus.active c = (refl, refl)
cancellable_running AuctionStatus.ended c = (sym c, refl)
cancellable_running AuctionStatus.cancelled c = (refl, sym c)

module _ (d : Driver) (s : Database) (h : IsTrading d s) where
  cancelled : Option String → Auction → Auction
  cancelled reason x = record x {
    status = AuctionStatus.cancelled;
    admin_action_reason = given reason x.admin_action_reason;
  }

  cancel_auction_writes-Settles :
      (a : Auction) (reason : Option String) (event : Option Bid → Event)
      → Memᴰ a s.auctions
      → is_cancellable a.status ≡ true
      → Settles d a s.auctions (cancel_auction_writes d a reason event s)
  unfolding cancel_auction_writes cancelled release_highest
  cancel_auction_writes-Settles a reason event stored c =
      if_cases (λ (m : Action (Option Bid)). Settles d a s.auctions ((m >>= rest) s))
        (is_active_auction a.status) (find_winning d a.id) (pure none)
        (λ _.
          search_rule d (λ b. b.auction_id == a.id && wins b) s.bids
            (λ o. Settles d a s.auctions (rest o s))
            (λ b t m. sold b (
              m,
              and_right (b.auction_id == a.id) (wins b) t,
              ==→eq b.auction_id a.id (and_left (b.auction_id == a.id) (wins b) t),
            ))
            (λ free. unsold (λ b m t e. apart (sym (rw (e, ==_refl a.id) t) ∙ free b m))))
        (λ idle. unsold (h.1.fresh a stored (pending a.status c idle)))
    where
      rest : Option Bid → Action Bool
      rest b =
          release_highest d a b
          >> (update_auction_status d a.id AuctionStatus.cancelled reason
              >> (save_event d (event b) >> pure true))

      pending :
          (st : AuctionStatus)
          → is_cancellable st ≡ true
          → is_active_auction st ≡ false
          → is_pending_auction st ≡ true
      pending AuctionStatus.pending p q = refl
      pending AuctionStatus.active p q = absurd (apart q)
      pending AuctionStatus.ended p q = p
      pending AuctionStatus.cancelled p q = p

      unfinalized : a.is_finalized ≡ false
      unfinalized = h.1.running a stored (cancellable_running a.status c).0

      unsold : IsVacant a.id s.bids → Settles d a s.auctions (rest none s)
      unsold vacant =
          update_rule d (λ x. x.id) (cancelled reason) a a.id s.auctions
            (λ y. Settles {A = Bool} d a s.auctions (ok true, record s { auctions = y.1 }))
            h.1.auctions stored refl
            (λ _ k r. (
              (
                same_stakes k (λ u. vacant_closed r refl u s.bids vacant) h.0,
                restated-IsMarket h.1 r refl refl (λ _. unfinalized) (λ p. absurd (apart (sym p))),
              ),
              kept r,
            ))

      sold : (b : Bid) → IsWinner a s.bids (some b) → Settles d a s.auctions (rest (some b) s)
      sold b w =
          bind_rule (Freed b) (Settles d a s.auctions) (release_highest d a (some b)) (λ _. stop) s
            (bind_rule (Moves b.bidder_id (pos 0) (pos 0 -ℤ b.amount) s) (Freed b)
              (release d b.bidder_id b.amount (some (object a.id)) none) (λ _. pure tt) s
              (release-Moves d b.bidder_id b.amount (some (object a.id)) none s
                (Owes-IsKeyed s h.0))
              (λ _ t moved. Moved-Released d s h stored w moved) (λ _ _ _. tt))
            (λ _ t rel.
              update_rule d (λ x. x.id) (cancelled reason) a a.id t.auctions
                (λ y. Settles {A = Bool} d a s.auctions (ok true, record t { auctions = y.1 }))
                rel.market.auctions rel.stored refl
                (λ _ k r.
                  closed_out rel r refl refl (λ _. unfinalized) (λ p. absurd (apart (sym p)))
                    (rw ((cancellable_running a.status c).1, unfinalized) refl) refl))
            (λ _ _ _. tt)
        where
          stop : Action Bool
          stop =
              update_auction_status d a.id AuctionStatus.cancelled reason
              >> (save_event d (event (some b)) >> pure true)

          Freed : {A : Type 0} → Bid → Result A × Database → Type 0
          Freed b (ok _, t) = Released d a b s.auctions t
          Freed b (err _, t) = Unit

  committed :
      (a : Auction) (m : Action Bool)
      → Settles d a s.auctions (m s)
      → IsTrading d (in_session m s).1 × Keeps a s.auctions (in_session m s).1.auctions
  committed a m q =
      in_session_rule (Settles d a s.auctions)
        (λ x. IsTrading d x.1 × Keeps a s.auctions x.1.auctions) m s q (λ _ _ v. v)
        (λ _. (h, λ _ n _. n))

  pub cancel_auction-IsTrading :
      (i user : ℕ) (admin : Bool) → IsTrading d (cancel_auction d i user admin s).1
  unfolding cancel_auction
  cancel_auction-IsTrading i user admin =
      find_rule d (λ a. a.id == i) s.auctions
        (λ o. IsTrading d ((or_throw o Error.auction_not_found >>= allowed) s).1)
        (λ a _ m.
          throw_if_rule (not (a.seller_id == user) && not admin) Error.auction_forbidden s
            (λ x. IsTrading d x.1) (running a)
            (λ _.
              throw_if_rule (not (is_cancellable a.status)) Error.auction_invalid_state s
                (λ x. IsTrading d x.1) (in_session (writes a))
                (λ c.
                  (committed a (writes a) (
                    cancel_auction_writes-Settles a none (told a) m
                      (not-false (is_cancellable a.status) c))).0)
                h)
            h)
        h
    where
      told : Auction → Option Bid → Event
      told a b = Event.auction_cancelled a.id a.title a.seller_id (bidder_of b) (amount_of b)

      writes : Auction → Action Bool
      writes a = cancel_auction_writes d a none (told a)

      running : Auction → Action Bool
      running a =
          throw_if (not (is_cancellable a.status)) Error.auction_invalid_state
          >> in_session (writes a)

      allowed : Auction → Action Bool
      allowed a =
          throw_if (not (a.seller_id == user) && not admin) Error.auction_forbidden >> running a

  pub admin_cancel_auction-IsTrading :
      (i : ℕ) (reason : String) → IsTrading d (admin_cancel_auction d i reason s).1
  unfolding admin_cancel_auction
  admin_cancel_auction-IsTrading i reason =
      throw_if_rule (ltb (trimmed_length reason) 10) Error.reason_too_short s (λ x. IsTrading d x.1)
        (find_auction d i >>= λ o. or_throw o Error.auction_not_found >>= running)
        (λ _.
          find_rule d (λ a. a.id == i) s.auctions
            (λ o. IsTrading d ((or_throw o Error.auction_not_found >>= running) s).1)
            (λ a _ m.
              throw_if_rule (not (is_cancellable a.status)) Error.auction_invalid_state s
                (λ x. IsTrading d x.1) (in_session (writes a))
                (λ c.
                  (committed a (writes a) (
                    cancel_auction_writes-Settles a (some reason) (told a) m
                      (not-false (is_cancellable a.status) c))).0)
                h)
            h)
        h
    where
      told : Auction → Option Bid → Event
      told a b =
          Event.auction_cancelled_by_admin a.id a.title a.seller_id reason (bidder_of b)
            (amount_of b)

      writes : Auction → Action Bool
      writes a = cancel_auction_writes d a (some reason) (told a)

      running : Auction → Action Bool
      running a =
          throw_if (not (is_cancellable a.status)) Error.auction_invalid_state
          >> in_session (writes a)

cancel_each-IsTrading :
    (d : Driver) (seller : ℕ) (l : List Auction) (s : Database)
    → IsTrading d s
    → IsTrading d (cancel_each d seller l s)
unfolding cancel_each
cancel_each-IsTrading d seller [] s h = h
cancel_each-IsTrading d seller (a ∷ l) s h =
    cancel_each-IsTrading d seller l (cancel_auction d a.id seller true s).1
      (cancel_auction-IsTrading d s h a.id seller true)

pub cancel_all_for_seller-IsTrading :
    (d : Driver) (seller : ℕ) (s : Database)
    → IsTrading d s
    → IsTrading d (cancel_all_for_seller d seller s)
unfolding cancel_all_for_seller
cancel_all_for_seller-IsTrading d seller s h =
    cancel_each-IsTrading d seller
      (d.find (λ a. a.seller_id == seller && is_cancellable a.status) s.auctions) s h
