-- ===== src/Auctions/Schedule.antt =====
-- The scheduled activation of auctions keeps what is due and the market in order.
use mathlib.Core.List.{Memᴰ}
use mazadak_backend.Base.{
  ℕ, ◌≡◌, ◌≢◌, refl, sym, Bool, true, false, none, List, [], ◌∷◌, map, All, Unique, given, leb,
}
use mazadak_backend.Store.{Driver}
use mazadak_backend.Store.Keyed.{update_rule}
use mazadak_backend.Database.{Auction, AuctionStatus, Database}
use mazadak_backend.Wallet.Effect.{and_left}
use mazadak_backend.Holds.{is_cancelled}
use mazadak_backend.Holds.Closing.{same_stakes, nothing_closed}
use mazadak_backend.Holds.Market.{restated-IsMarket, closed_same}
use mazadak_backend.Bids.Repositories.{is_ended_auction, is_pending_auction}
use mazadak_backend.Bids.Trading.{IsTrading}
use mazadak_backend.Bids.Settlement.{Keeps, kept}
use mazadak_backend.Auctions.{activate, activate_each, is_due, activate_pending_auctions}

pub pending_running :
    (st : AuctionStatus)
    → is_pending_auction st ≡ true
    → (is_ended_auction st ≡ false) × (is_cancelled st ≡ false)
pending_running AuctionStatus.pending c = (refl, refl)
pending_running AuctionStatus.active c = (refl, refl)
pending_running AuctionStatus.ended c = (sym c, refl)
pending_running AuctionStatus.cancelled c = (refl, sym c)

module _ (d : Driver) (now : ℕ) where
  activate_each-IsTrading :
      (l : List Auction) (s : Database)
      → IsTrading d s
      → Unique (map (λ a. a.id) l)
      → All (λ a. (is_due now a ≡ true) × Memᴰ a s.auctions) l
      → IsTrading d (activate_each d l s)
  unfolding activate_each
  activate_each-IsTrading [] s h u m = h
  activate_each-IsTrading (a ∷ l) s h u m =
      let (i, others) = activated in
      activate_each-IsTrading l (activate d a s).1 i u.1 (still l u.0 m.1 others)
    where
      pending : is_pending_auction a.status ≡ true
      pending = and_left (is_pending_auction a.status) (leb a.start_time now) m.0.0

      started : Auction → Auction
      started x = record x {
        status = AuctionStatus.active;
        admin_action_reason = given none x.admin_action_reason;
      }

      activated : IsTrading d (activate d a s).1 × Keeps a s.auctions (activate d a s).1.auctions
      activated =
          update_rule d (λ x. x.id) started a a.id s.auctions
            (λ y. IsTrading d (record s { auctions = y.1 }) × Keeps a s.auctions y.1) h.1.auctions
            m.0.1 refl
            (λ _ k r. (
              (
                same_stakes k
                    (λ u.
                      nothing_closed u s.bids s.auctions k (λ j.
                        closed_same j r refl (rw ((pending_running a.status pending).1) refl)))
                    h.0,
                restated-IsMarket h.1 r refl refl
                    (λ _. h.1.running a m.0.1 (pending_running a.status pending).0) (λ _. pending),
              ),
              kept r,
            ))

      still :
          {k : List Auction} (l : List Auction)
          → All (λ j. j ≢ a.id) (map (λ x. x.id) l)
          → All (λ x. (is_due now x ≡ true) × Memᴰ x s.auctions) l
          → Keeps a s.auctions k
          → All (λ x. (is_due now x ≡ true) × Memᴰ x k) l
      still [] u m keeps = tt
      still (x ∷ l) u m keeps = ((m.0.0, keeps x m.0.1 u.0), still l u.1 m.1 keeps)

  pub activate_pending_auctions-IsTrading :
      (locked : Bool) (s : Database)
      → IsTrading d s
      → IsTrading d (activate_pending_auctions d locked now s)
  unfolding activate_pending_auctions
  activate_pending_auctions-IsTrading false s h = h
  activate_pending_auctions-IsTrading true s h =
      activate_each-IsTrading (d.find (is_due now) s.auctions) s h
        (d.find_once (is_due now) (λ a. a.id) s.auctions h.1.auctions)
        (d.find_sound (is_due now) s.auctions)
