-- ===== src/Bids/Repositories.antt =====
-- mongo.bid.repository.ts, mongo.auto-bid.repository.ts and, of mongo.auction.repository.ts, what the
-- bidding services call.
use mazadak_backend.Base.{ℕ, ℤ, Bool, true, false, ◌&&◌, Option, List, ◌==◌, given}
use mazadak_backend.Store.{Driver}
use mazadak_backend.Bids.Engine.{BidStatus, winning, outbid}
use mazadak_backend.Database.{
  Bid, Auction, AuctionStatus, AutoBid, AutoBidStatus, Action, pure, gets, ◌>>=◌, ◌>>◌, modify,
  new_id,
}

abbrev pub is_winning : BidStatus → Bool
is_winning winning = true
is_winning outbid = false

abbrev pub is_active_auction : AuctionStatus → Bool
is_active_auction AuctionStatus.active = true
is_active_auction _ = false

abbrev pub is_pending_auction : AuctionStatus → Bool
is_pending_auction AuctionStatus.pending = true
is_pending_auction _ = false

abbrev pub is_ended_auction : AuctionStatus → Bool
is_ended_auction AuctionStatus.ended = true
is_ended_auction _ = false

abbrev pub is_active_auto_bid : AutoBidStatus → Bool
is_active_auto_bid AutoBidStatus.active = true
is_active_auto_bid _ = false

abbrev pub new_bid : ℕ → ℕ → ℤ → BidStatus → ℕ → Bid
new_bid auction bidder amount status i = record {
  id = i;
  auction_id = auction;
  bidder_id = bidder;
  amount = amount;
  status = status;
}

module _ (d : Driver) where
  open d use {find_one, find_one_and_update, find, update_many, insert}

  abbrev pub find_auction : ℕ → Action (Option Auction)
  find_auction i = gets (λ s. find_one (λ a. a.id == i) s.auctions)

  abbrev pub find_winning : ℕ → Action (Option Bid)
  find_winning i = gets (λ s. find_one (λ b. b.auction_id == i && is_winning b.status) s.bids)

  abbrev pub create_bid : ℕ → ℕ → ℤ → BidStatus → Action Bid
  create_bid auction bidder amount status = do
    i ← new_id d
    let b = new_bid auction bidder amount status i
    modify (λ s. record s { bids = insert b s.bids })
    pure b

  abbrev pub update_bid_status : ℕ → BidStatus → Action (Unit {0})
  update_bid_status i status = modify (λ s. record s {
    bids = (find_one_and_update (λ b. b.id == i) (λ b. record b { status = status }) s.bids).1;
  })

  abbrev pub update_current_price : ℕ → ℤ → Action (Unit {0})
  update_current_price i price = modify (λ s. record s {
    auctions =
        (find_one_and_update (λ a. a.id == i) (λ a. record a { current_price = price })
          s.auctions).1;
  })

  abbrev pub find_active_auto_bids : ℕ → Action (List AutoBid)
  find_active_auto_bids i =
      gets (λ s. find (λ ab. ab.auction_id == i && is_active_auto_bid ab.status) s.auto_bids)

  abbrev pub update_auto_bid_status : ℕ → AutoBidStatus → Action (Unit {0})
  update_auto_bid_status i status = modify (λ s. record s {
    auto_bids =
        (find_one_and_update (λ ab. ab.id == i) (λ ab. record ab { status = status })
          s.auto_bids).1;
  })

  abbrev pub deactivate_all_for_auction : ℕ → AutoBidStatus → Action (Unit {0})
  deactivate_all_for_auction i status = modify (λ s. record s {
    auto_bids =
        update_many (λ ab. ab.auction_id == i && is_active_auto_bid ab.status)
          (λ ab. record ab { status = status }) s.auto_bids;
  })

  -- With no winner the field stays as it is.
  abbrev pub finalize_auction : ℕ → Option ℕ → Action (Unit {0})
  finalize_auction i winner = modify (λ s. record s {
    auctions =
        (find_one_and_update (λ a. a.id == i)
          (λ a. record a { is_finalized = true; winner_id = given winner a.winner_id })
          s.auctions).1;
  })
