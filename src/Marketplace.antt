-- ===== src/Marketplace.antt =====
-- Withdrawals, bids, auto-bids and auctions together: any sequence of calls and scheduled runs.
use Prim.Native.String.{String}
use mazadak_backend.Base.{ℕ, Bool, List, [], ◌∷◌, sym, subst}
use mazadak_backend.Store.{Driver}
use mazadak_backend.Database.{Database}
use mazadak_backend.Holds.{StillBacked}
use mazadak_backend.Holds.Market.{IsMarket}
use mazadak_backend.Withdrawals.Runs.{
  WithdrawalCall, run_withdrawal_call, run_withdrawal_call-StillBacked,
}
use mazadak_backend.Bids.Placing.{PlaceBid, place_bid}
use mazadak_backend.Bids.Trading.{IsTrading}
use mazadak_backend.Bids.Outcome.{place_bid-IsTrading}
use mazadak_backend.Bids.AutoBidding.{SetAutoBid, set_auto_bid, cancel_auto_bid}
use mazadak_backend.Bids.AutoBiddingOutcome.{set_auto_bid-IsTrading, cancel_auto_bid-IsTrading}
use mazadak_backend.Bids.Finalizing.{finalize_ended_auctions}
use mazadak_backend.Bids.Settlement.{finalize_ended_auctions-IsTrading}
use mazadak_backend.Auctions.{
  UpdateAuction, update_auction, cancel_auction, admin_cancel_auction, cancel_all_for_seller,
  activate_pending_auctions, end_active_auctions,
}
use mazadak_backend.Auctions.Invariant.{
  cancel_auction-IsTrading, admin_cancel_auction-IsTrading, cancel_all_for_seller-IsTrading,
}
use mazadak_backend.Auctions.Schedule.{activate_pending_auctions-IsTrading}
use mazadak_backend.Auctions.Ending.{end_active_auctions-IsTrading}
use mazadak_backend.Auctions.Changes.{update_auction-IsTrading}

pub data MarketCall : Type 0 where
  withdraws : (c : WithdrawalCall) → MarketCall
  places_bid : (locked : Bool) (user : ℕ) (input : PlaceBid) → MarketCall
  sets_auto_bid : (locked : Bool) (user : ℕ) (input : SetAutoBid) (now : ℕ) → MarketCall
  cancels_auto_bid : (auction_id user : ℕ) → MarketCall
  finalizes : (locked : Bool) (now : ℕ) → MarketCall
  updates : (auction_id seller : ℕ) (input : UpdateAuction) (now : ℕ) → MarketCall
  cancels : (auction_id user : ℕ) (admin : Bool) → MarketCall
  admin_cancels : (auction_id : ℕ) (reason : String) → MarketCall
  cancels_all : (seller : ℕ) → MarketCall
  activates : (locked : Bool) (now : ℕ) → MarketCall
  ends : (locked : Bool) (now : ℕ) → MarketCall

module _ (d : Driver) where
  abbrev pub run_market_call : MarketCall → Database → Database
  run_market_call (withdraws c) s = run_withdrawal_call d c s
  run_market_call (places_bid locked user input) s = (place_bid d locked user input s).1
  run_market_call (sets_auto_bid locked user input now) s =
      (set_auto_bid d locked user input now s).1
  run_market_call (cancels_auto_bid auction user) s = (cancel_auto_bid d auction user s).1
  run_market_call (finalizes locked now) s = finalize_ended_auctions d locked now s
  run_market_call (updates i seller input now) s = (update_auction d i seller input now s).1
  run_market_call (cancels i user admin) s = (cancel_auction d i user admin s).1
  run_market_call (admin_cancels i reason) s = (admin_cancel_auction d i reason s).1
  run_market_call (cancels_all seller) s = cancel_all_for_seller d seller s
  run_market_call (activates locked now) s = activate_pending_auctions d locked now s
  run_market_call (ends locked now) s = end_active_auctions d locked now s

  IsTrading-kept : (s t : Database) → IsTrading d s → StillBacked d s t → IsTrading d t
  IsTrading-kept s t h (b, same_bids, same_auctions) = (
    b,
    subst (IsMarket t.bids) (sym same_auctions)
        (subst (λ bs. IsMarket bs s.auctions) (sym same_bids) h.1),
  )

  run_market_call-IsTrading :
      (c : MarketCall) (s : Database) → IsTrading d s → IsTrading d (run_market_call c s)
  run_market_call-IsTrading (withdraws c) s h =
      IsTrading-kept s (run_withdrawal_call d c s) h (run_withdrawal_call-StillBacked d c s h.0)
  run_market_call-IsTrading (places_bid locked user input) s h =
      place_bid-IsTrading d s h locked user input
  run_market_call-IsTrading (sets_auto_bid locked user input now) s h =
      set_auto_bid-IsTrading d s h locked user input now
  run_market_call-IsTrading (cancels_auto_bid auction user) s h =
      cancel_auto_bid-IsTrading d s h auction user
  run_market_call-IsTrading (finalizes locked now) s h =
      finalize_ended_auctions-IsTrading d now locked s h
  run_market_call-IsTrading (updates i seller input now) s h =
      update_auction-IsTrading d s h i seller input now
  run_market_call-IsTrading (cancels i user admin) s h = cancel_auction-IsTrading d s h i user admin
  run_market_call-IsTrading (admin_cancels i reason) s h =
      admin_cancel_auction-IsTrading d s h i reason
  run_market_call-IsTrading (cancels_all seller) s h = cancel_all_for_seller-IsTrading d seller s h
  run_market_call-IsTrading (activates locked now) s h =
      activate_pending_auctions-IsTrading d now locked s h
  run_market_call-IsTrading (ends locked now) s h = end_active_auctions-IsTrading d now locked s h

  abbrev pub run_market_calls : List MarketCall → Database → Database
  run_market_calls [] s = s
  run_market_calls (c ∷ cs) s = run_market_calls cs (run_market_call c s)

  -- Suppose that wallets are solvent and keys unique, that every user has held exactly the amounts of
  -- the user's open (PENDING or PROCESSING) withdrawals and of the user's WINNING bids of auctions
  -- neither cancelled nor finalized, that every auction has at most one WINNING bid and that bid's
  -- amount as its price, that a PENDING one has none, and that only ENDED ones are finalized. Then so
  -- it is after any sequence of withdrawal calls, balance adjustments, bids, auto-bids, changes and
  -- cancellations of auctions, and runs of their activation, ending and finalization, whether the
  -- calls return or throw.
  pub run_market_calls-IsTrading :
      (cs : List MarketCall) (s : Database) → IsTrading d s → IsTrading d (run_market_calls cs s)
  run_market_calls-IsTrading [] s h = h
  run_market_calls-IsTrading (c ∷ cs) s h =
      run_market_calls-IsTrading cs (run_market_call c s) (run_market_call-IsTrading c s h)
