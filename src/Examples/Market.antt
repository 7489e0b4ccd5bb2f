-- ===== src/Examples/Market.antt =====
-- An auction with a winning bid, an auto-bid and a withdrawal.
use mathlib.Core.List.{Memᴰ}
use mazadak_backend.Base.{
  ◌*◌, egp, ap, ◌∙◌, ℕ, ℤ, pos, ◌+ℤ◌, ◌≡◌, refl, sym, true, false, none, List, [], ◌∷◌, Bool-cases,
  inl, inr, int_laws, arith, ◌==◌,
}
use mazadak_backend.Store.ListStore.{list_store}
use mazadak_backend.Database.{
  Wallet, Auction, AuctionStatus, AuctionCategory, Bid, WithdrawalRequest, WithdrawalStatus,
  vodafone_cash, Database,
}
use mazadak_backend.Bids.Engine.{winning}
use mazadak_backend.Wallet.Totals.{owned}
use mazadak_backend.Holds.Market.{apart}
use mazadak_backend.Bids.Repositories.{is_pending_auction}
use mazadak_backend.Bids.Trading.{IsTrading}
use mazadak_backend.Withdrawals.Runs.{completes}
use mazadak_backend.Marketplace.{
  MarketCall, withdraws, places_bid, sets_auto_bid, finalizes, ends, run_market_calls,
  run_market_calls-IsTrading,
}

abbrev pub pounds : ℕ → ℤ
pounds n = pos (n * egp)

abbrev wallet_of : ℕ → ℤ → ℤ → Wallet
wallet_of user balance held = record {
  id = user;
  user_id = user;
  balance = balance;
  held_balance = held;
}

abbrev lamp : Auction
lamp = record {
  id = 0;
  seller_id = 3;
  title = "lamp";
  description = "an old lamp";
  category = AuctionCategory.antiques;
  images = [];
  starting_price = pounds 100;
  current_price = pounds 120;
  minimum_bid_increment = pounds 10;
  status = AuctionStatus.active;
  start_time = 0;
  end_time = 50;
  winner_id = none;
  is_finalized = false;
  admin_action_reason = none;
}

abbrev best_bid : Bid
best_bid = record { id = 1; auction_id = 0; bidder_id = 1; amount = pounds 120; status = winning }

abbrev pub payout : WithdrawalRequest
payout = record {
  id = 2;
  user_id = 1;
  amount = pounds 60;
  fee = pos 120000000000000000000;
  fee_percentage = 2000;
  net_amount = pos 5880000000000000000000;
  currency = "EGP";
  payout_method = vodafone_cash;
  payout_details = none;
  status = WithdrawalStatus.pending;
  hold_transaction_id = none;
  completion_transaction_id = none;
  admin_reference = none;
  receipt_url = none;
  rejection_reason = none;
  processed_by = none;
  processed_at = none;
  completed_at = none;
  request_date = 7;
}

abbrev pub market : Database
market = record {
  wallets = wallet_of 1 (pounds 2000) (pounds 180) ∷ wallet_of 2 (pounds 1000) (pos 0) ∷ [];
  transactions = [];
  outbox = [];
  escrows = [];
  disputes = [];
  withdrawals = payout ∷ [];
  auctions = lamp ∷ [];
  bids = best_bid ∷ [];
  auto_bids = [];
  generated = 3;
}

only : {A : Type 0} {x a : A} → Memᴰ x (a ∷ []) → x ≡ a
only (Memᴰ.head e) = e
only (Memᴰ.tail m) = elim m [ ]

held_here :
    (u : ℕ)
    → owned u 1 (pounds 180) +ℤ (owned u 2 (pos 0) +ℤ pos 0) +ℤ pos 0
      ≡ owned u 1 (pounds 60) +ℤ pos 0 +ℤ (owned u 1 (pounds 120) +ℤ pos 0)
unfolding ◌+ℤ◌
held_here u = elim (Bool-cases (1 == u)) [
  | inl e ↦ elim (Bool-cases (2 == u)) [
    | inl f ↦ rw (e, f) (omega int_laws)
    | inr f ↦ rw (e, f) (omega int_laws)
  ]
  | inr e ↦ elim (Bool-cases (2 == u)) [ inl f ↦ rw (e, f) refl | inr f ↦ rw (e, f) refl ]
]

pub market-IsTrading : IsTrading list_store market
unfolding list_store
market-IsTrading = (
  record {
    wallets = ((omega arith, tt), (tt, tt));
    owners = ((omega arith, tt), (tt, tt));
    solvent = (
      record { held_nonneg = omega arith; covered = omega arith },
      (record { held_nonneg = omega arith; covered = omega arith }, tt),
    );
    requests = record { unique = (tt, tt); given = ((2, omega arith, refl), tt) };
    bids = record { unique = (tt, tt); given = ((1, omega arith, refl), tt) };
    held = held_here;
  },
  record {
    auctions = (tt, tt);
    running = λ a m _. ap (λ (x : Auction). x.is_finalized) (only m);
    fresh = λ a m p.
        absurd (apart (sym p ∙ ap (λ (x : Auction). is_pending_auction x.status) (only m)));
    winners = λ b c m n _ _ _. only m ∙ sym (only n);
    prices = λ b a m n _ _.
        ap (λ (x : Auction). x.current_price) (only n) ∙ sym (ap (λ (x : Bid). x.amount) (only m));
  },
)

-- Auto-bids and bids, a completed payout, and the end of the auction.
abbrev busy_day : List MarketCall
busy_day =
    sets_auto_bid true 1 (record { auction_id = 0; max_amount = pounds 300 }) 20
    ∷ places_bid true 2 (record { auction_id = 0; amount = pounds 200 })
    ∷ withdraws (completes 9 2 "ref" "receipt" 30)
    ∷ ends true 60
    ∷ finalizes true 61
    ∷ []

run_market_calls-IsTrading_example :
    IsTrading list_store (run_market_calls list_store busy_day market)
run_market_calls-IsTrading_example =
    run_market_calls-IsTrading list_store busy_day market market-IsTrading
