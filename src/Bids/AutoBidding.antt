-- ===== src/Bids/AutoBidding.antt =====
-- src/bids/services/auto-bidding.service.ts. Whether the lock of the auction was acquired and the time
-- are arguments; the realtime publication and the cache's invalidation are left out.
use mazadak_backend.Base.{
  ℕ, ℤ, pos, ◌+ℤ◌, ◌-ℤ◌, Bool, false, not, ◌&&◌, Option, none, some, List, [], ◌∷◌, map, ◌==◌,
  ltb_ℤ, eqb_ℤ, is_some, number_to_fixed, if◌then◌else◌,
}
use mazadak_backend.Store.{Driver}
use mazadak_backend.Database.{
  Wallet, Bid, Auction, AutoBid, AutoBidStatus, Event, Error, ok, Action, pure, gets, or_throw,
  ◌>>=◌, ◌>>◌, throw_if, modify, in_session, new_id, save_event,
}
use mazadak_backend.Bids.Engine.{GeneratedBid, ProxyEngineResult, calculate_next_state}
use mazadak_backend.Wallet.{get_wallet_or_throw}
use mazadak_backend.Bids.Repositories.{
  is_winning, is_active_auction, is_active_auto_bid, find_auction, find_winning,
  find_active_auto_bids, update_auto_bid_status,
}
use mazadak_backend.Bids.Placing.{
  bidder_of, least_bid, engine_state, candidate, previous_hold, exhaust_auto_bids, release_winner,
  hold_bid, record_winner, tell_placed,
}

-- SetAutoBidInput
pub record SetAutoBid : Type 0 where
  pub auction_id : ℕ
  pub max_amount : ℤ

-- `bidsToCreate.find(...)`
abbrev pub winning_candidate : List GeneratedBid → Option GeneratedBid
winning_candidate [] = none
winning_candidate (b ∷ l) =
    let rest = winning_candidate l in if is_winning b.status then some b else rest

abbrev pub is_others : ℕ → Option AutoBid → Bool
is_others user none = false
is_others user (some ab) = not (ab.user_id == user)

-- What the wallet must still have for the maximum.
abbrev pub required_delta : Option Bid → ℕ → ℤ → ℤ
required_delta winner user max = max -ℤ previous_hold winner user

abbrev pub cannot_afford : Wallet → ℤ → Bool
cannot_afford w delta = ltb_ℤ (pos 0) delta && ltb_ℤ (w.balance -ℤ w.held_balance) delta

abbrev pub lacks_for : Option Bid → GeneratedBid → Wallet → Bool
lacks_for winner c w =
    ltb_ℤ (w.balance -ℤ w.held_balance +ℤ previous_hold winner c.bidder_id) c.amount

abbrev pub new_auto_bid : ℕ → ℕ → ℤ → ℕ → ℕ → AutoBid
new_auto_bid auction user max now i = record {
  id = i;
  auction_id = auction;
  user_id = user;
  max_amount = number_to_fixed max;
  status = AutoBidStatus.active;
  created_at = now;
}

module _ (d : Driver) where
  open d use {find_one, find_one_and_update, insert}

  abbrev pub find_by_max_amount : ℕ → ℤ → Action (Option AutoBid)
  find_by_max_amount auction max = gets (λ s.
      find_one
        (λ ab.
          ab.auction_id == auction
          && (eqb_ℤ ab.max_amount (number_to_fixed max) && is_active_auto_bid ab.status))
        s.auto_bids)

  -- `upsert`: the auto-bid of the user on the auction is changed, or made.
  abbrev pub make_auto_bid : ℕ → ℕ → ℤ → ℕ → Option AutoBid → Action AutoBid
  make_auto_bid auction user max now (some ab) = pure ab
  make_auto_bid auction user max now none = do
    i ← new_id d
    let ab = new_auto_bid auction user max now i
    modify (λ s. record s { auto_bids = insert ab s.auto_bids })
    pure ab

  abbrev pub change_auto_bid : ℕ → ℕ → ℤ → Action (Option AutoBid)
  change_auto_bid auction user max s =
      let (found, rest) =
        find_one_and_update (λ ab. ab.auction_id == auction && ab.user_id == user)
          (λ ab. record ab { max_amount = number_to_fixed max; status = AutoBidStatus.active })
          s.auto_bids in
      (ok found, record s { auto_bids = rest })

  abbrev pub upsert_auto_bid : ℕ → ℕ → ℤ → ℕ → Action AutoBid
  upsert_auto_bid auction user max now =
      change_auto_bid auction user max >>= make_auto_bid auction user max now

  -- The winning auto-bid cannot be paid.
  abbrev pub exhaust_winner : Auction → GeneratedBid → ℕ → Action (Unit {0})
  exhaust_winner a c i =
      update_auto_bid_status d i AutoBidStatus.exhausted
      >> save_event d (Event.auto_bid_exhausted i a.id a.title c.bidder_id c.amount c.amount)

  unfoldable pub enter_winner : Auction → Option Bid → GeneratedBid → Action (Unit {0})
  enter_winner a winner c = do
    entry ← release_winner d a.id winner
    hold_bid d a.id c.bidder_id c.amount
    b ← record_winner d a.id c.bidder_id c.amount
    tell_placed d a b (bidder_of winner) entry
    save_event d (Event.auto_bid_placed b.id a.id a.title c.bidder_id c.amount)

  unfoldable pub answer_winner :
      Auction → Option Bid → ProxyEngineResult → GeneratedBid → Action (Unit {0})
  unfolding enter_winner
  answer_winner a winner r c = do
    w ← get_wallet_or_throw d c.bidder_id
    elim r.winning_auto_bid_id [
      | none ↦ enter_winner a winner c
      | some i ↦ if lacks_for winner c w then exhaust_winner a c i else enter_winner a winner c
    ]

  abbrev pub apply_candidate :
      Auction → Option Bid → ProxyEngineResult → Option GeneratedBid → Action (Unit {0})
  apply_candidate a winner r none = pure tt
  apply_candidate a winner r (some c) = answer_winner a winner r c

  -- From the upsert on.
  unfoldable pub run_auto_bids : Auction → Option Bid → AutoBid → Action AutoBid
  unfolding answer_winner
  run_auto_bids a winner ab = do
    active ← find_active_auto_bids d a.id
    r ← (do
      or_throw (calculate_next_state (engine_state a winner) (map candidate active) none)
          Error.no_active_auto_bids)
    exhaust_auto_bids d a active r r.exhausted_auto_bid_ids
    apply_candidate a winner r (winning_candidate r.bids_to_create)
    pure ab

  unfoldable pub set_in_auction : ℕ → ℤ → ℕ → Auction → Action AutoBid
  unfolding run_auto_bids
  set_in_auction user max now a = do
    throw_if (not (is_active_auction a.status)) Error.auction_not_active
    throw_if (a.seller_id == user) Error.auto_bid_on_own_auction
    winner ← find_winning d a.id
    throw_if (ltb_ℤ max (least_bid a winner)) Error.auto_bid_max_too_low
    same ← find_by_max_amount a.id max
    throw_if (is_others user same) Error.auto_bid_duplicate_max
    w ← get_wallet_or_throw d user
    throw_if (cannot_afford w (required_delta winner user max)) Error.auto_bid_insufficient_balance
    ab ← upsert_auto_bid a.id user max now
    run_auto_bids a winner ab

  unfoldable pub set_auto_bid : Bool → ℕ → SetAutoBid → ℕ → Action AutoBid
  unfolding set_in_auction
  set_auto_bid locked user input now =
      throw_if (not locked) Error.bidding_busy
      >> in_session (
          find_auction d input.auction_id >>= λ found.
          or_throw found Error.auction_not_found >>= set_in_auction user input.max_amount now)

  abbrev pub find_active_of : ℕ → ℕ → Action (Option AutoBid)
  find_active_of auction user = gets (λ s.
      find_one
        (λ ab. ab.auction_id == auction && (ab.user_id == user && is_active_auto_bid ab.status))
        s.auto_bids)

  abbrev pub cancel_active_of : ℕ → ℕ → Action (Option AutoBid)
  cancel_active_of auction user s =
      let (found, rest) =
        find_one_and_update
          (λ ab. ab.auction_id == auction && (ab.user_id == user && is_active_auto_bid ab.status))
          (λ ab. record ab { status = AutoBidStatus.cancelled }) s.auto_bids in
      (ok found, record s { auto_bids = rest })

  unfoldable pub cancel_auto_bid : ℕ → ℕ → Action Bool
  cancel_auto_bid auction user = do
    existing ← find_active_of auction user
    throw_if (not (is_some existing)) Error.auto_bid_not_found
    cancelled ← cancel_active_of auction user
    pure (is_some cancelled)
