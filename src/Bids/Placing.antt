-- ===== src/Bids/Placing.antt =====
-- `placeBid` of src/bids/bids.service.ts. Whether the lock of the auction was acquired is an argument.
-- The realtime publications and the cache's invalidation after the session are left out: nothing of
-- the modelled state depends on them.
use mazadak_backend.Base.{
  ℕ, ℤ, pos, ◌+ℤ◌, ◌-ℤ◌, Bool, not, Option, none, some, List, [], ◌∷◌, map, ◌==◌, ltb_ℤ, is_some,
  is_id, if◌then◌else◌,
}
use mazadak_backend.Store.{Driver}
use mazadak_backend.Database.{
  Wallet, Bid, Auction, AutoBid, AutoBidStatus, TransactionReferenceType, object, Event, Error,
  Action, pure, or_throw, ◌>>=◌, ◌>>◌, throw_if, in_session, save_event,
}
use mazadak_backend.Bids.Engine.{
  winning, outbid, AuctionEngineState, AutoBidCandidate, ProxyEngineResult, calculate_next_state,
}
use mazadak_backend.Wallet.{get_wallet_or_throw, hold, release}
use mazadak_backend.Bids.Repositories.{
  is_active_auction, find_auction, find_winning, create_bid, update_bid_status,
  update_current_price, find_active_auto_bids, update_auto_bid_status,
}

-- PlaceBidInput
pub record PlaceBid : Type 0 where
  pub auction_id : ℕ
  pub amount : ℤ

abbrev pub bidder_of : Option Bid → Option ℕ
bidder_of none = none
bidder_of (some b) = some b.bidder_id

-- The price that bids are compared with, and the least that a new one must offer.
abbrev pub price_of : Auction → Option Bid → ℤ
price_of a none = a.starting_price
price_of a (some b) = a.current_price

abbrev pub least_bid : Auction → Option Bid → ℤ
least_bid a none = a.starting_price
least_bid a (some b) = a.current_price +ℤ a.minimum_bid_increment

abbrev pub engine_state : Auction → Option Bid → AuctionEngineState
engine_state a winner = record {
  start_price = a.starting_price;
  current_price = price_of a winner;
  minimum_bid_increment = a.minimum_bid_increment;
  has_existing_bids = is_some winner;
  current_winner_id = bidder_of winner;
}

abbrev pub candidate : AutoBid → AutoBidCandidate
candidate ab = record {
  id = ab.id;
  user_id = ab.user_id;
  max_amount = ab.max_amount;
  created_at = ab.created_at;
}

-- `activeAutoBids.find(...)`
abbrev pub with_id : ℕ → List AutoBid → Option AutoBid
with_id i [] = none
with_id i (ab ∷ l) = let rest = with_id i l in if ab.id == i then some ab else rest

-- What an auto-bid of the user that could not pay would free on this auction.
abbrev pub previous_hold : Option Bid → ℕ → ℤ
previous_hold none user = pos 0
previous_hold (some b) user = if b.bidder_id == user then b.amount else pos 0

-- Whether the winner of the engine cannot pay.
abbrev pub lacks_funds : Option Bid → ProxyEngineResult → Wallet → Bool
lacks_funds winner r w =
    ltb_ℤ (w.balance -ℤ w.held_balance +ℤ previous_hold winner r.winning_bidder_id) r.winning_amount

-- What the checks of `placeBid` find.
abbrev pub may_bid : Auction → Option Bid → ℕ → ℤ → Action (Unit {0})
may_bid a winner user amount = do
  throw_if (is_id (bidder_of winner) user) Error.already_highest_bidder
  throw_if (ltb_ℤ amount (least_bid a winner)) Error.bid_amount_too_low

module _ (d : Driver) where
  -- Nobody is told that is winning.
  abbrev pub tell_exhausted : Auction → ProxyEngineResult → Option AutoBid → Action (Unit {0})
  tell_exhausted a r none = pure tt
  tell_exhausted a r (some ab) =
      if ab.user_id == r.winning_bidder_id
      then pure tt
      else save_event d
          (Event.auto_bid_exhausted ab.id a.id a.title ab.user_id ab.max_amount r.winning_amount)

  -- The loop over `exhaustedAutoBidIds`.
  abbrev pub exhaust_auto_bids :
      Auction → List AutoBid → ProxyEngineResult → List ℕ → Action (Unit {0})
  exhaust_auto_bids a active r [] = pure tt
  exhaust_auto_bids a active r (i ∷ l) =
      update_auto_bid_status d i AutoBidStatus.exhausted
      >> (tell_exhausted a r (with_id i active) >> exhaust_auto_bids a active r l)

  -- The previous winner's hold is released and the bid marked OUTBID; the entry's identifier.
  unfoldable pub release_winner : ℕ → Option Bid → Action (Option ℕ)
  release_winner auction none = pure none
  release_winner auction (some b) = do
    m ←
        release d b.bidder_id b.amount (some (object auction))
          (some TransactionReferenceType.auction)
    update_bid_status d b.id outbid
    pure (some m.1.id)

  -- The new winning bid and the price.
  abbrev pub record_winner : ℕ → ℕ → ℤ → Action Bid
  record_winner auction bidder amount = do
    b ← create_bid d auction bidder amount winning
    update_current_price d auction amount
    pure b

  abbrev pub tell_placed : Auction → Bid → Option ℕ → Option ℕ → Action (Unit {0})
  tell_placed a b outbid_user entry =
      save_event d
        (Event.bid_placed b.id a.id a.title a.seller_id b.bidder_id b.amount outbid_user entry)

  abbrev pub hold_bid : ℕ → ℕ → ℤ → Action (Unit {0})
  hold_bid auction user amount =
      hold d user amount (some (object auction)) (some TransactionReferenceType.auction) >>= λ _.
      pure tt

  -- The manual bidder wins.
  unfoldable pub place_winning : Auction → Option Bid → ℕ → ℤ → Action Bid
  unfolding release_winner
  place_winning a winner user amount = do
    hold_bid a.id user amount
    entry ← release_winner a.id winner
    b ← record_winner a.id user amount
    tell_placed a b (bidder_of winner) entry
    pure b

  -- The winning auto-bid cannot be paid: it is exhausted, and the manual bidder wins.
  unfoldable pub place_over_exhausted :
      Auction → Option Bid → ℕ → ℤ → ProxyEngineResult → ℕ → Action Bid
  unfolding release_winner
  place_over_exhausted a winner user amount r auto_bid = do
    update_auto_bid_status d auto_bid AutoBidStatus.exhausted
    save_event d
        (Event.auto_bid_exhausted auto_bid a.id a.title r.winning_bidder_id r.winning_amount amount)
    entry ← release_winner a.id winner
    hold_bid a.id user amount
    b ← record_winner a.id user amount
    tell_placed a b (bidder_of winner) entry
    pure b

  -- The auto-bid wins: the manual bid is recorded as OUTBID and returned.
  unfoldable pub place_under_auto_bid :
      Auction → Option Bid → ℕ → ℤ → ProxyEngineResult → Action Bid
  unfolding release_winner
  place_under_auto_bid a winner user amount r = do
    lost ← create_bid d a.id user amount outbid
    freed ← release_winner a.id winner
    let entry = if is_id (bidder_of winner) r.winning_bidder_id then none else freed
    hold_bid a.id r.winning_bidder_id r.winning_amount
    b ← record_winner a.id r.winning_bidder_id r.winning_amount
    tell_placed a b (some user) entry
    save_event d (Event.auto_bid_placed b.id a.id a.title b.bidder_id b.amount)
    pure lost

  -- An auto-bid has won, if it can be paid.
  unfoldable pub answer_auto_bid : Auction → Option Bid → ℕ → ℤ → ProxyEngineResult → Action Bid
  unfolding place_over_exhausted place_under_auto_bid
  answer_auto_bid a winner user amount r = do
    w ← get_wallet_or_throw d r.winning_bidder_id
    elim r.winning_auto_bid_id [
      | none ↦ place_under_auto_bid a winner user amount r
      | some i ↦
          if lacks_funds winner r w
          then place_over_exhausted a winner user amount r i
          else place_under_auto_bid a winner user amount r
    ]

  -- From the engine's result on.
  unfoldable pub apply_result :
      Auction → Option Bid → ℕ → ℤ → List AutoBid → ProxyEngineResult → Action Bid
  unfolding place_winning answer_auto_bid
  apply_result a winner user amount active r = do
    exhaust_auto_bids a active r r.exhausted_auto_bid_ids
    if r.winning_bidder_id == user
        then place_winning a winner user amount
        else answer_auto_bid a winner user amount r

  unfoldable pub place_in_auction : ℕ → ℤ → Auction → Action Bid
  unfolding apply_result
  place_in_auction user amount a = do
    throw_if (not (is_active_auction a.status)) Error.auction_not_active
    throw_if (a.seller_id == user) Error.bid_on_own_auction
    winner ← find_winning d a.id
    may_bid a winner user amount
    active ← find_active_auto_bids d a.id
    r ← (do
      or_throw
          (calculate_next_state (engine_state a winner) (map candidate active)
            (some (record { bidder_id = user; amount = amount })))
          Error.no_active_auto_bids)
    apply_result a winner user amount active r

  -- The session of `placeBid`.
  unfoldable pub place_bid_writes : ℕ → PlaceBid → Action Bid
  unfolding place_in_auction
  place_bid_writes user input = do
    found ← find_auction d input.auction_id
    a ← (do or_throw found Error.auction_not_found)
    place_in_auction user input.amount a

  unfoldable pub place_bid : Bool → ℕ → PlaceBid → Action Bid
  unfolding place_bid_writes
  place_bid locked user input =
      throw_if (not locked) Error.bidding_busy >> in_session (place_bid_writes user input)
