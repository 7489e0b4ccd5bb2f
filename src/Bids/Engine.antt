-- ===== src/Bids/Engine.antt =====
-- src/bids/services/proxy-bidding-engine.service.ts: the pure calculation of an auction's next
-- state. Prices are integers of the smallest unit, so `toNumber` is the identity.
pub mod Order
pub mod Manual
pub mod Auto
pub mod Announce
pub mod Exhaustion
use mazadak_backend.Base.{
  ℕ, ℤ, ◌+ℤ◌, Bool, true, false, not, ◌&&◌, Option, none, some, List, [], ◌∷◌, ◌++◌, map, filter,
  ◌==◌, ltb, leb, ltb_ℤ, leb_ℤ, eqb_ℤ, min_ℤ, max_ℤ, is_id, if◌then◌else◌,
}

pub data BidStatus : Type 0 where
  winning outbid : BidStatus

pub record AuctionEngineState : Type 0 where
  pub start_price : ℤ
  pub current_price : ℤ
  pub minimum_bid_increment : ℤ
  pub has_existing_bids : Bool
  pub current_winner_id : Option ℕ

pub record AutoBidCandidate : Type 0 where
  pub id : ℕ
  pub user_id : ℕ
  pub max_amount : ℤ
  pub created_at : ℕ

pub record ManualBidCandidate : Type 0 where
  pub bidder_id : ℕ
  pub amount : ℤ

pub record GeneratedBid : Type 0 where
  pub bidder_id : ℕ
  pub amount : ℤ
  pub status : BidStatus
  pub is_auto_bid : Bool

pub record ProxyEngineResult : Type 0 where
  pub winning_bidder_id : ℕ
  pub winning_amount : ℤ
  pub is_auto_bid : Bool
  pub winning_auto_bid_id : Option ℕ
  pub exhausted_auto_bid_ids : List ℕ
  pub bids_to_create : List GeneratedBid

-- The comparator gives at most 0: a larger maximum first, then the earlier one.
abbrev pub comes_first : AutoBidCandidate → AutoBidCandidate → Bool
comes_first a b =
    if eqb_ℤ a.max_amount b.max_amount
    then leb a.created_at b.created_at
    else ltb_ℤ b.max_amount a.max_amount

pub sort_insert : AutoBidCandidate → List AutoBidCandidate → List AutoBidCandidate
sort_insert a [] = a ∷ []
sort_insert a (b ∷ l) =
    let rest = sort_insert a l in if comes_first a b then a ∷ b ∷ l else b ∷ rest

-- `[...activeAutoBids].sort(...)`, which is stable.
pub sort_auto_bids : List AutoBidCandidate → List AutoBidCandidate
unfolding sort_insert
sort_auto_bids [] = []
sort_auto_bids (a ∷ l) = sort_insert a (sort_auto_bids l)

abbrev pub bid : ℕ → ℤ → BidStatus → Bool → GeneratedBid
bid bidder amount status auto = record {
  bidder_id = bidder;
  amount = amount;
  status = status;
  is_auto_bid = auto;
}

abbrev pub competes : ManualBidCandidate → AutoBidCandidate → Bool
competes m ab = not (ab.user_id == m.bidder_id)

abbrev pub ids : List AutoBidCandidate → List ℕ
ids = map (λ ab. ab.id)

-- The auto-bids that the manual amount reaches.
abbrev pub reached : ManualBidCandidate → List AutoBidCandidate → List AutoBidCandidate
reached m = filter (λ ab. leb_ℤ ab.max_amount m.amount)

-- The manual bidder's win, at the amount offered.
pub manual_wins : ManualBidCandidate → List ℕ → ProxyEngineResult
manual_wins m exhausted = record {
  winning_bidder_id = m.bidder_id;
  winning_amount = m.amount;
  is_auto_bid = false;
  winning_auto_bid_id = none;
  exhausted_auto_bid_ids = exhausted;
  bids_to_create = bid m.bidder_id m.amount winning false ∷ [];
}

-- The top auto-bid's answer to a manual bid, at the given price.
pub auto_counters : ManualBidCandidate → AutoBidCandidate → ℤ → List ℕ → ProxyEngineResult
auto_counters m top price exhausted = record {
  winning_bidder_id = top.user_id;
  winning_amount = price;
  is_auto_bid = true;
  winning_auto_bid_id = some top.id;
  exhausted_auto_bid_ids = exhausted;
  bids_to_create = bid m.bidder_id m.amount outbid false ∷ bid top.user_id price winning true ∷ [];
}

-- Scenario A, over the competing auto-bids, best first.
pub manual_turn : ℤ → List AutoBidCandidate → ManualBidCandidate → ProxyEngineResult
unfolding manual_wins auto_counters
manual_turn increment [] m = manual_wins m []
manual_turn increment (top ∷ rest) m =
    let exhausted = ids (reached m (top ∷ rest)) in
    if leb_ℤ (m.amount +ℤ increment) top.max_amount
    then auto_counters m top (m.amount +ℤ increment) exhausted
    else if ltb_ℤ m.amount top.max_amount
    then auto_counters m top top.max_amount (exhausted ++ top.id ∷ [])
    else if eqb_ℤ top.max_amount m.amount
    then auto_counters m top top.max_amount (exhausted ++ top.id ∷ [])
    else manual_wins m exhausted

-- A result of scenario B: the top auto-bid wins at the price.
pub auto_wins : AutoBidCandidate → ℤ → List ℕ → List GeneratedBid → ProxyEngineResult
auto_wins top price exhausted created = record {
  winning_bidder_id = top.user_id;
  winning_amount = price;
  is_auto_bid = true;
  winning_auto_bid_id = some top.id;
  exhausted_auto_bid_ids = exhausted;
  bids_to_create = created;
}

abbrev pub also_if : Bool → ℕ → List ℕ → List ℕ
also_if b i l = if b then l ++ i ∷ [] else l

-- The first bids of an auction.
pub fresh_turn : AuctionEngineState → AutoBidCandidate → List AutoBidCandidate → ProxyEngineResult
unfolding auto_wins
fresh_turn s top [] =
    auto_wins top s.start_price [] (bid top.user_id s.start_price winning true ∷ [])
fresh_turn s top (second ∷ others) =
    let target = min_ℤ top.max_amount (second.max_amount +ℤ s.minimum_bid_increment) in
    auto_wins top target (also_if (eqb_ℤ top.max_amount target) top.id (ids (second ∷ others)))
      (bid second.user_id second.max_amount outbid true ∷ bid top.user_id target winning true ∷ [])

-- The top auto-bid belongs to the bidder who is winning already.
pub reigning_turn :
    AuctionEngineState → AutoBidCandidate → List AutoBidCandidate → ProxyEngineResult
unfolding auto_wins
reigning_turn s top [] = auto_wins top s.current_price [] []
reigning_turn s top (second ∷ others) =
    let target = min_ℤ top.max_amount (second.max_amount +ℤ s.minimum_bid_increment) in
    if leb_ℤ s.current_price second.max_amount
    then auto_wins top target (also_if (eqb_ℤ top.max_amount target) top.id (ids (second ∷ others)))
        (bid top.user_id target winning true ∷ [])
    else auto_wins top s.current_price [] []

abbrev pub second_max : ℤ → List AutoBidCandidate → ℤ
second_max price [] = price
second_max price (second ∷ others) = second.max_amount

-- What the second auto-bid adds to the base: an increment if it stands above the current price.
pub challenge_base : AuctionEngineState → List AutoBidCandidate → ℤ
challenge_base s [] = max_ℤ (s.current_price +ℤ s.minimum_bid_increment) s.current_price
challenge_base s (second ∷ others) =
    let base = max_ℤ (s.current_price +ℤ s.minimum_bid_increment) second.max_amount in
    if ltb_ℤ s.current_price second.max_amount then base +ℤ s.minimum_bid_increment else base

pub challenge_price : AuctionEngineState → AutoBidCandidate → List AutoBidCandidate → ℤ
unfolding challenge_base
challenge_price s top others =
    max_ℤ (s.current_price +ℤ s.minimum_bid_increment)
      (min_ℤ top.max_amount (challenge_base s others))

-- Somebody else is winning, and the top auto-bid enters.
pub challenge_turn :
    AuctionEngineState → AutoBidCandidate → List AutoBidCandidate → ProxyEngineResult
unfolding auto_wins challenge_price
challenge_turn s top others =
    let price = challenge_price s top others in
    auto_wins top price (also_if (leb_ℤ top.max_amount price) top.id (ids others))
      (bid top.user_id price winning true ∷ [])

-- Scenario B, over all active auto-bids, best first. `none` is NoActiveAutoBidsException.
pub auto_turn : AuctionEngineState → List AutoBidCandidate → Option ProxyEngineResult
unfolding fresh_turn reigning_turn challenge_turn
auto_turn s [] = none
auto_turn s (top ∷ others) = some (
    if not s.has_existing_bids
    then fresh_turn s top others
    else if is_id s.current_winner_id top.user_id
    then reigning_turn s top others
    else challenge_turn s top others)

unfoldable pub calculate_next_state :
    AuctionEngineState
    → List AutoBidCandidate
    → Option ManualBidCandidate
    → Option ProxyEngineResult
unfolding sort_auto_bids manual_turn auto_turn
calculate_next_state s active (some m) =
    some (manual_turn s.minimum_bid_increment (filter (competes m) (sort_auto_bids active)) m)
calculate_next_state s active none = auto_turn s (sort_auto_bids active)
