-- ===== src/Bids/Engine/Announce.antt =====
-- Which bids the engine records: a result stands for one winning bid.
use mazadak_backend.Base.{
  ℤ, ◌≡◌, refl, true, false, none, some, List, [], ◌∷◌, filter, arith, Bool, inl, Option, subst,
  ◌⊎◌,
}
use mathlib.Core.Option.{some-injective}
use mazadak_backend.Bids.Engine.{
  AuctionEngineState, AutoBidCandidate, ManualBidCandidate, ProxyEngineResult, GeneratedBid,
  winning, outbid, bid, sort_auto_bids, manual_turn, manual_wins, auto_counters, competes,
  fresh_turn, reigning_turn, challenge_turn, auto_turn, auto_wins, calculate_next_state,
}

abbrev is_winning : GeneratedBid → Bool
is_winning b = elim b.status [ winning ↦ true | outbid ↦ false ]

-- The winning bids among those that a result creates.
abbrev pub winning_bids : ProxyEngineResult → List GeneratedBid
winning_bids r = filter is_winning r.bids_to_create

-- The one winning bid that a result stands for.
abbrev pub announced : ProxyEngineResult → GeneratedBid
announced r = bid r.winning_bidder_id r.winning_amount winning r.is_auto_bid

manual_turn-one_winner :
    (increment : ℤ) (l : List AutoBidCandidate) (m : ManualBidCandidate)
    → winning_bids (manual_turn increment l m) ≡ announced (manual_turn increment l m) ∷ []
unfolding manual_turn manual_wins auto_counters
manual_turn-one_winner increment [] m = refl
manual_turn-one_winner increment (top ∷ rest) m = ground arith

-- A result without a winning bid keeps the price, retires nobody, and is given only to the bidder who
-- is winning.
abbrev pub Announces : AuctionEngineState → ProxyEngineResult → Type 0
Announces s r =
    (winning_bids r ≡ announced r ∷ [])
    ⊎ ((r.bids_to_create ≡ [])
        × (s.has_existing_bids ≡ true)
        × (s.current_winner_id ≡ some r.winning_bidder_id)
        × (r.winning_amount ≡ s.current_price)
        × (r.exhausted_auto_bid_ids ≡ []))

auto_turn-Announces :
    (s : AuctionEngineState) (l : List AutoBidCandidate) (r : ProxyEngineResult)
    → auto_turn s l ≡ some r
    → Announces s r
unfolding auto_turn fresh_turn reigning_turn challenge_turn auto_wins
auto_turn-Announces s [] r e = cc
auto_turn-Announces s (top ∷ []) r e = ground arith
auto_turn-Announces s (top ∷ second ∷ others) r e = ground arith

-- Every result of the engine announces its winner by exactly one winning bid of that bidder and
-- price, or creates no bid at all: then the current winner and the current price stay, and no auto-bid
-- is retired.
pub calculate-Announces :
    (s : AuctionEngineState) (active : List AutoBidCandidate) (m : Option ManualBidCandidate)
    (r : ProxyEngineResult)
    → calculate_next_state s active m ≡ some r
    → Announces s r
unfolding calculate_next_state
calculate-Announces s active none r e = auto_turn-Announces s (sort_auto_bids active) r e
calculate-Announces s active (some m) r e =
    let l = filter (competes m) (sort_auto_bids active) in
    subst (Announces s) (some-injective _ _ e)
      (inl (manual_turn-one_winner s.minimum_bid_increment l m))
