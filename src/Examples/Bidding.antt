-- ===== src/Examples/Bidding.antt =====
-- The theorems on the bidding engine, at a running auction with two auto-bids.
use mazadak_backend.Base.{
  pos, ◌≡◌, refl, false, ◌⊎◌, ◌<ℤ◌, ◌+ℤ◌, max_ℤ, min_ℤ, true, none, some, List, [], ◌∷◌, arith,
}
use mazadak_backend.Bids.Engine.{
  AuctionEngineState, AutoBidCandidate, ManualBidCandidate, ProxyEngineResult, winning, outbid, bid,
  calculate_next_state,
}
use mazadak_backend.Bids.Engine.Manual.{ManualWin, AutoWin, manual_bid_outcome}
use mazadak_backend.Bids.Engine.Auto.{challenge_exceeds_maximum}
use mazadak_backend.Bids.Engine.Announce.{Announces, calculate-Announces}
use mazadak_backend.Bids.Engine.Exhaustion.{RetiresBeaten, calculate-RetiresBeaten}

-- User 20 leads at 200; the next bid is 210 at least.
abbrev running : AuctionEngineState
running = record {
  start_price = pos 100;
  current_price = pos 200;
  minimum_bid_increment = pos 10;
  has_existing_bids = true;
  current_winner_id = some 20;
}

abbrev first_auto : AutoBidCandidate
first_auto = record { id = 1; user_id = 10; max_amount = pos 500; created_at = 1 }

abbrev second_auto : AutoBidCandidate
second_auto = record { id = 2; user_id = 11; max_amount = pos 300; created_at = 2 }

abbrev low_auto : AutoBidCandidate
low_auto = record { id = 3; user_id = 12; max_amount = pos 205; created_at = 3 }

abbrev offer : ManualBidCandidate
offer = record { bidder_id = 30; amount = pos 350 }

abbrev both : List AutoBidCandidate
both = second_auto ∷ first_auto ∷ []

-- What the engine answers to the offer, and what it does without one.
abbrev countered : ProxyEngineResult
countered = record {
  winning_bidder_id = 10;
  winning_amount = pos 360;
  is_auto_bid = true;
  winning_auto_bid_id = some 1;
  exhausted_auto_bid_ids = 2 ∷ [];
  bids_to_create = bid 30 (pos 350) outbid false ∷ bid 10 (pos 360) winning true ∷ [];
}

abbrev challenged : ProxyEngineResult
challenged = record {
  winning_bidder_id = 10;
  winning_amount = pos 310;
  is_auto_bid = true;
  winning_auto_bid_id = some 1;
  exhausted_auto_bid_ids = 2 ∷ [];
  bids_to_create = bid 10 (pos 310) winning true ∷ [];
}

answers : calculate_next_state running both (some offer) ≡ some countered
unfolding calculate_next_state ◌+ℤ◌
answers = refl

challenges : calculate_next_state running both none ≡ some challenged
unfolding calculate_next_state max_ℤ ◌+ℤ◌ min_ℤ
challenges = refl

manual_bid_outcome_example :
    (r : ProxyEngineResult) × (calculate_next_state running both (some offer) ≡ some r)
    × (ManualWin both offer r ⊎ AutoWin (pos 10) both offer r)
manual_bid_outcome_example = manual_bid_outcome running both offer (omega arith)

challenge_exceeds_maximum_example :
    (r : ProxyEngineResult) × (calculate_next_state running (low_auto ∷ []) none ≡ some r)
    × (r.winning_bidder_id ≡ 12)
    × (pos 205 <ℤ r.winning_amount)
unfolding ◌+ℤ◌
challenge_exceeds_maximum_example =
    challenge_exceeds_maximum running low_auto refl refl (omega arith) (omega arith)

calculate-Announces_example : Announces running countered
calculate-Announces_example = calculate-Announces running both (some offer) countered answers

calculate-RetiresBeaten_example : RetiresBeaten both challenged
calculate-RetiresBeaten_example =
    calculate-RetiresBeaten running both none challenged (omega arith) challenges
