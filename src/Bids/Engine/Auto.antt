-- ===== src/Bids/Engine/Auto.antt =====
-- Scenario B of the engine: the active auto-bids against one another.
use mazadak_backend.Base.{
  ℤ, pos, ◌≡◌, ◌⊎◌, refl, true, false, none, some, List, [], ◌∷◌, ◌+ℤ◌, ◌≤ℤ◌, ◌<ℤ◌, min_ℤ, max_ℤ,
  not, All, All-imp, arith, +ℤ_parts, if◌then◌else◌, is_id,
}
use mathlib.Core.List.{Memᴰ}
use mazadak_backend.Bids.Engine.{
  AuctionEngineState, AutoBidCandidate, ProxyEngineResult, fresh_turn, reigning_turn,
  challenge_turn, challenge_price, challenge_base, calculate_next_state,
}
use mazadak_backend.Bids.Engine.Order.{Descending}

-- The least bid that the callers accept.
abbrev pub minimum_required : AuctionEngineState → ℤ
minimum_required s =
    if s.has_existing_bids then s.current_price +ℤ s.minimum_bid_increment else s.start_price

-- Over the candidates in order: what the turn makes of the best one and the others.
pub record Settles (s : AuctionEngineState) (top : AutoBidCandidate)
    (others : List AutoBidCandidate) (r : ProxyEngineResult) : Type 0 where
  pub winner : r.winning_bidder_id ≡ top.user_id
  pub auto_bid : r.winning_auto_bid_id ≡ some top.id
  pub unbeaten : All (λ ab. ab.max_amount ≤ℤ r.winning_amount) others
  pub affordable : r.winning_amount ≤ℤ top.max_amount
  pub no_lower : s.has_existing_bids ≡ true → s.current_price ≤ℤ r.winning_amount

module _ (s : AuctionEngineState) (i : pos 0 ≤ℤ s.minimum_bid_increment) where
  below_price :
      (a : AutoBidCandidate) (l : List AutoBidCandidate) (price : ℤ)
      → All (λ ab. ab.max_amount ≤ℤ a.max_amount) l
      → a.max_amount ≤ℤ price
      → All (λ ab. ab.max_amount ≤ℤ price) (a ∷ l)
  below_price a l price h k = (
    k,
    All-imp (λ ab. ab.max_amount ≤ℤ a.max_amount) (λ ab. ab.max_amount ≤ℤ price)
        (λ ab j. omega arith) l h,
  )

  -- The price that beats the second auto-bid reaches all but the top one.
  pub below_target :
      (top second : AutoBidCandidate) (others : List AutoBidCandidate)
      → Descending (top ∷ second ∷ others)
      → All
          (λ ab.
            ab.max_amount ≤ℤ min_ℤ top.max_amount (second.max_amount +ℤ s.minimum_bid_increment))
          (second ∷ others)
  below_target top second others d =
      below_price second others _ d.1.0
        (unfold min_ℤ in ground (arith, +ℤ_parts second.max_amount s.minimum_bid_increment, d.0.0))

  pub challenge_above :
      (top : AutoBidCandidate) (others : List AutoBidCandidate)
      → Descending (top ∷ others)
      → All (λ ab. ab.max_amount ≤ℤ challenge_price s top others) others
  unfolding challenge_price challenge_base
  challenge_above top [] d = tt
  challenge_above top (second ∷ others) d = below_price second others _ d.1.0 (
      unfold min_ℤ max_ℤ in
      ground (
        arith,
        +ℤ_parts s.current_price s.minimum_bid_increment,
        +ℤ_parts (max_ℤ (s.current_price +ℤ s.minimum_bid_increment) second.max_amount)
            s.minimum_bid_increment,
        d.0.0,
      ))

-- The state that an auction is left in by its auto-bids: the best one wins, at a price that it can
-- pay and that no other can raise.
pub record AutoOutcome (s : AuctionEngineState) (active : List AutoBidCandidate)
    (r : ProxyEngineResult) : Type 0 where
  pub top : AutoBidCandidate
  pub active_top : Memᴰ top active
  pub best : All (λ ab. ab.max_amount ≤ℤ top.max_amount) active
  pub winner : r.winning_bidder_id ≡ top.user_id
  pub auto_bid : r.winning_auto_bid_id ≡ some top.id
  pub unbeaten : All (λ ab. (ab ≡ top) ⊎ (ab.max_amount ≤ℤ r.winning_amount)) active
  pub affordable : r.winning_amount ≤ℤ top.max_amount
  pub no_lower : s.has_existing_bids ≡ true → s.current_price ≤ℤ r.winning_amount

module _ (s : AuctionEngineState) (i : pos 0 ≤ℤ s.minimum_bid_increment) where
  turn_result : AutoBidCandidate → List AutoBidCandidate → ProxyEngineResult
  turn_result top others =
      if not s.has_existing_bids
      then fresh_turn s top others
      else if is_id s.current_winner_id top.user_id
      then reigning_turn s top others
      else challenge_turn s top others

-- Without that check the price may pass what the top auto-bid's owner agreed to: a lone auto-bid of
-- a challenger that does not reach the current price plus the increment wins at just that sum.
pub challenge_exceeds_maximum :
    (s : AuctionEngineState) (ab : AutoBidCandidate)
    → s.has_existing_bids ≡ true
    → is_id s.current_winner_id ab.user_id ≡ false
    → pos 0 ≤ℤ s.minimum_bid_increment
    → ab.max_amount <ℤ s.current_price +ℤ s.minimum_bid_increment
    → (r : ProxyEngineResult) × (calculate_next_state s (ab ∷ []) none ≡ some r)
      × (r.winning_bidder_id ≡ ab.user_id)
      × (ab.max_amount <ℤ r.winning_amount)
unfolding calculate_next_state
challenge_exceeds_maximum s ab e w i h = (
  challenge_turn s ab [],
  (rw (e, w)),
  unfold challenge_turn in refl,
  unfold challenge_turn challenge_price challenge_base min_ℤ max_ℤ in ground (arith),
)
