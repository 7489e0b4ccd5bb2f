-- ===== src/Bids/Engine/Manual.antt =====
-- Scenario A of the engine: a manual bid against the competing auto-bids.
use mazadak_backend.Base.{
  ℤ, pos, +ℤ_parts, ◌≡◌, ◌⊎◌, inl, inr, refl, true, some, List, [], ◌∷◌, ◌+ℤ◌, ◌≤ℤ◌, ◌<ℤ◌, min_ℤ,
  filter, All, All-imp, All-filter, filter-All, filter-Memᴰ, arith, Bool-cases, leb_ℤ,
}
use mathlib.Core.List.{Memᴰ}
use mazadak_backend.Bids.Engine.{
  AuctionEngineState, AutoBidCandidate, ManualBidCandidate, ProxyEngineResult, competes,
  sort_auto_bids, manual_turn, calculate_next_state,
}
use mazadak_backend.Bids.Engine.Order.{Descending, sort-Memᴰ, sort-All, sort-Descending}

-- The manual bidder wins at the amount offered, and no competing auto-bid reaches it.
pub record ManualWin (active : List AutoBidCandidate) (m : ManualBidCandidate)
    (r : ProxyEngineResult) : Type 0 where
  pub winner : r.winning_bidder_id ≡ m.bidder_id
  pub price : r.winning_amount ≡ m.amount
  pub beats_all : All (λ ab. competes m ab ≡ true → ab.max_amount <ℤ m.amount) active

-- The best competing auto-bid wins, a full increment above the manual bid or at its own maximum.
pub record AutoWin (increment : ℤ) (active : List AutoBidCandidate) (m : ManualBidCandidate)
    (r : ProxyEngineResult) : Type 0 where
  pub top : AutoBidCandidate
  pub active_top : Memᴰ top active
  pub competing : competes m top ≡ true
  pub best : All (λ ab. competes m ab ≡ true → ab.max_amount ≤ℤ top.max_amount) active
  pub reaches : m.amount ≤ℤ top.max_amount
  pub winner : r.winning_bidder_id ≡ top.user_id
  pub auto_bid : r.winning_auto_bid_id ≡ some top.id
  pub price : r.winning_amount ≡ min_ℤ top.max_amount (m.amount +ℤ increment)

filter-Descending :
    (m : ManualBidCandidate) (l : List AutoBidCandidate)
    → Descending l
    → Descending (filter (competes m) l)
filter-Descending m [] h = tt
filter-Descending m (a ∷ l) h = elim (Bool-cases (competes m a)) [
  | inl e ↦
      rw e (
        filter-All (competes m) (λ b. b.max_amount ≤ℤ a.max_amount) l h.0,
        filter-Descending m l h.1,
      )
  | inr e ↦ rw e (filter-Descending m l h.1)
]

module _ (increment : ℤ) (m : ManualBidCandidate) where
  reached_turn :
      (top : AutoBidCandidate) (rest : List AutoBidCandidate)
      → m.amount ≤ℤ top.max_amount
      → let r = manual_turn increment (top ∷ rest) m in
        (r.winning_amount ≡ min_ℤ top.max_amount (m.amount +ℤ increment))
        × (r.winning_bidder_id ≡ top.user_id)
        × (r.winning_auto_bid_id ≡ some top.id)
  unfolding manual_turn min_ℤ
  reached_turn top rest h = ground arith

  beaten_turn :
      (top : AutoBidCandidate) (rest : List AutoBidCandidate)
      → pos 0 ≤ℤ increment
      → top.max_amount <ℤ m.amount
      → let r = manual_turn increment (top ∷ rest) m in
        (r.winning_amount ≡ m.amount) × (r.winning_bidder_id ≡ m.bidder_id)
  unfolding manual_turn
  beaten_turn top rest i h = ground (arith, +ℤ_parts m.amount increment)

  turn_outcome :
      (active l : List AutoBidCandidate)
      → pos 0 ≤ℤ increment
      → Descending l
      → ((P : AutoBidCandidate → Type 0) → All P l → All (λ ab. competes m ab ≡ true → P ab) active)
      → ((ab : AutoBidCandidate) → Memᴰ ab l → Memᴰ ab active × (competes m ab ≡ true))
      → ManualWin active m (manual_turn increment l m)
        ⊎ AutoWin increment active m (manual_turn increment l m)
  turn_outcome active [] i d all mem = inl (record {
    winner = unfold manual_turn in refl;
    price = unfold manual_turn in refl;
    beats_all = all (λ ab. ab.max_amount <ℤ m.amount) tt;
  })
  turn_outcome active (top ∷ rest) i d all mem = elim (Bool-cases (leb_ℤ m.amount top.max_amount)) [
    | inl e ↦
        let h : m.amount ≤ℤ top.max_amount = ground arith in
        let (price, winner, auto) = reached_turn top rest h in
        inr (record {
          top = top;
          active_top = (mem top (Memᴰ.head refl)).0;
          competing = (mem top (Memᴰ.head refl)).1;
          best = all (λ ab. ab.max_amount ≤ℤ top.max_amount) (omega arith, d.0);
          reaches = h;
          winner = winner;
          auto_bid = auto;
          price = price;
        })
    | inr e ↦
        let h : top.max_amount <ℤ m.amount = ground arith in
        let (price, winner) = beaten_turn top rest i h in
        inl (record {
          winner = winner;
          price = price;
          beats_all =
              all (λ ab. ab.max_amount <ℤ m.amount)
                (
                  h,
                  All-imp (λ ab. ab.max_amount ≤ℤ top.max_amount) (λ ab. ab.max_amount <ℤ m.amount)
                      (λ ab k. omega arith) rest d.0,
                );
        })
  ]

-- With an increment of at least 0, a manual bid wins at its own amount exactly when every active
-- auto-bid of another user has a lower maximum. Otherwise the best of those wins, at the manual
-- amount plus the increment or at its maximum, whichever is less. The order of the list given
-- does not matter.
pub manual_bid_outcome :
    (s : AuctionEngineState) (active : List AutoBidCandidate) (m : ManualBidCandidate)
    → pos 0 ≤ℤ s.minimum_bid_increment
    → (r : ProxyEngineResult) × (calculate_next_state s active (some m) ≡ some r)
      × (ManualWin active m r ⊎ AutoWin s.minimum_bid_increment active m r)
unfolding calculate_next_state
manual_bid_outcome s active m i =
    let sorted = sort_auto_bids active in
    let l = filter (competes m) sorted in
    (
      manual_turn s.minimum_bid_increment l m,
      refl,
      turn_outcome s.minimum_bid_increment m active l i
          (filter-Descending m sorted (sort-Descending active))
          (λ P h.
            sort-All (λ ab. competes m ab ≡ true → P ab) active
              (All-filter (competes m) P sorted h))
          (λ ab h. let (k, t) = filter-Memᴰ (competes m) ab sorted h in (sort-Memᴰ ab active k, t)),
    )
