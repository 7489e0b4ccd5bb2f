-- ===== src/Bids/Engine/Exhaustion.antt =====
-- Which auto-bids the engine retires.
use mazadak_backend.Base.{
  ℕ, ℤ, pos, ◌≡◌, refl, true, false, none, some, List, [], ◌∷◌, ◌++◌, ◌+ℤ◌, ◌≤ℤ◌, min_ℤ, All,
  filter, filter-Memᴰ, arith, Bool-cases, leb_ℤ, +ℤ_parts, Bool, is_id, inl, inr, Option, if_cases,
  eqb_ℤ, ltb_ℤ, eqb_ℤ→le, leb_ℤ→le, ltb_ℤ→lt, not, subst,
}
use mathlib.Core.List.{Memᴰ}
use mathlib.Core.Option.{some-injective}
use mazadak_backend.Bids.Engine.{
  AuctionEngineState, AutoBidCandidate, ManualBidCandidate, ProxyEngineResult, sort_auto_bids,
  manual_turn, manual_wins, auto_counters, reached, ids, also_if, competes, fresh_turn,
  reigning_turn, challenge_turn, challenge_price, auto_turn, auto_wins, calculate_next_state,
}
use mazadak_backend.Bids.Engine.Order.{Descending, sort-Memᴰ, sort-Descending}
use mazadak_backend.Bids.Engine.Auto.{below_target, challenge_above}

-- The auto-bid with the identifier is active and does not reach above the amount.
abbrev pub IsBeaten : List AutoBidCandidate → ℤ → ℕ → Type 0
IsBeaten active amount i =
    (ab : AutoBidCandidate) × Memᴰ ab active × (ab.id ≡ i) × (ab.max_amount ≤ℤ amount)

beaten_ids :
    (active l : List AutoBidCandidate) (amount : ℤ)
    → All (λ ab. Memᴰ ab active × (ab.max_amount ≤ℤ amount)) l
    → All (IsBeaten active amount) (ids l)
beaten_ids active [] amount h = tt
beaten_ids active (ab ∷ l) amount h = ((ab, h.0.0, refl, h.0.1), beaten_ids active l amount h.1)

beaten_also :
    (active : List AutoBidCandidate) (amount : ℤ) (top : AutoBidCandidate) (l : List ℕ)
    → Memᴰ top active
    → top.max_amount ≤ℤ amount
    → All (IsBeaten active amount) l
    → All (IsBeaten active amount) (l ++ top.id ∷ [])
beaten_also active amount top [] m h all = ((top, m, refl, h), tt)
beaten_also active amount top (j ∷ l) m h all = (all.0, beaten_also active amount top l m h all.1)

beaten_also_if :
    (active : List AutoBidCandidate) (amount : ℤ) (top : AutoBidCandidate) (b : Bool) (l : List ℕ)
    → Memᴰ top active
    → (b ≡ true → top.max_amount ≤ℤ amount)
    → All (IsBeaten active amount) l
    → All (IsBeaten active amount) (also_if b top.id l)
beaten_also_if active amount top true l m h all = beaten_also active amount top l m (h refl) all
beaten_also_if active amount top false l m h all = all

reached_beaten :
    (active l : List AutoBidCandidate) (m : ManualBidCandidate) (amount : ℤ)
    → m.amount ≤ℤ amount
    → All (λ ab. Memᴰ ab active) l
    → All (IsBeaten active amount) (ids (reached m l))
reached_beaten active [] m amount h all = tt
reached_beaten active (ab ∷ l) m amount h all = elim (Bool-cases (leb_ℤ ab.max_amount m.amount)) [
  | inl e ↦ rw e ((ab, all.0, refl, ground arith), reached_beaten active l m amount h all.1)
  | inr e ↦ rw e (reached_beaten active l m amount h all.1)
]

abbrev target : AuctionEngineState → AutoBidCandidate → AutoBidCandidate → ℤ
target s top second = min_ℤ top.max_amount (second.max_amount +ℤ s.minimum_bid_increment)

-- Every auto-bid that a result retires is one of the active ones, at most as high as the price.
abbrev pub RetiresBeaten : List AutoBidCandidate → ProxyEngineResult → Type 0
RetiresBeaten active r = All (IsBeaten active r.winning_amount) r.exhausted_auto_bid_ids

manual_turn-RetiresBeaten :
    (increment : ℤ) (active l : List AutoBidCandidate) (m : ManualBidCandidate)
    → pos 0 ≤ℤ increment
    → All (λ ab. Memᴰ ab active) l
    → RetiresBeaten active (manual_turn increment l m)
unfolding manual_turn manual_wins auto_counters
manual_turn-RetiresBeaten increment active [] m i all = tt
manual_turn-RetiresBeaten increment active (top ∷ rest) m i all =
    if_cases P (leb_ℤ (m.amount +ℤ increment) top.max_amount) _ _
      (λ e. beaten_reached (m.amount +ℤ increment) (ground (arith, +ℤ_parts m.amount increment)))
      λ e.
        if_cases P (ltb_ℤ m.amount top.max_amount) _ _
          (λ f. raised (omega (arith, ltb_ℤ→lt m.amount top.max_amount f)))
          λ f.
            if_cases P (eqb_ℤ top.max_amount m.amount) _ _ (λ g. raised (ties g))
              (λ g. beaten_reached m.amount (omega arith))
  where
    P : ProxyEngineResult → Type 0
    P = RetiresBeaten active

    ties : eqb_ℤ top.max_amount m.amount ≡ true → m.amount ≤ℤ top.max_amount
    ties g = ground arith

    beaten_reached :
        (amount : ℤ)
        → m.amount ≤ℤ amount
        → All (IsBeaten active amount) (ids (reached m (top ∷ rest)))
    beaten_reached amount h = reached_beaten active (top ∷ rest) m amount h all

    raised :
        m.amount ≤ℤ top.max_amount
        → All (IsBeaten active top.max_amount) (ids (reached m (top ∷ rest)) ++ top.id ∷ [])
    raised h =
        beaten_also active top.max_amount top (ids (reached m (top ∷ rest))) all.0 (omega arith)
          (beaten_reached top.max_amount h)

module _ (s : AuctionEngineState) (i : pos 0 ≤ℤ s.minimum_bid_increment)
    (active : List AutoBidCandidate) where
  -- The others are active, and the price reaches all of them.
  both :
      (amount : ℤ) (l : List AutoBidCandidate)
      → All (λ ab. Memᴰ ab active) l
      → All (λ ab. ab.max_amount ≤ℤ amount) l
      → All (IsBeaten active amount) (ids l)
  both amount [] m h = tt
  both amount (ab ∷ l) m h = ((ab, m.0, refl, h.0), both amount l m.1 h.1)

  fresh_turn-RetiresBeaten :
      (top : AutoBidCandidate) (others : List AutoBidCandidate)
      → Descending (top ∷ others)
      → All (λ ab. Memᴰ ab active) (top ∷ others)
      → RetiresBeaten active (fresh_turn s top others)
  unfolding fresh_turn auto_wins
  fresh_turn-RetiresBeaten top [] d m = tt
  fresh_turn-RetiresBeaten top (second ∷ others) d m =
      beaten_also_if active (target s top second) top (eqb_ℤ top.max_amount (target s top second))
        (ids (second ∷ others)) m.0 (eqb_ℤ→le top.max_amount (target s top second))
        (both (target s top second) (second ∷ others) m.1 (below_target s i top second others d))

  reigning_turn-RetiresBeaten :
      (top : AutoBidCandidate) (others : List AutoBidCandidate)
      → Descending (top ∷ others)
      → All (λ ab. Memᴰ ab active) (top ∷ others)
      → RetiresBeaten active (reigning_turn s top others)
  unfolding reigning_turn auto_wins
  reigning_turn-RetiresBeaten top [] d m = tt
  reigning_turn-RetiresBeaten top (second ∷ others) d m =
      if_cases (RetiresBeaten active) (leb_ℤ s.current_price second.max_amount) _ _
        (λ e.
          beaten_also_if active (target s top second) top
            (eqb_ℤ top.max_amount (target s top second)) (ids (second ∷ others)) m.0
            (eqb_ℤ→le top.max_amount (target s top second))
            (both (target s top second) (second ∷ others) m.1
              (below_target s i top second others d)))
        λ e. tt

  challenge_turn-RetiresBeaten :
      (top : AutoBidCandidate) (others : List AutoBidCandidate)
      → Descending (top ∷ others)
      → All (λ ab. Memᴰ ab active) (top ∷ others)
      → RetiresBeaten active (challenge_turn s top others)
  unfolding challenge_turn auto_wins
  challenge_turn-RetiresBeaten top others d m =
      beaten_also_if active (challenge_price s top others) top
        (leb_ℤ top.max_amount (challenge_price s top others)) (ids others) m.0
        (leb_ℤ→le top.max_amount (challenge_price s top others))
        (both (challenge_price s top others) others m.1 (challenge_above s i top others d))

  auto_turn-RetiresBeaten :
      (l : List AutoBidCandidate) (r : ProxyEngineResult)
      → Descending l
      → All (λ ab. Memᴰ ab active) l
      → auto_turn s l ≡ some r
      → RetiresBeaten active r
  unfolding auto_turn
  auto_turn-RetiresBeaten [] r d m e = cc
  auto_turn-RetiresBeaten (top ∷ others) r d m e =
      subst (RetiresBeaten active) (some-injective _ _ e) (
        if_cases (RetiresBeaten active) (not s.has_existing_bids) _ _
          (λ _. fresh_turn-RetiresBeaten top others d m)
          λ _.
            if_cases (RetiresBeaten active) (is_id s.current_winner_id top.user_id) _ _
              (λ _. reigning_turn-RetiresBeaten top others d m)
              (λ _. challenge_turn-RetiresBeaten top others d m))

All-of-Memᴰ :
    {P : AutoBidCandidate → Type 0} (l : List AutoBidCandidate)
    → ((ab : AutoBidCandidate) → Memᴰ ab l → P ab)
    → All P l
All-of-Memᴰ [] f = tt
All-of-Memᴰ (x ∷ l) f = (f x (Memᴰ.head refl), All-of-Memᴰ l (λ ab m. f ab (Memᴰ.tail m)))

-- With an increment of at least 0, the engine retires only active auto-bids that cannot raise the
-- price: their maximum is at most the winning amount. This holds with and without a manual bid.
pub calculate-RetiresBeaten :
    (s : AuctionEngineState) (active : List AutoBidCandidate) (m : Option ManualBidCandidate)
    (r : ProxyEngineResult)
    → pos 0 ≤ℤ s.minimum_bid_increment
    → calculate_next_state s active m ≡ some r
    → RetiresBeaten active r
unfolding calculate_next_state
calculate-RetiresBeaten s active none r i e =
    auto_turn-RetiresBeaten s i active (sort_auto_bids active) r (sort-Descending active)
      (All-of-Memᴰ (sort_auto_bids active) (λ ab. sort-Memᴰ ab active)) e
calculate-RetiresBeaten s active (some m) r i e =
    let l = filter (competes m) (sort_auto_bids active) in
    subst (RetiresBeaten active) (some-injective _ _ e) (
      manual_turn-RetiresBeaten s.minimum_bid_increment active l m i (
        All-of-Memᴰ l
          λ ab h. sort-Memᴰ ab active (filter-Memᴰ (competes m) ab (sort_auto_bids active) h).0))
