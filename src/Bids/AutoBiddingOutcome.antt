-- ===== src/Bids/AutoBiddingOutcome.antt =====
-- The auto-bidding service keeps what is due and the market in order.
use mathlib.Core.List.{Memᴰ}
use mazadak_backend.Base.{
  eqb_ℤ, number_to_fixed, arith, ◌∙◌, sym, map, ==_refl, ==→eq, ltb_ℤ, not-false, ◌&&◌, false, Bool,
  not, ◌==◌, ◌≡◌, if_cases, none, if◌then◌else◌, List, some, ℕ, suc, ℤ, ◌-ℤ◌, subst, Option,
  int_laws, is_some,
}
use mazadak_backend.Store.{Driver}
use mazadak_backend.Store.Keyed.{search_rule, find_rule}
use mazadak_backend.Database.{
  throw_if, in_session_rule, in_session, throw_if_rule, bind_rule, Error, or_throw, AutoBid, Wallet,
  Bid, Auction, Database, Event, Action, pure, ◌>>=◌, ◌>>◌, save_event,
}
use mazadak_backend.Bids.Engine.{GeneratedBid, ProxyEngineResult, calculate_next_state}
use mazadak_backend.Wallet.{get_wallet_or_throw}
use mazadak_backend.Wallet.Effect.{and_left, and_right}
use mazadak_backend.Wallet.Lookup.{got_wallet_rule}
use mazadak_backend.Wallet.Totals.{owned}
use mazadak_backend.Holds.{nothing, later_IsRegistered}
use mazadak_backend.Holds.Market.{apart, wins, IsVacant}
use mazadak_backend.Bids.Repositories.{
  find_auction, is_active_auto_bid, is_active_auction, find_winning,
}
use mazadak_backend.Bids.Placing.{
  least_bid, candidate, engine_state, exhaust_auto_bids, bidder_of, record_winner, tell_placed,
  hold_bid,
}
use mazadak_backend.Bids.Trading.{
  IsTrading, OpenAt, IsWinner, Trades, hold_step, release_step, win_step,
}
use mazadak_backend.Bids.Outcome.{exhaust_rule}
use mazadak_backend.Bids.AutoBidding.{
  new_auto_bid, cancel_active_of, SetAutoBid, winning_candidate, is_others, required_delta,
  cannot_afford, lacks_for, find_by_max_amount, upsert_auto_bid, exhaust_winner, enter_winner,
  answer_winner, apply_candidate, run_auto_bids, set_in_auction, set_auto_bid, cancel_auto_bid,
  make_auto_bid,
}

module _ (d : Driver) (a : Auction) (s : Database) (h : OpenAt d nothing a s) (winner : Option Bid)
    (w : IsWinner a s.bids winner) where
  enter_winner-Trades : (c : GeneratedBid) → Trades d (enter_winner d a winner c s)
  unfolding enter_winner
  enter_winner-Trades c = release_step d nothing a s h winner held w (λ entry u o vacant.
      hold_step d nothing a u o c.bidder_id c.amount (recorded entry) (λ v o' same.
        win_step d (λ x. nothing x -ℤ owned x c.bidder_id c.amount) a v o' c.bidder_id c.amount
          (placed entry) (subst (IsVacant a.id) (sym same) vacant) (λ x. omega int_laws)
          (λ _ _ trading. trading)))
    where
      placed : Option ℕ → Bid → Action (Unit {0})
      placed entry b =
          tell_placed d a b (bidder_of winner) entry
          >> save_event d (Event.auto_bid_placed b.id a.id a.title c.bidder_id c.amount)

      recorded : Option ℕ → Action (Unit {0})
      recorded entry = record_winner d a.id c.bidder_id c.amount >>= placed entry

      held : Option ℕ → Action (Unit {0})
      held entry = hold_bid d a.id c.bidder_id c.amount >> recorded entry

  answer_winner-Trades :
      (r : ProxyEngineResult) (c : GeneratedBid) → Trades d (answer_winner d a winner r c s)
  unfolding answer_winner
  answer_winner-Trades r c =
      got_wallet_rule d c.bidder_id (λ x. answer r.winning_auto_bid_id x) s (Trades d)
        (λ x _ _. by r.winning_auto_bid_id x) tt
    where
      answer : Option ℕ → Wallet → Action (Unit {0})
      answer o x = elim o [
        | none ↦ enter_winner d a winner c
        | some i ↦
            if lacks_for winner c x then exhaust_winner d a c i else enter_winner d a winner c
      ]

      by : (o : Option ℕ) (x : Wallet) → Trades d (answer o x s)
      by none x = enter_winner-Trades c
      by (some i) x =
          if_cases (λ (m : Action (Unit {0})). Trades d (m s)) (lacks_for winner c x)
            (exhaust_winner d a c i) (enter_winner d a winner c) (λ _. (h.owes, h.market))
            (λ _. enter_winner-Trades c)

  applied-Trades :
      (ab : AutoBid) (r : ProxyEngineResult) (o : Option GeneratedBid)
      → Trades d ((apply_candidate d a winner r o >> pure ab) s)
  applied-Trades ab r none = (h.owes, h.market)
  applied-Trades ab r (some c) =
      bind_rule (Trades d) (Trades d) (answer_winner d a winner r c) (λ _. pure ab) s
        (answer_winner-Trades r c) (λ _ _ t. t) (λ _ _ _. tt)

module _ (d : Driver) (a : Auction) (s : Database) (h : OpenAt d nothing a s) (winner : Option Bid)
    (w : IsWinner a s.bids winner) where
  run_auto_bids-Trades : (ab : AutoBid) → Trades d (run_auto_bids d a winner ab s)
  unfolding run_auto_bids
  run_auto_bids-Trades ab =
      decided (calculate_next_state (engine_state a winner) (map candidate active) none)
    where
      active : List AutoBid
      active = d.find (λ x. x.auction_id == a.id && is_active_auto_bid x.status) s.auto_bids

      apply : ProxyEngineResult → Action AutoBid
      apply r = apply_candidate d a winner r (winning_candidate r.bids_to_create) >> pure ab

      decided :
          (o : Option ProxyEngineResult)
          → Trades d (
              (or_throw o Error.no_active_auto_bids >>= λ r.
              exhaust_auto_bids d a active r r.exhausted_auto_bid_ids >> apply r)
                s)
      decided none = tt
      decided (some r) = exhaust_rule d a active r (apply r) r.exhausted_auto_bid_ids s (λ x o.
          applied-Trades d a (record s { auto_bids = x; outbox = o }) h winner w ab r
            (winning_candidate r.bids_to_create))

module _ (d : Driver) (a : Auction) (s : Database) (h : OpenAt d nothing a s) (winner : Option Bid)
    (w : IsWinner a s.bids winner) where
  upserted-Trades :
      (user : ℕ) (max : ℤ) (now : ℕ)
      → Trades d ((upsert_auto_bid d a.id user max now >>= run_auto_bids d a winner) s)
  upserted-Trades user max now = go _ _
    where
      go :
          (o : Option AutoBid) (l : List AutoBid)
          → Trades d (
              (make_auto_bid d a.id user max now o >>= run_auto_bids d a winner)
                (record s { auto_bids = l }))
      go (some ab) l = run_auto_bids-Trades d a (record s { auto_bids = l }) h winner w ab
      go none l =
          run_auto_bids-Trades d a
            (record s {
              auto_bids = d.insert (new_auto_bid a.id user max now (d.object_id s.generated)) l;
              generated = suc s.generated;
            })
            (record {
              owes = record {
                wallets = h.owes.wallets;
                owners = h.owes.owners;
                solvent = h.owes.solvent;
                requests = later_IsRegistered (suc s.generated) _ (omega arith) h.owes.requests;
                bids = later_IsRegistered (suc s.generated) _ (omega arith) h.owes.bids;
                held = h.owes.held;
              };
              market = h.market;
              stored = h.stored;
              active = h.active;
            })
            winner w (new_auto_bid a.id user max now (d.object_id s.generated))

module _ (d : Driver) (s : Database) (h : IsTrading d s) where
  set_in_auction-Trades :
      (user : ℕ) (max : ℤ) (now : ℕ) (a : Auction)
      → Memᴰ a s.auctions
      → Trades d (set_in_auction d user max now a s)
  unfolding set_in_auction
  set_in_auction-Trades user max now a stored =
      throw_if_rule (not (is_active_auction a.status)) Error.auction_not_active s (Trades d)
        (throw_if (a.seller_id == user) Error.auto_bid_on_own_auction
          >> (find_winning d a.id >>= judged))
        (λ on.
          throw_if_rule (a.seller_id == user) Error.auto_bid_on_own_auction s (Trades d)
            (find_winning d a.id >>= judged)
            (λ _.
              search_rule d (λ b. b.auction_id == a.id && wins b) s.bids
                (λ o. Trades d (judged o s))
                (λ b t m. allowed on (some b) (
                  m,
                  and_right (b.auction_id == a.id) (wins b) t,
                  ==→eq b.auction_id a.id (and_left (b.auction_id == a.id) (wins b) t),
                ))
                (λ free.
                  allowed on none (λ b m t e. apart (sym (rw (e, ==_refl a.id) t) ∙ free b m))))
            tt)
        tt
    where
      entered : Option Bid → Action AutoBid
      entered winner = upsert_auto_bid d a.id user max now >>= run_auto_bids d a winner

      affords : Option Bid → Wallet → Action AutoBid
      affords winner x =
          throw_if (cannot_afford x (required_delta winner user max))
            Error.auto_bid_insufficient_balance
          >> entered winner

      single : Option Bid → Option AutoBid → Action AutoBid
      single winner same =
          throw_if (is_others user same) Error.auto_bid_duplicate_max
          >> (get_wallet_or_throw d user >>= affords winner)

      judged : Option Bid → Action AutoBid
      judged winner =
          throw_if (ltb_ℤ max (least_bid a winner)) Error.auto_bid_max_too_low
          >> (find_by_max_amount d a.id max >>= single winner)

      allowed :
          not (is_active_auction a.status) ≡ false
          → (winner : Option Bid) → IsWinner a s.bids winner
          → Trades d (judged winner s)
      allowed on winner w =
          throw_if_rule (ltb_ℤ max (least_bid a winner)) Error.auto_bid_max_too_low s (Trades d)
            (find_by_max_amount d a.id max >>= single winner)
            (λ _.
              throw_if_rule (is_others user same) Error.auto_bid_duplicate_max s (Trades d)
                (get_wallet_or_throw d user >>= affords winner)
                (λ _.
                  got_wallet_rule d user (affords winner) s (Trades d)
                    (λ x _ _.
                      throw_if_rule (cannot_afford x (required_delta winner user max))
                        Error.auto_bid_insufficient_balance s (Trades d) (entered winner)
                        (λ _.
                          upserted-Trades d a s
                            (record {
                              owes = h.0;
                              market = h.1;
                              stored = stored;
                              active = not-false (is_active_auction a.status) on;
                            })
                            winner w user max now)
                        tt)
                    tt)
                tt)
            tt
        where
          same : Option AutoBid
          same =
              d.find_one
                (λ ab.
                  ab.auction_id == a.id
                  && (eqb_ℤ ab.max_amount (number_to_fixed max) && is_active_auto_bid ab.status))
                s.auto_bids

  -- The same of the setting of an auto-bid with any maximum, whether it wins at once, changes nothing,
  -- cannot be paid, or is refused.
  pub set_auto_bid-IsTrading :
      (locked : Bool) (user : ℕ) (input : SetAutoBid) (now : ℕ)
      → IsTrading d (set_auto_bid d locked user input now s).1
  unfolding set_auto_bid
  set_auto_bid-IsTrading locked user input now =
      throw_if_rule (not locked) Error.bidding_busy s (λ x. IsTrading d x.1) (in_session writes)
        (λ _.
          in_session_rule (Trades d) (λ x. IsTrading d x.1) writes s
            (find_rule d (λ a. a.id == input.auction_id) s.auctions
              (λ o. Trades d (
                (or_throw o Error.auction_not_found >>= set_in_auction d user input.max_amount now)
                  s))
              (λ a _ m. set_in_auction-Trades user input.max_amount now a m) tt)
            (λ _ _ t. t) (λ _. h))
        h
    where
      writes : Action AutoBid
      writes = find_auction d input.auction_id >>= λ found.
          or_throw found Error.auction_not_found >>= set_in_auction d user input.max_amount now

  pub cancel_auto_bid-IsTrading :
      (auction user : ℕ) → IsTrading d (cancel_auto_bid d auction user s).1
  unfolding cancel_auto_bid
  cancel_auto_bid-IsTrading auction user =
      throw_if_rule (not (is_some existing)) Error.auto_bid_not_found s (λ x. IsTrading d x.1)
        (cancel_active_of d auction user >>= λ c. pure (is_some c)) (λ _. h) h
    where
      existing : Option AutoBid
      existing =
          d.find_one
            (λ ab. ab.auction_id == auction && (ab.user_id == user && is_active_auto_bid ab.status))
            s.auto_bids
