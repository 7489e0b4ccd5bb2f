-- ===== src/Bids/Outcome.antt =====
-- `placeBid` keeps what is due and the market in order.
use mathlib.Core.List.{map, ◌∷◌, Memᴰ}
use mazadak_backend.Base.{
  ◌∙◌, sym, [], ==_refl, ==→eq, ltb_ℤ, not-false, ◌&&◌, false, Bool, not, ◌==◌, true, ◌≡◌, if_cases,
  none, is_id, if◌then◌else◌, List, some, ℕ, ℤ, ◌-ℤ◌, subst, Option, int_laws,
}
use mazadak_backend.Store.Keyed.{search_rule, find_rule}
use mazadak_backend.Store.{Driver}
use mazadak_backend.Database.Reading.{Reads, throw_if-Reads, both-Reads}
use mazadak_backend.Database.{
  throw_if, in_session_rule, in_session, throw_if_rule, bind_rule, Error, or_throw, AutoBidStatus,
  AutoBid, Wallet, Bid, Auction, Database, Event, Action, pure, ◌>>=◌, ◌>>◌, save_event,
}
use mazadak_backend.Bids.Engine.{calculate_next_state, ProxyEngineResult}
use mazadak_backend.Wallet.Effect.{and_left, and_right}
use mazadak_backend.Wallet.Lookup.{got_wallet_rule}
use mazadak_backend.Wallet.Totals.{owned}
use mazadak_backend.Holds.Market.{apart, wins, IsVacant}
use mazadak_backend.Bids.Repositories.{
  find_winning, is_active_auto_bid, is_active_auction, find_active_auto_bids,
  update_auto_bid_status,
}
use mazadak_backend.Holds.{nothing}
use mazadak_backend.Bids.Placing.{
  least_bid, PlaceBid, place_bid_writes, place_bid, with_id, may_bid, candidate, engine_state,
  tell_exhausted, lacks_funds, exhaust_auto_bids, hold_bid, apply_result, place_in_auction,
  place_over_exhausted, answer_auto_bid, place_under_auto_bid, bidder_of, release_winner,
  record_winner, tell_placed, place_winning,
}
use mazadak_backend.Bids.Trading.{
  lose_step, IsTrading, OpenAt, IsWinner, Trades, hold_step, release_step, win_step,
}

module _ (d : Driver) (a : Auction) (s : Database) (h : OpenAt d nothing a s) (winner : Option Bid)
    (w : IsWinner a s.bids winner) (user : ℕ) (amount : ℤ) where
  place_winning-Trades : Trades d (place_winning d a winner user amount s)
  unfolding place_winning
  place_winning-Trades =
      hold_step d nothing a s h user amount (release_winner d a.id winner >>= recorded) (λ t o same.
        release_step d due a t o winner recorded (subst (λ bs. IsWinner a bs winner) (sym same) w)
          (λ entry u o' vacant.
            win_step d due a u o' user amount (placed entry) vacant (λ v. omega int_laws)
              (λ _ _ trading. trading)))
    where
      due : ℕ → ℤ
      due u = nothing u -ℤ owned u user amount

      placed : Option ℕ → Bid → Action Bid
      placed entry b = tell_placed d a b (bidder_of winner) entry >> pure b

      recorded : Option ℕ → Action Bid
      recorded entry = record_winner d a.id user amount >>= placed entry

  place_over_exhausted-Trades :
      (r : ProxyEngineResult) (i : ℕ) → Trades d (place_over_exhausted d a winner user amount r i s)
  unfolding place_over_exhausted
  place_over_exhausted-Trades r i = release_step d nothing a t h winner held w (λ entry u o vacant.
      hold_step d nothing a u o user amount (recorded entry) (λ v o' same.
        win_step d (λ x. nothing x -ℤ owned x user amount) a v o' user amount (placed entry)
          (subst (IsVacant a.id) (sym same) vacant) (λ x. omega int_laws) (λ _ _ trading. trading)))
    where
      t : Database
      t =
          ((update_auto_bid_status d i AutoBidStatus.exhausted
              >> save_event d (
                  Event.auto_bid_exhausted i a.id a.title r.winning_bidder_id r.winning_amount
                    amount))
            s).1

      placed : Option ℕ → Bid → Action Bid
      placed entry b = tell_placed d a b (bidder_of winner) entry >> pure b

      recorded : Option ℕ → Action Bid
      recorded entry = record_winner d a.id user amount >>= placed entry

      held : Option ℕ → Action Bid
      held entry = hold_bid d a.id user amount >> recorded entry

  place_under_auto_bid-Trades :
      (r : ProxyEngineResult) → Trades d (place_under_auto_bid d a winner user amount r s)
  unfolding place_under_auto_bid
  place_under_auto_bid-Trades r =
      lose_step d nothing a s h user amount winner answered w (λ lost t o v.
        release_step d nothing a t o winner (held lost) v (λ freed u o' vacant.
          hold_step d nothing a u o' top price (recorded lost freed) (λ z o2 same.
            win_step d (λ x. nothing x -ℤ owned x top price) a z o2 top price (placed lost freed)
              (subst (IsVacant a.id) (sym same) vacant) (λ x. omega int_laws)
              (λ _ _ trading. trading))))
    where
      top : ℕ
      top = r.winning_bidder_id

      price : ℤ
      price = r.winning_amount

      placed : Bid → Option ℕ → Bid → Action Bid
      placed lost freed b =
          tell_placed d a b (some user) (if is_id (bidder_of winner) top then none else freed)
          >> (save_event d (Event.auto_bid_placed b.id a.id a.title b.bidder_id b.amount)
              >> pure lost)

      recorded : Bid → Option ℕ → Action Bid
      recorded lost freed = record_winner d a.id top price >>= placed lost freed

      held : Bid → Option ℕ → Action Bid
      held lost freed = hold_bid d a.id top price >> recorded lost freed

      answered : Bid → Action Bid
      answered lost = release_winner d a.id winner >>= held lost

  answer_auto_bid-Trades :
      (r : ProxyEngineResult) → Trades d (answer_auto_bid d a winner user amount r s)
  unfolding answer_auto_bid
  answer_auto_bid-Trades r =
      got_wallet_rule d r.winning_bidder_id (λ x. answer r.winning_auto_bid_id x) s (Trades d)
        (λ x _ _. by r.winning_auto_bid_id x) tt
    where
      answer : Option ℕ → Wallet → Action Bid
      answer o x = elim o [
        | none ↦ place_under_auto_bid d a winner user amount r
        | some i ↦
            if lacks_funds winner r x
            then place_over_exhausted d a winner user amount r i
            else place_under_auto_bid d a winner user amount r
      ]

      by : (o : Option ℕ) (x : Wallet) → Trades d (answer o x s)
      by none x = place_under_auto_bid-Trades r
      by (some i) x =
          if_cases (λ (m : Action Bid). Trades d (m s)) (lacks_funds winner r x)
            (place_over_exhausted d a winner user amount r i)
            (place_under_auto_bid d a winner user amount r) (λ _. place_over_exhausted-Trades r i)
            (λ _. place_under_auto_bid-Trades r)

-- The loop writes auto-bids and events only.
pub exhaust_rule :
    (d : Driver) {A : Type 0} (a : Auction) (active : List AutoBid) (r : ProxyEngineResult)
    (k : Action A) (l : List ℕ) (s : Database)
    → ((x : List AutoBid) (o : List Event) → Trades d (k (record s { auto_bids = x; outbox = o })))
    → Trades d ((exhaust_auto_bids d a active r l >> k) s)
exhaust_rule d a active r k [] s rest = rest s.auto_bids s.outbox
exhaust_rule d {A} a active r k (i ∷ l) s rest =
    go (λ o. exhaust_rule d a active r k l (record t { outbox = o }) rest) (with_id i active)
  where
    t : Database
    t = (update_auto_bid_status d i AutoBidStatus.exhausted s).1

    go :
        ((o : List Event)
          → Trades d ((exhaust_auto_bids d a active r l >> k) (record t { outbox = o })))
        → (o : Option AutoBid)
        → Trades d (((tell_exhausted d a r o >> exhaust_auto_bids d a active r l) >> k) t)
    go next none = next t.outbox
    go next (some ab) =
        if_cases
          (λ (m : Action (Unit {0})). Trades d (((m >> exhaust_auto_bids d a active r l) >> k) t))
          (ab.user_id == r.winning_bidder_id) (pure tt)
          (save_event d
            (Event.auto_bid_exhausted ab.id a.id a.title ab.user_id ab.max_amount r.winning_amount))
          (λ _. next t.outbox) (λ _. next _)

module _ (d : Driver) (s : Database) (h : IsTrading d s) where
  apply_result-Trades :
      (a : Auction)
      → Memᴰ a s.auctions
      → is_active_auction a.status ≡ true
      → (winner : Option Bid) → IsWinner a s.bids winner
      → (user : ℕ) (amount : ℤ) (active : List AutoBid) (r : ProxyEngineResult)
      → Trades d (apply_result d a winner user amount active r s)
  unfolding apply_result
  apply_result-Trades a stored on winner w user amount active r =
      exhaust_rule d a active r decided r.exhausted_auto_bid_ids s (λ x o.
        if_cases (λ (m : Action Bid). Trades d (m (record s { auto_bids = x; outbox = o })))
          (r.winning_bidder_id == user) (place_winning d a winner user amount)
          (answer_auto_bid d a winner user amount r)
          (λ _.
            place_winning-Trades d a (record s { auto_bids = x; outbox = o }) bidding winner w user
              amount)
          (λ _.
            answer_auto_bid-Trades d a (record s { auto_bids = x; outbox = o }) bidding winner w
              user amount r))
    where
      decided : Action Bid
      decided =
          if r.winning_bidder_id == user
          then place_winning d a winner user amount
          else answer_auto_bid d a winner user amount r

      bidding : OpenAt d nothing a s
      bidding = record { owes = h.0; market = h.1; stored = stored; active = on }

  place_in_auction-Trades :
      (user : ℕ) (amount : ℤ) (a : Auction)
      → Memᴰ a s.auctions
      → Trades d (place_in_auction d user amount a s)
  unfolding place_in_auction
  place_in_auction-Trades user amount a stored =
      throw_if_rule (not (is_active_auction a.status)) Error.auction_not_active s (Trades d)
        (throw_if (a.seller_id == user) Error.bid_on_own_auction
          >> (find_winning d a.id >>= judged))
        (λ on.
          throw_if_rule (a.seller_id == user) Error.bid_on_own_auction s (Trades d)
            (find_winning d a.id >>= judged)
            (λ _.
              search_rule d (λ b. b.auction_id == a.id && wins b) s.bids
                (λ o. Trades d (judged o s))
                (λ b t m. allowed on (some b) (
                  m,
                  and_right (b.auction_id == a.id) (wins b) t,
                  ==→eq b.auction_id a.id (and_left (b.auction_id == a.id) (wins b) t),
                ))
                (λ free.
                  allowed on none (λ b m t e. apart (sym (rw (e, ==_refl a.id) t) ∙ free b m))))
            tt)
        tt
    where
      calculated : Option Bid → List AutoBid → Option ProxyEngineResult
      calculated winner l =
          calculate_next_state (engine_state a winner) (map candidate l)
            (some (record { bidder_id = user; amount = amount }))

      chosen : Option Bid → Action Bid
      chosen winner = find_active_auto_bids d a.id >>= λ l.
          or_throw (calculated winner l) Error.no_active_auto_bids >>= λ r.
          apply_result d a winner user amount l r

      judged : Option Bid → Action Bid
      judged winner = may_bid a winner user amount >> chosen winner

      allowed :
          not (is_active_auction a.status) ≡ false
          → (winner : Option Bid) → IsWinner a s.bids winner
          → Trades d (judged winner s)
      allowed on winner w =
          bind_rule (Reads s) (Trades d) (may_bid a winner user amount) (λ _. chosen winner) s
            (both-Reads (throw_if (is_id (bidder_of winner) user) Error.already_highest_bidder)
              (throw_if (ltb_ℤ amount (least_bid a winner)) Error.bid_amount_too_low) s
              (throw_if-Reads (is_id (bidder_of winner) user) Error.already_highest_bidder s)
              (throw_if-Reads (ltb_ℤ amount (least_bid a winner)) Error.bid_amount_too_low s))
            (λ _ t e.
              subst (λ u. Trades d (chosen winner u)) (sym e) (decided (calculated winner active)))
            (λ _ _ _. tt)
        where
          active : List AutoBid
          active = d.find (λ ab. ab.auction_id == a.id && is_active_auto_bid ab.status) s.auto_bids

          decided :
              (o : Option ProxyEngineResult)
              → Trades d (
                  (or_throw o Error.no_active_auto_bids >>= λ r.
                  apply_result d a winner user amount active r)
                    s)
          decided none = tt
          decided (some r) =
              apply_result-Trades a stored (not-false (is_active_auction a.status) on) winner w user
                amount active r

  pub place_bid_writes-Trades :
      (user : ℕ) (input : PlaceBid) → Trades d (place_bid_writes d user input s)
  unfolding place_bid_writes
  place_bid_writes-Trades user input =
      find_rule d (λ a. a.id == input.auction_id) s.auctions
        (λ o.
          Trades d (
            (or_throw o Error.auction_not_found >>= λ a. place_in_auction d user input.amount a) s))
        (λ a _ m. place_in_auction-Trades user input.amount a m) tt

  -- If every user has held exactly what is due for the user's open withdrawals and winning bids,
  -- every auction has at most one WINNING bid and that bid's amount as its price, and no ACTIVE one
  -- is finalized, then so it is after a bid of any user with any amount, whether the bid wins, loses
  -- to an auto-bid, wins because the auto-bid cannot be paid, or is refused.
  pub place_bid-IsTrading :
      (locked : Bool) (user : ℕ) (input : PlaceBid)
      → IsTrading d (place_bid d locked user input s).1
  unfolding place_bid
  place_bid-IsTrading locked user input =
      throw_if_rule (not locked) Error.bidding_busy s (λ x. IsTrading d x.1)
        (in_session (place_bid_writes d user input))
        (λ _.
          in_session_rule (Trades d) (λ x. IsTrading d x.1) (place_bid_writes d user input) s
            (place_bid_writes-Trades user input) (λ _ _ t. t) (λ _. h))
        h
