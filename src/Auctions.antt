-- ===== src/Auctions.antt =====
-- src/auctions/auctions.service.ts over mongo.auction.repository.ts. The time of a call, whether a lock
-- was acquired, and whether the caller is an administrator are arguments. The deletion of images, the
-- cache and the realtime publications are left out.
pub mod Invariant
pub mod Schedule
pub mod Ending
pub mod Changes
use Prim.Native.String.{String}
use mazadak_backend.Base.{
  ℕ, ℤ, ◌+◌, ◌*◌, Bool, true, false, not, ◌&&◌, ◌||◌, Option, none, some, List, [], ◌∷◌, map, ◌==◌,
  ltb, leb, given, or_else, is_some, if◌then◌else◌, trimmed_length,
}
use mazadak_backend.Store.{Driver}
use mazadak_backend.Database.{
  ok, Bid, Auction, AuctionCategory, AuctionStatus, object, Database, Event, Error, Action, pure,
  or_throw, ◌>>=◌, ◌>>◌, throw_if, modify, in_session, new_id, save_event,
}
use mazadak_backend.Wallet.{release}
use mazadak_backend.Bids.Repositories.{
  is_pending_auction, is_active_auction, find_auction, find_winning,
}
use mazadak_backend.Bids.Placing.{bidder_of}

-- CreateAuctionInput
pub record CreateAuction : Type 0 where
  pub title : String
  pub description : String
  pub category : AuctionCategory
  pub images : List String
  pub starting_price : ℤ
  pub minimum_bid_increment : ℤ
  pub start_time : ℕ
  pub end_time : ℕ

-- UpdateAuctionInput
pub record UpdateAuction : Type 0 where
  pub title : Option String
  pub description : Option String
  pub category : Option AuctionCategory
  pub images : Option (List String)
  pub start_time : Option ℕ
  pub end_time : Option ℕ

-- 15 minutes, in milliseconds.
abbrev pub min_start_time : ℕ
min_start_time = 15 * 60 * 1000

abbrev pub validate_times : ℕ → ℕ → ℕ → Action (Unit {0})
validate_times now start end = do
  throw_if (ltb start (now + min_start_time)) Error.auction_start_time_too_soon
  throw_if (leb end start) Error.auction_end_time_invalid

abbrev pub new_auction : ℕ → CreateAuction → ℕ → Auction
new_auction seller input i = record {
  id = i;
  seller_id = seller;
  title = input.title;
  description = input.description;
  category = input.category;
  images = input.images;
  starting_price = input.starting_price;
  current_price = input.starting_price;
  minimum_bid_increment = input.minimum_bid_increment;
  status = AuctionStatus.pending;
  start_time = input.start_time;
  end_time = input.end_time;
  winner_id = none;
  is_finalized = false;
  admin_action_reason = none;
}

abbrev pub with_update : UpdateAuction → Auction → Auction
with_update input a = record a {
  title = or_else input.title a.title;
  description = or_else input.description a.description;
  category = or_else input.category a.category;
  images = or_else input.images a.images;
  start_time = or_else input.start_time a.start_time;
  end_time = or_else input.end_time a.end_time;
}

-- PENDING or ACTIVE
abbrev pub is_cancellable : AuctionStatus → Bool
is_cancellable status = is_pending_auction status || is_active_auction status

abbrev pub amount_of : Option Bid → Option ℤ
amount_of none = none
amount_of (some b) = some b.amount

abbrev pub is_member : ℕ → List ℕ → Bool
is_member i [] = false
is_member i (j ∷ l) = j == i || is_member i l

-- `findPendingToActivate`
abbrev pub is_due : ℕ → Auction → Bool
is_due now a = is_pending_auction a.status && leb a.start_time now

-- `findActiveToEnd`
abbrev pub is_over : ℕ → Auction → Bool
is_over now a = is_active_auction a.status && leb a.end_time now

module _ (d : Driver) where
  open d use {find, find_one_and_update, update_many, insert}

  -- `updateStatus`: whatever the status was before.
  abbrev pub update_auction_status : ℕ → AuctionStatus → Option String → Action (Unit {0})
  update_auction_status i status reason = modify (λ s. record s {
    auctions =
        (find_one_and_update (λ a. a.id == i)
          (λ a. record a {
            status = status;
            admin_action_reason = given reason a.admin_action_reason;
          })
          s.auctions).1;
  })

  pub create_auction : ℕ → CreateAuction → ℕ → Action Auction
  create_auction seller input now = do
    validate_times now input.start_time input.end_time
    i ← new_id d
    let a = new_auction seller input i
    modify (λ s. record s { auctions = insert a s.auctions })
    pure a

  abbrev pub get_auction_or_throw : ℕ → Action Auction
  get_auction_or_throw i = do or_throw (← find_auction d i) Error.auction_not_found

  abbrev pub check_new_times : UpdateAuction → Auction → ℕ → Action (Unit {0})
  check_new_times input a now =
      if is_some input.start_time || is_some input.end_time
      then validate_times now (or_else input.start_time a.start_time)
          (or_else input.end_time a.end_time)
      else pure tt

  abbrev pub write_update : ℕ → UpdateAuction → Action (Option Auction)
  write_update i input s =
      let (found, rest) = find_one_and_update (λ a. a.id == i) (with_update input) s.auctions in
      (ok found, record s { auctions = rest })

  pub update_auction : ℕ → ℕ → UpdateAuction → ℕ → Action Auction
  update_auction i seller input now = do
    a ← get_auction_or_throw i
    throw_if (not (a.seller_id == seller)) Error.auction_forbidden
    throw_if (not (is_pending_auction a.status)) Error.auction_not_pending
    check_new_times input a now
    updated ← write_update i input
    or_throw updated Error.auction_not_found

  -- The winning bid's hold is released; the bid itself stays WINNING.
  pub release_highest : Auction → Option Bid → Action (Unit {0})
  release_highest a none = pure tt
  release_highest a (some b) =
      release d b.bidder_id b.amount (some (object a.id)) none >>= λ _. pure tt

  abbrev pub winner_to_release : Auction → Action (Option Bid)
  winner_to_release a = if is_active_auction a.status then find_winning d a.id else pure none

  -- The sessions of `cancelAuction` and `adminCancelAuction`.
  pub cancel_auction_writes : Auction → Option String → (Option Bid → Event) → Action Bool
  unfolding release_highest
  cancel_auction_writes a reason event = do
    b ← winner_to_release a
    release_highest a b
    update_auction_status a.id AuctionStatus.cancelled reason
    save_event d (event b)
    pure true

  pub cancel_auction : ℕ → ℕ → Bool → Action Bool
  unfolding cancel_auction_writes
  cancel_auction i user admin = do
    a ← get_auction_or_throw i
    throw_if (not (a.seller_id == user) && not admin) Error.auction_forbidden
    throw_if (not (is_cancellable a.status)) Error.auction_invalid_state
    in_session (
        cancel_auction_writes a none
          (λ b. Event.auction_cancelled a.id a.title a.seller_id (bidder_of b) (amount_of b)))

  pub admin_cancel_auction : ℕ → String → Action Bool
  unfolding cancel_auction_writes
  admin_cancel_auction i reason = do
    throw_if (ltb (trimmed_length reason) 10) Error.reason_too_short
    a ← get_auction_or_throw i
    throw_if (not (is_cancellable a.status)) Error.auction_invalid_state
    in_session (
        cancel_auction_writes a (some reason) (λ b.
          Event.auction_cancelled_by_admin a.id a.title a.seller_id reason (bidder_of b)
            (amount_of b)))

  pub cancel_each : ℕ → List Auction → Database → Database
  unfolding cancel_auction
  cancel_each seller [] s = s
  cancel_each seller (a ∷ l) s = cancel_each seller l (cancel_auction a.id seller true s).1

  -- `cancelAllActiveAuctionsForSeller`
  pub cancel_all_for_seller : ℕ → Database → Database
  unfolding cancel_each
  cancel_all_for_seller seller s =
      cancel_each seller (find (λ a. a.seller_id == seller && is_cancellable a.status) s.auctions) s

  abbrev pub activate : Auction → Action (Unit {0})
  activate a = do
    update_auction_status a.id AuctionStatus.active none
    save_event d (Event.auction_started a.id a.title a.seller_id)

  pub activate_each : List Auction → Database → Database
  activate_each [] s = s
  activate_each (a ∷ l) s = activate_each l (in_session (activate a) s).1

  pub activate_pending_auctions : Bool → ℕ → Database → Database
  unfolding activate_each
  activate_pending_auctions locked now s =
      let t = activate_each (find (is_due now) s.auctions) s in if locked then t else s

  abbrev pub update_many_status : List ℕ → AuctionStatus → Database → Database
  update_many_status is status s = record s {
    auctions = update_many (λ a. is_member a.id is) (λ a. record a { status = status }) s.auctions;
  }

  pub end_active_auctions : Bool → ℕ → Database → Database
  end_active_auctions locked now s =
      let ids = map (λ a. a.id) (find (is_over now) s.auctions) in
      if locked then update_many_status ids AuctionStatus.ended s else s
