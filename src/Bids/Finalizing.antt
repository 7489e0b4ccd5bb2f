-- ===== src/Bids/Finalizing.antt =====
-- `finalizeEndedAuctions` of src/bids/bids.service.ts.
use mazadak_backend.Base.{
  ℕ, Bool, not, ◌&&◌, Option, none, some, List, [], ◌∷◌, is_some, if◌then◌else◌,
}
use mazadak_backend.Store.{Driver}
use mazadak_backend.Database.{
  Bid, Auction, AutoBidStatus, TransactionReferenceType, object, Database, Event, Action, ◌>>=◌,
  ◌>>◌, in_session, save_event,
}
use mazadak_backend.Wallet.{capture}
use mazadak_backend.Escrow.{CreateEscrow, create_escrow}
use mazadak_backend.Bids.Repositories.{
  is_ended_auction, find_winning, finalize_auction, deactivate_all_for_auction,
}

-- `findEndedWithoutWinner`
abbrev pub is_unfinalized : Auction → Bool
is_unfinalized a = is_ended_auction a.status && (not (is_some a.winner_id) && not a.is_finalized)

abbrev pub escrow_due : Auction → Bid → CreateEscrow
escrow_due a b = record {
  auction_id = a.id;
  buyer_id = b.bidder_id;
  seller_id = a.seller_id;
  amount = b.amount;
  currency = some "EGP";
}

module _ (d : Driver) where
  open d use {find}

  unfoldable pub close_unsold : Auction → Action (Unit {0})
  close_unsold a = do
    finalize_auction d a.id none
    deactivate_all_for_auction d a.id AutoBidStatus.exhausted
    save_event d (Event.auction_ended a.id a.title a.seller_id a.current_price none none none)

  unfoldable pub close_sold : Auction → Bid → ℕ → Action (Unit {0})
  close_sold a b now = do
    m ← capture d b.bidder_id b.amount (some (object a.id)) (some TransactionReferenceType.auction)
    e ← create_escrow d (escrow_due a b) now
    finalize_auction d a.id (some b.bidder_id)
    deactivate_all_for_auction d a.id AutoBidStatus.exhausted
    save_event d (
        Event.auction_ended a.id a.title a.seller_id a.current_price (some b.bidder_id)
          (some m.1.id) (some e.id))

  abbrev pub close_with : Auction → ℕ → Option Bid → Action (Unit {0})
  close_with a now none = close_unsold a
  close_with a now (some b) = close_sold a b now

  -- The session of one auction.
  unfoldable pub finalize_writes : Auction → ℕ → Action (Unit {0})
  unfolding close_unsold close_sold
  finalize_writes a now = find_winning d a.id >>= close_with a now

  -- A failure is passed over.
  unfoldable pub finalize_each : ℕ → List Auction → Database → Database
  unfolding finalize_writes
  finalize_each now [] s = s
  finalize_each now (a ∷ l) s = finalize_each now l (in_session (finalize_writes a now) s).1

  unfoldable pub finalize_ended_auctions : Bool → ℕ → Database → Database
  unfolding finalize_each
  finalize_ended_auctions locked now s =
      let t = finalize_each now (find is_unfinalized s.auctions) s in if locked then t else s
