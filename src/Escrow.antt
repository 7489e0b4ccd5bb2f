-- ===== src/Escrow.antt =====
-- src/escrow/services/escrow.service.ts over mongo.escrow.repository.ts, with the run of
-- escrow-expiration.service.ts. The time of a call is an argument. What a call publishes after its
-- commit is left out.
pub mod Data
pub mod Custody
pub mod Release
pub mod Status
pub mod Expiry
pub mod Creation
pub mod Progress
pub mod Conservation
pub use Data.*
use Prim.Native.String.{String}
use mazadak_backend.Base.{
  given, ℕ, ℤ, suc, pos, ◌+◌, ◌*◌, Bool, true, false, not, ◌&&◌, ◌||◌, Option, none, some, List, [],
  ◌∷◌, ◌+ℤ◌, leb, ◌==◌, is_some, or_else, if◌then◌else◌, sum_of,
}
use mazadak_backend.Store.{Driver}
use mazadak_backend.Database.{
  Escrow, EscrowStatus, held, released, refunded, disputed, Reference, object,
  TransactionReferenceType, Database, Event, Error, Result, ok, err, Action, pure, throw, gets,
  or_throw, ◌>>=◌, ◌>>◌, throw_if, modify, in_session, new_id, save_event,
}
use mazadak_backend.Wallet.{deposit}

module _ (d : Driver) where
  open d use {find_one, find_one_and_update, find_some, insert}

  pub find_by_id : ℕ → Action (Option Escrow)
  find_by_id i = gets (λ s. find_one (λ e. e.id == i) s.escrows)

  pub find_by_auction_id : ℕ → Action (Option Escrow)
  find_by_auction_id i = gets (λ s. find_one (λ e. e.auction_id == i) s.escrows)

  pub update_status : ℕ → EscrowStatus → EscrowExtra → Action (Option Escrow)
  update_status i status x s =
      let (found, rest) = find_one_and_update (λ e. e.id == i) (with_status status x) s.escrows in
      (ok found, record s { escrows = rest })

  insert_escrow : CreateEscrow → ℕ → Action Escrow
  insert_escrow c now = do
    i ← new_id d
    let e = new_escrow c now i
    modify (λ s. record s { escrows = insert e s.escrows })
    save_event d (
        Event.escrow_created i c.auction_id c.buyer_id c.seller_id c.amount
          (now + inspection_window))
    pure e

  or_create : CreateEscrow → ℕ → Option Escrow → Action Escrow
  unfolding insert_escrow
  or_create c now (some e) = pure e
  or_create c now none = insert_escrow c now

  pub create_escrow : CreateEscrow → ℕ → Action Escrow
  unfolding or_create find_by_auction_id
  create_escrow c now = do or_create c now (← find_by_auction_id c.auction_id)

  pub get_escrow : ℕ → Action Escrow
  unfolding find_by_id
  get_escrow i = do or_throw (← find_by_id i) Error.escrow_not_found

  -- What `confirmDelivery` and `releaseEscrow` do once the guards have passed.
  pub pay_seller_out :
      Escrow → ℕ → String → TransactionReferenceType → Reference → Action (Option Escrow)
  unfolding update_status
  pay_seller_out e now reason type reference = do
    deposit d e.seller_id e.amount (some reference) (some e.currency) (some type) none
    updated ←
        update_status e.id released
          (record no_extra { released_at = some now; release_reason = some reason })
    save_event d (Event.escrow_released e.id e.auction_id e.buyer_id e.seller_id e.amount reason)
    pure updated

  pub pay_buyer_back :
      Escrow → ℕ → String → TransactionReferenceType → Reference → Action (Option Escrow)
  unfolding update_status
  pay_buyer_back e now reason type reference = do
    deposit d e.buyer_id e.amount (some reference) (some e.currency) (some type) none
    updated ←
        update_status e.id refunded
          (record no_extra { refunded_at = some now; release_reason = some reason })
    save_event d (Event.escrow_refunded e.id e.auction_id e.buyer_id e.seller_id e.amount reason)
    pure updated

  pub confirm_delivery : ℕ → ℕ → ℕ → Action (Option Escrow)
  unfolding get_escrow pay_seller_out
  confirm_delivery buyer escrow_id now = in_session (do
    e ← get_escrow escrow_id
    can_confirm buyer e
    pay_seller_out e now "BUYER_CONFIRMED" TransactionReferenceType.escrow (object e.auction_id))

  pub release_escrow :
      ℕ → String → TransactionReferenceType → Option Reference → ℕ → Action (Option Escrow)
  unfolding get_escrow pay_seller_out
  release_escrow escrow_id reason type reference now = do
    e ← get_escrow escrow_id
    can_release e.status type
    pay_seller_out e now reason type (or_else reference (object e.auction_id))

  pub refund_escrow :
      ℕ → String → TransactionReferenceType → Option Reference → ℕ → Action (Option Escrow)
  unfolding get_escrow pay_buyer_back
  refund_escrow escrow_id reason type reference now = do
    e ← get_escrow escrow_id
    can_refund e.status type
    pay_buyer_back e now reason type (or_else reference (object e.auction_id))

  -- `findExpiredHeldEscrows`
  pub find_expired : ℕ → ℕ → Database → List Escrow
  find_expired now limit s =
      find_some (λ e. is_held e.status && leb e.inspection_period_ends_at now) limit s.escrows

  -- The loop of `releaseExpiredHeldEscrows`: a session for each escrow, and a failure is passed over.
  pub release_each : ℕ → List Escrow → ℕ → Database → ℕ × Database
  unfolding release_escrow
  release_each now [] count s = (count, s)
  release_each now (e ∷ es) count s =
      let (r, t) =
        in_session
          (release_escrow e.id "EXPIRED_INSPECTION_WINDOW" TransactionReferenceType.escrow none now)
          s in
      release_each now es (elim r [ ok _ ↦ suc count | err _ ↦ count ]) t

  -- The default of `limit` is 50.
  pub release_expired_held_escrows : ℕ → ℕ → Action ℕ
  unfolding find_expired release_each
  release_expired_held_escrows now limit s =
      let (count, t) = release_each now (find_expired now limit s) 0 s in (ok count, t)

  -- `handleExpiredHeldEscrows`: nothing happens unless the lock was taken.
  pub handle_expired_held_escrows : Bool → ℕ → Action (Unit {0})
  unfolding release_expired_held_escrows
  handle_expired_held_escrows locked now =
      if locked then (release_expired_held_escrows now 50 >> pure tt) else pure tt
