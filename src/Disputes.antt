-- ===== src/Disputes.antt =====
-- src/escrow/services/disputes.service.ts over mongo.dispute.repository.ts. The checks of a call
-- are made before its session begins, which holds the writes alone; here nothing comes in between.
pub mod Links
pub mod Order
pub mod Steps
pub mod Closing
pub mod Invariant
pub mod Runs
pub mod Gaps
pub mod Outcome
pub mod Progress
use Prim.Native.String.{String, ◌++◌}
use mazadak_backend.Base.{
  given, ℕ, Bool, true, false, not, ◌||◌, Option, none, some, List, [], ◌∷◌, ◌==◌, ltb, or_else,
  if◌then◌else◌,
}
use mazadak_backend.Store.{Driver}
use mazadak_backend.Database.{
  Escrow, EscrowStatus, held, disputed, object, TransactionReferenceType, Dispute, DisputeReason,
  DisputeStatus, opened, under_review, resolved_buyer_refunded, resolved_seller_paid,
  DisputeResolution, refund_buyer, pay_seller, Database, Event, Error, Result, ok, err, Action,
  pure, gets, or_throw, ◌>>=◌, ◌>>◌, throw_if, modify, in_session, new_id, save_event,
}
use mazadak_backend.Escrow.{
  is_held, is_released, is_disputed, no_extra, update_status, find_by_auction_id, release_escrow,
  refund_escrow,
}

pub record CreateDispute : Type 0 where
  pub auction_id : ℕ
  pub reason : DisputeReason
  pub description : String
  pub evidence_urls : Option (List String)

-- UpdateDisputeExtraData: only what is given is set.
pub record DisputeExtra : Type 0 where
  pub admin_id : Option ℕ
  pub admin_decision : Option DisputeResolution
  pub admin_notes : Option String
  pub resolved_at : Option ℕ

abbrev pub no_dispute_extra : DisputeExtra
no_dispute_extra = record {
  admin_id = none;
  admin_decision = none;
  admin_notes = none;
  resolved_at = none;
}

abbrev pub with_dispute_status : DisputeStatus → DisputeExtra → Dispute → Dispute
with_dispute_status status x c = record c {
  status = status;
  admin_id = given x.admin_id c.admin_id;
  admin_decision = given x.admin_decision c.admin_decision;
  admin_notes = given x.admin_notes c.admin_notes;
  resolved_at = given x.resolved_at c.resolved_at;
}

-- Neither resolved nor cancelled.
abbrev pub is_active : DisputeStatus → Bool
is_active opened = true
is_active under_review = true
is_active _ = false

abbrev pub new_dispute : Escrow → ℕ → ℕ → CreateDispute → ℕ → Dispute
new_dispute e user against input i = record {
  id = i;
  escrow_id = e.id;
  auction_id = input.auction_id;
  opened_by_id = user;
  against_user_id = against;
  reason = input.reason;
  description = input.description;
  evidence_urls = or_else input.evidence_urls [];
  status = opened;
  admin_id = none;
  admin_decision = none;
  admin_notes = none;
  resolved_at = none;
}

abbrev pub against_user : Escrow → ℕ → ℕ
against_user e user = if e.buyer_id == user then e.seller_id else e.buyer_id

-- The guards of `openDispute`.
abbrev pub can_open : ℕ → ℕ → Escrow → Action (Unit {0})
can_open user now e = do
  throw_if (not (e.buyer_id == user || e.seller_id == user)) Error.escrow_unauthorized
  throw_if (is_released e.status) Error.escrow_already_released
  throw_if (is_disputed e.status) Error.escrow_already_disputed
  throw_if (not (is_held e.status)) Error.invalid_dispute_action
  throw_if (ltb e.inspection_period_ends_at now) Error.dispute_window_expired

abbrev pub resolution_status : DisputeResolution → DisputeStatus
resolution_status refund_buyer = resolved_buyer_refunded
resolution_status pay_seller = resolved_seller_paid

module _ (d : Driver) where
  open d use {find_one, find_one_and_update, insert}

  find_dispute : ℕ → Action (Option Dispute)
  find_dispute i = gets (λ s. find_one (λ c. c.id == i) s.disputes)

  pub update_dispute : ℕ → DisputeStatus → DisputeExtra → Action (Option Dispute)
  update_dispute i status x s =
      let (found, rest) =
        find_one_and_update (λ c. c.id == i) (with_dispute_status status x) s.disputes in
      (ok found, record s { disputes = rest })

  pub create_dispute : Escrow → ℕ → ℕ → CreateDispute → Action Dispute
  create_dispute e user against input = do
    i ← new_id d
    let c = new_dispute e user against input i
    modify (λ s. record s { disputes = insert c s.disputes })
    pure c

  -- The writes of `openDispute`.
  pub enter_dispute : ℕ → CreateDispute → Escrow → Action Dispute
  unfolding create_dispute
  enter_dispute user input e = do
    c ← create_dispute e user (against_user e user) input
    update_status d e.id disputed (record no_extra { dispute_id = some c.id })
    save_event d
        (Event.dispute_opened c.id e.id input.auction_id user (against_user e user) input.reason)
    save_event d (Event.escrow_disputed e.id input.auction_id c.id user)
    pure c

  pub open_dispute : ℕ → CreateDispute → ℕ → Action Dispute
  unfolding enter_dispute
  open_dispute user input now = do
    e ← (do or_throw (← find_by_auction_id d input.auction_id) Error.escrow_not_found)
    can_open user now e
    in_session (enter_dispute user input e)

  pub get_dispute : ℕ → Action Dispute
  unfolding find_dispute
  get_dispute i = do or_throw (← find_dispute i) Error.dispute_not_found

  -- The writes of `cancelDispute`.
  pub withdraw_dispute : ℕ → Dispute → Action (Option Dispute)
  unfolding update_dispute
  withdraw_dispute user c = do
    updated ← update_dispute c.id DisputeStatus.cancelled no_dispute_extra
    update_status d c.escrow_id held no_extra
    save_event d (
        Event.dispute_cancelled c.id c.escrow_id c.auction_id c.opened_by_id c.against_user_id user)
    pure updated

  pub cancel_dispute : ℕ → ℕ → Action (Option Dispute)
  unfolding get_dispute withdraw_dispute
  cancel_dispute user i = do
    c ← get_dispute i
    throw_if (not (c.opened_by_id == user)) Error.escrow_unauthorized
    throw_if (not (is_active c.status)) Error.dispute_already_resolved
    in_session (withdraw_dispute user c)

  -- Any status may be given.
  pub update_dispute_status : ℕ → DisputeStatus → Action (Option Dispute)
  unfolding get_dispute update_dispute
  update_dispute_status i status = do
    c ← get_dispute i
    throw_if (not (is_active c.status)) Error.dispute_already_resolved
    update_dispute c.id status no_dispute_extra

  pub pay_resolution : DisputeResolution → Option String → Dispute → ℕ → Action (Option Escrow)
  pay_resolution refund_buyer notes c now =
      refund_escrow d c.escrow_id ("ADMIN_RESOLVED_DISPUTE: " ++ (or_else notes "Refund Buyer"))
        TransactionReferenceType.dispute (some (object c.id)) now
  pay_resolution pay_seller notes c now =
      release_escrow d c.escrow_id ("ADMIN_RESOLVED_DISPUTE: " ++ (or_else notes "Pay Seller"))
        TransactionReferenceType.dispute (some (object c.id)) now

  -- The writes of `resolveDispute`.
  pub settle_dispute : ℕ → DisputeResolution → Option String → ℕ → Dispute → Action (Option Dispute)
  unfolding pay_resolution update_dispute
  settle_dispute admin decision notes now c = do
    pay_resolution decision notes c now
    updated ← update_dispute c.id (resolution_status decision) (record {
      admin_id = some admin;
      admin_decision = some decision;
      admin_notes = notes;
      resolved_at = some now;
    })
    save_event d (
        Event.dispute_resolved c.id c.escrow_id c.auction_id c.opened_by_id c.against_user_id admin
          decision notes)
    pure updated

  pub resolve_dispute : ℕ → ℕ → DisputeResolution → Option String → ℕ → Action (Option Dispute)
  unfolding get_dispute settle_dispute
  resolve_dispute admin i decision notes now = do
    c ← get_dispute i
    throw_if (not (is_active c.status)) Error.dispute_already_resolved
    in_session (settle_dispute admin decision notes now c)
