-- ===== src/Database/Documents.antt =====
-- The entities and enumerations of src/wallet, src/transaction, src/escrow, src/withdrawals,
-- src/auctions and src/bids.
use Prim.Native.String.{String}
use mazadak_backend.Base.{ℕ, ℤ, Bool, Option, List}
use mazadak_backend.Bids.Engine.{BidStatus}

pub record Wallet : Type 0 where
  pub id : ℕ
  pub user_id : ℕ
  pub balance : ℤ
  pub held_balance : ℤ

pub data TransactionType : Type 0 where
  deposit withdraw hold release capture refund admin_credit admin_debit : TransactionType

pub data TransactionStatus : Type 0 where
  pending processing success failed cancelled expired : TransactionStatus

pub data TransactionReferenceType : Type 0 where
  auction transaction escrow dispute withdrawal : TransactionReferenceType

-- A reference is the text of an identifier, or a text that is none.
pub data Reference : Type 0 where
  object : ℕ → Reference
  tag : String → Reference

pub record Transaction : Type 0 where
  pub id : ℕ
  pub wallet_id : ℕ
  pub type : TransactionType
  pub amount : ℤ
  pub currency : String
  pub status : TransactionStatus
  pub reference_id : Option Reference
  pub reference_type : Option TransactionReferenceType
  pub has_child : Bool

pub data EscrowStatus : Type 0 where
  held released refunded disputed : EscrowStatus

pub record Escrow : Type 0 where
  pub id : ℕ
  pub auction_id : ℕ
  pub buyer_id : ℕ
  pub seller_id : ℕ
  pub amount : ℤ
  pub currency : String
  pub status : EscrowStatus
  pub inspection_period_ends_at : ℕ
  pub released_at : Option ℕ
  pub refunded_at : Option ℕ
  pub dispute_id : Option ℕ
  pub release_reason : Option String

pub data DisputeReason : Type 0 where
  item_not_received item_damaged item_mismatch counterfeit_item other : DisputeReason

pub data DisputeStatus : Type 0 where
  opened under_review resolved_buyer_refunded resolved_seller_paid cancelled : DisputeStatus

pub data DisputeResolution : Type 0 where
  refund_buyer pay_seller : DisputeResolution

pub record Dispute : Type 0 where
  pub id : ℕ
  pub escrow_id : ℕ
  pub auction_id : ℕ
  pub opened_by_id : ℕ
  pub against_user_id : ℕ
  pub reason : DisputeReason
  pub description : String
  pub evidence_urls : List String
  pub status : DisputeStatus
  pub admin_id : Option ℕ
  pub admin_decision : Option DisputeResolution
  pub admin_notes : Option String
  pub resolved_at : Option ℕ

pub data WithdrawalStatus : Type 0 where
  pending processing completed rejected cancelled : WithdrawalStatus

pub data PayoutMethod : Type 0 where
  vodafone_cash orange_cash etisalat_cash we_pay instapay bank_account : PayoutMethod

pub record PayoutDetails : Type 0 where
  pub bank_name : Option String
  pub account_holder_name : Option String
  pub account_number : Option String
  pub iban : Option String
  pub phone_number : Option String
  pub ipa_address : Option String

pub record WithdrawalRequest : Type 0 where
  pub id : ℕ
  pub user_id : ℕ
  pub amount : ℤ
  pub fee : ℤ
  -- In thousandths of a per cent.
  pub fee_percentage : ℕ
  pub net_amount : ℤ
  pub currency : String
  pub payout_method : PayoutMethod
  pub payout_details : Option PayoutDetails
  pub status : WithdrawalStatus
  pub hold_transaction_id : Option ℕ
  pub completion_transaction_id : Option ℕ
  pub admin_reference : Option String
  pub receipt_url : Option String
  pub rejection_reason : Option String
  pub processed_by : Option ℕ
  pub processed_at : Option ℕ
  pub completed_at : Option ℕ
  pub request_date : ℕ

pub data AuctionStatus : Type 0 where
  pending active ended cancelled : AuctionStatus

pub data AuctionCategory : Type 0 where
  electronics fashion jewelry watches antiques art collectibles books : AuctionCategory
  furniture home_appliances cars motorcycles real_estate sports toys other : AuctionCategory

pub record Auction : Type 0 where
  pub id : ℕ
  pub seller_id : ℕ
  pub title : String
  pub description : String
  pub category : AuctionCategory
  pub images : List String
  pub starting_price : ℤ
  pub current_price : ℤ
  pub minimum_bid_increment : ℤ
  pub status : AuctionStatus
  pub start_time : ℕ
  pub end_time : ℕ
  pub winner_id : Option ℕ
  pub is_finalized : Bool
  pub admin_action_reason : Option String

pub record Bid : Type 0 where
  pub id : ℕ
  pub auction_id : ℕ
  pub bidder_id : ℕ
  pub amount : ℤ
  pub status : BidStatus

pub data AutoBidStatus : Type 0 where
  active exhausted cancelled : AutoBidStatus

pub record AutoBid : Type 0 where
  pub id : ℕ
  pub auction_id : ℕ
  pub user_id : ℕ
  pub max_amount : ℤ
  pub status : AutoBidStatus
  pub created_at : ℕ

-- The events that the modelled operations save, with the data that they carry.
pub data Event : Type 0 where
  wallet_deposited : ℕ → ℤ → ℕ → Event
  withdrawal_paid : ℕ → ℤ → ℕ → Event
  escrow_created : ℕ → ℕ → ℕ → ℕ → ℤ → ℕ → Event
  escrow_released : ℕ → ℕ → ℕ → ℕ → ℤ → String → Event
  escrow_refunded : ℕ → ℕ → ℕ → ℕ → ℤ → String → Event
  escrow_disputed : ℕ → ℕ → ℕ → ℕ → Event
  dispute_opened : ℕ → ℕ → ℕ → ℕ → ℕ → DisputeReason → Event
  dispute_cancelled : ℕ → ℕ → ℕ → ℕ → ℕ → ℕ → Event
  dispute_resolved : ℕ → ℕ → ℕ → ℕ → ℕ → ℕ → DisputeResolution → Option String → Event
  withdrawal_requested : ℕ → ℤ → ℤ → ℤ → PayoutMethod → ℕ → Event
  withdrawal_completed : ℕ → ℤ → ℤ → ℕ → String → Option String → PayoutMethod → ℕ → Event
  withdrawal_rejected : ℕ → ℤ → ℕ → String → Event
  bid_placed : ℕ → ℕ → String → ℕ → ℕ → ℤ → Option ℕ → Option ℕ → Event
  auto_bid_placed : ℕ → ℕ → String → ℕ → ℤ → Event
  auto_bid_exhausted : ℕ → ℕ → String → ℕ → ℤ → ℤ → Event
  auction_started : ℕ → String → ℕ → Event
  auction_cancelled : ℕ → String → ℕ → Option ℕ → Option ℤ → Event
  auction_cancelled_by_admin : ℕ → String → ℕ → String → Option ℕ → Option ℤ → Event
  auction_ended : ℕ → String → ℕ → ℤ → Option ℕ → Option ℕ → Option ℕ → Event

-- `generated` counts the identifiers given out.
pub record Database : Type 0 where
  pub wallets : List Wallet
  pub transactions : List Transaction
  pub outbox : List Event
  pub escrows : List Escrow
  pub disputes : List Dispute
  pub withdrawals : List WithdrawalRequest
  pub auctions : List Auction
  pub bids : List Bid
  pub auto_bids : List AutoBid
  pub generated : ℕ
