-- ===== src/Bids.antt =====
-- The bidding part of the program (src/bids).
pub mod Engine
pub mod Repositories
pub mod Placing
pub mod AutoBidding
pub mod AutoBiddingOutcome
pub mod Finalizing
pub mod Trading
pub mod Outcome
pub mod Settlement
