-- ===== src/Examples.antt =====
-- The theorems at concrete inputs, over the driver of Store/ListStore.
pub mod Bidding
pub mod Payments
pub mod Cases
pub mod Market
pub mod Payouts
