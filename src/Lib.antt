-- ===== src/Lib.antt =====
-- Mazadak backend (src/, a NestJS service over MongoDB): auctions with proxy bidding, the users'
-- wallets that back the bids and the withdrawals, and the escrows between a buyer and a seller.
--
-- The parts and where they are modelled:
--   Bids/Engine: bids/services/proxy-bidding-engine.service.ts. `calculateNextState` is a pure
--     function; its scenarios are functions of their own (manual_turn, fresh_turn, reigning_turn,
--     challenge_turn). NoActiveAutoBidsException is `none`.
--   Bids/Repositories: bids/repositories/. Bids/Placing: placeBid of bids/bids.service.ts around the
--     engine, with the holds, the releases and the events (Trading and Outcome have its proofs).
--     Bids/AutoBidding: setAutoBid and cancelAutoBid of bids/services/auto-bidding.service.ts
--     (AutoBiddingOutcome). Bids/Finalizing: finalizeEndedAuctions (Settlement).
--   Auctions: auctions/auctions.service.ts and its repository: creation, change, cancellation by
--     the seller or an administrator, and the scheduled activation and ending.
--   Withdrawals: withdrawals/withdrawals.service.ts and its repository: Withdrawals/Data has the
--     fee, the limits and the checks of the payout details.
--   Holds: the proofs' view of what each user must have held: the open withdrawals and the winning
--     bids of auctions that are not settled. The services keep no such record; they add to and take
--     from `heldBalance` in each call.
--   Marketplace: the calls of withdrawals, bids, auto-bids and auctions, in any order.
--   Store: the MongoDB driver, which is not in the repository, is a record of operations and
--     laws, and every theorem holds for each such driver. Store/ListStore is one. Store/Keyed has
--     the rules of its operations on documents with a key.
--   Database: the documents of the entities, and what a service's call may do: read and write the
--     database, return, or throw. A session restores the database when a call throws.
--   Wallet: wallet/wallet.service.ts, its repository, and the entries of
--     transaction/ that it makes. The entry's gateway fields and its dates are left out.
--   Escrow: escrow/services/escrow.service.ts, escrow-expiration.service.ts and the repository.
--     It pays out through Wallet.deposit.
--   Disputes: escrow/services/disputes.service.ts and its repository. A call's checks come before
--     its session; the model runs both without a break, and the session's writes are functions of
--     their own (enter_dispute, withdraw_dispute, settle_dispute). It pays out through Escrow.
--   Base: tests, lists, money, text, and the rounding of doubles. Examples: the theorems at concrete inputs.
--
-- Amounts are integers that count 10^-20 EGP, so that Decimal is exact. A JavaScript number stands for
-- its shortest decimal form; a percentage counts thousandths of a per cent, and the fee is then exact
-- for amounts of at most 15 decimals. `toFixed(2)` of a Decimal is `to_fixed`, and that of a number
-- is `number_to_fixed`, which rounds the double's binary value (Base/Double). Times are natural
-- numbers of milliseconds and are arguments of the calls. Identifiers are natural numbers. Calls are
-- taken one after the other: a call that runs in a session is a single step, as the database
-- isolates it. The loops are over lists. Fuel is used only for the binary places of a double: 120,
-- of which the smallest amount needs 119.
--
-- Not modelled: queries for pages and filters, realtime publications, locks and caches, mail, the
-- consumers of events, and the services of payments, chat, reviews, notifications and users. The
-- creation of auctions is modelled, and is not one of the calls of Marketplace.
pub mod Base
pub mod Marketplace
pub mod Store
pub mod Auctions
pub mod Bids
pub mod Database
pub mod Wallet
pub mod Escrow
pub mod Disputes
pub mod Withdrawals
pub mod Holds
pub mod Examples
