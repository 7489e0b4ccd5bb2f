-- ===== src/Withdrawals.antt =====
-- src/withdrawals/withdrawals.service.ts over mongo.withdrawal.repository.ts. The time of a call and
-- the days that it reads from the calendar of Cairo are arguments, and so is the configured fee.
pub mod Data
pub mod Transitions
pub mod Backing
pub mod Filing
pub mod Runs
pub mod Finality
pub mod Fees
pub mod Progress
pub mod Refusal
unfoldable pub use Data.*
use Prim.Native.String.{String, ◌++◌}
use mazadak_backend.Base.{
  egp, ℕ, ℤ, pos, ◌*◌, ◌-ℤ◌, Bool, true, false, not, ◌&&◌, ◌||◌, Option, none, some, List, ◌==◌,
  ltb, ltb_ℤ, is_some, or_else, if◌then◌else◌, sum_of,
}
use mazadak_backend.Store.{Driver}
use mazadak_backend.Database.{
  Wallet, Transaction, TransactionType, TransactionReferenceType, Reference, object, tag,
  WithdrawalStatus, WithdrawalRequest, Database, Event, Error, Result, ok, err, Action, pure, throw,
  gets, or_throw, ◌>>=◌, ◌>>◌, throw_if, modify, in_session, new_id, save_event,
}
use mazadak_backend.Wallet.{
  Movement, get_wallet_or_throw, hold, release, capture, deposit, withdraw,
}

-- `toNumber` is taken as exact, as it is on a fee of at most 15 digits.
abbrev pub new_withdrawal : ℕ → ℕ → RequestWithdrawal → ℕ → ℕ → ℕ → WithdrawalRequest
new_withdrawal percentage user input hold_id date i = record {
  id = i;
  user_id = user;
  amount = input.amount;
  fee = fee_of percentage input.amount;
  fee_percentage = percentage;
  net_amount = input.amount -ℤ fee_of percentage input.amount;
  currency = "EGP";
  payout_method = input.payout_method;
  payout_details = input.payout_details;
  status = WithdrawalStatus.pending;
  hold_transaction_id = some hold_id;
  completion_transaction_id = none;
  admin_reference = none;
  receipt_url = none;
  rejection_reason = none;
  processed_by = none;
  processed_at = none;
  completed_at = none;
  request_date = date;
}

-- The checks of `requestWithdrawal` that read nothing.
abbrev pub check_request : RequestWithdrawal → Action (Unit {0})
check_request input = do
  validate_payout_details input.payout_method input.payout_details
  throw_if (ltb_ℤ input.amount (pos (50 * egp))) Error.withdrawal_below_minimum
  throw_if (ltb_ℤ (max_allowed input.payout_method) input.amount)
      Error.payout_method_amount_exceeded

abbrev pub is_duplicate_key : Error → Bool
is_duplicate_key Error.duplicate_key = true
is_duplicate_key _ = false

-- Code 11000 of the driver is the daily limit.
abbrev pub map_duplicate : {A : Type 0} → Result A × Database → Result A × Database
map_duplicate (ok a, s) = (ok a, s)
map_duplicate (err e, s) =
    (err (if is_duplicate_key e then Error.daily_withdrawal_limit_reached else e), s)

module _ (d : Driver) where
  open d use {find_one, find_one_and_update, count_documents, insert}

  pub find_withdrawal : ℕ → Action (Option WithdrawalRequest)
  find_withdrawal i = gets (λ s. find_one (λ r. r.id == i) s.withdrawals)

  -- `transitionStatus`: from the statuses that pass the first test, of a request that passes the other.
  pub transition_status :
      ℕ
      → (WithdrawalStatus → Bool)
      → (WithdrawalRequest → Bool)
      → (WithdrawalRequest → WithdrawalRequest)
      → Action (Option WithdrawalRequest)
  transition_status i from filter change s =
      let (found, rest) =
        find_one_and_update (λ r. r.id == i && (from r.status && filter r)) change s.withdrawals in
      (ok found, record s { withdrawals = rest })

  -- `updateStatus` with the capture's entry.
  pub link_completion : ℕ → ℕ → Action (Option WithdrawalRequest)
  link_completion i entry s =
      let (found, rest) =
        find_one_and_update (λ r. r.id == i)
          (λ r. record r {
            status = WithdrawalStatus.completed;
            completion_transaction_id = some entry;
          })
          s.withdrawals in
      (ok found, record s { withdrawals = rest })

  pub has_request_today : ℕ → ℕ → Action Bool
  has_request_today user today =
      gets (λ s. ltb 0 (count_documents (same_day user today) s.withdrawals))

  -- The unique index refuses a second request of the day.
  pub create_withdrawal : (ℕ → WithdrawalRequest) → Action WithdrawalRequest
  create_withdrawal make = do
    i ← new_id d
    let r = make i
    taken ← gets (λ s. find_one (same_day r.user_id r.request_date) s.withdrawals)
    throw_if (is_some taken) Error.duplicate_key
    modify (λ s. record s { withdrawals = insert r s.withdrawals })
    pure r

  -- The session of `requestWithdrawal`.
  pub file_request : ℕ → ℕ → RequestWithdrawal → ℕ → Action WithdrawalRequest
  unfolding create_withdrawal
  file_request percentage user input date = do
    m ← hold d user input.amount none (some TransactionReferenceType.withdrawal)
    r ← create_withdrawal (new_withdrawal percentage user input m.1.id date)
    save_event d (Event.withdrawal_requested user r.amount r.net_amount r.fee r.payout_method r.id)
    pure r

  pub request_withdrawal : ℕ → ℕ → RequestWithdrawal → ℕ → ℕ → Action WithdrawalRequest
  unfolding has_request_today file_request
  request_withdrawal percentage user input today date = do
    check_request input
    w ← get_wallet_or_throw d user
    throw_if (ltb_ℤ (w.balance -ℤ w.held_balance) input.amount) Error.insufficient_funds
    throw_if (← has_request_today user today) Error.daily_withdrawal_limit_reached
    λ s. map_duplicate (in_session (file_request percentage user input date) s)

  -- What a call throws when no request passed its filter.
  abbrev pub refused_unless :
      ℕ → (WithdrawalRequest → Bool) → Error → Option WithdrawalRequest → Action WithdrawalRequest
  refused_unless i mine e (some r) = pure r
  refused_unless i mine e none = do
    existing ← find_withdrawal i
    elim existing [
      | none ↦ throw Error.withdrawal_not_found
      | some r ↦ if mine r then throw e else throw Error.withdrawal_not_found
    ]

  -- The session of `cancelWithdrawal`.
  pub cancel_writes : ℕ → ℕ → Action WithdrawalRequest
  unfolding transition_status find_withdrawal
  cancel_writes user i = do
    found ←
        transition_status i is_pending (λ r. r.user_id == user)
          (λ r. record r { status = WithdrawalStatus.cancelled })
    r ← refused_unless i (λ r. r.user_id == user) Error.withdrawal_not_cancellable found
    release d user r.amount (some (object i)) (some TransactionReferenceType.withdrawal)
    pure r

  pub cancel_withdrawal : ℕ → ℕ → Action WithdrawalRequest
  unfolding cancel_writes
  cancel_withdrawal user i = in_session (cancel_writes user i)

  pub start_processing : ℕ → ℕ → ℕ → Action WithdrawalRequest
  unfolding transition_status find_withdrawal
  start_processing admin i now = do
    found ←
        transition_status i is_pending (λ _. true)
          (λ r. record r {
            status = WithdrawalStatus.processing;
            processed_by = some admin;
            processed_at = some now;
          })
    refused_unless i (λ _. true) Error.withdrawal_not_pending found

  -- The session of `adminCompleteWithdrawal`.
  pub complete_writes : ℕ → ℕ → String → String → ℕ → Action WithdrawalRequest
  unfolding transition_status find_withdrawal link_completion
  complete_writes admin i reference receipt now = do
    found ←
        transition_status i is_open (λ _. true)
          (λ r. record r {
            status = WithdrawalStatus.completed;
            admin_reference = some reference;
            receipt_url = some receipt;
            completed_at = some now;
            processed_by = some admin;
          })
    r ← refused_unless i (λ _. true) Error.withdrawal_not_in_progress found
    m ← capture d r.user_id r.amount (some (object i)) (some TransactionReferenceType.withdrawal)
    linked ← link_completion i m.1.id
    let result = or_else linked r
    save_event d (
        Event.withdrawal_completed result.user_id r.amount r.net_amount m.1.id reference
          (some receipt) result.payout_method result.id)
    pure result

  pub complete_withdrawal : ℕ → ℕ → String → String → ℕ → Action WithdrawalRequest
  unfolding complete_writes
  complete_withdrawal admin i reference receipt now =
      in_session (complete_writes admin i reference receipt now)

  -- The session of `adminRejectWithdrawal`.
  pub reject_writes : ℕ → ℕ → String → ℕ → Action WithdrawalRequest
  unfolding transition_status find_withdrawal
  reject_writes admin i reason now = do
    found ←
        transition_status i is_open (λ _. true)
          (λ r. record r {
            status = WithdrawalStatus.rejected;
            rejection_reason = some reason;
            processed_by = some admin;
            processed_at = some now;
          })
    r ← refused_unless i (λ _. true) Error.withdrawal_not_rejectable found
    release d r.user_id r.amount (some (object i)) (some TransactionReferenceType.withdrawal)
    save_event d (Event.withdrawal_rejected r.user_id r.amount r.id reason)
    pure r

  pub reject_withdrawal : ℕ → ℕ → String → ℕ → Action WithdrawalRequest
  unfolding reject_writes
  reject_withdrawal admin i reason now = in_session (reject_writes admin i reason now)

  -- `true` is CREDIT. The text of an administrator's identifier is given.
  pub adjust_balance : String → Bool → ℕ → ℤ → String → Action Wallet
  adjust_balance admin credit user amount reason =
      let reference = some (tag ("ADMIN_ADJUST:" ++ (admin ++ (":" ++ reason)))) in
      (if credit
        then deposit d user amount reference (some "EGP")
            (some TransactionReferenceType.transaction) (some TransactionType.admin_credit)
        else withdraw d user amount reference (some TransactionReferenceType.transaction)
            (some TransactionType.admin_debit))
      >>= λ m. pure m.0

-- `sumPendingWithdrawals`, `sumCompletedWithdrawals` and `sumCollectedFees`
abbrev pub obligation : WithdrawalRequest → ℤ
obligation r = if is_open r.status then r.amount else pos 0

abbrev pub is_completed : WithdrawalStatus → Bool
is_completed WithdrawalStatus.completed = true
is_completed _ = false

abbrev pub sum_pending_withdrawals : Database → ℤ
sum_pending_withdrawals s = sum_of obligation s.withdrawals

abbrev pub sum_completed_withdrawals : Database → ℤ
sum_completed_withdrawals s =
    sum_of (λ r. if is_completed r.status then r.amount else pos 0) s.withdrawals

abbrev pub sum_collected_fees : Database → ℤ
sum_collected_fees s = sum_of (λ r. if is_completed r.status then r.fee else pos 0) s.withdrawals
