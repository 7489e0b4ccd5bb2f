-- ===== src/Withdrawals/Runs.antt =====
-- Any sequence of calls of the withdrawals service.
use Prim.Native.String.{String}
use mazadak_backend.Base.{ℕ, ℤ, Bool, List, [], ◌∷◌}
use mazadak_backend.Store.{Driver}
use mazadak_backend.Database.{Database}
use mazadak_backend.Holds.{StillBacked, IsBacked}
use mazadak_backend.Withdrawals.{
  RequestWithdrawal, request_withdrawal, cancel_withdrawal, start_processing, complete_withdrawal,
  reject_withdrawal, adjust_balance, cancel_writes, complete_writes, reject_writes,
}
use mazadak_backend.Withdrawals.Backing.{
  cancel_writes-Commits, reject_writes-Commits, complete_writes-Commits,
  start_processing-StillBacked,
}
use mazadak_backend.Withdrawals.Filing.{
  in_session-StillBacked, request_withdrawal-StillBacked, adjust_balance-StillBacked,
}

pub data WithdrawalCall : Type 0 where
  requests : (percentage user : ℕ) (input : RequestWithdrawal) (today date : ℕ) → WithdrawalCall
  cancels : (user withdrawal_id : ℕ) → WithdrawalCall
  starts : (admin withdrawal_id now : ℕ) → WithdrawalCall
  completes : (admin withdrawal_id : ℕ) (reference receipt : String) (now : ℕ) → WithdrawalCall
  rejects : (admin withdrawal_id : ℕ) (reason : String) (now : ℕ) → WithdrawalCall
  adjusts :
      (admin : String) (credit : Bool) (user : ℕ) (amount : ℤ) (reason : String) → WithdrawalCall

module _ (d : Driver) where
  abbrev pub run_withdrawal_call : WithdrawalCall → Database → Database
  run_withdrawal_call (requests percentage user input today date) s =
      (request_withdrawal d percentage user input today date s).1
  run_withdrawal_call (cancels user i) s = (cancel_withdrawal d user i s).1
  run_withdrawal_call (starts admin i now) s = (start_processing d admin i now s).1
  run_withdrawal_call (completes admin i reference receipt now) s =
      (complete_withdrawal d admin i reference receipt now s).1
  run_withdrawal_call (rejects admin i reason now) s = (reject_withdrawal d admin i reason now s).1
  run_withdrawal_call (adjusts admin credit user amount reason) s =
      (adjust_balance d admin credit user amount reason s).1

  pub run_withdrawal_call-StillBacked :
      (c : WithdrawalCall) (s : Database) → IsBacked d s → StillBacked d s (run_withdrawal_call c s)
  unfolding cancel_withdrawal complete_withdrawal reject_withdrawal
  run_withdrawal_call-StillBacked (requests percentage user input today date) s h =
      request_withdrawal-StillBacked d s h percentage user input today date
  run_withdrawal_call-StillBacked (cancels user i) s h =
      in_session-StillBacked d s h (cancel_writes d user i) (cancel_writes-Commits d s h user i)
  run_withdrawal_call-StillBacked (starts admin i now) s h =
      start_processing-StillBacked d s h admin i now
  run_withdrawal_call-StillBacked (completes admin i reference receipt now) s h =
      in_session-StillBacked d s h (complete_writes d admin i reference receipt now)
        (complete_writes-Commits d s h admin i reference receipt now)
  run_withdrawal_call-StillBacked (rejects admin i reason now) s h =
      in_session-StillBacked d s h (reject_writes d admin i reason now)
        (reject_writes-Commits d s h admin i reason now)
  run_withdrawal_call-StillBacked (adjusts admin credit user amount reason) s h =
      adjust_balance-StillBacked d s h admin credit user amount reason

  abbrev pub run_withdrawal_calls : List WithdrawalCall → Database → Database
  run_withdrawal_calls [] s = s
  run_withdrawal_calls (c ∷ cs) s = run_withdrawal_calls cs (run_withdrawal_call c s)

  -- If keys are unique, wallets solvent, and every user has held exactly the amounts of the user's
  -- open (PENDING or PROCESSING) withdrawals and of the user's WINNING bids of auctions that are
  -- neither cancelled nor finalized, then so it is after any sequence of requests, cancellations,
  -- starts, completions, rejections and adjustments of balances, of any users, whether the calls
  -- return or throw.
  pub run_withdrawal_calls-IsBacked :
      (cs : List WithdrawalCall) (s : Database)
      → IsBacked d s
      → IsBacked d (run_withdrawal_calls cs s)
  run_withdrawal_calls-IsBacked [] s h = h
  run_withdrawal_calls-IsBacked (c ∷ cs) s h =
      run_withdrawal_calls-IsBacked cs (run_withdrawal_call c s)
        (run_withdrawal_call-StillBacked c s h).0
