-- ===== src/Examples/Payouts.antt =====
-- Withdrawals: one that is paid out and one that waits.
use mathlib.Core.List.{Memᴰ}
use mazadak_backend.Base.{
  piastre, ℕ, pos, ◌*◌, ◌/◌, ◌+ℤ◌, ◌≡◌, refl, some, List, [], ◌∷◌, Bool-cases, inl, inr, int_laws,
  arith, ◌==◌,
}
use mazadak_backend.Store.ListStore.{list_store}
use mazadak_backend.Database.{
  WithdrawalRequest, WithdrawalStatus, vodafone_cash, Database, Error, err,
}
use mazadak_backend.Wallet.Totals.{owned}
use mazadak_backend.Holds.{IsBacked}
use mazadak_backend.Escrow.Progress.{Returns}
use mazadak_backend.Withdrawals.{
  calculate_fee, cancel_withdrawal, reject_withdrawal, start_processing, complete_withdrawal,
}
use mazadak_backend.Withdrawals.Runs.{
  WithdrawalCall, cancels, completes, rejects, run_withdrawal_calls,
}
use mazadak_backend.Withdrawals.Finality.{run_withdrawal_calls-Memᴰ}
use mazadak_backend.Withdrawals.Refusal.{closed_request_refused}
use mazadak_backend.Withdrawals.Fees.{excess, calculate_fee_sum}
use mazadak_backend.Withdrawals.Progress.{
  HasAmounts, cancel_withdrawal-Returns, reject_withdrawal-Returns,
}
use mazadak_backend.Examples.Market.{pounds, market, market-IsTrading, payout}

abbrev paid_out : WithdrawalRequest
paid_out = record payout {
  id = 0;
  status = WithdrawalStatus.completed;
  completion_transaction_id = some 7;
  request_date = 3;
}

abbrev later : Database
later = record market { withdrawals = paid_out ∷ payout ∷ [] }

due_later :
    (u : ℕ)
    → owned u 1 (pounds 180) +ℤ (owned u 2 (pos 0) +ℤ pos 0) +ℤ pos 0
      ≡ owned u 1 (pos 0) +ℤ (owned u 1 (pounds 60) +ℤ pos 0) +ℤ (owned u 1 (pounds 120) +ℤ pos 0)
unfolding ◌+ℤ◌
due_later u = elim (Bool-cases (1 == u)) [
  | inl e ↦ elim (Bool-cases (2 == u)) [
    | inl f ↦ rw (e, f) (omega int_laws)
    | inr f ↦ rw (e, f) (omega int_laws)
  ]
  | inr e ↦ elim (Bool-cases (2 == u)) [ inl f ↦ rw (e, f) refl | inr f ↦ rw (e, f) refl ]
]

later-IsBacked : IsBacked list_store later
unfolding list_store
later-IsBacked = record {
  wallets = market-IsTrading.0.wallets;
  owners = market-IsTrading.0.owners;
  solvent = market-IsTrading.0.solvent;
  requests = record {
    unique = ((omega arith, tt), (tt, tt));
    given = ((0, omega arith, refl), ((2, omega arith, refl), tt));
  };
  bids = market-IsTrading.0.bids;
  held = due_later;
}

market-HasAmounts : HasAmounts market
market-HasAmounts = record { requests = (omega arith, tt); bids = (omega arith, tt) }

-- Neither a second decision nor a cancellation reaches the request that was paid out.
abbrev attempts : List WithdrawalCall
attempts = rejects 9 0 "late" 40 ∷ cancels 1 0 ∷ completes 9 2 "ref" "receipt" 41 ∷ []

run_withdrawal_calls-Memᴰ_example :
    Memᴰ paid_out (run_withdrawal_calls list_store attempts later).withdrawals
run_withdrawal_calls-Memᴰ_example =
    run_withdrawal_calls-Memᴰ list_store attempts later later-IsBacked paid_out (Memᴰ.head refl)
      refl

cancel_withdrawal-Returns_example : Returns (cancel_withdrawal list_store 1 2 market)
cancel_withdrawal-Returns_example =
    cancel_withdrawal-Returns list_store market market-IsTrading.0 market-HasAmounts payout
      (Memᴰ.head refl) refl

reject_withdrawal-Returns_example : Returns (reject_withdrawal list_store 9 2 "no" 40 market)
reject_withdrawal-Returns_example =
    reject_withdrawal-Returns list_store market market-IsTrading.0 market-HasAmounts payout
      (Memᴰ.head refl) 9 "no" 40 refl

-- 50.25 EGP at two per cent: the figures shown are 1.01 and 49.25.
calculate_fee_sum_example :
    (calculate_fee 2000 (pos (5025 * piastre)) vodafone_cash).fee
      +ℤ (calculate_fee 2000 (pos (5025 * piastre)) vodafone_cash).net_amount
    ≡ (calculate_fee 2000 (pos (5025 * piastre)) vodafone_cash).requested_amount
      +ℤ pos (excess (5025 * piastre * 2000 / 100000))
calculate_fee_sum_example = calculate_fee_sum 2000 (5025 * piastre) vodafone_cash (omega arith) refl

closed_request_refused_example :
    (cancel_withdrawal list_store 2 0 later ≡ (err Error.withdrawal_not_found, later))
    × (start_processing list_store 9 0 40 later ≡ (err Error.withdrawal_not_pending, later))
    × (complete_withdrawal list_store 9 0 "ref" "receipt" 40 later
        ≡ (err Error.withdrawal_not_in_progress, later))
    × (reject_withdrawal list_store 9 0 "no" 40 later
        ≡ (err Error.withdrawal_not_rejectable, later))
closed_request_refused_example =
    closed_request_refused list_store later later-IsBacked.requests.unique paid_out (Memᴰ.head refl)
      refl 2 9 40 "ref" "receipt" "no"
