-- ===== src/Withdrawals/Data.antt =====
-- What withdrawals.service.ts is given, its checks of the payout details, its limits and its fee.
use Prim.Native.String.{String}
use mazadak_backend.Base.{
  egp, to_fixed, is_blank, ℕ, ℤ, pos, negsuc, ◌*◌, ◌/◌, suc, ◌-ℤ◌, Bool, true, false, ◌&&◌, ◌||◌,
  Option, none, some, ◌==◌, if◌then◌else◌,
}
use mazadak_backend.Database.{
  PayoutMethod, instapay, bank_account, PayoutDetails, WithdrawalStatus, WithdrawalRequest, Error,
  Action, throw, throw_if, ◌>>◌,
}

-- RequestWithdrawalInput
pub record RequestWithdrawal : Type 0 where
  pub amount : ℤ
  pub payout_method : PayoutMethod
  pub payout_details : Option PayoutDetails

-- `!text?.trim()`
abbrev pub is_missing : Option String → Bool
is_missing none = true
is_missing (some s) = is_blank s

abbrev pub is_bank : PayoutMethod → Bool
is_bank bank_account = true
is_bank _ = false

unfoldable pub validate_details : PayoutMethod → PayoutDetails → Action (Unit {0})
validate_details bank_account p = do
  throw_if (is_missing p.bank_name || is_missing p.account_holder_name) Error.invalid_payout_details
  throw_if (is_missing p.account_number && is_missing p.iban) Error.invalid_payout_details
validate_details instapay p =
    throw_if (is_missing p.phone_number && is_missing p.ipa_address) Error.invalid_payout_details
validate_details _ p = throw_if (is_missing p.phone_number) Error.invalid_payout_details

unfoldable pub validate_payout_details : PayoutMethod → Option PayoutDetails → Action (Unit {0})
unfolding validate_details
validate_payout_details method none = throw Error.invalid_payout_details
validate_payout_details method (some p) = validate_details method p

abbrev pub max_allowed : PayoutMethod → ℤ
max_allowed method = if is_bank method then pos (10000000 * egp) else pos (50000 * egp)

-- `feePercentage` per cent of the amount, where the percentage counts thousandths. The division leaves
-- no rest for amounts of at most 15 decimals, which is so for every number from 50 on.
abbrev pub fee_of : ℕ → ℤ → ℤ
fee_of percentage (pos n) = pos (n * percentage / 100000)
fee_of percentage (negsuc n) = pos 0 -ℤ pos (suc n * percentage / 100000)

-- The figures of `calculateFee`.
pub record FeePreview : Type 0 where
  pub requested_amount : ℤ
  pub fee : ℤ
  -- In thousandths of a per cent.
  pub fee_percentage : ℕ
  pub net_amount : ℤ
  pub max_allowed : ℤ
  pub estimated_delivery : String

abbrev pub estimated_delivery : PayoutMethod → String
estimated_delivery method =
    if is_bank method then "3-5 business days" else "Within 24 business hours"

unfoldable pub calculate_fee : ℕ → ℤ → PayoutMethod → FeePreview
calculate_fee percentage amount method = record {
  requested_amount = to_fixed amount;
  fee = to_fixed (fee_of percentage amount);
  fee_percentage = percentage;
  net_amount = to_fixed (amount -ℤ fee_of percentage amount);
  max_allowed = max_allowed method;
  estimated_delivery = estimated_delivery method;
}

abbrev pub is_pending : WithdrawalStatus → Bool
is_pending WithdrawalStatus.pending = true
is_pending _ = false

-- PENDING or PROCESSING: the amount is held in the wallet.
abbrev pub is_open : WithdrawalStatus → Bool
is_open WithdrawalStatus.pending = true
is_open WithdrawalStatus.processing = true
is_open _ = false

-- The statuses of the unique index on user and day.
abbrev pub is_daily : WithdrawalStatus → Bool
is_daily WithdrawalStatus.pending = true
is_daily WithdrawalStatus.processing = true
is_daily WithdrawalStatus.completed = true
is_daily _ = false

abbrev pub same_day : ℕ → ℕ → WithdrawalRequest → Bool
same_day user date r = r.user_id == user && (r.request_date == date && is_daily r.status)
