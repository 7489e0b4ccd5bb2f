-- ===== src/Withdrawals/Filing.antt =====
-- What a new request and an administrator's adjustment do to what the wallets hold.
use Prim.Native.String.{String, ◌++◌}
use mazadak_backend.Base.{
  suc, is_some, ltb, ◌*◌, ◌||◌, ◌&&◌, ℕ, ℤ, pos, ◌+ℤ◌, ◌-ℤ◌, ◌≡◌, refl, sym, subst, Bool, true,
  false, Option, none, some, ltb_ℤ, int_laws, Bool-cases, inl, inr, ◌==◌,
}
use mazadak_backend.Store.{Driver}
use mazadak_backend.Database.{
  TransactionType, tag, modify, Reference, Wallet, TransactionReferenceType, PayoutMethod,
  PayoutDetails, bank_account, instapay, vodafone_cash, orange_cash, etisalat_cash, we_pay,
  WithdrawalRequest, Database, Event, Error, Result, ok, err, Action, pure, ◌>>=◌, ◌>>◌, throw_if,
  throw_if_rule, bind_rule, in_session_rule, in_session, save_event,
}
use mazadak_backend.Database.Reading.{Reads, throw_if-Reads, both-Reads}
use mazadak_backend.Wallet.{Movement, hold, deposit, get_wallet_or_throw}
use mazadak_backend.Wallet.Effect.{Moves}
use mazadak_backend.Wallet.Lookup.{got_wallet_rule}
use mazadak_backend.Wallet.Operations.{hold-Moves, deposit-Moves}
use mazadak_backend.Wallet.Failure.{withdraw_rule}
use mazadak_backend.Wallet.Totals.{owned}
use mazadak_backend.Holds.{
  StillBacked, OwesAt, IsBacked, nothing, Owes-IsKeyed, Moved-Owes, later_IsRegistered,
}
use mazadak_backend.Holds.Changes.{added_request, same_missing}
use mazadak_backend.Withdrawals.{
  same_day, max_allowed, egp, is_missing, RequestWithdrawal, validate_details,
  validate_payout_details, check_request, new_withdrawal, create_withdrawal, file_request,
  request_withdrawal, map_duplicate, has_request_today, adjust_balance,
}
use mazadak_backend.Withdrawals.Backing.{Commits}

validate-Reads :
    (method : PayoutMethod) (details : Option PayoutDetails) (s : Database)
    → Reads s (validate_payout_details method details s)
unfolding validate_payout_details validate_details
validate-Reads method none s = refl
validate-Reads bank_account (some p) s =
    both-Reads
      (throw_if (is_missing p.bank_name || is_missing p.account_holder_name)
        Error.invalid_payout_details)
      (throw_if (is_missing p.account_number && is_missing p.iban) Error.invalid_payout_details) s
      (throw_if-Reads (is_missing p.bank_name || is_missing p.account_holder_name)
        Error.invalid_payout_details s)
      (throw_if-Reads (is_missing p.account_number && is_missing p.iban)
        Error.invalid_payout_details s)
validate-Reads instapay (some p) s =
    throw_if-Reads (is_missing p.phone_number && is_missing p.ipa_address)
      Error.invalid_payout_details s
validate-Reads vodafone_cash (some p) s =
    throw_if-Reads (is_missing p.phone_number) Error.invalid_payout_details s
validate-Reads orange_cash (some p) s =
    throw_if-Reads (is_missing p.phone_number) Error.invalid_payout_details s
validate-Reads etisalat_cash (some p) s =
    throw_if-Reads (is_missing p.phone_number) Error.invalid_payout_details s
validate-Reads we_pay (some p) s =
    throw_if-Reads (is_missing p.phone_number) Error.invalid_payout_details s

check_request-Reads : (input : RequestWithdrawal) (s : Database) → Reads s (check_request input s)
check_request-Reads input s =
    both-Reads (validate_payout_details input.payout_method input.payout_details)
      (throw_if low Error.withdrawal_below_minimum
        >> throw_if high Error.payout_method_amount_exceeded)
      s (validate-Reads input.payout_method input.payout_details s)
      (both-Reads (throw_if low Error.withdrawal_below_minimum)
        (throw_if high Error.payout_method_amount_exceeded) s
        (throw_if-Reads low Error.withdrawal_below_minimum s)
        (throw_if-Reads high Error.payout_method_amount_exceeded s))
  where
    low : Bool
    low = ltb_ℤ input.amount (pos (50 * egp))

    high : Bool
    high = ltb_ℤ (max_allowed input.payout_method) input.amount

module _ (d : Driver) (s : Database) (h : IsBacked d s) where
  open d use {insert_law}

  pub file_request-Commits :
      (percentage user : ℕ) (input : RequestWithdrawal) (date : ℕ)
      → Commits d s (file_request d percentage user input date s)
  unfolding file_request create_withdrawal
  file_request-Commits percentage user input date =
      bind_rule (Moves user (pos 0) input.amount s) (Commits d s)
        (hold d user input.amount none (some TransactionReferenceType.withdrawal)) entered s
        (hold-Moves d user input.amount none (some TransactionReferenceType.withdrawal) s
          (Owes-IsKeyed s h))
        (λ m t moved.
          inserted m t
            (Moved-Owes (λ u. pos 0 -ℤ owned u user input.amount) h moved (λ u. omega int_laws))
            moved.rest.bids moved.rest.auctions)
        (λ _ _ _. tt)
    where
      told : WithdrawalRequest → Action WithdrawalRequest
      told r =
          save_event d
            (Event.withdrawal_requested user r.amount r.net_amount r.fee r.payout_method r.id)
          >> pure r

      entered : Movement → Action WithdrawalRequest
      entered m = create_withdrawal d (new_withdrawal percentage user input m.1.id date) >>= told

      inserted :
          (m : Movement) (t : Database)
          → OwesAt d (λ u. pos 0 -ℤ owned u user input.amount) t
          → t.bids ≡ s.bids
          → t.auctions ≡ s.auctions
          → Commits d s (entered m t)
      inserted m t owes bids auctions =
          let r : WithdrawalRequest =
            new_withdrawal percentage user input m.1.id date (d.object_id t.generated) in
          bind_rule (Commits d s) (Commits d s)
            (create_withdrawal d (new_withdrawal percentage user input m.1.id date)) told t
            (throw_if_rule (is_some (d.find_one (same_day user date) t.withdrawals))
              Error.duplicate_key (record t { generated = suc t.generated }) (Commits d s)
              (modify (λ v. record v { withdrawals = d.insert r v.withdrawals }) >> pure r)
              (λ _. (
                same_missing (added_request owes {r = r} (insert_law r t.withdrawals) refl) nothing
                    (λ v. omega int_laws),
                bids,
                auctions,
              ))
              tt)
            (λ _ _ b. b) (λ _ _ _. tt)

  pub in_session-StillBacked :
      {A : Type 0} (m : Action A) → Commits d s (m s) → StillBacked d s (in_session m s).1
  in_session-StillBacked m c =
      in_session_rule (Commits d s) (λ x. StillBacked d s x.1) m s c (λ _ _ b. b)
        (λ _. (h, refl, refl))

  -- `requestWithdrawal` changes nothing but by its session.
  pub request_rule {κ} :
      (percentage user : ℕ) (input : RequestWithdrawal) (today date : ℕ) (P : Database → Type κ)
      → P s
      → P (in_session (file_request d percentage user input date) s).1
      → P (request_withdrawal d percentage user input today date s).1
  unfolding request_withdrawal has_request_today
  request_rule percentage user input today date P same filed_rule =
      bind_rule (Reads s) (λ x. P x.1) (check_request input) (λ _. checked) s
        (check_request-Reads input s)
        (λ _ t e.
          subst (λ u. P (checked u).1) (sym e)
            (got_wallet_rule d user affords s (λ x. P x.1)
              (λ w _ _.
                throw_if_rule (ltb_ℤ (w.balance -ℤ w.held_balance) input.amount)
                  Error.insufficient_funds s (λ x. P x.1) (has_request_today d user today >>= once)
                  (λ _.
                    throw_if_rule (ltb 0 (d.count_documents (same_day user today) s.withdrawals))
                      Error.daily_withdrawal_limit_reached s (λ x. P x.1) session
                      (λ _. mapped (in_session filed s) filed_rule) same)
                  same)
              same))
        (λ _ t e. subst P (sym e) same)
    where
      filed : Action WithdrawalRequest
      filed = file_request d percentage user input date

      session : Action WithdrawalRequest
      session u = map_duplicate (in_session filed u)

      mapped : (x : Result WithdrawalRequest × Database) → P x.1 → P (map_duplicate x).1
      mapped (ok a, t) b = b
      mapped (err e, t) b = b

      once : Bool → Action WithdrawalRequest
      once b = throw_if b Error.daily_withdrawal_limit_reached >> session

      affords : Wallet → Action WithdrawalRequest
      affords w =
          throw_if (ltb_ℤ (w.balance -ℤ w.held_balance) input.amount) Error.insufficient_funds
          >> (has_request_today d user today >>= once)

      checked : Action WithdrawalRequest
      checked = get_wallet_or_throw d user >>= affords

  pub request_withdrawal-StillBacked :
      (percentage user : ℕ) (input : RequestWithdrawal) (today date : ℕ)
      → StillBacked d s (request_withdrawal d percentage user input today date s).1
  request_withdrawal-StillBacked percentage user input today date =
      request_rule percentage user input today date (StillBacked d s) (h, refl, refl)
        (in_session-StillBacked (file_request d percentage user input date)
          (file_request-Commits percentage user input date))

  owned-nil : (v user : ℕ) → nothing v +ℤ owned v user (pos 0) ≡ nothing v
  owned-nil v user = elim (Bool-cases (user == v)) [
    | inl t ↦ rw t (omega int_laws)
    | inr t ↦ rw t (omega int_laws)
  ]

  pub adjust_balance-StillBacked :
      (admin : String) (credit : Bool) (user : ℕ) (amount : ℤ) (reason : String)
      → StillBacked d s (adjust_balance d admin credit user amount reason s).1
  unfolding adjust_balance
  adjust_balance-StillBacked admin true user amount reason =
      bind_rule (Moves user amount (pos 0) s) (λ x. StillBacked d s x.1)
        (deposit d user amount reference (some "EGP") (some TransactionReferenceType.transaction)
          (some TransactionType.admin_credit))
        (λ m. pure m.0) s
        (deposit-Moves d user amount reference (some "EGP")
          (some TransactionReferenceType.transaction) (some TransactionType.admin_credit) s
          (Owes-IsKeyed s h))
        (λ _ t moved. (
          Moved-Owes nothing h moved (λ v. owned-nil v user),
          moved.rest.bids,
          moved.rest.auctions,
        ))
        (λ _ t e. subst (StillBacked d s) (sym e) (h, refl, refl))
    where
      reference : Option Reference
      reference = some (tag ("ADMIN_ADJUST:" ++ (admin ++ (":" ++ reason))))
  adjust_balance-StillBacked admin false user amount reason =
      withdraw_rule d user amount reference (some TransactionReferenceType.transaction)
        (some TransactionType.admin_debit) s (Owes-IsKeyed s h)
        (λ x. StillBacked d s (((λ _. x) >>= λ m. pure m.0) s).1)
        (λ _ t moved. (
          Moved-Owes nothing h moved (λ v. owned-nil v user),
          moved.rest.bids,
          moved.rest.auctions,
        ))
        (λ _ k g later. (
          record {
            wallets = h.wallets;
            owners = h.owners;
            solvent = h.solvent;
            requests = later_IsRegistered g _ later h.requests;
            bids = later_IsRegistered g _ later h.bids;
            held = h.held;
          },
          refl,
          refl,
        ))
    where
      reference : Option Reference
      reference = some (tag ("ADMIN_ADJUST:" ++ (admin ++ (":" ++ reason))))
