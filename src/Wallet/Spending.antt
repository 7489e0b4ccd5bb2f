-- ===== src/Wallet/Spending.antt =====
-- `hold`, `release` and `capture` on every branch.
use mazadak_backend.Base.{
  ℕ, ℤ, pos, ◌≡◌, ◌∙◌, refl, Bool, true, false, Option, ◌+ℤ◌, ◌-ℤ◌, ◌≤ℤ◌, ◌<ℤ◌, leb_ℤ, arith,
}
use mazadak_backend.Store.{Driver}
use mazadak_backend.Database.{
  Wallet, Reference, TransactionReferenceType, TransactionType, Database, Error, Result, ok, err,
  Action,
}
use mazadak_backend.Wallet.{
  Movement, WalletUpdate, OpParams, covers, holds, update_wallet, execute_wallet_op, hold, release,
  capture, hold_balance, release_balance, capture_held_balance, op,
}
use mazadak_backend.Wallet.Effect.{IsKeyed}
use mazadak_backend.Wallet.Success.{Owns, op_ok, op_err}

-- The operations that need funds.
pub data Spending : Type 0 where
  holding releasing capturing : Spending

unfoldable pub spend :
    Driver → Spending → ℕ → ℤ → Option Reference → Option TransactionReferenceType → Action Movement
spend d holding = hold d
spend d releasing = release d
spend d capturing = capture d

-- What a wallet has for the operation: a hold takes what is available, the others what is held.
abbrev pub funds : Spending → Wallet → ℤ
funds holding w = w.balance -ℤ w.held_balance
funds releasing w = w.held_balance
funds capturing w = w.held_balance

op_invalid :
    (d : Driver) (p : OpParams) (o : WalletUpdate) (e : Error) (s : Database)
    → leb_ℤ p.amount (pos 0) ≡ true
    → execute_wallet_op d p o e s ≡ (err Error.invalid_amount, s)
unfolding execute_wallet_op
op_invalid d p o e s h = rw h

-- What becomes of a spending call on the user's wallet.
pub record SpendOutcome (user : ℕ) (amount : ℤ) (w : Wallet) (available : ℤ) (s : Database)
    (x : Result Movement × Database) : Type 0 where
  pub goes_through :
      pos 0 <ℤ amount → amount ≤ℤ available → (m : Movement) × (t : Database) × (x ≡ (ok m, t))
  pub lacks_funds : pos 0 <ℤ amount → available <ℤ amount → x ≡ (err Error.insufficient_funds, s)
  pub invalid : amount ≤ℤ pos 0 → x ≡ (err Error.invalid_amount, s)

pub positive_test : (amount : ℤ) → pos 0 <ℤ amount → leb_ℤ amount (pos 0) ≡ false
positive_test amount h = ground arith

covered_test : (a b : ℤ) → a ≤ℤ b → leb_ℤ a b ≡ true
covered_test a b h = ground arith

short_test : (a b : ℤ) → b <ℤ a → leb_ℤ a b ≡ false
short_test a b h = ground arith

module _ (d : Driver) (user : ℕ) (w : Wallet) (s : Database) (keyed : IsKeyed s)
    (owns : Owns s user w) (amount : ℤ) (r : Option Reference)
    (type : Option TransactionReferenceType) where
  outcome :
      (test : Wallet → Bool) (f : Wallet → Wallet) (p : OpParams) (available : ℤ)
      → p.user_id ≡ user
      → p.amount ≡ amount
      → test w ≡ leb_ℤ amount available
      → SpendOutcome user amount w available s
          (execute_wallet_op d p (λ i _. update_wallet d test f i) Error.insufficient_funds s)
  outcome test f p available mine same e = record {
    goes_through = λ h k.
        let (x, t, q) =
          op_ok d user w s keyed owns test f p Error.insufficient_funds mine
            (rw same (positive_test amount h)) (e ∙ covered_test amount available k) in
        ((f w, x), t, q);
    lacks_funds = λ h k.
        op_err d user w s keyed owns test f p Error.insufficient_funds mine
          (rw same (positive_test amount h)) (e ∙ short_test amount available k);
    invalid = λ h.
        op_invalid d p (λ i _. update_wallet d test f i) Error.insufficient_funds s
          (rw same (covered_test amount (pos 0) h));
  }

  -- On the wallet of a user, `hold`, `release` and `capture` go through exactly when the amount is
  -- positive and within what is available (for a hold) or what is held (for the others). A positive
  -- amount beyond that throws InsufficientFunds, one of at most 0 InvalidAmount, and in both cases
  -- the database is unchanged: no FAILED entry is made.
  pub spend_outcome :
      (k : Spending) → SpendOutcome user amount w (funds k w) s (spend d k user amount r type s)
  unfolding spend hold release capture hold_balance release_balance capture_held_balance
  spend_outcome holding =
      outcome (covers amount) (λ x. record x { held_balance = x.held_balance +ℤ amount })
        (op TransactionType.hold user amount r type) (w.balance -ℤ w.held_balance) refl refl refl
  spend_outcome releasing =
      outcome (holds amount) (λ x. record x { held_balance = x.held_balance -ℤ amount })
        (op TransactionType.release user amount r type) w.held_balance refl refl refl
  spend_outcome capturing =
      outcome (holds amount)
        (λ x. record x { balance = x.balance -ℤ amount; held_balance = x.held_balance -ℤ amount })
        (op TransactionType.capture user amount r type) w.held_balance refl refl refl
