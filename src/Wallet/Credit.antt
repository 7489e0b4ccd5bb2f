-- ===== src/Wallet/Credit.antt =====
-- `deposit` goes through for a user who has a wallet.
use Prim.Native.String.{String}
use mazadak_backend.Base.{ℤ, ℕ, pos, ◌+ℤ◌, ◌<ℤ◌, ◌≡◌, refl, true, Option, some}
use mazadak_backend.Store.{Driver}
use mazadak_backend.Database.{
  Wallet, Reference, TransactionReferenceType, TransactionType, Database, Event, Error, ok, pure,
  ◌>>◌, bind_ok,
}
use mazadak_backend.Wallet.{
  Movement, deposit_params, execute_wallet_op, credit_balance, deposit, notify,
}
use mazadak_backend.Wallet.Effect.{IsKeyed}
use mazadak_backend.Wallet.Success.{Owns, op_ok}
use mazadak_backend.Wallet.Spending.{positive_test}

module _ (d : Driver) (user : ℕ) (w : Wallet) (s : Database) (keyed : IsKeyed s)
    (owns : Owns s user w) where
  pub deposit_ok :
      (amount : ℤ) (r : Reference) (c : Option String) (t : Option TransactionReferenceType)
      (custom : Option TransactionType)
      → pos 0 <ℤ amount
      → (m : Movement) × (u : Database) × (deposit d user amount (some r) c t custom s ≡ (ok m, u))
  unfolding deposit credit_balance
  deposit_ok amount r c t custom positive =
      let (x, u, q) =
        op_ok d user w s keyed owns (λ _. true) (λ v. record v { balance = v.balance +ℤ amount })
          (deposit_params user amount (some r) c t custom) Error.wallet_not_found refl
          (positive_test amount positive) refl in
      (
        _,
        u,
        bind_ok
            (execute_wallet_op d (deposit_params user amount (some r) c t custom) (credit_balance d)
              Error.wallet_not_found)
            (λ m. notify d (some r) (Event.wallet_deposited user amount m.1.id) >> pure m) s _ u q,
      )
