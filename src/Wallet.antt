-- ===== src/Wallet.antt =====
-- src/wallet: the atomic updates of mongo.wallet.repository.ts and the operations of
-- wallet.service.ts, with the ledger entries of src/transaction. The realtime publications that
-- follow an operation are left out: nothing of the modelled state depends on them.
pub mod Data
pub mod Effect
pub mod Operations
pub mod Totals
pub mod History
pub mod Lookup
pub mod Failure
pub mod Success
pub mod Spending
pub mod Credit
pub use Data.*
use Prim.Native.String.{String}
use mazadak_backend.Base.{
  ℕ, ℤ, pos, Bool, true, false, Option, none, some, List, ◌+ℤ◌, ◌-ℤ◌, leb_ℤ, ◌==◌, ◌&&◌, or_else,
  if◌then◌else◌,
}
use mazadak_backend.Store.{Driver}
use mazadak_backend.Database.{
  Wallet, Transaction, TransactionType, TransactionStatus, TransactionReferenceType, Reference,
  object, tag, Database, Event, Error, Result, ok, err, Action, pure, throw, gets, or_throw, ◌>>=◌,
  ◌>>◌, throw_if, modify, in_session, new_id, save_event,
}

module _ (d : Driver) where
  open d use {find_one, find_one_and_update, insert}

  find_by_user_id : ℕ → Action (Option Wallet)
  find_by_user_id user = gets (λ s. find_one (λ w. w.user_id == user) s.wallets)

  -- `createWallet`: a wallet starts empty.
  pub create_wallet : ℕ → Action Wallet
  create_wallet user = do
    i ← new_id d
    let w = empty_wallet i user
    modify (λ s. record s { wallets = insert w s.wallets })
    pure w

  -- An update of the wallet with the identifier, if it passes the test.
  unfoldable pub update_wallet : (Wallet → Bool) → (Wallet → Wallet) → ℕ → Action (Option Wallet)
  update_wallet test f wallet_id s =
      let (found, rest) = find_one_and_update (λ w. w.id == wallet_id && test w) f s.wallets in
      (ok found, record s { wallets = rest })

  pub credit_balance : WalletUpdate
  unfolding update_wallet
  credit_balance wallet_id amount =
      update_wallet (λ w. true) (λ w. record w { balance = w.balance +ℤ amount }) wallet_id

  pub debit_balance : WalletUpdate
  unfolding update_wallet
  debit_balance wallet_id amount =
      update_wallet (covers amount) (λ w. record w { balance = w.balance -ℤ amount }) wallet_id

  pub hold_balance : WalletUpdate
  unfolding update_wallet
  hold_balance wallet_id amount =
      update_wallet (covers amount) (λ w. record w { held_balance = w.held_balance +ℤ amount })
        wallet_id

  pub release_balance : WalletUpdate
  unfolding update_wallet
  release_balance wallet_id amount =
      update_wallet (holds amount) (λ w. record w { held_balance = w.held_balance -ℤ amount })
        wallet_id

  pub capture_held_balance : WalletUpdate
  unfolding update_wallet
  capture_held_balance wallet_id amount =
      update_wallet (holds amount)
        (λ w. record w { balance = w.balance -ℤ amount; held_balance = w.held_balance -ℤ amount })
        wallet_id

  insert_transaction : CreateTransactionData → Action Transaction
  insert_transaction input = do
    i ← new_id d
    let t = new_transaction input i
    modify (λ s. record s { transactions = insert t s.transactions })
    pure t

  mark_has_child : ℕ → Action (Unit {0})
  mark_has_child i = modify (λ s. record s {
    transactions =
        (find_one_and_update (λ t. t.id == i) (λ t. record t { has_child = true })
          s.transactions).1;
  })

  -- `referenceId && isValid(referenceId)`
  mark_reference : Option Reference → Action (Unit {0})
  unfolding mark_has_child
  mark_reference (some (object i)) = mark_has_child i
  mark_reference _ = pure tt

  pub create_transaction : CreateTransactionData → Action Transaction
  unfolding insert_transaction mark_reference
  create_transaction input = do
    t ← insert_transaction input
    mark_reference input.reference_id
    pure t

  pub get_wallet_or_throw : ℕ → Action Wallet
  unfolding find_by_user_id
  get_wallet_or_throw user = do or_throw (← find_by_user_id user) Error.wallet_not_found

  -- The entry is made only after the update went through.
  pub execute_wallet_op : OpParams → WalletUpdate → Error → Action Movement
  unfolding get_wallet_or_throw create_transaction
  execute_wallet_op p operation on_null = do
    validate_amount p.amount
    wallet ← get_wallet_or_throw p.user_id
    updated ← (do or_throw (← operation wallet.id p.amount) on_null)
    transaction ← create_transaction (success_entry p wallet.id)
    pure (updated, transaction)

  -- The mail for a deposit or withdrawal that refers to nothing. The source does not wait for its
  -- entry in the outbox; here it is made before the call returns.
  abbrev pub notify : Option Reference → Event → Action (Unit {0})
  notify none e = save_event d e
  notify (some r) e = pure tt

  pub deposit :
      ℕ
      → ℤ
      → Option Reference
      → Option String
      → Option TransactionReferenceType
      → Option TransactionType
      → Action Movement
  unfolding execute_wallet_op credit_balance
  deposit user amount reference currency reference_type custom = do
    m ←
        execute_wallet_op (deposit_params user amount reference currency reference_type custom)
          credit_balance Error.wallet_not_found
    notify reference (Event.wallet_deposited user amount m.1.id)
    pure m

  pub execute_withdrawal :
      ℕ
      → ℤ
      → Option Reference
      → Option TransactionReferenceType
      → Option TransactionType
      → Action Movement
  unfolding execute_wallet_op debit_balance
  execute_withdrawal user amount reference reference_type custom = do
    m ←
        execute_wallet_op (withdraw_params user amount reference reference_type custom)
          debit_balance Error.insufficient_funds
    notify reference (Event.withdrawal_paid user amount m.1.id)
    pure m

  -- The `catch` of `withdraw`.
  log_failure : CreateTransactionData → Result Movement × Database → Result Movement × Database
  unfolding create_transaction
  log_failure entry (ok m, t) = (ok m, t)
  log_failure entry (err e, t) = (err e, (create_transaction entry t).1)

  -- `withdraw` with no session of the caller's.
  pub withdraw :
      ℕ
      → ℤ
      → Option Reference
      → Option TransactionReferenceType
      → Option TransactionType
      → Action Movement
  unfolding get_wallet_or_throw execute_withdrawal log_failure
  withdraw user amount reference reference_type custom s = elim (get_wallet_or_throw user s).0 [
    | err e ↦ (err e, s)
    | ok wallet ↦
        log_failure (failed_entry wallet.id amount reference reference_type custom)
          (in_session (execute_withdrawal user amount reference reference_type custom) s)
  ]

  pub hold : ℕ → ℤ → Option Reference → Option TransactionReferenceType → Action Movement
  unfolding execute_wallet_op hold_balance
  hold user amount reference reference_type =
      execute_wallet_op (op TransactionType.hold user amount reference reference_type) hold_balance
        Error.insufficient_funds

  pub release : ℕ → ℤ → Option Reference → Option TransactionReferenceType → Action Movement
  unfolding execute_wallet_op release_balance
  release user amount reference reference_type =
      execute_wallet_op (op TransactionType.release user amount reference reference_type)
        release_balance Error.insufficient_funds

  pub capture : ℕ → ℤ → Option Reference → Option TransactionReferenceType → Action Movement
  unfolding execute_wallet_op capture_held_balance
  capture user amount reference reference_type =
      execute_wallet_op (op TransactionType.capture user amount reference reference_type)
        capture_held_balance Error.insufficient_funds
