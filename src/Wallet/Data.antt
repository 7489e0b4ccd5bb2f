-- ===== src/Wallet/Data.antt =====
-- What the wallet operations and the ledger entries are given, and the conditions of the updates
-- (wallet.service.ts, mongo.wallet.repository.ts, mongo.transaction.repository.ts).
use Prim.Native.String.{String}
use mazadak_backend.Base.{ℕ, ℤ, pos, Bool, false, Option, none, ◌-ℤ◌, leb_ℤ, or_else}
use mazadak_backend.Database.{
  Wallet, Transaction, TransactionType, TransactionStatus, TransactionReferenceType, Reference,
  Error, Action, throw_if,
}

-- `validateAmount`: a positive amount.
abbrev pub validate_amount : ℤ → Action (Unit {0})
validate_amount amount = throw_if (leb_ℤ amount (pos 0)) Error.invalid_amount

-- The data of `createTransaction`.
pub record CreateTransactionData : Type 0 where
  pub wallet_id : ℕ
  pub type : TransactionType
  pub amount : ℤ
  pub currency : String
  pub status : TransactionStatus
  pub reference_id : Option Reference
  pub reference_type : Option TransactionReferenceType

-- MongoTransactionRepository.create does not pass the currency on, so the schema's default stands.
abbrev pub new_transaction : CreateTransactionData → ℕ → Transaction
new_transaction c i = record {
  id = i;
  wallet_id = c.wallet_id;
  type = c.type;
  amount = c.amount;
  currency = "EGP";
  status = c.status;
  reference_id = c.reference_id;
  reference_type = c.reference_type;
  has_child = false;
}

-- A wallet with the entry made for it.
abbrev pub Movement : Type 0
Movement = Wallet × Transaction

-- MongoWalletRepository: `findOneAndUpdate` with a filter and an increment.
abbrev pub WalletUpdate : Type 0
WalletUpdate = ℕ → ℤ → Action (Option Wallet)

-- What `executeWalletOp` is given beside the update and the exception.
pub record OpParams : Type 0 where
  pub user_id : ℕ
  pub amount : ℤ
  pub currency : Option String
  pub type : TransactionType
  pub reference_id : Option Reference
  pub reference_type : Option TransactionReferenceType

-- The entry of an operation that went through.
abbrev pub success_entry : OpParams → ℕ → CreateTransactionData
success_entry p wallet_id = record {
  wallet_id = wallet_id;
  type = p.type;
  amount = p.amount;
  currency = or_else p.currency "EGP";
  status = TransactionStatus.success;
  reference_id = p.reference_id;
  reference_type = p.reference_type;
}

-- The documents that `$expr` lets through: what is available covers the amount.
abbrev pub covers : ℤ → Wallet → Bool
covers amount w = leb_ℤ amount (w.balance -ℤ w.held_balance)

abbrev pub holds : ℤ → Wallet → Bool
holds amount w = leb_ℤ amount w.held_balance

-- The entry for a withdrawal that failed, made outside the aborted session.
abbrev pub failed_entry :
    ℕ
    → ℤ
    → Option Reference
    → Option TransactionReferenceType
    → Option TransactionType
    → CreateTransactionData
failed_entry wallet_id amount reference reference_type custom = record {
  wallet_id = wallet_id;
  type = or_else custom TransactionType.withdraw;
  amount = amount;
  currency = "EGP";
  status = TransactionStatus.failed;
  reference_id = reference;
  reference_type = reference_type;
}

abbrev pub op :
    TransactionType → ℕ → ℤ → Option Reference → Option TransactionReferenceType → OpParams
op type user amount reference reference_type = record {
  user_id = user;
  amount = amount;
  currency = none;
  type = type;
  reference_id = reference;
  reference_type = reference_type;
}

abbrev pub deposit_params :
    ℕ
    → ℤ
    → Option Reference
    → Option String
    → Option TransactionReferenceType
    → Option TransactionType
    → OpParams
deposit_params user amount reference currency reference_type custom = record {
  user_id = user;
  amount = amount;
  currency = currency;
  type = or_else custom TransactionType.deposit;
  reference_id = reference;
  reference_type = reference_type;
}

abbrev pub withdraw_params :
    ℕ → ℤ → Option Reference → Option TransactionReferenceType → Option TransactionType → OpParams
withdraw_params user amount reference reference_type custom = record {
  user_id = user;
  amount = amount;
  currency = none;
  type = or_else custom TransactionType.withdraw;
  reference_id = reference;
  reference_type = reference_type;
}

abbrev pub empty_wallet : ℕ → ℕ → Wallet
empty_wallet i user = record { id = i; user_id = user; balance = pos 0; held_balance = pos 0 }
