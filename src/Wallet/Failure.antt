-- ===== src/Wallet/Failure.antt =====
-- A withdrawal that throws leaves at most an entry of its failure.
use mazadak_backend.Base.{ℕ, suc, ℤ, pos, ◌-ℤ◌, ◌≤◌, arith, Option, none, some, List}
use mazadak_backend.Store.{Driver}
use mazadak_backend.Database.{
  Wallet, Transaction, TransactionType, TransactionReferenceType, Reference, object, tag, Database,
  Error, Result, ok, err, in_session, pure, ◌>>◌,
}
use mazadak_backend.Wallet.{
  Movement, CreateTransactionData, create_transaction, insert_transaction, mark_reference,
  mark_has_child, withdraw, log_failure, failed_entry, new_transaction, execute_withdrawal,
  get_wallet_or_throw,
}
use mazadak_backend.Wallet.Effect.{IsKeyed, Moved, Moves}
use mazadak_backend.Wallet.Operations.{execute_withdrawal-Moves}

module _ (d : Driver) where
  entry_only {κ} :
      (c : CreateTransactionData) (s : Database) (P : Database → Type κ)
      → ((k : List Transaction) → P (record s { transactions = k; generated = suc s.generated }))
      → P (create_transaction d c s).1
  unfolding create_transaction insert_transaction mark_reference mark_has_child
  entry_only c s P good = go c.reference_id
    where
      t : Database
      t = (insert_transaction d c s).1

      go :
          (r : Option Reference)
          → P ((mark_reference d r >> pure (new_transaction c (d.object_id s.generated))) t).1
      go none = good _
      go (some (object i)) = good _
      go (some (tag x)) = good _

  module _ (user : ℕ) (amount : ℤ) (r : Option Reference) (type : Option TransactionReferenceType)
      (custom : Option TransactionType) (s : Database) (keyed : IsKeyed s) where
    pub withdraw_rule {κ} :
        (P : Result Movement × Database → Type κ)
        → ((m : Movement) (t : Database) → Moved user (pos 0 -ℤ amount) (pos 0) s t → P (ok m, t))
        → ((e : Error) (k : List Transaction) (g : ℕ)
            → s.generated ≤ g
            → P (err e, record s { transactions = k; generated = g }))
        → P (withdraw d user amount r type custom s)
    unfolding withdraw log_failure
    withdraw_rule P good bad = found (get_wallet_or_throw d user s).0
      where
        logged :
            (c : CreateTransactionData) (x : Result Movement × Database)
            → Moves user (pos 0 -ℤ amount) (pos 0) s x
            → P (log_failure d c (x.0, elim x.0 [ ok _ ↦ x.1 | err _ ↦ s ]))
        logged c (ok m, t) h = good m t h
        logged c (err e, t) h =
            entry_only c s (λ u. P (err e, u)) (λ k. bad e k (suc s.generated) (omega arith))

        found :
            (x : Result Wallet)
            → P (elim x [
              | err e ↦ (err e, s)
              | ok w ↦
                  log_failure d
                    (failed_entry w.id amount r type custom)
                    (in_session (execute_withdrawal d user amount r type custom) s)
            ])
        found (err e) = bad e s.transactions s.generated (omega arith)
        found (ok w) =
            logged (failed_entry w.id amount r type custom) _
              (execute_withdrawal-Moves d user amount r type custom s keyed)
