-- ===== src/Wallet/Operations.antt =====
-- The five operations of the wallet service by what they move.
use mazadak_backend.Base.{
  ℕ, ℤ, pos, refl, true, Option, none, some, ◌+ℤ◌, ◌-ℤ◌, ◌<ℤ◌, arith, int_laws, +ℤ_parts, -ℤ_parts,
}
use Prim.Native.String.{String}
use mazadak_backend.Store.{Driver}
use mazadak_backend.Database.{
  Reference, TransactionReferenceType, TransactionType, Database, Error, Event, ◌>>◌, bind_rule,
  pure,
}
use mazadak_backend.Wallet.{
  Movement, deposit_params, withdraw_params, covers, holds, execute_wallet_op, credit_balance,
  debit_balance, hold_balance, release_balance, capture_held_balance, deposit, hold, release,
  capture, execute_withdrawal, op, notify,
}
use mazadak_backend.Wallet.Effect.{IsKeyed, Moved, Moves, IsMove, op-Moves, Moved-ledger}

credit-IsMove :
    (user : ℕ) (amount : ℤ)
    → pos 0 <ℤ amount
    → IsMove user amount (pos 0) (λ w. true) (λ w. record w { balance = w.balance +ℤ amount })
credit-IsMove user amount h = record {
  same_id = λ w. refl;
  same_owner = λ w. refl;
  balance = λ w. refl;
  held = λ w. omega int_laws;
  solvent = λ w t v. record { held_nonneg = v.held_nonneg; covered = grind (int_laws, v.covered) };
}

debit-IsMove :
    (user : ℕ) (amount : ℤ)
    → pos 0 <ℤ amount
    → IsMove user
        (pos 0 -ℤ amount)
        (pos 0)
        (covers amount)
        (λ w. record w { balance = w.balance -ℤ amount })
debit-IsMove user amount h = record {
  same_id = λ w. refl;
  same_owner = λ w. refl;
  balance = λ w. omega int_laws;
  held = λ w. omega int_laws;
  solvent = λ w t v. record {
    held_nonneg = v.held_nonneg;
    covered = ground (arith, -ℤ_parts w.balance amount, -ℤ_parts w.balance w.held_balance);
  };
}

hold-IsMove :
    (user : ℕ) (amount : ℤ)
    → pos 0 <ℤ amount
    → IsMove user
        (pos 0)
        amount
        (covers amount)
        (λ w. record w { held_balance = w.held_balance +ℤ amount })
hold-IsMove user amount h = record {
  same_id = λ w. refl;
  same_owner = λ w. refl;
  balance = λ w. omega int_laws;
  held = λ w. refl;
  solvent = λ w t v. record {
    held_nonneg = ground (arith, v.held_nonneg, +ℤ_parts w.held_balance amount);
    covered = ground (arith, +ℤ_parts w.held_balance amount, -ℤ_parts w.balance w.held_balance);
  };
}

release-IsMove :
    (user : ℕ) (amount : ℤ)
    → pos 0 <ℤ amount
    → IsMove user
        (pos 0)
        (pos 0 -ℤ amount)
        (holds amount)
        (λ w. record w { held_balance = w.held_balance -ℤ amount })
release-IsMove user amount h = record {
  same_id = λ w. refl;
  same_owner = λ w. refl;
  balance = λ w. omega int_laws;
  held = λ w. omega int_laws;
  solvent = λ w t v. record {
    held_nonneg = ground (arith, -ℤ_parts w.held_balance amount);
    covered = ground (arith, v.covered, -ℤ_parts w.held_balance amount);
  };
}

capture-IsMove :
    (user : ℕ) (amount : ℤ)
    → pos 0 <ℤ amount
    → IsMove user
        (pos 0 -ℤ amount)
        (pos 0 -ℤ amount)
        (holds amount)
        (λ w. record w { balance = w.balance -ℤ amount; held_balance = w.held_balance -ℤ amount })
capture-IsMove user amount h = record {
  same_id = λ w. refl;
  same_owner = λ w. refl;
  balance = λ w. omega int_laws;
  held = λ w. omega int_laws;
  solvent = λ w t v. record {
    held_nonneg = ground (arith, -ℤ_parts w.held_balance amount);
    covered = ground (arith, v.covered, -ℤ_parts w.balance amount, -ℤ_parts w.held_balance amount);
  };
}

module _ (d : Driver) (user : ℕ) (amount : ℤ) (reference : Option Reference) where
  notify-Moves :
      (db dh : ℤ) (s : Database) (keyed : IsKeyed s) (r : Option Reference) (e : Event)
      (m : Movement) (t : Database)
      → Moved user db dh s t
      → Moves user db dh s ((notify d r e >> pure m) t)
  notify-Moves db dh s keyed none e m t h =
      Moved-ledger d user db dh s keyed t.transactions _ t.generated (omega arith) h
  notify-Moves db dh s keyed (some _) e m t h = h

  pub deposit-Moves :
      (currency : Option String) (type : Option TransactionReferenceType)
      (custom : Option TransactionType) (s : Database)
      → IsKeyed s
      → Moves user amount (pos 0) s (deposit d user amount reference currency type custom s)
  unfolding deposit credit_balance
  deposit-Moves currency type custom s keyed =
      bind_rule (Moves user amount (pos 0) s) (Moves user amount (pos 0) s)
        (execute_wallet_op d (deposit_params user amount reference currency type custom)
          (credit_balance d) Error.wallet_not_found)
        (λ m. notify d reference (Event.wallet_deposited user amount m.1.id) >> pure m) s
        (op-Moves d user amount (pos 0) s keyed
          (deposit_params user amount reference currency type custom) (λ w. true) _
          Error.wallet_not_found refl (credit-IsMove user amount))
        (λ m t h.
          notify-Moves amount (pos 0) s keyed reference (Event.wallet_deposited user amount m.1.id)
            m t h)
        (λ e t h. h)

  pub execute_withdrawal-Moves :
      (type : Option TransactionReferenceType) (custom : Option TransactionType) (s : Database)
      → IsKeyed s
      → Moves user
          (pos 0 -ℤ amount)
          (pos 0)
          s
          (execute_withdrawal d user amount reference type custom s)
  unfolding execute_withdrawal debit_balance
  execute_withdrawal-Moves type custom s keyed =
      bind_rule (Moves user (pos 0 -ℤ amount) (pos 0) s) (Moves user (pos 0 -ℤ amount) (pos 0) s)
        (execute_wallet_op d (withdraw_params user amount reference type custom) (debit_balance d)
          Error.insufficient_funds)
        (λ m. notify d reference (Event.withdrawal_paid user amount m.1.id) >> pure m) s
        (op-Moves d user (pos 0 -ℤ amount) (pos 0) s keyed
          (withdraw_params user amount reference type custom) (covers amount) _
          Error.insufficient_funds refl (debit-IsMove user amount))
        (λ m t h.
          notify-Moves (pos 0 -ℤ amount) (pos 0) s keyed reference
            (Event.withdrawal_paid user amount m.1.id) m t h)
        (λ e t h. h)

  module _ (type : Option TransactionReferenceType) (s : Database) (keyed : IsKeyed s) where
    pub hold-Moves : Moves user (pos 0) amount s (hold d user amount reference type s)
    unfolding hold hold_balance
    hold-Moves =
        op-Moves d user (pos 0) amount s keyed (op TransactionType.hold user amount reference type)
          (covers amount) _ Error.insufficient_funds refl (hold-IsMove user amount)

    pub release-Moves :
        Moves user (pos 0) (pos 0 -ℤ amount) s (release d user amount reference type s)
    unfolding release release_balance
    release-Moves =
        op-Moves d user (pos 0) (pos 0 -ℤ amount) s keyed
          (op TransactionType.release user amount reference type) (holds amount) _
          Error.insufficient_funds refl (release-IsMove user amount)

    pub capture-Moves :
        Moves user (pos 0 -ℤ amount) (pos 0 -ℤ amount) s (capture d user amount reference type s)
    unfolding capture capture_held_balance
    capture-Moves =
        op-Moves d user (pos 0 -ℤ amount) (pos 0 -ℤ amount) s keyed
          (op TransactionType.capture user amount reference type) (holds amount) _
          Error.insufficient_funds refl (capture-IsMove user amount)
