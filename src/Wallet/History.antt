-- ===== src/Wallet/History.antt =====
-- Any sequence of calls of the wallet service: `deposit`, `withdraw` (with no session of the
-- caller's), `hold`, `release` and `capture`.
use Prim.Native.String.{String}
use mazadak_backend.Base.{
  ℕ, ℤ, pos, ◌≡◌, refl, sym, ap, subst, ◌∙◌, All, Unique, map, Option, none, some, List, [], ◌∷◌,
  ◌+ℤ◌, ◌-ℤ◌, sum_of, int_laws,
}
use mazadak_backend.Store.{Driver}
use mazadak_backend.Database.{
  Wallet, Transaction, Reference, object, tag, ◌>>◌, pure, TransactionReferenceType,
  TransactionType, Database, Result, ok, err, Action, in_session,
}
use mazadak_backend.Wallet.{
  Movement, CreateTransactionData, deposit, withdraw, hold, release, capture, execute_withdrawal,
  get_wallet_or_throw, create_transaction, insert_transaction, mark_reference, mark_has_child,
  failed_entry, log_failure,
}
use mazadak_backend.Wallet.Effect.{IsSolvent, IsKeyed, Moved, Moves}
use mazadak_backend.Wallet.Operations.{
  deposit-Moves, execute_withdrawal-Moves, hold-Moves, release-Moves, capture-Moves,
}
use mazadak_backend.Wallet.Totals.{
  owned, balance_of, held_of, AllSolvent, Moved-balance_of, Moved-held_of, Moved-AllSolvent,
  Moved-IsKeyed,
}

pub data WalletCall : Type 0 where
  deposits :
      ℕ
      → ℤ
      → Option Reference
      → Option String
      → Option TransactionReferenceType
      → Option TransactionType
      → WalletCall
  withdraws :
      ℕ
      → ℤ
      → Option Reference
      → Option TransactionReferenceType
      → Option TransactionType
      → WalletCall
  holds_funds releases captures :
      ℕ → ℤ → Option Reference → Option TransactionReferenceType → WalletCall

unfoldable pub run_call : Driver → WalletCall → Action Movement
run_call d (deposits user amount r c t custom) = deposit d user amount r c t custom
run_call d (withdraws user amount r t custom) = withdraw d user amount r t custom
run_call d (holds_funds user amount r t) = hold d user amount r t
run_call d (releases user amount r t) = release d user amount r t
run_call d (captures user amount r t) = capture d user amount r t

abbrev pub caller : WalletCall → ℕ
caller (deposits user amount r c t custom) = user
caller (withdraws user amount r t custom) = user
caller (holds_funds user amount r t) = user
caller (releases user amount r t) = user
caller (captures user amount r t) = user

-- What a call that goes through adds to the balance, and to what is held.
abbrev pub to_balance : WalletCall → ℤ
to_balance (deposits user amount r c t custom) = amount
to_balance (withdraws user amount r t custom) = pos 0 -ℤ amount
to_balance (holds_funds user amount r t) = pos 0
to_balance (releases user amount r t) = pos 0
to_balance (captures user amount r t) = pos 0 -ℤ amount

abbrev pub to_held : WalletCall → ℤ
to_held (deposits user amount r c t custom) = pos 0
to_held (withdraws user amount r t custom) = pos 0
to_held (holds_funds user amount r t) = amount
to_held (releases user amount r t) = pos 0 -ℤ amount
to_held (captures user amount r t) = pos 0 -ℤ amount

-- The wallets after a call: moved if it went through, untouched if it threw.
abbrev Leaves : WalletCall → Database → Result Movement × Database → Type 0
Leaves c s (ok _, t) = Moved (caller c) (to_balance c) (to_held c) s t
Leaves c s (err _, t) = t.wallets ≡ s.wallets

module _ (d : Driver) where
  mark_reference_wallets :
      (r : Option Reference) (t : Transaction) (s : Database)
      → ((mark_reference d r >> pure t) s).1.wallets ≡ s.wallets
  unfolding mark_reference mark_has_child
  mark_reference_wallets none t s = refl
  mark_reference_wallets (some (object i)) t s = refl
  mark_reference_wallets (some (tag _)) t s = refl

  create_transaction_wallets :
      (c : CreateTransactionData) (s : Database) → (create_transaction d c s).1.wallets ≡ s.wallets
  unfolding create_transaction insert_transaction
  create_transaction_wallets c s = mark_reference_wallets c.reference_id _ _

  log_failure-Leaves :
      (c : WalletCall) (s : Database) (entry : CreateTransactionData)
      (x : Result Movement × Database)
      → Moves (caller c) (to_balance c) (to_held c) s x
      → Leaves c s (log_failure d entry (x.0, elim x.0 [ ok a ↦ x.1 | err e ↦ s ]))
  unfolding log_failure
  log_failure-Leaves c s entry (ok m, t) h = h
  log_failure-Leaves c s entry (err e, t) h = create_transaction_wallets entry s

  withdraw-Leaves :
      (user : ℕ) (amount : ℤ) (r : Option Reference) (t : Option TransactionReferenceType)
      (custom : Option TransactionType) (s : Database)
      → IsKeyed s
      → Leaves (withdraws user amount r t custom) s (withdraw d user amount r t custom s)
  unfolding withdraw
  withdraw-Leaves user amount r t custom s keyed = found (get_wallet_or_throw d user s).0
    where
      c : WalletCall
      c = withdraws user amount r t custom

      found :
          (x : Result Wallet)
          → Leaves c s (elim x [
            | err e ↦ (err e, s)
            | ok w ↦
                log_failure d
                  (failed_entry w.id amount r t custom)
                  (in_session (execute_withdrawal d user amount r t custom) s)
          ])
      found (err e) = refl
      found (ok w) =
          log_failure-Leaves c s (failed_entry w.id amount r t custom) _
            (execute_withdrawal-Moves d user amount r t custom s keyed)

  of_Moves :
      (c : WalletCall) (s : Database) (x : Result Movement × Database)
      → Moves (caller c) (to_balance c) (to_held c) s x
      → Leaves c s x
  of_Moves c s (ok m, t) h = h
  of_Moves c s (err e, t) h = ap (λ (u : Database). u.wallets) h

  run_call-Leaves : (c : WalletCall) (s : Database) → IsKeyed s → Leaves c s (run_call d c s)
  unfolding run_call
  run_call-Leaves (deposits user amount r cur t custom) s k =
      of_Moves (deposits user amount r cur t custom) s (deposit d user amount r cur t custom s)
        (deposit-Moves d user amount r cur t custom s k)
  run_call-Leaves (withdraws user amount r t custom) s k =
      withdraw-Leaves user amount r t custom s k
  run_call-Leaves (holds_funds user amount r t) s k =
      of_Moves (holds_funds user amount r t) s (hold d user amount r t s)
        (hold-Moves d user amount r t s k)
  run_call-Leaves (releases user amount r t) s k =
      of_Moves (releases user amount r t) s (release d user amount r t s)
        (release-Moves d user amount r t s k)
  run_call-Leaves (captures user amount r t) s k =
      of_Moves (captures user amount r t) s (capture d user amount r t s)
        (capture-Moves d user amount r t s k)

-- The calls of a history, one after the other; those that went through are kept, the last first.
unfoldable pub run_calls :
    Driver → List WalletCall → List WalletCall → Database → List WalletCall × Database
unfolding run_call
run_calls d [] done s = (done, s)
run_calls d (c ∷ cs) done s =
    let (r, t) = run_call d c s in run_calls d cs (elim r [ ok _ ↦ c ∷ done | err _ ↦ done ]) t

-- What a list of calls has added to a user's balance, and to what is held for the user.
abbrev pub balance_effect : ℕ → List WalletCall → ℤ
balance_effect u = sum_of (λ c. owned u (caller c) (to_balance c))

abbrev pub held_effect : ℕ → List WalletCall → ℤ
held_effect u = sum_of (λ c. owned u (caller c) (to_held c))

-- The wallets are sound, and account for the calls that went through since a first state.
pub record Accounted (first s : Database) (done : List WalletCall) : Type 0 where
  pub keyed : IsKeyed s
  pub solvent : AllSolvent s
  pub balances : (u : ℕ) → balance_of u s ≡ balance_of u first +ℤ balance_effect u done
  pub helds : (u : ℕ) → held_of u s ≡ held_of u first +ℤ held_effect u done

module _ (d : Driver) (first : Database) where
  Leaves-Accounted :
      (c : WalletCall) (s : Database) (done : List WalletCall) (x : Result Movement × Database)
      → Accounted first s done
      → Leaves c s x
      → Accounted first x.1 (elim x.0 [ ok _ ↦ c ∷ done | err _ ↦ done ])
  Leaves-Accounted c s done (ok m, t) a h = record {
    keyed = Moved-IsKeyed (caller c) (to_balance c) (to_held c) s t h a.keyed;
    solvent = Moved-AllSolvent (caller c) (to_balance c) (to_held c) s t h a.solvent;
    balances = λ u.
        add_effect _ _ _ _ _ (Moved-balance_of (caller c) (to_balance c) (to_held c) s t h u)
          (a.balances u);
    helds = λ u.
        add_effect _ _ _ _ _ (Moved-held_of (caller c) (to_balance c) (to_held c) s t h u)
          (a.helds u);
  }
    where
      add_effect : (x y z e f : ℤ) → x ≡ y +ℤ e → y ≡ z +ℤ f → x ≡ z +ℤ (e +ℤ f)
      add_effect x y z e f h k = grind int_laws
  Leaves-Accounted c s done (err e, t) a h = record {
    keyed = record {
      ids = subst (λ l. Unique (map (λ w. w.id) l)) (sym h) a.keyed.ids;
      owners = subst (λ l. Unique (map (λ w. w.user_id) l)) (sym h) a.keyed.owners;
    };
    solvent = subst (All IsSolvent) (sym h) a.solvent;
    balances = λ u. ap (sum_of (λ w. owned u w.user_id w.balance)) h ∙ a.balances u;
    helds = λ u. ap (sum_of (λ w. owned u w.user_id w.held_balance)) h ∙ a.helds u;
  }

  run_calls-Accounted_from :
      (cs done : List WalletCall) (s : Database)
      → Accounted first s done
      → let (done', t) = run_calls d cs done s in Accounted first t done'
  unfolding run_calls
  run_calls-Accounted_from [] done s a = a
  run_calls-Accounted_from (c ∷ cs) done s a =
      run_calls-Accounted_from cs _ (run_call d c s).1
        (Leaves-Accounted c s done (run_call d c s) a (run_call-Leaves d c s a.keyed))

-- From wallets with unique keys in which what is held is covered, any sequence of calls, with any
-- amounts, leaves every wallet's held balance between 0 and its balance, and every user's balance
-- and held balance at exactly the first one plus what the calls that went through have added.
pub run_calls-Accounted :
    (d : Driver) (cs : List WalletCall) (s : Database)
    → IsKeyed s
    → AllSolvent s
    → let (done, t) = run_calls d cs [] s in Accounted s t done
run_calls-Accounted d cs s k v =
    run_calls-Accounted_from d s cs [] s (record {
      keyed = k;
      solvent = v;
      balances = λ u. omega int_laws;
      helds = λ u. omega int_laws;
    })
