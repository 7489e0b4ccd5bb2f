-- ===== src/Withdrawals/Finality.antt =====
-- Requests that are completed, rejected or cancelled.
use Prim.Native.String.{String, ◌++◌}
use mathlib.Core.List.{Memᴰ}
use mazadak_backend.Base.{
  Replaced-Memᴰ_new, ap, ◌∙◌, inr, sym, inl, Replaced-Memᴰ_kept, ◌≢◌, Replaced, true, ℤ, false, ◌≡◌,
  ℕ, refl, pos, ◌-ℤ◌, ◌==◌, subst, map, Unique, Unique-eq, map-Replaced, Replaced-Memᴰ, or_else,
  Option, List, [], ◌∷◌, some, Bool, Inserted-Memᴰ_kept, is_some, suc, none,
}
use mazadak_backend.Store.Keyed.{update_rule}
use mazadak_backend.Store.{Driver}
use mazadak_backend.Database.{
  Action, err, ok, Result, Database, WithdrawalRequest, ◌>>=◌, ◌>>◌, pure, bind_rule, object,
  TransactionReferenceType, WithdrawalStatus, Error, Event, save_event, throw_if_rule, modify,
  in_session, in_session_rule, tag, TransactionType,
}
use mazadak_backend.Wallet.Effect.{Moves, IsKeyed}
use mazadak_backend.Wallet.Operations.{release-Moves, capture-Moves, hold-Moves, deposit-Moves}
use mazadak_backend.Wallet.{release, capture, hold, deposit}
use mazadak_backend.Wallet.Failure.{withdraw_rule}
use mazadak_backend.Holds.Market.{apart}
use mazadak_backend.Withdrawals.Transitions.{taken_last_rule, taken_rule}
use mazadak_backend.Withdrawals.{
  link_completion, complete_writes, reject_writes, start_processing, Movement, is_pending,
  cancel_writes, is_open, RequestWithdrawal, file_request, create_withdrawal, same_day,
  new_withdrawal, adjust_balance, cancel_withdrawal, complete_withdrawal, reject_withdrawal,
}
use mazadak_backend.Holds.{IsBacked}
use mazadak_backend.Withdrawals.Backing.{pending_is_open}
use mazadak_backend.Withdrawals.Filing.{request_rule}
use mazadak_backend.Withdrawals.Runs.{
  WithdrawalCall, requests, cancels, starts, completes, rejects, adjusts, run_withdrawal_call,
  run_withdrawal_calls, run_withdrawal_call-StillBacked,
}

-- The request is there when the call has returned.
abbrev Stays : {A : Type 0} → WithdrawalRequest → Result A × Database → Type 0
Stays r (ok _, t) = Memᴰ r t.withdrawals
Stays r (err _, t) = Unit

module _ (d : Driver) (s : Database) (h : IsBacked d s) (r : WithdrawalRequest)
    (stored : Memᴰ r s.withdrawals) (shut : is_open r.status ≡ false) where
  differs : (a : WithdrawalRequest) → is_open a.status ≡ true → r ≢ a
  differs a o q = apart (sym o ∙ ap (λ (x : WithdrawalRequest). is_open x.status) (sym q) ∙ shut)

  spared :
      {a b : WithdrawalRequest} {rs : List WithdrawalRequest}
      → Replaced a b s.withdrawals rs
      → is_open a.status ≡ true
      → Memᴰ r rs
  spared {a} e o = elim (Replaced-Memᴰ_kept e stored) [ inl q ↦ absurd (differs a o q) | inr m ↦ m ]

  IsKeyed-with : (rs : List WithdrawalRequest) → IsKeyed (record s { withdrawals = rs })
  IsKeyed-with rs = record { ids = h.wallets; owners = h.owners }

  -- A movement of the wallet service keeps what is there.
  moves :
      {A : Type 0} (user : ℕ) (db dh : ℤ) (m : Action Movement) (k : Movement → Action A)
      (t : Database)
      → Moves user db dh t (m t)
      → Memᴰ r t.withdrawals
      → ((x : Movement) (u : Database)
          → u.withdrawals ≡ t.withdrawals
          → Memᴰ r u.withdrawals
          → Stays r (k x u))
      → Stays r ((m >>= k) t)
  moves user db dh m k t done here rest =
      bind_rule (Moves user db dh t) (Stays r) m k t done
        (λ x u moved.
          rest x u moved.rest.withdrawals (subst (Memᴰ r) (sym moved.rest.withdrawals) here))
        (λ _ _ _. tt)

  cancel_writes-Stays : (user i : ℕ) → Stays r (cancel_writes d user i s)
  unfolding cancel_writes
  cancel_writes-Stays user i =
      taken_rule d i is_pending (λ a. a.user_id == user)
        (λ a. record a { status = WithdrawalStatus.cancelled }) s (λ a. a.user_id == user)
        Error.withdrawal_not_cancellable
        (λ a.
          release d user a.amount (some (object i)) (some TransactionReferenceType.withdrawal)
          >> pure a)
        (Stays r)
        (λ a rs e.
          moves user (pos 0) (pos 0 -ℤ a.amount)
            (release d user a.amount (some (object i)) (some TransactionReferenceType.withdrawal))
            (λ _. pure (record a { status = WithdrawalStatus.cancelled }))
            (record s { withdrawals = rs })
            (release-Moves d user a.amount (some (object i))
              (some TransactionReferenceType.withdrawal) (record s { withdrawals = rs })
              (IsKeyed-with rs))
            (spared e.replaced (pending_is_open a.status e.status)) (λ _ _ _ m. m))
        (λ _. tt)

  reject_writes-Stays :
      (admin i : ℕ) (reason : String) (now : ℕ) → Stays r (reject_writes d admin i reason now s)
  unfolding reject_writes
  reject_writes-Stays admin i reason now =
      taken_rule d i is_open (λ _. true) rejected s (λ _. true) Error.withdrawal_not_rejectable
        (λ a. freeing a >>= λ _. told a) (Stays r)
        (λ a rs e.
          moves a.user_id (pos 0) (pos 0 -ℤ a.amount) (freeing a) (λ _. told (rejected a))
            (record s { withdrawals = rs })
            (release-Moves d a.user_id a.amount (some (object i))
              (some TransactionReferenceType.withdrawal) (record s { withdrawals = rs })
              (IsKeyed-with rs))
            (spared e.replaced e.status) (λ _ _ _ m. m))
        (λ _. tt)
    where
      rejected : WithdrawalRequest → WithdrawalRequest
      rejected a = record a {
        status = WithdrawalStatus.rejected;
        rejection_reason = some reason;
        processed_by = some admin;
        processed_at = some now;
      }

      freeing : WithdrawalRequest → Action Movement
      freeing a =
          release d a.user_id a.amount (some (object i)) (some TransactionReferenceType.withdrawal)

      told : WithdrawalRequest → Action WithdrawalRequest
      told a = save_event d (Event.withdrawal_rejected a.user_id a.amount a.id reason) >> pure a

  -- Only the completed request gets an entry.
  linked :
      {A : Type 0} (i entry : ℕ) (a b : WithdrawalRequest) {rs : List WithdrawalRequest}
      (u : Database) (k : Option WithdrawalRequest → Action A)
      → Replaced a b s.withdrawals rs
      → is_open a.status ≡ true
      → a.id ≡ i
      → b.id ≡ a.id
      → u.withdrawals ≡ rs
      → Memᴰ r u.withdrawals
      → ((o : Option WithdrawalRequest) (t : Database) → Memᴰ r t.withdrawals → Stays r (k o t))
      → Stays r ((link_completion d i entry >>= k) u)
  unfolding link_completion
  linked i entry a b u k e o mine same_id now here rest =
      update_rule d (λ x. x.id) change b i u.withdrawals
        (λ y. Stays r (k y.0 (record u { withdrawals = y.1 })))
        (subst (λ l. Unique (map (λ x. x.id) l)) (sym now)
          (subst Unique (sym (map-Replaced (λ x. x.id) e same_id)) h.requests.unique))
        (subst (Memᴰ b) (sym now) (Replaced-Memᴰ_new e)) (same_id ∙ mine)
        (λ x l f. rest x (record u { withdrawals = l }) (kept f))
    where
      change : WithdrawalRequest → WithdrawalRequest
      change x = record x {
        status = WithdrawalStatus.completed;
        completion_transaction_id = some entry;
      }

      kept : {l : List WithdrawalRequest} → Replaced b (change b) u.withdrawals l → Memᴰ r l
      kept f = elim (Replaced-Memᴰ_kept f here) [
        | inl q ↦ absurd (
            differs a o (
              Unique-eq (λ x. x.id) r a s.withdrawals h.requests.unique stored (Replaced-Memᴰ e)
                (ap (λ (x : WithdrawalRequest). x.id) q ∙ same_id)))
        | inr m ↦ m
      ]

  complete_writes-Stays :
      (admin i : ℕ) (reference receipt : String) (now : ℕ)
      → Stays r (complete_writes d admin i reference receipt now s)
  unfolding complete_writes
  complete_writes-Stays admin i reference receipt now =
      taken_rule d i is_open (λ _. true) completed s (λ _. true) Error.withdrawal_not_in_progress
        (λ a. paid a >>= told a) (Stays r)
        (λ a rs e.
          moves a.user_id (pos 0 -ℤ a.amount) (pos 0 -ℤ a.amount) (paid a) (told (completed a))
            (record s { withdrawals = rs })
            (capture-Moves d a.user_id a.amount (some (object i))
              (some TransactionReferenceType.withdrawal) (record s { withdrawals = rs })
              (IsKeyed-with rs))
            (spared e.replaced e.status)
            (λ m u now here.
              linked i m.1.id a (completed a) u (announced (completed a) m) e.replaced e.status
                e.same_id refl now here (λ _ _ n. n)))
        (λ _. tt)
    where
      completed : WithdrawalRequest → WithdrawalRequest
      completed a = record a {
        status = WithdrawalStatus.completed;
        admin_reference = some reference;
        receipt_url = some receipt;
        completed_at = some now;
        processed_by = some admin;
      }

      paid : WithdrawalRequest → Action Movement
      paid a =
          capture d a.user_id a.amount (some (object i)) (some TransactionReferenceType.withdrawal)

      announced : WithdrawalRequest → Movement → Option WithdrawalRequest → Action WithdrawalRequest
      announced a m o =
          let result = or_else o a in
          save_event d (
            Event.withdrawal_completed result.user_id a.amount a.net_amount m.1.id reference
              (some receipt) result.payout_method result.id)
          >> pure result

      told : WithdrawalRequest → Movement → Action WithdrawalRequest
      told a m = link_completion d i m.1.id >>= announced a m

  start_processing-Stays :
      (admin i now : ℕ) → Memᴰ r (start_processing d admin i now s).1.withdrawals
  unfolding start_processing
  start_processing-Stays admin i now =
      taken_last_rule d i is_pending (λ _. true)
        (λ a. record a {
          status = WithdrawalStatus.processing;
          processed_by = some admin;
          processed_at = some now;
        })
        s (λ _. true) Error.withdrawal_not_pending (λ y. Memᴰ r y.1.withdrawals)
        (λ a rs e. spared e.replaced (pending_is_open a.status e.status)) (λ _. stored)

  file_request-Stays :
      (percentage user : ℕ) (input : RequestWithdrawal) (date : ℕ)
      → Stays r (file_request d percentage user input date s)
  unfolding file_request create_withdrawal
  file_request-Stays percentage user input date =
      moves user (pos 0) input.amount
        (hold d user input.amount none (some TransactionReferenceType.withdrawal)) entered s
        (hold-Moves d user input.amount none (some TransactionReferenceType.withdrawal) s
          (IsKeyed-with s.withdrawals))
        stored
        (λ m u _ here.
          bind_rule (Stays r) (Stays r) (create_withdrawal d (made m)) told u
            (throw_if_rule (is_some (d.find_one (same_day user date) u.withdrawals))
              Error.duplicate_key (record u { generated = suc u.generated }) (Stays r)
              (modify (λ v. record v {
                withdrawals = d.insert (made m (d.object_id u.generated)) v.withdrawals;
              })
                >> pure (made m (d.object_id u.generated)))
              (λ _.
                Inserted-Memᴰ_kept (d.insert_law (made m (d.object_id u.generated)) u.withdrawals)
                  here)
              tt)
            (λ _ _ n. n) (λ _ _ _. tt))
    where
      made : Movement → ℕ → WithdrawalRequest
      made m = new_withdrawal percentage user input m.1.id date

      told : WithdrawalRequest → Action WithdrawalRequest
      told a =
          save_event d
            (Event.withdrawal_requested user a.amount a.net_amount a.fee a.payout_method a.id)
          >> pure a

      entered : Movement → Action WithdrawalRequest
      entered m = create_withdrawal d (made m) >>= told

  session-Stays :
      {A : Type 0} (m : Action A) → Stays r (m s) → Memᴰ r (in_session m s).1.withdrawals
  session-Stays m c =
      in_session_rule (Stays r) (λ x. Memᴰ r x.1.withdrawals) m s c (λ _ _ n. n) (λ _. stored)

  adjust_balance-Stays :
      (admin : String) (credit : Bool) (user : ℕ) (amount : ℤ) (reason : String)
      → Memᴰ r (adjust_balance d admin credit user amount reason s).1.withdrawals
  unfolding adjust_balance
  adjust_balance-Stays admin true user amount reason =
      bind_rule (Moves user amount (pos 0) s) (λ x. Memᴰ r x.1.withdrawals)
        (deposit d user amount (some (tag ("ADMIN_ADJUST:" ++ (admin ++ (":" ++ reason)))))
          (some "EGP") (some TransactionReferenceType.transaction)
          (some TransactionType.admin_credit))
        (λ m. pure m.0) s
        (deposit-Moves d user amount (some (tag ("ADMIN_ADJUST:" ++ (admin ++ (":" ++ reason)))))
          (some "EGP") (some TransactionReferenceType.transaction)
          (some TransactionType.admin_credit) s (IsKeyed-with s.withdrawals))
        (λ _ t moved. subst (Memᴰ r) (sym moved.rest.withdrawals) stored)
        (λ _ t e. subst (λ u. Memᴰ r u.withdrawals) (sym e) stored)
  adjust_balance-Stays admin false user amount reason =
      withdraw_rule d user amount (some (tag ("ADMIN_ADJUST:" ++ (admin ++ (":" ++ reason)))))
        (some TransactionReferenceType.transaction) (some TransactionType.admin_debit) s
        (IsKeyed-with s.withdrawals) (λ x. Memᴰ r (((λ _. x) >>= λ m. pure m.0) s).1.withdrawals)
        (λ _ t moved. subst (Memᴰ r) (sym moved.rest.withdrawals) stored) (λ _ _ _ _. stored)

  run_withdrawal_call-Stays : (c : WithdrawalCall) → Memᴰ r (run_withdrawal_call d c s).withdrawals
  unfolding cancel_withdrawal complete_withdrawal reject_withdrawal
  run_withdrawal_call-Stays (requests percentage user input today date) =
      request_rule d s h percentage user input today date (λ t. Memᴰ r t.withdrawals) stored
        (session-Stays (file_request d percentage user input date)
          (file_request-Stays percentage user input date))
  run_withdrawal_call-Stays (cancels user i) =
      session-Stays (cancel_writes d user i) (cancel_writes-Stays user i)
  run_withdrawal_call-Stays (starts admin i now) = start_processing-Stays admin i now
  run_withdrawal_call-Stays (completes admin i reference receipt now) =
      session-Stays (complete_writes d admin i reference receipt now)
        (complete_writes-Stays admin i reference receipt now)
  run_withdrawal_call-Stays (rejects admin i reason now) =
      session-Stays (reject_writes d admin i reason now) (reject_writes-Stays admin i reason now)
  run_withdrawal_call-Stays (adjusts admin credit user amount reason) =
      adjust_balance-Stays admin credit user amount reason

-- From a database whose keys are unique, whose wallets are solvent and hold what is due, any sequence
-- of calls of the withdrawals service keeps a request that is COMPLETED, REJECTED or CANCELLED
-- exactly as it is: its status, entry and reference never change.
pub run_withdrawal_calls-Memᴰ :
    (d : Driver) (cs : List WithdrawalCall) (s : Database)
    → IsBacked d s
    → (r : WithdrawalRequest) → Memᴰ r s.withdrawals
    → is_open r.status ≡ false
    → Memᴰ r (run_withdrawal_calls d cs s).withdrawals
run_withdrawal_calls-Memᴰ d [] s h r stored shut = stored
run_withdrawal_calls-Memᴰ d (c ∷ cs) s h r stored shut =
    run_withdrawal_calls-Memᴰ d cs (run_withdrawal_call d c s)
      (run_withdrawal_call-StillBacked d c s h).0 r
      (run_withdrawal_call-Stays d s h r stored shut c) shut
