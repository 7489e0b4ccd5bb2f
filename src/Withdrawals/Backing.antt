-- ===== src/Withdrawals/Backing.antt =====
-- What the calls of the withdrawals service do to what the wallets hold.
use Prim.Native.String.{String}
use mathlib.Core.List.{Memᴰ}
use mazadak_backend.Base.{
  Replaced-Memᴰ_new, sym, or_else, inr, Option, inl, Bool-cases, ℕ, ℤ, pos, ◌+ℤ◌, ◌-ℤ◌, ◌≡◌, refl,
  subst, true, false, some, List, ◌==◌, ==→eq, Replaced, int_laws,
}
use mazadak_backend.Store.Keyed.{update_rule}
use mazadak_backend.Store.{Driver}
use mazadak_backend.Database.{
  Event, save_event, TransactionReferenceType, object, WithdrawalStatus, WithdrawalRequest,
  Database, Error, Result, ok, err, Action, pure, ◌>>=◌, ◌>>◌, bind_rule,
}
use mazadak_backend.Wallet.{capture, Movement, release}
use mazadak_backend.Wallet.Effect.{Moves, Moved}
use mazadak_backend.Wallet.Operations.{capture-Moves, release-Moves}
use mazadak_backend.Wallet.Totals.{owned}
use mazadak_backend.Holds.{StillBacked, OwesAt, IsBacked, nothing, Owes-IsKeyed, Moved-Owes}
use mazadak_backend.Holds.Changes.{same_missing, changed_request}
use mazadak_backend.Withdrawals.{
  obligation, complete_writes, link_completion, start_processing, reject_writes, is_pending,
  is_open, cancel_writes,
}
use mazadak_backend.Withdrawals.Transitions.{taken_last_rule, taken_rule}

-- What is committed is backed, and no auction or bid is changed.
abbrev pub Commits : {A : Type 0} → Driver → Database → Result A × Database → Type 0
Commits d s (ok _, t) = StillBacked d s t
Commits d s (err _, t) = Unit

pub pending_is_open : (st : WithdrawalStatus) → is_pending st ≡ true → is_open st ≡ true
pending_is_open WithdrawalStatus.pending h = refl
pending_is_open WithdrawalStatus.processing h = refl
pending_is_open WithdrawalStatus.completed h = h
pending_is_open WithdrawalStatus.rejected h = h
pending_is_open WithdrawalStatus.cancelled h = h

-- Nothing is added for nothing.
none_owed : (v owner : ℕ) → pos 0 ≡ pos 0 +ℤ owned v owner (pos 0)
none_owed v owner = elim (Bool-cases (owner == v)) [
  | inl t ↦ rw t (omega int_laws)
  | inr t ↦ rw t (omega int_laws)
]

module _ (d : Driver) (s : Database) (h : IsBacked d s) where
  -- A request that was open and is not any more: its amount is held for nothing.
  closed :
      {r r' : WithdrawalRequest} {rs : List WithdrawalRequest}
      → Replaced r r' s.withdrawals rs
      → r'.id ≡ r.id
      → r'.user_id ≡ r.user_id
      → is_open r.status ≡ true
      → is_open r'.status ≡ false
      → OwesAt d
          (λ u. pos 0 +ℤ owned u r.user_id (pos 0 -ℤ r.amount))
          (record s { withdrawals = rs })
  closed {r} {r'} e same owner was now =
      changed_request h (pos 0 -ℤ r.amount) e same owner (rw (was, now) (omega int_laws))

  -- Then the amount is released or captured.
  freed :
      {A : Type 0} {rs : List WithdrawalRequest} {user : ℕ} {db : ℤ} (amount : ℤ)
      (m : Action Movement) (k : Movement → Action A)
      → let t = record s { withdrawals = rs } in
        OwesAt d (λ u. pos 0 +ℤ owned u user (pos 0 -ℤ amount)) t
        → Moves user db (pos 0 -ℤ amount) t (m t)
        → ((x : Movement) (u : Database)
            → Moved user db (pos 0 -ℤ amount) t u
            → StillBacked d s u
            → Commits d s (k x u))
        → Commits d s ((m >>= k) t)
  freed {A} {rs} {user} {db} amount m k owes moves rest =
      bind_rule (Moves user db (pos 0 -ℤ amount) t) (Commits d s) m k t moves
        (λ x u moved.
          rest x u moved
            (Moved-Owes nothing owes moved (λ v. refl), moved.rest.bids, moved.rest.auctions))
        (λ _ _ _. tt)
    where
      t : Database
      t = record s { withdrawals = rs }

  pub cancel_writes-Commits : (user i : ℕ) → Commits d s (cancel_writes d user i s)
  unfolding cancel_writes
  cancel_writes-Commits user i =
      taken_rule d i is_pending (λ r. r.user_id == user)
        (λ r. record r { status = WithdrawalStatus.cancelled }) s (λ r. r.user_id == user)
        Error.withdrawal_not_cancellable
        (λ r.
          release d user r.amount (some (object i)) (some TransactionReferenceType.withdrawal)
          >> pure r)
        (Commits d s)
        (λ r rs e.
          let owes =
            subst
              (λ v.
                OwesAt d (λ u. pos 0 +ℤ owned u v (pos 0 -ℤ r.amount))
                  (record s { withdrawals = rs }))
              (==→eq r.user_id user e.passes)
              (closed e.replaced refl refl (pending_is_open r.status e.status) refl) in
          freed r.amount
            (release d user r.amount (some (object i)) (some TransactionReferenceType.withdrawal))
            (λ _. pure (record r { status = WithdrawalStatus.cancelled })) owes
            (release-Moves d user r.amount (some (object i))
              (some TransactionReferenceType.withdrawal) (record s { withdrawals = rs })
              (Owes-IsKeyed (record s { withdrawals = rs }) owes))
            (λ _ _ _ b. b))
        (λ _. tt)

  pub reject_writes-Commits :
      (admin i : ℕ) (reason : String) (now : ℕ) → Commits d s (reject_writes d admin i reason now s)
  unfolding reject_writes
  reject_writes-Commits admin i reason now =
      taken_rule d i is_open (λ _. true) rejected s (λ _. true) Error.withdrawal_not_rejectable
        (λ r. freeing r r >>= λ _. told r) (Commits d s)
        (λ r rs e.
          let owes = closed e.replaced refl refl e.status refl in
          freed r.amount (freeing r (rejected r)) (λ _. told (rejected r)) owes
            (release-Moves d r.user_id r.amount (some (object i))
              (some TransactionReferenceType.withdrawal) (record s { withdrawals = rs })
              (Owes-IsKeyed (record s { withdrawals = rs }) owes))
            (λ _ _ _ b. b))
        (λ _. tt)
    where
      rejected : WithdrawalRequest → WithdrawalRequest
      rejected r = record r {
        status = WithdrawalStatus.rejected;
        rejection_reason = some reason;
        processed_by = some admin;
        processed_at = some now;
      }

      freeing : WithdrawalRequest → WithdrawalRequest → Action Movement
      freeing _ r =
          release d r.user_id r.amount (some (object i)) (some TransactionReferenceType.withdrawal)

      told : WithdrawalRequest → Action WithdrawalRequest
      told r = save_event d (Event.withdrawal_rejected r.user_id r.amount r.id reason) >> pure r

  -- The completed request gets its entry.
  linked :
      {A : Type 0} (i entry : ℕ) (r : WithdrawalRequest) (u : Database)
      (k : Option WithdrawalRequest → Action A)
      → StillBacked d s u
      → Memᴰ r u.withdrawals
      → r.id ≡ i
      → obligation r ≡ pos 0
      → ((o : Option WithdrawalRequest) (t : Database) → StillBacked d s t → Commits d s (k o t))
      → Commits d s ((link_completion d i entry >>= k) u)
  unfolding link_completion
  linked i entry r u k b stored same none_due rest =
      update_rule d (λ a. a.id) change r i u.withdrawals
        (λ y. Commits d s (k y.0 (record u { withdrawals = y.1 }))) b.0.requests.unique stored same
        (λ o rs e.
          rest o (record u { withdrawals = rs })
            (
              same_missing (changed_request b.0 (pos 0) e refl refl (rw none_due (omega int_laws)))
                  nothing (λ v. none_owed v r.user_id),
              b.1,
              b.2,
            ))
    where
      change : WithdrawalRequest → WithdrawalRequest
      change a = record a {
        status = WithdrawalStatus.completed;
        completion_transaction_id = some entry;
      }

  pub complete_writes-Commits :
      (admin i : ℕ) (reference receipt : String) (now : ℕ)
      → Commits d s (complete_writes d admin i reference receipt now s)
  unfolding complete_writes
  complete_writes-Commits admin i reference receipt now =
      taken_rule d i is_open (λ _. true) completed s (λ _. true) Error.withdrawal_not_in_progress
        (λ r. paid r >>= told r) (Commits d s)
        (λ r rs e.
          let owes = closed e.replaced refl refl e.status refl in
          freed r.amount (paid r) (told (completed r)) owes
            (capture-Moves d r.user_id r.amount (some (object i))
              (some TransactionReferenceType.withdrawal) (record s { withdrawals = rs })
              (Owes-IsKeyed (record s { withdrawals = rs }) owes))
            (λ m u moved b.
              linked i m.1.id (completed r) u (announced (completed r) m) b
                (subst (Memᴰ (completed r)) (sym moved.rest.withdrawals)
                  (Replaced-Memᴰ_new e.replaced))
                e.same_id refl (λ o t c. c)))
        (λ _. tt)
    where
      completed : WithdrawalRequest → WithdrawalRequest
      completed r = record r {
        status = WithdrawalStatus.completed;
        admin_reference = some reference;
        receipt_url = some receipt;
        completed_at = some now;
        processed_by = some admin;
      }

      paid : WithdrawalRequest → Action Movement
      paid r =
          capture d r.user_id r.amount (some (object i)) (some TransactionReferenceType.withdrawal)

      announced : WithdrawalRequest → Movement → Option WithdrawalRequest → Action WithdrawalRequest
      announced r m o =
          let result = or_else o r in
          save_event d (
            Event.withdrawal_completed result.user_id r.amount r.net_amount m.1.id reference
              (some receipt) result.payout_method result.id)
          >> pure result

      told : WithdrawalRequest → Movement → Action WithdrawalRequest
      told r m = link_completion d i m.1.id >>= announced r m

  pub start_processing-StillBacked :
      (admin i now : ℕ) → StillBacked d s (start_processing d admin i now s).1
  unfolding start_processing
  start_processing-StillBacked admin i now =
      taken_last_rule d i is_pending (λ _. true) started s (λ _. true) Error.withdrawal_not_pending
        (λ y. StillBacked d s y.1)
        (λ r rs e. (
          same_missing
              (changed_request h (pos 0) e.replaced refl refl
                (rw (pending_is_open r.status e.status) (omega int_laws)))
              nothing (λ v. none_owed v r.user_id),
          refl,
          refl,
        ))
        (λ _. (h, refl, refl))
    where
      started : WithdrawalRequest → WithdrawalRequest
      started r = record r {
        status = WithdrawalStatus.processing;
        processed_by = some admin;
        processed_at = some now;
      }
