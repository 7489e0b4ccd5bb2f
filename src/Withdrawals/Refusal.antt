-- ===== src/Withdrawals/Refusal.antt =====
-- What the calls throw for a request that is completed, rejected or cancelled.
use Prim.Native.String.{String}
use mathlib.Core.List.{Memᴰ, List}
use mazadak_backend.Base.{
  ℕ, ◌≡◌, ◌∙◌, refl, sym, ap, Bool, true, false, ◌&&◌, Option, none, some, map, ◌==◌, ==→eq, Unique,
  Unique-eq, Replaced-Memᴰ, Bool-cases, inl, inr, if◌then◌else◌, or_else,
}
use mazadak_backend.Store.{Driver, Updates}
use mazadak_backend.Store.Keyed.{find_key_rule}
use mazadak_backend.Database.{
  WithdrawalRequest, WithdrawalStatus, Database, Error, Result, ok, err, Action, throw, pure, ◌>>=◌,
  ◌>>◌, bind_ok, bind_err, in_session, Event, save_event, object, TransactionReferenceType,
}
use mazadak_backend.Wallet.Effect.{and_left, and_right}
use mazadak_backend.Wallet.{release, capture}
use mazadak_backend.Holds.Market.{apart}
use mazadak_backend.Withdrawals.{
  transition_status, find_withdrawal, refused_unless, is_open, is_pending, cancel_writes,
  cancel_withdrawal, start_processing, complete_writes, complete_withdrawal, reject_writes,
  reject_withdrawal, link_completion,
}
use mazadak_backend.Withdrawals.Backing.{pending_is_open}

session_err :
    {A : Type 0} (m : Action A) (s : Database) (e : Error)
    → m s ≡ (err e, s)
    → in_session m s ≡ (err e, s)
session_err m s e h = λ i. ((h i).0, elim (h i).0 [ ok x ↦ (h i).1 | err x ↦ s ])

module _ (d : Driver) (s : Database) (unique : Unique (map (λ r. r.id) s.withdrawals))
    (r : WithdrawalRequest) (stored : Memᴰ r s.withdrawals) where
  open d use {find_one_and_update, find_one_and_update_law}

  refuses :
      (mine : WithdrawalRequest → Bool) (e : Error)
      → refused_unless d r.id mine e none s
        ≡ (err (if mine r then e else Error.withdrawal_not_found), s)
  unfolding find_withdrawal
  refuses mine e =
      find_key_rule d (λ x. x.id) r s.withdrawals
        (λ o. answer o s ≡ (err (if mine r then e else Error.withdrawal_not_found), s)) unique
        stored (elim (Bool-cases (mine r)) [ inl t ↦ rw t refl | inr t ↦ rw t refl ])
    where
      answer : Option WithdrawalRequest → Action WithdrawalRequest
      answer o = elim o [
        | none ↦ throw Error.withdrawal_not_found
        | some x ↦ if mine x then throw e else throw Error.withdrawal_not_found
      ]

  module _ (from : WithdrawalStatus → Bool) (filter : WithdrawalRequest → Bool)
      (change : WithdrawalRequest → WithdrawalRequest) (barred : from r.status ≡ false) where
    passes_over : transition_status d r.id from filter change s ≡ (ok none, s)
    unfolding transition_status
    passes_over =
        go (find_one_and_update p change s.withdrawals)
          (find_one_and_update_law p change s.withdrawals)
      where
        p : WithdrawalRequest → Bool
        p x = x.id == r.id && (from x.status && filter x)

        go :
            (x : Option WithdrawalRequest × List WithdrawalRequest)
            → Updates p change s.withdrawals x
            → (◌≡◌ {A = Result (Option WithdrawalRequest) × Database}
                (ok x.0, record s { withdrawals = x.1 })
                (ok none, s))
        go (none, k) u =
            ap (λ (l : List WithdrawalRequest). (ok none, record s { withdrawals = l })) u.1
        go (some c, k) (x, t, e, f) =
            let same : x ≡ r =
              Unique-eq (λ y. y.id) x r s.withdrawals unique (Replaced-Memᴰ f) stored
                (==→eq x.id r.id (and_left (x.id == r.id) _ t)) in
            let was : from x.status ≡ true =
              and_left (from x.status) (filter x) (and_right (x.id == r.id) _ t) in
            absurd (apart (sym was ∙ ap (λ (y : WithdrawalRequest). from y.status) same ∙ barred))

    refused :
        {A : Type 0} (mine : WithdrawalRequest → Bool) (e : Error)
        (k : WithdrawalRequest → Action A)
        → (transition_status d r.id from filter change >>= λ found.
              refused_unless d r.id mine e found >>= k)
            s
          ≡ (err (if mine r then e else Error.withdrawal_not_found), s)
    refused mine e k =
        bind_ok (transition_status d r.id from filter change)
          (λ found. refused_unless d r.id mine e found >>= k) s none s passes_over
        ∙ bind_err (refused_unless d r.id mine e none) k s
            (if mine r then e else Error.withdrawal_not_found) s (refuses mine e)

    refused_last :
        (mine : WithdrawalRequest → Bool) (e : Error)
        → (transition_status d r.id from filter change >>= refused_unless d r.id mine e) s
          ≡ (err (if mine r then e else Error.withdrawal_not_found), s)
    refused_last mine e =
        bind_ok (transition_status d r.id from filter change) (refused_unless d r.id mine e) s none
          s passes_over
        ∙ refuses mine e

  not_pending : is_open r.status ≡ false → is_pending r.status ≡ false
  not_pending shut = elim (Bool-cases (is_pending r.status)) [
    | inl t ↦ absurd (apart (sym (pending_is_open r.status t) ∙ shut))
    | inr t ↦ t
  ]

  -- For a request that is COMPLETED, REJECTED or CANCELLED, where identifiers are unique, every call
  -- throws and leaves the database as it is: the cancellation NotCancellable to the request's user
  -- and NotFound to another, the start NotPending, the completion NotInProgress, and the rejection
  -- NotRejectable.
  pub closed_request_refused :
      is_open r.status ≡ false
      → (user admin now : ℕ) (reference receipt reason : String)
      → (cancel_withdrawal d user r.id s ≡ (
        err (
            if r.user_id == user
            then Error.withdrawal_not_cancellable
            else Error.withdrawal_not_found),
        s,
      ))
        × (start_processing d admin r.id now s ≡ (err Error.withdrawal_not_pending, s))
        × (complete_withdrawal d admin r.id reference receipt now s
            ≡ (err Error.withdrawal_not_in_progress, s))
        × (reject_withdrawal d admin r.id reason now s ≡ (err Error.withdrawal_not_rejectable, s))
  unfolding cancel_withdrawal cancel_writes start_processing complete_withdrawal complete_writes
      reject_withdrawal reject_writes
  closed_request_refused shut user admin now reference receipt reason = (
    session_err (cancel_writes d user r.id) s
        (if r.user_id == user then Error.withdrawal_not_cancellable else Error.withdrawal_not_found)
        (refused is_pending (λ x. x.user_id == user) _ (not_pending shut) (λ x. x.user_id == user)
          Error.withdrawal_not_cancellable
          (λ x.
            release d user x.amount (some (object r.id)) (some TransactionReferenceType.withdrawal)
            >> pure x)),
    refused_last is_pending (λ _. true) _ (not_pending shut) (λ _. true)
        Error.withdrawal_not_pending,
    session_err (complete_writes d admin r.id reference receipt now) s
        Error.withdrawal_not_in_progress
        (refused is_open (λ _. true) _ shut (λ _. true) Error.withdrawal_not_in_progress
          (λ x.
            capture d x.user_id x.amount (some (object r.id))
              (some TransactionReferenceType.withdrawal)
            >>= λ m. link_completion d r.id m.1.id >>= λ o.
                save_event d (
                  Event.withdrawal_completed (or_else o x).user_id x.amount x.net_amount m.1.id
                    reference (some receipt) (or_else o x).payout_method (or_else o x).id)
                >> pure (or_else o x))),
    session_err (reject_writes d admin r.id reason now) s Error.withdrawal_not_rejectable (
        refused is_open (λ _. true) _ shut (λ _. true) Error.withdrawal_not_rejectable
          (λ x.
            release d x.user_id x.amount (some (object r.id))
              (some TransactionReferenceType.withdrawal)
            >> (save_event d (Event.withdrawal_rejected x.user_id x.amount x.id reason)
                >> pure x))),
  )
