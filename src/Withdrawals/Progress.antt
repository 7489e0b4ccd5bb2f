-- ===== src/Withdrawals/Progress.antt =====
-- When an open request can be cancelled, rejected and completed.
use Prim.Native.String.{String}
use mathlib.Core.List.{Memᴰ}
use mazadak_backend.Base.{
  ℕ, ℤ, pos, ◌≤ℤ◌, ◌<ℤ◌, ◌≡◌, ◌≢◌, ◌∙◌, refl, sym, ap, subst, Bool, true, false, not, ◌&&◌, Option,
  none, some, List, [], ◌∷◌, map, ◌==◌, ==→eq, ==_refl, All, All-Memᴰ, Unique, Unique-eq,
  Replaced-Memᴰ, sum_of, int_laws, arith, Bool-cases, inl, inr, ◌⊎◌, All-imp,
}
use mazadak_backend.Store.{Driver, Updates}
use mazadak_backend.Database.{
  Wallet, Bid, Auction, WithdrawalRequest, WithdrawalStatus, TransactionReferenceType, object,
  Database, Event, Error, Result, ok, err, Action, pure, ◌>>=◌, ◌>>◌, bind_ok, in_session,
  save_event,
}
use mazadak_backend.Wallet.{release}
use mazadak_backend.Wallet.Success.{Owns}
use mazadak_backend.Wallet.Spending.{spend, spend_outcome, releasing, Spending, funds}
use mazadak_backend.Wallet.Totals.{owned}
use mazadak_backend.Wallet.Effect.{and_left}
use mazadak_backend.Holds.{IsBacked, obligation_of, stake_of, stake, is_closed}
use mazadak_backend.Holds.Market.{apart, differs}
use mazadak_backend.Withdrawals.{
  obligation, is_open, is_pending, transition_status, refused_unless, cancel_writes,
  cancel_withdrawal, reject_writes, reject_withdrawal,
}
use mazadak_backend.Withdrawals.Backing.{pending_is_open}
use mazadak_backend.Escrow.Progress.{Returns}
use mazadak_backend.Bids.Repositories.{is_winning}

module _ {A : Type 0} (g : A → ℤ) where
  sum_nonneg : (l : List A) → All (λ a. pos 0 ≤ℤ g a) l → pos 0 ≤ℤ sum_of g l
  sum_nonneg [] h = omega arith
  sum_nonneg (x ∷ l) h = let k = sum_nonneg l h.1 in let p = h.0 in grind int_laws

  member_within : (a : A) (l : List A) → All (λ a. pos 0 ≤ℤ g a) l → Memᴰ a l → g a ≤ℤ sum_of g l
  member_within a [] h m = elim m [ ]
  member_within a (x ∷ l) h (Memᴰ.head e) =
      let k = sum_nonneg l h.1 in subst (λ y. g y ≤ℤ sum_of g (x ∷ l)) (sym e) (grind int_laws)
  member_within a (x ∷ l) h (Memᴰ.tail m) =
      let k = member_within a l h.1 m in let p = h.0 in grind int_laws

nobody :
    (u : ℕ) (ws : List Wallet)
    → All (λ i. i ≢ u) (map (λ w. w.user_id) ws)
    → sum_of (λ w. owned u w.user_id w.held_balance) ws ≡ pos 0
nobody u [] h = refl
nobody u (w ∷ ws) h = rw (differs w.user_id u h.0, nobody u ws h.1) (omega int_laws)

-- The user has a wallet that holds the sum, or the sum is 0.
holder :
    (u : ℕ) (ws : List Wallet)
    → Unique (map (λ w. w.user_id) ws)
    → (sum_of (λ w. owned u w.user_id w.held_balance) ws ≡ pos 0)
      ⊎ ((w : Wallet) × Memᴰ w ws
          × (w.user_id ≡ u)
          × (sum_of (λ w. owned u w.user_id w.held_balance) ws ≡ w.held_balance))
holder u [] h = inl refl
holder u (w ∷ ws) h = elim (Bool-cases (w.user_id == u)) [
  | inl e ↦
      let mine : w.user_id ≡ u = ==→eq w.user_id u e in
      let rest = nobody u ws (subst (λ v. All (λ i. i ≢ v) (map (λ x. x.user_id) ws)) mine h.0) in
      inr (w, Memᴰ.head refl, mine, rw (e, rest) (omega int_laws))
  | inr e ↦ elim (holder u ws h.1) [
    | inl z ↦ inl (rw (e, z) (omega int_laws))
    | inr k ↦ inr (k.0, Memᴰ.tail k.1, k.2, rw (e, k.3) (omega int_laws))
  ]
]

owned_nonneg : (u o : ℕ) (x : ℤ) → pos 0 ≤ℤ x → pos 0 ≤ℤ owned u o x
owned_nonneg u o x h = elim (Bool-cases (o == u)) [ inl e ↦ rw e h | inr e ↦ rw e (omega arith) ]

obligation_nonneg : (r : WithdrawalRequest) → pos 0 <ℤ r.amount → pos 0 ≤ℤ obligation r
obligation_nonneg r h = elim (Bool-cases (is_open r.status)) [
  | inl e ↦ rw e (omega arith)
  | inr e ↦ rw e (omega arith)
]

stake_nonneg : (l : List Auction) (b : Bid) → pos 0 ≤ℤ b.amount → pos 0 ≤ℤ stake l b
stake_nonneg l b h = elim (Bool-cases (is_winning b.status && not (is_closed b.auction_id l))) [
  | inl e ↦ rw e h
  | inr e ↦ rw e (omega arith)
]

-- Every amount requested is positive, and no bid is negative.
pub record HasAmounts (s : Database) : Type 0 where
  pub requests : All (λ r. pos 0 <ℤ r.amount) s.withdrawals
  pub bids : All (λ b. pos 0 ≤ℤ b.amount) s.bids

in_session_ok :
    {A : Type 0} (m : Action A) (s : Database) (a : A) (t : Database)
    → m s ≡ (ok a, t)
    → in_session m s ≡ (ok a, t)
in_session_ok m s a t e = λ i. ((e i).0, elim (e i).0 [ ok x ↦ (e i).1 | err x ↦ s ])

module _ (d : Driver) (s : Database) (h : IsBacked d s) (amounts : HasAmounts s)
    (r : WithdrawalRequest) (stored : Memᴰ r s.withdrawals) where
  open d use {find_one_and_update, find_one_and_update_law}

  due_within : is_open r.status ≡ true → r.amount ≤ℤ obligation_of r.user_id s.withdrawals
  due_within o =
      let k =
        member_within (λ x. owned r.user_id x.user_id (obligation x)) r s.withdrawals
          (All-imp (λ x. pos 0 <ℤ x.amount) (λ x. pos 0 ≤ℤ owned r.user_id x.user_id (obligation x))
            (λ x p. owned_nonneg r.user_id x.user_id (obligation x) (obligation_nonneg x p))
            s.withdrawals amounts.requests)
          stored in
      (rw (==_refl r.user_id, o) at k)

  -- The user's wallet holds at least the amount.
  holds_amount :
      is_open r.status ≡ true → (w : Wallet) × Owns s r.user_id w × (r.amount ≤ℤ w.held_balance)
  holds_amount o =
      let due = due_within o in
      let staked : pos 0 ≤ℤ stake_of r.user_id s.auctions s.bids =
        sum_nonneg (λ b. owned r.user_id b.bidder_id (stake s.auctions b)) s.bids
          (All-imp (λ b. pos 0 ≤ℤ b.amount)
            (λ b. pos 0 ≤ℤ owned r.user_id b.bidder_id (stake s.auctions b))
            (λ b p.
              owned_nonneg r.user_id b.bidder_id (stake s.auctions b) (stake_nonneg s.auctions b p))
            s.bids amounts.bids) in
      let total = h.held r.user_id in
      let positive = All-Memᴰ (λ x. pos 0 <ℤ x.amount) r s.withdrawals amounts.requests stored in
      elim (holder r.user_id s.wallets h.owners) [
        | inl z ↦ absurd (grind int_laws)
        | inr k ↦ (k.0, record { stored = k.1; owner = k.2 }, grind (int_laws, k.3))
      ]

  module _ (from : WithdrawalStatus → Bool) (filter : WithdrawalRequest → Bool)
      (change : WithdrawalRequest → WithdrawalRequest) where
    took :
        from r.status ≡ true
        → filter r ≡ true
        → (rs : List WithdrawalRequest) × (transition_status d r.id from filter change s
            ≡ (ok (some (change r)), record s { withdrawals = rs }))
    unfolding transition_status
    took a b =
        go (find_one_and_update p change s.withdrawals)
          (find_one_and_update_law p change s.withdrawals)
      where
        p : WithdrawalRequest → Bool
        p x = x.id == r.id && (from x.status && filter x)

        passes : p r ≡ true
        passes = rw (==_refl r.id, a, b) refl

        go :
            (x : Option WithdrawalRequest × List WithdrawalRequest)
            → Updates p change s.withdrawals x
            → (rs : List WithdrawalRequest) × (◌≡◌
                {A = Result (Option WithdrawalRequest) × Database}
                (ok x.0, record s { withdrawals = x.1 })
                (ok (some (change r)), record s { withdrawals = rs }))
        go (none, k) u =
            absurd (apart (sym passes ∙ All-Memᴰ (λ x. p x ≡ false) r s.withdrawals u.0 stored))
        go (some c, k) (x, t, e, f) = (
          k,
          ap (λ (o : WithdrawalRequest). (ok (some o), record s { withdrawals = k }))
              (e
                ∙ ap change (
                    Unique-eq (λ y. y.id) x r s.withdrawals h.requests.unique (Replaced-Memᴰ f)
                      stored (==→eq x.id r.id (and_left (x.id == r.id) _ t)))),
        )

  -- The release or capture of the amount, after the request has been taken.
  spends :
      (k : Spending) (o : is_open r.status ≡ true) (rs : List WithdrawalRequest)
      → funds k (holds_amount o).0 ≡ (holds_amount o).0.held_balance
      → Returns (
          spend d k r.user_id r.amount
            (some (object r.id))
            (some TransactionReferenceType.withdrawal)
            (record s { withdrawals = rs }))
  spends k o rs same =
      let (w, owns, enough) = holds_amount o in
      (spend_outcome d r.user_id w (record s { withdrawals = rs })
          (record { ids = h.wallets; owners = h.owners })
          (record { stored = owns.stored; owner = owns.owner }) r.amount (some (object r.id))
          (some TransactionReferenceType.withdrawal) k).goes_through
        (All-Memᴰ (λ x. pos 0 <ℤ x.amount) r s.withdrawals amounts.requests stored)
        (subst (λ v. r.amount ≤ℤ v) (sym same) enough)

  -- Suppose that keys are unique, wallets solvent, that every user has held exactly what is due, that
  -- all requested amounts are positive and no bid is negative. Then `cancelWithdrawal` by its user
  -- returns for a PENDING request: what is held never falls short of its amount.
  pub cancel_withdrawal-Returns :
      is_pending r.status ≡ true → Returns (cancel_withdrawal d r.user_id r.id s)
  unfolding cancel_withdrawal cancel_writes spend
  cancel_withdrawal-Returns pending =
      let (rs, e) =
        took is_pending (λ x. x.user_id == r.user_id) cancelled pending (==_refl r.user_id) in
      let (m, u, q) = spends releasing (pending_is_open r.status pending) rs refl in
      (
        cancelled r,
        u,
        in_session_ok (cancel_writes d r.user_id r.id) s (cancelled r) u (
            bind_ok (transition_status d r.id is_pending (λ x. x.user_id == r.user_id) cancelled)
              (λ found.
                refused_unless d r.id (λ x. x.user_id == r.user_id) Error.withdrawal_not_cancellable
                  found
                >>= freed)
              s (some (cancelled r)) (record s { withdrawals = rs }) e
            ∙ bind_ok
                (release d r.user_id r.amount (some (object r.id))
                  (some TransactionReferenceType.withdrawal))
                (λ _. pure (cancelled r)) (record s { withdrawals = rs }) m u q),
      )
    where
      cancelled : WithdrawalRequest → WithdrawalRequest
      cancelled x = record x { status = WithdrawalStatus.cancelled }

      freed : WithdrawalRequest → Action WithdrawalRequest
      freed x =
          release d r.user_id x.amount (some (object r.id))
            (some TransactionReferenceType.withdrawal)
          >> pure x

  -- Under the same conditions `adminRejectWithdrawal` returns for a PENDING or PROCESSING request.
  pub reject_withdrawal-Returns :
      (admin : ℕ) (reason : String) (now : ℕ)
      → is_open r.status ≡ true
      → Returns (reject_withdrawal d admin r.id reason now s)
  unfolding reject_withdrawal reject_writes spend
  reject_withdrawal-Returns admin reason now waits =
      let (rs, e) = took is_open (λ _. true) rejected waits refl in
      let (m, u, q) = spends releasing waits rs refl in
      let (t, v) = told u in
      (
        rejected r,
        t,
        in_session_ok (reject_writes d admin r.id reason now) s (rejected r) t (
            bind_ok (transition_status d r.id is_open (λ _. true) rejected)
              (λ found.
                refused_unless d r.id (λ _. true) Error.withdrawal_not_rejectable found >>= freed)
              s (some (rejected r)) (record s { withdrawals = rs }) e
            ∙ bind_ok
                (release d r.user_id r.amount (some (object r.id))
                  (some TransactionReferenceType.withdrawal))
                (λ _. telling) (record s { withdrawals = rs }) m u q
            ∙ v),
      )
    where
      rejected : WithdrawalRequest → WithdrawalRequest
      rejected x = record x {
        status = WithdrawalStatus.rejected;
        rejection_reason = some reason;
        processed_by = some admin;
        processed_at = some now;
      }

      announce : WithdrawalRequest → Action WithdrawalRequest
      announce x = save_event d (Event.withdrawal_rejected x.user_id x.amount x.id reason) >> pure x

      telling : Action WithdrawalRequest
      telling = announce (rejected r)

      told : (u : Database) → (t : Database) × (telling u ≡ (ok (rejected r), t))
      told u = (_, refl)

      freed : WithdrawalRequest → Action WithdrawalRequest
      freed x =
          release d x.user_id x.amount (some (object r.id))
            (some TransactionReferenceType.withdrawal)
          >> announce x
