-- ===== src/Withdrawals/Transitions.antt =====
-- The guarded status updates as rules.
use mazadak_backend.Base.{
  ℕ, ◌≡◌, refl, if_cases, if◌then◌else◌, sym, subst, Bool, true, ◌&&◌, Option, none, some, List,
  ◌==◌, ==→eq, Replaced,
}
use mazadak_backend.Store.{Driver, Updates}
use mazadak_backend.Database.{
  WithdrawalStatus, WithdrawalRequest, Database, Error, Result, ok, err, Action, throw, bind_rule,
  ◌>>=◌,
}
use mazadak_backend.Wallet.Effect.{and_left, and_right}
use mazadak_backend.Withdrawals.{transition_status, find_withdrawal, refused_unless}

-- The request before the update passed the filter.
pub record Taken (i : ℕ) (from : WithdrawalStatus → Bool) (filter : WithdrawalRequest → Bool)
    (change : WithdrawalRequest → WithdrawalRequest) (r : WithdrawalRequest)
    (rs rs' : List WithdrawalRequest) : Type 0 where
  pub same_id : r.id ≡ i
  pub status : from r.status ≡ true
  pub passes : filter r ≡ true
  pub replaced : Replaced r (change r) rs rs'

-- The call throws and has changed nothing.
abbrev Refused : {A : Type 0} → Database → Result A × Database → Type 0
Refused s (ok _, t) = ⊥
Refused s (err _, t) = t ≡ s

refused_unless-Refused :
    (d : Driver) (i : ℕ) (mine : WithdrawalRequest → Bool) (e : Error) (s : Database)
    → Refused s (refused_unless d i mine e none s)
unfolding find_withdrawal
refused_unless-Refused d i mine e s = go (d.find_one (λ r. r.id == i) s.withdrawals)
  where
    throws : WithdrawalRequest → Action WithdrawalRequest
    throws r = if mine r then throw e else throw Error.withdrawal_not_found

    go :
        (o : Option WithdrawalRequest)
        → let answer : Action WithdrawalRequest = elim o [
          | none ↦ throw Error.withdrawal_not_found
          | some r ↦ throws r
        ] in
          Refused s (answer s)
    go none = refl
    go (some r) =
        if_cases (λ (m : Action WithdrawalRequest). Refused s (m s)) (mine r) (throw e)
          (throw Error.withdrawal_not_found) (λ _. refl) (λ _. refl)

module _ (d : Driver) (i : ℕ) (from : WithdrawalStatus → Bool) (filter : WithdrawalRequest → Bool)
    (change : WithdrawalRequest → WithdrawalRequest) (s : Database) where
  open d use {find_one, find_one_and_update, find_one_and_update_law}

  pub transition_rule {κ} :
      (P : Result (Option WithdrawalRequest) × Database → Type κ)
      → ((r : WithdrawalRequest) (rs : List WithdrawalRequest)
          → Taken i from filter change r s.withdrawals rs
          → P (ok (some (change r)), record s { withdrawals = rs }))
      → P (ok none, s)
      → P (transition_status d i from filter change s)
  unfolding transition_status
  transition_rule P good bad =
      go (find_one_and_update p change s.withdrawals)
        (find_one_and_update_law p change s.withdrawals)
    where
      p : WithdrawalRequest → Bool
      p r = r.id == i && (from r.status && filter r)

      go :
          (x : Option WithdrawalRequest × List WithdrawalRequest)
          → Updates p change s.withdrawals x
          → P (ok x.0, record s { withdrawals = x.1 })
      go (none, k) h = subst (λ l. P (ok none, record s { withdrawals = l })) (sym h.1) bad
      go (some b, k) (r, t, q, e) =
          let rest : (from r.status && filter r) ≡ true = and_right (r.id == i) _ t in
          subst (λ c. P (ok (some c), record s { withdrawals = k })) (sym q)
            (good r k (record {
              same_id = ==→eq r.id i (and_left (r.id == i) _ t);
              status = and_left (from r.status) (filter r) rest;
              passes = and_right (from r.status) (filter r) rest;
              replaced = e;
            }))

  -- The call goes on with the request that was taken, or throws before it has written.
  pub taken_rule {κ} :
      {A : Type 0} (mine : WithdrawalRequest → Bool) (e : Error) (k : WithdrawalRequest → Action A)
      (P : Result A × Database → Type κ)
      → ((r : WithdrawalRequest) (rs : List WithdrawalRequest)
          → Taken i from filter change r s.withdrawals rs
          → P (k (change r) (record s { withdrawals = rs })))
      → ((e : Error) → P (err e, s))
      → P (
          (transition_status d i from filter change >>= λ found.
          refused_unless d i mine e found >>= k)
            s)
  taken_rule mine e k P good bad =
      transition_rule (λ y. P (((λ _. y) >>= λ found. refused_unless d i mine e found >>= k) s))
        good
        (bind_rule (Refused s) P (refused_unless d i mine e none) k s
          (refused_unless-Refused d i mine e s) (λ _ _ b. absurd b)
          (λ e t same. subst (λ u. P (err e, u)) (sym same) (bad e)))

  pub taken_last_rule {κ} :
      (mine : WithdrawalRequest → Bool) (e : Error)
      (P : Result WithdrawalRequest × Database → Type κ)
      → ((r : WithdrawalRequest) (rs : List WithdrawalRequest)
          → Taken i from filter change r s.withdrawals rs
          → P (ok (change r), record s { withdrawals = rs }))
      → ((e : Error) → P (err e, s))
      → P ((transition_status d i from filter change >>= refused_unless d i mine e) s)
  taken_last_rule mine e P good bad =
      transition_rule (λ y. P (((λ _. y) >>= refused_unless d i mine e) s)) good
        (go (refused_unless d i mine e none s) (refused_unless-Refused d i mine e s))
    where
      go : (x : Result WithdrawalRequest × Database) → Refused s x → P x
      go (ok r, t) b = absurd b
      go (err e, t) same = subst (λ u. P (err e, u)) (sym same) (bad e)
