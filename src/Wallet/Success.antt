-- ===== src/Wallet/Success.antt =====
-- When an operation of the wallet service goes through, and which exception it throws otherwise.
use mazadak_backend.Base.{
  ℕ, pos, ◌≡◌, ◌∙◌, sym, ap, refl, Bool, true, false, Option, none, some, List, leb_ℤ, ◌==◌, ◌&&◌,
  All, All-Memᴰ, Unique-eq, Replaced-Memᴰ, ==→eq, ==_refl,
}
use mathlib.Core.List.{Memᴰ}
use mazadak_backend.Store.{Driver, Finds, Updates}
use mazadak_backend.Database.{
  Wallet, Transaction, Reference, object, tag, Database, Error, Result, ok, err, Action, ◌>>=◌,
  ◌>>◌, or_throw, pure, bind_ok, bind_err,
}
use mazadak_backend.Wallet.{
  Movement, OpParams, CreateTransactionData, find_by_user_id, update_wallet, get_wallet_or_throw,
  create_transaction, insert_transaction, mark_reference, mark_has_child, execute_wallet_op,
  validate_amount, success_entry,
}
use mazadak_backend.Wallet.Effect.{IsKeyed, and_left, and_right}

-- The user's wallet.
pub record Owns (s : Database) (user : ℕ) (w : Wallet) : Type 0 where
  pub stored : Memᴰ w s.wallets
  pub owner : w.user_id ≡ user

module _ (d : Driver) (user : ℕ) (w : Wallet) (s : Database) (keyed : IsKeyed s)
    (owns : Owns s user w) where
  open d use {find_one, find_one_law, find_one_and_update, find_one_and_update_law}

  none_of : (p : Wallet → Bool) → p w ≡ true → ¬ (All (λ a. p a ≡ false) s.wallets)
  none_of p t h = let f : p w ≡ false = All-Memᴰ (λ a. p a ≡ false) w s.wallets h owns.stored in cc

  finds_wallet : find_one (λ x. x.user_id == user) s.wallets ≡ some w
  finds_wallet =
      go (find_one (λ x. x.user_id == user) s.wallets)
        (find_one_law (λ x. x.user_id == user) s.wallets)
    where
      go : (o : Option Wallet) → Finds (λ x. x.user_id == user) s.wallets o → o ≡ some w
      go none h = absurd (none_of (λ x. x.user_id == user) (rw owns.owner (==_refl user)) h)
      go (some v) h = ap some (
          Unique-eq (λ x. x.user_id) v w s.wallets keyed.owners h.1 owns.stored
            (==→eq v.user_id user h.0 ∙ sym owns.owner))

  module _ (test : Wallet → Bool) (f : Wallet → Wallet) where
    due : Wallet → Bool
    due x = x.id == w.id && test x

    due-eq : (a : Wallet) → due a ≡ true → Memᴰ a s.wallets → a ≡ w
    unfolding due
    due-eq a t m =
        Unique-eq (λ x. x.id) a w s.wallets keyed.ids m owns.stored
          (==→eq a.id w.id (and_left (a.id == w.id) (test a) t))

    updates_wallet :
        test w ≡ true → (t : Database) × (update_wallet d test f w.id s ≡ (ok (some (f w)), t))
    unfolding update_wallet due
    updates_wallet pass =
        go (find_one_and_update due f s.wallets) (find_one_and_update_law due f s.wallets)
      where
        go :
            (x : Option Wallet × List Wallet)
            → Updates due f s.wallets x
            → (t : Database) × (◌≡◌ {A = Result (Option Wallet) × Database}
                (ok x.0, record s { wallets = x.1 })
                (ok (some (f w)), t))
        go (none, k) u = absurd (none_of due (rw (==_refl w.id) pass) u.0)
        go (some b, k) (a, t, e, r) = (
          record s { wallets = k },
          ap (λ (o : Wallet). (ok (some o), record s { wallets = k }))
              (e ∙ ap f (due-eq a t (Replaced-Memᴰ r))),
        )

    refuses_wallet : test w ≡ false → update_wallet d test f w.id s ≡ (ok none, s)
    unfolding update_wallet due
    refuses_wallet fail =
        go (find_one_and_update due f s.wallets) (find_one_and_update_law due f s.wallets)
      where
        go :
            (x : Option Wallet × List Wallet)
            → Updates due f s.wallets x
            → ◌≡◌ {A = Result (Option Wallet) × Database}
                (ok x.0, record s { wallets = x.1 })
                (ok none, s)
        go (none, k) u = ap (λ (l : List Wallet). (ok none, record s { wallets = l })) u.1
        go (some b, k) (a, t, e, r) =
            let p : test a ≡ true = and_right (a.id == w.id) (test a) t in
            let q : test w ≡ true = rw (← due-eq a t (Replaced-Memᴰ r)) p in cc

  marked_ok :
      (r : Option Reference) (x : Transaction) (u : Database)
      → (t : Database) × ((mark_reference d r >> pure x) u ≡ (ok x, t))
  unfolding mark_reference mark_has_child
  marked_ok none x u = (u, refl)
  marked_ok (some (object i)) x u = (_, refl)
  marked_ok (some (tag _)) x u = (u, refl)

  create_transaction_ok :
      (c : CreateTransactionData) (u : Database)
      → (x : Transaction) × (t : Database) × (create_transaction d c u ≡ (ok x, t))
  unfolding create_transaction insert_transaction
  create_transaction_ok c u = let (t, e) = marked_ok c.reference_id _ _ in (_, t, e)

  got_wallet : get_wallet_or_throw d user s ≡ (ok w, s)
  unfolding get_wallet_or_throw find_by_user_id
  got_wallet = ap (λ (o : Option Wallet). or_throw o Error.wallet_not_found s) finds_wallet

  module _ (test : Wallet → Bool) (f : Wallet → Wallet) (p : OpParams) (e : Error)
      (mine : p.user_id ≡ user) (positive : leb_ℤ p.amount (pos 0) ≡ false) where
    rest : Wallet → Action Movement
    rest x = (update_wallet d test f x.id >>= λ o. or_throw o e) >>= λ b.
        create_transaction d (success_entry p x.id) >>= λ t. pure (b, t)

    after_lookup : execute_wallet_op d p (λ i _. update_wallet d test f i) e s ≡ rest w s
    unfolding execute_wallet_op rest
    after_lookup =
        bind_ok (validate_amount p.amount) (λ _. get_wallet_or_throw d p.user_id >>= rest) s tt s
          (rw positive)
        ∙ bind_ok (get_wallet_or_throw d p.user_id) rest s w s (rw mine got_wallet)

    pub op_ok :
        test w ≡ true
        → (x : Transaction) × (t : Database) × (execute_wallet_op d p
              (λ i _. update_wallet d test f i)
              e
              s
            ≡ (ok (f w, x), t))
    unfolding rest
    op_ok pass =
        let (t, u) = updates_wallet test f pass in
        let (x, t', v) = create_transaction_ok (success_entry p w.id) t in
        (
          x,
          t',
          after_lookup
              ∙ bind_ok (update_wallet d test f w.id >>= λ o. or_throw o e)
                  (λ b. create_transaction d (success_entry p w.id) >>= λ y. pure (b, y)) s (f w) t
                  (bind_ok (update_wallet d test f w.id) (λ o. or_throw o e) s (some (f w)) t u)
              ∙ bind_ok (create_transaction d (success_entry p w.id)) (λ y. pure (f w, y)) t x t' v,
        )

    pub op_err :
        test w ≡ false → execute_wallet_op d p (λ i _. update_wallet d test f i) e s ≡ (err e, s)
    unfolding rest
    op_err fail =
        after_lookup
        ∙ bind_err (update_wallet d test f w.id >>= λ o. or_throw o e)
            (λ b. create_transaction d (success_entry p w.id) >>= λ y. pure (b, y)) s e s
            (bind_ok (update_wallet d test f w.id) (λ o. or_throw o e) s none s
              (refuses_wallet test f fail))
