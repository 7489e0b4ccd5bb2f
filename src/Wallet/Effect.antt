-- ===== src/Wallet/Effect.antt =====
-- What the operations of the wallet service do to the wallets, and that they leave the rest alone.
use mazadak_backend.Base.{
  ℕ, suc, ℤ, pos, ◌≡◌, refl, sym, ap, subst, ◌∙◌, Bool, true, Option, none, some, List, ◌+ℤ◌, ◌≤ℤ◌,
  ◌≤◌, ◌<ℤ◌, leb_ℤ, ◌==◌, ◌&&◌, Unique, Unique-eq, Replaced, Replaced-Memᴰ, map, ==→eq, leb_ℤ_false,
  arith, Bool-cases, inl, inr,
}
use mathlib.Core.List.{Memᴰ}
use mazadak_backend.Store.{Driver, Finds, Updates}
use mazadak_backend.Database.{
  Wallet, Transaction, Reference, object, tag, Event, Database, Error, Result, ok, err, Action,
  ◌>>=◌, ◌>>◌, bind_rule, or_throw, pure,
}
use mazadak_backend.Wallet.{
  Movement, OpParams, CreateTransactionData, find_by_user_id, update_wallet, get_wallet_or_throw,
  create_transaction, insert_transaction, mark_reference, mark_has_child, execute_wallet_op,
  success_entry,
}

-- What is held is covered by the balance, and neither is negative.
pub record IsSolvent (w : Wallet) : Type 0 where
  pub held_nonneg : pos 0 ≤ℤ w.held_balance
  pub covered : w.held_balance ≤ℤ w.balance

-- One wallet to an identifier and to a user, as the unique indexes demand.
pub record IsKeyed (s : Database) : Type 0 where
  pub ids : Unique (map (λ w. w.id) s.wallets)
  pub owners : Unique (map (λ w. w.user_id) s.wallets)

-- The collections other than wallets, transactions and the outbox are the same, and identifiers are
-- only used up.
pub record SameRest (s t : Database) : Type 0 where
  pub escrows : t.escrows ≡ s.escrows
  pub disputes : t.disputes ≡ s.disputes
  pub withdrawals : t.withdrawals ≡ s.withdrawals
  pub auctions : t.auctions ≡ s.auctions
  pub bids : t.bids ≡ s.bids
  pub auto_bids : t.auto_bids ≡ s.auto_bids
  pub later : s.generated ≤ t.generated

-- One wallet of the user has moved by the two amounts, and stays solvent.
pub record Moved (user : ℕ) (db dh : ℤ) (s t : Database) : Type 0 where
  pub before : Wallet
  pub after : Wallet
  pub replaced : Replaced before after s.wallets t.wallets
  pub owner : before.user_id ≡ user
  pub same_id : after.id ≡ before.id
  pub same_owner : after.user_id ≡ before.user_id
  pub balance : after.balance ≡ before.balance +ℤ db
  pub held : after.held_balance ≡ before.held_balance +ℤ dh
  pub solvent : IsSolvent before → IsSolvent after
  pub rest : SameRest s t

-- A call that throws has changed nothing; one that returns has moved the amounts.
abbrev pub Moves : {A : Type 0} → ℕ → ℤ → ℤ → Database → Result A × Database → Type 0
Moves user db dh s (ok _, t) = Moved user db dh s t
Moves user db dh s (err _, t) = t ≡ s

-- An update that is due for the user's wallet.
pub record IsMove (user : ℕ) (db dh : ℤ) (test : Wallet → Bool) (f : Wallet → Wallet) : Type 0 where
  pub same_id : (w : Wallet) → (f w).id ≡ w.id
  pub same_owner : (w : Wallet) → (f w).user_id ≡ w.user_id
  pub balance : (w : Wallet) → (f w).balance ≡ w.balance +ℤ db
  pub held : (w : Wallet) → (f w).held_balance ≡ w.held_balance +ℤ dh
  pub solvent : (w : Wallet) → test w ≡ true → IsSolvent w → IsSolvent (f w)

abbrev Updated : ℕ → ℤ → ℤ → Database → Result (Option Wallet) × Database → Type 0
Updated user db dh s (ok none, t) = t ≡ s
Updated user db dh s (ok (some _), t) = Moved user db dh s t
Updated user db dh s (err _, t) = ⊥

le_trans : {a b c : ℕ} → a ≤ b → b ≤ c → a ≤ c
le_trans h k = omega arith

same_rest : (s : Database) (k : List Wallet) → SameRest s (record s { wallets = k })
same_rest s k = record {
  escrows = refl;
  disputes = refl;
  withdrawals = refl;
  auctions = refl;
  bids = refl;
  auto_bids = refl;
  later = omega arith;
}

pub and_left : (a b : Bool) → (a && b) ≡ true → a ≡ true
and_left a b h = ground arith

pub and_right : (a b : Bool) → (a && b) ≡ true → b ≡ true
and_right a b h = ground arith

module _ (d : Driver) (user : ℕ) (db dh : ℤ) (s : Database) (keyed : IsKeyed s) where
  open d use {find_one, find_one_and_update, find_one_law, find_one_and_update_law}

  update_wallet-Updated :
      (test : Wallet → Bool) (f : Wallet → Wallet) (w : Wallet)
      → IsMove user db dh test f
      → Memᴰ w s.wallets
      → w.user_id ≡ user
      → Updated user db dh s (update_wallet d test f w.id s)
  unfolding update_wallet
  update_wallet-Updated test f w move mem owner =
      cases (find_one_and_update p f s.wallets) (find_one_and_update_law p f s.wallets)
    where
      p : Wallet → Bool
      p x = x.id == w.id && test x

      cases :
          (x : Option Wallet × List Wallet)
          → Updates p f s.wallets x
          → Updated user db dh s (ok x.0, record s { wallets = x.1 })
      cases (none, k) u = ap (λ (l : List Wallet). record s { wallets = l }) u.1
      cases (some b, k) (a, t, e, r) = record {
        before = a;
        after = f a;
        replaced = r;
        owner =
            ap (λ (x : Wallet). x.user_id)
              (Unique-eq (λ x. x.id) a w s.wallets keyed.ids (Replaced-Memᴰ r) mem
                (==→eq a.id w.id (and_left (a.id == w.id) (test a) t)))
            ∙ owner;
        same_id = move.same_id a;
        same_owner = move.same_owner a;
        balance = move.balance a;
        held = move.held a;
        solvent = move.solvent a (and_right (a.id == w.id) (test a) t);
        rest = same_rest s k;
      }

  -- A movement is one of the wallets alone.
  pub Moved-as :
      {t u : Database}
      → Moved user db dh s t
      → u.wallets ≡ t.wallets
      → SameRest s u
      → Moved user db dh s u
  Moved-as m e rest = record {
    before = m.before;
    after = m.after;
    replaced = subst (Replaced m.before m.after s.wallets) (sym e) m.replaced;
    owner = m.owner;
    same_id = m.same_id;
    same_owner = m.same_owner;
    balance = m.balance;
    held = m.held;
    solvent = m.solvent;
    rest = rest;
  }

  pub Moved-ledger :
      {t : Database} (k : List Transaction) (o : List Event) (g : ℕ)
      → t.generated ≤ g
      → Moved user db dh s t
      → Moved user db dh s (record t { transactions = k; outbox = o; generated = g })
  Moved-ledger k o g q m = Moved-as m refl (record {
    escrows = m.rest.escrows;
    disputes = m.rest.disputes;
    withdrawals = m.rest.withdrawals;
    auctions = m.rest.auctions;
    bids = m.rest.bids;
    auto_bids = m.rest.auto_bids;
    later = le_trans m.rest.later q;
  })

  marked :
      (r : Option Reference) (x : Transaction) (t : Database)
      → Moved user db dh s t
      → Moves user db dh s ((mark_reference d r >> pure x) t)
  unfolding mark_reference mark_has_child
  marked none x t m = m
  marked (some (object i)) x t m = Moved-ledger _ t.outbox t.generated (omega arith) m
  marked (some (tag _)) x t m = m

  -- Making an entry keeps the wallets.
  create_transaction-Moves :
      (c : CreateTransactionData) (t : Database)
      → Moved user db dh s t
      → Moves user db dh s (create_transaction d c t)
  unfolding create_transaction insert_transaction
  create_transaction-Moves c t m =
      marked c.reference_id _ _ (Moved-ledger _ t.outbox (suc t.generated) (omega arith) m)

  pub op-Moves :
      (p : OpParams) (test : Wallet → Bool) (f : Wallet → Wallet) (e : Error)
      → p.user_id ≡ user
      → (pos 0 <ℤ p.amount → IsMove user db dh test f)
      → Moves user db dh s (execute_wallet_op d p (λ i _. update_wallet d test f i) e s)
  unfolding execute_wallet_op get_wallet_or_throw find_by_user_id
  op-Moves p test f e owner move = elim (Bool-cases (leb_ℤ p.amount (pos 0))) [
    | inl refused ↦ rw refused refl
    | inr positive ↦ rw positive (
        found (move (leb_ℤ_false p.amount (pos 0) positive))
          (find_one (λ w. w.user_id == p.user_id) s.wallets)
          (find_one_law (λ w. w.user_id == p.user_id) s.wallets))
  ]
    where
      due : Option Wallet → Action Wallet
      due o = or_throw o e

      enter : Wallet → Wallet → Action Movement
      enter w b =
          create_transaction d (success_entry p w.id) >>= λ transaction. pure (b, transaction)

      entered :
          (w b : Wallet) (t : Database) → Moved user db dh s t → Moves user db dh s (enter w b t)
      entered w b t m =
          bind_rule (Moves user db dh s) (Moves user db dh s)
            (create_transaction d (success_entry p w.id)) (λ transaction. pure (b, transaction)) t
            (create_transaction-Moves (success_entry p w.id) t m) (λ a u h. h) (λ a u h. h)

      taken :
          (o : Option Wallet) (t : Database)
          → Updated user db dh s (ok o, t)
          → Moves user db dh s (due o t)
      taken none t h = h
      taken (some b) t h = h

      found :
          IsMove user db dh test f
          → (o : Option Wallet) → Finds (λ w. w.user_id == p.user_id) s.wallets o
          → Moves user db dh s (
              (or_throw o Error.wallet_not_found >>= λ w.
              (update_wallet d test f w.id >>= due) >>= enter w)
                s)
      found m none h = refl
      found m (some w) h =
          bind_rule (Moves user db dh s) (Moves user db dh s) (update_wallet d test f w.id >>= due)
            (enter w) s
            (bind_rule (Updated user db dh s) (Moves user db dh s) (update_wallet d test f w.id) due
              s (update_wallet-Updated test f w m h.1 (==→eq w.user_id p.user_id h.0 ∙ owner)) taken
              λ _ _ b. absurd b)
            (entered w) (λ _ _ b. b)
