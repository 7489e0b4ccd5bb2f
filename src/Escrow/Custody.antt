-- ===== src/Escrow/Custody.antt =====
-- What paying an escrow out does: to the wallets, to the escrow, and to the sum of both.
use mazadak_backend.Base.{
  ℕ, ℤ, pos, ◌≡◌, refl, sym, subst, Bool, false, Option, none, some, List, ◌+ℤ◌, ◌==◌, All,
  All-Memᴰ, Unique, Unique-eq, Replaced, Replaced-Memᴰ, map, map-Replaced, sum_of-Replaced, ==→eq,
  ==_refl, int_laws,
}
use mathlib.Core.List.{Memᴰ}
use mazadak_backend.Store.{Driver, Updates}
use mazadak_backend.Database.{
  Escrow, EscrowStatus, Reference, TransactionReferenceType, Database, Event, Result, ok, err, pure,
  ◌>>=◌, ◌>>◌, save_event, bind_rule,
}
use mazadak_backend.Wallet.{deposit}
use mazadak_backend.Wallet.Effect.{IsKeyed, Moved, Moved-as, Moves}
use mazadak_backend.Wallet.Operations.{deposit-Moves}
use mazadak_backend.Wallet.Totals.{
  total_balance, AllSolvent, Moved-total_balance, Moved-AllSolvent, Moved-IsKeyed,
}
use mazadak_backend.Escrow.{EscrowExtra, with_status, update_status, in_custody, sum_held_escrows}

-- One escrow to an identifier.
abbrev pub UniqueEscrows : Database → Type 0
UniqueEscrows s = Unique (map (λ e. e.id) s.escrows)

-- The escrow has got the status, and the payee its amount.
pub record Settled (e : Escrow) (payee : ℕ) (final : EscrowStatus) (s t : Database) : Type 0 where
  pub paid : Moved payee e.amount (pos 0) s (record t { escrows = s.escrows })
  pub after : Escrow
  pub replaced : Replaced e after s.escrows t.escrows
  pub same_id : after.id ≡ e.id
  pub same_amount : after.amount ≡ e.amount
  pub status : after.status ≡ final

abbrev pub Settles :
    {A : Type 0} → Escrow → ℕ → EscrowStatus → Database → Result A × Database → Type 0
Settles e payee final s (ok _, t) = Settled e payee final s t
Settles e payee final s (err _, t) = t ≡ s

module _ (d : Driver) (e : Escrow) (payee : ℕ) (s : Database) (keyed : IsKeyed s)
    (unique : UniqueEscrows s) (stored : Memᴰ e s.escrows) where
  open d use {find_one_and_update, find_one_and_update_law}

  update_status-Settles :
      (final : EscrowStatus) (x : EscrowExtra) (u : Database)
      → Moved payee e.amount (pos 0) s u
      → Settles e payee final s (update_status d e.id final x u)
  unfolding update_status
  update_status-Settles final x u m =
      go (find_one_and_update p f u.escrows) (find_one_and_update_law p f u.escrows)
    where
      p : Escrow → Bool
      p a = a.id == e.id

      f : Escrow → Escrow
      f = with_status final x

      go :
          (y : Option Escrow × List Escrow)
          → Updates p f u.escrows y
          → Settles e payee final s (ok y.0, record u { escrows = y.1 })
      go (none, k) h =
          let q : (e.id == e.id) ≡ false =
            All-Memᴰ (λ a. p a ≡ false) e s.escrows
              (subst (All (λ a. p a ≡ false)) m.rest.escrows h.0) stored in
          cc (==_refl e.id)
      go (some b, k) (a, t, q, r) =
          let r' : Replaced a (f a) s.escrows k =
            subst (λ l. Replaced a (f a) l k) m.rest.escrows r in
          let same : a ≡ e =
            Unique-eq (λ v. v.id) a e s.escrows unique (Replaced-Memᴰ r') stored
              (==→eq a.id e.id t) in
          record {
            paid = Moved-as d payee e.amount (pos 0) s keyed m refl (record {
              escrows = refl;
              disputes = m.rest.disputes;
              withdrawals = m.rest.withdrawals;
              auctions = m.rest.auctions;
              bids = m.rest.bids;
              auto_bids = m.rest.auto_bids;
              later = m.rest.later;
            });
            after = f e;
            replaced = subst (λ v. Replaced v (f v) s.escrows k) same r';
            same_id = refl;
            same_amount = refl;
            status = refl;
          }

  -- The event that follows leaves it at that.
  told :
      (final : EscrowStatus) (v : Event) (updated : Option Escrow) (t : Database)
      → Settled e payee final s t
      → Settles e payee final s ((save_event d v >> pure updated) t)
  told final v updated t h = record {
    paid = Moved-as d payee e.amount (pos 0) s keyed h.paid refl (record {
      escrows = h.paid.rest.escrows;
      disputes = h.paid.rest.disputes;
      withdrawals = h.paid.rest.withdrawals;
      auctions = h.paid.rest.auctions;
      bids = h.paid.rest.bids;
      auto_bids = h.paid.rest.auto_bids;
      later = h.paid.rest.later;
    });
    after = h.after;
    replaced = h.replaced;
    same_id = h.same_id;
    same_amount = h.same_amount;
    status = h.status;
  }

  pub payout :
      (final : EscrowStatus) (x : EscrowExtra) (v : Event) (reference : Reference)
      (type : TransactionReferenceType)
      → Settles e payee final s (
          (deposit d payee e.amount (some reference) (some e.currency) (some type) none >>= λ _.
          update_status d e.id final x >>= λ updated. save_event d v >> pure updated)
            s)
  payout final x v reference type =
      bind_rule (Moves payee e.amount (pos 0) s) (Settles e payee final s)
        (deposit d payee e.amount (some reference) (some e.currency) (some type) none)
        (λ _. update_status d e.id final x >>= λ updated. save_event d v >> pure updated) s
        (deposit-Moves d payee e.amount (some reference) (some e.currency) (some type) none s keyed)
        (λ _ u m.
          bind_rule (Settles e payee final s) (Settles e payee final s)
            (update_status d e.id final x) (λ updated. save_event d v >> pure updated) u
            (update_status-Settles final x u m) (told final v) (λ _ _ h. h))
        (λ _ _ h. h)

-- The money of the platform's users: what is in the wallets and what is kept in escrow.
abbrev pub funds : Database → ℤ
funds s = total_balance s +ℤ sum_held_escrows s

-- The keys of wallets and escrows are unique, and the wallets are solvent.
pub record IsSound (s : Database) : Type 0 where
  pub keyed : IsKeyed s
  pub solvent : AllSolvent s
  pub escrows : UniqueEscrows s

balance_sheet : (w w' c c' a : ℤ) → w' ≡ w +ℤ a → c' +ℤ a ≡ c +ℤ pos 0 → w' +ℤ c' ≡ w +ℤ c
balance_sheet w w' c c' a h k = grind int_laws

-- A payout out of custody moves money and makes none.
pub Settled-funds :
    (e : Escrow) (payee : ℕ) (final : EscrowStatus) (s t : Database)
    → Settled e payee final s t
    → in_custody e ≡ e.amount
    → ((a : Escrow) → a.status ≡ final → in_custody a ≡ pos 0)
    → funds t ≡ funds s
Settled-funds e payee final s t h from to =
    balance_sheet (total_balance s) (total_balance t) (sum_held_escrows s) (sum_held_escrows t)
      e.amount
      (Moved-total_balance payee e.amount (pos 0) s (record t { escrows = s.escrows }) h.paid)
      (subst (λ x. sum_held_escrows t +ℤ x ≡ sum_held_escrows s +ℤ pos 0) from
        (subst (λ x. sum_held_escrows t +ℤ in_custody e ≡ sum_held_escrows s +ℤ x)
          (to h.after h.status) (sum_of-Replaced in_custody h.replaced)))

pub Settled-IsSound :
    (e : Escrow) (payee : ℕ) (final : EscrowStatus) (s t : Database)
    → Settled e payee final s t
    → IsSound s
    → IsSound t
Settled-IsSound e payee final s t h v =
    let t' : Database = record t { escrows = s.escrows } in
    let k : IsKeyed t' = Moved-IsKeyed payee e.amount (pos 0) s t' h.paid v.keyed in
    record {
      keyed = record { ids = k.ids; owners = k.owners };
      solvent = Moved-AllSolvent payee e.amount (pos 0) s t' h.paid v.solvent;
      escrows = subst Unique (sym (map-Replaced (λ a. a.id) h.replaced h.same_id)) v.escrows;
    }
