-- ===== src/Escrow/Creation.antt =====
-- `createEscrow`: at most one escrow to an auction.
use mazadak_backend.Store.Keyed.{find_rule}
use mazadak_backend.Base.{
  suc, arith, ◌≤◌, ℕ, ◌+ℤ◌, ◌≡◌, ◌≢◌, refl, sym, ◌∙◌, subst, true, false, ◌⊎◌, inl, inr, Option,
  none, some, ◌==◌, ==→eq, ==_refl, All, All-map_imp, Unique, Unique-Inserted, Inserted, map,
  map-Inserted, sum_of-Inserted,
}
use mathlib.Core.List.{List, Memᴰ}
use mazadak_backend.Store.{Driver, Finds}
use mazadak_backend.Database.{◌>>=◌, Event, Action, Escrow, Database, Result, ok, err}
use mazadak_backend.Escrow.{
  CreateEscrow, new_escrow, find_by_auction_id, insert_escrow, or_create, create_escrow, in_custody,
  sum_held_escrows,
}

abbrev pub OnePerAuction : Database → Type 0
OnePerAuction s = Unique (map (λ e. e.auction_id) s.escrows)

-- A new escrow is kept, HELD, and its amount is in custody.
pub record Created (c : CreateEscrow) (now : ℕ) (e : Escrow) (s t : Database) : Type 0 where
  pub id : ℕ
  pub fields : e ≡ new_escrow c now id
  pub stored : Inserted e s.escrows t.escrows
  pub custody : sum_held_escrows t ≡ c.amount +ℤ sum_held_escrows s
  pub wallets : t.wallets ≡ s.wallets

-- The auction's escrow is the one that was there, or a new one.
abbrev pub Creates : CreateEscrow → ℕ → Database → Result Escrow × Database → Type 0
Creates c now s (ok e, t) =
    (e.auction_id ≡ c.auction_id)
    × OnePerAuction t
    × ((Memᴰ e s.escrows × (t ≡ s)) ⊎ Created c now e s t)
Creates c now s (err _, t) = ⊥

module _ (d : Driver) (c : CreateEscrow) (now : ℕ) (s : Database) (one : OnePerAuction s) where
  open d use {find_one, find_one_law, insert, insert_law, object_id}

  inserted :
      All (λ e. (e.auction_id == c.auction_id) ≡ false) s.escrows
      → Creates c now s (insert_escrow d c now s)
  unfolding insert_escrow
  inserted h =
      let e = new_escrow c now (object_id s.generated) in
      let r : Inserted e s.escrows (insert e s.escrows) = insert_law e s.escrows in
      (
        refl,
        Unique-Inserted (map-Inserted (λ x. x.auction_id) r)
            (All-map_imp (λ j. j ≢ c.auction_id) (λ x. x.auction_id) (λ x. differ x.auction_id)
              s.escrows h)
            one,
        inr (record {
          id = object_id s.generated;
          fields = refl;
          stored = r;
          custody = sum_of-Inserted in_custody r;
          wallets = refl;
        }),
      )
    where
      differ : (j : ℕ) → (j == c.auction_id) ≡ false → j ≢ c.auction_id
      differ j f q = apart (sym (subst (λ k. (j == k) ≡ true) q (==_refl j)) ∙ f)
        where
          apart : true ≡ false → ⊥
          apart p = cc p

  -- With at most one escrow to each auction, `createEscrow` returns an escrow of the auction and
  -- keeps it so. Either that escrow was there and nothing changes, or it is a new HELD one with the
  -- given parties and amount, the amount is added to what is in custody, and no wallet changes.
  pub create_escrow-Creates : Creates c now s (create_escrow d c now s)
  unfolding create_escrow or_create find_by_auction_id
  create_escrow-Creates =
      go (find_one (λ e. e.auction_id == c.auction_id) s.escrows)
        (find_one_law (λ e. e.auction_id == c.auction_id) s.escrows)
    where
      go :
          (o : Option Escrow)
          → Finds (λ e. e.auction_id == c.auction_id) s.escrows o
          → Creates c now s (or_create d c now o s)
      go none h = inserted h
      go (some e) h = (==→eq e.auction_id c.auction_id h.0, one, inl (h.1, refl))

-- `createEscrow` writes escrows and an event only.
pub create_escrow_rule {κ} :
    (d : Driver) {A : Type 0} (c : CreateEscrow) (now : ℕ) (k : Escrow → Action A) (s : Database)
    (P : Result A × Database → Type κ)
    → ((e : Escrow) (es : List Escrow) (o : List Event) (g : ℕ)
        → s.generated ≤ g
        → P (k e (record s { escrows = es; outbox = o; generated = g })))
    → P ((create_escrow d c now >>= k) s)
unfolding create_escrow or_create find_by_auction_id insert_escrow
create_escrow_rule d c now k s P good =
    find_rule d (λ e. e.auction_id == c.auction_id) s.escrows
      (λ o. P ((or_create d c now o >>= k) s))
      (λ e _ _. good e s.escrows s.outbox s.generated (omega arith))
      (good (new_escrow c now (d.object_id s.generated)) _ _ (suc s.generated) (omega arith))
