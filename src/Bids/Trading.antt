-- ===== src/Bids/Trading.antt =====
-- What the steps of a bid do to what is due and to the market.
use mathlib.Core.List.{Memᴰ}
use mazadak_backend.Base.{
  ℕ, suc, ℤ, pos, ◌+ℤ◌, ◌-ℤ◌, ◌≡◌, refl, sym, ap, subst, ◌∙◌, true, Option, none, some, List,
  Inserted, Inserted-Memᴰ, Inserted-Memᴰ_kept, int_laws, inl, inr,
}
use mazadak_backend.Store.{Driver}
use mazadak_backend.Store.Keyed.{update_rule}
use mazadak_backend.Database.{
  Wallet, WithdrawalRequest, Bid, Auction, TransactionReferenceType, object, Database, Result, ok,
  err, Action, pure, ◌>>=◌, ◌>>◌, bind_rule,
}
use mazadak_backend.Bids.Engine.{winning, outbid}
use mazadak_backend.Wallet.{Movement, hold, release}
use mazadak_backend.Wallet.Effect.{Moves, Moved}
use mazadak_backend.Wallet.Operations.{hold-Moves, release-Moves}
use mazadak_backend.Wallet.Totals.{owned_back, owned_zero, owned}
use mazadak_backend.Holds.{stake, Owes, IsBacked, nothing, Owes-IsKeyed, Moved-Owes}
use mazadak_backend.Holds.Closing.{same_stakes, nothing_closed}
use mazadak_backend.Holds.Changes.{changed_bid, added_bid, same_missing}
use mazadak_backend.Holds.Market.{
  IsMarket, IsVacant, wins, apart, active_is_open, closed_same, outbid-IsMarket, outbid-IsVacant,
  loser-IsMarket, winner-IsMarket,
}
use mazadak_backend.Bids.Repositories.{is_active_auction, new_bid, create_bid, update_bid_status}
use mazadak_backend.Bids.Placing.{hold_bid, release_winner, record_winner}

-- The wallets hold what is due, and the market is in order.
abbrev pub IsTrading : Driver → Database → Type 0
IsTrading d s = IsBacked d s × IsMarket s.bids s.auctions

-- The same within a call on an ACTIVE auction, but for what is missing.
pub record Open (d : Driver) (missing : ℕ → ℤ) (a : Auction) (ws : List Wallet)
    (rs : List WithdrawalRequest) (bs : List Bid) (l : List Auction) (g : ℕ) : Type 0 where
  pub owes : Owes d missing ws rs bs l g
  pub market : IsMarket bs l
  pub stored : Memᴰ a l
  pub active : is_active_auction a.status ≡ true

abbrev pub OpenAt : Driver → (ℕ → ℤ) → Auction → Database → Type 0
OpenAt d missing a s = Open d missing a s.wallets s.withdrawals s.bids s.auctions s.generated

-- The auction's winning bid, if there is one.
abbrev pub IsWinner : Auction → List Bid → Option Bid → Type 0
IsWinner a bs none = IsVacant a.id bs
IsWinner a bs (some b) = Memᴰ b bs × (wins b ≡ true) × (b.auction_id ≡ a.id)

-- What a call returns with is in order; one that throws is aborted.
abbrev pub Trades : {A : Type 0} → Driver → Result A × Database → Type 0
Trades d (ok _, t) = IsTrading d t
Trades d (err _, t) = Unit

abbrev Kept : {A : Type 0} → Driver → (ℕ → ℤ) → Auction → List Bid → Result A × Database → Type 0
Kept d missing a bs (ok _, t) = OpenAt d missing a t × (t.bids ≡ bs)
Kept d missing a bs (err _, t) = Unit

abbrev Freed : {A : Type 0} → Driver → (ℕ → ℤ) → Auction → Result A × Database → Type 0
Freed d missing a (ok _, t) = OpenAt d missing a t × IsVacant a.id t.bids
Freed d missing a (err _, t) = Unit

module _ (d : Driver) (missing : ℕ → ℤ) (a : Auction) (s : Database)
    (h : OpenAt d missing a s) where
  open d use {insert, insert_law}

  pub Moved-OpenAt :
      {user : ℕ} {db dh : ℤ} {t : Database} (missing' : ℕ → ℤ)
      → Moved user db dh s t
      → ((u : ℕ) → missing' u +ℤ owned u user dh ≡ missing u)
      → OpenAt d missing' a t
  Moved-OpenAt {t = t} missing' m e = record {
    owes = Moved-Owes missing' h.owes m e;
    market =
        subst (λ l. IsMarket t.bids l) (sym m.rest.auctions)
          (subst (λ bs. IsMarket bs s.auctions) (sym m.rest.bids) h.market);
    stored = subst (Memᴰ a) (sym m.rest.auctions) h.stored;
    active = h.active;
  }

  pub hold_step :
      {A : Type 0} (user : ℕ) (amount : ℤ) (k : Action A)
      → ((t : Database)
          → OpenAt d (λ u. missing u -ℤ owned u user amount) a t
          → t.bids ≡ s.bids
          → Trades d (k t))
      → Trades d ((hold_bid d a.id user amount >> k) s)
  hold_step user amount k rest =
      bind_rule (Kept d missing' a s.bids) (Trades d) (hold_bid d a.id user amount) (λ _. k) s
        (bind_rule (Moves user (pos 0) amount s) (Kept d missing' a s.bids)
          (hold d user amount (some (object a.id)) (some TransactionReferenceType.auction))
          (λ _. pure tt) s
          (hold-Moves d user amount (some (object a.id)) (some TransactionReferenceType.auction) s
            (Owes-IsKeyed s h.owes))
          (λ _ t m. (Moved-OpenAt missing' m (λ u. omega int_laws), m.rest.bids)) (λ _ _ _. tt))
        (λ _ t (o, e). rest t o e) (λ _ _ _. tt)
    where
      missing' : ℕ → ℤ
      missing' u = missing u -ℤ owned u user amount

  -- A bid that has not won is recorded.
  pub lose_step :
      {A : Type 0} (user : ℕ) (amount : ℤ) (winner : Option Bid) (k : Bid → Action A)
      → IsWinner a s.bids winner
      → ((b : Bid) (t : Database)
          → OpenAt d missing a t
          → IsWinner a t.bids winner
          → Trades d (k b t))
      → Trades d ((create_bid d a.id user amount outbid >>= k) s)
  lose_step user amount winner k w rest =
      rest b t
        (record {
          owes =
              same_missing (added_bid h.owes {b = b} added refl) missing
                (λ u. owned_zero (missing u) u user);
          market = loser-IsMarket h.market added refl;
          stored = h.stored;
          active = h.active;
        })
        (still winner w)
    where
      b : Bid
      b = new_bid a.id user amount outbid (d.object_id s.generated)

      t : Database
      t = record s { bids = insert b s.bids; generated = suc s.generated }

      added : Inserted b s.bids t.bids
      added = insert_law b s.bids

      still : (o : Option Bid) → IsWinner a s.bids o → IsWinner a t.bids o
      still none v = λ c m t e. elim (Inserted-Memᴰ added m) [
        | inl q ↦ apart (sym t ∙ ap wins q)
        | inr n ↦ v c n t e
      ]
      still (some c) (m, t, e) = (Inserted-Memᴰ_kept added m, t, e)

  -- The previous winner is released, and the auction has none.
  pub release_step :
      {A : Type 0} (winner : Option Bid) (k : Option ℕ → Action A)
      → IsWinner a s.bids winner
      → ((entry : Option ℕ) (t : Database)
          → OpenAt d missing a t
          → IsVacant a.id t.bids
          → Trades d (k entry t))
      → Trades d ((release_winner d a.id winner >>= k) s)
  unfolding release_winner
  release_step none k w rest = rest none s h w
  release_step (some b) k (m, won, at) rest =
      bind_rule (Freed d missing a) (Trades d) (freeing >>= marked) k s
        (bind_rule (Moves b.bidder_id (pos 0) (pos 0 -ℤ b.amount) s) (Freed d missing a) freeing
          marked s
          (release-Moves d b.bidder_id b.amount (some (object a.id))
            (some TransactionReferenceType.auction) s (Owes-IsKeyed s h.owes))
          (λ x t moved.
            outbid_step x t
              (Moved-OpenAt (λ u. missing u +ℤ owned u b.bidder_id b.amount) moved
                (λ u. sym (owned_back (missing u) u b.bidder_id b.amount)))
              (subst (Memᴰ b) (sym moved.rest.bids) m))
          (λ _ _ _. tt))
        (λ entry t (o, v). rest entry t o v) (λ _ _ _. tt)
    where
      freeing : Action Movement
      freeing =
          release d b.bidder_id b.amount (some (object a.id))
            (some TransactionReferenceType.auction)

      marked : Movement → Action (Option ℕ)
      marked x = update_bid_status d b.id outbid >> pure (some x.1.id)

      unstaked :
          (t : Database)
          → OpenAt d (λ u. missing u +ℤ owned u b.bidder_id b.amount) a t
          → pos 0 ≡ stake t.auctions b +ℤ (pos 0 -ℤ b.amount)
      unstaked t o = rw (won, at, active_is_open o.market a o.stored o.active) (omega int_laws)

      outbid_step :
          (x : Movement) (t : Database)
          → OpenAt d (λ u. missing u +ℤ owned u b.bidder_id b.amount) a t
          → Memᴰ b t.bids
          → Freed d missing a (marked x t)
      outbid_step x t o stored =
          update_rule d (λ c. c.id) (λ c. record c { status = outbid }) b b.id t.bids
            (λ y. Freed d missing a (ok (some x.1.id), record t { bids = y.1 })) o.owes.bids.unique
            stored refl
            (λ _ bs r. (
              record {
                owes =
                    same_missing (changed_bid o.owes (pos 0 -ℤ b.amount) r refl refl (unstaked t o))
                      missing (λ u. owned_back (missing u) u b.bidder_id b.amount);
                market = outbid-IsMarket o.market r o.owes.bids.unique won;
                stored = o.stored;
                active = o.active;
              },
              subst (λ i. IsVacant i bs) at (outbid-IsVacant o.market r o.owes.bids.unique won),
            ))

  -- The new winner's bid and the price.
  pub win_step :
      {A : Type 0} (bidder : ℕ) (amount : ℤ) (k : Bid → Action A)
      → IsVacant a.id s.bids
      → ((u : ℕ) → missing u +ℤ owned u bidder amount ≡ pos 0)
      → ((b : Bid) (t : Database) → IsTrading d t → Trades d (k b t))
      → Trades d ((record_winner d a.id bidder amount >>= k) s)
  win_step bidder amount k vacant paid rest =
      update_rule d (λ x. x.id) (λ x. record x { current_price = amount }) a a.id s.auctions
        (λ y.
          Trades d (
            k b (record s { auctions = y.1; bids = insert b s.bids; generated = suc s.generated })))
        h.market.auctions h.stored refl
        (λ _ l r.
          rest b (record s { auctions = l; bids = insert b s.bids; generated = suc s.generated })
            (
              same_stakes l
                  (λ u.
                    nothing_closed u (insert b s.bids) s.auctions l
                      (λ i. closed_same i r refl refl))
                  (same_missing (added_bid h.owes {b = b} (insert_law b s.bids) refl) nothing
                    (λ u. rw (active_is_open h.market a h.stored h.active) (sym (paid u)))),
              winner-IsMarket h.market {b = b} (insert_law b s.bids) r refl h.active vacant,
            ))
    where
      b : Bid
      b = new_bid a.id bidder amount winning (d.object_id s.generated)
