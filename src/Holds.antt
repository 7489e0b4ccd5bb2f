-- ===== src/Holds.antt =====
-- What the wallets hold and for what: the open withdrawals and the winning bids of the auctions that
-- are neither cancelled nor finalized.
pub mod Changes
pub mod Market
pub mod Closing
use mazadak_backend.Base.{
  ℕ, ℤ, pos, ◌+ℤ◌, ◌-ℤ◌, ◌≡◌, refl, sym, ap, ◌∙◌, subst, Bool, true, false, not, ◌&&◌, ◌||◌, List,
  [], ◌∷◌, ◌==◌, map, All, All-Memᴰ, All-Replaced, All-Inserted, All-imp, All-map_imp, Unique,
  Unique-Inserted, map-Inserted, ◌≢◌, Replaced, Inserted, map-Replaced, sum_of, sum_of-Replaced,
  sum_of-Inserted, int_laws, arith, ◌<◌, ◌≤◌, suc, if◌then◌else◌, Bool-cases, inl, inr,
}
use mathlib.Core.List.{Memᴰ}
use mazadak_backend.Store.{Driver}
use mazadak_backend.Database.{Wallet, WithdrawalRequest, Bid, Auction, AuctionStatus, Database}
use mazadak_backend.Bids.Repositories.{is_winning}
use mazadak_backend.Wallet.Effect.{IsSolvent, IsKeyed, Moved}
use mazadak_backend.Wallet.Totals.{
  owned, held_of, AllSolvent, Moved-held_of, Moved-IsKeyed, Moved-AllSolvent,
}
use mazadak_backend.Withdrawals.{obligation}

abbrev pub obligation_of : ℕ → List WithdrawalRequest → ℤ
obligation_of u rs = sum_of (λ r. owned u r.user_id (obligation r)) rs

abbrev pub is_cancelled : AuctionStatus → Bool
is_cancelled AuctionStatus.cancelled = true
is_cancelled _ = false

abbrev pub is_shut : Auction → Bool
is_shut a = is_cancelled a.status || a.is_finalized

-- The auction with the identifier is cancelled or finalized.
abbrev pub is_closed : ℕ → List Auction → Bool
is_closed i [] = false
is_closed i (a ∷ l) = (a.id == i && is_shut a) || is_closed i l

-- What a bid holds.
abbrev pub stake : List Auction → Bid → ℤ
stake l b = if is_winning b.status && not (is_closed b.auction_id l) then b.amount else pos 0

abbrev pub stake_of : ℕ → List Auction → List Bid → ℤ
stake_of u l bs = sum_of (λ b. owned u b.bidder_id (stake l b)) bs

-- The identifier has been given out.
abbrev pub IsGiven : Driver → ℕ → ℕ → Type 0
IsGiven d g i = (n : ℕ) × (n < g) × (i ≡ d.object_id n)

-- A collection's identifiers are unique and were given out.
pub record IsRegistered (d : Driver) (g : ℕ) (is : List ℕ) : Type 0 where
  pub unique : Unique is
  pub given : All (IsGiven d g) is

-- The wallets hold what is due for withdrawals and bids, but for what is missing.
pub record Owes (d : Driver) (missing : ℕ → ℤ) (ws : List Wallet) (rs : List WithdrawalRequest)
    (bs : List Bid) (l : List Auction) (g : ℕ) : Type 0 where
  pub wallets : Unique (map (λ w. w.id) ws)
  pub owners : Unique (map (λ w. w.user_id) ws)
  pub solvent : All IsSolvent ws
  pub requests : IsRegistered d g (map (λ r. r.id) rs)
  pub bids : IsRegistered d g (map (λ b. b.id) bs)
  pub held :
      (u : ℕ)
      → sum_of (λ w. owned u w.user_id w.held_balance) ws +ℤ missing u
        ≡ obligation_of u rs +ℤ stake_of u l bs

abbrev pub OwesAt : Driver → (ℕ → ℤ) → Database → Type 0
OwesAt d missing s = Owes d missing s.wallets s.withdrawals s.bids s.auctions s.generated

abbrev pub nothing : ℕ → ℤ
nothing u = pos 0

-- Keys are unique, wallets solvent, and every user has exactly held what is due for the open
-- withdrawals and the winning bids.
abbrev pub IsBacked : Driver → Database → Type 0
IsBacked d s = OwesAt d nothing s

-- The same, with no auction or bid changed.
abbrev pub StillBacked : Driver → Database → Database → Type 0
StillBacked d s t = IsBacked d t × (t.bids ≡ s.bids) × (t.auctions ≡ s.auctions)

pub Owes-IsKeyed : {d : Driver} {missing : ℕ → ℤ} (s : Database) → OwesAt d missing s → IsKeyed s
Owes-IsKeyed s h = record { ids = h.wallets; owners = h.owners }

later_IsGiven : (d : Driver) (g g' : ℕ) (i : ℕ) → g ≤ g' → IsGiven d g i → IsGiven d g' i
later_IsGiven d g g' i h (n, below, e) = (n, omega arith, e)

pub later_IsRegistered :
    {d : Driver} {g : ℕ} (g' : ℕ) (is : List ℕ)
    → g ≤ g'
    → IsRegistered d g is
    → IsRegistered d g' is
later_IsRegistered {d} {g} g' is h r = record {
  unique = r.unique;
  given = All-imp (IsGiven d g) (IsGiven d g') (λ i. later_IsGiven d g g' i h) is r.given;
}

pub new_IsRegistered :
    {d : Driver} {g : ℕ} {is is' : List ℕ}
    → Inserted (d.object_id g) is is'
    → IsRegistered d g is
    → IsRegistered d (suc g) is'
new_IsRegistered {d} {g} {is} {is'} n r = record {
  unique =
      Unique-Inserted n (All-imp (IsGiven d g) (λ i. i ≢ d.object_id g) fresh is r.given) r.unique;
  given =
      All-Inserted (IsGiven d (suc g)) n (later_IsRegistered (suc g) is (omega arith) r).given
        (g, omega arith, refl);
}
  where
    fresh : (i : ℕ) → IsGiven d g i → i ≢ d.object_id g
    fresh i (n, below, e) q = differ below (d.object_id_injective n g (sym e ∙ q))
      where
        differ : {n : ℕ} → n < g → n ≡ g → ⊥
        differ below p = omega arith

module _ {d : Driver} {missing : ℕ → ℤ} where
  -- A movement of one wallet.
  pub Moved-Owes :
      {user : ℕ} {db dh : ℤ} {s t : Database} (missing' : ℕ → ℤ)
      → OwesAt d missing s
      → Moved user db dh s t
      → ((u : ℕ) → missing' u +ℤ owned u user dh ≡ missing u)
      → OwesAt d missing' t
  Moved-Owes {user} {db} {dh} {s} {t} missing' h m e =
      let k = Moved-IsKeyed user db dh s t m (Owes-IsKeyed s h) in
      subst (λ rs. Owes d missing' t.wallets rs t.bids t.auctions t.generated)
        (sym m.rest.withdrawals)
        (subst (λ bs. Owes d missing' t.wallets s.withdrawals bs t.auctions t.generated)
          (sym m.rest.bids)
          (subst (λ l. Owes d missing' t.wallets s.withdrawals s.bids l t.generated)
            (sym m.rest.auctions)
            (record {
              wallets = k.ids;
              owners = k.owners;
              solvent = Moved-AllSolvent user db dh s t m h.solvent;
              requests = later_IsRegistered t.generated _ m.rest.later h.requests;
              bids = later_IsRegistered t.generated _ m.rest.later h.bids;
              held = λ u.
                  shifted (held_of u t) (held_of u s) (owned u user dh) (missing' u) (missing u)
                    (obligation_of u s.withdrawals +ℤ stake_of u s.auctions s.bids)
                    (Moved-held_of user db dh s t m u) (e u) (h.held u);
            })))
    where
      shifted : (x y c m' m z : ℤ) → x ≡ y +ℤ c → m' +ℤ c ≡ m → y +ℤ m ≡ z → x +ℤ m' ≡ z
      shifted x y c m' m z p q r = grind int_laws
