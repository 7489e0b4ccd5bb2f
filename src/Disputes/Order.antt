-- ===== src/Disputes/Order.antt =====
-- The invariant of wallets, escrows and disputes together, and the calls that check before they
-- write.
use mazadak_backend.Base.{
  ℕ, ◌≡◌, refl, ◌<◌, ◌≤◌, Bool, true, false, not, ◌||◌, ◌==◌, ==→eq, List, map, All, All-imp,
  Unique, arith, ltb,
}
use mathlib.Core.List.{Memᴰ}
use mazadak_backend.Store.{Driver}
use mazadak_backend.Store.Keyed.{find_rule, find_key_rule}
use mazadak_backend.Database.{
  Wallet, Escrow, EscrowStatus, held, released, refunded, disputed, Dispute, Database, Error,
  Result, err, Action, or_throw, ◌>>=◌, ◌>>◌, throw_if, throw_if_rule,
}
use mazadak_backend.Wallet.Effect.{IsSolvent}
use mazadak_backend.Escrow.{is_held, is_released, is_disputed}
use mazadak_backend.Escrow.Custody.{IsSound, funds}
use mazadak_backend.Escrow.Release.{Guarded}
use mazadak_backend.Disputes.{can_open, get_dispute, find_dispute}
use mazadak_backend.Disputes.Links.{Links, Keys}

-- The identifier has been given out.
abbrev pub IsGiven : Driver → ℕ → ℕ → Type 0
IsGiven d g i = (n : ℕ) × (n < g) × (i ≡ d.object_id n)

pub record Tidy (d : Driver) (ws : List Wallet) (es : List Escrow) (cs : List Dispute) (g : ℕ)
    : Type 0 where
  pub wallets : Unique (map (λ w. w.id) ws)
  pub owners : Unique (map (λ w. w.user_id) ws)
  pub solvent : All IsSolvent ws
  pub keys : Keys cs es
  pub given : All (λ c. IsGiven d g c.id) cs
  pub links : Links cs es

-- Keys are unique, wallets solvent, and the escrow of an active dispute is DISPUTED under it alone.
abbrev pub IsOrderly : Driver → Database → Type 0
IsOrderly d s = Tidy d s.wallets s.escrows s.disputes s.generated

pub Tidy-IsSound : (d : Driver) (s : Database) → IsOrderly d s → IsSound s
Tidy-IsSound d s h = record {
  keyed = record { ids = h.wallets; owners = h.owners };
  solvent = h.solvent;
  escrows = h.keys.escrows;
}

pub later_given :
    (d : Driver) (g g' : ℕ) (cs : List Dispute)
    → g ≤ g'
    → All (λ c. IsGiven d g c.id) cs
    → All (λ c. IsGiven d g' c.id) cs
later_given d g g' cs h =
    All-imp (λ c. IsGiven d g c.id) (λ c. IsGiven d g' c.id) (λ c q. (q.0, below q.1, q.2)) cs
  where
    below : {n : ℕ} → n < g → n < g'
    below m = omega arith

-- The database afterwards is orderly, and users' money in wallets and escrow is what it was.
abbrev pub Preserves : {A : Type 0} → Driver → Database → Result A × Database → Type 0
Preserves d s x = IsOrderly d x.1 × (funds x.1 ≡ funds s)

module _ (d : Driver) (s : Database) where
  pub got_dispute {κ} :
      {A : Type 0} (i : ℕ) (P : Result A × Database → Type κ) (k : Dispute → Action A)
      → ((c : Dispute) → Memᴰ c s.disputes → c.id ≡ i → P (k c s))
      → P (err Error.dispute_not_found, s)
      → P ((get_dispute d i >>= k) s)
  unfolding get_dispute find_dispute
  got_dispute i P k good bad =
      find_rule d (λ c. c.id == i) s.disputes
        (λ o. P ((or_throw o Error.dispute_not_found >>= k) s)) (λ c t m. good c m (==→eq c.id i t))
        bad

  pub got_this_dispute {κ} :
      {A : Type 0} (c : Dispute) (P : Result A × Database → Type κ) (k : Dispute → Action A)
      → Unique (map (λ x. x.id) s.disputes)
      → Memᴰ c s.disputes
      → P (k c s)
      → P ((get_dispute d c.id >>= k) s)
  unfolding get_dispute find_dispute
  got_this_dispute c P k unique stored good =
      find_key_rule d (λ x. x.id) c s.disputes
        (λ o. P ((or_throw o Error.dispute_not_found >>= k) s)) unique stored good

  last_guard : (C : Type 0) (b : Bool) (e : Error) → C → Guarded C s (throw_if b e s)
  last_guard C true e c = refl
  last_guard C false e c = (c, refl)

  status_guards :
      (st : EscrowStatus) (late : Bool)
      → Guarded (st ≡ held) s (
          (throw_if (is_released st) Error.escrow_already_released
              >> (throw_if (is_disputed st) Error.escrow_already_disputed
                  >> (throw_if (not (is_held st)) Error.invalid_dispute_action
                      >> throw_if late Error.dispute_window_expired)))
            s)
  status_guards held late = last_guard (held ≡ held) late Error.dispute_window_expired refl
  status_guards released late = refl
  status_guards refunded late = refl
  status_guards disputed late = refl

  pub can_open-Guarded :
      (user now : ℕ) (e : Escrow) → Guarded (e.status ≡ held) s (can_open user now e s)
  can_open-Guarded user now e =
      throw_if_rule (not (e.buyer_id == user || e.seller_id == user)) Error.escrow_unauthorized s
        (Guarded (e.status ≡ held) s)
        (throw_if (is_released e.status) Error.escrow_already_released
          >> (throw_if (is_disputed e.status) Error.escrow_already_disputed
              >> (throw_if (not (is_held e.status)) Error.invalid_dispute_action
                  >> throw_if (ltb e.inspection_period_ends_at now) Error.dispute_window_expired)))
        (λ _. status_guards e.status (ltb e.inspection_period_ends_at now)) refl
