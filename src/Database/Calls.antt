-- ===== src/Database/Calls.antt =====
-- A service's call: it reads and writes the database and returns or throws. What was written
-- before an exception stays written, except in a session, which is aborted.
use mazadak_backend.Base.{ℕ, suc, ◌≡◌, refl, Bool, true, false, Option, none, some, if◌then◌else◌}
use mazadak_backend.Store.{Driver}
use mazadak_backend.Database.Documents.{Database, Event}

-- The exceptions of the modelled services.
pub data Error : Type 0 where
  invalid_amount wallet_not_found insufficient_funds : Error
  escrow_not_found escrow_unauthorized escrow_already_released escrow_already_refunded : Error
  escrow_already_disputed invalid_escrow_action : Error
  dispute_not_found dispute_already_resolved dispute_window_expired invalid_dispute_action : Error
  withdrawal_not_found withdrawal_not_cancellable withdrawal_below_minimum : Error
  daily_withdrawal_limit_reached payout_method_amount_exceeded withdrawal_not_pending : Error
  duplicate_key withdrawal_not_in_progress withdrawal_not_rejectable invalid_payout_details : Error
  auction_not_found auction_not_active bid_on_own_auction already_highest_bidder : Error
  bid_amount_too_low bidding_busy no_active_auto_bids : Error
  auto_bid_on_own_auction auto_bid_max_too_low auto_bid_duplicate_max : Error
  auto_bid_insufficient_balance auto_bid_not_found : Error
  auction_forbidden auction_invalid_state auction_not_pending reason_too_short : Error
  auction_start_time_too_soon auction_end_time_invalid : Error

pub data Result (A : Type 0) : Type 0 where
  ok : A → Result A
  err : Error → Result A

abbrev pub Action : Type 0 → Type 0
Action A = Database → Result A × Database

module _ {A : Type 0} where
  abbrev pub pure : A → Action A
  pure a s = (ok a, s)

  abbrev pub throw : Error → Action A
  throw e s = (err e, s)

  abbrev pub gets : (Database → A) → Action A
  gets f s = (ok (f s), s)

  abbrev pub or_throw : Option A → Error → Action A
  or_throw none e = throw e
  or_throw (some a) e = pure a

infixl 5 ◌>>=◌ ◌>>◌
abbrev pub ◌>>=◌ : {A B : Type 0} → Action A → (A → Action B) → Action B
◌>>=◌ m f s = let (r, t) = m s in elim r [ ok a ↦ f a t | err e ↦ throw e t ]

abbrev pub ◌>>◌ : {A B : Type 0} → Action A → Action B → Action B
m >> k = m >>= λ _. k

abbrev pub throw_if : Bool → Error → Action (Unit {0})
throw_if b e s = (if b then err e else ok tt, s)

abbrev pub modify : (Database → Database) → Action (Unit {0})
modify f s = (ok tt, f s)

-- A session with a transaction: committed at the end, aborted by an exception.
abbrev pub in_session : {A : Type 0} → Action A → Action A
in_session m s = let (r, t) = m s in (r, elim r [ ok a ↦ t | err e ↦ s ])

module _ (d : Driver) where
  open d use {insert, object_id}

  -- A new document's identifier.
  abbrev pub new_id : Action ℕ
  new_id s = (ok (object_id s.generated), record s { generated = suc s.generated })

  -- src/infrastructure/outbox/outbox.service.ts
  abbrev pub save_event : Event → Action (Unit {0})
  save_event e = modify (λ s. record s { outbox = insert e s.outbox })

-- The rule for a call followed by another: what holds of the first one's result carries over to the
-- whole, on the normal path and on the exceptional one.
pub bind_rule {κ η} :
    {A B : Type 0} (Q : Result A × Database → Type κ) (P : Result B × Database → Type η)
    (m : Action A) (f : A → Action B) (s : Database)
    → Q (m s)
    → ((a : A) (t : Database) → Q (ok a, t) → P (f a t))
    → ((e : Error) (t : Database) → Q (err e, t) → P (err e, t))
    → P ((m >>= f) s)
bind_rule {A} {B} Q P m f s q good bad = go (m s) q
  where
    go : (x : Result A × Database) → Q x → P (elim x.0 [ ok a ↦ f a x.1 | err e ↦ throw e x.1 ])
    go (ok a, t) h = good a t h
    go (err e, t) h = bad e t h

-- A session commits what a call that returns has done, and drops what one that throws has done.
pub in_session_rule {κ η} :
    {A : Type 0} (Q : Result A × Database → Type κ) (P : Result A × Database → Type η)
    (m : Action A) (s : Database)
    → Q (m s)
    → ((a : A) (t : Database) → Q (ok a, t) → P (ok a, t))
    → ((e : Error) → P (err e, s))
    → P (in_session m s)
in_session_rule {A} Q P m s q good bad = go (m s) q
  where
    go : (x : Result A × Database) → Q x → P (x.0, elim x.0 [ ok a ↦ x.1 | err e ↦ s ])
    go (ok a, t) h = good a t h
    go (err e, t) h = bad e

module _ {A B : Type 0} (m : Action A) (f : A → Action B) (s : Database) where
  pub bind_ok : (a : A) (t : Database) → m s ≡ (ok a, t) → (m >>= f) s ≡ f a t
  bind_ok a t e = λ i. elim (e i).0 [ ok x ↦ f x (e i).1 | err x ↦ throw x (e i).1 ]

  pub bind_err : (e : Error) (t : Database) → m s ≡ (err e, t) → (m >>= f) s ≡ (err e, t)
  bind_err e t h = λ i. elim (h i).0 [ ok x ↦ f x (h i).1 | err x ↦ throw x (h i).1 ]

-- A test that throws, before a call.
pub throw_if_rule {κ} :
    {A : Type 0} (b : Bool) (e : Error) (s : Database) (P : Result A × Database → Type κ)
    (k : Action A)
    → (b ≡ false → P (k s))
    → P (err e, s)
    → P ((throw_if b e >> k) s)
throw_if_rule true e s P k good bad = bad
throw_if_rule false e s P k good bad = good refl
