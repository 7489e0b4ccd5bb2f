-- ===== src/Escrow/Status.antt =====
-- The repository's reader by auction and its change of a status, as rules for the other services.
use mazadak_backend.Base.{ℕ, ◌≡◌, Option, List, ◌==◌, Replaced}
use mathlib.Core.List.{Memᴰ}
use mazadak_backend.Store.{Driver}
use mazadak_backend.Store.Keyed.{find_rule, update_rule}
use mazadak_backend.Database.{
  Escrow, EscrowStatus, Database, Error, Result, ok, err, Action, or_throw, ◌>>=◌,
}
use mazadak_backend.Escrow.{EscrowExtra, with_status, update_status, find_by_auction_id}
use mazadak_backend.Escrow.Custody.{UniqueEscrows}

module _ (d : Driver) (s : Database) where
  pub status_rule {κ} :
      (e : Escrow) (i : ℕ) (status : EscrowStatus) (x : EscrowExtra)
      (P : Result (Option Escrow) × Database → Type κ)
      → UniqueEscrows s
      → Memᴰ e s.escrows
      → e.id ≡ i
      → ((o : Option Escrow) (es : List Escrow)
          → Replaced e (with_status status x e) s.escrows es
          → P (ok o, record s { escrows = es }))
      → P (update_status d i status x s)
  unfolding update_status
  status_rule e i status x P unique stored mine good =
      update_rule d (λ a. a.id) (with_status status x) e i s.escrows
        (λ y. P (ok y.0, record s { escrows = y.1 })) unique stored mine good

  pub by_auction_rule {κ} :
      {A : Type 0} (i : ℕ) (P : Result A × Database → Type κ) (k : Escrow → Action A)
      → ((e : Escrow) → Memᴰ e s.escrows → P (k e s))
      → P (err Error.escrow_not_found, s)
      → P (((find_by_auction_id d i >>= λ o. or_throw o Error.escrow_not_found) >>= k) s)
  unfolding find_by_auction_id
  by_auction_rule i P k good bad =
      find_rule d (λ e. e.auction_id == i) s.escrows
        (λ o. P ((or_throw o Error.escrow_not_found >>= k) s)) (λ e _ m. good e m) bad
