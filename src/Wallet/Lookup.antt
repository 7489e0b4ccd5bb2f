-- ===== src/Wallet/Lookup.antt =====
-- Reading a user's wallet.
use mazadak_backend.Base.{ℕ, ◌≡◌, ==→eq, ◌==◌}
use mathlib.Core.List.{Memᴰ}
use mazadak_backend.Store.{Driver}
use mazadak_backend.Store.Keyed.{find_rule}
use mazadak_backend.Database.{Wallet, Database, Error, Result, err, Action, or_throw, ◌>>=◌}
use mazadak_backend.Wallet.{get_wallet_or_throw, find_by_user_id}

pub got_wallet_rule {κ} :
    (d : Driver) {A : Type 0} (user : ℕ) (k : Wallet → Action A) (s : Database)
    (P : Result A × Database → Type κ)
    → ((w : Wallet) → Memᴰ w s.wallets → w.user_id ≡ user → P (k w s))
    → P (err Error.wallet_not_found, s)
    → P ((get_wallet_or_throw d user >>= k) s)
unfolding get_wallet_or_throw find_by_user_id
got_wallet_rule d user k s P good bad =
    find_rule d (λ w. w.user_id == user) s.wallets
      (λ o. P ((or_throw o Error.wallet_not_found >>= k) s))
      (λ w t m. good w m (==→eq w.user_id user t)) bad
