-- ===== src/Wallet/Totals.antt =====
-- Sums over the wallets, and what a movement does to them.
use mazadak_backend.Base.{
  ℕ, ℤ, pos, ◌≡◌, sym, subst, ◌+ℤ◌, ◌-ℤ◌, ◌==◌, All, All-Replaced, All-Memᴰ, Unique, map-Replaced,
  sum_of, sum_of-Replaced, Replaced-Memᴰ, int_laws, Bool-cases, inl, inr, if◌then◌else◌,
}
use mazadak_backend.Database.{Database}
use mazadak_backend.Wallet.Effect.{IsSolvent, IsKeyed, Moved}

-- An amount that counts only for one user.
abbrev pub owned : ℕ → ℕ → ℤ → ℤ
owned u owner amount = if owner == u then amount else pos 0

abbrev pub balance_of : ℕ → Database → ℤ
balance_of u s = sum_of (λ w. owned u w.user_id w.balance) s.wallets

abbrev pub held_of : ℕ → Database → ℤ
held_of u s = sum_of (λ w. owned u w.user_id w.held_balance) s.wallets

-- `sumAllBalances`
abbrev pub total_balance : Database → ℤ
total_balance s = sum_of (λ w. w.balance) s.wallets

abbrev pub AllSolvent : Database → Type 0
AllSolvent s = All IsSolvent s.wallets

shift : (a b c x y : ℤ) → a +ℤ x ≡ b +ℤ y → y ≡ x +ℤ c → a ≡ b +ℤ c
shift a b c x y h k = grind int_laws

owned_shift :
    (u o o' : ℕ) (x y c : ℤ) → o' ≡ o → y ≡ x +ℤ c → owned u o' y ≡ owned u o x +ℤ owned u o c
owned_shift u o o' x y c e h = elim (Bool-cases (o == u)) [
  | inl t ↦ rw (e, t) h
  | inr t ↦ rw (e, t) (omega int_laws)
]

-- Nothing is added for nothing, and what is added and taken away is gone.
pub owned_zero : (x : ℤ) (u o : ℕ) → x ≡ x +ℤ owned u o (pos 0)
owned_zero x u o = elim (Bool-cases (o == u)) [
  | inl t ↦ rw t (omega int_laws)
  | inr t ↦ rw t (omega int_laws)
]

pub owned_back : (x : ℤ) (u o : ℕ) (c : ℤ) → x ≡ x +ℤ owned u o c +ℤ owned u o (pos 0 -ℤ c)
owned_back x u o c = elim (Bool-cases (o == u)) [
  | inl t ↦ rw t (omega int_laws)
  | inr t ↦ rw t (omega int_laws)
]

module _ (user : ℕ) (db dh : ℤ) (s t : Database) (m : Moved user db dh s t) where
  pub Moved-balance_of : (u : ℕ) → balance_of u t ≡ balance_of u s +ℤ owned u user db
  Moved-balance_of u =
      subst (λ o. balance_of u t ≡ balance_of u s +ℤ owned u o db) m.owner
        (shift _ _ _ _ _ (sum_of-Replaced (λ w. owned u w.user_id w.balance) m.replaced) (
          owned_shift u m.before.user_id m.after.user_id m.before.balance m.after.balance db
            m.same_owner m.balance))

  pub Moved-held_of : (u : ℕ) → held_of u t ≡ held_of u s +ℤ owned u user dh
  Moved-held_of u =
      subst (λ o. held_of u t ≡ held_of u s +ℤ owned u o dh) m.owner
        (shift _ _ _ _ _ (sum_of-Replaced (λ w. owned u w.user_id w.held_balance) m.replaced) (
          owned_shift u m.before.user_id m.after.user_id m.before.held_balance m.after.held_balance
            dh m.same_owner m.held))

  pub Moved-total_balance : total_balance t ≡ total_balance s +ℤ db
  Moved-total_balance = shift _ _ _ _ _ (sum_of-Replaced (λ w. w.balance) m.replaced) m.balance

  pub Moved-AllSolvent : AllSolvent s → AllSolvent t
  Moved-AllSolvent h =
      All-Replaced IsSolvent m.replaced h
        (m.solvent (All-Memᴰ IsSolvent m.before s.wallets h (Replaced-Memᴰ m.replaced)))

  pub Moved-IsKeyed : IsKeyed s → IsKeyed t
  Moved-IsKeyed k = record {
    ids = subst Unique (sym (map-Replaced (λ w. w.id) m.replaced m.same_id)) k.ids;
    owners = subst Unique (sym (map-Replaced (λ w. w.user_id) m.replaced m.same_owner)) k.owners;
  }
