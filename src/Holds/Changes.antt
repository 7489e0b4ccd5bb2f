-- ===== src/Holds/Changes.antt =====
-- What a new or changed document does to what is due.
use mazadak_backend.Base.{
  sum_of, ℕ, suc, ℤ, ◌+ℤ◌, ◌≡◌, sym, subst, List, map, Replaced, Inserted, map-Replaced,
  map-Inserted, sum_of-Replaced, sum_of-Inserted, int_laws, arith, Bool-cases, inl, inr, ◌==◌,
}
use mazadak_backend.Store.{Driver}
use mazadak_backend.Database.{Wallet, WithdrawalRequest, Bid, Auction}
use mazadak_backend.Wallet.Totals.{owned}
use mazadak_backend.Withdrawals.{obligation}
use mazadak_backend.Holds.{
  obligation_of, stake, stake_of, IsRegistered, later_IsRegistered, new_IsRegistered, Owes,
}

-- A document of the user's counts for another amount.
moved_on :
    (u o o' : ℕ) (x y c : ℤ) → o' ≡ o → y ≡ x +ℤ c → owned u o' y ≡ owned u o x +ℤ owned u o c
moved_on u o o' x y c e h = elim (Bool-cases (o == u)) [
  | inl t ↦ rw (e, t) h
  | inr t ↦ rw (e, t) (omega int_laws)
]

module _ {d : Driver} {missing : ℕ → ℤ} {ws : List Wallet} {l : List Auction} {g : ℕ} where
  module _ {rs : List WithdrawalRequest} {bs : List Bid} (h : Owes d missing ws rs bs l g) where
    pub changed_request :
        {r r' : WithdrawalRequest} {rs' : List WithdrawalRequest} (c : ℤ)
        → Replaced r r' rs rs'
        → r'.id ≡ r.id
        → r'.user_id ≡ r.user_id
        → obligation r' ≡ obligation r +ℤ c
        → Owes d (λ u. missing u +ℤ owned u r.user_id c) ws rs' bs l g
    changed_request {r} {r'} {rs'} c e same owner more = record {
      wallets = h.wallets;
      owners = h.owners;
      solvent = h.solvent;
      requests = subst (IsRegistered d g) (sym (map-Replaced (λ x. x.id) e same)) h.requests;
      bids = h.bids;
      held = λ u.
          raised _ (missing u) _ _ (stake_of u l bs) _ _ _ (h.held u)
            (sum_of-Replaced (λ x. owned u x.user_id (obligation x)) e)
            (moved_on u r.user_id r'.user_id (obligation r) (obligation r') c owner more);
    }
      where
        raised :
            (x m o o' z a b c : ℤ)
            → x +ℤ m ≡ o +ℤ z
            → o' +ℤ a ≡ o +ℤ b
            → b ≡ a +ℤ c
            → x +ℤ (m +ℤ c) ≡ o' +ℤ z
        raised x m o o' z a b c p q r = grind int_laws

    pub added_request :
        {r : WithdrawalRequest} {rs' : List WithdrawalRequest}
        → Inserted r rs rs'
        → r.id ≡ d.object_id g
        → Owes d (λ u. missing u +ℤ owned u r.user_id (obligation r)) ws rs' bs l (suc g)
    added_request {r} {rs'} e new = record {
      wallets = h.wallets;
      owners = h.owners;
      solvent = h.solvent;
      requests =
          new_IsRegistered
            (subst (λ i. Inserted i (map (λ x. x.id) rs) (map (λ x. x.id) rs')) new
              (map-Inserted (λ x. x.id) e))
            h.requests;
      bids = later_IsRegistered (suc g) _ (omega arith) h.bids;
      held = λ u.
          raised _ (missing u) _ _ (stake_of u l bs) _ (h.held u)
            (sum_of-Inserted (λ x. owned u x.user_id (obligation x)) e);
    }
      where
        raised : (x m o o' z c : ℤ) → x +ℤ m ≡ o +ℤ z → o' ≡ c +ℤ o → x +ℤ (m +ℤ c) ≡ o' +ℤ z
        raised x m o o' z c p q = grind int_laws

    pub changed_bid :
        {b b' : Bid} {bs' : List Bid} (c : ℤ)
        → Replaced b b' bs bs'
        → b'.id ≡ b.id
        → b'.bidder_id ≡ b.bidder_id
        → stake l b' ≡ stake l b +ℤ c
        → Owes d (λ u. missing u +ℤ owned u b.bidder_id c) ws rs bs' l g
    changed_bid {b} {b'} {bs'} c e same owner more = record {
      wallets = h.wallets;
      owners = h.owners;
      solvent = h.solvent;
      requests = h.requests;
      bids = subst (IsRegistered d g) (sym (map-Replaced (λ x. x.id) e same)) h.bids;
      held = λ u.
          raised _ (missing u) (obligation_of u rs) _ _ _ _ _ (h.held u)
            (sum_of-Replaced (λ x. owned u x.bidder_id (stake l x)) e)
            (moved_on u b.bidder_id b'.bidder_id (stake l b) (stake l b') c owner more);
    }
      where
        raised :
            (x m z o o' a b c : ℤ)
            → x +ℤ m ≡ z +ℤ o
            → o' +ℤ a ≡ o +ℤ b
            → b ≡ a +ℤ c
            → x +ℤ (m +ℤ c) ≡ z +ℤ o'
        raised x m z o o' a b c p q r = grind int_laws

    pub added_bid :
        {b : Bid} {bs' : List Bid}
        → Inserted b bs bs'
        → b.id ≡ d.object_id g
        → Owes d (λ u. missing u +ℤ owned u b.bidder_id (stake l b)) ws rs bs' l (suc g)
    added_bid {b} {bs'} e new = record {
      wallets = h.wallets;
      owners = h.owners;
      solvent = h.solvent;
      requests = later_IsRegistered (suc g) _ (omega arith) h.requests;
      bids =
          new_IsRegistered
            (subst (λ i. Inserted i (map (λ x. x.id) bs) (map (λ x. x.id) bs')) new
              (map-Inserted (λ x. x.id) e))
            h.bids;
      held = λ u.
          raised _ (missing u) (obligation_of u rs) _ _ _ (h.held u)
            (sum_of-Inserted (λ x. owned u x.bidder_id (stake l x)) e);
    }
      where
        raised : (x m z o o' c : ℤ) → x +ℤ m ≡ z +ℤ o → o' ≡ c +ℤ o → x +ℤ (m +ℤ c) ≡ z +ℤ o'
        raised x m z o o' c p q = grind int_laws

    -- The same debt, said otherwise.
    pub same_missing :
        (missing' : ℕ → ℤ) → ((u : ℕ) → missing' u ≡ missing u) → Owes d missing' ws rs bs l g
    same_missing missing' e = record {
      wallets = h.wallets;
      owners = h.owners;
      solvent = h.solvent;
      requests = h.requests;
      bids = h.bids;
      held = λ u.
          subst
            (λ x.
              sum_of (λ w. owned u w.user_id w.held_balance) ws +ℤ x
              ≡ obligation_of u rs +ℤ stake_of u l bs)
            (sym (e u)) (h.held u);
    }
