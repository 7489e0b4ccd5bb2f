-- ===== src/Disputes/Invariant.antt =====
-- The disputes service together with the escrow service's own payouts: the invariant over any
-- sequence of calls.
use Prim.Native.String.{String}
use mazadak_backend.Base.{
  not-false, ℕ, ◌≡◌, refl, sym, ap, subst, true, false, not, ◌==◌, Option, none, inl, inr,
}
use mathlib.Core.List.{Memᴰ}
use mazadak_backend.Store.{Driver}
use mazadak_backend.Database.{
  Escrow, EscrowStatus, held, released, Dispute, DisputeStatus, DisputeResolution,
  TransactionReferenceType, Database, Error, Result, ok, err, Action, ◌>>◌, throw_if, throw_if_rule,
  bind_rule, in_session, in_session_rule,
}
use mazadak_backend.Escrow.{release_escrow, confirm_delivery}
use mazadak_backend.Escrow.Custody.{funds, Settled-IsSound, Settled-funds}
use mazadak_backend.Escrow.Release.{
  Guarded, PaysOut, Payable, release_escrow-PaysOut, confirm_delivery-PaysOut,
}
use mazadak_backend.Escrow.Status.{by_auction_rule}
use mazadak_backend.Escrow.Conservation.{is_kept, amount_in_custody, nothing_in_custody}
use mazadak_backend.Disputes.{
  CreateDispute, no_dispute_extra, can_open, enter_dispute, open_dispute, cancel_dispute,
  withdraw_dispute, update_dispute, update_dispute_status, settle_dispute, resolve_dispute,
  is_active,
}
use mazadak_backend.Disputes.Links.{Links-held}
use mazadak_backend.Disputes.Order.{
  Tidy, IsOrderly, Tidy-IsSound, later_given, Preserves, got_dispute, can_open-Guarded,
}
use mazadak_backend.Disputes.Steps.{enter_dispute-Preserves}
use mazadak_backend.Disputes.Closing.{
  update_dispute-Preserves, withdraw_dispute-Preserves, settle_dispute-Preserves,
}

module _ (d : Driver) (s : Database) (h : IsOrderly d s) where
  in_session-Preserves :
      {A : Type 0} (m : Action A) → Preserves d s (m s) → Preserves d s (in_session m s)
  in_session-Preserves m p =
      in_session_rule (Preserves d s) (Preserves d s) m s p (λ _ _ q. q) (λ _. (h, refl))

  pub open_dispute-Preserves :
      (user : ℕ) (input : CreateDispute) (now : ℕ) → Preserves d s (open_dispute d user input now s)
  unfolding open_dispute
  open_dispute-Preserves user input now =
      by_auction_rule d s input.auction_id (Preserves d s)
        (λ e. can_open user now e >> in_session (enter_dispute d user input e))
        (λ e m.
          bind_rule (Guarded (e.status ≡ held) s) (Preserves d s) (can_open user now e)
            (λ _. in_session (enter_dispute d user input e)) s (can_open-Guarded d s user now e)
            (λ _ t (q, same).
              subst (λ u. Preserves d s (in_session (enter_dispute d user input e) u)) (sym same)
                (in_session-Preserves (enter_dispute d user input e)
                  (enter_dispute-Preserves d s h user input e m q)))
            (λ _ t same. subst (λ u. IsOrderly d u × (funds u ≡ funds s)) (sym same) (h, refl)))
        (h, refl)

  -- A dispute is read, found active, and written to.
  if_active :
      {A : Type 0} (i : ℕ) (k : Dispute → Action A)
      → ((c : Dispute)
          → Memᴰ c s.disputes
          → is_active c.status ≡ true
          → c.id ≡ i
          → Preserves d s (k c s))
      → (c : Dispute) → Memᴰ c s.disputes
      → c.id ≡ i
      → Preserves d s
          ((throw_if (not (is_active c.status)) Error.dispute_already_resolved >> k c) s)
  if_active i k good c m q =
      throw_if_rule (not (is_active c.status)) Error.dispute_already_resolved s (Preserves d s)
        (k c) (λ a. good c m (not-false (is_active c.status) a) q) (h, refl)

  pub cancel_dispute-Preserves : (user i : ℕ) → Preserves d s (cancel_dispute d user i s)
  unfolding cancel_dispute
  cancel_dispute-Preserves user i =
      got_dispute d s i (Preserves d s)
        (λ c.
          throw_if (not (c.opened_by_id == user)) Error.escrow_unauthorized
          >> (throw_if (not (is_active c.status)) Error.dispute_already_resolved
              >> in_session (withdraw_dispute d user c)))
        (λ c m q.
          throw_if_rule (not (c.opened_by_id == user)) Error.escrow_unauthorized s (Preserves d s)
            (throw_if (not (is_active c.status)) Error.dispute_already_resolved
              >> in_session (withdraw_dispute d user c))
            (λ _.
              if_active i (λ c. in_session (withdraw_dispute d user c))
                (λ c m a _.
                  in_session-Preserves (withdraw_dispute d user c)
                    (withdraw_dispute-Preserves d s h c m a user))
                c m q)
            (h, refl))
        (h, refl)

  pub update_dispute_status-Preserves :
      (i : ℕ) (status : DisputeStatus) → Preserves d s (update_dispute_status d i status s)
  unfolding update_dispute_status
  update_dispute_status-Preserves i status =
      got_dispute d s i (Preserves d s)
        (λ c.
          throw_if (not (is_active c.status)) Error.dispute_already_resolved
          >> update_dispute d c.id status no_dispute_extra)
        (if_active i (λ c. update_dispute d c.id status no_dispute_extra)
          (λ c m a _. update_dispute-Preserves d s h c m a status no_dispute_extra))
        (h, refl)

  pub resolve_dispute-Preserves :
      (admin i : ℕ) (decision : DisputeResolution) (notes : Option String) (now : ℕ)
      → Preserves d s (resolve_dispute d admin i decision notes now s)
  unfolding resolve_dispute
  resolve_dispute-Preserves admin i decision notes now =
      got_dispute d s i (Preserves d s)
        (λ c.
          throw_if (not (is_active c.status)) Error.dispute_already_resolved
          >> in_session (settle_dispute d admin decision notes now c))
        (if_active i (λ c. in_session (settle_dispute d admin decision notes now c))
          (λ c m a _.
            in_session-Preserves (settle_dispute d admin decision notes now c)
              (settle_dispute-Preserves d s h c m a admin decision notes now)))
        (h, refl)

  -- A payout of a HELD escrow touches no active dispute.
  PaysOut-Preserves :
      {A : Type 0} (Allowed : Escrow → Type 0) (payee : Escrow → ℕ) (final : EscrowStatus) (i : ℕ)
      → ((e : Escrow) → Allowed e → e.status ≡ held)
      → is_kept final ≡ false
      → (x : Result A × Database) → PaysOut Allowed payee final i s x
      → Preserves d s x
  PaysOut-Preserves Allowed payee final i from gone (ok _, t) (e, stored, same, allowed, set) =
      let v = Settled-IsSound e (payee e) final s t set (Tidy-IsSound d s h) in
      (
        subst (λ l. Tidy d t.wallets t.escrows l t.generated) (sym set.paid.rest.disputes)
            (record {
              wallets = v.keyed.ids;
              owners = v.keyed.owners;
              solvent = v.solvent;
              keys = record { disputes = h.keys.disputes; escrows = v.escrows };
              given = later_given d s.generated t.generated s.disputes set.paid.rest.later h.given;
              links = Links-held h.keys h.links set.replaced (from e allowed);
            }),
        Settled-funds e (payee e) final s t set (amount_in_custody e (ap is_kept (from e allowed)))
            (nothing_in_custody final gone),
      )
  PaysOut-Preserves Allowed payee final i from gone (err _, t) q =
      subst (λ u. IsOrderly d u × (funds u ≡ funds s)) (sym q) (h, refl)

  pub confirm_delivery-Preserves :
      (buyer i now : ℕ) → Preserves d s (confirm_delivery d buyer i now s)
  confirm_delivery-Preserves buyer i now =
      PaysOut-Preserves (λ e. (e.buyer_id ≡ buyer) × (e.status ≡ held)) (λ e. e.seller_id) released
        i (λ _ a. a.1) refl _ (confirm_delivery-PaysOut d s (Tidy-IsSound d s h) buyer i now)

  pub release_expired-Preserves :
      (i now : ℕ)
      → Preserves d s (
          in_session
            (release_escrow d i "EXPIRED_INSPECTION_WINDOW" TransactionReferenceType.escrow none
              now)
            s)
  release_expired-Preserves i now =
      in_session-Preserves
        (release_escrow d i "EXPIRED_INSPECTION_WINDOW" TransactionReferenceType.escrow none now)
        (PaysOut-Preserves (λ e. Payable TransactionReferenceType.escrow e.status)
          (λ e. e.seller_id) released i (λ e. was_held e.status) refl _
          (release_escrow-PaysOut d s (Tidy-IsSound d s h) i "EXPIRED_INSPECTION_WINDOW"
            TransactionReferenceType.escrow none now))
    where
      was_held : (st : EscrowStatus) → Payable TransactionReferenceType.escrow st → st ≡ held
      was_held st (inl q) = q
      was_held st (inr (_, q)) = absurd (apart q)
        where
          apart : false ≡ true → ⊥
          apart q = cc q
