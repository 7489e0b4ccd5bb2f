-- ===== src/Disputes/Progress.antt =====
-- When `resolveDispute` goes through.
use Prim.Native.String.{String, ◌++◌}
use mazadak_backend.Base.{
  ℕ, pos, ◌<ℤ◌, ◌≡◌, ◌∙◌, refl, sym, ap, subst, true, not, Option, some, inr, Unique-eq, or_else,
}
use mathlib.Core.List.{Memᴰ}
use mazadak_backend.Store.{Driver}
use mazadak_backend.Database.{
  Wallet, Escrow, disputed, Dispute, DisputeResolution, refund_buyer, pay_seller,
  TransactionReferenceType, object, Database, Event, Error, ok, err, Action, pure, ◌>>=◌, ◌>>◌,
  throw_if, bind_ok, in_session, save_event,
}
use mazadak_backend.Wallet.Success.{Owns}
use mazadak_backend.Escrow.{release_escrow, refund_escrow}
use mazadak_backend.Escrow.Progress.{Returns, release_escrow-Returns, refund_escrow-Returns}
use mazadak_backend.Disputes.{
  update_dispute, pay_resolution, resolution_status, settle_dispute, resolve_dispute, is_active,
}
use mazadak_backend.Disputes.Order.{IsOrderly, Tidy-IsSound, got_this_dispute}
use mazadak_backend.Disputes.Outcome.{payee_of, decided}

in_session-Returns :
    {A : Type 0} (m : Action A) (s : Database) → Returns (m s) → Returns (in_session m s)
in_session-Returns m s (a, t, p) =
    (a, t, λ i. ((p i).0, elim (p i).0 [ ok x ↦ (p i).1 | err x ↦ s ]))

module _ (d : Driver) (s : Database) (h : IsOrderly d s) (c : Dispute) (stored : Memᴰ c s.disputes)
    (active : is_active c.status ≡ true) (e : Escrow) (kept : Memᴰ e s.escrows)
    (mine : e.id ≡ c.escrow_id) (positive : pos 0 <ℤ e.amount) (w : Wallet) where
  is_under_dispute : e.status ≡ disputed
  is_under_dispute =
      let b = h.links.linked c (record { stored = stored; active = active }) in
      ap (λ (x : Escrow). x.status)
        (Unique-eq (λ x. x.id) e b.escrow s.escrows h.keys.escrows kept b.stored
          (mine ∙ sym b.same_id))
      ∙ b.status

  pay_resolution-Returns :
      (decision : DisputeResolution) (notes : Option String) (now : ℕ)
      → Owns s (payee_of decision e) w
      → Returns (pay_resolution d decision notes c now s)
  unfolding pay_resolution
  pay_resolution-Returns refund_buyer notes now owns =
      subst
        (λ i. Returns (
          refund_escrow d i ("ADMIN_RESOLVED_DISPUTE: " ++ (or_else notes "Refund Buyer"))
            TransactionReferenceType.dispute (some (object c.id)) now s))
        mine
        (refund_escrow-Returns d s (Tidy-IsSound d s h) e kept positive w
          ("ADMIN_RESOLVED_DISPUTE: " ++ (or_else notes "Refund Buyer"))
          TransactionReferenceType.dispute (some (object c.id)) now owns
          (inr (is_under_dispute, refl)))
  pay_resolution-Returns pay_seller notes now owns =
      subst
        (λ i. Returns (
          release_escrow d i ("ADMIN_RESOLVED_DISPUTE: " ++ (or_else notes "Pay Seller"))
            TransactionReferenceType.dispute (some (object c.id)) now s))
        mine
        (release_escrow-Returns d s (Tidy-IsSound d s h) e kept positive w
          ("ADMIN_RESOLVED_DISPUTE: " ++ (or_else notes "Pay Seller"))
          TransactionReferenceType.dispute (some (object c.id)) now owns
          (inr (is_under_dispute, refl)))

  module _ (admin : ℕ) (decision : DisputeResolution) (notes : Option String) (now : ℕ) where
    closing : Action (Option Dispute)
    closing =
        update_dispute d c.id (resolution_status decision) (decided admin decision notes now)
        >>= λ updated.
            save_event d (
              Event.dispute_resolved c.id c.escrow_id c.auction_id c.opened_by_id c.against_user_id
                admin decision notes)
            >> pure updated

    closed : (t : Database) → Returns (closing t)
    unfolding closing update_dispute
    closed t = (_, _, refl)

    settle_dispute-Returns :
        Owns s (payee_of decision e) w → Returns (settle_dispute d admin decision notes now c s)
    unfolding settle_dispute closing
    settle_dispute-Returns owns =
        let (o, t, p) = pay_resolution-Returns decision notes now owns in
        let (a, u, q) = closed t in
        (a, u, bind_ok (pay_resolution d decision notes c now) (λ _. closing) s o t p ∙ q)

    -- In an orderly database `resolveDispute` returns for an active dispute, if the amount of its
    -- escrow is positive and the party decided on has a wallet.
    pub resolve_dispute-Returns :
        Owns s (payee_of decision e) w → Returns (resolve_dispute d admin c.id decision notes now s)
    unfolding resolve_dispute
    resolve_dispute-Returns owns =
        got_this_dispute d s c Returns
          (λ x.
            throw_if (not (is_active x.status)) Error.dispute_already_resolved
            >> in_session (settle_dispute d admin decision notes now x))
          h.keys.disputes stored
          (subst
            (λ b. Returns (
              (throw_if (not b) Error.dispute_already_resolved
                  >> in_session (settle_dispute d admin decision notes now c))
                s))
            (sym active)
            (in_session-Returns (settle_dispute d admin decision notes now c) s
              (settle_dispute-Returns owns)))
