-- ===== src/Disputes/Outcome.antt =====
-- `resolveDispute` on every branch.
use Prim.Native.String.{String}
use mazadak_backend.Base.{
  not-false, ℕ, ◌≡◌, refl, sym, ap, ◌∙◌, true, not, Option, some, Replaced, Unique-eq,
}
use mathlib.Core.List.{Memᴰ}
use mazadak_backend.Store.{Driver}
use mazadak_backend.Database.{
  Escrow, EscrowStatus, released, refunded, disputed, Dispute, DisputeResolution, refund_buyer,
  pay_seller, TransactionReferenceType, object, Database, Event, Error, Result, ok, err, Action,
  pure, ◌>>=◌, ◌>>◌, throw_if, throw_if_rule, bind_rule, in_session, in_session_rule, save_event,
}
use mazadak_backend.Escrow.Custody.{Settled}
use mazadak_backend.Escrow.Release.{PaysOut, Payable, release_escrow-PaysOut, refund_escrow-PaysOut}
use mazadak_backend.Disputes.{
  DisputeExtra, with_dispute_status, update_dispute, pay_resolution, resolution_status,
  settle_dispute, resolve_dispute, is_active,
}
use mazadak_backend.Disputes.Order.{IsOrderly, Tidy-IsSound, got_dispute}
use mazadak_backend.Disputes.Steps.{dispute_rule}

-- Who gets the amount, and the escrow's last status.
abbrev pub payee_of : DisputeResolution → Escrow → ℕ
payee_of refund_buyer e = e.buyer_id
payee_of pay_seller e = e.seller_id

abbrev pub final_of : DisputeResolution → EscrowStatus
final_of refund_buyer = refunded
final_of pay_seller = released

abbrev pub decided : ℕ → DisputeResolution → Option String → ℕ → DisputeExtra
decided admin decision notes now = record {
  admin_id = some admin;
  admin_decision = some decision;
  admin_notes = notes;
  resolved_at = some now;
}

-- `middle` is the database after the payout.
pub record Resolved (i : ℕ) (decision : DisputeResolution) (x : DisputeExtra) (s t : Database)
    : Type 0 where
  pub dispute : Dispute
  pub stored : Memᴰ dispute s.disputes
  pub same_id : dispute.id ≡ i
  pub active : is_active dispute.status ≡ true
  pub escrow : Escrow
  pub mine : escrow.id ≡ dispute.escrow_id
  pub was_disputed : escrow.status ≡ disputed
  pub middle : Database
  pub settled : Settled escrow (payee_of decision escrow) (final_of decision) s middle
  pub wallets : t.wallets ≡ middle.wallets
  pub escrows : t.escrows ≡ middle.escrows
  pub closed :
      Replaced dispute
        (with_dispute_status (resolution_status decision) x dispute)
        s.disputes
        t.disputes

abbrev pub Resolves :
    {A : Type 0} → ℕ → DisputeResolution → DisputeExtra → Database → Result A × Database → Type 0
Resolves i decision x s (ok _, t) = Resolved i decision x s t
Resolves i decision x s (err _, t) = t ≡ s

module _ (d : Driver) (s : Database) (h : IsOrderly d s) where
  pay_resolution-PaysOut :
      (decision : DisputeResolution) (notes : Option String) (c : Dispute) (now : ℕ)
      → PaysOut
          (λ e. Payable TransactionReferenceType.dispute e.status)
          (payee_of decision)
          (final_of decision)
          c.escrow_id
          s
          (pay_resolution d decision notes c now s)
  unfolding pay_resolution
  pay_resolution-PaysOut refund_buyer notes c now =
      refund_escrow-PaysOut d s (Tidy-IsSound d s h) c.escrow_id _ TransactionReferenceType.dispute
        (some (object c.id)) now
  pay_resolution-PaysOut pay_seller notes c now =
      release_escrow-PaysOut d s (Tidy-IsSound d s h) c.escrow_id _ TransactionReferenceType.dispute
        (some (object c.id)) now

  module _ (admin : ℕ) (decision : DisputeResolution) (notes : Option String) (now i : ℕ) where
    settle_dispute-Resolves :
        (c : Dispute)
        → Memᴰ c s.disputes
        → is_active c.status ≡ true
        → c.id ≡ i
        → Resolves i decision
            (decided admin decision notes now)
            s
            (settle_dispute d admin decision notes now c s)
    unfolding settle_dispute
    settle_dispute-Resolves c stored active same =
        bind_rule
          (PaysOut (λ e. Payable TransactionReferenceType.dispute e.status) (payee_of decision)
            (final_of decision) c.escrow_id s)
          (Resolves i decision (decided admin decision notes now) s)
          (pay_resolution d decision notes c now)
          (λ _.
            update_dispute d c.id (resolution_status decision) (decided admin decision notes now)
            >>= told)
          s (pay_resolution-PaysOut decision notes c now)
          (λ _ t (e, kept, mine, _, set).
            dispute_rule d s h c (resolution_status decision) (decided admin decision notes now) t
              (λ y.
                Resolves i decision (decided admin decision notes now) s (((λ _. y) >>= told) t))
              set.paid.rest.disputes stored
              (λ _ cs r. record {
                dispute = c;
                stored = stored;
                same_id = same;
                active = active;
                escrow = e;
                mine = mine;
                was_disputed = under_dispute e kept mine;
                middle = t;
                settled = set;
                wallets = refl;
                escrows = refl;
                closed = r;
              }))
          (λ _ t q. q)
      where
        told : Option Dispute → Action (Option Dispute)
        told o =
            save_event d (
              Event.dispute_resolved c.id c.escrow_id c.auction_id c.opened_by_id c.against_user_id
                admin decision notes)
            >> pure o

        under_dispute : (e : Escrow) → Memᴰ e s.escrows → e.id ≡ c.escrow_id → e.status ≡ disputed
        under_dispute e kept mine =
            let b = h.links.linked c (record { stored = stored; active = active }) in
            ap (λ (x : Escrow). x.status)
              (Unique-eq (λ x. x.id) e b.escrow s.escrows h.keys.escrows kept b.stored
                (mine ∙ sym b.same_id))
            ∙ b.status

    -- In an orderly database, `resolveDispute` finds the active dispute with the identifier, pays
    -- the amount of its DISPUTED escrow to the buyer or to the seller as the admin decides, gives
    -- the escrow the status REFUNDED or RELEASED, and closes the dispute with the admin, the
    -- decision, the notes and the time; otherwise it throws, and nothing has changed.
    pub resolve_dispute-Resolves :
        Resolves i decision
          (decided admin decision notes now)
          s
          (resolve_dispute d admin i decision notes now s)
    unfolding resolve_dispute
    resolve_dispute-Resolves =
        got_dispute d s i (Resolves i decision (decided admin decision notes now) s)
          (λ c.
            throw_if (not (is_active c.status)) Error.dispute_already_resolved
            >> in_session (settle_dispute d admin decision notes now c))
          (λ c m q.
            throw_if_rule (not (is_active c.status)) Error.dispute_already_resolved s
              (Resolves i decision (decided admin decision notes now) s)
              (in_session (settle_dispute d admin decision notes now c))
              (λ a.
                in_session_rule (Resolves i decision (decided admin decision notes now) s)
                  (Resolves i decision (decided admin decision notes now) s)
                  (settle_dispute d admin decision notes now c) s
                  (settle_dispute-Resolves c m (not-false (is_active c.status) a) q) (λ _ _ r. r)
                  (λ _. refl))
              refl)
          refl
