-- ===== src/Disputes/Closing.antt =====
-- The invariant under the writes that change or close a dispute.
use Prim.Native.String.{String}
use mazadak_backend.Base.{
  ℕ, ℤ, ◌+ℤ◌, ◌≡◌, refl, sym, ap, subst, true, false, List, Option, some, All, All-Memᴰ,
  All-Replaced, Unique, map-Replaced, Replaced, sum_of, map, ◌≤◌, arith,
}
use mathlib.Core.List.{Memᴰ}
use mazadak_backend.Store.{Driver}
use mazadak_backend.Database.{
  Escrow, EscrowStatus, held, released, refunded, Dispute, DisputeStatus, DisputeResolution,
  refund_buyer, pay_seller, TransactionReferenceType, object, Database, Event, Result, ok, err,
  Action, pure, ◌>>=◌, ◌>>◌, bind_rule, save_event,
}
use mazadak_backend.Escrow.{no_extra, update_status}
use mazadak_backend.Escrow.Custody.{funds, Settled, Settled-IsSound, Settled-funds}
use mazadak_backend.Escrow.Release.{PaysOut, Payable, release_escrow-PaysOut, refund_escrow-PaysOut}
use mazadak_backend.Escrow.Status.{status_rule}
use mazadak_backend.Escrow.Conservation.{
  is_kept, amount_in_custody, nothing_in_custody, Payable-is_kept,
}
use mazadak_backend.Disputes.{
  DisputeExtra, no_dispute_extra, update_dispute, withdraw_dispute, settle_dispute, pay_resolution,
  resolution_status, is_active,
}
use mazadak_backend.Disputes.Links.{Links-updated, Links-closed}
use mazadak_backend.Disputes.Order.{IsGiven, Tidy, IsOrderly, Tidy-IsSound, later_given, Preserves}
use mazadak_backend.Disputes.Steps.{same_custody, same_keys, dispute_rule}

-- An escrow of the dispute has been paid out for good.
abbrev PaidOut : {A : Type 0} → Dispute → Database → Result A × Database → Type 0
PaidOut c s (ok _, t) =
    (e : Escrow) × (payee : ℕ) × (final : EscrowStatus) × (e.id ≡ c.escrow_id)
    × (is_kept e.status ≡ true)
    × (is_kept final ≡ false)
    × Settled e payee final s t
PaidOut c s (err _, t) = t ≡ s

PaysOut-PaidOut :
    {A : Type 0} (c : Dispute) (payee : Escrow → ℕ) (final : EscrowStatus) (s : Database)
    → is_kept final ≡ false
    → (x : Result A × Database)
    → PaysOut (λ e. Payable TransactionReferenceType.dispute e.status) payee final c.escrow_id s x
    → PaidOut c s x
PaysOut-PaidOut c payee final s f (ok _, t) (e, stored, same, allowed, h) = (
  e,
  payee e,
  final,
  same,
  Payable-is_kept TransactionReferenceType.dispute e.status allowed,
  f,
  h,
)
PaysOut-PaidOut c payee final s f (err _, t) h = h

resolution-closed : (r : DisputeResolution) → is_active (resolution_status r) ≡ false
resolution-closed refund_buyer = refl
resolution-closed pay_seller = refl

module _ (d : Driver) (s : Database) (h : IsOrderly d s) (c : Dispute)
    (stored : Memᴰ c s.disputes) where
  unique_after :
      {c' : Dispute} {cs : List Dispute}
      → Replaced c c' s.disputes cs
      → c'.id ≡ c.id
      → Unique (map (λ x. x.id) cs)
  unique_after r q = subst Unique (sym (map-Replaced (λ x. x.id) r q)) h.keys.disputes

  given_after :
      {c' : Dispute} {cs : List Dispute} (g : ℕ)
      → s.generated ≤ g
      → Replaced c c' s.disputes cs
      → c'.id ≡ c.id
      → All (λ x. IsGiven d g x.id) cs
  given_after g later r q =
      let old = later_given d s.generated g s.disputes later h.given in
      All-Replaced (λ x. IsGiven d g x.id) r old
        (subst (IsGiven d g) (sym q) (All-Memᴰ (λ x. IsGiven d g x.id) c s.disputes old stored))

  module _ (active : is_active c.status ≡ true) where
    pub update_dispute-Preserves :
        (status : DisputeStatus) (x : DisputeExtra)
        → Preserves d s (update_dispute d c.id status x s)
    update_dispute-Preserves status x =
        dispute_rule d s h c status x s (Preserves d s) refl stored (λ _ cs r. (
          record {
            wallets = h.wallets;
            owners = h.owners;
            solvent = h.solvent;
            keys = record { disputes = unique_after r refl; escrows = h.keys.escrows };
            given = given_after s.generated (omega arith) r refl;
            links = Links-updated h.keys h.links r refl active refl;
          },
          refl,
        ))

    pub withdraw_dispute-Preserves : (user : ℕ) → Preserves d s (withdraw_dispute d user c s)
    unfolding withdraw_dispute
    withdraw_dispute-Preserves user =
        dispute_rule d s h c DisputeStatus.cancelled no_dispute_extra s Q refl stored (λ o cs r.
          let b = h.links.linked c (record { stored = stored; active = active }) in
          status_rule d (record s { disputes = cs }) b.escrow c.escrow_id held no_extra (P o cs)
            h.keys.escrows b.stored b.same_id
            (λ _ es re. (
              record {
                wallets = h.wallets;
                owners = h.owners;
                solvent = h.solvent;
                keys = record {
                  disputes = unique_after r refl;
                  escrows = same_keys re refl h.keys.escrows;
                };
                given = given_after s.generated (omega arith) r refl;
                links = Links-closed h.keys h.links r refl active refl re b.same_id;
              },
              ap (λ (x : ℤ). sum_of (λ w. w.balance) s.wallets +ℤ x)
                  (same_custody re (amount_in_custody b.escrow (ap is_kept b.status))),
            )))
      where
        told : Option Dispute → Action (Option Dispute)
        told o =
            save_event d (
              Event.dispute_cancelled c.id c.escrow_id c.auction_id c.opened_by_id c.against_user_id
                user)
            >> pure o

        rest : Option Dispute → Action (Option Dispute)
        rest o = update_status d c.escrow_id held no_extra >> told o

        Q : Result (Option Dispute) × Database → Type 0
        Q y = Preserves d s (((λ _. y) >>= rest) s)

        P : Option Dispute → List Dispute → Result (Option Escrow) × Database → Type 0
        P o cs y = Preserves d s (((λ _. y) >> told o) (record s { disputes = cs }))

    -- The dispute is closed after its escrow was paid out.
    closed-Preserves :
        {c' : Dispute} {cs : List Dispute} (e : Escrow) (payee : ℕ) (final : EscrowStatus)
        (t : Database)
        → Replaced c c' s.disputes cs
        → c'.id ≡ c.id
        → is_active c'.status ≡ false
        → e.id ≡ c.escrow_id
        → is_kept e.status ≡ true
        → is_kept final ≡ false
        → Settled e payee final s t
        → Tidy d t.wallets t.escrows cs t.generated × (funds t ≡ funds s)
    closed-Preserves e payee final t r q f same kept gone set =
        let v = Settled-IsSound e payee final s t set (Tidy-IsSound d s h) in
        (
          record {
            wallets = v.keyed.ids;
            owners = v.keyed.owners;
            solvent = v.solvent;
            keys = record { disputes = unique_after r q; escrows = v.escrows };
            given = given_after t.generated set.paid.rest.later r q;
            links = Links-closed h.keys h.links r q active f set.replaced same;
          },
          Settled-funds e payee final s t set (amount_in_custody e kept)
              (nothing_in_custody final gone),
        )

    pay_resolution-PaidOut :
        (decision : DisputeResolution) (notes : Option String) (now : ℕ)
        → PaidOut c s (pay_resolution d decision notes c now s)
    unfolding pay_resolution
    pay_resolution-PaidOut refund_buyer notes now =
        PaysOut-PaidOut c (λ e. e.buyer_id) refunded s refl _
          (refund_escrow-PaysOut d s (Tidy-IsSound d s h) c.escrow_id _
            TransactionReferenceType.dispute (some (object c.id)) now)
    pay_resolution-PaidOut pay_seller notes now =
        PaysOut-PaidOut c (λ e. e.seller_id) released s refl _
          (release_escrow-PaysOut d s (Tidy-IsSound d s h) c.escrow_id _
            TransactionReferenceType.dispute (some (object c.id)) now)

    pub settle_dispute-Preserves :
        (admin : ℕ) (decision : DisputeResolution) (notes : Option String) (now : ℕ)
        → Preserves d s (settle_dispute d admin decision notes now c s)
    unfolding settle_dispute
    settle_dispute-Preserves admin decision notes now =
        bind_rule (PaidOut c s) (Preserves d s) (pay_resolution d decision notes c now) (λ _. rest)
          s (pay_resolution-PaidOut decision notes now)
          (λ _ t (e, payee, final, same, kept, gone, set).
            dispute_rule d s h c (resolution_status decision) extra t
              (λ y. Preserves d s (((λ _. y) >>= told) t)) set.paid.rest.disputes stored
              (λ _ cs r.
                closed-Preserves e payee final t r refl (resolution-closed decision) same kept gone
                  set))
          (λ _ t q. subst (λ u. IsOrderly d u × (funds u ≡ funds s)) (sym q) (h, refl))
      where
        extra : DisputeExtra
        extra = record {
          admin_id = some admin;
          admin_decision = some decision;
          admin_notes = notes;
          resolved_at = some now;
        }

        told : Option Dispute → Action (Option Dispute)
        told o =
            save_event d (
              Event.dispute_resolved c.id c.escrow_id c.auction_id c.opened_by_id c.against_user_id
                admin decision notes)
            >> pure o

        rest : Action (Option Dispute)
        rest = update_dispute d c.id (resolution_status decision) extra >>= told
