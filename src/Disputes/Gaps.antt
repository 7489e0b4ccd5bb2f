-- ===== src/Disputes/Gaps.antt =====
-- Where the disputes service does not do what it means to.
use mazadak_backend.Base.{
  ℕ, ℤ, pos, ◌+ℤ◌, ◌≡◌, ◌≢◌, refl, sym, ap, ◌∙◌, subst, true, false, not, inl, inr, List, Option,
  Unique, Unique-eq, map-Replaced, Replaced, Replaced-Memᴰ_new, Replaced-Memᴰ_old, sum_of,
  sum_of-Replaced, int_laws,
}
use mathlib.Core.List.{Memᴰ}
use mazadak_backend.Store.{Driver}
use mazadak_backend.Database.{
  Escrow, held, Dispute, DisputeStatus, Database, Event, Error, Result, Action, pure, ◌>>=◌, ◌>>◌,
  throw_if, save_event,
}
use mazadak_backend.Escrow.{in_custody, no_extra, update_status}
use mazadak_backend.Escrow.Custody.{funds}
use mazadak_backend.Escrow.Status.{status_rule}
use mazadak_backend.Escrow.Conservation.{is_kept, nothing_in_custody}
use mazadak_backend.Disputes.{
  no_dispute_extra, with_dispute_status, update_dispute, update_dispute_status, withdraw_dispute,
  is_active,
}
use mazadak_backend.Disputes.Links.{IsActiveIn, HasDisputed}
use mazadak_backend.Disputes.Order.{IsOrderly, got_this_dispute}
use mazadak_backend.Disputes.Steps.{dispute_rule}

-- An escrow that is DISPUTED, and no active dispute has it.
abbrev pub Stranded : ℕ → {A : Type 0} → Result A × Database → Type 0
Stranded i x =
    HasDisputed i x.1.escrows × ((b : Dispute) → IsActiveIn b x.1.disputes → b.escrow_id ≢ i)

module _ (d : Driver) (s : Database) (h : IsOrderly d s) (c : Dispute)
    (stored : Memᴰ c s.disputes) where
  -- In an orderly database, when `updateDisputeStatus` gives an active dispute a status that is not
  -- active, the dispute's escrow stays DISPUTED and no active dispute is left that has it.
  pub update_dispute_status-Stranded :
      (status : DisputeStatus)
      → is_active c.status ≡ true
      → is_active status ≡ false
      → Stranded c.escrow_id (update_dispute_status d c.id status s)
  unfolding update_dispute_status
  update_dispute_status-Stranded status active closed =
      got_this_dispute d s c (Stranded c.escrow_id)
        (λ c.
          throw_if (not (is_active c.status)) Error.dispute_already_resolved
          >> update_dispute d c.id status no_dispute_extra)
        h.keys.disputes stored
        (subst
          (λ b. Stranded c.escrow_id (
            (throw_if (not b) Error.dispute_already_resolved
                >> update_dispute d c.id status no_dispute_extra)
              s))
          (sym active)
          (dispute_rule d s h c status no_dispute_extra s (Stranded c.escrow_id) refl stored
            (λ _ cs r. (h.links.linked c mine, nobody cs r))))
    where
      mine : IsActiveIn c s.disputes
      mine = record { stored = stored; active = active }

      nobody :
          (cs : List Dispute)
          → Replaced c (with_dispute_status status no_dispute_extra c) s.disputes cs
          → (b : Dispute) → IsActiveIn b cs
          → b.escrow_id ≢ c.escrow_id
      nobody cs r b a q = elim (Replaced-Memᴰ_old r a.stored) [
        | inl p ↦ inactive b a.active p
        | inr m ↦ inactive b a.active (
            Unique-eq (λ x. x.id) b (with_dispute_status status no_dispute_extra c) cs
              (subst Unique (sym (map-Replaced (λ x. x.id) r refl)) h.keys.disputes) a.stored
              (Replaced-Memᴰ_new r)
              (ap (λ (x : Dispute). x.id)
                (h.links.single b c (record { stored = m; active = a.active }) mine q)))
      ]
        where
          inactive :
              (b : Dispute)
              → is_active b.status ≡ true
              → b ≡ with_dispute_status status no_dispute_extra c
              → ⊥
          inactive b a p = apart (sym a ∙ ap (λ (x : Dispute). is_active x.status) p ∙ closed)
            where
              apart : true ≡ false → ⊥
              apart q = cc q

  -- When the writes of `cancelDispute` come after the dispute's escrow was paid out, whatever
  -- status the dispute had when it was read, the escrow's amount is in escrow again: the sum of
  -- wallets and escrows grows by it.
  pub stale_cancel-funds :
      (user : ℕ) (read : DisputeStatus) (e : Escrow)
      → Memᴰ e s.escrows
      → e.id ≡ c.escrow_id
      → is_kept e.status ≡ false
      → funds (withdraw_dispute d user (record c { status = read }) s).1 ≡ funds s +ℤ e.amount
  unfolding withdraw_dispute
  stale_cancel-funds user read e held_in same paid =
      dispute_rule d s h c DisputeStatus.cancelled no_dispute_extra s Q refl stored (λ o cs r.
        status_rule d (record s { disputes = cs }) e c.escrow_id held no_extra (P o cs)
          h.keys.escrows held_in same
          (λ _ es re.
            grown (sum_of (λ w. w.balance) s.wallets) (sum_of in_custody s.escrows)
              (sum_of in_custody es) e.amount (in_custody e)
              (nothing_in_custody e.status paid e refl) (sum_of-Replaced in_custody re)))
    where
      c' : Dispute
      c' = record c { status = read }

      told : Option Dispute → Action (Option Dispute)
      told o =
          save_event d (
            Event.dispute_cancelled c.id c.escrow_id c.auction_id c.opened_by_id c.against_user_id
              user)
          >> pure o

      rest : Option Dispute → Action (Option Dispute)
      rest o = update_status d c.escrow_id held no_extra >> told o

      Q : Result (Option Dispute) × Database → Type 0
      Q y = funds (((λ _. y) >>= rest) s).1 ≡ funds s +ℤ e.amount

      P : Option Dispute → List Dispute → Result (Option Escrow) × Database → Type 0
      P o cs y = funds (((λ _. y) >> told o) (record s { disputes = cs })).1 ≡ funds s +ℤ e.amount

      grown : (w x y a n : ℤ) → n ≡ pos 0 → y +ℤ n ≡ x +ℤ a → w +ℤ y ≡ (w +ℤ x) +ℤ a
      grown w x y a n z q = grind int_laws
