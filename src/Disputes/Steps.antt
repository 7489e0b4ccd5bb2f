-- ===== src/Disputes/Steps.antt =====
-- What each write of the disputes service does to the invariant.
use mazadak_backend.Base.{
  ℕ, ℤ, suc, ◌+ℤ◌, ◌≡◌, refl, sym, ap, ◌∙◌, subst, ◌≢◌, ◌<◌, List, map, Option, some, All-Inserted,
  All-map_imp, Unique, Inserted, Unique-Inserted, map-Inserted, map-Replaced, Replaced, sum_of,
  sum_of-Replaced, arith, int_laws,
}
use mathlib.Core.List.{Memᴰ}
use mazadak_backend.Store.{Driver}
use mazadak_backend.Store.Keyed.{update_rule}
use mazadak_backend.Database.{
  Escrow, held, disputed, Dispute, DisputeStatus, Database, Event, Result, ok, Action, pure, ◌>>◌,
  save_event,
}
use mazadak_backend.Escrow.{in_custody, no_extra}
use mazadak_backend.Escrow.Status.{status_rule}
use mazadak_backend.Escrow.Conservation.{is_kept, amount_in_custody}
use mazadak_backend.Disputes.{
  CreateDispute, DisputeExtra, with_dispute_status, new_dispute, against_user, update_dispute,
  create_dispute, enter_dispute,
}
use mazadak_backend.Disputes.Links.{Links-opened}
use mazadak_backend.Disputes.Order.{IsGiven, IsOrderly, later_given, Preserves}

pub same_custody :
    {e e' : Escrow} {l k : List Escrow}
    → Replaced e e' l k
    → in_custody e ≡ in_custody e'
    → sum_of in_custody k ≡ sum_of in_custody l
same_custody {e} {e'} {l} {k} r q =
    cancel (sum_of in_custody k) (sum_of in_custody l) (in_custody e) (in_custody e')
      (sum_of-Replaced in_custody r) q
  where
    cancel : (x y a b : ℤ) → x +ℤ a ≡ y +ℤ b → a ≡ b → x ≡ y
    cancel x y a b h q = grind int_laws

pub same_keys :
    {e e' : Escrow} {l k : List Escrow}
    → Replaced e e' l k
    → e'.id ≡ e.id
    → Unique (map (λ x. x.id) l)
    → Unique (map (λ x. x.id) k)
same_keys r q u = subst Unique (sym (map-Replaced (λ x. x.id) r q)) u

module _ (d : Driver) (s : Database) (h : IsOrderly d s) where
  open d use {insert, insert_law, object_id, object_id_injective}

  fresh : (i : ℕ) → IsGiven d s.generated i → i ≢ object_id s.generated
  fresh i (n, below, e) q = differ below (object_id_injective n s.generated (sym e ∙ q))
    where
      differ : n < s.generated → n ≡ s.generated → ⊥
      differ below p = omega arith

  pub enter_dispute-Preserves :
      (user : ℕ) (input : CreateDispute) (e : Escrow)
      → Memᴰ e s.escrows
      → e.status ≡ held
      → Preserves d s (enter_dispute d user input e s)
  unfolding enter_dispute create_dispute
  enter_dispute-Preserves user input e stored t =
      status_rule d u e e.id disputed (record no_extra { dispute_id = some c.id }) P h.keys.escrows
        stored refl
        (λ _ es r. (
          record {
            wallets = h.wallets;
            owners = h.owners;
            solvent = h.solvent;
            keys = record {
              disputes =
                  Unique-Inserted (map-Inserted (λ x. x.id) added)
                    (All-map_imp (λ j. j ≢ c.id) (λ x. x.id) (λ x. fresh x.id) s.disputes h.given)
                    h.keys.disputes;
              escrows = same_keys r refl h.keys.escrows;
            };
            given =
                All-Inserted (λ x. IsGiven d (suc s.generated) x.id) added
                  (later_given d s.generated (suc s.generated) s.disputes (omega arith) h.given)
                  (s.generated, omega arith, refl);
            links = Links-opened h.keys h.links added r t refl refl refl;
          },
          ap (λ (x : ℤ). sum_of (λ w. w.balance) s.wallets +ℤ x)
              (same_custody r (amount_in_custody e (ap is_kept t))),
        ))
    where
      c : Dispute
      c = new_dispute e user (against_user e user) input (object_id s.generated)

      added : Inserted c s.disputes (insert c s.disputes)
      added = insert_law c s.disputes

      u : Database
      u = record s { generated = suc s.generated; disputes = insert c s.disputes }

      told : Action Dispute
      told =
          save_event d (
            Event.dispute_opened c.id e.id input.auction_id user (against_user e user) input.reason)
          >> (save_event d (Event.escrow_disputed e.id input.auction_id c.id user) >> pure c)

      P : Result (Option Escrow) × Database → Type 0
      P y = Preserves d s (((λ _. y) >> told) u)

  pub dispute_rule {κ} :
      (c : Dispute) (status : DisputeStatus) (x : DisputeExtra) (u : Database)
      (P : Result (Option Dispute) × Database → Type κ)
      → u.disputes ≡ s.disputes
      → Memᴰ c s.disputes
      → ((o : Option Dispute) (cs : List Dispute)
          → Replaced c (with_dispute_status status x c) s.disputes cs
          → P (ok o, record u { disputes = cs }))
      → P (update_dispute d c.id status x u)
  unfolding update_dispute
  dispute_rule c status x u P same stored good =
      update_rule d (λ a. a.id) (with_dispute_status status x) c c.id u.disputes
        (λ y. P (ok y.0, record u { disputes = y.1 }))
        (subst (λ l. Unique (map (λ a. a.id) l)) (sym same) h.keys.disputes)
        (subst (Memᴰ c) (sym same) stored) refl
        (λ o cs r. good o cs (subst (λ l. Replaced c (with_dispute_status status x c) l cs) same r))
