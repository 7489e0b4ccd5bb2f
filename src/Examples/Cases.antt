-- ===== src/Examples/Cases.antt =====
-- The theorems on disputes, at a database with an open dispute and at one with a resolved one.
use mazadak_backend.Base.{
  ℕ, pos, ◌+ℤ◌, ◌≡◌, refl, sym, ap, ◌∙◌, subst, List, [], ◌∷◌, none, true, false, arith,
}
use mathlib.Core.List.{Memᴰ}
use mazadak_backend.Store.ListStore.{list_store}
use mazadak_backend.Database.{
  Database, released, disputed, Dispute, DisputeStatus, opened, resolved_seller_paid, item_damaged,
  refund_buyer,
}
use mazadak_backend.Escrow.Custody.{funds}
use mazadak_backend.Disputes.{is_active, update_dispute_status, withdraw_dispute, resolve_dispute}
use mazadak_backend.Disputes.Links.{IsActiveIn, HasDisputed, Links}
use mazadak_backend.Disputes.Order.{IsOrderly}
use mazadak_backend.Disputes.Runs.{
  CaseCall, opens, resolves, confirms, expires, run_case_calls, IsOrderlyAfter,
  run_case_calls-IsOrderlyAfter,
}
use mazadak_backend.Disputes.Outcome.{decided, Resolves, resolve_dispute-Resolves}
use mazadak_backend.Escrow.Progress.{Returns}
use mazadak_backend.Disputes.Progress.{resolve_dispute-Returns}
use mazadak_backend.Disputes.Gaps.{Stranded, update_dispute_status-Stranded, stale_cancel-funds}
use mazadak_backend.Examples.Payments.{
  escrow_of, buyer_wallet, platform, platform-IsKeyed, platform-AllSolvent,
}

abbrev case_of : ℕ → ℕ → DisputeStatus → Dispute
case_of i escrow status = record {
  id = i;
  escrow_id = escrow;
  auction_id = 60;
  opened_by_id = 10;
  against_user_id = 11;
  reason = item_damaged;
  description = "The frame is broken";
  evidence_urls = [];
  status = status;
  admin_id = none;
  admin_decision = none;
  admin_notes = none;
  resolved_at = none;
}

only : (b c : Dispute) → Memᴰ b (c ∷ []) → b ≡ c
only b c (Memᴰ.head e) = e
only b c (Memᴰ.tail m) = elim m [ ]

-- Escrow 6 is DISPUTED by dispute 8.
abbrev open_case : Database
open_case = record platform { disputes = case_of 8 6 opened ∷ [] }

open_case-Links : Links open_case.disputes open_case.escrows
open_case-Links = record {
  linked = λ c a.
      subst (λ (x : Dispute). HasDisputed x.escrow_id open_case.escrows)
        (sym (only c (case_of 8 6 opened) a.stored))
        (record {
          escrow = escrow_of 6 60 disputed;
          stored = Memᴰ.tail (Memᴰ.head refl);
          same_id = refl;
          status = refl;
        });
  single = λ b c u v _.
      only b (case_of 8 6 opened) u.stored ∙ sym (only c (case_of 8 6 opened) v.stored);
}

open_case-IsOrderly : IsOrderly list_store open_case
unfolding list_store
open_case-IsOrderly = record {
  wallets = platform-IsKeyed.ids;
  owners = platform-IsKeyed.owners;
  solvent = platform-AllSolvent;
  keys = record { disputes = (tt, tt); escrows = ((omega arith, tt), (tt, tt)) };
  given = ((8, omega arith, refl), tt);
  links = open_case-Links;
}

abbrev case_calls : List CaseCall
case_calls =
    opens 10
      (record {
        auction_id = 50;
        reason = item_damaged;
        description = "The frame is broken";
        evidence_urls = none;
      })
      400
    ∷ resolves 1 8 refund_buyer none 450
    ∷ confirms 10 5 460
    ∷ expires true 600
    ∷ []

run_case_calls-IsOrderlyAfter_example :
    IsOrderlyAfter list_store open_case (run_case_calls list_store case_calls open_case)
run_case_calls-IsOrderlyAfter_example =
    run_case_calls-IsOrderlyAfter list_store case_calls open_case open_case-IsOrderly

update_dispute_status-Stranded_example :
    Stranded 6 (update_dispute_status list_store 8 DisputeStatus.cancelled open_case)
update_dispute_status-Stranded_example =
    update_dispute_status-Stranded list_store open_case open_case-IsOrderly (case_of 8 6 opened)
      (Memᴰ.head refl) DisputeStatus.cancelled refl refl

-- The seller got the amount of escrow 7 when dispute 9 was resolved.
abbrev closed_case : Database
closed_case = record platform {
  escrows = escrow_of 7 60 released ∷ [];
  disputes = case_of 9 7 resolved_seller_paid ∷ [];
}

none_active : {X : Type 0} (c : Dispute) → IsActiveIn c closed_case.disputes → X
none_active c a = absurd (
    apart (
      sym (
        ap (λ (x : Dispute). is_active x.status)
          (only c (case_of 9 7 resolved_seller_paid) a.stored))
      ∙ a.active))
  where
    apart : false ≡ true → ⊥
    apart q = cc q

closed_case-IsOrderly : IsOrderly list_store closed_case
unfolding list_store
closed_case-IsOrderly = record {
  wallets = platform-IsKeyed.ids;
  owners = platform-IsKeyed.owners;
  solvent = platform-AllSolvent;
  keys = record { disputes = (tt, tt); escrows = (tt, tt) };
  given = ((9, omega arith, refl), tt);
  links = record { linked = λ c a. none_active c a; single = λ b c u _ _. none_active b u };
}

stale_cancel-funds_example :
    funds (withdraw_dispute list_store 10 (case_of 9 7 opened) closed_case).1
    ≡ funds closed_case +ℤ pos 200
stale_cancel-funds_example =
    stale_cancel-funds list_store closed_case closed_case-IsOrderly
      (case_of 9 7 resolved_seller_paid) (Memᴰ.head refl) 10 opened (escrow_of 7 60 released)
      (Memᴰ.head refl) refl refl

resolve_dispute-Resolves_example :
    Resolves 8 refund_buyer
      (decided 1 refund_buyer none 450)
      open_case
      (resolve_dispute list_store 1 8 refund_buyer none 450 open_case)
resolve_dispute-Resolves_example =
    resolve_dispute-Resolves list_store open_case open_case-IsOrderly 1 refund_buyer none 450 8

-- The buyer, user 10, has a wallet.
resolve_dispute-Returns_example :
    Returns (resolve_dispute list_store 1 8 refund_buyer none 450 open_case)
resolve_dispute-Returns_example =
    resolve_dispute-Returns list_store open_case open_case-IsOrderly (case_of 8 6 opened)
      (Memᴰ.head refl) refl (escrow_of 6 60 disputed) (Memᴰ.tail (Memᴰ.head refl)) refl
      (omega arith) buyer_wallet 1 refund_buyer none 450
      (record { stored = Memᴰ.head refl; owner = refl })
