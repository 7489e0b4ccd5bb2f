-- ===== src/Disputes/Runs.antt =====
-- Any sequence of calls of the disputes service, of confirmations, and of scheduled runs.
use Prim.Native.String.{String}
use mazadak_backend.Base.{ℕ, ◌≡◌, refl, ◌∙◌, Bool, List, [], ◌∷◌, Option}
use mazadak_backend.Store.{Driver}
use mazadak_backend.Database.{DisputeStatus, DisputeResolution, Database}
use mazadak_backend.Escrow.{confirm_delivery, handle_expired_held_escrows}
use mazadak_backend.Escrow.Custody.{funds}
use mazadak_backend.Escrow.Expiry.{expiry_rule}
use mazadak_backend.Disputes.{
  CreateDispute, open_dispute, cancel_dispute, update_dispute_status, resolve_dispute,
}
use mazadak_backend.Disputes.Order.{IsOrderly}
use mazadak_backend.Disputes.Invariant.{
  open_dispute-Preserves, cancel_dispute-Preserves, update_dispute_status-Preserves,
  resolve_dispute-Preserves, confirm_delivery-Preserves, release_expired-Preserves,
}

pub data CaseCall : Type 0 where
  opens : (user : ℕ) (input : CreateDispute) (now : ℕ) → CaseCall
  cancels : (user dispute_id : ℕ) → CaseCall
  reviews : (dispute_id : ℕ) (status : DisputeStatus) → CaseCall
  resolves :
      (admin dispute_id : ℕ) (decision : DisputeResolution) (notes : Option String) (now : ℕ)
      → CaseCall
  confirms : (buyer escrow_id now : ℕ) → CaseCall
  expires : (locked : Bool) (now : ℕ) → CaseCall

module _ (d : Driver) where
  abbrev pub run_case_call : CaseCall → Database → Database
  run_case_call (opens user input now) s = (open_dispute d user input now s).1
  run_case_call (cancels user i) s = (cancel_dispute d user i s).1
  run_case_call (reviews i status) s = (update_dispute_status d i status s).1
  run_case_call (resolves admin i decision notes now) s =
      (resolve_dispute d admin i decision notes now s).1
  run_case_call (confirms buyer i now) s = (confirm_delivery d buyer i now s).1
  run_case_call (expires locked now) s = (handle_expired_held_escrows d locked now s).1

  abbrev pub run_case_calls : List CaseCall → Database → Database
  run_case_calls [] s = s
  run_case_calls (c ∷ cs) s = run_case_calls cs (run_case_call c s)

  -- `t` is orderly, and the users' money in it is that of `s`.
  abbrev pub IsOrderlyAfter : Database → Database → Type 0
  IsOrderlyAfter s t = IsOrderly d t × (funds t ≡ funds s)

  call-IsOrderlyAfter :
      (c : CaseCall) (s : Database) → IsOrderly d s → IsOrderlyAfter s (run_case_call c s)
  call-IsOrderlyAfter (opens user input now) s h = open_dispute-Preserves d s h user input now
  call-IsOrderlyAfter (cancels user i) s h = cancel_dispute-Preserves d s h user i
  call-IsOrderlyAfter (reviews i status) s h = update_dispute_status-Preserves d s h i status
  call-IsOrderlyAfter (resolves admin i decision notes now) s h =
      resolve_dispute-Preserves d s h admin i decision notes now
  call-IsOrderlyAfter (confirms buyer i now) s h = confirm_delivery-Preserves d s h buyer i now
  call-IsOrderlyAfter (expires locked now) s h =
      expiry_rule d now (IsOrderlyAfter s)
        (λ i t (k, e). let (k', e') = release_expired-Preserves d t k i now in (k', e' ∙ e)) locked
        s (h, refl)

  -- From an orderly database, any sequence of calls of the disputes service (opening, cancelling,
  -- changing the status, resolving), of confirmations and of scheduled runs, taken one after the
  -- other, ends in an orderly one: keys are unique, wallets solvent, every active dispute has its
  -- escrow DISPUTED, and no escrow has two active disputes. The wallets' balances and the amounts
  -- in escrow add up to what they did before.
  pub run_case_calls-IsOrderlyAfter :
      (cs : List CaseCall) (s : Database) → IsOrderly d s → IsOrderlyAfter s (run_case_calls cs s)
  run_case_calls-IsOrderlyAfter [] s h = (h, refl)
  run_case_calls-IsOrderlyAfter (c ∷ cs) s h =
      let (k, e) = call-IsOrderlyAfter c s h in
      let (k', e') = run_case_calls-IsOrderlyAfter cs (run_case_call c s) k in (k', e' ∙ e)
