-- ===== src/Escrow/Expiry.antt =====
-- The scheduled run: what each of its sessions keeps, the whole run keeps.
use mazadak_backend.Base.{ℕ, suc, Bool, true, false, none, List, [], ◌∷◌}
use mazadak_backend.Store.{Driver}
use mazadak_backend.Database.{Escrow, TransactionReferenceType, Database, ok, err, in_session}
use mazadak_backend.Escrow.{
  release_escrow, release_each, find_expired, release_expired_held_escrows,
  handle_expired_held_escrows,
}

module _ {κ} (d : Driver) (now : ℕ) (I : Database → Type κ)
    (step : (i : ℕ) (s : Database)
      → I s
      → I
          (in_session
            (release_escrow d i "EXPIRED_INSPECTION_WINDOW" TransactionReferenceType.escrow none
              now)
            s).1) where
  -- By induction on the escrows left to release.
  each_rule :
      (es : List Escrow) (count : ℕ) (s : Database) → I s → I (release_each d now es count s).1
  unfolding release_each
  each_rule [] count s h = h
  each_rule (e ∷ es) count s h =
      let (r, t) =
        in_session
          (release_escrow d e.id "EXPIRED_INSPECTION_WINDOW" TransactionReferenceType.escrow none
            now)
          s in
      each_rule es (elim r [ ok _ ↦ suc count | err _ ↦ count ]) t (step e.id s h)

  pub expiry_rule :
      (locked : Bool) (s : Database) → I s → I (handle_expired_held_escrows d locked now s).1
  unfolding handle_expired_held_escrows release_expired_held_escrows
  expiry_rule true s h = each_rule (find_expired d now 50 s) 0 s h
  expiry_rule false s h = h
