-- ===== src/Escrow/Release.antt =====
-- `confirmDelivery`, `releaseEscrow` and `refundEscrow` on every branch.
use Prim.Native.String.{String}
use mazadak_backend.Base.{
  ℕ, ◌≡◌, refl, sym, subst, true, ◌⊎◌, inl, inr, Option, none, some, ◌==◌, ==→eq, not, or_else,
  Bool-cases,
}
use mathlib.Core.List.{Memᴰ}
use mazadak_backend.Store.{Driver, Finds}
use mazadak_backend.Database.{
  Escrow, EscrowStatus, held, released, refunded, disputed, Reference, object,
  TransactionReferenceType, Database, Event, Error, Result, ok, err, Action, throw_if,
  in_session_rule, ◌>>=◌, ◌>>◌, bind_rule, or_throw,
}
use mazadak_backend.Escrow.{
  no_extra, is_dispute_reference, can_release, can_refund, can_confirm, find_by_id, get_escrow,
  pay_seller_out, pay_buyer_back, confirm_delivery, release_escrow, refund_escrow, is_held,
  is_released, is_disputed,
}
use mazadak_backend.Escrow.Custody.{Settled, Settles, payout, IsSound}

-- The statuses from which money may leave under a reference of the type.
abbrev pub Payable : TransactionReferenceType → EscrowStatus → Type 0
Payable type status = (status ≡ held) ⊎ ((status ≡ disputed) × (is_dispute_reference type ≡ true))

-- A guard reads nothing and writes nothing.
abbrev pub Guarded : {A : Type 0} → Type 0 → Database → Result A × Database → Type 0
Guarded C s (ok _, t) = C × (t ≡ s)
Guarded C s (err _, t) = t ≡ s

can_release-Guarded :
    (status : EscrowStatus) (type : TransactionReferenceType) (s : Database)
    → Guarded (Payable type status) s (can_release status type s)
can_release-Guarded held type s = (inl refl, refl)
can_release-Guarded released type s = refl
can_release-Guarded refunded type s = refl
can_release-Guarded disputed TransactionReferenceType.dispute s = (inr (refl, refl), refl)
can_release-Guarded disputed TransactionReferenceType.auction s = refl
can_release-Guarded disputed TransactionReferenceType.transaction s = refl
can_release-Guarded disputed TransactionReferenceType.escrow s = refl
can_release-Guarded disputed TransactionReferenceType.withdrawal s = refl

can_refund-Guarded :
    (status : EscrowStatus) (type : TransactionReferenceType) (s : Database)
    → Guarded (Payable type status) s (can_refund status type s)
can_refund-Guarded held type s = (inl refl, refl)
can_refund-Guarded released type s = refl
can_refund-Guarded refunded type s = refl
can_refund-Guarded disputed TransactionReferenceType.dispute s = (inr (refl, refl), refl)
can_refund-Guarded disputed TransactionReferenceType.auction s = refl
can_refund-Guarded disputed TransactionReferenceType.transaction s = refl
can_refund-Guarded disputed TransactionReferenceType.escrow s = refl
can_refund-Guarded disputed TransactionReferenceType.withdrawal s = refl

abbrev of_status : EscrowStatus → Action (Unit {0})
of_status st = do
  throw_if (is_released st) Error.escrow_already_released
  throw_if (is_disputed st) Error.escrow_already_disputed
  throw_if (not (is_held st)) Error.invalid_escrow_action

of_status-Guarded :
    (C : Type 0) (st : EscrowStatus) (s : Database)
    → C
    → Guarded (C × (st ≡ held)) s (of_status st s)
of_status-Guarded C held s c = ((c, refl), refl)
of_status-Guarded C released s c = refl
of_status-Guarded C refunded s c = refl
of_status-Guarded C disputed s c = refl

can_confirm-Guarded :
    (buyer : ℕ) (e : Escrow) (s : Database)
    → Guarded ((e.buyer_id ≡ buyer) × (e.status ≡ held)) s (can_confirm buyer e s)
can_confirm-Guarded buyer e s = elim (Bool-cases (e.buyer_id == buyer)) [
  | inl h ↦ rw h (of_status-Guarded (e.buyer_id ≡ buyer) e.status s (==→eq e.buyer_id buyer h))
  | inr h ↦ rw h refl
]

-- A call on the escrow with the identifier: it throws and changes nothing, or the escrow stood in a
-- status that lets it be paid out, got the final status, and its party got the amount.
abbrev pub PaysOut :
    {A : Type 0}
    → (Escrow → Type 0)
    → (Escrow → ℕ)
    → EscrowStatus
    → ℕ
    → Database
    → Result A × Database
    → Type 0
PaysOut Allowed payee final i s (ok _, t) =
    (e : Escrow) × Memᴰ e s.escrows × (e.id ≡ i) × Allowed e × Settled e (payee e) final s t
PaysOut Allowed payee final i s (err _, t) = t ≡ s

module _ (d : Driver) (s : Database) (sound : IsSound s) where
  open d use {find_one, find_one_law}

  got_escrow :
      {A : Type 0} (i : ℕ) (P : Result A × Database → Type 0) (k : Escrow → Action A)
      → ((e : Escrow) → Memᴰ e s.escrows → e.id ≡ i → P (k e s))
      → P (err Error.escrow_not_found, s)
      → P ((get_escrow d i >>= k) s)
  unfolding get_escrow find_by_id
  got_escrow {A} i P k good bad =
      go (find_one (λ e. e.id == i) s.escrows) (find_one_law (λ e. e.id == i) s.escrows)
    where
      go :
          (o : Option Escrow)
          → Finds (λ e. e.id == i) s.escrows o
          → P ((or_throw o Error.escrow_not_found >>= k) s)
      go none h = bad
      go (some e) h = good e h.1 (==→eq e.id i h.0)

  -- After a guard the escrow is paid out.
  guarded :
      {A : Type 0} (i : ℕ) (e : Escrow) (Allowed : Escrow → Type 0) (payee : Escrow → ℕ)
      (final : EscrowStatus) (guard : Action (Unit {0})) (k : Action A)
      → Memᴰ e s.escrows
      → e.id ≡ i
      → Guarded (Allowed e) s (guard s)
      → Settles e (payee e) final s (k s)
      → PaysOut Allowed payee final i s ((guard >> k) s)
  guarded {A} i e Allowed payee final guard k stored same ok_if pays =
      bind_rule (Guarded (Allowed e) s) P guard (λ _. k) s ok_if
        (λ _ t h. subst (λ u. P (k u)) (sym h.1) (paid h.0 (k s) pays)) (λ _ t h. h)
    where
      P : Result A × Database → Type 0
      P = PaysOut Allowed payee final i s

      paid : Allowed e → (x : Result A × Database) → Settles e (payee e) final s x → P x
      paid allowed (ok a, t) h = (e, stored, same, allowed, h)
      paid allowed (err _, t) h = h

  seller_paid :
      (e : Escrow) (now : ℕ) (reason : String) (type : TransactionReferenceType) (r : Reference)
      → Memᴰ e s.escrows
      → Settles e e.seller_id released s (pay_seller_out d e now reason type r s)
  unfolding pay_seller_out
  seller_paid e now reason type r stored =
      payout d e e.seller_id s sound.keyed sound.escrows stored released
        (record no_extra { released_at = some now; release_reason = some reason })
        (Event.escrow_released e.id e.auction_id e.buyer_id e.seller_id e.amount reason) r type

  buyer_paid :
      (e : Escrow) (now : ℕ) (reason : String) (type : TransactionReferenceType) (r : Reference)
      → Memᴰ e s.escrows
      → Settles e e.buyer_id refunded s (pay_buyer_back d e now reason type r s)
  unfolding pay_buyer_back
  buyer_paid e now reason type r stored =
      payout d e e.buyer_id s sound.keyed sound.escrows stored refunded
        (record no_extra { refunded_at = some now; release_reason = some reason })
        (Event.escrow_refunded e.id e.auction_id e.buyer_id e.seller_id e.amount reason) r type

  -- Together: the escrow is found, its guard passed, and it is paid out.
  paying :
      (i : ℕ) (Allowed : Escrow → Type 0) (payee : Escrow → ℕ) (final : EscrowStatus)
      (guard : Escrow → Action (Unit {0})) (pay : Escrow → Action (Option Escrow))
      → ((e : Escrow) → Guarded (Allowed e) s (guard e s))
      → ((e : Escrow) → Memᴰ e s.escrows → Settles e (payee e) final s (pay e s))
      → PaysOut Allowed payee final i s ((get_escrow d i >>= λ e. guard e >> pay e) s)
  paying i Allowed payee final guard pay ok_if pays =
      got_escrow i (PaysOut Allowed payee final i s) (λ e. guard e >> pay e)
        (λ e stored same.
          guarded i e Allowed payee final (guard e) (pay e) stored same (ok_if e) (pays e stored))
        refl

  module _ (i : ℕ) (reason : String) (type : TransactionReferenceType) (r : Option Reference)
      (now : ℕ) where
    -- `releaseEscrow` pays an escrow's amount to its seller and marks it RELEASED, and then the
    -- escrow was HELD, or DISPUTED and the reference that of a dispute; otherwise it throws, and
    -- nothing has changed.
    pub release_escrow-PaysOut :
        PaysOut
          (λ e. Payable type e.status)
          (λ e. e.seller_id)
          released
          i
          s
          (release_escrow d i reason type r now s)
    unfolding release_escrow
    release_escrow-PaysOut =
        paying i (λ e. Payable type e.status) (λ e. e.seller_id) released
          (λ e. can_release e.status type)
          (λ e. pay_seller_out d e now reason type (or_else r (object e.auction_id)))
          (λ e. can_release-Guarded e.status type s)
          (λ e. seller_paid e now reason type (or_else r (object e.auction_id)))

    -- `refundEscrow` pays an escrow's amount back to its buyer and marks it REFUNDED, and then the
    -- escrow was HELD, or DISPUTED and the reference that of a dispute; otherwise it throws, and
    -- nothing has changed.
    pub refund_escrow-PaysOut :
        PaysOut
          (λ e. Payable type e.status)
          (λ e. e.buyer_id)
          refunded
          i
          s
          (refund_escrow d i reason type r now s)
    unfolding refund_escrow
    refund_escrow-PaysOut =
        paying i (λ e. Payable type e.status) (λ e. e.buyer_id) refunded
          (λ e. can_refund e.status type)
          (λ e. pay_buyer_back d e now reason type (or_else r (object e.auction_id)))
          (λ e. can_refund-Guarded e.status type s)
          (λ e. buyer_paid e now reason type (or_else r (object e.auction_id)))

  -- `confirmDelivery` pays an escrow's amount to its seller and marks it RELEASED, and then the
  -- caller is its buyer and it was HELD; otherwise it throws, and nothing has changed.
  pub confirm_delivery-PaysOut :
      (buyer i now : ℕ)
      → PaysOut
          (λ e. (e.buyer_id ≡ buyer) × (e.status ≡ held))
          (λ e. e.seller_id)
          released
          i
          s
          (confirm_delivery d buyer i now s)
  unfolding confirm_delivery
  confirm_delivery-PaysOut buyer i now =
      in_session_rule (PaysOut C (λ e. e.seller_id) released i s)
        (PaysOut C (λ e. e.seller_id) released i s)
        (get_escrow d i >>= λ e. can_confirm buyer e >> pay e) s
        (paying i C (λ e. e.seller_id) released (can_confirm buyer) pay
          (λ e. can_confirm-Guarded buyer e s)
          (λ e.
            seller_paid e now "BUYER_CONFIRMED" TransactionReferenceType.escrow
              (object e.auction_id)))
        (λ a t h. h) (λ e. refl)
    where
      C : Escrow → Type 0
      C e = (e.buyer_id ≡ buyer) × (e.status ≡ held)

      pay : Escrow → Action (Option Escrow)
      pay e =
          pay_seller_out d e now "BUYER_CONFIRMED" TransactionReferenceType.escrow
            (object e.auction_id)
