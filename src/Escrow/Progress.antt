-- ===== src/Escrow/Progress.antt =====
-- When the payouts of the escrow service go through.
use Prim.Native.String.{String}
use mazadak_backend.Base.{ℕ, pos, ◌<ℤ◌, ◌≡◌, ◌∙◌, refl, Option, none, some, inl, inr, or_else}
use mathlib.Core.List.{Memᴰ}
use mazadak_backend.Store.{Driver}
use mazadak_backend.Store.Keyed.{find_key_rule}
use mazadak_backend.Database.{
  Wallet, Escrow, EscrowStatus, released, refunded, Reference, object, TransactionReferenceType,
  Database, Event, Error, Result, ok, Action, pure, or_throw, ◌>>=◌, ◌>>◌, bind_ok, save_event,
}
use mazadak_backend.Wallet.{deposit}
use mazadak_backend.Wallet.Success.{Owns}
use mazadak_backend.Wallet.Credit.{deposit_ok}
use mazadak_backend.Escrow.{
  EscrowExtra, no_extra, update_status, find_by_id, get_escrow, can_release, can_refund,
  pay_seller_out, pay_buyer_back, release_escrow, refund_escrow,
}
use mazadak_backend.Escrow.Custody.{IsSound}
use mazadak_backend.Escrow.Release.{Payable}

abbrev pub Returns : {A : Type 0} → Result A × Database → Type 0
Returns {A} x = (a : A) × (t : Database) × (x ≡ (ok a, t))

can_release_ok :
    (status : EscrowStatus) (type : TransactionReferenceType) (s : Database)
    → Payable type status
    → can_release status type s ≡ (ok tt, s)
can_release_ok status type s (inl h) = rw h refl
can_release_ok status type s (inr (h, q)) = rw (h, q) refl

can_refund_ok :
    (status : EscrowStatus) (type : TransactionReferenceType) (s : Database)
    → Payable type status
    → can_refund status type s ≡ (ok tt, s)
can_refund_ok status type s (inl h) = rw h refl
can_refund_ok status type s (inr (h, q)) = rw (h, q) refl

module _ (d : Driver) (s : Database) (sound : IsSound s) (e : Escrow) (stored : Memᴰ e s.escrows)
    (positive : pos 0 <ℤ e.amount) (w : Wallet) where
  -- What follows the deposit.
  closing : EscrowStatus → EscrowExtra → Event → Action (Option Escrow)
  closing final x v = update_status d e.id final x >>= λ updated. save_event d v >> pure updated

  closed :
      (final : EscrowStatus) (x : EscrowExtra) (v : Event) (u : Database)
      → Returns (closing final x v u)
  unfolding closing update_status
  closed final x v u = (_, _, refl)

  pays_out :
      (payee : ℕ) (owns : Owns s payee w) (r : Reference) (type : TransactionReferenceType)
      (final : EscrowStatus) (x : EscrowExtra) (v : Event)
      → Returns (
          (deposit d payee e.amount (some r) (some e.currency) (some type) none
              >> closing final x v)
            s)
  pays_out payee owns r type final x v =
      let (m, u, q) =
        deposit_ok d payee w s sound.keyed owns e.amount r (some e.currency) (some type) none
          positive in
      let (a, t, p) = closed final x v u in
      (
        a,
        t,
        bind_ok (deposit d payee e.amount (some r) (some e.currency) (some type) none)
              (λ _. closing final x v) s m u q
            ∙ p,
      )

  guarded-Returns :
      (guard : Action (Unit {0})) (pay : Action (Option Escrow))
      → guard s ≡ (ok tt, s)
      → Returns (pay s)
      → Returns ((guard >> pay) s)
  guarded-Returns guard pay q (a, t, p) = (a, t, bind_ok guard (λ _. pay) s tt s q ∙ p)

  found :
      (k : Escrow → Action (Option Escrow))
      → Returns (k e s)
      → Returns ((get_escrow d e.id >>= k) s)
  unfolding get_escrow find_by_id
  found k h =
      find_key_rule d (λ x. x.id) e s.escrows
        (λ o. Returns ((or_throw o Error.escrow_not_found >>= k) s)) sound.escrows stored h

  -- In a sound database `releaseEscrow` returns for an escrow that is HELD, or DISPUTED with the
  -- reference of a dispute, if its amount is positive and its seller has a wallet.
  pub release_escrow-Returns :
      (reason : String) (type : TransactionReferenceType) (r : Option Reference) (now : ℕ)
      → Owns s e.seller_id w
      → Payable type e.status
      → Returns (release_escrow d e.id reason type r now s)
  unfolding release_escrow pay_seller_out closing
  release_escrow-Returns reason type r now owns payable =
      found
        (λ x.
          can_release x.status type
          >> pay_seller_out d x now reason type (or_else r (object x.auction_id)))
        (guarded-Returns (can_release e.status type)
          (pay_seller_out d e now reason type (or_else r (object e.auction_id)))
          (can_release_ok e.status type s payable)
          (pays_out e.seller_id owns (or_else r (object e.auction_id)) type released
            (record no_extra { released_at = some now; release_reason = some reason })
            (Event.escrow_released e.id e.auction_id e.buyer_id e.seller_id e.amount reason)))

  -- In a sound database `refundEscrow` returns for an escrow that is HELD, or DISPUTED with the
  -- reference of a dispute, if its amount is positive and its buyer has a wallet.
  pub refund_escrow-Returns :
      (reason : String) (type : TransactionReferenceType) (r : Option Reference) (now : ℕ)
      → Owns s e.buyer_id w
      → Payable type e.status
      → Returns (refund_escrow d e.id reason type r now s)
  unfolding refund_escrow pay_buyer_back closing
  refund_escrow-Returns reason type r now owns payable =
      found
        (λ x.
          can_refund x.status type
          >> pay_buyer_back d x now reason type (or_else r (object x.auction_id)))
        (guarded-Returns (can_refund e.status type)
          (pay_buyer_back d e now reason type (or_else r (object e.auction_id)))
          (can_refund_ok e.status type s payable)
          (pays_out e.buyer_id owns (or_else r (object e.auction_id)) type refunded
            (record no_extra { refunded_at = some now; release_reason = some reason })
            (Event.escrow_refunded e.id e.auction_id e.buyer_id e.seller_id e.amount reason)))
