-- ===== src/Escrow/Data.antt =====
-- What the escrow calls are given, their guards, and the amounts in custody (escrow.service.ts,
-- mongo.escrow.repository.ts).
use Prim.Native.String.{String}
use mazadak_backend.Base.{
  given, ℕ, ℤ, pos, ◌+◌, ◌*◌, Bool, true, false, not, ◌&&◌, ◌||◌, Option, none, ◌==◌, or_else,
  if◌then◌else◌, sum_of,
}
use mazadak_backend.Database.{
  Escrow, EscrowStatus, held, released, refunded, disputed, TransactionReferenceType, Database,
  Error, Action, ◌>>◌, throw_if,
}

abbrev pub is_held : EscrowStatus → Bool
is_held held = true
is_held _ = false

abbrev pub is_released : EscrowStatus → Bool
is_released released = true
is_released _ = false

abbrev pub is_refunded : EscrowStatus → Bool
is_refunded refunded = true
is_refunded _ = false

abbrev pub is_disputed : EscrowStatus → Bool
is_disputed disputed = true
is_disputed _ = false

-- INSPECTION_WINDOW_DAYS, in milliseconds.
abbrev pub inspection_window : ℕ
inspection_window = 7 * 24 * 60 * 60 * 1000

-- UpdateEscrowExtraData: only what is given is set.
pub record EscrowExtra : Type 0 where
  pub released_at : Option ℕ
  pub refunded_at : Option ℕ
  pub dispute_id : Option ℕ
  pub release_reason : Option String

abbrev pub no_extra : EscrowExtra
no_extra = record {
  released_at = none;
  refunded_at = none;
  dispute_id = none;
  release_reason = none;
}

abbrev pub with_status : EscrowStatus → EscrowExtra → Escrow → Escrow
with_status status x e = record e {
  status = status;
  released_at = given x.released_at e.released_at;
  refunded_at = given x.refunded_at e.refunded_at;
  release_reason = given x.release_reason e.release_reason;
  dispute_id = given x.dispute_id e.dispute_id;
}

pub record CreateEscrow : Type 0 where
  pub auction_id : ℕ
  pub buyer_id : ℕ
  pub seller_id : ℕ
  pub amount : ℤ
  pub currency : Option String

abbrev pub new_escrow : CreateEscrow → ℕ → ℕ → Escrow
new_escrow c now i = record {
  id = i;
  auction_id = c.auction_id;
  buyer_id = c.buyer_id;
  seller_id = c.seller_id;
  amount = c.amount;
  currency = or_else c.currency "EGP";
  status = held;
  inspection_period_ends_at = now + inspection_window;
  released_at = none;
  refunded_at = none;
  dispute_id = none;
  release_reason = none;
}

abbrev pub is_dispute_reference : TransactionReferenceType → Bool
is_dispute_reference TransactionReferenceType.dispute = true
is_dispute_reference _ = false

-- The guards of `releaseEscrow`, and those of `refundEscrow`.
abbrev pub can_release : EscrowStatus → TransactionReferenceType → Action (Unit {0})
can_release status type = do
  throw_if (is_released status) Error.escrow_already_released
  throw_if (is_refunded status) Error.escrow_already_refunded
  throw_if (is_disputed status && not (is_dispute_reference type)) Error.escrow_already_disputed

abbrev pub can_refund : EscrowStatus → TransactionReferenceType → Action (Unit {0})
can_refund status type = do
  throw_if (is_refunded status) Error.escrow_already_refunded
  throw_if (is_released status) Error.escrow_already_released
  throw_if (is_disputed status && not (is_dispute_reference type)) Error.escrow_already_disputed

abbrev pub can_confirm : ℕ → Escrow → Action (Unit {0})
can_confirm buyer e = do
  throw_if (not (e.buyer_id == buyer)) Error.escrow_unauthorized
  throw_if (is_released e.status) Error.escrow_already_released
  throw_if (is_disputed e.status) Error.escrow_already_disputed
  throw_if (not (is_held e.status)) Error.invalid_escrow_action

-- What is kept for an escrow in status HELD or DISPUTED.
abbrev pub in_custody : Escrow → ℤ
in_custody e = if is_held e.status || is_disputed e.status then e.amount else pos 0

-- `sumHeldEscrows`
abbrev pub sum_held_escrows : Database → ℤ
sum_held_escrows s = sum_of in_custody s.escrows
