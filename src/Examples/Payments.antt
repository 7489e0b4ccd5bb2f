-- ===== src/Examples/Payments.antt =====
-- The theorems on wallets and escrows, at a small database.
use mazadak_backend.Base.{ℕ, pos, ◌≡◌, refl, inl, inr, none, some, List, [], ◌∷◌, true, ◌-ℤ◌, arith}
use mathlib.Core.List.{Memᴰ}
use mazadak_backend.Store.ListStore.{list_store}
use mazadak_backend.Database.{
  Database, Wallet, Escrow, EscrowStatus, held, released, refunded, disputed,
  TransactionReferenceType, object,
}
use mazadak_backend.Wallet.Effect.{IsKeyed}
use mazadak_backend.Wallet.Success.{Owns}
use mazadak_backend.Wallet.Totals.{AllSolvent}
use mazadak_backend.Wallet.History.{
  WalletCall, deposits, withdraws, holds_funds, captures, Accounted, run_calls, run_calls-Accounted,
}
use mazadak_backend.Wallet.Spending.{holding, spend, SpendOutcome, spend_outcome}
use mazadak_backend.Escrow.{
  CreateEscrow, create_escrow, confirm_delivery, release_escrow, refund_escrow,
}
use mazadak_backend.Escrow.Progress.{Returns, release_escrow-Returns, refund_escrow-Returns}
use mazadak_backend.Escrow.Creation.{Creates, create_escrow-Creates}
use mazadak_backend.Escrow.Custody.{IsSound}
use mazadak_backend.Escrow.Release.{
  PaysOut, Payable, release_escrow-PaysOut, refund_escrow-PaysOut, confirm_delivery-PaysOut,
}
use mazadak_backend.Escrow.Conservation.{
  EscrowCall, confirm, refund, expire, Keeps, run_escrow_calls, run_escrow_calls-Keeps,
}

abbrev pub buyer_wallet : Wallet
buyer_wallet = record { id = 1; user_id = 10; balance = pos 1000; held_balance = pos 100 }

abbrev seller_wallet : Wallet
seller_wallet = record { id = 2; user_id = 11; balance = pos 50; held_balance = pos 0 }

abbrev pub escrow_of : ℕ → ℕ → EscrowStatus → Escrow
escrow_of i auction status = record {
  id = i;
  auction_id = auction;
  buyer_id = 10;
  seller_id = 11;
  amount = pos 200;
  currency = "EGP";
  status = status;
  inspection_period_ends_at = 500;
  released_at = none;
  refunded_at = none;
  dispute_id = none;
  release_reason = none;
}

abbrev pub platform : Database
platform = record {
  wallets = buyer_wallet ∷ seller_wallet ∷ [];
  transactions = [];
  outbox = [];
  escrows = escrow_of 5 50 held ∷ escrow_of 6 60 disputed ∷ [];
  disputes = [];
  withdrawals = [];
  auctions = [];
  bids = [];
  auto_bids = [];
  generated = 1000;
}

pub platform-IsKeyed : IsKeyed platform
platform-IsKeyed = record {
  ids = ((omega arith, tt), (tt, tt));
  owners = ((omega arith, tt), (tt, tt));
}

pub platform-AllSolvent : AllSolvent platform
platform-AllSolvent = (
  record { held_nonneg = omega arith; covered = omega arith },
  (record { held_nonneg = omega arith; covered = omega arith }, tt),
)

platform-IsSound : IsSound platform
platform-IsSound = record {
  keyed = platform-IsKeyed;
  solvent = platform-AllSolvent;
  escrows = ((omega arith, tt), (tt, tt));
}

-- A payment, two movements of what is held, and a withdrawal that fails.
abbrev wallet_calls : List WalletCall
wallet_calls =
    deposits 11 (pos 70) none none none none
    ∷ holds_funds 10 (pos 300) none none
    ∷ captures 10 (pos 400) none none
    ∷ withdraws 11 (pos 500) none none none
    ∷ []

run_calls-Accounted_example :
    let (done, t) = run_calls list_store wallet_calls [] platform in Accounted platform t done
run_calls-Accounted_example =
    run_calls-Accounted list_store wallet_calls platform platform-IsKeyed platform-AllSolvent

spend_outcome_example :
    SpendOutcome 10
      (pos 950)
      buyer_wallet
      (pos 1000 -ℤ pos 100)
      platform
      (spend list_store holding 10 (pos 950) none none platform)
spend_outcome_example =
    spend_outcome list_store 10 buyer_wallet platform platform-IsKeyed
      (record { stored = Memᴰ.head refl; owner = refl }) (pos 950) none none holding

release_escrow-PaysOut_example :
    PaysOut
      (λ e. Payable TransactionReferenceType.dispute e.status)
      (λ e. e.seller_id)
      released
      6
      platform
      (release_escrow list_store 6 "ADMIN" TransactionReferenceType.dispute
        (some (object 8))
        700
        platform)
release_escrow-PaysOut_example =
    release_escrow-PaysOut list_store platform platform-IsSound 6 "ADMIN"
      TransactionReferenceType.dispute (some (object 8)) 700

refund_escrow-PaysOut_example :
    PaysOut
      (λ e. Payable TransactionReferenceType.dispute e.status)
      (λ e. e.buyer_id)
      refunded
      6
      platform
      (refund_escrow list_store 6 "ADMIN" TransactionReferenceType.dispute
        (some (object 8))
        700
        platform)
refund_escrow-PaysOut_example =
    refund_escrow-PaysOut list_store platform platform-IsSound 6 "ADMIN"
      TransactionReferenceType.dispute (some (object 8)) 700

confirm_delivery-PaysOut_example :
    PaysOut
      (λ e. (e.buyer_id ≡ 10) × (e.status ≡ held))
      (λ e. e.seller_id)
      released
      5
      platform
      (confirm_delivery list_store 10 5 400 platform)
confirm_delivery-PaysOut_example =
    confirm_delivery-PaysOut list_store platform platform-IsSound 10 5 400

-- The scheduled run pays the escrow of auction 50, and nothing more can be had for it.
abbrev escrow_calls : List EscrowCall
escrow_calls =
    expire true 600
    ∷ confirm 10 5 601
    ∷ refund 6 "ADMIN" TransactionReferenceType.dispute (some (object 8)) 700
    ∷ []

run_escrow_calls-Keeps_example : Keeps platform (run_escrow_calls list_store escrow_calls platform)
run_escrow_calls-Keeps_example =
    run_escrow_calls-Keeps list_store escrow_calls platform platform-IsSound

-- The payment for auction 70.
abbrev payment : CreateEscrow
payment = record {
  auction_id = 70;
  buyer_id = 10;
  seller_id = 11;
  amount = pos 300;
  currency = none;
}

create_escrow-Creates_example :
    Creates payment 100 platform (create_escrow list_store payment 100 platform)
create_escrow-Creates_example =
    create_escrow-Creates list_store payment 100 platform ((omega arith, tt), (tt, tt))

buyer-Owns : Owns platform 10 buyer_wallet
buyer-Owns = record { stored = Memᴰ.head refl; owner = refl }

seller-Owns : Owns platform 11 seller_wallet
seller-Owns = record { stored = Memᴰ.tail (Memᴰ.head refl); owner = refl }

release_escrow-Returns_example :
    Returns
      (release_escrow list_store 5 "EXPIRED" TransactionReferenceType.escrow none 700 platform)
release_escrow-Returns_example =
    release_escrow-Returns list_store platform platform-IsSound (escrow_of 5 50 held)
      (Memᴰ.head refl) (omega arith) seller_wallet "EXPIRED" TransactionReferenceType.escrow none
      700 seller-Owns (inl refl)

refund_escrow-Returns_example :
    Returns (refund_escrow list_store 6 "ADMIN" TransactionReferenceType.dispute none 700 platform)
refund_escrow-Returns_example =
    refund_escrow-Returns list_store platform platform-IsSound (escrow_of 6 60 disputed)
      (Memᴰ.tail (Memᴰ.head refl)) (omega arith) buyer_wallet "ADMIN"
      TransactionReferenceType.dispute none 700 buyer-Owns (inr (refl, refl))
