-- ===== src/Escrow/Conservation.antt =====
-- The escrow service keeps the users' money: any sequence of its payouts, the scheduled ones
-- included.
use Prim.Native.String.{String}
use mazadak_backend.Base.{
  ℕ, pos, ◌≡◌, refl, sym, ap, ◌∙◌, subst, Bool, true, false, ◌||◌, inl, inr, Option, none, List, [],
  ◌∷◌, Replaced, here, there, if◌then◌else◌,
}
use mathlib.Core.List.{Memᴰ}
use mazadak_backend.Store.{Driver}
use mazadak_backend.Database.{
  Escrow, EscrowStatus, held, released, refunded, Reference, TransactionReferenceType, Database,
  Result, ok, err, in_session, in_session_rule,
}
use mazadak_backend.Escrow.{
  is_held, is_disputed, confirm_delivery, release_escrow, refund_escrow,
  handle_expired_held_escrows, in_custody,
}
use mazadak_backend.Escrow.Expiry.{expiry_rule}
use mazadak_backend.Escrow.Custody.{funds, IsSound, Settled-funds, Settled-IsSound}
use mazadak_backend.Escrow.Release.{
  PaysOut, Payable, release_escrow-PaysOut, refund_escrow-PaysOut, confirm_delivery-PaysOut,
}

abbrev pub is_kept : EscrowStatus → Bool
is_kept status = is_held status || is_disputed status

-- Nothing is lost or made, and what was paid out once is left alone.
pub record Keeps (s t : Database) : Type 0 where
  pub sound : IsSound t
  pub same_funds : funds t ≡ funds s
  pub final : (e : Escrow) → is_kept e.status ≡ false → Memᴰ e s.escrows → Memᴰ e t.escrows

abbrev pub Kept : {A : Type 0} → Database → Result A × Database → Type 0
Kept s x = Keeps s x.1

pub Keeps-refl : (s : Database) → IsSound s → Keeps s s
Keeps-refl s h = record { sound = h; same_funds = refl; final = λ _ _ m. m }

pub Keeps-trans : {s t u : Database} → Keeps s t → Keeps t u → Keeps s u
Keeps-trans h k = record {
  sound = k.sound;
  same_funds = k.same_funds ∙ h.same_funds;
  final = λ e f m. k.final e f (h.final e f m);
}

pub Payable-is_kept :
    (type : TransactionReferenceType) (st : EscrowStatus) → Payable type st → is_kept st ≡ true
Payable-is_kept type st (inl h) = ap is_kept h
Payable-is_kept type st (inr (h, _)) = ap is_kept h

pub amount_in_custody : (e : Escrow) → is_kept e.status ≡ true → in_custody e ≡ e.amount
amount_in_custody e h = ap (λ b. if b then e.amount else pos 0) h

pub nothing_in_custody :
    (final : EscrowStatus)
    → is_kept final ≡ false
    → (e : Escrow) → e.status ≡ final
    → in_custody e ≡ pos 0
nothing_in_custody final f e h = ap (λ b. if b then e.amount else pos 0) (ap is_kept h ∙ f)

-- Another element stays when one is replaced.
Replaced-other :
    {a b x : Escrow} {l k : List Escrow}
    → Replaced a b l k
    → is_kept a.status ≡ true
    → is_kept x.status ≡ false
    → Memᴰ x l
    → Memᴰ x k
Replaced-other here p q (Memᴰ.head e) =
    absurd (differ p q (ap (λ (y : Escrow). is_kept y.status) e))
  where
    differ : {u v : Bool} → u ≡ true → v ≡ false → v ≡ u → ⊥
    differ h k e = cc h
Replaced-other here p q (Memᴰ.tail m) = Memᴰ.tail m
Replaced-other (there r) p q (Memᴰ.head e) = Memᴰ.head e
Replaced-other (there r) p q (Memᴰ.tail m) = Memᴰ.tail (Replaced-other r p q m)

PaysOut-Keeps :
    {A : Type 0} (Allowed : Escrow → Type 0) (payee : Escrow → ℕ) (final : EscrowStatus) (i : ℕ)
    (s : Database)
    → IsSound s
    → ((e : Escrow) → Allowed e → is_kept e.status ≡ true)
    → is_kept final ≡ false
    → (x : Result A × Database) → PaysOut Allowed payee final i s x
    → Kept s x
PaysOut-Keeps Allowed payee final i s v from to (ok _, t) (e, stored, same, allowed, h) = record {
  sound = Settled-IsSound e (payee e) final s t h v;
  same_funds =
      Settled-funds e (payee e) final s t h (amount_in_custody e (from e allowed))
        (nothing_in_custody final to);
  final = λ x f m. Replaced-other h.replaced (from e allowed) f m;
}
PaysOut-Keeps Allowed payee final i s v from to (err _, t) h =
    subst (Keeps s) (sym h) (Keeps-refl s v)

module _ (d : Driver) where
  pub release_escrow-Keeps :
      (i : ℕ) (reason : String) (type : TransactionReferenceType) (r : Option Reference) (now : ℕ)
      (s : Database)
      → IsSound s
      → Kept s (release_escrow d i reason type r now s)
  release_escrow-Keeps i reason type r now s v =
      PaysOut-Keeps (λ e. Payable type e.status) (λ e. e.seller_id) released i s v
        (λ e. Payable-is_kept type e.status) refl (release_escrow d i reason type r now s)
        (release_escrow-PaysOut d s v i reason type r now)

  pub refund_escrow-Keeps :
      (i : ℕ) (reason : String) (type : TransactionReferenceType) (r : Option Reference) (now : ℕ)
      (s : Database)
      → IsSound s
      → Kept s (refund_escrow d i reason type r now s)
  refund_escrow-Keeps i reason type r now s v =
      PaysOut-Keeps (λ e. Payable type e.status) (λ e. e.buyer_id) refunded i s v
        (λ e. Payable-is_kept type e.status) refl (refund_escrow d i reason type r now s)
        (refund_escrow-PaysOut d s v i reason type r now)

  confirm_delivery-Keeps :
      (buyer i now : ℕ) (s : Database) → IsSound s → Kept s (confirm_delivery d buyer i now s)
  confirm_delivery-Keeps buyer i now s v =
      PaysOut-Keeps (λ e. (e.buyer_id ≡ buyer) × (e.status ≡ held)) (λ e. e.seller_id) released i s
        v (λ e h. ap is_kept h.1) refl (confirm_delivery d buyer i now s)
        (confirm_delivery-PaysOut d s v buyer i now)

  handle_expired-Keeps :
      (locked : Bool) (now : ℕ) (s : Database)
      → IsSound s
      → Kept s (handle_expired_held_escrows d locked now s)
  handle_expired-Keeps locked now s v =
      expiry_rule d now (Keeps s) (λ i t h. Keeps-trans h (expired i t h.sound)) locked s
        (Keeps-refl s v)
    where
      expired :
          (i : ℕ) (t : Database)
          → IsSound t
          → Kept t (
              in_session
                (release_escrow d i "EXPIRED_INSPECTION_WINDOW" TransactionReferenceType.escrow none
                  now)
                t)
      expired i t k =
          in_session_rule (Kept t) (Kept t)
            (release_escrow d i "EXPIRED_INSPECTION_WINDOW" TransactionReferenceType.escrow none
              now)
            t
            (release_escrow-Keeps i "EXPIRED_INSPECTION_WINDOW" TransactionReferenceType.escrow none
              now t k)
            (λ _ _ h. h) (λ _. Keeps-refl t k)

-- The calls that the program makes of the escrow service after an escrow's creation.
pub data EscrowCall : Type 0 where
  confirm : (buyer escrow_id now : ℕ) → EscrowCall
  release :
      (escrow_id : ℕ) (reason : String) (type : TransactionReferenceType)
      (reference : Option Reference) (now : ℕ)
      → EscrowCall
  refund :
      (escrow_id : ℕ) (reason : String) (type : TransactionReferenceType)
      (reference : Option Reference) (now : ℕ)
      → EscrowCall
  expire : (locked : Bool) (now : ℕ) → EscrowCall

module _ (d : Driver) where
  abbrev pub run_escrow_call : EscrowCall → Database → Database
  run_escrow_call (confirm buyer i now) s = (confirm_delivery d buyer i now s).1
  run_escrow_call (release i reason type r now) s = (release_escrow d i reason type r now s).1
  run_escrow_call (refund i reason type r now) s = (refund_escrow d i reason type r now s).1
  run_escrow_call (expire locked now) s = (handle_expired_held_escrows d locked now s).1

  abbrev pub run_escrow_calls : List EscrowCall → Database → Database
  run_escrow_calls [] s = s
  run_escrow_calls (c ∷ cs) s = run_escrow_calls cs (run_escrow_call c s)

  call-Keeps : (c : EscrowCall) (s : Database) → IsSound s → Keeps s (run_escrow_call c s)
  call-Keeps (confirm buyer i now) s v = confirm_delivery-Keeps d buyer i now s v
  call-Keeps (release i reason type r now) s v = release_escrow-Keeps d i reason type r now s v
  call-Keeps (refund i reason type r now) s v = refund_escrow-Keeps d i reason type r now s v
  call-Keeps (expire locked now) s v = handle_expired-Keeps d locked now s v

  -- From a sound database, any sequence of confirmations, releases, refunds and scheduled runs ends
  -- in a sound one in which the wallets' balances and the amounts in escrow add up to what they did
  -- before, and in which every escrow that was already RELEASED or REFUNDED is unchanged: no
  -- escrow is paid out twice.
  pub run_escrow_calls-Keeps :
      (cs : List EscrowCall) (s : Database) → IsSound s → Keeps s (run_escrow_calls cs s)
  run_escrow_calls-Keeps [] s v = Keeps-refl s v
  run_escrow_calls-Keeps (c ∷ cs) s v =
      let h : Keeps s (run_escrow_call c s) = call-Keeps c s v in
      Keeps-trans h (run_escrow_calls-Keeps cs (run_escrow_call c s) h.sound)
