-- ===== src/Withdrawals/Fees.antt =====
-- The figures of `calculateFee`, which rounds each on its own.
use Prim.Native.Nat.{◌%◌, ◌+◌, ◌-◌}
use native.Mathlib.Nat.{mul-le-mul_left}
use mazadak_backend.Base.{
  ℕ, refl, Bool-cases, inl, inr, ==→eq, ◌≡◌, ◌≤◌, ◌*◌, ◌/◌, pos, ◌+ℤ◌, ◌-ℤ◌, ◌≤ℤ◌, arith, int_laws,
  if◌then◌else◌, ◌==◌, piastre, half_piastre,
}
use mazadak_backend.Database.{PayoutMethod}
use mazadak_backend.Withdrawals.{FeePreview, calculate_fee}

-- What is too much: a piastre, when the fee ends in half a piastre.
abbrev pub excess : ℕ → ℕ
excess fee = if fee % piastre == half_piastre then piastre else 0

-- The fee and the net amount add up to the requested amount, a piastre more or less.
abbrev pub IsWithinPiastre : FeePreview → Type 0
IsWithinPiastre f =
    (f.fee +ℤ f.net_amount ≤ℤ f.requested_amount +ℤ pos piastre)
    × (f.requested_amount ≤ℤ f.fee +ℤ f.net_amount +ℤ pos piastre)

at_most : (n p : ℕ) → p ≤ 100000 → n * p / 100000 ≤ n
at_most n p h = let k : n * p ≤ n * 100000 = mul-le-mul_left n h in omega arith

-- To whole piastres, halves up.
abbrev shown : ℕ → ℕ
shown n = (n + half_piastre) / piastre * piastre

parts_add_up : (n x : ℕ) → n % piastre ≡ 0 → x ≤ n → shown x + shown (n - x) ≡ shown n + excess x
parts_add_up n x h k = elim (Bool-cases (x % piastre == half_piastre)) [
  | inl e ↦ let f = ==→eq (x % piastre) half_piastre e in rw e (omega arith)
  | inr e ↦ ground arith
]

added : (a b : ℕ) → pos a +ℤ pos b ≡ pos (a + b)
added a b = omega int_laws

taken : (a b : ℕ) → b ≤ a → pos a -ℤ pos b ≡ pos (a - b)
taken a b h = omega int_laws

-- For an amount of whole piastres and a percentage of at most 100, the fee and the net amount shown by
-- `calculateFee` add up to the requested amount shown, and to a piastre more when the fee ends in half
-- a piastre.
pub calculate_fee_sum :
    (percentage n : ℕ) (method : PayoutMethod)
    → percentage ≤ 100000
    → n % piastre ≡ 0
    → (calculate_fee percentage (pos n) method).fee
        +ℤ (calculate_fee percentage (pos n) method).net_amount
      ≡ (calculate_fee percentage (pos n) method).requested_amount
        +ℤ pos (excess (n * percentage / 100000))
unfolding calculate_fee
calculate_fee_sum percentage n method h k =
    let x = n * percentage / 100000 in
    let le = at_most n percentage h in
    rw
      (
        taken n x le,
        added (shown x) (shown (n - x)),
        added (shown n) (excess x),
        parts_add_up n x k le,
      )
      refl
