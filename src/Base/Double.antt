-- ===== src/Base/Double.antt =====
-- `Number.toFixed(2)`: an amount is a JavaScript number, of which the model has the decimal form. The
-- number is the double nearest to it, and is rounded by its exact binary value.
use Prim.Native.Nat.{ℕ, zero, suc, ◌+◌, ◌*◌, ◌/◌, ◌%◌, ◌^◌}
use mathlib.Core.Path.{◌≡◌, refl}
use mazadak_backend.Base.Tests.{ltb, if◌then◌else◌}
use mazadak_backend.Base.Money.{ℤ, pos, negsuc, ◌-ℤ◌, egp, piastre}

-- The least s from the given one on, of as many as the fuel, with n * 2 ^ s at least 2 ^ 52 pounds: so
-- many binary places the double has. Numbers from 2 ^ 52 on are whole.
binary_places : (fuel n s : ℕ) → ℕ
binary_places zero n s = s
binary_places (suc fuel) n s =
    let more = binary_places fuel n (suc s) in if ltb (n * 2 ^ s) (egp * 2 ^ 52) then more else s

-- The nearest multiple of 2 ^ -s, as the count of them; of two the even one.
nearest : (n s : ℕ) → ℕ
nearest n s =
    let q = n * 2 ^ s / egp in
    let r = n * 2 ^ s % egp in
    if ltb (2 * r) egp then q else if ltb egp (2 * r) then q + 1 else q + q % 2

-- The hundredths nearest to m * 2 ^ -s; of two the larger number.
hundredths : (m s : ℕ) → ℕ
hundredths m s = (200 * m + 2 ^ s) / (2 * 2 ^ s)

-- 120 places are enough: the smallest amount that is not zero has 119.
rounded : ℕ → ℕ
unfolding binary_places nearest hundredths
rounded n = let s = binary_places 120 n 0 in hundredths (nearest n s) s * piastre

pub number_to_fixed : ℤ → ℤ
unfolding rounded
number_to_fixed (pos n) = pos (rounded n)
number_to_fixed (negsuc n) = pos 0 -ℤ pos (rounded (suc n))

-- 1.005 is below its decimal form, 50.005 above, and 0.125 exact.
below_half : number_to_fixed (pos (1005 * 100000000000000000)) ≡ pos (100 * piastre)
unfolding number_to_fixed rounded
below_half = refl

above_half : number_to_fixed (pos (50005 * 100000000000000000)) ≡ pos (5001 * piastre)
unfolding number_to_fixed rounded
above_half = refl

half : number_to_fixed (pos (125 * 100000000000000000)) ≡ pos (13 * piastre)
unfolding number_to_fixed rounded
half = refl

least : number_to_fixed (pos 1) ≡ pos 0
unfolding number_to_fixed rounded
least = refl
