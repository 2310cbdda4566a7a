-- ===== src/Prelude/Int.antt =====
-- Integers over the native numbers, as far as the code counts below zero.
use Prim.Native.Nat.{ℕ, suc, ◌+◌, ◌-◌, ◌*◌, ◌/◌, ◌≤◌}
use mathlib.Core.Path.{◌≡◌}
use mathlib.Core.Bool.{Bool}
use native.Mathlib.Omega.{arith}
use st_tools.Prelude.Tests.{ltb, if◌then◌else◌}

-- `negsuc n` is -(n + 1).
pub data ℤ : Type 0 where
  pos negsuc : ℕ → ℤ

-- An integer is the difference of its two sides, of which one is 0.
abbrev pub above : ℤ → ℕ
above (pos n) = n
above (negsuc n) = 0

abbrev pub below : ℤ → ℕ
below (pos n) = 0
below (negsuc n) = suc n

abbrev pub difference : ℕ → ℕ → ℤ
difference m n = if ltb m n then negsuc (n - m - 1) else pos (m - n)

infixl 65 ◌+ℤ◌ ◌-ℤ◌
infix 50 ◌≤ℤ◌
unfoldable pub ◌+ℤ◌ : ℤ → ℤ → ℤ
i +ℤ j = difference (above i + above j) (below i + below j)

unfoldable pub ◌-ℤ◌ : ℤ → ℤ → ℤ
i -ℤ j = difference (above i + below j) (below i + above j)

abbrev pub ◌≤ℤ◌ : ℤ → ℤ → Type 0
i ≤ℤ j = above i + below j ≤ above j + below i

abbrev pub ltb_ℤ : ℤ → ℤ → Bool
ltb_ℤ i j = ltb (above i + below j) (above j + below i)

-- `abs`
abbrev pub magnitude : ℤ → ℕ
magnitude i = above i + below i

-- `0.8 * i`, for a multiple of five.
unfoldable pub four_fifths : ℤ → ℤ
four_fifths (pos n) = pos (4 * n / 5)
four_fifths (negsuc n) = difference 0 (4 * suc n / 5)

pub -ℤ_sides : (i j : ℤ) → above (i -ℤ j) + below i + above j ≡ below (i -ℤ j) + above i + below j
unfolding ◌-ℤ◌
-ℤ_sides i j = ground arith

pub +ℤ_sides : (i j : ℤ) → above (i +ℤ j) + below i + below j ≡ below (i +ℤ j) + above i + above j
unfolding ◌+ℤ◌
+ℤ_sides i j = ground arith

pub eq_of_sides : (i j : ℤ) → above i + below j ≡ above j + below i → i ≡ j
eq_of_sides i j h = ground arith

-- `omega` works with sums and differences shut.
pub ruleset int_laws = (arith, +ℤ_sides, -ℤ_sides, eq_of_sides)
