-- ===== src/Data/Flags.antt =====
-- struct ControllableFlag of include/basic/data_manager_def.h. `!` is the logical negation of C++,
-- which gives 0 or 1.
mod Tests
use Prim.Native.Nat.{
  ℕ, zero, suc, digits, bit_or, bit_or-bitwise, bit_and, bit_and-bitwise, max, min,
}
use module_flow.Prelude.{
  ◌≤◌, ◌/◌, ◌≡◌, refl, Bool, true, false, not, ◌≢◌, ◌==◌, nat_eq, if◌then◌else◌, arith,
}

-- enum Flags
abbrev pub readable : ℕ
readable = 0x0001

abbrev pub writeable : ℕ
writeable = 0x0002

unfoldable pub logical_not : ℕ → ℕ
logical_not n = if n == 0 then 1 else 0

-- `flags_ = !(0)`
unfoldable pub initial_flags : ℕ
unfolding logical_not
initial_flags = logical_not 0

-- flag<F>()
unfoldable pub flag : ℕ → ℕ → Bool
flag f flags = not (bit_or flags f == 0)

-- setFlag<F>(B)
unfoldable pub set_flag : ℕ → Bool → ℕ → ℕ
unfolding logical_not
set_flag f b flags = if b then bit_or flags f else bit_and flags (logical_not f)

le-or_digits : (n a b : ℕ) → b ≤ digits (λ b. b) max n a b
le-or_digits zero zero b = omega arith
le-or_digits zero (suc a) b = omega arith
le-or_digits (suc n) zero b = omega arith
le-or_digits (suc n) (suc a) b = omega (arith, le-or_digits n (suc a / 2) (b / 2))

or-ne-zero : (a b : ℕ) → b ≢ 0 → bit_or a b ≢ 0
or-ne-zero a b n e = n (omega (arith, bit_or-bitwise a b, le-or_digits a a b))

and_digits_zero : (n a : ℕ) → digits (λ b. 0) min n a 0 ≡ 0
and_digits_zero zero zero = refl
and_digits_zero zero (suc a) = refl
and_digits_zero (suc n) zero = refl
and_digits_zero (suc n) (suc a) = omega (arith, and_digits_zero n (suc a / 2))

and-zero : (a : ℕ) → bit_and a 0 ≡ 0
and-zero a = omega (arith, bit_and-bitwise a 0, and_digits_zero a a)

-- For flags of the enumeration, or any other codes that are not 0: after setFlag<F>(false) no bit is
-- set at all, and flag<G>() reports true all the same, for G = F and for any other G.
pub flag-set_flag-false :
    (f g flags : ℕ)
    → f ≢ 0
    → g ≢ 0
    → (set_flag f false flags ≡ 0) × (flag g (set_flag f false flags) ≡ true)
unfolding flag set_flag logical_not
flag-set_flag-false f g flags n k = ground (arith, and-zero flags, or-ne-zero 0 g k)
