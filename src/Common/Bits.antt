-- ===== src/Common/Bits.antt =====
-- `&` against a mask of the top bits. The native operation comes with its defining recursion only.
use Prim.Native.Nat.{
  ℕ, zero, suc, ◌+◌, ◌*◌, ◌/◌, ◌%◌, ◌≤◌, ◌<◌, min, bit_and, digits, bit_and-bitwise,
}
use mathlib.Core.Path.{◌≡◌, refl, ◌∙◌, ap}
use native.Mathlib.Omega.{arith}

abbrev conj : ℕ → ℕ → ℕ → ℕ
conj = digits (λ _. zero) min

-- Fuel beyond the first operand changes nothing.
conj_enough : (fuel extra x y : ℕ) → x ≤ fuel → x ≤ extra → conj fuel x y ≡ conj extra x y
conj_enough zero zero x y h k = refl
conj_enough zero (suc extra) zero y h k = refl
conj_enough zero (suc extra) (suc x) y h k = absurd (omega arith)
conj_enough (suc fuel) zero zero y h k = refl
conj_enough (suc fuel) (suc extra) zero y h k = refl
conj_enough (suc fuel) zero (suc x) y h k = absurd (omega arith)
conj_enough (suc fuel) (suc extra) (suc x) y h k =
    omega (arith, conj_enough fuel extra (suc x / 2) (y / 2) (omega arith) (omega arith))

lowest_digit : (x y : ℕ) → bit_and x y ≡ bit_and (x / 2) (y / 2) * 2 + min (x % 2) (y % 2)
lowest_digit zero y = omega (arith, bit_and-bitwise zero y, bit_and-bitwise zero (y / 2))
lowest_digit (suc x) y = omega (
  arith,
  bit_and-bitwise (suc x) y,
  bit_and-bitwise (suc x / 2) (y / 2),
  conj_enough x (suc x / 2) (suc x / 2) (y / 2) (omega arith) (omega arith),
)

abbrev pub shift_left : ℕ → ℕ → ℕ
shift_left zero m = m
shift_left (suc k) m = shift_left k m * 2

abbrev pub shift_right : ℕ → ℕ → ℕ
shift_right zero x = x
shift_right (suc k) x = shift_right k (x / 2)

halve : (x m n : ℕ) → n * 2 ≡ m → bit_and x m ≡ bit_and (x / 2) n * 2
halve x m n h = omega (arith, lowest_digit x m, ap (λ (t : ℕ). bit_and (x / 2) t) (half_of m n h))
  where
    half_of : (m n : ℕ) → n * 2 ≡ m → m / 2 ≡ n
    half_of m n h = omega arith

-- A mask that ends in `k` zeros reads only what stands above them.
pub bit_and-shift_left :
    (k x m : ℕ) → bit_and x (shift_left k m) ≡ shift_left k (bit_and (shift_right k x) m)
bit_and-shift_left zero x m = refl
bit_and-shift_left (suc k) x m =
    halve x _ (shift_left k m) refl ∙ ap (λ (t : ℕ). t * 2) (bit_and-shift_left k (x / 2) m)

pub bit_and_three : (x : ℕ) → x < 4 → bit_and x 3 ≡ x
bit_and_three zero h = refl
bit_and_three (suc zero) h = refl
bit_and_three (suc (suc zero)) h = refl
bit_and_three (suc (suc (suc zero))) h = refl
bit_and_three (suc (suc (suc (suc x)))) h = absurd (omega arith)
