-- ===== src/Prelude/Bits.antt =====
-- Single bits of a machine word, by its digits: reading, setting and clearing them.
use Prim.Native.Nat.{ℕ, zero, suc, ◌+◌, ◌*◌, ◌/◌, ◌%◌, ◌<◌}
use mathlib.Core.Path.{◌≡◌, refl, ◌∙◌, ap}
use mathlib.Core.Bool.{Bool, true, false}
use native.Mathlib.Omega.{arith}
use google_modules_lwis.Prelude.Tests.{◌==◌, if◌then◌else◌}

-- (x >> k) & 1.
unfoldable pub test_bit : ℕ → ℕ → Bool
test_bit x zero = x % 2 == 1
test_bit x (suc k) = test_bit (x / 2) k

-- x | (1 << k) and x & ~(1 << k).
unfoldable pub set_bit : ℕ → ℕ → ℕ
set_bit x zero = x / 2 * 2 + 1
set_bit x (suc k) = set_bit (x / 2) k * 2 + x % 2

unfoldable pub clear_bit : ℕ → ℕ → ℕ
clear_bit x zero = x / 2 * 2
clear_bit x (suc k) = clear_bit (x / 2) k * 2 + x % 2

half : (a b : ℕ) → b < 2 → (a * 2 + b) / 2 ≡ a
half a b h = omega arith

double_half : (a : ℕ) → a * 2 / 2 ≡ a
double_half a = omega arith

low : (a b : ℕ) → b < 2 → (a * 2 + b) % 2 ≡ b
low a b h = omega arith

pub test-set_bit : (x k j : ℕ) → test_bit (set_bit x k) j ≡ (if k == j then true else test_bit x j)
unfolding test_bit set_bit
test-set_bit x zero zero = ground arith
test-set_bit x zero (suc j) =
    ap (λ (n : ℕ). test_bit n j) (half (x / 2) 1 (omega arith)) ∙ ground arith
test-set_bit x (suc k) zero = ground (arith, low (set_bit (x / 2) k) (x % 2))
test-set_bit x (suc k) (suc j) =
    ap (λ (n : ℕ). test_bit n j) (half (set_bit (x / 2) k) (x % 2) (omega arith))
    ∙ test-set_bit (x / 2) k j
    ∙ ground arith

pub test-clear_bit :
    (x k j : ℕ) → test_bit (clear_bit x k) j ≡ (if k == j then false else test_bit x j)
unfolding test_bit clear_bit
test-clear_bit x zero zero = ground arith
test-clear_bit x zero (suc j) = ap (λ (n : ℕ). test_bit n j) (double_half (x / 2)) ∙ ground arith
test-clear_bit x (suc k) zero = ground (arith, low (clear_bit (x / 2) k) (x % 2))
test-clear_bit x (suc k) (suc j) =
    ap (λ (n : ℕ). test_bit n j) (half (clear_bit (x / 2) k) (x % 2) (omega arith))
    ∙ test-clear_bit (x / 2) k j
    ∙ ground arith

pub test_bit-zero : (j : ℕ) → test_bit 0 j ≡ false
unfolding test_bit
test_bit-zero zero = refl
test_bit-zero (suc j) = test_bit-zero j
