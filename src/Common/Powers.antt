-- ===== src/Common/Powers.antt =====
-- Delays that double.
use Prim.Native.Nat.{ℕ, zero, suc, ◌+◌, ◌-◌, ◌*◌, ◌^◌, ◌≤◌}
use Prim.Native.Nat.pow
use mathlib.Core.Path.{◌≡◌, subst}
use native.Mathlib.Omega.{arith}

doubled : (b n : ℕ) → b * 2 ^ suc n ≡ 2 * (b * 2 ^ n)
doubled b n = simp (pow.suc) (grind arith)

step : (b n : ℕ) → b * 2 ^ n ≤ b * 2 ^ suc n
step b n = omega (arith, doubled b n)

pub from_base : (b n : ℕ) → b ≤ b * 2 ^ n
from_base b zero = simp (pow.zero) (omega arith)
from_base b (suc n) = omega (arith, from_base b n, step b n)

grows_by : (b m k : ℕ) → b * 2 ^ m ≤ b * 2 ^ (m + k)
grows_by b m zero =
    let e : m ≡ m + 0 = omega arith in
    let same : b * 2 ^ m ≤ b * 2 ^ m = omega arith in subst (λ k. b * 2 ^ m ≤ b * 2 ^ k) e same
grows_by b m (suc k) =
    let e : suc (m + k) ≡ m + suc k = omega arith in
    let more : b * 2 ^ m ≤ b * 2 ^ suc (m + k) = omega (arith, grows_by b m k, step b (m + k)) in
    subst (λ j. b * 2 ^ m ≤ b * 2 ^ j) e more

pub grows : (b m n : ℕ) → m ≤ n → b * 2 ^ m ≤ b * 2 ^ n
grows b m n h =
    let e : m + (n - m) ≡ n = omega arith in
    subst (λ k. b * 2 ^ m ≤ b * 2 ^ k) e (grows_by b m (n - m))
