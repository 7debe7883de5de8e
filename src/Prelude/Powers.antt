-- ===== src/Prelude/Powers.antt =====
-- Powers of two, and the remainder by a product.
use Prim.Native.Nat.{ℕ, zero, suc, ◌+◌, ◌*◌, ◌/◌, ◌%◌, ◌^◌, ◌<◌, ◌≤◌}
use mathlib.Core.Path.{◌≡◌, ap, ◌∙◌}
use native.Mathlib.Omega.{arith}
use native.Mathlib.Nat.{
  pow-suc, mod-lt, mul-le-mul_right, mul_comm, div-add-mod', add-mul-mod_self_right, mod-eq_of_lt,
}

pub pow_sum : (a b : ℕ) → 2 ^ (a + b) ≡ 2 ^ a * 2 ^ b
pow_sum zero b = let none : 0 + b ≡ b = omega arith in rw none (omega arith)
pow_sum (suc a) b =
    let next : suc a + b ≡ suc (a + b) = omega arith in
    let left = pow-suc 2 (a + b) in
    let right = pow-suc 2 a in let ih = pow_sum a b in rw (next, left, right, ih) (grind arith)

-- A remainder by a product.
pub mod_product : (y m w : ℕ) → 0 < m → 0 < w → y % (m * w) ≡ y / m % w * m + y % m
mod_product y m w h k =
    let q : ℕ = y / m in
    let r : ℕ = q % w in
    let n : ℕ = q / w in
    let low : ℕ = r * m + y % m in
    let last : y % m < m = mod-lt y h in
    let field : r + 1 ≤ w = omega (arith, mod-lt q k) in
    let fits : (r + 1) * m ≤ w * m = mul-le-mul_right m field in
    let spread : (r + 1) * m ≡ r * m + m = grind arith in
    let order : w * m ≡ m * w = mul_comm w m in
    let low_lt : low < m * w = omega (arith, fits, spread, last, order) in
    let apart : (n * w + r) * m ≡ n * (m * w) + r * m = grind arith in
    let whole : y ≡ low + n * (m * w) =
      omega (arith, div-add-mod' y m, ap (λ (x : ℕ). x * m) (div-add-mod' q w), apart) in
    ap (λ (x : ℕ). x % (m * w)) whole ∙ add-mul-mod_self_right low n (m * w) ∙ mod-eq_of_lt low_lt
