-- ===== src/Prelude/Bits/Step.antt =====
-- The lowest binary digit of `&`, `|` and `^`. What the native operations stand for recurs on fuel,
-- as much as the left number; the extra fuel is shown not to matter.
use Prim.Native.Nat.{
  ℕ, zero, suc, ◌+◌, ◌*◌, ◌/◌, ◌%◌, ◌-◌, ◌≤◌, ◌<◌, min, max, bit_and, bit_or, bit_xor, bitwise,
  digits, differ, bit_and-bitwise, bit_or-bitwise, bit_xor-bitwise,
}
use mathlib.Core.Path.{◌≡◌, refl, ◌∙◌}
use native.Mathlib.Omega.{arith}

module _ (rest : ℕ → ℕ) (digit : ℕ → ℕ → ℕ) where
  one_more :
      (fuel x y : ℕ) → x ≤ fuel → digits rest digit (suc fuel) x y ≡ digits rest digit fuel x y
  one_more zero zero y h = refl
  one_more zero (suc x) y h = elim h [ ]
  one_more (suc fuel) zero y h = refl
  one_more (suc fuel) (suc x) y h =
      let half : suc x / 2 ≤ fuel = omega arith in rw (one_more fuel (suc x / 2) (y / 2) half)

  spare :
      (extra fuel total x y : ℕ)
      → fuel + extra ≡ total
      → x ≤ fuel
      → digits rest digit total x y ≡ digits rest digit fuel x y
  spare zero fuel total x y e h = let same : total ≡ fuel = omega arith in rw same
  spare (suc extra) fuel total x y e h =
      let more : total ≡ suc (fuel + extra) = omega arith in
      rw more
        (one_more (fuel + extra) x y (omega arith) ∙ spare extra fuel (fuel + extra) x y refl h)

  lowest :
      (x y : ℕ)
      → bitwise rest digit (suc x) y
        ≡ bitwise rest digit (suc x / 2) (y / 2) * 2 + digit (suc x % 2) (y % 2)
  lowest x y =
      let enough : suc x / 2 ≤ x = omega arith in
      let cut =
        spare (x - suc x / 2) (suc x / 2) x (suc x / 2) (y / 2) (omega arith) (omega arith) in
      omega (arith, cut)

-- `&` takes the smaller of two digits, `|` the larger, and `^` their sum without the carry.
pub bit_and_step : (x y : ℕ) → bit_and x y ≡ bit_and (x / 2) (y / 2) * 2 + min (x % 2) (y % 2)
bit_and_step zero y = simp bit_and-bitwise (omega arith)
bit_and_step (suc x) y = simp bit_and-bitwise (lowest (λ t. 0) min x y)

pub bit_or_step : (x y : ℕ) → bit_or x y ≡ bit_or (x / 2) (y / 2) * 2 + max (x % 2) (y % 2)
bit_or_step zero y = simp bit_or-bitwise (omega arith)
bit_or_step (suc x) y = simp bit_or-bitwise (lowest (λ t. t) max x y)

differ-bit : (p q : ℕ) → p < 2 → q < 2 → differ p q ≡ (p + q) % 2
differ-bit zero q h k = omega arith
differ-bit (suc zero) zero h k = omega arith
differ-bit (suc zero) (suc zero) h k = omega arith
differ-bit (suc zero) (suc (suc q)) h k = absurd (omega arith)
differ-bit (suc (suc p)) q h k = absurd (omega arith)

pub bit_xor_step : (x y : ℕ) → bit_xor x y ≡ bit_xor (x / 2) (y / 2) * 2 + (x % 2 + y % 2) % 2
bit_xor_step zero y = simp bit_xor-bitwise (omega arith)
bit_xor_step (suc x) y =
    let bit = differ-bit (suc x % 2) (y % 2) (omega arith) (omega arith) in
    simp bit_xor-bitwise (omega (arith, bit, lowest (λ t. t) differ x y))
