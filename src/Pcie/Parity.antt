-- ===== src/Pcie/Parity.antt =====
-- The parities of PcieIfFrame (src/pcie/tb/pcie_if.py): `dword_parity`, `parity`, `update_parity` and
-- `check_parity`.
pub mod Digits
pub mod Checked
use taxi.Prelude.{
  ℕ, zero, suc, ◌+◌, ◌-◌, ◌*◌, ◌/◌, ◌%◌, ◌^◌, ◌≤◌, ◌<◌, ◌≡◌, refl, sym, ap, ap₂, ◌∙◌, Bool, true,
  false, ◌&&◌, List, [], ◌∷◌, map, length, bit_and, bit_or, bit_xor, ◌<<<◌, ◌>>>◌, ◌==◌, All,
  Bool-cases, inl, inr, if◌then◌else◌, arith,
}
use taxi.Prelude.Digits.{test_bit, digit, digit-test_bit, bit_or-bit}
use taxi.Prelude.Bits.{bit_xor_step, bit_xor-lt, bit_and_mask, div-two-pow-suc, lt-two-pow}
use taxi.Prelude.Powers.{pow_sum}
use native.Mathlib.Nat.{pow-suc, div-div-eq-div-mul, div-le_self, mul_comm}
use taxi.Pcie.{PcieIfFrame, Interface}
use taxi.Pcie.Packed.{Below}
use taxi.Pcie.Drive.{FrameFits}

-- `d ^= d >> k`
abbrev pub fold_by : ℕ → ℕ → ℕ
fold_by k d = bit_xor d (d >>> k)

unfoldable pub fold_bytes : ℕ → ℕ
fold_bytes d = fold_by 1 (fold_by 2 (fold_by 4 d))

unfoldable pub dword_parity : ℕ → ℕ
dword_parity d =
    let e : ℕ = fold_bytes d in
    let p0 : ℕ = bit_and e 1 in
    let p1 : ℕ = if test_bit e 8 then bit_or p0 (1 <<< 1) else p0 in
    let p2 : ℕ = if test_bit e 16 then bit_or p1 (1 <<< 2) else p1 in
    if test_bit e 24 then bit_or p2 (1 <<< 3) else p2

-- `while d`, where `b` is `1 << i`. The number is less in each round, so that it is enough fuel itself.
unfoldable pub parity_rounds : ℕ → ℕ → ℕ → ℕ → ℕ
parity_rounds zero d i p = p
parity_rounds (suc fuel) d i p =
    let rest : ℕ =
      parity_rounds fuel (d >>> 8) (i + 1) (if test_bit d 0 then bit_or p (1 <<< i) else p) in
    if d == 0 then p else rest

unfoldable pub parity : ℕ → ℕ
parity d = parity_rounds (fold_bytes d) (fold_bytes d) 0 0

unfoldable pub update_parity : PcieIfFrame → PcieIfFrame
update_parity f = record f {
  parity = map (λ d. bit_xor (dword_parity d) 0xf) f.dwords;
  hdr_par = parity f.hdr;
  tlp_prfx_par = dword_parity f.tlp_prfx;
}

abbrev pub list_eq : List ℕ → List ℕ → Bool
list_eq [] [] = true
list_eq [] (y ∷ ys) = false
list_eq (x ∷ xs) [] = false
list_eq (x ∷ xs) (y ∷ ys) = (x == y) && list_eq xs ys

unfoldable pub check_parity : PcieIfFrame → Bool
check_parity f =
    list_eq f.parity (map (λ d. bit_xor (dword_parity d) 0xf) f.dwords)
    && ((f.hdr_par == parity f.hdr) && (f.tlp_prfx_par == dword_parity f.tlp_prfx))
