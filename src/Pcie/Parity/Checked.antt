-- ===== src/Pcie/Parity/Checked.antt =====
-- Frames whose parities have been updated (src/pcie/tb/pcie_if.py).
use taxi.Prelude.{
  ℕ, suc, ◌^◌, ◌<◌, ◌≡◌, refl, ap, true, ◌==◌, List, [], ◌∷◌, map, length, bit_xor, arith,
}
use taxi.Prelude.Bits.{bit_xor-lt}
use taxi.Pcie.{PcieIfFrame, Interface}
use taxi.Pcie.Packed.{Below}
use taxi.Pcie.Drive.{FrameFits}
use taxi.Pcie.Arrival.{arrived}
use taxi.Pcie.Parity.{fold_bytes, dword_parity, parity, list_eq, update_parity, check_parity}
use taxi.Pcie.Parity.Digits.{low_digits-lt, parity-low_digits, dword_parity-low_digits}

dword_parity-lt : (d : ℕ) → dword_parity d < 2 ^ 4
dword_parity-lt d = omega (arith, dword_parity-low_digits d, low_digits-lt 4 (fold_bytes d))

parity-lt : (d : ℕ) → d < 2 ^ 128 → parity d < 2 ^ 16
parity-lt d h = omega (arith, parity-low_digits 16 d h, low_digits-lt 16 (fold_bytes d))

parities-Below : (ds : List ℕ) → Below 4 (map (λ (d : ℕ). bit_xor (dword_parity d) 0xf) ds)
parities-Below [] = tt
parities-Below (d ∷ ds) =
    (bit_xor-lt 4 (dword_parity d) 0xf (dword_parity-lt d) (omega arith), parities-Below ds)

length-parities :
    (ds : List ℕ) → length (map (λ (d : ℕ). bit_xor (dword_parity d) 0xf) ds) ≡ length ds
length-parities [] = refl
length-parities (d ∷ ds) = ap suc (length-parities ds)

eq_self : (n : ℕ) → n == n ≡ true
eq_self n = ground arith

list_eq_self : (xs : List ℕ) → list_eq xs xs ≡ true
list_eq_self [] = refl
list_eq_self (x ∷ xs) = rw (eq_self x) (list_eq_self xs)

-- A frame whose header, prefix, dwords and other numbers fit the interface fits it with the parities that
-- `update_parity` gives it, and passes `check_parity` as it is and as it arrives.
pub update_parity-FrameFits :
    (c : Interface) (f : PcieIfFrame)
    → f.hdr < 2 ^ 128
    → f.tlp_prfx < 2 ^ 32
    → f.bar_id < 2 ^ 3
    → f.error < 2 ^ 4
    → f.seq < 2 ^ c.seq_width
    → Below 32 f.dwords
    → let g = update_parity f in
      FrameFits c g × ((check_parity g ≡ true) × (check_parity (arrived c g) ≡ true))
unfolding update_parity check_parity
update_parity-FrameFits c f hdr prfx bar_id error seq dwords =
    let checked : check_parity (update_parity f) ≡ true =
      rw (list_eq_self (map (λ (d : ℕ). bit_xor (dword_parity d) 0xf) f.dwords))
        (rw (eq_self (parity f.hdr), eq_self (dword_parity f.tlp_prfx)) refl) in
    (
      record {
        hdr_lt = hdr;
        tlp_prfx_lt = prfx;
        hdr_par_lt = parity-lt f.hdr hdr;
        tlp_prfx_par_lt = dword_parity-lt f.tlp_prfx;
        bar_id_lt = bar_id;
        error_lt = error;
        seq_lt = seq;
        dwords_lt = dwords;
        parity_lt = parities-Below f.dwords;
        parities = length-parities f.dwords;
      },
      (checked, checked),
    )
