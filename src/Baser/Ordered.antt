-- ===== src/Baser/Ordered.antt =====
-- The block of an ordered set in lane 0 with control characters behind it (src/eth/tb/baser.py).
use taxi.Prelude.{ℕ, ◌≡◌, refl, Bool, true, false, List, [], ◌∷◌, ◌==◌, low_bits, arith}
use taxi.Baser.Codes.{Codes}
use taxi.Baser.Encode.{encode, encode_os_0, or_lanes, is_os, ctrl_codes}
use taxi.Baser.Facts.{and-false}

abbrev pub os_0_flags : List Bool
os_0_flags = true ∷ false ∷ false ∷ false ∷ true ∷ true ∷ true ∷ true ∷ []

module _ (c : Codes) where
  low_codes :
      (d0 d1 d2 d3 d4 d5 d6 d7 e4 e5 e6 e7 : ℕ)
      → low_bits (ctrl_codes c 0 (d0 ∷ d1 ∷ d2 ∷ d3 ∷ d4 ∷ d5 ∷ d6 ∷ d7 ∷ [])) 28
        ≡ low_bits (ctrl_codes c 0 (d0 ∷ d1 ∷ d2 ∷ d3 ∷ e4 ∷ e5 ∷ e6 ∷ e7 ∷ [])) 28
  low_codes d0 d1 d2 d3 d4 d5 d6 d7 e4 e5 e6 e7 = omega arith

  -- The block for an ordered set in lane 0, behind it three bytes and four control characters, does not
  -- depend on the control characters.
  pub encode-os_0_flags :
      (d0 d1 d2 d3 d4 d5 d6 d7 e4 e5 e6 e7 : ℕ)
      → is_os c d0 ≡ true
      → encode c (d0 ∷ d1 ∷ d2 ∷ d3 ∷ d4 ∷ d5 ∷ d6 ∷ d7 ∷ []) os_0_flags
        ≡ encode c (d0 ∷ d1 ∷ d2 ∷ d3 ∷ e4 ∷ e5 ∷ e6 ∷ e7 ∷ []) os_0_flags
  unfolding encode encode_os_0 or_lanes
  encode-os_0_flags d0 d1 d2 d3 d4 d5 d6 d7 e4 e5 e6 e7 h = rw (and-false (d0 == c.start)) (
      rw (and-false (d4 == c.start)) (
        rw (and-false (is_os c d4)) (
          rw h (
            rw (low_codes d0 d1 d2 d3 d4 d5 d6 d7 e4 e5 e6 e7) rw (and-false (e4 == c.start))
              (rw (and-false (is_os c e4)) refl)))))
