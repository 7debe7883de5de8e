-- ===== src/Dma/Lanes.antt =====
-- The bytes of a segment word (src/dma/tb/dma_psdp_ram.py): what `_process_write` packs is what
-- `_process_read_resp` unpacks.
use taxi.Prelude.{
  ℕ, zero, suc, ◌+◌, ◌*◌, ◌/◌, ◌%◌, ◌^◌, ◌≤◌, ◌<◌, ◌≡◌, refl, sym, ap, ap₂, ◌∙◌, some, List, [],
  ◌∷◌, length, take, drop, All, bit_or, ◌<<<◌, arith,
}
use native.Mathlib.Nat.{
  div-add-mod, add-mul-div_right, div-eq_of_lt, mod-eq_of_lt, add-mul-mod_self_right,
}
use taxi.Prelude.Bits.{bit_or_fields, bit_or_comm}
use taxi.Prelude.Digits.{lane_width}
use taxi.Dma.{Port, pack_lanes, unpack_lanes}

abbrev pub IsByte : ℕ → Type 0
IsByte b = b < 2 ^ 8

-- The lane above the lower ones, in a word of which they are the lower part.
lane_above :
    (m v byte val : ℕ)
    → val < m
    → IsByte byte
    → v % (m * 2 ^ 8) ≡ val + byte * m
    → ((v / m) % 2 ^ 8 ≡ byte) × (v % m ≡ val)
lane_above m v byte val p q e =
    let t : ℕ = v / (m * 2 ^ 8) in
    let m_pos : 0 < m = omega arith in
    let moved : m * 2 ^ 8 * t ≡ t * 2 ^ 8 * m = grind arith in
    let split : byte * m + t * 2 ^ 8 * m ≡ (byte + t * 2 ^ 8) * m = grind arith in
    let whole : v ≡ val + (byte + t * 2 ^ 8) * m =
      omega (arith, div-add-mod v (m * 2 ^ 8), e, moved, split) in
    let high : v / m ≡ byte + t * 2 ^ 8 =
      ap (λ (x : ℕ). x / m) whole
      ∙ add-mul-div_right val (byte + t * 2 ^ 8) m_pos
      ∙ (omega (arith, div-eq_of_lt p)) in
    (
      ap (λ (x : ℕ). x % 2 ^ 8) high ∙ add-mul-mod_self_right byte t (2 ^ 8) ∙ mod-eq_of_lt q,
      ap (λ (x : ℕ). x % m) whole
          ∙ add-mul-mod_self_right val (byte + t * 2 ^ 8) m
          ∙ mod-eq_of_lt p,
    )

or_lane :
    (j val byte : ℕ) → val < 2 ^ (j * 8) → bit_or val (byte <<< (j * 8)) ≡ val + byte * 2 ^ (j * 8)
or_lane j val byte h =
    omega (arith, bit_or_comm val (byte * 2 ^ (j * 8)), bit_or_fields (j * 8) byte val h)

module _ (p : Port) where
  -- Packing takes its bytes off the data, and unpacking the word gives them back.
  abbrev pub Packs : (count j val : ℕ) → List ℕ → ℕ → Type 0
  Packs count j val rest v =
      (pack_lanes p count j val rest ≡ some (v, drop count rest))
      × ((unpack_lanes p count j v ≡ take count rest) × (v % 2 ^ (j * 8) ≡ val))

  pub pack_lanes-Packs :
      (count j val : ℕ) (rest : List ℕ)
      → All IsByte rest
      → val < 2 ^ (j * 8)
      → count ≤ length rest
      → (v : ℕ) × Packs count j val rest v
  unfolding pack_lanes unpack_lanes
  pack_lanes-Packs zero j val rest b h l = (val, (refl, (refl, mod-eq_of_lt h)))
  pack_lanes-Packs (suc count) j val [] b h l = absurd (omega arith)
  pack_lanes-Packs (suc count) j val (byte ∷ rest) b h l =
      let m : ℕ = 2 ^ (j * 8) in
      let or_eq : bit_or val (byte <<< (j * 8)) ≡ val + byte * m = or_lane j val byte h in
      let wide : 2 ^ (suc j * 8) ≡ m * 2 ^ 8 = lane_width j in
      let fits : val + byte * m < m * 2 ^ 8 = grind arith in
      let (v, (packed, (unpacked, low))) =
        pack_lanes-Packs count (suc j) (val + byte * m) rest b.1 (omega (arith, wide))
          (omega arith) in
      let lane = lane_above m v byte val h b.0 (ap (λ (x : ℕ). v % x) (sym wide) ∙ low) in
      (
        v,
        (
          ap (λ (x : ℕ). pack_lanes p count (suc j) x rest) or_eq ∙ packed,
          (ap₂ (λ (x : ℕ) (xs : List ℕ). x ∷ xs) lane.0 unpacked, lane.1),
        ),
      )
