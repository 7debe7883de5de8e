-- ===== src/Baser/Fields.antt =====
-- The fields of a 64b/66b block (src/eth/tb/baser.py): each `|` that the encoder makes sets a field that
-- was zero, and is a sum.
use taxi.Prelude.{
  ℕ, zero, suc, ◌+◌, ◌*◌, ◌/◌, ◌%◌, ◌^◌, ◌≤◌, ◌<◌, ◌≡◌, refl, sym, ap, ◌∙◌, some, List, [], ◌∷◌,
  bit_or, Bool-cases, ◌⊎◌, inl, inr, ◌==◌, arith,
}
use native.Mathlib.Nat.{mod-lt, div-add-mod'}
use taxi.Prelude.Bits.{lt-two-pow}
use taxi.Prelude.Digits.{bit_or_middle, lane_width}
use taxi.Baser.Codes.{
  ctrl, os_4, start_4, os_start, os_04, start_0, os_0, term_0, term_1, term_2, term_3, term_4,
  term_5, term_6, term_7, Codes, BlockType, IsStandard,
}
use taxi.Baser.Encode.{lane, or_lanes}
use taxi.Baser.Decode.{find_type, type_order}

-- The field of `w` digits at `k` is zero.
pub bit_or_field :
    (k w x field : ℕ)
    → x / 2 ^ k % 2 ^ w ≡ 0
    → field < 2 ^ w
    → bit_or x (field * 2 ^ k) ≡ x + field * 2 ^ k
bit_or_field k w x field e h =
    let q : ℕ = x / 2 ^ k in
    let parts : x ≡ q / 2 ^ w * 2 ^ w * 2 ^ k + x % 2 ^ k =
      sym (div-add-mod' x (2 ^ k))
      ∙ ap (λ (y : ℕ). y * 2 ^ k + x % 2 ^ k) (omega (arith, div-add-mod' q (2 ^ w), e)) in
    ap (λ (y : ℕ). bit_or y (field * 2 ^ k)) parts
    ∙ bit_or_middle k w (q / 2 ^ w) field (x % 2 ^ k) (mod-lt x (omega (arith, lt-two-pow k))) h
    ∙ omega (arith, parts)

-- The bytes that `or_lanes` sets, as a sum.
unfoldable pub sum_lanes : (count i j : ℕ) → List ℕ → ℕ
sum_lanes zero i j dl = 0
sum_lanes (suc count) i j dl = lane dl i * 2 ^ (j * 8) + sum_lanes count (suc i) (suc j) dl

abbrev pub HasBytes : (count i : ℕ) → List ℕ → Type 0
HasBytes zero i dl = Unit
HasBytes (suc count) i dl = (lane dl i < 2 ^ 8) × HasBytes count (suc i) dl

pub or_lanes_fill :
    (count i j high low : ℕ) (dl : List ℕ)
    → low < 2 ^ (j * 8)
    → HasBytes count i dl
    → or_lanes count i j dl (high * 2 ^ (count * 8) * 2 ^ (j * 8) + low)
      ≡ high * 2 ^ (count * 8) * 2 ^ (j * 8) + low + sum_lanes count i j dl
unfolding or_lanes sum_lanes
or_lanes_fill zero i j high low dl h b = omega arith
or_lanes_fill (suc count) i j high low dl h b =
    let d : ℕ = lane dl i in
    let m : ℕ = 2 ^ (j * 8) in
    let w : ℕ = 2 ^ (count * 8) in
    let top : high * 2 ^ (suc count * 8) ≡ high * w * 2 ^ 8 =
      ap (λ (x : ℕ). high * x) (lane_width count) ∙ (grind arith) in
    let wide : 2 ^ (suc j * 8) ≡ m * 2 ^ 8 = lane_width j in
    let swap : high * w * 2 ^ 8 * m ≡ high * w * 2 ^ (suc j * 8) =
      (grind arith) ∙ ap (λ (x : ℕ). high * w * x) (sym wide) in
    let d_fits : d * m ≤ 255 * m = grind arith in
    let next_low : low + d * m < 2 ^ (suc j * 8) = omega (arith, wide) in
    let set_one : bit_or (high * 2 ^ (suc count * 8) * m + low) (d * m)
        ≡ high * w * 2 ^ (suc j * 8) + (low + d * m) =
      ap (λ (x : ℕ). bit_or (x * m + low) (d * m)) top
      ∙ bit_or_middle (j * 8) 8 (high * w) d low h b.0
      ∙ omega (arith, swap) in
    ap (or_lanes count (suc i) (suc j) dl) set_one
    ∙ or_lanes_fill count (suc i) (suc j) high (low + d * m) dl next_low b.1
    ∙ omega (arith, ap (λ (x : ℕ). x * m) top, swap)

Has : BlockType → List BlockType → Type 0
Has t [] = ⊥
Has t (s ∷ ts) = (s ≡ t) ⊎ Has t ts

all_types : (t : BlockType) → Has t type_order
unfolding Has
all_types ctrl = inl refl
all_types os_4 = inr (inl refl)
all_types start_4 = inr (inr (inl refl))
all_types os_start = inr (inr (inr (inl refl)))
all_types os_04 = inr (inr (inr (inr (inl refl))))
all_types start_0 = inr (inr (inr (inr (inr (inl refl)))))
all_types os_0 = inr (inr (inr (inr (inr (inr (inl refl))))))
all_types term_0 = inr (inr (inr (inr (inr (inr (inr (inl refl)))))))
all_types term_1 = inr (inr (inr (inr (inr (inr (inr (inr (inl refl))))))))
all_types term_2 = inr (inr (inr (inr (inr (inr (inr (inr (inr (inl refl)))))))))
all_types term_3 = inr (inr (inr (inr (inr (inr (inr (inr (inr (inr (inl refl))))))))))
all_types term_4 = inr (inr (inr (inr (inr (inr (inr (inr (inr (inr (inr (inl refl)))))))))))
all_types term_5 = inr (inr (inr (inr (inr (inr (inr (inr (inr (inr (inr (inr (inl refl))))))))))))
all_types term_6 =
    inr (inr (inr (inr (inr (inr (inr (inr (inr (inr (inr (inr (inr (inl refl)))))))))))))
all_types term_7 =
    inr (inr (inr (inr (inr (inr (inr (inr (inr (inr (inr (inr (inr (inr (inl refl))))))))))))))

module _ (c : Codes) (s : IsStandard c) where
  find_type-Has :
      (t : BlockType) (ts : List BlockType) → Has t ts → find_type c ts (c.block t) ≡ some t
  unfolding find_type Has
  find_type-Has t [] h = absurd h
  find_type-Has t (x ∷ ts) h = elim (Bool-cases (c.block t == c.block x)) [
    | inl e ↦ rw e (ap some (s.block_eq x t (ground arith)))
    | inr e ↦ rw e (elim h [
      | inl same ↦ absurd (ground (arith, ap c.block same))
      | inr later ↦ find_type-Has t ts later
    ])
  ]

  pub find_type-block : (t : BlockType) → find_type c type_order (c.block t) ≡ some t
  find_type-block t = find_type-Has t type_order (all_types t)
