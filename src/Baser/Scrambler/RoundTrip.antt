-- ===== src/Baser/Scrambler/RoundTrip.antt =====
-- The descrambler of src/eth/tb/baser.py undoes the scrambler.
use taxi.Prelude.{
  ℕ, zero, suc, ◌+◌, ◌*◌, ◌/◌, ◌%◌, ◌^◌, ◌≤◌, ◌<◌, ◌≡◌, refl, sym, ap, ap₂, ◌∙◌, Bool, true, false,
  List, [], ◌∷◌, ◌<<<◌, low_bits, bit_or, All, Bool-cases, inl, inr, arith,
}
use native.Mathlib.Nat.{
  mod-lt, mod-eq_of_lt, div-add-mod', add-mul-mod_self_right, pow-suc, add-mul-div_right,
  div-eq_of_lt,
}
use taxi.Prelude.Bits.{lt-two-pow, bit_or_fields, double}
use taxi.Prelude.Loop.{for_range}
use taxi.Prelude.Digits.{test_bit, digit, digit_lt, digit-test_bit, bit_or-bit}
use taxi.Baser.Scrambler.{
  Lfsr, differ, taps, scramble_round, scramble, descramble_round, descramble, scramble_all,
  descramble_all,
}

-- The digit that a round of the scrambler puts out.
abbrev sent : ℕ → ℕ → ℕ → Bool
sent block i state = differ (taps state) (test_bit block i)

abbrev pub shifted : ℕ → Bool → ℕ
shifted state b = low_bits state 57 * 2 + digit b

abbrev pub lfsr : ℕ → ℕ → Lfsr
lfsr state out = record { state = state; out = out }

or_digit : (x : ℕ) (b : Bool) → bit_or (x <<< 1) (digit b) ≡ x * 2 + digit b
or_digit x b = omega (arith, bit_or_fields 1 x (digit b) (digit_lt b))

scramble_round_lem :
    (block i : ℕ) (s : Lfsr)
    → s.out < 2 ^ i
    → scramble_round block i s
      ≡ lfsr (shifted s.state (sent block i s.state)) (s.out + digit (sent block i s.state) * 2 ^ i)
unfolding scramble_round
scramble_round_lem block i s h = elim (Bool-cases (sent block i s.state)) [
  | inl e ↦ rw e (ap₂ lfsr (or_digit (low_bits s.state 57) true) (bit_or-bit s.out i true h))
  | inr e ↦ rw e (ap₂ lfsr (omega arith) (bit_or-bit s.out i false h))
]

pub descramble_round_lem :
    (coded i state out : ℕ)
    → out < 2 ^ i
    → descramble_round coded i (lfsr state out)
      ≡ lfsr
          (shifted state (test_bit coded i))
          (out + digit (differ (taps state) (test_bit coded i)) * 2 ^ i)
unfolding descramble_round
descramble_round_lem coded i state out h =
    ap₂ lfsr (or_digit (low_bits state 57) (test_bit coded i))
      (bit_or-bit out i (differ (taps state) (test_bit coded i)) h)

digit_part : (m : ℕ) (b : Bool) → digit b * m ≤ m
digit_part m true = omega arith
digit_part m false = omega arith

-- The rounds from `i` on leave the digits below `i`.
scramble_above :
    (count i block : ℕ) (s : Lfsr)
    → s.out < 2 ^ i
    → (high : ℕ) × ((for_range count i (scramble_round block) s).out ≡ s.out + high * 2 ^ i)
unfolding for_range
scramble_above zero i block s h = (0, omega arith)
scramble_above (suc count) i block s h =
    let b = sent block i s.state in
    let next = scramble_round_lem block i s h in
    let wide = pow-suc 2 i in
    let out_eq : (scramble_round block i s).out ≡ s.out + digit b * 2 ^ i =
      ap (λ (t : Lfsr). t.out) next in
    let small = digit_part (2 ^ i) b in
    let (high, e) = scramble_above count (suc i) block (scramble_round block i s) (omega arith) in
    let apart : (digit b + high * 2) * 2 ^ i ≡ digit b * 2 ^ i + 2 * (high * 2 ^ i) = grind arith in
    (digit b + high * 2, omega (arith, e, out_eq, apart, double high i))

differ_twice : (a b : Bool) → differ a (differ a b) ≡ b
differ_twice true true = refl
differ_twice true false = refl
differ_twice false b = refl

digit_eq : (a b : Bool) → digit a ≡ digit b → a ≡ b
digit_eq true true e = refl
digit_eq true false e = absurd (omega arith)
digit_eq false true e = absurd (omega arith)
digit_eq false false e = refl

-- A word with digit `b` at `i`, and a low part below it.
digit_at :
    (word low high i : ℕ) (b : Bool)
    → low < 2 ^ i
    → word ≡ low + digit b * 2 ^ i + high * 2 ^ suc i
    → test_bit word i ≡ b
digit_at word low high i b h e =
    let m : ℕ = 2 ^ i in
    let m_pos : 0 < m = omega arith in
    let apart : (digit b + high * 2) * m ≡ digit b * m + 2 * (high * m) = grind arith in
    let whole : word ≡ low + (digit b + high * 2) * m = omega (arith, e, apart, double high i) in
    let above : word / m ≡ low / m + (digit b + high * 2) =
      ap (λ (x : ℕ). x / m) whole ∙ add-mul-div_right low (digit b + high * 2) m_pos in
    digit_eq (test_bit word i) b
      (omega (arith, digit-test_bit word i, above, div-eq_of_lt h, digit_lt b))

-- The digits of a word up to `i`.
mod_suc : (x i : ℕ) → x % 2 ^ suc i ≡ x % 2 ^ i + digit (test_bit x i) * 2 ^ i
mod_suc x i =
    let m : ℕ = 2 ^ i in
    let q : ℕ = x / m in
    let d : ℕ = digit (test_bit x i) in
    let m_pos : 0 < m = omega (arith, lt-two-pow i) in
    let low : ℕ = x % m + d * m in
    let low_lt : low < 2 ^ suc i =
      omega (arith, pow-suc 2 i, digit_part m (test_bit x i), mod-lt x m_pos) in
    let halves : q ≡ q / 2 * 2 + d = omega (arith, digit-test_bit x i) in
    let apart : (q / 2 * 2 + d) * m ≡ 2 * (q / 2 * m) + d * m = grind arith in
    let whole : x ≡ low + q / 2 * 2 ^ suc i =
      omega (arith, div-add-mod' x m, ap (λ (y : ℕ). y * m) halves, apart, double (q / 2) i) in
    ap (λ (y : ℕ). y % 2 ^ suc i) whole
    ∙ add-mul-mod_self_right low (q / 2) (2 ^ suc i)
    ∙ mod-eq_of_lt low_lt

-- The rounds of the descrambler on what the rounds of the scrambler put out, from one state.
rounds :
    (count i block : ℕ) (s : Lfsr)
    → s.out < 2 ^ i
    → let f = for_range count i (scramble_round block) s in
      for_range count i (descramble_round f.out) (lfsr s.state (block % 2 ^ i))
      ≡ lfsr f.state (block % 2 ^ (i + count))
unfolding for_range
rounds zero i block s h = let e : i + 0 ≡ i = omega arith in rw e
rounds (suc count) i block s h =
    let b = sent block i s.state in
    let t = scramble_round block i s in
    let next = scramble_round_lem block i s h in
    let f = for_range count (suc i) (scramble_round block) t in
    let fits : t.out < 2 ^ suc i =
      omega (arith, ap (λ (x : Lfsr). x.out) next, pow-suc 2 i, digit_part (2 ^ i) b) in
    let (high, above) = scramble_above count (suc i) block t fits in
    let bit : test_bit f.out i ≡ b =
      digit_at f.out s.out high i b h (omega (arith, above, ap (λ (x : Lfsr). x.out) next)) in
    let low_lt : block % 2 ^ i < 2 ^ i = mod-lt block (omega arith) in
    let same : descramble_round f.out i (lfsr s.state (block % 2 ^ i))
        ≡ lfsr t.state (block % 2 ^ suc i) =
      descramble_round_lem f.out i s.state (block % 2 ^ i) low_lt
      ∙ ap
          (λ (c : Bool).
            lfsr (shifted s.state c) (block % 2 ^ i + digit (differ (taps s.state) c) * 2 ^ i))
          bit
      ∙ ap₂ lfsr (sym (ap (λ (x : Lfsr). x.state) next)) (
          ap (λ (c : Bool). block % 2 ^ i + digit c * 2 ^ i)
            (differ_twice (taps s.state) (test_bit block i))
          ∙ sym (mod_suc block i)) in
    let last : suc i + count ≡ i + suc count = omega arith in
    ap (for_range count (suc i) (descramble_round f.out)) same
    ∙ rounds count (suc i) block t fits
    ∙ ap (λ (n : ℕ). lfsr f.state (block % 2 ^ n)) last

-- The low 64 bits of a block come back, and both registers end alike.
pub descramble-scramble_low :
    (state block : ℕ)
    → descramble state (scramble state block).out
      ≡ lfsr (scramble state block).state (block % 2 ^ 64)
unfolding descramble scramble
descramble-scramble_low state block =
    let start : 0 ≡ block % 2 ^ 0 = omega arith in
    let first : 0 < 2 ^ 0 = omega arith in
    let f = for_range 64 0 (scramble_round block) (lfsr state 0) in
    ap (λ (x : ℕ). for_range 64 0 (descramble_round f.out) (lfsr state x)) start
    ∙ rounds 64 0 block (lfsr state 0) first

pub descramble-scramble :
    (state block : ℕ)
    → block < 2 ^ 64
    → descramble state (scramble state block).out ≡ lfsr (scramble state block).state block
descramble-scramble state block h =
    descramble-scramble_low state block ∙ ap (lfsr (scramble state block).state) (mod-eq_of_lt h)

-- A run of blocks of 64 bits comes back, whatever the register starts with, if both start alike.
pub descramble_all-scramble_all :
    (state : ℕ) (blocks : List ℕ)
    → All (λ (block : ℕ). block < 2 ^ 64) blocks
    → descramble_all state (scramble_all state blocks) ≡ blocks
unfolding descramble_all scramble_all
descramble_all-scramble_all state [] h = refl
descramble_all-scramble_all state (block ∷ blocks) h =
    let s = scramble state block in
    let one = descramble-scramble state block h.0 in
    ap₂ (λ (x : ℕ) (xs : List ℕ). x ∷ xs) (ap (λ (t : Lfsr). t.out) one)
      (ap (λ (t : Lfsr). descramble_all t.state (scramble_all s.state blocks)) one
        ∙ descramble_all-scramble_all s.state blocks h.1)
