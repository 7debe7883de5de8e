-- ===== src/Baser/Scrambler/Sync.antt =====
-- The descrambler of src/eth/tb/baser.py finds the scrambler's state by itself.
use taxi.Prelude.{
  ℕ, zero, suc, ◌+◌, ◌*◌, ◌/◌, ◌%◌, ◌^◌, ◌<◌, ◌≡◌, sym, ap, ◌∙◌, List, ◌∷◌, low_bits, All, arith,
}
use native.Mathlib.Nat.{mod-eq_of_lt, div-add-mod', add-mul-mod_self_right}
use taxi.Prelude.Bits.{double, bit_or_fields}
use taxi.Prelude.Loop.{for_range}
use taxi.Prelude.Digits.{test_bit, digit, digit_lt}
use taxi.Baser.Scrambler.{
  Lfsr, scramble, descramble_round, descramble, scramble_all, descramble_all,
}
use taxi.Baser.Scrambler.RoundTrip.{lfsr, shifted, descramble-scramble, descramble_all-scramble_all}

descramble_round-state :
    (coded i : ℕ) (s : Lfsr)
    → (descramble_round coded i s).state ≡ shifted s.state (test_bit coded i)
unfolding descramble_round
descramble_round-state coded i s = omega (
  arith,
  bit_or_fields 1 (low_bits s.state 57) (digit (test_bit coded i)) (digit_lt (test_bit coded i)),
)

distribute : (q k r m : ℕ) → (q * k + r) * m ≡ q * m * k + r * m
distribute q k r m = grind arith

-- What the rounds make of a state is the state, shifted out to the left, and digits that only the
-- coded word gives.
rounds_shift :
    (count i coded : ℕ)
    → (w : ℕ) × ((s : Lfsr)
        → (for_range count i (descramble_round coded) s).state % 2 ^ 58
          ≡ (s.state * 2 ^ count + w) % 2 ^ 58)
unfolding for_range
rounds_shift zero i coded = (0, λ (s : Lfsr). ap (λ (x : ℕ). x % 2 ^ 58) (omega arith))
rounds_shift (suc count) i coded =
    let d : ℕ = digit (test_bit coded i) in
    let (w, later) = rounds_shift count (suc i) coded in
    (
      d * 2 ^ count + w,
      λ (s : Lfsr).
          let m : ℕ = 2 ^ count in
          let x : ℕ = s.state in
          let apart : (x % 2 ^ 57 * 2 + d) * m ≡ x % 2 ^ 57 * m * 2 + d * m = grind arith in
          let parts : x * m ≡ x / 2 ^ 57 * m * 2 ^ 57 + x % 2 ^ 57 * m =
            ap (λ (y : ℕ). y * m) (sym (div-add-mod' x (2 ^ 57)))
            ∙ distribute (x / 2 ^ 57) (2 ^ 57) (x % 2 ^ 57) m in
          let whole : x * 2 ^ suc count + (d * m + w)
              ≡ (x % 2 ^ 57 * 2 + d) * m + w + x / 2 ^ 57 * m * 2 ^ 58 =
            omega (arith, double x count, parts, apart) in
          later (descramble_round coded i s)
          ∙ ap (λ (y : ℕ). (y * m + w) % 2 ^ 58) (descramble_round-state coded i s)
          ∙ sym (
              ap (λ (y : ℕ). y % 2 ^ 58) whole
              ∙ add-mul-mod_self_right ((x % 2 ^ 57 * 2 + d) * m + w) (x / 2 ^ 57 * m) (2 ^ 58)),
    )

IsState : Lfsr → Type 0
IsState s = s.state < 2 ^ 58

descramble_round-IsState : (coded i : ℕ) (s : Lfsr) → IsState (descramble_round coded i s)
unfolding IsState
descramble_round-IsState coded i s =
    omega (arith, descramble_round-state coded i s, digit_lt (test_bit coded i))

descramble-IsState : (state coded : ℕ) → IsState (descramble state coded)
unfolding descramble for_range
descramble-IsState state coded = descramble_round-IsState coded 63 _

-- 64 rounds forget the state.
descramble-state_sync : (s t coded : ℕ) → (descramble s coded).state ≡ (descramble t coded).state
unfolding descramble IsState
descramble-state_sync s t coded =
    let (w, forget) = rounds_shift 64 0 coded in
    let gone : (x : ℕ) → (x * 2 ^ 64 + w) % 2 ^ 58 ≡ w % 2 ^ 58 = λ (x : ℕ). omega arith in
    sym (mod-eq_of_lt (descramble-IsState s coded))
    ∙ forget (lfsr s 0)
    ∙ gone s
    ∙ sym (gone t)
    ∙ sym (forget (lfsr t 0))
    ∙ mod-eq_of_lt (descramble-IsState t coded)

-- Whatever state a sink starts in, it has all blocks of 64 bits but the first.
pub descramble_all_sync :
    (s t block : ℕ) (blocks : List ℕ)
    → All (λ (b : ℕ). b < 2 ^ 64) (block ∷ blocks)
    → (first : ℕ) × (descramble_all t (scramble_all s (block ∷ blocks)) ≡ first ∷ blocks)
unfolding descramble_all scramble_all
descramble_all_sync s t block blocks h =
    let sent = scramble s block in
    let in_step : (descramble t sent.out).state ≡ sent.state =
      descramble-state_sync t s sent.out
      ∙ ap (λ (x : Lfsr). x.state) (descramble-scramble s block h.0) in
    (
      (descramble t sent.out).out,
      ap (λ (xs : List ℕ). (descramble t sent.out).out ∷ xs)
          (ap (λ (x : ℕ). descramble_all x (scramble_all sent.state blocks)) in_step
            ∙ descramble_all-scramble_all sent.state blocks h.1),
    )
