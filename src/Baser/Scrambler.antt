-- ===== src/Baser/Scrambler.antt =====
-- The 64b/66b scrambler of `BaseRSerdesSource._run` and the descrambler of `BaseRSerdesSink._run`
-- (src/eth/tb/baser.py).
pub mod RoundTrip
pub mod Sync
use taxi.Prelude.{
  ℕ, ◌+◌, ◌*◌, ◌^◌, Bool, true, false, List, [], ◌∷◌, if◌then◌else◌, ◌<<<◌, low_bits, bit_or,
}
use taxi.Prelude.Loop.{for_range}
use taxi.Prelude.Digits.{test_bit, digit}

-- `scrambler_state` and the word `b` that the loop builds.
pub record Lfsr : Type 0 where
  pub state : ℕ
  pub out : ℕ

-- `a ^ b` on truth values.
abbrev pub differ : Bool → Bool → Bool
differ true true = false
differ true false = true
differ false b = b

-- The two taps of the polynomial.
abbrev pub taps : ℕ → Bool
taps state = differ (test_bit state 38) (test_bit state 57)

-- A round of `for i in range(64)` in the source.
unfoldable pub scramble_round : ℕ → ℕ → Lfsr → Lfsr
scramble_round block i s =
    if differ (taps s.state) (test_bit block i)
    then record { state = bit_or (low_bits s.state 57 <<< 1) 1; out = bit_or s.out (1 <<< i) }
    else record { state = low_bits s.state 57 <<< 1; out = s.out }

unfoldable pub scramble : ℕ → ℕ → Lfsr
unfolding scramble_round
scramble state block = for_range 64 0 (scramble_round block) (record { state = state; out = 0 })

-- A round in the sink.
unfoldable pub descramble_round : ℕ → ℕ → Lfsr → Lfsr
descramble_round block i s = record {
  state = bit_or (low_bits s.state 57 <<< 1) (digit (test_bit block i));
  out = if differ (taps s.state) (test_bit block i) then bit_or s.out (1 <<< i) else s.out;
}

unfoldable pub descramble : ℕ → ℕ → Lfsr
unfolding descramble_round
descramble state block = for_range 64 0 (descramble_round block) (record { state = state; out = 0 })

-- The blocks of a run, one after the other, and the state behind them.
unfoldable pub scramble_all : ℕ → List ℕ → List ℕ
scramble_all state [] = []
scramble_all state (block ∷ blocks) =
    let s = scramble state block in s.out ∷ scramble_all s.state blocks

unfoldable pub descramble_all : ℕ → List ℕ → List ℕ
descramble_all state [] = []
descramble_all state (block ∷ blocks) =
    let s = descramble state block in s.out ∷ descramble_all s.state blocks
