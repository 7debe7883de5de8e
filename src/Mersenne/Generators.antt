-- ===== src/Mersenne/Generators.antt =====
-- The numbers of the two generators (src/math/tb/mt19937.py and mt19937_64.py), and their methods.
use taxi.Prelude.{ℕ, Option, List, bit_and, bit_xor, ◌<<<◌, ◌>>>◌}
use taxi.Mersenne.{Parameters, Twister, create, seed, init_by_array, next, next_b}

-- The tempering of an output.
unfoldable pub temper_32 : ℕ → ℕ
temper_32 y =
    let y = bit_xor y (y >>> 11) in
    let y = bit_xor y (bit_and (y <<< 7) 0x9d2c5680) in
    let y = bit_xor y (bit_and (y <<< 15) 0xefc60000) in bit_xor y (y >>> 18)

unfoldable pub temper_64 : ℕ → ℕ
temper_64 y =
    let y = bit_xor y (bit_and (y >>> 29) 0x5555555555555555) in
    let y = bit_xor y (bit_and (y <<< 17) 0x71D67FFFEDA60000) in
    let y = bit_xor y (bit_and (y <<< 37) 0xFFF7EEE000000000) in bit_xor y (y >>> 43)

unfoldable pub mt19937 : Parameters
mt19937 = record {
  n = 624;
  m = 397;
  wrap = 624;
  w = 32;
  upper = 0x80000000;
  lower = 0x7fffffff;
  matrix = 0x9908b0df;
  seed_factor = 1812433253;
  seed_shift = 30;
  key_factor = 1664525;
  last_factor = 1566083941;
  temper = temper_32;
}

unfoldable pub mt19937_64 : Parameters
mt19937_64 = record {
  n = 312;
  m = 156;
  wrap = 624;
  w = 64;
  upper = 0xFFFFFFFF80000000;
  lower = 0x7fffffff;
  matrix = 0xB5026F5AA96619E9;
  seed_factor = 6364136223846793005;
  seed_shift = 62;
  key_factor = 3935559000370003845;
  last_factor = 2862933555777941757;
  temper = temper_64;
}

unfoldable pub create_32 : Twister
unfolding mt19937
create_32 = create mt19937

unfoldable pub seed_32 : Twister → ℕ → Twister
unfolding mt19937
seed_32 = seed mt19937

unfoldable pub init_by_array_32 : Twister → List ℕ → Option Twister
unfolding mt19937
init_by_array_32 = init_by_array mt19937

unfoldable pub int32 : Twister → ℕ × Twister
unfolding mt19937
int32 = next mt19937

unfoldable pub int32b : Twister → ℕ × Twister
unfolding mt19937
int32b = next_b mt19937

unfoldable pub create_64 : Twister
unfolding mt19937_64
create_64 = create mt19937_64

unfoldable pub seed_64 : Twister → ℕ → Twister
unfolding mt19937_64
seed_64 = seed mt19937_64

unfoldable pub init_by_array_64 : Twister → List ℕ → Option Twister
unfolding mt19937_64
init_by_array_64 = init_by_array mt19937_64

unfoldable pub int64 : Twister → ℕ × Twister
unfolding mt19937_64
int64 = next mt19937_64

unfoldable pub int64b : Twister → ℕ × Twister
unfolding mt19937_64
int64b = next_b mt19937_64
