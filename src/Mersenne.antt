-- ===== src/Mersenne.antt =====
-- The Mersenne twister generators (src/math/tb/mt19937.py and mt19937_64.py). The two classes have one
-- text over different numbers, which are a record here.
pub mod Stream
pub mod Bounds
pub mod Generators
pub mod Outputs
mod Tests
use taxi.Prelude.{
  ℕ, zero, suc, ◌+◌, ◌-◌, ◌*◌, ◌/◌, ◌%◌, ◌^◌, max, Bool, true, false, ◌&&◌, Option, none, some,
  List, [], ◌∷◌, length, get_elem?, get_or, set, replicate, ltb, leb, ◌==◌, if◌then◌else◌, ◌<<<◌,
  ◌>>>◌, low_bits, sub_wrap, bit_and, bit_or, bit_xor,
}
use taxi.Prelude.Loop.{for_range, for_option}

-- `n` words of `w` bits; `m` is the middle word, and `wrap` what is taken from an index past it.
pub record Parameters : Type 0 where
  pub n : ℕ
  pub m : ℕ
  pub wrap : ℕ
  pub w : ℕ
  pub upper : ℕ
  pub lower : ℕ
  pub matrix : ℕ
  pub seed_factor : ℕ
  pub seed_shift : ℕ
  pub key_factor : ℕ
  pub last_factor : ℕ
  pub temper : ℕ → ℕ

pub record Twister : Type 0 where
  pub mt : List ℕ
  pub mti : ℕ

-- The variables of the loops of `init_by_array`.
pub record Mixing : Type 0 where
  pub words : List ℕ
  pub i : ℕ
  pub j : ℕ

-- An index that may be negative counts from the end of a list of `len` items.
abbrev pub py_index : ℕ → ℕ → ℕ → ℕ
py_index len plus minus = if leb minus plus then plus - minus else len + plus - minus

-- `self.mt[i]`, for an index in range.
abbrev pub word : List ℕ → ℕ → ℕ
word mt i = get_or mt i 0

module _ (g : Parameters) where
  open g use {n, m, wrap, w, upper, lower, matrix, temper}

  unfoldable pub create : Twister
  create = record { mt = replicate n 0; mti = n + 1 }

  -- `x ^ (x >> shift)`
  abbrev fold_bits : ℕ → ℕ
  fold_bits x = bit_xor x (x >>> g.seed_shift)

  abbrev pub seed_word : ℕ → List ℕ → List ℕ
  seed_word i mt = set mt i (low_bits (g.seed_factor * fold_bits (word mt (i - 1)) + i) w)

  unfoldable pub seed : Twister → ℕ → Twister
  unfolding for_range
  seed s value = record {
    mt = for_range (n - 1) 1 seed_word (set s.mt 0 (low_bits value w));
    mti = n;
  }

  -- `i += 1; if i >= n: mt[0] = mt[n - 1]; i = 1`. `none` is IndexError, here and below.
  unfoldable pub advance : Mixing → Option Mixing
  advance s =
      if leb n (s.i + 1)
      then (if ltb (n - 1) (length s.words)
          then some (record s { words = set s.words 0 (word s.words (n - 1)); i = 1 })
          else none)
      else some (record s { i = s.i + 1 })

  -- `j += 1`, and `if j >= len(key): j = 0`, which comes behind the step of `i`.
  abbrev pub next_key : List ℕ → Option Mixing → Option Mixing
  next_key key none = none
  next_key key (some s) = some (record s { j = if leb (length key) (s.j + 1) then 0 else s.j + 1 })

  -- A round of the first loop, on `key`; the second, which takes `i` off. `i` is at least 1.
  unfoldable pub mix_key : List ℕ → ℕ → Mixing → Option Mixing
  unfolding advance
  mix_key key ki s =
      let mixed = bit_xor (word s.words s.i) (fold_bits (word s.words (s.i - 1)) * g.key_factor) in
      if ltb s.i (length s.words) && ltb s.j (length key)
      then next_key key
          (advance (record s { words = set s.words s.i (low_bits (mixed + word key s.j + s.j) w) }))
      else none

  unfoldable pub mix_last : ℕ → Mixing → Option Mixing
  unfolding advance
  mix_last ki s =
      let mixed = bit_xor (word s.words s.i) (fold_bits (word s.words (s.i - 1)) * g.last_factor) in
      if ltb s.i (length s.words)
      then advance (record s { words = set s.words s.i (sub_wrap mixed s.i w) })
      else none

  -- The state behind the loops.
  abbrev pub mixed_state : Option Mixing → Option Twister
  mixed_state none = none
  mixed_state (some done) = some (record { mt = set done.words 0 (1 <<< (w - 1)); mti = n })

  -- The second loop behind the first.
  abbrev pub mix_again : Option Mixing → Option Mixing
  mix_again none = none
  mix_again (some keyed) = for_option n 0 mix_last keyed

  unfoldable pub init_by_array : Twister → List ℕ → Option Twister
  unfolding seed mix_key mix_last for_option
  init_by_array s key =
      let seeded = seed s 19650218 in
      mixed_state (
        mix_again (
          for_option (max n (length key)) 0 (mix_key key)
            (record { words = seeded.mt; i = 1; j = 0 })))

  -- `y = (a & upper) | (b & lower)` and `c ^ (y >> 1) ^ (matrix if y & 1 else 0)`
  unfoldable pub combine : ℕ → ℕ → ℕ → ℕ
  combine a b c =
      let y = bit_or (bit_and a upper) (bit_and b lower) in
      bit_xor (bit_xor c (y >>> 1)) (if bit_and y 1 == 0 then 0 else matrix)

  -- Word `k` of the next block, for `k` below the last, and the last word.
  unfoldable pub twist_word : ℕ → List ℕ → List ℕ
  twist_word k mt =
      let other = if ltb k (n - m) then k + m else py_index n (k + m) wrap in
      set mt k (combine (word mt k) (word mt (k + 1)) (word mt other))

  unfoldable pub twist_last : List ℕ → List ℕ
  twist_last mt = set mt (n - 1) (combine (word mt (n - 1)) (word mt 0) (word mt (m - 1)))

  -- `if self.mti == n + 1: self.seed(5489)`
  unfoldable pub ensure_seeded : Twister → Twister
  ensure_seeded s = if s.mti == n + 1 then seed s 5489 else s

  -- The output at `mti`, tempered.
  unfoldable pub output : Twister → ℕ × Twister
  output s = (temper (word s.mt s.mti), record s { mti = s.mti + 1 })

  -- A whole block at once: `int32` and `int64`.
  unfoldable pub next : Twister → ℕ × Twister
  unfolding twist_word twist_last ensure_seeded output for_range
  next s =
      if leb n s.mti
      then (let t = ensure_seeded s in
          output (record { mt = twist_last (for_range (n - 1) 0 twist_word t.mt); mti = 0 }))
      else output s

  -- One word at a time: `int32b` and `int64b`.
  unfoldable pub next_b : Twister → ℕ × Twister
  unfolding twist_word twist_last ensure_seeded output
  next_b s =
      let t = ensure_seeded s in
      let k = if t.mti == n then 0 else t.mti in
      output (record { mt = if k == n - 1 then twist_last t.mt else twist_word k t.mt; mti = k })
