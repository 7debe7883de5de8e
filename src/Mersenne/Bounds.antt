-- ===== src/Mersenne/Bounds.antt =====
-- The words of a generator's state (src/math/tb/mt19937.py and mt19937_64.py) keep their number and
-- their width.
use taxi.Prelude.{
  ℕ, zero, suc, ◌+◌, ◌-◌, ◌^◌, ◌≤◌, ◌<◌, some, List, [], ◌∷◌, ◌≡◌, refl, ap, ◌∙◌, length,
  length-set, length-replicate, if◌then◌else◌, max, leb, ltb, true, ◌&&◌, Option, Bool-cases, ◌==◌,
  inl, inr, All, set, get_or, replicate, low_bits, ◌<<<◌, ◌>>>◌, bit_and, bit_or, bit_xor, arith,
}
use taxi.Prelude.Bits.{lt-two-pow, bit_xor-lt, bit_or-lt, bit_and-le}
use native.Mathlib.Nat.{pow-suc}
use taxi.Prelude.Loop.{for_range, for_range_keeps, for_option_keeps}
use taxi.Mersenne.{
  Parameters, Twister, Mixing, advance, next_key, mixed_state, mix_again, word, create, seed,
  mix_key, mix_last, init_by_array, combine, twist_word, twist_last, ensure_seeded, output, next,
  next_b,
}

All-set {κ} : (P : ℕ → Type κ) (xs : List ℕ) (i v : ℕ) → All P xs → P v → All P (set xs i v)
All-set P [] i v h p = h
All-set P (x ∷ xs) zero v h p = (p, h.1)
All-set P (x ∷ xs) (suc i) v h p = (h.0, All-set P xs i v h.1 p)

All-get_or {κ} : (P : ℕ → Type κ) (xs : List ℕ) (i : ℕ) → All P xs → P 0 → P (get_or xs i 0)
All-get_or P [] i h p = p
All-get_or P (x ∷ xs) zero h p = h.0
All-get_or P (x ∷ xs) (suc i) h p = All-get_or P xs i h.1 p

All-replicate {κ} : (P : ℕ → Type κ) (n : ℕ) → P 0 → All P (replicate n 0)
All-replicate P zero p = tt
All-replicate P (suc n) p = (p, All-replicate P n p)

module _ (g : Parameters) where
  open g use {n, w, upper, lower, matrix, temper}

  abbrev pub IsWord : ℕ → Type 0
  IsWord x = x < 2 ^ w

  -- The matrix is a word, and tempering keeps words.
  abbrev pub HasWords : Type 0
  HasWords = (matrix < 2 ^ w) × ((0 < w) × ((y : ℕ) → IsWord y → IsWord (temper y)))

  abbrev pub AreWords : List ℕ → Type 0
  AreWords mt = (length mt ≡ n) × All IsWord mt

  abbrev pub IsValid : Twister → Type 0
  IsValid s = AreWords s.mt × (s.mti ≤ n + 1)

  zero-IsWord : IsWord 0
  zero-IsWord = omega (arith, lt-two-pow w)

  low_bits-IsWord : (x : ℕ) → IsWord (low_bits x w)
  low_bits-IsWord x = let p : 0 < 2 ^ w = omega (arith, lt-two-pow w) in grind arith

  top-IsWord : 0 < w → IsWord (1 <<< (w - 1))
  top-IsWord h =
      let whole : suc (w - 1) ≡ w = omega arith in
      let same : 2 ^ suc (w - 1) ≡ 2 ^ w = ap (λ (k : ℕ). 2 ^ k) whole in
      omega (arith, pow-suc 2 (w - 1), lt-two-pow (w - 1))

  word-IsWord : (mt : List ℕ) (i : ℕ) → AreWords mt → IsWord (word mt i)
  word-IsWord mt i h = All-get_or IsWord mt i h.1 zero-IsWord

  set-AreWords : (mt : List ℕ) (i v : ℕ) → AreWords mt → IsWord v → AreWords (set mt i v)
  set-AreWords mt i v h p = (length-set mt i v ∙ h.0, All-set IsWord mt i v h.1 p)

  seed-IsValid : (s : Twister) (value : ℕ) → AreWords s.mt → IsValid (seed g s value)
  unfolding seed
  seed-IsValid s value h = (
    for_range_keeps AreWords (n - 1) 1 _ _
        (λ (j : ℕ) (t : List ℕ) p. set-AreWords t j _ p (low_bits-IsWord _))
        (set-AreWords s.mt 0 _ h (low_bits-IsWord value)),
    omega arith,
  )

  combine-IsWord :
      (a b c : ℕ) → HasWords → IsWord a → IsWord b → IsWord c → IsWord (combine g a b c)
  unfolding combine
  combine-IsWord a b c h p q r =
      let y : ℕ = bit_or (bit_and a upper) (bit_and b lower) in
      let y_word : IsWord y =
        bit_or-lt w _ _ (omega (arith, bit_and-le a upper)) (omega (arith, bit_and-le b lower)) in
      let half : IsWord (y >>> 1) = omega arith in
      let shifted : IsWord (bit_xor c (y >>> 1)) = bit_xor-lt w c (y >>> 1) r half in
      ground
        (arith, bit_xor-lt w (bit_xor c (y >>> 1)) 0, bit_xor-lt w (bit_xor c (y >>> 1)) matrix)

  twist_word-AreWords :
      (k : ℕ) (mt : List ℕ) → HasWords → AreWords mt → AreWords (twist_word g k mt)
  unfolding twist_word
  twist_word-AreWords k mt h p =
      set-AreWords mt k _ p
        (combine-IsWord _ _ _ h (word-IsWord mt _ p) (word-IsWord mt _ p) (word-IsWord mt _ p))

  twist_last-AreWords : (mt : List ℕ) → HasWords → AreWords mt → AreWords (twist_last g mt)
  unfolding twist_last
  twist_last-AreWords mt h p =
      set-AreWords mt (n - 1) _ p
        (combine-IsWord _ _ _ h (word-IsWord mt _ p) (word-IsWord mt _ p) (word-IsWord mt _ p))

  ensure_seeded-IsValid : (s : Twister) → IsValid s → IsValid (ensure_seeded g s)
  unfolding ensure_seeded
  ensure_seeded-IsValid s h = ground (arith, seed-IsValid s 5489 h.0)

  -- A created state is valid.
  pub create-IsValid : IsValid (create g)
  unfolding create
  create-IsValid = ((length-replicate n 0, All-replicate IsWord n zero-IsWord), omega arith)

  -- The output is a word, the words stay words, and the index points behind a word of the list.
  abbrev pub Drawn : ℕ × Twister → Type 0
  Drawn r = IsWord r.0 × (AreWords r.1.mt × ((0 < r.1.mti) × (r.1.mti ≤ n)))

  output-Drawn :
      (mt : List ℕ) (k : ℕ)
      → HasWords
      → AreWords mt
      → k < n
      → Drawn (output g (record { mt = mt; mti = k }))
  unfolding output
  output-Drawn mt k h p q =
      (h.1.1 (word mt k) (word-IsWord mt k p), (p, (omega arith, omega arith)))

  block-AreWords :
      (mt : List ℕ)
      → HasWords
      → AreWords mt
      → AreWords (twist_last g (for_range (n - 1) 0 (twist_word g) mt))
  block-AreWords mt h p = twist_last-AreWords _ h (
      for_range_keeps AreWords (n - 1) 0 (twist_word g) mt
        (λ (j : ℕ) (t : List ℕ) q. twist_word-AreWords j t h q) p)

  -- A call of the block form in a valid state returns a word, and reads and leaves valid words.
  pub next-Drawn : (s : Twister) → HasWords → 0 < n → IsValid s → Drawn (next g s)
  unfolding next
  next-Drawn s h q p = elim (Bool-cases (leb n s.mti)) [
    | inl e ↦ rw e (output-Drawn _ 0 h (block-AreWords _ h (ensure_seeded-IsValid s p).0) q)
    | inr e ↦ rw e (output-Drawn s.mt s.mti h p.0 (ground arith))
  ]

  ensure_seeded-le : (s : Twister) → s.mti ≤ n + 1 → (ensure_seeded g s).mti ≤ n
  unfolding ensure_seeded seed
  ensure_seeded-le s h = ground arith

  word_or_block_end :
      (mt : List ℕ) (k : ℕ)
      → HasWords
      → AreWords mt
      → AreWords (if k == n - 1 then twist_last g mt else twist_word g k mt)
  word_or_block_end mt k h p = elim (Bool-cases (k == n - 1)) [
    | inl e ↦ rw e (twist_last-AreWords mt h p)
    | inr e ↦ rw e (twist_word-AreWords k mt h p)
  ]

  -- A call of the word form in a valid state does too.
  pub next_b-Drawn : (s : Twister) → HasWords → 0 < n → IsValid s → Drawn (next_b g s)
  unfolding next_b
  next_b-Drawn s h q p =
      let t = ensure_seeded g s in
      let below : (if t.mti == n then 0 else t.mti) < n = ground (arith, ensure_seeded-le s p.1) in
      output-Drawn _ _ h (word_or_block_end t.mt _ h (ensure_seeded-IsValid s p).0) below

  -- The words are words, and both indexes stand inside their lists.
  abbrev IsMixing : List ℕ → Mixing → Type 0
  IsMixing key t = AreWords t.words × (((0 < t.i) × (t.i < n)) × (t.j < length key))

  -- A step returns and keeps that.
  abbrev Mixes : List ℕ → Option Mixing → Type 0
  Mixes key r = (t : Mixing) × ((r ≡ some t) × IsMixing key t)

  advance-IsMixing : (key : List ℕ) (t : Mixing) → 1 < n → IsMixing key t → Mixes key (advance g t)
  unfolding advance
  advance-IsMixing key t h p = elim (Bool-cases (leb n (t.i + 1))) [
    | inl e ↦
        let inside : ltb (n - 1) (length t.words) ≡ true = ground (arith, p.0.0) in
        rw (e, inside)
          (_, (refl, (set-AreWords _ _ _ p.0 (word-IsWord _ _ p.0), ((omega arith, h), p.1.1))))
    | inr e ↦ rw e (_, (refl, (p.0, ((omega arith, ground arith), p.1.1))))
  ]

  next_key-IsMixing :
      (key : List ℕ) (r : Option Mixing) → Mixes key r → Mixes key (next_key g key r)
  next_key-IsMixing key r (t, (e, p)) =
      (_, (ap (next_key g key) e, (p.0, (p.1.0, ground (arith, p.1.1)))))

  mix_key-IsMixing :
      (key : List ℕ) (ki : ℕ) (t : Mixing) → 1 < n → IsMixing key t → Mixes key (mix_key g key ki t)
  unfolding mix_key
  mix_key-IsMixing key ki t h p =
      let inside : ltb t.i (length t.words) && ltb t.j (length key) ≡ true =
        ground (arith, p.0.0, p.1.0.1, p.1.1) in
      rw inside (
        next_key-IsMixing key _ (
          advance-IsMixing key (record t { words = set t.words t.i _ }) h
            (set-AreWords t.words t.i _ p.0 (low_bits-IsWord _), p.1)))

  mix_last-IsMixing :
      (key : List ℕ) (ki : ℕ) (t : Mixing) → 1 < n → IsMixing key t → Mixes key (mix_last g ki t)
  unfolding mix_last
  mix_last-IsMixing key ki t h p =
      let inside : ltb t.i (length t.words) ≡ true = ground (arith, p.0.0, p.1.0.1) in
      rw inside (advance-IsMixing key _ h (set-AreWords t.words t.i _ p.0 (low_bits-IsWord _), p.1))

  -- With more than one word, words of one bit at least and a key that is not empty, `init_by_array` of a state
  -- with so many words raises no IndexError in its loops, neither on the words nor on the key, and comes to a
  -- valid state.
  pub init_by_array-IsValid :
      (s : Twister) (key : List ℕ)
      → 1 < n
      → 0 < w
      → 0 < length key
      → AreWords s.mt
      → (t : Twister) × ((init_by_array g s key ≡ some t) × IsValid t)
  unfolding init_by_array
  init_by_array-IsValid s key h v e p =
      let inside : n ≤ n + 1 = omega arith in
      let seeded = seed-IsValid s 19650218 p in
      let keyed =
        for_option_keeps (IsMixing key) (max n (length key)) 0 (mix_key g key) _
          (λ (j : ℕ) (t : Mixing) q. mix_key-IsMixing key j t h q)
          (seeded.0, ((omega arith, h), e)) in
      let done =
        for_option_keeps (IsMixing key) n 0 (mix_last g) keyed.0
          (λ (j : ℕ) (t : Mixing) q. mix_last-IsMixing key j t h q) keyed.1.1 in
      (
        _,
        (
          ap (λ r. mixed_state g (mix_again g r)) keyed.1.0 ∙ ap (mixed_state g) done.1.0,
          (set-AreWords _ _ _ done.1.1.0 (top-IsWord v), inside),
        ),
      )
