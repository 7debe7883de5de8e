-- ===== src/Mersenne/Stream.antt =====
-- The block form and the word form of a generator (src/math/tb/mt19937.py, `int32` and `int32b`, and
-- mt19937_64.py, `int64` and `int64b`).
use taxi.Prelude.{
  ℕ, zero, suc, ◌+◌, ◌-◌, ◌≤◌, ◌<◌, List, [], ◌∷◌, ◌≡◌, refl, ◌∙◌, sym, ap, set, get_or, ltb,
  ltb→lt, Bool-cases, ap₂, ◌==◌, if◌then◌else◌, ◌⊎◌, inl, inr, arith,
}
use taxi.Prelude.Loop.{for_range, for_range_last, for_range_congr}
use taxi.Mersenne.{
  Parameters, Twister, word, seed, twist_word, twist_last, ensure_seeded, output, next, next_b,
}

-- What `count` calls of a generator return.
unfoldable pub calls : {S : Type 0} → (S → ℕ × S) → ℕ → S → List ℕ
calls step zero s = []
calls step (suc count) s = let r = step s in r.0 ∷ calls step count r.1

get_or-set_ne : (xs : List ℕ) (i j v : ℕ) → j < i → get_or (set xs i v) j 0 ≡ get_or xs j 0
get_or-set_ne [] i j v h = refl
get_or-set_ne (x ∷ xs) zero j v h = absurd (omega arith)
get_or-set_ne (x ∷ xs) (suc i) zero v h = refl
get_or-set_ne (x ∷ xs) (suc i) (suc j) v h = get_or-set_ne xs i j v (omega arith)

module _ (g : Parameters) where
  open g use {n}

  -- Word `k` of the next block.
  unfoldable twist_at : ℕ → List ℕ → List ℕ
  twist_at k mt = if k == n - 1 then twist_last g mt else twist_word g k mt

  -- A block in one call, and what is left of it from word `k` on.
  abbrev block : List ℕ → List ℕ
  block mt = twist_last g (for_range (n - 1) 0 (twist_word g) mt)

  abbrev rest : ℕ → List ℕ → List ℕ
  rest k mt = for_range (n - k) k twist_at mt

  twist_at-last : (k : ℕ) (mt : List ℕ) → k ≡ n - 1 → twist_at k mt ≡ twist_last g mt
  unfolding twist_at
  twist_at-last k mt h = ground arith

  twist_at-word : (k : ℕ) (mt : List ℕ) → k < n - 1 → twist_word g k mt ≡ twist_at k mt
  unfolding twist_at
  twist_at-word k mt h = ground arith

  word-twist_last : (i : ℕ) (mt : List ℕ) → i < n - 1 → word (twist_last g mt) i ≡ word mt i
  unfolding twist_last
  word-twist_last i mt h = get_or-set_ne mt (n - 1) i _ h

  word-twist_word : (k i : ℕ) (mt : List ℕ) → i < k → word (twist_word g k mt) i ≡ word mt i
  unfolding twist_word
  word-twist_word k i mt h = get_or-set_ne mt k i _ h

  word-twist_at : (k i : ℕ) (mt : List ℕ) → i < k → word (twist_at k mt) i ≡ word mt i
  unfolding twist_at
  word-twist_at k i mt h = ground (arith, word-twist_last i mt, word-twist_word k i mt)

  word-for_range :
      (count k i : ℕ) (mt : List ℕ) → i < k → word (for_range count k twist_at mt) i ≡ word mt i
  unfolding for_range
  word-for_range zero k i mt h = refl
  word-for_range (suc count) k i mt h =
      word-for_range count (suc k) i (twist_at k mt) (omega arith) ∙ word-twist_at k i mt h

  block-rest : (mt : List ℕ) → 0 < n → block mt ≡ rest 0 mt
  block-rest mt h =
      let same : for_range (n - 1) 0 (twist_word g) mt ≡ for_range (n - 1) 0 twist_at mt =
        for_range_congr (n - 1) 0 (twist_word g) twist_at mt
          (λ (j : ℕ) (t : List ℕ) p q. twist_at-word j t (omega arith)) in
      let whole : suc (n - 1) ≡ n - 0 = omega arith in
      ap (twist_last g) same
      ∙ sym (twist_at-last (n - 1) (for_range (n - 1) 0 twist_at mt) refl)
      ∙ sym (for_range_last (n - 1) 0 (n - 1) twist_at mt (omega arith))
      ∙ ap (λ (c : ℕ). for_range c 0 twist_at mt) whole

  rest-suc : (k : ℕ) (mt : List ℕ) → k < n → rest k mt ≡ rest (suc k) (twist_at k mt)
  unfolding for_range
  rest-suc k mt h =
      let longer : n - k ≡ suc (n - suc k) = omega arith in
      ap (λ (c : ℕ). for_range c k twist_at mt) longer

  rest-all : (mt : List ℕ) → rest n mt ≡ mt
  unfolding for_range
  rest-all mt = let none_left : n - n ≡ 0 = omega arith in rw none_left

  -- The state of the word form, and that of the block form after the same calls.
  abbrev Match : Twister → Twister → Type 0
  Match a b = (a.mti ≡ b.mti) × ((b.mti ≤ n) × (b.mt ≡ rest b.mti a.mt))

  next_b-inside :
      (a : Twister)
      → a.mti < n
      → next_b g a ≡ output g (record { mt = twist_at a.mti a.mt; mti = a.mti })
  unfolding next_b ensure_seeded twist_at
  next_b-inside a h = ground arith

  next_b-wrap :
      (a : Twister) → a.mti ≡ n → next_b g a ≡ output g (record { mt = twist_at 0 a.mt; mti = 0 })
  unfolding next_b ensure_seeded twist_at
  next_b-wrap a h = ground arith

  next-inside : (b : Twister) → b.mti < n → next g b ≡ output g b
  unfolding next
  next-inside b h = ground arith

  next-wrap : (b : Twister) → b.mti ≡ n → next g b ≡ output g (record { mt = block b.mt; mti = 0 })
  unfolding next ensure_seeded
  next-wrap b h = ground arith

  -- The word at `k` of both, when the block form has all of them.
  output-Match :
      (k : ℕ) (mt mt' : List ℕ)
      → k < n
      → mt' ≡ rest (suc k) mt
      → ((output g (record { mt = mt; mti = k })).0 ≡ (output g (record { mt = mt'; mti = k })).0)
        × Match
            (output g (record { mt = mt; mti = k })).1
            (output g (record { mt = mt'; mti = k })).1
  unfolding output
  output-Match k mt mt' h e =
      let above : k + 1 ≡ suc k = omega arith in
      (
        ap (g.temper) (
            sym (
              ap (λ (t : List ℕ). word t k) e
              ∙ word-for_range (n - suc k) (suc k) k mt (omega arith))),
        (refl, (omega arith, e ∙ ap (λ (c : ℕ). rest c mt) (sym above))),
      )

  abbrev Steps : ℕ × Twister → ℕ × Twister → Type 0
  Steps r r' = (r.0 ≡ r'.0) × Match r.1 r'.1

  next-inside-Match : (a b : Twister) → Match a b → b.mti < n → Steps (next_b g a) (next g b)
  next-inside-Match a b r h =
      let mt_eq : b.mt ≡ rest (suc b.mti) (twist_at b.mti a.mt) = r.1.1 ∙ rest-suc b.mti a.mt h in
      rw (next_b-inside a (omega (arith, r.0)))
        (rw (next-inside b h) (rw r.0 (output-Match b.mti (twist_at b.mti a.mt) b.mt h mt_eq)))

  next-wrap-Match : (a b : Twister) → 0 < n → Match a b → b.mti ≡ n → Steps (next_b g a) (next g b)
  next-wrap-Match a b p r h =
      let mt_eq : b.mt ≡ a.mt = r.1.1 ∙ ap (λ (k : ℕ). rest k a.mt) h ∙ rest-all a.mt in
      rw (next_b-wrap a (r.0 ∙ h)) (
        rw (next-wrap b h) (
          output-Match 0 (twist_at 0 a.mt) (block b.mt) p
            (ap block mt_eq ∙ block-rest a.mt p ∙ rest-suc 0 a.mt p)))

  next-Match : (a b : Twister) → 0 < n → Match a b → Steps (next_b g a) (next g b)
  next-Match a b p r = elim (Bool-cases (ltb b.mti n)) [
    | inl t ↦ next-inside-Match a b r (ltb→lt b.mti n t)
    | inr f ↦ next-wrap-Match a b p r (ground (arith, r.1.0))
  ]

  calls-Match :
      (count : ℕ) (a b : Twister)
      → 0 < n
      → Match a b
      → calls (next_b g) count a ≡ calls (next g) count b
  unfolding calls
  calls-Match zero a b p r = refl
  calls-Match (suc count) a b p r =
      let step = next-Match a b p r in
      ap₂ (λ (x : ℕ) (xs : List ℕ). x ∷ xs) step.0
        (calls-Match count (next_b g a).1 (next g b).1 p step.1)

  -- The seeding of the first call.
  next-fresh : (s : Twister) → s.mti ≡ n + 1 → next g s ≡ next g (seed g s 5489)
  unfolding next ensure_seeded seed
  next-fresh s h = ground arith

  next_b-fresh : (s : Twister) → s.mti ≡ n + 1 → next_b g s ≡ next_b g (seed g s 5489)
  unfolding next_b ensure_seeded seed
  next_b-fresh s h = ground arith

  seed-Match : (s : Twister) (value : ℕ) → Match (seed g s value) (seed g s value)
  unfolding seed
  seed-Match s value = (refl, (omega arith, sym (rest-all _)))

  -- From a state in which the next call starts a block (`mti` is n, after a seed, or n + 1, as created),
  -- any number of calls of the word form return what as many calls of the block form return.
  pub calls-next_b-next :
      (count : ℕ) (s : Twister)
      → 0 < n
      → (s.mti ≡ n) ⊎ (s.mti ≡ n + 1)
      → calls (next_b g) count s ≡ calls (next g) count s
  unfolding calls
  calls-next_b-next count s p (inl h) =
      calls-Match count s s p
        (refl, (omega arith, sym (ap (λ (k : ℕ). rest k s.mt) h ∙ rest-all s.mt)))
  calls-next_b-next zero s p (inr h) = refl
  calls-next_b-next (suc count) s p (inr h) = rw (next_b-fresh s h) (
      rw (next-fresh s h)
        (calls-Match (suc count) (seed g s 5489) (seed g s 5489) p (seed-Match s 5489)))
