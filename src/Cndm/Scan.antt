-- ===== src/Cndm/Scan.antt =====
-- The loop over the entries of a completion or an event queue (src/cndm/tb/cndm.py).
use mathlib.Core.Option.{some-injective}
use taxi.Prelude.{
  ℕ, zero, suc, ◌+◌, ◌<◌, ◌≡◌, refl, sym, ap, ◌∙◌, Bool, true, false, Option, none, some,
  Option-cases, Bool-cases, inl, inr, if◌then◌else◌, arith,
}

-- What a loop ends with. `stuck` is a loop that goes on past its fuel.
pub data Result (A : Type 0) : Type 0 where
  returns : A → Result A
  raises stuck : Result A

-- `while True`, which breaks at the first entry that is not new.
unfoldable pub scan : {S : Type 0} → (ℕ → Bool) → (ℕ → S → Option S) → ℕ → ℕ → S → Result (ℕ × S)
scan is_new body zero ptr s = stuck
scan is_new body (suc fuel) ptr s =
    if is_new ptr
    then elim (body ptr s) [ none ↦ raises | some s' ↦ scan is_new body fuel (ptr + 1) s' ]
    else returns (ptr, s)

-- The body for each of `n` entries.
unfoldable pub rounds : {S : Type 0} → (ℕ → S → Option S) → ℕ → ℕ → S → Option S
rounds body zero ptr s = some s
rounds body (suc n) ptr s = elim (body ptr s) [ none ↦ none | some s' ↦ rounds body n (ptr + 1) s' ]

-- The loop has not run out of fuel.
abbrev pub ended : {A : Type 0} → Result A → Bool
ended (returns a) = true
ended raises = true
ended stuck = false

module _ {S : Type 0} (is_new : ℕ → Bool) (body : ℕ → S → Option S) where
  scan_more :
      (fuel ptr : ℕ) (s t : S)
      → is_new ptr ≡ true
      → body ptr s ≡ some t
      → scan is_new body (suc fuel) ptr s ≡ scan is_new body fuel (ptr + 1) t
  unfolding scan
  scan_more fuel ptr s t new e = rw (new, e, scan) refl

  pub rounds_more :
      (n ptr : ℕ) (s t : S)
      → body ptr s ≡ some t
      → rounds body (suc n) ptr s ≡ rounds body n (ptr + 1) t
  unfolding rounds
  rounds_more n ptr s t e = rw (e, rounds) refl

  rounds_fail : (n ptr : ℕ) (s : S) → body ptr s ≡ none → rounds body (suc n) ptr s ≡ none
  unfolding rounds
  rounds_fail n ptr s e = rw (e, rounds) refl

  -- The loop is a round for each new entry.
  pub scan-rounds :
      (n fuel ptr : ℕ) (s s' : S)
      → n < fuel
      → ((j : ℕ) → j < n → is_new (ptr + j) ≡ true)
      → is_new (ptr + n) ≡ false
      → rounds body n ptr s ≡ some s'
      → scan is_new body fuel ptr s ≡ returns (ptr + n, s')
  unfolding scan rounds
  scan-rounds n zero ptr s s' h new last e = absurd (omega arith)
  scan-rounds zero (suc fuel) ptr s s' h new last e =
      let here : ptr + 0 ≡ ptr = omega arith in
      let stop : is_new ptr ≡ false = ap is_new (sym here) ∙ last in
      rw (stop, here) (ap (λ (x : S). returns (ptr, x)) (some-injective s s' e))
  scan-rounds (suc n) (suc fuel) ptr s s' h new last e = elim (Option-cases (body ptr s)) [
    | inl q ↦ absurd (ground (arith, sym (rounds_fail n ptr s q) ∙ e))
    | inr (t, q) ↦
        (let here : ptr + 0 ≡ ptr = omega arith in
          let first : is_new ptr ≡ true = ap is_new (sym here) ∙ new 0 (omega arith) in
          let far : ptr + 1 + n ≡ ptr + suc n = omega arith in
          let rest =
            scan-rounds n fuel (ptr + 1) t s' (omega (arith, h))
              (λ j l.
                let next : ptr + 1 + j ≡ ptr + suc j = omega arith in
                ap is_new next ∙ new (suc j) (omega (arith, l)))
              (ap is_new far ∙ last) (sym (rounds_more n ptr s t q) ∙ e) in
          scan_more fuel ptr s t first q ∙ (rest ∙ ap (λ (x : ℕ). returns (x, s')) far))
  ]

  -- The loop ends where an entry is not new.
  pub scan_ends :
      (n fuel ptr : ℕ) (s : S)
      → n < fuel
      → is_new (ptr + n) ≡ false
      → ended (scan is_new body fuel ptr s) ≡ true
  unfolding scan
  scan_ends n zero ptr s h last = absurd (omega arith)
  scan_ends zero (suc fuel) ptr s h last =
      let here : ptr + 0 ≡ ptr = omega arith in
      let stop : is_new ptr ≡ false = ap is_new (sym here) ∙ last in rw stop refl
  scan_ends (suc n) (suc fuel) ptr s h last = elim (Bool-cases (is_new ptr)) [
    | inr stop ↦ rw stop refl
    | inl new ↦ elim (Option-cases (body ptr s)) [
      | inl q ↦ rw (new, q, scan) refl
      | inr (t, q) ↦
          (let far : ptr + 1 + n ≡ ptr + suc n = omega arith in
            ap ended (scan_more fuel ptr s t new q)
            ∙ scan_ends n fuel (ptr + 1) t (omega (arith, h)) (ap is_new far ∙ last))
    ]
  ]
