-- ===== src/Prelude/Loop.antt =====
-- `for i in range(i, i + count)` over a state.
use Prim.Native.Nat.{ℕ, zero, suc, ◌+◌, ◌≤◌, ◌<◌}
use mathlib.Core.Path.{◌≡◌, refl, ◌∙◌, ap}
use mathlib.Core.Option.{Option, none, some}
use native.Mathlib.Omega.{arith}

module _ {ℓ} {S : Type ℓ} where
  unfoldable pub for_range : (count i : ℕ) → (ℕ → S → S) → S → S
  for_range zero i body s = s
  for_range (suc count) i body s = for_range count (suc i) body (body i s)

  -- `for i in range(i, i + count)` with a body that may raise.
  unfoldable pub for_option : (count i : ℕ) → (ℕ → S → Option S) → S → Option S
  for_option zero i body s = some s
  for_option (suc count) i body s = elim (body i s) [
    | none ↦ none
    | some s' ↦ for_option count (suc i) body s'
  ]

  for_option_more :
      (count i : ℕ) (body : ℕ → S → Option S) (s t : S)
      → body i s ≡ some t
      → for_option (suc count) i body s ≡ for_option count (suc i) body t
  unfolding for_option
  for_option_more count i body s t e = rw (e, for_option) refl

  -- A loop returns where each round does, and keeps what each round keeps.
  pub for_option_keeps {κ} :
      (P : S → Type κ) (count i : ℕ) (body : ℕ → S → Option S) (s : S)
      → ((j : ℕ) (t : S) → P t → (t' : S) × ((body j t ≡ some t') × P t'))
      → P s
      → (t : S) × ((for_option count i body s ≡ some t) × P t)
  unfolding for_option
  for_option_keeps P zero i body s h p = (s, (refl, p))
  for_option_keeps P (suc count) i body s h p =
      let one = h i s p in
      let rest = for_option_keeps P count (suc i) body one.0 h one.1.1 in
      (rest.0, (for_option_more count i body s one.0 one.1.0 ∙ rest.1.0, rest.1.1))

  -- The last round stands at the end.
  pub for_range_last :
      (count i j : ℕ) (body : ℕ → S → S) (s : S)
      → i + count ≡ j
      → for_range (suc count) i body s ≡ body j (for_range count i body s)
  unfolding for_range
  for_range_last zero i j body s e = let same : i ≡ j = omega arith in ap (λ (t : ℕ). body t s) same
  for_range_last (suc count) i j body s e =
      for_range_last count (suc i) j body (body i s) (omega arith)

  -- Two bodies that agree on the range give the same loop.
  pub for_range_congr :
      (count i : ℕ) (f g : ℕ → S → S) (s : S)
      → ((j : ℕ) (t : S) → i ≤ j → j < i + count → f j t ≡ g j t)
      → for_range count i f s ≡ for_range count i g s
  unfolding for_range
  for_range_congr zero i f g s h = refl
  for_range_congr (suc count) i f g s h =
      for_range_congr count (suc i) f g (f i s) (λ j t p q. h j t (omega arith) (omega arith))
      ∙ ap (for_range count (suc i) g) (h i s (omega arith) (omega arith))

  -- What every round keeps, the loop keeps.
  pub for_range_keeps {κ} :
      (P : S → Type κ) (count i : ℕ) (body : ℕ → S → S) (s : S)
      → ((j : ℕ) (t : S) → P t → P (body j t))
      → P s
      → P (for_range count i body s)
  unfolding for_range
  for_range_keeps P zero i body s h p = p
  for_range_keeps P (suc count) i body s h p =
      for_range_keeps P count (suc i) body (body i s) h (h i s p)
