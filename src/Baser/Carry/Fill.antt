-- ===== src/Baser/Carry/Fill.antt =====
-- The lanes of a block of the source (src/eth/tb/baser.py) have one of the shapes that the coder knows.
use taxi.Prelude.{
  ℕ, zero, suc, ◌+◌, ◌%◌, ◌≤◌, ◌<◌, ◌^◌, ◌≡◌, refl, ap, ◌∙◌, subst, true, none, some, List, [], ◌∷◌,
  ◌++◌, length, get_or, replicate, ◌⊎◌, Bool-cases, inl, inr, leb, leb→le, append-nil, arith,
}
use taxi.Baser.Codes.{Codes}
use taxi.Baser.Frame.{Frame, Library}
use taxi.Baser.Source.{Source, Lane, fill_lane, fill_lanes}
use taxi.Baser.Carry.Shape.{dat, idle, Body, Inside, Shape, idles, start_0, start_4, body}
use taxi.Baser.Carry.Step.{
  Steady, Under, waits, fill_data, fill_term, fill_idle, fill_free, Idles, Begins,
}

module _ (lib : Library) (c : Codes) where
  fills_more :
      (s t u : Source) (count k : ℕ) (l : Lane) (ls : List Lane)
      → fill_lane lib c s k ≡ some (l, t)
      → fill_lanes lib c count (suc k) t ≡ some (ls, u)
      → fill_lanes lib c (suc count) k s ≡ some (l ∷ ls, u)
  unfolding fill_lanes
  fills_more s t u count k l ls e e' = rw (e, fill_lanes) (rw e' refl)

  -- `count` idle characters from lane `k` on, whatever follows.
  abbrev Leads : ℕ → ℕ → Source → Source → Type 0
  Leads count k s s' =
      (b n k' : ℕ) (ys : List Lane) (u : Source)
      → n ≡ count + b
      → k' ≡ k + count
      → fill_lanes lib c b k' s' ≡ some (ys, u)
      → fill_lanes lib c n k s ≡ some (replicate count (idle c) ++ ys, u)

  Leads-zero : (k : ℕ) (s : Source) → Leads zero k s s
  Leads-zero k s b n k' ys u h h' e =
      let same : n ≡ b = omega (arith, h) in
      let lane : k ≡ k' = omega (arith, h') in rw (same, lane) e

  Leads-suc :
      (count k : ℕ) (s t u : Source)
      → fill_lane lib c s k ≡ some (idle c, t)
      → Leads count (suc k) t u
      → Leads (suc count) k s u
  Leads-suc count k s t u e l b n k' ys v h h' e' =
      let more : n ≡ suc (count + b) = omega (arith, h) in
      rw more (
        fills_more s t v (count + b) k (idle c) (replicate count (idle c) ++ ys) e
          (l b (count + b) k' ys v refl (omega (arith, h')) e'))

  -- Lanes that wait, behind the end of a frame or between its possible starts.
  idle_run :
      (count k : ℕ) (s : Source)
      → Steady lib c s
      → s.frame ≡ none
      → ((j : ℕ) → j < count → (0 < (k + j) % 4) ⊎ (s.in_term ≡ true))
      → (s' : Source) × (Leads count k s s'
          × (Steady lib c s' × ((s'.frame ≡ none) × (s'.in_term ≡ s.in_term))))
  idle_run zero k s h e w = (s, (Leads-zero k s, (h, (e, refl))))
  idle_run (suc count) k s h e w =
      let waiting : waits lib c s k ≡ true = elim (w 0 (omega arith)) [
        | inl x ↦ ground (arith, x)
        | inr x ↦ ground (arith, x)
      ] in
      let one = fill_idle lib c s k h e waiting in
      let same = one.1.1.1.1 in
      let shifted : (j : ℕ) → j < count → (0 < (suc k + j) % 4) ⊎ (one.0.in_term ≡ true) = λ j l.
        elim (w (suc j) (omega (arith, l))) [
          | inl x ↦ inl (omega (arith, x))
          | inr x ↦ inr (same ∙ x)
        ] in
      let rest = idle_run count (suc k) one.0 one.1.1.0 one.1.1.1.0 shifted in
      (
        rest.0,
        (
          Leads-suc count k s one.0 rest.0 one.1.0 rest.1.0,
          (rest.1.1.0, (rest.1.1.1.0, rest.1.1.1.1 ∙ same)),
        ),
      )

  Inside-fill_lanes :
      (count k n : ℕ) (s : Source) (f : Frame)
      → Steady lib c s
      → Under lib c s f n
      → n + count ≤ length f.bytes
      → (ls : List Lane) × (s' : Source) × ((fill_lanes lib c count k s ≡ some (ls, s'))
          × (Inside c count ls × (Steady lib c s' × Under lib c s' f (n + count))))
  unfolding fill_lanes
  Inside-fill_lanes zero k n s f h x past = (
    [],
    s,
    (
      refl,
      (
        ([], (tt, (refl, refl))),
        (h, (x.0, (x.1.0, (omega (arith, x.1.1.0), (omega (arith, x.1.1.1.0), x.1.1.1.1))))),
      ),
    ),
  )
  Inside-fill_lanes (suc count) k n s f h x past =
      let one = fill_data lib c s k n f h x (omega arith) in
      let rest =
        Inside-fill_lanes count (suc k) (n + 1) one.0 f one.1.1.0 one.1.1.1 (omega arith) in
      let inside = rest.2.1.0 in
      let d = get_or f.bytes n 0 in
      let byte : d < 2 ^ 8 = x.1.1.1.1.1.1 n in
      let sum : n + 1 + count ≡ n + suc count = omega arith in
      let under : Under lib c rest.1 f (n + suc count) =
        subst (Under lib c rest.1 f) sum rest.2.1.1.1 in
      (
        dat d ∷ rest.0,
        rest.1,
        (
          fills_more s one.0 rest.1 count k _ _ one.1.0 rest.2.0,
          (
            (
              d ∷ inside.0,
              (
                (byte, inside.1.0),
                (omega (arith, inside.1.1.0), ap (λ (xs : List Lane). dat d ∷ xs) inside.1.1.1),
              ),
            ),
            (rest.2.1.1.0, under),
          ),
        ),
      )

  -- A frame is under way, or none.
  abbrev pub Rests : Source → Type 0
  Rests s = (s.frame ≡ none) ⊎ ((f : Frame) × (n : ℕ) × Under lib c s f n)

  abbrev Bodies : ℕ → ℕ → Source → Type 0
  Bodies count k s =
      (ls : List Lane) × (s' : Source) × ((fill_lanes lib c count k s ≡ some (ls, s'))
        × (Body c count ls × (Steady lib c s' × Rests s')))

  ending :
      (count k n : ℕ) (s : Source) (f : Frame)
      → Steady lib c s
      → Under lib c s f n
      → length f.bytes ≤ n
      → Bodies (suc count) k s
  unfolding fill_lanes
  ending count k n s f h x past =
      let one = fill_term lib c s k n f h x past in
      let ended = one.1.1.1.1 in
      let rest = idle_run count (suc k) one.0 one.1.1.0 one.1.1.1.0 (λ j l. inr ended) in
      let lanes = rest.1.0 0 count (suc k + count) [] rest.0 (omega arith) refl refl in
      (
        _,
        rest.0,
        (
          fills_more s one.0 rest.0 count k _ _ one.1.0 lanes,
          (
            (
              [],
              (
                tt,
                inr (
                  count,
                  (
                    omega arith,
                    ap (λ (xs : List Lane). record { d = c.term; c = true } ∷ xs)
                        (append-nil (replicate count (idle c))),
                  ),
                ),
              ),
            ),
            (rest.1.1.0, inl rest.1.1.1.0),
          ),
        ),
      )

  further :
      (count : ℕ) (d : ℕ) (ls : List Lane)
      → d < 2 ^ 8
      → Body c count ls
      → Body c (suc count) (dat d ∷ ls)
  further count d ls h (ds, (b, inl (e, e'))) =
      (d ∷ ds, ((h, b), inl (omega (arith, e), ap (λ (xs : List Lane). dat d ∷ xs) e')))
  further count d ls h (ds, (b, inr (m, (e, e')))) =
      (d ∷ ds, ((h, b), inr (m, (omega (arith, e), ap (λ (xs : List Lane). dat d ∷ xs) e'))))

  body_run :
      (count k n : ℕ) (s : Source) (f : Frame)
      → Steady lib c s
      → Under lib c s f n
      → Bodies count k s
  unfolding fill_lanes
  body_run zero k n s f h x = ([], s, (refl, (([], (tt, inl (refl, refl))), (h, inr (f, n, x)))))
  body_run (suc count) k n s f h x = elim (Bool-cases (leb (length f.bytes) n)) [
    | inl e ↦ ending count k n s f h x (leb→le _ _ e)
    | inr e ↦
        (let inside : n < length f.bytes = ground (arith, e) in
          let one = fill_data lib c s k n f h x inside in
          let byte : get_or f.bytes n 0 < 2 ^ 8 = x.1.1.1.1.1.1 n in
          let rest = body_run count (suc k) (n + 1) one.0 f one.1.1.0 one.1.1.1 in
          (
            dat (get_or f.bytes n 0) ∷ rest.0,
            rest.1,
            (
              fills_more s one.0 rest.1 count k _ _ one.1.0 rest.2.0,
              (further count _ rest.0 byte rest.2.1.0, rest.2.1.1),
            ),
          ))
  ]

  -- The lanes of a block, whatever is under way when it starts.
  abbrev pub Shaped : Source → Type 0
  Shaped s =
      (ls : List Lane) × (s' : Source) × ((fill_lanes lib c 8 0 s ≡ some (ls, s'))
        × (Shape c ls × (Steady lib c s' × Rests s')))

  Begins-start_0 : (s : Source) → Begins lib c s 0 → Shaped s
  Begins-start_0 s (f, t, (e, (h, x))) =
      let rest = Inside-fill_lanes 7 1 1 t f h x x.1.1.1.1.1.0 in
      (
        _,
        rest.1,
        (
          fills_more s t rest.1 7 0 _ rest.0 e rest.2.0,
          (start_0 rest.0 rest.2.1.0, (rest.2.1.1.0, inr (f, 8, rest.2.1.1.1))),
        ),
      )

  Begins-start_4 : (s t : Source) → Leads 4 0 s t → Begins lib c t 4 → Shaped s
  Begins-start_4 s t l (f, t', (e, (h, x))) =
      let rest = Inside-fill_lanes 3 5 1 t' f h x (omega (arith, x.1.1.1.1.1.0)) in
      let second = fills_more t t' rest.1 3 4 _ rest.0 e rest.2.0 in
      (
        _,
        rest.1,
        (
          l 4 8 4 _ rest.1 refl refl second,
          (start_4 rest.0 rest.2.1.0, (rest.2.1.1.0, inr (f, 4, rest.2.1.1.1))),
        ),
      )

  idle_four :
      (k : ℕ) (s : Source)
      → ((j : ℕ) → j < 3 → 0 < (suc k + j) % 4)
      → Idles lib c s k
      → (t : Source) × (Leads 4 k s t × (Steady lib c t × (t.frame ≡ none)))
  idle_four k s w (t, (e, (h, (e', same)))) =
      let rest = idle_run 3 (suc k) t h e' (λ j l. inl (w j l)) in
      (rest.0, (Leads-suc 3 k s t rest.0 e rest.1.0, (rest.1.1.0, rest.1.1.1.0)))

  free_half : (s t : Source) → Leads 4 0 s t → Steady lib c t → t.frame ≡ none → Shaped s
  unfolding fill_lanes
  free_half s t l h e = elim (fill_free lib c t 4 h e) [
    | inr x ↦ Begins-start_4 s t l x
    | inl x ↦
        (let rest = idle_four 4 t (λ j b. omega (arith, b)) x in
          let second = rest.1.0 0 4 8 [] rest.0 refl refl refl in
          (_, rest.0, (l 4 8 4 _ rest.0 refl refl second, (idles, (rest.1.1.0, inl rest.1.1.1)))))
  ]

  free_block : (s : Source) → Steady lib c s → s.frame ≡ none → Shaped s
  free_block s h e = elim (fill_free lib c s 0 h e) [
    | inr x ↦ Begins-start_0 s x
    | inl x ↦
        (let rest = idle_four 0 s (λ j b. omega (arith, b)) x in
          free_half s rest.0 rest.1.0 rest.1.1.0 rest.1.1.1)
  ]

  pub fill_lanes-Shape : (s : Source) → Steady lib c s → Rests s → Shaped s
  fill_lanes-Shape s h (inl e) = free_block s h e
  fill_lanes-Shape s h (inr (f, n, x)) =
      let rest = body_run 8 0 n s f h x in
      (rest.0, rest.1, (rest.2.0, (body rest.0 rest.2.1.0, rest.2.1.1)))
