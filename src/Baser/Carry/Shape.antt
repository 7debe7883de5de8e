-- ===== src/Baser/Carry/Shape.antt =====
-- The lanes of a block without an ordered set (src/eth/tb/baser.py): idle characters, the start of a
-- frame, the bytes of a frame, or its end.
use taxi.Prelude.{
  ℕ, ◌+◌, ◌<◌, ◌^◌, ◌≡◌, ◌≢◌, Bool, true, false, List, [], ◌∷◌, ◌++◌, map, length, replicate, All,
  ◌⊎◌, inl, inr, arith,
}
use taxi.Baser.Codes.{Codes}
use taxi.Baser.Source.{Lane}
use taxi.Baser.Wire.{lane_data, lane_ctrls}
use taxi.Baser.Facts.{IsCtrl}
use taxi.Baser.Coded.{
  Coded, all_data, start_0_block, start_4_block, term_0_block, term_1_block, term_2_block,
  term_3_block, term_4_block, term_5_block, term_6_block, term_7_block, all_ctrl,
}

abbrev pub dat : ℕ → Lane
dat d = record { d = d; c = false }

abbrev pub IsByte : ℕ → Type 0
IsByte d = d < 2 ^ 8

module _ (c : Codes) where
  abbrev pub idle : Lane
  idle = record { d = c.idle; c = true }

  -- The bytes of a frame over `count` lanes, and its end if it comes there.
  abbrev pub Body : ℕ → List Lane → Type 0
  Body count ls =
      (ds : List ℕ) × (All IsByte ds
        × (((length ds ≡ count) × (ls ≡ map dat ds))
            ⊎ ((m : ℕ) × ((length ds + 1 + m ≡ count)
                  × (ls ≡ map dat ds ++ (record { d = c.term; c = true } ∷ replicate m idle))))))

  -- `count` bytes of a frame.
  abbrev pub Inside : ℕ → List Lane → Type 0
  Inside count ls = (ds : List ℕ) × (All IsByte ds × ((length ds ≡ count) × (ls ≡ map dat ds)))

  pub data Shape : List Lane → Type 0 where
    idles : Shape (replicate 8 idle)
    start_0 : (ls : List Lane) → Inside 7 ls → Shape (record { d = c.start; c = true } ∷ ls)
    start_4 :
        (ls : List Lane)
        → Inside 3 ls
        → Shape (replicate 4 idle ++ (record { d = c.start; c = true } ∷ ls))
    body : (ls : List Lane) → Body 8 ls → Shape ls

  abbrev pub IsCoded : List Lane → Type 0
  IsCoded ls =
      (idle : Bool) × Coded c
        (record { dl = lane_data ls; cl = lane_ctrls ls; os = false; idle = idle })

  module _ (i : IsCtrl c c.idle) (h : c.idle ≢ c.term) where
    Body-All : (ds : List ℕ) → All IsByte ds → length ds ≡ 8 → IsCoded (map dat ds)
    Body-All (d0 ∷ d1 ∷ d2 ∷ d3 ∷ d4 ∷ d5 ∷ d6 ∷ d7 ∷ []) b e =
        (false, all_data d0 d1 d2 d3 d4 d5 d6 d7 b)
    Body-All _ b e = absurd (omega arith)

    body_term :
        (ds : List ℕ) (m : ℕ)
        → All IsByte ds
        → length ds + 1 + m ≡ 8
        → IsCoded (map dat ds ++ (record { d = c.term; c = true } ∷ replicate m idle))
    body_term [] m b e =
        let rest : m ≡ 7 = omega (arith, e) in
        rw rest (false, term_0_block c.idle c.idle c.idle c.idle c.idle c.idle c.idle i i i i i i i)
    body_term (d0 ∷ []) m b e =
        let rest : m ≡ 6 = omega (arith, e) in
        rw rest (false, term_1_block d0 c.idle c.idle c.idle c.idle c.idle c.idle i i i i i i b)
    body_term (d0 ∷ d1 ∷ []) m b e =
        let rest : m ≡ 5 = omega (arith, e) in
        rw rest (false, term_2_block d0 d1 c.idle c.idle c.idle c.idle c.idle i i i i i b)
    body_term (d0 ∷ d1 ∷ d2 ∷ []) m b e =
        let rest : m ≡ 4 = omega (arith, e) in
        rw rest (false, term_3_block d0 d1 d2 c.idle c.idle c.idle c.idle i i i i b)
    body_term (d0 ∷ d1 ∷ d2 ∷ d3 ∷ []) m b e =
        let rest : m ≡ 3 = omega (arith, e) in
        rw rest (false, term_4_block d0 d1 d2 d3 c.idle c.idle c.idle i i i b)
    body_term (d0 ∷ d1 ∷ d2 ∷ d3 ∷ d4 ∷ []) m b e =
        let rest : m ≡ 2 = omega (arith, e) in
        rw rest (false, term_5_block d0 d1 d2 d3 d4 c.idle c.idle i i b)
    body_term (d0 ∷ d1 ∷ d2 ∷ d3 ∷ d4 ∷ d5 ∷ []) m b e =
        let rest : m ≡ 1 = omega (arith, e) in
        rw rest (false, term_6_block d0 d1 d2 d3 d4 d5 c.idle i b)
    body_term (d0 ∷ d1 ∷ d2 ∷ d3 ∷ d4 ∷ d5 ∷ d6 ∷ []) m b e =
        let rest : m ≡ 0 = omega (arith, e) in rw rest (false, term_7_block d0 d1 d2 d3 d4 d5 d6 b)
    body_term _ m b e = absurd (omega (arith, e))

    Inside-start_0 :
        (ls : List Lane) → Inside 7 ls → IsCoded (record { d = c.start; c = true } ∷ ls)
    Inside-start_0 ls (d0 ∷ d1 ∷ d2 ∷ d3 ∷ d4 ∷ d5 ∷ d6 ∷ [], (b, (e, e'))) =
        rw e' (false, start_0_block d0 d1 d2 d3 d4 d5 d6 b)
    Inside-start_0 ls (_, (b, (e, e'))) = absurd (omega (arith, e))

    Inside-start_4 :
        (ls : List Lane)
        → Inside 3 ls
        → IsCoded (replicate 4 idle ++ (record { d = c.start; c = true } ∷ ls))
    Inside-start_4 ls (d0 ∷ d1 ∷ d2 ∷ [], (b, (e, e'))) =
        rw e' (false, start_4_block c.idle c.idle c.idle c.idle d0 d1 d2 i i i i b)
    Inside-start_4 ls (_, (b, (e, e'))) = absurd (omega (arith, e))

    Body-IsCoded : (ls : List Lane) → Body 8 ls → IsCoded ls
    Body-IsCoded ls (ds, (b, inl (e, e'))) = rw e' (Body-All ds b e)
    Body-IsCoded ls (ds, (b, inr (m, (e, e')))) = rw e' (body_term ds m b e)

    pub Shape-IsCoded : (ls : List Lane) → Shape ls → IsCoded ls
    Shape-IsCoded _ idles =
        (true, all_ctrl c.idle c.idle c.idle c.idle c.idle c.idle c.idle c.idle h i i i i i i i i)
    Shape-IsCoded _ (start_0 ls x) = Inside-start_0 ls x
    Shape-IsCoded _ (start_4 ls x) = Inside-start_4 ls x
    Shape-IsCoded _ (body ls x) = Body-IsCoded ls x
