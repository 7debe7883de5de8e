-- ===== src/Baser/Wire/Carried.antt =====
-- Frames over rounds of both sides of src/eth/tb/baser.py, through the coder and the scrambler.
use taxi.Prelude.{
  ℕ, zero, suc, ◌≡◌, ◌≢◌, refl, sym, ap, ◌∙◌, Bool, true, false, Option, none, some, List, [], ◌∷◌,
  ◌++◌, subst,
}
use taxi.Baser.Codes.{Codes, IsStandard}
use taxi.Baser.Frame.{Library}
use taxi.Baser.Source.{Source, Lane, fill_block}
use taxi.Baser.Sink.{Sink, receive_lanes, match_block}
use taxi.Baser.Encode.{Block, encode}
use taxi.Baser.Decode.{Lanes, decode, to_bytes}
use taxi.Baser.Facts.{IsCtrl}
use taxi.Baser.Coded.{decode-encode}
use taxi.Baser.Scrambler.{Lfsr}
use taxi.Baser.Scrambler.RoundTrip.{descramble-scramble_low}
use taxi.Baser.Carry.{Inv, to_send, delivered}
use taxi.Baser.Carry.Emit.{IsFaithful, Passed}
use taxi.Baser.Carry.Lanes.{fill_lanes-Goes}
use taxi.Baser.Carry.Link.{fill_lanes_os}
use taxi.Baser.Carry.Shape.{Shape, Shape-IsCoded}
use taxi.Baser.Carry.Step.{Steady}
use taxi.Baser.Carry.Fill.{Rests, Shaped, fill_lanes-Shape}
use taxi.Baser.Wire.{
  lane_data, lane_ctrls, zip_lanes, code_block, descrambled, send_block, take_block, carry,
}
use taxi.Baser.Wire.Low.{decode-low_bits}

zip_lanes_back : (ls : List Lane) → zip_lanes (lane_data ls) (lane_ctrls ls) ≡ ls
zip_lanes_back [] = refl
zip_lanes_back (l ∷ ls) = ap (λ (xs : List Lane). l ∷ xs) (zip_lanes_back ls)

module _ (c : Codes) where
  -- The constants are the standard ones, and the idle character is a control character of both
  -- dictionaries and no termination.
  pub record IsUsual : Type 0 where
    pub standard : IsStandard c
    pub idle_ctrl : IsCtrl c c.idle
    pub idle_term : c.idle ≢ c.term

  -- What a block of lanes comes back as, and the scrambler state of the sink.
  pub decode-code_block :
      (scrambling : Bool) (state : ℕ) (ls : List Lane)
      → IsUsual
      → Shape c ls
      → let b = (code_block c scrambling state ls).0 in
        let x = descrambled c scrambling state b in
        (idle : Bool) × ((decode c (record b { payload = x.out })
            ≡ record { dl = lane_data ls; cl = lane_ctrls ls; os = false; idle = idle })
          × (x.state ≡ (code_block c scrambling state ls).1))
  unfolding code_block
  decode-code_block false state ls u shape =
      let coded = Shape-IsCoded c u.idle_ctrl u.idle_term ls shape in
      (coded.0, (decode-encode c _ u.standard coded.1, refl))
  decode-code_block true state ls u shape =
      let coded = Shape-IsCoded c u.idle_ctrl u.idle_term ls shape in
      let b = encode c (lane_data ls) (lane_ctrls ls) in
      let back = descramble-scramble_low state b.payload in
      (
        coded.0,
        (
          ap (λ (x : Lfsr). decode c (record b { payload = x.out })) back
              ∙ (decode-low_bits c b ∙ decode-encode c _ u.standard coded.1),
          ap (λ (x : Lfsr). x.state) back,
        ),
      )

module _ (lib : Library) (c : Codes) where
  match_quiet :
      (idle : Bool) (db dl : List ℕ) (cl : List Bool) (s : Source) (t : Sink)
      → Inv lib c s t
      → Passed lib c s t s (match_block c db dl cl false idle t)
  unfolding match_block
  match_quiet true db dl cl s t i = (i, refl)
  match_quiet false db dl cl s t i = (i, refl)

  -- Both sides are in a round that the theorems are about.
  abbrev pub Ready : Source → Sink → Type 0
  Ready s t = Inv lib c s t × (Steady lib c s × Rests lib c s)

  -- A round of both sides.
  abbrev Crosses : Bool → Source → ℕ → Sink → Type 0
  Crosses scrambling s state t =
      (b : Block) × (s' : Source) × (next : ℕ) × ((send_block lib c scrambling s state
          ≡ some (b, s', next))
        × (((take_block lib c scrambling t state b).1 ≡ next)
            × (Passed lib c s t s' (take_block lib c scrambling t state b).0
                × (Steady lib c s' × Rests lib c s'))))

  value : Option (List Lane × Source) → List Lane × Source → List Lane × Source
  value none p = p
  value (some q) p = q

  -- The frames pass over the lanes of a block.
  filled :
      (s : Source) (t t' : Sink)
      → IsFaithful lib c
      → Passed lib c s t s t'
      → (x : Shaped lib c s)
      → (s' : Source) × ((fill_block lib c s ≡ some (x.0, s'))
          × (Passed lib c s t s' (receive_lanes lib c 0 x.0 t')
              × (Steady lib c s' × Rests lib c s')))
  unfolding value
  filled s t t' w quiet (ls, s1, (e, (shape, rest))) =
      let goes = fill_lanes-Goes lib c w 8 0 s t' quiet.0 in
      let same : (goes.0, goes.1) ≡ (ls, s1) =
        ap (λ (o : Option (List Lane × Source)). value o (ls, s1)) (sym goes.2.0 ∙ e) in
      let passed =
        subst (λ (p : List Lane × Source). Passed lib c s t' p.1 (receive_lanes lib c 0 p.0 t'))
          same goes.2.1 in
      let block = fill_lanes_os lib c w s s1 ls e passed.0.0.1.1.1.1 in
      (record s1 { in_term = false }, (block, ((passed.0, passed.1 ∙ quiet.1), rest)))

  module _ (scrambling : Bool) (w : IsFaithful lib c) (u : IsUsual c) where
    crosses : (s : Source) (state : ℕ) (t : Sink) → Ready s t → Crosses scrambling s state t
    unfolding send_block take_block
    crosses s state t ready =
        let shaped = fill_lanes-Shape lib c s ready.1.0 ready.1.1 in
        let ls = shaped.0 in
        let coded = code_block c scrambling state ls in
        let back = decode-code_block c scrambling state ls u shaped.2.1.0 in
        let db = to_bytes 8 0 (descrambled c scrambling state coded.0).out in
        let t' = match_block c db (lane_data ls) (lane_ctrls ls) false back.0 t in
        let block =
          filled s t t' w (match_quiet back.0 db (lane_data ls) (lane_ctrls ls) s t ready.0)
            shaped in
        let taken : (take_block lib c scrambling t state coded.0).0 ≡ receive_lanes lib c 0 ls t' =
          ap
            (λ (l : Lanes).
              receive_lanes lib c 0 (zip_lanes l.dl l.cl)
                (match_block c db l.dl l.cl l.os l.idle t))
            back.1.0
          ∙ ap (λ (xs : List Lane). receive_lanes lib c 0 xs t') (zip_lanes_back ls) in
        let passed = subst (Passed lib c s t block.0) (sym taken) block.1.1.0 in
        (
          coded.0,
          block.0,
          coded.1,
          (rw (block.1.0, send_block) refl, (back.1.1, (passed, block.1.1.1))),
        )

    -- Frames of at least eight bytes that start with the preamble and hold no control character go from the
    -- source to the sink through the coder, and the scrambler if it is on, in any number of rounds of both
    -- sides, when the scrambler states are the same, no repetition and no ordered set is set, the constants
    -- are standard and `compact` keeps the bytes: the source raises no AssertionError, and the bytes of
    -- the frames received, of the one under way and of those that wait are those of before, in order.
    pub carry-Ready :
        (count : ℕ) (s : Source) (state : ℕ) (t : Sink)
        → Ready s t
        → (s' : Source) × (t' : Sink) × ((carry lib c scrambling count s state t state
              ≡ some (s', t'))
            × (Ready s' t'
                × (delivered lib c t' ++ to_send lib c s' ≡ delivered lib c t ++ to_send lib c s)))
    unfolding carry
    carry-Ready zero s state t ready = (s, t, (refl, (ready, refl)))
    carry-Ready (suc count) s state t ready =
        let one = crosses s state t ready in
        let passed = one.3.1.1.0 in
        let t' = (take_block lib c scrambling t state one.0).0 in
        let rest = carry-Ready count one.1 one.2 t' (passed.0, one.3.1.1.1) in
        let step = ap (carry lib c scrambling count one.1 one.2 t') one.3.1.0 in
        (
          rest.0,
          rest.1,
          (rw (one.3.0, carry) (step ∙ rest.2.0), (rest.2.1.0, rest.2.1.1 ∙ passed.1)),
        )
