-- ===== src/Baser/Wire.antt =====
-- A round of `_run` of the source and of the sink of src/eth/tb/baser.py, over an interface of eight byte
-- lanes without a gearbox, a slip or a reversal of the bits. `scrambling` is the attribute `scramble`.
pub mod Low
pub mod Carried
use taxi.Prelude.{
  ℕ, zero, suc, ◌+◌, Bool, true, false, Option, none, some, List, [], ◌∷◌, map, if◌then◌else◌,
}
use taxi.Baser.Codes.{Codes}
use taxi.Baser.Frame.{Library}
use taxi.Baser.Source.{Source, Lane, fill_block}
use taxi.Baser.Encode.{Block, encode}
use taxi.Baser.Decode.{decode, to_bytes}
use taxi.Baser.Scrambler.{Lfsr, scramble, descramble}
use taxi.Baser.Sink.{Sink, match_block, receive_lanes}

abbrev pub lane_data : List Lane → List ℕ
lane_data ls = map (λ (l : Lane). l.d) ls

abbrev pub lane_ctrls : List Lane → List Bool
lane_ctrls ls = map (λ (l : Lane). l.c) ls

-- `dl[k]` and `cl[k]` of the sink, for lists of the same length.
abbrev pub zip_lanes : List ℕ → List Bool → List Lane
zip_lanes [] cl = []
zip_lanes (d ∷ dl) [] = []
zip_lanes (d ∷ dl) (c ∷ cl) = record { d = d; c = c } ∷ zip_lanes dl cl

module _ (c : Codes) (scrambling : Bool) where
  -- The block of the lanes, and `scrambler_state` behind it.
  unfoldable pub code_block : ℕ → List Lane → Block × ℕ
  code_block state lanes =
      let b = encode c (lane_data lanes) (lane_ctrls lanes) in
      let x = scramble state b.payload in
      if scrambling then (record b { payload = x.out }, x.state) else (b, state)

  abbrev pub descrambled : ℕ → Block → Lfsr
  descrambled state b =
      if scrambling then descramble state b.payload else record { state = state; out = b.payload }

module _ (lib : Library) (c : Codes) (scrambling : Bool) where
  unfoldable pub send_block : Source → ℕ → Option (Block × Source × ℕ)
  send_block s state = elim (fill_block lib c s) [
    | none ↦ none
    | some (lanes, t) ↦
        some ((code_block c scrambling state lanes).0, t, (code_block c scrambling state lanes).1)
  ]

  unfoldable pub take_block : Sink → ℕ → Block → Sink × ℕ
  take_block t state b =
      let x = descrambled c scrambling state b in
      let l = decode c (record b { payload = x.out }) in
      let db = to_bytes 8 0 x.out in
      (
        receive_lanes lib c 0 (zip_lanes l.dl l.cl) (match_block c db l.dl l.cl l.os l.idle t),
        x.state,
      )

  -- `count` rounds, with the two scrambler states.
  unfoldable pub carry : ℕ → Source → ℕ → Sink → ℕ → Option (Source × Sink)
  carry zero s state t state' = some (s, t)
  carry (suc count) s state t state' = elim (send_block s state) [
    | none ↦ none
    | some (b, u, next) ↦ carry count u next (take_block t state' b).0 (take_block t state' b).1
  ]
