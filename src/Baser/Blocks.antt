-- ===== src/Baser/Blocks.antt =====
-- Blocks of data and starts come back from the decoder (src/eth/tb/baser.py).
use taxi.Prelude.{
  ℕ, ◌+◌, ◌≡◌, ap, ◌∙◌, Bool, true, false, List, [], ◌∷◌, low_bits, ◌>>>◌, from_bytes, arith,
}
use taxi.Baser.Codes.{start_0, Codes, IsStandard}
use taxi.Baser.Encode.{encode, or_lanes}
use taxi.Baser.Decode.{Lanes, decode, decode_type}
use taxi.Baser.Fields.{or_lanes_fill, sum_lanes, HasBytes}
use taxi.Baser.Facts.{eq_self, decode_type_lem}

-- What the decoder returns for lanes that come back.
abbrev pub plain : List ℕ → List Bool → Lanes
plain dl cl = record { dl = dl; cl = cl; os = false; idle = false }

module _ (c : Codes) (s : IsStandard c) where
  pub data_lem :
      (d0 d1 d2 d3 d4 d5 d6 d7 : ℕ)
      → let dl = d0 ∷ d1 ∷ d2 ∷ d3 ∷ d4 ∷ d5 ∷ d6 ∷ d7 ∷ [] in
        let cl = false ∷ false ∷ false ∷ false ∷ false ∷ false ∷ false ∷ false ∷ [] in
        HasBytes 8 0 dl → decode c (encode c dl cl) ≡ plain dl cl
  unfolding encode decode
  data_lem d0 d1 d2 d3 d4 d5 d6 d7 b =
      let x = d0 ∷ d1 ∷ d2 ∷ d3 ∷ d4 ∷ d5 ∷ d6 ∷ d7 ∷ [] in
      let word : ℕ = from_bytes x in
      let e0 : low_bits (word >>> 0) 8 ≡ d0 = omega arith in
      let e1 : low_bits (word >>> 8) 8 ≡ d1 = omega arith in
      let e2 : low_bits (word >>> 16) 8 ≡ d2 = omega arith in
      let e3 : low_bits (word >>> 24) 8 ≡ d3 = omega arith in
      let e4 : low_bits (word >>> 32) 8 ≡ d4 = omega arith in
      let e5 : low_bits (word >>> 40) 8 ≡ d5 = omega arith in
      let e6 : low_bits (word >>> 48) 8 ≡ d6 = omega arith in
      let e7 : low_bits (word >>> 56) 8 ≡ d7 = omega arith in rw (eq_self c.sync_data) (cc)

  pub start_0_lem :
      (d1 d2 d3 d4 d5 d6 d7 : ℕ)
      → let dl = c.start ∷ d1 ∷ d2 ∷ d3 ∷ d4 ∷ d5 ∷ d6 ∷ d7 ∷ [] in
        let cl = true ∷ false ∷ false ∷ false ∷ false ∷ false ∷ false ∷ false ∷ [] in
        HasBytes 7 1 dl → decode c (encode c dl cl) ≡ plain dl cl
  unfolding encode decode_type sum_lanes
  start_0_lem d1 d2 d3 d4 d5 d6 d7 b =
      let dl = c.start ∷ d1 ∷ d2 ∷ d3 ∷ d4 ∷ d5 ∷ d6 ∷ d7 ∷ [] in
      let low = s.block_lt start_0 in
      let filled : or_lanes 7 1 1 dl (c.block start_0) ≡ c.block start_0 + sum_lanes 7 1 1 dl =
        ap (or_lanes 7 1 1 dl) (omega arith)
        ∙ or_lanes_fill 7 1 1 0 (c.block start_0) dl low b
        ∙ (omega arith) in
      let word : ℕ = c.block start_0 + sum_lanes 7 1 1 dl in
      let e0 : low_bits (word >>> 0) 8 ≡ c.block start_0 = omega arith in
      let e1 : low_bits (word >>> 8) 8 ≡ d1 = omega arith in
      let e2 : low_bits (word >>> 16) 8 ≡ d2 = omega arith in
      let e3 : low_bits (word >>> 24) 8 ≡ d3 = omega arith in
      let e4 : low_bits (word >>> 32) 8 ≡ d4 = omega arith in
      let e5 : low_bits (word >>> 40) 8 ≡ d5 = omega arith in
      let e6 : low_bits (word >>> 48) 8 ≡ d6 = omega arith in
      let e7 : low_bits (word >>> 56) 8 ≡ d7 = omega arith in
      rw (eq_self c.start) (rw filled (decode_type_lem c s start_0 word e0 ∙ (cc)))
