-- ===== src/Baser/TermHigh.antt =====
-- Blocks with a termination in lanes 4 to 7 come back from the decoder (src/eth/tb/baser.py).
use taxi.Prelude.{
  ℕ, ◌+◌, ◌*◌, ◌^◌, ◌≡◌, ap, ◌∙◌, true, false, [], ◌∷◌, bit_and, bit_or, ◌==◌, low_bits, ◌>>>◌,
  ◌<<<◌, arith,
}
use taxi.Prelude.Digits.{bit_and_high}
use taxi.Baser.Codes.{term_4, term_5, term_6, term_7, Codes, IsStandard}
use taxi.Baser.Encode.{encode, encode_term, or_lanes, ctrl_codes, ctrl_code, is_os}
use taxi.Baser.Decode.{decode, decode_type, decode_term, to_bytes, ctrl_chars}
use taxi.Baser.Fields.{or_lanes_fill, sum_lanes, HasBytes}
use taxi.Baser.Blocks.{plain}
use taxi.Baser.Facts.{
  eq_self, and-false, or_above, IsCtrl, ctrl_char_lem, ctrl_code-lt, decode_type_lem,
}

module _ (c : Codes) (s : IsStandard c) where
  pub term_4_lem :
      (d0 d1 d2 d3 d5 d6 d7 : ℕ)
      → let dl = d0 ∷ d1 ∷ d2 ∷ d3 ∷ c.term ∷ d5 ∷ d6 ∷ d7 ∷ [] in
        let cl = false ∷ false ∷ false ∷ false ∷ true ∷ true ∷ true ∷ true ∷ [] in
        IsCtrl c d5
        → IsCtrl c d6
        → IsCtrl c d7
        → HasBytes 4 0 dl
        → decode c (encode c dl cl) ≡ plain dl cl
  unfolding encode encode_term decode_type decode_term sum_lanes
  term_4_lem d0 d1 d2 d3 d5 d6 d7 k5 k6 k7 b =
      let dl = d0 ∷ d1 ∷ d2 ∷ d3 ∷ c.term ∷ d5 ∷ d6 ∷ d7 ∷ [] in
      let type = s.block_lt term_4 in
      let l5 = ctrl_code-lt c s d5 in
      let l6 = ctrl_code-lt c s d6 in
      let l7 = ctrl_code-lt c s d7 in
      let codes : ℕ = ctrl_code c d5 + ctrl_code c d6 * 2 ^ 7 + ctrl_code c d7 * 2 ^ 14 in
      let picked : bit_and (ctrl_codes c 0 dl) 0xfffff800000000 ≡ codes * 2 ^ 35 =
        bit_and_high 35 21 (ctrl_codes c 0 dl)
        ∙ omega (
          arith,
          ctrl_code-lt c s d0,
          ctrl_code-lt c s d1,
          ctrl_code-lt c s d2,
          ctrl_code-lt c s d3,
          ctrl_code-lt c s c.term,
          ctrl_code-lt c s d5,
          ctrl_code-lt c s d6,
          ctrl_code-lt c s d7,
        ) in
      let masked : bit_or (c.block term_4) (bit_and (ctrl_codes c 0 dl) 0xfffff800000000 <<< 8)
          ≡ codes * 2 ^ 35 * 2 ^ 8 + c.block term_4 =
        ap (λ (x : ℕ). bit_or (c.block term_4) (x <<< 8)) picked
        ∙ or_above (c.block term_4) (codes * 2 ^ 35) type in
      let filled : or_lanes 4 0 1 dl (codes * 2 ^ 35 * 2 ^ 8 + c.block term_4)
          ≡ codes * 2 ^ 35 * 2 ^ 8 + c.block term_4 + sum_lanes 4 0 1 dl =
        ap (or_lanes 4 0 1 dl) (omega arith)
        ∙ or_lanes_fill 4 0 1 (codes * 2 ^ 3) (c.block term_4) dl type b
        ∙ (omega arith) in
      let word : ℕ = codes * 2 ^ 35 * 2 ^ 8 + c.block term_4 + sum_lanes 4 0 1 dl in
      let e0 : low_bits (word >>> 0) 8 ≡ c.block term_4 = omega arith in
      let at = ap c.block_type_term_lane e0 ∙ s.lane_4 in
      let e1 : low_bits (word >>> 8) 8 ≡ d0 = omega arith in
      let e2 : low_bits (word >>> 16) 8 ≡ d1 = omega arith in
      let e3 : low_bits (word >>> 24) 8 ≡ d2 = omega arith in
      let e4 : low_bits (word >>> 32) 8 ≡ d3 = omega arith in
      let c5 = ctrl_char_lem c d5 word 5 k5 (omega arith) in
      let c6 = ctrl_char_lem c d6 word 6 k6 (omega arith) in
      let c7 = ctrl_char_lem c d7 word 7 k7 (omega arith) in
      rw (and-false (c.term == c.start)) (
        rw (and-false (is_os c c.term)) (
          rw (eq_self c.term) (
            rw masked (
              rw filled (
                decode_type_lem c s term_4 word e0
                ∙ ap (decode_term c (to_bytes 8 0 word) (ctrl_chars c 8 0 word)) at
                ∙ (cc))))))

  pub term_5_lem :
      (d0 d1 d2 d3 d4 d6 d7 : ℕ)
      → let dl = d0 ∷ d1 ∷ d2 ∷ d3 ∷ d4 ∷ c.term ∷ d6 ∷ d7 ∷ [] in
        let cl = false ∷ false ∷ false ∷ false ∷ false ∷ true ∷ true ∷ true ∷ [] in
        IsCtrl c d6 → IsCtrl c d7 → HasBytes 5 0 dl → decode c (encode c dl cl) ≡ plain dl cl
  unfolding encode encode_term decode_type decode_term sum_lanes
  term_5_lem d0 d1 d2 d3 d4 d6 d7 k6 k7 b =
      let dl = d0 ∷ d1 ∷ d2 ∷ d3 ∷ d4 ∷ c.term ∷ d6 ∷ d7 ∷ [] in
      let type = s.block_lt term_5 in
      let l6 = ctrl_code-lt c s d6 in
      let l7 = ctrl_code-lt c s d7 in
      let codes : ℕ = ctrl_code c d6 + ctrl_code c d7 * 2 ^ 7 in
      let picked : bit_and (ctrl_codes c 0 dl) 0xfffc0000000000 ≡ codes * 2 ^ 42 =
        bit_and_high 42 14 (ctrl_codes c 0 dl)
        ∙ omega (
          arith,
          ctrl_code-lt c s d0,
          ctrl_code-lt c s d1,
          ctrl_code-lt c s d2,
          ctrl_code-lt c s d3,
          ctrl_code-lt c s d4,
          ctrl_code-lt c s c.term,
          ctrl_code-lt c s d6,
          ctrl_code-lt c s d7,
        ) in
      let masked : bit_or (c.block term_5) (bit_and (ctrl_codes c 0 dl) 0xfffc0000000000 <<< 8)
          ≡ codes * 2 ^ 42 * 2 ^ 8 + c.block term_5 =
        ap (λ (x : ℕ). bit_or (c.block term_5) (x <<< 8)) picked
        ∙ or_above (c.block term_5) (codes * 2 ^ 42) type in
      let filled : or_lanes 5 0 1 dl (codes * 2 ^ 42 * 2 ^ 8 + c.block term_5)
          ≡ codes * 2 ^ 42 * 2 ^ 8 + c.block term_5 + sum_lanes 5 0 1 dl =
        ap (or_lanes 5 0 1 dl) (omega arith)
        ∙ or_lanes_fill 5 0 1 (codes * 2 ^ 2) (c.block term_5) dl type b
        ∙ (omega arith) in
      let word : ℕ = codes * 2 ^ 42 * 2 ^ 8 + c.block term_5 + sum_lanes 5 0 1 dl in
      let e0 : low_bits (word >>> 0) 8 ≡ c.block term_5 = omega arith in
      let at = ap c.block_type_term_lane e0 ∙ s.lane_5 in
      let e1 : low_bits (word >>> 8) 8 ≡ d0 = omega arith in
      let e2 : low_bits (word >>> 16) 8 ≡ d1 = omega arith in
      let e3 : low_bits (word >>> 24) 8 ≡ d2 = omega arith in
      let e4 : low_bits (word >>> 32) 8 ≡ d3 = omega arith in
      let e5 : low_bits (word >>> 40) 8 ≡ d4 = omega arith in
      let c6 = ctrl_char_lem c d6 word 6 k6 (omega arith) in
      let c7 = ctrl_char_lem c d7 word 7 k7 (omega arith) in
      rw (eq_self c.term) (
        rw masked (
          rw filled (
            decode_type_lem c s term_5 word e0
            ∙ ap (decode_term c (to_bytes 8 0 word) (ctrl_chars c 8 0 word)) at
            ∙ (cc))))

  pub term_6_lem :
      (d0 d1 d2 d3 d4 d5 d7 : ℕ)
      → let dl = d0 ∷ d1 ∷ d2 ∷ d3 ∷ d4 ∷ d5 ∷ c.term ∷ d7 ∷ [] in
        let cl = false ∷ false ∷ false ∷ false ∷ false ∷ false ∷ true ∷ true ∷ [] in
        IsCtrl c d7 → HasBytes 6 0 dl → decode c (encode c dl cl) ≡ plain dl cl
  unfolding encode encode_term decode_type decode_term sum_lanes
  term_6_lem d0 d1 d2 d3 d4 d5 d7 k7 b =
      let dl = d0 ∷ d1 ∷ d2 ∷ d3 ∷ d4 ∷ d5 ∷ c.term ∷ d7 ∷ [] in
      let type = s.block_lt term_6 in
      let l7 = ctrl_code-lt c s d7 in
      let codes : ℕ = ctrl_code c d7 in
      let picked : bit_and (ctrl_codes c 0 dl) 0xfe000000000000 ≡ codes * 2 ^ 49 =
        bit_and_high 49 7 (ctrl_codes c 0 dl)
        ∙ omega (
          arith,
          ctrl_code-lt c s d0,
          ctrl_code-lt c s d1,
          ctrl_code-lt c s d2,
          ctrl_code-lt c s d3,
          ctrl_code-lt c s d4,
          ctrl_code-lt c s d5,
          ctrl_code-lt c s c.term,
          ctrl_code-lt c s d7,
        ) in
      let masked : bit_or (c.block term_6) (bit_and (ctrl_codes c 0 dl) 0xfe000000000000 <<< 8)
          ≡ codes * 2 ^ 49 * 2 ^ 8 + c.block term_6 =
        ap (λ (x : ℕ). bit_or (c.block term_6) (x <<< 8)) picked
        ∙ or_above (c.block term_6) (codes * 2 ^ 49) type in
      let filled : or_lanes 6 0 1 dl (codes * 2 ^ 49 * 2 ^ 8 + c.block term_6)
          ≡ codes * 2 ^ 49 * 2 ^ 8 + c.block term_6 + sum_lanes 6 0 1 dl =
        ap (or_lanes 6 0 1 dl) (omega arith)
        ∙ or_lanes_fill 6 0 1 (codes * 2 ^ 1) (c.block term_6) dl type b
        ∙ (omega arith) in
      let word : ℕ = codes * 2 ^ 49 * 2 ^ 8 + c.block term_6 + sum_lanes 6 0 1 dl in
      let e0 : low_bits (word >>> 0) 8 ≡ c.block term_6 = omega arith in
      let at = ap c.block_type_term_lane e0 ∙ s.lane_6 in
      let e1 : low_bits (word >>> 8) 8 ≡ d0 = omega arith in
      let e2 : low_bits (word >>> 16) 8 ≡ d1 = omega arith in
      let e3 : low_bits (word >>> 24) 8 ≡ d2 = omega arith in
      let e4 : low_bits (word >>> 32) 8 ≡ d3 = omega arith in
      let e5 : low_bits (word >>> 40) 8 ≡ d4 = omega arith in
      let e6 : low_bits (word >>> 48) 8 ≡ d5 = omega arith in
      let c7 = ctrl_char_lem c d7 word 7 k7 (omega arith) in
      rw (eq_self c.term) (
        rw masked (
          rw filled (
            decode_type_lem c s term_6 word e0
            ∙ ap (decode_term c (to_bytes 8 0 word) (ctrl_chars c 8 0 word)) at
            ∙ (cc))))

  pub term_7_lem :
      (d0 d1 d2 d3 d4 d5 d6 : ℕ)
      → let dl = d0 ∷ d1 ∷ d2 ∷ d3 ∷ d4 ∷ d5 ∷ d6 ∷ c.term ∷ [] in
        let cl = false ∷ false ∷ false ∷ false ∷ false ∷ false ∷ false ∷ true ∷ [] in
        HasBytes 7 0 dl → decode c (encode c dl cl) ≡ plain dl cl
  unfolding encode encode_term decode_type decode_term sum_lanes
  term_7_lem d0 d1 d2 d3 d4 d5 d6 b =
      let dl = d0 ∷ d1 ∷ d2 ∷ d3 ∷ d4 ∷ d5 ∷ d6 ∷ c.term ∷ [] in
      let type = s.block_lt term_7 in
      let filled : or_lanes 7 0 1 dl (c.block term_7) ≡ c.block term_7 + sum_lanes 7 0 1 dl =
        ap (or_lanes 7 0 1 dl) (omega arith)
        ∙ or_lanes_fill 7 0 1 0 (c.block term_7) dl type b
        ∙ (omega arith) in
      let word : ℕ = c.block term_7 + sum_lanes 7 0 1 dl in
      let e0 : low_bits (word >>> 0) 8 ≡ c.block term_7 = omega arith in
      let at = ap c.block_type_term_lane e0 ∙ s.lane_7 in
      let e1 : low_bits (word >>> 8) 8 ≡ d0 = omega arith in
      let e2 : low_bits (word >>> 16) 8 ≡ d1 = omega arith in
      let e3 : low_bits (word >>> 24) 8 ≡ d2 = omega arith in
      let e4 : low_bits (word >>> 32) 8 ≡ d3 = omega arith in
      let e5 : low_bits (word >>> 40) 8 ≡ d4 = omega arith in
      let e6 : low_bits (word >>> 48) 8 ≡ d5 = omega arith in
      let e7 : low_bits (word >>> 56) 8 ≡ d6 = omega arith in
      rw (eq_self c.term) (
        rw filled (
          decode_type_lem c s term_7 word e0
          ∙ ap (decode_term c (to_bytes 8 0 word) (ctrl_chars c 8 0 word)) at
          ∙ (cc)))
