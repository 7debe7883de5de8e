-- ===== src/Baser/TermLow.antt =====
-- Blocks with a termination in lanes 0 to 3 come back from the decoder (src/eth/tb/baser.py).
use taxi.Prelude.{
  ℕ, ◌+◌, ◌*◌, ◌^◌, ◌≡◌, ap, ◌∙◌, true, false, [], ◌∷◌, bit_and, bit_or, ◌==◌, low_bits, ◌>>>◌,
  ◌<<<◌, arith,
}
use taxi.Prelude.Digits.{bit_and_high}
use taxi.Baser.Codes.{term_0, term_1, term_2, term_3, Codes, IsStandard}
use taxi.Baser.Encode.{encode, encode_term, or_lanes, ctrl_codes, ctrl_code, is_os}
use taxi.Baser.Decode.{decode, decode_type, decode_term, to_bytes, ctrl_chars}
use taxi.Baser.Fields.{or_lanes_fill, sum_lanes, HasBytes}
use taxi.Baser.Blocks.{plain}
use taxi.Baser.Facts.{
  eq_self, and-false, or_above, IsCtrl, ctrl_char_lem, ctrl_code-lt, decode_type_lem,
}

module _ (c : Codes) (s : IsStandard c) where
  pub term_0_lem :
      (d1 d2 d3 d4 d5 d6 d7 : ℕ)
      → let dl = c.term ∷ d1 ∷ d2 ∷ d3 ∷ d4 ∷ d5 ∷ d6 ∷ d7 ∷ [] in
        let cl = true ∷ true ∷ true ∷ true ∷ true ∷ true ∷ true ∷ true ∷ [] in
        IsCtrl c d1
        → IsCtrl c d2
        → IsCtrl c d3
        → IsCtrl c d4
        → IsCtrl c d5
        → IsCtrl c d6
        → IsCtrl c d7
        → decode c (encode c dl cl) ≡ plain dl cl
  unfolding encode encode_term decode_type decode_term sum_lanes
  term_0_lem d1 d2 d3 d4 d5 d6 d7 k1 k2 k3 k4 k5 k6 k7 =
      let dl = c.term ∷ d1 ∷ d2 ∷ d3 ∷ d4 ∷ d5 ∷ d6 ∷ d7 ∷ [] in
      let type = s.block_lt term_0 in
      let l1 = ctrl_code-lt c s d1 in
      let l2 = ctrl_code-lt c s d2 in
      let l3 = ctrl_code-lt c s d3 in
      let l4 = ctrl_code-lt c s d4 in
      let l5 = ctrl_code-lt c s d5 in
      let l6 = ctrl_code-lt c s d6 in
      let l7 = ctrl_code-lt c s d7 in
      let codes : ℕ =
        ctrl_code c d1
        + ctrl_code c d2 * 2 ^ 7
        + ctrl_code c d3 * 2 ^ 14
        + ctrl_code c d4 * 2 ^ 21
        + ctrl_code c d5 * 2 ^ 28
        + ctrl_code c d6 * 2 ^ 35
        + ctrl_code c d7 * 2 ^ 42 in
      let picked : bit_and (ctrl_codes c 0 dl) 0xffffffffffff80 ≡ codes * 2 ^ 7 =
        bit_and_high 7 49 (ctrl_codes c 0 dl)
        ∙ omega (
          arith,
          ctrl_code-lt c s c.term,
          ctrl_code-lt c s d1,
          ctrl_code-lt c s d2,
          ctrl_code-lt c s d3,
          ctrl_code-lt c s d4,
          ctrl_code-lt c s d5,
          ctrl_code-lt c s d6,
          ctrl_code-lt c s d7,
        ) in
      let masked : bit_or (c.block term_0) (bit_and (ctrl_codes c 0 dl) 0xffffffffffff80 <<< 8)
          ≡ codes * 2 ^ 7 * 2 ^ 8 + c.block term_0 =
        ap (λ (x : ℕ). bit_or (c.block term_0) (x <<< 8)) picked
        ∙ or_above (c.block term_0) (codes * 2 ^ 7) type in
      let word : ℕ = codes * 2 ^ 7 * 2 ^ 8 + c.block term_0 in
      let e0 : low_bits (word >>> 0) 8 ≡ c.block term_0 = omega arith in
      let at = ap c.block_type_term_lane e0 ∙ s.lane_0 in
      let c1 = ctrl_char_lem c d1 word 1 k1 (omega arith) in
      let c2 = ctrl_char_lem c d2 word 2 k2 (omega arith) in
      let c3 = ctrl_char_lem c d3 word 3 k3 (omega arith) in
      let c4 = ctrl_char_lem c d4 word 4 k4 (omega arith) in
      let c5 = ctrl_char_lem c d5 word 5 k5 (omega arith) in
      let c6 = ctrl_char_lem c d6 word 6 k6 (omega arith) in
      let c7 = ctrl_char_lem c d7 word 7 k7 (omega arith) in
      rw (and-false (c.term == c.start)) (
        rw (and-false (d4 == c.start)) (
          rw (and-false (is_os c c.term)) (
            rw (and-false (is_os c d4)) (
              rw (eq_self c.term) (
                rw masked (
                  decode_type_lem c s term_0 word e0
                  ∙ ap (decode_term c (to_bytes 8 0 word) (ctrl_chars c 8 0 word)) at
                  ∙ (cc)))))))

  pub term_1_lem :
      (d0 d2 d3 d4 d5 d6 d7 : ℕ)
      → let dl = d0 ∷ c.term ∷ d2 ∷ d3 ∷ d4 ∷ d5 ∷ d6 ∷ d7 ∷ [] in
        let cl = false ∷ true ∷ true ∷ true ∷ true ∷ true ∷ true ∷ true ∷ [] in
        IsCtrl c d2
        → IsCtrl c d3
        → IsCtrl c d4
        → IsCtrl c d5
        → IsCtrl c d6
        → IsCtrl c d7
        → HasBytes 1 0 dl
        → decode c (encode c dl cl) ≡ plain dl cl
  unfolding encode encode_term decode_type decode_term sum_lanes
  term_1_lem d0 d2 d3 d4 d5 d6 d7 k2 k3 k4 k5 k6 k7 b =
      let dl = d0 ∷ c.term ∷ d2 ∷ d3 ∷ d4 ∷ d5 ∷ d6 ∷ d7 ∷ [] in
      let type = s.block_lt term_1 in
      let l2 = ctrl_code-lt c s d2 in
      let l3 = ctrl_code-lt c s d3 in
      let l4 = ctrl_code-lt c s d4 in
      let l5 = ctrl_code-lt c s d5 in
      let l6 = ctrl_code-lt c s d6 in
      let l7 = ctrl_code-lt c s d7 in
      let codes : ℕ =
        ctrl_code c d2
        + ctrl_code c d3 * 2 ^ 7
        + ctrl_code c d4 * 2 ^ 14
        + ctrl_code c d5 * 2 ^ 21
        + ctrl_code c d6 * 2 ^ 28
        + ctrl_code c d7 * 2 ^ 35 in
      let picked : bit_and (ctrl_codes c 0 dl) 0xffffffffffc000 ≡ codes * 2 ^ 14 =
        bit_and_high 14 42 (ctrl_codes c 0 dl)
        ∙ omega (
          arith,
          ctrl_code-lt c s d0,
          ctrl_code-lt c s c.term,
          ctrl_code-lt c s d2,
          ctrl_code-lt c s d3,
          ctrl_code-lt c s d4,
          ctrl_code-lt c s d5,
          ctrl_code-lt c s d6,
          ctrl_code-lt c s d7,
        ) in
      let masked : bit_or (c.block term_1) (bit_and (ctrl_codes c 0 dl) 0xffffffffffc000 <<< 8)
          ≡ codes * 2 ^ 14 * 2 ^ 8 + c.block term_1 =
        ap (λ (x : ℕ). bit_or (c.block term_1) (x <<< 8)) picked
        ∙ or_above (c.block term_1) (codes * 2 ^ 14) type in
      let filled : or_lanes 1 0 1 dl (codes * 2 ^ 14 * 2 ^ 8 + c.block term_1)
          ≡ codes * 2 ^ 14 * 2 ^ 8 + c.block term_1 + sum_lanes 1 0 1 dl =
        ap (or_lanes 1 0 1 dl) (omega arith)
        ∙ or_lanes_fill 1 0 1 (codes * 2 ^ 6) (c.block term_1) dl type b
        ∙ (omega arith) in
      let word : ℕ = codes * 2 ^ 14 * 2 ^ 8 + c.block term_1 + sum_lanes 1 0 1 dl in
      let e0 : low_bits (word >>> 0) 8 ≡ c.block term_1 = omega arith in
      let at = ap c.block_type_term_lane e0 ∙ s.lane_1 in
      let e1 : low_bits (word >>> 8) 8 ≡ d0 = omega arith in
      let c2 = ctrl_char_lem c d2 word 2 k2 (omega arith) in
      let c3 = ctrl_char_lem c d3 word 3 k3 (omega arith) in
      let c4 = ctrl_char_lem c d4 word 4 k4 (omega arith) in
      let c5 = ctrl_char_lem c d5 word 5 k5 (omega arith) in
      let c6 = ctrl_char_lem c d6 word 6 k6 (omega arith) in
      let c7 = ctrl_char_lem c d7 word 7 k7 (omega arith) in
      rw (and-false (d4 == c.start)) (
        rw (and-false (is_os c d4)) (
          rw (eq_self c.term) (
            rw masked (
              rw filled (
                decode_type_lem c s term_1 word e0
                ∙ ap (decode_term c (to_bytes 8 0 word) (ctrl_chars c 8 0 word)) at
                ∙ (cc))))))

  pub term_2_lem :
      (d0 d1 d3 d4 d5 d6 d7 : ℕ)
      → let dl = d0 ∷ d1 ∷ c.term ∷ d3 ∷ d4 ∷ d5 ∷ d6 ∷ d7 ∷ [] in
        let cl = false ∷ false ∷ true ∷ true ∷ true ∷ true ∷ true ∷ true ∷ [] in
        IsCtrl c d3
        → IsCtrl c d4
        → IsCtrl c d5
        → IsCtrl c d6
        → IsCtrl c d7
        → HasBytes 2 0 dl
        → decode c (encode c dl cl) ≡ plain dl cl
  unfolding encode encode_term decode_type decode_term sum_lanes
  term_2_lem d0 d1 d3 d4 d5 d6 d7 k3 k4 k5 k6 k7 b =
      let dl = d0 ∷ d1 ∷ c.term ∷ d3 ∷ d4 ∷ d5 ∷ d6 ∷ d7 ∷ [] in
      let type = s.block_lt term_2 in
      let l3 = ctrl_code-lt c s d3 in
      let l4 = ctrl_code-lt c s d4 in
      let l5 = ctrl_code-lt c s d5 in
      let l6 = ctrl_code-lt c s d6 in
      let l7 = ctrl_code-lt c s d7 in
      let codes : ℕ =
        ctrl_code c d3
        + ctrl_code c d4 * 2 ^ 7
        + ctrl_code c d5 * 2 ^ 14
        + ctrl_code c d6 * 2 ^ 21
        + ctrl_code c d7 * 2 ^ 28 in
      let picked : bit_and (ctrl_codes c 0 dl) 0xffffffffe00000 ≡ codes * 2 ^ 21 =
        bit_and_high 21 35 (ctrl_codes c 0 dl)
        ∙ omega (
          arith,
          ctrl_code-lt c s d0,
          ctrl_code-lt c s d1,
          ctrl_code-lt c s c.term,
          ctrl_code-lt c s d3,
          ctrl_code-lt c s d4,
          ctrl_code-lt c s d5,
          ctrl_code-lt c s d6,
          ctrl_code-lt c s d7,
        ) in
      let masked : bit_or (c.block term_2) (bit_and (ctrl_codes c 0 dl) 0xffffffffe00000 <<< 8)
          ≡ codes * 2 ^ 21 * 2 ^ 8 + c.block term_2 =
        ap (λ (x : ℕ). bit_or (c.block term_2) (x <<< 8)) picked
        ∙ or_above (c.block term_2) (codes * 2 ^ 21) type in
      let filled : or_lanes 2 0 1 dl (codes * 2 ^ 21 * 2 ^ 8 + c.block term_2)
          ≡ codes * 2 ^ 21 * 2 ^ 8 + c.block term_2 + sum_lanes 2 0 1 dl =
        ap (or_lanes 2 0 1 dl) (omega arith)
        ∙ or_lanes_fill 2 0 1 (codes * 2 ^ 5) (c.block term_2) dl type b
        ∙ (omega arith) in
      let word : ℕ = codes * 2 ^ 21 * 2 ^ 8 + c.block term_2 + sum_lanes 2 0 1 dl in
      let e0 : low_bits (word >>> 0) 8 ≡ c.block term_2 = omega arith in
      let at = ap c.block_type_term_lane e0 ∙ s.lane_2 in
      let e1 : low_bits (word >>> 8) 8 ≡ d0 = omega arith in
      let e2 : low_bits (word >>> 16) 8 ≡ d1 = omega arith in
      let c3 = ctrl_char_lem c d3 word 3 k3 (omega arith) in
      let c4 = ctrl_char_lem c d4 word 4 k4 (omega arith) in
      let c5 = ctrl_char_lem c d5 word 5 k5 (omega arith) in
      let c6 = ctrl_char_lem c d6 word 6 k6 (omega arith) in
      let c7 = ctrl_char_lem c d7 word 7 k7 (omega arith) in
      rw (and-false (d4 == c.start)) (
        rw (and-false (is_os c d4)) (
          rw (eq_self c.term) (
            rw masked (
              rw filled (
                decode_type_lem c s term_2 word e0
                ∙ ap (decode_term c (to_bytes 8 0 word) (ctrl_chars c 8 0 word)) at
                ∙ (cc))))))

  pub term_3_lem :
      (d0 d1 d2 d4 d5 d6 d7 : ℕ)
      → let dl = d0 ∷ d1 ∷ d2 ∷ c.term ∷ d4 ∷ d5 ∷ d6 ∷ d7 ∷ [] in
        let cl = false ∷ false ∷ false ∷ true ∷ true ∷ true ∷ true ∷ true ∷ [] in
        IsCtrl c d4
        → IsCtrl c d5
        → IsCtrl c d6
        → IsCtrl c d7
        → HasBytes 3 0 dl
        → decode c (encode c dl cl) ≡ plain dl cl
  unfolding encode encode_term decode_type decode_term sum_lanes
  term_3_lem d0 d1 d2 d4 d5 d6 d7 k4 k5 k6 k7 b =
      let dl = d0 ∷ d1 ∷ d2 ∷ c.term ∷ d4 ∷ d5 ∷ d6 ∷ d7 ∷ [] in
      let type = s.block_lt term_3 in
      let l4 = ctrl_code-lt c s d4 in
      let l5 = ctrl_code-lt c s d5 in
      let l6 = ctrl_code-lt c s d6 in
      let l7 = ctrl_code-lt c s d7 in
      let codes : ℕ =
        ctrl_code c d4
        + ctrl_code c d5 * 2 ^ 7
        + ctrl_code c d6 * 2 ^ 14
        + ctrl_code c d7 * 2 ^ 21 in
      let picked : bit_and (ctrl_codes c 0 dl) 0xfffffff0000000 ≡ codes * 2 ^ 28 =
        bit_and_high 28 28 (ctrl_codes c 0 dl)
        ∙ omega (
          arith,
          ctrl_code-lt c s d0,
          ctrl_code-lt c s d1,
          ctrl_code-lt c s d2,
          ctrl_code-lt c s c.term,
          ctrl_code-lt c s d4,
          ctrl_code-lt c s d5,
          ctrl_code-lt c s d6,
          ctrl_code-lt c s d7,
        ) in
      let masked : bit_or (c.block term_3) (bit_and (ctrl_codes c 0 dl) 0xfffffff0000000 <<< 8)
          ≡ codes * 2 ^ 28 * 2 ^ 8 + c.block term_3 =
        ap (λ (x : ℕ). bit_or (c.block term_3) (x <<< 8)) picked
        ∙ or_above (c.block term_3) (codes * 2 ^ 28) type in
      let filled : or_lanes 3 0 1 dl (codes * 2 ^ 28 * 2 ^ 8 + c.block term_3)
          ≡ codes * 2 ^ 28 * 2 ^ 8 + c.block term_3 + sum_lanes 3 0 1 dl =
        ap (or_lanes 3 0 1 dl) (omega arith)
        ∙ or_lanes_fill 3 0 1 (codes * 2 ^ 4) (c.block term_3) dl type b
        ∙ (omega arith) in
      let word : ℕ = codes * 2 ^ 28 * 2 ^ 8 + c.block term_3 + sum_lanes 3 0 1 dl in
      let e0 : low_bits (word >>> 0) 8 ≡ c.block term_3 = omega arith in
      let at = ap c.block_type_term_lane e0 ∙ s.lane_3 in
      let e1 : low_bits (word >>> 8) 8 ≡ d0 = omega arith in
      let e2 : low_bits (word >>> 16) 8 ≡ d1 = omega arith in
      let e3 : low_bits (word >>> 24) 8 ≡ d2 = omega arith in
      let c4 = ctrl_char_lem c d4 word 4 k4 (omega arith) in
      let c5 = ctrl_char_lem c d5 word 5 k5 (omega arith) in
      let c6 = ctrl_char_lem c d6 word 6 k6 (omega arith) in
      let c7 = ctrl_char_lem c d7 word 7 k7 (omega arith) in
      rw (and-false (d4 == c.start)) (
        rw (and-false (is_os c d4)) (
          rw (eq_self c.term) (
            rw masked (
              rw filled (
                decode_type_lem c s term_3 word e0
                ∙ ap (decode_term c (to_bytes 8 0 word) (ctrl_chars c 8 0 word)) at
                ∙ (cc))))))
