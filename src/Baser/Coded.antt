-- ===== src/Baser/Coded.antt =====
-- The lanes that come back from the decoder (src/eth/tb/baser.py).
use taxi.Prelude.{
  ℕ, ◌+◌, ◌*◌, ◌^◌, ◌≡◌, ◌≢◌, ◌∙◌, Bool, true, false, List, [], ◌∷◌, ◌==◌, low_bits, ◌>>>◌, arith,
}
use taxi.Baser.Codes.{ctrl, Codes, IsStandard}
use taxi.Baser.Encode.{encode, encode_term, ctrl_codes, is_os}
use taxi.Baser.Decode.{Lanes, decode, decode_type}
use taxi.Baser.Fields.{HasBytes}
use taxi.Baser.Blocks.{plain, data_lem, start_0_lem}
use taxi.Baser.Marks.{marked, start_4_lem, os_4_lem, os_start_lem, os_04_lem}
use taxi.Baser.TermLow.{term_0_lem, term_1_lem, term_2_lem, term_3_lem}
use taxi.Baser.TermHigh.{term_4_lem, term_5_lem, term_6_lem, term_7_lem}
use taxi.Baser.Facts.{
  ne_test, and-false, or_above, IsCtrl, ctrl_char_lem, ctrl_code-lt, decode_type_lem,
}

-- What the decoder returns for lanes of control characters.
abbrev pub idling : List ℕ → List Bool → Lanes
idling dl cl = record { dl = dl; cl = cl; os = false; idle = true }

module _ (c : Codes) (s : IsStandard c) where
  all_ctrl_lem :
      (d0 d1 d2 d3 d4 d5 d6 d7 : ℕ)
      → let dl = d0 ∷ d1 ∷ d2 ∷ d3 ∷ d4 ∷ d5 ∷ d6 ∷ d7 ∷ [] in
        let cl = true ∷ true ∷ true ∷ true ∷ true ∷ true ∷ true ∷ true ∷ [] in
        d0 ≢ c.term
        → IsCtrl c d0
        → IsCtrl c d1
        → IsCtrl c d2
        → IsCtrl c d3
        → IsCtrl c d4
        → IsCtrl c d5
        → IsCtrl c d6
        → IsCtrl c d7
        → decode c (encode c dl cl) ≡ idling dl cl
  unfolding encode encode_term decode_type
  all_ctrl_lem d0 d1 d2 d3 d4 d5 d6 d7 h k0 k1 k2 k3 k4 k5 k6 k7 =
      let dl = d0 ∷ d1 ∷ d2 ∷ d3 ∷ d4 ∷ d5 ∷ d6 ∷ d7 ∷ [] in
      let type = s.block_lt ctrl in
      let l0 = ctrl_code-lt c s d0 in
      let l1 = ctrl_code-lt c s d1 in
      let l2 = ctrl_code-lt c s d2 in
      let l3 = ctrl_code-lt c s d3 in
      let l4 = ctrl_code-lt c s d4 in
      let l5 = ctrl_code-lt c s d5 in
      let l6 = ctrl_code-lt c s d6 in
      let l7 = ctrl_code-lt c s d7 in
      let codes = or_above (c.block ctrl) (ctrl_codes c 0 dl) type in
      let word : ℕ = ctrl_codes c 0 dl * 2 ^ 8 + c.block ctrl in
      let e0 : low_bits (word >>> 0) 8 ≡ c.block ctrl = omega arith in
      let c0 = ctrl_char_lem c d0 word 0 k0 (omega arith) in
      let c1 = ctrl_char_lem c d1 word 1 k1 (omega arith) in
      let c2 = ctrl_char_lem c d2 word 2 k2 (omega arith) in
      let c3 = ctrl_char_lem c d3 word 3 k3 (omega arith) in
      let c4 = ctrl_char_lem c d4 word 4 k4 (omega arith) in
      let c5 = ctrl_char_lem c d5 word 5 k5 (omega arith) in
      let c6 = ctrl_char_lem c d6 word 6 k6 (omega arith) in
      let c7 = ctrl_char_lem c d7 word 7 k7 (omega arith) in
      let free = ne_test d0 c.term h in
      rw (and-false (d0 == c.start)) (
        rw (and-false (d4 == c.start)) (
          rw (and-false (is_os c d0)) (
            rw (and-false (is_os c d4)) (
              rw free (
                rw (and-false (d1 == c.term)) (
                  rw (and-false (d2 == c.term)) (
                    rw (and-false (d3 == c.term)) (
                      rw (and-false (d4 == c.term)) (
                        rw (and-false (d5 == c.term)) (
                          rw (and-false (d6 == c.term)) (
                            rw (and-false (d7 == c.term))
                              (rw codes (decode_type_lem c s ctrl word e0 ∙ (cc))))))))))))))

-- The lanes of each kind of block but an ordered set in lane 0 with control characters behind it.
pub data Coded (c : Codes) : Lanes → Type 0 where
  all_data :
      (d0 d1 d2 d3 d4 d5 d6 d7 : ℕ)
      → HasBytes 8 0 (d0 ∷ d1 ∷ d2 ∷ d3 ∷ d4 ∷ d5 ∷ d6 ∷ d7 ∷ [])
      → Coded c (
          plain
            (d0 ∷ d1 ∷ d2 ∷ d3 ∷ d4 ∷ d5 ∷ d6 ∷ d7 ∷ [])
            (false ∷ false ∷ false ∷ false ∷ false ∷ false ∷ false ∷ false ∷ []))
  start_0_block :
      (d1 d2 d3 d4 d5 d6 d7 : ℕ)
      → HasBytes 7 1 (c.start ∷ d1 ∷ d2 ∷ d3 ∷ d4 ∷ d5 ∷ d6 ∷ d7 ∷ [])
      → Coded c (
          plain
            (c.start ∷ d1 ∷ d2 ∷ d3 ∷ d4 ∷ d5 ∷ d6 ∷ d7 ∷ [])
            (true ∷ false ∷ false ∷ false ∷ false ∷ false ∷ false ∷ false ∷ []))
  start_4_block :
      (d0 d1 d2 d3 d5 d6 d7 : ℕ)
      → IsCtrl c d0
      → IsCtrl c d1
      → IsCtrl c d2
      → IsCtrl c d3
      → HasBytes 3 5 (d0 ∷ d1 ∷ d2 ∷ d3 ∷ c.start ∷ d5 ∷ d6 ∷ d7 ∷ [])
      → Coded c (
          plain
            (d0 ∷ d1 ∷ d2 ∷ d3 ∷ c.start ∷ d5 ∷ d6 ∷ d7 ∷ [])
            (true ∷ true ∷ true ∷ true ∷ true ∷ false ∷ false ∷ false ∷ []))
  os_start_block :
      (d0 d1 d2 d3 d5 d6 d7 : ℕ)
      → is_os c d0 ≡ true
      → HasBytes 3 1 (d0 ∷ d1 ∷ d2 ∷ d3 ∷ c.start ∷ d5 ∷ d6 ∷ d7 ∷ [])
      → HasBytes 3 5 (d0 ∷ d1 ∷ d2 ∷ d3 ∷ c.start ∷ d5 ∷ d6 ∷ d7 ∷ [])
      → Coded c (
          marked
            (d0 ∷ d1 ∷ d2 ∷ d3 ∷ c.start ∷ d5 ∷ d6 ∷ d7 ∷ [])
            (true ∷ false ∷ false ∷ false ∷ true ∷ false ∷ false ∷ false ∷ []))
  os_04_block :
      (d0 d1 d2 d3 d4 d5 d6 d7 : ℕ)
      → is_os c d0 ≡ true
      → is_os c d4 ≡ true
      → HasBytes 3 1 (d0 ∷ d1 ∷ d2 ∷ d3 ∷ d4 ∷ d5 ∷ d6 ∷ d7 ∷ [])
      → HasBytes 3 5 (d0 ∷ d1 ∷ d2 ∷ d3 ∷ d4 ∷ d5 ∷ d6 ∷ d7 ∷ [])
      → Coded c (
          marked
            (d0 ∷ d1 ∷ d2 ∷ d3 ∷ d4 ∷ d5 ∷ d6 ∷ d7 ∷ [])
            (true ∷ false ∷ false ∷ false ∷ true ∷ false ∷ false ∷ false ∷ []))
  os_4_block :
      (d0 d1 d2 d3 d4 d5 d6 d7 : ℕ)
      → IsCtrl c d0
      → IsCtrl c d1
      → IsCtrl c d2
      → IsCtrl c d3
      → is_os c d4 ≡ true
      → HasBytes 3 5 (d0 ∷ d1 ∷ d2 ∷ d3 ∷ d4 ∷ d5 ∷ d6 ∷ d7 ∷ [])
      → Coded c (
          marked
            (d0 ∷ d1 ∷ d2 ∷ d3 ∷ d4 ∷ d5 ∷ d6 ∷ d7 ∷ [])
            (true ∷ true ∷ true ∷ true ∷ true ∷ false ∷ false ∷ false ∷ []))
  term_0_block :
      (d1 d2 d3 d4 d5 d6 d7 : ℕ)
      → IsCtrl c d1
      → IsCtrl c d2
      → IsCtrl c d3
      → IsCtrl c d4
      → IsCtrl c d5
      → IsCtrl c d6
      → IsCtrl c d7
      → Coded c (
          plain
            (c.term ∷ d1 ∷ d2 ∷ d3 ∷ d4 ∷ d5 ∷ d6 ∷ d7 ∷ [])
            (true ∷ true ∷ true ∷ true ∷ true ∷ true ∷ true ∷ true ∷ []))
  term_1_block :
      (d0 d2 d3 d4 d5 d6 d7 : ℕ)
      → IsCtrl c d2
      → IsCtrl c d3
      → IsCtrl c d4
      → IsCtrl c d5
      → IsCtrl c d6
      → IsCtrl c d7
      → HasBytes 1 0 (d0 ∷ c.term ∷ d2 ∷ d3 ∷ d4 ∷ d5 ∷ d6 ∷ d7 ∷ [])
      → Coded c (
          plain
            (d0 ∷ c.term ∷ d2 ∷ d3 ∷ d4 ∷ d5 ∷ d6 ∷ d7 ∷ [])
            (false ∷ true ∷ true ∷ true ∷ true ∷ true ∷ true ∷ true ∷ []))
  term_2_block :
      (d0 d1 d3 d4 d5 d6 d7 : ℕ)
      → IsCtrl c d3
      → IsCtrl c d4
      → IsCtrl c d5
      → IsCtrl c d6
      → IsCtrl c d7
      → HasBytes 2 0 (d0 ∷ d1 ∷ c.term ∷ d3 ∷ d4 ∷ d5 ∷ d6 ∷ d7 ∷ [])
      → Coded c (
          plain
            (d0 ∷ d1 ∷ c.term ∷ d3 ∷ d4 ∷ d5 ∷ d6 ∷ d7 ∷ [])
            (false ∷ false ∷ true ∷ true ∷ true ∷ true ∷ true ∷ true ∷ []))
  term_3_block :
      (d0 d1 d2 d4 d5 d6 d7 : ℕ)
      → IsCtrl c d4
      → IsCtrl c d5
      → IsCtrl c d6
      → IsCtrl c d7
      → HasBytes 3 0 (d0 ∷ d1 ∷ d2 ∷ c.term ∷ d4 ∷ d5 ∷ d6 ∷ d7 ∷ [])
      → Coded c (
          plain
            (d0 ∷ d1 ∷ d2 ∷ c.term ∷ d4 ∷ d5 ∷ d6 ∷ d7 ∷ [])
            (false ∷ false ∷ false ∷ true ∷ true ∷ true ∷ true ∷ true ∷ []))
  term_4_block :
      (d0 d1 d2 d3 d5 d6 d7 : ℕ)
      → IsCtrl c d5
      → IsCtrl c d6
      → IsCtrl c d7
      → HasBytes 4 0 (d0 ∷ d1 ∷ d2 ∷ d3 ∷ c.term ∷ d5 ∷ d6 ∷ d7 ∷ [])
      → Coded c (
          plain
            (d0 ∷ d1 ∷ d2 ∷ d3 ∷ c.term ∷ d5 ∷ d6 ∷ d7 ∷ [])
            (false ∷ false ∷ false ∷ false ∷ true ∷ true ∷ true ∷ true ∷ []))
  term_5_block :
      (d0 d1 d2 d3 d4 d6 d7 : ℕ)
      → IsCtrl c d6
      → IsCtrl c d7
      → HasBytes 5 0 (d0 ∷ d1 ∷ d2 ∷ d3 ∷ d4 ∷ c.term ∷ d6 ∷ d7 ∷ [])
      → Coded c (
          plain
            (d0 ∷ d1 ∷ d2 ∷ d3 ∷ d4 ∷ c.term ∷ d6 ∷ d7 ∷ [])
            (false ∷ false ∷ false ∷ false ∷ false ∷ true ∷ true ∷ true ∷ []))
  term_6_block :
      (d0 d1 d2 d3 d4 d5 d7 : ℕ)
      → IsCtrl c d7
      → HasBytes 6 0 (d0 ∷ d1 ∷ d2 ∷ d3 ∷ d4 ∷ d5 ∷ c.term ∷ d7 ∷ [])
      → Coded c (
          plain
            (d0 ∷ d1 ∷ d2 ∷ d3 ∷ d4 ∷ d5 ∷ c.term ∷ d7 ∷ [])
            (false ∷ false ∷ false ∷ false ∷ false ∷ false ∷ true ∷ true ∷ []))
  term_7_block :
      (d0 d1 d2 d3 d4 d5 d6 : ℕ)
      → HasBytes 7 0 (d0 ∷ d1 ∷ d2 ∷ d3 ∷ d4 ∷ d5 ∷ d6 ∷ c.term ∷ [])
      → Coded c (
          plain
            (d0 ∷ d1 ∷ d2 ∷ d3 ∷ d4 ∷ d5 ∷ d6 ∷ c.term ∷ [])
            (false ∷ false ∷ false ∷ false ∷ false ∷ false ∷ false ∷ true ∷ []))
  all_ctrl :
      (d0 d1 d2 d3 d4 d5 d6 d7 : ℕ)
      → d0 ≢ c.term
      → IsCtrl c d0
      → IsCtrl c d1
      → IsCtrl c d2
      → IsCtrl c d3
      → IsCtrl c d4
      → IsCtrl c d5
      → IsCtrl c d6
      → IsCtrl c d7
      → Coded c (
          idling
            (d0 ∷ d1 ∷ d2 ∷ d3 ∷ d4 ∷ d5 ∷ d6 ∷ d7 ∷ [])
            (true ∷ true ∷ true ∷ true ∷ true ∷ true ∷ true ∷ true ∷ []))

-- The lanes of these kinds come back from the block that the encoder makes of them.
pub decode-encode :
    (c : Codes) (l : Lanes) → IsStandard c → Coded c l → decode c (encode c l.dl l.cl) ≡ l
decode-encode c l s (all_data d0 d1 d2 d3 d4 d5 d6 d7 h0) = data_lem c s d0 d1 d2 d3 d4 d5 d6 d7 h0
decode-encode c l s (start_0_block d1 d2 d3 d4 d5 d6 d7 h0) =
    start_0_lem c s d1 d2 d3 d4 d5 d6 d7 h0
decode-encode c l s (start_4_block d0 d1 d2 d3 d5 d6 d7 h0 h1 h2 h3 h4) =
    start_4_lem c s d0 d1 d2 d3 d5 d6 d7 h0 h1 h2 h3 h4
decode-encode c l s (os_start_block d0 d1 d2 d3 d5 d6 d7 h0 h1 h2) =
    os_start_lem c s d0 d1 d2 d3 d5 d6 d7 h0 h1 h2
decode-encode c l s (os_04_block d0 d1 d2 d3 d4 d5 d6 d7 h0 h1 h2 h3) =
    os_04_lem c s d0 d1 d2 d3 d4 d5 d6 d7 h0 h1 h2 h3
decode-encode c l s (os_4_block d0 d1 d2 d3 d4 d5 d6 d7 h0 h1 h2 h3 h4 h5) =
    os_4_lem c s d0 d1 d2 d3 d4 d5 d6 d7 h0 h1 h2 h3 h4 h5
decode-encode c l s (term_0_block d1 d2 d3 d4 d5 d6 d7 h0 h1 h2 h3 h4 h5 h6) =
    term_0_lem c s d1 d2 d3 d4 d5 d6 d7 h0 h1 h2 h3 h4 h5 h6
decode-encode c l s (term_1_block d0 d2 d3 d4 d5 d6 d7 h0 h1 h2 h3 h4 h5 h6) =
    term_1_lem c s d0 d2 d3 d4 d5 d6 d7 h0 h1 h2 h3 h4 h5 h6
decode-encode c l s (term_2_block d0 d1 d3 d4 d5 d6 d7 h0 h1 h2 h3 h4 h5) =
    term_2_lem c s d0 d1 d3 d4 d5 d6 d7 h0 h1 h2 h3 h4 h5
decode-encode c l s (term_3_block d0 d1 d2 d4 d5 d6 d7 h0 h1 h2 h3 h4) =
    term_3_lem c s d0 d1 d2 d4 d5 d6 d7 h0 h1 h2 h3 h4
decode-encode c l s (term_4_block d0 d1 d2 d3 d5 d6 d7 h0 h1 h2 h3) =
    term_4_lem c s d0 d1 d2 d3 d5 d6 d7 h0 h1 h2 h3
decode-encode c l s (term_5_block d0 d1 d2 d3 d4 d6 d7 h0 h1 h2) =
    term_5_lem c s d0 d1 d2 d3 d4 d6 d7 h0 h1 h2
decode-encode c l s (term_6_block d0 d1 d2 d3 d4 d5 d7 h0 h1) =
    term_6_lem c s d0 d1 d2 d3 d4 d5 d7 h0 h1
decode-encode c l s (term_7_block d0 d1 d2 d3 d4 d5 d6 h0) = term_7_lem c s d0 d1 d2 d3 d4 d5 d6 h0
decode-encode c l s (all_ctrl d0 d1 d2 d3 d4 d5 d6 d7 h0 h1 h2 h3 h4 h5 h6 h7 h8) =
    all_ctrl_lem c s d0 d1 d2 d3 d4 d5 d6 d7 h0 h1 h2 h3 h4 h5 h6 h7 h8
