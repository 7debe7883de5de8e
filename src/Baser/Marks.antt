-- ===== src/Baser/Marks.antt =====
-- Blocks with a start in lane 4 or an ordered set come back from the decoder (src/eth/tb/baser.py).
use taxi.Prelude.{
  ℕ, ◌+◌, ◌*◌, ◌^◌, ◌<◌, ◌≡◌, ap, ◌∙◌, Bool, true, false, List, [], ◌∷◌, bit_or, ◌==◌, low_bits,
  ◌>>>◌, ◌<<<◌, arith,
}
use taxi.Baser.Codes.{os_4, start_4, os_start, os_04, Codes, BlockType, IsStandard}
use taxi.Baser.Encode.{
  encode, encode_start_4, encode_os_0, encode_os_4, or_lanes, ctrl_codes, ctrl_code, is_os,
}
use taxi.Baser.Decode.{Lanes, decode, decode_type, os_char}
use taxi.Baser.Fields.{or_lanes_fill, sum_lanes, HasBytes}
use taxi.Baser.Blocks.{plain}
use taxi.Baser.Facts.{
  o_code, o_code-lt, or_signal_lem, os_char-o_code, os-ne-start, eq_self, and-false, or_above,
  IsCtrl, ctrl_char_lem, ctrl_code-lt, decode_type_lem,
}

-- What the decoder returns for lanes with an ordered set that come back.
abbrev pub marked : List ℕ → List Bool → Lanes
marked dl cl = record { dl = dl; cl = cl; os = true; idle = false }

module _ (c : Codes) (s : IsStandard c) where
  -- The codes of the first four lanes.
  abbrev half_codes : ℕ → ℕ → ℕ → ℕ → ℕ
  half_codes d0 d1 d2 d3 =
      ctrl_code c d0 + ctrl_code c d1 * 2 ^ 7 + ctrl_code c d2 * 2 ^ 14 + ctrl_code c d3 * 2 ^ 21

  half_codes_lem :
      (d0 d1 d2 d3 d4 d5 d6 d7 : ℕ)
      → low_bits (ctrl_codes c 0 (d0 ∷ d1 ∷ d2 ∷ d3 ∷ d4 ∷ d5 ∷ d6 ∷ d7 ∷ [])) 28
        ≡ half_codes d0 d1 d2 d3
  half_codes_lem d0 d1 d2 d3 d4 d5 d6 d7 =
      omega
        (arith, ctrl_code-lt c s d0, ctrl_code-lt c s d1, ctrl_code-lt c s d2, ctrl_code-lt c s d3)

  -- The codes of the first four lanes over the type.
  half_block :
      (t : BlockType) (d0 d1 d2 d3 d4 d5 d6 d7 : ℕ)
      → bit_or
          (c.block t)
          (low_bits (ctrl_codes c 0 (d0 ∷ d1 ∷ d2 ∷ d3 ∷ d4 ∷ d5 ∷ d6 ∷ d7 ∷ [])) 28 <<< 8)
        ≡ half_codes d0 d1 d2 d3 * 2 ^ 8 + c.block t
  half_block t d0 d1 d2 d3 d4 d5 d6 d7 =
      ap (λ (x : ℕ). bit_or (c.block t) (x <<< 8)) (half_codes_lem d0 d1 d2 d3 d4 d5 d6 d7)
      ∙ or_above (c.block t) (half_codes d0 d1 d2 d3) (s.block_lt t)

  -- The last three lanes as bytes, above 40 digits.
  top_bytes :
      (low : ℕ) (dl : List ℕ)
      → low < 2 ^ 40
      → HasBytes 3 5 dl
      → or_lanes 3 5 5 dl low ≡ low + sum_lanes 3 5 5 dl
  top_bytes low dl h b =
      ap (or_lanes 3 5 5 dl) (omega arith) ∙ or_lanes_fill 3 5 5 0 low dl h b ∙ (omega arith)

  pub start_4_lem :
      (d0 d1 d2 d3 d5 d6 d7 : ℕ)
      → let dl = d0 ∷ d1 ∷ d2 ∷ d3 ∷ c.start ∷ d5 ∷ d6 ∷ d7 ∷ [] in
        let cl = true ∷ true ∷ true ∷ true ∷ true ∷ false ∷ false ∷ false ∷ [] in
        IsCtrl c d0
        → IsCtrl c d1
        → IsCtrl c d2
        → IsCtrl c d3
        → HasBytes 3 5 dl
        → decode c (encode c dl cl) ≡ plain dl cl
  unfolding encode encode_start_4 decode_type sum_lanes
  start_4_lem d0 d1 d2 d3 d5 d6 d7 k0 k1 k2 k3 b =
      let dl = d0 ∷ d1 ∷ d2 ∷ d3 ∷ c.start ∷ d5 ∷ d6 ∷ d7 ∷ [] in
      let type = s.block_lt start_4 in
      let l0 = ctrl_code-lt c s d0 in
      let l1 = ctrl_code-lt c s d1 in
      let l2 = ctrl_code-lt c s d2 in
      let l3 = ctrl_code-lt c s d3 in
      let low : ℕ = half_codes d0 d1 d2 d3 * 2 ^ 8 + c.block start_4 in
      let codes = half_block start_4 d0 d1 d2 d3 c.start d5 d6 d7 in
      let filled = top_bytes low dl (omega arith) b in
      let word : ℕ = low + sum_lanes 3 5 5 dl in
      let e0 : low_bits (word >>> 0) 8 ≡ c.block start_4 = omega arith in
      let c0 = ctrl_char_lem c d0 word 0 k0 (omega arith) in
      let c1 = ctrl_char_lem c d1 word 1 k1 (omega arith) in
      let c2 = ctrl_char_lem c d2 word 2 k2 (omega arith) in
      let c3 = ctrl_char_lem c d3 word 3 k3 (omega arith) in
      let e5 : low_bits (word >>> 40) 8 ≡ d5 = omega arith in
      let e6 : low_bits (word >>> 48) 8 ≡ d6 = omega arith in
      let e7 : low_bits (word >>> 56) 8 ≡ d7 = omega arith in
      rw (and-false (d0 == c.start)) (
        rw (eq_self c.start) (
          rw (and-false (is_os c d0))
            (rw codes (rw filled (decode_type_lem c s start_4 word e0 ∙ (cc))))))

  pub os_4_lem :
      (d0 d1 d2 d3 d4 d5 d6 d7 : ℕ)
      → let dl = d0 ∷ d1 ∷ d2 ∷ d3 ∷ d4 ∷ d5 ∷ d6 ∷ d7 ∷ [] in
        let cl = true ∷ true ∷ true ∷ true ∷ true ∷ false ∷ false ∷ false ∷ [] in
        IsCtrl c d0
        → IsCtrl c d1
        → IsCtrl c d2
        → IsCtrl c d3
        → is_os c d4 ≡ true
        → HasBytes 3 5 dl
        → decode c (encode c dl cl) ≡ marked dl cl
  unfolding encode encode_os_4 decode_type sum_lanes
  os_4_lem d0 d1 d2 d3 d4 d5 d6 d7 k0 k1 k2 k3 h b =
      let dl = d0 ∷ d1 ∷ d2 ∷ d3 ∷ d4 ∷ d5 ∷ d6 ∷ d7 ∷ [] in
      let type = s.block_lt os_4 in
      let l0 = ctrl_code-lt c s d0 in
      let l1 = ctrl_code-lt c s d1 in
      let l2 = ctrl_code-lt c s d2 in
      let l3 = ctrl_code-lt c s d3 in
      let lo = o_code-lt c s d4 in
      let low : ℕ = half_codes d0 d1 d2 d3 * 2 ^ 8 + c.block os_4 in
      let codes = half_block os_4 d0 d1 d2 d3 d4 d5 d6 d7 in
      let filled = top_bytes low dl (omega arith) b in
      let signal = or_signal_lem c s d4 36 (low + sum_lanes 3 5 5 dl) (omega arith) in
      let word : ℕ = low + sum_lanes 3 5 5 dl + o_code c s d4 * 2 ^ 36 in
      let e0 : low_bits (word >>> 0) 8 ≡ c.block os_4 = omega arith in
      let c0 = ctrl_char_lem c d0 word 0 k0 (omega arith) in
      let c1 = ctrl_char_lem c d1 word 1 k1 (omega arith) in
      let c2 = ctrl_char_lem c d2 word 2 k2 (omega arith) in
      let c3 = ctrl_char_lem c d3 word 3 k3 (omega arith) in
      let o4 : low_bits (low_bits (word >>> 32) 8 >>> 4) 4 ≡ o_code c s d4 = omega arith in
      let c4 = ap (os_char c) o4 ∙ os_char-o_code c s d4 h in
      let e5 : low_bits (word >>> 40) 8 ≡ d5 = omega arith in
      let e6 : low_bits (word >>> 48) 8 ≡ d6 = omega arith in
      let e7 : low_bits (word >>> 56) 8 ≡ d7 = omega arith in
      rw (and-false (d0 == c.start)) (
        rw (os-ne-start c s d4 h) (
          rw (and-false (is_os c d0))
            (rw h (rw codes (rw filled (rw signal (decode_type_lem c s os_4 word e0 ∙ (cc))))))))

  -- The three bytes behind an ordered set in lane 0, under what stands above 32 digits.
  low_bytes :
      (high block : ℕ) (dl : List ℕ)
      → block < 2 ^ 8
      → HasBytes 3 1 dl
      → or_lanes 3 1 1 dl (high * 2 ^ 32 + block) ≡ high * 2 ^ 32 + block + sum_lanes 3 1 1 dl
  low_bytes high block dl h b =
      ap (or_lanes 3 1 1 dl) (omega arith) ∙ or_lanes_fill 3 1 1 high block dl h b ∙ (omega arith)

  pub os_start_lem :
      (d0 d1 d2 d3 d5 d6 d7 : ℕ)
      → let dl = d0 ∷ d1 ∷ d2 ∷ d3 ∷ c.start ∷ d5 ∷ d6 ∷ d7 ∷ [] in
        let cl = true ∷ false ∷ false ∷ false ∷ true ∷ false ∷ false ∷ false ∷ [] in
        is_os c d0 ≡ true
        → HasBytes 3 1 dl
        → HasBytes 3 5 dl
        → decode c (encode c dl cl) ≡ marked dl cl
  unfolding encode encode_start_4 decode_type sum_lanes
  os_start_lem d0 d1 d2 d3 d5 d6 d7 h b b' =
      let dl = d0 ∷ d1 ∷ d2 ∷ d3 ∷ c.start ∷ d5 ∷ d6 ∷ d7 ∷ [] in
      let type = s.block_lt os_start in
      let lo = o_code-lt c s d0 in
      let below : or_lanes 3 1 1 dl (c.block os_start) ≡ c.block os_start + sum_lanes 3 1 1 dl =
        ap (or_lanes 3 1 1 dl) (omega arith)
        ∙ low_bytes 0 (c.block os_start) dl type b
        ∙ (omega arith) in
      let signal = or_signal_lem c s d0 32 (c.block os_start + sum_lanes 3 1 1 dl) (omega arith) in
      let low : ℕ = c.block os_start + sum_lanes 3 1 1 dl + o_code c s d0 * 2 ^ 32 in
      let filled = top_bytes low dl (omega arith) b' in
      let word : ℕ = low + sum_lanes 3 5 5 dl in
      let e0 : low_bits (word >>> 0) 8 ≡ c.block os_start = omega arith in
      let o0 : low_bits (low_bits (word >>> 32) 8) 4 ≡ o_code c s d0 = omega arith in
      let c0 = ap (os_char c) o0 ∙ os_char-o_code c s d0 h in
      let e1 : low_bits (word >>> 8) 8 ≡ d1 = omega arith in
      let e2 : low_bits (word >>> 16) 8 ≡ d2 = omega arith in
      let e3 : low_bits (word >>> 24) 8 ≡ d3 = omega arith in
      let e5 : low_bits (word >>> 40) 8 ≡ d5 = omega arith in
      let e6 : low_bits (word >>> 48) 8 ≡ d6 = omega arith in
      let e7 : low_bits (word >>> 56) 8 ≡ d7 = omega arith in
      rw (and-false (d0 == c.start)) (
        rw (eq_self c.start)
          (rw h (rw below (rw signal (rw filled (decode_type_lem c s os_start word e0 ∙ (cc)))))))

  pub os_04_lem :
      (d0 d1 d2 d3 d4 d5 d6 d7 : ℕ)
      → let dl = d0 ∷ d1 ∷ d2 ∷ d3 ∷ d4 ∷ d5 ∷ d6 ∷ d7 ∷ [] in
        let cl = true ∷ false ∷ false ∷ false ∷ true ∷ false ∷ false ∷ false ∷ [] in
        is_os c d0 ≡ true
        → is_os c d4 ≡ true
        → HasBytes 3 1 dl
        → HasBytes 3 5 dl
        → decode c (encode c dl cl) ≡ marked dl cl
  unfolding encode encode_os_0 decode_type sum_lanes
  os_04_lem d0 d1 d2 d3 d4 d5 d6 d7 h h' b b' =
      let dl = d0 ∷ d1 ∷ d2 ∷ d3 ∷ d4 ∷ d5 ∷ d6 ∷ d7 ∷ [] in
      let type = s.block_lt os_04 in
      let lo = o_code-lt c s d0 in
      let lo' = o_code-lt c s d4 in
      let above = top_bytes (c.block os_04) dl (omega arith) b' in
      let signal' = or_signal_lem c s d4 36 (c.block os_04 + sum_lanes 3 5 5 dl) (omega arith) in
      let high : ℕ = o_code c s d4 * 2 ^ 4 + (d5 * 2 ^ 8 + d6 * 2 ^ 16 + d7 * 2 ^ 24) in
      let upper : ℕ = c.block os_04 + sum_lanes 3 5 5 dl + o_code c s d4 * 2 ^ 36 in
      let below : or_lanes 3 1 1 dl upper ≡ upper + sum_lanes 3 1 1 dl =
        ap (or_lanes 3 1 1 dl) (omega arith)
        ∙ low_bytes high (c.block os_04) dl type b
        ∙ (omega arith) in
      let signal = or_signal_lem c s d0 32 (upper + sum_lanes 3 1 1 dl) (omega arith) in
      let word : ℕ = upper + sum_lanes 3 1 1 dl + o_code c s d0 * 2 ^ 32 in
      let e0 : low_bits (word >>> 0) 8 ≡ c.block os_04 = omega arith in
      let o0 : low_bits (low_bits (word >>> 32) 8) 4 ≡ o_code c s d0 = omega arith in
      let c0 = ap (os_char c) o0 ∙ os_char-o_code c s d0 h in
      let e1 : low_bits (word >>> 8) 8 ≡ d1 = omega arith in
      let e2 : low_bits (word >>> 16) 8 ≡ d2 = omega arith in
      let e3 : low_bits (word >>> 24) 8 ≡ d3 = omega arith in
      let o4 : low_bits (low_bits (word >>> 32) 8 >>> 4) 4 ≡ o_code c s d4 = omega arith in
      let c4 = ap (os_char c) o4 ∙ os_char-o_code c s d4 h' in
      let e5 : low_bits (word >>> 40) 8 ≡ d5 = omega arith in
      let e6 : low_bits (word >>> 48) 8 ≡ d6 = omega arith in
      let e7 : low_bits (word >>> 56) 8 ≡ d7 = omega arith in
      rw (and-false (d0 == c.start)) (
        rw (os-ne-start c s d4 h') (
          rw h (
            rw h' (
              rw above
                (rw signal' (rw below (rw signal (decode_type_lem c s os_04 word e0 ∙ (cc)))))))))
