-- ===== src/Baser/Wire/Low.antt =====
-- The decoder of src/eth/tb/baser.py reads the low 64 bits of a block.
use taxi.Prelude.{
  ℕ, ◌+◌, ◌*◌, ◌^◌, ◌%◌, ◌≡◌, ap, ap₂, false, List, get_or, replicate, if◌then◌else◌, ◌==◌,
  low_bits, ◌>>>◌, arith,
}
use taxi.Baser.Codes.{Codes}
use taxi.Baser.Encode.{Block, or_else}
use taxi.Baser.Decode.{
  Lanes, decode, to_bytes, ctrl_chars, ctrl_char, by_type, find_type, type_order, errors,
}

module _ (c : Codes) where
  abbrev picked : ℕ → List ℕ → List ℕ → Lanes
  picked hdr db codes =
      if hdr == c.sync_data
      then record { dl = db; cl = replicate 8 false; os = false; idle = false }
      else if hdr == c.sync_ctrl
      then by_type c (find_type c type_order (get_or db 0 0)) db codes
      else errors c

  to_bytes-low_bits : (w : ℕ) → to_bytes 8 0 (low_bits w 64) ≡ to_bytes 8 0 w
  to_bytes-low_bits w =
      let e0 : low_bits (low_bits w 64 >>> 0) 8 ≡ low_bits (w >>> 0) 8 = omega arith in
      let e1 : low_bits (low_bits w 64 >>> 8) 8 ≡ low_bits (w >>> 8) 8 = omega arith in
      let e2 : low_bits (low_bits w 64 >>> 16) 8 ≡ low_bits (w >>> 16) 8 = omega arith in
      let e3 : low_bits (low_bits w 64 >>> 24) 8 ≡ low_bits (w >>> 24) 8 = omega arith in
      let e4 : low_bits (low_bits w 64 >>> 32) 8 ≡ low_bits (w >>> 32) 8 = omega arith in
      let e5 : low_bits (low_bits w 64 >>> 40) 8 ≡ low_bits (w >>> 40) 8 = omega arith in
      let e6 : low_bits (low_bits w 64 >>> 48) 8 ≡ low_bits (w >>> 48) 8 = omega arith in
      let e7 : low_bits (low_bits w 64 >>> 56) 8 ≡ low_bits (w >>> 56) 8 = omega arith in cc

  code :
      (w i : ℕ)
      → low_bits (low_bits w 64 >>> (i * 7 + 8)) 7 ≡ low_bits (w >>> (i * 7 + 8)) 7
      → ctrl_char c (low_bits w 64) i ≡ ctrl_char c w i
  code w i e = ap (λ (n : ℕ). or_else (c.baser_ctrl_to_xgmii n) c.error) e

  ctrl_chars-low_bits : (w : ℕ) → ctrl_chars c 8 0 (low_bits w 64) ≡ ctrl_chars c 8 0 w
  ctrl_chars-low_bits w =
      let e0 = code w 0 (omega arith) in
      let e1 = code w 1 (omega arith) in
      let e2 = code w 2 (omega arith) in
      let e3 = code w 3 (omega arith) in
      let e4 = code w 4 (omega arith) in
      let e5 = code w 5 (omega arith) in
      let e6 = code w 6 (omega arith) in let e7 = code w 7 (omega arith) in cc

  pub decode-low_bits :
      (b : Block) → decode c (record b { payload = b.payload % 2 ^ 64 }) ≡ decode c b
  unfolding decode
  decode-low_bits b =
      ap₂ (picked b.hdr) (to_bytes-low_bits b.payload) (ctrl_chars-low_bits b.payload)
