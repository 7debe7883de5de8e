-- ===== src/Xfcp/Tests.antt =====
-- Runs of xfcp.py at fixed inputs, and instances of its theorems.
use taxi.Prelude.{
  ℕ, ◌+◌, ◌/◌, ◌≤◌, ◌≡◌, ◌↔◌, refl, false, Option, none, some, List, [], ◌∷◌, ◌++◌, length,
  replicate, arith,
}
use taxi.Xfcp.Result.{ok, raised, type_error, index_error}
use taxi.Xfcp.Cobs.{returns, has_zero, cobs_encode, cobs_decode}
use taxi.Xfcp.Cobs.RoundTrip.{cobs_decode-cobs_encode}
use taxi.Xfcp.Cobs.Shape.{length-cobs_encode}
use taxi.Xfcp.Cobs.Decoded.{cobs_decode_ends, cobs_decode-iff-Decodes, Decodes}
use taxi.Xfcp.Frame.{XfcpFrame, build, build_cobs, parse, parse_cobs}
use taxi.Xfcp.Frame.RoundTrip.{IsRouted, FitsBytes, build-iff-FitsBytes, parse_cobs-build_cobs}
use taxi.Xfcp.Frame.Parsed.{parse-build-parse}

abbrev block : List ℕ
block = 0x11 ∷ 0x22 ∷ 0x00 ∷ 0x33 ∷ []

encoded_block : cobs_encode block ≡ 3 ∷ 0x11 ∷ 0x22 ∷ 2 ∷ 0x33 ∷ []
unfolding cobs_encode
encoded_block = refl

-- 254 bytes that are not zero fill a group, and no empty group is written behind it.
encoded_full : cobs_encode (replicate 254 1) ≡ 255 ∷ replicate 254 1
unfolding cobs_encode
encoded_full = refl

decoded_short : cobs_decode (4 ∷ 1 ∷ []) ≡ returns none
unfolding cobs_decode
decoded_short = refl

abbrev frame : XfcpFrame
frame = record { payload = 0x00 ∷ 0xAA ∷ []; path = 3 ∷ 1 ∷ []; rpath = 5 ∷ []; ptype = 0x10 }

frame-IsRouted : IsRouted frame
frame-IsRouted = omega arith

abbrev frame_bytes : List ℕ
frame_bytes = 3 ∷ 1 ∷ 0xFE ∷ 5 ∷ 0xFF ∷ 0x10 ∷ 0x00 ∷ 0xAA ∷ []

built : build frame ≡ ok frame_bytes
unfolding build
built = refl

parsed : parse frame_bytes ≡ ok frame
unfolding parse
parsed = refl

parsed_short : parse (3 ∷ 1 ∷ []) ≡ raised index_error
unfolding parse
parsed_short = refl

cobs_decode-cobs_encode_example : cobs_decode (cobs_encode block) ≡ returns (some block)
cobs_decode-cobs_encode_example = cobs_decode-cobs_encode block

length-cobs_encode_example :
    (length block + 1 ≤ length (cobs_encode block))
    × (length (cobs_encode block) ≤ length block + 1 + length block / 254)
length-cobs_encode_example = length-cobs_encode block

cobs_decode_ends_example : (r : Option (List ℕ)) × (cobs_decode (4 ∷ 1 ∷ []) ≡ returns r)
cobs_decode_ends_example = cobs_decode_ends (4 ∷ 1 ∷ [])

cobs_decode-iff-Decodes_example :
    (cobs_decode (2 ∷ 7 ∷ []) ≡ returns (some (7 ∷ [])))
    ↔ ((has_zero (2 ∷ 7 ∷ []) ≡ false) × Decodes (2 ∷ 7 ∷ []) (7 ∷ []))
cobs_decode-iff-Decodes_example = cobs_decode-iff-Decodes (2 ∷ 7 ∷ []) (7 ∷ [])

build-iff-FitsBytes_example : ((bs : List ℕ) × (build frame ≡ ok bs)) ↔ FitsBytes frame
build-iff-FitsBytes_example = build-iff-FitsBytes frame

parse_cobs-build_cobs_example :
    (wrapped : List ℕ) × (build_cobs frame ≡ ok (wrapped ++ (0 ∷ [])))
    × (has_zero wrapped ≡ false)
    × (parse_cobs wrapped ≡ ok frame)
    × (parse_cobs (wrapped ++ (0 ∷ [])) ≡ raised type_error)
parse_cobs-build_cobs_example = parse_cobs-build_cobs frame frame-IsRouted

parse-build-parse_example :
    (again : List ℕ) × (build frame ≡ ok again) × (parse again ≡ parse frame_bytes)
parse-build-parse_example = parse-build-parse frame_bytes (omega arith) parsed
