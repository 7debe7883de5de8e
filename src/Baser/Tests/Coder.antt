-- ===== src/Baser/Tests/Coder.antt =====
-- The coder and the scrambler of src/eth/tb/baser.py.
use taxi.Prelude.{ℕ, ◌^◌, ◌<◌, ◌≡◌, refl, true, false, List, [], ◌∷◌, All, arith}
use taxi.Baser.Encode.{encode, encode_start_4, or_lanes}
use taxi.Baser.Decode.{Lanes, decode}
use taxi.Baser.Facts.{IsCtrl}
use taxi.Baser.Coded.{Coded, start_4_block, decode-encode}
use taxi.Baser.Ordered.{os_0_flags, encode-os_0_flags}
use taxi.Baser.Scrambler.{scramble_all, descramble_all}
use taxi.Baser.Scrambler.Sync.{descramble_all_sync}
use taxi.Baser.Tests.Standard.{standard, standard-IsStandard}

-- The start of a frame in lane 4, behind idle characters.
abbrev start_lanes : Lanes
start_lanes = record {
  dl = 0x07 ∷ 0x07 ∷ 0x07 ∷ 0x07 ∷ 0xfb ∷ 0x55 ∷ 0x55 ∷ 0xd5 ∷ [];
  cl = true ∷ true ∷ true ∷ true ∷ true ∷ false ∷ false ∷ false ∷ [];
  os = false;
  idle = false;
}

start_word : (encode standard start_lanes.dl start_lanes.cl).payload ≡ 0xd555550000000033
unfolding encode encode_start_4 or_lanes
start_word = refl

pub idle-IsCtrl : IsCtrl standard 0x07
idle-IsCtrl = record { code = 0; coded = refl; decoded = refl }

start_lanes-Coded : Coded standard start_lanes
start_lanes-Coded =
    start_4_block 0x07 0x07 0x07 0x07 0x55 0x55 0xd5 idle-IsCtrl idle-IsCtrl idle-IsCtrl idle-IsCtrl
      (omega arith, (omega arith, (omega arith, tt)))

decode-encode_example :
    decode standard (encode standard start_lanes.dl start_lanes.cl) ≡ start_lanes
decode-encode_example = decode-encode standard start_lanes standard-IsStandard start_lanes-Coded

encode-os_0_flags_example :
    encode standard (0x9c ∷ 0 ∷ 0 ∷ 1 ∷ 0xfe ∷ 0xfe ∷ 0xfe ∷ 0xfe ∷ []) os_0_flags
    ≡ encode standard (0x9c ∷ 0 ∷ 0 ∷ 1 ∷ 0x07 ∷ 0x07 ∷ 0x07 ∷ 0x07 ∷ []) os_0_flags
encode-os_0_flags_example =
    encode-os_0_flags standard 0x9c 0 0 1 0xfe 0xfe 0xfe 0xfe 0x07 0x07 0x07 0x07 refl

abbrev blocks : List ℕ
blocks = 0xd555550000000033 ∷ 0x1e ∷ 0x0123456789abcdef ∷ []

blocks_lt : All (λ (b : ℕ). b < 2 ^ 64) blocks
blocks_lt = (omega arith, (omega arith, (omega arith, tt)))

descramble_all_sync_example :
    (first : ℕ) × (descramble_all 0 (scramble_all 0x3ffffffffffffff blocks)
      ≡ first ∷ 0x1e ∷ 0x0123456789abcdef ∷ [])
descramble_all_sync_example =
    descramble_all_sync 0x3ffffffffffffff 0 0xd555550000000033 (0x1e ∷ 0x0123456789abcdef ∷ [])
      blocks_lt
