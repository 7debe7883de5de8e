-- ===== src/Baser/Tests/Standard.antt =====
-- Values for the constants of src/eth/tb/baser.py, with the characters of the 64b/66b code.
use taxi.Prelude.{
  ℕ, ◌<◌, ◌^◌, ◌≡◌, refl, sym, ap, ◌∙◌, Option, some, none, ◌==◌, if◌then◌else◌, arith,
}
use taxi.Baser.Codes.{
  ctrl, os_4, start_4, os_start, os_04, start_0, os_0, term_0, term_1, term_2, term_3, term_4,
  term_5, term_6, term_7, Codes, BlockType, IsStandard,
}

abbrev block_value : BlockType → ℕ
block_value ctrl = 0x1e
block_value os_4 = 0x2d
block_value start_4 = 0x33
block_value os_start = 0x66
block_value os_04 = 0x55
block_value start_0 = 0x78
block_value os_0 = 0x4b
block_value term_0 = 0x87
block_value term_1 = 0x99
block_value term_2 = 0xaa
block_value term_3 = 0xb4
block_value term_4 = 0xcc
block_value term_5 = 0xd2
block_value term_6 = 0xe1
block_value term_7 = 0xff

abbrev term_lane : ℕ → ℕ
term_lane v =
    if v == 0x99
    then 1
    else if v == 0xaa
    then 2
    else if v == 0xb4
    then 3
    else if v == 0xcc
    then 4
    else if v == 0xd2
    then 5
    else if v == 0xe1
    then 6
    else if v == 0xff
    then 7
    else 0

abbrev to_code : ℕ → Option ℕ
to_code d = if d == 0x07 then some 0 else if d == 0xfe then some 0x1e else none

abbrev to_char : ℕ → Option ℕ
to_char code = if code == 0 then some 0x07 else if code == 0x1e then some 0xfe else none

abbrev pub standard : Codes
standard = record {
  idle = 0x07;
  start = 0xfb;
  term = 0xfd;
  error = 0xfe;
  seq_os = 0x9c;
  sig_os = 0x5c;
  ctrl_error = 0x1e;
  o_seq = 0;
  o_sig = 0xf;
  sync_data = 2;
  sync_ctrl = 1;
  pre = 0x55;
  sfd = 0xd5;
  block = block_value;
  xgmii_ctrl_to_baser = to_code;
  baser_ctrl_to_xgmii = to_char;
  block_type_term_lane = term_lane;
}

block_lt : (t : BlockType) → block_value t < 256
block_lt ctrl = omega arith
block_lt os_4 = omega arith
block_lt start_4 = omega arith
block_lt os_start = omega arith
block_lt os_04 = omega arith
block_lt start_0 = omega arith
block_lt os_0 = omega arith
block_lt term_0 = omega arith
block_lt term_1 = omega arith
block_lt term_2 = omega arith
block_lt term_3 = omega arith
block_lt term_4 = omega arith
block_lt term_5 = omega arith
block_lt term_6 = omega arith
block_lt term_7 = omega arith

-- The type of a value.
abbrev type_of : ℕ → BlockType
type_of v =
    if v == 0x1e
    then ctrl
    else if v == 0x2d
    then os_4
    else if v == 0x33
    then start_4
    else if v == 0x66
    then os_start
    else if v == 0x55
    then os_04
    else if v == 0x78
    then start_0
    else if v == 0x4b
    then os_0
    else if v == 0x87
    then term_0
    else if v == 0x99
    then term_1
    else if v == 0xaa
    then term_2
    else if v == 0xb4
    then term_3
    else if v == 0xcc
    then term_4
    else if v == 0xd2
    then term_5
    else if v == 0xe1
    then term_6
    else term_7

type_of-block_value : (t : BlockType) → type_of (block_value t) ≡ t
type_of-block_value ctrl = refl
type_of-block_value os_4 = refl
type_of-block_value start_4 = refl
type_of-block_value os_start = refl
type_of-block_value os_04 = refl
type_of-block_value start_0 = refl
type_of-block_value os_0 = refl
type_of-block_value term_0 = refl
type_of-block_value term_1 = refl
type_of-block_value term_2 = refl
type_of-block_value term_3 = refl
type_of-block_value term_4 = refl
type_of-block_value term_5 = refl
type_of-block_value term_6 = refl
type_of-block_value term_7 = refl

block_eq : (s t : BlockType) → block_value s ≡ block_value t → s ≡ t
block_eq s t e = sym (type_of-block_value s) ∙ (ap type_of e ∙ type_of-block_value t)

code_lt : (d code : ℕ) → to_code d ≡ some code → code < 2 ^ 7
code_lt d code e = ground arith

pub standard-IsStandard : IsStandard standard
standard-IsStandard = record {
  block_lt = block_lt;
  block_eq = block_eq;
  headers = omega arith;
  o_seq_eq = refl;
  o_sig_pos = omega arith;
  o_sig_lt = omega arith;
  code_lt = code_lt;
  error_lt = omega arith;
  start_seq = omega arith;
  start_sig = omega arith;
  signals = omega arith;
  lane_0 = refl;
  lane_1 = refl;
  lane_2 = refl;
  lane_3 = refl;
  lane_4 = refl;
  lane_5 = refl;
  lane_6 = refl;
  lane_7 = refl;
}
