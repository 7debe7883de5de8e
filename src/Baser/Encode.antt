-- ===== src/Baser/Encode.antt =====
-- The 64b/66b block that `BaseRSerdesSource._run` makes of eight XGMII lanes (src/eth/tb/baser.py).
-- `dl` holds their bytes, and `cl` whether each is a control character.
use taxi.Prelude.{
  ℕ, zero, suc, ◌+◌, ◌*◌, ◌-◌, Bool, false, not, ◌&&◌, ◌||◌, Option, none, some, List, [], ◌∷◌,
  from_bytes, get_or, take, drop, ◌==◌, if◌then◌else◌, ◌<<<◌, low_bits, bit_and, bit_or,
}
use taxi.Baser.Codes.{
  Codes, ctrl, os_4, start_4, os_start, os_04, start_0, os_0, term_0, term_1, term_2, term_3,
  term_4, term_5, term_6, term_7,
}

pub record Block : Type 0 where
  pub hdr : ℕ
  pub payload : ℕ

abbrev pub any : List Bool → Bool
any [] = false
any (c ∷ cs) = c || any cs

-- `any(cl[a:b])`
abbrev pub any_of : List Bool → ℕ → ℕ → Bool
any_of cl a b = any (take (b - a) (drop a cl))

-- `cl[k]` and `dl[k]`, for lists of eight.
abbrev pub is_ctrl : List Bool → ℕ → Bool
is_ctrl cl k = get_or cl k false

abbrev pub lane : List ℕ → ℕ → ℕ
lane dl k = get_or dl k 0

-- `for i in range(i, i + count): data |= dl[i] << j*8`, where `j` is `i` or, in the terminations, `i+1`.
unfoldable pub or_lanes : (count i j : ℕ) → List ℕ → ℕ → ℕ
or_lanes zero i j dl block = block
or_lanes (suc count) i j dl block =
    or_lanes count (suc i) (suc j) dl (bit_or block (lane dl i <<< (j * 8)))

-- `.get(key, default)` of a dictionary.
abbrev pub or_else : Option ℕ → ℕ → ℕ
or_else none default = default
or_else (some value) default = value

module _ (c : Codes) where
  -- `xgmii_ctrl_to_baser_mapping.get(d, BaseRCtrl.ERROR)`
  abbrev pub ctrl_code : ℕ → ℕ
  ctrl_code d = or_else (c.xgmii_ctrl_to_baser d) c.ctrl_error

  -- `sum(… << i*7 for i, d in enumerate(dl))`
  abbrev pub ctrl_codes : ℕ → List ℕ → ℕ
  ctrl_codes i [] = 0
  ctrl_codes i (d ∷ dl) = ctrl_code d <<< (i * 7) + ctrl_codes (suc i) dl

  abbrev pub is_os : ℕ → Bool
  is_os d = (d == c.seq_os) || (d == c.sig_os)

  abbrev pub starts : List ℕ → List Bool → ℕ → Bool
  starts dl cl k = is_ctrl cl k && ((lane dl k == c.start) && not (any_of cl (k + 1) 8))

  -- An ordered set in lane `k`, which is 0 or 4.
  abbrev pub has_os : List ℕ → List Bool → ℕ → Bool
  has_os dl cl k = is_ctrl cl k && (is_os (lane dl k) && not (any_of cl (k + 1) (k + 4)))

  abbrev pub terminates : List ℕ → List Bool → ℕ → Bool
  terminates dl cl k = is_ctrl cl k && ((lane dl k == c.term) && not (any_of cl 0 k))

  -- `if dl[k] == XgmiiCtrl.SIG_OS: data |= BaseRO.SIG_OS << shift`
  abbrev pub or_signal : ℕ → ℕ → ℕ → ℕ
  or_signal d shift block = if d == c.sig_os then bit_or block (c.o_sig <<< shift) else block

  unfoldable pub encode_start_4 : List ℕ → List Bool → ℕ
  encode_start_4 dl cl = or_lanes 3 5 5 dl (
      if has_os dl cl 0
      then or_signal (lane dl 0) 32 (or_lanes 3 1 1 dl (c.block os_start))
      else bit_or (c.block start_4) (low_bits (ctrl_codes 0 dl) 28 <<< 8))

  unfoldable pub encode_os_0 : List ℕ → List Bool → ℕ
  encode_os_0 dl cl = or_signal (lane dl 0) 32 (
      or_lanes 3 1 1 dl (
        if has_os dl cl 4
        then or_signal (lane dl 4) 36 (or_lanes 3 5 5 dl (c.block os_04))
        else bit_or (c.block os_0) (low_bits (ctrl_codes 0 dl) 28 <<< 40)))

  unfoldable pub encode_os_4 : List ℕ → ℕ
  encode_os_4 dl =
      or_signal (lane dl 4) 36
        (or_lanes 3 5 5 dl (bit_or (c.block os_4) (low_bits (ctrl_codes 0 dl) 28 <<< 8)))

  -- The termination branches, in their order, and the block of control characters.
  unfoldable pub encode_term : List ℕ → List Bool → ℕ
  encode_term dl cl =
      let codes = ctrl_codes 0 dl in
      if terminates dl cl 0
      then bit_or (c.block term_0) (bit_and codes 0xffffffffffff80 <<< 8)
      else if terminates dl cl 1
      then or_lanes 1 0 1 dl (bit_or (c.block term_1) (bit_and codes 0xffffffffffc000 <<< 8))
      else if terminates dl cl 2
      then or_lanes 2 0 1 dl (bit_or (c.block term_2) (bit_and codes 0xffffffffe00000 <<< 8))
      else if terminates dl cl 3
      then or_lanes 3 0 1 dl (bit_or (c.block term_3) (bit_and codes 0xfffffff0000000 <<< 8))
      else if terminates dl cl 4
      then or_lanes 4 0 1 dl (bit_or (c.block term_4) (bit_and codes 0xfffff800000000 <<< 8))
      else if terminates dl cl 5
      then or_lanes 5 0 1 dl (bit_or (c.block term_5) (bit_and codes 0xfffc0000000000 <<< 8))
      else if terminates dl cl 6
      then or_lanes 6 0 1 dl (bit_or (c.block term_6) (bit_and codes 0xfe000000000000 <<< 8))
      else if terminates dl cl 7
      then or_lanes 7 0 1 dl (c.block term_7)
      else bit_or (c.block ctrl) (codes <<< 8)

  -- From `if not any(cl)` to the scrambler.
  unfoldable pub encode : List ℕ → List Bool → Block
  encode dl cl =
      if not (any cl) then record { hdr = c.sync_data; payload = from_bytes dl } else record {
        hdr = c.sync_ctrl;
        payload =
            if starts dl cl 0
            then or_lanes 7 1 1 dl (c.block start_0)
            else if starts dl cl 4
            then encode_start_4 dl cl
            else if has_os dl cl 0
            then encode_os_0 dl cl
            else if has_os dl cl 4
            then encode_os_4 dl
            else encode_term dl cl;
      }
