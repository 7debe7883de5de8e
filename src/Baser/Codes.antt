-- ===== src/Baser/Codes.antt =====
-- The constants that src/eth/tb/baser.py takes from cocotbext.eth, as a parameter of the model.
use taxi.Prelude.{ℕ, ◌<◌, ◌^◌, ◌≡◌, ◌≢◌, Option, some}

-- `BaseRBlockType`.
pub data BlockType : Type 0 where
  ctrl os_4 start_4 os_start os_04 start_0 os_0 : BlockType
  term_0 term_1 term_2 term_3 term_4 term_5 term_6 term_7 : BlockType

-- `XgmiiCtrl`, `BaseRCtrl.ERROR`, `BaseRO`, `BaseRSync`, `EthPre`, the values of the block types, and
-- the three dictionaries.
pub record Codes : Type 0 where
  pub idle : ℕ
  pub start : ℕ
  pub term : ℕ
  pub error : ℕ
  pub seq_os : ℕ
  pub sig_os : ℕ
  pub ctrl_error : ℕ
  pub o_seq : ℕ
  pub o_sig : ℕ
  pub sync_data : ℕ
  pub sync_ctrl : ℕ
  pub pre : ℕ
  pub sfd : ℕ
  pub block : BlockType → ℕ
  pub xgmii_ctrl_to_baser : ℕ → Option ℕ
  pub baser_ctrl_to_xgmii : ℕ → Option ℕ
  pub block_type_term_lane : ℕ → ℕ

-- What the encoder and the decoder rely on: the values of the block types are bytes and differ, the two
-- headers differ, the O codes are nibbles, that of a sequence is zero, the control codes have
-- seven bits, a start is no ordered set, and the dictionary of terminations gives the lane.
pub record IsStandard (c : Codes) : Type 0 where
  pub block_lt : (t : BlockType) → c.block t < 256
  pub block_eq : (s t : BlockType) → c.block s ≡ c.block t → s ≡ t
  pub headers : c.sync_data ≢ c.sync_ctrl
  pub o_seq_eq : c.o_seq ≡ 0
  pub o_sig_pos : 0 < c.o_sig
  pub o_sig_lt : c.o_sig < 16
  pub code_lt : (d code : ℕ) → c.xgmii_ctrl_to_baser d ≡ some code → code < 2 ^ 7
  pub error_lt : c.ctrl_error < 2 ^ 7
  pub start_seq : c.start ≢ c.seq_os
  pub start_sig : c.start ≢ c.sig_os
  pub signals : c.seq_os ≢ c.sig_os
  pub lane_0 : c.block_type_term_lane (c.block term_0) ≡ 0
  pub lane_1 : c.block_type_term_lane (c.block term_1) ≡ 1
  pub lane_2 : c.block_type_term_lane (c.block term_2) ≡ 2
  pub lane_3 : c.block_type_term_lane (c.block term_3) ≡ 3
  pub lane_4 : c.block_type_term_lane (c.block term_4) ≡ 4
  pub lane_5 : c.block_type_term_lane (c.block term_5) ≡ 5
  pub lane_6 : c.block_type_term_lane (c.block term_6) ≡ 6
  pub lane_7 : c.block_type_term_lane (c.block term_7) ≡ 7
