-- ===== src/Pcie.antt =====
-- The frames, the bus and its parameters of the models of the PCIe interface (src/pcie/tb/pcie_if.py).
pub mod Packed
pub mod Send
pub mod Receive
pub mod Pack
pub mod Drive
pub mod View
pub mod Arrival
pub mod Segments
pub mod Taken
pub mod Link
pub mod Queue
pub mod Exchange
pub mod Parity
mod Tests
use taxi.Prelude.{ℕ, zero, suc, ◌+◌, ◌*◌, Option, none, some, List, []}

pub record PcieIfFrame : Type 0 where
  pub tlp_prfx : ℕ
  pub hdr : ℕ
  pub dwords : List ℕ
  pub tlp_prfx_par : ℕ
  pub hdr_par : ℕ
  pub parity : List ℕ
  pub func_num : ℕ
  pub vf_num : Option ℕ
  pub bar_id : ℕ
  pub tlp_abort : ℕ
  pub error : ℕ
  pub seq : ℕ

-- The parameters of `PcieIfBase`. The data bus has `seg_byte_lanes` lanes of 32 bits for each segment.
pub record Interface : Type 0 where
  pub seg_count : ℕ
  pub seg_byte_lanes : ℕ
  pub seg_empty_width : ℕ
  pub seq_width : ℕ
  pub func_num_width : ℕ
  pub vf_num_width : ℕ

-- `PcieIfTransaction`, with the signals that a source drives.
pub record Transaction : Type 0 where
  pub payload : ℕ
  pub empty : ℕ
  pub sop : ℕ
  pub eop : ℕ
  pub valid : ℕ
  pub error : ℕ
  pub hdr : ℕ
  pub tlp_prfx : ℕ
  pub seq : ℕ
  pub vf_active : ℕ
  pub func_num : ℕ
  pub vf_num : ℕ
  pub bar_id : ℕ
  pub data_par : ℕ
  pub hdr_par : ℕ
  pub tlp_prfx_par : ℕ

abbrev pub no_transaction : Transaction
no_transaction = record {
  payload = 0;
  empty = 0;
  sop = 0;
  eop = 0;
  valid = 0;
  error = 0;
  hdr = 0;
  tlp_prfx = 0;
  seq = 0;
  vf_active = 0;
  func_num = 0;
  vf_num = 0;
  bar_id = 0;
  data_par = 0;
  hdr_par = 0;
  tlp_prfx_par = 0;
}

-- `PcieIfFrame()`
abbrev pub no_frame : PcieIfFrame
no_frame = record {
  tlp_prfx = 0;
  hdr = 0;
  dwords = [];
  tlp_prfx_par = 0;
  hdr_par = 0;
  parity = [];
  func_num = 0;
  vf_num = none;
  bar_id = 0;
  tlp_abort = 0;
  error = 0;
  seq = 0;
}
