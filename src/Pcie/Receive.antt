-- ===== src/Pcie/Receive.antt =====
-- `PcieIfSink` of src/pcie/tb/pcie_if.py: the frames that its `_run` makes of the transactions, and its queue.
use taxi.Prelude.{
  ℕ, zero, suc, ◌+◌, ◌*◌, Bool, Option, none, some, List, [], ◌∷◌, ◌++◌, length, ◌==◌, low_bits,
  ◌>>>◌, if◌then◌else◌,
}
use taxi.Prelude.Digits.{test_bit}
use taxi.Pcie.{PcieIfFrame, Interface, Transaction, no_frame}
use taxi.Pcie.Packed.{get}

-- What a transaction has of a segment; `empty` is read and not used.
pub record Segment : Type 0 where
  pub valid : Bool
  pub sop : Bool
  pub eop : Bool
  pub vf_active : Bool
  pub hdr : ℕ
  pub tlp_prfx : ℕ
  pub hdr_par : ℕ
  pub tlp_prfx_par : ℕ
  pub bar_id : ℕ
  pub func_num : ℕ
  pub vf_num : ℕ
  pub error : ℕ
  pub seq : ℕ
  pub empty : ℕ
  pub lanes : List ℕ
  pub parities : List ℕ

pub record PcieIfSink : Type 0 where
  pub frame : Option PcieIfFrame
  pub dword_count : ℕ
  pub queue : List PcieIfFrame
  pub queue_occupancy_bytes : ℕ
  pub queue_occupancy_frames : ℕ

-- `(word >> w * k) & (2 ** w - 1)` for `count` lanes from `k` on.
abbrev pub lanes_of : ℕ → ℕ → ℕ → ℕ → List ℕ
lanes_of w word zero k = []
lanes_of w word (suc count) k = get w k word ∷ lanes_of w word count (k + 1)

-- The data of a segment has `seg_byte_lanes` lanes of 32 bits, with 4 bits of parity each.
unfoldable pub sampled : Interface → Transaction → ℕ → Segment
sampled c t seg =
    let lanes = c.seg_byte_lanes in
    record {
      valid = test_bit t.valid seg;
      sop = test_bit t.sop seg;
      eop = test_bit t.eop seg;
      vf_active = test_bit t.vf_active seg;
      hdr = get 128 seg t.hdr;
      tlp_prfx = get 32 seg t.tlp_prfx;
      hdr_par = get 16 seg t.hdr_par;
      tlp_prfx_par = get 4 seg t.tlp_prfx_par;
      bar_id = get 3 seg t.bar_id;
      func_num = get c.func_num_width seg t.func_num;
      vf_num = get c.vf_num_width seg t.vf_num;
      error = get 4 seg t.error;
      seq = get c.seq_width seg t.seq;
      empty = get c.seg_empty_width seg t.empty;
      lanes = lanes_of 32 (get (lanes * 32) seg t.payload) lanes 0;
      parities = lanes_of 4 (get (lanes * 4) seg t.data_par) lanes 0;
    }

-- The length that a header gives.
unfoldable pub header_dwords : ℕ → ℕ
header_dwords hdr =
    if test_bit hdr 126 then (let n = low_bits (hdr >>> 96) 10 in if n == 0 then 1024 else n) else 0

-- The frame that a segment with `sop` begins.
abbrev pub begun : Segment → PcieIfFrame
begun g = record no_frame {
  tlp_prfx = g.tlp_prfx;
  tlp_prfx_par = g.tlp_prfx_par;
  hdr = g.hdr;
  hdr_par = g.hdr_par;
  bar_id = g.bar_id;
  func_num = g.func_num;
  vf_num = if g.vf_active then some g.vf_num else none;
  error = g.error;
  seq = g.seq;
}

-- The frame and `dword_count` behind the test of `sop`. `none` is an AssertionError.
unfoldable pub take_header : Segment → Option PcieIfFrame → ℕ → Option (PcieIfFrame × ℕ)
take_header g none count = if g.sop then some (begun g, header_dwords g.hdr) else none
take_header g (some frame) count = if g.sop then none else some (frame, count)

-- The loop over the lanes: `dword_count` is how many the frame still takes.
abbrev pub take_lanes : ℕ → List ℕ → List ℕ → PcieIfFrame → PcieIfFrame × ℕ
take_lanes zero ds ps frame = (frame, zero)
take_lanes (suc n) [] ps frame = (frame, suc n)
take_lanes (suc n) (d ∷ ds) [] frame = (frame, suc n)
take_lanes (suc n) (d ∷ ds) (p ∷ ps) frame =
    take_lanes n ds ps
      (record frame { dwords = frame.dwords ++ (d ∷ []); parity = frame.parity ++ (p ∷ []) })

abbrev pub sink_frame : PcieIfFrame → PcieIfSink → PcieIfSink
sink_frame frame s = record s {
  frame = none;
  queue = s.queue ++ (frame ∷ []);
  queue_occupancy_bytes = s.queue_occupancy_bytes + length frame.dwords;
  queue_occupancy_frames = s.queue_occupancy_frames + 1;
}

-- The test of `eop`. `none` is an AssertionError.
unfoldable pub take_end : Bool → PcieIfFrame × ℕ → PcieIfSink → Option PcieIfSink
take_end eop (frame, count) s =
    if eop
    then (if count == 0 then some (record (sink_frame frame s) { dword_count = 0 }) else none)
    else some (record s { frame = some frame; dword_count = count })

-- The loop body for a segment, behind the test of `sop`.
abbrev pub take_rest : Segment → Option (PcieIfFrame × ℕ) → PcieIfSink → Option PcieIfSink
take_rest g none s = none
take_rest g (some (frame, count)) s = take_end g.eop (take_lanes count g.lanes g.parities frame) s

-- The loop body for a segment.
unfoldable pub take_segment : Segment → PcieIfSink → Option PcieIfSink
take_segment g s = if g.valid then take_rest g (take_header g s.frame s.dword_count) s else some s

unfoldable pub take_segments : Interface → Transaction → ℕ → ℕ → PcieIfSink → Option PcieIfSink
take_segments c t zero seg s = some s
take_segments c t (suc count) seg s = elim (take_segment (sampled c t seg) s) [
  | none ↦ none
  | some s' ↦ take_segments c t count (seg + 1) s'
]

-- A round of `_run`, for a transaction.
unfoldable pub take_transaction : Interface → Transaction → PcieIfSink → Option PcieIfSink
take_transaction c t s = take_segments c t c.seg_count 0 s
