-- ===== src/Pcie/Send.antt =====
-- `PcieIfSource` of src/pcie/tb/pcie_if.py: its queue, and the transactions that its `_run` makes of the frames.
use taxi.Prelude.{
  ℕ, zero, suc, ◌+◌, ◌-◌, ◌*◌, min, Bool, true, false, ◌&&◌, ◌||◌, Option, none, some, List, [],
  ◌∷◌, ◌++◌, length, take, drop, ltb, leb, low_bits, if◌then◌else◌,
}
use taxi.Pcie.{PcieIfFrame, Interface, Transaction, no_transaction}
use taxi.Pcie.Packed.{put, put_lanes}

-- `frame`, `frame_offset` and `first`.
pub record Sending : Type 0 where
  pub frame : PcieIfFrame
  pub frame_offset : ℕ
  pub first : Bool

-- A limit of 0 stands for one that is not positive.
pub record PcieIfSource : Type 0 where
  pub sending : Option Sending
  pub queue : List PcieIfFrame
  pub queue_occupancy_bytes : ℕ
  pub queue_occupancy_frames : ℕ
  pub queue_occupancy_limit_bytes : ℕ
  pub queue_occupancy_limit_frames : ℕ

unfoldable pub full : PcieIfSource → Bool
full s =
    (ltb 0 s.queue_occupancy_limit_bytes
      && ltb s.queue_occupancy_limit_bytes s.queue_occupancy_bytes)
    || (ltb 0 s.queue_occupancy_limit_frames
        && ltb s.queue_occupancy_limit_frames s.queue_occupancy_frames)

-- `none` is QueueFull.
unfoldable pub send_nowait : PcieIfFrame → PcieIfSource → Option PcieIfSource
send_nowait frame s =
    if full s
    then none
    else some (record s {
      queue = s.queue ++ (frame ∷ []);
      queue_occupancy_bytes = s.queue_occupancy_bytes + length frame.dwords;
      queue_occupancy_frames = s.queue_occupancy_frames + 1;
    })

-- The frame of the next segment: the one under way, or the first of the queue (`_get_frame_nowait`).
abbrev pub current_of :
    Option Sending → List PcieIfFrame → PcieIfSource → Option (Sending × PcieIfSource)
current_of (some x) queue s = some (x, s)
current_of none [] s = none
current_of none (frame ∷ rest) s = some (
  record { frame = frame; frame_offset = 0; first = true },
  record s {
    queue = rest;
    queue_occupancy_bytes = s.queue_occupancy_bytes - length frame.dwords;
    queue_occupancy_frames = s.queue_occupancy_frames - 1;
  },
)

abbrev pub current : PcieIfSource → Option (Sending × PcieIfSource)
current s = current_of s.sending s.queue s

abbrev pub has_vf : Option ℕ → Bool
has_vf none = false
has_vf (some x) = true

abbrev pub value : Option ℕ → ℕ
value none = 0
value (some x) = x

abbrev pub has_data : List ℕ → Bool
has_data [] = false
has_data (d ∷ ds) = true

module _ (c : Interface) where
  -- `cnt`, which is 0 where the frame has no data.
  abbrev pub cnt : Sending → ℕ
  cnt x = min c.seg_byte_lanes (length x.frame.dwords - x.frame_offset)

  -- The first part of the loop body: `sop`, the header and what goes with each segment.
  unfoldable pub drive_header : ℕ → Sending → Transaction → Transaction
  drive_header seg x t =
      let f = x.frame in
      record t {
        valid = put x.first 1 seg 1 t.valid;
        sop = put x.first 1 seg 1 t.sop;
        hdr = put x.first 128 seg f.hdr t.hdr;
        tlp_prfx = put x.first 32 seg f.tlp_prfx t.tlp_prfx;
        hdr_par = put x.first 16 seg f.hdr_par t.hdr_par;
        tlp_prfx_par = put x.first 4 seg f.tlp_prfx_par t.tlp_prfx_par;
        bar_id = put true 3 seg f.bar_id t.bar_id;
        func_num = put true c.func_num_width seg (low_bits f.func_num c.func_num_width) t.func_num;
        vf_active = put (has_vf f.vf_num) 1 seg 1 t.vf_active;
        vf_num =
            put (has_vf f.vf_num) c.vf_num_width seg (low_bits (value f.vf_num) c.vf_num_width)
              t.vf_num;
        error = put true 4 seg f.error t.error;
        seq = put true c.seq_width seg f.seq t.seq;
      }

  -- The second part: the data with its parity, and `eop`.
  unfoldable pub drive_data : ℕ → Sending → Transaction → Transaction
  drive_data seg x t =
      let f = x.frame in
      record t {
        valid = put (has_data f.dwords) 1 seg 1 t.valid;
        empty = put (has_data f.dwords) c.seg_empty_width seg (c.seg_byte_lanes - cnt x) t.empty;
        payload =
            put_lanes 32 (seg * c.seg_byte_lanes) (take (cnt x) (drop x.frame_offset f.dwords))
              t.payload;
        data_par =
            put_lanes 4 (seg * c.seg_byte_lanes) (take (cnt x) (drop x.frame_offset f.parity))
              t.data_par;
        eop = put (leb (length f.dwords) (x.frame_offset + cnt x)) 1 seg 1 t.eop;
      }

  -- `none` is the IndexError of a frame that has less parities than data.
  unfoldable pub drive_segment : ℕ → Sending → Transaction → Option Transaction
  drive_segment seg x t =
      if ltb (length x.frame.parity) (x.frame_offset + cnt x)
      then none
      else some (drive_data seg x (drive_header seg x t))

  -- What is under way behind a segment.
  unfoldable pub rest_of : Sending → Option Sending
  rest_of x =
      if leb (length x.frame.dwords) (x.frame_offset + cnt x)
      then none
      else some (record x { frame_offset = x.frame_offset + cnt x; first = false })

  -- The loop over the segments of a transaction, for `count` of them from `seg` on.
  unfoldable pub send_segments :
      ℕ → ℕ → PcieIfSource → Transaction → Option (Transaction × PcieIfSource)
  send_segments zero seg s t = some (t, s)
  send_segments (suc count) seg s t = elim (current s) [
    | none ↦ some (t, s)
    | some (x, s') ↦ elim (drive_segment seg x t) [
      | none ↦ none
      | some t' ↦ send_segments count (seg + 1) (record s' { sending = rest_of x }) t'
    ]
  ]

  -- A round of `_run`: the transaction that is driven next. `none` is an exception.
  unfoldable pub send_transaction : PcieIfSource → Option (Transaction × PcieIfSource)
  send_transaction s = send_segments c.seg_count 0 s no_transaction
