-- ===== src/Dma.antt =====
-- The models of the segmented RAM (src/dma/tb/dma_psdp_ram.py): how `PsdpRamMasterWrite` and
-- `PsdpRamMasterRead` cut a transfer into segment words, and put the words read together. Addresses
-- and lengths are not negative.
pub mod Ram
pub mod Rows
pub mod RoundTrip
pub mod Lanes
mod Tests
use taxi.Prelude.{
  ℕ, zero, suc, ◌+◌, ◌-◌, ◌*◌, ◌/◌, ◌%◌, ◌^◌, Option, none, some, List, [], ◌∷◌, ◌++◌, length, leb,
  ltb, ◌==◌, if◌then◌else◌, ◌<<<◌, ◌>>>◌, low_bits, bit_and, bit_or,
}

-- The attributes that the constructor takes from the bus. A word of a segment has a byte for each bit
-- of its byte enables.
pub record Port : Type 0 where
  pub seg_count : ℕ
  pub seg_byte_lanes : ℕ
  pub seg_addr_width : ℕ
  pub address_width : ℕ

pub record SegWriteData : Type 0 where
  pub addr : ℕ
  pub val : ℕ
  pub be : ℕ

pub record WriteCmd : Type 0 where
  pub address : ℕ
  pub bytes : List ℕ

pub record ReadCmd : Type 0 where
  pub address : ℕ
  pub length : ℕ

-- `WriteRespCmd` and `ReadRespCmd`.
pub record RespCmd : Type 0 where
  pub address : ℕ
  pub length : ℕ
  pub segments : ℕ
  pub first_seg : ℕ

-- A word for a segment's queue.
pub record ForSegment (A : Type 0) : Type 0 where
  pub seg : ℕ
  pub op : A

infixl 5 ◌>>=◌
abbrev ◌>>=◌ {ℓ κ} : {A : Type ℓ} {B : Type κ} → Option A → (A → Option B) → Option B
◌>>=◌ none next = none
◌>>=◌ (some value) next = next value

module _ (p : Port) where
  open p use {seg_count, seg_byte_lanes, address_width}

  abbrev pub byte_lanes : ℕ
  byte_lanes = seg_count * seg_byte_lanes

  abbrev pub seg_be_mask : ℕ
  seg_be_mask = 2 ^ seg_byte_lanes - 1

  -- The checks of `write` and `read`; `none` is ValueError.
  unfoldable pub write : ℕ → List ℕ → Option WriteCmd
  write address bytes =
      if leb (2 ^ address_width) address
      then none
      else if ltb (2 ^ address_width) (address + length bytes)
      then none
      else some (record { address = address; bytes = bytes })

  unfoldable pub read : ℕ → ℕ → Option ReadCmd
  read address count =
      if leb (2 ^ address_width) address
      then none
      else if ltb (2 ^ address_width) (address + count)
      then none
      else some (record { address = address; length = count })

  abbrev pub seg_start_offset : ℕ → ℕ
  seg_start_offset address = address % seg_byte_lanes

  -- `((address + length - 1) % seg_byte_lanes) + 1`, where -1 leaves `seg_byte_lanes - 1`.
  abbrev pub seg_end_offset : ℕ → ℕ → ℕ
  seg_end_offset address count = (address + count + (seg_byte_lanes - 1)) % seg_byte_lanes + 1

  abbrev pub first_seg : ℕ → ℕ
  first_seg address = (address / seg_byte_lanes) % seg_count

  abbrev pub segments : ℕ → ℕ → ℕ
  segments address count =
      (count + (address % seg_byte_lanes) + (seg_byte_lanes - 1)) / seg_byte_lanes

  -- `start` and `stop` of round `k`.
  abbrev pub seg_start : ℕ → ℕ → ℕ
  seg_start address k = if k == 0 then seg_start_offset address else 0

  abbrev pub seg_stop : ℕ → ℕ → ℕ → ℕ
  seg_stop address count k =
      if k == segments address count - 1 then seg_end_offset address count else seg_byte_lanes

  -- `be` of round `k`.
  unfoldable pub seg_be : ℕ → ℕ → ℕ → ℕ
  seg_be address count k =
      let start = bit_and (seg_be_mask <<< seg_start_offset address) seg_be_mask in
      let end = seg_be_mask >>> (seg_byte_lanes - seg_end_offset address count) in
      let be = if k == 0 then bit_and seg_be_mask start else seg_be_mask in
      if k == segments address count - 1 then bit_and be end else be

  -- `for j in range(start, stop): val |= cmd.data[offset] << j*8`, on the data from `offset` on.
  -- `none` is IndexError.
  unfoldable pub pack_lanes : (count j val : ℕ) → List ℕ → Option (ℕ × List ℕ)
  pack_lanes zero j val rest = some (val, rest)
  pack_lanes (suc count) j val [] = none
  pack_lanes (suc count) j val (byte ∷ rest) =
      pack_lanes count (suc j) (bit_or val (byte <<< (j * 8))) rest

  unfoldable pub op_addr : ℕ → ℕ → ℕ
  op_addr address k = (address + k * seg_byte_lanes) / byte_lanes

  abbrev pub next_seg : ℕ → ℕ
  next_seg seg = (seg + 1) % seg_count

  -- `count` rounds from `k` on, of the loop of `_process_write`.
  unfoldable pub write_rounds :
      WriteCmd → (count k seg : ℕ) → List ℕ → Option (List (ForSegment SegWriteData))
  unfolding seg_be pack_lanes op_addr
  write_rounds cmd zero k seg rest = some []
  write_rounds cmd (suc count) k seg rest =
      let start = seg_start cmd.address k in
      let stop = seg_stop cmd.address (length cmd.bytes) k in
      do
        packed ← pack_lanes (stop - start) start 0 rest
        later ← write_rounds cmd count (suc k) (next_seg seg) packed.1
        some (
            record {
              seg = seg;
              op = record {
                addr = op_addr cmd.address k;
                val = packed.0;
                be = seg_be cmd.address (length cmd.bytes) k;
              };
            }
            ∷ later)

  unfoldable pub resp_cmd : ℕ → ℕ → RespCmd
  resp_cmd address count = record {
    address = address;
    length = count;
    segments = segments address count;
    first_seg = first_seg address;
  }

  -- A round of `_process_write`: the entry of the response queue, and those of the segments' queues.
  unfoldable pub process_write : WriteCmd → Option (RespCmd × List (ForSegment SegWriteData))
  unfolding write_rounds resp_cmd
  process_write cmd =
      let count = length cmd.bytes in
      do
        ops ← write_rounds cmd (segments cmd.address count) 0 (first_seg cmd.address) cmd.bytes
        some (resp_cmd cmd.address count, ops)

  -- The loop of `_process_read`; the word is the row to read.
  unfoldable pub read_rounds : ReadCmd → (count k seg : ℕ) → List (ForSegment ℕ)
  unfolding op_addr
  read_rounds cmd zero k seg = []
  read_rounds cmd (suc count) k seg =
      record { seg = seg; op = op_addr cmd.address k }
      ∷ read_rounds cmd count (suc k) (next_seg seg)

  unfoldable pub process_read : ReadCmd → RespCmd × List (ForSegment ℕ)
  unfolding read_rounds resp_cmd
  process_read cmd = (
    resp_cmd cmd.address cmd.length,
    read_rounds cmd (segments cmd.address cmd.length) 0 (first_seg cmd.address),
  )

  -- `for j in range(start, stop): data.extend(…)`
  unfoldable pub unpack_lanes : (count j seg_data : ℕ) → List ℕ
  unpack_lanes zero j seg_data = []
  unpack_lanes (suc count) j seg_data =
      low_bits (seg_data >>> (j * 8)) 8 ∷ unpack_lanes count (suc j) seg_data

  -- The loop of `_process_read_resp`, on the words that the segments' queues return in turn.
  unfoldable pub join_rounds : RespCmd → ℕ → List ℕ → List ℕ
  unfolding unpack_lanes
  join_rounds cmd k [] = []
  join_rounds cmd k (seg_data ∷ later) =
      let start = seg_start cmd.address k in
      let stop = seg_stop cmd.address cmd.length k in
      unpack_lanes (stop - start) start seg_data ++ join_rounds cmd (suc k) later
