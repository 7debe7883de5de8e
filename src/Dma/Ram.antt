-- ===== src/Dma/Ram.antt =====
-- The read port of the RAM model (src/dma/tb/dma_psdp_ram.py, `PsdpRamRead`): a clock edge of `_run`
-- at one segment. A signal that has a field for each segment is the field; the segments share
-- `pause`, the reset and the memory.
pub mod Lanes
pub mod Runs
pub mod Stream
use taxi.Prelude.{
  ℕ, zero, suc, ◌+◌, ◌*◌, ◌%◌, Bool, true, false, not, ◌&&◌, ◌||◌, Option, none, some, List, [],
  ◌∷◌, from_bytes, if◌then◌else◌, ◌<<<◌, low_bits,
}
use taxi.Dma.{Port}

-- `pipeline[seg]` has one place.
pub record ReadPort : Type 0 where
  pub pipeline : Option ℕ
  pub cmd_ready : Bool
  pub resp_valid : Bool
  pub resp_data : ℕ

-- The local variables at the start of `_run`.
abbrev pub idle_port : ReadPort
idle_port = record { pipeline = none; cmd_ready = false; resp_valid = false; resp_data = 0 }

-- What an edge samples.
pub record Sample : Type 0 where
  pub reset : Bool
  pub pause : Bool
  pub cmd_valid : Bool
  pub cmd_addr : ℕ
  pub resp_ready : Bool

-- `if (not resp_valid & seg_mask) or None in pipeline[seg]: …`, and the pause.
unfoldable pub make_ready : ReadPort → Bool → ReadPort
make_ready s pause = record s {
  cmd_ready =
      not pause && (not s.resp_valid || elim s.pipeline [ none ↦ true | some value ↦ false ]);
}

module _ (p : Port) where
  open p use {seg_byte_lanes}

  -- The word that a response shows of it.
  abbrev pub masked : ℕ → ℕ
  masked value = low_bits value (seg_byte_lanes * 8)

  -- `if (resp_ready_sample & seg_mask) or not (resp_valid & seg_mask): …`
  unfoldable pub respond : ReadPort → Bool → ReadPort
  respond s resp_ready =
      if resp_ready || not s.resp_valid
      then elim s.pipeline [
        | some value ↦ record s { resp_data = masked value; resp_valid = true; pipeline = none }
        | none ↦ record s { resp_valid = false }
      ]
      else s

-- `read` and `size` are those of Memory in cocotbext.axi.
module _ (p : Port) (memory_read : ℕ → ℕ → List ℕ) (size seg : ℕ) where
  open p use {seg_count, seg_byte_lanes, seg_addr_width}

  -- The word that a command reads.
  unfoldable pub fetch : ℕ → ℕ
  fetch cmd_addr =
      let seg_addr = low_bits cmd_addr seg_addr_width in
      let addr = (seg_addr * seg_count + seg) * seg_byte_lanes in
      from_bytes (memory_read (addr % size) seg_byte_lanes)

  -- `if cmd_ready & cmd_valid_sample & seg_mask: …`
  unfoldable pub accept : ReadPort → Sample → ReadPort
  accept s i =
      if s.cmd_ready && i.cmd_valid then record s { pipeline = some (fetch i.cmd_addr) } else s

  -- A reset leaves the pipeline and the data as they are.
  unfoldable pub edge : ReadPort → Sample → ReadPort
  unfolding respond accept make_ready
  edge s i =
      if i.reset
      then record s { cmd_ready = false; resp_valid = false }
      else make_ready (accept (respond p s i.resp_ready) i) i.pause
