-- ===== src/Dma/Ram/Lanes.antt =====
-- The byte enables of a word that `PsdpRamWrite` of src/dma/tb/dma_psdp_ram.py takes: the runs of
-- enabled lanes that `_run` writes to the memory.
use taxi.Prelude.{
  ℕ, zero, suc, ◌+◌, ◌-◌, Bool, not, Option, none, some, List, [], ◌∷◌, ◌++◌, take, drop, get_or,
  ◌==◌, if◌then◌else◌, ◌<<<◌, bit_and,
}

pub record Scan : Type 0 where
  pub start_offset : Option ℕ
  pub write_ops : List (ℕ × List ℕ)

-- `seg_be & (1 << i)`
abbrev pub enabled : ℕ → ℕ → Bool
enabled seg_be i = not (bit_and seg_be (1 <<< i) == 0)

-- `data[start:stop]`
abbrev pub slice : List ℕ → ℕ → ℕ → List ℕ
slice bytes start stop = take (stop - start) (drop start bytes)

-- `if start_offset is not None and offset != start_offset: write_ops.append(…)`
unfoldable pub close : ℕ → List ℕ → ℕ → Scan → List (ℕ × List ℕ)
close addr bytes offset s = elim s.start_offset [
  | none ↦ s.write_ops
  | some start ↦
      if offset == start
      then s.write_ops
      else s.write_ops ++ ((addr + start, slice bytes start offset) ∷ [])
]

-- A round of `for i in range(self.byte_lanes)`, where `offset` is `i`.
unfoldable pub scan_lane : ℕ → List ℕ → ℕ → ℕ → Scan → Scan
unfolding close
scan_lane addr bytes seg_be i s =
    if enabled seg_be i
    then record s { start_offset = elim s.start_offset [ none ↦ some i | some start ↦ some start ] }
    else record { start_offset = none; write_ops = close addr bytes i s }

unfoldable pub scan_lanes : (count i : ℕ) → ℕ → List ℕ → ℕ → Scan → Scan
unfolding scan_lane
scan_lanes zero i addr bytes seg_be s = s
scan_lanes (suc count) i addr bytes seg_be s =
    scan_lanes count (suc i) addr bytes seg_be (scan_lane addr bytes seg_be i s)

-- `write_ops` behind the loop and the last run.
unfoldable pub write_ops : (byte_lanes addr : ℕ) → List ℕ → ℕ → List (ℕ × List ℕ)
unfolding close scan_lanes
write_ops byte_lanes addr bytes seg_be =
    close addr bytes byte_lanes
      (scan_lanes byte_lanes 0 addr bytes seg_be (record { start_offset = none; write_ops = [] }))

-- The bytes of the operations, each with its address.
unfoldable pub addressed : ℕ → List ℕ → List (ℕ × ℕ)
addressed addr [] = []
addressed addr (b ∷ bs) = (addr, b) ∷ addressed (suc addr) bs

unfoldable pub written : List (ℕ × List ℕ) → List (ℕ × ℕ)
written [] = []
written ((addr, bytes) ∷ ops) = addressed addr bytes ++ written ops

-- The bytes of the enabled lanes.
unfoldable pub enabled_bytes : (count i : ℕ) → ℕ → List ℕ → ℕ → List (ℕ × ℕ)
enabled_bytes zero i addr bytes seg_be = []
enabled_bytes (suc count) i addr bytes seg_be =
    let later = enabled_bytes count (suc i) addr bytes seg_be in
    if enabled seg_be i then (addr + i, get_or bytes i 0) ∷ later else later
