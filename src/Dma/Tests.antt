-- ===== src/Dma/Tests.antt =====
-- Runs of the segmentation of dma_psdp_ram.py at fixed inputs, and instances of its theorems.
use taxi.Prelude.{
  zero, suc, ◌%◌, ◌++◌, true, false, ℕ, ◌/◌, ◌≡◌, refl, none, some, List, [], ◌∷◌, map, arith,
}
use taxi.Dma.{
  seg_be, pack_lanes, op_addr, Port, WriteCmd, SegWriteData, ForSegment, write, process_write,
  join_rounds, resp_cmd, segments,
}
use taxi.Dma.Ram.{Sample, idle_port, edge, respond, accept, make_ready, fetch}
use taxi.Dma.Ram.Lanes.{write_ops, scan_lanes, scan_lane, close, written, enabled_bytes}
use taxi.Dma.Ram.Runs.{written-write_ops}
use taxi.Dma.Ram.Stream.{all_taken, all_asked, behind, pending, all_taken-all_asked}
use taxi.Dma.Rows.{from, word_number}
use taxi.Dma.RoundTrip.{process_write-join_rounds}

-- Two segments of four bytes.
abbrev port : Port
port = record { seg_count = 2; seg_byte_lanes = 4; seg_addr_width = 8; address_width = 11 }

-- Seven bytes from the third of a word of segment 1 on.
abbrev command : WriteCmd
command = record { address = 6; bytes = 1 ∷ 2 ∷ 3 ∷ 4 ∷ 5 ∷ 6 ∷ 7 ∷ [] }

abbrev operations : List (ForSegment SegWriteData)
operations =
    record { seg = 1; op = record { addr = 0; val = 0x02010000; be = 0xC } }
    ∷ record { seg = 0; op = record { addr = 1; val = 0x06050403; be = 0xF } }
    ∷ record { seg = 1; op = record { addr = 1; val = 0x07; be = 0x1 } }
    ∷ []

cut : process_write port command ≡ some (resp_cmd port 6 7, operations)
unfolding process_write seg_be pack_lanes op_addr resp_cmd
cut = refl

past_the_end : write port 2047 (1 ∷ 2 ∷ []) ≡ none
unfolding write
past_the_end = refl

process_write-join_rounds_example :
    (ops : List (ForSegment SegWriteData)) × ((process_write port command
        ≡ some (resp_cmd port 6 7, ops))
      × ((map (λ (o : ForSegment SegWriteData). word_number port o.op.addr o.seg) ops
            ≡ from (segments port 6 7) (6 / 4))
          × (join_rounds port
                (resp_cmd port 6 7)
                0
                (map (λ (o : ForSegment SegWriteData). o.op.val) ops)
              ≡ command.bytes)))
process_write-join_rounds_example =
    process_write-join_rounds port command (omega arith) (omega arith) (omega arith)

-- A memory in which each byte is its address.
abbrev memory_read : ℕ → ℕ → List ℕ
memory_read address zero = []
memory_read address (suc count) = address % 256 ∷ memory_read (suc address) count

abbrev sample : Sample
sample = record { reset = false; pause = false; cmd_valid = true; cmd_addr = 3; resp_ready = false }

-- The port takes two commands, and no more until a response is taken.
abbrev samples : List Sample
samples =
    sample
    ∷ sample
    ∷ record sample { cmd_addr = 4 }
    ∷ record sample { cmd_addr = 5 }
    ∷ sample
    ∷ record sample { resp_ready = true }
    ∷ sample
    ∷ []

asked_words :
    all_asked port memory_read 1024 1 idle_port samples ≡ 0x1F1E1D1C ∷ 0x27262524 ∷ 0x1F1E1D1C ∷ []
unfolding all_asked edge respond accept make_ready fetch
asked_words = refl

all_taken-all_asked_example :
    all_taken port memory_read 1024 1 idle_port samples
      ++ pending port memory_read 1024 1 (behind port memory_read 1024 1 idle_port samples)
    ≡ all_asked port memory_read 1024 1 idle_port samples
all_taken-all_asked_example =
    all_taken-all_asked port memory_read 1024 1 samples
      (refl, (refl, (refl, (refl, (refl, (refl, (refl, tt)))))))

-- Lanes 0, 1 and 3 of a word of four bytes, in a RAM of eight lanes.
two_runs : write_ops 8 16 (7 ∷ 8 ∷ 9 ∷ 10 ∷ []) 0xB ≡ (16, 7 ∷ 8 ∷ []) ∷ (19, 10 ∷ []) ∷ []
unfolding write_ops scan_lanes scan_lane close
two_runs = refl

written-write_ops_example :
    written (write_ops 8 16 (7 ∷ 8 ∷ 9 ∷ 10 ∷ []) 0xB)
    ≡ enabled_bytes 8 0 16 (7 ∷ 8 ∷ 9 ∷ 10 ∷ []) 0xB
written-write_ops_example = written-write_ops 8 16 (7 ∷ 8 ∷ 9 ∷ 10 ∷ []) 0xB (omega arith)
