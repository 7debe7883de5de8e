-- ===== src/Cndm/Tests.antt =====
-- Runs of the driver model at fixed inputs, and instances of its theorems.
use taxi.Prelude.{
  ℕ, zero, suc, ◌+◌, ◌*◌, ◌-◌, ◌<◌, ◌≤◌, ◌≡◌, refl, true, Option, List, [], ◌∷◌, ◌++◌, replicate,
  arith,
}
use taxi.Prelude.Digits.{test_bit}
use taxi.Cndm.{
  Ring, Pool, Memory, Cq, Cqe, opened, write_cons_ptr_arm, is_new, start_xmit, missing, alloc_pkt,
  write_prod_ptr, prepare_rx_desc, prepare_all, refill_rx_buffers, process_tx_cq, process_rx_cq,
  free_buf,
}
use taxi.Cndm.Scan.{returns, ended}
use taxi.Cndm.Phase.{process_cq_ends}
use taxi.Cndm.Refill.{Held, opened-Held, start_xmit-Held, refill_rx_buffers-Held}
use taxi.Cndm.Drain.{taken, received, freed}
use taxi.Cndm.Process.{New, process_tx_cq_lem, process_rx_cq_lem}
use taxi.Cndm.Flush.{free_buf_lem}

-- A packet is read as its number and the length.
abbrev memory : Memory
memory = record {
  region = λ n. 4096 * (n + 1);
  address = λ pkt. pkt;
  size = λ pkt. 4096;
  contents = λ pkt length. pkt ∷ length ∷ [];
}

abbrev pool : Pool
pool = record { free_packets = []; allocated_packets = []; made = 0 }

abbrev completion : ℕ → Cqe
completion length = record { word_0 = 0; word_1 = length; word_2 = 0; word_3 = 0x80000000 }

abbrev blank : Cqe
blank = record { word_0 = 0; word_1 = 0; word_2 = 0; word_3 = 0 }

-- Two completions of the first pass.
abbrev queue : Cq
queue = record {
  log_size = 3;
  cons_ptr = 0;
  buf = completion 60 ∷ completion 64 ∷ replicate 6 blank;
  doorbells = [];
}

queue_new : (j : ℕ) → j < 2 → is_new queue (0 + j) ≡ true
unfolding is_new test_bit
queue_new zero h = refl
queue_new (suc zero) h = refl
queue_new (suc (suc j)) h = absurd (omega arith)

queue-New : New queue 2
unfolding is_new test_bit
queue-New = record { new = queue_new; last = refl }

-- A ring that has been filled.
abbrev filled : Ring × Pool
filled = refill_rx_buffers memory (opened 3, pool)

filled-Held : Held (λ x. 0) filled.0 filled.1 filled.0.cons_ptr
filled-Held = (refill_rx_buffers-Held memory (λ x. 0) (opened 3) pool (opened-Held 3 0)).0

filled_two : filled.0.cons_ptr + 2 ≤ filled.0.prod_ptr
unfolding refill_rx_buffers prepare_all prepare_rx_desc write_prod_ptr alloc_pkt
filled_two = omega arith

taken_two : taken filled.0.info filled.0.log_size 2 filled.0.cons_ptr ≡ 4096 ∷ 8192 ∷ []
unfolding refill_rx_buffers prepare_all prepare_rx_desc write_prod_ptr alloc_pkt
taken_two = refl

start_xmit-Held_example :
    let s = start_xmit memory 60 (opened 1, pool) in
    Held (λ x. 0) s.0 s.1 s.0.cons_ptr
    × ((s.0.prod_ptr ≡ (opened 1).prod_ptr + 1) × (s.0.cons_ptr ≡ (opened 1).cons_ptr))
start_xmit-Held_example =
    start_xmit-Held memory (λ x. 0) 60 (opened 1) pool (opened-Held 1 0) (omega arith)

refill_rx_buffers-Held_example :
    Held (λ x. 0) filled.0 filled.1 filled.0.cons_ptr
    × ((filled.0.cons_ptr ≡ (opened 3).cons_ptr) × (missing memory filled.0 < 8))
refill_rx_buffers-Held_example =
    refill_rx_buffers-Held memory (λ x. 0) (opened 3) pool (opened-Held 3 0)

process_tx_cq_lem_example :
    (left : List (Option ℕ)) × (let r' = record (filled.0) {
      info = left;
      cons_ptr = filled.0.cons_ptr + 2;
    } in
      let p' = freed (taken filled.0.info filled.0.log_size 2 filled.0.cons_ptr) filled.1 in
      let cq' = write_cons_ptr_arm (record queue { cons_ptr = queue.cons_ptr + 2 }) in
      (process_tx_cq queue filled.0 filled.1 ≡ returns (cq', r', p'))
      × Held (λ x. 0) r' p' r'.cons_ptr)
process_tx_cq_lem_example =
    process_tx_cq_lem (λ x. 0) queue filled.0 filled.1 2 filled-Held queue-New filled_two

process_rx_cq_lem_example :
    let pkts = taken filled.0.info filled.0.log_size 2 filled.0.cons_ptr in
    let cq' = write_cons_ptr_arm (record queue { cons_ptr = queue.cons_ptr + 2 }) in
    (s : Ring × Pool) × ((process_rx_cq memory queue filled.0 filled.1 []
        ≡ returns (cq', s.0, s.1, [] ++ received memory queue queue.cons_ptr pkts))
      × (Held (λ x. 0) s.0 s.1 s.0.cons_ptr
          × ((s.0.cons_ptr ≡ filled.0.cons_ptr + 2) × (missing memory s.0 < 8))))
process_rx_cq_lem_example =
    process_rx_cq_lem (λ x. 0) queue filled.0 filled.1 2 memory [] filled-Held queue-New filled_two

free_buf_lem_example :
    let n = filled.0.prod_ptr - filled.0.cons_ptr in
    let p' = freed (taken filled.0.info filled.0.log_size n filled.0.cons_ptr) filled.1 in
    (left : List (Option ℕ)) × ((free_buf filled
        ≡ returns (record (filled.0) { info = left; cons_ptr = filled.0.prod_ptr }, p'))
      × Held
          (λ x. 0)
          (record (filled.0) { info = left; cons_ptr = filled.0.prod_ptr })
          p'
          filled.0.prod_ptr)
free_buf_lem_example = free_buf_lem (λ x. 0) filled.0 filled.1 filled-Held

process_cq_ends_example :
    (ended (process_tx_cq queue filled.0 filled.1) ≡ true)
    × (ended (process_rx_cq memory queue filled.0 filled.1 []) ≡ true)
process_cq_ends_example = process_cq_ends memory queue filled.0 filled.1 []
