-- ===== src/Cndm.antt =====
-- The driver model of the Corundum network device (src/cndm/tb/cndm.py): its packet buffers, the rings
-- of the queues `Sq` and `Rq`, and the completion queues `Cq` that empty them.
pub mod Scan
pub mod Slots
pub mod Account
pub mod Phase
pub mod Drain
pub mod Refill
pub mod Process
pub mod Flush
mod Tests
use taxi.Prelude.{
  ℕ, zero, suc, ◌+◌, ◌-◌, ◌^◌, Bool, true, false, not, ◌&&◌, ◌||◌, Option, none, some, List, [],
  ◌∷◌, ◌++◌, get_elem?, set, replicate, ltb, ◌==◌, if◌then◌else◌, low_bits, sub_wrap,
}
use taxi.Prelude.Digits.{test_bit}
use Scan.{Result, returns, raises, scan}

-- The packet buffers of `Driver`, by number. `made` counts the calls of `alloc_region`.
pub record Pool : Type 0 where
  pub free_packets : List ℕ
  pub allocated_packets : List ℕ
  pub made : ℕ

-- What the driver has of the memory pool and of a packet buffer: the region that a call of
-- `alloc_region` gives, `get_absolute_address(0)` and `size` of a region, and `pkt[:length]`.
pub record Memory : Type 0 where
  pub region : ℕ → ℕ
  pub address : ℕ → ℕ
  pub size : ℕ → ℕ
  pub contents : ℕ → ℕ → List ℕ

-- `pkt in self.allocated_packets`
abbrev pub contains : List ℕ → ℕ → Bool
contains [] p = false
contains (x ∷ xs) p = (x == p) || contains xs p

-- The values of a descriptor that `pack_into` writes.
pub record Desc : Type 0 where
  pub length : ℕ
  pub addr : ℕ

-- `Sq` or `Rq`. `size` is a power of two; `info` is `tx_info` or `rx_info`. `doorbells` is what has been
-- written to the register at `db_offset`, the last one first.
pub record Ring : Type 0 where
  pub log_size : ℕ
  pub info : List (Option ℕ)
  pub buf : List Desc
  pub prod_ptr : ℕ
  pub cons_ptr : ℕ
  pub doorbells : List ℕ

-- The state that `open` gives a ring of `2 ** log_size` slots.
abbrev pub opened : ℕ → Ring
opened log_size = record {
  log_size = log_size;
  info = replicate (2 ^ log_size) none;
  buf = replicate (2 ^ log_size) (record { length = 0; addr = 0 });
  prod_ptr = 0;
  cons_ptr = 0;
  doorbells = [];
}

-- The words of a completion, `<LLLL`.
pub record Cqe : Type 0 where
  pub word_0 : ℕ
  pub word_1 : ℕ
  pub word_2 : ℕ
  pub word_3 : ℕ

pub record Cq : Type 0 where
  pub log_size : ℕ
  pub cons_ptr : ℕ
  pub buf : List Cqe
  pub doorbells : List ℕ

-- `ptr & size_mask`
abbrev pub slot : ℕ → ℕ → ℕ
slot log_size ptr = low_bits ptr log_size

module _ (m : Memory) where
  unfoldable pub alloc_pkt : Pool → ℕ × Pool
  alloc_pkt p = elim p.free_packets [
    | [] ↦ (
      m.region p.made,
      record p {
        allocated_packets = p.allocated_packets ++ (m.region p.made ∷ []);
        made = p.made + 1;
      },
    )
    | pkt ∷ rest ↦ (pkt, record p { free_packets = rest })
  ]

-- `none` is AssertionError.
unfoldable pub free_pkt : Pool → Option ℕ → Option Pool
free_pkt p none = none
free_pkt p (some pkt) =
    if contains p.allocated_packets pkt
    then some (record p { free_packets = p.free_packets ++ (pkt ∷ []) })
    else none

-- `info[index]`, which is in range: the index is masked.
abbrev pub info_at : List (Option ℕ) → ℕ → Option ℕ
info_at info index = elim (get_elem? info index) [ none ↦ none | some pkt ↦ pkt ]

unfoldable pub is_ring_empty : Ring → Bool
is_ring_empty r = r.prod_ptr == r.cons_ptr

unfoldable pub is_ring_full : Ring → Bool
is_ring_full r = ltb (2 ^ r.log_size) (sub_wrap r.prod_ptr r.cons_ptr 32)

unfoldable pub write_prod_ptr : Ring → Ring
write_prod_ptr r = record r { doorbells = low_bits r.prod_ptr 16 ∷ r.doorbells }

-- `free_tx_desc` of `Sq` and `free_rx_desc` of `Rq`.
unfoldable pub free_desc : ℕ → Ring × Pool → Option (Ring × Pool)
free_desc index (r, p) = elim (free_pkt p (info_at r.info index)) [
  | none ↦ none
  | some p' ↦ some (record r { info = set r.info index none }, p')
]

-- `free_tx_buf` and `free_rx_buf`. A round takes the ring nearer to empty, so that the distance of the
-- pointers and one round more are enough fuel.
unfoldable pub free_rounds : ℕ → Ring × Pool → Result (Ring × Pool)
free_rounds zero s = Result.stuck
free_rounds (suc fuel) (r, p) =
    if is_ring_empty r
    then returns (r, p)
    else elim (free_desc (slot r.log_size r.cons_ptr) (r, p)) [
      | none ↦ raises
      | some (r', p') ↦ free_rounds fuel (record r' { cons_ptr = r'.cons_ptr + 1 }, p')
    ]

unfoldable pub free_buf : Ring × Pool → Result (Ring × Pool)
free_buf (r, p) = free_rounds (r.prod_ptr - r.cons_ptr + 1) (r, p)

-- A packet into the slot `index`, with the values of its descriptor.
abbrev pub put_desc : ℕ → ℕ → Desc → Ring → Ring
put_desc index pkt d r = record r {
  info = set r.info index (some pkt);
  buf = set r.buf index d;
  prod_ptr = r.prod_ptr + 1;
}

module _ (m : Memory) where
  -- `Sq.start_xmit` of `len(data)` bytes, which are written to the packet at 10.
  unfoldable pub start_xmit : ℕ → Ring × Pool → Ring × Pool
  start_xmit length (r, p) =
      let pkt = (alloc_pkt m p).0 in
      (
        write_prod_ptr (
            put_desc (slot r.log_size r.prod_ptr) pkt
              (record { length = length; addr = m.address pkt + 10 }) r),
        (alloc_pkt m p).1,
      )

  -- `Rq.prepare_rx_desc`, and the step of `prod_ptr`.
  unfoldable pub prepare_rx_desc : Ring × Pool → Ring × Pool
  prepare_rx_desc (r, p) =
      let pkt = (alloc_pkt m p).0 in
      (
        put_desc (slot r.log_size r.prod_ptr) pkt
            (record { length = m.size pkt; addr = m.address pkt }) r,
        (alloc_pkt m p).1,
      )

  unfoldable pub prepare_all : ℕ → Ring × Pool → Ring × Pool
  prepare_all zero s = s
  prepare_all (suc missing) s = prepare_all missing (prepare_rx_desc s)

  -- `size - (prod_ptr - cons_ptr)`, at 0 where that is negative.
  abbrev pub missing : Ring → ℕ
  missing r = 2 ^ r.log_size + r.cons_ptr - r.prod_ptr

  unfoldable pub refill_rx_buffers : Ring × Pool → Ring × Pool
  refill_rx_buffers (r, p) =
      if ltb (missing r) 8
      then (r, p)
      else (let s = prepare_all (missing r) (r, p) in (write_prod_ptr s.0, s.1))

-- `write_cons_ptr_arm`; bit 31 is clear in the pointer's low half.
unfoldable pub write_cons_ptr_arm : Cq → Cq
write_cons_ptr_arm cq = record cq {
  doorbells = (low_bits cq.cons_ptr 16 + 0x80000000) ∷ cq.doorbells;
}

-- The completion in the slot of a pointer, and whether it is one of this pass over the queue.
abbrev pub entry_at : List Cqe → ℕ → Cqe
entry_at buf index = elim (get_elem? buf index) [
  | none ↦ record { word_0 = 0; word_1 = 0; word_2 = 0; word_3 = 0 }
  | some e ↦ e
]

abbrev pub entry : Cq → ℕ → Cqe
entry cq ptr = entry_at cq.buf (slot cq.log_size ptr)

abbrev pub differs : Bool → Bool → Bool
differs true b = not b
differs false b = b

unfoldable pub is_new : Cq → ℕ → Bool
is_new cq ptr = differs (test_bit (entry cq ptr).word_3 31) (test_bit ptr cq.log_size)

-- The loop body of `process_tx_cq`, on `cons_ptr`, the ring and the pool.
unfoldable pub tx_round : ℕ × Ring × Pool → Option (ℕ × Ring × Pool)
tx_round (ptr, r, p) = elim (free_desc (slot r.log_size ptr) (r, p)) [
  | none ↦ none
  | some (r', p') ↦ some (ptr + 1, r', p')
]

-- The pointers behind the loop of `process_tx_cq`.
abbrev pub tx_done : Cq → Result (ℕ × (ℕ × Ring × Pool)) → Result (Cq × Ring × Pool)
tx_done cq (returns (cq_ptr, (ptr, r, p))) =
    returns (write_cons_ptr_arm (record cq { cons_ptr = cq_ptr }), record r { cons_ptr = ptr }, p)
tx_done cq raises = raises
tx_done cq Result.stuck = Result.stuck

-- `2 ** log_size + 1` rounds are enough: after one pass over the queue the phase has changed.
unfoldable pub process_tx_cq : Cq → Ring → Pool → Result (Cq × Ring × Pool)
process_tx_cq cq r p =
    tx_done cq
      (scan (is_new cq) (λ ptr s. tx_round s) (2 ^ cq.log_size + 1) cq.cons_ptr (r.cons_ptr, r, p))

module _ (m : Memory) where
  -- The loop body of `process_rx_cq`, with `rx_queue` of the port. `pkt[:length]` on None raises TypeError.
  unfoldable pub rx_round :
      Cq → ℕ → ℕ × Ring × Pool × List (List ℕ) → Option (ℕ × Ring × Pool × List (List ℕ))
  rx_round cq cq_ptr (ptr, r, p, queue) = elim (info_at r.info (slot r.log_size ptr)) [
    | none ↦ none
    | some pkt ↦ elim (free_desc (slot r.log_size ptr) (r, p)) [
      | none ↦ none
      | some (r', p') ↦
          some (ptr + 1, r', p', queue ++ (m.contents pkt (entry cq cq_ptr).word_1 ∷ []))
    ]
  ]

  -- The pointers behind the loop of `process_rx_cq`, and its last two calls.
  abbrev pub rx_done :
      Cq
      → Result (ℕ × (ℕ × Ring × Pool × List (List ℕ)))
      → Result (Cq × Ring × Pool × List (List ℕ))
  rx_done cq (returns (cq_ptr, (ptr, r, p, queue))) =
      let s = refill_rx_buffers m (record r { cons_ptr = ptr }, p) in
      returns (write_cons_ptr_arm (record cq { cons_ptr = cq_ptr }), s.0, s.1, queue)
  rx_done cq raises = raises
  rx_done cq Result.stuck = Result.stuck

  unfoldable pub process_rx_cq :
      Cq → Ring → Pool → List (List ℕ) → Result (Cq × Ring × Pool × List (List ℕ))
  process_rx_cq cq r p queue =
      rx_done cq
        (scan (is_new cq) (rx_round cq) (2 ^ cq.log_size + 1) cq.cons_ptr (r.cons_ptr, r, p, queue))
