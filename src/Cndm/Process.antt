-- ===== src/Cndm/Process.antt =====
-- What the handlers of the completion queues do (src/cndm/tb/cndm.py): `process_tx_cq` and `process_rx_cq`.
use taxi.Prelude.{
  ℕ, ◌+◌, ◌^◌, ◌≤◌, ◌<◌, ◌≡◌, sym, ap, ◌∙◌, true, false, not, Bool-cases, inl, inr, leb, leb→le,
  List, Option, ◌++◌, arith,
}
use taxi.Cndm.{
  Ring, Pool, Memory, Cq, write_cons_ptr_arm, is_new, missing, refill_rx_buffers, tx_round,
  rx_round, tx_done, rx_done, process_tx_cq, process_rx_cq,
}
use taxi.Cndm.Scan.{returns, scan-rounds}
use taxi.Cndm.Phase.{is_new_next}
use taxi.Cndm.Refill.{Held, refill_rx_buffers-Held}
use taxi.Cndm.Drain.{taken, received, freed, tx_rounds, rx_rounds}

-- The first `n` completions from the consumer's are new, and the next is not.
pub record New (cq : Cq) (n : ℕ) : Type 0 where
  pub new : (j : ℕ) → j < n → is_new cq (cq.cons_ptr + j) ≡ true
  pub last : is_new cq (cq.cons_ptr + n) ≡ false

New-le : (cq : Cq) (n : ℕ) → New cq n → n ≤ 2 ^ cq.log_size
New-le cq n h = elim (Bool-cases (leb n (2 ^ cq.log_size))) [
  | inl e ↦ leb→le n (2 ^ cq.log_size) e
  | inr e ↦
      (let more : 2 ^ cq.log_size < n = ground (arith, e) in
        let here : cq.cons_ptr + 0 ≡ cq.cons_ptr = omega arith in
        let first : is_new cq cq.cons_ptr ≡ true =
          ap (is_new cq) (sym here) ∙ h.new 0 (omega (arith, more)) in
        absurd (
          ground (
            arith,
            sym (h.new (2 ^ cq.log_size) more) ∙ (is_new_next cq cq.cons_ptr ∙ ap not first),
          )))
]

module _ (others : ℕ → ℕ) (cq : Cq) (r : Ring) (p : Pool) (n : ℕ) where
  -- Where `n` completions are new and the ring holds that many packets, the packets of the next `n` slots go to
  -- the free list in order, both consumer pointers move by `n`, the register is written once, and the ring and
  -- the pool keep their invariant.
  pub process_tx_cq_lem :
      Held others r p r.cons_ptr
      → New cq n
      → r.cons_ptr + n ≤ r.prod_ptr
      → (left : List (Option ℕ)) × (let r' = record r { info = left; cons_ptr = r.cons_ptr + n } in
          let p' = freed (taken r.info r.log_size n r.cons_ptr) p in
          let cq' = write_cons_ptr_arm (record cq { cons_ptr = cq.cons_ptr + n }) in
          (process_tx_cq cq r p ≡ returns (cq', r', p')) × Held others r' p' r'.cons_ptr)
  unfolding process_tx_cq
  process_tx_cq_lem h new l =
      let all = tx_rounds others cq n r p r.cons_ptr cq.cons_ptr h l in
      let le = New-le cq n new in
      (
        all.0,
        (
          ap (tx_done cq) (
              scan-rounds (is_new cq) (λ ptr s. tx_round s) n (2 ^ cq.log_size + 1) cq.cons_ptr _ _
                (omega (arith, le)) new.new new.last all.1.0),
          all.1.1,
        ),
      )

  -- Where `n` completions are new and the ring holds that many packets, the packets of the next `n` slots are
  -- received in order, each of the length in its completion, both consumer pointers move by `n`, the register
  -- of the completion queue is written once, and the ring and the pool keep their invariant, with less than
  -- eight packets missing.
  pub process_rx_cq_lem :
      (m : Memory) (queue : List (List ℕ))
      → Held others r p r.cons_ptr
      → New cq n
      → r.cons_ptr + n ≤ r.prod_ptr
      → let pkts = taken r.info r.log_size n r.cons_ptr in
        let cq' = write_cons_ptr_arm (record cq { cons_ptr = cq.cons_ptr + n }) in
        (s : Ring × Pool) × ((process_rx_cq m cq r p queue
            ≡ returns (cq', s.0, s.1, queue ++ received m cq cq.cons_ptr pkts))
          × (Held others s.0 s.1 s.0.cons_ptr
              × ((s.0.cons_ptr ≡ r.cons_ptr + n) × (missing m s.0 < 8))))
  unfolding process_rx_cq
  process_rx_cq_lem m queue h new l =
      let all = rx_rounds others m cq n r p r.cons_ptr cq.cons_ptr queue h l in
      let le = New-le cq n new in
      let r' : Ring = record r { info = all.0; cons_ptr = r.cons_ptr + n } in
      let p' : Pool = freed (taken r.info r.log_size n r.cons_ptr) p in
      let more = refill_rx_buffers-Held m others r' p' all.1.1 in
      (
        refill_rx_buffers m (r', p'),
        (
          ap (rx_done m cq) (
              scan-rounds (is_new cq) (rx_round m cq) n (2 ^ cq.log_size + 1) cq.cons_ptr _ _
                (omega (arith, le)) new.new new.last all.1.0),
          (more.0, (more.1.0, more.1.1)),
        ),
      )
