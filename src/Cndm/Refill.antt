-- ===== src/Cndm/Refill.antt =====
-- Packets go into a ring (src/cndm/tb/cndm.py): `start_xmit` and `refill_rx_buffers`.
use taxi.Prelude.{
  ℕ, zero, suc, ◌+◌, ◌-◌, ◌^◌, ◌≤◌, ◌<◌, ◌≡◌, refl, ap, Bool-cases, inl, inr, ltb, [], arith,
}
use taxi.Cndm.{
  Ring, Pool, Memory, Desc, slot, alloc_pkt, opened, put_desc, write_prod_ptr, start_xmit,
  prepare_rx_desc, prepare_all, missing, refill_rx_buffers,
}
use taxi.Cndm.Slots.{IsRing, slot-lt, opened-IsRing, put-IsRing}
use taxi.Cndm.Account.{Account, opened-Account, alloc_pkt-Account}

-- A ring and the pool, with the consumer at `ptr`.
abbrev pub Held : (ℕ → ℕ) → Ring → Pool → ℕ → Type 0
Held others r p ptr = IsRing r.log_size r.info r.prod_ptr ptr × Account others r.info p

pub opened-Held :
    (k made : ℕ)
    → Held (λ x. 0) (opened k) (record { free_packets = []; allocated_packets = []; made = made }) 0
opened-Held k made = (opened-IsRing k, opened-Account (2 ^ k) made)

module _ (m : Memory) (others : ℕ → ℕ) where
  put_desc-Held :
      (r : Ring) (p : Pool) (d : Desc)
      → Held others r p r.cons_ptr
      → r.prod_ptr < r.cons_ptr + 2 ^ r.log_size
      → Held others
          (put_desc (slot r.log_size r.prod_ptr) (alloc_pkt m p).0 d r)
          (alloc_pkt m p).1
          r.cons_ptr
  put_desc-Held r p d h l =
      let ring = h.0 in
      (
        put-IsRing r.log_size r.info r.prod_ptr r.cons_ptr ring (alloc_pkt m p).0 l,
        alloc_pkt-Account others m (slot r.log_size r.prod_ptr) r.info p h.1
            (ring.empty r.prod_ptr (omega arith) l)
            (omega (arith, slot-lt r.log_size r.prod_ptr, ring.slots)),
      )

  -- A packet that is sent into a ring that is not full keeps the invariant of the ring and the pool, and the
  -- ring holds one packet more.
  pub start_xmit-Held :
      (length : ℕ) (r : Ring) (p : Pool)
      → Held others r p r.cons_ptr
      → r.prod_ptr < r.cons_ptr + 2 ^ r.log_size
      → let s = start_xmit m length (r, p) in
        Held others s.0 s.1 s.0.cons_ptr
        × ((s.0.prod_ptr ≡ r.prod_ptr + 1) × (s.0.cons_ptr ≡ r.cons_ptr))
  unfolding start_xmit write_prod_ptr
  start_xmit-Held length r p h l = (
    put_desc-Held r p (record { length = length; addr = m.address (alloc_pkt m p).0 + 10 }) h l,
    (refl, refl),
  )

  prepare_all-Held :
      (n : ℕ) (r : Ring) (p : Pool)
      → Held others r p r.cons_ptr
      → r.prod_ptr + n ≤ r.cons_ptr + 2 ^ r.log_size
      → let s = prepare_all m n (r, p) in
        Held others s.0 s.1 s.0.cons_ptr
        × ((s.0.prod_ptr ≡ r.prod_ptr + n)
            × ((s.0.cons_ptr ≡ r.cons_ptr) × (s.0.log_size ≡ r.log_size)))
  unfolding prepare_all prepare_rx_desc
  prepare_all-Held zero r p h l = (h, (omega arith, (refl, refl)))
  prepare_all-Held (suc n) r p h l =
      let one =
        put_desc-Held r p
          (record { length = m.size (alloc_pkt m p).0; addr = m.address (alloc_pkt m p).0 }) h
          (omega (arith, l)) in
      let next = prepare_rx_desc m (r, p) in
      let rest = prepare_all-Held n next.0 next.1 one (omega (arith, l)) in
      (rest.0, (omega (arith, rest.1.0), (rest.1.1.0, rest.1.1.1)))

  -- A refill keeps the invariant of the ring and the pool and the consumer's pointer, and less than eight
  -- packets are missing behind it.
  pub refill_rx_buffers-Held :
      (r : Ring) (p : Pool)
      → Held others r p r.cons_ptr
      → let s = refill_rx_buffers m (r, p) in
        Held others s.0 s.1 s.0.cons_ptr × ((s.0.cons_ptr ≡ r.cons_ptr) × (missing m s.0 < 8))
  unfolding refill_rx_buffers write_prod_ptr
  refill_rx_buffers-Held r p h = elim (Bool-cases (ltb (missing m r) 8)) [
    | inl e ↦ rw e (h, (refl, ground (arith, e)))
    | inr e ↦
        (let ring = h.0 in
          let all = prepare_all-Held (missing m r) r p h (omega (arith, ring.fits)) in
          let full = prepare_all m (missing m r) (r, p) in
          let size : 2 ^ full.0.log_size ≡ 2 ^ r.log_size = ap (λ (k : ℕ). 2 ^ k) all.1.1.1 in
          let few : 2 ^ full.0.log_size + full.0.cons_ptr - full.0.prod_ptr < 8 =
            omega (arith, ring.fits, ring.order, all.1.0, all.1.1.0, size) in
          rw e (all.0, (all.1.1.0, few)))
  ]
