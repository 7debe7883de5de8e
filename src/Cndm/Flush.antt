-- ===== src/Cndm/Flush.antt =====
-- `free_tx_buf` and `free_rx_buf` of the driver model (src/cndm/tb/cndm.py).
use taxi.Prelude.{
  ℕ, zero, suc, ◌+◌, ◌-◌, ◌<◌, ◌≡◌, refl, ap, ◌∙◌, subst, true, false, Option, some, List, [], ◌∷◌,
  arith,
}
use taxi.Cndm.{Ring, Pool, slot, info_at, is_ring_empty, free_desc, free_rounds, free_buf}
use taxi.Cndm.Scan.{returns}
use taxi.Cndm.Refill.{Held}
use taxi.Cndm.Drain.{
  taken, freed, packet_of, emptied, take-Held, Drained, none-Drained, more-Drained,
}

is_ring_empty-true : (r : Ring) → r.prod_ptr ≡ r.cons_ptr → is_ring_empty r ≡ true
unfolding is_ring_empty
is_ring_empty-true r e = ground (arith, e)

is_ring_empty-false : (r : Ring) → r.cons_ptr < r.prod_ptr → is_ring_empty r ≡ false
unfolding is_ring_empty
is_ring_empty-false r e = ground (arith, e)

free_rounds_end :
    (fuel : ℕ) (r : Ring) (p : Pool)
    → is_ring_empty r ≡ true
    → free_rounds (suc fuel) (r, p) ≡ returns (r, p)
unfolding free_rounds
free_rounds_end fuel r p e = rw e refl

free_rounds_more :
    (fuel : ℕ) (r r' : Ring) (p p' : Pool)
    → is_ring_empty r ≡ false
    → free_desc (slot r.log_size r.cons_ptr) (r, p) ≡ some (r', p')
    → free_rounds (suc fuel) (r, p)
      ≡ free_rounds fuel (record r' { cons_ptr = r'.cons_ptr + 1 }, p')
unfolding free_rounds
free_rounds_more fuel r r' p p' e f = rw (e, f, free_rounds) refl

module _ (others : ℕ → ℕ) where
  free_rounds_all :
      (n : ℕ) (r : Ring) (p : Pool)
      → Held others r p r.cons_ptr
      → r.cons_ptr + n ≡ r.prod_ptr
      → (left : List (Option ℕ)) × ((free_rounds (suc n) (r, p)
            ≡ returns (
              record r { info = left; cons_ptr = r.cons_ptr + n },
              freed (taken r.info r.log_size n r.cons_ptr) p,
            ))
          × Drained others n r p r.cons_ptr left)
  free_rounds_all zero r p h l =
      let ends = none-Drained others r p r.cons_ptr h in
      (
        r.info,
        (
          free_rounds_end 0 r p (is_ring_empty-true r (omega (arith, l)))
              ∙ (λ i. returns (record r { cons_ptr = ends.1.0 i }, ends.0 i)),
          ends.1.1,
        ),
      )
  free_rounds_all (suc n) r p h l =
      let i : ℕ = slot r.log_size r.cons_ptr in
      let pkt : ℕ = packet_of (info_at r.info i) in
      let one = take-Held others r p r.cons_ptr h (omega (arith, l)) in
      let r' : Ring = record (emptied i r) { cons_ptr = r.cons_ptr + 1 } in
      let rest = free_rounds_all n r' (freed (pkt ∷ []) p) one.1.1 (omega (arith, l)) in
      let ring = h.0 in
      let all =
        more-Drained others n r p r.cons_ptr rest.0 (omega (arith, ring.fits, l)) rest.1.1 in
      let far : r.cons_ptr + 1 + n ≡ r.cons_ptr + suc n = omega arith in
      (
        rest.0,
        (
          free_rounds_more (suc n) r (emptied i r) p (freed (pkt ∷ []) p)
                (is_ring_empty-false r (omega (arith, l))) one.1.0
              ∙ (rest.1.0 ∙ λ j. returns (record r { info = rest.0; cons_ptr = far j }, all.0 j)),
          all.1,
        ),
      )

  -- The loop ends: all the packets of the ring go to the free list in order, and the ring is empty and keeps
  -- its invariant.
  pub free_buf_lem :
      (r : Ring) (p : Pool)
      → Held others r p r.cons_ptr
      → let n = r.prod_ptr - r.cons_ptr in
        let p' = freed (taken r.info r.log_size n r.cons_ptr) p in
        (left : List (Option ℕ)) × ((free_buf (r, p)
            ≡ returns (record r { info = left; cons_ptr = r.prod_ptr }, p'))
          × Held others (record r { info = left; cons_ptr = r.prod_ptr }) p' r.prod_ptr)
  unfolding free_buf
  free_buf_lem r p h =
      let ring = h.0 in
      let all = free_rounds_all (r.prod_ptr - r.cons_ptr) r p h (omega (arith, ring.order)) in
      let there : r.cons_ptr + (r.prod_ptr - r.cons_ptr) ≡ r.prod_ptr = omega (arith, ring.order) in
      let fuel : r.prod_ptr - r.cons_ptr + 1 ≡ suc (r.prod_ptr - r.cons_ptr) = omega arith in
      let p' : Pool = freed (taken r.info r.log_size (r.prod_ptr - r.cons_ptr) r.cons_ptr) p in
      (
        all.0,
        (
          ap (λ (f : ℕ). free_rounds f (r, p)) fuel
              ∙ (all.1.0
                  ∙ ap (λ (c : ℕ). returns (record r { info = all.0; cons_ptr = c }, p')) there),
          subst (λ (c : ℕ). Held others (record r { info = all.0 }) p' c) there all.1.1,
        ),
      )
