-- ===== src/Cndm/Drain.antt =====
-- Completions empty the slots of a ring in order (src/cndm/tb/cndm.py): the loops of `process_tx_cq` and
-- `process_rx_cq`.
use taxi.Prelude.{
  ℕ, zero, suc, ◌+◌, ◌^◌, ◌≤◌, ◌<◌, ◌≡◌, refl, sym, ap, subst, ◌∙◌, Option, none, some, List, [],
  ◌∷◌, ◌++◌, append_assoc, append-nil, set, arith,
}
use taxi.Cndm.{Ring, Pool, Memory, Cq, slot, info_at, free_desc, entry, is_new, tx_round, rx_round}
use taxi.Cndm.Scan.{rounds, rounds_more}
use taxi.Cndm.Slots.{slot_ne, take-IsRing, info_at-set_ne}
use taxi.Cndm.Account.{free_desc_lem, free_desc-Account}
use taxi.Cndm.Refill.{Held}

abbrev pub packet_of : Option ℕ → ℕ
packet_of none = 0
packet_of (some pkt) = pkt

-- The packets of `n` slots from a pointer.
abbrev pub taken : List (Option ℕ) → ℕ → ℕ → ℕ → List ℕ
taken info k zero ptr = []
taken info k (suc n) ptr = packet_of (info_at info (slot k ptr)) ∷ taken info k n (ptr + 1)

-- What packets hold, of the lengths that their completions give.
abbrev pub received : Memory → Cq → ℕ → List ℕ → List (List ℕ)
received m cq cq_ptr [] = []
received m cq cq_ptr (pkt ∷ pkts) =
    m.contents pkt (entry cq cq_ptr).word_1 ∷ received m cq (cq_ptr + 1) pkts

abbrev pub emptied : ℕ → Ring → Ring
emptied index r = record r { info = set r.info index none }

abbrev pub freed : List ℕ → Pool → Pool
freed pkts p = record p { free_packets = p.free_packets ++ pkts }

taken-set :
    (info : List (Option ℕ)) (k n c ptr : ℕ)
    → c < ptr
    → ptr + n ≤ c + 2 ^ k
    → taken (set info (slot k c) none) k n ptr ≡ taken info k n ptr
taken-set info k zero c ptr h l = refl
taken-set info k (suc n) c ptr h l =
    let here =
      info_at-set_ne info (slot k c) (slot k ptr) none (slot_ne k c ptr h (omega (arith, l))) in
    let rest = taken-set info k n c (ptr + 1) (omega (arith, h)) (omega (arith, l)) in
    λ i. packet_of (here i) ∷ rest i

module _ (others : ℕ → ℕ) where
  -- The packet in the consumer's slot goes to the free list.
  pub take-Held :
      (r : Ring) (p : Pool) (ptr : ℕ)
      → Held others r p ptr
      → ptr < r.prod_ptr
      → let i = slot r.log_size ptr in
        let pkt = packet_of (info_at r.info i) in
        (info_at r.info i ≡ some pkt)
        × ((free_desc i (r, p) ≡ some (emptied i r, freed (pkt ∷ []) p))
            × Held others (emptied i r) (freed (pkt ∷ []) p) (ptr + 1))
  take-Held r p ptr h l =
      let i : ℕ = slot r.log_size ptr in
      let ring = h.0 in
      let held = ring.held ptr (omega arith) l in
      let full : info_at r.info i ≡ some (packet_of (info_at r.info i)) =
        held.1 ∙ ap some (sym (ap packet_of held.1)) in
      (
        full,
        (
          free_desc_lem others i _ r p h.1 full,
          (
            take-IsRing r.log_size r.info r.prod_ptr ptr ring l,
            free_desc-Account others i _ r.info p h.1 full,
          ),
        ),
      )

  -- What a loop over `n` completions leaves of the ring and the pool: the `info` list is `left`.
  abbrev pub Drained : ℕ → Ring → Pool → ℕ → List (Option ℕ) → Type 0
  Drained n r p ptr left =
      Held others (record r { info = left }) (freed (taken r.info r.log_size n ptr) p) (ptr + n)

  pub more-Drained :
      (n : ℕ) (r : Ring) (p : Pool) (ptr : ℕ) (left : List (Option ℕ))
      → ptr + suc n ≤ ptr + 2 ^ r.log_size
      → let i = slot r.log_size ptr in
        let pkt = packet_of (info_at r.info i) in
        Drained n (emptied i r) (freed (pkt ∷ []) p) (ptr + 1) left
        → (freed (taken (emptied i r).info r.log_size n (ptr + 1)) (freed (pkt ∷ []) p)
            ≡ freed (taken r.info r.log_size (suc n) ptr) p)
          × Drained (suc n) r p ptr left
  more-Drained n r p ptr left l h =
      let i : ℕ = slot r.log_size ptr in
      let pkt : ℕ = packet_of (info_at r.info i) in
      let later = taken-set r.info r.log_size n ptr (ptr + 1) (omega arith) (omega (arith, l)) in
      let far : ptr + 1 + n ≡ ptr + suc n = omega arith in
      let all : freed (taken (emptied i r).info r.log_size n (ptr + 1)) (freed (pkt ∷ []) p)
          ≡ freed (taken r.info r.log_size (suc n) ptr) p =
        ap (λ (fs : List ℕ). record p { free_packets = fs })
          (append_assoc p.free_packets (pkt ∷ []) _
            ∙ ap (λ (t : List ℕ). p.free_packets ++ (pkt ∷ t)) later) in
      (
        all,
        subst
            (λ (x : ℕ).
              Held others (record r { info = left }) (freed (taken r.info r.log_size (suc n) ptr) p)
                x)
            far
            (subst (λ (x : Pool). Held others (record r { info = left }) x (ptr + 1 + n)) all h),
      )

  pub none-Drained :
      (r : Ring) (p : Pool) (ptr : ℕ)
      → Held others r p ptr
      → (p ≡ freed [] p) × ((ptr ≡ ptr + 0) × Drained 0 r p ptr r.info)
  none-Drained r p ptr h =
      let here : ptr ≡ ptr + 0 = omega arith in
      let all : p ≡ freed [] p =
        ap (λ (fs : List ℕ). record p { free_packets = fs }) (sym (append-nil p.free_packets)) in
      (
        all,
        (
          here,
          subst (λ (x : ℕ). Held others r (freed [] p) x) here
              (subst (λ (x : Pool). Held others r x ptr) all h),
        ),
      )

  module _ (cq : Cq) where
    tx_step :
        (r : Ring) (p : Pool) (ptr : ℕ)
        → Held others r p ptr
        → ptr < r.prod_ptr
        → let i = slot r.log_size ptr in
          tx_round (ptr, r, p)
          ≡ some (ptr + 1, emptied i r, freed (packet_of (info_at r.info i) ∷ []) p)
    unfolding tx_round
    tx_step r p ptr h l = let one = take-Held r p ptr h l in rw (one.1.0, tx_round) refl

    -- The packets of the completed slots go to the free list, in order.
    pub tx_rounds :
        (n : ℕ) (r : Ring) (p : Pool) (ptr cq_ptr : ℕ)
        → Held others r p ptr
        → ptr + n ≤ r.prod_ptr
        → (left : List (Option ℕ)) × ((rounds (λ (i : ℕ) s. tx_round s) n cq_ptr (ptr, r, p)
              ≡ some (ptr + n, record r { info = left }, freed (taken r.info r.log_size n ptr) p))
            × Drained n r p ptr left)
    unfolding rounds
    tx_rounds zero r p ptr cq_ptr h l =
        let ends = none-Drained r p ptr h in
        (r.info, ((λ i. some (ends.1.0 i, r, ends.0 i)), ends.1.1))
    tx_rounds (suc n) r p ptr cq_ptr h l =
        let i : ℕ = slot r.log_size ptr in
        let pkt : ℕ = packet_of (info_at r.info i) in
        let one = take-Held r p ptr h (omega (arith, l)) in
        let rest =
          tx_rounds n (emptied i r) (freed (pkt ∷ []) p) (ptr + 1) (cq_ptr + 1) one.1.1
            (omega (arith, l)) in
        let ring = h.0 in
        let all = more-Drained n r p ptr rest.0 (omega (arith, ring.fits, l)) rest.1.1 in
        let far : ptr + 1 + n ≡ ptr + suc n = omega arith in
        (
          rest.0,
          (
            rounds_more (is_new cq) (λ (i : ℕ) s. tx_round s) n cq_ptr _ _
                  (tx_step r p ptr h (omega (arith, l)))
                ∙ (rest.1.0 ∙ λ j. some (far j, record r { info = rest.0 }, all.0 j)),
            all.1,
          ),
        )

  module _ (m : Memory) (cq : Cq) where
    rx_step :
        (r : Ring) (p : Pool) (ptr cq_ptr : ℕ) (queue : List (List ℕ))
        → Held others r p ptr
        → ptr < r.prod_ptr
        → let i = slot r.log_size ptr in
          let pkt = packet_of (info_at r.info i) in
          rx_round m cq cq_ptr (ptr, r, p, queue)
          ≡ some
              (ptr + 1, emptied i r, freed (pkt ∷ []) p, queue ++ received m cq cq_ptr (pkt ∷ []))
    unfolding rx_round
    rx_step r p ptr cq_ptr queue h l =
        let one = take-Held r p ptr h l in rw (one.0, one.1.0, rx_round) refl

    -- The packets are received in order, and go to the free list.
    pub rx_rounds :
        (n : ℕ) (r : Ring) (p : Pool) (ptr cq_ptr : ℕ) (queue : List (List ℕ))
        → Held others r p ptr
        → ptr + n ≤ r.prod_ptr
        → let pkts = taken r.info r.log_size n ptr in
          (left : List (Option ℕ)) × ((rounds (rx_round m cq) n cq_ptr (ptr, r, p, queue)
              ≡ some (
                ptr + n,
                record r { info = left },
                freed pkts p,
                queue ++ received m cq cq_ptr pkts,
              ))
            × Drained n r p ptr left)
    unfolding rounds
    rx_rounds zero r p ptr cq_ptr queue h l =
        let ends = none-Drained r p ptr h in
        let more : queue ≡ queue ++ [] = sym (append-nil queue) in
        (r.info, ((λ i. some (ends.1.0 i, r, ends.0 i, more i)), ends.1.1))
    rx_rounds (suc n) r p ptr cq_ptr queue h l =
        let i : ℕ = slot r.log_size ptr in
        let pkt : ℕ = packet_of (info_at r.info i) in
        let one = take-Held r p ptr h (omega (arith, l)) in
        let rest =
          rx_rounds n (emptied i r) (freed (pkt ∷ []) p) (ptr + 1) (cq_ptr + 1)
            (queue ++ received m cq cq_ptr (pkt ∷ [])) one.1.1 (omega (arith, l)) in
        let ring = h.0 in
        let room : ptr + suc n ≤ ptr + 2 ^ r.log_size = omega (arith, ring.fits, l) in
        let all = more-Drained n r p ptr rest.0 room rest.1.1 in
        let later =
          taken-set r.info r.log_size n ptr (ptr + 1) (omega arith) (omega (arith, room)) in
        let far : ptr + 1 + n ≡ ptr + suc n = omega arith in
        let more =
          append_assoc queue (received m cq cq_ptr (pkt ∷ [])) _
          ∙ ap (λ (t : List ℕ). queue ++ received m cq cq_ptr (pkt ∷ t)) later in
        (
          rest.0,
          (
            rounds_more (is_new cq) (rx_round m cq) n cq_ptr _ _
                  (rx_step r p ptr cq_ptr queue h (omega (arith, l)))
                ∙ (rest.1.0 ∙ λ j. some (far j, record r { info = rest.0 }, all.0 j, more j)),
            all.1,
          ),
        )
