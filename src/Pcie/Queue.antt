-- ===== src/Pcie/Queue.antt =====
-- `send_nowait` and `full` of the source of src/pcie/tb/pcie_if.py.
use taxi.Prelude.{
  ℕ, ◌+◌, ◌<◌, ◌≡◌, refl, sym, ap, ◌∙◌, true, false, Bool-cases, ◌&&◌, ◌||◌, ltb, ◌⊎◌, inl, inr,
  none, some, List, [], ◌∷◌, ◌++◌, append_assoc, map, map-append, length, length-append, All-append,
  arith,
}
use taxi.Pcie.{PcieIfFrame, Interface}
use taxi.Pcie.Send.{PcieIfSource, full, send_nowait}
use taxi.Pcie.Receive.{PcieIfSink}
use taxi.Pcie.Arrival.{arrived, Ready}
use taxi.Pcie.Segments.{pending}
use taxi.Pcie.Link.{size, Counted, Link, through}

-- The queue is over a limit that is set.
abbrev pub Over : PcieIfSource → Type 0
Over s =
    ((0 < s.queue_occupancy_limit_bytes) × (s.queue_occupancy_limit_bytes < size s.queue))
    ⊎ ((0 < s.queue_occupancy_limit_frames) × (s.queue_occupancy_limit_frames < length s.queue))

size-append : (p q : List PcieIfFrame) → size (p ++ q) ≡ size p + size q
size-append [] q = omega arith
size-append (f ∷ p) q = omega (arith, size-append p q)

limits_hold :
    (l n m k : ℕ)
    → (ltb 0 l && ltb l n) || (ltb 0 m && ltb m k) ≡ true
    → ((0 < l) × (l < n)) ⊎ ((0 < m) × (m < k))
limits_hold l n m k e = ground arith

limits_broken :
    (l n m k : ℕ)
    → (ltb 0 l && ltb l n) || (ltb 0 m && ltb m k) ≡ false
    → ¬ (((0 < l) × (l < n)) ⊎ ((0 < m) × (m < k)))
limits_broken l n m k e h = elim h [ inl a ↦ ground arith | inr a ↦ ground arith ]

queued : PcieIfFrame → PcieIfSource → PcieIfSource
queued frame s = record s {
  queue = s.queue ++ (frame ∷ []);
  queue_occupancy_bytes = s.queue_occupancy_bytes + length frame.dwords;
  queue_occupancy_frames = s.queue_occupancy_frames + 1;
}

send_nowait-full : (f : PcieIfFrame) (s : PcieIfSource) → full s ≡ true → send_nowait f s ≡ none
unfolding send_nowait
send_nowait-full f s e = rw e refl

send_nowait-queued :
    (f : PcieIfFrame) (s : PcieIfSource) → full s ≡ false → send_nowait f s ≡ some (queued f s)
unfolding send_nowait queued
send_nowait-queued f s e = rw e refl

full-Over : (s : PcieIfSource) → Counted s → full s ≡ true → Over s
unfolding full
full-Over s h e =
    limits_hold s.queue_occupancy_limit_bytes (size s.queue) s.queue_occupancy_limit_frames
      (length s.queue) (rw (sym h.0, sym h.1) e)

full-not-Over : (s : PcieIfSource) → Counted s → full s ≡ false → ¬ Over s
unfolding full
full-not-Over s h e =
    limits_broken s.queue_occupancy_limit_bytes (size s.queue) s.queue_occupancy_limit_frames
      (length s.queue) (rw (sym h.0, sym h.1) e)

queued-Counted : (f : PcieIfFrame) (s : PcieIfSource) → Counted s → Counted (queued f s)
unfolding queued
queued-Counted f s h = (
  omega (arith, h.0, size-append s.queue (f ∷ [])),
  omega (arith, h.1, length-append s.queue (f ∷ [])),
)

queued-Link :
    (c : Interface) (f : PcieIfFrame) (s : PcieIfSource) (r : PcieIfSink)
    → Link c s r
    → Ready c f
    → Link c (queued f s) r
unfolding queued
queued-Link c f s r l ready =
    (l.0, (All-append (Ready c) s.queue (f ∷ []) l.1.0 (ready, tt), queued-Counted f s l.1.1))

through-queued :
    (c : Interface) (f : PcieIfFrame) (s : PcieIfSource) (r : PcieIfSink)
    → through c (queued f s) r ≡ through c s r ++ (arrived c f ∷ [])
unfolding queued
through-queued c f s r =
    let waiting = map (arrived c) s.queue in
    let more : map (arrived c) (s.queue ++ (f ∷ [])) ≡ waiting ++ (arrived c f ∷ []) =
      map-append (arrived c) s.queue (f ∷ []) in
    ap (λ (q : List PcieIfFrame). r.queue ++ (pending c s.sending ++ q)) more
    ∙ (ap (λ (q : List PcieIfFrame). r.queue ++ q)
          (sym (append_assoc (pending c s.sending) waiting (arrived c f ∷ [])))
        ∙ sym (append_assoc r.queue (pending c s.sending ++ waiting) (arrived c f ∷ [])))

-- Where source and sink are in step, with the source's counts those of its queue, and the frame fits the
-- interface with a header that gives its length: QueueFull is raised exactly if the dwords of the queue are more
-- than their limit or its frames more than theirs, where the limit is positive. Else the frame is queued, and
-- comes last of those that arrive; source and sink are in step again, the counts too.
pub send_nowait-Link :
    (c : Interface) (f : PcieIfFrame) (s : PcieIfSource) (r : PcieIfSink)
    → Link c s r
    → Ready c f
    → (Over s × (send_nowait f s ≡ none))
      ⊎ ((¬ Over s)
          × ((s' : PcieIfSource) × ((send_nowait f s ≡ some s')
                × (Link c s' r × (through c s' r ≡ through c s r ++ (arrived c f ∷ []))))))
send_nowait-Link c f s r l ready = elim (Bool-cases (full s)) [
  | inl t ↦ inl (full-Over s l.1.1 t, send_nowait-full f s t)
  | inr t ↦ inr (
    full-not-Over s l.1.1 t,
    (queued f s, (send_nowait-queued f s t, (queued-Link c f s r l ready, through-queued c f s r))),
  )
]
