-- ===== src/Ptp/Clock/Drift.antt =====
-- The fraction of the period: over `drift_denom` edges the clock moves by `drift_num` more.
use taxi.Prelude.{ℕ, zero, suc, ◌+◌, ◌-◌, ◌*◌, ◌≤◌, ◌<◌, ◌≡◌, ap, ◌∙◌, arith, ◌==◌, if◌then◌else◌}
use taxi.Ptp.Clock.{Clock, tick}
use taxi.Ptp.Clock.Exact.{tod_fns, period, tick-tod_fns}

-- The clock after a number of edges.
abbrev pub ticks : ℕ → Clock → Clock
ticks zero c = c
ticks (suc n) c = ticks n (tick c)

-- What an edge leaves alone, and how it moves the counter.
record Steady (c d : Clock) : Type 0 where
  same_ns : d.period_ns ≡ c.period_ns
  same_fns : d.period_fns ≡ c.period_fns
  same_num : d.drift_num ≡ c.drift_num
  same_denom : d.drift_denom ≡ c.drift_denom

tick-Steady : (c : Clock) → Steady c (tick c)
unfolding tick
tick-Steady c = ground arith

drift_cnt-tick :
    (c : Clock)
    → 0 < c.drift_denom
    → (tick c).drift_cnt ≡ (if c.drift_cnt == 0 then c.drift_denom - 1 else c.drift_cnt - 1)
unfolding tick
drift_cnt-tick c h = ground arith

-- While the counter runs down there is no drift.
ticks_down :
    (n : ℕ) (c : Clock)
    → 0 < c.drift_denom
    → n ≤ c.drift_cnt
    → (tod_fns (ticks n c) ≡ tod_fns c + n * period c)
      × ((ticks n c).drift_cnt ≡ c.drift_cnt - n)
      × Steady c (ticks n c)
ticks_down zero c pos h = (omega arith, omega arith, omega arith)
ticks_down (suc n) c pos h =
    let steady = tick-Steady c in
    let counted = drift_cnt-tick c pos in
    let moved = tick-tod_fns c in
    let rest = ticks_down n (tick c) (ground arith) (ground arith) in
    (
      ground (arith, ap (λ (t : ℕ). n * t) steady.same_ns, ap (λ (t : ℕ). n * t) steady.same_fns),
      ground arith,
      ground arith,
    )

-- The edges behind the one at which the counter starts anew.
ticks_up :
    (n : ℕ) (c : Clock)
    → c.drift_cnt ≡ 0
    → n < c.drift_denom
    → (tod_fns (ticks (suc n) c) ≡ tod_fns c + suc n * period c + c.drift_num)
      × ((ticks (suc n) c).drift_cnt ≡ c.drift_denom - 1 - n)
ticks_up n c e h =
    let steady = tick-Steady c in
    let counted = drift_cnt-tick c (omega arith) in
    let moved = tick-tod_fns c in
    let rest = ticks_down n (tick c) (ground arith) (ground arith) in
    (
      ground (arith, ap (λ (t : ℕ). n * t) steady.same_ns, ap (λ (t : ℕ). n * t) steady.same_fns),
      ground arith,
    )

ticks-add : (n m : ℕ) (c : Clock) → ticks (n + m) c ≡ ticks m (ticks n c)
ticks-add zero m c = let e : 0 + m ≡ m = omega arith in rw e
ticks-add (suc n) m c =
    let e : suc n + m ≡ suc (n + m) = omega arith in rw e (ticks-add n m (tick c))

-- Over `drift_denom` edges, from a drift counter that stands below `drift_denom`, the time of day moves by as
-- many periods and once by `drift_num`, and the counter comes back.
pub ticks-drift_denom :
    (c : Clock)
    → c.drift_cnt < c.drift_denom
    → (tod_fns (ticks c.drift_denom c) ≡ tod_fns c + c.drift_denom * period c + c.drift_num)
      × ((ticks c.drift_denom c).drift_cnt ≡ c.drift_cnt)
ticks-drift_denom c h =
    let n : ℕ = c.drift_denom - 1 - c.drift_cnt in
    let d = ticks c.drift_cnt c in
    let down = ticks_down c.drift_cnt c (omega arith) (omega arith) in
    let up = ticks_up n d (ground arith) (ground arith) in
    let split : c.drift_denom ≡ c.drift_cnt + suc n = omega arith in
    let joined : ticks c.drift_denom c ≡ ticks (suc n) d =
      ap (λ k. ticks k c) split ∙ ticks-add c.drift_cnt (suc n) c in
    (
      ground (
        arith,
        joined,
        ap (λ (t : ℕ). t * c.period_ns) split,
        ap (λ (t : ℕ). t * c.period_fns) split,
        ap (λ (t : ℕ). n * t) down.2.same_ns,
        ap (λ (t : ℕ). n * t) down.2.same_fns,
      ),
      ground (arith, joined),
    )
