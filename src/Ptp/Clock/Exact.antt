-- ===== src/Ptp/Clock/Exact.antt =====
-- How far the clock moves on an edge, and over a period of the drift counter.
use taxi.Prelude.{ℕ, ◌+◌, ◌*◌, ◌-◌, ◌%◌, ◌^◌, ◌<◌, ◌≤◌, max, ◌≡◌, ◌==◌, if◌then◌else◌, arith}
use taxi.Ptp.Clock.{Clock, tick}

-- The time of day in units of 2^-32 ns.
abbrev pub tod_fns : Clock → ℕ
tod_fns c = (c.ts_tod_s * 1000000000 + c.ts_tod_ns) * 2 ^ 32 + c.ts_fns

-- The relative time in the same units.
abbrev pub rel_fns : Clock → ℕ
rel_fns c = c.ts_rel_ns * 2 ^ 32 + c.ts_fns

abbrev pub period : Clock → ℕ
period c = c.period_ns * 2 ^ 32 + c.period_fns

-- What the drift adds on the next edge.
abbrev pub drift_now : Clock → ℕ
drift_now c = if c.drift_denom == 0 then 0 else if c.drift_cnt == 0 then c.drift_num else 0

-- The time of day moves by the period and the drift, with nothing lost at a second's end.
pub tick-tod_fns : (c : Clock) → tod_fns (tick c) ≡ tod_fns c + period c + drift_now c
unfolding tick
tick-tod_fns c = ground arith

-- The relative time moves by the same, modulo 2^48 ns.
tick-rel_fns : (c : Clock) → rel_fns (tick c) ≡ (rel_fns c + period c + drift_now c) % 2 ^ 80
unfolding tick
tick-rel_fns c = ground arith

-- The ranges that the fields have in a message.
pub record IsNormal (c : Clock) : Type 0 where
  pub fns : c.ts_fns < 2 ^ 32
  pub rel : c.ts_rel_ns < 2 ^ 48
  pub tod : c.ts_tod_ns < 1000000000
  pub ns_step : c.period_ns < 256
  pub fns_step : c.period_fns < 2 ^ 32
  pub num : c.drift_num < 2 ^ 16

-- An edge keeps the fraction below 2^32, the relative nanoseconds below 2^48 and those of the second below
-- 10^9, with the period below 256 ns and 2^32 fractions and the drift's numerator below 2^16; it leaves the
-- denominator, the drift counter comes to at most the larger of what it was and the denominator less one, and
-- the second goes up by one at most, without a bound of its own. The clock has these bounds before it.
pub tick-IsNormal :
    {c : Clock}
    → IsNormal c
    → IsNormal (tick c)
      × (((tick c).drift_denom ≡ c.drift_denom)
          × (((tick c).drift_cnt ≤ max c.drift_cnt (c.drift_denom - 1))
              × ((tick c).ts_tod_s ≤ c.ts_tod_s + 1)))
unfolding tick
tick-IsNormal h = (ground arith, (ground arith, (ground arith, ground arith)))
