-- ===== src/Ptp/Clock.antt =====
-- The clock that `PtpTdSource` and `PtpTdSink` both keep, and its step on a clock edge.
pub mod Exact
pub mod Drift
use taxi.Prelude.{
  ℕ, zero, suc, ◌+◌, ◌-◌, ◌*◌, ◌/◌, ◌%◌, ◌^◌, Bool, true, false, ltb, leb, ◌==◌, if◌then◌else◌,
  ◌<<<◌, ◌>>>◌, low_bits,
}

-- The attributes of that name. `pps` is whether the event is set.
pub record Clock : Type 0 where
  pub period_ns : ℕ
  pub period_fns : ℕ
  pub drift_num : ℕ
  pub drift_denom : ℕ
  pub drift_cnt : ℕ
  pub ts_fns : ℕ
  pub ts_rel_ns : ℕ
  pub ts_tod_s : ℕ
  pub ts_tod_ns : ℕ
  pub pps : Bool

-- `if self.drift_denom: …`, which runs behind the increment by the period.
unfoldable pub drift : Clock → Clock
drift c =
    if c.drift_denom == 0
    then c
    else if ltb 0 c.drift_cnt
    then record c { drift_cnt = c.drift_cnt - 1 }
    else record c { drift_cnt = c.drift_denom - 1; ts_fns = c.ts_fns + c.drift_num }

-- `if self.ts_tod_ns >= 1000000000: …`
unfoldable pub roll_over : Clock → Clock
roll_over c =
    if leb 1000000000 c.ts_tod_ns
    then record c { pps = true; ts_tod_s = c.ts_tod_s + 1; ts_tod_ns = c.ts_tod_ns - 1000000000 }
    else c

-- From `# increment fns portion` to the rollover.
unfoldable pub tick : Clock → Clock
unfolding drift roll_over
tick c =
    let d = drift (record c { ts_fns = c.ts_fns + ((c.period_ns <<< 32) + c.period_fns) }) in
    let ns_inc = d.ts_fns >>> 32 in
    roll_over (record d {
      ts_fns = low_bits d.ts_fns 32;
      ts_rel_ns = low_bits (d.ts_rel_ns + ns_inc) 48;
      ts_tod_ns = d.ts_tod_ns + ns_inc;
    })
