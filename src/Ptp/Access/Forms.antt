-- ===== src/Ptp/Access/Forms.antt =====
-- The setters against the forms that the getters give.
use taxi.Prelude.{ℕ, ◌+◌, ◌-◌, ◌*◌, ◌/◌, ◌%◌, ◌^◌, ◌<◌, ◌≡◌, ◌↔◌, arith}
use taxi.Prelude.Bits.{bit_or_fields}
use taxi.Ptp.Source.{Source}
use taxi.Ptp.Access.{set_ts_tod_96, set_ts_rel_64, tod_96, rel_64}

tod_96-sum :
    (ts_s ts_ns ts_fns : ℕ)
    → ts_ns < 2 ^ 32
    → ts_fns < 2 ^ 32
    → tod_96 ts_s ts_ns ts_fns ≡ ts_s * 2 ^ 48 + ts_ns * 2 ^ 16 + ts_fns / 2 ^ 16
unfolding tod_96
tod_96-sum ts_s ts_ns ts_fns hn hf =
    let upper = bit_or_fields 48 ts_s (ts_ns * 2 ^ 16) (omega arith) in
    let e : ts_s * 2 ^ 48 + ts_ns * 2 ^ 16 ≡ (ts_s * 2 ^ 32 + ts_ns) * 2 ^ 16 = omega arith in
    rw (upper, e)
      (omega (arith, bit_or_fields 16 (ts_s * 2 ^ 32 + ts_ns) (ts_fns / 2 ^ 16) (omega arith)))

rel_64-sum :
    (ts_ns ts_fns : ℕ) → ts_fns < 2 ^ 32 → rel_64 ts_ns ts_fns ≡ ts_ns * 2 ^ 16 + ts_fns / 2 ^ 16
unfolding rel_64
rel_64-sum ts_ns ts_fns hf = bit_or_fields 16 ts_ns (ts_fns / 2 ^ 16) (omega arith)

-- `set_ts_rel_64` takes the form that `get_ts_rel_64` gives: the time comes back, less the lower 16
-- bits of the fraction.
set_ts_rel_64-rel_64 :
    (s : Source) (ts_ns ts_fns : ℕ)
    → ts_fns < 2 ^ 32
    → ((set_ts_rel_64 s (rel_64 ts_ns ts_fns)).ts_rel_ns ≡ ts_ns)
      × ((set_ts_rel_64 s (rel_64 ts_ns ts_fns)).ts_fns ≡ ts_fns - ts_fns % 2 ^ 16)
unfolding set_ts_rel_64
set_ts_rel_64-rel_64 s ts_ns ts_fns h = rw (rel_64-sum ts_ns ts_fns h) (omega arith, omega arith)

-- Of the form that `get_ts_tod_96` gives, with nanoseconds below 2^30 and a fraction below 2^32,
-- `set_ts_tod_96` stores the second, the upper 16 bits of the fraction, and in place of the nanoseconds the
-- lower bits of the second over the upper bits of the nanoseconds. These are the nanoseconds again exactly
-- where the 14 lower bits of the second, the 14 upper bits of the nanoseconds and the 16 lower ones are one
-- number.
pub set_ts_tod_96-tod_96 :
    (s : Source) (ts_s ts_ns ts_fns : ℕ)
    → ts_ns < 2 ^ 30
    → ts_fns < 2 ^ 32
    → let t = set_ts_tod_96 s (tod_96 ts_s ts_ns ts_fns) in
      (t.ts_tod_s ≡ ts_s)
      × (t.ts_tod_ns ≡ (ts_s * 2 ^ 16 + ts_ns / 2 ^ 16) % 2 ^ 30)
      × (t.ts_fns ≡ ts_fns - ts_fns % 2 ^ 16)
      × ((t.ts_tod_ns ≡ ts_ns)
          ↔ ((ts_s % 2 ^ 14 ≡ ts_ns / 2 ^ 16) × (ts_ns / 2 ^ 16 ≡ ts_ns % 2 ^ 16)))
unfolding set_ts_tod_96
set_ts_tod_96-tod_96 s ts_s ts_ns ts_fns hn hf =
    rw (tod_96-sum ts_s ts_ns ts_fns (omega arith) hf) (
      omega arith,
      omega arith,
      omega arith,
      (λ e. (omega arith, omega arith), λ e. omega (arith, e.0, e.1)),
    )
