-- ===== src/Ptp/Source/Offsets.antt =====
-- What the offsets are for: from the relative time they give the time of day.
use taxi.Prelude.{ℕ, ◌+◌, ◌*◌, ◌%◌, ◌^◌, ◌≤◌, ◌<◌, ◌≡◌, pos, pred_ℤ, arith}
use taxi.Ptp.Source.{Source, offsets}

-- An offset applied to the relative time, as a leaf clock does it, in 32 bits.
abbrev pub rebuilt : ℕ → ℕ → ℕ
rebuilt rel offset = (rel + offset) % 2 ^ 32

-- The current offset gives the nanoseconds of the day's second back.
offsets-tod_ns :
    (s : Source)
    → s.ts_tod_ns < 1000000000
    → rebuilt (offsets s).ts_rel_ns (offsets s).ts_tod_offset_ns ≡ s.ts_tod_ns
unfolding offsets
offsets-tod_ns s h = ground arith

-- The alternate offset and second name the same instant: in the latter part of a second, from
-- 7 * 2^27 ns on, one second later and 10^9 ns less (which wraps); before that one second earlier
-- and 10^9 ns more.
offsets-alt :
    (s : Source)
    → s.ts_tod_ns < 1000000000
    → (7 * 2 ^ 27 ≤ s.ts_tod_ns
        → ((offsets s).ts_tod_alt_s ≡ pos (s.ts_tod_s + 1))
          × ((rebuilt (offsets s).ts_rel_ns (offsets s).ts_tod_alt_offset_ns + 1000000000) % 2 ^ 32
              ≡ s.ts_tod_ns))
      × (s.ts_tod_ns < 7 * 2 ^ 27
          → ((offsets s).ts_tod_alt_s ≡ pred_ℤ s.ts_tod_s)
            × (rebuilt (offsets s).ts_rel_ns (offsets s).ts_tod_alt_offset_ns
                ≡ s.ts_tod_ns + 1000000000))
unfolding offsets
offsets-alt s h = (λ late. ground arith, λ early. ground arith)

-- Both offsets fit the two words that carry them.
pub offsets-lt :
    (s : Source)
    → ((offsets s).ts_tod_offset_ns < 2 ^ 32) × ((offsets s).ts_tod_alt_offset_ns < 2 ^ 32)
unfolding offsets
offsets-lt s = ground arith
