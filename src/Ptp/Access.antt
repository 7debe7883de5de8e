-- ===== src/Ptp/Access.antt =====
-- The setters and getters of `PtpTdSource` and `PtpTdSink` that take and give whole numbers.
pub mod Forms
use taxi.Prelude.{
  ℕ, ◌+◌, ◌-◌, ◌*◌, ◌/◌, ◌%◌, ◌^◌, Bool, true, false, Option, none, some, List, [], ◌∷◌, ◌<<<◌,
  ◌>>>◌, low_bits, bit_or,
}
use taxi.Ptp.Clock.{Clock}
use taxi.Ptp.Source.{Source, Stamp}

unfoldable pub set_period : Source → ℕ → ℕ → Source
set_period s ns fns = record s {
  clock = record s.clock { period_ns = ns; period_fns = low_bits fns 32 };
}

unfoldable pub set_drift : Source → ℕ → ℕ → Source
set_drift s num denom = record s { clock = record s.clock { drift_num = num; drift_denom = denom } }

unfoldable pub set_ts_tod : Source → ℕ → ℕ → ℕ → Source
set_ts_tod s ts_s ts_ns ts_fns = record s {
  clock = record s.clock { ts_tod_s = ts_s; ts_tod_ns = ts_ns; ts_fns = ts_fns };
  ts_tod_updated = true;
}

unfoldable pub set_ts_tod_96 : Source → ℕ → Source
unfolding set_ts_tod
set_ts_tod_96 s ts = set_ts_tod s (ts >>> 48) (low_bits (ts >>> 32) 30) (low_bits ts 16 <<< 16)

unfoldable pub set_ts_rel : Source → ℕ → ℕ → Source
set_ts_rel s ts_ns ts_fns = record s {
  clock = record s.clock { ts_rel_ns = ts_ns; ts_fns = ts_fns };
  ts_rel_updated = true;
}

unfoldable pub set_ts_rel_64 : Source → ℕ → Source
unfolding set_ts_rel
set_ts_rel_64 s ts = set_ts_rel s (ts >>> 16) (low_bits ts 16 <<< 16)

-- `timestamp_delay[0]`; the list is never empty.
unfoldable pub oldest : Source → Option Stamp
oldest s = elim s.timestamp_delay [ [] ↦ none | t ∷ _ ↦ some t ]

-- The forms of 96 and 64 bits that the getters of both classes give.
unfoldable pub tod_96 : ℕ → ℕ → ℕ → ℕ
tod_96 ts_s ts_ns ts_fns = bit_or (bit_or (ts_s <<< 48) (ts_ns <<< 16)) (ts_fns >>> 16)

unfoldable pub rel_64 : ℕ → ℕ → ℕ
rel_64 ts_ns ts_fns = bit_or (ts_ns <<< 16) (ts_fns >>> 16)

unfoldable pub get_delay_cycles : Source → ℕ
get_delay_cycles s = 14 * 17 + s.td_delay - 1
