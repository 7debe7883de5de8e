-- ===== src/Ptp/Tests.antt =====
-- Runs of ptp_td.py at fixed inputs, and instances of its theorems.
use taxi.Prelude.{
  ◌+◌, ◌-◌, ◌*◌, ◌/◌, ◌%◌, ◌^◌, ◌≡◌, ◌≤◌, max, ◌↔◌, refl, true, false, none, some, [], ◌∷◌, negsuc,
  arith,
}
use taxi.Ptp.Clock.{Clock, tick}
use taxi.Ptp.Clock.Exact.{tod_fns, period, drift_now, IsNormal, tick-tod_fns, tick-IsNormal}
use taxi.Ptp.Clock.Drift.{ticks, ticks-drift_denom}
use taxi.Ptp.Source
use taxi.Ptp.Source.{Source, Stamp, stamp, offsets, delay, message, build, edge, round}
use taxi.Ptp.Source.Pace.{edges, edges_idle}
use taxi.Ptp.Source.Window.{window, oldest-edges}
use taxi.Ptp.Access.{set_ts_tod_96, tod_96, oldest}
use taxi.Ptp.Access.Forms.{set_ts_tod_96-tod_96}
use taxi.Ptp.Sink
use taxi.Ptp.Sink.{Sink, apply_message}
use taxi.Ptp.Message.{follow, apply-message_tod, apply-message_offset}
use taxi.Ptp.Serial.{exchange, exchange_message}

-- A period of 6.4 ns, just before the end of a second.
abbrev clock : Clock
clock = record {
  period_ns = 6;
  period_fns = 0x66666666;
  drift_num = 2;
  drift_denom = 5;
  drift_cnt = 0;
  ts_fns = 0xF0000000;
  ts_rel_ns = 100;
  ts_tod_s = 9;
  ts_tod_ns = 999999995;
  pps = false;
}

abbrev source : Source
source = record {
  clock = clock;
  ts_rel_updated = false;
  ts_tod_updated = true;
  ts_tod_offset_ns = 17;
  ts_tod_alt_s = negsuc 0;
  ts_tod_alt_offset_ns = 18;
  td_delay = 32;
  timestamp_delay = record { tod_s = 0; tod_ns = 0; rel_ns = 0; fns = 0 } ∷ [];
  line = 1;
  run = some Source.fresh_run;
}

abbrev sink : Sink
sink = record {
  clock = record clock { ts_tod_s = 0; ts_tod_ns = 0; ts_rel_ns = 0; period_ns = 0 };
  ts_tod_offset_ns = 0;
  ts_tod_alt_s = 0;
  ts_tod_alt_offset_ns = 0;
  td_delay = 32;
  run = some Sink.fresh_run;
}

clock-IsNormal : IsNormal clock
clock-IsNormal = omega arith

-- The second ends, and the drift is added.
ticked : tick clock ≡ record {
  period_ns = 6;
  period_fns = 0x66666666;
  drift_num = 2;
  drift_denom = 5;
  drift_cnt = 4;
  ts_fns = 0x56666668;
  ts_rel_ns = 107;
  ts_tod_s = 10;
  ts_tod_ns = 2;
  pps = true;
}
unfolding tick
ticked = refl

-- The first edge behind a reset loads message 0 and sends its start bit.
first_edge : (edge source).line ≡ 0
unfolding edge build tick message Source.serialize
first_edge = refl

tick-tod_fns_example : tod_fns (tick clock) ≡ tod_fns clock + period clock + drift_now clock
tick-tod_fns_example = tick-tod_fns clock

tick-IsNormal_example :
    IsNormal (tick clock)
    × (((tick clock).drift_denom ≡ clock.drift_denom)
        × (((tick clock).drift_cnt ≤ max clock.drift_cnt (clock.drift_denom - 1))
            × ((tick clock).ts_tod_s ≤ clock.ts_tod_s + 1)))
tick-IsNormal_example = tick-IsNormal clock-IsNormal

ticks-drift_denom_example :
    (tod_fns (ticks 5 clock) ≡ tod_fns clock + 5 * period clock + 2)
    × ((ticks 5 clock).drift_cnt ≡ 0)
ticks-drift_denom_example = ticks-drift_denom clock (omega arith)

edges_idle_example :
    (t : Source.Run) × ((edges 300 source).run ≡ some t)
    × (t.msg_delay ≡ 0 → (t.word ≡ none) × (t.msg ≡ []))
edges_idle_example = edges_idle 300 source refl

oldest-edges_example : oldest (edges (window source + 3) source) ≡ some (stamp (edges 3 source))
oldest-edges_example = oldest-edges 3 source Source.fresh_run refl (omega arith)

-- One second and five nanoseconds come back as 65536 nanoseconds.
set_ts_tod_96-tod_96_example :
    let t = set_ts_tod_96 source (tod_96 1 5 0) in
    (t.ts_tod_s ≡ 1)
    × (t.ts_tod_ns ≡ (1 * 2 ^ 16 + 5 / 2 ^ 16) % 2 ^ 30)
    × (t.ts_fns ≡ 0 - 0 % 2 ^ 16)
    × ((t.ts_tod_ns ≡ 5) ↔ ((1 % 2 ^ 14 ≡ 5 / 2 ^ 16) × (5 / 2 ^ 16 ≡ 5 % 2 ^ 16)))
set_ts_tod_96-tod_96_example = set_ts_tod_96-tod_96 source 1 5 0 (omega arith) (omega arith)

apply-message_tod_example :
    apply_message sink (message source 0)
    ≡ some (record sink {
      clock = follow (record sink.clock { ts_tod_ns = 999999995; ts_tod_s = 9 }) clock;
    })
apply-message_tod_example = apply-message_tod source sink clock-IsNormal (omega arith)

apply-message_offset_example :
    apply_message sink (message source 1)
    ≡ some (record sink {
      clock = follow (record sink.clock { drift_num = 2; drift_denom = 5; drift_cnt = 0 }) clock;
      ts_tod_offset_ns = 17;
    })
apply-message_offset_example = apply-message_offset source sink clock-IsNormal (omega arith)

exchange_message_example :
    exchange 32 (17 * 2 + 1) (record Source.fresh_run { msg = 5 ∷ 0xFFFF ∷ [] }) Sink.fresh_run ≡ (
      record Source.fresh_run { msg = []; word = none; bit_index = 16 },
      record Sink.fresh_run {
        msg = 5 ∷ 0xFFFF ∷ [];
        msg_delay = 32;
        cur_msg = [];
        word = none;
        bit_index = 16;
      },
    )
exchange_message_example =
    exchange_message (5 ∷ 0xFFFF ∷ []) (record Source.fresh_run { msg = 5 ∷ 0xFFFF ∷ [] })
      Sink.fresh_run 32 (omega arith) (omega arith) refl refl refl refl
