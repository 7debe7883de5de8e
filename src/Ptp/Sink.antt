-- ===== src/Ptp/Sink.antt =====
-- The class `PtpTdSink`: a round of `_run`, which steps the clock, applies a message that is due and
-- reads a bit.
use taxi.Prelude.{
  ℕ, ◌+◌, ◌-◌, Bool, true, false, ◌&&◌, Option, none, some, List, [], ◌∷◌, ◌++◌, length, ltb, ◌==◌,
  if◌then◌else◌, ◌<<<◌, low_bits, bit_or,
}
use taxi.Ptp.Clock.{Clock, tick}

-- The local variables of `_run`; `msg` is None or a list, and both None and [] count as no message.
pub record Run : Type 0 where
  pub msg : List ℕ
  pub msg_delay : ℕ
  pub cur_msg : List ℕ
  pub word : Option ℕ
  pub bit_index : ℕ

abbrev pub fresh_run : Run
fresh_run = record { msg = []; msg_delay = 0; cur_msg = []; word = none; bit_index = 0 }

pub record Sink : Type 0 where
  pub clock : Clock
  pub open clock use *
  pub ts_tod_offset_ns : ℕ
  pub ts_tod_alt_s : ℕ
  pub ts_tod_alt_offset_ns : ℕ
  pub td_delay : ℕ
  pub run : Option Run

-- The part of a message that `msg_index` selects: words 1 to 5.
unfoldable pub apply_index : Sink → ℕ → ℕ → ℕ → ℕ → ℕ → ℕ → Sink
apply_index s i w1 w2 w3 w4 w5 =
    if i == 0
    then record s {
      clock = record s.clock {
        ts_tod_ns = bit_or (low_bits w2 14 <<< 16) w1;
        ts_tod_s = bit_or (bit_or (w5 <<< 32) (w4 <<< 16)) w3;
      };
    }
    else if i == 1
    then record s {
      clock = record s.clock { drift_num = w3; drift_denom = w4; drift_cnt = w5 };
      ts_tod_offset_ns = bit_or (w2 <<< 16) w1;
    }
    else if i == 2
    then record s {
      ts_tod_alt_offset_ns = bit_or (w2 <<< 16) w1;
      ts_tod_alt_s = bit_or (bit_or (w5 <<< 32) (w4 <<< 16)) w3;
    }
    else s

-- Words 6 to 13.
unfoldable pub apply_common : Sink → ℕ → ℕ → ℕ → ℕ → ℕ → ℕ → ℕ → ℕ → Sink
apply_common s w6 w7 w8 w9 w10 w11 w12 w13 = record s {
  clock = record s.clock {
    ts_fns = bit_or (w7 <<< 16) w6;
    ts_rel_ns = bit_or (bit_or (w10 <<< 32) (w9 <<< 16)) w8;
    period_fns = bit_or (w12 <<< 16) w11;
    period_ns = low_bits w13 8;
  };
}

-- `# word 0: control` to `msg = None`. `none` stands for the IndexError of a message that is too
-- short, which ends the coroutine. An assignment under `if old != val` is made in any case.
unfoldable pub apply_message : Sink → List ℕ → Option Sink
unfolding apply_index apply_common
apply_message s (w0 ∷ w1 ∷ w2 ∷ w3 ∷ w4 ∷ w5 ∷ w6 ∷ w7 ∷ w8 ∷ w9 ∷ w10 ∷ w11 ∷ w12 ∷ w13 ∷ rest) =
    some (apply_common (apply_index s (low_bits w0 4) w1 w2 w3 w4 w5) w6 w7 w8 w9 w10 w11 w12 w13)
apply_message s _ = none

-- `# deserialize message`, by whether a word is being read.
unfoldable pub take_bit : ℕ → Run → ℕ → Option ℕ → Run
take_bit td_delay r bit (some w) =
    let w' = bit_or w (bit <<< r.bit_index) in
    if r.bit_index + 1 == 16
    then record r { cur_msg = r.cur_msg ++ (w' ∷ []); word = none; bit_index = r.bit_index + 1 }
    else record r { word = some w'; bit_index = r.bit_index + 1 }
take_bit td_delay r bit none =
    if bit == 0
    then record r { word = some 0; bit_index = 0 }
    else if ltb 0 (length r.cur_msg)
    then record r { msg = r.cur_msg; msg_delay = td_delay; cur_msg = [] }
    else r

unfoldable pub deserialize : ℕ → Run → ℕ → Run
unfolding take_bit
deserialize td_delay r bit = take_bit td_delay r bit r.word

-- `# process messages`: the delay, and the message when it is due.
unfoldable pub process : Sink → Run → Option (Sink × Run)
process s r =
    let left = r.msg_delay - 1 in
    if left == 0 && ltb 0 (length r.msg)
    then elim (apply_message s r.msg) [
      | none ↦ none
      | some s' ↦ some (s', record r { msg = []; msg_delay = left })
    ]
    else some (s, record r { msg_delay = left })

-- A round of `while True` behind the clock edge, on the level of the line.
unfoldable pub round : Sink → Run → ℕ → Option Sink
unfolding process deserialize
round s r bit = elim (process (record s { clock = tick s.clock }) r) [
  | none ↦ none
  | some (s', r') ↦ some (record s' { run = some (deserialize s'.td_delay r' bit) })
]

-- A clock edge, which reaches the coroutine only while it runs.
unfoldable pub edge : Sink → ℕ → Option Sink
unfolding round
edge s bit = elim s.run [ none ↦ some s | some r ↦ round s r bit ]

-- `_handle_reset`. The coroutine is killed, and a new one starts with fresh local variables. The
-- level that the method puts on the line is not kept here.
unfoldable pub handle_reset : Sink → Bool → Sink
handle_reset s true = record s {
  clock = record s.clock { ts_tod_s = 0; ts_tod_ns = 0; ts_rel_ns = 0; ts_fns = 0; drift_cnt = 0 };
  run = none;
}
handle_reset s false = record s { run = elim s.run [ none ↦ some fresh_run | some r ↦ some r ] }
