-- ===== src/Ptp/Source.antt =====
-- The class `PtpTdSource`: its attributes, its setters and getters, and a round of `_run`.
pub mod Pace
pub mod Offsets
pub mod Window
use taxi.Prelude.{
  ℕ, zero, suc, ◌+◌, ◌-◌, ◌*◌, ◌/◌, ◌%◌, ◌^◌, ◌≡◌, Bool, true, false, Option, none, some, List, [],
  ◌∷◌, ◌++◌, length, drop, ltb, leb, ◌==◌, if◌then◌else◌, ◌<<<◌, ◌>>>◌, low_bits, bit_or, ℤ, pos,
  negsuc, pred_ℤ, field_ℤ, sub_wrap,
}
use taxi.Ptp.Clock.{Clock, tick}

-- An entry of `timestamp_delay`.
pub record Stamp : Type 0 where
  pub tod_s : ℕ
  pub tod_ns : ℕ
  pub rel_ns : ℕ
  pub fns : ℕ

-- The local variables of `_run`. `msg` is None before the first message, which is tested like [].
pub record Run : Type 0 where
  pub msg_index : ℕ
  pub msg : List ℕ
  pub msg_delay : ℕ
  pub word : Option ℕ
  pub bit_index : ℕ

abbrev pub fresh_run : Run
fresh_run = record { msg_index = 0; msg = []; msg_delay = 0; word = none; bit_index = 0 }

-- `line` is the value of the signal `data`, and `run` stands for `_run_cr`.
pub record Source : Type 0 where
  pub clock : Clock
  pub open clock use *
  pub ts_rel_updated : Bool
  pub ts_tod_updated : Bool
  pub ts_tod_offset_ns : ℕ
  pub ts_tod_alt_s : ℤ
  pub ts_tod_alt_offset_ns : ℕ
  pub td_delay : ℕ
  pub timestamp_delay : List Stamp
  pub line : ℕ
  pub run : Option Run

abbrev pub to_bit : Bool → ℕ
to_bit true = 1
to_bit false = 0

-- The words of message 0, 1 or 2 that stand between the control word and the common ones.
unfoldable pub index_words : Source → ℕ → List ℕ
index_words s i =
    if i == 0
    then low_bits s.ts_tod_ns 16
      ∷ bit_or (low_bits (s.ts_tod_ns >>> 16) 14) (if s.ts_tod_updated then 0x8000 else 0)
      ∷ low_bits s.ts_tod_s 16
      ∷ low_bits (s.ts_tod_s >>> 16) 16
      ∷ low_bits (s.ts_tod_s >>> 32) 16
      ∷ []
    else if i == 1
    then low_bits s.ts_tod_offset_ns 16
      ∷ low_bits (s.ts_tod_offset_ns >>> 16) 16
      ∷ s.drift_num
      ∷ s.drift_denom
      ∷ s.drift_cnt
      ∷ []
    else if i == 2
    then low_bits s.ts_tod_alt_offset_ns 16
      ∷ low_bits (s.ts_tod_alt_offset_ns >>> 16) 16
      ∷ field_ℤ s.ts_tod_alt_s 0 16
      ∷ field_ℤ s.ts_tod_alt_s 16 16
      ∷ field_ℤ s.ts_tod_alt_s 32 16
      ∷ []
    else []

-- Words 6 to 13.
unfoldable pub common_words : Source → List ℕ
common_words s =
    low_bits s.ts_fns 16
    ∷ low_bits (s.ts_fns >>> 16) 16
    ∷ low_bits s.ts_rel_ns 16
    ∷ low_bits (s.ts_rel_ns >>> 16) 16
    ∷ low_bits (s.ts_rel_ns >>> 32) 16
    ∷ low_bits s.period_fns 16
    ∷ low_bits (s.period_fns >>> 16) 16
    ∷ low_bits s.period_ns 8
    ∷ []

-- Word 0.
unfoldable pub control_word : Source → ℕ → ℕ
control_word s i =
    bit_or (bit_or (low_bits i 4) (to_bit s.ts_rel_updated <<< 8)) ((s.ts_tod_s % 2) <<< 9)

unfoldable pub message : Source → ℕ → List ℕ
unfolding index_words common_words control_word
message s i = control_word s i ∷ (index_words s i ++ common_words s)

unfoldable pub next_index : ℕ → ℕ
next_index i = if i == 0 then 1 else if i == 1 then 2 else if i == 2 then 0 else i

-- `if msg_delay <= 0: … else: msg_delay -= 1`
unfoldable pub build : Source → Run → Source × Run
unfolding message next_index
build s r =
    if r.msg_delay == 0
    then (
      record s {
        ts_rel_updated = false;
        ts_tod_updated = if r.msg_index == 0 then false else s.ts_tod_updated;
      },
      record r { msg = message s r.msg_index; msg_index = next_index r.msg_index; msg_delay = 255 },
    )
    else (s, record r { msg_delay = r.msg_delay - 1 })

-- `# serialize message`, by whether a word is being sent: the run and the level put on the line.
unfoldable pub send : Run → Option ℕ → List ℕ → Run × ℕ
send r none [] = (r, 1)
send r none (w ∷ ws) = (record r { word = some w; msg = ws; bit_index = 0 }, 0)
send r (some w) ws = (
  record r { bit_index = r.bit_index + 1; word = if r.bit_index + 1 == 16 then none else some w },
  (w >>> r.bit_index) % 2,
)

unfoldable pub serialize : Run → Run × ℕ
unfolding send
serialize r = send r r.word r.msg

-- From `# compute offset for current second` on.
unfoldable pub offsets : Source → Source
offsets s =
    let offset = sub_wrap s.ts_tod_ns s.ts_rel_ns 32 in
    if s.ts_tod_ns >>> 27 == 7
    then record s {
      ts_tod_offset_ns = offset;
      ts_tod_alt_s = pos (s.ts_tod_s + 1);
      ts_tod_alt_offset_ns = sub_wrap offset 1000000000 32;
    }
    else record s {
      ts_tod_offset_ns = offset;
      ts_tod_alt_s = pred_ℤ s.ts_tod_s;
      ts_tod_alt_offset_ns = low_bits (offset + 1000000000) 32;
    }

abbrev pub stamp : Source → Stamp
stamp s = record { tod_s = s.ts_tod_s; tod_ns = s.ts_tod_ns; rel_ns = s.ts_rel_ns; fns = s.ts_fns }

-- `while len(stamps) > limit: stamps.pop(0)`
unfoldable pub pop_while : ℕ → List Stamp → List Stamp
pop_while limit [] = []
pop_while limit (t ∷ stamps) =
    let rest = pop_while limit stamps in
    if ltb limit (length (t ∷ stamps)) then rest else t ∷ stamps

-- `# delay timestamp`: append, and `pop(0)` while the list is too long.
unfoldable pub delay : Source → Source
unfolding pop_while
delay s = record s {
  timestamp_delay = pop_while (14 * 17 + s.td_delay) (s.timestamp_delay ++ (stamp s ∷ []));
}

-- A round of `while True` behind the clock edge.
unfoldable pub round : Source → Run → Source
unfolding delay offsets
round s r =
    let delayed = delay s in
    let ticked = offsets (record delayed { clock = tick delayed.clock }) in
    let (built, loaded) = build ticked r in
    let (sent, level) = serialize loaded in record built { line = level; run = some sent }

-- A clock edge, which reaches the coroutine only while it runs.
unfoldable pub edge : Source → Source
unfolding round
edge s = elim s.run [ none ↦ s | some r ↦ round s r ]

-- `_handle_reset`: the coroutine is killed, and a new one starts with fresh local variables.
unfoldable pub handle_reset : Source → Bool → Source
handle_reset s true = record s {
  clock = record s.clock { ts_tod_s = 0; ts_tod_ns = 0; ts_rel_ns = 0; ts_fns = 0; drift_cnt = 0 };
  line = 1;
  run = none;
}
handle_reset s false = record s { run = elim s.run [ none ↦ some fresh_run | some r ↦ some r ] }
