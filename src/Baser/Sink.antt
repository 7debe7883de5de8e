-- ===== src/Baser/Sink.antt =====
-- The frames that `BaseRSerdesSink` takes from XGMII lanes (src/eth/tb/baser.py): the queue, the matching
-- of ordered sets and of idle blocks, and the part of `_run` that builds frames.
use taxi.Prelude.{
  ℕ, suc, ◌+◌, ◌-◌, Bool, true, false, not, ◌&&◌, ◌||◌, Option, none, some, List, [], ◌∷◌, ◌++◌,
  get_or, ltb, ◌==◌, if◌then◌else◌, ◌<<<◌,
}
use taxi.Baser.Codes.{Codes}
use taxi.Baser.Frame.{Frame, Library}
use taxi.Baser.Source.{Lane}

-- The attributes, then the local variables of `_run`; `arrived` is `active_event`.
pub record Sink : Type 0 where
  pub queue : List Frame
  pub arrived : Bool
  pub occupancy_bytes : ℕ
  pub occupancy_frames : ℕ
  pub rep_count : ℕ
  pub os : Option ℕ
  pub os_sig : Bool
  pub os_match_cnt : ℕ
  pub idle_match_cnt : ℕ
  pub frame : Option Frame
  pub in_pre : Bool
  pub skip_cnt : ℕ

unfoldable pub get_os : Sink → (Option ℕ × Bool) × Sink
get_os s = ((s.os, s.os_sig), record s { os = none })

unfoldable pub get_os_match : Sink → Bool
get_os_match s = ltb 2 s.os_match_cnt

unfoldable pub get_idle_match : Sink → Bool
get_idle_match s = ltb 2 s.idle_match_cnt

unfoldable pub clear : Sink → Sink
clear s = record s { queue = []; arrived = false; occupancy_bytes = 0; occupancy_frames = 0 }

abbrev pub bool_eq : Bool → Bool → Bool
bool_eq true b = b
bool_eq false b = not b

abbrev pub is_some : Option ℕ → ℕ → Bool
is_some none v = false
is_some (some u) v = u == v

module _ (lib : Library) where
  -- `_recv` of the frame that is first in the queue.
  unfoldable pub take_frame : Sink → Bool → Frame → List Frame → Frame × Sink
  take_frame s compact f fs = (
    if compact then lib.compact f else f,
    record s {
      queue = fs;
      arrived = elim fs [ [] ↦ false | g ∷ gs ↦ s.arrived ];
      occupancy_bytes = s.occupancy_bytes - lib.len f;
      occupancy_frames = s.occupancy_frames - 1;
    },
  )

  -- `recv_nowait`, where `none` is QueueEmpty, and `recv` behind its wait.
  unfoldable pub recv_nowait : Sink → Bool → Option (Frame × Sink)
  unfolding take_frame
  recv_nowait s compact = elim s.queue [ [] ↦ none | f ∷ fs ↦ some (take_frame s compact f fs) ]

module _ (c : Codes) where
  -- `int.from_bytes(db[k+1:k+4], 'big')`
  abbrev pub os_value : List ℕ → ℕ → ℕ
  os_value db k = (get_or db (k + 1) 0 <<< 16) + ((get_or db (k + 2) 0 <<< 8) + get_or db (k + 3) 0)

  -- A round of `for k in [0, 4]`.
  unfoldable pub match_os : List ℕ → List ℕ → List Bool → ℕ → Sink → Sink
  match_os db dl cl k s =
      let sig = get_or dl k 0 == c.sig_os in
      let v = os_value db k in
      if get_or cl k false && ((get_or dl k 0 == c.seq_os) || sig)
      then record s {
        os_match_cnt =
            if is_some s.os v && bool_eq s.os_sig sig then s.os_match_cnt + 1 else s.os_match_cnt;
        idle_match_cnt = 0;
        os = some v;
        os_sig = sig;
      }
      else s

  -- What the decoded block does to the counters: `os` and `idle` say of which kind it was.
  unfoldable pub match_block : List ℕ → List ℕ → List Bool → Bool → Bool → Sink → Sink
  unfolding match_os
  match_block db dl cl os idle s =
      let t =
        if idle then record s { os_match_cnt = 0; idle_match_cnt = s.idle_match_cnt + 1 } else s in
      if os then match_os db dl cl 4 (match_os db dl cl 0 t) else t

  unfoldable pub start_frame : Sink → ℕ → Sink
  start_frame s k = record s {
    frame = some (record { bytes = c.pre ∷ []; ctrls = false ∷ []; start_lane = k });
    in_pre = true;
  }

module _ (lib : Library) (c : Codes) where
  abbrev pub push : Frame → ℕ → Bool → Frame
  push f d ctrl = record f { bytes = f.bytes ++ (d ∷ []); ctrls = f.ctrls ++ (ctrl ∷ []) }

  -- A control character ends the frame.
  unfoldable pub end_frame : Sink → ℕ → Frame → Sink
  end_frame s d f =
      let g = lib.compact (if d == c.term then f else push f d true) in
      record s {
        occupancy_bytes = s.occupancy_bytes + lib.len g;
        occupancy_frames = s.occupancy_frames + 1;
        queue = s.queue ++ (g ∷ []);
        arrived = true;
        frame = none;
      }

  -- From `if frame is None` on, by the frame.
  unfoldable pub take_lane : Sink → ℕ → Lane → Option Frame → Sink
  unfolding start_frame end_frame
  take_lane s k l none = if l.c && (l.d == c.start) then start_frame c s k else s
  take_lane s k l (some f) = if l.c then end_frame s l.d f else record s {
    in_pre = if l.d == c.sfd then false else s.in_pre;
    frame = some (push f l.d false);
  }

  -- A round of `for k in range(8)`, with the repetition of USXGMII.
  unfoldable pub receive_lane : Sink → ℕ → Lane → Sink
  unfolding take_lane
  receive_lane s k l =
      let last = (k == 3) || (k == 7) in
      let skip = if not (s.rep_count == 0) && (l.c && (l.d == c.start)) then 0 else s.skip_cnt in
      if ltb 0 skip
      then record s { skip_cnt = if last then skip - 1 else skip }
      else take_lane
          (record s { skip_cnt = if not (s.rep_count == 0) && last then s.rep_count else skip }) k l
          s.frame

  unfoldable pub receive_lanes : ℕ → List Lane → Sink → Sink
  unfolding receive_lane
  receive_lanes k [] s = s
  receive_lanes k (l ∷ ls) s = receive_lanes (suc k) ls (receive_lane s k l)
