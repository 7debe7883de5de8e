-- ===== src/Baser/Source.antt =====
-- The source of XGMII lanes in `BaseRSerdesSource` (src/eth/tb/baser.py): the queue, and the part of
-- `_run` that fills eight lanes from the frames, the gaps between them and the ordered set.
use taxi.Prelude.{
  ℕ, zero, suc, ◌+◌, ◌-◌, ◌%◌, Bool, true, false, not, ◌&&◌, ◌||◌, Option, none, some, List, [],
  ◌∷◌, ◌++◌, length, get_or, take, drop, leb, ltb, ◌==◌, if◌then◌else◌, ◌>>>◌, low_bits,
}
use taxi.Baser.Codes.{Codes}
use taxi.Baser.Frame.{Frame, Library}

-- The attributes, then the local variables of `_run`. A limit of zero stands for one that is not
-- positive. `dequeue` and `idle` are the events.
pub record Source : Type 0 where
  pub active : Bool
  pub queue : List Frame
  pub current_frame : Option Frame
  pub dequeue : Bool
  pub idle : Bool
  pub enable_dic : Bool
  pub ifg : ℕ
  pub force_offset_start : Bool
  pub occupancy_bytes : ℕ
  pub occupancy_frames : ℕ
  pub limit_bytes : ℕ
  pub limit_frames : ℕ
  pub rep_count : ℕ
  pub os : Option ℕ
  pub os_sig : Bool
  pub frame : Option Frame
  pub frame_offset : ℕ
  pub sof : Bool
  pub in_pre : Bool
  pub in_term : Bool
  pub ifg_cnt : ℕ
  pub deficit_idle_cnt : ℕ
  pub rep_cnt : ℕ

-- A lane: `d`, and whether `c` is set.
pub record Lane : Type 0 where
  pub d : ℕ
  pub c : Bool

module _ (lib : Library) where
  unfoldable pub full : Source → Bool
  full s =
      (ltb 0 s.limit_bytes && ltb s.limit_bytes s.occupancy_bytes)
      || (ltb 0 s.limit_frames && ltb s.limit_frames s.occupancy_frames)

  -- `send_nowait`, where `none` is QueueFull, and `send` behind its wait.
  unfoldable pub enqueue : Source → Frame → Source
  enqueue s f = record s {
    queue = s.queue ++ (f ∷ []);
    idle = false;
    occupancy_bytes = s.occupancy_bytes + lib.len f;
    occupancy_frames = s.occupancy_frames + 1;
  }

  unfoldable pub send_nowait : Source → Frame → Option Source
  unfolding full enqueue
  send_nowait s f = if full s then none else some (enqueue s f)

  abbrev pub is_empty : Source → Bool
  is_empty s = elim s.queue [ [] ↦ true | f ∷ fs ↦ false ]

  unfoldable pub is_idle : Source → Bool
  is_idle s = is_empty s && not s.active

  unfoldable pub clear : Source → Source
  clear s = record s {
    queue = [];
    dequeue = true;
    idle = true;
    occupancy_bytes = 0;
    occupancy_frames = 0;
    os = none;
    os_sig = false;
  }

  unfoldable pub set_os : Source → Option ℕ → Bool → Source
  set_os s os sig = record s { os = os; os_sig = sig }

  -- `max(deficit_idle_cnt+ifg_cnt, 0)` is a sum here: `ifg_cnt` is not negative.
  abbrev pub carried : Source → ℕ
  carried s = if s.enable_dic then s.deficit_idle_cnt + s.ifg_cnt else s.deficit_idle_cnt

module _ (lib : Library) (c : Codes) where
  -- `# send frame`. `none` is AssertionError.
  unfoldable pub begin : Source → Frame → List Frame → Option Source
  begin s f fs =
      let f' = record (lib.normalize f) { start_lane = 0 } in
      if (get_or f'.bytes 0 0 == c.pre) && not (get_or f'.ctrls 0 true)
      then some (record s {
        frame = some f';
        current_frame = some f';
        queue = fs;
        dequeue = true;
        occupancy_bytes = s.occupancy_bytes - lib.len f;
        occupancy_frames = s.occupancy_frames - 1;
        deficit_idle_cnt = carried lib s;
        ifg_cnt = 0;
        active = true;
        frame_offset = 0;
        sof = true;
        in_pre = true;
      })
      else none

  -- `# in IFG`: four lanes less, and what goes below zero comes off the deficit.
  unfoldable pub wait_gap : Source → Source
  wait_gap s = if leb 4 s.ifg_cnt then record s { ifg_cnt = s.ifg_cnt - 4 } else record s {
    ifg_cnt = 0;
    deficit_idle_cnt =
        if s.enable_dic then s.deficit_idle_cnt + s.ifg_cnt - 4 else s.deficit_idle_cnt;
  }

  abbrev pub idle_lane : Source → Source
  idle_lane s = record s { deficit_idle_cnt = 0; ifg_cnt = 0; active = false; idle = true }

  -- `# idle`, on the queue.
  abbrev pub from_queue : Source → List Frame → Option Source
  from_queue s [] = some (idle_lane s)
  from_queue s (f ∷ fs) = begin s f fs

  abbrev pub next_frame : Source → Option Frame → Option Source
  next_frame s none = from_queue s s.queue
  next_frame s (some f) = some s

  -- The first `if` of lane `k`.
  unfoldable pub arbitrate : Source → ℕ → Option Source
  unfolding wait_gap begin
  arbitrate s k =
      if not (k % 4 == 0)
        || (not (s.rep_cnt == 0) || ((s.force_offset_start && (k == 0)) || s.in_term))
      then some s
      else if ltb 3 (s.ifg_cnt + s.deficit_idle_cnt) || (not s.enable_dic && ltb 0 s.ifg_cnt)
      then some (wait_gap s)
      else next_frame s s.frame

  -- The branch of `if frame is not None` for a frame. `normalize` has left it as many entries of `ctrl`
  -- as of `data`.
  unfoldable pub emit_frame : Source → ℕ → Frame → Lane × Source
  emit_frame s k f =
      if s.sof
      then (
        record { d = c.start; c = true },
        record s {
          sof = false;
          frame = some (record f { start_lane = k });
          current_frame = some (record f { start_lane = k });
        },
      )
      else if leb (length f.bytes) s.frame_offset
      then (
        record { d = c.term; c = true },
        record s { in_term = true; ifg_cnt = s.ifg - (8 - k); frame = none; current_frame = none },
      )
      else (let d = get_or f.bytes s.frame_offset 0 in
          let pre =
            if (d == c.sfd) && ((s.rep_count == 0) || (s.rep_cnt == 1)) then false else s.in_pre in
          (
            if s.frame_offset == 0
                then record { d = 0xAA; c = false }
                else record { d = d; c = get_or f.ctrls s.frame_offset false },
            record s { in_pre = pre },
          ))

  abbrev pub emit_of : Source → ℕ → Option Frame → Lane × Source
  emit_of s k none = (record { d = c.idle; c = true }, s)
  emit_of s k (some f) = emit_frame s k f

  -- `frame_offset += 1`, and the repetition of four lanes.
  unfoldable pub repeat : Source → ℕ → Source
  repeat s k =
      let t = record s { frame_offset = s.frame_offset + 1 } in
      if k % 4 == 3
      then (let rep =
            if ltb 0 s.rep_cnt
            then s.rep_cnt - 1
            else if not (s.rep_count == 0)
                && ((s.rep_count % 2 == 0)
                    || (if s.force_offset_start then not (k == 3) else k == 3))
            then s.rep_count
            else s.rep_cnt in
          record t {
            rep_cnt = rep;
            frame_offset = if ltb 0 rep then t.frame_offset - 4 else t.frame_offset;
          })
      else t

  -- Lane `k`.
  unfoldable pub fill_lane : Source → ℕ → Option (Lane × Source)
  fill_lane s k = elim (arbitrate s k) [
    | none ↦ none
    | some t ↦ some ((emit_of t k t.frame).0, repeat (emit_of t k t.frame).1 k)
  ]

  -- `for k in range(8)`, from lane `k` on.
  unfoldable pub fill_lanes : (count k : ℕ) → Source → Option (List Lane × Source)
  fill_lanes zero k s = some ([], s)
  fill_lanes (suc count) k s = elim (fill_lane s k) [
    | none ↦ none
    | some (lane, t) ↦ elim (fill_lanes count (suc k) t) [
      | none ↦ none
      | some (lanes, u) ↦ some (lane ∷ lanes, u)
    ]
  ]

  abbrev pub all_idle : List Lane → Bool
  all_idle [] = true
  all_idle (l ∷ ls) = l.c && ((l.d == c.idle) && all_idle ls)

  -- Four lanes, with the three bytes of the ordered set in place of idle characters. A value of more than
  -- 24 bits would raise OverflowError.
  unfoldable pub replace_quad : ℕ → Bool → List Lane → List Lane
  replace_quad os sig lanes =
      if all_idle lanes
      then record { d = if sig then c.sig_os else c.seq_os; c = true }
        ∷ record { d = low_bits (os >>> 16) 8; c = false }
        ∷ record { d = low_bits (os >>> 8) 8; c = false }
        ∷ record { d = low_bits os 8; c = false }
        ∷ []
      else lanes

  unfoldable pub replace_os : Option ℕ → Bool → List Lane → List Lane
  replace_os none sig lanes = lanes
  replace_os (some os) sig lanes =
      replace_quad os sig (take 4 lanes) ++ replace_quad os sig (drop 4 lanes)

  -- The lanes of a block, from `dl = bytearray()` to `in_term = False`.
  unfoldable pub fill_block : Source → Option (List Lane × Source)
  fill_block s = elim (fill_lanes 8 0 s) [
    | none ↦ none
    | some (lanes, t) ↦ some (replace_os t.os t.os_sig lanes, record t { in_term = false })
  ]
