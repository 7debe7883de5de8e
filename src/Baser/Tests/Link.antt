-- ===== src/Baser/Tests/Link.antt =====
-- Two frames from the source to the sink of src/eth/tb/baser.py.
use taxi.Prelude.{
  inl, ℕ, zero, suc, ◌^◌, ◌<◌, ◌≡◌, refl, true, false, Option, none, some, List, [], ◌∷◌, ◌++◌,
  get_or, replicate, length, All, arith,
}
use taxi.Baser.Frame.{Frame, Library}
use taxi.Baser.Source.{
  Source, fill_block, fill_lanes, fill_lane, arbitrate, begin, wait_gap, emit_frame, repeat,
  replace_os,
}
use taxi.Baser.Sink.{Sink, receive_lanes, receive_lane, take_lane, start_frame, end_frame}
use taxi.Baser.Carry.{IsPlain, Inv, to_send, delivered}
use taxi.Baser.Carry.Emit.{IsFaithful}
use taxi.Baser.Carry.Link.{link, link-Inv}
use taxi.Baser.Wire.{carry}
use taxi.Baser.Wire.Carried.{IsUsual, Ready, carry-Ready}
use taxi.Baser.Tests.Standard.{standard, standard-IsStandard}
use taxi.Baser.Tests.Coder.{idle-IsCtrl}

abbrev library : Library
library = record { len = λ f. length f.bytes; normalize = λ f. f; compact = λ f. f }

abbrev frame_of : List ℕ → Frame
frame_of bytes = record { bytes = bytes; ctrls = replicate (length bytes) false; start_lane = 0 }

abbrev first_frame : Frame
first_frame = frame_of (0x55 ∷ 0x55 ∷ 0x55 ∷ 0x55 ∷ 0x55 ∷ 0x55 ∷ 0x55 ∷ 0xd5 ∷ 1 ∷ 2 ∷ 3 ∷ [])

abbrev second_frame : Frame
second_frame = frame_of (0x55 ∷ 0x55 ∷ 0x55 ∷ 0x55 ∷ 0x55 ∷ 0x55 ∷ 0x55 ∷ 0xd5 ∷ 4 ∷ [])

abbrev source : Source
source = record {
  active = false;
  queue = first_frame ∷ second_frame ∷ [];
  current_frame = none;
  dequeue = false;
  idle = true;
  enable_dic = true;
  ifg = 12;
  force_offset_start = false;
  occupancy_bytes = 20;
  occupancy_frames = 2;
  limit_bytes = 0;
  limit_frames = 0;
  rep_count = 0;
  os = none;
  os_sig = false;
  frame = none;
  frame_offset = 0;
  sof = false;
  in_pre = false;
  in_term = false;
  ifg_cnt = 0;
  deficit_idle_cnt = 0;
  rep_cnt = 0;
}

abbrev sink : Sink
sink = record {
  queue = [];
  arrived = false;
  occupancy_bytes = 0;
  occupancy_frames = 0;
  rep_count = 0;
  os = none;
  os_sig = false;
  os_match_cnt = 0;
  idle_match_cnt = 0;
  frame = none;
  in_pre = false;
  skip_cnt = 0;
}

-- Five blocks take both frames over.
abbrev received : Option (Source × Sink) → List (List ℕ)
received none = []
received (some (s, t)) = delivered library standard t

both_frames :
    received (link library standard 5 source sink) ≡ first_frame.bytes ∷ second_frame.bytes ∷ []
unfolding link fill_block fill_lanes fill_lane arbitrate begin wait_gap emit_frame repeat replace_os
    receive_lanes receive_lane take_lane start_frame end_frame
both_frames = refl

get_or-replicate-false : (n i : ℕ) → get_or (replicate n false) i false ≡ false
get_or-replicate-false zero i = refl
get_or-replicate-false (suc n) zero = refl
get_or-replicate-false (suc n) (suc i) = get_or-replicate-false n i

frame_of-IsPlain : (tail : List ℕ) → IsPlain library standard (frame_of (0x55 ∷ tail))
frame_of-IsPlain tail = (tail, (refl, (refl, get_or-replicate-false (suc (length tail)))))

source-Inv : Inv library standard source sink
source-Inv =
    ((refl, (refl, (refl, (refl, refl)))), ((frame_of-IsPlain _, (frame_of-IsPlain _, tt)), tt))

library-IsFaithful : IsFaithful library standard
library-IsFaithful = record { idle_start = omega arith; compact_bytes = λ f. refl }

link-Inv_example :
    (s' : Source) × (t' : Sink) × ((link library standard 5 source sink ≡ some (s', t'))
      × (Inv library standard s' t'
          × (delivered library standard t' ++ to_send library standard s'
              ≡ first_frame.bytes ∷ second_frame.bytes ∷ [])))
link-Inv_example = link-Inv library standard library-IsFaithful 5 source sink source-Inv

get_or-lt : (bytes : List ℕ) → All (λ (d : ℕ). d < 2 ^ 8) bytes → (i : ℕ) → get_or bytes i 0 < 2 ^ 8
get_or-lt [] h i = omega arith
get_or-lt (d ∷ bytes) h zero = h.0
get_or-lt (d ∷ bytes) h (suc i) = get_or-lt bytes h.1 i

first_bytes : All (λ (d : ℕ). d < 2 ^ 8) first_frame.bytes
first_bytes = (
  omega arith,
  (
    omega arith,
    (
      omega arith,
      (
        omega arith,
        (
          omega arith,
          (
            omega arith,
            (omega arith, (omega arith, (omega arith, (omega arith, (omega arith, tt))))),
          ),
        ),
      ),
    ),
  ),
)

second_bytes : All (λ (d : ℕ). d < 2 ^ 8) second_frame.bytes
second_bytes = (
  omega arith,
  (
    omega arith,
    (
      omega arith,
      (omega arith, (omega arith, (omega arith, (omega arith, (omega arith, (omega arith, tt)))))),
    ),
  ),
)

source-Ready : Ready library standard source sink
source-Ready = (
  source-Inv,
  (
    (
      refl,
      (
        refl,
        (
          (frame_of-IsPlain _, (omega arith, get_or-lt first_frame.bytes first_bytes)),
          ((frame_of-IsPlain _, (omega arith, get_or-lt second_frame.bytes second_bytes)), tt),
        ),
      ),
    ),
    inl refl,
  ),
)

standard-IsUsual : IsUsual standard
standard-IsUsual = record {
  standard = standard-IsStandard;
  idle_ctrl = idle-IsCtrl;
  idle_term = omega arith;
}

carry-Ready_example :
    (s' : Source) × (t' : Sink) × ((carry library standard true 5 source 0 sink 0 ≡ some (s', t'))
      × (Ready library standard s' t'
          × (delivered library standard t' ++ to_send library standard s'
              ≡ first_frame.bytes ∷ second_frame.bytes ∷ [])))
carry-Ready_example =
    carry-Ready library standard true library-IsFaithful standard-IsUsual 5 source 0 sink
      source-Ready
