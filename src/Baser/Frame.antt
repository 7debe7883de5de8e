-- ===== src/Baser/Frame.antt =====
-- The frames that src/eth/tb/baser.py queues: the class XgmiiFrame of cocotbext.eth, as a parameter.
use taxi.Prelude.{ℕ, Bool, List}

-- The bytes (`data`) and whether each is a control character (`ctrl`). The simulation times that both
-- classes write into a frame and its callback `handle_tx_complete` are left out.
pub record Frame : Type 0 where
  pub bytes : List ℕ
  pub ctrls : List Bool
  pub start_lane : ℕ

-- `len(frame)`, `frame.normalize()` and `frame.compact()`.
pub record Library : Type 0 where
  pub len : Frame → ℕ
  pub normalize : Frame → Frame
  pub compact : Frame → Frame
