-- ===== src/Baser/Gearbox.antt =====
-- The gearbox of `BaseRSerdesSource` and of `BaseRSerdesSink` (src/eth/tb/baser.py): its configuration,
-- and the part of `_run` that counts the sequence and stalls.
pub mod Sync
use taxi.Prelude.{
  ℕ, zero, suc, ◌+◌, ◌-◌, ◌*◌, ◌/◌, ◌%◌, Bool, true, false, not, ◌&&◌, ◌||◌, Option, none, some,
  List, [], ◌∷◌, length, ltb, leb, ◌==◌, if◌then◌else◌,
}
use taxi.Prelude.Loop.{for_range}

-- The attributes of both classes. `seq_gen` is one of the sink.
pub record Gearbox : Type 0 where
  pub seq : ℕ
  pub seq_gen : ℕ
  pub seq_len : Option ℕ
  pub seq_stall : List ℕ
  pub in_bits : ℕ
  pub out_bits : ℕ
  pub bit_cnt : ℕ

-- What `set_gbx_cfg` ends with, and the attributes behind it.
pub data Configured : Type 0 where
  done type_error assertion_error zero_division : Gearbox → Configured

-- `sorted(list(set(xs)))`, an element at a time.
unfoldable pub insert : ℕ → List ℕ → List ℕ
insert x [] = x ∷ []
insert x (y ∷ ys) =
    let rest = insert x ys in if x == y then y ∷ ys else if ltb x y then x ∷ y ∷ ys else y ∷ rest

unfoldable pub sorted_set : List ℕ → List ℕ
unfolding insert
sorted_set [] = []
sorted_set (x ∷ xs) = insert x (sorted_set xs)

abbrev pub contains : List ℕ → ℕ → Bool
contains [] k = false
contains (x ∷ xs) k = (x == k) || contains xs k

abbrev pub all_below : ℕ → List ℕ → Bool
all_below n [] = true
all_below n (x ∷ xs) = ltb x n && all_below n xs

-- A round of the source's count of bits, in the loop of `set_gbx_cfg` and in `_run`.
unfoldable pub source_bits : ℕ → ℕ → List ℕ → ℕ → ℕ → ℕ
source_bits in_bits out_bits stall k cnt =
    if contains stall k then cnt + in_bits else cnt + in_bits - out_bits

-- A round of the sink's.
unfoldable pub sink_bits : ℕ → ℕ → List ℕ → ℕ → ℕ → ℕ
sink_bits in_bits out_bits stall k cnt =
    if contains stall k then cnt - out_bits else cnt - out_bits + in_bits

-- The attributes that `set_gbx_cfg` of the source resets for no length.
abbrev pub disabled : Gearbox → Gearbox
disabled g = record g {
  bit_cnt = 0;
  seq_len = none;
  seq_stall = [];
  in_bits = 66;
  out_bits = 66;
  seq = 0;
}

-- `set_gbx_cfg` of the source on a length and a set of stall cycles.
unfoldable pub source_cfg : Gearbox → ℕ → List ℕ → Configured
unfolding source_bits
source_cfg g seq_len stall =
    let out_cycles = seq_len - length stall in
    let in_bits = 66 * out_cycles / seq_len in
    if not (all_below seq_len stall)
    then assertion_error g
    else if seq_len == 0
    then zero_division g
    else if not (seq_len * in_bits == out_cycles * 66)
    then assertion_error g
    else done (record {
      seq = 0;
      seq_gen = g.seq_gen;
      seq_len = some seq_len;
      seq_stall = stall;
      in_bits = in_bits;
      out_bits = 66;
      bit_cnt = for_range seq_len 0 (source_bits in_bits 66 stall) 0;
    })

-- Without a length, the source resets its attributes and goes on to `set(None)` or to arithmetic with
-- None, which raise TypeError.
unfoldable pub set_source_cfg : Gearbox → Option ℕ → Option (List ℕ) → Configured
unfolding source_cfg sorted_set
set_source_cfg g none stall = type_error (disabled g)
set_source_cfg g (some seq_len) none = type_error g
set_source_cfg g (some seq_len) (some stall) = source_cfg g seq_len (sorted_set stall)

unfoldable pub sink_cfg : Gearbox → ℕ → List ℕ → Configured
unfolding sink_bits
sink_cfg g seq_len stall =
    let in_cycles = seq_len - length stall in
    let out_bits = 66 * in_cycles / seq_len in
    if not (all_below seq_len stall)
    then assertion_error g
    else if seq_len == 0
    then zero_division g
    else if not (in_cycles * 66 == seq_len * out_bits)
    then assertion_error g
    else done (record {
      seq = 0;
      seq_gen = 0;
      seq_len = some seq_len;
      seq_stall = stall;
      in_bits = 66;
      out_bits = out_bits;
      bit_cnt = for_range seq_len 0 (sink_bits 66 out_bits stall) 0;
    })

unfoldable pub set_sink_cfg : Gearbox → Option ℕ → Option (List ℕ) → Configured
unfolding sink_cfg sorted_set
set_sink_cfg g none stall = type_error (record g { seq_len = none; seq_stall = [] })
set_sink_cfg g (some seq_len) none = type_error g
set_sink_cfg g (some seq_len) (some stall) = sink_cfg g seq_len (sorted_set stall)

-- What a clock edge drives, and whether it is a stall cycle, in which the source drives zeros and ends
-- the round, and the sink skips the round. Without a gearbox, the sink drives
-- `gbx_sync` itself (`drive_sync`).
pub record SourceEdge : Type 0 where
  pub gearbox : Gearbox
  pub sync : Bool
  pub stall : Bool

pub record SinkEdge : Type 0 where
  pub gearbox : Gearbox
  pub req_sync : Bool
  pub req_stall : Bool
  pub drive_sync : Bool
  pub stall : Bool

abbrev pub source_edge_of : Gearbox → Option ℕ → SourceEdge
source_edge_of g none = record {
  gearbox = record g { seq = 0; bit_cnt = 0 };
  sync = false;
  stall = false;
}
source_edge_of g (some seq_len) =
    let seq = (g.seq + 1) % seq_len in
    record {
      gearbox = record g {
        seq = seq;
        bit_cnt = source_bits g.in_bits g.out_bits g.seq_stall seq g.bit_cnt;
      };
      sync = seq == 0;
      stall = contains g.seq_stall seq;
    }

-- `# gearbox sequence` of the source.
unfoldable pub source_edge : Gearbox → SourceEdge
unfolding source_bits
source_edge g = source_edge_of g g.seq_len

-- `if int(self.gbx_sync.value): self.gbx_seq = 0`, where the sink has that signal.
abbrev pub synced : Option Bool → ℕ → ℕ
synced (some true) seq = 0
synced (some false) seq = seq
synced none seq = seq

abbrev pub sink_edge_of : Gearbox → Option Bool → Option ℕ → SinkEdge
sink_edge_of g sync none = record {
  gearbox = record g { seq = 0; seq_gen = 0; bit_cnt = 0 };
  req_sync = false;
  req_stall = false;
  drive_sync = true;
  stall = false;
}
sink_edge_of g sync (some seq_len) =
    let gen = (g.seq_gen + 1) % seq_len in
    let seq = synced sync ((g.seq + 1) % seq_len) in
    record {
      gearbox = record g {
        seq_gen = gen;
        seq = seq;
        bit_cnt = sink_bits g.in_bits g.out_bits g.seq_stall seq g.bit_cnt;
      };
      req_sync = gen == 0;
      req_stall = contains g.seq_stall gen;
      drive_sync = false;
      stall = contains g.seq_stall seq;
    }

unfoldable pub sink_edge : Gearbox → Option Bool → SinkEdge
unfolding sink_bits
sink_edge g sync = sink_edge_of g sync g.seq_len
