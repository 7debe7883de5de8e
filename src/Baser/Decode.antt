-- ===== src/Baser/Decode.antt =====
-- The eight XGMII lanes that `BaseRSerdesSink._run` makes of a 64b/66b block (src/eth/tb/baser.py).
use taxi.Prelude.{
  ℕ, zero, suc, ◌+◌, ◌*◌, ◌-◌, Bool, true, false, Option, none, some, List, [], ◌∷◌, ◌++◌, get_or,
  take, drop, replicate, ◌==◌, if◌then◌else◌, ◌>>>◌, low_bits,
}
use taxi.Baser.Codes.{
  Codes, BlockType, ctrl, os_4, start_4, os_start, os_04, start_0, os_0, term_0, term_1, term_2,
  term_3, term_4, term_5, term_6, term_7,
}
use taxi.Baser.Encode.{Block, or_else}

-- `dl`, `cl`, and whether the block has an ordered set (`os`) or is one of control characters alone,
-- which count for the idle match.
pub record Lanes : Type 0 where
  pub dl : List ℕ
  pub cl : List Bool
  pub os : Bool
  pub idle : Bool

-- `data.to_bytes(8, 'little')`, from byte `i` on.
abbrev pub to_bytes : (count i : ℕ) → ℕ → List ℕ
to_bytes zero i word = []
to_bytes (suc count) i word = low_bits (word >>> (i * 8)) 8 ∷ to_bytes count (suc i) word

-- The `elif` chain on `db[0]`: the first type, in this order, that has the value. The terminations are
-- the members of the set that the last test looks in.
abbrev pub type_order : List BlockType
type_order =
    ctrl ∷ os_4 ∷ start_4 ∷ os_start ∷ os_04 ∷ start_0 ∷ os_0 ∷ term_0 ∷ term_1 ∷ term_2 ∷ term_3
    ∷ term_4 ∷ term_5 ∷ term_6 ∷ term_7 ∷ []

module _ (c : Codes) where
  unfoldable pub find_type : List BlockType → ℕ → Option BlockType
  find_type [] value = none
  find_type (t ∷ ts) value =
      let later = find_type ts value in if value == c.block t then some t else later

  -- `baser_ctrl_to_xgmii_mapping.get((data >> i*7+8) & 0x7f, XgmiiCtrl.ERROR)`
  abbrev pub ctrl_char : ℕ → ℕ → ℕ
  ctrl_char word i = or_else (c.baser_ctrl_to_xgmii (low_bits (word >>> (i * 7 + 8)) 7)) c.error

  -- `ctrl`, from lane `i` on.
  abbrev pub ctrl_chars : (count i : ℕ) → ℕ → List ℕ
  ctrl_chars zero i word = []
  ctrl_chars (suc count) i word = ctrl_char word i ∷ ctrl_chars count (suc i) word

  -- The character of an O code.
  abbrev pub os_char : ℕ → ℕ
  os_char code = if code == c.o_seq then c.seq_os else if code == c.o_sig then c.sig_os else c.error

  -- An ordered set or a start, with three bytes behind it.
  abbrev pub mark : List Bool
  mark = true ∷ false ∷ false ∷ false ∷ []

  -- `db[1:term_lane+1]`, the termination, and `ctrl[term_lane+1:]`.
  unfoldable pub decode_term : List ℕ → List ℕ → ℕ → Lanes
  decode_term db codes term_lane = record {
    dl = take term_lane (drop 1 db) ++ (c.term ∷ drop (term_lane + 1) codes);
    cl = replicate term_lane false ++ (true ∷ replicate (7 - term_lane) true);
    os = false;
    idle = false;
  }

  abbrev pub errors : Lanes
  errors = record { dl = replicate 8 c.error; cl = replicate 8 true; os = false; idle = false }

  -- The branch of a block type.
  unfoldable pub decode_type : BlockType → List ℕ → List ℕ → Lanes
  decode_type ctrl db codes = record { dl = codes; cl = replicate 8 true; os = false; idle = true }
  decode_type os_4 db codes = record {
    dl = take 4 codes ++ (os_char (low_bits (get_or db 4 0 >>> 4) 4) ∷ drop 5 db);
    cl = replicate 4 true ++ mark;
    os = true;
    idle = false;
  }
  decode_type start_4 db codes = record {
    dl = take 4 codes ++ (c.start ∷ drop 5 db);
    cl = replicate 4 true ++ mark;
    os = false;
    idle = false;
  }
  decode_type os_start db codes = record {
    dl = os_char (low_bits (get_or db 4 0) 4) ∷ (take 3 (drop 1 db) ++ (c.start ∷ drop 5 db));
    cl = mark ++ mark;
    os = true;
    idle = false;
  }
  decode_type os_04 db codes = record {
    dl =
        os_char (low_bits (get_or db 4 0) 4)
        ∷ (take 3 (drop 1 db) ++ (os_char (low_bits (get_or db 4 0 >>> 4) 4) ∷ drop 5 db));
    cl = mark ++ mark;
    os = true;
    idle = false;
  }
  decode_type start_0 db codes = record {
    dl = c.start ∷ drop 1 db;
    cl = true ∷ replicate 7 false;
    os = false;
    idle = false;
  }
  decode_type os_0 db codes = record {
    dl = os_char (low_bits (get_or db 4 0) 4) ∷ (take 3 (drop 1 db) ++ drop 4 codes);
    cl = mark ++ replicate 4 true;
    os = true;
    idle = false;
  }
  decode_type _ db codes = decode_term db codes (c.block_type_term_lane (get_or db 0 0))

  abbrev pub by_type : Option BlockType → List ℕ → List ℕ → Lanes
  by_type none db codes = errors
  by_type (some t) db codes = decode_type t db codes

  -- From `# remap control characters` to the ordered sets.
  unfoldable pub decode : Block → Lanes
  decode b =
      let codes = ctrl_chars 8 0 b.payload in
      let db = to_bytes 8 0 b.payload in
      if b.hdr == c.sync_data
      then record { dl = db; cl = replicate 8 false; os = false; idle = false }
      else if b.hdr == c.sync_ctrl
      then by_type (find_type type_order (get_or db 0 0)) db codes
      else errors
