-- ===== src/Baser/Pack.antt =====
-- The words of a block on an interface of `width` bits (src/eth/tb/baser.py): the source shifts them out,
-- and the sink puts them together. `reverse` is the attribute of both classes.
pub mod Bits
pub mod RoundTrip
use taxi.Prelude.{
  ℕ, zero, suc, ◌+◌, ◌*◌, ◌-◌, ◌^◌, Bool, true, false, List, [], ◌∷◌, ◌==◌, ltb, if◌then◌else◌,
  ◌<<<◌, ◌>>>◌, low_bits, bit_or, not, ◌++◌,
}
use taxi.Prelude.Digits.{test_bit}
use taxi.Baser.Encode.{Block}

-- `sum(1 << (width-1-i) for i in range(width) if (x >> i) & 1)`, from bit `i` on.
unfoldable pub reverse_bits : (count i width : ℕ) → ℕ → ℕ
reverse_bits zero i width x = 0
reverse_bits (suc count) i width x =
    let rest = reverse_bits count (suc i) width x in
    if test_bit x i then (1 <<< (width - 1 - i)) + rest else rest

abbrev pub reversed : Bool → ℕ → ℕ → ℕ
reversed reverse width x = if reverse then reverse_bits width 0 width x else x

-- `pack_seq`, and the local variable `data`.
pub record SourceWords : Type 0 where
  pub pack_seq : ℕ
  pub data_word : ℕ

-- What is driven: `data`, `hdr` and `hdr_valid`.
pub record BusWord : Type 0 where
  pub data_out : ℕ
  pub hdr_out : ℕ
  pub hdr_valid : Bool

module _ (width pack_cnt : ℕ) (reverse : Bool) where
  -- The last part of a round, for a new block.
  unfoldable pub first_word : (block hdr : ℕ) → BusWord × SourceWords
  first_word block hdr = (
    record {
      data_out = low_bits (reversed reverse width block) width;
      hdr_out = reversed reverse 2 hdr;
      hdr_valid = true;
    },
    record { pack_seq = pack_cnt - 1; data_word = block },
  )

  -- `if self.pack_seq`, for a number that is not zero.
  unfoldable pub next_word : SourceWords → BusWord × SourceWords
  next_word s = (
    record {
      data_out =
          low_bits (reversed reverse width (s.data_word >>> (width * (pack_cnt - s.pack_seq))))
            width;
      hdr_out = 0;
      hdr_valid = false;
    },
    record s { pack_seq = s.pack_seq - 1 },
  )

  -- The words until `pack_seq` is zero.
  unfoldable pub next_words : ℕ → SourceWords → List BusWord
  next_words zero s = []
  next_words (suc count) s = (next_word s).0 ∷ next_words count (next_word s).1

  unfoldable pub block_words : (block hdr : ℕ) → List BusWord
  block_words block hdr =
      (first_word block hdr).0
      ∷ next_words (first_word block hdr).1.pack_seq (first_word block hdr).1

  -- The words of a run of blocks.
  unfoldable pub sent_words : List Block → List BusWord
  sent_words [] = []
  sent_words (b ∷ blocks) = block_words b.payload b.hdr ++ sent_words blocks

-- The sink's `pack_seq`, `data` and `hdr`.
pub record SinkWords : Type 0 where
  pub pack_seq : ℕ
  pub word : ℕ
  pub hdr : ℕ

module _ (width pack_cnt : ℕ) (reverse : Bool) where
  abbrev pub add_word : SinkWords → ℕ → SinkWords
  add_word s d = record s {
    word = bit_or s.word (d <<< (width * s.pack_seq));
    pack_seq = if ltb (s.pack_seq + 1) pack_cnt then s.pack_seq + 1 else 0;
  }

  -- A clock edge of a sink that has the signal `hdr_valid`: the state, and whether the block is whole.
  unfoldable pub take_word : SinkWords → BusWord → SinkWords × Bool
  take_word s b =
      let d = reversed reverse width b.data_out in
      let h = reversed reverse 2 b.hdr_out in
      if ltb 1 pack_cnt
      then if b.hdr_valid
        then (record { pack_seq = 1; word = d; hdr = h }, false)
        else (add_word s d, not (ltb (s.pack_seq + 1) pack_cnt))
      else (record s { word = d; hdr = h }, true)

  abbrev pub with_block : Bool → SinkWords → List Block → List Block
  with_block true s blocks = record { hdr = s.hdr; payload = s.word } ∷ blocks
  with_block false s blocks = blocks

  -- The blocks that are whole, over a run of words.
  unfoldable pub taken_blocks : SinkWords → List BusWord → List Block
  taken_blocks s [] = []
  taken_blocks s (b ∷ words) =
      let rest = taken_blocks (take_word s b).0 words in
      with_block (take_word s b).1 (take_word s b).0 rest
