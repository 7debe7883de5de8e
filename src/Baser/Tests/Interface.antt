-- ===== src/Baser/Tests/Interface.antt =====
-- The gearbox and the words of an interface of src/eth/tb/baser.py.
use taxi.Prelude.{◌≡◌, refl, true, false, none, some, List, [], ◌∷◌, map, arith}
use taxi.Baser.Gearbox.{
  Gearbox, done, type_error, set_source_cfg, set_sink_cfg, source_cfg, sink_cfg, sorted_set, insert,
  source_bits, sink_bits, source_edge, sink_edge,
}
use taxi.Baser.Gearbox.Sync.{edges, edges_locked}
use taxi.Prelude.Loop.{for_range}
use taxi.Baser.Encode.{Block}
use taxi.Baser.Pack.{
  BusWord, SinkWords, sent_words, block_words, first_word, next_words, next_word, taken_blocks,
}
use taxi.Baser.Pack.RoundTrip.{taken_blocks-sent_words}

-- Two blocks of 66 bits in three cycles of 44.
abbrev reset : Gearbox
reset = record {
  seq = 0;
  seq_gen = 0;
  seq_len = none;
  seq_stall = [];
  in_bits = 66;
  out_bits = 66;
  bit_cnt = 0;
}

abbrev source_box : Gearbox
source_box = record {
  seq = 0;
  seq_gen = 0;
  seq_len = some 3;
  seq_stall = 2 ∷ [];
  in_bits = 44;
  out_bits = 66;
  bit_cnt = 44;
}

abbrev sink_box : Gearbox
sink_box = record {
  seq = 0;
  seq_gen = 0;
  seq_len = some 3;
  seq_stall = 2 ∷ [];
  in_bits = 66;
  out_bits = 44;
  bit_cnt = 44;
}

configured : set_source_cfg reset (some 3) (some (2 ∷ 2 ∷ [])) ≡ done source_box
unfolding set_source_cfg source_cfg sorted_set insert source_bits for_range
configured = refl

sink_configured : set_sink_cfg reset (some 3) (some (2 ∷ [])) ≡ done sink_box
unfolding set_sink_cfg sink_cfg sorted_set insert sink_bits for_range
sink_configured = refl

-- The gearbox cannot be disabled.
not_disabled : set_source_cfg source_box none none ≡ type_error reset
unfolding set_source_cfg
not_disabled = refl

edges_locked_example :
    let p = edges 4 (record source_box { seq = 1 }) sink_box in
    (p.1.seq ≡ p.0.seq)
    × ((sink_edge p.1 (some (source_edge p.0).sync)).stall ≡ (source_edge p.0).stall)
edges_locked_example =
    edges_locked 3 4 (record source_box { seq = 1 }) sink_box (refl, (refl, (refl, omega arith)))
      (omega arith)

-- Two blocks on an interface of 16 bits, with the bits reversed.
abbrev blocks : List Block
blocks =
    record { hdr = 1; payload = 0xd555550000000033 }
    ∷ record { hdr = 2; payload = 0x0123456789abcdef }
    ∷ []

abbrev fresh : SinkWords
fresh = record { pack_seq = 0; word = 7; hdr = 0 }

four_words :
    map (λ (b : BusWord). b.data_out) (sent_words 16 4 false blocks)
    ≡ 0x0033 ∷ 0x0000 ∷ 0x5500 ∷ 0xd555 ∷ 0xcdef ∷ 0x89ab ∷ 0x4567 ∷ 0x0123 ∷ []
unfolding sent_words block_words first_word next_words next_word
four_words = refl

taken_blocks-sent_words_example :
    taken_blocks 16 4 true fresh (sent_words 16 4 true blocks) ≡ blocks
taken_blocks-sent_words_example =
    taken_blocks-sent_words 16 true 4 fresh blocks (omega arith)
      ((omega arith, omega arith), ((omega arith, omega arith), tt))
