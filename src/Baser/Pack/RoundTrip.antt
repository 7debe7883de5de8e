-- ===== src/Baser/Pack/RoundTrip.antt =====
-- The blocks come back from the words of an interface (src/eth/tb/baser.py).
use taxi.Prelude.{
  ℕ, zero, suc, ◌+◌, ◌*◌, ◌-◌, ◌/◌, ◌%◌, ◌^◌, ◌<◌, ◌≡◌, refl, ap, ◌∙◌, subst, Bool, true, false,
  List, [], ◌∷◌, ◌++◌, ltb, if◌then◌else◌, All, not, arith,
}
use native.Mathlib.Nat.{mod-eq_of_lt}
use taxi.Baser.Encode.{Block}
use taxi.Baser.Pack.{
  SourceWords, BusWord, first_word, next_word, next_words, block_words, sent_words, SinkWords,
  take_word, with_block, taken_blocks,
}
use taxi.Baser.Pack.Bits.{bit_or-field, reversed_twice, hdr_twice}

module _ (width pack_cnt : ℕ) (reverse : Bool) where
  -- The sink behind `j` words of a block, and the source before its last `count`.
  abbrev part : ℕ → ℕ → ℕ → SinkWords
  part j block hdr = record { pack_seq = j; word = block % 2 ^ (width * j); hdr = hdr }

  abbrev left : ℕ → ℕ → SourceWords
  left count block = record { pack_seq = count; data_word = block }

  add_word-part :
      (count j block hdr : ℕ)
      → suc count + j ≡ pack_cnt
      → 0 < j
      → (take_word width pack_cnt reverse
          (part j block hdr)
          (next_word width pack_cnt reverse (left (suc count) block)).0)
        ≡ (
          record (part (j + 1) block hdr) { pack_seq = if ltb (j + 1) pack_cnt then j + 1 else 0 },
          not (ltb (j + 1) pack_cnt),
        )
  unfolding take_word next_word
  add_word-part count j block hdr h p =
      let many : ltb 1 pack_cnt ≡ true = ground (arith, h, p) in
      let shift : pack_cnt - suc count ≡ j = omega (arith, h) in
      let word = reversed_twice reverse width (block / 2 ^ (width * j)) in
      let next : width * (j + 1) ≡ width * j + width = grind arith in
      let filled = bit_or-field block (width * j) width in rw (many, shift, word, filled, next) refl

  one_word :
      (s : SinkWords) (b : BusWord) (p : SinkWords × Bool) (words : List BusWord)
      → take_word width pack_cnt reverse s b ≡ p
      → taken_blocks width pack_cnt reverse s (b ∷ words)
        ≡ with_block width pack_cnt reverse p.1 p.0 (taken_blocks width pack_cnt reverse p.0 words)
  unfolding taken_blocks
  one_word s b p words e =
      ap
        (λ (q : SinkWords × Bool).
          with_block width pack_cnt reverse q.1 q.0 (taken_blocks width pack_cnt reverse q.0 words))
        e

  next_words-left :
      (count block : ℕ)
      → next_words width pack_cnt reverse (suc count) (left (suc count) block)
        ≡ (next_word width pack_cnt reverse (left (suc count) block)).0
          ∷ next_words width pack_cnt reverse count (left count block)
  unfolding next_words next_word
  next_words-left count block = let less : suc count - 1 ≡ count = omega arith in rw less refl

  -- The last words of a block complete it.
  rest_words :
      (count j block hdr : ℕ) (words : List BusWord)
      → suc count + j ≡ pack_cnt
      → 0 < j
      → (s : SinkWords) × (taken_blocks width pack_cnt reverse
            (part j block hdr)
            (next_words width pack_cnt reverse (suc count) (left (suc count) block) ++ words)
          ≡ record { hdr = hdr; payload = block % 2 ^ (width * pack_cnt) }
            ∷ taken_blocks width pack_cnt reverse s words)
  unfolding next_words
  rest_words zero j block hdr words h p =
      let last : j + 1 ≡ pack_cnt = omega (arith, h) in
      let done : ltb (j + 1) pack_cnt ≡ false = ground (arith, h) in
      let final : SinkWords = record (part (j + 1) block hdr) { pack_seq = 0 } in
      let step : take_word width pack_cnt reverse (part j block hdr)
            (next_word width pack_cnt reverse (left 1 block)).0
          ≡ (final, true) =
        add_word-part zero j block hdr h p ∙ rw done refl in
      (
        final,
        ap
              (λ (ws : List BusWord).
                taken_blocks width pack_cnt reverse (part j block hdr) (ws ++ words))
              (next_words-left zero block)
            ∙ (one_word (part j block hdr) _ (final, true) words step
                ∙ ap
                    (λ (n : ℕ).
                      record { hdr = hdr; payload = block % 2 ^ (width * n) }
                      ∷ taken_blocks width pack_cnt reverse final words)
                    last),
      )
  rest_words (suc count) j block hdr words h p =
      let more : ltb (j + 1) pack_cnt ≡ true = ground (arith, h) in
      let step : take_word width pack_cnt reverse (part j block hdr)
            (next_word width pack_cnt reverse (left (suc (suc count)) block)).0
          ≡ (part (j + 1) block hdr, false) =
        add_word-part (suc count) j block hdr h p ∙ rw more refl in
      let rest = rest_words count (j + 1) block hdr words (omega (arith, h)) (omega arith) in
      (
        rest.0,
        ap
              (λ (ws : List BusWord).
                taken_blocks width pack_cnt reverse (part j block hdr) (ws ++ words))
              (next_words-left (suc count) block)
            ∙ (one_word (part j block hdr) _ (part (j + 1) block hdr, false)
                  (next_words width pack_cnt reverse (suc count) (left (suc count) block) ++ words)
                  step
                ∙ rest.1),
      )

-- A block that the interface can carry.
abbrev pub Fits : ℕ → ℕ → Block → Type 0
Fits width pack_cnt b = (b.hdr < 4) × (b.payload < 2 ^ (width * pack_cnt))

module _ (width : ℕ) (reverse : Bool) where
  first_alone :
      (s : SinkWords) (b : Block)
      → Fits width 1 b
      → take_word width 1 reverse s (first_word width 1 reverse b.payload b.hdr).0
        ≡ (record s { word = b.payload; hdr = b.hdr }, true)
  unfolding take_word first_word
  first_alone s b h =
      let one : width * 1 ≡ width = omega arith in
      let whole : b.payload % 2 ^ width ≡ b.payload =
        mod-eq_of_lt (subst (λ (n : ℕ). b.payload < 2 ^ n) one h.1) in
      rw (reversed_twice reverse width b.payload, hdr_twice reverse b.hdr h.0, whole) refl

  first_part :
      (pack_cnt : ℕ) (s : SinkWords) (b : Block)
      → Fits width pack_cnt b
      → 1 < pack_cnt
      → take_word width pack_cnt reverse s (first_word width pack_cnt reverse b.payload b.hdr).0
        ≡ (part width pack_cnt reverse 1 b.payload b.hdr, false)
  unfolding take_word first_word
  first_part pack_cnt s b h p =
      let many : ltb 1 pack_cnt ≡ true = ground (arith, p) in
      let one : width * 1 ≡ width = omega arith in
      rw (many, reversed_twice reverse width b.payload, hdr_twice reverse b.hdr h.0, one) refl

  -- The words of a block complete it, and no other.
  block_lem :
      (pack_cnt : ℕ) (s : SinkWords) (b : Block) (words : List BusWord)
      → 0 < pack_cnt
      → Fits width pack_cnt b
      → (t : SinkWords) × (taken_blocks width pack_cnt reverse s
            (block_words width pack_cnt reverse b.payload b.hdr ++ words)
          ≡ b ∷ taken_blocks width pack_cnt reverse t words)
  unfolding block_words first_word next_words
  block_lem zero s b words p h = absurd (omega arith)
  block_lem (suc zero) s b words p h = (
    record s { word = b.payload; hdr = b.hdr },
    one_word width 1 reverse s (first_word width 1 reverse b.payload b.hdr).0 _ words
        (first_alone s b h),
  )
  block_lem (suc (suc n)) s b words p h =
      let rest =
        rest_words width (suc (suc n)) reverse n 1 b.payload b.hdr words (omega arith)
          (omega arith) in
      let cnt = suc (suc n) in
      let less : cnt - 1 ≡ suc n = omega arith in
      let whole : b.payload % 2 ^ (width * cnt) ≡ b.payload = mod-eq_of_lt h.1 in
      let sent : ℕ → List BusWord = λ m.
        next_words width cnt reverse m (record { pack_seq = m; data_word = b.payload }) ++ words in
      let begun = part width cnt reverse 1 b.payload b.hdr in
      (
        rest.0,
        one_word width cnt reverse s (first_word width cnt reverse b.payload b.hdr).0 (begun, false)
              (sent (cnt - 1)) (first_part cnt s b h (omega arith))
            ∙ (ap (λ (m : ℕ). taken_blocks width cnt reverse begun (sent m)) less
                ∙ (rest.1
                    ∙ ap
                        (λ (x : ℕ).
                          record { hdr = b.hdr; payload = x }
                          ∷ taken_blocks width cnt reverse rest.0 words)
                        whole)),
      )

  -- A sink with the signal `hdr_valid` puts the blocks together from the words of the source, whatever
  -- state it starts in, if each has a header of two bits and a payload of all words of a block, with the
  -- bits reversed on both sides or on none.
  pub taken_blocks-sent_words :
      (pack_cnt : ℕ) (s : SinkWords) (blocks : List Block)
      → 0 < pack_cnt
      → All (Fits width pack_cnt) blocks
      → taken_blocks width pack_cnt reverse s (sent_words width pack_cnt reverse blocks) ≡ blocks
  unfolding taken_blocks sent_words
  taken_blocks-sent_words pack_cnt s [] p h = refl
  taken_blocks-sent_words pack_cnt s (b ∷ blocks) p h =
      let one = block_lem pack_cnt s b (sent_words width pack_cnt reverse blocks) p h.0 in
      let rest = taken_blocks-sent_words pack_cnt one.0 blocks p h.1 in
      one.1 ∙ ap (λ (bs : List Block). b ∷ bs) rest
