-- ===== src/Ptp/Message.antt =====
-- A message of the source, applied by the sink.
use taxi.Prelude.{
  ℕ, ◌+◌, ◌*◌, ◌%◌, ◌^◌, ◌<◌, ◌≡◌, ap, ◌∙◌, Bool, true, false, some, if◌then◌else◌, ◌<<<◌, ◌>>>◌,
  low_bits, bit_or, ℤ, pos, negsuc, field_ℤ, arith,
}
use taxi.Prelude.Bits.{bit_or_fields, bit_or_comm, bit_or-zero, join_two, join_three}
use taxi.Ptp.Clock.{Clock}
use taxi.Ptp.Clock.Exact.{IsNormal}
use taxi.Ptp.Source.{Source, to_bit, message, control_word}
use taxi.Ptp.Sink.{Sink, apply_common, apply_message}

control_sum :
    (a b t : ℕ)
    → a < 16
    → b < 2
    → bit_or (bit_or a (b * 2 ^ 8)) (t * 2 ^ 9) ≡ t * 2 ^ 9 + (b * 2 ^ 8 + a)
control_sum a b t ha hb =
    let low : bit_or a (b * 2 ^ 8) ≡ b * 2 ^ 8 + a =
      bit_or_comm a (b * 2 ^ 8) ∙ bit_or_fields 8 b a (omega arith) in
    rw (low, bit_or_comm) (bit_or_fields 9 t (b * 2 ^ 8 + a) (omega arith))

to_bit-lt : (b : Bool) → to_bit b < 2
to_bit-lt b = ground arith

-- The control word gives the index back.
control_word-index : (s : Source) (i : ℕ) → i < 16 → low_bits (control_word s i) 4 ≡ i
unfolding control_word
control_word-index s i h =
    rw
      (control_sum (low_bits i 4) (to_bit s.ts_rel_updated) (s.ts_tod_s % 2) (omega arith)
        (to_bit-lt s.ts_rel_updated))
      (omega arith)

-- The flag of word 2 stands above the 14 bits that are read.
flagged : (a : ℕ) (b : Bool) → a < 2 ^ 14 → low_bits (bit_or a (if b then 0x8000 else 0)) 14 ≡ a
flagged a true h = rw bit_or_comm (omega (arith, bit_or_fields 15 1 a (omega arith)))
flagged a false h = omega (arith, bit_or-zero a)

-- Numbers sent in two and three words.
two_words : (n : ℕ) → n < 2 ^ 32 → bit_or (low_bits (n >>> 16) 16 <<< 16) (low_bits n 16) ≡ n
two_words n h = omega (arith, join_two (low_bits (n >>> 16) 16) (low_bits n 16) (omega arith))

three_words :
    (n : ℕ)
    → n < 2 ^ 48
    → bit_or
        (bit_or (low_bits (n >>> 32) 16 <<< 32) (low_bits (n >>> 16) 16 <<< 16))
        (low_bits n 16)
      ≡ n
three_words n h = omega (
  arith,
  join_three (low_bits (n >>> 32) 16) (low_bits (n >>> 16) 16) (low_bits n 16) (omega arith)
      (omega arith),
)

three_words_ℤ :
    (n : ℤ)
    → bit_or (bit_or (field_ℤ n 32 16 <<< 32) (field_ℤ n 16 16 <<< 16)) (field_ℤ n 0 16)
      ≡ field_ℤ n 0 48
three_words_ℤ (pos n) = omega (
  arith,
  join_three (field_ℤ (pos n) 32 16) (field_ℤ (pos n) 16 16) (field_ℤ (pos n) 0 16) (omega arith)
      (omega arith),
)
three_words_ℤ (negsuc n) = omega (
  arith,
  join_three (field_ℤ (negsuc n) 32 16) (field_ℤ (negsuc n) 16 16) (field_ℤ (negsuc n) 0 16)
      (omega arith) (omega arith),
)

-- The nanoseconds, whose upper word has 14 bits and the flag.
tod_words :
    (n : ℕ) (b : Bool)
    → n < 2 ^ 30
    → bit_or
        (low_bits (bit_or (low_bits (n >>> 16) 14) (if b then 0x8000 else 0)) 14 <<< 16)
        (low_bits n 16)
      ≡ n
tod_words n b h =
    rw (flagged (low_bits (n >>> 16) 14) b (omega arith))
      (omega (arith, join_two (low_bits (n >>> 16) 14) (low_bits n 16) (omega arith)))

-- What every message carries from the source's clock to the sink's.
abbrev pub follow : Clock → Clock → Clock
follow to from = record to {
  ts_fns = from.ts_fns;
  ts_rel_ns = from.ts_rel_ns;
  period_fns = from.period_fns;
  period_ns = from.period_ns;
}

apply_common-words :
    (c : Clock) (k : Sink)
    → IsNormal c
    → apply_common k
        (low_bits c.ts_fns 16)
        (low_bits (c.ts_fns >>> 16) 16)
        (low_bits c.ts_rel_ns 16)
        (low_bits (c.ts_rel_ns >>> 16) 16)
        (low_bits (c.ts_rel_ns >>> 32) 16)
        (low_bits c.period_fns 16)
        (low_bits (c.period_fns >>> 16) 16)
        (low_bits c.period_ns 8)
      ≡ record k { clock = follow k.clock c }
unfolding apply_common
apply_common-words c k h =
    rw (two_words c.ts_fns h.fns, three_words c.ts_rel_ns h.rel, two_words c.period_fns h.fns_step)
      (let e : low_bits (low_bits c.period_ns 8) 8 ≡ c.period_ns = omega (arith, h.ns_step) in rw e)

-- Message 0 brings the time of day, the relative time and the period, and changes nothing else.
pub apply-message_tod :
    (s : Source) (k : Sink)
    → IsNormal s.clock
    → s.ts_tod_s < 2 ^ 48
    → apply_message k (message s 0)
      ≡ some (record k {
        clock = follow (record k.clock { ts_tod_ns = s.ts_tod_ns; ts_tod_s = s.ts_tod_s }) s.clock;
      })
unfolding apply_message apply_common message
apply-message_tod s k h hs =
    rw
      (
        control_word-index s 0 (omega arith),
        tod_words s.ts_tod_ns s.ts_tod_updated (omega (arith, h.tod)),
        three_words s.ts_tod_s hs,
      )
      (ap some (
        apply_common-words s.clock
          (record k { clock = record k.clock { ts_tod_ns = s.ts_tod_ns; ts_tod_s = s.ts_tod_s } })
          h))

-- Where the offset is below 2^32 and the source's clock in the ranges of a message (fractions of the time and of
-- the period below 2^32, relative time below 2^48 ns, nanoseconds of the second below 10^9, period below 256 ns,
-- `drift_num` below 2^16), message 1 brings the offset, the state of the drift, the relative time and the period,
-- and leaves all else.
pub apply-message_offset :
    (s : Source) (k : Sink)
    → IsNormal s.clock
    → s.ts_tod_offset_ns < 2 ^ 32
    → apply_message k (message s 1)
      ≡ some (record k {
        clock =
            follow
              (record k.clock {
                drift_num = s.drift_num;
                drift_denom = s.drift_denom;
                drift_cnt = s.drift_cnt;
              })
              s.clock;
        ts_tod_offset_ns = s.ts_tod_offset_ns;
      })
unfolding apply_message apply_common message
apply-message_offset s k h ho =
    rw (control_word-index s 1 (omega arith), two_words s.ts_tod_offset_ns ho)
      (ap some (
        apply_common-words s.clock
          (record k {
            clock = record k.clock {
              drift_num = s.drift_num;
              drift_denom = s.drift_denom;
              drift_cnt = s.drift_cnt;
            };
            ts_tod_offset_ns = s.ts_tod_offset_ns;
          })
          h))

-- Message 2 brings the alternate offset and its second, the second as a number of 48 bits.
apply-message_alt :
    (s : Source) (k : Sink)
    → IsNormal s.clock
    → s.ts_tod_alt_offset_ns < 2 ^ 32
    → apply_message k (message s 2)
      ≡ some (record k {
        clock = follow k.clock s.clock;
        ts_tod_alt_offset_ns = s.ts_tod_alt_offset_ns;
        ts_tod_alt_s = field_ℤ s.ts_tod_alt_s 0 48;
      })
unfolding apply_message apply_common message
apply-message_alt s k h ho =
    rw
      (
        control_word-index s 2 (omega arith),
        two_words s.ts_tod_alt_offset_ns ho,
        three_words_ℤ s.ts_tod_alt_s,
      )
      (ap some (
        apply_common-words s.clock
          (record k {
            ts_tod_alt_offset_ns = s.ts_tod_alt_offset_ns;
            ts_tod_alt_s = field_ℤ s.ts_tod_alt_s 0 48;
          })
          h))
