-- ===== src/Dma/Rows.antt =====
-- Which bytes of the memory the segment words of a transfer stand for (src/dma/tb/dma_psdp_ram.py,
-- `_process_write` and `_process_read`).
use taxi.Prelude.{
  ℕ, zero, suc, ◌+◌, ◌*◌, ◌/◌, ◌%◌, ◌<◌, ◌≡◌, refl, sym, ap, ap₂, ◌∙◌, List, [], ◌∷◌, map, arith,
}
use native.Mathlib.Nat.{mul_comm, add-mul-div_right, div-div-eq-div-mul, mod-add-mod}
use taxi.Dma.{
  Port, ForSegment, ReadCmd, op_addr, first_seg, next_seg, read_rounds, process_read, segments,
}

-- The numbers from `i` on.
unfoldable pub from : (count i : ℕ) → List ℕ
from zero i = []
from (suc count) i = i ∷ from count (suc i)

row_word : (x n : ℕ) → 0 < n → x / n * n + x % n ≡ x
row_word x n h = grind arith

module _ (p : Port) where
  open p use {seg_count, seg_byte_lanes}

  -- The number of the word of `seg_byte_lanes` bytes that a segment has at a row.
  abbrev pub word_number : ℕ → ℕ → ℕ
  word_number row seg = row * seg_count + seg

  op_addr_lem :
      (address k : ℕ)
      → 0 < seg_byte_lanes
      → op_addr p address k ≡ (address / seg_byte_lanes + k) / seg_count
  unfolding op_addr
  op_addr_lem address k h =
      ap (λ (n : ℕ). (address + k * seg_byte_lanes) / n)
        (omega (arith, mul_comm seg_count seg_byte_lanes))
      ∙ sym (div-div-eq-div-mul (address + k * seg_byte_lanes) seg_byte_lanes seg_count)
      ∙ ap (λ (n : ℕ). n / seg_count) (add-mul-div_right address k h)

  pub word_number-op_addr :
      (address k seg : ℕ)
      → 0 < seg_byte_lanes
      → 0 < seg_count
      → seg ≡ (address / seg_byte_lanes + k) % seg_count
      → word_number (op_addr p address k) seg ≡ address / seg_byte_lanes + k
  word_number-op_addr address k seg h h' e =
      ap₂ (λ (r s : ℕ). r * seg_count + s) (op_addr_lem address k h) e
      ∙ row_word (address / seg_byte_lanes + k) seg_count h'

  pub next_seg_lem :
      (x k seg : ℕ) → seg ≡ (x + k) % seg_count → next_seg p seg ≡ (x + suc k) % seg_count
  next_seg_lem x k seg e =
      ap (λ (s : ℕ). (s + 1) % seg_count) e
      ∙ mod-add-mod (x + k) seg_count 1
      ∙ ap (λ (s : ℕ). s % seg_count) (omega arith)

  read_rounds-words :
      (cmd : ReadCmd) (count k seg : ℕ)
      → 0 < seg_byte_lanes
      → 0 < seg_count
      → seg ≡ (cmd.address / seg_byte_lanes + k) % seg_count
      → map (λ (o : ForSegment ℕ). word_number o.op o.seg) (read_rounds p cmd count k seg)
        ≡ from count (cmd.address / seg_byte_lanes + k)
  unfolding read_rounds from
  read_rounds-words cmd zero k seg h h' e = refl
  read_rounds-words cmd (suc count) k seg h h' e =
      let next : cmd.address / seg_byte_lanes + suc k ≡ suc (cmd.address / seg_byte_lanes + k) =
        omega arith in
      ap₂ (λ (x : ℕ) (xs : List ℕ). x ∷ xs) (word_number-op_addr cmd.address k seg h h' e)
        (read_rounds-words cmd count (suc k) (next_seg p seg) h h'
            (next_seg_lem (cmd.address / seg_byte_lanes) k seg e)
          ∙ ap (from count) next)

  -- If a word has a byte and there is a segment, `_process_read` reads the consecutive words of the
  -- memory from the one that holds the address on, `segments` of them.
  words-process_read :
      (cmd : ReadCmd)
      → 0 < seg_byte_lanes
      → 0 < seg_count
      → map (λ (o : ForSegment ℕ). word_number o.op o.seg) (process_read p cmd).1
        ≡ from (segments p cmd.address cmd.length) (cmd.address / seg_byte_lanes)
  unfolding process_read
  words-process_read cmd h h' =
      let at : cmd.address / seg_byte_lanes + 0 ≡ cmd.address / seg_byte_lanes = omega arith in
      read_rounds-words cmd (segments p cmd.address cmd.length) 0 (first_seg p cmd.address) h h'
        (ap (λ (x : ℕ). x % seg_count) (sym at))
      ∙ ap (from (segments p cmd.address cmd.length)) at
