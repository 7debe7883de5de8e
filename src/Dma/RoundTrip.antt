-- ===== src/Dma/RoundTrip.antt =====
-- The rounds of `_process_write` and `_process_read_resp` over a transfer
-- (src/dma/tb/dma_psdp_ram.py).
use taxi.Prelude.{
  ℕ, zero, suc, ◌+◌, ◌-◌, ◌*◌, ◌/◌, ◌%◌, ◌≤◌, ◌<◌, ◌≡◌, refl, sym, ap, ap₂, ◌∙◌, Option, some, List,
  [], ◌∷◌, ◌++◌, map, length, drop, length-drop, take-append-drop, All, arith,
}
use native.Mathlib.Nat.{add-mul-mod_self_right, div-add-mod', mod-lt}
use taxi.Prelude.Bits.{lt-two-pow}
use taxi.Dma.{
  op_addr, seg_be, Port, WriteCmd, SegWriteData, ForSegment, seg_start, seg_stop, seg_end_offset,
  segments, first_seg, resp_cmd, write_rounds, process_write, join_rounds, next_seg,
}
use taxi.Dma.Lanes.{IsByte, pack_lanes-Packs}
use taxi.Dma.Rows.{from, word_number, word_number-op_addr, next_seg_lem}

All-drop : (n : ℕ) (xs : List ℕ) → All IsByte xs → All IsByte (drop n xs)
All-drop zero xs h = h
All-drop (suc n) [] h = h
All-drop (suc n) (x ∷ xs) h = All-drop n xs h.1

module _ (p : Port) (address count : ℕ) where
  open p use {seg_count, seg_byte_lanes}

  -- The bytes from the start of the first word to the end of the transfer.
  abbrev extent : ℕ
  extent = count + address % seg_byte_lanes

  seg_end_offset_lem :
      0 < seg_byte_lanes
      → seg_end_offset p address count ≡ (extent + (seg_byte_lanes - 1)) % seg_byte_lanes + 1
  seg_end_offset_lem h =
      let l : ℕ = seg_byte_lanes in
      let split : address + count + (l - 1) ≡ extent + (l - 1) + address / l * l =
        omega (arith, div-add-mod' address l) in
      ap (λ (x : ℕ). x % l + 1) split
      ∙ ap (λ (x : ℕ). x + 1) (add-mul-mod_self_right (extent + (l - 1)) (address / l) l)

  -- The last round ends where the transfer does.
  extent_last :
      (before : ℕ)
      → 0 < seg_byte_lanes
      → segments p address count ≡ suc before
      → before * seg_byte_lanes + seg_end_offset p address count ≡ extent
  extent_last before h e =
      let l : ℕ = seg_byte_lanes in
      let rows : suc before * l + (extent + (l - 1)) % l ≡ extent + (l - 1) =
        ap (λ (x : ℕ). x * l + (extent + (l - 1)) % l) (sym e)
        ∙ div-add-mod' (extent + (l - 1)) l in
      let next : suc before * l ≡ before * l + l = grind arith in
      omega (arith, seg_end_offset_lem h, rows, next)

  -- What is left of the data before round `k`, with `more` rounds to go.
  abbrev Left : (more k : ℕ) → List ℕ → Type 0
  Left zero k rest = length rest ≡ 0
  Left (suc more) k rest = k * seg_byte_lanes + (seg_start p address k + length rest) ≡ extent

  abbrev span : ℕ → ℕ
  span k = seg_stop p address count k - seg_start p address k

  seg_start-lt : (k : ℕ) → 0 < seg_byte_lanes → seg_start p address k < seg_byte_lanes
  seg_start-lt k h = ground (arith, mod-lt address h)

  span-Left :
      (more k : ℕ) (rest : List ℕ)
      → 0 < seg_byte_lanes
      → segments p address count ≡ k + suc more
      → Left (suc more) k rest
      → (span k ≤ length rest) × Left more (suc k) (drop (span k) rest)
  span-Left zero k rest h e r =
      let last = extent_last k h (omega (arith, e)) in
      let stop : seg_stop p address count k ≡ seg_end_offset p address count = ground arith in
      (omega arith, omega (arith, length-drop (span k) rest))
  span-Left (suc more) k rest h e r =
      let l : ℕ = seg_byte_lanes in
      let last = extent_last (k + suc more) h (omega (arith, e)) in
      let stop : seg_stop p address count k ≡ l = ground arith in
      let rows : (k + suc more) * l ≡ k * l + l + more * l = grind arith in
      let next : suc k * l ≡ k * l + l = grind arith in
      let start = seg_start-lt k h in
      let whole : seg_start p address (suc k) ≡ 0 = ground arith in
      (omega arith, omega (arith, length-drop (span k) rest))

  before_all_rounds :
      (more : ℕ) (bytes : List ℕ)
      → 0 < seg_byte_lanes
      → length bytes ≡ count
      → segments p address count ≡ more
      → Left more 0 bytes
  before_all_rounds zero bytes h c e =
      let l : ℕ = seg_byte_lanes in
      let x : ℕ = extent + (l - 1) in
      let rows : 0 * l + x % l ≡ x = ap (λ (k : ℕ). k * l + x % l) (sym e) ∙ div-add-mod' x l in
      omega (arith, rows, mod-lt x h)
  before_all_rounds (suc more) bytes h c e = omega (arith, c)

module _ (p : Port) (cmd : WriteCmd) where
  open p use {seg_count, seg_byte_lanes}

  -- What the rounds from `k` on come to: the words of their operations follow each other, and the bytes
  -- that `_process_read_resp` takes from them are the rest of the data.
  abbrev pub Rounds : (more k : ℕ) → List ℕ → Option (List (ForSegment SegWriteData)) → Type 0
  Rounds more k rest outcome =
      (ops : List (ForSegment SegWriteData)) × ((outcome ≡ some ops)
        × ((map (λ (o : ForSegment SegWriteData). word_number p o.op.addr o.seg) ops
              ≡ from more (cmd.address / seg_byte_lanes + k))
            × (join_rounds p (resp_cmd p cmd.address (length cmd.bytes)) k
                  (map (λ (o : ForSegment SegWriteData). o.op.val) ops)
                ≡ rest)))

  write_rounds-Rounds :
      (more k seg : ℕ) (rest : List ℕ)
      → 0 < seg_byte_lanes
      → 0 < seg_count
      → segments p cmd.address (length cmd.bytes) ≡ k + more
      → seg ≡ (cmd.address / seg_byte_lanes + k) % seg_count
      → All IsByte rest
      → Left p cmd.address (length cmd.bytes) more k rest
      → Rounds more k rest (write_rounds p cmd more k seg rest)
  unfolding write_rounds from join_rounds resp_cmd
  write_rounds-Rounds zero k seg [] h h' e e' b l = ([], (refl, (refl, refl)))
  write_rounds-Rounds zero k seg (x ∷ xs) h h' e e' b l = absurd (omega arith)
  write_rounds-Rounds (suc more) k seg rest h h' e e' b l =
      let count : ℕ = length cmd.bytes in
      let n : ℕ = span p cmd.address count k in
      let start : ℕ = seg_start p cmd.address k in
      let (fits, left) = span-Left p cmd.address count more k rest h e l in
      let (v, (packed, (unpacked, low))) =
        pack_lanes-Packs p n start 0 rest b (omega (arith, lt-two-pow (start * 8))) fits in
      let next : cmd.address / seg_byte_lanes + suc k ≡ suc (cmd.address / seg_byte_lanes + k) =
        omega arith in
      let (ops, (later, (words, joined))) =
        write_rounds-Rounds more (suc k) (next_seg p seg) (drop n rest) h h' (omega (arith, e))
          (next_seg_lem p (cmd.address / seg_byte_lanes) k seg e') (All-drop n rest b) left in
      let op : SegWriteData = record {
        addr = op_addr p cmd.address k;
        val = v;
        be = seg_be p cmd.address count k;
      } in
      (
        record { seg = seg; op = op } ∷ ops,
        (
          rw packed (rw later refl),
          (
            ap₂ (λ (x : ℕ) (xs : List ℕ). x ∷ xs) (word_number-op_addr p cmd.address k seg h h' e')
                (words ∙ ap (from more) next),
            ap₂ (λ (xs ys : List ℕ). xs ++ ys) unpacked joined ∙ take-append-drop n rest,
          ),
        ),
      )

  -- If a word has a byte and there is a segment, and the bytes are bytes, `_process_write` raises no
  -- IndexError, its operations are for the consecutive words of the memory from the one that holds the
  -- address on, `segments` of them, and when a read of the same address and length gets their words
  -- back, `_process_read_resp` returns the data.
  pub process_write-join_rounds :
      0 < seg_byte_lanes
      → 0 < seg_count
      → All IsByte cmd.bytes
      → (ops : List (ForSegment SegWriteData)) × ((process_write p cmd
            ≡ some (resp_cmd p cmd.address (length cmd.bytes), ops))
          × ((map (λ (o : ForSegment SegWriteData). word_number p o.op.addr o.seg) ops
                ≡ from (segments p cmd.address (length cmd.bytes)) (cmd.address / seg_byte_lanes))
              × (join_rounds p
                    (resp_cmd p cmd.address (length cmd.bytes))
                    0
                    (map (λ (o : ForSegment SegWriteData). o.op.val) ops)
                  ≡ cmd.bytes)))
  unfolding process_write
  process_write-join_rounds h h' b =
      let count : ℕ = length cmd.bytes in
      let q : ℕ = cmd.address / seg_byte_lanes in
      let at : q + 0 ≡ q = omega arith in
      let (ops, (rounds, (words, joined))) =
        write_rounds-Rounds (segments p cmd.address count) 0 (first_seg p cmd.address) cmd.bytes h
          h' (omega arith) (ap (λ (x : ℕ). x % seg_count) (sym at)) b
          (before_all_rounds p cmd.address count _ cmd.bytes h refl refl) in
      (ops, (rw rounds refl, (words ∙ ap (from (segments p cmd.address count)) at, joined)))
