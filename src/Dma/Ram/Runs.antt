-- ===== src/Dma/Ram/Runs.antt =====
-- The runs that `PsdpRamWrite` of src/dma/tb/dma_psdp_ram.py writes are the enabled lanes.
use taxi.Prelude.{
  ℕ, zero, suc, ◌+◌, ◌-◌, ◌*◌, ◌/◌, ◌%◌, ltb→lt, ◌^◌, ◌≤◌, ◌<◌, ◌≡◌, refl, sym, ap, ap₂, ◌∙◌, Bool,
  true, false, Option, none, some, List, [], ◌∷◌, ◌++◌, take, drop, length, length-drop, Bool-cases,
  inl, inr, get_or, append_assoc, append-nil, ◌==◌, ltb, if◌then◌else◌, bit_and, arith,
}
use native.Mathlib.Nat.{pow-le-pow_right, div-eq_of_lt}
use taxi.Prelude.Bits.{bit_and-two-pow}
use taxi.Dma.Ram.Lanes.{
  Scan, enabled, slice, close, scan_lane, scan_lanes, write_ops, addressed, written, enabled_bytes,
}

written-append : (xs ys : List (ℕ × List ℕ)) → written (xs ++ ys) ≡ written xs ++ written ys
unfolding written
written-append [] ys = refl
written-append ((a, bs) ∷ xs) ys =
    ap (λ (zs : List (ℕ × ℕ)). addressed a bs ++ zs) (written-append xs ys)
    ∙ sym (append_assoc (addressed a bs) (written xs) (written ys))

addressed-take :
    (xs : List ℕ) (a n : ℕ)
    → n < length xs
    → addressed a (take (suc n) xs) ≡ addressed a (take n xs) ++ ((a + n, get_or xs n 0) ∷ [])
unfolding addressed
addressed-take [] a n h = absurd (omega arith)
addressed-take (x ∷ xs) a zero h = ap (λ (b : ℕ). (b, x) ∷ []) (omega arith)
addressed-take (x ∷ xs) a (suc n) h =
    ap (λ (zs : List (ℕ × ℕ)). (a, x) ∷ zs)
      (addressed-take xs (suc a) n (omega arith)
        ∙ ap (λ (b : ℕ). addressed (suc a) (take n xs) ++ ((b, get_or xs n 0) ∷ [])) (omega arith))

get_or-drop : (xs : List ℕ) (s n : ℕ) → get_or (drop s xs) n 0 ≡ get_or xs (s + n) 0
get_or-drop xs zero n = ap (λ (k : ℕ). get_or xs k 0) (omega arith)
get_or-drop [] (suc s) n = refl
get_or-drop (x ∷ xs) (suc s) n =
    let next : suc (s + n) ≡ suc s + n = omega arith in
    get_or-drop xs s n ∙ ap (λ (k : ℕ). get_or (x ∷ xs) k 0) next

-- A slice that grows by a byte.
addressed-slice :
    (addr : ℕ) (bytes : List ℕ) (start i : ℕ)
    → start ≤ i
    → i < length bytes
    → addressed (addr + start) (slice bytes start (suc i))
      ≡ addressed (addr + start) (slice bytes start i) ++ ((addr + i, get_or bytes i 0) ∷ [])
addressed-slice addr bytes start i h l =
    let n : ℕ = i - start in
    let longer : suc i - start ≡ suc n = omega arith in
    let at : addr + start + n ≡ addr + i = omega arith in
    let same : start + n ≡ i = omega arith in
    ap (λ (k : ℕ). addressed (addr + start) (take k (drop start bytes))) longer
    ∙ addressed-take (drop start bytes) (addr + start) n (omega (arith, length-drop start bytes))
    ∙ ap₂ (λ (a b : ℕ). addressed (addr + start) (slice bytes start i) ++ ((a, b) ∷ [])) at
        (get_or-drop bytes start n ∙ ap (λ (k : ℕ). get_or bytes k 0) same)

-- The bytes of the operations and of the run that is open before lane `i`.
abbrev open_run : ℕ → List ℕ → ℕ → Option ℕ → List (ℕ × ℕ)
open_run addr bytes i none = []
open_run addr bytes i (some start) = addressed (addr + start) (slice bytes start i)

abbrev IsBegun : ℕ → Option ℕ → Type 0
IsBegun i none = Unit
IsBegun i (some start) = start ≤ i

abbrev shown : ℕ → List ℕ → ℕ → Scan → List (ℕ × ℕ)
shown addr bytes i s = written s.write_ops ++ open_run addr bytes i s.start_offset

empty_slice : (addr : ℕ) (bytes : List ℕ) (i : ℕ) → addressed (addr + i) (slice bytes i i) ≡ []
unfolding addressed
empty_slice addr bytes i = let e : i - i ≡ 0 = omega arith in rw e

written-close :
    (addr : ℕ) (bytes : List ℕ) (i : ℕ) (start : Option ℕ) (ops : List (ℕ × List ℕ))
    → written (close addr bytes i (record { start_offset = start; write_ops = ops }))
      ≡ written ops ++ open_run addr bytes i start
unfolding close written
written-close addr bytes i none ops = sym (append-nil (written ops))
written-close addr bytes i (some start) ops = elim (Bool-cases (i == start)) [
  | inl e ↦
      let same : i ≡ start = ground arith in
      rw e (
        sym (append-nil (written ops))
        ∙ ap (λ (zs : List (ℕ × ℕ)). written ops ++ zs)
            (sym (empty_slice addr bytes i)
              ∙ ap (λ (k : ℕ). addressed (addr + k) (slice bytes k i)) same))
  | inr e ↦ rw e (
      written-append ops ((addr + start, slice bytes start i) ∷ [])
      ∙ ap (λ (zs : List (ℕ × ℕ)). written ops ++ zs)
          (append-nil (addressed (addr + start) (slice bytes start i))))
]

-- The byte of lane `i`, if it is enabled.
abbrev lane_byte : ℕ → ℕ → List ℕ → Bool → List (ℕ × ℕ)
lane_byte addr i bytes true = (addr + i, get_or bytes i 0) ∷ []
lane_byte addr i bytes false = []

opened :
    (addr : ℕ) (bytes : List ℕ) (i : ℕ) (start : Option ℕ) (done : List (ℕ × ℕ))
    → IsBegun i start
    → i < length bytes
    → (done ++ open_run addr bytes (suc i) (elim start [ none ↦ some i | some a ↦ some a ])
        ≡ (done ++ open_run addr bytes i start) ++ lane_byte addr i bytes true)
      × IsBegun (suc i) (elim start [ none ↦ some i | some a ↦ some a ])
opened addr bytes i none done b l = (
  ap (λ (zs : List (ℕ × ℕ)). done ++ zs)
        (addressed-slice addr bytes i i (omega arith) l
          ∙ ap (λ (zs : List (ℕ × ℕ)). zs ++ lane_byte addr i bytes true)
              (empty_slice addr bytes i))
      ∙ sym (append_assoc done [] (lane_byte addr i bytes true)),
  omega arith,
)
opened addr bytes i (some start) done b l = (
  ap (λ (zs : List (ℕ × ℕ)). done ++ zs) (addressed-slice addr bytes start i b l)
      ∙ sym (
          append_assoc done (addressed (addr + start) (slice bytes start i))
            (lane_byte addr i bytes true)),
  omega arith,
)

shown-scan_lane :
    (addr : ℕ) (bytes : List ℕ) (seg_be i : ℕ) (start : Option ℕ) (ops : List (ℕ × List ℕ))
    → IsBegun i start
    → (enabled seg_be i ≡ true → i < length bytes)
    → let s : Scan = record { start_offset = start; write_ops = ops } in
      let s' : Scan = scan_lane addr bytes seg_be i s in
      (shown addr bytes (suc i) s'
        ≡ shown addr bytes i s ++ lane_byte addr i bytes (enabled seg_be i))
      × IsBegun (suc i) s'.start_offset
unfolding scan_lane
shown-scan_lane addr bytes seg_be i start ops b l = elim (Bool-cases (enabled seg_be i)) [
  | inl e ↦ rw e (opened addr bytes i start (written ops) b (l e))
  | inr e ↦ rw e (
    (append-nil (written (close addr bytes i (record { start_offset = start; write_ops = ops })))
        ∙ written-close addr bytes i start ops
        ∙ sym (append-nil (written ops ++ open_run addr bytes i start))),
    tt,
  )
]

lane_first :
    (addr i : ℕ) (bytes : List ℕ) (b : Bool) (later : List (ℕ × ℕ))
    → lane_byte addr i bytes b ++ later
      ≡ (if b then (addr + i, get_or bytes i 0) ∷ later else later)
lane_first addr i bytes true later = refl
lane_first addr i bytes false later = refl

shown-scan_lanes :
    (count i addr : ℕ) (bytes : List ℕ) (seg_be : ℕ) (start : Option ℕ) (ops : List (ℕ × List ℕ))
    → IsBegun i start
    → ((j : ℕ) → enabled seg_be j ≡ true → j < length bytes)
    → let s : Scan = record { start_offset = start; write_ops = ops } in
      shown addr bytes (i + count) (scan_lanes count i addr bytes seg_be s)
      ≡ shown addr bytes i s ++ enabled_bytes count i addr bytes seg_be
unfolding scan_lanes enabled_bytes
shown-scan_lanes zero i addr bytes seg_be start ops b l =
    ap (λ (k : ℕ). shown addr bytes k (record { start_offset = start; write_ops = ops }))
      (omega arith)
    ∙ sym (append-nil (shown addr bytes i (record { start_offset = start; write_ops = ops })))
shown-scan_lanes (suc count) i addr bytes seg_be start ops b l =
    let s : Scan = record { start_offset = start; write_ops = ops } in
    let s' : Scan = scan_lane addr bytes seg_be i s in
    let later = enabled_bytes count (suc i) addr bytes seg_be in
    let step = shown-scan_lane addr bytes seg_be i start ops b (l i) in
    ap (λ (k : ℕ). shown addr bytes k (scan_lanes count (suc i) addr bytes seg_be s')) (omega arith)
    ∙ shown-scan_lanes count (suc i) addr bytes seg_be s'.start_offset s'.write_ops step.1 l
    ∙ ap (λ (zs : List (ℕ × ℕ)). zs ++ later) step.0
    ∙ append_assoc (shown addr bytes i s) (lane_byte addr i bytes (enabled seg_be i)) later
    ∙ ap (λ (zs : List (ℕ × ℕ)). shown addr bytes i s ++ zs)
        (lane_first addr i bytes (enabled seg_be i) later)

enabled-lt : (n be j : ℕ) → be < 2 ^ n → enabled be j ≡ true → j < n
enabled-lt n be j h e = elim (Bool-cases (ltb j n)) [
  | inl f ↦ ltb→lt j n f
  | inr f ↦
      let bound : 2 ^ n ≤ 2 ^ j = pow-le-pow_right (omega arith) (ground arith) in
      let high : be / 2 ^ j ≡ 0 = div-eq_of_lt (omega arith) in
      let one : 1 * 2 ^ j ≡ 2 ^ j = omega arith in
      let none_set : 0 % 2 * 2 ^ j ≡ 0 = omega arith in
      let two_pow : bit_and be (1 * 2 ^ j) ≡ 0 =
        ap (bit_and be) one
        ∙ bit_and-two-pow j be
        ∙ ap (λ (x : ℕ). x % 2 * 2 ^ j) high
        ∙ none_set in
      absurd (ground arith)
]

-- If there are no enables past the bytes of the word, the operations write the bytes of the enabled
-- lanes below `byte_lanes`, each at its own address, in order and once.
pub written-write_ops :
    (byte_lanes addr : ℕ) (bytes : List ℕ) (seg_be : ℕ)
    → seg_be < 2 ^ length bytes
    → written (write_ops byte_lanes addr bytes seg_be)
      ≡ enabled_bytes byte_lanes 0 addr bytes seg_be
unfolding write_ops written
written-write_ops byte_lanes addr bytes seg_be l =
    let s : Scan =
      scan_lanes byte_lanes 0 addr bytes seg_be (record { start_offset = none; write_ops = [] }) in
    written-close addr bytes byte_lanes s.start_offset s.write_ops
    ∙ ap (λ (k : ℕ). shown addr bytes k s) (omega arith)
    ∙ shown-scan_lanes byte_lanes 0 addr bytes seg_be none [] tt
        (λ (j : ℕ) e. enabled-lt (length bytes) seg_be j l e)
