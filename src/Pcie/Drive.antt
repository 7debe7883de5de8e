-- ===== src/Pcie/Drive.antt =====
-- A transaction of the source of src/pcie/tb/pcie_if.py as the segments side by side.
use taxi.Prelude.{
  ℕ, zero, suc, ◌+◌, ◌-◌, ◌*◌, ◌/◌, ◌^◌, ◌≤◌, ◌<◌, ◌≡◌, refl, ap, ◌∙◌, Bool, true, false, ◌||◌,
  some, List, [], ◌∷◌, ◌++◌, bit_or, ◌<<<◌, length, length-append, length-take, length-drop,
  length-replicate, take, drop, replicate, ltb, leb, All, All-append, arith,
}
use taxi.Prelude.Digits.{digit}
use taxi.Prelude.Bits.{bit_or_step, lt-two-pow}
use native.Mathlib.Nat.{pow-suc, pow-le-pow_right, mod-lt}
use taxi.Pcie.{PcieIfFrame, Interface}
use taxi.Pcie.Packed.{put, keep, Below}
use taxi.Pcie.Send.{Sending, has_vf, value, has_data, cnt, drive_header, drive_data, drive_segment}
use taxi.Pcie.Receive.{Segment}
use taxi.Pcie.Pack.{segment_of, signal, pack_segments, Fits, put-signal, put_lanes-flat}

keep-digit : (b : Bool) → digit b ≡ keep b 1
keep-digit true = refl
keep-digit false = refl

pub digit_lt_two : (b : Bool) → digit b < 2 ^ 1
digit_lt_two true = omega arith
digit_lt_two false = omega arith

bit_or_twice_below : (k a b : ℕ) → a < 2 ^ k → b < 2 ^ k → bit_or (bit_or a b) b ≡ bit_or a b
bit_or_twice_below zero a b p q =
    let e : a ≡ 0 = omega arith in let f : b ≡ 0 = omega arith in rw (e, f) refl
bit_or_twice_below (suc k) a b p q =
    let half : bit_or a b / 2 ≡ bit_or (a / 2) (b / 2) = omega (arith, bit_or_step a b) in
    omega (
      arith,
      bit_or_step a b,
      bit_or_step (bit_or a b) b,
      ap (λ (t : ℕ). bit_or t (b / 2)) half,
      bit_or_twice_below k (a / 2) (b / 2) (omega (arith, pow-suc 2 k))
          (omega (arith, pow-suc 2 k)),
    )

bit_or_twice : (a b : ℕ) → bit_or (bit_or a b) b ≡ bit_or a b
bit_or_twice a b =
    let left : 2 ^ a ≤ 2 ^ (a + b) = pow-le-pow_right (omega arith) (omega arith) in
    let right : 2 ^ b ≤ 2 ^ (a + b) = pow-le-pow_right (omega arith) (omega arith) in
    bit_or_twice_below (a + b) a b (omega (arith, lt-two-pow a, left))
      (omega (arith, lt-two-pow b, right))

put-put : (a b : Bool) (w i x v : ℕ) → put b w i x (put a w i x v) ≡ put (a || b) w i x v
put-put true true w i x v = bit_or_twice v (x <<< (i * w))
put-put true false w i x v = refl
put-put false true w i x v = refl
put-put false false w i x v = refl

pub keep-lt : (b : Bool) (w x : ℕ) → x < 2 ^ w → keep b x < 2 ^ w
keep-lt true w x h = h
keep-lt false w x h = omega (arith, lt-two-pow w)

take-Below : (w n : ℕ) (xs : List ℕ) → Below w xs → Below w (take n xs)
take-Below w zero xs h = tt
take-Below w (suc n) [] h = tt
take-Below w (suc n) (x ∷ xs) h = (h.0, take-Below w n xs h.1)

drop-Below : (w n : ℕ) (xs : List ℕ) → Below w xs → Below w (drop n xs)
drop-Below w zero xs h = h
drop-Below w (suc n) [] h = tt
drop-Below w (suc n) (x ∷ xs) h = drop-Below w n xs h.1

zeros-Below : (w n : ℕ) → Below w (replicate n 0)
zeros-Below w zero = tt
zeros-Below w (suc n) = (omega (arith, lt-two-pow w), zeros-Below w n)

-- The values of a frame fit their fields, and each dword has a parity.
pub record FrameFits (c : Interface) (f : PcieIfFrame) : Type 0 where
  pub hdr_lt : f.hdr < 2 ^ 128
  pub tlp_prfx_lt : f.tlp_prfx < 2 ^ 32
  pub hdr_par_lt : f.hdr_par < 2 ^ 16
  pub tlp_prfx_par_lt : f.tlp_prfx_par < 2 ^ 4
  pub bar_id_lt : f.bar_id < 2 ^ 3
  pub error_lt : f.error < 2 ^ 4
  pub seq_lt : f.seq < 2 ^ c.seq_width
  pub dwords_lt : Below 32 f.dwords
  pub parity_lt : Below 4 f.parity
  pub parities : length f.parity ≡ length f.dwords

-- There is data left of a frame that has data.
pub record Within (x : Sending) : Type 0 where
  pub before : x.frame_offset ≤ length x.frame.dwords
  pub left : has_data x.frame.dwords ≡ true → x.frame_offset < length x.frame.dwords

module _ (c : Interface) (lanes_pos : 0 < c.seg_byte_lanes)
    (lanes_le : c.seg_byte_lanes ≤ 2 ^ c.seg_empty_width) where
  part :
      (w : ℕ) (x : Sending) (xs : List ℕ)
      → length xs ≡ length x.frame.dwords
      → Below w xs
      → let ds = take (cnt c x) (drop x.frame_offset xs) in
        let all = ds ++ replicate (c.seg_byte_lanes - cnt c x) 0 in
        Below w ds × (Below w all × (length all ≡ c.seg_byte_lanes))
  part w x xs e h =
      let n : ℕ = cnt c x in
      let ds = take n (drop x.frame_offset xs) in
      let zeros = replicate (c.seg_byte_lanes - n) 0 in
      let below = take-Below w n (drop x.frame_offset xs) (drop-Below w x.frame_offset xs h) in
      (
        below,
        (
          All-append (λ (y : ℕ). y < 2 ^ w) ds zeros below (zeros-Below w (c.seg_byte_lanes - n)),
          omega (
            arith,
            e,
            length-append ds zeros,
            length-take n (drop x.frame_offset xs),
            length-drop x.frame_offset xs,
            length-replicate {A = ℕ} (c.seg_byte_lanes - n) 0,
          ),
        ),
      )

  module _ (x : Sending) (f : FrameFits c x.frame) (in_frame : Within x) where
    empty_lt :
        (b : Bool)
        → has_data x.frame.dwords ≡ b
        → keep b (c.seg_byte_lanes - cnt c x) < 2 ^ c.seg_empty_width
    empty_lt true e = omega (arith, lanes_le, lanes_pos, in_frame.left e)
    empty_lt false e = omega (arith, lt-two-pow c.seg_empty_width)

    pub segment_of-Fits : Fits c (segment_of c x)
    segment_of-Fits =
        let data_part = part 32 x x.frame.dwords refl f.dwords_lt in
        let parity_part = part 4 x x.frame.parity f.parities f.parity_lt in
        record {
          hdr_lt = keep-lt x.first 128 x.frame.hdr f.hdr_lt;
          tlp_prfx_lt = keep-lt x.first 32 x.frame.tlp_prfx f.tlp_prfx_lt;
          hdr_par_lt = keep-lt x.first 16 x.frame.hdr_par f.hdr_par_lt;
          tlp_prfx_par_lt = keep-lt x.first 4 x.frame.tlp_prfx_par f.tlp_prfx_par_lt;
          bar_id_lt = f.bar_id_lt;
          func_num_lt = mod-lt x.frame.func_num (omega (arith, lt-two-pow c.func_num_width));
          vf_num_lt =
              keep-lt (has_vf x.frame.vf_num) c.vf_num_width _
                (mod-lt (value x.frame.vf_num) (omega (arith, lt-two-pow c.vf_num_width)));
          error_lt = f.error_lt;
          seq_lt = f.seq_lt;
          empty_lt = empty_lt (has_data x.frame.dwords) refl;
          lanes_lt = data_part.1.0;
          lanes_full = data_part.1.1;
          parities_lt = parity_part.1.0;
          parities_full = parity_part.1.1;
        }

    -- The source adds a segment to those of a transaction.
    pub drive_segment-pack_segments :
        (gs : List Segment)
        → All (Fits c) gs
        → drive_segment c (length gs) x (pack_segments c gs)
          ≡ some (pack_segments c (gs ++ (segment_of c x ∷ [])))
    unfolding drive_segment drive_header drive_data
    drive_segment-pack_segments gs l =
        let fr = x.frame in
        let g : Segment = segment_of c x in
        let n : ℕ = cnt c x in
        let enough : ltb (length fr.parity) (x.frame_offset + n) ≡ false =
          ground (arith, f.parities, in_frame.before) in
        let field =
          λ (w : ℕ) (h : Segment → ℕ) (b : Bool) (y : ℕ)
              (k : (i : Segment) → Fits c i → h i < 2 ^ w) (e : h g ≡ keep b y).
            put-signal c w h gs g b y k l e in
        let bit = λ (h : Segment → Bool) (b : Bool) (e : h g ≡ b).
          put-signal c 1 (λ i. digit (h i)) gs g b 1 (λ i k. digit_lt_two (h i)) l
            (ap digit e ∙ keep-digit b) in
        let valid =
          put-put x.first (has_data fr.dwords) 1 (length gs) 1 (signal 1 (λ i. digit i.valid) gs)
          ∙ bit (λ i. i.valid) (x.first || has_data fr.dwords) refl in
        let sop = bit (λ i. i.sop) x.first refl in
        let eop = bit (λ i. i.eop) (leb (length fr.dwords) (x.frame_offset + n)) refl in
        let vf_active = bit (λ i. i.vf_active) (has_vf fr.vf_num) refl in
        let hdr = field 128 (λ i. i.hdr) x.first fr.hdr (λ i k. k.hdr_lt) refl in
        let tlp_prfx = field 32 (λ i. i.tlp_prfx) x.first fr.tlp_prfx (λ i k. k.tlp_prfx_lt) refl in
        let hdr_par = field 16 (λ i. i.hdr_par) x.first fr.hdr_par (λ i k. k.hdr_par_lt) refl in
        let tlp_prfx_par =
          field 4 (λ i. i.tlp_prfx_par) x.first fr.tlp_prfx_par (λ i k. k.tlp_prfx_par_lt) refl in
        let bar_id = field 3 (λ i. i.bar_id) true fr.bar_id (λ i k. k.bar_id_lt) refl in
        let func_num =
          field c.func_num_width (λ i. i.func_num) true _ (λ i k. k.func_num_lt) refl in
        let vf_num =
          field c.vf_num_width (λ i. i.vf_num) (has_vf fr.vf_num) _ (λ i k. k.vf_num_lt) refl in
        let error = field 4 (λ i. i.error) true fr.error (λ i k. k.error_lt) refl in
        let seq = field c.seq_width (λ i. i.seq) true fr.seq (λ i k. k.seq_lt) refl in
        let empty =
          field c.seg_empty_width (λ i. i.empty) (has_data fr.dwords) _ (λ i k. k.empty_lt) refl in
        let payload =
          put_lanes-flat c 32 (λ i. i.lanes) gs g (take n (drop x.frame_offset fr.dwords))
            (c.seg_byte_lanes - n) (λ i k. k.lanes_lt) (λ i k. k.lanes_full) l
            (part 32 x fr.dwords refl f.dwords_lt).0 refl in
        let data_par =
          put_lanes-flat c 4 (λ i. i.parities) gs g (take n (drop x.frame_offset fr.parity))
            (c.seg_byte_lanes - n) (λ i k. k.parities_lt) (λ i k. k.parities_full) l
            (part 4 x fr.parity f.parities f.parity_lt).0 refl in
        rw enough (λ i. some (record {
          payload = payload i;
          empty = empty i;
          sop = sop i;
          eop = eop i;
          valid = valid i;
          error = error i;
          hdr = hdr i;
          tlp_prfx = tlp_prfx i;
          seq = seq i;
          vf_active = vf_active i;
          func_num = func_num i;
          vf_num = vf_num i;
          bar_id = bar_id i;
          data_par = data_par i;
          hdr_par = hdr_par i;
          tlp_prfx_par = tlp_prfx_par i;
        }))
