-- ===== src/Pcie/View.antt =====
-- What the sink of src/pcie/tb/pcie_if.py reads of the segments of a transaction.
use mathlib.Core.Option.{some-injective}
use taxi.Prelude.{
  ℕ, zero, suc, ◌+◌, ◌*◌, ◌/◌, ◌%◌, ◌^◌, ◌≤◌, ◌<◌, ◌≡◌, refl, sym, ap, ◌∙◌, Bool, true, false, some,
  List, [], ◌∷◌, ◌++◌, map, length, get_or, get_elem?, drop, All, arith,
}
use taxi.Prelude.Digits.{test_bit, digit, digit-test_bit}
use taxi.Pcie.{Interface}
use taxi.Pcie.Packed.{get, packed, Below, get-packed, get-get}
use taxi.Pcie.Receive.{Segment, sampled, lanes_of}
use taxi.Pcie.Pack.{pack_segments, flat, signal, Fits, map-Below, flat-Below}
use taxi.Pcie.Drive.{digit_lt_two}

get_or-map :
    (field : Segment → ℕ) (gs : List Segment) (g : Segment) (j : ℕ)
    → get_elem? gs j ≡ some g
    → get_or (map field gs) j 0 ≡ field g
get_or-map field [] g j e = absurd (ground (arith, e))
get_or-map field (h ∷ gs) g zero e = ap field (some-injective h g e)
get_or-map field (h ∷ gs) g (suc j) e = get_or-map field gs g j e

get_or_past :
    (field : Segment → ℕ) (gs : List Segment) (j : ℕ)
    → length gs ≤ j
    → get_or (map field gs) j 0 ≡ 0
get_or_past field [] j h = refl
get_or_past field (g ∷ gs) zero h = absurd (omega arith)
get_or_past field (g ∷ gs) (suc j) h = get_or_past field gs j (omega arith)

get_or_left : (xs ys : List ℕ) (k : ℕ) → k < length xs → get_or (xs ++ ys) k 0 ≡ get_or xs k 0
get_or_left [] ys k h = absurd (omega arith)
get_or_left (x ∷ xs) ys zero h = refl
get_or_left (x ∷ xs) ys (suc k) h = get_or_left xs ys k (omega arith)

get_or_right : (xs ys : List ℕ) (i : ℕ) → get_or (xs ++ ys) (length xs + i) 0 ≡ get_or ys i 0
get_or_right [] ys i = let e : 0 + i ≡ i = omega arith in ap (λ (n : ℕ). get_or ys n 0) e
get_or_right (x ∷ xs) ys i =
    let e : suc (length xs) + i ≡ suc (length xs + i) = omega arith in
    ap (λ (n : ℕ). get_or (x ∷ (xs ++ ys)) n 0) e ∙ get_or_right xs ys i

drop-get_or : (xs : List ℕ) (k : ℕ) → k < length xs → drop k xs ≡ get_or xs k 0 ∷ drop (suc k) xs
drop-get_or [] k h = absurd (omega arith)
drop-get_or (x ∷ xs) zero h = refl
drop-get_or (x ∷ xs) (suc k) h = drop-get_or xs k (omega arith)

drop_all : (xs : List ℕ) (k : ℕ) → length xs ≤ k → drop k xs ≡ []
drop_all [] zero h = refl
drop_all [] (suc k) h = refl
drop_all (x ∷ xs) zero h = absurd (omega arith)
drop_all (x ∷ xs) (suc k) h = drop_all xs k (omega arith)

same_digit : (a b : Bool) → digit a ≡ digit b → a ≡ b
same_digit true true e = refl
same_digit true false e = absurd (omega arith)
same_digit false true e = absurd (omega arith)
same_digit false false e = refl

module _ (c : Interface) where
  get_or-flat :
      (field : Segment → List ℕ) (gs : List Segment) (g : Segment) (j k : ℕ)
      → ((h : Segment) → Fits c h → length (field h) ≡ c.seg_byte_lanes)
      → All (Fits c) gs
      → get_elem? gs j ≡ some g
      → k < c.seg_byte_lanes
      → get_or (flat field gs) (k + j * c.seg_byte_lanes) 0 ≡ get_or (field g) k 0
  get_or-flat field [] g j k h l e b = absurd (ground (arith, e))
  get_or-flat field (i ∷ gs) g zero k h l e b =
      let here : k + 0 * c.seg_byte_lanes ≡ k = omega arith in
      ap (λ (n : ℕ). get_or (field i ++ flat field gs) n 0) here
      ∙ (get_or_left (field i) (flat field gs) k (omega (arith, h i l.0))
          ∙ ap (λ (x : Segment). get_or (field x) k 0) (some-injective i g e))
  get_or-flat field (i ∷ gs) g (suc j) k h l e b =
      let size = h i l.0 in
      let next : suc j * c.seg_byte_lanes ≡ c.seg_byte_lanes + j * c.seg_byte_lanes = grind arith in
      let there : k + suc j * c.seg_byte_lanes ≡ length (field i) + (k + j * c.seg_byte_lanes) =
        omega (arith, next, size) in
      ap (λ (n : ℕ). get_or (field i ++ flat field gs) n 0) there
      ∙ (get_or_right (field i) (flat field gs) (k + j * c.seg_byte_lanes)
          ∙ get_or-flat field gs g j k h l.1 e b)

  module _ (gs : List Segment) (l : All (Fits c) gs) where
    get_bit :
        (b : Segment → Bool) (j : ℕ)
        → digit (test_bit (signal 1 (λ g. digit (b g)) gs) j)
          ≡ get_or (map (λ g. digit (b g)) gs) j 0
    get_bit b j =
        let x = signal 1 (λ g. digit (b g)) gs in
        let one : j * 1 ≡ j = omega arith in
        let same : x / 2 ^ j % 2 ^ 1 ≡ get_or (map (λ g. digit (b g)) gs) j 0 =
          ap (λ (n : ℕ). x / 2 ^ n % 2 ^ 1) (sym one)
          ∙ get-packed 1 (map (λ g. digit (b g)) gs) j
              (map-Below c 1 (λ g. digit (b g)) gs (λ g k. digit_lt_two (b g)) l) in
        digit-test_bit x j ∙ (omega arith ∙ same)

    module _ (j : ℕ) (g : Segment) (e : get_elem? gs j ≡ some g) where
      bit : (b : Segment → Bool) → test_bit (signal 1 (λ h. digit (b h)) gs) j ≡ b g
      bit b = same_digit _ (b g) (get_bit b j ∙ get_or-map (λ h. digit (b h)) gs g j e)

      field :
          (w : ℕ) (f : Segment → ℕ)
          → ((h : Segment) → Fits c h → f h < 2 ^ w)
          → get w j (signal w f gs) ≡ f g
      field w f k = get-packed w (map f gs) j (map-Below c w f gs k l) ∙ get_or-map f gs g j e

      lanes_from :
          (w : ℕ) (f : Segment → List ℕ) (count k : ℕ)
          → ((h : Segment) → Fits c h → Below w (f h))
          → ((h : Segment) → Fits c h → length (f h) ≡ c.seg_byte_lanes)
          → length (f g) ≡ c.seg_byte_lanes
          → k + count ≡ c.seg_byte_lanes
          → lanes_of w (get (c.seg_byte_lanes * w) j (packed w (flat f gs))) count k ≡ drop k (f g)
      lanes_from w f zero k p q size s = sym (drop_all (f g) k (omega arith))
      lanes_from w f (suc count) k p q size s =
          let inside : k < c.seg_byte_lanes = omega arith in
          let v = packed w (flat f gs) in
          let here =
            get-get w c.seg_byte_lanes j k v inside
            ∙ (get-packed w (flat f gs) (k + j * c.seg_byte_lanes) (flat-Below c w f gs p l)
                ∙ get_or-flat f gs g j k q l e inside) in
          let next : k + 1 ≡ suc k = omega arith in
          let rest =
            lanes_from w f count (k + 1) p q size (omega arith)
            ∙ ap (λ (n : ℕ). drop n (f g)) next in
          (λ i. here i ∷ rest i) ∙ sym (drop-get_or (f g) k (omega arith))

      -- A segment is read as it has been driven.
      pub sampled-pack_segments : Fits c g → sampled c (pack_segments c gs) j ≡ g
      unfolding sampled
      sampled-pack_segments fits =
          let n : ℕ = c.seg_byte_lanes in
          let whole : 0 + n ≡ n = omega arith in
          let valid = bit (λ h. h.valid) in
          let sop = bit (λ h. h.sop) in
          let eop = bit (λ h. h.eop) in
          let vf_active = bit (λ h. h.vf_active) in
          let hdr = field 128 (λ h. h.hdr) (λ h k. k.hdr_lt) in
          let tlp_prfx = field 32 (λ h. h.tlp_prfx) (λ h k. k.tlp_prfx_lt) in
          let hdr_par = field 16 (λ h. h.hdr_par) (λ h k. k.hdr_par_lt) in
          let tlp_prfx_par = field 4 (λ h. h.tlp_prfx_par) (λ h k. k.tlp_prfx_par_lt) in
          let bar_id = field 3 (λ h. h.bar_id) (λ h k. k.bar_id_lt) in
          let func_num = field c.func_num_width (λ h. h.func_num) (λ h k. k.func_num_lt) in
          let vf_num = field c.vf_num_width (λ h. h.vf_num) (λ h k. k.vf_num_lt) in
          let error = field 4 (λ h. h.error) (λ h k. k.error_lt) in
          let seq = field c.seq_width (λ h. h.seq) (λ h k. k.seq_lt) in
          let empty = field c.seg_empty_width (λ h. h.empty) (λ h k. k.empty_lt) in
          let lanes =
            lanes_from 32 (λ h. h.lanes) n 0 (λ h k. k.lanes_lt) (λ h k. k.lanes_full)
              fits.lanes_full whole in
          let parities =
            lanes_from 4 (λ h. h.parities) n 0 (λ h k. k.parities_lt) (λ h k. k.parities_full)
              fits.parities_full whole in
          λ i. record {
            valid = valid i;
            sop = sop i;
            eop = eop i;
            vf_active = vf_active i;
            hdr = hdr i;
            tlp_prfx = tlp_prfx i;
            hdr_par = hdr_par i;
            tlp_prfx_par = tlp_prfx_par i;
            bar_id = bar_id i;
            func_num = func_num i;
            vf_num = vf_num i;
            error = error i;
            seq = seq i;
            empty = empty i;
            lanes = lanes i;
            parities = parities i;
          }

    -- Behind the segments of a transaction there is none that is valid.
    pub sampled_past : (j : ℕ) → length gs ≤ j → (sampled c (pack_segments c gs) j).valid ≡ false
    unfolding sampled
    sampled_past j h =
        same_digit _ false (get_bit (λ g. g.valid) j ∙ get_or_past (λ g. digit g.valid) gs j h)
