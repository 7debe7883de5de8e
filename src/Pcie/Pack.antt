-- ===== src/Pcie/Pack.antt =====
-- The segments of a transaction side by side (src/pcie/tb/pcie_if.py).
use taxi.Prelude.{
  ℕ, suc, ◌+◌, ◌-◌, ◌*◌, ◌^◌, ◌<◌, ◌≡◌, refl, sym, ap, ◌∙◌, Bool, ◌||◌, List, [], ◌∷◌, ◌++◌, map,
  length, length-append, append_assoc, append-nil, take, drop, replicate, leb, All, All-append,
  low_bits, arith,
}
use taxi.Prelude.Digits.{digit}
use taxi.Pcie.{Interface, Transaction}
use taxi.Pcie.Packed.{
  put, put_lanes, packed, keep, Below, put-packed, put_lanes-packed, packed-zeros,
}
use taxi.Pcie.Send.{Sending, has_vf, value, has_data, cnt}
use taxi.Pcie.Receive.{Segment}

-- What the source drives in a segment.
abbrev pub segment_of : Interface → Sending → Segment
segment_of c x =
    let f = x.frame in
    record {
      valid = x.first || has_data f.dwords;
      sop = x.first;
      eop = leb (length f.dwords) (x.frame_offset + cnt c x);
      vf_active = has_vf f.vf_num;
      hdr = keep x.first f.hdr;
      tlp_prfx = keep x.first f.tlp_prfx;
      hdr_par = keep x.first f.hdr_par;
      tlp_prfx_par = keep x.first f.tlp_prfx_par;
      bar_id = f.bar_id;
      func_num = low_bits f.func_num c.func_num_width;
      vf_num = keep (has_vf f.vf_num) (low_bits (value f.vf_num) c.vf_num_width);
      error = f.error;
      seq = f.seq;
      empty = keep (has_data f.dwords) (c.seg_byte_lanes - cnt c x);
      lanes =
          take (cnt c x) (drop x.frame_offset f.dwords) ++ replicate (c.seg_byte_lanes - cnt c x) 0;
      parities =
          take (cnt c x) (drop x.frame_offset f.parity) ++ replicate (c.seg_byte_lanes - cnt c x) 0;
    }

abbrev pub flat : (Segment → List ℕ) → List Segment → List ℕ
flat field [] = []
flat field (g ∷ gs) = field g ++ flat field gs

abbrev pub signal : ℕ → (Segment → ℕ) → List Segment → ℕ
signal w field gs = packed w (map field gs)

abbrev pub pack_segments : Interface → List Segment → Transaction
pack_segments c gs = record {
  payload = packed 32 (flat (λ g. g.lanes) gs);
  empty = signal c.seg_empty_width (λ g. g.empty) gs;
  sop = signal 1 (λ g. digit g.sop) gs;
  eop = signal 1 (λ g. digit g.eop) gs;
  valid = signal 1 (λ g. digit g.valid) gs;
  error = signal 4 (λ g. g.error) gs;
  hdr = signal 128 (λ g. g.hdr) gs;
  tlp_prfx = signal 32 (λ g. g.tlp_prfx) gs;
  seq = signal c.seq_width (λ g. g.seq) gs;
  vf_active = signal 1 (λ g. digit g.vf_active) gs;
  func_num = signal c.func_num_width (λ g. g.func_num) gs;
  vf_num = signal c.vf_num_width (λ g. g.vf_num) gs;
  bar_id = signal 3 (λ g. g.bar_id) gs;
  data_par = packed 4 (flat (λ g. g.parities) gs);
  hdr_par = signal 16 (λ g. g.hdr_par) gs;
  tlp_prfx_par = signal 4 (λ g. g.tlp_prfx_par) gs;
}

-- The values of a segment fit their fields.
pub record Fits (c : Interface) (g : Segment) : Type 0 where
  pub hdr_lt : g.hdr < 2 ^ 128
  pub tlp_prfx_lt : g.tlp_prfx < 2 ^ 32
  pub hdr_par_lt : g.hdr_par < 2 ^ 16
  pub tlp_prfx_par_lt : g.tlp_prfx_par < 2 ^ 4
  pub bar_id_lt : g.bar_id < 2 ^ 3
  pub func_num_lt : g.func_num < 2 ^ c.func_num_width
  pub vf_num_lt : g.vf_num < 2 ^ c.vf_num_width
  pub error_lt : g.error < 2 ^ 4
  pub seq_lt : g.seq < 2 ^ c.seq_width
  pub empty_lt : g.empty < 2 ^ c.seg_empty_width
  pub lanes_lt : Below 32 g.lanes
  pub lanes_full : length g.lanes ≡ c.seg_byte_lanes
  pub parities_lt : Below 4 g.parities
  pub parities_full : length g.parities ≡ c.seg_byte_lanes

map-append_one :
    (field : Segment → ℕ) (gs : List Segment) (g : Segment)
    → map field (gs ++ (g ∷ [])) ≡ map field gs ++ (field g ∷ [])
map-append_one field [] g = refl
map-append_one field (h ∷ gs) g = ap (λ (l : List ℕ). field h ∷ l) (map-append_one field gs g)

length-map : (field : Segment → ℕ) (gs : List Segment) → length (map field gs) ≡ length gs
length-map field [] = refl
length-map field (g ∷ gs) = ap suc (length-map field gs)

flat-append_one :
    (field : Segment → List ℕ) (gs : List Segment) (g : Segment)
    → flat field (gs ++ (g ∷ [])) ≡ flat field gs ++ field g
flat-append_one field [] g = append-nil (field g)
flat-append_one field (h ∷ gs) g =
    ap (λ (l : List ℕ). field h ++ l) (flat-append_one field gs g)
    ∙ sym (append_assoc (field h) (flat field gs) (field g))

module _ (c : Interface) where
  pub map-Below :
      (w : ℕ) (field : Segment → ℕ) (gs : List Segment)
      → ((g : Segment) → Fits c g → field g < 2 ^ w)
      → All (Fits c) gs
      → Below w (map field gs)
  map-Below w field [] h l = tt
  map-Below w field (g ∷ gs) h l = (h g l.0, map-Below w field gs h l.1)

  pub flat-Below :
      (w : ℕ) (field : Segment → List ℕ) (gs : List Segment)
      → ((g : Segment) → Fits c g → Below w (field g))
      → All (Fits c) gs
      → Below w (flat field gs)
  flat-Below w field [] h l = tt
  flat-Below w field (g ∷ gs) h l =
      All-append (λ (x : ℕ). x < 2 ^ w) (field g) (flat field gs) (h g l.0)
        (flat-Below w field gs h l.1)

  pub length-flat :
      (field : Segment → List ℕ) (gs : List Segment)
      → ((g : Segment) → Fits c g → length (field g) ≡ c.seg_byte_lanes)
      → All (Fits c) gs
      → length (flat field gs) ≡ length gs * c.seg_byte_lanes
  length-flat field [] h l = omega arith
  length-flat field (g ∷ gs) h l =
      let more : (length gs + 1) * c.seg_byte_lanes
          ≡ c.seg_byte_lanes + length gs * c.seg_byte_lanes =
        grind arith in
      let next : suc (length gs) * c.seg_byte_lanes ≡ (length gs + 1) * c.seg_byte_lanes =
        grind arith in
      omega (
        arith,
        length-append (field g) (flat field gs),
        h g l.0,
        length-flat field gs h l.1,
        more,
        next,
      )

  pub put-signal :
      (w : ℕ) (field : Segment → ℕ) (gs : List Segment) (g : Segment) (b : Bool) (x : ℕ)
      → ((h : Segment) → Fits c h → field h < 2 ^ w)
      → All (Fits c) gs
      → field g ≡ keep b x
      → put b w (length gs) x (signal w field gs) ≡ signal w field (gs ++ (g ∷ []))
  put-signal w field gs g b x h l e =
      ap (λ (n : ℕ). put b w n x (signal w field gs)) (sym (length-map field gs))
      ∙ (put-packed w b (map field gs) x (map-Below w field gs h l)
          ∙ ap (packed w)
              (ap (λ (y : ℕ). map field gs ++ (y ∷ [])) (sym e) ∙ sym (map-append_one field gs g)))

  pub put_lanes-flat :
      (w : ℕ) (field : Segment → List ℕ) (gs : List Segment) (g : Segment) (ds : List ℕ) (zeros : ℕ)
      → ((h : Segment) → Fits c h → Below w (field h))
      → ((h : Segment) → Fits c h → length (field h) ≡ c.seg_byte_lanes)
      → All (Fits c) gs
      → Below w ds
      → field g ≡ ds ++ replicate zeros 0
      → put_lanes w (length gs * c.seg_byte_lanes) ds (packed w (flat field gs))
        ≡ packed w (flat field (gs ++ (g ∷ [])))
  put_lanes-flat w field gs g ds zeros h k l b e =
      let all = flat field gs in
      ap (λ (n : ℕ). put_lanes w n ds (packed w all)) (sym (length-flat field gs k l))
      ∙ (put_lanes-packed w all ds (flat-Below w field gs h l) b
          ∙ (sym (packed-zeros w (all ++ ds) zeros)
              ∙ ap (packed w) (
                  append_assoc all ds (replicate zeros 0)
                  ∙ (ap (λ (t : List ℕ). all ++ t) (sym e) ∙ sym (flat-append_one field gs g)))))
