-- ===== src/Pcie/Arrival.antt =====
-- The part of a frame that the sink of src/pcie/tb/pcie_if.py has, and what a segment adds to it.
use taxi.Prelude.{
  ℕ, zero, suc, ◌+◌, ◌-◌, ◌≤◌, ◌<◌, ◌≡◌, refl, sym, ap, subst, ◌∙◌, Bool, true, false, ◌⊎◌, inl,
  inr, Option, none, some, List, [], ◌∷◌, ◌++◌, append-nil, append_assoc, length, length-take,
  length-drop, take, drop, replicate, leb, if◌then◌else◌, low_bits, Bool-cases, arith,
}
use taxi.Pcie.{PcieIfFrame, Interface}
use taxi.Pcie.Packed.{keep}
use taxi.Pcie.Send.{Sending, cnt, has_vf, value}
use taxi.Pcie.Receive.{PcieIfSink, header_dwords, take_header, take_lanes}
use taxi.Pcie.Pack.{segment_of}
use taxi.Pcie.Drive.{FrameFits}

abbrev pub cut_to : ℕ → Option ℕ → Option ℕ
cut_to w none = none
cut_to w (some x) = some (low_bits x w)

-- A frame as it arrives: the numbers of the function are cut to their widths, and `tlp_abort` is not sent.
abbrev pub arrived : Interface → PcieIfFrame → PcieIfFrame
arrived c f = record f {
  func_num = low_bits f.func_num c.func_num_width;
  vf_num = cut_to c.vf_num_width f.vf_num;
  tlp_abort = 0;
}

-- A frame of which the sink has a part.
abbrev pub partial : Interface → ℕ → PcieIfFrame → PcieIfFrame
partial c n f = record (arrived c f) { dwords = take n f.dwords; parity = take n f.parity }

-- A frame whose header gives its length, and that fits the interface.
pub record Ready (c : Interface) (f : PcieIfFrame) : Type 0 where
  pub fits : FrameFits c f
  pub announced : header_dwords f.hdr ≡ length f.dwords

-- What the sink has of the frame under way behind a segment.
pub record Under (c : Interface) (x : Sending) (r : PcieIfSink) : Type 0 where
  pub not_first : x.first ≡ false
  pub more : x.frame_offset < length x.frame.dwords
  pub has : r.frame ≡ some (partial c x.frame_offset x.frame)
  pub counted : r.dword_count ≡ length x.frame.dwords - x.frame_offset

pub record Begins (x : Sending) (r : PcieIfSink) : Type 0 where
  pub is_first : x.first ≡ true
  pub at_start : x.frame_offset ≡ 0
  pub no_other : r.frame ≡ none

abbrev pub started : PcieIfFrame → Sending
started f = record { frame = f; frame_offset = 0; first = true }

abbrev pub Starts : Interface → Sending → PcieIfSink → Type 0
Starts c x r = Begins x r ⊎ Under c x r

take-take : (a b : ℕ) (xs : List ℕ) → take a xs ++ take b (drop a xs) ≡ take (a + b) xs
take-take zero b xs = let e : 0 + b ≡ b = omega arith in ap (λ (n : ℕ). take n xs) (sym e)
take-take (suc a) zero [] =
    let e : suc a + 0 ≡ suc a = omega arith in ap (λ (n : ℕ). take {A = ℕ} n []) (sym e)
take-take (suc a) (suc b) [] =
    let e : suc a + suc b ≡ suc (a + suc b) = omega arith in
    ap (λ (n : ℕ). take {A = ℕ} n []) (sym e)
take-take (suc a) b (x ∷ xs) =
    let e : suc a + b ≡ suc (a + b) = omega arith in
    ap (λ (l : List ℕ). x ∷ l) (take-take a b xs) ∙ ap (λ (n : ℕ). take n (x ∷ xs)) (sym e)

pub take_all : (n : ℕ) (xs : List ℕ) → length xs ≤ n → take n xs ≡ xs
take_all zero [] h = refl
take_all zero (x ∷ xs) h = absurd (omega arith)
take_all (suc n) [] h = refl
take_all (suc n) (x ∷ xs) h = ap (λ (l : List ℕ). x ∷ l) (take_all n xs (omega arith))

abbrev extended : PcieIfFrame → List ℕ → List ℕ → PcieIfFrame
extended f ds ps = record f { dwords = f.dwords ++ ds; parity = f.parity ++ ps }

take_lanes-append :
    (n m : ℕ) (ds ps zs ys : List ℕ) (f : PcieIfFrame)
    → n ≡ length ds + m
    → length ds ≡ length ps
    → take_lanes n (ds ++ zs) (ps ++ ys) f ≡ take_lanes m zs ys (extended f ds ps)
take_lanes-append n m [] [] zs ys f e s =
    let none_more : n ≡ m = omega arith in
    let left = sym (append-nil f.dwords) in
    let right = sym (append-nil f.parity) in
    λ i. take_lanes (none_more i) zs ys (record f { dwords = left i; parity = right i })
take_lanes-append n m [] (p ∷ ps) zs ys f e s = absurd (omega arith)
take_lanes-append n m (d ∷ ds) [] zs ys f e s = absurd (omega arith)
take_lanes-append zero m (d ∷ ds) (p ∷ ps) zs ys f e s = absurd (omega arith)
take_lanes-append (suc n) m (d ∷ ds) (p ∷ ps) zs ys f e s =
    let next = extended f (d ∷ []) (p ∷ []) in
    let left = append_assoc f.dwords (d ∷ []) ds in
    let right = append_assoc f.parity (p ∷ []) ps in
    take_lanes-append n m ds ps zs ys next (omega arith) (omega arith)
    ∙ (λ i. take_lanes m zs ys (record f { dwords = left i; parity = right i }))

take_lanes_end :
    (m z : ℕ) (f : PcieIfFrame)
    → (m ≡ 0) ⊎ (z ≡ 0)
    → take_lanes m (replicate z 0) (replicate z 0) f ≡ (f, m)
take_lanes_end zero z f h = refl
take_lanes_end (suc m) zero f h = refl
take_lanes_end (suc m) (suc z) f (inl e) = absurd (omega arith)
take_lanes_end (suc m) (suc z) f (inr e) = absurd (omega arith)

begun_vf :
    (w : ℕ) (v : Option ℕ)
    → (if has_vf v then some (keep (has_vf v) (low_bits (value v) w)) else none) ≡ cut_to w v
begun_vf w none = refl
begun_vf w (some x) = refl

module _ (c : Interface) (lanes_pos : 0 < c.seg_byte_lanes) where
  header_first :
      (f : PcieIfFrame) (count : ℕ)
      → Ready c f
      → take_header (segment_of c (started f)) none count
        ≡ some (partial c 0 f, length f.dwords - 0)
  unfolding take_header
  header_first f count ready =
      let vf = begun_vf c.vf_num_width f.vf_num in
      let size : header_dwords f.hdr ≡ length f.dwords - 0 = omega (arith, ready.announced) in
      λ i. some (record (partial c 0 f) { vf_num = vf i }, size i)

  header_next :
      (x : Sending) (r : PcieIfSink)
      → Under c x r
      → take_header (segment_of c x) r.frame r.dword_count
        ≡ some (partial c x.frame_offset x.frame, length x.frame.dwords - x.frame_offset)
  unfolding take_header
  header_next x r u =
      let frame = partial c x.frame_offset x.frame in
      let at =
        ap (λ (o : Option PcieIfFrame). take_header (segment_of c x) o r.dword_count) u.has in
      at
      ∙ (ap (λ (b : Bool). if b then none else some (frame, r.dword_count)) u.not_first
          ∙ ap (λ (n : ℕ). some (frame, n)) u.counted)

  pub Starts-header :
      (x : Sending) (r : PcieIfSink)
      → Ready c x.frame
      → Starts c x r
      → take_header (segment_of c x) r.frame r.dword_count
        ≡ some (partial c x.frame_offset x.frame, length x.frame.dwords - x.frame_offset)
  Starts-header x r ready (inr u) = header_next x r u
  Starts-header x r ready (inl b) =
      let at =
        ap (λ (o : Option PcieIfFrame). take_header (segment_of c x) o r.dword_count) b.no_other in
      at
      ∙ subst
          (λ (y : Sending).
            take_header (segment_of c y) none r.dword_count
            ≡ some (partial c y.frame_offset y.frame, length y.frame.dwords - y.frame_offset))
          (λ i. record {
            frame = x.frame;
            frame_offset = sym b.at_start i;
            first = sym b.is_first i;
          })
          (header_first x.frame r.dword_count ready)

  module _ (x : Sending) (ready : Ready c x.frame) where
    pub lanes_lem :
        x.frame_offset ≤ length x.frame.dwords
        → take_lanes
            (length x.frame.dwords - x.frame_offset)
            (segment_of c x).lanes
            (segment_of c x).parities
            (partial c x.frame_offset x.frame)
          ≡ (
            partial c (x.frame_offset + cnt c x) x.frame,
            length x.frame.dwords - (x.frame_offset + cnt c x),
          )
    lanes_lem h =
        let f = x.frame in
        let n : ℕ = cnt c x in
        let off : ℕ = x.frame_offset in
        let m : ℕ = length f.dwords - (off + n) in
        let z : ℕ = c.seg_byte_lanes - n in
        let ds = take n (drop off f.dwords) in
        let ps = take n (drop off f.parity) in
        let fits = ready.fits in
        let size : length ds ≡ n =
          omega (arith, length-take n (drop off f.dwords), length-drop off f.dwords) in
        let same : length ps ≡ n =
          omega
            (arith, length-take n (drop off f.parity), length-drop off f.parity, fits.parities) in
        let end : (m ≡ 0) ⊎ (z ≡ 0) =
          elim (Bool-cases (leb (length f.dwords - off) c.seg_byte_lanes)) [
            | inl t ↦ inl (ground (arith, t))
            | inr t ↦ inr (ground (arith, t))
          ] in
        take_lanes-append (length f.dwords - off) m ds ps (replicate z 0) (replicate z 0)
          (partial c off f) (omega (arith, size)) (omega (arith, size, same))
        ∙ (take_lanes_end m z (extended (partial c off f) ds ps) end ∙ λ i. (
          record (arrived c f) {
            dwords = take-take off n f.dwords i;
            parity = take-take off n f.parity i;
          },
          m,
        ))
