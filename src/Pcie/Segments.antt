-- ===== src/Pcie/Segments.antt =====
-- The sink of src/pcie/tb/pcie_if.py takes a segment of the source.
use taxi.Prelude.{
  ℕ, ◌+◌, ◌-◌, ◌/◌, ◌≤◌, ◌<◌, ◌≡◌, refl, sym, ap, subst, ◌∙◌, Bool, true, false, ◌||◌, inl, inr,
  Option, none, some, List, [], ◌∷◌, ◌++◌, append-nil, length, leb, if◌then◌else◌, Bool-cases,
  arith,
}
use native.Mathlib.Nat.{add-div_right, div-eq_of_lt}
use taxi.Pcie.{PcieIfFrame, Interface}
use taxi.Pcie.Send.{Sending, cnt, rest_of, has_data}
use taxi.Pcie.Receive.{
  Segment, PcieIfSink, take_header, take_lanes, take_end, take_rest, take_segment, sink_frame,
}
use taxi.Pcie.Pack.{segment_of}
use taxi.Pcie.Drive.{Within}
use taxi.Pcie.Arrival.{arrived, partial, Ready, Under, Starts, take_all, Starts-header, lanes_lem}

take_segment_lem :
    (g : Segment) (r : PcieIfSink) (f : PcieIfFrame) (n : ℕ)
    → g.valid ≡ true
    → take_header g r.frame r.dword_count ≡ some (f, n)
    → take_segment g r ≡ take_end g.eop (take_lanes n g.lanes g.parities f) r
unfolding take_segment
take_segment_lem g r f n v h =
    ap (λ (b : Bool). if b then take_rest g (take_header g r.frame r.dword_count) r else some r) v
    ∙ ap (λ (o : Option (PcieIfFrame × ℕ)). take_rest g o r) h

take_end-true :
    (b : Bool) (f : PcieIfFrame) (m : ℕ) (r : PcieIfSink)
    → b ≡ true
    → m ≡ 0
    → take_end b (f, m) r ≡ some (record (sink_frame f r) { dword_count = 0 })
unfolding take_end
take_end-true b f m r e z = rw (e, z) refl

take_end-false :
    (b : Bool) (f : PcieIfFrame) (m : ℕ) (r : PcieIfSink)
    → b ≡ false
    → take_end b (f, m) r ≡ some (record r { frame = some f; dword_count = m })
unfolding take_end
take_end-false b f m r e = rw e refl

-- The frame under way, as it will arrive, and how many segments of it are left.
abbrev pub pending : Interface → Option Sending → List PcieIfFrame
pending c none = []
pending c (some x) = arrived c x.frame ∷ []

-- The segments that `n` dwords take: those of seg_byte_lanes dwords that are needed, and one where there are none.
abbrev pub segments_of : Interface → ℕ → ℕ
segments_of c n = 1 + (n - 1) / c.seg_byte_lanes

abbrev pub weight : Interface → Option Sending → ℕ
weight c none = 0
weight c (some x) = segments_of c (length x.frame.dwords - x.frame_offset)

abbrev pub Sits : Interface → Option Sending → PcieIfSink → Type 0
Sits c none r = r.frame ≡ none
Sits c (some x) r = Ready c x.frame × Under c x r

has_data_left : (ds : List ℕ) (off : ℕ) → off < length ds → has_data ds ≡ true
has_data_left [] off h = absurd (omega arith)
has_data_left (d ∷ ds) off h = refl

has_data-length : (ds : List ℕ) → has_data ds ≡ true → 0 < length ds
has_data-length [] e = absurd (ground (arith, e))
has_data-length (d ∷ ds) e = omega arith

or_true : (b : Bool) → b || true ≡ true
or_true true = refl
or_true false = refl

module _ (c : Interface) (lanes_pos : 0 < c.seg_byte_lanes) (x : Sending) (r : PcieIfSink)
    (ready : Ready c x.frame) where
  Starts-valid : Starts c x r → (segment_of c x).valid ≡ true
  Starts-valid (inl b) = ap (λ (t : Bool). t || has_data x.frame.dwords) b.is_first
  Starts-valid (inr u) =
      ap (λ (t : Bool). x.first || t) (has_data_left x.frame.dwords x.frame_offset u.more)
      ∙ or_true x.first

  pub Starts-Within : Starts c x r → Within x
  Starts-Within (inl b) = record {
    before = omega (arith, b.at_start);
    left = λ e. omega (arith, b.at_start, has_data-length x.frame.dwords e);
  }
  Starts-Within (inr u) = record { before = omega (arith, u.more); left = λ e. u.more }

  rest_of-end : leb (length x.frame.dwords) (x.frame_offset + cnt c x) ≡ true → rest_of c x ≡ none
  unfolding rest_of
  rest_of-end e = rw e refl

  rest_of-more :
      leb (length x.frame.dwords) (x.frame_offset + cnt c x) ≡ false
      → rest_of c x ≡ some (record x { frame_offset = x.frame_offset + cnt c x; first = false })
  unfolding rest_of
  rest_of-more e = rw e refl

  last_segment :
      length x.frame.dwords ≤ x.frame_offset + cnt c x
      → segments_of c (length x.frame.dwords - x.frame_offset) ≡ 1
  last_segment h =
      let few : length x.frame.dwords - x.frame_offset - 1 < c.seg_byte_lanes =
        omega (arith, lanes_pos) in
      ap (λ (k : ℕ). 1 + k) (div-eq_of_lt few)

  next_segment :
      x.frame_offset + cnt c x < length x.frame.dwords
      → segments_of c (length x.frame.dwords - (x.frame_offset + cnt c x)) + 1
        ≡ segments_of c (length x.frame.dwords - x.frame_offset)
  next_segment h =
      let m : ℕ = length x.frame.dwords - (x.frame_offset + cnt c x) - 1 in
      let before : length x.frame.dwords - x.frame_offset - 1 ≡ m + c.seg_byte_lanes =
        omega arith in
      let one_less = ap (λ (k : ℕ). k / c.seg_byte_lanes) before ∙ add-div_right m lanes_pos in
      omega (arith, one_less)

  -- What the sink has behind the segment, where `o` is then under way.
  abbrev pub Passed : Option Sending → Type 0
  Passed o =
      (r' : PcieIfSink) × ((take_segment (segment_of c x) r ≡ some r')
        × (Sits c o r'
            × ((r'.queue ++ pending c o ≡ r.queue ++ (arrived c x.frame ∷ []))
                × (weight c o + 1 ≡ weight c (some x)))))

  -- The sink takes a segment, and is with the source behind it as it was before.
  pub take_segment-Starts : Starts c x r → Passed (rest_of c x)
  take_segment-Starts starts =
      let f = x.frame in
      let g = segment_of c x in
      let within = Starts-Within starts in
      let fits = ready.fits in
      let n : ℕ = x.frame_offset + cnt c x in
      let m : ℕ = length f.dwords - n in
      let lanes = lanes_lem c lanes_pos x ready within.before in
      let segment =
        take_segment_lem g r _ _ (Starts-valid starts) (Starts-header c lanes_pos x r ready starts)
        ∙ ap (λ (p : PcieIfFrame × ℕ). take_end g.eop p r) lanes in
      elim (Bool-cases (leb (length f.dwords) n)) [
        | inl e ↦
            (let none_left : m ≡ 0 = ground (arith, e) in
              let all = take_all n f.dwords (ground (arith, e)) in
              let all_par = take_all n f.parity (ground (arith, e, fits.parities)) in
              let r' : PcieIfSink = record (sink_frame (arrived c f) r) { dword_count = 0 } in
              subst Passed (sym (rest_of-end e)) (
                r',
                (
                  segment
                      ∙ (take_end-true g.eop (partial c n f) m r e none_left ∙ λ i.
                          some
                            (record (sink_frame
                              (record (arrived c f) { dwords = all i; parity = all_par i }) r) {
                                dword_count = 0;
                              })),
                  (refl, (append-nil r'.queue, sym (last_segment (ground (arith, e))))),
                ),
              ))
        | inr e ↦
            (let more : n < length f.dwords = ground (arith, e) in
              let r' : PcieIfSink = record r { frame = some (partial c n f); dword_count = m } in
              subst Passed (sym (rest_of-more e)) (
                r',
                (
                  segment ∙ take_end-false g.eop (partial c n f) m r e,
                  (
                    (ready, record { not_first = refl; more = more; has = refl; counted = refl }),
                    (refl, next_segment more),
                  ),
                ),
              ))
      ]
