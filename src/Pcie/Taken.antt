-- ===== src/Pcie/Taken.antt =====
-- The sink of src/pcie/tb/pcie_if.py takes the segments of a transaction one after the other.
use taxi.Prelude.{
  ℕ, zero, suc, ◌+◌, ◌≤◌, ◌≡◌, refl, sym, ap, subst, ◌∙◌, Bool, false, inl, inr, Option, none, some,
  Option-cases, List, [], ◌∷◌, ◌++◌, append_assoc, length, length-append, get_elem?, All,
  if◌then◌else◌, arith,
}
use taxi.Pcie.{Interface}
use taxi.Pcie.Receive.{
  Segment, PcieIfSink, sampled, take_rest, take_header, take_segment, take_segments,
}
use taxi.Pcie.Pack.{pack_segments, Fits}
use taxi.Pcie.View.{sampled-pack_segments, sampled_past}

abbrev pub takes : List Segment → PcieIfSink → Option PcieIfSink
takes [] r = some r
takes (g ∷ gs) r = elim (take_segment g r) [ none ↦ none | some r' ↦ takes gs r' ]

pub takes_more :
    (g : Segment) (gs : List Segment) (r r' : PcieIfSink)
    → take_segment g r ≡ some r'
    → takes (g ∷ gs) r ≡ takes gs r'
takes_more g gs r r' e = rw (e, takes) refl

takes-none :
    (g : Segment) (gs : List Segment) (r : PcieIfSink)
    → take_segment g r ≡ none
    → takes (g ∷ gs) r ≡ none
takes-none g gs r e = rw (e, takes) refl

get_elem?-append :
    (done : List Segment) (g : Segment) (rest : List Segment)
    → get_elem? (done ++ (g ∷ rest)) (length done) ≡ some g
get_elem?-append [] g rest = refl
get_elem?-append (d ∷ done) g rest = get_elem?-append done g rest

Fits-of :
    {c : Interface} (done : List Segment) (g : Segment) (rest : List Segment)
    → All (Fits c) (done ++ (g ∷ rest))
    → Fits c g
Fits-of [] g rest l = l.0
Fits-of (d ∷ done) g rest l = Fits-of done g rest l.1

idle_segment : (g : Segment) (r : PcieIfSink) → g.valid ≡ false → take_segment g r ≡ some r
unfolding take_segment
idle_segment g r e =
    ap (λ (b : Bool). if b then take_rest g (take_header g r.frame r.dword_count) r else some r) e

module _ (c : Interface) (all : List Segment) (l : All (Fits c) all) where
  segments_more :
      (n seg : ℕ) (r r' : PcieIfSink)
      → take_segment (sampled c (pack_segments c all) seg) r ≡ some r'
      → take_segments c (pack_segments c all) (suc n) seg r
        ≡ take_segments c (pack_segments c all) n (seg + 1) r'
  unfolding take_segments
  segments_more n seg r r' e =
      ap
        (λ (o : Option PcieIfSink). elim o [
          | none ↦ none
          | some s ↦ take_segments c (pack_segments c all) n (seg + 1) s
        ])
        e

  segments_idle :
      (n seg : ℕ) (r : PcieIfSink)
      → length all ≤ seg
      → take_segments c (pack_segments c all) n seg r ≡ some r
  unfolding take_segments
  segments_idle zero seg r h = refl
  segments_idle (suc n) seg r h =
      segments_more n seg r r
        (idle_segment (sampled c (pack_segments c all) seg) r (sampled_past c all l seg h))
      ∙ segments_idle n (seg + 1) r (omega arith)

  pub segments_taken :
      (n : ℕ) (done rest : List Segment) (r r' : PcieIfSink)
      → all ≡ done ++ rest
      → length rest ≤ n
      → takes rest r ≡ some r'
      → take_segments c (pack_segments c all) n (length done) r ≡ some r'
  unfolding take_segments
  segments_taken n done [] r r' e h t =
      let size : length all ≤ length done =
        omega
          (arith, ap (λ (gs : List Segment). length gs) e, length-append {A = Segment} done []) in
      segments_idle n (length done) r size ∙ t
  segments_taken zero done (g ∷ rest) r r' e h t = absurd (omega arith)
  segments_taken (suc n) done (g ∷ rest) r r' e h t = elim (Option-cases (take_segment g r)) [
    | inl q ↦ absurd (ground (arith, sym (takes-none g rest r q) ∙ t))
    | inr (r1, q) ↦
        (let here : get_elem? all (length done) ≡ some g =
            ap (λ (gs : List Segment). get_elem? gs (length done)) e
            ∙ get_elem?-append done g rest in
          let read =
            sampled-pack_segments c all l (length done) g here
              (Fits-of done g rest (subst (All (Fits c)) e l)) in
          let next : length done + 1 ≡ length (done ++ (g ∷ [])) =
            omega (arith, length-append {A = Segment} done (g ∷ [])) in
          segments_more n (length done) r r1 (ap (λ (h : Segment). take_segment h r) read ∙ q)
          ∙ (ap (λ (k : ℕ). take_segments c (pack_segments c all) n k r1) next
              ∙ segments_taken n (done ++ (g ∷ [])) rest r1 r'
                  (e ∙ sym (append_assoc done (g ∷ []) rest)) (omega arith)
                  (sym (takes_more g rest r r1 q) ∙ t)))
  ]
