-- ===== src/Xfcp/Frame/Parsed.antt =====
-- What `parse` can return, and the equality of frames.
use taxi.Prelude.{
  ℕ, ◌≡◌, ◌↔◌, sym, ◌∙◌, true, List, [], ◌∷◌, All, ◌==◌, arith, Bool-cases, inl, inr,
}
use taxi.Xfcp.Result.{ok}
use taxi.Xfcp.Cobs.Shape.{IsByte}
use taxi.Xfcp.Frame.{
  XfcpFrame, build, take_hops, parse_tail, parse_rpath, parse, bytes_eq, frame_eq,
}
use taxi.Xfcp.Frame.RoundTrip.{IsHop, IsRouted, parse-build}

take_hops-IsHop : (bs : List ℕ) → All IsHop (take_hops bs).0
unfolding take_hops
take_hops-IsHop [] = tt
take_hops-IsHop (b ∷ bs) = ground (arith, take_hops-IsHop bs)

take_hops_rest : (bs : List ℕ) → All IsByte bs → All IsByte (take_hops bs).1
unfolding take_hops
take_hops_rest [] h = tt
take_hops_rest (b ∷ bs) (hb, hs) = ground (arith, take_hops_rest bs hs)

parse_tail-IsRouted :
    (path rpath rest : List ℕ) {f : XfcpFrame}
    → All IsHop path
    → All IsHop rpath
    → All IsByte rest
    → parse_tail path rpath rest ≡ ok f
    → IsRouted f
unfolding parse_tail
parse_tail-IsRouted path rpath [] hp hr hb e = cc
parse_tail-IsRouted path rpath (m ∷ []) hp hr hb e = absurd (ground arith)
parse_tail-IsRouted path rpath (m ∷ t ∷ rest) hp hr hb e = ground arith

parse_rpath-IsRouted :
    (path rest : List ℕ) {f : XfcpFrame}
    → All IsHop path
    → All IsByte rest
    → parse_rpath path rest ≡ ok f
    → IsRouted f
unfolding parse_rpath
parse_rpath-IsRouted path [] hp hb e = cc
parse_rpath-IsRouted path (m ∷ rest) hp hb e = elim (Bool-cases (m == 0xFE)) [
  | inl marked ↦
      parse_tail-IsRouted path (take_hops rest).0 (take_hops rest).1 hp (take_hops-IsHop rest)
        (take_hops_rest rest hb.1) (rw marked at e)
  | inr plain ↦ parse_tail-IsRouted path [] (m ∷ rest) hp tt hb (rw plain at e)
]

-- From bytes, `parse` returns only frames whose hops are below the marks.
parse-IsRouted : (bs : List ℕ) {f : XfcpFrame} → All IsByte bs → parse bs ≡ ok f → IsRouted f
unfolding parse
parse-IsRouted bs h e =
    parse_rpath-IsRouted (take_hops bs).0 (take_hops bs).1 (take_hops-IsHop bs)
      (take_hops_rest bs h) e

-- Building what was parsed gives bytes that parse to the same frame.
pub parse-build-parse :
    (bs : List ℕ) {f : XfcpFrame}
    → All IsByte bs
    → parse bs ≡ ok f
    → (again : List ℕ) × (build f ≡ ok again) × (parse again ≡ parse bs)
parse-build-parse bs {f} h e =
    let (again, built, parsed) = parse-build f (parse-IsRouted bs h e) in
    (again, built, parsed ∙ sym e)

bytes_eq_iff : (xs ys : List ℕ) → (bytes_eq xs ys ≡ true) ↔ (xs ≡ ys)
unfolding bytes_eq
bytes_eq_iff [] [] = ground arith
bytes_eq_iff [] (y ∷ ys) = ground arith
bytes_eq_iff (x ∷ xs) [] = ground arith
bytes_eq_iff (x ∷ xs) (y ∷ ys) = ground (arith, bytes_eq_iff xs ys)

-- `==` holds of two frames exactly when all four of their fields agree.
frame_eq_iff : (f g : XfcpFrame) → (frame_eq f g ≡ true) ↔ (f ≡ g)
unfolding frame_eq
frame_eq_iff f g = ground (
  arith,
  bytes_eq_iff f.path g.path,
  bytes_eq_iff f.rpath g.rpath,
  bytes_eq_iff f.payload g.payload,
)
