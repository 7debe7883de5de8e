-- ===== src/Xfcp/Frame/RoundTrip.antt =====
-- A frame that is built parses back, bare and in its COBS form.
use taxi.Prelude.{ℕ, ◌≤◌, ◌<◌, ◌≡◌, ◌↔◌, refl, false, List, [], ◌∷◌, ◌++◌, All, arith}
use taxi.Xfcp.Result.{ok, raised, type_error, ◌>>=◌, bind-eq-ok}
use taxi.Xfcp.Cobs.{has_zero, cobs_encode}
use taxi.Xfcp.Cobs.RoundTrip.{cobs_decode-cobs_encode}
use taxi.Xfcp.Cobs.Shape.{IsByte, has_zero-cobs_encode}
use taxi.Xfcp.Cobs.Decoded.{cobs_decode_zero, has_zero_ended}
use taxi.Xfcp.Frame.{
  XfcpFrame, pack, pack_all, build_rpath, build, build_cobs, take_hops, parse_tail, parse_rpath,
  parse, parse_cobs,
}

-- What `build` can write as bytes, and what a path may hold.
abbrev pub IsHop : ℕ → Type 0
IsHop p = p < 0xFE

pub record FitsBytes (f : XfcpFrame) : Type 0 where
  pub path : All IsByte f.path
  pub rpath : All IsByte f.rpath
  pub ptype : IsByte f.ptype

pub record IsRouted (f : XfcpFrame) : Type 0 where
  pub path : All IsHop f.path
  pub rpath : All IsHop f.rpath
  pub ptype : IsByte f.ptype

-- The optional part of the header, and the bytes of a frame.
pub rpath_bytes : List ℕ → List ℕ
rpath_bytes [] = []
rpath_bytes (p ∷ ps) = 0xFE ∷ p ∷ ps

unfoldable pub wire : XfcpFrame → List ℕ
unfolding rpath_bytes
wire f = f.path ++ (rpath_bytes f.rpath ++ (0xFF ∷ f.ptype ∷ f.payload))

pack_all-ok : (ps : List ℕ) → All IsByte ps → pack_all ps ≡ ok ps
unfolding pack_all
pack_all-ok [] h = refl
pack_all-ok (p ∷ ps) (hp, hs) = ground (arith, pack_all-ok ps hs)

pack_all_inv : (ps : List ℕ) {bs : List ℕ} → pack_all ps ≡ ok bs → All IsByte ps
unfolding pack_all
pack_all_inv [] h = tt
pack_all_inv (p ∷ ps) h =
    let (b, fits, more) = bind-eq-ok (pack p) (λ b. do bs ← pack_all ps; ok (b ∷ bs)) h in
    let (bs, rest, _) = bind-eq-ok (pack_all ps) (λ bs. ok (b ∷ bs)) more in
    (ground arith, pack_all_inv ps rest)

build_rpath_inv : (ps : List ℕ) {bs : List ℕ} → build_rpath ps ≡ ok bs → All IsByte ps
unfolding build_rpath
build_rpath_inv [] h = tt
build_rpath_inv (p ∷ ps) h =
    let (bs, packed, _) = bind-eq-ok (pack_all (p ∷ ps)) (λ bs. ok (0xFE ∷ bs)) h in
    pack_all_inv (p ∷ ps) packed

build_rpath-ok : (ps : List ℕ) → All IsByte ps → build_rpath ps ≡ ok (rpath_bytes ps)
unfolding build_rpath rpath_bytes
build_rpath-ok [] h = refl
build_rpath-ok (p ∷ ps) h = rw (pack_all-ok (p ∷ ps) h)

build-ok : (f : XfcpFrame) → FitsBytes f → build f ≡ ok (wire f)
unfolding build wire
build-ok f h = ground (arith, pack_all-ok f.path h.path, build_rpath-ok f.rpath h.rpath)

build_inv : (f : XfcpFrame) {bs : List ℕ} → build f ≡ ok bs → FitsBytes f
unfolding build
build_inv f h =
    let (path, p, h') = bind-eq-ok (pack_all f.path) _ h in
    let (rpath, r, h'') = bind-eq-ok (build_rpath f.rpath) _ h' in
    record { path = pack_all_inv f.path p; rpath = build_rpath_inv f.rpath r; ptype = ground arith }

Hop→Byte : (ps : List ℕ) → All IsHop ps → All IsByte ps
Hop→Byte [] h = tt
Hop→Byte (p ∷ ps) (hp, hs) = (omega arith, Hop→Byte ps hs)

IsRouted-FitsBytes : {f : XfcpFrame} → IsRouted f → FitsBytes f
IsRouted-FitsBytes {f} h = record {
  path = Hop→Byte f.path h.path;
  rpath = Hop→Byte f.rpath h.rpath;
  ptype = h.ptype;
}

-- Hops stop at the first mark.
take_hops-append :
    (ps : List ℕ) (b : ℕ) (rest : List ℕ)
    → All IsHop ps
    → 0xFE ≤ b
    → take_hops (ps ++ (b ∷ rest)) ≡ (ps, b ∷ rest)
unfolding take_hops
take_hops-append [] b rest h m = ground arith
take_hops-append (p ∷ ps) b rest (hp, hs) m = ground (arith, take_hops-append ps b rest hs m)

parse_rpath-wire :
    (path rpath payload : List ℕ) (ptype : ℕ)
    → All IsHop rpath
    → parse_rpath path (rpath_bytes rpath ++ (0xFF ∷ ptype ∷ payload))
      ≡ ok (record { payload = payload; path = path; rpath = rpath; ptype = ptype })
unfolding parse_rpath rpath_bytes parse_tail
parse_rpath-wire path [] payload ptype h = refl
parse_rpath-wire path (p ∷ ps) payload ptype h =
    rw (take_hops-append (p ∷ ps) 0xFF (ptype ∷ payload) h (omega arith))

take_hops-wire :
    (path rpath rest : List ℕ)
    → All IsHop path
    → take_hops (path ++ (rpath_bytes rpath ++ (0xFF ∷ rest)))
      ≡ (path, rpath_bytes rpath ++ (0xFF ∷ rest))
unfolding rpath_bytes
take_hops-wire path [] rest h = take_hops-append path 0xFF rest h (omega arith)
take_hops-wire path (p ∷ ps) rest h = take_hops-append path 0xFE _ h (omega arith)

pub parse-wire : (f : XfcpFrame) → IsRouted f → parse (wire f) ≡ ok f
unfolding parse wire
parse-wire f h =
    rw (take_hops-wire f.path f.rpath (f.ptype ∷ f.payload) h.path)
      (parse_rpath-wire f.path f.rpath f.payload f.ptype h.rpath)

-- `build` succeeds exactly when every hop and the type fit a byte.
pub build-iff-FitsBytes : (f : XfcpFrame) → ((bs : List ℕ) × (build f ≡ ok bs)) ↔ FitsBytes f
build-iff-FitsBytes f = (λ r. build_inv f r.1, λ h. (wire f, build-ok f h))

-- A frame whose hops are below the two marks is built, and parses back to itself.
pub parse-build :
    (f : XfcpFrame) → IsRouted f → (bs : List ℕ) × (build f ≡ ok bs) × (parse bs ≡ ok f)
parse-build f h = (wire f, build-ok f (IsRouted-FitsBytes h), parse-wire f h)

-- The COBS form is a block and the zero that ends it. The block parses back to the frame; with the
-- zero left on, `parse_cobs` raises TypeError.
pub parse_cobs-build_cobs :
    (f : XfcpFrame)
    → IsRouted f
    → (block : List ℕ) × (build_cobs f ≡ ok (block ++ (0 ∷ [])))
      × (has_zero block ≡ false)
      × (parse_cobs block ≡ ok f)
      × (parse_cobs (block ++ (0 ∷ [])) ≡ raised type_error)
parse_cobs-build_cobs f h = (
  cobs_encode (wire f),
  unfold build_cobs in rw (build-ok f (IsRouted-FitsBytes h)),
  has_zero-cobs_encode (wire f),
  unfold parse_cobs in rw cobs_decode-cobs_encode (parse-wire f h),
  unfold parse_cobs in rw (cobs_decode_zero _ (has_zero_ended (cobs_encode (wire f)))),
)
