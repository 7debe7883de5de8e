-- ===== src/Xfcp/Frame.antt =====
-- The class `XfcpFrame` of src/xfcp/tb/xfcp.py: `build` and `parse`, and their COBS forms.
pub mod RoundTrip
pub mod Parsed
use taxi.Prelude.{
  ℕ, zero, suc, ◌≤◌, ◌<◌, ◌≡◌, Bool, true, false, ◌&&◌, Option, none, some, List, [], ◌∷◌, ◌++◌,
  ltb, ◌==◌, if◌then◌else◌,
}
use taxi.Xfcp.Result.{
  Result, ok, raised, index_error, assertion_error, type_error, struct_error, ◌>>=◌,
}
use taxi.Xfcp.Cobs.{Outcome, returns, out_of_fuel, cobs_encode, cobs_decode}

-- `_payload`, `path`, `rpath` and `ptype` of a frame built from bytes.
pub record XfcpFrame : Type 0 where
  pub payload : List ℕ
  pub path : List ℕ
  pub rpath : List ℕ
  pub ptype : ℕ

-- `struct.pack('B', p)`
abbrev pub pack : ℕ → Result ℕ
pack p = if ltb p 256 then ok p else raised struct_error

-- `for p in path: data.extend(struct.pack('B', p))`
unfoldable pub pack_all : List ℕ → Result (List ℕ)
pack_all [] = ok []
pack_all (p ∷ ps) = do b ← pack p; bs ← pack_all ps; ok (b ∷ bs)

-- The part `if self.rpath:`
unfoldable pub build_rpath : List ℕ → Result (List ℕ)
unfolding pack_all
build_rpath [] = ok []
build_rpath (p ∷ ps) = do bs ← pack_all (p ∷ ps); ok (0xFE ∷ bs)

unfoldable pub build : XfcpFrame → Result (List ℕ)
unfolding pack_all build_rpath
build f = do
  path ← pack_all f.path
  rpath ← build_rpath f.rpath
  ptype ← pack f.ptype
  ok (path ++ (rpath ++ (0xFF ∷ ptype ∷ f.payload)))

unfoldable pub build_cobs : XfcpFrame → Result (List ℕ)
build_cobs f = do bytes ← build f; ok (cobs_encode bytes ++ (0 ∷ []))

-- `while i < len(data) and data[i] < 0xFE`: the bytes taken, and those from index `i` on.
unfoldable pub take_hops : List ℕ → List ℕ × List ℕ
take_hops [] = ([], [])
take_hops (b ∷ bs) =
    let (hops, rest) = take_hops bs in if ltb b 0xFE then (b ∷ hops, rest) else ([], b ∷ bs)

-- From `assert data[i] == 0xFF` on.
unfoldable pub parse_tail : List ℕ → List ℕ → List ℕ → Result XfcpFrame
parse_tail path rpath [] = raised index_error
parse_tail path rpath (mark ∷ []) =
    if mark == 0xFF then raised index_error else raised assertion_error
parse_tail path rpath (mark ∷ ptype ∷ payload) =
    if mark == 0xFF
    then ok (record { payload = payload; path = path; rpath = rpath; ptype = ptype })
    else raised assertion_error

-- From `if data[i] == 0xFE` on.
unfoldable pub parse_rpath : List ℕ → List ℕ → Result XfcpFrame
unfolding take_hops parse_tail
parse_rpath path [] = raised index_error
parse_rpath path (mark ∷ rest) =
    let (hops, rest') = take_hops rest in
    if mark == 0xFE then parse_tail path hops rest' else parse_tail path [] (mark ∷ rest)

unfoldable pub parse : List ℕ → Result XfcpFrame
unfolding parse_rpath
parse bytes = let (path, rest) = take_hops bytes in parse_rpath path rest

-- `parse(None)` fails in `bytes(None)`. The decoder does not run out of fuel.
abbrev parse_decoded : Outcome → Result XfcpFrame
parse_decoded (returns (some bytes)) = parse bytes
parse_decoded (returns none) = raised type_error
parse_decoded out_of_fuel = raised type_error

unfoldable pub parse_cobs : List ℕ → Result XfcpFrame
parse_cobs bytes = parse_decoded (cobs_decode bytes)

-- `==` on two lists of bytes.
pub bytes_eq : List ℕ → List ℕ → Bool
bytes_eq [] [] = true
bytes_eq (x ∷ xs) (y ∷ ys) = x == y && bytes_eq xs ys
bytes_eq _ _ = false

-- `__eq__` on two frames.
unfoldable pub frame_eq : XfcpFrame → XfcpFrame → Bool
unfolding bytes_eq
frame_eq f g =
    bytes_eq f.path g.path
    && (bytes_eq f.rpath g.rpath && (f.ptype == g.ptype && bytes_eq f.payload g.payload))
