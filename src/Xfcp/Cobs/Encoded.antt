-- ===== src/Xfcp/Cobs/Encoded.antt =====
-- What `cobs_encode` writes, as a plain recursion on the block.
use taxi.Prelude.{
  ℕ, ◌+◌, ◌<◌, ◌≡◌, ◌∙◌, Bool, true, false, List, [], ◌∷◌, ◌++◌, foldl, length, append_assoc,
  append-nil, ◌==◌, if◌then◌else◌, arith,
}
use taxi.Xfcp.Cobs.{Encoder, start, encode_byte, finish, cobs_encode, has_zero}

-- The groups still to be written, from the open group on.
unfoldable pub coded : List ℕ → ℕ → Bool → List ℕ → List ℕ
coded seg code fresh [] = if fresh then code ∷ seg else []
coded seg code fresh (b ∷ bs) =
    let closed = coded [] 1 true bs in
    let full = coded [] 1 false bs in
    let longer = coded (seg ++ (b ∷ [])) (code + 1) true bs in
    if b == 0
    then code ∷ (seg ++ closed)
    else if code + 1 == 255
    then (code + 1) ∷ ((seg ++ (b ∷ [])) ++ full)
    else longer

pub foldl-coded :
    (bs : List ℕ) (s : Encoder)
    → finish (foldl encode_byte s bs) ≡ s.enc ++ coded s.seg s.code s.new_data bs
unfolding finish encode_byte coded
foldl-coded [] s = ground (arith, append-nil s.enc)
foldl-coded (b ∷ bs) s =
    foldl-coded bs (encode_byte s b)
    ∙ ground (
      arith,
      append_assoc s.enc (s.code ∷ s.seg) (coded [] 1 true bs),
      append_assoc s.enc ((s.code + 1) ∷ (s.seg ++ (b ∷ []))) (coded [] 1 false bs),
    )

pub cobs_encode-coded : (block : List ℕ) → cobs_encode block ≡ coded [] 1 true block
unfolding cobs_encode
cobs_encode-coded block = foldl-coded block start

-- The writer of a fresh group always writes something.
pub length-coded-pos : (bs seg : List ℕ) (code : ℕ) → 0 < length (coded seg code true bs)
unfolding coded
length-coded-pos [] seg code = omega arith
length-coded-pos (b ∷ bs) seg code =
    ground (arith, length-coded-pos bs (seg ++ (b ∷ [])) (code + 1))

has_zero-append :
    (xs ys : List ℕ) → has_zero xs ≡ false → has_zero ys ≡ false → has_zero (xs ++ ys) ≡ false
unfolding has_zero
has_zero-append [] ys p q = q
has_zero-append (x ∷ xs) ys p q = ground (arith, has_zero-append xs ys)

pub has_zero-coded :
    (bs seg : List ℕ) (code : ℕ) (fresh : Bool)
    → 0 < code
    → has_zero seg ≡ false
    → has_zero (coded seg code fresh bs) ≡ false
unfolding coded has_zero
has_zero-coded [] seg code fresh pos nz = ground arith
has_zero-coded (b ∷ bs) seg code fresh pos nz = ground (
  arith,
  has_zero-append seg (coded [] 1 true bs) nz,
  has_zero-append (seg ++ (b ∷ [])) (coded [] 1 false bs),
  has_zero-append seg (b ∷ []) nz,
  has_zero-coded bs [] 1 true,
  has_zero-coded bs [] 1 false,
  has_zero-coded bs (seg ++ (b ∷ [])) (code + 1) true,
)
