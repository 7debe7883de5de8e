-- ===== src/Xfcp/Cobs/Shape.antt =====
-- The form of what `cobs_encode` writes: no zero byte, bytes only, and how many.
use taxi.Prelude.{
  ℕ, ◌+◌, ◌/◌, ◌≤◌, ◌<◌, ◌≡◌, refl, Bool, true, false, List, [], ◌∷◌, ◌++◌, length, length-append,
  if◌then◌else◌, All, All-append, arith,
}
use taxi.Xfcp.Cobs.{has_zero, cobs_encode}
use taxi.Xfcp.Cobs.Encoded.{coded, cobs_encode-coded, has_zero-coded}

abbrev pub IsByte : ℕ → Type 0
IsByte b = b < 256

-- An encoded block holds no zero byte, so that a zero can end it on the wire.
pub has_zero-cobs_encode : (block : List ℕ) → has_zero (cobs_encode block) ≡ false
has_zero-cobs_encode block =
    rw cobs_encode-coded (has_zero-coded block [] 1 true (omega arith) (unfold has_zero in refl))

coded-IsByte :
    (bs seg : List ℕ) (code : ℕ) (fresh : Bool)
    → code < 255
    → All IsByte seg
    → All IsByte bs
    → All IsByte (coded seg code fresh bs)
unfolding coded
coded-IsByte [] seg code true lt hs hb = (omega arith, hs)
coded-IsByte [] seg code false lt hs hb = tt
coded-IsByte (b ∷ bs) seg code fresh lt hs hb = ground (
  arith,
  All-append IsByte seg (coded [] 1 true bs) hs,
  All-append IsByte seg (b ∷ []) hs,
  All-append IsByte (seg ++ (b ∷ [])) (coded [] 1 false bs),
  coded-IsByte bs [] 1 true,
  coded-IsByte bs [] 1 false,
  coded-IsByte bs (seg ++ (b ∷ [])) (code + 1) true,
)

-- The codes fit a byte, so that `enc.append(code)` never raises.
cobs_encode-IsByte : (block : List ℕ) → All IsByte block → All IsByte (cobs_encode block)
cobs_encode-IsByte block h = rw cobs_encode-coded (coded-IsByte block [] 1 true (omega arith) tt h)

length-coded :
    (bs seg : List ℕ) (code : ℕ) (fresh : Bool)
    → length seg + 1 ≡ code
    → code < 255
    → (fresh ≡ false → code ≡ 1)
    → (length seg + length bs + (if fresh then 1 else 0) ≤ length (coded seg code fresh bs))
      × (length (coded seg code fresh bs)
          ≤ length seg + length bs + 1 + (length seg + length bs) / 254)
unfolding coded
length-coded [] seg code fresh e lt stale = ground arith
length-coded (b ∷ bs) seg code fresh e lt stale = ground (
  arith,
  length-append seg (coded [] 1 true bs),
  length-append seg (b ∷ []),
  length-append (seg ++ (b ∷ [])) (coded [] 1 false bs),
  length-coded bs [] 1 true,
  length-coded bs [] 1 false,
  length-coded bs (seg ++ (b ∷ [])) (code + 1) true,
)

-- The overhead of the encoding: at least one byte, and at most one more for each 254 bytes.
pub length-cobs_encode :
    (block : List ℕ)
    → (length block + 1 ≤ length (cobs_encode block))
      × (length (cobs_encode block) ≤ length block + 1 + length block / 254)
length-cobs_encode block =
    rw cobs_encode-coded (omega (arith, length-coded block [] 1 true refl (omega arith) (λ h. cc)))
