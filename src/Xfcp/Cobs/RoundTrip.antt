-- ===== src/Xfcp/Cobs/RoundTrip.antt =====
-- The decoder reads back what the encoder wrote.
use taxi.Prelude.{
  ℕ, zero, suc, ◌+◌, ◌-◌, ◌≤◌, ◌<◌, ◌≡◌, refl, Bool, ap, ap₂, ◌∙◌, take, drop, true, false, ◌&&◌,
  some, List, [], ◌∷◌, ◌++◌, length, length-append, append_assoc, append-nil, take-append_left,
  drop-append_left, ltb, if◌then◌else◌, arith,
}
use taxi.Xfcp.Cobs.{returns, behind, has_zero, decode_loop, cobs_encode, cobs_decode}
use taxi.Xfcp.Cobs.Encoded.{coded, cobs_encode-coded, length-coded-pos, has_zero-coded}

-- The zero that the decoder puts behind a group.
abbrev pub separator : ℕ → List ℕ → List ℕ
separator code tail = if ltb code 255 && ltb 0 (length tail) then 0 ∷ [] else []

behind-drop : (code : ℕ) (rest : List ℕ) → 0 < code → behind code rest ≡ drop (code - 1) rest
behind-drop zero rest pos = absurd (omega arith)
behind-drop (suc n) rest pos = let e : n ≡ suc n - 1 = omega arith in ap (λ (k : ℕ). drop k rest) e

-- A round with a code that is not zero.
pub decode_whole :
    (fuel code : ℕ) (rest dec : List ℕ)
    → 0 < code
    → ltb (length rest) (code - 1) ≡ false
    → decode_loop (suc fuel) (code ∷ rest) dec
      ≡ decode_loop fuel
          (drop (code - 1) rest)
          ((dec ++ take (code - 1) rest) ++ separator code (drop (code - 1) rest))
unfolding decode_loop
decode_whole fuel code rest dec pos h = rw h (
    ap
      (λ (after : List ℕ).
        decode_loop fuel after ((dec ++ take (code - 1) rest) ++ separator code after))
      (behind-drop code rest pos))

pub decode_group :
    (seg tail : List ℕ) (code fuel : ℕ) (dec : List ℕ)
    → length seg + 1 ≡ code
    → decode_loop (suc fuel) (code ∷ (seg ++ tail)) dec
      ≡ decode_loop fuel tail ((dec ++ seg) ++ separator code tail)
decode_group seg tail code fuel dec e =
    let whole : ltb (length (seg ++ tail)) (code - 1) ≡ false =
      ground (arith, length-append seg tail) in
    decode_whole fuel code (seg ++ tail) dec (omega arith) whole
    ∙ ap₂ (λ (a b : List ℕ). decode_loop fuel b ((dec ++ a) ++ separator code b))
        (take-append_left seg tail (code - 1) (omega arith))
        (drop-append_left seg tail (code - 1) (omega arith))

-- What follows the last group is nothing.
decode_last :
    (seg : List ℕ) (code fuel : ℕ) (dec : List ℕ)
    → length seg + 1 ≡ code
    → decode_loop (suc fuel) (code ∷ seg) dec ≡ returns (some (dec ++ seg))
unfolding decode_loop
decode_last seg code fuel dec e =
    ground (arith, decode_group seg [] code fuel dec, append-nil seg, append-nil (dec ++ seg))

pub decode_end : (fuel : ℕ) (dec : List ℕ) → decode_loop fuel [] dec ≡ returns (some dec)
unfolding decode_loop
decode_end zero dec = refl
decode_end (suc fuel) dec = refl

-- From an open group on: `seg` holds `code - 1` bytes, and only an empty group may be unwritten.
decode-coded :
    (bs seg : List ℕ) (code : ℕ) (fresh : Bool) (fuel : ℕ) (dec : List ℕ)
    → length seg + 1 ≡ code
    → code < 255
    → (fresh ≡ false → code ≡ 1)
    → length (coded seg code fresh bs) ≤ fuel
    → decode_loop fuel (coded seg code fresh bs) dec ≡ returns (some (dec ++ (seg ++ bs)))
unfolding coded
decode-coded [] seg code true zero dec e lt stale enough = absurd (omega arith)
decode-coded [] seg code true (suc fuel) dec e lt stale enough =
    ground (arith, decode_last seg code fuel dec, append-nil seg)
decode-coded [] [] code false fuel dec e lt stale enough = rw append-nil (decode_end fuel dec)
decode-coded [] (x ∷ seg) code false fuel dec e lt stale enough = absurd (ground arith)
decode-coded (b ∷ bs) seg code fresh zero dec e lt stale enough =
    absurd (ground (arith, length-coded-pos bs (seg ++ (b ∷ [])) (code + 1)))
decode-coded (b ∷ bs) seg code fresh (suc fuel) dec e lt stale enough = ground (
  arith,
  decode_group seg (coded [] 1 true bs) code fuel dec,
  length-append seg (coded [] 1 true bs),
  length-coded-pos bs [] 1,
  decode-coded bs [] 1 true fuel ((dec ++ seg) ++ (0 ∷ [])),
  append_assoc dec seg (0 ∷ []),
  append_assoc dec (seg ++ (0 ∷ [])) bs,
  append_assoc seg (0 ∷ []) bs,
  decode_group (seg ++ (b ∷ [])) (coded [] 1 false bs) (code + 1) fuel dec,
  length-append (seg ++ (b ∷ [])) (coded [] 1 false bs),
  length-append seg (b ∷ []),
  append-nil (dec ++ (seg ++ (b ∷ []))),
  decode-coded bs [] 1 false fuel (dec ++ (seg ++ (b ∷ []))),
  append_assoc dec (seg ++ (b ∷ [])) bs,
  append_assoc seg (b ∷ []) bs,
  decode-coded bs (seg ++ (b ∷ [])) (code + 1) true (suc fuel) dec,
)

-- Decoding what was encoded gives the block back, whatever bytes it holds.
pub cobs_decode-cobs_encode :
    (block : List ℕ) → cobs_decode (cobs_encode block) ≡ returns (some block)
unfolding cobs_decode
cobs_decode-cobs_encode block = rw cobs_encode-coded (
    rw (has_zero-coded block [] 1 true (omega arith) (unfold has_zero in refl))
      (decode-coded block [] 1 true _ [] refl (omega arith) (λ h. cc) (omega arith)))
