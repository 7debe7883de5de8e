-- ===== src/Xfcp/Cobs/Decoded.antt =====
-- The decoder on any block: it ends, and it accepts the blocks that are whole groups.
use taxi.Prelude.{
  ℕ, zero, suc, ◌+◌, ◌-◌, ◌≤◌, ◌<◌, ◌≡◌, refl, ◌∙◌, sym, true, false, Option, none, some, ◌↔◌, inl,
  inr, List, [], ◌∷◌, ◌++◌, length, length-append, take, drop, length-take, length-drop,
  take-append-drop, append_assoc, append-nil, ltb, arith, Bool-cases,
}
use taxi.Xfcp.Cobs.{returns, has_zero, decode_loop, cobs_decode}
use taxi.Xfcp.Cobs.RoundTrip.{separator, decode_whole, decode_group, decode_end}

decode_short :
    (fuel code : ℕ) (rest dec : List ℕ)
    → ltb (length rest) (code - 1) ≡ true
    → decode_loop (suc fuel) (code ∷ rest) dec ≡ returns none
unfolding decode_loop
decode_short fuel code rest dec h = rw h

has_zero-drop : (n : ℕ) (bs : List ℕ) → has_zero bs ≡ false → has_zero (drop n bs) ≡ false
unfolding has_zero
has_zero-drop zero bs h = h
has_zero-drop (suc n) [] h = h
has_zero-drop (suc n) (b ∷ bs) h = has_zero-drop n bs (ground arith)

has_zero_cons : (b : ℕ) (bs : List ℕ) → has_zero (b ∷ bs) ≡ false → (0 < b) × (has_zero bs ≡ false)
unfolding has_zero
has_zero_cons b bs h = ground arith

-- With as much fuel as bytes, none of them zero, the loop ends.
decode_loop_ends :
    (fuel : ℕ) (block dec : List ℕ)
    → length block ≤ fuel
    → has_zero block ≡ false
    → (r : Option (List ℕ)) × (decode_loop fuel block dec ≡ returns r)
decode_loop_ends fuel [] dec h nz = (some dec, decode_end fuel dec)
decode_loop_ends zero (code ∷ rest) dec h nz = absurd (omega arith)
decode_loop_ends (suc fuel) (code ∷ rest) dec h nz =
    elim (Bool-cases (ltb (length rest) (code - 1))) [
      | inl short ↦ (none, decode_short fuel code rest dec short)
      | inr whole ↦
          let after = drop (code - 1) rest in
          let (pos, nz') = has_zero_cons code rest nz in
          let (r, e) =
            decode_loop_ends fuel after ((dec ++ take (code - 1) rest) ++ separator code after)
              (omega (arith, length-drop (code - 1) rest)) (has_zero-drop (code - 1) rest nz') in
          (r, decode_whole fuel code rest dec pos whole ∙ e)
    ]

-- The decoder always comes to an end, with an output or with None.
pub cobs_decode_ends : (block : List ℕ) → (r : Option (List ℕ)) × (cobs_decode block ≡ returns r)
unfolding cobs_decode
cobs_decode_ends block = elim (Bool-cases (has_zero block)) [
  | inl bad ↦ (none, rw bad)
  | inr good ↦ rw good (decode_loop_ends (length block) block [] (omega arith) good)
]

-- A block in whole groups, a code and as many bytes as it says, and the output that they stand for.
pub data Decodes : List ℕ → List ℕ → Type 0 where
  done : Decodes [] []
  group :
      {block out : List ℕ} (code : ℕ) (seg tail rest : List ℕ)
      → length seg + 1 ≡ code
      → Decodes tail rest
      → block ≡ code ∷ (seg ++ tail)
      → out ≡ seg ++ (separator code tail ++ rest)
      → Decodes block out

decode_loop_complete :
    {block out : List ℕ} (fuel : ℕ) (dec : List ℕ)
    → Decodes block out
    → length block ≤ fuel
    → decode_loop fuel block dec ≡ returns (some (dec ++ out))
decode_loop_complete fuel dec done h = rw append-nil (decode_end fuel dec)
decode_loop_complete zero dec (group code seg tail rest e d b o) h =
    absurd (let h' = rw b at h in omega arith)
decode_loop_complete (suc fuel) dec (group code seg tail rest e d b o) h =
    rw (b, o)
      (decode_group seg tail code fuel dec e
        ∙ decode_loop_complete fuel ((dec ++ seg) ++ separator code tail) d
            (let h' = rw b at h in omega (arith, length-append seg tail))
        ∙ ground (
          arith,
          append_assoc (dec ++ seg) (separator code tail) rest,
          append_assoc dec seg (separator code tail ++ rest),
        ))

decode_loop_sound :
    (fuel : ℕ) (block dec : List ℕ) {r : List ℕ}
    → has_zero block ≡ false
    → decode_loop fuel block dec ≡ returns (some r)
    → (out : List ℕ) × Decodes block out × (r ≡ dec ++ out)
decode_loop_sound fuel [] dec nz e = ([], done, ground (arith, decode_end fuel dec, append-nil dec))
decode_loop_sound zero (code ∷ rest) dec nz e = absurd (unfold decode_loop in cc)
decode_loop_sound (suc fuel) (code ∷ rest) dec nz e =
    elim (Bool-cases (ltb (length rest) (code - 1))) [
      | inl short ↦ absurd (cc (decode_short fuel code rest dec short))
      | inr whole ↦
          let seg = take (code - 1) rest in
          let after = drop (code - 1) rest in
          let (pos, nz') = has_zero_cons code rest nz in
          let (out, d, eq) =
            decode_loop_sound fuel after ((dec ++ seg) ++ separator code after)
              (has_zero-drop (code - 1) rest nz')
              (sym (decode_whole fuel code rest dec pos whole) ∙ e) in
          (
            seg ++ (separator code after ++ out),
            group code seg after out (ground (arith, length-take (code - 1) rest)) d
                (rw take-append-drop) refl,
            eq
                ∙ ground (
                  arith,
                  append_assoc (dec ++ seg) (separator code after) out,
                  append_assoc dec seg (separator code after ++ out),
                ),
          )
    ]

pub has_zero_ended : (bs : List ℕ) → has_zero (bs ++ (0 ∷ [])) ≡ true
unfolding has_zero
has_zero_ended [] = refl
has_zero_ended (b ∷ bs) = ground (arith, has_zero_ended bs)

pub cobs_decode_zero : (block : List ℕ) → has_zero block ≡ true → cobs_decode block ≡ returns none
unfolding cobs_decode
cobs_decode_zero block h = rw h

cobs_decode_open :
    (block : List ℕ)
    → has_zero block ≡ false
    → cobs_decode block ≡ decode_loop (length block) block []
unfolding cobs_decode
cobs_decode_open block h = rw h

-- The decoder returns an output exactly when the block has no zero and is in whole groups that
-- stand for that output.
pub cobs_decode-iff-Decodes :
    (block out : List ℕ)
    → (cobs_decode block ≡ returns (some out)) ↔ ((has_zero block ≡ false) × Decodes block out)
cobs_decode-iff-Decodes block out = (
  λ e. elim (Bool-cases (has_zero block)) [
    | inl bad ↦ cc (cobs_decode_zero block bad)
    | inr good ↦
        let (out', d, eq) =
          decode_loop_sound (length block) block [] good (sym (cobs_decode_open block good) ∙ e) in
        (good, rw eq d)
  ],
  λ h. cobs_decode_open block h.0 ∙ decode_loop_complete (length block) [] h.1 (omega arith),
)
