-- ===== src/Baser/Carry/Lanes.antt =====
-- Eight lanes from the source to the sink (src/eth/tb/baser.py), and the blocks they make.
use taxi.Prelude.{
  ℕ, zero, suc, ◌-◌, ◌≤◌, ◌<◌, ◌≡◌, refl, ap, ◌∙◌, Bool, true, false, ◌&&◌, ◌||◌, Option, none,
  some, List, [], ◌∷◌, ◌++◌, length, get_or, Bool-cases, inl, inr, leb, ◌==◌, if◌then◌else◌, arith,
  leb→le,
}
use taxi.Baser.Codes.{Codes}
use taxi.Baser.Frame.{Frame, Library}
use taxi.Baser.Source.{Source, Lane, emit_frame, emit_of, repeat, fill_lane, fill_lanes}
use taxi.Baser.Sink.{Sink, receive_lane, receive_lanes, take_lane}
use taxi.Baser.Carry.{Match, Inv, delivered}
use taxi.Baser.Carry.Arbitrate.{arbitrate-Continues}
use taxi.Baser.Carry.Emit.{
  IsFaithful, Passed, stepped, repeat_quiet, receive_quiet, idle_pass, start_pass, data_pass,
  term_pass,
}

module _ (lib : Library) (c : Codes) (s : Source) (k : ℕ) (f : Frame) where
  pub emit_start :
      s.sof ≡ true
      → emit_frame lib c s k f ≡ (
        record { d = c.start; c = true },
        record s {
          sof = false;
          frame = some (record f { start_lane = k });
          current_frame = some (record f { start_lane = k });
        },
      )
  unfolding emit_frame
  emit_start h = ground arith

  pub emit_term :
      s.sof ≡ false
      → length f.bytes ≤ s.frame_offset
      → emit_frame lib c s k f ≡ (
        record { d = c.term; c = true },
        record s { in_term = true; ifg_cnt = s.ifg - (8 - k); frame = none; current_frame = none },
      )
  unfolding emit_frame
  emit_term h h' = ground arith

  pub emit_data :
      s.sof ≡ false
      → s.frame_offset < length f.bytes
      → 0 < s.frame_offset
      → (pre : Bool) × (emit_frame lib c s k f ≡ (
        record { d = get_or f.bytes s.frame_offset 0; c = get_or f.ctrls s.frame_offset false },
        record s { in_pre = pre },
      ))
  unfolding emit_frame
  emit_data h h' h'' = (
    if (get_or f.bytes s.frame_offset 0 == c.sfd) && ((s.rep_count == 0) || (s.rep_cnt == 1))
        then false
        else s.in_pre,
    ground arith,
  )

module _ (lib : Library) (c : Codes) (w : IsFaithful lib c) where
  module _ (s : Source) (t : Sink) (k : ℕ) (i : Inv lib c s t) where
    settle :
        (p : Lane × Source) (s' : Source) (l : Lane) (gr : Option Frame)
        → p ≡ (l, s')
        → s'.rep_count ≡ 0
        → s'.rep_cnt ≡ 0
        → t.frame ≡ gr
        → Passed lib c s t (stepped lib c s') (take_lane lib c t k l gr)
        → Passed lib c s t (repeat lib c p.1 k) (receive_lane lib c t k p.0)
    settle p s' l gr same h h' e passed =
        let taken : receive_lane lib c t k l ≡ take_lane lib c t k l gr =
          receive_quiet lib c t k l (i.0.1.1.0) (i.0.1.1.1.0) ∙ ap (take_lane lib c t k l) e in
        rw same (rw (repeat_quiet lib c s' k h h', taken) passed)

    emit-Passed :
        (fr gr : Option Frame) (b : Bool)
        → s.frame ≡ fr
        → t.frame ≡ gr
        → s.sof ≡ b
        → Match lib c fr b s.frame_offset gr
        → Passed lib c s t
            (repeat lib c (emit_of lib c s k fr).1 k)
            (receive_lane lib c t k (emit_of lib c s k fr).0)
    emit-Passed none none b e e' so m =
        settle _ s (record { d = c.idle; c = true }) none refl i.0.0 i.0.1.0 e'
          (idle_pass lib c w s t k i e e')
    emit-Passed none (some g) b e e' so m = absurd m
    emit-Passed (some f) (some g) true e e' so m = absurd m
    emit-Passed (some f) none false e e' so m = absurd m
    emit-Passed (some f) none true e e' so m =
        settle (emit_frame lib c s k f) _ _ none (emit_start lib c s k f so) i.0.0 i.0.1.0 e'
          (start_pass lib c w s t k i f e m.0 m.1)
    emit-Passed (some f) (some g) false e e' so m =
        elim (Bool-cases (leb (length f.bytes) s.frame_offset)) [
          | inl h ↦
              settle (emit_frame lib c s k f) _ _ (some g) (emit_term lib c s k f so (leb→le _ _ h))
                i.0.0 i.0.1.0 e' (term_pass lib c w s t k i f g e e' (leb→le _ _ h) m.0)
          | inr h ↦
              (let inside : s.frame_offset < length f.bytes = ground (arith, h) in
                let sent = emit_data lib c s k f so inside m.1.0 in
                settle (emit_frame lib c s k f) _ _ (some g) sent.1 i.0.0 i.0.1.0 e'
                  (data_pass lib c w s t k i f g sent.0 e so e' inside (m.0, (m.1.0, m.1.1.1))))
        ]

  -- A lane is sent and taken.
  abbrev pub Goes : Source → Sink → ℕ → Type 0
  Goes s t k =
      (l : Lane) × (s' : Source) × ((fill_lane lib c s k ≡ some (l, s'))
        × Passed lib c s t s' (receive_lane lib c t k l))

  pub fill_lane-Goes : (s : Source) (t : Sink) (k : ℕ) → Inv lib c s t → Goes s t k
  unfolding fill_lane
  fill_lane-Goes s t k i =
      let next = arbitrate-Continues lib c t s k i in
      let u = next.0 in
      let p = emit_of lib c u k u.frame in
      let sent : Passed lib c u t (repeat lib c p.1 k) (receive_lane lib c t k p.0) =
        emit-Passed u t k (next.1.1.0) u.frame t.frame u.sof refl refl refl (next.1.1.0.1.1) in
      (
        p.0,
        repeat lib c p.1 k,
        (
          rw (next.1.0, fill_lane) refl,
          (sent.0, sent.1 ∙ ap (λ (xs : List (List ℕ)). delivered lib c t ++ xs) next.1.1.1),
        ),
      )

  pub fill_lanes-Goes :
      (count k : ℕ) (s : Source) (t : Sink)
      → Inv lib c s t
      → (ls : List Lane) × (s' : Source) × ((fill_lanes lib c count k s ≡ some (ls, s'))
          × Passed lib c s t s' (receive_lanes lib c k ls t))
  unfolding fill_lanes receive_lanes
  fill_lanes-Goes zero k s t i = ([], s, (refl, (i, refl)))
  fill_lanes-Goes (suc count) k s t i =
      let one = fill_lane-Goes s t k i in
      let passed = one.2.1 in
      let rest = fill_lanes-Goes count (suc k) one.1 (receive_lane lib c t k one.0) passed.0 in
      (
        one.0 ∷ rest.0,
        rest.1,
        (rw (one.2.0, fill_lanes) (rw (rest.2.0) refl), (rest.2.1.0, rest.2.1.1 ∙ passed.1)),
      )
