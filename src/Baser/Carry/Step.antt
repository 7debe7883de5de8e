-- ===== src/Baser/Carry/Step.antt =====
-- A lane of the source (src/eth/tb/baser.py) by what is under way: a frame, or none.
use taxi.Prelude.{
  ℕ, ◌+◌, ◌%◌, ◌≤◌, ◌<◌, ◌^◌, ◌≡◌, refl, ap, ◌∙◌, subst, Bool, true, false, not, ◌&&◌, ◌||◌, Option,
  none, some, List, [], ◌∷◌, length, get_or, All, ◌⊎◌, Bool-cases, inl, inr, leb, ltb, ◌==◌, arith,
}
use taxi.Baser.Codes.{Codes}
use taxi.Baser.Frame.{Frame, Library}
use taxi.Baser.Source.{
  Source, Lane, wait_gap, begin, from_queue, next_frame, arbitrate, emit_of, fill_lane,
}
use taxi.Baser.Facts.{eq_self}
use taxi.Baser.Carry.{IsPlain}
use taxi.Baser.Carry.Emit.{stepped, repeat_quiet}
use taxi.Baser.Carry.Lanes.{emit_start, emit_term, emit_data}
use taxi.Baser.Carry.Shape.{dat, idle}

module _ (lib : Library) (c : Codes) where
  -- A plain frame of at least eight bytes.
  abbrev pub IsSent : Frame → Type 0
  IsSent f = IsPlain lib c f × ((8 ≤ length f.bytes) × ((i : ℕ) → get_or f.bytes i 0 < 2 ^ 8))

  -- No repetition is set, and the frames that wait are as above.
  abbrev pub Steady : Source → Type 0
  Steady s =
      (s.rep_count ≡ 0) × ((s.rep_cnt ≡ 0) × All (λ (f : Frame). IsSent (lib.normalize f)) s.queue)

  -- The frame under way, of which `n` bytes are sent.
  abbrev pub Under : Source → Frame → ℕ → Type 0
  Under s f n =
      (s.frame ≡ some f) × ((s.sof ≡ false) × ((s.frame_offset ≡ n) × ((0 < n) × IsSent f)))

  -- What a lane may wait for.
  abbrev pub waits : Source → ℕ → Bool
  waits s k =
      not (k % 4 == 0)
      || (not (s.rep_cnt == 0) || ((s.force_offset_start && (k == 0)) || s.in_term))

  arbitrate-waits : (s : Source) (k : ℕ) → waits s k ≡ true → arbitrate lib c s k ≡ some s
  unfolding arbitrate
  arbitrate-waits s k h = rw h refl

  arbitrate-Under :
      (s : Source) (k n : ℕ) (f : Frame)
      → Steady s
      → Under s f n
      → (u : Source) × ((arbitrate lib c s k ≡ some u) × (Steady u × Under u f n))
  unfolding arbitrate wait_gap
  arbitrate-Under s k n f h x = elim (Bool-cases (waits s k)) [
    | inl e ↦ rw e (_, (refl, (h, x)))
    | inr e ↦
        rw e
          (elim (Bool-cases
            (ltb 3 (s.ifg_cnt + s.deficit_idle_cnt) || (not s.enable_dic && ltb 0 s.ifg_cnt))) [
              | inl w ↦ rw w (elim (Bool-cases (leb 4 s.ifg_cnt)) [
                | inl v ↦ rw v (_, (refl, (h, x)))
                | inr v ↦ rw v (_, (refl, (h, x)))
              ])
              | inr w ↦ rw w (s, (ap (next_frame lib c s) x.0, (h, x)))
            ])
  ]

  fill_lane_next :
      (s u v : Source) (k : ℕ) (fr : Option Frame) (l : Lane)
      → arbitrate lib c s k ≡ some u
      → u.frame ≡ fr
      → emit_of lib c u k fr ≡ (l, v)
      → v.rep_count ≡ 0
      → v.rep_cnt ≡ 0
      → fill_lane lib c s k ≡ some (l, stepped lib c v)
  unfolding fill_lane
  fill_lane_next s u v k fr l e e' e'' h h' =
      let sent : emit_of lib c u k u.frame ≡ (l, v) = ap (emit_of lib c u k) e' ∙ e'' in
      rw (e, fill_lane) (rw sent (rw (repeat_quiet lib c v k h h') refl))

  pub fill_data :
      (s : Source) (k n : ℕ) (f : Frame)
      → Steady s
      → Under s f n
      → n < length f.bytes
      → (s' : Source) × ((fill_lane lib c s k ≡ some (dat (get_or f.bytes n 0), s'))
          × (Steady s' × Under s' f (n + 1)))
  fill_data s k n f h x inside =
      let next = arbitrate-Under s k n f h x in
      let u = next.0 in
      let under = next.1.1.1 in
      let at : u.frame_offset ≡ n = under.1.1.0 in
      let sent =
        emit_data lib c u k f under.1.0 (omega (arith, at, inside))
          (omega (arith, at, x.1.1.1.0)) in
      let plain : get_or f.ctrls n false ≡ false = x.1.1.1.1.0.1.1.1 n in
      let lane : record {
        d = get_or f.bytes u.frame_offset 0;
        c = get_or f.ctrls u.frame_offset false;
      }
          ≡ dat (get_or f.bytes n 0) =
        rw at (rw plain refl) in
      let steady = next.1.1.0 in
      let v = record u { in_pre = sent.0 } in
      let filled = fill_lane_next s u v k (some f) _ next.1.0 under.0 sent.1 steady.0 steady.1.0 in
      (
        stepped lib c v,
        (
          filled ∙ ap (λ (l : Lane). some (l, stepped lib c v)) lane,
          (steady, (under.0, (under.1.0, (omega (arith, at), (omega arith, x.1.1.1.1))))),
        ),
      )

  pub fill_term :
      (s : Source) (k n : ℕ) (f : Frame)
      → Steady s
      → Under s f n
      → length f.bytes ≤ n
      → (s' : Source) × ((fill_lane lib c s k ≡ some (record { d = c.term; c = true }, s'))
          × (Steady s' × ((s'.frame ≡ none) × (s'.in_term ≡ true))))
  fill_term s k n f h x past =
      let next = arbitrate-Under s k n f h x in
      let u = next.0 in
      let under = next.1.1.1 in
      let at : u.frame_offset ≡ n = under.1.1.0 in
      let sent = emit_term lib c u k f under.1.0 (omega (arith, at, past)) in
      let steady = next.1.1.0 in
      (
        _,
        (
          fill_lane_next s u _ k (some f) _ next.1.0 under.0 sent steady.0 steady.1.0,
          (steady, (refl, refl)),
        ),
      )

  -- A lane with an idle character.
  abbrev pub Idles : Source → ℕ → Type 0
  Idles s k =
      (s' : Source) × ((fill_lane lib c s k ≡ some (idle c, s'))
        × (Steady s' × ((s'.frame ≡ none) × (s'.in_term ≡ s.in_term))))

  -- A lane in which a frame starts.
  abbrev pub Begins : Source → ℕ → Type 0
  Begins s k =
      (f : Frame) × (s' : Source) × ((fill_lane lib c s k
          ≡ some (record { d = c.start; c = true }, s'))
        × (Steady s' × Under s' f 1))

  idle_after :
      (s u : Source) (k : ℕ)
      → arbitrate lib c s k ≡ some u
      → Steady u
      → u.frame ≡ none
      → u.in_term ≡ s.in_term
      → Idles s k
  idle_after s u k e h e' same =
      (stepped lib c u, (fill_lane_next s u u k none _ e e' refl h.0 h.1.0, (h, (e', same))))

  pub fill_idle : (s : Source) (k : ℕ) → Steady s → s.frame ≡ none → waits s k ≡ true → Idles s k
  fill_idle s k h e w = idle_after s s k (arbitrate-waits s k w) h e refl

  -- The state behind the start of a frame.
  abbrev Begun : Source → Frame → Type 0
  Begun u f = Steady u × ((u.frame ≡ some f) × ((u.sof ≡ true) × ((u.frame_offset ≡ 0) × IsSent f)))

  begin-Begun :
      (s : Source) (f : Frame) (fs : List Frame)
      → Steady s
      → s.queue ≡ f ∷ fs
      → (u : Source) × (g : Frame) × ((begin lib c s f fs ≡ some u) × Begun u g)
  unfolding begin
  begin-Begun s f fs h q =
      let sent =
        subst (λ (fs : List Frame). All (λ (f : Frame). IsSent (lib.normalize f)) fs) q h.1.1 in
      let plain = sent.0.0 in
      let test : ((get_or (lib.normalize f).bytes 0 0 == c.pre)
            && not (get_or (lib.normalize f).ctrls 0 true))
          ≡ true =
        rw (plain.1.0) (rw (eq_self c.pre) (rw (plain.1.1.0) refl)) in
      rw test (_, _, (refl, ((h.0, (h.1.0, sent.1)), (refl, (refl, (refl, sent.0))))))

  start_after :
      (s : Source) (k : ℕ) (f : Frame) (fs : List Frame)
      → Steady s
      → s.queue ≡ f ∷ fs
      → arbitrate lib c s k ≡ begin lib c s f fs
      → Begins s k
  start_after s k f fs h q e =
      let b = begin-Begun s f fs h q in
      let u = b.0 in
      let g = b.1 in
      let begun = b.2.1 in
      let sent = emit_start lib c u k g begun.1.1.0 in
      let filled =
        fill_lane_next s u _ k (some g) _ (e ∙ b.2.0) begun.1.0 sent begun.0.0 begun.0.1.0 in
      (
        record g { start_lane = k },
        _,
        (
          filled,
          (begun.0, (refl, (refl, (omega (arith, begun.1.1.1.0), (omega arith, begun.1.1.1.1))))),
        ),
      )

  fill_first :
      (s : Source) (k : ℕ) (q : List Frame)
      → Steady s
      → s.frame ≡ none
      → s.queue ≡ q
      → arbitrate lib c s k ≡ from_queue lib c s q
      → Idles s k ⊎ Begins s k
  fill_first s k [] h e e' a = inl (idle_after s _ k a h e refl)
  fill_first s k (f ∷ fs) h e e' a = inr (start_after s k f fs h e' a)

  wait_gap_fields :
      (s : Source) → (x y : ℕ) × (wait_gap lib c s ≡ record s { ifg_cnt = x; deficit_idle_cnt = y })
  unfolding wait_gap
  wait_gap_fields s = elim (Bool-cases (leb 4 s.ifg_cnt)) [
    | inl e ↦ rw e (_, _, refl)
    | inr e ↦ rw e (_, _, refl)
  ]

  pub fill_free : (s : Source) (k : ℕ) → Steady s → s.frame ≡ none → Idles s k ⊎ Begins s k
  unfolding arbitrate
  fill_free s k h e = elim (Bool-cases (waits s k)) [
    | inl w ↦ inl (fill_idle s k h e w)
    | inr w ↦
        elim (Bool-cases
          (ltb 3 (s.ifg_cnt + s.deficit_idle_cnt) || (not s.enable_dic && ltb 0 s.ifg_cnt))) [
            | inl v ↦
                (let gap = wait_gap_fields s in
                  inl (
                    idle_after s (record s { ifg_cnt = gap.0; deficit_idle_cnt = gap.1 }) k
                      (rw w (rw v (ap (λ (u : Source). some u) gap.2))) h e refl))
            | inr v ↦ fill_first s k s.queue h e refl (rw w (rw v (ap (next_frame lib c s) e)))
          ]
  ]
