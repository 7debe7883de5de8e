-- ===== src/Baser/Carry/Arbitrate.antt =====
-- The first part of a lane (src/eth/tb/baser.py, `_run` of the source) takes a frame from the queue or
-- waits, and loses none.
use taxi.Prelude.{
  ℕ, ◌+◌, ◌%◌, ◌≡◌, refl, ap, subst, Bool, true, not, ◌&&◌, ◌||◌, Option, none, some, List, [], ◌∷◌,
  map, get_or, All, Bool-cases, inl, inr, leb, ltb, ◌==◌,
}
use taxi.Baser.Codes.{Codes}
use taxi.Baser.Frame.{Frame, Library}
use taxi.Baser.Source.{Source, wait_gap, begin, idle_lane, from_queue, next_frame, arbitrate}
use taxi.Baser.Sink.{Sink}
use taxi.Baser.Facts.{eq_self}
use taxi.Baser.Carry.{Match, IsQueued, Inv, to_send}

module _ (lib : Library) (c : Codes) (t : Sink) where
  -- The next state exists, keeps the invariant, and has the same bytes to send.
  abbrev pub Continues : Source → Option Source → Type 0
  Continues s o =
      (s' : Source) × ((o ≡ some s') × (Inv lib c s' t × (to_send lib c s' ≡ to_send lib c s)))

  wait_gap-Continues : (s : Source) → Inv lib c s t → Continues s (some (wait_gap lib c s))
  unfolding wait_gap
  wait_gap-Continues s i = elim (Bool-cases (leb 4 s.ifg_cnt)) [
    | inl e ↦ rw e (_, (refl, (i, refl)))
    | inr e ↦ rw e (_, (refl, (i, refl)))
  ]

  none_matched : (sof : Bool) (n : ℕ) (gr : Option Frame) → Match lib c none sof n gr → gr ≡ none
  none_matched sof n none m = refl
  none_matched sof n (some g) m = absurd m

  from_queue-Continues :
      (s : Source) (q : List Frame)
      → s.queue ≡ q
      → s.frame ≡ none
      → Inv lib c s t
      → Continues s (from_queue lib c s q)
  unfolding begin
  from_queue-Continues s [] e e' i = (idle_lane lib c s, (refl, (i, refl)))
  from_queue-Continues s (f ∷ fs) e e' i =
      let queued = subst (λ (q : List Frame). All (IsQueued lib c) q) e i.1.0 in
      let plain = queued.0 in
      let alone : t.frame ≡ none =
        none_matched s.sof s.frame_offset t.frame
          (subst (λ (fr : Option Frame). Match lib c fr s.sof s.frame_offset t.frame) e' i.1.1) in
      let head : get_or (lib.normalize f).bytes 0 0 ≡ c.pre =
        ap (λ (bs : List ℕ). get_or bs 0 0) plain.1.0 in
      let test : ((get_or (lib.normalize f).bytes 0 0 == c.pre)
            && not (get_or (lib.normalize f).ctrls 0 true))
          ≡ true =
        rw head (rw (eq_self c.pre) (rw (plain.1.1.0))) in
      let starts : Match lib c (some (record (lib.normalize f) { start_lane = 0 })) true 0 t.frame =
        rw alone (refl, plain) in
      let same : (lib.normalize f).bytes ∷ map (λ (g : Frame). (lib.normalize g).bytes) fs
          ≡ to_send lib c s =
        rw (e', e) in
      rw test (_, (refl, ((i.0, (queued.1, starts)), same)))

  next_frame-Continues :
      (s : Source) (fr : Option Frame)
      → s.frame ≡ fr
      → Inv lib c s t
      → Continues s (next_frame lib c s fr)
  next_frame-Continues s none e i = from_queue-Continues s s.queue refl e i
  next_frame-Continues s (some f) e i = (s, (refl, (i, refl)))

  pub arbitrate-Continues : (s : Source) (k : ℕ) → Inv lib c s t → Continues s (arbitrate lib c s k)
  unfolding arbitrate
  arbitrate-Continues s k i =
      elim (Bool-cases (
        not (k % 4 == 0)
        || (not (s.rep_cnt == 0) || ((s.force_offset_start && (k == 0)) || s.in_term)))) [
          | inl e ↦ rw e (s, (refl, (i, refl)))
          | inr e ↦
              rw e
                (elim (Bool-cases (
                  ltb 3 (s.ifg_cnt + s.deficit_idle_cnt)
                  || (not s.enable_dic && ltb 0 s.ifg_cnt))) [
                    | inl w ↦ rw w (wait_gap-Continues s i)
                    | inr w ↦ rw w (next_frame-Continues s s.frame refl i)
                  ])
        ]
