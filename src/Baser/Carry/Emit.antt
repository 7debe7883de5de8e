-- ===== src/Baser/Carry/Emit.antt =====
-- A lane from the source to the sink (src/eth/tb/baser.py): a frame that starts, goes on and ends.
use taxi.Prelude.{
  ℕ, zero, suc, ◌+◌, ◌-◌, ◌≤◌, ◌<◌, ◌≡◌, ◌≢◌, refl, sym, ap, ◌∙◌, Bool, true, false, none, some,
  List, [], ◌∷◌, ◌++◌, map, length, get_or, take, append_assoc, map-append, arith,
}
use taxi.Baser.Codes.{Codes}
use taxi.Baser.Frame.{Frame, Library}
use taxi.Baser.Source.{Source, Lane, repeat}
use taxi.Baser.Sink.{Sink, receive_lane, take_lane, start_frame, end_frame, push}
use taxi.Baser.Facts.{eq_self, ne_test}
use taxi.Baser.Carry.{IsPlain, Match, Inv, to_send, delivered}

take_suc :
    (n : ℕ) (xs : List ℕ) → n < length xs → take (n + 1) xs ≡ take n xs ++ (get_or xs n 0 ∷ [])
take_suc n [] h = absurd (omega arith)
take_suc zero (x ∷ xs) h = refl
take_suc (suc n) (x ∷ xs) h =
    let next : suc n + 1 ≡ suc (n + 1) = omega arith in
    rw next (ap (λ (ys : List ℕ). x ∷ ys) (take_suc n xs (omega arith)))

take_all : (n : ℕ) (xs : List ℕ) → length xs ≤ n → take n xs ≡ xs
take_all zero [] h = refl
take_all (suc n) [] h = refl
take_all zero (x ∷ xs) h = absurd (omega arith)
take_all (suc n) (x ∷ xs) h = ap (λ (ys : List ℕ). x ∷ ys) (take_all n xs (omega arith))

module _ (lib : Library) (c : Codes) where
  -- What the constants and `compact` of the frames are relied on for.
  pub record IsFaithful : Type 0 where
    pub idle_start : c.idle ≢ c.start
    pub compact_bytes : (f : Frame) → (lib.compact f).bytes ≡ f.bytes

  pub repeat_quiet :
      (s : Source) (k : ℕ)
      → s.rep_count ≡ 0
      → s.rep_cnt ≡ 0
      → repeat lib c s k ≡ record s { frame_offset = s.frame_offset + 1 }
  unfolding repeat
  repeat_quiet s k h h' = ground arith

  pub receive_quiet :
      (t : Sink) (k : ℕ) (l : Lane)
      → t.rep_count ≡ 0
      → t.skip_cnt ≡ 0
      → receive_lane lib c t k l ≡ take_lane lib c t k l t.frame
  unfolding receive_lane
  receive_quiet t k l h h' = ground arith

  -- Behind a lane that is sent and taken the invariant holds, and the bytes delivered and to send are
  -- those of before.
  abbrev pub Passed : Source → Sink → Source → Sink → Type 0
  Passed s t s' t' =
      Inv lib c s' t'
      × (delivered lib c t' ++ to_send lib c s' ≡ delivered lib c t ++ to_send lib c s)

  abbrev pub stepped : Source → Source
  stepped s = record s { frame_offset = s.frame_offset + 1 }

  module _ (w : IsFaithful) (s : Source) (t : Sink) (k : ℕ) (i : Inv lib c s t) where
    pub idle_pass :
        s.frame ≡ none
        → t.frame ≡ none
        → Passed s t (stepped s) (take_lane lib c t k (record { d = c.idle; c = true }) none)
    unfolding take_lane
    idle_pass e e' =
        let nothing : Match lib c s.frame s.sof (s.frame_offset + 1) t.frame = rw (e, e') tt in
        rw (ne_test c.idle c.start w.idle_start) (((i.0, (i.1.0, nothing)), refl))

    pub start_pass :
        (f : Frame)
        → s.frame ≡ some f
        → s.frame_offset ≡ 0
        → IsPlain lib c f
        → Passed s t
            (stepped (record s {
              sof = false;
              frame = some (record f { start_lane = k });
              current_frame = some (record f { start_lane = k });
            }))
            (take_lane lib c t k (record { d = c.start; c = true }) none)
    unfolding take_lane start_frame
    start_pass f e z plain =
        let one : s.frame_offset + 1 ≡ 1 = omega arith in
        let first : c.pre ∷ [] ≡ take (s.frame_offset + 1) f.bytes = rw one (rw (plain.1.0) refl) in
        let some_bytes : s.frame_offset + 1 ≤ length f.bytes =
          omega (arith, ap (length {A = ℕ}) plain.1.0) in
        let same : f.bytes ∷ map (λ (g : Frame). (lib.normalize g).bytes) s.queue
            ≡ to_send lib c s =
          rw e refl in
        rw (eq_self c.start) (
          (i.0, (i.1.0, (first, (omega arith, (some_bytes, plain))))),
          ap (λ (xs : List (List ℕ)). delivered lib c t ++ xs) same,
        )

    pub data_pass :
        (f g : Frame) (pre : Bool)
        → s.frame ≡ some f
        → s.sof ≡ false
        → t.frame ≡ some g
        → s.frame_offset < length f.bytes
        → (g.bytes ≡ take s.frame_offset f.bytes) × ((0 < s.frame_offset) × IsPlain lib c f)
        → Passed s t (stepped (record s { in_pre = pre })) (
            take_lane lib c t k
              (record {
                d = get_or f.bytes s.frame_offset 0;
                c = get_or f.ctrls s.frame_offset false;
              })
              (some g))
    unfolding take_lane
    data_pass f g pre e so e' h m =
        let n = s.frame_offset in
        let longer : g.bytes ++ (get_or f.bytes n 0 ∷ []) ≡ take (n + 1) f.bytes =
          rw m.0 (sym (take_suc n f.bytes h)) in
        let matched : Match lib c s.frame s.sof (n + 1)
            (some (push lib c g (get_or f.bytes n 0) false)) =
          rw (e, so) (longer, (omega arith, (omega arith, m.1.1))) in
        rw (m.1.1.1.1.1 n) ((i.0, (i.1.0, matched)), refl)

    pub term_pass :
        (f g : Frame)
        → s.frame ≡ some f
        → t.frame ≡ some g
        → length f.bytes ≤ s.frame_offset
        → g.bytes ≡ take s.frame_offset f.bytes
        → Passed s t
            (stepped (record s {
              in_term = true;
              ifg_cnt = s.ifg - (8 - k);
              frame = none;
              current_frame = none;
            }))
            (take_lane lib c t k (record { d = c.term; c = true }) (some g))
    unfolding take_lane end_frame
    term_pass f g e e' h m =
        let same : (lib.compact g).bytes ≡ f.bytes =
          w.compact_bytes g ∙ (m ∙ take_all s.frame_offset f.bytes h) in
        let rest = map (λ (x : Frame). (lib.normalize x).bytes) s.queue in
        let moved : delivered lib c (record t { queue = t.queue ++ (lib.compact g ∷ []) }) ++ rest
            ≡ delivered lib c t ++ to_send lib c s =
          rw (map-append, e, same)
            (append_assoc (map (λ (x : Frame). x.bytes) t.queue) (f.bytes ∷ [])
              (map (λ (x : Frame). (lib.normalize x).bytes) s.queue)) in
        rw (eq_self c.term) ((i.0, (i.1.0, tt)), moved)
