-- ===== src/Pcie/Link.antt =====
-- The sink of src/pcie/tb/pcie_if.py takes the transactions of the source.
use taxi.Prelude.{
  ℕ, zero, suc, ◌+◌, ◌-◌, ◌/◌, ◌^◌, ◌≤◌, ◌<◌, ◌≡◌, refl, sym, ap, subst, ◌∙◌, inl, inr, Option,
  none, some, List, [], ◌∷◌, ◌++◌, append-nil, append_assoc, map, length, length-append, All,
  All-append, arith,
}
use taxi.Pcie.{PcieIfFrame, Interface, Transaction}
use taxi.Pcie.Send.{Sending, PcieIfSource, current, drive_segment, rest_of, send_segments}
use taxi.Pcie.Receive.{Segment, PcieIfSink}
use taxi.Pcie.Pack.{pack_segments, segment_of, Fits}
use taxi.Pcie.Drive.{segment_of-Fits, drive_segment-pack_segments}
use taxi.Pcie.Arrival.{arrived, Ready, Starts, started}
use taxi.Pcie.Segments.{
  Sits, pending, weight, segments_of, Starts-Within, Passed, take_segment-Starts,
}
use taxi.Pcie.Taken.{takes, takes_more}

abbrev pub total : Interface → List PcieIfFrame → ℕ
total c [] = 0
total c (f ∷ q) = segments_of c (length f.dwords) + total c q

-- The segments that a source still has to send.
abbrev pub segments_left : Interface → PcieIfSource → ℕ
segments_left c s = weight c s.sending + total c s.queue

-- The dwords of a queue.
abbrev pub size : List PcieIfFrame → ℕ
size [] = 0
size (f ∷ q) = length f.dwords + size q

-- What the source counts of its queue is so.
abbrev pub Counted : PcieIfSource → Type 0
Counted s = (s.queue_occupancy_bytes ≡ size s.queue) × (s.queue_occupancy_frames ≡ length s.queue)

-- The sink has its part of the frame under way, the frames of the queue can be sent, and the source's counts are
-- those of its queue.
abbrev pub Link : Interface → PcieIfSource → PcieIfSink → Type 0
Link c s r = Sits c s.sending r × (All (Ready c) s.queue × Counted s)

-- The frames received, the one under way, and those of the queue, as they arrive.
abbrev pub through : Interface → PcieIfSource → PcieIfSink → List PcieIfFrame
through c s r = r.queue ++ (pending c s.sending ++ map (arrived c) s.queue)

send_more :
    (c : Interface) (n seg : ℕ) (x : Sending) (s s' : PcieIfSource) (t t' : Transaction)
    → current s ≡ some (x, s')
    → drive_segment c seg x t ≡ some t'
    → send_segments c (suc n) seg s t
      ≡ send_segments c n (seg + 1) (record s' { sending = rest_of c x }) t'
unfolding send_segments
send_more c n seg x s s' t t' e d = rw (e, d, send_segments) refl

-- What `count` segments of the loop do, behind those of `gs`.
pub record Ran (c : Interface) (count : ℕ) (gs : List Segment) (s : PcieIfSource) (r : PcieIfSink)
    : Type 0 where
  pub more : List Segment
  pub source : PcieIfSource
  pub sink : PcieIfSink
  pub sent :
      send_segments c count (length gs) s (pack_segments c gs)
      ≡ some (pack_segments c (gs ++ more), source)
  pub fits : All (Fits c) (gs ++ more)
  pub few : length more ≤ count
  pub took : takes more r ≡ some sink
  pub link : Link c source sink
  pub same : through c source sink ≡ through c s r
  pub less : segments_left c source ≡ segments_left c s - count

module _ (c : Interface) (lanes_pos : 0 < c.seg_byte_lanes)
    (lanes_le : c.seg_byte_lanes ≤ 2 ^ c.seg_empty_width) where
  step-Ran :
      (n : ℕ) (x : Sending) (s s' : PcieIfSource) (r : PcieIfSink) (gs : List Segment)
      (ready : Ready c x.frame)
      → Starts c x r
      → All (Fits c) gs
      → current s ≡ some (x, s')
      → through c s r ≡ r.queue ++ (arrived c x.frame ∷ map (arrived c) s'.queue)
      → weight c (some x) + total c s'.queue ≡ segments_left c s
      → (passed : Passed c lanes_pos x r ready (rest_of c x))
      → Ran c n (gs ++ (segment_of c x ∷ [])) (record s' { sending = rest_of c x }) passed.0
      → Ran c (suc n) gs s r
  step-Ran n x s s' r gs ready starts l cur all same_left passed rest =
      let g : Segment = segment_of c x in
      let gs' = gs ++ (g ∷ []) in
      let next : length gs + 1 ≡ length gs' =
        omega (arith, length-append {A = Segment} gs (g ∷ [])) in
      let after : PcieIfSource = record s' { sending = rest_of c x } in
      let within = Starts-Within c lanes_pos x r ready starts in
      let driven = drive_segment-pack_segments c lanes_pos lanes_le x ready.fits within gs l in
      let order = append_assoc gs (g ∷ []) rest.more in
      let waiting = map (arrived c) s'.queue in
      record {
        more = g ∷ rest.more;
        source = rest.source;
        sink = rest.sink;
        sent =
            send_more c n (length gs) x s s' (pack_segments c gs) (pack_segments c gs') cur driven
            ∙ (ap (λ (k : ℕ). send_segments c n k after (pack_segments c gs')) next
                ∙ (rest.sent
                    ∙ ap (λ (all : List Segment). some (pack_segments c all, rest.source)) order));
        fits = subst (All (Fits c)) order rest.fits;
        few = omega (arith, rest.few);
        took = takes_more g rest.more r passed.0 passed.1.0 ∙ rest.took;
        link = rest.link;
        same =
            rest.same
            ∙ (sym (append_assoc passed.0.queue (pending c (rest_of c x)) waiting)
                ∙ (ap (λ (l : List PcieIfFrame). l ++ waiting) passed.1.1.1.0
                    ∙ (append_assoc r.queue (arrived c x.frame ∷ []) waiting ∙ sym all)));
        less = omega (arith, rest.less, passed.1.1.1.1, same_left);
      }

  none-Ran :
      (count : ℕ) (s : PcieIfSource) (r : PcieIfSink) (gs : List Segment)
      → All (Fits c) gs
      → Link c s r
      → segments_left c s ≡ segments_left c s - count
      → send_segments c count (length gs) s (pack_segments c gs) ≡ some (pack_segments c gs, s)
      → Ran c count gs s r
  none-Ran count s r gs l link less e =
      let order = sym (append-nil gs) in
      record {
        more = [];
        source = s;
        sink = r;
        sent = e ∙ ap (λ (all : List Segment). some (pack_segments c all, s)) order;
        fits = subst (All (Fits c)) order l;
        few = omega arith;
        took = refl;
        link = link;
        same = refl;
        less = less;
      }

  pub segments-Ran :
      (count : ℕ) (o : Option Sending) (q : List PcieIfFrame) (s : PcieIfSource) (r : PcieIfSink)
      (gs : List Segment)
      → All (Fits c) gs
      → Link c (record s { sending = o; queue = q }) r
      → Ran c count gs (record s { sending = o; queue = q }) r
  unfolding send_segments
  segments-Ran zero o q s r gs l link =
      none-Ran zero (record s { sending = o; queue = q }) r gs l link (omega arith) refl
  segments-Ran (suc n) none [] s r gs l link =
      none-Ran (suc n) (record s { sending = none; queue = [] }) r gs l link (omega arith) refl
  segments-Ran (suc n) none (f ∷ q) s r gs l link =
      let x : Sending = started f in
      let whole : length f.dwords - 0 ≡ length f.dwords = omega arith in
      let starts : Starts c x r =
        inl (record { is_first = refl; at_start = refl; no_other = link.0 }) in
      let ready = link.1.0.0 in
      let passed = take_segment-Starts c lanes_pos x r ready starts in
      let within = Starts-Within c lanes_pos x r ready starts in
      let s' : PcieIfSource = record s {
        sending = none;
        queue = q;
        queue_occupancy_bytes = s.queue_occupancy_bytes - length f.dwords;
        queue_occupancy_frames = s.queue_occupancy_frames - 1;
      } in
      let fits =
        All-append (Fits c) gs (segment_of c x ∷ []) l
          (segment_of-Fits c lanes_pos lanes_le x ready.fits within, tt) in
      let rest =
        segments-Ran n (rest_of c x) q s' passed.0 (gs ++ (segment_of c x ∷ [])) fits
          (passed.1.1.0, (link.1.0.1, (omega (arith, link.1.1.0), omega (arith, link.1.1.1)))) in
      step-Ran n x (record s { sending = none; queue = f ∷ q }) s' r gs ready starts l refl refl
        (omega (arith, ap (λ (k : ℕ). (k - 1) / c.seg_byte_lanes) whole)) passed rest
  segments-Ran (suc n) (some x) q s r gs l link =
      let starts : Starts c x r = inr link.0.1 in
      let ready = link.0.0 in
      let passed = take_segment-Starts c lanes_pos x r ready starts in
      let within = Starts-Within c lanes_pos x r ready starts in
      let s' : PcieIfSource = record s { sending = some x; queue = q } in
      let fits =
        All-append (Fits c) gs (segment_of c x ∷ []) l
          (segment_of-Fits c lanes_pos lanes_le x ready.fits within, tt) in
      let rest =
        segments-Ran n (rest_of c x) q s' passed.0 (gs ++ (segment_of c x ∷ [])) fits
          (passed.1.1.0, link.1) in
      step-Ran n x s' s' r gs ready starts l refl refl refl passed rest
