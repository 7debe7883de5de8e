-- ===== src/Pcie/Exchange.antt =====
-- Frames from the queue of the source to that of the sink (src/pcie/tb/pcie_if.py).
use taxi.Prelude.{
  ℕ, zero, suc, ◌-◌, ◌*◌, ◌^◌, ◌≤◌, ◌<◌, ◌≡◌, refl, sym, ◌∙◌, Option, none, some, List, [], ◌∷◌,
  append-nil, arith,
}
use taxi.Pcie.{PcieIfFrame, Interface, Transaction}
use taxi.Pcie.Send.{Sending, PcieIfSource, send_transaction}
use taxi.Pcie.Receive.{PcieIfSink, take_transaction}
use taxi.Pcie.Pack.{pack_segments}
use taxi.Pcie.Taken.{segments_taken}
use taxi.Pcie.Link.{Link, through, segments_left, segments-Ran}

-- `n` rounds of both `_run`. A round with nothing to send has no segment that is valid, and changes nothing.
abbrev pub exchange : Interface → ℕ → PcieIfSource → PcieIfSink → Option (PcieIfSource × PcieIfSink)
exchange c zero s r = some (s, r)
exchange c (suc n) s r = elim (send_transaction c s) [
  | none ↦ none
  | some (t, s') ↦ elim (take_transaction c t r) [ none ↦ none | some r' ↦ exchange c n s' r' ]
]

exchange_more :
    (c : Interface) (n : ℕ) (s s' : PcieIfSource) (r r' : PcieIfSink) (t : Transaction)
    → send_transaction c s ≡ some (t, s')
    → take_transaction c t r ≡ some r'
    → exchange c (suc n) s r ≡ exchange c n s' r'
exchange_more c n s s' r r' t e f = rw (e, f, exchange) refl

drained :
    (c : Interface) (o : Option Sending) (q : List PcieIfFrame) (s : PcieIfSource) (r : PcieIfSink)
    → let s' = record s { sending = o; queue = q } in
      Link c s' r → segments_left c s' ≤ 0 → (o ≡ none) × ((q ≡ []) × (r.queue ≡ through c s' r))
drained c none [] s r l h = (refl, (refl, sym (append-nil r.queue)))
drained c none (f ∷ q) s r l h = absurd (omega arith)
drained c (some x) q s r l h = absurd (omega arith)

module _ (c : Interface) (lanes_pos : 0 < c.seg_byte_lanes)
    (lanes_le : c.seg_byte_lanes ≤ 2 ^ c.seg_empty_width) where
  -- Neither side raises an exception: the sink takes the transaction that the source makes, where both are in
  -- step, the source's counts are those of its queue, and the frames fit the interface, with headers that give
  -- their lengths. All this is so again, what is received, under way and queued is the same, and of the segments
  -- left to send there are seg_count less, or none. A segment has a dword at least and at most
  -- 2 ^ seg_empty_width.
  pub transaction-Link :
      (s : PcieIfSource) (r : PcieIfSink)
      → Link c s r
      → (t : Transaction) × (s' : PcieIfSource) × (r' : PcieIfSink) × ((send_transaction c s
            ≡ some (t, s'))
          × ((take_transaction c t r ≡ some r')
              × (Link c s' r'
                  × ((through c s' r' ≡ through c s r)
                      × (segments_left c s' ≡ segments_left c s - c.seg_count)))))
  unfolding send_transaction take_transaction
  transaction-Link s r l =
      let ran = segments-Ran c lanes_pos lanes_le c.seg_count s.sending s.queue s r [] tt l in
      (
        pack_segments c ran.more,
        ran.source,
        ran.sink,
        (
          ran.sent,
          (
            segments_taken c ran.more ran.fits c.seg_count [] ran.more r ran.sink refl ran.few
                ran.took,
            (ran.link, (ran.same, ran.less)),
          ),
        ),
      )

  -- After as many transactions as hold the segments left to send, or more, the source has sent all, and the
  -- sink has all the frames, in order, each as it was sent but for the numbers of the function that are cut to
  -- their widths and `tlp_abort`, which is 0; both are in step again. This is where both are in step, the
  -- source's counts are those of its queue, and the frames fit the interface, with headers that give their
  -- lengths; a segment has a dword at least and at most 2 ^ seg_empty_width.
  pub exchange_all :
      (n : ℕ) (s : PcieIfSource) (r : PcieIfSink)
      → Link c s r
      → segments_left c s ≤ n * c.seg_count
      → (s' : PcieIfSource) × (r' : PcieIfSink) × ((exchange c n s r ≡ some (s', r'))
          × (Link c s' r' × ((s'.sending ≡ none) × ((s'.queue ≡ []) × (r'.queue ≡ through c s r)))))
  exchange_all zero s r l h =
      (s, r, (refl, (l, drained c s.sending s.queue s r l (omega (arith, h)))))
  exchange_all (suc n) s r l h =
      let one = transaction-Link s r l in
      let rest = exchange_all n one.1 one.2 one.3.1.1.0 (omega (arith, one.3.1.1.1.1)) in
      (
        rest.0,
        rest.1,
        (
          exchange_more c n s one.1 r one.2 one.0 one.3.0 one.3.1.0 ∙ rest.2.0,
          (rest.2.1.0, (rest.2.1.1.0, (rest.2.1.1.1.0, rest.2.1.1.1.1 ∙ one.3.1.1.1.0))),
        ),
      )
