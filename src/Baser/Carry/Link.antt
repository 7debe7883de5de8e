-- ===== src/Baser/Carry/Link.antt =====
-- Blocks of lanes from the source to the sink (src/eth/tb/baser.py), over any number of clock edges.
use taxi.Prelude.{ℕ, zero, suc, ◌≡◌, refl, ◌∙◌, Option, none, some, false, List, ◌++◌}
use taxi.Baser.Codes.{Codes}
use taxi.Baser.Frame.{Library}
use taxi.Baser.Source.{Source, Lane, fill_lanes, replace_os, fill_block}
use taxi.Baser.Sink.{Sink, receive_lanes}
use taxi.Baser.Carry.{Inv, to_send, delivered}
use taxi.Baser.Carry.Emit.{IsFaithful}
use taxi.Baser.Carry.Lanes.{fill_lanes-Goes}

module _ (lib : Library) (c : Codes) where
  -- `count` blocks of eight lanes that the source makes and the sink takes.
  unfoldable pub link : ℕ → Source → Sink → Option (Source × Sink)
  link zero s t = some (s, t)
  link (suc count) s t = elim (fill_block lib c s) [
    | none ↦ none
    | some (lanes, s') ↦ link count s' (receive_lanes lib c 0 lanes t)
  ]

  module _ (w : IsFaithful lib c) where
    pub fill_lanes_os :
        (s t : Source) (ls : List Lane)
        → fill_lanes lib c 8 0 s ≡ some (ls, t)
        → t.os ≡ none
        → fill_block lib c s ≡ some (ls, record t { in_term = false })
    unfolding fill_block replace_os
    fill_lanes_os s t ls e h = rw (e, fill_block) (rw (h, replace_os) refl)

    -- Frames that start with the preamble and hold no control character go from the source to the sink
    -- over the lanes of any number of blocks, when no repetition and no ordered set is set, idle and start
    -- differ and `compact` keeps the bytes: the source raises no AssertionError, and the bytes of the
    -- frames received, of the one under way and of those that wait are those of before, in order.
    pub link-Inv :
        (count : ℕ) (s : Source) (t : Sink)
        → Inv lib c s t
        → (s' : Source) × (t' : Sink) × ((link count s t ≡ some (s', t'))
            × (Inv lib c s' t'
                × (delivered lib c t' ++ to_send lib c s' ≡ delivered lib c t ++ to_send lib c s)))
    unfolding link
    link-Inv zero s t i = (s, t, (refl, (i, refl)))
    link-Inv (suc count) s t i =
        let one = fill_lanes-Goes lib c w 8 0 s t i in
        let passed = one.2.1 in
        let block = fill_lanes_os s one.1 one.0 (one.2.0) passed.0.0.1.1.1.1 in
        let rest =
          link-Inv count (record (one.1) { in_term = false }) (receive_lanes lib c 0 one.0 t)
            passed.0 in
        (rest.0, rest.1, (rw (block, link) (rest.2.0), (rest.2.1.0, rest.2.1.1 ∙ passed.1)))
