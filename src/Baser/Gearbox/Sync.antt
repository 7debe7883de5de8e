-- ===== src/Baser/Gearbox/Sync.antt =====
-- The sink's gearbox follows the source's (src/eth/tb/baser.py).
use taxi.Prelude.{
  ltb, ltb→lt, subst, sym, ◌∙◌, ℕ, zero, suc, ◌+◌, ◌%◌, ◌≤◌, ◌<◌, ◌≡◌, refl, ap, some, ◌⊎◌, inl,
  inr, Bool-cases, ◌==◌, arith,
}
use native.Mathlib.Nat.{mod-eq_of_lt, mod_self, mod-lt}
use taxi.Baser.Gearbox.{Gearbox, contains, source_edge, sink_edge, source_edge_of, sink_edge_of}

-- Clock edges of both, of which the sink sees the `gbx_sync` that the source drives.
unfoldable pub edges : ℕ → Gearbox → Gearbox → Gearbox × Gearbox
edges zero g h = (g, h)
edges (suc count) g h =
    edges count (source_edge g).gearbox (sink_edge h (some (source_edge g).sync)).gearbox

-- Both have a configuration with the same length and the same stall cycles.
abbrev pub Agree : ℕ → Gearbox → Gearbox → Type 0
Agree n g h =
    (g.seq_len ≡ some n) × ((h.seq_len ≡ some n) × ((h.seq_stall ≡ g.seq_stall) × (g.seq < n)))

-- In step, or the source's sequence stands at `last` and has not begun again.
abbrev Near : ℕ → Gearbox → Gearbox → Type 0
Near last g h = (h.seq ≡ g.seq) ⊎ (g.seq ≡ last)

next_seq : (n seq : ℕ) → seq < n → ((seq + 1) % n ≡ seq + 1) ⊎ ((seq + 1) % n ≡ 0)
next_seq n seq h = elim (Bool-cases (ltb (seq + 1) n)) [
  | inl e ↦ inl (mod-eq_of_lt (ltb→lt _ _ e))
  | inr e ↦
      (let whole : seq + 1 ≡ n = ground (arith, e) in
        inr (ap (λ (x : ℕ). x % n) whole ∙ mod_self n))
]

abbrev after : ℕ → Gearbox → Gearbox → Gearbox × Gearbox
after n g h =
    let e = source_edge_of g (some n) in
    (e.gearbox, (sink_edge_of h (some e.sync) (some n)).gearbox)

edge-Near :
    (n last : ℕ) (g h : Gearbox)
    → g.seq < n
    → Near last g h
    → Near (suc last) (after n g h).0 (after n g h).1
edge-Near n last g h l x = elim (Bool-cases ((g.seq + 1) % n == 0)) [
  | inl e ↦ (let zero_seq : (g.seq + 1) % n ≡ 0 = ground (arith, e) in inl (rw e (sym zero_seq)))
  | inr e ↦ rw e (elim x [
    | inl same ↦ inl (ap (λ (seq : ℕ). (seq + 1) % n) same)
    | inr at ↦ elim (next_seq n g.seq l) [
      | inl y ↦ inr (omega (arith, y, at))
      | inr y ↦ absurd (ground (arith, e, y))
    ]
  ])
]

edge-Agree : (n : ℕ) (g h : Gearbox) → Agree n g h → Agree n (after n g h).0 (after n g h).1
edge-Agree n g h a = (a.0, (a.1.0, (a.1.1.0, mod-lt (g.seq + 1) (omega (arith, a.1.1.1)))))

one_edge :
    (n : ℕ) (g h : Gearbox)
    → Agree n g h
    → ((source_edge g).gearbox, (sink_edge h (some (source_edge g).sync)).gearbox) ≡ after n g h
unfolding source_edge sink_edge
one_edge n g h a = rw (a.0, a.1.0) refl

edges-Near :
    (count n last : ℕ) (g h : Gearbox)
    → Agree n g h
    → Near last g h
    → Agree n (edges count g h).0 (edges count g h).1
      × Near (last + count) (edges count g h).0 (edges count g h).1
unfolding edges
edges-Near zero n last g h a x = let same : last + 0 ≡ last = omega arith in (a, rw same x)
edges-Near (suc count) n last g h a x =
    let same : last + suc count ≡ suc last + count = omega arith in
    let step = one_edge n g h a in
    let rest =
      edges-Near count n (suc last) (after n g h).0 (after n g h).1 (edge-Agree n g h a)
        (edge-Near n last g h a.1.1.1 x) in
    rw same (
      subst
        (λ (p : Gearbox × Gearbox).
          Agree n (edges count p.0 p.1).0 (edges count p.0 p.1).1
          × Near (suc last + count) (edges count p.0 p.1).0 (edges count p.0 p.1).1)
        (sym step) rest)

stall_lem :
    (n : ℕ) (g h : Gearbox)
    → Agree n g h
    → h.seq ≡ g.seq
    → (sink_edge h (some (source_edge g).sync)).stall ≡ (source_edge g).stall
unfolding source_edge sink_edge
stall_lem n g h a e = elim (Bool-cases ((g.seq + 1) % n == 0)) [
  | inl x ↦
      (let zero_seq : (g.seq + 1) % n ≡ 0 = ground (arith, x) in
        rw (a.0, a.1.0, a.1.1.0, x) (ap (contains g.seq_stall) (sym zero_seq)))
  | inr x ↦ rw (a.0, a.1.0, a.1.1.0, x, e) refl
]

-- A sink that has the source's configuration and sees its `gbx_sync` is in step with it after one
-- sequence, wherever both start (the source below the length), and from then on skips the cycles in which the source stalls.
pub edges_locked :
    (n count : ℕ) (g h : Gearbox)
    → Agree n g h
    → n ≤ count
    → let p = edges count g h in
      (p.1.seq ≡ p.0.seq)
      × ((sink_edge p.1 (some (source_edge p.0).sync)).stall ≡ (source_edge p.0).stall)
edges_locked n count g h a l =
    let near = edges-Near count n g.seq g h a (inr refl) in
    let lock : (edges count g h).1.seq ≡ (edges count g h).0.seq = elim near.1 [
      | inl e ↦ e
      | inr e ↦ absurd (omega (arith, e, l, near.0.1.1.1))
    ] in
    (lock, stall_lem n (edges count g h).0 (edges count g h).1 near.0 lock)
