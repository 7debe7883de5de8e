-- ===== src/Dma/Ram/Stream.antt =====
-- The responses of a read port are the words of its commands, in order
-- (src/dma/tb/dma_psdp_ram.py, `PsdpRamRead._run`).
use taxi.Prelude.{
  ℕ, ◌≡◌, refl, sym, ap, ◌∙◌, Bool, true, false, ◌&&◌, none, some, List, [], ◌∷◌, ◌++◌,
  append_assoc, append-nil, All, arith,
}
use taxi.Dma.{Port}
use taxi.Dma.Ram.{ReadPort, Sample, idle_port, fetch, masked, respond, accept, make_ready, edge}

abbrev when : Bool → ℕ → List ℕ
when true value = value ∷ []
when false value = []

module _ (p : Port) (memory_read : ℕ → ℕ → List ℕ) (size seg : ℕ) where
  abbrev step : ReadPort → Sample → ReadPort
  step = edge p memory_read size seg

  -- The response that the other side takes at an edge, and the word of a command accepted at it.
  abbrev taken : ReadPort → Sample → List ℕ
  taken s i = when (s.resp_valid && i.resp_ready) s.resp_data

  abbrev asked : ReadPort → Sample → List ℕ
  asked s i = when (s.cmd_ready && i.cmd_valid) (masked p (fetch p memory_read size seg i.cmd_addr))

  -- What is on its way: the response that is shown, and the pipeline.
  abbrev pub pending : ReadPort → List ℕ
  pending s =
      when s.resp_valid s.resp_data
      ++ elim s.pipeline [ none ↦ [] | some value ↦ masked p value ∷ [] ]

  -- A port that is ready has room.
  abbrev HasRoom : ReadPort → Type 0
  HasRoom s =
      s.cmd_ready ≡ true
      → (s.resp_valid && elim s.pipeline [ none ↦ false | some value ↦ true ]) ≡ false

  step-HasRoom : (s : ReadPort) (i : Sample) → i.reset ≡ false → HasRoom (step s i)
  unfolding edge respond accept make_ready
  step-HasRoom s i h = ground arith

  step-pending :
      (s : ReadPort) (i : Sample)
      → i.reset ≡ false
      → HasRoom s
      → taken s i ++ pending (step s i) ≡ pending s ++ asked s i
  unfolding edge respond accept make_ready
  step-pending s i h r = ground arith

  -- The same over a sequence of edges, and the port behind it.
  pub all_taken : ReadPort → List Sample → List ℕ
  all_taken s [] = []
  all_taken s (i ∷ is) = taken s i ++ all_taken (step s i) is

  unfoldable pub all_asked : ReadPort → List Sample → List ℕ
  all_asked s [] = []
  all_asked s (i ∷ is) = asked s i ++ all_asked (step s i) is

  pub behind : ReadPort → List Sample → ReadPort
  behind s [] = s
  behind s (i ∷ is) = behind (step s i) is

  abbrev pub IsRunning : Sample → Type 0
  IsRunning i = i.reset ≡ false

  all_taken-pending :
      (s : ReadPort) (is : List Sample)
      → HasRoom s
      → All IsRunning is
      → all_taken s is ++ pending (behind s is) ≡ pending s ++ all_asked s is
  unfolding all_taken all_asked behind
  all_taken-pending s [] r h = sym (append-nil (pending s))
  all_taken-pending s (i ∷ is) r h =
      append_assoc (taken s i) (all_taken (step s i) is) (pending (behind (step s i) is))
      ∙ ap (λ (xs : List ℕ). taken s i ++ xs)
          (all_taken-pending (step s i) is (step-HasRoom s i h.0) h.1)
      ∙ sym (append_assoc (taken s i) (pending (step s i)) (all_asked (step s i) is))
      ∙ ap (λ (xs : List ℕ). xs ++ all_asked (step s i) is) (step-pending s i h.0 r)
      ∙ append_assoc (pending s) (asked s i) (all_asked (step s i) is)

  -- From the start of `_run`, over any edges without a reset, the responses taken and those still on
  -- their way are the words of the commands accepted, in order: none is lost, repeated or changed,
  -- whatever the pauses and the handshakes.
  pub all_taken-all_asked :
      (is : List Sample)
      → All IsRunning is
      → all_taken idle_port is ++ pending (behind idle_port is) ≡ all_asked idle_port is
  all_taken-all_asked is h = all_taken-pending idle_port is (λ e. refl) h
