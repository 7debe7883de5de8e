-- ===== src/Ptp/Source/Pace.antt =====
-- The pace of the messages: 14 words of 17 edges are sent well before the next message is due.
use taxi.Prelude.{
  ℕ, zero, suc, ◌+◌, ◌-◌, ◌*◌, ◌≤◌, ◌<◌, ◌≡◌, refl, ap, ◌∙◌, Option, none, some, List, [], ◌∷◌,
  length, arith,
}
use taxi.Ptp.Source.{
  Source, Run, fresh_run, message, index_words, common_words, build, send, serialize, round, edge,
}

-- The edges that the line is still busy for: what is left of the word, and of the message.
abbrev pub busy_word : Option ℕ → ℕ → ℕ
busy_word none i = 0
busy_word (some w) i = 16 - i

abbrev pub busy : Run → ℕ
busy r = 17 * length r.msg + busy_word r.word r.bit_index

-- The counter of a word that is being sent.
abbrev pub InWord : Option ℕ → ℕ → Type 0
InWord none i = Unit
InWord (some w) i = i < 16

pub record IsPaced (r : Run) : Type 0 where
  pub ahead : busy r ≤ r.msg_delay - 18
  pub counter : InWord r.word r.bit_index
  pub index : r.msg_index < 3

length-message : (s : Source) (i : ℕ) → i < 3 → length (message s i) ≡ 14
unfolding message index_words common_words
length-message s i h = ground arith

-- An edge sends one bit of whatever is left.
record Sent (r t : Run) : Type 0 where
  less : busy t ≤ busy r - 1
  counter : InWord t.word t.bit_index
  same_delay : t.msg_delay ≡ r.msg_delay
  same_index : t.msg_index ≡ r.msg_index

send-Sent :
    (r : Run) (w : Option ℕ) (ws : List ℕ)
    → r.word ≡ w
    → r.msg ≡ ws
    → InWord r.word r.bit_index
    → Sent r (send r w ws).0
unfolding send
send-Sent r none [] ew em h = ground arith
send-Sent r none (w ∷ ws) ew em h = ground arith
send-Sent r (some w) ws ew em h = ground arith

serialize-Sent : (r : Run) → InWord r.word r.bit_index → Sent r (serialize r).0
unfolding serialize
serialize-Sent r h = send-Sent r r.word r.msg refl refl h

-- When a message is due nothing of the last one is left.
pub IsPaced-idle : (r : Run) → IsPaced r → r.msg_delay ≡ 0 → (r.word ≡ none) × (r.msg ≡ [])
IsPaced-idle r h due = ground (arith, h.ahead, h.counter)

record Loaded (r : Run) : Type 0 where
  ahead : busy r ≤ r.msg_delay - 17
  counter : InWord r.word r.bit_index
  index : r.msg_index < 3

build-Loaded : (s : Source) (r : Run) → IsPaced r → Loaded (build s r).1
unfolding build
build-Loaded s r h =
    ground
      (arith, length-message s r.msg_index h.index, IsPaced-idle r h, h.ahead, h.counter, h.index)

sent-IsPaced : (s : Source) (r : Run) → IsPaced r → IsPaced (serialize (build s r).1).0
sent-IsPaced s r h =
    let loaded = build-Loaded s r h in
    let sent = serialize-Sent (build s r).1 loaded.counter in
    record {
      ahead = omega (arith, sent.less, sent.same_delay, loaded.ahead);
      counter = sent.counter;
      index = omega (arith, sent.same_index, loaded.index);
    }

-- Every round keeps the pace, so `build` never overwrites words that are still to be sent.
pub round-IsPaced :
    (s : Source) (r : Run) → IsPaced r → (t : Run) × ((round s r).run ≡ some t) × IsPaced t
unfolding round
round-IsPaced s r h = (_, refl, sent-IsPaced _ r h)

fresh_run-IsPaced : IsPaced fresh_run
fresh_run-IsPaced = omega arith

abbrev pub edges : ℕ → Source → Source
edges zero s = s
edges (suc n) s = edges n (edge s)

pub edge-round : (s : Source) (r : Run) → s.run ≡ some r → edge s ≡ round s r
unfolding edge
edge-round s r e = rw e

edges-IsPaced :
    (n : ℕ) (s : Source) (r : Run)
    → s.run ≡ some r
    → IsPaced r
    → (t : Run) × ((edges n s).run ≡ some t) × IsPaced t
edges-IsPaced zero s r e h = (r, e, h)
edges-IsPaced (suc n) s r e h =
    let (t, e', h') = round-IsPaced s r h in
    edges-IsPaced n (edge s) t (ap (λ (x : Source). x.run) (edge-round s r e) ∙ e') h'

-- After any number of edges from the start of the coroutine: when a message is due, the last one
-- has been sent to its last bit, so that `build` never drops a word.
pub edges_idle :
    (n : ℕ) (s : Source)
    → s.run ≡ some fresh_run
    → (t : Run) × ((edges n s).run ≡ some t) × (t.msg_delay ≡ 0 → (t.word ≡ none) × (t.msg ≡ []))
edges_idle n s e =
    let (t, e', h) = edges-IsPaced n s fresh_run e fresh_run-IsPaced in
    (t, e', λ due. IsPaced-idle t h due)
