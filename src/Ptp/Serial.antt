-- ===== src/Ptp/Serial.antt =====
-- The wire: what `serialize` sends, `deserialize` reads. The level that an edge of the source puts on
-- the line is what the next edge of the sink reads.
use taxi.Prelude.{
  ℕ, zero, suc, ◌+◌, ◌*◌, ◌/◌, ◌%◌, ◌^◌, ◌≤◌, ◌<◌, ◌≡◌, refl, sym, ap, ◌∙◌, none, some, List, [],
  ◌∷◌, ◌++◌, length, append_assoc, append-nil, All, bit_or, arith,
}
use native.Mathlib.Nat.{pow-suc, one-le-pow, mod-lt, div-add-mod}
use taxi.Prelude.Bits.{bit_or_fields, bit_or_comm}
use taxi.Ptp.Source
use taxi.Ptp.Source.{serialize}
use taxi.Ptp.Sink
use taxi.Ptp.Sink.{deserialize}

-- The two ends after a number of edges with no new message loaded.
pub exchange : ℕ → ℕ → Source.Run → Sink.Run → Source.Run × Sink.Run
exchange td_delay zero s k = (s, k)
exchange td_delay (suc n) s k =
    let (s', level) = serialize s in exchange td_delay n s' (deserialize td_delay k level)

mod_unique : (m q r w : ℕ) → r < m → w ≡ q * m + r → w % m ≡ r
mod_unique m q r w h e = grind arith

mod_split : (d w : ℕ) → 0 < d → (w / d) % 2 * d + w % d ≡ w % (d * 2)
mod_split d w h =
    let q : ℕ = w / d in
    let twice : d * q ≡ d * (q / 2 * 2 + q % 2) = ap (λ (t : ℕ). d * t) (omega arith) in
    let below : q % 2 * d ≤ 1 * d = grind arith in
    let parts : w ≡ q / 2 * (d * 2) + (q % 2 * d + w % d) = omega (arith, div-add-mod w d, twice) in
    sym (mod_unique (d * 2) (q / 2) (q % 2 * d + w % d) w (omega (arith, mod-lt w h)) parts)

two-pow-pos : (i : ℕ) → 0 < 2 ^ i
two-pow-pos i = one-le-pow i 2 (omega arith)

-- One more bit read.
bit_read : (w i : ℕ) → bit_or (w % 2 ^ i) ((w / 2 ^ i) % 2 * 2 ^ i) ≡ w % 2 ^ suc i
bit_read w i =
    bit_or_comm (w % 2 ^ i) ((w / 2 ^ i) % 2 * 2 ^ i)
    ∙ bit_or_fields i ((w / 2 ^ i) % 2) (w % 2 ^ i) (mod-lt w (two-pow-pos i))
    ∙ rw pow-suc (mod_split (2 ^ i) w (two-pow-pos i))

bit_step :
    (w i : ℕ) (s : Source.Run) (k : Sink.Run) (td_delay n : ℕ)
    → i + 1 < 16
    → s.word ≡ some w
    → s.bit_index ≡ i
    → k.word ≡ some (w % 2 ^ i)
    → k.bit_index ≡ i
    → exchange td_delay (suc n) s k
      ≡ exchange td_delay n
          (record s { bit_index = i + 1 })
          (record k { word = some (w % 2 ^ suc i); bit_index = i + 1 })
unfolding exchange serialize deserialize
bit_step w i s k td_delay n h sw si kw ki = ground (arith, bit_read w i)

last_bit :
    (w : ℕ) (s : Source.Run) (k : Sink.Run) (td_delay n : ℕ)
    → w < 2 ^ 16
    → s.word ≡ some w
    → s.bit_index ≡ 15
    → k.word ≡ some (w % 2 ^ 15)
    → k.bit_index ≡ 15
    → exchange td_delay (suc n) s k
      ≡ exchange td_delay n
          (record s { word = none; bit_index = 16 })
          (record k { cur_msg = k.cur_msg ++ (w ∷ []); word = none; bit_index = 16 })
unfolding exchange serialize deserialize
last_bit w s k td_delay n h sw si kw ki = ground (arith, bit_read w 15)

-- From bit `i` on, with `n` bits behind it.
exchange_bits :
    (n i w : ℕ) (s : Source.Run) (k : Sink.Run) (td_delay m : ℕ)
    → i + n ≡ 15
    → w < 2 ^ 16
    → s.word ≡ some w
    → s.bit_index ≡ i
    → k.word ≡ some (w % 2 ^ i)
    → k.bit_index ≡ i
    → exchange td_delay (suc n + m) s k
      ≡ exchange td_delay m
          (record s { word = none; bit_index = 16 })
          (record k { cur_msg = k.cur_msg ++ (w ∷ []); word = none; bit_index = 16 })
exchange_bits zero i w s k td_delay m e h sw si kw ki =
    let at_end : i ≡ 15 = omega arith in
    let one : suc zero + m ≡ suc m = omega arith in
    rw one (
      last_bit w s k td_delay m h sw (si ∙ at_end) (kw ∙ ap (λ (t : ℕ). some (w % 2 ^ t)) at_end)
        (ki ∙ at_end))
exchange_bits (suc n) i w s k td_delay m e h sw si kw ki =
    let more : suc (suc n) + m ≡ suc (suc n + m) = omega arith in
    rw more (
      bit_step w i s k td_delay (suc n + m) (omega arith) sw si kw ki
      ∙ exchange_bits n (i + 1) w (record s { bit_index = i + 1 })
          (record k { word = some (w % 2 ^ suc i); bit_index = i + 1 }) td_delay m (omega arith) h
          sw refl (let next : suc i ≡ i + 1 = omega arith in ap (λ (t : ℕ). some (w % 2 ^ t)) next)
          refl)

start_bit :
    (w : ℕ) (ws : List ℕ) (s : Source.Run) (k : Sink.Run) (td_delay n : ℕ)
    → s.word ≡ none
    → s.msg ≡ w ∷ ws
    → k.word ≡ none
    → exchange td_delay (suc n) s k
      ≡ exchange td_delay n
          (record s { word = some w; msg = ws; bit_index = 0 })
          (record k { word = some 0; bit_index = 0 })
unfolding exchange serialize deserialize
start_bit w ws s k td_delay n sw sm kw = rw (sw, sm, kw, serialize, deserialize)

exchange_word :
    (w : ℕ) (ws : List ℕ) (s : Source.Run) (k : Sink.Run) (td_delay m : ℕ)
    → w < 2 ^ 16
    → s.word ≡ none
    → s.msg ≡ w ∷ ws
    → k.word ≡ none
    → exchange td_delay (17 + m) s k
      ≡ exchange td_delay m
          (record s { msg = ws; word = none; bit_index = 16 })
          (record k { cur_msg = k.cur_msg ++ (w ∷ []); word = none; bit_index = 16 })
exchange_word w ws s k td_delay m h sw sm kw =
    let first : 17 + m ≡ suc (suc 15 + m) = omega arith in
    rw first (
      start_bit w ws s k td_delay (suc 15 + m) sw sm kw
      ∙ exchange_bits 15 0 w (record s { word = some w; msg = ws; bit_index = 0 })
          (record k { word = some 0; bit_index = 0 }) td_delay m refl h refl refl
          (ap some (omega arith)) refl)

-- The bit counter behind a message: a word leaves it at 16.
abbrev counter_after : List ℕ → ℕ → ℕ
counter_after [] i = i
counter_after (w ∷ ws) i = 16

counter_stays : (ws : List ℕ) → counter_after ws 16 ≡ 16
counter_stays [] = refl
counter_stays (w ∷ ws) = refl

counter_pos : (ws : List ℕ) (i : ℕ) → 0 < length ws → counter_after ws i ≡ 16
counter_pos [] i h = absurd (omega arith)
counter_pos (w ∷ ws) i h = refl

exchange_words :
    (ws : List ℕ) (s : Source.Run) (k : Sink.Run) (td_delay m : ℕ)
    → All (λ w. w < 2 ^ 16) ws
    → s.word ≡ none
    → s.msg ≡ ws
    → k.word ≡ none
    → exchange td_delay (17 * length ws + m) s k
      ≡ exchange td_delay m
          (record s { msg = []; word = none; bit_index = counter_after ws s.bit_index })
          (record k {
            cur_msg = k.cur_msg ++ ws;
            word = none;
            bit_index = counter_after ws k.bit_index;
          })
exchange_words [] s k td_delay m h sw sm kw = ground (arith, append-nil k.cur_msg)
exchange_words (w ∷ ws) s k td_delay m (hw, hs) sw sm kw =
    let count : 17 * suc (length ws) + m ≡ 17 + (17 * length ws + m) = omega arith in
    rw count (
      exchange_word w ws s k td_delay (17 * length ws + m) hw sw sm kw
      ∙ exchange_words ws (record s { msg = ws; word = none; bit_index = 16 })
          (record k { cur_msg = k.cur_msg ++ (w ∷ []); word = none; bit_index = 16 }) td_delay m hs
          refl refl refl
      ∙ ground (arith, counter_stays ws, append_assoc k.cur_msg (w ∷ []) ws))

idle_bit :
    (s : Source.Run) (k : Sink.Run) (td_delay : ℕ)
    → s.word ≡ none
    → s.msg ≡ []
    → k.word ≡ none
    → 0 < length k.cur_msg
    → exchange td_delay 1 s k
      ≡ (s, record k { msg = k.cur_msg; msg_delay = td_delay; cur_msg = [] })
unfolding exchange serialize deserialize
idle_bit s k td_delay sw sm kw h = rw (sw, sm, kw, serialize, deserialize) (ground arith)

-- From an idle line, 17 edges a word and one more bring any message of 16-bit words over whole, and
-- leave both ends idle. The sink then holds the message, with its delay set.
pub exchange_message :
    (ws : List ℕ) (s : Source.Run) (k : Sink.Run) (td_delay : ℕ)
    → All (λ w. w < 2 ^ 16) ws
    → 0 < length ws
    → s.word ≡ none
    → s.msg ≡ ws
    → k.word ≡ none
    → k.cur_msg ≡ []
    → exchange td_delay (17 * length ws + 1) s k ≡ (
      record s { msg = []; word = none; bit_index = 16 },
      record k { msg = ws; msg_delay = td_delay; cur_msg = []; word = none; bit_index = 16 },
    )
exchange_message ws s k td_delay h pos sw sm kw kc =
    let sent : Source.Run = record s {
      msg = [];
      word = none;
      bit_index = counter_after ws s.bit_index;
    } in
    let read : Sink.Run = record k {
      cur_msg = ws;
      word = none;
      bit_index = counter_after ws k.bit_index;
    } in
    exchange_words ws s k td_delay 1 h sw sm kw
    ∙ ap (λ (c : List ℕ). exchange td_delay 1 sent (record read { cur_msg = c ++ ws })) kc
    ∙ idle_bit sent read td_delay refl refl refl pos
    ∙ ground (arith, counter_pos ws s.bit_index, counter_pos ws k.bit_index)
