-- ===== src/Ptp/Source/Window.antt =====
-- `timestamp_delay` of src/ptp/tb/ptp_td.py over the edges of the clock.
use taxi.Prelude.{
  ℕ, zero, suc, ◌+◌, ◌-◌, ◌*◌, ◌≤◌, ◌≡◌, refl, sym, ap, ◌∙◌, List, [], ◌∷◌, ◌++◌, length,
  length-append, length-drop, drop, arith, get_elem?, append-nil, append_assoc, ap₂, subst,
  Bool-cases, inl, inr, ltb, ◌<◌, some, ◌==◌, ◌>>>◌,
}
use taxi.Ptp.Clock.{tick}
use taxi.Ptp.Source.{Source, Stamp, Run, stamp, pop_while, delay, offsets, build, round, edge}
use taxi.Ptp.Source.Pace.{edges, edge-round}
use taxi.Ptp.Access.{oldest}

-- The last `n` of a list.
abbrev pub last {ℓ} : {A : Type ℓ} → ℕ → List A → List A
last n xs = drop (length xs - n) xs

abbrev pub window : Source → ℕ
window s = 14 * 17 + s.td_delay

drop-append : (n : ℕ) (xs ys : List Stamp) → n ≤ length xs → drop n (xs ++ ys) ≡ drop n xs ++ ys
drop-append zero xs ys h = refl
drop-append (suc n) [] ys h = absurd (omega arith)
drop-append (suc n) (x ∷ xs) ys h = drop-append n xs ys (omega arith)

drop-drop : (n m : ℕ) (xs : List Stamp) → drop n (drop m xs) ≡ drop (m + n) xs
drop-drop n zero xs = let e : zero + n ≡ n = omega arith in rw e
drop-drop zero (suc m) [] = let e : suc m + zero ≡ suc m = omega arith in rw e
drop-drop (suc n) (suc m) [] = let e : suc m + suc n ≡ suc (m + suc n) = omega arith in rw e
drop-drop n (suc m) (x ∷ xs) =
    let e : suc m + n ≡ suc (m + n) = omega arith in rw e (drop-drop n m xs)

pop_while-last : (n : ℕ) (xs : List Stamp) → pop_while n xs ≡ last n xs
unfolding pop_while
pop_while-last n [] =
    let e : 0 - n ≡ 0 = omega arith in ap (λ (k : ℕ). drop {A = Stamp} k []) (sym e)
pop_while-last n (x ∷ xs) = elim (Bool-cases (ltb n (suc (length xs)))) [
  | inl t ↦
      (let more : n < suc (length xs) = ground (arith, t) in
        let e : suc (length xs) - n ≡ suc (length xs - n) = omega (arith, more) in
        rw t (pop_while-last n xs ∙ ap (λ (k : ℕ). drop k (x ∷ xs)) (sym e)))
  | inr t ↦
      (let e : suc (length xs) - n ≡ 0 = ground (arith, t) in
        rw t (ap (λ (k : ℕ). drop k (x ∷ xs)) (sym e)))
]

-- What is dropped before more is appended would be dropped behind it.
last-last-append : (n : ℕ) (xs ys : List Stamp) → last n (last n xs ++ ys) ≡ last n (xs ++ ys)
last-last-append n xs ys =
    let skip : ℕ = length xs - n in
    let longer : last n xs ++ ys ≡ drop skip (xs ++ ys) =
      sym (drop-append skip xs ys (omega arith)) in
    rw longer (
      drop-drop _ skip (xs ++ ys)
      ∙ ap (λ (t : ℕ). drop t (xs ++ ys))
          (omega (arith, length-drop skip (xs ++ ys), length-append xs ys)))

-- The stamps of `n` edges.
abbrev stamps : ℕ → Source → List Stamp
stamps zero s = []
stamps (suc n) s = stamp s ∷ stamps n (edge s)

-- What a round does to the window.
record Slid (s t : Source) : Type 0 where
  runs : (r : Run) × (t.run ≡ some r)
  same_delay : t.td_delay ≡ s.td_delay
  slid : t.timestamp_delay ≡ last (window s) (s.timestamp_delay ++ (stamp s ∷ []))

build-timestamp_delay :
    (s : Source) (r : Run)
    → ((build s r).0.timestamp_delay ≡ s.timestamp_delay) × ((build s r).0.td_delay ≡ s.td_delay)
unfolding build
build-timestamp_delay s r = elim (Bool-cases (r.msg_delay == 0)) [
  | inl t ↦ rw t (refl, refl)
  | inr t ↦ rw t (refl, refl)
]

offsets-timestamp_delay :
    (s : Source)
    → ((offsets s).timestamp_delay ≡ s.timestamp_delay) × ((offsets s).td_delay ≡ s.td_delay)
unfolding offsets
offsets-timestamp_delay s = elim (Bool-cases (s.ts_tod_ns >>> 27 == 7)) [
  | inl t ↦ rw t (refl, refl)
  | inr t ↦ rw t (refl, refl)
]

delay-last :
    (s : Source)
    → ((delay s).timestamp_delay ≡ last (window s) (s.timestamp_delay ++ (stamp s ∷ [])))
      × ((delay s).td_delay ≡ s.td_delay)
unfolding delay
delay-last s = (pop_while-last (window s) (s.timestamp_delay ++ (stamp s ∷ [])), refl)

round-Slid : (s : Source) (r : Run) → Slid s (round s r)
unfolding round
round-Slid s r =
    let delayed = delay s in
    let ticked : Source = record delayed { clock = tick delayed.clock } in
    let a = delay-last s in
    let b = offsets-timestamp_delay ticked in
    let c = build-timestamp_delay (offsets ticked) r in
    record { runs = (_, refl); same_delay = c.1 ∙ (b.1 ∙ a.1); slid = c.0 ∙ (b.0 ∙ a.0) }

edge-Slid : (s : Source) (r : Run) → s.run ≡ some r → Slid s (edge s)
edge-Slid s r e = subst (Slid s) (sym (edge-round s r e)) (round-Slid s r)

edges-last :
    (n : ℕ) (s : Source) (r : Run)
    → s.run ≡ some r
    → length s.timestamp_delay ≤ window s
    → (edges n s).timestamp_delay ≡ last (window s) (s.timestamp_delay ++ stamps n s)
edges-last zero s r e h =
    let none_more : length (s.timestamp_delay ++ []) - window s ≡ 0 =
      omega (arith, h, length-append s.timestamp_delay []) in
    sym (append-nil s.timestamp_delay)
    ∙ ap (λ (k : ℕ). drop k (s.timestamp_delay ++ [])) (sym none_more)
edges-last (suc n) s r e h =
    let one = edge-Slid s r e in
    let all = s.timestamp_delay ++ (stamp s ∷ []) in
    let w : ℕ = window s in
    let rest = stamps n (edge s) in
    let same : window (edge s) ≡ w = ap (λ (d : ℕ). 14 * 17 + d) one.same_delay in
    let fits : length (edge s).timestamp_delay ≤ window (edge s) =
      omega (arith, same, ap length one.slid, length-drop (length all - w) all) in
    edges-last n (edge s) one.runs.0 one.runs.1 fits
    ∙ (ap₂ (λ (k : ℕ) (l : List Stamp). last k (l ++ rest)) same one.slid
        ∙ (last-last-append w all rest
            ∙ ap (last w) (append_assoc s.timestamp_delay (stamp s ∷ []) rest)))

length-stamps : (n : ℕ) (s : Source) → length (stamps n s) ≡ n
length-stamps zero s = refl
length-stamps (suc n) s = ap suc (length-stamps n (edge s))

get_elem?-stamps :
    (n m : ℕ) (s : Source) → m < n → get_elem? (stamps n s) m ≡ some (stamp (edges m s))
get_elem?-stamps zero m s h = absurd (omega arith)
get_elem?-stamps (suc n) zero s h = refl
get_elem?-stamps (suc n) (suc m) s h = get_elem?-stamps n m (edge s) (omega arith)

get_elem?-right :
    (xs ys : List Stamp) (m : ℕ) → get_elem? (xs ++ ys) (length xs + m) ≡ get_elem? ys m
get_elem?-right [] ys m = let e : 0 + m ≡ m = omega arith in ap (get_elem? ys) e
get_elem?-right (x ∷ xs) ys m =
    let e : suc (length xs) + m ≡ suc (length xs + m) = omega arith in
    ap (get_elem? (x ∷ (xs ++ ys))) e ∙ get_elem?-right xs ys m

get_elem?-drop : (k : ℕ) (xs : List Stamp) → get_elem? (drop k xs) 0 ≡ get_elem? xs k
get_elem?-drop zero xs = refl
get_elem?-drop (suc k) [] = refl
get_elem?-drop (suc k) (x ∷ xs) = get_elem?-drop k xs

first_oldest : (s : Source) (xs : List Stamp) → s.timestamp_delay ≡ xs → oldest s ≡ get_elem? xs 0
unfolding oldest
first_oldest s [] e = rw e refl
first_oldest s (x ∷ xs) e = rw e refl

-- While the coroutine runs, and from a list that is not longer than 14 * 17 + td_delay, the getters read the
-- clock as it was 14 * 17 + td_delay edges before, once there have been so many.
pub oldest-edges :
    (n : ℕ) (s : Source) (r : Run)
    → s.run ≡ some r
    → length s.timestamp_delay ≤ window s
    → oldest (edges (window s + n) s) ≡ some (stamp (edges n s))
oldest-edges n s r e h =
    let w : ℕ = window s in
    let xs = s.timestamp_delay in
    let ys = stamps (w + n) s in
    let skip : length (xs ++ ys) - w ≡ length xs + n =
      omega (arith, length-append xs ys, length-stamps (w + n) s) in
    first_oldest (edges (w + n) s) (last w (xs ++ ys)) (edges-last (w + n) s r e h)
    ∙ (get_elem?-drop (length (xs ++ ys) - w) (xs ++ ys)
        ∙ (ap (get_elem? (xs ++ ys)) skip
            ∙ (get_elem?-right xs ys n ∙ get_elem?-stamps (w + n) n s (omega arith))))
