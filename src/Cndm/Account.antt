-- ===== src/Cndm/Account.antt =====
-- Where the packet buffers of the driver model are (src/cndm/tb/cndm.py): in the free list, in a ring, or
-- elsewhere.
use taxi.Prelude.{
  ℕ, zero, suc, ◌+◌, ◌<◌, ◌≡◌, refl, ap, ◌∙◌, Bool, true, false, Option, none, some, List, [], ◌∷◌,
  ◌++◌, ◌==◌, Bool-cases, inl, inr, length, set, replicate, arith,
}
use taxi.Cndm.{Pool, Memory, Ring, contains, info_at, alloc_pkt, free_pkt, free_desc}

abbrev pub one : Bool → ℕ
one true = 1
one false = 0

-- How often a list of packets, or of slots, has a packet.
abbrev pub count : ℕ → List ℕ → ℕ
count x [] = 0
count x (y ∷ ys) = one (y == x) + count x ys

abbrev pub held_count : ℕ → List (Option ℕ) → ℕ
held_count x [] = 0
held_count x (none ∷ slots) = held_count x slots
held_count x (some y ∷ slots) = one (y == x) + held_count x slots

-- Each packet made is in the free list, in a slot of the ring, or one of `others`.
abbrev pub Account : (ℕ → ℕ) → List (Option ℕ) → Pool → Type 0
Account others info p =
    (x : ℕ) → count x p.allocated_packets ≡ count x p.free_packets + others x + held_count x info

pub count-append : (x : ℕ) (xs ys : List ℕ) → count x (xs ++ ys) ≡ count x xs + count x ys
count-append x [] ys = omega arith
count-append x (y ∷ xs) ys = omega (arith, count-append x xs ys)

count-contains : (x : ℕ) (xs : List ℕ) → 0 < count x xs → contains xs x ≡ true
count-contains x [] h = absurd (omega arith)
count-contains x (y ∷ xs) h = elim (Bool-cases (y == x)) [
  | inl e ↦ rw e refl
  | inr e ↦
      (let rest : 0 < count x xs = omega (arith, h, ap one e) in rw e (count-contains x xs rest))
]

pub held_count-set-some :
    (x pkt i : ℕ) (info : List (Option ℕ))
    → info_at info i ≡ none
    → i < length info
    → held_count x (set info i (some pkt)) ≡ held_count x info + one (pkt == x)
held_count-set-some x pkt i [] e h = absurd (omega arith)
held_count-set-some x pkt zero (none ∷ info) e h = omega arith
held_count-set-some x pkt zero (some y ∷ info) e h = absurd (ground (arith, e))
held_count-set-some x pkt (suc i) (none ∷ info) e h =
    held_count-set-some x pkt i info e (omega arith)
held_count-set-some x pkt (suc i) (some y ∷ info) e h =
    omega (arith, held_count-set-some x pkt i info e (omega arith))

pub held_count-set-none :
    (x pkt i : ℕ) (info : List (Option ℕ))
    → info_at info i ≡ some pkt
    → held_count x (set info i none) + one (pkt == x) ≡ held_count x info
held_count-set-none x pkt i [] e = absurd (ground (arith, e))
held_count-set-none x pkt zero (none ∷ info) e = absurd (ground (arith, e))
held_count-set-none x pkt zero (some y ∷ info) e =
    let same : y ≡ pkt = ground (arith, e) in rw same (omega arith)
held_count-set-none x pkt (suc i) (none ∷ info) e = held_count-set-none x pkt i info e
held_count-set-none x pkt (suc i) (some y ∷ info) e =
    omega (arith, held_count-set-none x pkt i info e)

one_self : (x : ℕ) → one (x == x) ≡ 1
one_self x = ground arith

pub alloc_pkt-count :
    (m : Memory) (x : ℕ) (p : Pool)
    → let a = alloc_pkt m p in
      count x a.1.allocated_packets + count x p.free_packets
      ≡ count x p.allocated_packets + count x a.1.free_packets + one (a.0 == x)
unfolding alloc_pkt
alloc_pkt-count m x p =
    elim p.free_packets
      as (λ fs.
        let a = alloc_pkt m (record p { free_packets = fs }) in
        count x a.1.allocated_packets + count x fs
        ≡ count x p.allocated_packets + count x a.1.free_packets + one (a.0 == x)) [
          | [] ↦ omega (arith, count-append x p.allocated_packets (m.region p.made ∷ []))
          | pkt ∷ rest ↦ omega arith
        ]

free_pkt_lem :
    (p : Pool) (pkt : ℕ)
    → contains p.allocated_packets pkt ≡ true
    → free_pkt p (some pkt) ≡ some (record p { free_packets = p.free_packets ++ (pkt ∷ []) })
unfolding free_pkt
free_pkt_lem p pkt h = rw h refl

-- A packet leaves its slot for the free list.
pub free_desc_lem :
    (others : ℕ → ℕ) (index pkt : ℕ) (r : Ring) (p : Pool)
    → Account others r.info p
    → info_at r.info index ≡ some pkt
    → free_desc index (r, p)
      ≡ some (
        record r { info = set r.info index none },
        record p { free_packets = p.free_packets ++ (pkt ∷ []) },
      )
unfolding free_desc
free_desc_lem others index pkt r p a e =
    let here = held_count-set-none pkt pkt index r.info e in
    let owned : 0 < count pkt p.allocated_packets = omega (arith, a pkt, here, one_self pkt) in
    let freed =
      ap (free_pkt p) e ∙ free_pkt_lem p pkt (count-contains pkt p.allocated_packets owned) in
    rw (freed, free_desc) refl

pub free_desc-Account :
    (others : ℕ → ℕ) (index pkt : ℕ) (info : List (Option ℕ)) (p : Pool)
    → Account others info p
    → info_at info index ≡ some pkt
    → Account others
        (set info index none)
        (record p { free_packets = p.free_packets ++ (pkt ∷ []) })
free_desc-Account others index pkt info p a e x =
    omega
      (arith, a x, held_count-set-none x pkt index info e, count-append x p.free_packets (pkt ∷ []))

pub alloc_pkt-Account :
    (others : ℕ → ℕ) (m : Memory) (index : ℕ) (info : List (Option ℕ)) (p : Pool)
    → Account others info p
    → info_at info index ≡ none
    → index < length info
    → Account others (set info index (some (alloc_pkt m p).0)) (alloc_pkt m p).1
alloc_pkt-Account others m index info p a e h x =
    omega
      (arith, a x, held_count-set-some x (alloc_pkt m p).0 index info e h, alloc_pkt-count m x p)

held_count-replicate : (x n : ℕ) → held_count x (replicate n none) ≡ 0
held_count-replicate x zero = refl
held_count-replicate x (suc n) = held_count-replicate x n

pub opened-Account :
    (n made : ℕ)
    → Account
        (λ x. 0)
        (replicate n none)
        (record { free_packets = []; allocated_packets = []; made = made })
opened-Account n made x = omega (arith, held_count-replicate x n)
