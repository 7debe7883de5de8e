-- ===== src/Cndm/Slots.antt =====
-- The slots of a ring of the driver model (src/cndm/tb/cndm.py): those from the consumer to the producer
-- hold a packet, and the others none.
use taxi.Prelude.{
  ℕ, zero, suc, ◌+◌, ◌*◌, ◌/◌, ◌^◌, ◌≤◌, ◌<◌, ◌≡◌, ◌≢◌, refl, sym, ap, ◌∙◌, Option, none, some,
  List, Bool-cases, inl, inr, ◌==◌, leb, leb→le, length, set, replicate, length-replicate,
  length-set, get_elem?-set_self, get_elem?-set_ne, arith,
}
use taxi.Prelude.Bits.{lt-two-pow}
use native.Mathlib.Nat.{mul-le-mul_right, div-add-mod', add-mul-mod_self_right, mod-lt}
use taxi.Cndm.{slot, info_at}

-- Pointers less than a ring apart have slots of their own.
pub slot_ne : (k i j : ℕ) → i < j → j < i + 2 ^ k → slot k i ≢ slot k j
slot_ne k i j h l e =
    let m : ℕ = 2 ^ k in
    let a : ℕ = i / m in
    let b : ℕ = j / m in
    let first = div-add-mod' i m in
    let second = div-add-mod' j m in
    elim (Bool-cases (leb b a)) [
      | inl t ↦
          (let low : b * m ≤ a * m = mul-le-mul_right m (leb→le b a t) in
            omega (arith, low, first, second, e, h))
      | inr t ↦
          (let above : a + 1 ≤ b = ground (arith, t) in
            let high : (a + 1) * m ≤ b * m = mul-le-mul_right m above in
            let spread : (a + 1) * m ≡ a * m + m = grind arith in
            omega (arith, high, spread, first, second, e, l))
    ]

pub slot_next : (k i : ℕ) → slot k (i + 2 ^ k) ≡ slot k i
slot_next k i =
    let one : i + 2 ^ k ≡ i + 1 * 2 ^ k = omega arith in
    ap (λ (n : ℕ). slot k n) one ∙ add-mul-mod_self_right i 1 (2 ^ k)

pub slot-lt : (k i : ℕ) → slot k i < 2 ^ k
slot-lt k i = let pos : 0 < 2 ^ k = omega (arith, lt-two-pow k) in mod-lt i pos

-- `info` of a ring with the pointers `prod` and `cons`.
pub record IsRing (k : ℕ) (info : List (Option ℕ)) (prod cons : ℕ) : Type 0 where
  pub slots : length info ≡ 2 ^ k
  pub order : cons ≤ prod
  pub fits : prod ≤ cons + 2 ^ k
  pub held : (i : ℕ) → cons ≤ i → i < prod → (pkt : ℕ) × (info_at info (slot k i) ≡ some pkt)
  pub empty : (i : ℕ) → prod ≤ i → i < cons + 2 ^ k → info_at info (slot k i) ≡ none

info_at-set_self :
    (info : List (Option ℕ)) (i : ℕ) (v : Option ℕ) → i < length info → info_at (set info i v) i ≡ v
info_at-set_self info i v h = rw (get_elem?-set_self info i v h, info_at) refl

pub info_at-set_ne :
    (info : List (Option ℕ)) (i j : ℕ) (v : Option ℕ)
    → i ≢ j
    → info_at (set info i v) j ≡ info_at info j
info_at-set_ne info i j v h = rw (get_elem?-set_ne info v h, info_at) refl

info_at-replicate : (n i : ℕ) → info_at (replicate n none) i ≡ none
info_at-replicate zero i = refl
info_at-replicate (suc n) zero = refl
info_at-replicate (suc n) (suc i) = info_at-replicate n i

pub opened-IsRing : (k : ℕ) → IsRing k (replicate (2 ^ k) none) 0 0
opened-IsRing k = record {
  slots = length-replicate (2 ^ k) none;
  order = omega arith;
  fits = omega arith;
  held = λ i l m. absurd (omega arith);
  empty = λ i l m. info_at-replicate (2 ^ k) (slot k i);
}

module _ (k : ℕ) (info : List (Option ℕ)) (prod cons : ℕ) (r : IsRing k info prod cons) where
  -- A packet into the producer's slot of a ring that is not full.
  pub put-IsRing :
      (pkt : ℕ) → prod < cons + 2 ^ k → IsRing k (set info (slot k prod) (some pkt)) (prod + 1) cons
  put-IsRing pkt h = record {
    slots = length-set info (slot k prod) (some pkt) ∙ r.slots;
    order = omega (arith, r.order);
    fits = omega (arith, h);
    held = λ i l m. elim (Bool-cases (i == prod)) [
      | inl t ↦
          (let here : prod ≡ i = ground (arith, t) in
            (
              pkt,
              ap (λ (n : ℕ). info_at (set info (slot k prod) (some pkt)) (slot k n)) (sym here)
                  ∙ info_at-set_self info (slot k prod) (some pkt)
                      (omega (arith, slot-lt k prod, r.slots)),
            ))
      | inr t ↦
          (let before : i < prod = ground (arith, t, m) in
            (
              (r.held i l before).0,
              info_at-set_ne info (slot k prod) (slot k i) (some pkt)
                    (λ e. slot_ne k i prod before (omega (arith, h, l)) (sym e))
                  ∙ (r.held i l before).1,
            ))
    ];
    empty = λ i l m.
        info_at-set_ne info (slot k prod) (slot k i) (some pkt)
          (slot_ne k prod i (omega arith) (omega (arith, r.order)))
        ∙ r.empty i (omega arith) m;
  }

  -- The consumer's packet out of the ring.
  pub take-IsRing : cons < prod → IsRing k (set info (slot k cons) none) prod (cons + 1)
  take-IsRing h = record {
    slots = length-set info (slot k cons) none ∙ r.slots;
    order = omega arith;
    fits = omega (arith, r.fits);
    held = λ i l m. (
      (r.held i (omega arith) m).0,
      info_at-set_ne info (slot k cons) (slot k i) none
            (slot_ne k cons i (omega arith) (omega (arith, r.fits)))
          ∙ (r.held i (omega arith) m).1,
    );
    empty = λ i l m. elim (Bool-cases (i == cons + 2 ^ k)) [
      | inl t ↦
          (let around : i ≡ cons + 2 ^ k = ground (arith, t) in
            let same : slot k i ≡ slot k cons =
              ap (λ (n : ℕ). slot k n) around ∙ slot_next k cons in
            ap (info_at (set info (slot k cons) none)) same
            ∙ info_at-set_self info (slot k cons) none (omega (arith, slot-lt k cons, r.slots)))
      | inr t ↦
          (let before : i < cons + 2 ^ k = ground (arith, t, m) in
            info_at-set_ne info (slot k cons) (slot k i) none
              (slot_ne k cons i (omega (arith, h, l)) before)
            ∙ r.empty i l before)
    ];
  }
