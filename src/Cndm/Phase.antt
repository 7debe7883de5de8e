-- ===== src/Cndm/Phase.antt =====
-- The phase of the completion queues (src/cndm/tb/cndm.py) ends the loop over them.
use taxi.Prelude.{
  ℕ, ◌+◌, ◌*◌, ◌/◌, ◌%◌, ◌^◌, ◌<◌, ◌≡◌, refl, ap, ◌∙◌, Bool, true, false, not, Option, Bool-cases,
  inl, inr, List, arith,
}
use taxi.Prelude.Digits.{test_bit, digit, digit-test_bit}
use taxi.Prelude.Bits.{lt-two-pow}
use native.Mathlib.Nat.{add-mul-div_right}
use taxi.Cndm.{
  Cq, Ring, Pool, Memory, entry, entry_at, differs, is_new, tx_round, rx_round, tx_done, rx_done,
  process_tx_cq, process_rx_cq,
}
use taxi.Cndm.Scan.{Result, returns, raises, scan, ended, scan_ends}
use taxi.Cndm.Slots.{slot_next}

digit_next : (a b : Bool) (n : ℕ) → digit a ≡ n % 2 → digit b ≡ (n + 1) % 2 → b ≡ not a
digit_next true true n e f = absurd (omega arith)
digit_next true false n e f = refl
digit_next false true n e f = refl
digit_next false false n e f = absurd (omega arith)

test_bit_next : (k x : ℕ) → test_bit (x + 2 ^ k) k ≡ not (test_bit x k)
test_bit_next k x =
    let pos : 0 < 2 ^ k = omega (arith, lt-two-pow k) in
    let one : x + 2 ^ k ≡ x + 1 * 2 ^ k = omega arith in
    let half : (x + 2 ^ k) / 2 ^ k ≡ x / 2 ^ k + 1 =
      ap (λ (n : ℕ). n / 2 ^ k) one ∙ add-mul-div_right x 1 pos in
    digit_next (test_bit x k) (test_bit (x + 2 ^ k) k) (x / 2 ^ k) (digit-test_bit x k)
      (digit-test_bit (x + 2 ^ k) k ∙ ap (λ (n : ℕ). n % 2) half)

differs-not : (a b : Bool) → differs a (not b) ≡ not (differs a b)
differs-not true b = refl
differs-not false b = refl

-- An entry that is new on one pass is not on the next.
pub is_new_next : (cq : Cq) (ptr : ℕ) → is_new cq (ptr + 2 ^ cq.log_size) ≡ not (is_new cq ptr)
unfolding is_new
is_new_next cq ptr =
    let k = cq.log_size in
    ap (λ (i : ℕ). differs (test_bit (entry_at cq.buf i).word_3 31) (test_bit (ptr + 2 ^ k) k))
      (slot_next k ptr)
    ∙ (ap (differs (test_bit (entry cq ptr).word_3 31)) (test_bit_next k ptr)
        ∙ differs-not (test_bit (entry cq ptr).word_3 31) (test_bit ptr k))

module _ {S : Type 0} (cq : Cq) (body : ℕ → S → Option S) where
  scan_pass : (s : S) → ended (scan (is_new cq) body (2 ^ cq.log_size + 1) cq.cons_ptr s) ≡ true
  scan_pass s = elim (Bool-cases (is_new cq cq.cons_ptr)) [
    | inl e ↦
        scan_ends (is_new cq) body (2 ^ cq.log_size) (2 ^ cq.log_size + 1) cq.cons_ptr s
          (omega arith) (is_new_next cq cq.cons_ptr ∙ ap not e)
    | inr e ↦
        (let here : cq.cons_ptr + 0 ≡ cq.cons_ptr = omega arith in
          scan_ends (is_new cq) body 0 (2 ^ cq.log_size + 1) cq.cons_ptr s (omega arith)
            (ap (is_new cq) here ∙ e))
  ]

ended-tx_done : (cq : Cq) (x : Result (ℕ × (ℕ × Ring × Pool))) → ended (tx_done cq x) ≡ ended x
ended-tx_done cq (returns (a, (b, r, p))) = refl
ended-tx_done cq raises = refl
ended-tx_done cq Result.stuck = refl

ended-rx_done :
    (m : Memory) (cq : Cq) (x : Result (ℕ × (ℕ × Ring × Pool × List (List ℕ))))
    → ended (rx_done m cq x) ≡ ended x
ended-rx_done m cq (returns (a, (b, r, p, q))) = refl
ended-rx_done m cq raises = refl
ended-rx_done m cq Result.stuck = refl

-- The handlers end, with a result or an exception, whatever the queues hold: they handle no more than one
-- pass over the completion queue.
pub process_cq_ends :
    (m : Memory) (cq : Cq) (r : Ring) (p : Pool) (queue : List (List ℕ))
    → (ended (process_tx_cq cq r p) ≡ true) × (ended (process_rx_cq m cq r p queue) ≡ true)
unfolding process_tx_cq process_rx_cq
process_cq_ends m cq r p queue = (
  ended-tx_done cq _ ∙ scan_pass cq (λ ptr s. tx_round s) (r.cons_ptr, r, p),
  ended-rx_done m cq _ ∙ scan_pass cq (rx_round m cq) (r.cons_ptr, r, p, queue),
)
