-- ===== src/Pcie/Packed.antt =====
-- Fields of one width side by side in a signal of the PCIe interface (src/pcie/tb/pcie_if.py).
use taxi.Prelude.{
  ℕ, zero, suc, ◌+◌, ◌-◌, ◌*◌, ◌/◌, ◌%◌, ◌^◌, ◌≤◌, ◌<◌, ◌≡◌, refl, sym, ap, ◌∙◌, Bool, true, false,
  List, [], ◌∷◌, ◌++◌, bit_or, ◌<<<◌, ◌>>>◌, low_bits, length, length-append, All-append,
  append_assoc, append-nil, get_or, replicate, All, arith,
}
use taxi.Prelude.Bits.{bit_or_fields, bit_or_comm, lt-two-pow}
use taxi.Prelude.Powers.{pow_sum, mod_product}
use native.Mathlib.Nat.{
  mod-eq_of_lt, mod-lt, mod-mod, mul-le-mul_right, zero-div, zero-mod, mul_comm, add_comm,
  add-mul-div_right, add-mul-mod_self_right, div-eq_of_lt, div-div-eq-div-mul,
}

-- `v | (x << i * w)`, where a test asks for it.
abbrev pub put : Bool → ℕ → ℕ → ℕ → ℕ → ℕ
put true w i x v = bit_or v (x <<< (i * w))
put false w i x v = v

-- `(v >> i * w) & (2 ** w - 1)`
abbrev pub get : ℕ → ℕ → ℕ → ℕ
get w i v = low_bits (v >>> (i * w)) w

-- The number of which the fields are the digits to the base 2 ** w, the lowest first.
abbrev pub packed : ℕ → List ℕ → ℕ
packed w [] = 0
packed w (x ∷ xs) = x + packed w xs * 2 ^ w

abbrev pub Below : ℕ → List ℕ → Type 0
Below w xs = All (λ (x : ℕ). x < 2 ^ w) xs

abbrev pub keep : Bool → ℕ → ℕ
keep true x = x
keep false x = 0

-- `v | (d << i * w)` for the numbers of a list, at one place after the other.
abbrev pub put_lanes : ℕ → ℕ → List ℕ → ℕ → ℕ
put_lanes w i [] v = v
put_lanes w i (d ∷ ds) v = put_lanes w (i + 1) ds (put true w i d v)

wide : (n w : ℕ) → 2 ^ (suc n * w) ≡ 2 ^ (n * w) * 2 ^ w
wide n w =
    let e : suc n * w ≡ n * w + w = grind arith in ap (λ (k : ℕ). 2 ^ k) e ∙ pow_sum (n * w) w

positive : (n : ℕ) → 0 < 2 ^ n
positive n = omega (arith, lt-two-pow n)

module _ (w : ℕ) where
  pub packed-append :
      (xs ys : List ℕ) → packed w (xs ++ ys) ≡ packed w xs + packed w ys * 2 ^ (length xs * w)
  packed-append [] ys = let none_before : 0 * w ≡ 0 = omega arith in rw none_before (omega arith)
  packed-append (x ∷ xs) ys =
      let ih = packed-append xs ys in
      let a : ℕ = packed w xs in
      let b : ℕ = packed w ys in
      let p : ℕ = 2 ^ (length xs * w) in
      let spread : (a + b * p) * 2 ^ w ≡ a * 2 ^ w + b * (p * 2 ^ w) = grind arith in
      rw (ih, wide (length xs) w) (omega (arith, spread))

  pub packed-lt : (xs : List ℕ) → Below w xs → packed w xs < 2 ^ (length xs * w)
  packed-lt [] h = let none_before : 0 * w ≡ 0 = omega arith in rw none_before (omega arith)
  packed-lt (x ∷ xs) h =
      let ih : packed w xs + 1 ≤ 2 ^ (length xs * w) = omega (arith, packed-lt xs h.1) in
      let more = mul-le-mul_right (2 ^ w) ih in
      let spread : (packed w xs + 1) * 2 ^ w ≡ packed w xs * 2 ^ w + 2 ^ w = grind arith in
      rw (wide (length xs) w) (omega (arith, more, spread, h.0))

  packed-replicate : (n : ℕ) → packed w (replicate n 0) ≡ 0
  packed-replicate zero = refl
  packed-replicate (suc n) = omega (arith, ap (λ (p : ℕ). p * 2 ^ w) (packed-replicate n))

  pub packed-zeros : (xs : List ℕ) (n : ℕ) → packed w (xs ++ replicate n 0) ≡ packed w xs
  packed-zeros xs n =
      let none_more : packed w (replicate n 0) * 2 ^ (length xs * w) ≡ 0 =
        ap (λ (p : ℕ). p * 2 ^ (length xs * w)) (packed-replicate n) ∙ omega arith in
      omega (arith, packed-append xs (replicate n 0), none_more)

  put-true :
      (xs : List ℕ) (x : ℕ)
      → Below w xs
      → put true w (length xs) x (packed w xs) ≡ packed w (xs ++ (x ∷ []))
  put-true xs x h =
      let one : (x + 0) * 2 ^ (length xs * w) ≡ x * 2 ^ (length xs * w) = grind arith in
      omega (
        arith,
        bit_or_comm (packed w xs) (x * 2 ^ (length xs * w)),
        bit_or_fields (length xs * w) x (packed w xs) (packed-lt xs h),
        packed-append xs (x ∷ []),
        one,
      )

  pub put-packed :
      (b : Bool) (xs : List ℕ) (x : ℕ)
      → Below w xs
      → put b w (length xs) x (packed w xs) ≡ packed w (xs ++ (keep b x ∷ []))
  put-packed true xs x h = put-true xs x h
  put-packed false xs x h = sym (packed-zeros xs 1)

  pub put_lanes-packed :
      (xs ds : List ℕ)
      → Below w xs
      → Below w ds
      → put_lanes w (length xs) ds (packed w xs) ≡ packed w (xs ++ ds)
  put_lanes-packed xs [] h l = ap (packed w) (sym (append-nil xs))
  put_lanes-packed xs (d ∷ ds) h l =
      let more = xs ++ (d ∷ []) in
      let next : length xs + 1 ≡ length more = omega (arith, length-append xs (d ∷ [])) in
      rw (put-true xs d h, next)
        (put_lanes-packed more ds (All-append (λ (x : ℕ). x < 2 ^ w) xs (d ∷ []) h (l.0, tt)) l.1
          ∙ ap (packed w) (append_assoc xs (d ∷ []) ds))

  pub get-packed : (xs : List ℕ) (j : ℕ) → Below w xs → get w j (packed w xs) ≡ get_or xs j 0
  get-packed [] j h = ap (λ (n : ℕ). n % 2 ^ w) (zero-div (2 ^ (j * w))) ∙ zero-mod (2 ^ w)
  get-packed (x ∷ xs) zero h =
      let y : ℕ = x + packed w xs * 2 ^ w in
      let none_before : 0 * w ≡ 0 = omega arith in
      let all : y / 2 ^ (0 * w) ≡ y = rw none_before (omega arith) in
      ap (λ (n : ℕ). n % 2 ^ w) all
      ∙ (add-mul-mod_self_right x (packed w xs) (2 ^ w) ∙ mod-eq_of_lt h.0)
  get-packed (x ∷ xs) (suc j) h =
      let y : ℕ = x + packed w xs * 2 ^ w in
      let p : ℕ = 2 ^ (j * w) in
      let order : 2 ^ (suc j * w) ≡ 2 ^ w * p = wide j w ∙ mul_comm p (2 ^ w) in
      let low : y / 2 ^ w ≡ packed w xs =
        add-mul-div_right x (packed w xs) (positive w)
        ∙ ap (λ (n : ℕ). n + packed w xs) (div-eq_of_lt h.0)
        ∙ omega arith in
      let all : y / 2 ^ (suc j * w) ≡ packed w xs / p =
        ap (λ (n : ℕ). y / n) order
        ∙ (sym (div-div-eq-div-mul y (2 ^ w) p) ∙ ap (λ (n : ℕ). n / p) low) in
      ap (λ (n : ℕ). n % 2 ^ w) all ∙ get-packed xs j h.1

-- A field of the low bits.
low_field : (a b c y : ℕ) → y % 2 ^ (a + (b + c)) / 2 ^ a % 2 ^ b ≡ y / 2 ^ a % 2 ^ b
low_field a b c y =
    let z : ℕ = y / 2 ^ a in
    let r : ℕ = 2 ^ (b + c) in
    let cut =
      ap (λ (n : ℕ). y % n) (pow_sum a (b + c))
      ∙ mod_product y (2 ^ a) r (positive a) (positive (b + c)) in
    let high : (z % r * 2 ^ a + y % 2 ^ a) / 2 ^ a ≡ z % r =
      ap (λ (n : ℕ). n / 2 ^ a) (add_comm (z % r * 2 ^ a) (y % 2 ^ a))
      ∙ (add-mul-div_right (y % 2 ^ a) (z % r) (positive a)
          ∙ ap (λ (n : ℕ). n + z % r) (div-eq_of_lt (mod-lt y (positive a)))
          ∙ omega arith) in
    let split =
      ap (λ (n : ℕ). z % n) (pow_sum b c)
      ∙ mod_product z (2 ^ b) (2 ^ c) (positive b) (positive c) in
    let last : (z / 2 ^ b % 2 ^ c * 2 ^ b + z % 2 ^ b) % 2 ^ b ≡ z % 2 ^ b =
      ap (λ (n : ℕ). n % 2 ^ b) (add_comm (z / 2 ^ b % 2 ^ c * 2 ^ b) (z % 2 ^ b))
      ∙ (add-mul-mod_self_right (z % 2 ^ b) (z / 2 ^ b % 2 ^ c) (2 ^ b) ∙ mod-mod z (2 ^ b)) in
    ap (λ (n : ℕ). n / 2 ^ a % 2 ^ b) cut ∙ (ap (λ (n : ℕ). n % 2 ^ b) (high ∙ split) ∙ last)

-- A lane of a segment.
pub get-get :
    (w lanes i k v : ℕ) → k < lanes → get w k (get (lanes * w) i v) ≡ get w (k + i * lanes) v
get-get w lanes i k v h =
    let rest : ℕ = lanes - (k + 1) in
    let y : ℕ = v / 2 ^ (i * (lanes * w)) in
    let cut : lanes ≡ k + 1 + rest = omega (arith, h) in
    let size : lanes * w ≡ k * w + (w + rest * w) = ap (λ (n : ℕ). n * w) cut ∙ grind arith in
    let place : i * (lanes * w) + k * w ≡ (k + i * lanes) * w = grind arith in
    let far : y / 2 ^ (k * w) ≡ v / 2 ^ ((k + i * lanes) * w) =
      div-div-eq-div-mul v (2 ^ (i * (lanes * w))) (2 ^ (k * w))
      ∙ ap (λ (n : ℕ). v / n)
          (sym (pow_sum (i * (lanes * w)) (k * w)) ∙ ap (λ (n : ℕ). 2 ^ n) place) in
    ap (λ (n : ℕ). y % 2 ^ n / 2 ^ (k * w) % 2 ^ w) size
    ∙ (low_field (k * w) w (rest * w) y ∙ ap (λ (n : ℕ). n % 2 ^ w) far)
