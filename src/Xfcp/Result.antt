-- ===== src/Xfcp/Result.antt =====
-- What the functions of xfcp.py return: a value, or the exception that Python raises.
use mathlib.Core.Path.{◌≡◌, refl}

-- In this order: `struct.pack('B', p)` with `p` out of range, `data[i]` past the end, a failed
-- `assert`, and `bytes(None)`.
pub data Error : Type 0 where
  struct_error index_error assertion_error type_error : Error

pub data Result (A : Type 0) : Type 0 where
  raised : Error → Result A
  ok : A → Result A

infixl 5 ◌>>=◌
abbrev pub ◌>>=◌ : {A B : Type 0} → Result A → (A → Result B) → Result B
◌>>=◌ (raised exception) next = raised exception
◌>>=◌ (ok value) next = next value

-- A chain that returns has returned at each step.
pub bind-eq-ok :
    {A B : Type 0} (first : Result A) (next : A → Result B) {final : B}
    → (first >>= next) ≡ ok final
    → (value : A) × (first ≡ ok value) × (next value ≡ ok final)
bind-eq-ok (raised exception) next e = cc
bind-eq-ok (ok value) next e = (value, refl, e)
