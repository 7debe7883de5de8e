-- ===== src/Xfcp/Cobs.antt =====
-- `cobs_encode` and `cobs_decode` of src/xfcp/tb/xfcp.py. Bytes are numbers below 256.
pub mod Encoded
pub mod RoundTrip
pub mod Shape
pub mod Decoded
use taxi.Prelude.{
  ℕ, zero, suc, ◌+◌, ◌-◌, ◌<◌, Bool, true, false, ◌&&◌, Option, none, some, List, [], ◌∷◌, ◌++◌,
  foldl, length, take, drop, ltb, ◌==◌, if◌then◌else◌,
}

-- The local variables of `cobs_encode`.
pub record Encoder : Type 0 where
  pub enc : List ℕ
  pub seg : List ℕ
  pub code : ℕ
  pub new_data : Bool

abbrev pub start : Encoder
start = record { enc = []; seg = []; code = 1; new_data = true }

-- `enc.append(code); enc.extend(seg); code = 1; seg = bytearray()`
abbrev pub flush : Encoder → Bool → Encoder
flush s fresh = record { enc = s.enc ++ (s.code ∷ s.seg); seg = []; code = 1; new_data = fresh }

-- One round of `for b in block`.
unfoldable pub encode_byte : Encoder → ℕ → Encoder
encode_byte s b =
    if b == 0
    then flush s true
    else let s' = record s { code = s.code + 1; seg = s.seg ++ (b ∷ []); new_data = true } in
      if s'.code == 255 then flush s' false else s'

-- `if new_data: enc.append(code); enc.extend(seg)`
unfoldable pub finish : Encoder → List ℕ
finish s = if s.new_data then s.enc ++ (s.code ∷ s.seg) else s.enc

unfoldable pub cobs_encode : List ℕ → List ℕ
unfolding encode_byte finish
cobs_encode block = finish (foldl encode_byte start block)

-- `0 in block`
pub has_zero : List ℕ → Bool
has_zero [] = false
has_zero (b ∷ bs) = if b == 0 then true else has_zero bs

-- What the decoder comes to: the value returned (`none` is Python's None), or no end of the loop
-- within the fuel.
pub data Outcome : Type 0 where
  returns : Option (List ℕ) → Outcome
  out_of_fuel : Outcome

-- The bytes from `i + code - 1` on, behind `i += 1`: with a code of 0 the index is back at the code.
abbrev pub behind : ℕ → List ℕ → List ℕ
behind zero rest = 0 ∷ rest
behind (suc n) rest = drop n rest

-- `while i < len(block)`, on the bytes from index `i` on and the output so far.
pub decode_loop : ℕ → List ℕ → List ℕ → Outcome
decode_loop fuel [] dec = returns (some dec)
decode_loop zero (code ∷ rest) dec = out_of_fuel
decode_loop (suc fuel) (code ∷ rest) dec =
    let after = behind code rest in
    let dec' = dec ++ take (code - 1) rest in
    let sep = if ltb code 255 && ltb 0 (length after) then 0 ∷ [] else [] in
    let more = decode_loop fuel after (dec' ++ sep) in
    if ltb (length rest) (code - 1) then returns none else more

-- As many rounds as there are bytes are enough, since each round takes a byte at least: there is no zero.
unfoldable pub cobs_decode : List ℕ → Outcome
unfolding has_zero decode_loop
cobs_decode block = if has_zero block then returns none else decode_loop (length block) block []
