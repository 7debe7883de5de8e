-- ===== src/Mersenne/Tests.antt =====
-- Runs of a small generator at fixed inputs, and instances of the theorems.
use taxi.Prelude.{◌≡◌, refl, none, some, [], ◌∷◌, inr, arith}
use taxi.Mersenne.{combine, Parameters, Twister, create, seed, init_by_array, next, next_b}
use taxi.Mersenne.Generators.{create_32, mt19937, mt19937_64, int32, int32b, temper_32}
use taxi.Mersenne.Bounds.{IsValid, create-IsValid, init_by_array-IsValid}
use taxi.Mersenne.Stream.{calls, calls-next_b-next}

-- Five words of 32 bits.
abbrev small : Parameters
small = record mt19937 { n = 5; m = 3; wrap = 5 }

both_forms_agree :
    calls (next small) 12 (seed small (create small) 7)
    ≡ calls (next_b small) 12 (seed small (create small) 7)
unfolding calls create seed next next_b
both_forms_agree = refl

-- `key[j]` raises IndexError.
key_of_none : init_by_array small (create small) [] ≡ none
unfolding init_by_array create
key_of_none = refl

calls-next_b-next_example : calls int32b 3 (create_32) ≡ calls int32 3 create_32
unfolding create create_32 mt19937 int32 int32b
calls-next_b-next_example = calls-next_b-next mt19937 3 (create mt19937) (omega arith) (inr refl)

-- The key of the published test vectors.
init_by_array-IsValid_example :
    (t : Twister) × ((init_by_array mt19937_64
          (create mt19937_64)
          (0x12345 ∷ 0x23456 ∷ 0x34567 ∷ 0x45678 ∷ [])
        ≡ some t)
      × IsValid mt19937_64 t)
unfolding mt19937_64
init_by_array-IsValid_example =
    init_by_array-IsValid mt19937_64 (create mt19937_64)
      (0x12345 ∷ 0x23456 ∷ 0x34567 ∷ 0x45678 ∷ []) (omega arith) (omega arith) (omega arith)
      (create-IsValid mt19937_64).0

-- The first output of the reference implementation for the seed 5489.
first_output : (int32 create_32).0 ≡ 3499211612
unfolding create create_32 mt19937 int32 seed next combine temper_32
first_output = refl
