-- ===== src/Baser/Carry.antt =====
-- The state that the source and the sink of src/eth/tb/baser.py share while frames pass over the lanes.
pub mod Arbitrate
pub mod Emit
pub mod Lanes
pub mod Shape
pub mod Step
pub mod Fill
pub mod Link
use taxi.Prelude.{
  ℕ, zero, suc, ◌+◌, ◌-◌, ◌*◌, ◌≤◌, ◌<◌, ◌≡◌, ◌≢◌, refl, sym, ap, ap₂, ◌∙◌, Bool, true, false, not,
  ◌&&◌, ◌||◌, Option, none, some, List, [], ◌∷◌, ◌++◌, map, length, get_or, take, All, arith,
}
use taxi.Baser.Codes.{Codes}
use taxi.Baser.Frame.{Frame, Library}
use taxi.Baser.Source.{Source, Lane}
use taxi.Baser.Sink.{Sink}

module _ (lib : Library) (c : Codes) where
  -- A frame that starts with the preamble and holds no control character.
  abbrev pub IsPlain : Frame → Type 0
  IsPlain f =
      (tail : List ℕ) × ((f.bytes ≡ c.pre ∷ tail)
        × ((get_or f.ctrls 0 true ≡ false) × ((i : ℕ) → get_or f.ctrls i false ≡ false)))

  -- The frame that the source holds, and the part of it that the sink has.
  abbrev pub Match : Option Frame → Bool → ℕ → Option Frame → Type 0
  Match none sof n none = Unit {0}
  Match none sof n (some g) = ⊥
  Match (some f) true n none = (n ≡ 0) × IsPlain f
  Match (some f) true n (some g) = ⊥
  Match (some f) false n none = ⊥
  Match (some f) false n (some g) =
      (g.bytes ≡ take n f.bytes) × ((0 < n) × ((n ≤ length f.bytes) × IsPlain f))

  abbrev pub IsQueued : Frame → Type 0
  IsQueued f = IsPlain (lib.normalize f)

  -- No repetition and no ordered set is set, the frames that wait are plain, and the frames match.
  abbrev pub Inv : Source → Sink → Type 0
  Inv s t =
      ((s.rep_count ≡ 0)
        × ((s.rep_cnt ≡ 0) × ((t.rep_count ≡ 0) × ((t.skip_cnt ≡ 0) × (s.os ≡ none)))))
      × (All IsQueued s.queue × Match s.frame s.sof s.frame_offset t.frame)

  abbrev pub flight : Option Frame → List (List ℕ)
  flight none = []
  flight (some f) = f.bytes ∷ []

  -- The bytes of the frame under way and of those that wait.
  abbrev pub to_send : Source → List (List ℕ)
  to_send s = flight s.frame ++ map (λ (f : Frame). (lib.normalize f).bytes) s.queue

  abbrev pub delivered : Sink → List (List ℕ)
  delivered t = map (λ (f : Frame). f.bytes) t.queue
