-- ===== src/Plot/Steps.antt =====
-- utils.rs, polygon_between and StepIter: curves that change their height only at a given x.
use multi_fuzz_benchmarks.Prelude.{
  ℕ, zero, suc, ◌+◌, ◌≤◌, ◌<◌, Option, none, some, List, [], ◌∷◌, ◌++◌, ◌≡◌, refl, sym, ap, reverse,
  length, arith,
}
use multi_fuzz_benchmarks.Prelude.Maybe.{◌>>=◌}

module _ {X Y : Type 0} where
  abbrev pub or_else : Option (X × Y) → List (X × Y) → Option ((X × Y) × List (X × Y))
  or_else (some point) iter = some (point, iter)
  or_else none [] = none
  or_else none (point ∷ iter) = some (point, iter)

-- `StepIter`.
pub record Steps (X Y : Type 0) : Type 0 where
  pub iter : List (X × Y)
  pub prev : Option (X × Y)
  pub following : Option (X × Y)

module _ {X Y : Type 0} where
  unfoldable pub new : List (X × Y) → Steps X Y
  new iter = record { iter = iter; prev = none; following = none }

  -- `Iterator::next`, with the iterator that it leaves.
  unfoldable pub next : Steps X Y → Option ((X × Y) × Steps X Y)
  next self = do
    taken ← or_else self.following self.iter
    let point = taken.0
    elim self.prev [
      | some before ↦
          some ((point.0, before.1), record { iter = taken.1; prev = none; following = some point })
      | none ↦ some (point, record { iter = taken.1; prev = some point; following = none })
    ]

  -- The items of at most so many calls of `next`.
  unfoldable pub collect : ℕ → Steps X Y → List (X × Y)
  unfolding next
  collect zero self = []
  collect (suc calls) self = elim (next self) [
    | none ↦ []
    | some (point, rest) ↦ point ∷ collect calls rest
  ]

  -- The loop of `polygon_between`.
  unfoldable pub corners : Y → List (X × Y) → List (X × Y)
  corners prev_y [] = []
  corners prev_y ((next_x, next_y) ∷ points) =
      (next_x, prev_y) ∷ (next_x, next_y) ∷ corners next_y points

  -- `None` stands for the panic on an empty curve.
  unfoldable pub polygon_between : List (X × Y) → List (X × Y) → Option (List (X × Y))
  unfolding corners
  polygon_between [] bottom = none
  polygon_between ((start_x, start_y) ∷ top) bottom =
      some ((start_x, start_y) ∷ corners start_y (top ++ reverse bottom))

  collect-corners :
      (calls : ℕ) (point : X × Y) (points : List (X × Y))
      → length points + length points ≤ calls
      → collect calls (record { iter = points; prev = some point; following = none })
        ≡ corners point.1 points
  unfolding collect corners next
  collect-corners zero point [] h = refl
  collect-corners (suc calls) point [] h = refl
  collect-corners zero point (p ∷ points) h = absurd (omega arith)
  collect-corners (suc zero) point (p ∷ points) h = absurd (omega arith)
  collect-corners (suc (suc calls)) point ((x, y) ∷ points) h =
      ap (λ l. (x, point.1) ∷ (x, y) ∷ l) (collect-corners calls (x, y) points (omega arith))

  -- The polygon between two curves is what the step iterator gives on the upper curve followed by
  -- the lower one backwards, if `next` is called until it is at its end.
  pub polygon_between-collect :
      (calls : ℕ) (start : X × Y) (top bottom : List (X × Y))
      → length (top ++ reverse bottom) + length (top ++ reverse bottom) < calls
      → polygon_between (start ∷ top) bottom
        ≡ some (collect calls (new ((start ∷ top) ++ reverse bottom)))
  unfolding polygon_between collect new next
  polygon_between-collect zero start top bottom h = absurd (omega arith)
  polygon_between-collect (suc calls) start top bottom h =
      ap (λ l. some (start ∷ l))
        (sym (collect-corners calls start (top ++ reverse bottom) (omega arith)))
