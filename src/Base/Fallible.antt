-- ===== src/Base/Fallible.antt =====
-- The outcome of a fallible operation that may also panic.

-- `out_of_fuel` has no counterpart in the program: a model's recursion bound was too small.
pub data Outcome {ℓ} (E : Type 0) (A : Type ℓ) : Type ℓ where
  ok : A → Outcome E A
  err : E → Outcome E A
  panic : Outcome E A
  out_of_fuel : Outcome E A

-- The `?` operator.
abbrev pub and_then {ℓ κ} :
    {E : Type 0} {A : Type ℓ} {B : Type κ} → Outcome E A → (A → Outcome E B) → Outcome E B
and_then (ok a) f = f a
and_then (err e) f = err e
and_then panic f = panic
and_then out_of_fuel f = out_of_fuel

-- `?` with the conversion `From` of the error.
abbrev pub map_err {ℓ} : {E F : Type 0} {A : Type ℓ} → (E → F) → Outcome E A → Outcome F A
map_err f (ok a) = ok a
map_err f (err e) = err (f e)
map_err f panic = panic
map_err f out_of_fuel = out_of_fuel
