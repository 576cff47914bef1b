-- ===== src/Base/Outcome.antt =====
-- What a Go function gives back: a value, an `error`, or a run-time panic.
use Prim.Native.String.{String}
use mathlib.Core.Path.{◌≡◌, refl}
use mathlib.Core.Logic.{◌⊎◌, inl, inr}
use mathlib.Core.List.{List}

-- `created` is `errors.New`, `formatted` is `fmt.Errorf` with the texts of its operands, `wrapped` is
-- `fmt.Errorf` (or `errors.Wrap`) whose last operand is an error, `external` is an error value of a
-- library; `joined` is `multierror.Append` to no error, `appended` to one.
pub data Error : Type 0 where
  created : String → Error
  formatted : String → List String → Error
  wrapped : String → List String → Error → Error
  external : String → Error
  joined : Error → Error
  appended : Error → Error → Error

pub data Panic : Type 0 where
  nil_dereference index_out_of_range failed_type_assertion closed_channel : Panic

pub data Result {ℓ} (A : Type ℓ) : Type ℓ where
  ok : A → Result A
  err : Error → Result A
  panic : Panic → Result A

-- The chain of a Go function that returns at the first error.
abbrev pub then_result {ℓ κ} : {A : Type ℓ} {B : Type κ} → Result A → (A → Result B) → Result B
then_result (ok a) f = f a
then_result (err e) f = err e
then_result (panic p) f = panic p

-- `if err != nil { return …, g(err) }`
abbrev pub map_error {ℓ} : {A : Type ℓ} → (Error → Error) → Result A → Result A
map_error g (ok a) = ok a
map_error g (err e) = err (g e)
map_error g (panic p) = panic p

abbrev pub Succeeds {ℓ} : {A : Type ℓ} → Result A → Type 0
Succeeds (ok a) = Unit
Succeeds (err e) = ⊥
Succeeds (panic p) = ⊥

abbrev pub Panics {ℓ} : {A : Type ℓ} → Result A → Type 0
Panics (ok a) = ⊥
Panics (err e) = ⊥
Panics (panic p) = Unit

pub Result-cases {ℓ} :
    {A : Type ℓ} (r : Result A)
    → ((a : A) × (r ≡ ok a)) ⊎ ((e : Error) × (r ≡ err e)) ⊎ ((p : Panic) × (r ≡ panic p))
Result-cases (ok a) = inl (a, refl)
Result-cases (err e) = inr (inl (e, refl))
Result-cases (panic p) = inr (inr (p, refl))
