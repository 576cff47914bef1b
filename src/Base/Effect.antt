-- ===== src/Base/Effect.antt =====
-- Methods that talk to a service: a call takes the world (the service, the network, the clock) and
-- gives its result and the world after it. What was done before an error stays done.
use mathlib.Core.Path.{◌≡◌, subst}
use mathlib.Core.List.{List, [], ◌∷◌}
use components_contrib.Base.Outcome.{Error, Panic, Result, ok, err, panic}

abbrev pub Eff : Type 0 → Type 0 → Type 0
Eff W A = W → Result A × W

module _ {W A B : Type 0} where
  abbrev pub continue : Result A → (A → Eff W B) → Eff W B
  continue (ok a) f w = f a w
  continue (err e) f w = (err e, w)
  continue (panic p) f w = (panic p, w)

  infixl 5 ◌>>=◌ ◌>>◌
  abbrev pub ◌>>=◌ : Eff W A → (A → Eff W B) → Eff W B
  ◌>>=◌ m f w = let (r, w') = m w in continue r f w'

  abbrev pub ◌>>◌ : Eff W A → Eff W B → Eff W B
  m >> n = m >>= λ _. n

module _ {W A : Type 0} where
  abbrev pub pure : A → Eff W A
  pure a w = (ok a, w)

  abbrev pub fail : Error → Eff W A
  fail e w = (err e, w)

  abbrev pub crash : Panic → Eff W A
  crash p w = (panic p, w)

  abbrev pub lift : Result A → Eff W A
  lift r w = (r, w)

  abbrev pub handle : Result A → (Error → Eff W A) → Eff W A
  handle (ok a) g w = (ok a, w)
  handle (err e) g w = g e w
  handle (panic p) g w = (panic p, w)

  -- The body of `if err != nil { … }` behind a call.
  abbrev pub on_error : Eff W A → (Error → Eff W A) → Eff W A
  on_error m g w = let (r, w') = m w in handle r g w'

-- `err := handler(…); if err == nil { accept } else { refuse }`
abbrev pub settle :
    {W : Type 0} → Eff W (Unit {0}) → Eff W (Unit {0}) → Eff W (Unit {0}) → Eff W (Unit {0})
settle handler accept refuse w = elim (handler w).0 [
  | ok _ ↦ accept (handler w).1
  | err e ↦ refuse (handler w).1
  | panic p ↦ (panic p, (handler w).1)
]

-- A call whose error is dropped.
abbrev pub ignore : {W A : Type 0} → Eff W A → Eff W (Unit {0})
ignore m w = elim (m w).0 [
  | ok a ↦ (ok tt, (m w).1)
  | err e ↦ (ok tt, (m w).1)
  | panic p ↦ (panic p, (m w).1)
]

module _ {W A : Type 0} (body : A → Eff W (Unit {0})) where
  -- `for _, x := range xs { if err := body(&x); err != nil { return err } }; return nil`
  unfoldable pub for_each : List A → Eff W (Unit {0})
  for_each [] = pure tt
  for_each (x ∷ xs) = do body x; for_each xs

module _ {B : Type 0} (P : B → Type 0) where
  -- What is given, if anything is, has `P`.
  abbrev pub Holds : Result B → Type 0
  Holds (ok b) = P b
  Holds _ = Unit

  pub Holds-ok : (r : Result B) (b : B) → Holds r → r ≡ ok b → P b
  Holds-ok r b h e = subst Holds e h

  -- A method gives only what has `P` if its last steps do.
  pub continue-Holds :
      {W A : Type 0} (r : Result A) (f : A → Eff W B) (w : W)
      → ((a : A) (v : W) → Holds (f a v).0)
      → Holds (continue r f w).0
  continue-Holds (ok a) f w h = h a w
  continue-Holds (err e) f w h = tt
  continue-Holds (panic p) f w h = tt
