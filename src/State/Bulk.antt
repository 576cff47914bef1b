-- ===== src/State/Bulk.antt =====
-- The loops of the BulkSet and BulkDelete methods: `for_each`, over what one element does.
use components_contrib.Base.{◌≡◌, ap, List, [], ◌∷◌, ◌++◌, Error, ok, err}
use components_contrib.Base.Effect.{Eff, for_each}

module _ {W A : Type 0} (body : A → Eff W (Unit {0})) where
  -- From `w` every element succeeds, the last leaving `w'`.
  abbrev pub RunsTo : List A → W → W → Type 0
  RunsTo [] w w' = w ≡ w'
  RunsTo (x ∷ xs) w w' = ((body x w).0 ≡ ok tt) × RunsTo xs (body x w).1 w'

  pub for_each-RunsTo : (xs : List A) (w w' : W) → RunsTo xs w w' → for_each body xs w ≡ (ok tt, w')
  unfolding for_each
  for_each-RunsTo [] w w' h = ap (λ v. (ok tt, v)) h
  for_each-RunsTo (x ∷ xs) w w' (h, hs) = rw h (for_each-RunsTo xs (body x w).1 w' hs)

  -- The first error ends the loop; what went before stays, and nothing behind it is done.
  pub for_each_stops :
      (xs zs : List A) (y : A) (w w' : W) (e : Error)
      → RunsTo xs w w'
      → (body y w').0 ≡ err e
      → for_each body (xs ++ y ∷ zs) w ≡ (err e, (body y w').1)
  unfolding for_each
  for_each_stops [] zs y w w' e h f = rw h (rw f)
  for_each_stops (x ∷ xs) zs y w w' e (h, hs) f =
      rw h (for_each_stops xs zs y (body x w).1 w' e hs f)
