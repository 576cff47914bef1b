-- ===== src/State/Memory.antt =====
-- A table in memory, on which the theorems about the stores are run.
use components_contrib.Base.{
  String, ◌≡◌, refl, ◌∙◌, ◌≢◌, inl, inr, Option, none, some, List, [], ◌∷◌, arith, eq_iff, eq_refl,
  ◌==◌, if◌then◌else◌, Bool-cases,
}

module _ {A : Type 0} where
  abbrev pub find : List (String × A) → String → Option A
  find [] k = none
  find ((j, a) ∷ t) k = if k == j then some a else find t k

  abbrev pub insert : String → A → List (String × A) → List (String × A)
  insert k a t = (k, a) ∷ t

  abbrev pub erase : String → List (String × A) → List (String × A)
  erase k [] = []
  erase k ((j, a) ∷ t) = let rest = erase k t in if j == k then rest else (j, a) ∷ rest

  pub find-insert_self :
      (t : List (String × A)) (k : String) (a : A) → find (insert k a t) k ≡ some a
  find-insert_self t k a = rw (eq_refl k) refl

  pub find-insert_ne :
      (t : List (String × A)) (k j : String) (a : A) → j ≢ k → find (insert k a t) j ≡ find t j
  find-insert_ne t k j a ne = ground (arith, eq_iff j k, ne)

  pub find-erase_self : (t : List (String × A)) (k : String) → find (erase k t) k ≡ none
  find-erase_self [] k = refl
  find-erase_self ((j, a) ∷ t) k = elim (Bool-cases (j == k)) [
    | inl e ↦ rw e (find-erase_self t k)
    | inr e ↦ rw e (ground (arith, eq_iff j k, eq_iff k j, e, find-erase_self t k))
  ]

  pub find-erase_ne : (t : List (String × A)) (k j : String) → j ≢ k → find (erase k t) j ≡ find t j
  find-erase_ne [] k j ne = refl
  find-erase_ne ((i, a) ∷ t) k j ne = elim (Bool-cases (i == k)) [
    | inl e ↦ rw e (find-erase_ne t k j ne ∙ ground (arith, eq_iff i k, eq_iff j i, e, ne))
    | inr e ↦ rw e (ground (arith, eq_iff j i, find-erase_ne t k j ne))
  ]
