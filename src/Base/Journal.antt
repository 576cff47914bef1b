-- ===== src/Base/Journal.antt =====
-- Methods that do something for each message they are given: a journal keeps what they did, and a
-- method adds entries at its end.
use components_contrib.Base.{
  ◌≡◌, refl, sym, ap, ◌∙◌, ◌⊎◌, inl, inr, Bool, true, false, List, [], ◌∷◌, ◌++◌, if◌then◌else◌,
  Bool-cases, All, Error, created, Result, ok, err, panic, Succeeds,
}
use components_contrib.Base.Effect.{Eff, settle, ignore, ◌>>◌, pure, fail, for_each}

pub append_assoc : {A : Type 0} (xs ys zs : List A) → (xs ++ ys) ++ zs ≡ xs ++ (ys ++ zs)
append_assoc [] ys zs = refl
append_assoc (x ∷ xs) ys zs = rw (append_assoc xs ys zs) refl

pub append_nil : {A : Type 0} (xs : List A) → xs ++ [] ≡ xs
append_nil [] = refl
append_nil (x ∷ xs) = rw (append_nil xs) refl

-- The entries of the elements, one after the other.
abbrev pub entries_of_all : {A E : Type 0} → (A → List E) → List A → List E
entries_of_all f [] = []
entries_of_all f (x ∷ xs) = f x ++ entries_of_all f xs

-- A handler that leaves the journal alone and whose answer to a message is always the same, and never
-- a panic.
pub record Handles {W E R : Type 0} (journal : W → List E) (handler : R → Eff W (Unit {0}))
    : Type 0 where
  pub accepts : R → Bool
  pub handler_keeps : (r : R) (w : W) → journal (handler r w).1 ≡ journal w
  pub handler_accepts : (r : R) (w : W) → accepts r ≡ true → (handler r w).0 ≡ ok tt
  pub handler_refuses :
      (r : R) (w : W) → accepts r ≡ false → (e : Error) × ((handler r w).0 ≡ err e)

-- A handler that answers by a test of the message.
abbrev pub answer_by : {W R : Type 0} → (R → Bool) → R → Eff W (Unit {0})
answer_by accepts r = if accepts r then pure tt else fail (created "refused")

unfoldable pub answer_by-Handles :
    {W E R : Type 0} (journal : W → List E) (accepts : R → Bool)
    → Handles journal (answer_by accepts)
answer_by-Handles journal accepts = record {
  accepts = accepts;
  handler_keeps = λ r w. elim (Bool-cases (accepts r)) [ inl e ↦ rw e refl | inr e ↦ rw e refl ];
  handler_accepts = λ r w e. rw e refl;
  handler_refuses = λ r w e. (created "refused", rw e refl);
}

module _ {W E : Type 0} (journal : W → List E) where
  -- A method that succeeds and adds these entries, wherever it starts.
  abbrev pub Adds : Eff W (Unit {0}) → List E → Type 0
  Adds m es = (w : W) → ((m w).0 ≡ ok tt) × (journal (m w).1 ≡ journal w ++ es)

  pub pure-Adds : Adds (pure tt) []
  pure-Adds w = (refl, sym (append_nil (journal w)))

  pub then-Adds :
      (m n : Eff W (Unit {0})) (es fs : List E) → Adds m es → Adds n fs → Adds (m >> n) (es ++ fs)
  then-Adds m n es fs h k w =
      rw (h w).0
        ((k (m w).1).0, (k (m w).1).1 ∙ ap (λ x. x ++ fs) (h w).1 ∙ append_assoc (journal w) es fs)

  pub for_each-Adds :
      {A : Type 0} (body : A → Eff W (Unit {0})) (entries : A → List E) (P : A → Type 0)
      → ((x : A) → P x → Adds (body x) (entries x))
      → (xs : List A) → All P xs
      → Adds (for_each body xs) (entries_of_all entries xs)
  unfolding for_each
  for_each-Adds body entries P h [] k = pure-Adds
  for_each-Adds body entries P h (x ∷ xs) k =
      then-Adds (body x) (for_each body xs) _ _ (h x k.0) (for_each-Adds body entries P h xs k.1)

  ignored_entries :
      {A : Type 0} (r : Result A) (w v : W) (es : List E)
      → Succeeds r ⊎ ((e : Error) × (r ≡ err e))
      → journal w ≡ journal v ++ es
      → ((ignore (λ u. (r, w)) v).0 ≡ ok tt)
        × (journal (ignore (λ u. (r, w)) v).1 ≡ journal v ++ es)
  ignored_entries (ok a) w v es h k = (refl, k)
  ignored_entries (err e) w v es h k = (refl, k)
  ignored_entries (panic p) w v es (inl h) k = absurd h
  ignored_entries (panic p) w v es (inr h) k = cc

  -- A call whose error is dropped, of which only a panic would be seen.
  pub ignore-Adds :
      {A : Type 0} (m : Eff W A) (es : List E)
      → ((w : W) → Succeeds (m w).0 ⊎ ((e : Error) × ((m w).0 ≡ err e)))
      → ((w : W) → journal (m w).1 ≡ journal w ++ es)
      → Adds (ignore m) es
  ignore-Adds m es h k w = ignored_entries (m w).0 (m w).1 w es (h w) (k w)

  pub settle-Adds :
      {R : Type 0} {handler : R → Eff W (Unit {0})} (laws : Handles journal handler) (r : R)
      (accept refuse : Eff W (Unit {0})) (es fs : List E)
      → Adds accept es
      → Adds refuse fs
      → Adds (settle (handler r) accept refuse) (if laws.accepts r then es else fs)
  settle-Adds {handler = handler} laws r accept refuse es fs h k w =
      elim (Bool-cases (laws.accepts r)) [
        | inl e ↦
            let (finished, added) = h (handler r w).1 in
            rw (e, settle, laws.handler_accepts r w e)
              (finished, added ∙ ap (λ x. x ++ es) (laws.handler_keeps r w))
        | inr e ↦
            let (finished, added) = k (handler r w).1 in
            rw (e, settle, (laws.handler_refuses r w e).1)
              (finished, added ∙ ap (λ x. x ++ fs) (laws.handler_keeps r w))
      ]
