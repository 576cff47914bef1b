-- ===== src/State/Firestore/Required.antt =====
-- The properties that the metadata of state/firestore/firestore.go must have.
use components_contrib.Base.{
  String, ◌≡◌, refl, sym, ◌∙◌, ◌≢◌, ◌↔◌, inl, inr, Option, none, some, List, [], ◌∷◌, arith, eq_iff,
  ◌==◌, if◌then◌else◌, Bool-cases, Option-cases, All, Succeeds,
}
use components_contrib.State.Requests.{Properties, lookup, value_of, present, Metadata}
use components_contrib.State.Firestore.{required, missing_field, get_firestore_metadata}

-- A property that is there and not empty.
abbrev pub IsGiven : Properties → String → Type 0
IsGiven p k = value_of p k ≢ ""

present-IsGiven : (p : Properties) (k : String) → (present p k ≢ none) ↔ IsGiven p k
present-IsGiven p k = by_lookup (lookup p k)
  where
    nonempty : Option String → Option String
    nonempty o = elim o [ none ↦ none | some v ↦ if v == "" then none else some v ]

    text_of : Option String → String
    text_of o = elim o [ none ↦ "" | some v ↦ v ]

    by_lookup : (o : Option String) → (nonempty o ≢ none) ↔ (text_of o ≢ "")
    by_lookup none = ((λ h. absurd (h refl)), (λ h. absurd (h refl)))
    by_lookup (some v) = elim (Bool-cases (v == "")) [
      | inl e ↦ rw e ((λ h. absurd (h refl)), (λ h. absurd (h ((eq_iff v "").0 e))))
      | inr e ↦ rw e ((λ h. ground (arith, eq_iff v "", e)), (λ h q. cc))
    ]

not_both : {A : Type 0} {o : Option A} {a : A} → o ≡ some a → o ≢ none
not_both e q = impossible (sym e ∙ q)
  where
    impossible : {A : Type 0} {a : A} → some a ≢ none
    impossible p = cc

missing_field-none :
    (p : Properties) (ks : List String) → (missing_field p ks ≡ none) ↔ All (IsGiven p) ks
unfolding missing_field
missing_field-none p [] = (λ h. tt, λ h. refl)
missing_field-none p (k ∷ ks) = elim (Option-cases (present p k)) [
  | inl e ↦ rw (missing_field, e) (λ h. cc, λ h. absurd ((present-IsGiven p k).1 h.0 e))
  | inr (v, e) ↦
      rw (missing_field, e)
        (
          λ h. ((present-IsGiven p k).0 (not_both e), (missing_field-none p ks).0 h),
          λ h. (missing_field-none p ks).1 h.1,
        )
]

-- The metadata are accepted exactly if each of the ten required properties is there and not empty.
get_firestore_metadata-Succeeds :
    (metadata : Metadata)
    → Succeeds (get_firestore_metadata metadata) ↔ All (IsGiven metadata.properties) required
unfolding get_firestore_metadata
get_firestore_metadata-Succeeds metadata =
    elim (Option-cases (missing_field metadata.properties required)) [
      | inl e ↦
          rw (get_firestore_metadata, e)
            (λ h. (missing_field-none metadata.properties required).0 e, λ h. tt)
      | inr (k, e) ↦
          rw (get_firestore_metadata, e)
            (
              λ h. absurd h,
              λ h. absurd (not_both e ((missing_field-none metadata.properties required).1 h)),
            )
    ]
