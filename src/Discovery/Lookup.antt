-- ===== src/Discovery/Lookup.antt =====
-- Which port the resolver of servicediscovery/mdns/mdns.go finds.
use components_contrib.Base.{
  ℕ, String, ◌≡◌, refl, ◌⊎◌, inl, inr, true, false, List, [], ◌∷◌, arith, eq_iff, ◌==◌, Bool-cases,
  All, formatted, ok, err,
}
use components_contrib.Base.Signed.{pos, negsuc}
use components_contrib.Base.Effect.{Eff}
use components_contrib.Base.Text.{◌+s◌}
use components_contrib.Base.Text.Decimal.{print_nat, itoa-pos}
use components_contrib.Discovery.{
  ResolveRequest, ServiceEntry, Resolver, has_text, port_of, found_port, lookup_port_mdns,
  resolve_by_mdns,
}

-- The text is one of these.
abbrev pub IsOneOf : String → List String → Type 0
IsOneOf id [] = ⊥
IsOneOf id (text ∷ texts) = (text ≡ id) ⊎ IsOneOf id texts

has_text-cases :
    (id : String) (texts : List String)
    → ((has_text id texts ≡ true) × IsOneOf id texts)
      ⊎ ((has_text id texts ≡ false) × (¬ IsOneOf id texts))
unfolding has_text
has_text-cases id [] = inr (refl, λ k. k)
has_text-cases id (text ∷ texts) = elim (Bool-cases (text == id)) [
  | inl e ↦ inl (rw e refl, inl ((eq_iff text id).0 e))
  | inr e ↦ elim (has_text-cases id texts) [
    | inl (h, there) ↦ inl (rw (e, h) refl, inr there)
    | inr (h, absent) ↦ inr (
      rw (e, h) refl,
      λ k. elim k [ inl here ↦ ground (arith, eq_iff text id, e, here) | inr there ↦ absent there ],
    )
  ]
]

-- `entry` is the first of the entries that has the text `id`.
abbrev pub IsFirst : String → ServiceEntry → List ServiceEntry → Type 0
IsFirst id entry [] = ⊥
IsFirst id entry (e ∷ es) =
    ((entry ≡ e) × IsOneOf id e.text) ⊎ ((¬ IsOneOf id e.text) × IsFirst id entry es)

abbrev pub HasPort : ServiceEntry → Type 0
HasPort e = (p : ℕ) × (e.port ≡ pos p)

abbrev pub LacksText : String → ServiceEntry → Type 0
LacksText id e = ¬ IsOneOf id e.text

port_of-cases :
    (id : String) (entries : List ServiceEntry)
    → All HasPort entries
    → ((entry : ServiceEntry) × (p : ℕ) × IsFirst id entry entries
        × (entry.port ≡ pos p)
        × (port_of id entries ≡ pos p))
      ⊎ (All (LacksText id) entries × (port_of id entries ≡ negsuc 0))
unfolding port_of
port_of-cases id [] h = inr (tt, refl)
port_of-cases id (e ∷ es) ((p, port), h) = elim (has_text-cases id e.text) [
  | inl (k, there) ↦ inl (e, p, inl (refl, there), port, rw k port)
  | inr (k, absent) ↦ elim (port_of-cases id es h) [
    | inl (entry, q, first, port', found) ↦ inl (entry, q, inr (absent, first), port', rw k found)
    | inr (lacking, nothing) ↦ inr ((absent, lacking), rw k nothing)
  ]
]

module _ {W : Type 0} (new_resolver : Eff W (Resolver W)) where
  lookup_port_mdns-found_port :
      (id : String) (w v u : W) (resolver : Resolver W) (entries : List ServiceEntry)
      → new_resolver w ≡ (ok resolver, v)
      → resolver.browse id "local." v ≡ (ok entries, u)
      → lookup_port_mdns new_resolver id w ≡ (found_port id (port_of id entries), u)
  unfolding lookup_port_mdns
  lookup_port_mdns-found_port id w v u resolver entries made browsed = rw (made, browsed) refl

  -- If a resolver is made and gives entries that have ports: either one of them has the id among its
  -- texts, and the address is localhost with the port of the first such entry, or none has it, and
  -- the answer is an error.
  pub resolve_by_mdns_finds :
      (req : ResolveRequest) (w v u : W) (resolver : Resolver W) (entries : List ServiceEntry)
      → new_resolver w ≡ (ok resolver, v)
      → resolver.browse req.id "local." v ≡ (ok entries, u)
      → All HasPort entries
      → ((entry : ServiceEntry) × (p : ℕ) × IsFirst req.id entry entries
          × (entry.port ≡ pos p)
          × (resolve_by_mdns new_resolver req w ≡ (ok ("localhost:" +s print_nat p), u)))
        ⊎ (All (LacksText req.id) entries
            × (resolve_by_mdns new_resolver req w
                ≡ (err (formatted "couldn't find service: %s" (req.id ∷ [])), u)))
  unfolding resolve_by_mdns found_port
  resolve_by_mdns_finds req w v u resolver entries made browsed ports =
      let looked_up = lookup_port_mdns-found_port req.id w v u resolver entries made browsed in
      elim (port_of-cases req.id entries ports) [
        | inl (entry, p, first, port, found) ↦
            inl (entry, p, first, port, rw (looked_up, found, itoa-pos p) refl)
        | inr (lacking, nothing) ↦ inr (lacking, rw (looked_up, nothing) refl)
      ]
