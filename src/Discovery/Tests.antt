-- ===== src/Discovery/Tests.antt =====
-- The theorem about the mDNS resolver at a concrete input.
use components_contrib.Base.{ℕ, String, ◌≡◌, refl, ◌⊎◌, List, [], ◌∷◌, All, formatted, ok, err}
use components_contrib.Base.Effect.{pure}
use components_contrib.Base.Signed.{pos}
use components_contrib.Base.Text.{◌+s◌}
use components_contrib.Base.Text.Decimal.{print_nat}
use components_contrib.Discovery.{ResolveRequest, ServiceEntry, Resolver, resolve_by_mdns}
use components_contrib.Discovery.Lookup.{IsFirst, LacksText, resolve_by_mdns_finds}

abbrev entry : String → ℕ → ServiceEntry
entry text port = record { text = "v=1" ∷ text ∷ []; port = pos port }

abbrev found : List ServiceEntry
found = entry "other" 3000 ∷ entry "app" 3500 ∷ entry "app" 3600 ∷ []

abbrev resolver : Resolver (Unit {0})
resolver = record { browse = λ id domain. pure found }

abbrev request : ResolveRequest
request = record { id = "app"; namespace = "test"; port = pos 50003; entries = [] }

resolve_by_mdns_finds_example :
    ((e : ServiceEntry) × (p : ℕ) × IsFirst "app" e found
      × (e.port ≡ pos p)
      × (resolve_by_mdns (pure resolver) request tt ≡ (ok ("localhost:" +s print_nat p), tt)))
    ⊎ (All (LacksText "app") found
        × (resolve_by_mdns (pure resolver) request tt
            ≡ (err (formatted "couldn't find service: %s" ("app" ∷ [])), tt)))
resolve_by_mdns_finds_example =
    resolve_by_mdns_finds (pure resolver) request tt tt tt resolver found refl refl
      ((3000, refl), ((3500, refl), ((3600, refl), tt)))
