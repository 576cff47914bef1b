-- ===== src/Discovery.antt =====
-- servicediscovery/: the requests, the resolver for Kubernetes and the resolver by mDNS. The zeroconf
-- library is a parameter.
pub mod Lookup
mod Tests
use components_contrib.Base.{
  zero, suc, ◌+◌, ◌-◌, ◌%◌, String, Bool, true, false, List, [], ◌∷◌, ◌==◌, if◌then◌else◌,
  formatted, wrapped, Result, ok, err,
}
use components_contrib.Base.Signed.{ℤ, pos, negsuc}
use components_contrib.Base.Effect.{Eff, ◌>>=◌, ◌>>◌, pure, fail, lift, on_error}
use components_contrib.Base.Text.{◌+s◌}
use components_contrib.Base.Text.Decimal.{itoa}
use components_contrib.State.Requests.{Properties}

pub record ResolveRequest : Type 0 where
  pub id : String
  pub namespace : String
  pub port : ℤ
  pub entries : Properties

pub new_resolve_request : ResolveRequest
new_resolve_request = record { id = ""; namespace = "default"; port = pos 0; entries = [] }

-- The interface Resolver of servicediscovery/servicediscovery.go, over the world `W`.
pub record IdResolver (W : Type 0) : Type 0 where
  pub resolve_id : ResolveRequest → Eff W String

-- `ResolveID` of servicediscovery/kubernetes
pub kubernetes_address : ResolveRequest → String
kubernetes_address req =
    req.id +s "-dapr." +s req.namespace +s ".svc.cluster.local:" +s itoa req.port

pub record ServiceEntry : Type 0 where
  pub text : List String
  pub port : ℤ

-- `browse` gives the entries that arrive in its second.
pub record Resolver (W : Type 0) : Type 0 where
  pub browse : String → String → Eff W (List ServiceEntry)

pub has_text : String → List String → Bool
has_text id [] = false
has_text id (text ∷ texts) = let rest = has_text id texts in if text == id then true else rest

-- The goroutine: the port of the first entry that has the text, or -1.
pub port_of : String → List ServiceEntry → ℤ
unfolding has_text
port_of id [] = negsuc 0
port_of id (entry ∷ results) =
    let rest = port_of id results in if has_text id entry.text then entry.port else rest

pub found_port : String → ℤ → Result ℤ
found_port id (pos p) = ok (pos p)
found_port id (negsuc zero) = err (formatted "couldn't find service: %s" (id ∷ []))
found_port id (negsuc (suc n)) = ok (negsuc (suc n))

module _ {W : Type 0} (new_resolver : Eff W (Resolver W)) where
  pub lookup_port_mdns : String → Eff W ℤ
  unfolding port_of found_port
  lookup_port_mdns id = do
    resolver ← on_error new_resolver (λ e. fail (wrapped "failed to initialize resolver: %e" [] e))
    entries ←
        on_error (resolver.browse id "local.") (λ e. fail (wrapped "failed to browse: %s" [] e))
    lift (found_port id (port_of id entries))

  -- `ResolveID` of servicediscovery/mdns
  pub resolve_by_mdns : ResolveRequest → Eff W String
  unfolding lookup_port_mdns
  resolve_by_mdns req = do port ← lookup_port_mdns req.id; pure ("localhost:" +s itoa port)
