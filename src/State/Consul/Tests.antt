-- ===== src/State/Consul/Tests.antt =====
-- The theorems about the Consul store at concrete inputs, on a table in memory.
use components_contrib.Base.{
  ℕ, String, ◌≡◌, refl, ap, inl, inr, Bool, true, false, not, List, [], ◌∷◌, leb, nat_eq,
  if◌then◌else◌, Bool-cases, Error, external, Result, ok, err,
}
use components_contrib.Base.Text.Decimal.{print_nat}
use components_contrib.State.Requests.{Bytes, Metadata, Value, bytes, other, SetRequest}
use components_contrib.State.Memory.{
  find, insert, erase, find-insert_self, find-insert_ne, find-erase_self, find-erase_ne,
}
use Prim.Native.String.{len}
use text.Mathlib.TextLemmas.{cons-append}
use Prim.Native.Char.{code}
use components_contrib.Base.Effect.{pure}
use components_contrib.Base.Text.Json.{json_field}
use components_contrib.Base.Text.{◌+s◌}
use components_contrib.State.Consul.{Client, Consul, init, set_item}
use components_contrib.State.Consul.Laws.{Documented, init_named_prefix_refuses}

abbrev json : Value ℕ → Result Bytes
json (bytes b) = ok b
json (other n) = ok (print_nat n)

abbrev Table : Type 0
Table = List (String × Bytes)

abbrev bare : String → Bool
bare String.[] = true
bare (String.◌∷◌ c k) = not (nat_eq (code c) b'/')

abbrev memory : Client Table
memory = record {
  get = λ k strongly t. (ok (record { pair = find t k; last_content_hash = "h" }), t);
  put = λ k b t. if bare k then (ok tt, insert k b t) else (err (external "Invalid key"), t);
  remove = λ k t. (ok tt, erase k t);
}

abbrev store : Consul Table
store = record { client = memory; key_prefix_path = "dapr" }

bare_slash : (k : String) → bare ("/" +s k) ≡ false
bare_slash k = ap bare (cons-append "/" "" k)

abbrev memory-Documented : Documented memory
memory-Documented = record {
  stored = find;
  hash = λ t k. "h";
  may_name = bare;
  may_put = λ k b. leb (len b) 524288;
  put_slash = λ k b w. (external "Invalid key", rw (memory, bare_slash k) refl);
  get_reply = λ k strongly w h. refl;
  put_reply = λ k b w h h'. rw (memory, h) refl;
  put_self = λ k b w h h'. rw (memory, h) (find-insert_self w k b);
  put_ne = λ k j b w ne. elim (Bool-cases (bare k)) [
    | inl e ↦ rw (memory, e) (find-insert_ne w k j b ne)
    | inr e ↦ rw (memory, e) refl
  ];
  remove_reply = λ k w h. refl;
  remove_self = λ k w h. find-erase_self w k;
  remove_ne = λ k j w ne. find-erase_ne w k j ne;
}

abbrev with_prefix : Metadata
with_prefix = record { properties = ("keyPrefixPath", "app") ∷ [] }

init_named_prefix_refuses_example :
    (c : Consul Table) × ((init (λ config. pure memory) with_prefix []).0 ≡ ok c)
    × ((req : SetRequest ℕ) (x : Table) → (e : Error) × (set_item c json req x ≡ (err e, x)))
unfolding json_field
init_named_prefix_refuses_example =
    init_named_prefix_refuses (λ config. pure memory) json with_prefix memory memory-Documented []
      refl (λ p. cc)
