-- ===== src/State/Zookeeper/Writes/Tests.antt =====
-- The theorems about Set and Delete of the ZooKeeper store at concrete inputs, on nodes in memory that do
-- what `Laws` asks of the server.
use components_contrib.Base.Signed.{ℤ, pos, negsuc, Duration}
use components_contrib.Base.{
  ℕ, zero, suc, ◌+◌, String, ◌≡◌, refl, ap, ◌∙◌, ◌≢◌, ◌⊎◌, inl, inr, Bool, true, false, Option,
  none, some, List, [], ◌∷◌, arith, eq_iff, eq_refl, nat_eq, ◌==◌, if◌then◌else◌, Bool-cases,
  external, Result, ok,
}
use components_contrib.State.Requests.{
  Bytes, RetryPolicy, DeleteRequest, Value, bytes, other, SetRequest,
}
use components_contrib.Base.Text.Decimal.{print_nat, itoa}
use components_contrib.State.Retry.Constant.{Fails}
use components_contrib.State.Zookeeper.{
  Acl, Failure, no_node, failure, Conn, Config, Outcome, done, refused, prefixed_key, any_version,
  set_item, delete_item, write_once, SetDataRequest,
}
use components_contrib.State.Zookeeper.Laws.{
  Matches, Differs, Documented, KeepsNodes, KeepsOtherNodes, IsChecked, asked_version,
}
use components_contrib.State.Zookeeper.Writes.{set_item_by_node_version, set_item_never_creates}
use components_contrib.State.Zookeeper.Interleaving.{stay, set_next, no_lost_set}
use components_contrib.State.Zookeeper.Removals.{delete_item_by_node_version}

abbrev Node : Type 0
Node = Option (Bytes × ℕ)

abbrev Nodes : Type 0
Nodes = String → Node

abbrev update : Nodes → String → Node → Nodes
update m p x q = if p == q then x else m q

abbrev fits : ℤ → ℕ → Bool
fits (pos n) v = nat_eq n v
fits (negsuc zero) v = true
fits (negsuc (suc n)) v = false

abbrev refuse : {A : Type 0} → String → Outcome A
refuse m = refused (failure (external m))

abbrev look : Node → Outcome (Bytes × ℤ)
look none = refused no_node
look (some (d, v)) = done (d, pos v)

abbrev write : String → Bytes → ℤ → Node → Nodes → Outcome (Unit {0}) × Nodes
write p b x none m = (refused no_node, m)
write p b x (some (d, v)) m =
    if fits x v then (done tt, update m p (some (b, v + 1))) else (refuse "zk: version conflict", m)

abbrev make : String → Bytes → List Acl → Node → Nodes → Outcome (Unit {0}) × Nodes
make p b [] n m = (refuse "zk: invalid ACL specified", m)
make p b (a ∷ acl) none m = (done tt, update m p (some (b, 0)))
make p b (a ∷ acl) (some x) m = (refuse "zk: node already exists", m)

abbrev erase : String → ℤ → Node → Nodes → Outcome (Unit {0}) × Nodes
erase p x none m = (refused no_node, m)
erase p x (some (d, v)) m =
    if fits x v then (done tt, update m p none) else (refuse "zk: version conflict", m)

abbrev server : Conn Nodes
server = record {
  create = λ p b flags acl m. make p b acl (m p) m;
  get = λ p m. (look (m p), m);
  set = λ p b x m. write p b x (m p) m;
  remove = λ p x m. erase p x (m p) m;
  multi = λ ops m. (([], none), m);
}

fits-Matches : (x : ℤ) (v : ℕ) → Matches x v → fits x v ≡ true
fits-Matches x v (inl e) = ap (λ y. fits y v) e
fits-Matches x v (inr e) = ap (λ y. fits y v) e ∙ ground arith

fits-Differs : (x : ℤ) (v : ℕ) → Differs x v → fits x v ≡ false
fits-Differs (pos n) v (ne, no_match) = apart (λ e. no_match (ap pos e))
  where
    apart : n ≢ v → nat_eq n v ≡ false
    apart h = ground arith
fits-Differs (negsuc zero) v (ne, no_match) = absurd (ne refl)
fits-Differs (negsuc (suc n)) v h = refl

update_self : (m : Nodes) (p : String) (x : Node) → update m p x p ≡ x
update_self m p x = simp eq_refl

update_ne : (m : Nodes) (p q : String) (x : Node) → q ≢ p → update m p x q ≡ m q
update_ne m p q x ne = ground (arith, eq_iff p q, ne)

write_ne : (p q b : String) (x : ℤ) (n : Node) (m : Nodes) → q ≢ p → (write p b x n m).1 q ≡ m q
write_ne p q b x none m ne = refl
write_ne p q b x (some (d, v)) m ne = elim (Bool-cases (fits x v)) [
  | inl e ↦ rw e (update_ne m p q (some (b, v + 1)) ne)
  | inr e ↦ rw e refl
]

erase_ne : (p q : String) (x : ℤ) (n : Node) (m : Nodes) → q ≢ p → (erase p x n m).1 q ≡ m q
erase_ne p q x none m ne = refl
erase_ne p q x (some (d, v)) m ne = elim (Bool-cases (fits x v)) [
  | inl e ↦ rw e (update_ne m p q none ne)
  | inr e ↦ rw e refl
]

allowed : true ≢ false
allowed p = cc

abbrev documented : Documented server
documented = record {
  stored = λ m p. m p;
  may_set = λ m p b. true;
  may_remove = λ m p. true;
  is_path = λ p. true;
  set_reply = λ p b d x v w at bound may h. rw (at, fits-Matches x v h) refl;
  stored-set_self =
      λ p b d x v w at bound may h. rw (at, fits-Matches x v h) (update_self w p (some (b, v + 1)));
  stored-set_ne = λ p q b x w ne. write_ne p q b x (w p) w ne;
  set_conflict =
      λ p b d x v w at h. (external "zk: version conflict", rw (at, fits-Differs x v h) refl);
  set_denied = λ p b d x v w at no. absurd (allowed no);
  set_missing = λ p b x w at. (no_node, rw at refl);
  create_without_acl = λ p b flags w. (failure (external "zk: invalid ACL specified"), refl);
  remove_reply = λ p d x v w at may h. rw (at, fits-Matches x v h) refl;
  stored-remove_self = λ p d x v w at may h. rw (at, fits-Matches x v h) (update_self w p none);
  stored-remove_ne = λ p q x w ne. erase_ne p q x (w p) w ne;
  remove_conflict =
      λ p d x v w at h. (external "zk: version conflict", rw (at, fits-Differs x v h) refl);
  remove_missing = λ p x w is at. rw at refl;
}

abbrev json : Value ℕ → Result Bytes
json (bytes b) = ok b
json (other n) = ok (print_nat n)

abbrev no_retries : RetryPolicy
no_retries = record { interval = 0; threshold = pos 0; pattern_name = "" }

abbrev put : String → SetRequest ℕ
put etag = record {
  key = "a";
  value = bytes "new";
  etag = etag;
  metadata = [];
  options = record { concurrency = "first-write"; consistency = ""; retry_policy = no_retries };
}

abbrev removal : DeleteRequest
removal = record {
  key = "a";
  etag = "3";
  options = record { concurrency = "first-write"; consistency = ""; retry_policy = no_retries };
}

checked : IsChecked "first-write" "" ""
checked = record {
  known_concurrency = inr (inl refl);
  known_consistency = inl refl;
  known_pattern = inl refl;
}

-- Node "a" at version 3.
abbrev at_three : Nodes
at_three p = if p == "a" then some ("old", 3) else none

abbrev no_nodes : Nodes
no_nodes p = none

abbrev no_sleep : Duration → Nodes → Nodes
no_sleep t m = m

set_item_by_node_version_example :
    let r = set_item server none no_sleep json (put "3") at_three in
    (Matches (asked_version "first-write" "3") 3
      × ((r.0 ≡ ok tt) × (r.1 "a" ≡ some ("new", 4)) × KeepsOtherNodes documented "a" at_three r.1))
    ⊎ (Differs (asked_version "first-write" "3") 3 × Fails (KeepsNodes documented at_three) r)
unfolding prefixed_key components_contrib.State.Zookeeper.marshal_data
set_item_by_node_version_example =
    set_item_by_node_version server documented none no_sleep json (λ t w q. refl) (put "3") "new"
      "old" 3 at_three checked refl refl (omega arith) refl

set_item_never_creates_example :
    Fails (KeepsNodes documented no_nodes) (set_item server none no_sleep json (put "7") no_nodes)
unfolding prefixed_key components_contrib.State.Zookeeper.marshal_data
set_item_never_creates_example =
    set_item_never_creates server documented none no_sleep json (λ t w q. refl) (put "7") "new"
      no_nodes checked refl refl

delete_item_by_node_version_example :
    let r = delete_item server none no_sleep removal at_three in
    ((at_three "a" ≡ none) × (r ≡ (ok tt, at_three)))
    ⊎ ((d : Bytes) × (v : ℕ) × (at_three "a" ≡ some (d, v))
        × ((Matches (asked_version "first-write" "3") v
              × ((r.0 ≡ ok tt) × (r.1 "a" ≡ none) × KeepsOtherNodes documented "a" at_three r.1))
            ⊎ (Differs (asked_version "first-write" "3") v
                × Fails (KeepsNodes documented at_three) r)))
unfolding prefixed_key
delete_item_by_node_version_example =
    delete_item_by_node_version server documented none no_sleep (λ t w q. refl) removal at_three
      checked refl refl

-- Another client sets "a" for version 3, and "b".
abbrev set_a : SetDataRequest
set_a = record { path = "a"; content = "other"; version = pos 3 }

abbrev set_b : SetDataRequest
set_b = record { path = "b"; content = "other"; version = any_version }

abbrev behind : Nodes
behind =
    (write_once server none no_sleep set_b (write_once server none no_sleep set_a at_three).1).1

no_lost_set_example :
    (behind "a" ≡ some ("old", 3))
    ⊎ Fails (KeepsNodes documented behind) (set_item server none no_sleep json (put "3") behind)
unfolding prefixed_key components_contrib.State.Zookeeper.marshal_data print_nat itoa
no_lost_set_example =
    no_lost_set server documented none no_sleep json (λ t w q. refl) (put "3") "new" "old" 3 2
      at_three behind (omega arith) refl (set_next set_b (set_next set_a stay)) checked (λ p. cc)
      refl refl
