-- ===== src/State/Redis/Concrete.antt =====
-- A server in memory that does what `Laws` asks of Redis: each key holds a text, or a list of fields of
-- which the last one with a name counts.
pub mod Laws
use components_contrib.Base.{
  ℕ, ◌+◌, ◌^◌, ◌<◌, String, ◌≡◌, refl, sym, ap, ◌∙◌, ◌≢◌, ◌⊎◌, inl, inr, false, Option, none, some,
  List, [], ◌∷◌, ◌++◌, arith, eq_iff, eq_refl, ◌==◌, if◌then◌else◌, Bool-cases, Option-cases, ok,
}
use components_contrib.Base.Text.Decimal.{atoi, print_nat, atoi-print_nat}
use components_contrib.Base.Signed.{ℤ, pos, negsuc}
use components_contrib.State.Redis.{Reply, nil, bulk, integer, array, failure, is_failure, Server}
use components_contrib.State.Redis.Laws.{
  listed, IsPaired, IsListed, run_all, Documented, Transacts, IsConnected,
}

-- What a key holds; one that is not there holds no fields.
pub data Slot : Type 0 where
  hash : List (String × String) → Slot
  text : String → Slot

abbrev pub Memory : Type 0
Memory = String → Slot

unfoldable pub flat : List (String × String) → List String
flat [] = []
flat ((f, v) ∷ l) = f ∷ v ∷ flat l

abbrev of_option : Option String → Reply
of_option none = nil
of_option (some v) = bulk v

abbrev wrong_type : Reply
wrong_type = failure "WRONGTYPE"

abbrev update : Memory → String → Slot → Memory
update w k x j = if k == j then x else w j

-- A field at the end of a hash.
abbrev extend : String → String → Slot → Slot
extend f v (hash l) = hash (l ++ (f, v) ∷ [])
extend f v (text t) = text t

-- The number in a field.
abbrev counted : Option ℤ → ℕ
counted none = 0
counted (some (pos n)) = n
counted (some (negsuc n)) = 0

unfoldable field : String → Slot → Reply
unfolding flat listed
field f (hash l) = of_option (listed f (flat l))
field f (text t) = wrong_type

unfoldable pub hget : String → String → Memory → Reply
unfolding field
hget k f w = field f (w k)

-- The reply of a command that a text refuses.
abbrev on_hash : Slot → Reply → Reply
on_hash (hash l) r = r
on_hash (text t) r = wrong_type

pub hset : String → String → String → Memory → Reply × Memory
hset k f v w = (on_hash (w k) (integer 0), update w k (extend f v (w k)))

abbrev value_in : Reply → ℕ
value_in (bulk t) = counted (atoi t)
value_in _ = 0

pub hincrby : String → String → ℕ → Memory → Reply × Memory
unfolding hget
hincrby k f d w =
    let n = value_in (hget k f w) + d in
    (on_hash (w k) (integer n), update w k (extend f (print_nat n) (w k)))

pub del : String → Memory → Reply × Memory
del k w = (integer 1, update w k (hash []))

pub plain_set : String → String → Memory → Reply × Memory
plain_set k v w = (bulk "OK", update w k (text v))

abbrev fields_of : Slot → Reply
fields_of (hash l) = array (flat l)
fields_of (text t) = wrong_type

abbrev text_in : Slot → Reply
text_in (hash []) = nil
text_in (hash (p ∷ l)) = wrong_type
text_in (text t) = bulk t

abbrev pub server : Server Memory
server = record {
  hget = hget;
  hgetall = λ k w. fields_of (w k);
  plain_get = λ k w. text_in (w k);
  del = del;
  hset = hset;
  hincrby = hincrby;
  wait = λ n t w. (integer n, w);
  info_replication = λ w. bulk "";
  send = λ command w. command w;
  transaction = λ cs w. (ok tt, run_all cs w);
  plain_set = plain_set;
  connect = λ host password w. (ok tt, w);
  sleep = λ d w. w;
}

pub server-IsConnected : IsConnected server
server-IsConnected command w = refl

-- Key "a" at version 3.
abbrev pub start : Memory
start k = if k == "a" then hash (("data", "x") ∷ ("version", "3") ∷ []) else hash []

reads : (hget "a" "version" start ≡ bulk "3") × (hget "b" "data" start ≡ nil)
unfolding hget
reads = (refl, refl)
