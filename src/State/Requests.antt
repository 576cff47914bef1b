-- ===== src/State/Requests.antt =====
-- state/requests.go, state/responses.go, state/metadata.go, state/store.go and the constants of
-- state/retry.go. A byte slice and a string are both sequences of bytes here, so the conversions
-- between them are the identity. `V` is the type of the values that are not byte slices.
use components_contrib.Base.{
  String, Option, none, some, List, [], ◌∷◌, ◌==◌, if◌then◌else◌, Result, ok,
}
use components_contrib.Base.Effect.{Eff}
use components_contrib.Base.Signed.{ℤ, Duration}

abbrev pub Bytes : Type 0
Bytes = String

-- A Go map[string]string.
abbrev pub Properties : Type 0
Properties = List (String × String)

abbrev pub lookup : Properties → String → Option String
lookup [] k = none
lookup ((j, v) ∷ m) k = if j == k then some v else lookup m k

-- `m[k]`, with the zero value for a missing key
abbrev pub value_of : Properties → String → String
value_of m k = elim (lookup m k) [ none ↦ "" | some v ↦ v ]

-- `if val, ok := m[k]; ok && val != ""`
abbrev pub present : Properties → String → Option String
present m k = elim (lookup m k) [ none ↦ none | some v ↦ if v == "" then none else some v ]

pub record Metadata : Type 0 where
  pub properties : Properties

pub record RetryPolicy : Type 0 where
  pub interval : Duration
  pub threshold : ℤ
  pub pattern_name : String

pub record GetStateOption : Type 0 where
  pub consistency : String

pub record DeleteStateOption : Type 0 where
  pub concurrency : String
  pub consistency : String
  pub retry_policy : RetryPolicy

pub record SetStateOption : Type 0 where
  pub concurrency : String
  pub consistency : String
  pub retry_policy : RetryPolicy

pub record GetRequest : Type 0 where
  pub key : String
  pub options : GetStateOption

pub record DeleteRequest : Type 0 where
  pub key : String
  pub etag : String
  pub options : DeleteStateOption

-- `interface{}`: a byte slice, or anything else.
pub data Value (V : Type 0) : Type 0 where
  bytes : Bytes → Value V
  other : V → Value V

pub record SetRequest (V : Type 0) : Type 0 where
  pub key : String
  pub value : Value V
  pub etag : String
  pub metadata : Properties
  pub options : SetStateOption

pub record GetResponse : Type 0 where
  pub payload : Bytes
  pub etag : String
  pub metadata : Properties

-- `&GetResponse{}`
abbrev pub empty_response : GetResponse
empty_response = record { payload = ""; etag = ""; metadata = [] }

-- The Operation and Request fields. A Request that does not fit its Operation is `mismatched`; an
-- Operation that is neither Upsert nor Delete is `unknown`.
pub data TransactionalRequest (V : Type 0) : Type 0 where
  upsert : SetRequest V → TransactionalRequest V
  delete : DeleteRequest → TransactionalRequest V
  mismatched : TransactionalRequest V
  unknown : TransactionalRequest V

abbrev pub first_write : String
first_write = "first-write"

abbrev pub last_write : String
last_write = "last-write"

abbrev pub strong : String
strong = "strong"

abbrev pub eventual : String
eventual = "eventual"

abbrev pub exponential : String
exponential = "exponential"

abbrev pub linear : String
linear = "linear"

-- `bt, _ = Marshal(v)`: a Marshal that fails gives nil.
abbrev pub marshalled : {V : Type 0} → (Value V → Result Bytes) → Value V → Bytes
marshalled marshal v = elim (marshal v) [ ok b ↦ b | _ ↦ "" ]

-- `b, ok := v.([]byte); if ok { bt = b } else { bt, _ = Marshal(v) }`
abbrev pub encode : {V : Type 0} → (Value V → Result Bytes) → Value V → Bytes
encode marshal (bytes b) = b
encode marshal (other v) = marshalled marshal (other v)

-- The interface state.Store, over the world `W`.
pub record Store (W V : Type 0) : Type 0 where
  pub init : Metadata → Eff W (Unit {0})
  pub delete : DeleteRequest → Eff W (Unit {0})
  pub bulk_delete : List DeleteRequest → Eff W (Unit {0})
  pub get : GetRequest → Eff W (Option GetResponse)
  pub set : SetRequest V → Eff W (Unit {0})
  pub bulk_set : List (SetRequest V) → Eff W (Unit {0})

-- The interface state.TransactionalStore (state/transactional_store.go).
pub record TransactionalStore (W V : Type 0) : Type 0 where
  pub init : Metadata → Eff W (Unit {0})
  pub multi : List (TransactionalRequest V) → Eff W (Unit {0})
