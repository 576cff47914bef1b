-- ===== src/Bindings/Messages.antt =====
-- bindings/responses.go, bindings/metadata.go, bindings/input_binding.go and bindings/output_binding.go.
use components_contrib.Base.{String, List, []}
use components_contrib.Base.Effect.{Eff}
use components_contrib.State.Requests.{Bytes, Properties, Value, SetRequest}

pub record Metadata : Type 0 where
  pub name : String
  pub properties : Properties

pub record ReadResponse : Type 0 where
  pub payload : Bytes
  pub metadata : Properties

pub record WriteRequest : Type 0 where
  pub payload : Bytes
  pub metadata : Properties

-- What a call of the application answers; `V` is the type of its values.
pub record AppResponse (V : Type 0) : Type 0 where
  pub payload : Value V
  pub to : List String
  pub state : List (SetRequest V)
  pub concurrency : String

-- The interfaces InputBinding and OutputBinding, over the world `W`; `S` is what Init makes.
pub record InputBinding (W S : Type 0) : Type 0 where
  pub init : Metadata → Eff W S
  pub read : S → (ReadResponse → Eff W (Unit {0})) → Eff W (Unit {0})

pub record OutputBinding (W S : Type 0) : Type 0 where
  pub init : Metadata → Eff W S
  pub write : S → WriteRequest → Eff W (Unit {0})

-- `&ReadResponse{Data: data}`
abbrev pub response : Bytes → ReadResponse
response payload = record { payload = payload; metadata = [] }
