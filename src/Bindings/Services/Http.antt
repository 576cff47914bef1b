-- ===== src/Bindings/Services/Http.antt =====
-- bindings/http/http.go. The package net/http is a parameter.
use components_contrib.Base.{String, ok}
use components_contrib.Base.Effect.{Eff, ignore, ◌>>=◌}
use components_contrib.State.Requests.{Bytes}
use components_contrib.Bindings.Messages.{Metadata, ReadResponse, WriteRequest, response}
use components_contrib.Base.Text.Json.{json_field}

pub record HttpMetadata : Type 0 where
  pub url : String
  pub method : String

-- `get` takes the URL, `post` the URL, the content type and the body; a status is no error. Both give
-- the body of the answer, which is read to its end or closed.
pub record Http (W : Type 0) : Type 0 where
  pub get : String → Eff W (Eff W Bytes × (W → W))
  pub post : String → String → Bytes → Eff W (W → W)

pub init : Metadata → HttpMetadata
init metadata = record {
  url = json_field metadata.properties "url";
  method = json_field metadata.properties "method";
}

module _ {W : Type 0} (http : Http W) where
  -- The body is left open when it cannot be read.
  pub get : String → Eff W Bytes
  get url = do resp ← http.get url; b ← resp.0; λ w. (ok b, resp.1 w)

  module _ (metadata : HttpMetadata) where
    -- One request; the handler's error is dropped.
    pub read : (ReadResponse → Eff W (Unit {0})) → Eff W (Unit {0})
    unfolding get
    read handler = do b ← get metadata.url; ignore (handler (response b))

    -- Always a POST, whatever the method.
    pub write : WriteRequest → Eff W (Unit {0})
    write req = do
      close ← http.post metadata.url "application/json; charset=utf-8" req.payload
      λ w. (ok tt, close w)
