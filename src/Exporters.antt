-- ===== src/Exporters.antt =====
-- exporters/: the trace exporters. The OpenCensus libraries are parameters.
use components_contrib.Base.{
  String, Bool, false, not, Option, none, some, if◌then◌else◌, nil_dereference, ok, panic,
}
use components_contrib.Base.Effect.{Eff, ◌>>=◌, pure}
use components_contrib.Base.Signed.{ℤ}
use components_contrib.Base.Text.{parse_bool}
use components_contrib.Base.Text.Decimal.{itoa}
use components_contrib.State.Requests.{Properties}
use components_contrib.Base.Text.Json.{json_field}

-- `R` are the references to texts, of which the pointer Buffer is one or nil.
pub record Metadata (R : Type 0) : Type 0 where
  pub properties : Properties
  pub buffer : Option R

-- The interface Exporter, over the world `W`: Init takes the id and the address of the host.
pub record Exporter (W R : Type 0) : Type 0 where
  pub init : String → String → Metadata R → Eff W (Unit {0})

-- `X` is an exporter of a library; `always_sample` sets the sampler.
pub record Trace (W X : Type 0) : Type 0 where
  pub register_exporter : X → W → W
  pub always_sample : W → W

pub record Settings : Type 0 where
  pub address : String
  pub enabled : String

-- `enabled, _ := strconv.ParseBool(…)`
abbrev pub is_enabled : Settings → Bool
is_enabled meta = elim (parse_bool meta.enabled) [ none ↦ false | some b ↦ b ]

module _ {R : Type 0} where
  -- `getNativeMetadata`
  pub get_native_metadata : Metadata R → Settings
  get_native_metadata metadata = record {
    address = json_field metadata.properties "agentEndpoint";
    enabled = json_field metadata.properties "enabled";
  }

  -- `getZipkinMetadata`
  pub get_zipkin_metadata : Metadata R → Settings
  get_zipkin_metadata metadata = record {
    address = json_field metadata.properties "exporterAddress";
    enabled = json_field metadata.properties "enabled";
  }

module _ {W X R : Type 0} (trace : Trace W X) (dapr_id : String) (host_address : String) where
  -- `Init` of exporters/native: `new_exporter` takes the name of the service and the address.
  pub init_native : (String → String → Eff W X) → Metadata R → Eff W (Unit {0})
  unfolding get_native_metadata
  init_native new_exporter metadata =
      let meta = get_native_metadata metadata in
      if not (is_enabled meta)
      then pure tt
      else new_exporter dapr_id meta.address >>= λ exporter w.
          (ok tt, trace.always_sample (trace.register_exporter exporter w))

  -- `Init` of exporters/zipkin: `E` is an endpoint, `new_exporter` takes the address of the reporter.
  pub init_zipkin :
      {E : Type 0} → (String → String → Eff W E) → (String → E → X) → Metadata R → Eff W (Unit {0})
  unfolding get_zipkin_metadata
  init_zipkin new_endpoint new_exporter metadata =
      let meta = get_zipkin_metadata metadata in
      if not (is_enabled meta)
      then pure tt
      else new_endpoint dapr_id host_address >>= λ local_endpoint w.
          let exporter = new_exporter meta.address local_endpoint in
          (ok tt, trace.always_sample (trace.register_exporter exporter w))

-- The struct Exporter of exporters/stringexporter.
pub record StringExporter (R : Type 0) : Type 0 where
  pub buffer : Option R

module _ {W R : Type 0} (assign : R → String → W → W) where
  -- The text of the status code replaces the buffer.
  pub export_span : StringExporter R → ℤ → Eff W (Unit {0})
  export_span se status_code w = elim se.buffer [
    | none ↦ (panic nil_dereference, w)
    | some r ↦ (ok tt, assign r (itoa status_code) w)
  ]

  pub init_string : Trace W (StringExporter R) → Metadata R → Eff W (StringExporter R)
  init_string trace metadata w =
      let se : StringExporter R = record { buffer = metadata.buffer } in
      (ok se, trace.register_exporter se (trace.always_sample w))
