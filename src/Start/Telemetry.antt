-- ===== src/Start/Telemetry.antt =====
-- webapp/backend/internal/telemetry/telemetry.go and sql.go. Whether the libraries can make an exporter
-- or register a driver is given.
use Prim.Native.String.{String}
use text.Mathlib.Text.{◌==◌ as str_eq}
use snake_42tokyo_tuning.Base.{Bool, true, false, not, ◌||◌, Option, none, some, if◌then◌else◌}
use snake_42tokyo_tuning.Base.Dict.{Dict}
use snake_42tokyo_tuning.Start.Environment.{getenv, getenv_or, equal_fold}

-- A sampler; a ratio stands for `ParentBased(TraceIDRatioBased(ratio))`.
pub data Sampler (Float : Type 0) : Type 0 where
  ratio : Float → Sampler Float
  never : Sampler Float
  always : Sampler Float

-- Where the spans go.
pub data Exporter : Type 0 where
  jaeger : (endpoint : String) → Exporter
  otlp : (endpoint : String) → Exporter

pub record Resource : Type 0 where
  pub service_name : String
  pub environment : String

-- The tracer provider that `otel.SetTracerProvider` has been given.
pub data Provider (Float : Type 0) : Type 0 where
  noop : Provider Float
  tracing : Exporter → Sampler Float → Resource → Provider Float

-- The global state of the library: the provider, and whether the propagator of the source is set.
pub record Otel (Float : Type 0) : Type 0 where
  pub provider : Option (Provider Float)
  pub propagates : Bool

-- The libraries: `ParseFloat`, `ToLower`, the number 0.01, whether an exporter can be made, and the
-- name under which a driver is registered.
pub record Library (Float : Type 0) : Type 0 where
  pub parse_float : String → Option Float
  pub lower : String → String
  pub hundredth : Float
  pub makes : Exporter → Bool
  pub register : String → Option String

unfoldable pub enabled : Dict String → Bool
unfolding equal_fold getenv
enabled vars =
    if equal_fold (getenv vars "TRACE_ENABLED") "false"
    then false
    else if equal_fold (getenv vars "TRACE_ENABLED") "true"
    then true
    else not (str_eq (getenv vars "JAEGER_ENDPOINT") "")
      || not (str_eq (getenv vars "OTEL_EXPORTER_OTLP_ENDPOINT") "")

unfoldable pub resource_from_env : Dict String → Resource
unfolding getenv_or
resource_from_env vars = record {
  service_name = getenv_or vars "SERVICE_NAME" "backend";
  environment = getenv_or vars "ENV" (getenv_or vars "GO_ENV" "local");
}

module _ {Float : Type 0} (library : Library Float) where
  -- The switch over OTEL_TRACES_SAMPLER.
  unfoldable pub named_sampler : Dict String → Sampler Float
  named_sampler vars =
      let name = library.lower (getenv vars "OTEL_TRACES_SAMPLER") in
      if str_eq name "always_off"
      then never
      else if str_eq name "always_on"
      then always
      else ratio library.hundredth

  unfoldable pub sampler_from_env : Dict String → Sampler Float
  unfolding named_sampler
  sampler_from_env vars =
      if str_eq (getenv vars "TRACE_SAMPLE_RATIO") ""
      then named_sampler vars
      else elim (library.parse_float (getenv vars "TRACE_SAMPLE_RATIO")) [
        | none ↦ named_sampler vars
        | some v ↦ ratio v
      ]

  -- The exporter that is asked for.
  unfoldable pub wanted_exporter : Dict String → Option Exporter
  wanted_exporter vars =
      if not (str_eq (getenv vars "JAEGER_ENDPOINT") "")
      then some (jaeger (getenv vars "JAEGER_ENDPOINT"))
      else if not (str_eq (getenv vars "OTEL_EXPORTER_OTLP_ENDPOINT") "")
      then some (otlp (getenv vars "OTEL_EXPORTER_OTLP_ENDPOINT"))
      else none

  -- `exp`, which is nil after an error.
  unfoldable pub exporter : Dict String → Option Exporter
  unfolding wanted_exporter
  exporter vars = elim (wanted_exporter vars) [
    | none ↦ none
    | some e ↦ if library.makes e then some e else none
  ]

  -- What stands after the exporter has been made, or has not.
  unfoldable pub install : Dict String → Option Exporter → Otel Float → Otel Float
  unfolding sampler_from_env resource_from_env
  install vars none o = record o { provider = some noop }
  install vars (some e) o = record {
    provider = some (tracing e (sampler_from_env vars) (resource_from_env vars));
    propagates = true;
  }

  -- `Init`; its error is always nil.
  unfoldable pub init : Dict String → Otel Float → Otel Float
  unfolding enabled install exporter
  init vars o =
      if enabled vars
      then install vars (exporter vars) o
      else record { provider = some noop; propagates = true }

  -- `WrapSQLDriver`
  unfoldable pub wrap_sql_driver : Dict String → (base_driver : String) → String
  unfolding enabled
  wrap_sql_driver vars base_driver =
      if enabled vars
      then elim (library.register base_driver) [ none ↦ base_driver | some name ↦ name ]
      else base_driver
