-- ===== src/Start/Tracers.antt =====
-- The tracers of webapp/backend/internal/middleware/jaeger.go and tracing.go, which no other code
-- calls. Whether an exporter can be made is given.
use Prim.Native.String.{String}
use snake_42tokyo_tuning.Base.{
  ℕ, Bool, true, false, Option, none, some, List, ◌∷◌, if◌then◌else◌, Run, ok, err,
}
use snake_42tokyo_tuning.Base.Dict.{Dict}
use snake_42tokyo_tuning.Start.Environment.{getenv_or}

-- A provider: where its spans go, its resource, `none` for an attribute that is not set, and whether
-- every span is sampled by request.
pub record TracerProvider : Type 0 where
  pub endpoint : String
  pub service_name : String
  pub service_version : Option String
  pub environment : Option String
  pub always_samples : Bool

-- `InitJaegerTracer`: whether it succeeds, and the global provider.
unfoldable pub init_jaeger_tracer :
    Dict String → (makes : String → Bool) → Option TracerProvider → Bool × Option TracerProvider
init_jaeger_tracer vars makes provider =
    let otlp_endpoint = getenv_or vars "OTLP_ENDPOINT" "jaeger:4318" in
    if makes otlp_endpoint
    then (
      true,
      some (record {
        endpoint = otlp_endpoint;
        service_name = "backend";
        service_version = none;
        environment = none;
        always_samples = false;
      }),
    )
    else (false, provider)

-- `JaegerMiddleware`: the spans that have ended, the latest first, and a handler that works on a state
-- of its own.
unfoldable pub jaeger_middleware {ℓ κ} :
    {S : Type ℓ} {R : Type κ}
    → (path : String) → (next : S → R × S) → List String × S
    → R × (List String × S)
jaeger_middleware path next (spans, s) = ((next s).0, (path ∷ spans, (next s).1))

-- `InitTracing`; it ends the program with the status 1 if the exporter or the resource cannot be made.
unfoldable pub init_tracing :
    (collector_url : String)
    → (makes : String → Bool) → (has_resource : Bool) → Run ℕ TracerProvider
init_tracing collector_url makes has_resource =
    if makes collector_url
    then if has_resource
      then ok (record {
        endpoint = collector_url;
        service_name = "backend";
        service_version = some "0.1.0";
        environment = some "local";
        always_samples = true;
      })
      else err 1
    else err 1
