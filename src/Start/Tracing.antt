-- ===== src/Start/Tracing.antt =====
-- Where `Init` of webapp/backend/internal/telemetry/telemetry.go sends the spans.
use Prim.Native.String.{String}
use text.Mathlib.Text.{◌==◌ as str_eq}
use text.Mathlib.TextEquality.{eq_iff}
use snake_42tokyo_tuning.Base.{true, false, not, ◌||◌, ◌≡◌, ◌≢◌, refl, some, inl, inr, Bool-cases}
use snake_42tokyo_tuning.Base.Dict.{Dict}
use snake_42tokyo_tuning.Start.Environment.{getenv, equal_fold}
use snake_42tokyo_tuning.Start.Telemetry.{
  Library, Otel, Exporter, jaeger, otlp, noop, tracing, enabled, sampler_from_env,
  resource_from_env, wanted_exporter, exporter, install, init,
}

abbrev pub trace_enabled : Dict String → String
trace_enabled vars = getenv vars "TRACE_ENABLED"

abbrev pub jaeger_endpoint : Dict String → String
jaeger_endpoint vars = getenv vars "JAEGER_ENDPOINT"

abbrev pub otlp_endpoint : Dict String → String
otlp_endpoint vars = getenv vars "OTEL_EXPORTER_OTLP_ENDPOINT"

module _ {Float : Type 0} (library : Library Float) (vars : Dict String) (o : Otel Float) where
  -- The provider that traces to an exporter.
  abbrev pub traced : Exporter → Otel Float
  traced e = record {
    provider = some (tracing e (sampler_from_env library vars) (resource_from_env vars));
    propagates = true;
  }

  abbrev pub silent : Otel Float
  silent = record { provider = some noop; propagates = true }

  abbrev pub given_up : Otel Float
  given_up = record o { provider = some noop }

  pub data Traced : Otel Float → Type 0 where
    switched_off : equal_fold (trace_enabled vars) "false" ≡ true → Traced silent
    not_wanted :
        equal_fold (trace_enabled vars) "true" ≡ false
        → jaeger_endpoint vars ≡ ""
        → otlp_endpoint vars ≡ ""
        → Traced silent
    no_endpoint :
        equal_fold (trace_enabled vars) "true" ≡ true
        → jaeger_endpoint vars ≡ ""
        → otlp_endpoint vars ≡ ""
        → Traced given_up
    to_jaeger :
        equal_fold (trace_enabled vars) "false" ≡ false
        → jaeger_endpoint vars ≢ ""
        → library.makes (jaeger (jaeger_endpoint vars)) ≡ true
        → Traced (traced (jaeger (jaeger_endpoint vars)))
    no_jaeger :
        equal_fold (trace_enabled vars) "false" ≡ false
        → jaeger_endpoint vars ≢ ""
        → library.makes (jaeger (jaeger_endpoint vars)) ≡ false
        → Traced given_up
    to_otlp :
        equal_fold (trace_enabled vars) "false" ≡ false
        → jaeger_endpoint vars ≡ ""
        → otlp_endpoint vars ≢ ""
        → library.makes (otlp (otlp_endpoint vars)) ≡ true
        → Traced (traced (otlp (otlp_endpoint vars)))
    no_otlp :
        equal_fold (trace_enabled vars) "false" ≡ false
        → jaeger_endpoint vars ≡ ""
        → otlp_endpoint vars ≢ ""
        → library.makes (otlp (otlp_endpoint vars)) ≡ false
        → Traced given_up

  filled : (s : String) → str_eq s "" ≡ false → s ≢ ""
  filled s h e = absurd (cc ((eq_iff s "").1 e))

  jaeger-Traced :
      equal_fold (trace_enabled vars) "false" ≡ false
      → str_eq (jaeger_endpoint vars) "" ≡ false
      → enabled vars ≡ true
      → Traced (init library vars o)
  unfolding init exporter wanted_exporter install
  jaeger-Traced on j e = elim (Bool-cases (library.makes (jaeger (jaeger_endpoint vars)))) [
    | inl made ↦ rw (init, e, exporter, wanted_exporter, j, made) (to_jaeger on (filled _ j) made)
    | inr failed ↦
        rw (init, e, exporter, wanted_exporter, j, failed) (no_jaeger on (filled _ j) failed)
  ]

  otlp-Traced :
      equal_fold (trace_enabled vars) "false" ≡ false
      → str_eq (jaeger_endpoint vars) "" ≡ true
      → str_eq (otlp_endpoint vars) "" ≡ false
      → enabled vars ≡ true
      → Traced (init library vars o)
  unfolding init exporter wanted_exporter install
  otlp-Traced on j t e = elim (Bool-cases (library.makes (otlp (otlp_endpoint vars)))) [
    | inl made ↦
        rw (init, e, exporter, wanted_exporter, j, t, made)
          (to_otlp on ((eq_iff _ "").0 j) (filled _ t) made)
    | inr failed ↦
        rw (init, e, exporter, wanted_exporter, j, t, failed)
          (no_otlp on ((eq_iff _ "").0 j) (filled _ t) failed)
  ]

  bare-Traced :
      equal_fold (trace_enabled vars) "false" ≡ false
      → str_eq (jaeger_endpoint vars) "" ≡ true
      → str_eq (otlp_endpoint vars) "" ≡ true
      → Traced (init library vars o)
  unfolding init enabled exporter wanted_exporter install
  bare-Traced on j t = elim (Bool-cases (equal_fold (trace_enabled vars) "true")) [
    | inl asked ↦
        rw (init, enabled, on, asked, exporter, wanted_exporter, j, t)
          (no_endpoint asked ((eq_iff _ "").0 j) ((eq_iff _ "").0 t))
    | inr unasked ↦
        rw (init, enabled, on, unasked, j, t)
          (not_wanted unasked ((eq_iff _ "").0 j) ((eq_iff _ "").0 t))
  ]

  enabled_lem :
      equal_fold (trace_enabled vars) "false" ≡ false
      → (not (str_eq (jaeger_endpoint vars) "") || not (str_eq (otlp_endpoint vars) "")) ≡ true
      → enabled vars ≡ true
  unfolding enabled
  enabled_lem on h = elim (Bool-cases (equal_fold (trace_enabled vars) "true")) [
    | inl asked ↦ rw (enabled, on, asked) refl
    | inr silent ↦ rw (enabled, on, silent) h
  ]

  -- `Init` traces to Jaeger where JAEGER_ENDPOINT is set, and to the other collector where only
  -- OTEL_EXPORTER_OTLP_ENDPOINT is set, with the sampler and the resource of the environment, unless
  -- TRACE_ENABLED is a spelling of false or the exporter cannot be made. In every other case the spans
  -- go nowhere. The propagator is set when tracing is on, and when it is not enabled; it stays as it was
  -- when tracing is enabled and no exporter is there.
  pub init-Traced : Traced (init library vars o)
  unfolding init enabled
  init-Traced = elim (Bool-cases (equal_fold (trace_enabled vars) "false")) [
    | inl off ↦ rw (init, enabled, off) (switched_off off)
    | inr on ↦ elim (Bool-cases (str_eq (jaeger_endpoint vars) "")) [
      | inr j ↦ jaeger-Traced on j (enabled_lem on (rw j refl))
      | inl j ↦ elim (Bool-cases (str_eq (otlp_endpoint vars) "")) [
        | inr t ↦ otlp-Traced on j t (enabled_lem on (rw (j, t) refl))
        | inl t ↦ bare-Traced on j t
      ]
    ]
  ]
