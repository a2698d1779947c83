-- ===== src/LlamaCpp/Groups.antt =====
-- engines/llamacpp.rs: the metrics of a scrape and the groups that the adapter declares.
use spark_dashboard.Prelude.{ℕ, ◌≡◌, refl, Bool, true, Option, none, some, keep_if}
use spark_dashboard.Float.{F64}
use spark_dashboard.Prometheus.{ParsedMetrics}
use spark_dashboard.Histogram.{Constants}
use spark_dashboard.Engine.Metrics.{reported_only}
use spark_dashboard.LlamaCpp.Metrics.{RateInputs, SpecInputs, engine_metrics}
use spark_dashboard.LlamaCpp.Adapter.{single_model_groups}

keep_all : {A : Type 0} (o : Option A) → keep_if true o ≡ o
keep_all none = refl
keep_all (some a) = refl

module _ {F : Type 0} (f : F64 F) (seconds : ℕ → F) (k : Constants f) where
  -- The adapter declares every group that it fills: restricted to the groups that a server with a model
  -- of its own declares, the metrics of a scrape are all there.
  pub reported_only-engine_metrics :
      (parsed raw : ParsedMetrics F) (rates : RateInputs F) (warming_up : Bool)
      (spec : SpecInputs F)
      → reported_only
          (engine_metrics f seconds k parsed raw rates warming_up spec)
          single_model_groups
        ≡ engine_metrics f seconds k parsed raw rates warming_up spec
  unfolding engine_metrics reported_only
  reported_only-engine_metrics parsed raw rates warming_up spec = simp keep_all
