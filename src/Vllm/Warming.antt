-- ===== src/Vllm/Warming.antt =====
-- engines/vllm.rs: the rates of a poll of an engine in its warmup.
use spark_dashboard.Prelude.{
  ℕ, String, ◌≡◌, true, Option, some, List, inl, inr, bind_some, or_default, ap, subst,
  Option-cases,
}
use spark_dashboard.Float.{F64}
use spark_dashboard.Http.{Server, Reply-cases}
use spark_dashboard.Prometheus.{ParsedMetrics, Sample}
use spark_dashboard.Prometheus.Exposition.{parse_prometheus_text}
use spark_dashboard.Histogram.{Constants}
use spark_dashboard.Warmup.Phases.{is_warming}
use spark_dashboard.Engine.Metrics.{EngineMetrics}
use spark_dashboard.Scraping.Warming.{HasNoRates, ShowsNoRates-warming, live-warming, leaves_warmup}
use spark_dashboard.Vllm.Metrics.{engine_metrics}
use spark_dashboard.Vllm.Adapter.{VllmAdapter, observe_scrape, get_metrics}

module _ {F : Type 0} (f : F64 F) (seconds : ℕ → F) (k : Constants f)
    (scrape : String → Option (List (Sample F))) where
  HasNoRates-observe_scrape :
      (raw : ParsedMetrics F) (now : ℕ) (a : VllmAdapter F)
      → is_warming a.warmup.state ≡ true
      → HasNoRates (observe_scrape f seconds k scrape raw now a).0
  unfolding observe_scrape engine_metrics
  HasNoRates-observe_scrape raw now a h = (
    ShowsNoRates-warming f seconds a.warmup raw a.rates _ _ now h,
    live-warming f seconds _ _ a.prev_spec_decode _ (leaves_warmup f seconds a.warmup raw h),
  )

  -- A poll of a vLLM engine that was in its warmup before it gives no rate of tokens and no live
  -- acceptance rate of speculative decoding, neither one over counters of the warmup nor one across its
  -- end.
  pub get_metrics-HasNoRates :
      (server : Server) (now : ℕ) (a : VllmAdapter F) (m : EngineMetrics F)
      → is_warming a.warmup.state ≡ true
      → (get_metrics f seconds k scrape server now a).0 ≡ some m
      → HasNoRates m
  unfolding get_metrics
  get_metrics-HasNoRates server now a m warming = elim (Reply-cases (server "/metrics")) [
    | inl (timeout, message, lost) ↦ rw (get_metrics, lost) (λ h. cc)
    | inr (r, got) ↦ elim (Option-cases (bind_some r.body (parse_prometheus_text f scrape))) [
      | inl foreign ↦ rw (get_metrics, got) (rw foreign (λ h. cc))
      | inr (raw, read) ↦
          rw (get_metrics, got)
            (rw read (λ h.
              subst HasNoRates (ap (or_default m) h) (HasNoRates-observe_scrape raw now a warming)))
    ]
  ]
