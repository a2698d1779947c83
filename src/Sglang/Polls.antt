-- ===== src/Sglang/Polls.antt =====
-- engines/sglang.rs: what the polls leave in the adapter and what they give.
use spark_dashboard.Prelude.{
  ℕ, String, ◌≡◌, refl, Bool, true, false, Option, some, List, inl, inr, or_default, sym, subst,
  Option-cases,
}
use spark_dashboard.Float.{F64}
use spark_dashboard.Json.{Json}
use spark_dashboard.Http.{Server, HttpResponse, is_success, Reply-cases}
use spark_dashboard.Prometheus.{ParsedMetrics, Sample}
use spark_dashboard.Histogram.{Constants}
use spark_dashboard.Warmup.Phases.{is_warming}
use spark_dashboard.Engine.Metrics.{EngineMetrics, reported_only}
use spark_dashboard.Scraping.{RateInputs}
use spark_dashboard.Scraping.Warming.{HasNoRates, ShowsNoRates-warming, keep_all}
use spark_dashboard.Sglang.Metrics.{engine_metrics}
use spark_dashboard.Sglang.Adapter.{
  SglangAdapter, metric_groups, metrics_off_signal, latch, observe_scrape, read_scrape,
  observe_body, get_metrics,
}

reported_only-engine_metrics :
    {F : Type 0} (f : F64 F) (k : Constants f) (parsed raw : ParsedMetrics F) (rates : RateInputs F)
    (warming_up : Bool) (drafter : Option Bool)
    → reported_only (engine_metrics f k parsed raw rates warming_up drafter) metric_groups
      ≡ engine_metrics f k parsed raw rates warming_up drafter
unfolding engine_metrics reported_only
reported_only-engine_metrics f k parsed raw rates warming_up drafter = simp keep_all

module _ (parse_json : String → Option Json) (to_lowercase : String → String) {F : Type 0}
    (f : F64 F) (seconds : ℕ → F) (k : Constants f)
    (scrape : String → Option (List (Sample F))) where
  -- The metrics are only of the groups that the adapter declares, and its metrics are then on.
  abbrev pub IsGiven : EngineMetrics F → SglangAdapter F → Type 0
  IsGiven m after = (reported_only m metric_groups ≡ m) × (after.metrics_off ≡ false)

  IsGiven-observe_scrape :
      (server : Server) (raw : ParsedMetrics F) (now asked at : ℕ) (a : SglangAdapter F)
      → a.metrics_off ≡ false
      → let out =
          observe_scrape parse_json to_lowercase f seconds k scrape server raw now asked at a in
        IsGiven out.0 out.1
  unfolding observe_scrape
  IsGiven-observe_scrape server raw now asked at a h =
      (reported_only-engine_metrics f k _ raw _ _ _, h)

  HasNoRates-observe_scrape :
      (server : Server) (raw : ParsedMetrics F) (now asked at : ℕ) (a : SglangAdapter F)
      → is_warming a.warmup.state ≡ true
      → HasNoRates
          (observe_scrape parse_json to_lowercase f seconds k scrape server raw now asked at a).0
  unfolding observe_scrape engine_metrics
  HasNoRates-observe_scrape server raw now asked at a h =
      (ShowsNoRates-warming f seconds a.warmup raw a.rates _ _ now h, refl)

  read_scrape-success :
      (success : Bool) (body : String) (raw : ParsedMetrics F)
      → read_scrape parse_json to_lowercase f seconds k scrape success body ≡ some raw
      → success ≡ true
  read_scrape-success true body raw h = refl
  read_scrape-success false body raw h = cc

  latch-on :
      (r : HttpResponse) (a : SglangAdapter F)
      → is_success r.status ≡ true
      → (latch parse_json to_lowercase f seconds k scrape r a).metrics_off ≡ false
  unfolding metrics_off_signal
  latch-on r a h = rw h refl

  -- Where a poll gives metrics, a success was read.
  Seen : Server → ℕ → ℕ → ℕ → SglangAdapter F → EngineMetrics F → Type 0
  Seen server now asked at a m =
      (r : HttpResponse) × (raw : ParsedMetrics F) × (is_success r.status ≡ true)
      × (get_metrics parse_json to_lowercase f seconds k scrape server now asked at a ≡ (
        some
            (observe_scrape parse_json to_lowercase f seconds k scrape server raw now asked at
              (latch parse_json to_lowercase f seconds k scrape r a)).0,
        (observe_scrape parse_json to_lowercase f seconds k scrape server raw now asked at
            (latch parse_json to_lowercase f seconds k scrape r a)).1,
      ))

  get_metrics-Seen :
      (server : Server) (now asked at : ℕ) (a : SglangAdapter F) (m : EngineMetrics F)
      → (get_metrics parse_json to_lowercase f seconds k scrape server now asked at a).0 ≡ some m
      → Seen server now asked at a m
  unfolding get_metrics Seen
  get_metrics-Seen server now asked at a m = elim (Reply-cases (server "/metrics")) [
    | inl (timeout, message, lost) ↦ rw (Seen, get_metrics, lost) (λ h. cc)
    | inr (r, got) ↦ elim (Option-cases r.body) [
      | inl unread ↦ rw (Seen, get_metrics, got) (rw (observe_body, unread) (λ h. cc))
      | inr (body, text) ↦
          elim (Option-cases
            (read_scrape parse_json to_lowercase f seconds k scrape (is_success r.status) body)) [
              | inl foreign ↦
                  rw (Seen, get_metrics, got) (rw (observe_body, text) (rw foreign (λ h. cc)))
              | inr (raw, read) ↦ λ h. (
                r,
                raw,
                read_scrape-success _ body raw read,
                rw (get_metrics, got) (rw (observe_body, text) (rw read refl)),
              )
            ]
    ]
  ]

  -- A poll that gives metrics gives only metrics of groups that the adapter declares, so that none is
  -- blanked, and the adapter then says that the metrics are on.
  pub get_metrics-IsGiven :
      (server : Server) (now asked at : ℕ) (a : SglangAdapter F) (m : EngineMetrics F)
      → (get_metrics parse_json to_lowercase f seconds k scrape server now asked at a).0 ≡ some m
      → IsGiven m (get_metrics parse_json to_lowercase f seconds k scrape server now asked at a).1
  unfolding Seen
  get_metrics-IsGiven server now asked at a m h =
      let (r, raw, success, seen) = get_metrics-Seen server now asked at a m h in
      subst
        (λ o.
          IsGiven (or_default m o)
            (get_metrics parse_json to_lowercase f seconds k scrape server now asked at a).1)
        h
        (subst (λ p. IsGiven (or_default m p.0) p.1) (sym seen)
          (IsGiven-observe_scrape server raw now asked at
            (latch parse_json to_lowercase f seconds k scrape r a) (latch-on r a success)))

  -- A poll of an SGLang engine that was in its warmup before it gives no rate, neither one over
  -- counters of the warmup nor one across its end.
  pub poll-HasNoRates :
      (server : Server) (now asked at : ℕ) (a : SglangAdapter F) (m : EngineMetrics F)
      → is_warming a.warmup.state ≡ true
      → (get_metrics parse_json to_lowercase f seconds k scrape server now asked at a).0 ≡ some m
      → HasNoRates m
  unfolding Seen
  poll-HasNoRates server now asked at a m warming h =
      let (r, raw, success, seen) = get_metrics-Seen server now asked at a m h in
      subst (λ o. HasNoRates (or_default m o)) h
        (subst (λ p. HasNoRates (or_default m p.0)) (sym seen)
          (HasNoRates-observe_scrape server raw now asked at
            (latch parse_json to_lowercase f seconds k scrape r a) warming))
