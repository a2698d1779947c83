-- ===== src/LlamaCpp/Declared.antt =====
-- engines/llamacpp.rs: a scrape that gives metrics, and what the adapter declares after it.
use spark_dashboard.Prelude.{
  ℕ, String, ◌≡◌, refl, ap, ◌∙◌, subst, or_default, if◌then◌else◌, true, false, Option, none, some,
  List, inl, inr, string_eq, Option-cases, Bool-cases,
}
use spark_dashboard.Float.{F64}
use spark_dashboard.Json.{Json}
use spark_dashboard.Http.{Server, Reply-cases, body_of}
use spark_dashboard.Prometheus.{ParsedMetrics, Sample}
use spark_dashboard.Histogram.{Constants}
use spark_dashboard.Engine.Metrics.{EngineMetrics, reported_only}
use spark_dashboard.LlamaCpp.Answers.{
  MetricsAnswer, on, off, refused, needs_model, transient, is_on, latched, open_access,
  single_model, metrics_answer, Slots,
}
use spark_dashboard.LlamaCpp.Adapter.{
  LlamaCppAdapter, is_router, latch, learn_role, metrics_off, metrics_error, metric_groups,
  single_model_groups,
}
use spark_dashboard.LlamaCpp.Polls.{
  parse_llamacpp, observe_scrape, observe_answer, asked_slots, get_metrics,
}
use spark_dashboard.LlamaCpp.Groups.{reported_only-engine_metrics}
use spark_dashboard.LlamaCpp.Scrapes.{SameAccess-observe_scrape}

-- The adapter is one of a server with a model of its own, whose metrics can be read.
abbrev IsScraped : {F : Type 0} → LlamaCppAdapter F → Type 0
IsScraped a = (a.learned.role ≡ some single_model) × (a.metrics_access ≡ open_access)

IsScraped-latch :
    {F : Type 0} (answer : MetricsAnswer) (a : LlamaCppAdapter F)
    → is_on answer ≡ true
    → IsScraped (latch answer a)
unfolding latch latched learn_role
IsScraped-latch on a h = (refl, refl)
IsScraped-latch off a h = cc
IsScraped-latch refused a h = cc
IsScraped-latch needs_model a h = cc
IsScraped-latch transient a h = cc

-- All of the metrics are in the groups that the adapter declares, and it has no note on metrics.
abbrev pub IsDeclared : {F : Type 0} → EngineMetrics F → LlamaCppAdapter F → Type 0
IsDeclared m a =
    (reported_only m (metric_groups a) ≡ m) × (metrics_off a ≡ false) × (metrics_error a ≡ none)

IsScraped-groups :
    {F : Type 0} (a : LlamaCppAdapter F) → IsScraped a → metric_groups a ≡ single_model_groups
unfolding metric_groups
IsScraped-groups a (role, access) =
    ap (λ r group. if is_router r then false else single_model_groups group) role

IsDeclared-IsScraped :
    {F : Type 0} (m : EngineMetrics F) (a : LlamaCppAdapter F)
    → IsScraped a
    → reported_only m single_model_groups ≡ m
    → IsDeclared m a
unfolding metrics_off metrics_error
IsDeclared-IsScraped m a (role, access) h =
    rw (IsScraped-groups a (role, access)) (h, rw access refl, rw access refl)

module _ (parse_json : String → Option Json) {F : Type 0} (f : F64 F) (seconds : ℕ → F)
    (k : Constants f) (scrape : String → Option (List (Sample F))) where
  IsDeclared-observe_scrape :
      (raw : ParsedMetrics F) (slots : Option Slots) (now : ℕ) (a : LlamaCppAdapter F)
      → IsScraped a
      → let out = observe_scrape parse_json f seconds k scrape raw slots now a in
        IsDeclared out.0 out.1
  unfolding observe_scrape
  IsDeclared-observe_scrape raw slots now a (role, access) =
      let out = observe_scrape parse_json f seconds k scrape raw slots now a in
      let same = SameAccess-observe_scrape parse_json f seconds k scrape raw slots now a in
      IsDeclared-IsScraped out.0 out.1 (same.0 ∙ role, same.1 ∙ access)
        (reported_only-engine_metrics f seconds k _ raw _ _ _)

  IsDeclared-observe_answer :
      (server : Server) (answer : MetricsAnswer) (body : String) (now : ℕ) (a : LlamaCppAdapter F)
      (m : EngineMetrics F)
      → (is_on answer ≡ true → IsScraped a)
      → (observe_answer parse_json f seconds k scrape server answer body now a).0 ≡ some m
      → IsDeclared m (observe_answer parse_json f seconds k scrape server answer body now a).1
  IsDeclared-observe_answer server answer body now a m shown = elim (Bool-cases (is_on answer)) [
    | inr idle ↦ rw idle (λ h. cc)
    | inl scraped ↦ elim (Option-cases (parse_llamacpp parse_json f seconds k scrape body)) [
      | inl foreign ↦ rw scraped (rw foreign (λ h. cc))
      | inr (raw, read) ↦
          let slots = asked_slots parse_json f seconds k scrape server raw a in
          let out = observe_scrape parse_json f seconds k scrape raw slots now a in
          rw scraped (
            rw read (λ h.
              subst (λ x. IsDeclared x out.1) (ap (or_default m) h)
                (IsDeclared-observe_scrape raw slots now a (shown scraped))))
    ]
  ]

  -- A scrape that gives metrics gives only metrics of groups that the adapter declares after it, so
  -- that none is blanked, and the adapter then has no note that the metrics are off or refused.
  pub get_metrics-IsDeclared :
      (server : Server) (now : ℕ) (a : LlamaCppAdapter F) (m : EngineMetrics F)
      → (get_metrics parse_json f seconds k scrape server now a).0 ≡ some m
      → IsDeclared m (get_metrics parse_json f seconds k scrape server now a).1
  unfolding get_metrics
  get_metrics-IsDeclared server now a m = elim (Reply-cases (server "/metrics")) [
    | inl (timeout, message, lost) ↦ rw (get_metrics, lost) (λ h. cc)
    | inr (r, got) ↦
        let answer = metrics_answer r.status in
        rw (get_metrics, got)
          (IsDeclared-observe_answer server answer (body_of r) now (latch answer a) m
            (IsScraped-latch answer a))
  ]
