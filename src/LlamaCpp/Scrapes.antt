-- ===== src/LlamaCpp/Scrapes.antt =====
-- engines/llamacpp.rs: what the scrapes leave in the adapter.
use spark_dashboard.Prelude.{
  ℕ, String, ◌≡◌, refl, Bool, true, false, ◌&&◌, Option, none, some, List, inl, inr, arith,
  string_eq, Option-cases, Bool-cases,
}
use spark_dashboard.Float.{F64}
use spark_dashboard.Json.{Json}
use spark_dashboard.Http.{Server, answered, Reply-cases, HttpResponse, body_of}
use spark_dashboard.Prometheus.{ParsedMetrics, Sample}
use spark_dashboard.Histogram.{Constants}
use spark_dashboard.Warmup
use spark_dashboard.LlamaCpp.Answers.{
  MetricsAnswer, on, off, refused, needs_model, transient, is_on, latched, MetricsAccess,
  open_access, off_access, refused_access, is_off_access, open_to_router, Role, single_model,
  router, metrics_answer, Slots,
}
use spark_dashboard.LlamaCpp.Adapter.{LlamaCppAdapter, is_router, latch, learn_role, metrics_off}
use spark_dashboard.LlamaCpp.Polls.{
  parse_llamacpp, observe_scrape, observe_answer, asked_slots, get_metrics, restarted,
  learn_drafter,
}

router_open :
    (access : MetricsAccess) (role : Option Role)
    → (is_router role && is_off_access (open_to_router access role)) ≡ false
router_open off_access none = refl
router_open off_access (some router) = refl
router_open off_access (some single_model) = refl
router_open open_access role = ground arith
router_open refused_access role = ground arith

module _ {F : Type 0} where
  -- A known router is not off.
  abbrev pub IsOpen : LlamaCppAdapter F → Type 0
  IsOpen a = (is_router a.learned.role && metrics_off a) ≡ false

  IsOpen-latch : (answer : MetricsAnswer) (a : LlamaCppAdapter F) → IsOpen (latch answer a)
  unfolding latch latched learn_role metrics_off
  IsOpen-latch on a = refl
  IsOpen-latch needs_model a = refl
  IsOpen-latch off a = router_open off_access a.learned.role
  IsOpen-latch refused a = router_open refused_access a.learned.role
  IsOpen-latch transient a = router_open a.metrics_access a.learned.role

-- What the requests of a scrape leave alone: the role and the access.
abbrev pub SameAccess : {F : Type 0} → LlamaCppAdapter F → LlamaCppAdapter F → Type 0
SameAccess a b = (b.learned.role ≡ a.learned.role) × (b.metrics_access ≡ a.metrics_access)

-- The rates, the warmup and the counters of the last scrape are as they were.
abbrev pub SameReadings : {F : Type 0} → LlamaCppAdapter F → LlamaCppAdapter F → Type 0
SameReadings a b =
    (b.gen_rate ≡ a.gen_rate)
    × (b.prompt_rate ≡ a.prompt_rate)
    × (b.warmup ≡ a.warmup)
    × (b.generated ≡ a.generated)
    × (b.prev_spec ≡ a.prev_spec)

SameReadings-latch :
    {F : Type 0} (answer : MetricsAnswer) (a : LlamaCppAdapter F) → SameReadings a (latch answer a)
unfolding latch learn_role
SameReadings-latch on a = (refl, refl, refl, refl, refl)
SameReadings-latch needs_model a = (refl, refl, refl, refl, refl)
SameReadings-latch off a = (refl, refl, refl, refl, refl)
SameReadings-latch refused a = (refl, refl, refl, refl, refl)
SameReadings-latch transient a = (refl, refl, refl, refl, refl)

module _ (parse_json : String → Option Json) {F : Type 0} (f : F64 F) (seconds : ℕ → F)
    (k : Constants f) (scrape : String → Option (List (Sample F))) where
  SameAccess-prepared :
      (restart : Bool) (slots : Option Slots) (a : LlamaCppAdapter F)
      → SameAccess a (
          learn_drafter parse_json f seconds k scrape slots
            (restarted parse_json f seconds k scrape restart a))
  SameAccess-prepared true none a = (refl, refl)
  SameAccess-prepared true (some slots) a = (refl, refl)
  SameAccess-prepared false none a = (refl, refl)
  SameAccess-prepared false (some slots) a = (refl, refl)

  pub SameAccess-observe_scrape :
      (raw : ParsedMetrics F) (slots : Option Slots) (now : ℕ) (a : LlamaCppAdapter F)
      → SameAccess a (observe_scrape parse_json f seconds k scrape raw slots now a).1
  unfolding observe_scrape
  SameAccess-observe_scrape raw slots now a =
      let out = Warmup.observe f a.warmup raw in
      SameAccess-prepared out.0.just_transitioned slots (record a { warmup = out.1 })

  SameAccess-observe_answer :
      (server : Server) (answer : MetricsAnswer) (body : String) (now : ℕ) (a : LlamaCppAdapter F)
      → SameAccess a (observe_answer parse_json f seconds k scrape server answer body now a).1
  SameAccess-observe_answer server answer body now a = elim (Bool-cases (is_on answer)) [
    | inr idle ↦ rw idle (refl, refl)
    | inl scraped ↦ elim (Option-cases (parse_llamacpp parse_json f seconds k scrape body)) [
      | inl foreign ↦ rw (SameAccess, scraped) (rw (SameAccess, foreign) (refl, refl))
      | inr (raw, read) ↦
          rw (SameAccess, scraped)
            (rw (SameAccess, read)
              (SameAccess-observe_scrape raw
                (asked_slots parse_json f seconds k scrape server raw a) now a))
    ]
  ]

  -- A server known as a router is not shown with its metrics off after any answer to a scrape.
  pub get_metrics-IsOpen :
      (server : Server) (now : ℕ) (a : LlamaCppAdapter F) (r : HttpResponse)
      → server "/metrics" ≡ answered r
      → IsOpen (get_metrics parse_json f seconds k scrape server now a).1
  unfolding get_metrics metrics_off
  get_metrics-IsOpen server now a r h =
      let answer = metrics_answer r.status in
      let same = SameAccess-observe_answer server answer (body_of r) now (latch answer a) in
      rw (IsOpen, get_metrics, h) (ground (arith, same, IsOpen-latch answer a))

  observe_answer-quiet :
      (server : Server) (answer : MetricsAnswer) (body : String) (now : ℕ) (a : LlamaCppAdapter F)
      → (observe_answer parse_json f seconds k scrape server answer body now a).0 ≡ none
      → (observe_answer parse_json f seconds k scrape server answer body now a).1 ≡ a
  observe_answer-quiet server answer body now a = elim (Bool-cases (is_on answer)) [
    | inr idle ↦ rw idle (λ h. refl)
    | inl scraped ↦ elim (Option-cases (parse_llamacpp parse_json f seconds k scrape body)) [
      | inl foreign ↦ rw scraped (rw foreign (λ h. refl))
      | inr (raw, read) ↦ rw scraped (rw read (λ h. cc))
    ]
  ]

  -- A scrape that gives no metrics, be it unanswered, refused or a foreign one, leaves the rates, the
  -- warmup and the counters of the last scrape as they were.
  pub get_metrics-quiet :
      (server : Server) (now : ℕ) (a : LlamaCppAdapter F)
      → (get_metrics parse_json f seconds k scrape server now a).0 ≡ none
      → SameReadings a (get_metrics parse_json f seconds k scrape server now a).1
  unfolding get_metrics
  get_metrics-quiet server now a = elim (Reply-cases (server "/metrics")) [
    | inl (timeout, message, lost) ↦
        rw (SameReadings, get_metrics, lost) (λ h. (refl, refl, refl, refl, refl))
    | inr (r, got) ↦
        let answer = metrics_answer r.status in
        rw (SameReadings, get_metrics, got)
          (λ h.
            rw (observe_answer-quiet server answer (body_of r) now (latch answer a) h)
              (SameReadings-latch answer a))
  ]
