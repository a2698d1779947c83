-- ===== src/Scraping/Warming.antt =====
-- engines/warmup.rs and engines/common.rs: the rates of a poll of an engine in its warmup.
use spark_dashboard.Prelude.{
  ℕ, ◌≡◌, refl, Bool, true, false, not, ◌||◌, Option, none, some, arith, keep_if, if◌then◌else◌,
}
use spark_dashboard.Float.{F64}
use spark_dashboard.Prometheus.{ParsedMetrics}
use spark_dashboard.Warmup.{WarmupTracker}
use spark_dashboard.Warmup
use spark_dashboard.Warmup.Phases.{is_warming, observe-Tells}
use spark_dashboard.Engine.Metrics.{EngineMetrics}
use spark_dashboard.Rates.{spec_live_acceptance_rate}
use spark_dashboard.Rates
use spark_dashboard.Scraping.{TokenRates, RateInputs, observe_rates, reset_rates}

-- The rates of the metrics are absent: the four of tokens, and the acceptance rate since the last poll.
abbrev pub HasNoRates : {F : Type 0} → EngineMetrics F → Type 0
HasNoRates m =
    ((m.tokens_per_sec ≡ none)
      × (m.avg_tokens_per_sec ≡ none)
      × (m.prompt_tokens_per_sec ≡ none)
      × (m.avg_prompt_tokens_per_sec ≡ none))
    × (m.spec_decode_acceptance_rate_live ≡ none)

-- The inputs are shown by a poll that is not in the warmup.
abbrev pub ShowsNoRates : {F : Type 0} → Bool → RateInputs F → Type 0
ShowsNoRates warming_up rates =
    (keep_if (not warming_up) rates.tokens_per_sec ≡ none)
    × (keep_if (not warming_up) rates.avg_tokens_per_sec ≡ none)
    × (keep_if (not warming_up) rates.prompt_tokens_per_sec ≡ none)
    × (keep_if (not warming_up) rates.avg_prompt_tokens_per_sec ≡ none)

pub keep_none : {A : Type 0} (o : Option A) → keep_if false o ≡ none
keep_none none = refl
keep_none (some a) = refl

pub keep_all : {A : Type 0} (o : Option A) → keep_if true o ≡ o
keep_all none = refl
keep_all (some a) = refl

module _ {F : Type 0} (f : F64 F) (seconds : ℕ → F) where
  fresh-observe :
      (current : Option F) (now : ℕ)
      → (Rates.observe f seconds (Rates.fresh f seconds) current now).0 ≡ (none, none)
  unfolding Rates.observe Rates.fresh
  fresh-observe none now = refl
  fresh-observe (some current) now = refl

  pub leaves_warmup :
      (t : WarmupTracker F) (raw : ParsedMetrics F)
      → is_warming t.state ≡ true
      → let out = Warmup.observe f t raw in (out.0.warming_up || out.0.just_transitioned) ≡ true
  leaves_warmup t raw h = let told = observe-Tells f t raw in ground arith

  blank_or_fresh :
      (warming_up just_transitioned : Bool) (rates : TokenRates F)
      (current_gen current_prompt : Option F) (now : ℕ)
      → (warming_up || just_transitioned) ≡ true
      → ShowsNoRates warming_up
          (observe_rates f seconds
            (reset_rates f seconds just_transitioned rates)
            current_gen
            current_prompt
            now).0
  unfolding observe_rates
  blank_or_fresh true ended rates gen prompt now h =
      (keep_none _, keep_none _, keep_none _, keep_none _)
  blank_or_fresh false true rates gen prompt now h =
      rw (fresh-observe gen now, fresh-observe prompt now) (refl, refl, refl, refl)
  blank_or_fresh false false rates gen prompt now h = cc

  -- Whatever a poll in the warmup makes of the tracker, it shows no rate.
  pub ShowsNoRates-warming :
      (t : WarmupTracker F) (raw : ParsedMetrics F) (rates : TokenRates F)
      (current_gen current_prompt : Option F) (now : ℕ)
      → is_warming t.state ≡ true
      → let out = Warmup.observe f t raw in
        ShowsNoRates out.0.warming_up
          (observe_rates f seconds
            (reset_rates f seconds out.0.just_transitioned rates)
            current_gen
            current_prompt
            now).0
  ShowsNoRates-warming t raw rates current_gen current_prompt now h =
      blank_or_fresh _ _ rates current_gen current_prompt now (leaves_warmup t raw h)

  -- The live acceptance rate is not shown either, in the warmup and across its end.
  pub live-warming :
      (warming_up just_transitioned : Bool) (prev pair : Option (F × F))
      → (warming_up || just_transitioned) ≡ true
      → keep_if
          (not warming_up)
          (spec_live_acceptance_rate f seconds (if just_transitioned then none else prev) pair)
        ≡ none
  unfolding spec_live_acceptance_rate
  live-warming true ended prev pair h = keep_none _
  live-warming false true prev pair h = refl
  live-warming false false prev pair h = cc
