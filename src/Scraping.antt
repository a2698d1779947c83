-- ===== src/Scraping.antt =====
-- What the adapters of vLLM and SGLang share: engines/common.rs, and the shapes in which both read a
-- scrape.
pub mod Warming
use mathlib.Core.Option
use spark_dashboard.Prelude.{
  ℕ, ◌^◌, String, Bool, ◌&&◌, Option, none, some, lookup, bind_some, or_default, string_eq,
  if◌then◌else◌,
}
use spark_dashboard.Text.{append, parse_uint}
use spark_dashboard.Float.{F64}
use spark_dashboard.Prometheus.{ParsedMetrics}
use spark_dashboard.Histogram.{Constants, mean_ms}
use spark_dashboard.Rates.{CounterRate}
use spark_dashboard.Rates

-- `warmup_skip_from_env`, of the value of `SPARK_WARMUP_SKIP_REQUESTS`
unfoldable pub warmup_skip_from_env : Option String → ℕ
warmup_skip_from_env variable = or_default 1 (bind_some variable (parse_uint (2 ^ 64)))

module _ {F : Type 0} where
  abbrev pub counter : ParsedMetrics F → String → Option F
  counter parsed name = lookup name parsed.counters

pub record RateInputs (F : Type 0) : Type 0 where
  pub tokens_per_sec : Option F
  pub prompt_tokens_per_sec : Option F
  pub avg_tokens_per_sec : Option F
  pub avg_prompt_tokens_per_sec : Option F

-- The token rates of an adapter: of generation and of prompts.
pub record TokenRates (F : Type 0) : Type 0 where
  pub gen_rate : CounterRate F
  pub prompt_rate : CounterRate F

module _ {F : Type 0} (f : F64 F) where
  -- The quotient of two counters, if the second one is above zero.
  abbrev pub per : Option F → Option F → Option F
  per (some a) (some b) = if f.lt f.zero b then some (f.div a b) else none
  per _ _ = none

  abbrev pub clamped : Option F → Option ℕ
  clamped value = Option.map (λ v. f.to_u64 (f.max v f.zero)) value

  abbrev pub cast : Option F → Option ℕ
  cast value = Option.map f.to_u64 value

  module _ (k : Constants f) where
    abbrev pub percent : Option F → Option F
    percent value = Option.map (λ v. f.mul v k.hundred) value

    abbrev pub mean_of_histogram : ParsedMetrics F → String → Option F
    mean_of_histogram parsed name =
        mean_ms f k (counter parsed (append name "_sum")) (counter parsed (append name "_count"))

  module _ (seconds : ℕ → F) where
    abbrev pub fresh_rates : TokenRates F
    fresh_rates = record { gen_rate = Rates.fresh f seconds; prompt_rate = Rates.fresh f seconds }

    -- The resets when the warmup has just ended.
    abbrev pub reset_rates : Bool → TokenRates F → TokenRates F
    reset_rates just_transitioned rates = if just_transitioned then fresh_rates else rates

    unfoldable pub observe_rates :
        TokenRates F → Option F → Option F → ℕ → RateInputs F × TokenRates F
    observe_rates rates current_gen current_prompt now =
        let gen = Rates.observe f seconds rates.gen_rate current_gen now in
        let prompt = Rates.observe f seconds rates.prompt_rate current_prompt now in
        (
          record {
            tokens_per_sec = gen.0.0;
            prompt_tokens_per_sec = prompt.0.0;
            avg_tokens_per_sec = gen.0.1;
            avg_prompt_tokens_per_sec = prompt.0.1;
          },
          record { gen_rate = gen.1; prompt_rate = prompt.1 },
        )
