-- ===== src/Prometheus.antt =====
-- engines/prometheus.rs: the metrics of a scrape, by type, with the label series of a metric combined.
-- The samples of a scrape are what the crate `prometheus_parse` returns.
pub mod Series
pub mod Exposition
mod Tests
use mathlib.Core.List.{foldl}
use Prim.Native.String.{String}
use spark_dashboard.Prelude.{
  ℕ, Bool, true, false, ◌||◌, Option, none, some, List, [], ◌∷◌, ◌++◌, map, length, Assoc, lookup,
  upsert, map_entries, ◌==◌, string_eq, if◌then◌else◌,
}
use spark_dashboard.Text.{ends_with}
use spark_dashboard.Float.{F64}

pub record GaugeSeries (F : Type 0) : Type 0 where
  pub labels : Assoc String String
  pub value : F

-- A histogram is a list of pairs of an upper bound and a cumulative count.
abbrev pub Buckets : Type 0 → Type 0
Buckets F = List (F × F)

pub record ParsedMetrics (F : Type 0) : Type 0 where
  pub gauges : Assoc String (List (GaugeSeries F))
  pub counters : Assoc String F
  pub histograms : Assoc String (Buckets F)

-- `prometheus_parse::Value` and `Sample`; the quantiles of a summary are not read.
pub data Value (F : Type 0) : Type 0 where
  gauge : F → Value F
  counter : F → Value F
  histogram : Buckets F → Value F
  summary : Value F
  untyped : F → Value F

pub record Sample (F : Type 0) : Type 0 where
  pub metric : String
  pub labels : Assoc String String
  pub value : Value F

-- The names of untyped samples that are summed like counters.
pub is_counter_name : String → Bool
unfolding ends_with
is_counter_name name = ends_with name "_sum" || ends_with name "_count" || ends_with name "_total"

module _ {F : Type 0} where
  -- `.filter(|s| !s.is_empty())`
  abbrev pub not_empty : Option (List (GaugeSeries F)) → Option (List (GaugeSeries F))
  not_empty none = none
  not_empty (some []) = none
  not_empty (some (s ∷ series)) = some (s ∷ series)

module _ {F : Type 0} (f : F64 F) where
  -- `sum`, which for floats starts from -0.0; `zero` stands for it too.
  abbrev pub sum_values : List (GaugeSeries F) → F
  sum_values series = foldl f.add f.zero (map (λ g. g.value) series)

  pub gauge_sum : ParsedMetrics F → String → Option F
  gauge_sum parsed name = elim (not_empty (lookup name parsed.gauges)) [
    | none ↦ none
    | some series ↦ some (sum_values series)
  ]

  pub gauge_mean : ParsedMetrics F → String → Option F
  gauge_mean parsed name = elim (not_empty (lookup name parsed.gauges)) [
    | none ↦ none
    | some series ↦ some (f.div (sum_values series) (f.of_ℕ (length series)))
  ]

  abbrev pub push_gauge : Sample F → F → ParsedMetrics F → ParsedMetrics F
  push_gauge s v parsed = record parsed {
    gauges =
        upsert s.metric [] (λ series. series ++ record { labels = s.labels; value = v } ∷ [])
          parsed.gauges;
  }

  abbrev pub add_counter : Sample F → F → ParsedMetrics F → ParsedMetrics F
  add_counter s v parsed = record parsed {
    counters = upsert s.metric f.zero (λ total. f.add total v) parsed.counters;
  }

  -- One bucket of another label series: added to the bucket of its bound, or put at the end.
  pub merge_bucket : Buckets F → F × F → Buckets F
  merge_bucket [] b = b ∷ []
  merge_bucket ((le, count) ∷ merged) (bound, more) =
      let rest = merge_bucket merged (bound, more) in
      if f.eq le bound then (le, f.add count more) ∷ merged else (le, count) ∷ rest

  -- The body of the loop over the samples.
  unfoldable pub add_sample : ParsedMetrics F → Sample F → ParsedMetrics F
  unfolding merge_bucket is_counter_name
  add_sample parsed s = elim s.value [
    | gauge v ↦ push_gauge s v parsed
    | counter v ↦ add_counter s v parsed
    | histogram buckets ↦ record parsed {
      histograms =
          upsert s.metric [] (λ merged. foldl merge_bucket merged buckets) parsed.histograms;
    }
    | summary ↦ parsed
    | untyped v ↦ if is_counter_name s.metric then add_counter s v parsed else push_gauge s v parsed
  ]

  -- `sort_by` on the bounds, a stable sort in which bounds that are not comparable are equal.
  pub insert_bucket : F × F → Buckets F → Buckets F
  insert_bucket b [] = b ∷ []
  insert_bucket b (x ∷ buckets) =
      let rest = insert_bucket b buckets in if f.lt x.0 b.0 then x ∷ rest else b ∷ x ∷ buckets

  pub sort_buckets : Buckets F → Buckets F
  unfolding insert_bucket
  sort_buckets [] = []
  sort_buckets (b ∷ buckets) = insert_bucket b (sort_buckets buckets)

  unfoldable pub no_metrics : ParsedMetrics F
  no_metrics = record { gauges = []; counters = []; histograms = [] }

  -- `parse_prometheus_text`, from the samples on.
  unfoldable pub parse_samples : List (Sample F) → ParsedMetrics F
  unfolding add_sample sort_buckets no_metrics
  parse_samples samples =
      let added = foldl add_sample no_metrics samples in
      record added { histograms = map_entries (λ k. sort_buckets) added.histograms }
