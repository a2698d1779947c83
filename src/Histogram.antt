-- ===== src/Histogram.antt =====
-- engines/histogram.rs: percentiles and goodput of a cumulative histogram.
pub mod Fraction
pub mod Percentile
mod Tests
use mathlib.Core.Option
use mathlib.Core.List.{reverse}
use spark_dashboard.Prelude.{
  ℕ, String, Bool, true, false, ◌&&◌, ◌||◌, not, Option, none, some, List, [], ◌∷◌, map, lookup,
  bind_some, find, string_eq, is_some, if◌then◌else◌,
}
use spark_dashboard.Float.{F64}
use spark_dashboard.Prometheus.{ParsedMetrics, Buckets}
use spark_dashboard.Engine.Metrics.{LatencyPercentiles, HistogramBucket}

module _ {F : Type 0} where
  -- `buckets.last().map(|(_, c)| *c)`
  pub total : Buckets F → Option F
  total [] = none
  total ((le, c) ∷ []) = some c
  total (x ∷ y ∷ buckets) = total (y ∷ buckets)

module _ {F : Type 0} (f : F64 F) where
  -- `(0.0..=1.0).contains(&q)`
  abbrev pub in_unit : F → Bool
  in_unit q = f.le f.zero q && f.le q f.one

  -- `f64::clamp(0.0, 1.0)`
  pub clamp : F → F
  clamp x = if f.lt x f.zero then f.zero else if f.lt f.one x then f.one else x

  -- The value inside the chosen bucket `(le, cum)`, from the bucket before it.
  pub interpolate : F → F × F → F × F → F
  interpolate target (lower_le, lower_cum) (le, cum) =
      let width = f.sub le lower_le in
      let count = f.sub cum lower_cum in
      if f.le count f.zero || f.le width f.zero
      then le
      else f.add lower_le (f.mul (f.div (f.sub target lower_cum) count) width)

  abbrev pub lower_of : Buckets F → F × F
  lower_of [] = (f.zero, f.zero)
  lower_of (x ∷ rest) = x

  -- The search for the first bucket whose count reaches the target, and what is made of it. The
  -- buckets that the search has passed are in `before`, the last one first.
  pub select : F → Buckets F → Buckets F → Option F
  unfolding interpolate
  select target before [] = none
  select target before ((le, cum) ∷ buckets) =
      if f.le target cum
      then (if f.is_infinite le
          then Option.map (λ x. x.0) (find (λ x. not (f.is_infinite x.0)) before)
          else some (interpolate target (lower_of before) (le, cum)))
      else select target ((le, cum) ∷ before) buckets

  -- With the total count of the histogram, if it has a bucket.
  percentile_with : Buckets F → F → Option F → Option F
  percentile_with buckets q none = none
  percentile_with buckets q (some count) =
      if in_unit q && not (f.le count f.zero) then select (f.mul count q) [] buckets else none

  pub percentile : Buckets F → F → Option F
  unfolding total select percentile_with
  percentile buckets q = percentile_with buckets q (total buckets)

  -- The walk of `fraction_le`, with the bound and the count of the bucket before.
  pub walk : F → F → F → F → Buckets F → F
  unfolding clamp
  walk count threshold prev_le prev_cum [] = f.one
  walk count threshold prev_le prev_cum ((le, cum) ∷ buckets) =
      if f.is_infinite le
      then clamp (f.div prev_cum count)
      else if f.le threshold le
      then (let width = f.sub le prev_le in
          let inside = f.sub cum prev_cum in
          if f.le width f.zero || f.le inside f.zero
          then clamp (f.div prev_cum count)
          else clamp
              (f.div (f.add prev_cum (f.mul (f.div (f.sub threshold prev_le) width) inside)) count))
      else walk count threshold le cum buckets

  fraction_of : F → F → Buckets F → Option F
  unfolding walk
  fraction_of count threshold [] = none
  fraction_of count threshold ((le, cum) ∷ buckets) =
      if f.le threshold le && not (f.is_infinite le)
      then (if f.le le f.zero
          then some f.zero
          else some (clamp (f.div (f.mul cum (clamp (f.div threshold le))) count)))
      else some (walk count threshold f.zero f.zero ((le, cum) ∷ buckets))

  -- With the total count of the histogram, if it has a bucket.
  fraction_with : Buckets F → F → Option F → Option F
  unfolding fraction_of
  fraction_with buckets threshold none = none
  fraction_with buckets threshold (some count) =
      if f.is_nan threshold || f.le count f.zero then none else fraction_of count threshold buckets

  pub fraction_le : Buckets F → F → Option F
  unfolding total fraction_with
  fraction_le buckets threshold = fraction_with buckets threshold (total buckets)

  -- The constants of the source, as floats.
  pub record Constants : Type 0 where
    pub p50 : F
    pub p95 : F
    pub p99 : F
    pub hundred : F
    pub thousand : F

  module _ (k : Constants) where
    to_ms : Buckets F → F → Option F
    to_ms buckets q = Option.map (λ s. f.mul s k.thousand) (percentile buckets q)

    pub percentiles_of : Buckets F → Option (LatencyPercentiles F)
    unfolding to_ms
    percentiles_of buckets =
        let p50 = to_ms buckets k.p50 in
        let p95 = to_ms buckets k.p95 in
        let p99 = to_ms buckets k.p99 in
        if is_some p50 || is_some p95 || is_some p99
        then some (record { p50_ms = p50; p95_ms = p95; p99_ms = p99 })
        else none

    pub percentiles_ms : ParsedMetrics F → String → Option (LatencyPercentiles F)
    percentiles_ms parsed metric = bind_some (lookup metric parsed.histograms) percentiles_of

    pub goodput_pct : ParsedMetrics F → String → F → Option F
    goodput_pct parsed metric slo_ms = bind_some (lookup metric parsed.histograms) (λ buckets.
        Option.map (λ x. f.mul x k.hundred) (fraction_le buckets (f.div slo_ms k.thousand)))

    pub mean_ms : Option F → Option F → Option F
    mean_ms (some s) (some c) = if f.lt f.zero c then some (f.mul (f.div s c) k.thousand) else none
    mean_ms _ _ = none

  is_finite : F → Bool
  is_finite x = not (f.is_nan x) && not (f.is_infinite x)

  to_wire : F × F → HistogramBucket F
  unfolding is_finite
  to_wire (le, cum) = record {
    le_seconds = if is_finite le then le else f.greatest;
    cumulative_count = cum;
  }

  wire : Buckets F → Option (List (HistogramBucket F))
  unfolding to_wire
  wire [] = none
  wire (x ∷ buckets) = some (map to_wire (x ∷ buckets))

  pub wire_buckets : ParsedMetrics F → String → Option (List (HistogramBucket F))
  unfolding wire
  wire_buckets parsed metric = bind_some (lookup metric parsed.histograms) wire
