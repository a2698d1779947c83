-- ===== src/Prometheus/Series.antt =====
-- engines/prometheus.rs: no label series of a counter or a gauge is lost.
use mathlib.Core.List.{foldl}
use spark_dashboard.Prelude.{
  String, ◌≡◌, ◌∙◌, ap, Assoc, refl, Option, none, some, List, [], ◌∷◌, ◌++◌, lookup, lookup-upsert,
  or_default, ◌==◌, string_eq, if◌then◌else◌, arith,
}
use spark_dashboard.Float.{F64}
use spark_dashboard.Prometheus.{
  GaugeSeries, ParsedMetrics, Value, gauge, counter, histogram, summary, untyped, Sample,
  is_counter_name, add_sample, no_metrics, parse_samples,
}

module _ {F : Type 0} where
  -- What a sample adds to the counter, and to the gauge, of a name.
  abbrev pub counted : String → Sample F → Option F
  counted name s =
      if s.metric == name
      then (elim s.value [
        | gauge v ↦ none
        | counter v ↦ some v
        | histogram b ↦ none
        | summary ↦ none
        | untyped v ↦ if is_counter_name name then some v else none
      ])
      else none

  abbrev pub gauged : String → Sample F → Option (GaugeSeries F)
  gauged name s =
      if s.metric == name
      then (elim s.value [
        | gauge v ↦ some (record { labels = s.labels; value = v })
        | counter v ↦ none
        | histogram b ↦ none
        | summary ↦ none
        | untyped v ↦
            if is_counter_name name then none else some (record { labels = s.labels; value = v })
      ])
      else none

module _ {F : Type 0} (f : F64 F) where
  abbrev add_some : Option F → Option F → Option F
  add_some total none = total
  add_some total (some v) = some (f.add (or_default f.zero total) v)

  -- The sum of what the samples add to a counter, in their order; nothing if no sample does.
  abbrev pub total_of : String → Option F → List (Sample F) → Option F
  total_of name total [] = total
  total_of name total (s ∷ samples) = total_of name (add_some total (counted name s)) samples

  abbrev push_some : {A : Type 0} → Option (List A) → Option A → Option (List A)
  push_some series none = series
  push_some series (some x) = some (or_default [] series ++ x ∷ [])

  -- The series that the samples add to a gauge, in their order.
  abbrev pub series_of :
      String → Option (List (GaugeSeries F)) → List (Sample F) → Option (List (GaugeSeries F))
  series_of name series [] = series
  series_of name series (s ∷ samples) = series_of name (push_some series (gauged name s)) samples

  counters-value :
      (name metric : String) (labels : Assoc String String) (value : Value F)
      (parsed : ParsedMetrics F)
      → let s : Sample F = record { metric = metric; labels = labels; value = value } in
        lookup name (add_sample f parsed s).counters
        ≡ add_some (lookup name parsed.counters) (counted name s)
  unfolding add_sample
  counters-value name metric labels (gauge v) parsed = ground arith
  counters-value name metric labels (counter v) parsed = ground (
    arith,
    string_eq.beq_iff metric name,
    lookup-upsert metric name f.zero (λ total. f.add total v) parsed.counters,
  )
  counters-value name metric labels (histogram b) parsed = ground arith
  counters-value name metric labels summary parsed = ground arith
  counters-value name metric labels (untyped v) parsed = ground (
    arith,
    string_eq.beq_iff metric name,
    lookup-upsert metric name f.zero (λ total. f.add total v) parsed.counters,
  )

  gauges-value :
      (name metric : String) (labels : Assoc String String) (value : Value F)
      (parsed : ParsedMetrics F)
      → let s : Sample F = record { metric = metric; labels = labels; value = value } in
        lookup name (add_sample f parsed s).gauges
        ≡ push_some (lookup name parsed.gauges) (gauged name s)
  unfolding add_sample
  gauges-value name metric labels (gauge v) parsed = ground (
    arith,
    string_eq.beq_iff metric name,
    lookup-upsert metric name [] (λ series. series ++ record { labels = labels; value = v } ∷ [])
        parsed.gauges,
  )
  gauges-value name metric labels (counter v) parsed = ground arith
  gauges-value name metric labels (histogram b) parsed = ground arith
  gauges-value name metric labels summary parsed = ground arith
  gauges-value name metric labels (untyped v) parsed = ground (
    arith,
    string_eq.beq_iff metric name,
    lookup-upsert metric name [] (λ series. series ++ record { labels = labels; value = v } ∷ [])
        parsed.gauges,
  )

  counters-foldl :
      (name : String) (parsed : ParsedMetrics F) (samples : List (Sample F))
      → lookup name (foldl (add_sample f) parsed samples).counters
        ≡ total_of name (lookup name parsed.counters) samples
  counters-foldl name parsed [] = refl
  counters-foldl name parsed (s ∷ samples) =
      counters-foldl name (add_sample f parsed s) samples
      ∙ ap (λ total. total_of name total samples)
          (counters-value name s.metric s.labels s.value parsed)

  gauges-foldl :
      (name : String) (parsed : ParsedMetrics F) (samples : List (Sample F))
      → lookup name (foldl (add_sample f) parsed samples).gauges
        ≡ series_of name (lookup name parsed.gauges) samples
  gauges-foldl name parsed [] = refl
  gauges-foldl name parsed (s ∷ samples) =
      gauges-foldl name (add_sample f parsed s) samples
      ∙ ap (λ series. series_of name series samples)
          (gauges-value name s.metric s.labels s.value parsed)

  -- A counter of the parsed metrics is the sum of all its samples, in their order, and a gauge has
  -- the series of all its samples, in their order; either is absent if no sample adds to it.
  pub lookup-parse_samples :
      (name : String) (samples : List (Sample F))
      → (lookup name (parse_samples f samples).counters ≡ total_of name none samples)
        × (lookup name (parse_samples f samples).gauges ≡ series_of name none samples)
  unfolding parse_samples no_metrics lookup
  lookup-parse_samples name samples =
      (counters-foldl name (no_metrics f) samples, gauges-foldl name (no_metrics f) samples)
