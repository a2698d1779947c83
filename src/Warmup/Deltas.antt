-- ===== src/Warmup/Deltas.antt =====
-- engines/warmup.rs: the metrics less their baseline.
use spark_dashboard.Prelude.{
  ◌≡◌, refl, ap, String, true, false, none, some, [], ◌∷◌, map, arith, lookup, bind_some,
  lookup-map_entries, lookup-filter_map_entries, string_eq, All, UniqueKeys, inl, inr, length,
  if◌then◌else◌, Bool-cases,
}
use spark_dashboard.Float.{F64}
use spark_dashboard.Prometheus.{ParsedMetrics, Buckets}
use spark_dashboard.Warmup.{
  HistogramBaseline, same_schema, bucket_deltas, delta, counter_delta, histogram_delta,
  subtract_baseline,
}

module _ {F : Type 0} (f : F64 F) where
  -- `x.max(0.0)` is not below zero, whatever `x` is.
  abbrev pub MaxZero : Type 0
  MaxZero = (x : F) → f.lt (f.max x f.zero) f.zero ≡ false

  abbrev pub NotNegative : F → Type 0
  NotNegative x = f.lt x f.zero ≡ false

  counters_lookup :
      (p : ParsedMetrics F) (b : HistogramBaseline F) (k : String)
      → lookup k (subtract_baseline f p b).counters
        ≡ bind_some (lookup k p.counters) (λ c. some (counter_delta f (lookup k b.counters) c))
  unfolding subtract_baseline
  counters_lookup p b k = lookup-map_entries _ k p.counters

  histograms_lookup :
      (p : ParsedMetrics F) (b : HistogramBaseline F) (k : String)
      → UniqueKeys p.histograms
      → lookup k (subtract_baseline f p b).histograms
        ≡ bind_some (lookup k p.histograms) (histogram_delta f (lookup k b.histograms))
  unfolding subtract_baseline
  histograms_lookup p b k u = lookup-filter_map_entries _ k p.histograms u

  bounds-bucket_deltas :
      (a b : Buckets F)
      → length a ≡ length b
      → map (λ x. x.0) (bucket_deltas f a b) ≡ map (λ x. x.0) a
  unfolding bucket_deltas
  bounds-bucket_deltas [] b h = refl
  bounds-bucket_deltas (x ∷ a) [] h = absurd (omega arith)
  bounds-bucket_deltas ((le, c) ∷ a) ((_, d) ∷ b) h =
      ap (λ r. le ∷ r) (bounds-bucket_deltas a b (omega arith))

  counts-bucket_deltas :
      MaxZero → (a b : Buckets F) → All (λ x. NotNegative x.1) (bucket_deltas f a b)
  unfolding bucket_deltas
  counts-bucket_deltas law [] b = tt
  counts-bucket_deltas law (x ∷ a) [] = tt
  counts-bucket_deltas law ((le, c) ∷ a) ((_, d) ∷ b) = (law _, counts-bucket_deltas law a b)

  length-same_schema : (a b : Buckets F) → same_schema f a b ≡ true → length a ≡ length b
  unfolding same_schema
  length-same_schema a b h = ground arith

  -- What is left of a counter that the baseline has: it is there as long as the scrape has it, and
  -- it is not negative.
  pub counter-NotNegative :
      MaxZero
      → (p : ParsedMetrics F) (base : HistogramBaseline F) (k : String) (b c : F)
      → lookup k base.counters ≡ some b
      → lookup k p.counters ≡ some c
      → (d : F) × (lookup k (subtract_baseline f p base).counters ≡ some d) × NotNegative d
  counter-NotNegative law p base k b c hb hc =
      (delta f c b, ground (arith, counters_lookup p base k), law (f.sub c b))

  -- What is left of a histogram that the baseline has: nothing if its bounds have changed, and else
  -- a histogram with the bounds of the scrape and with no negative count.
  pub histogram-NotNegative :
      MaxZero
      → (p : ParsedMetrics F) (base : HistogramBaseline F) (k : String) (b cur : Buckets F)
      → UniqueKeys p.histograms
      → lookup k base.histograms ≡ some b
      → lookup k p.histograms ≡ some cur
      → if◌then◌else◌
          (same_schema f cur b)
          ((d : Buckets F) × (lookup k (subtract_baseline f p base).histograms ≡ some d)
            × (map (λ x. x.0) d ≡ map (λ x. x.0) cur)
            × All (λ x. NotNegative x.1) d)
          (lookup k (subtract_baseline f p base).histograms ≡ none)
  histogram-NotNegative law p base k b cur u hb hc = elim (Bool-cases (same_schema f cur b)) [
    | inl same ↦ rw same (
      bucket_deltas f cur b,
      ground (arith, histograms_lookup p base k u),
      bounds-bucket_deltas cur b (length-same_schema cur b same),
      counts-bucket_deltas law cur b,
    )
    | inr other ↦ rw other (ground (arith, histograms_lookup p base k u))
  ]
