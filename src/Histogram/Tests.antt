-- ===== src/Histogram/Tests.antt =====
-- A concrete histogram, with two bounds and an infinite one.
use spark_dashboard.Prelude.{◌↔◌, ℕ, ◌*◌, ◌≡◌, refl, some, List, [], ◌∷◌}
use spark_dashboard.Float.Sample.{sample}
use spark_dashboard.Prometheus.{ParsedMetrics, Buckets}
use spark_dashboard.Engine.Metrics.{HistogramBucket}
use spark_dashboard.Histogram.{total, percentile}
use spark_dashboard.Histogram.Fraction.{UnitLaws}
use spark_dashboard.Histogram.Percentile.{IsCounted, IsReadOff, percentile-IsReadOff}

abbrev latencies : Buckets ℕ
latencies = (10, 4) ∷ (20, 8) ∷ (1000000, 10) ∷ []

-- The 100th percentile is in the infinite bucket, and is read as the last finite bound.
percentile-IsReadOff_example :
    (percentile sample latencies 1 ≡ some 20)
    ↔ ((t : ℕ) × IsCounted sample (total latencies) 1 t × IsReadOff sample (t * 1) latencies 20)
percentile-IsReadOff_example = percentile-IsReadOff sample latencies 1 20

sample-UnitLaws : UnitLaws sample
sample-UnitLaws = record { zero_zero = refl; one_one = refl; one_zero = refl }

abbrev one_histogram : ParsedMetrics ℕ
one_histogram = record { gauges = []; counters = []; histograms = ("ttft", latencies) ∷ [] }

abbrev sent : List (HistogramBucket ℕ)
sent =
    record { le_seconds = 10; cumulative_count = 4 }
    ∷ record { le_seconds = 20; cumulative_count = 8 }
    ∷ record { le_seconds = 999999; cumulative_count = 10 }
    ∷ []
