-- ===== src/Warmup/Tests.antt =====
-- The warmup of a concrete engine, with its request count as the trigger.
use spark_dashboard.Prelude.{ℕ, ◌≡◌, String, false, some, [], ◌∷◌, string_eq, lookup, arith, ltb}
use spark_dashboard.Float.Sample.{sample}
use spark_dashboard.Prometheus.{ParsedMetrics}
use spark_dashboard.Warmup.{warming, active, WarmupTracker, new, observe}
use spark_dashboard.Warmup.Phases.{baseline_of, observe_all, warmup_ends}
use spark_dashboard.Warmup.Deltas.{MaxZero}

abbrev scrape : ℕ → ParsedMetrics ℕ
scrape n = record {
  gauges = [];
  counters = ("requests", n) ∷ ("tokens", 5) ∷ [];
  histograms = ("ttft", (1, n) ∷ (2, n) ∷ []) ∷ [];
}

abbrev empty_scrape : ParsedMetrics ℕ
empty_scrape = record { gauges = []; counters = []; histograms = [] }

abbrev tracker : WarmupTracker ℕ
tracker = record {
  skip_requests = 3;
  trigger_key = "requests";
  state = active (baseline_of (scrape 8));
}

-- Three requests are skipped, counted from the 5 that the engine has already served.
warmup_ends_example :
    ((observe_all sample (new 3 "requests") (scrape 5 ∷ scrape 7 ∷ [])).state ≡ warming (some 5))
    × ((observe sample
          (observe_all sample (new 3 "requests") (scrape 5 ∷ scrape 7 ∷ []))
          (scrape 8)).1.state
        ≡ active (baseline_of (scrape 8)))
unfolding lookup new
warmup_ends_example =
    warmup_ends sample 3 "requests" (scrape 5) (scrape 7 ∷ []) (scrape 8) (omega arith)
      ((omega arith, omega arith), tt) (omega arith)

abbrev only_requests : ℕ → ParsedMetrics ℕ
only_requests n = record { gauges = []; counters = ("requests", n) ∷ []; histograms = [] }

not_fallen :
    (k : String) (v c : ℕ)
    → lookup k (only_requests 8).counters ≡ some v
    → lookup k (only_requests 9).counters ≡ some c
    → ltb c v ≡ false
unfolding lookup
not_fallen k v c h g = ground arith

abbrev counting : WarmupTracker ℕ
counting = record {
  skip_requests = 3;
  trigger_key = "requests";
  state = active (baseline_of (only_requests 8));
}

sample-MaxZero : MaxZero sample
sample-MaxZero x = ground arith
