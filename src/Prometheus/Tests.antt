-- ===== src/Prometheus/Tests.antt =====
-- A counter that is split across two engine cores, and a gauge of each.
use spark_dashboard.Prelude.{ℕ, String, ◌≡◌, refl, List, [], ◌∷◌, string_eq}
use spark_dashboard.Prometheus.{Value, gauge, counter, Sample}
use spark_dashboard.Prometheus.Exposition.{normalized}

abbrev of_engine : String → String → Value ℕ → Sample ℕ
of_engine engine metric value = record {
  metric = metric;
  labels = ("engine", engine) ∷ [];
  value = value;
}

abbrev samples : List (Sample ℕ)
samples =
    of_engine "0" "tokens" (counter 5)
    ∷ of_engine "0" "ttft" (gauge 2)
    ∷ of_engine "1" "tokens" (counter 7)
    ∷ []

normalized_test : normalized "# TYPE vllm:num gauge" ≡ "# TYPE vllm_num gauge"
unfolding normalized
normalized_test = refl
