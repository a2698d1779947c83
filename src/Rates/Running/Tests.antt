-- ===== src/Rates/Running/Tests.antt =====
-- A run of polls with a missing reading and an idle one.
use spark_dashboard.Prelude.{ℕ, ◌≡◌, Option, none, some, List, [], ◌∷◌, ◌++◌}
use spark_dashboard.Float.Sample.{sample}
use spark_dashboard.Rates.{observe, fresh}
use spark_dashboard.Rates.Running.{observe_all, throughputs, observe_after_run}

abbrev readings : List (Option ℕ × ℕ)
readings = (some 0, 0) ∷ (some 20, 2) ∷ (none, 3) ∷ (some 20, 4) ∷ []

abbrev rates : List ℕ
rates =
    throughputs sample (λ n. n)
      (observe_all sample (λ n. n) (fresh sample (λ n. n)) (readings ++ (some 50, 5) ∷ [])).0

observe_after_run_example :
    let run = observe_all sample (λ n. n) (fresh sample (λ n. n)) readings in
    let r = observe sample (λ n. n) run.1 (some 50) 5 in (r.0.0 ≡ some 30) × (r.0.1 ≡ some 20)
unfolding observe observe_all fresh
observe_after_run_example = observe_after_run sample (λ n. n) readings (some 50) 5
