-- ===== src/Gpu/Tests.antt =====
-- Two GPUs, and an engine on both.
use spark_dashboard.Prelude.{ℕ, ◌≡◌, List, [], ◌∷◌}
use spark_dashboard.Detection.PidLists.{has, IsIncreasing}
use spark_dashboard.Gpu.{gpu_indexes_for_pids}
use spark_dashboard.Gpu.Placed.{is_run_on, gpu_indexes_for_pids-runs}

abbrev lists : List (ℕ × List ℕ)
lists = (1, 40 ∷ 41 ∷ []) ∷ (0, 42 ∷ []) ∷ []

gpu_indexes_for_pids-runs_example :
    IsIncreasing (gpu_indexes_for_pids (42 ∷ 41 ∷ []) lists)
    × ((i : ℕ)
        → has i (gpu_indexes_for_pids (42 ∷ 41 ∷ []) lists) ≡ is_run_on i (42 ∷ 41 ∷ []) lists)
gpu_indexes_for_pids-runs_example = gpu_indexes_for_pids-runs (42 ∷ 41 ∷ []) lists
