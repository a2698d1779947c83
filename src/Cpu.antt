-- ===== src/Cpu.antt =====
-- metrics/cpu.rs: the CPU metrics, of what the crate `sysinfo` lists.
use spark_dashboard.Prelude.{
  ℕ, suc, String, Option, none, some, List, [], ◌∷◌, get_elem?, if◌then◌else◌,
}
use spark_dashboard.Text.{is_empty_text}

pub record Core (F : Type 0) : Type 0 where
  pub brand : String
  pub cpu_usage : F

pub record CoreMetrics (F : Type 0) : Type 0 where
  pub id : ℕ
  pub usage_percent : F

pub record CpuMetrics (F : Type 0) : Type 0 where
  pub name : Option String
  pub aggregate_percent : F
  pub per_core : List (CoreMetrics F)

module _ {F : Type 0} where
  abbrev pub shown_brand : Option (Core F) → Option String
  shown_brand none = none
  shown_brand (some c) = if is_empty_text c.brand then none else some c.brand

  -- `enumerate`, from a number on
  unfoldable pub enumerate : ℕ → List (Core F) → List (CoreMetrics F)
  enumerate id [] = []
  enumerate id (c ∷ cpus) =
      record { id = id; usage_percent = c.cpu_usage } ∷ enumerate (suc id) cpus

  unfoldable pub collect_cpu_metrics : F → List (Core F) → CpuMetrics F
  unfolding enumerate
  collect_cpu_metrics global_cpu_usage cpus = record {
    name = shown_brand (get_elem? cpus 0);
    aggregate_percent = global_cpu_usage;
    per_core = enumerate 0 cpus;
  }
