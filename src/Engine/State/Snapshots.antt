-- ===== src/Engine/State/Snapshots.antt =====
-- engines/mod.rs: what the snapshot of a poll tick may carry.
use mathlib.Core.Option
use spark_dashboard.Prelude.{
  ◌≡◌, refl, ◌⊎◌, Bool, true, false, Option, none, some, List, [], ◌∷◌, map, arith, is_some,
  keep_if,
}
use spark_dashboard.Engine.Types.{EngineStatus, running, stopped, is_running, is_up}
use spark_dashboard.Engine.Metrics.{MetricGroup, EngineMetrics, GroupSet, reported_only, is_empty}
use spark_dashboard.Engine.Metrics.Reported.{Cell, cells, blank, keep_cell, cells-reported_only}
use spark_dashboard.Engine.State.{
  EngineAdapter, EngineState, EngineSnapshot, Readings, poll, snapshot, ask_metrics,
}
use spark_dashboard.Engine.State.Phase.{IsValid, IsValid-probe, IsValid-adapter}

-- What a snapshot may carry, given the answer to the health probe of its tick.
pub record IsHonest {F : Type 0} (health : EngineStatus) (snap : EngineSnapshot F) : Type 0 where
  -- The status is the probe's where the engine is up, and else Running (in its grace period) or
  -- Stopped: an error of the probe is never passed on.
  pub status :
      (is_up health ≡ true) × (snap.status ≡ health)
      ⊎ (is_up health ≡ false) × ((snap.status ≡ running) ⊎ (snap.status ≡ stopped))
  pub metrics_off : is_running snap.status ≡ false → snap.metrics_off ≡ none
  pub metrics_error : is_running snap.status ≡ false → snap.metrics_error ≡ none
  -- Metrics come with an engine that is up and reports a group, and with no other.
  pub metrics_up :
      is_some snap.metrics ≡ true → (is_up health ≡ true) × (is_empty snap.metric_groups ≡ false)
  -- Every field of a group that is not reported is blank.
  pub unreported :
      (m : EngineMetrics F) (g : MetricGroup)
      → snap.metrics ≡ some m
      → snap.metric_groups g ≡ false
      → map blank (cells g m) ≡ cells g m

blank-blank :
    {F : Type 0} (cs : List (Cell F))
    → map blank (map (keep_cell false) cs) ≡ map (keep_cell false) cs
blank-blank [] = refl
blank-blank (c ∷ cs) = ground (arith, blank-blank cs)

reported_blank :
    {F : Type 0} (b : Bool) (given : Option (EngineMetrics F)) (keep : GroupSet)
    (m : EngineMetrics F) (g : MetricGroup)
    → Option.map (λ x. reported_only x keep) (keep_if b given) ≡ some m
    → keep g ≡ false
    → map blank (cells g m) ≡ cells g m
reported_blank true (some x) keep m g e off =
    let p : reported_only x keep ≡ m = cc in
    rw (← p) (rw (cells-reported_only x keep g) (rw off (blank-blank (cells g x))))
reported_blank true none keep m g e off = cc
reported_blank false (some x) keep m g e off = cc
reported_blank false none keep m g e off = cc

metrics_some :
    {F : Type 0} (b : Bool) (given : Option (EngineMetrics F)) (keep : GroupSet)
    → is_some (Option.map (λ x. reported_only x keep) (keep_if b given)) ≡ true
    → (b ≡ true) × (is_some given ≡ true)
metrics_some true (some x) keep e = (refl, refl)
metrics_some true none keep e = cc
metrics_some false (some x) keep e = cc
metrics_some false none keep e = cc

module _ {F A : Type 0} (ops : EngineAdapter F A) where
  asked_up : (b : Bool) (a : A) → is_some (ask_metrics ops b a).0 ≡ true → b ≡ true
  asked_up true a h = refl
  asked_up false a h = cc

  -- From a valid state, the snapshot of a poll has the status of the probe where the engine is up, and
  -- else Running or Stopped. Notes on metrics come with Running only, metrics only with an engine that
  -- is up and reports a group, and the fields of a group that is not reported are blank.
  pub poll-IsHonest :
      (s : EngineState A) (clock : Readings)
      → IsValid s
      → IsHonest (ops.health_check s.adapter).0 (poll ops s clock).0
  unfolding poll snapshot
  poll-IsHonest s clock v =
      let (health, adapter) = ops.health_check s.adapter in
      let probed = IsValid-probe _ (is_up health) clock.probed_at (IsValid-adapter s adapter v) in
      record {
        status = ground (arith, probed.phase);
        metrics_off = λ h. ground arith;
        metrics_error = λ h. ground arith;
        metrics_up =
            λ h. let (groups, given) = metrics_some _ _ _ h in (asked_up _ _ given, ground arith);
        unreported = λ m g. reported_blank _ _ _ m g;
      }
