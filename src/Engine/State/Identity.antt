-- ===== src/Engine/State/Identity.antt =====
-- engines/mod.rs: what a poll leaves as it is.
use spark_dashboard.Prelude.{String, ◌≡◌, refl, ◌∙◌, ap, Bool, true, false, Option, List, ℕ, arith}
use spark_dashboard.Engine.Types.{EngineStatus, Key, ModelResolution, DeploymentMode}
use spark_dashboard.Engine.State.{
  EngineAdapter, snapshot, new, EngineState, Readings, record_probe_result, cache_model, poll,
  refresh_model, ask_metrics,
}

module _ {F A : Type 0} (ops : EngineAdapter F A) where
  abbrev pub identity : A → Key
  identity a = (ops.engine_type a, ops.endpoint a)

  -- No request changes the type or the endpoint of an adapter.
  pub record KeepsIdentity : Type 0 where
    pub health : (a : A) → identity (ops.health_check a).1 ≡ identity a
    pub model : (a : A) → identity (ops.get_model_info a).1 ≡ identity a
    pub metrics : (a : A) → identity (ops.get_metrics a).1 ≡ identity a
    pub loaded : (a : A) → identity (ops.refresh_loaded_models a) ≡ identity a

-- The fields that only the detection writes.
abbrev pub Place : Type 0
Place = DeploymentMode × List ℕ × Option String

abbrev pub place : {A : Type 0} → EngineState A → Place
place s = (s.deployment_mode, s.pids, s.container_id)

module _ {A : Type 0} where
  pub adapter-new : (a : A) (mode : DeploymentMode) (now : ℕ) → (new a mode now).adapter ≡ a
  unfolding new
  adapter-new a mode now = refl

  adapter-probe :
      (s : EngineState A) (up : Bool) (now : ℕ) → (record_probe_result s up now).adapter ≡ s.adapter
  unfolding record_probe_result
  adapter-probe s true now = refl
  adapter-probe s false now = ground arith

  place-probe :
      (s : EngineState A) (up : Bool) (now : ℕ) → place (record_probe_result s up now) ≡ place s
  unfolding record_probe_result
  place-probe s true now = refl
  place-probe s false now = ground arith

  adapter-cache_model :
      (s : EngineState A) (r : ModelResolution) (now : ℕ)
      → (cache_model s r now).adapter ≡ s.adapter
  unfolding cache_model
  adapter-cache_model s r now = ground arith

  place-cache_model :
      (s : EngineState A) (r : ModelResolution) (now : ℕ) → place (cache_model s r now) ≡ place s
  unfolding cache_model
  place-cache_model s r now = ground arith

module _ {F A : Type 0} (ops : EngineAdapter F A) where
  place-refresh :
      (s : EngineState A) (status : EngineStatus) (clock : Readings)
      → place (refresh_model ops s status clock) ≡ place s
  place-refresh s status clock = ground (
    arith,
    place-cache_model (record s { adapter = (ops.get_model_info s.adapter).1 })
        (ops.get_model_info s.adapter).0 clock.cached_at,
  )

  -- A poll changes neither the deployment mode, nor the PIDs, nor the container.
  pub place-poll : (s : EngineState A) (clock : Readings) → place (poll ops s clock).1 ≡ place s
  unfolding poll
  place-poll s clock = place-refresh _ _ clock ∙ place-probe _ _ clock.probed_at

  module _ (laws : KeepsIdentity ops) where
    identity-ask_metrics :
        (b : Bool) (a : A) → identity ops (ask_metrics ops b a).1 ≡ identity ops a
    identity-ask_metrics true a = laws.loaded _ ∙ laws.metrics a
    identity-ask_metrics false a = refl

    identity-refresh :
        (s : EngineState A) (status : EngineStatus) (clock : Readings)
        → identity ops (refresh_model ops s status clock).adapter ≡ identity ops s.adapter
    identity-refresh s status clock = ground (
      arith,
      laws.model s.adapter,
      adapter-cache_model (record s { adapter = (ops.get_model_info s.adapter).1 })
          (ops.get_model_info s.adapter).0 clock.cached_at,
    )

    pub identity-poll :
        (s : EngineState A) (clock : Readings)
        → identity ops (poll ops s clock).1.adapter ≡ identity ops s.adapter
    unfolding poll
    identity-poll s clock =
        identity-ask_metrics _ _
        ∙ identity-refresh _ _ clock
        ∙ ap (identity ops) (adapter-probe _ _ clock.probed_at)
        ∙ laws.health s.adapter

-- The snapshot of a poll is of the engine that was polled.
pub identity-snapshot :
    {F A : Type 0} (ops : EngineAdapter F A) (s : EngineState A) (clock : Readings)
    → let (snap, polled) = poll ops s clock in
      ((snap.engine_type, snap.endpoint) ≡ identity ops polled.adapter)
      × (snap.container_id ≡ polled.container_id)
unfolding poll snapshot
identity-snapshot ops s clock = (refl, refl)
