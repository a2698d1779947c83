-- ===== src/Engine/State/Models.antt =====
-- engines/mod.rs: when the model of an engine is asked for again.
use spark_dashboard.Prelude.{ℕ, ◌<◌, ◌+◌, ◌≡◌, refl, true, ◌&&◌, not, none, arith, is_some}
use spark_dashboard.Engine.Types.{running, ModelResolution}
use spark_dashboard.Engine.State.{
  snapshot, EngineAdapter, EngineState, Readings, record_probe_result, cache_model,
  should_fetch_model, poll, secs, is_due, model_refresh_interval,
}
use spark_dashboard.Engine.State.Phase.{IsDown}

-- Within 30 seconds of a fetch the model is asked for again only if that fetch gave neither a name
-- nor a reason, and a model from before it is remembered and is ten minutes old.
pub fetch_cooldown :
    {A : Type 0} (s : EngineState A) (r : ModelResolution) (fetched_at now : ℕ)
    → now < fetched_at + secs 30
    → should_fetch_model (cache_model s r fetched_at) now ≡ (
        not (is_some r.metadata_error)
        && not (is_some r.model)
        && is_some s.cached_model
        && is_due now model_refresh_interval s.model_fetched_at)
unfolding should_fetch_model cache_model
fetch_cooldown s r fetched_at now h = ground arith

fetch_due :
    {A : Type 0} (s : EngineState A) (a : A) (probed_at now : ℕ)
    → IsDown s
    → should_fetch_model (record_probe_result (record s { adapter = a }) true probed_at) now ≡ true
unfolding should_fetch_model record_probe_result
fetch_due s a probed_at now down =
    rw (down.model_metadata_error, down.cached_model, down.model_attempted_at)

model-cache_model :
    {A : Type 0} (s : EngineState A) (r : ModelResolution) (now : ℕ)
    → s.cached_model ≡ none
    → ((cache_model s r now).cached_model ≡ r.model)
      × ((cache_model s r now).model_metadata_error ≡ r.metadata_error)
unfolding cache_model
model-cache_model s r now h = ground arith

cached-probe :
    {A : Type 0} (s : EngineState A) (probed_at : ℕ)
    → (record_probe_result s true probed_at).cached_model ≡ s.cached_model
unfolding record_probe_result
cached-probe s probed_at = refl

module _ {F A : Type 0} (ops : EngineAdapter F A) where
  -- An engine that comes back from Stopped is asked for its model in the same poll, whatever the
  -- cooldown, and the snapshot carries that answer.
  pub poll_after_restart :
      (s : EngineState A) (clock : Readings)
      → IsDown s
      → (ops.health_check s.adapter).0 ≡ running
      → let answer = (ops.get_model_info (ops.health_check s.adapter).1).0 in
        ((poll ops s clock).0.model ≡ answer.model)
        × ((poll ops s clock).0.model_metadata_error ≡ answer.metadata_error)
  unfolding poll snapshot record_probe_result
  poll_after_restart s clock down up = rw up (
      rw (fetch_due s (ops.health_check s.adapter).1 clock.probed_at clock.checked_at down)
        (model-cache_model _ _ clock.cached_at down.cached_model))
