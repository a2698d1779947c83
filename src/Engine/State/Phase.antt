-- ===== src/Engine/State/Phase.antt =====
-- engines/mod.rs: the grace period. An engine is Stopped after three failed probes in a row, and is
-- removed when it has been Stopped for more than 30 seconds.
use spark_dashboard.Prelude.{
  String, ℕ, ◌+◌, ◌-◌, ◌<◌, ◌≡◌, refl, ◌⊎◌, inl, Bool, true, false, ◌&&◌, Option, none, some, List,
  [], ◌∷◌, arith, leb, ltb, is_some, length, get_elem?, if◌then◌else◌,
}
use spark_dashboard.Engine.Types.{
  EngineStatus, running, stopped, loading, error, is_up, is_stopped, is_running, ModelResolution,
}
use spark_dashboard.Engine.Types.{DeploymentMode}
use spark_dashboard.Engine.State.{new}
use spark_dashboard.Engine.State.{
  EngineAdapter, EngineState, Readings, record_probe_result, cache_model, should_fetch_model,
  should_remove, poll, secs, elapsed, refresh_model, ask_model,
}

-- The engine answered its last probe, or has failed fewer than three since it did.
pub record IsLive {A : Type 0} (s : EngineState A) : Type 0 where
  pub status : s.status ≡ running
  pub stopped_at : s.stopped_at ≡ none
  pub failures : s.consecutive_failures < 3

-- The engine is Stopped since a known moment, and nothing of its model is remembered.
pub record IsDown {A : Type 0} (s : EngineState A) : Type 0 where
  pub status : s.status ≡ stopped
  pub stopped_at : is_some s.stopped_at ≡ true
  pub cached_model : s.cached_model ≡ none
  pub model_metadata_error : s.model_metadata_error ≡ none
  pub model_attempted_at : s.model_attempted_at ≡ none

pub record IsValid {A : Type 0} (s : EngineState A) : Type 0 where
  pub phase : IsLive s ⊎ IsDown s
  -- A cached model has a time at which it was fetched, and the other way round.
  pub fetched : is_some s.cached_model ≡ is_some s.model_fetched_at
  -- What is remembered of a fetch comes with the time of the last attempt.
  pub attempted :
      (is_some s.model_attempted_at ≡ true)
      ⊎ (s.cached_model ≡ none) × (s.model_metadata_error ≡ none)

module _ {A : Type 0} where
  pub IsValid-probe :
      (s : EngineState A) (up : Bool) (now : ℕ) → IsValid s → IsValid (record_probe_result s up now)
  unfolding record_probe_result
  IsValid-probe s true now v = record {
    phase = inl (ground arith);
    fetched = v.fetched;
    attempted = v.attempted;
  }
  IsValid-probe s false now v = record {
    phase = ground arith;
    fetched = ground arith;
    attempted = ground arith;
  }

  IsValid-cache_model :
      (s : EngineState A) (r : ModelResolution) (now : ℕ)
      → IsLive s
      → IsValid s
      → IsValid (cache_model s r now)
  unfolding cache_model
  IsValid-cache_model s r now live v = record {
    phase = ground arith;
    fetched = ground arith;
    attempted = ground arith;
  }

  -- A run of failed probes, one after another.
  pub record_failures : EngineState A → List ℕ → EngineState A
  record_failures s [] = s
  record_failures s (now ∷ times) = record_failures (record_probe_result s false now) times

  down_stays :
      (s : EngineState A) (times : List ℕ)
      → IsDown s
      → ((record_failures s times).status ≡ stopped)
        × ((record_failures s times).stopped_at ≡ s.stopped_at)
  unfolding record_failures record_probe_result
  down_stays s [] d = ground arith
  down_stays s (now ∷ times) d = ground (arith, down_stays (record_probe_result s false now) times)

  -- From a live engine that has failed `f` probes in a row: it is Stopped once three failures in a
  -- row are reached, and the moment of the third is the one that is recorded.
  strikes :
      (s : EngineState A) (times : List ℕ)
      → IsLive s
      → ((record_failures s times).status
          ≡ (if leb 3 (s.consecutive_failures + length times) then stopped else running))
        × ((record_failures s times).stopped_at ≡ get_elem? times (2 - s.consecutive_failures))
  unfolding record_failures record_probe_result
  strikes s [] live = ground arith
  strikes s (now ∷ times) live = ground (
    arith,
    strikes (record_probe_result s false now) times,
    down_stays (record_probe_result s false now) times,
  )

  pub IsValid-adapter : (s : EngineState A) (a : A) → IsValid s → IsValid (record s { adapter = a })
  IsValid-adapter s a v = record {
    phase = ground arith;
    fetched = v.fetched;
    attempted = v.attempted;
  }

  pub IsValid-place :
      (s : EngineState A) (mode : DeploymentMode) (pids : List ℕ) (container : Option String)
      → IsValid s
      → IsValid (record s { deployment_mode = mode; pids = pids; container_id = container })
  IsValid-place s mode pids container v = record {
    phase = ground arith;
    fetched = v.fetched;
    attempted = v.attempted;
  }

  IsLive-of_running : (s : EngineState A) → IsValid s → is_running s.status ≡ true → IsLive s
  IsLive-of_running s v h = ground arith

  probe_up-IsLive : (s : EngineState A) (now : ℕ) → IsLive (record_probe_result s true now)
  unfolding record_probe_result
  probe_up-IsLive s now = ground arith

  IsLive-after :
      (s : EngineState A) (health : EngineStatus) (now : ℕ)
      → IsValid s
      → is_running
          (if is_up health then health else (record_probe_result s (is_up health) now).status)
        ≡ true
      → IsLive (record_probe_result s (is_up health) now)
  IsLive-after s running now v h = probe_up-IsLive s now
  IsLive-after s loading now v h = probe_up-IsLive s now
  IsLive-after s stopped now v h = IsLive-of_running _ (IsValid-probe s false now v) h
  IsLive-after s (error e) now v h = IsLive-of_running _ (IsValid-probe s false now v) h

  IsValid-if :
      (b c : Bool) (s t : EngineState A)
      → (b ≡ true → IsValid s)
      → IsValid t
      → IsValid (if b && c then s else t)
  IsValid-if true true s t h k = h refl
  IsValid-if true false s t h k = k
  IsValid-if false c s t h k = k

module _ {F A : Type 0} (ops : EngineAdapter F A) where
  IsValid-refresh :
      (s : EngineState A) (status : EngineStatus) (clock : Readings)
      → (is_running status ≡ true → IsLive s)
      → IsValid s
      → IsValid (refresh_model ops s status clock)
  IsValid-refresh s status clock live v =
      IsValid-if (is_running status) (should_fetch_model s clock.checked_at) _ s
        (λ up. IsValid-ask (live up)) v
    where
      asked : EngineState A
      asked = record s { adapter = (ops.get_model_info s.adapter).1 }

      IsValid-ask : IsLive s → IsValid (ask_model ops s clock.cached_at)
      IsValid-ask l =
          IsValid-cache_model asked (ops.get_model_info s.adapter).0 clock.cached_at (ground arith)
            (IsValid-adapter s _ v)

  -- Whatever the engine answers, a poll keeps the state of the engine consistent: it is live with
  -- fewer than three failures, or it is Stopped since a known moment and remembers no model; and
  -- what it remembers of a model fetch comes with the times of that fetch.
  pub poll-IsValid :
      (s : EngineState A) (clock : Readings) → IsValid s → IsValid (poll ops s clock).1
  unfolding poll
  poll-IsValid s clock v =
      let (health, adapter) = ops.health_check s.adapter in
      let heard = IsValid-adapter s adapter v in
      IsValid-adapter _ _ (
        IsValid-refresh _ _ clock (IsLive-after _ health clock.probed_at heard)
          (IsValid-probe _ (is_up health) clock.probed_at heard))

abbrev pub removal_due : ℕ → Option ℕ → Bool
removal_due now none = false
removal_due now (some t) = ltb (secs 30) (elapsed now t)

third_failure :
    {A : Type 0} (s : EngineState A) (times : List ℕ) (now : ℕ)
    → (s.status ≡ (if leb 3 (0 + length times) then stopped else running))
    → (s.stopped_at ≡ get_elem? times (2 - 0))
    → (s.status ≡ (if leb 3 (length times) then stopped else running))
      × (s.stopped_at ≡ get_elem? times 2)
      × (should_remove s now ≡ removal_due now (get_elem? times 2))
unfolding should_remove
third_failure s [] now h k = ground arith
third_failure s (a ∷ []) now h k = ground arith
third_failure s (a ∷ b ∷ []) now h k = ground arith
third_failure s (a ∷ b ∷ c ∷ times) now h k = ground arith

-- An engine that answered its last probe, and then fails a run of probes: from the third failure on
-- it is Stopped, before that it still is Running; the moment of the third failure is the moment it
-- entered Stopped, and it is due for removal exactly when more than 30 seconds have passed since.
pub three_strikes :
    {A : Type 0} (s : EngineState A) (start : ℕ) (times : List ℕ) (now : ℕ)
    → let final = record_failures (record_probe_result s true start) times in
      (final.status ≡ (if leb 3 (length times) then stopped else running))
      × (final.stopped_at ≡ get_elem? times 2)
      × (should_remove final now ≡ removal_due now (get_elem? times 2))
unfolding record_probe_result
three_strikes s start times now =
    let run = strikes (record_probe_result s true start) times (probe_up-IsLive s start) in
    third_failure (record_failures (record_probe_result s true start) times) times now run.0 run.1

-- A new engine counts as one that has just answered.
pub new-IsValid : {A : Type 0} (a : A) (mode : DeploymentMode) (now : ℕ) → IsValid (new a mode now)
unfolding new
new-IsValid a mode now = record {
  phase = inl (ground arith);
  fetched = refl;
  attempted = ground arith;
}

pub should_remove-eq-true :
    {A : Type 0} (s : EngineState A) (now : ℕ)
    → should_remove s now ≡ true
    → (is_stopped s.status ≡ true) × ((t : ℕ) × (s.stopped_at ≡ some t) × (secs 30 < now - t))
unfolding should_remove
should_remove-eq-true s now h = ground arith
