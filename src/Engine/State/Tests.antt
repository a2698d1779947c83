-- ===== src/Engine/State/Tests.antt =====
-- The theorems about one engine, at concrete engines.
use spark_dashboard.Prelude.{◌≡◌, refl, true, inl, inr, some, [], ◌∷◌, arith}
use spark_dashboard.Engine.Types.{running, stopped}
use spark_dashboard.Engine.State.{poll, record_probe_result, should_remove}
use spark_dashboard.Engine.State.Phase.{
  IsDown, IsValid, record_failures, poll-IsValid, three_strikes,
}
use spark_dashboard.Engine.State.Snapshots.{IsHonest, poll-IsHonest}
use spark_dashboard.Engine.Sample.{sample_ops, down, live, clock}

live-IsValid : IsValid live
live-IsValid = record {
  phase = inl (record { status = refl; stopped_at = refl; failures = omega arith });
  fetched = refl;
  attempted = inr (refl, refl);
}

down-IsDown : IsDown (down running)
down-IsDown = record {
  status = refl;
  stopped_at = refl;
  cached_model = refl;
  model_metadata_error = refl;
  model_attempted_at = refl;
}

-- An engine whose probe fails while its model is due.
poll-IsValid_example : IsValid (poll sample_ops live clock).1
poll-IsValid_example = poll-IsValid sample_ops live clock live-IsValid

poll-IsHonest_example :
    IsHonest (sample_ops.health_check live.adapter).0 (poll sample_ops live clock).0
poll-IsHonest_example = poll-IsHonest sample_ops live clock live-IsValid

-- Four failures: Stopped from the third one on, at the moment 30.
three_strikes_example :
    let final = record_failures (record_probe_result live true 5) (10 ∷ 20 ∷ 30 ∷ 40 ∷ []) in
    (final.status ≡ stopped)
    × (final.stopped_at ≡ some 30)
    × (should_remove final 30000000031 ≡ true)
three_strikes_example = three_strikes live 5 (10 ∷ 20 ∷ 30 ∷ 40 ∷ []) 30000000031
