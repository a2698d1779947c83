-- ===== src/Engine/Collector/Reach.antt =====
-- engines/mod.rs: the engine map stays consistent under any run of the two timers.
use mathlib.Core.List.{foldl}
use spark_dashboard.Prelude.{
  Each-map_entries, ℕ, String, ◌≡◌, refl, ◌∙◌, Bool, true, false, Option, none, some, List, [], ◌∷◌,
  arith, UniqueKeys, UniqueKeys-insert, UniqueKeys-upsert, UniqueKeys-map_entries,
  UniqueKeys-filter_map_entries, Each, Each-insert, Each-upsert, Each-filter_map_entries,
  map_entries, if◌then◌else◌,
}
use spark_dashboard.Engine.Types.{EngineType, Key, key_eq, DeploymentMode}
use spark_dashboard.Engine.State.{EngineAdapter, EngineState, Readings, new, poll}
use spark_dashboard.Engine.State.Phase.{IsValid, IsValid-place, poll-IsValid, new-IsValid}
use spark_dashboard.Engine.State.Identity.{identity, adapter-new, KeepsIdentity, identity-poll}
use spark_dashboard.Engine.Collector.{
  DetectedEngine, EngineOverride, Factory, EngineMap, Collector, detected_key, clear_stale_pids,
  seed_one, seed, first_seen, refresh, detect_one, detect_tick, poll_all, retain, poll_tick,
}

-- An adapter is of the type and at the endpoint that it was created for.
pub record IsFaithful {F A : Type 0} (ops : EngineAdapter F A) (create_adapter : Factory A)
    : Type 0 where
  pub created :
      (t : EngineType) (endpoint : String) (model key : Option String)
      → identity ops (create_adapter t endpoint model key) ≡ (t, endpoint)
  pub keeps : KeepsIdentity ops

module _ {F A : Type 0} (ops : EngineAdapter F A) where
  -- An entry of the map: a valid state, whose adapter is the one that the key names.
  pub record IsTracked (k : Key) (s : EngineState A) : Type 0 where
    pub valid : IsValid s
    pub keyed : identity ops s.adapter ≡ k

  pub record IsConsistent (engines : EngineMap A) : Type 0 where
    pub unique : UniqueKeys engines
    pub tracked : Each IsTracked engines

refresh_shape :
    {A : Type 0} (d : DetectedEngine) (s : EngineState A)
    → refresh d s ≡ record s {
      deployment_mode = (refresh d s).deployment_mode;
      pids = (refresh d s).pids;
      container_id = (refresh d s).container_id;
    }
unfolding refresh
refresh_shape d s = ground arith

module _ {F A : Type 0} (ops : EngineAdapter F A) where
  pub poll_all-map_entries :
      (clock : Key → Readings) (engines : EngineMap A)
      → (poll_all ops clock engines).1 ≡ map_entries (λ k s. (poll ops s (clock k)).1) engines
  unfolding poll_all map_entries
  poll_all-map_entries clock [] = refl
  poll_all-map_entries clock ((k, s) ∷ engines) = rw (poll_all-map_entries clock engines)

module _ {F A : Type 0} (ops : EngineAdapter F A) (create_adapter : Factory A)
    (resolve_key : String → Option String) where
  -- One round of the loop: a timer that fires. What the detection finds, what the engines answer and
  -- what the clock reads is up to the environment.
  pub data Tick (c : Collector F A) : Collector F A → Type 0 where
    detection :
        (found : List DetectedEngine) (now : ℕ)
        → Tick c (record c { engines = detect_tick create_adapter resolve_key found now c.engines })
    polling : (clock : Key → Readings) (now : ℕ) → Tick c (poll_tick ops clock now c)

  -- The states that the loop can reach from its start with some overrides.
  pub data Reach (overrides : List EngineOverride) (start : ℕ) : Collector F A → Type 0 where
    begin :
        Reach overrides start
          (record { engines = seed create_adapter overrides start; snapshots = [] })
    next : {c d : Collector F A} → Reach overrides start c → Tick c d → Reach overrides start d

  module _ (laws : IsFaithful ops create_adapter) where
    IsTracked-place :
        (k : Key) (s : EngineState A) (mode : DeploymentMode) (pids : List ℕ)
        (container : Option String)
        → IsTracked ops k s
        → IsTracked ops k
            (record s { deployment_mode = mode; pids = pids; container_id = container })
    IsTracked-place k s mode pids container t = record {
      valid = IsValid-place s mode pids container t.valid;
      keyed = t.keyed;
    }

    IsTracked-refresh :
        (d : DetectedEngine) (k : Key) (s : EngineState A)
        → IsTracked ops k s
        → IsTracked ops k (refresh d s)
    IsTracked-refresh d k s t = rw (refresh_shape d s) (IsTracked-place k s _ _ _ t)

    IsTracked-new :
        (t : EngineType) (endpoint : String) (model key : Option String) (mode : DeploymentMode)
        (now : ℕ)
        → IsTracked ops (t, endpoint) (new (create_adapter t endpoint model key) mode now)
    IsTracked-new t endpoint model key mode now = record {
      valid = new-IsValid _ mode now;
      keyed = rw adapter-new (laws.created t endpoint model key);
    }

    IsTracked-poll :
        (k : Key) (s : EngineState A) (clock : Readings)
        → IsTracked ops k s
        → IsTracked ops k (poll ops s clock).1
    IsTracked-poll k s clock t = record {
      valid = poll-IsValid ops s clock t.valid;
      keyed = identity-poll ops laws.keeps s clock ∙ t.keyed;
    }

    IsConsistent-seed :
        (overrides : List EngineOverride) (now : ℕ) (engines : EngineMap A)
        → IsConsistent ops engines
        → IsConsistent ops (foldl (seed_one create_adapter now) engines overrides)
    unfolding seed_one
    IsConsistent-seed [] now engines c = c
    IsConsistent-seed (ov ∷ overrides) now engines c = IsConsistent-seed overrides now _ (record {
      unique = UniqueKeys-insert _ _ engines c.unique;
      tracked = Each-insert (IsTracked ops) _ _ engines (IsTracked-new _ _ _ _ _ now) c.tracked;
    })

    IsConsistent-detect :
        (found : List DetectedEngine) (now : ℕ) (engines : EngineMap A)
        → IsConsistent ops engines
        → IsConsistent ops (foldl (detect_one create_adapter resolve_key now) engines found)
    unfolding detect_one
    IsConsistent-detect [] now engines c = c
    IsConsistent-detect (d ∷ found) now engines c = IsConsistent-detect found now _ (record {
      unique = UniqueKeys-upsert _ _ _ engines c.unique;
      tracked =
          Each-upsert (IsTracked ops) (detected_key d) (first_seen create_adapter resolve_key now d)
            (refresh d) engines (IsTracked-place _ _ _ _ _ (IsTracked-new _ _ _ _ _ now))
            (IsTracked-refresh d) c.tracked;
    })

    IsTracked-clear :
        (b : Bool) (k : Key) (s : EngineState A)
        → IsTracked ops k s
        → IsTracked ops k (if b then s else record s { pids = [] })
    IsTracked-clear true k s t = t
    IsTracked-clear false k s t = IsTracked-place k s _ [] _ t

    IsTracked-retain :
        (b : Bool) (k : Key) (s kept : EngineState A)
        → IsTracked ops k s
        → (if b then none else some s) ≡ some kept
        → IsTracked ops k kept
    IsTracked-retain true k s kept t e = cc
    IsTracked-retain false k s kept t e = let same : s ≡ kept = cc in rw (← same) t

    IsConsistent-clear :
        (keys : List Key) (engines : EngineMap A)
        → IsConsistent ops engines
        → IsConsistent ops (clear_stale_pids engines keys)
    unfolding clear_stale_pids
    IsConsistent-clear keys engines c = record {
      unique = UniqueKeys-map_entries _ engines c.unique;
      tracked =
          Each-map_entries (IsTracked ops) (IsTracked ops) _ engines (λ k s. IsTracked-clear _ k s)
            c.tracked;
    }

    IsConsistent-retain :
        (now : ℕ) (engines : EngineMap A)
        → IsConsistent ops engines
        → IsConsistent ops (retain ops now engines)
    unfolding retain
    IsConsistent-retain now engines c = record {
      unique = UniqueKeys-filter_map_entries _ engines c.unique;
      tracked =
          Each-filter_map_entries (IsTracked ops) _ engines
            (λ k s kept. IsTracked-retain _ k s kept) c.tracked;
    }

    IsConsistent-Tick :
        {c d : Collector F A} → Tick c d → IsConsistent ops c.engines → IsConsistent ops d.engines
    unfolding detect_tick poll_tick
    IsConsistent-Tick (detection found now) h =
        IsConsistent-clear _ _ (IsConsistent-detect found now _ h)
    IsConsistent-Tick {c} (polling clock now) h = IsConsistent-retain now _ (
        rw (poll_all-map_entries ops clock c.engines) (record {
          unique = UniqueKeys-map_entries _ c.engines h.unique;
          tracked =
              Each-map_entries (IsTracked ops) (IsTracked ops) _ c.engines
                (λ k s. IsTracked-poll k s (clock k)) h.tracked;
        }))

    -- With such adapters, in every state that the loop reaches no key is there twice, each engine is of the type and at
    -- the endpoint of its key, and the state of each engine is consistent.
    pub Reach-IsConsistent :
        {overrides : List EngineOverride} {start : ℕ} {c : Collector F A}
        → Reach overrides start c
        → IsConsistent ops c.engines
    unfolding seed
    Reach-IsConsistent {overrides} {start} begin =
        IsConsistent-seed overrides start [] (record { unique = tt; tracked = tt })
    Reach-IsConsistent (next r tick) = IsConsistent-Tick tick (Reach-IsConsistent r)
