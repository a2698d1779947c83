-- ===== src/Engine/Collector/Detection.antt =====
-- engines/mod.rs: what a detection pass writes to the engine map.
use mathlib.Core.List.{foldl}
use spark_dashboard.Prelude.{
  ℕ, String, ◌≡◌, refl, ◌||◌, Option, none, some, List, [], ◌∷◌, arith, lookup, bind_some,
  lookup-upsert, lookup-map_entries, or_default, or_else, any, ◌==◌, is_some, if◌then◌else◌, map,
}
use spark_dashboard.Engine.Types.{Key, key_eq}
use spark_dashboard.Engine.State.{EngineState}
use spark_dashboard.Engine.Collector.{
  DetectedEngine, Factory, EngineMap, detected_key, clear_stale_pids, first_seen, refresh,
  detect_one, detect_tick,
}

-- The PIDs of the last detection of an engine in a pass.
abbrev pub last_pids : Key → List DetectedEngine → Option (List ℕ)
last_pids k [] = none
last_pids k (d ∷ found) =
    let later = last_pids k found in
    elim later [ some pids ↦ some pids | none ↦ if detected_key d == k then some d.pids else none ]

-- The first container that is known for an engine.
abbrev pub first_container : Key → Option String → List DetectedEngine → Option String
first_container k known [] = known
first_container k known (d ∷ found) =
    first_container k
      (if detected_key d == k
        then (elim known [ none ↦ d.container_id | some id ↦ some id ])
        else known)
      found

known_keys :
    (k : Key) (found : List DetectedEngine)
    → any (λ j. j == k) (map detected_key found) ≡ is_some (last_pids k found)
known_keys k [] = refl
known_keys k (d ∷ found) = ground (arith, known_keys k found)

module _ {A : Type 0} where
  abbrev pub pids_of : Option (EngineState A) → Option (List ℕ)
  pids_of none = none
  pids_of (some s) = some s.pids

  -- Whether the engine is in the map, and with which container.
  abbrev pub container_of : Option (EngineState A) → Option (Option String)
  container_of none = none
  container_of (some s) = some s.container_id

  refresh_fields :
      (d : DetectedEngine) (s : EngineState A)
      → ((refresh d s).pids ≡ d.pids)
        × ((refresh d s).container_id ≡ or_else s.container_id d.container_id)
  unfolding refresh
  refresh_fields d s = ground arith

module _ {A : Type 0} (create_adapter : Factory A) (resolve_key : String → Option String) (now : ℕ)
    (k : Key) where
  pids-detect :
      (found : List DetectedEngine) (engines : EngineMap A)
      → pids_of (lookup k (foldl (detect_one create_adapter resolve_key now) engines found))
        ≡ or_else (last_pids k found) (pids_of (lookup k engines))
  unfolding detect_one
  pids-detect [] engines = refl
  pids-detect (d ∷ found) engines = ground (
    arith,
    pids-detect found (detect_one create_adapter resolve_key now engines d),
    lookup-upsert (detected_key d) k (first_seen create_adapter resolve_key now d) (refresh d)
        engines,
    (refresh_fields d (
        or_default (first_seen create_adapter resolve_key now d)
          (lookup (detected_key d) engines))).0,
  )

  -- After a detection pass every engine that was seen has the PIDs of its last sighting, every
  -- other one that was in the map is still there and has none, and no other engine is in the map.
  pub pids-detect_tick :
      (found : List DetectedEngine) (engines : EngineMap A)
      → pids_of (lookup k (detect_tick create_adapter resolve_key found now engines))
        ≡ or_else (last_pids k found) (bind_some (lookup k engines) (λ s. some []))
  unfolding detect_tick clear_stale_pids
  pids-detect_tick found engines =
      rw (lookup-map_entries _ k _)
        (rw (known_keys k found) (ground (arith, pids-detect found engines)))

  container-detect :
      (found : List DetectedEngine) (engines : EngineMap A)
      → container_of (lookup k (foldl (detect_one create_adapter resolve_key now) engines found))
        ≡ (if is_some (lookup k engines) || is_some (last_pids k found)
            then some (first_container k (bind_some (lookup k engines) (λ s. s.container_id)) found)
            else none)
  unfolding detect_one
  container-detect [] engines = ground arith
  container-detect (d ∷ found) engines = ground (
    arith,
    container-detect found (detect_one create_adapter resolve_key now engines d),
    lookup-upsert (detected_key d) k (first_seen create_adapter resolve_key now d) (refresh d)
        engines,
    key_eq.beq_iff (detected_key d) k,
    (refresh_fields d (
        or_default (first_seen create_adapter resolve_key now d)
          (lookup (detected_key d) engines))).1,
  )

  -- After a detection pass an engine's container is the one that it had before the pass, and else
  -- the first one that the pass found for it.
  pub container-detect_tick :
      (found : List DetectedEngine) (engines : EngineMap A)
      → container_of (lookup k (detect_tick create_adapter resolve_key found now engines)) ≡ (
          if is_some (lookup k engines) || is_some (last_pids k found)
          then some (first_container k (bind_some (lookup k engines) (λ s. s.container_id)) found)
          else none)
  unfolding detect_tick clear_stale_pids
  container-detect_tick found engines =
      rw (lookup-map_entries _ k _) (ground (arith, container-detect found engines))
