-- ===== src/Engine/Collector/Polling.antt =====
-- engines/mod.rs: what a poll tick publishes, which engines it drops, and what it leaves alone.
use mathlib.Core.Path.{ap₂}
use spark_dashboard.Engine.State.Phase.{should_remove-eq-true}
use spark_dashboard.Engine.State.Identity.{identity-poll}
use spark_dashboard.Prelude.{
  ℕ, String, ◌<◌, ◌-◌, ◌≡◌, refl, ◌∙◌, true, Option, none, some, List, [], ◌∷◌, map, arith, lookup,
  bind_some, lookup-filter_map_entries, lookup-map_entries, UniqueKeys, UniqueKeys-map_entries,
  Each, if◌then◌else◌,
}
use spark_dashboard.Engine.Types.{Key, key_eq, is_stopped}
use spark_dashboard.Engine.State.{
  EngineAdapter, EngineState, EngineSnapshot, Readings, poll, should_remove, secs,
}
use spark_dashboard.Engine.State.Identity.{identity-snapshot, place-poll}
use spark_dashboard.Engine.Collector.{
  Factory, EngineMap, Collector, DetectedEngine, poll_all, retain, poll_tick,
}
use spark_dashboard.Engine.Collector.Reach.{
  IsFaithful, IsConsistent, IsTracked, poll_all-map_entries, Tick, detection, polling,
}
use spark_dashboard.Engine.Collector.Detection.{first_container, container-detect_tick}

abbrev pub published_key : {F : Type 0} → EngineSnapshot F → Key
published_key snap = (snap.engine_type, snap.endpoint)

module _ {F A : Type 0} (ops : EngineAdapter F A) {create_adapter : Factory A}
    (laws : IsFaithful ops create_adapter) where
  published :
      (clock : Key → Readings) (engines : EngineMap A)
      → Each (IsTracked ops) engines
      → map published_key (poll_all ops clock engines).0 ≡ map (λ entry. entry.0) engines
  unfolding poll_all
  published clock [] h = refl
  published clock ((k, s) ∷ engines) (t, h) =
      ap₂ ◌∷◌
        ((identity-snapshot ops s (clock k)).0 ∙ identity-poll ops laws.keeps s (clock k) ∙ t.keyed)
        (published clock engines h)

  -- A poll tick publishes one snapshot for each engine of the map, under the engine's key and in the
  -- order of the map, the engines that the tick drops included.
  pub poll_tick-published :
      (clock : Key → Readings) (now : ℕ) (c : Collector F A)
      → IsConsistent ops c.engines
      → map published_key (poll_tick ops clock now c).snapshots ≡ map (λ entry. entry.0) c.engines
  unfolding poll_tick
  poll_tick-published clock now c h = published clock c.engines h.tracked

bind_map :
    {A B C : Type 0} (o : Option A) (f : A → B) (g : B → Option C)
    → bind_some (bind_some o (λ a. some (f a))) g ≡ bind_some o (λ a. g (f a))
bind_map none f g = refl
bind_map (some a) f g = refl

module _ {F A : Type 0} (ops : EngineAdapter F A) where
  -- After a poll tick an engine is in the map with the state that its poll left it in, and is gone
  -- if that state is one to remove.
  pub lookup-poll_tick :
      (clock : Key → Readings) (now : ℕ) (c : Collector F A) (k : Key)
      → UniqueKeys c.engines
      → lookup k (poll_tick ops clock now c).engines
        ≡ bind_some (lookup k c.engines) (λ s.
          let s' = (poll ops s (clock k)).1 in if should_remove s' now then none else some s')
  unfolding poll_tick retain
  lookup-poll_tick clock now c k u = rw (poll_all-map_entries ops clock c.engines) (
      rw (lookup-filter_map_entries _ k _ (UniqueKeys-map_entries _ c.engines u))
        (rw (lookup-map_entries _ k c.engines) (bind_map (lookup k c.engines) _ _)))

  -- An engine that a poll tick drops is Stopped, and has been for more than 30 seconds.
  pub dropped_by_poll_tick :
      (clock : Key → Readings) (now : ℕ) (c : Collector F A) (k : Key) (s : EngineState A)
      → UniqueKeys c.engines
      → lookup k c.engines ≡ some s
      → lookup k (poll_tick ops clock now c).engines ≡ none
      → let polled = (poll ops s (clock k)).1 in
        (is_stopped polled.status ≡ true)
        × ((t : ℕ) × (polled.stopped_at ≡ some t) × (secs 30 < now - t))
  dropped_by_poll_tick clock now c k s u there gone =
      should_remove-eq-true (poll ops s (clock k)).1 now
        (ground (arith, lookup-poll_tick clock now c k u))

first_container-known :
    (k : Key) (id : String) (found : List DetectedEngine)
    → first_container k (some id) found ≡ some id
first_container-known k id [] = refl
first_container-known k id (d ∷ found) = ground (arith, first_container-known k id found)

module _ {F A : Type 0} (ops : EngineAdapter F A) (create_adapter : Factory A)
    (resolve_key : String → Option String) where
  -- No round of the loop moves an engine to another container: one that is in the map before and
  -- after the round, and had a container before it, has the same container after it.
  pub container-Tick :
      {c d : Collector F A} (k : Key) (s s' : EngineState A) (id : String)
      → Tick ops create_adapter resolve_key c d
      → UniqueKeys c.engines
      → lookup k c.engines ≡ some s
      → lookup k d.engines ≡ some s'
      → s.container_id ≡ some id
      → s'.container_id ≡ some id
  container-Tick {c} k s s' id (detection found now) u before after known = ground (
    arith,
    container-detect_tick create_adapter resolve_key now k found c.engines,
    first_container-known k id found,
  )
  container-Tick {c} k s s' id (polling clock now) u before after known =
      ground (arith, lookup-poll_tick ops clock now c k u, place-poll ops s (clock k))
