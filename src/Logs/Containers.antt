-- ===== src/Logs/Containers.antt =====
-- logs.rs: the container of an engine's log is that engine's.
use spark_dashboard.Prelude.{
  String, ◌≡◌, ap, Bool, true, false, some, List, [], ◌∷◌, ◌++◌, All, find, ◌==◌, string_eq,
  Bool-cases, Option-cases, inl, inr, arith,
}
use spark_dashboard.Engine.State.{EngineSnapshot}
use spark_dashboard.Logs.{find_container}

-- The first snapshot of a list that a test holds of.
abbrev pub IsFirst :
    {F : Type 0} → (EngineSnapshot F → Bool) → List (EngineSnapshot F) → EngineSnapshot F → Type 0
IsFirst {F} test snapshots s =
    (before after : List (EngineSnapshot F)) × (snapshots ≡ before ++ s ∷ after)
    × All (λ t. test t ≡ false) before
    × (test s ≡ true)

find-IsFirst :
    {F : Type 0} (test : EngineSnapshot F → Bool) (snapshots : List (EngineSnapshot F))
    (s : EngineSnapshot F)
    → find test snapshots ≡ some s
    → IsFirst test snapshots s
find-IsFirst test [] s h = cc
find-IsFirst test (t ∷ snapshots) s h = elim (Bool-cases (test t)) [
  | inl holds ↦
      let same : t ≡ s = ground arith in
      ([], snapshots, ap (λ x. x ∷ snapshots) same, tt, rw (← same) holds)
  | inr fails ↦
      let (before, after, split, earlier, holds) = find-IsFirst test snapshots s (ground arith) in
      (t ∷ before, after, ap (λ l. t ∷ l) split, (fails, earlier), holds)
]

-- The container that is found for an endpoint is the one of the first engine at that endpoint, and
-- never another engine's.
pub find_container-IsFirst :
    {F : Type 0} (snapshots : List (EngineSnapshot F)) (endpoint id : String)
    → find_container snapshots (some endpoint) ≡ some id
    → (s : EngineSnapshot F) × IsFirst (λ t. t.endpoint == endpoint) snapshots s
      × (s.endpoint ≡ endpoint)
      × (s.container_id ≡ some id)
unfolding find_container
find_container-IsFirst snapshots endpoint id h =
    elim (Option-cases (find (λ t. t.endpoint == endpoint) snapshots)) [
      | inl gone ↦ absurd (ground arith)
      | inr (s, found) ↦
          let first = find-IsFirst (λ t. t.endpoint == endpoint) snapshots s found in
          (s, first, ground (arith, first.4, string_eq.beq_iff s.endpoint endpoint), ground arith)
    ]
