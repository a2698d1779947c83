-- ===== src/Detection/Processes/Engines.antt =====
-- engines/detector.rs: an engine more among the candidates of the host scan.
use spark_dashboard.Prelude.{
  ℕ, ◌≡◌, ◌∙◌, refl, ap, true, ◌||◌, Option, none, some, List, [], ◌∷◌, ◌++◌, map, inl, inr, arith,
  ◌==◌, nat_eq, if◌then◌else◌, Bool-cases, beq_sym, All,
}
use mathlib.Core.List.{append_assoc, append-nil}
use spark_dashboard.Engine.Types.{Key, key_eq, native}
use spark_dashboard.Engine.Collector.{DetectedEngine, detected_key}
use spark_dashboard.Detection.Candidates.Verified.{has_key, DistinctKeys}
use spark_dashboard.Detection.PidTree.{Tree, expand_pid_tree}
use spark_dashboard.Detection.Processes.{add_engine, expanded}

-- The PIDs of the engine with a key.
abbrev pub pids_at : Key → List DetectedEngine → Option (List ℕ)
pids_at key [] = none
pids_at key (d ∷ detected) =
    let rest = pids_at key detected in if detected_key d == key then some d.pids else rest

abbrev pub joined : Option (List ℕ) → List ℕ → Option (List ℕ)
joined none [] = none
joined none (p ∷ ps) = some (p ∷ ps)
joined (some known) ps = some (known ++ ps)

-- The PIDs that an engine adds to the one with a key: its own, if it has the key.
abbrev pub root_at : Key → Option DetectedEngine → List ℕ
root_at key none = []
root_at key (some d) = if detected_key d == key then d.pids else []

pub joined-nil : (known : Option (List ℕ)) → joined known [] ≡ known
joined-nil none = refl
joined-nil (some known) = ap some (append-nil known)

same_key : (a b key : Key) → (a == key) ≡ true → (b == key) ≡ true → (a == b) ≡ true
same_key a b key p q = rw ((key_eq.beq_iff a key).0 p) (beq_sym key b ∙ q)

pub pids_at-add_engine :
    (key : Key) (detected : List DetectedEngine) (p : ℕ) (d : DetectedEngine)
    → d.pids ≡ p ∷ []
    → pids_at key (add_engine detected d) ≡ joined (pids_at key detected) (root_at key (some d))
unfolding add_engine
pids_at-add_engine key [] p d one = ground (arith, one)
pids_at-add_engine key (c ∷ detected) p d one =
    elim (Bool-cases (detected_key c == detected_key d)) [
      | inl same ↦
          let one_key : (detected_key c == key) ≡ (detected_key d == key) =
            ap (λ k. k == key) ((key_eq.beq_iff (detected_key c) (detected_key d)).0 same) in
          rw (add_engine, same) (ground (arith, one_key, joined-nil (pids_at key detected)))
      | inr other ↦
          rw (add_engine, other)
            (ground (
              arith,
              pids_at-add_engine key detected p d one,
              same_key (detected_key c) (detected_key d) key,
              joined-nil (some c.pids),
            ))
    ]

pub joined-append :
    (known : Option (List ℕ)) (xs ys : List ℕ)
    → joined (joined known xs) ys ≡ joined known (xs ++ ys)
joined-append none [] ys = refl
joined-append none (x ∷ xs) ys = refl
joined-append (some known) xs ys = ap some (append_assoc known xs ys)

pub has_key-add_engine :
    (key : Key) (detected : List DetectedEngine) (d : DetectedEngine)
    → has_key key (add_engine detected d) ≡ (has_key key detected || detected_key d == key)
unfolding add_engine
has_key-add_engine key [] d = ground arith
has_key-add_engine key (c ∷ detected) d = elim (Bool-cases (detected_key c == detected_key d)) [
  | inl same ↦
      let one_key : (detected_key c == key) ≡ (detected_key d == key) =
        ap (λ k. k == key) ((key_eq.beq_iff (detected_key c) (detected_key d)).0 same) in
      rw (add_engine, same) (ground (arith, one_key))
  | inr other ↦ rw (add_engine, other) (ground (arith, has_key-add_engine key detected d))
]

pub DistinctKeys-add_engine :
    (detected : List DetectedEngine) (d : DetectedEngine)
    → DistinctKeys detected
    → DistinctKeys (add_engine detected d)
unfolding add_engine
DistinctKeys-add_engine [] d h = (refl, tt)
DistinctKeys-add_engine (c ∷ detected) d h = elim (Bool-cases (detected_key c == detected_key d)) [
  | inl same ↦ rw (DistinctKeys, add_engine, same) h
  | inr other ↦
      rw (DistinctKeys, add_engine, other)
        (
          ground (
            arith,
            has_key-add_engine (detected_key c) detected d,
            beq_sym (detected_key c) (detected_key d),
          ),
          DistinctKeys-add_engine detected d h.1,
        )
]

-- A native engine, of no container.
abbrev pub IsNative : DetectedEngine → Type 0
IsNative d = (d.deployment_mode ≡ native) × (d.container_id ≡ none)

pub IsNative-add_engine :
    (detected : List DetectedEngine) (d : DetectedEngine)
    → IsNative d
    → All IsNative detected
    → All IsNative (add_engine detected d)
unfolding add_engine
IsNative-add_engine [] d hd h = (hd, tt)
IsNative-add_engine (c ∷ detected) d hd h = elim (Bool-cases (detected_key c == detected_key d)) [
  | inl same ↦ rw (add_engine, same) h
  | inr other ↦ rw (add_engine, other) (h.0, IsNative-add_engine detected d hd h.1)
]

-- After the expansion of the PIDs.
abbrev pub expand_at : Tree → Option (List ℕ) → Option (List ℕ)
expand_at tree none = none
expand_at tree (some roots) = some (expand_pid_tree roots tree)

pub pids_at-expanded :
    (tree : Tree) (key : Key) (detected : List DetectedEngine)
    → pids_at key (map (expanded tree) detected) ≡ expand_at tree (pids_at key detected)
pids_at-expanded tree key [] = refl
pids_at-expanded tree key (d ∷ detected) = ground (arith, pids_at-expanded tree key detected)

pub has_key-expanded :
    (tree : Tree) (key : Key) (detected : List DetectedEngine)
    → has_key key (map (expanded tree) detected) ≡ has_key key detected
has_key-expanded tree key [] = refl
has_key-expanded tree key (d ∷ detected) = ground (arith, has_key-expanded tree key detected)

pub DistinctKeys-expanded :
    (tree : Tree) (detected : List DetectedEngine)
    → DistinctKeys detected
    → DistinctKeys (map (expanded tree) detected)
DistinctKeys-expanded tree [] h = tt
DistinctKeys-expanded tree (d ∷ detected) h =
    (has_key-expanded tree (detected_key d) detected ∙ h.0, DistinctKeys-expanded tree detected h.1)

pub IsNative-expanded :
    (tree : Tree) (detected : List DetectedEngine)
    → All IsNative detected
    → All IsNative (map (expanded tree) detected)
IsNative-expanded tree [] h = tt
IsNative-expanded tree (d ∷ detected) h = (h.0, IsNative-expanded tree detected h.1)
