-- ===== src/Detection/Candidates/Pids.antt =====
-- engines/detector.rs: where the PIDs go when the containers' candidates are merged.
use spark_dashboard.Prelude.{
  ℕ, ◌≡◌, ◌∙◌, refl, ap, Bool, true, false, ◌&&◌, ◌||◌, not, List, [], ◌∷◌, ◌++◌, inl, inr, any,
  All, is_empty, arith, ◌==◌, nat_eq, nat_beq_iff, if◌then◌else◌, Bool-cases,
}
use spark_dashboard.Engine.Types.{key_eq}
use spark_dashboard.Engine.Collector.{DetectedEngine, detected_key}
use spark_dashboard.Detection.PidLists.{has, has-append, has-sort}
use spark_dashboard.Detection.Candidates.{
  is_docker, add_pids, fold_into, join_on_endpoint, take_model, without_pids,
  absorb_container_processes, absorb_all, join_all, merge_docker_candidates,
}

-- Some candidate has the PID.
abbrev pub names : ℕ → List DetectedEngine → Bool
names p candidates = any (λ c. has p c.pids) candidates

has-add_pids :
    (p : ℕ) (known pids : List ℕ) → has p (add_pids known pids) ≡ (has p known || has p pids)
unfolding add_pids
has-add_pids p known [] = ground arith
has-add_pids p known (x ∷ xs) = elim (Bool-cases (has x known)) [
  | inl there ↦ rw there (ground (arith, has-add_pids p known xs, nat_beq_iff x p))
  | inr new ↦
      rw new (ground (arith, has-add_pids p (known ++ x ∷ []) xs, has-append p known (x ∷ [])))
]

has-fold_into :
    (p : ℕ) (c d : DetectedEngine) → has p (fold_into c d).pids ≡ (has p c.pids || has p d.pids)
unfolding fold_into
has-fold_into p c d = rw (has-sort p (add_pids c.pids d.pids)) (has-add_pids p c.pids d.pids)

names-join_on_endpoint :
    (p : ℕ) (cs : List DetectedEngine) (d : DetectedEngine)
    → names p (join_on_endpoint cs d) ≡ (names p cs || has p d.pids)
unfolding join_on_endpoint
names-join_on_endpoint p [] d = ground arith
names-join_on_endpoint p (c ∷ cs) d =
    ground (arith, names-join_on_endpoint p cs d, has-fold_into p c d)

names-join_all :
    (p : ℕ) (cs ds : List DetectedEngine) → names p (join_all cs ds) ≡ (names p cs || names p ds)
names-join_all p cs [] = ground arith
names-join_all p cs (d ∷ ds) =
    ground (arith, names-join_all p (join_on_endpoint cs d) ds, names-join_on_endpoint p cs d)

take_model-pids : (k c : DetectedEngine) → (take_model k c).pids ≡ k.pids
take_model-pids k c = ground arith

-- The candidate has only processes of the container.
abbrev absorbs : DetectedEngine → DetectedEngine → Bool
absorbs c k = any (λ x. has x k.pids) c.pids && is_empty (without_pids k.pids c.pids)

absorb-container_pids :
    (cs : List DetectedEngine) (k : DetectedEngine)
    → (absorb_container_processes cs k).1.pids ≡ k.pids
unfolding absorb_container_processes
absorb-container_pids [] k = refl
absorb-container_pids (c ∷ cs) k =
    absorb-container_pids cs (if absorbs c k then take_model k c else k)
    ∙ elim (Bool-cases (absorbs c k)) [
      | inl all ↦ rw all (take_model-pids k c)
      | inr part ↦ rw part refl
    ]

has-shared :
    (p : ℕ) (taken pids : List ℕ)
    → any (λ x. has x taken) pids ≡ false
    → (has p pids && has p taken) ≡ false
has-shared p taken [] h = refl
has-shared p taken (x ∷ xs) h = ground (arith, has-shared p taken xs, nat_beq_iff x p)

has-empty : (p : ℕ) (xs : List ℕ) → is_empty xs ≡ true → has p xs ≡ false
has-empty p [] h = refl
has-empty p (x ∷ xs) h = ground arith

has-without_pids :
    (p : ℕ) (taken pids : List ℕ)
    → has p (without_pids taken pids) ≡ (has p pids && not (has p taken))
has-without_pids p taken [] = refl
has-without_pids p taken (x ∷ xs) = ground (arith, has-without_pids p taken xs, nat_beq_iff x p)

names-absorb :
    (p : ℕ) (cs : List DetectedEngine) (k : DetectedEngine)
    → names p (absorb_container_processes cs k).0 ≡ (names p cs && not (has p k.pids))
unfolding absorb_container_processes
names-absorb p [] k = refl
names-absorb p (c ∷ cs) k =
    let k2 = if absorbs c k then take_model k c else k in
    let same : k2.pids ≡ k.pids = elim (Bool-cases (absorbs c k)) [
      | inl all ↦ rw all (take_model-pids k c)
      | inr part ↦ rw part refl
    ] in
    let ih : names p (absorb_container_processes cs k2).0 ≡ (names p cs && not (has p k.pids)) =
      names-absorb p cs k2 ∙ ap (λ l. names p cs && not (has p l)) same in
    let own = has-without_pids p k.pids c.pids in
    elim (Bool-cases (any (λ x. has x k.pids) c.pids)) [
      | inl some_shared ↦ elim (Bool-cases (is_empty (without_pids k.pids c.pids))) [
        | inl none_left ↦ ground (arith, has-empty p (without_pids k.pids c.pids) none_left)
        | inr some_left ↦ ground arith
      ]
      | inr none_shared ↦ ground (arith, has-shared p k.pids c.pids none_shared)
    ]

names-absorb_all :
    (p : ℕ) (cs ks : List DetectedEngine)
    → names p (absorb_all cs ks).0 ≡ (names p cs && not (names p ks))
unfolding absorb_all
names-absorb_all p cs [] = ground arith
names-absorb_all p cs (k ∷ ks) =
    ground (arith, names-absorb_all p (absorb_container_processes cs k).0 ks, names-absorb p cs k)

names-claimed : (p : ℕ) (cs ks : List DetectedEngine) → names p (absorb_all cs ks).1 ≡ names p ks
unfolding absorb_all
names-claimed p cs [] = refl
names-claimed p cs (k ∷ ks) =
    rw (absorb-container_pids cs k)
      (ap (λ b. has p k.pids || b) (names-claimed p (absorb_container_processes cs k).0 ks))

-- After a merge a PID is some candidate's exactly when it was a process candidate's or a container's
-- before: none is lost and none is made up.
pub merge_docker_candidates_pids :
    (p : ℕ) (processes containers : List DetectedEngine)
    → names p (merge_docker_candidates processes containers)
      ≡ (names p processes || names p containers)
unfolding merge_docker_candidates
merge_docker_candidates_pids p processes containers =
    names-join_all p (absorb_all processes containers).0 (absorb_all processes containers).1
    ∙ ground (arith, names-absorb_all p processes containers, names-claimed p processes containers)

-- A candidate on which a PID may stand: a container's, or one without the PID.
abbrev Clear : ℕ → DetectedEngine → Type 0
Clear p c = (is_docker c.deployment_mode || not (has p c.pids)) ≡ true

abbrev pub IsContainer : DetectedEngine → Type 0
IsContainer c = is_docker c.deployment_mode ≡ true

Clear-unnamed : (p : ℕ) (cs : List DetectedEngine) → names p cs ≡ false → All (Clear p) cs
Clear-unnamed p [] h = tt
Clear-unnamed p (c ∷ cs) h = (ground arith, Clear-unnamed p cs (ground arith))

IsContainer-absorb :
    (cs : List DetectedEngine) (k : DetectedEngine)
    → IsContainer k
    → IsContainer (absorb_container_processes cs k).1
unfolding absorb_container_processes
IsContainer-absorb [] k h = h
IsContainer-absorb (c ∷ cs) k h =
    IsContainer-absorb cs (if absorbs c k then take_model k c else k)
      (elim (Bool-cases (absorbs c k)) [ inl all ↦ rw all (ground arith) | inr part ↦ rw part h ])

IsContainer-claimed :
    (cs ks : List DetectedEngine) → All IsContainer ks → All IsContainer (absorb_all cs ks).1
unfolding absorb_all
IsContainer-claimed cs [] h = tt
IsContainer-claimed cs (k ∷ ks) h =
    (IsContainer-absorb cs k h.0, IsContainer-claimed (absorb_container_processes cs k).0 ks h.1)

Clear-join_on_endpoint :
    (p : ℕ) (cs : List DetectedEngine) (d : DetectedEngine)
    → IsContainer d
    → All (Clear p) cs
    → All (Clear p) (join_on_endpoint cs d)
unfolding join_on_endpoint fold_into
Clear-join_on_endpoint p [] d hd h = (ground arith, tt)
Clear-join_on_endpoint p (c ∷ cs) d hd h = elim (Bool-cases (detected_key c == detected_key d)) [
  | inl same ↦ rw same (rw hd refl, h.1)
  | inr other ↦ rw other (h.0, Clear-join_on_endpoint p cs d hd h.1)
]

Clear-join_all :
    (p : ℕ) (cs ds : List DetectedEngine)
    → All IsContainer ds
    → All (Clear p) cs
    → All (Clear p) (join_all cs ds)
Clear-join_all p cs [] hd h = h
Clear-join_all p cs (d ∷ ds) hd h =
    Clear-join_all p (join_on_endpoint cs d) ds hd.1 (Clear-join_on_endpoint p cs d hd.0 h)

-- A process of a container is a native engine's no more: after the merge every candidate that has a
-- container's PID is deployed in Docker, where the Docker scan's candidates are.
pub merge_docker_candidates_claims :
    (p : ℕ) (processes containers : List DetectedEngine)
    → All (λ c. is_docker c.deployment_mode ≡ true) containers
    → names p containers ≡ true
    → All
        (λ c. (is_docker c.deployment_mode || not (has p c.pids)) ≡ true)
        (merge_docker_candidates processes containers)
unfolding merge_docker_candidates
merge_docker_candidates_claims p processes containers h in_container =
    Clear-join_all p (absorb_all processes containers).0 (absorb_all processes containers).1
      (IsContainer-claimed processes containers h)
      (Clear-unnamed p (absorb_all processes containers).0
        (ground (arith, names-absorb_all p processes containers)))
