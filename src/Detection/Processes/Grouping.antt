-- ===== src/Detection/Processes/Grouping.antt =====
-- engines/detector.rs: which processes the candidates of the host scan stand for.
use spark_dashboard.Prelude.{
  ℕ, String, ◌≡◌, ◌∙◌, refl, ap, sym, nat_beq_iff, subst, true, false, Option, none, some, List, [],
  ◌∷◌, ◌++◌, inl, inr, arith, ◌==◌, nat_eq, Bool-cases, Option-cases, List-cases, All,
}
use spark_dashboard.Text.{IpAddr}
use spark_dashboard.Engine.Types.{Key, key_eq, native}
use spark_dashboard.Detection.PidLists.{has, has-append}
use spark_dashboard.Detection.Commands.{engine_of_process}
use spark_dashboard.Engine.Collector.{DetectedEngine, detected_key}
use spark_dashboard.Detection.Candidates.Verified.{DistinctKeys}
use spark_dashboard.Detection.PidTree.{Tree, expand_pid_tree}
use spark_dashboard.Detection.PidTree.Children.{Descends}
use spark_dashboard.Detection.PidTree.Reach.{expand_pid_tree-Descends}
use spark_dashboard.Detection.Processes.{
  HostProcess, tree_of, owned, owners_children, engine_of, site_of, found_of, add_found, collect,
  engines_from_processes,
}
use spark_dashboard.Detection.Processes.Engines.{
  pids_at, joined, root_at, joined-nil, pids_at-add_engine, joined-append, DistinctKeys-add_engine,
  IsNative, IsNative-add_engine, expand_at, pids_at-expanded, DistinctKeys-expanded,
  IsNative-expanded,
}

has_root :
    (p : ℕ) (key : Key) (d : DetectedEngine) (q : ℕ)
    → d.pids ≡ q ∷ []
    → has p (root_at key (some d)) ≡ true
    → has p (q ∷ []) ≡ true
has_root p key d q one h = elim (Bool-cases (detected_key d == key)) [
  | inl here ↦ ap (has p) (sym one) ∙ ground (arith, here)
  | inr other ↦ ground (arith, other)
]

module _ (parse_ip : String → Option IpAddr) (env_of : ℕ → String → Option (Option String)) where
  -- The processes that make the engine with a key, by their PIDs, in their order.
  abbrev pub roots_at : List ℕ → Key → List HostProcess → List ℕ
  roots_at taken key [] = []
  roots_at taken key (r ∷ processes) =
      root_at key (engine_of parse_ip env_of taken r) ++ roots_at taken key processes

  -- What a process alone makes is a native engine with its PID.
  engine_of_lem :
      (taken : List ℕ) (r : HostProcess) (d : DetectedEngine)
      → engine_of parse_ip env_of taken r ≡ some d
      → (d.pids ≡ r.pid ∷ []) × IsNative d
  unfolding engine_of
  engine_of_lem taken r d h = elim (Bool-cases (has r.pid taken)) [
    | inl out ↦ ground (arith, out)
    | inr free ↦ elim (Option-cases (engine_of_process r.cmd)) [
      | inl no_engine ↦ ground (arith, free, no_engine)
      | inr (e, runs) ↦ elim (Option-cases (site_of parse_ip env_of r.pid r.cmd e)) [
        | inl nowhere ↦ ground (arith, free, runs, nowhere)
        | inr (site, at) ↦
            let same : found_of r e site ≡ d = ground (arith, free, runs, at) in
            subst (λ x. (x.pids ≡ r.pid ∷ []) × IsNative x) same (refl, (refl, refl))
      ]
    ]
  ]

  pids_at-add_found :
      (taken : List ℕ) (key : Key) (detected : List DetectedEngine) (r : HostProcess)
      → pids_at key (add_found detected (engine_of parse_ip env_of taken r))
        ≡ joined (pids_at key detected) (root_at key (engine_of parse_ip env_of taken r))
  pids_at-add_found taken key detected r = elim (Option-cases (engine_of parse_ip env_of taken r)) [
    | inl nothing ↦ rw nothing (rw (joined-nil (pids_at key detected)) refl)
    | inr (d, makes) ↦
        rw makes (pids_at-add_engine key detected r.pid d (engine_of_lem taken r d makes).0)
  ]

  pids_at-collect :
      (taken : List ℕ) (key : Key) (detected : List DetectedEngine) (processes : List HostProcess)
      → pids_at key (collect parse_ip env_of taken detected processes)
        ≡ joined (pids_at key detected) (roots_at taken key processes)
  pids_at-collect taken key detected [] = rw (joined-nil (pids_at key detected)) refl
  pids_at-collect taken key detected (r ∷ processes) =
      let found = engine_of parse_ip env_of taken r in
      pids_at-collect taken key (add_found detected found) processes
      ∙ ap (λ known. joined known (roots_at taken key processes))
          (pids_at-add_found taken key detected r)
      ∙ joined-append (pids_at key detected) (root_at key found) (roots_at taken key processes)

  collect-Distinct :
      (taken : List ℕ) (detected : List DetectedEngine) (processes : List HostProcess)
      → DistinctKeys detected × All IsNative detected
      → DistinctKeys (collect parse_ip env_of taken detected processes)
        × All IsNative (collect parse_ip env_of taken detected processes)
  collect-Distinct taken detected [] h = h
  collect-Distinct taken detected (r ∷ processes) h =
      collect-Distinct taken (add_found detected (engine_of parse_ip env_of taken r)) processes
        (elim (Option-cases (engine_of parse_ip env_of taken r)) [
          | inl nothing ↦ rw (DistinctKeys, nothing) h
          | inr (d, makes) ↦
              rw (DistinctKeys, makes)
                (
                  DistinctKeys-add_engine detected d h.0,
                  IsNative-add_engine detected d (engine_of_lem taken r d makes).1 h.1,
                )
        ])

  -- What the PIDs of an engine come from: nothing, or roots.
  abbrev pub of_roots : Tree → List ℕ → Option (List ℕ)
  of_roots tree [] = none
  of_roots tree (p ∷ ps) = some (expand_pid_tree (p ∷ ps) tree)

  -- The host scan finds an engine of a type on an endpoint exactly when some process that is not owned by
  -- another server makes it, and the engine's PIDs are those processes and all their descendants.
  pub engines_from_processes_pids :
      (key : Key) (processes : List HostProcess)
      → pids_at key (engines_from_processes parse_ip env_of processes)
        ≡ of_roots (tree_of processes) (roots_at (owned processes) key processes)
  unfolding engines_from_processes
  engines_from_processes_pids key processes =
      pids_at-expanded (tree_of processes) key
        (collect parse_ip env_of (owned processes) [] processes)
      ∙ ap (expand_at (tree_of processes)) (pids_at-collect (owned processes) key [] processes)
      ∙ elim (List-cases (roots_at (owned processes) key processes)) [
        | inl nothing ↦ rw nothing refl
        | inr (p, ps, e) ↦ rw e refl
      ]

  -- The host scan gives one engine for each type and endpoint, and every one is native and of no
  -- container.
  pub engines_from_processes_distinct :
      (processes : List HostProcess)
      → DistinctKeys (engines_from_processes parse_ip env_of processes)
        × All
            (λ d. (d.deployment_mode ≡ native) × (d.container_id ≡ none))
            (engines_from_processes parse_ip env_of processes)
  unfolding engines_from_processes
  engines_from_processes_distinct processes =
      let found = collect parse_ip env_of (owned processes) [] processes in
      let h = collect-Distinct (owned processes) [] processes (tt, tt) in
      (
        DistinctKeys-expanded (tree_of processes) found h.0,
        IsNative-expanded (tree_of processes) found h.1,
      )

  root_at-free :
      (taken : List ℕ) (key : Key) (r : HostProcess) (p : ℕ)
      → has p (root_at key (engine_of parse_ip env_of taken r)) ≡ true
      → has p taken ≡ false
  unfolding engine_of
  root_at-free taken key r p h = elim (Bool-cases (has r.pid taken)) [
    | inl out ↦ ground (arith, out)
    | inr free ↦ elim (Option-cases (engine_of parse_ip env_of taken r)) [
      | inl nothing ↦ ground (arith, nothing)
      | inr (d, makes) ↦
          let mine : has p (r.pid ∷ []) ≡ true =
            has_root p key d (r.pid) ((engine_of_lem taken r d makes).0)
              (ap (λ o. has p (root_at key o)) (sym makes) ∙ h) in
          subst (λ q. has q taken ≡ false) ((nat_beq_iff r.pid p).0 (ground (arith, mine))) free
    ]
  ]

  roots_at-free :
      (taken : List ℕ) (key : Key) (processes : List HostProcess) (p : ℕ)
      → has p (roots_at taken key processes) ≡ true
      → has p taken ≡ false
  roots_at-free taken key [] p h = cc
  roots_at-free taken key (r ∷ processes) p h =
      let found = root_at key (engine_of parse_ip env_of taken r) in
      elim (Bool-cases (has p found)) [
        | inl here ↦ root_at-free taken key r p here
        | inr later ↦
            roots_at-free taken key processes p
              (ground (arith, has-append p found (roots_at taken key processes)))
      ]

  -- A process below a server that owns its descendants, an Ollama or llama.cpp server, makes no engine:
  -- it is not among the processes that an engine of the host scan comes from, at whatever depth it is
  -- below and whatever its command line is.
  pub roots_at-NotOwned :
      (key : Key) (processes : List HostProcess) (p : ℕ)
      → Descends (owners_children processes) (tree_of processes) p
      → has p (roots_at (owned processes) key processes) ≡ false
  unfolding owned
  roots_at-NotOwned key processes p below =
      elim (Bool-cases (has p (roots_at (owned processes) key processes))) [
        | inr out ↦ out
        | inl inside ↦
            let free = roots_at-free (owned processes) key processes p inside in
            let taken : has p (owned processes) ≡ true =
              ((expand_pid_tree-Descends (owners_children processes) (tree_of processes)).0 p).1
                below in
            ground (arith, free, taken)
      ]
