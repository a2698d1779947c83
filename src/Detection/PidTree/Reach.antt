-- ===== src/Detection/PidTree/Reach.antt =====
-- engines/detector.rs: `expand_pid_tree` ends, and gives the roots and all their descendants.
use spark_dashboard.Prelude.{
  ℕ, zero, suc, ◌+◌, ◌≤◌, ◌<◌, ◌≡◌, ◌↔◌, ◌∙◌, refl, ap, true, List, [], ◌∷◌, List-cases,
  length-zero, inl, inr, length, arith, nat_eq, nat_beq_iff, Bool-cases,
}
use spark_dashboard.Detection.PidLists.{has, has-sort, IsIncreasing, IsIncreasing-sort}
use spark_dashboard.Detection.PidTree.{
  Tree, fill_children, children_of, Walk, visit, visit_all, start, walk, expand_pid_tree,
}
use spark_dashboard.Detection.PidTree.Children.{
  is_child, Descends, root, child, unseen, unseen-new, unseen-length,
}
use spark_dashboard.Detection.PidTree.Walking.{
  Inv, Inv-start, Inv-step, children, children_of-children, step,
}

module _ (roots : List ℕ) (processes : Tree) where
  -- What the loop has left to do.
  abbrev measure : Walk → ℕ
  measure w = unseen processes w.seen + length w.queue

  measure-visit :
      (q c : ℕ) (w : Walk) → is_child processes q c ≡ true → measure (visit c w) ≤ measure w
  unfolding visit
  measure-visit q c w ch = elim (Bool-cases (has c w.seen)) [
    | inl old ↦ rw (visit, old) (omega arith)
    | inr new ↦ rw (visit, new) (omega (arith, unseen-new processes q c w.seen ch new))
  ]

  measure-visit_all :
      (q : ℕ) (todo : List ℕ) (w : Walk)
      → ((p : ℕ) → has p todo ≡ true → is_child processes q p ≡ true)
      → measure (visit_all todo w) ≤ measure w
  measure-visit_all q [] w h = omega arith
  measure-visit_all q (c ∷ todo) w h = omega (
    arith,
    measure-visit_all q todo (visit c w) (λ p m. h p (ground arith)),
    measure-visit q c w (h c (ground (arith, nat_beq_iff c c))),
  )

  measure-step :
      (w : Walk) (pid : ℕ) (queue : List ℕ)
      → w.queue ≡ pid ∷ queue
      → measure (step roots processes w pid queue) < measure w
  measure-step w pid queue e = omega (
    arith,
    measure-visit_all pid (children_of (children roots processes) pid) (record w { queue = queue })
        (λ p h. ground (arith, children_of-children roots processes pid p)),
    ap length e,
  )

  queue-visit : (c : ℕ) (w : Walk) → length (visit c w).queue ≤ length w.queue + 1
  unfolding visit
  queue-visit c w = elim (Bool-cases (has c w.seen)) [
    | inl old ↦ rw (visit, old) (omega arith)
    | inr new ↦ rw (visit, new) (omega arith)
  ]

  queue-visit_all :
      (todo : List ℕ) (w : Walk) → length (visit_all todo w).queue ≤ length todo + length w.queue
  queue-visit_all [] w = omega arith
  queue-visit_all (c ∷ todo) w = omega (arith, queue-visit_all todo (visit c w), queue-visit c w)

  measure-start : measure (start roots) ≤ length roots + length processes
  unfolding start
  measure-start =
      let none_seen : Walk = record { seen = []; queue = []; result = [] } in
      omega (arith, queue-visit_all roots none_seen, unseen-length processes (start roots).seen)

  walk-zero : (w : Walk) → walk zero (children roots processes) w ≡ w
  unfolding walk
  walk-zero w = refl

  walk-stop :
      (fuel : ℕ) (w : Walk) → w.queue ≡ [] → walk (suc fuel) (children roots processes) w ≡ w
  unfolding walk
  walk-stop fuel w e = ground (arith, e)

  walk-step :
      (fuel : ℕ) (w : Walk) (pid : ℕ) (queue : List ℕ)
      → w.queue ≡ pid ∷ queue
      → walk (suc fuel) (children roots processes) w
        ≡ walk fuel (children roots processes) (step roots processes w pid queue)
  unfolding walk
  walk-step fuel w pid queue e = ground (arith, e)

  walk_ends :
      (fuel : ℕ) (w : Walk)
      → Inv roots processes [] w
      → measure w ≤ fuel
      → Inv roots processes [] (walk fuel (children roots processes) w)
        × ((walk fuel (children roots processes) w).queue ≡ [])
  walk_ends zero w inv h = rw (walk-zero w) (inv, length-zero w.queue (omega arith))
  walk_ends (suc fuel) w inv h = elim (List-cases w.queue) [
    | inl stop ↦ rw (walk-stop fuel w stop) (inv, stop)
    | inr (pid, queue, e) ↦ rw (walk-step fuel w pid queue e) (
        walk_ends fuel (step roots processes w pid queue)
          (Inv-step roots processes w pid queue e inv) (omega (arith, measure-step w pid queue e)))
  ]

  Descends-seen :
      (w : Walk)
      → Inv roots processes [] w
      → w.queue ≡ []
      → (p : ℕ) → Descends roots processes p
      → has p w.seen ≡ true
  Descends-seen w inv stop p (root _ h) = ground (arith, inv.roots_seen p h)
  Descends-seen w inv stop p (child q _ d ch) =
      ground (arith, inv.closed q p (Descends-seen w inv stop q d) (ap (has q) stop) ch)

  final : Walk
  final = walk (length roots + length processes) (children roots processes) (start roots)

  final_lem : Inv roots processes [] final × (final.queue ≡ [])
  unfolding final
  final_lem =
      walk_ends (length roots + length processes) (start roots) (Inv-start roots processes)
        measure-start

  -- The loop over the queue ends: it has nothing left on the queue after as many rounds as there are
  -- roots and processes, whatever the parents are, cycles included.
  pub walk_terminates :
      (fuel : ℕ)
      → length roots + length processes ≤ fuel
      → (walk fuel (fill_children [] processes) (start roots)).queue ≡ []
  walk_terminates fuel enough =
      (walk_ends fuel (start roots) (Inv-start roots processes) (omega (arith, measure-start))).1

  -- The expanded PIDs are the roots and their descendants in the process table, no more and no
  -- fewer, each of them once and in increasing order.
  pub expand_pid_tree-Descends :
      ((p : ℕ) → (has p (expand_pid_tree roots processes) ≡ true) ↔ Descends roots processes p)
      × IsIncreasing (expand_pid_tree roots processes)
  unfolding expand_pid_tree final
  expand_pid_tree-Descends = (
    λ p. (
      (λ h. final_lem.0.reached p (ground (arith, final_lem.0.same p, has-sort p final.result))),
      (λ d.
          has-sort p final.result
          ∙ final_lem.0.same p
          ∙ Descends-seen final final_lem.0 final_lem.1 p d),
    ),
    IsIncreasing-sort final.result final_lem.0.distinct,
  )
