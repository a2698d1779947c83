-- ===== src/Detection/PidTree/Tests.antt =====
-- The processes of a server, its workers, and a cycle.
use spark_dashboard.Prelude.{lookup, upsert, ℕ, ◌≡◌, ◌↔◌, refl, true, none, some, [], ◌∷◌, arith}
use spark_dashboard.Detection.PidLists.{has, sort, IsIncreasing}
use spark_dashboard.Detection.PidTree.{
  Tree, visit, children_of, fill_children, start, walk, expand_pid_tree,
}
use spark_dashboard.Detection.PidTree.Children.{Descends}
use spark_dashboard.Detection.PidTree.Reach.{walk_terminates, expand_pid_tree-Descends}

-- 7 and 8 are each other's parents, and 7 has a child.
abbrev processes : Tree
processes = (5, none) ∷ (6, some 5) ∷ (7, some 8) ∷ (8, some 7) ∷ (9, some 7) ∷ []

walk_terminates_example : (walk 9 (fill_children [] processes) (start (8 ∷ 5 ∷ []))).queue ≡ []
walk_terminates_example = walk_terminates (8 ∷ 5 ∷ []) processes 9 (omega arith)

expand_pid_tree-Descends_example :
    ((p : ℕ) → (has p (expand_pid_tree (8 ∷ []) processes) ≡ true) ↔ Descends (8 ∷ []) processes p)
    × IsIncreasing (expand_pid_tree (8 ∷ []) processes)
expand_pid_tree-Descends_example = expand_pid_tree-Descends (8 ∷ []) processes

expanded_test : expand_pid_tree (8 ∷ []) processes ≡ 7 ∷ 8 ∷ 9 ∷ []
unfolding expand_pid_tree sort visit children_of lookup upsert
expanded_test = refl
