-- ===== src/Detection/PidTree.antt =====
-- engines/detector.rs: the processes of an engine, `expand_pid_tree`.
pub mod Children
mod Walking
pub mod Reach
mod Tests
use spark_dashboard.Prelude.{
  ℕ, zero, suc, ◌+◌, Bool, true, false, Option, none, some, List, [], ◌∷◌, ◌++◌, length, Assoc,
  lookup, upsert, or_default, nat_eq, ◌==◌, if◌then◌else◌,
}
use spark_dashboard.Detection.PidLists.{has, sort}

-- The process table: each process with its parent.
abbrev pub Tree : Type 0
Tree = List (ℕ × Option ℕ)

abbrev pub add_child : ℕ → Option ℕ → Assoc ℕ (List ℕ) → Assoc ℕ (List ℕ)
add_child pid none children = children
add_child pid (some parent) children = upsert parent [] (λ known. known ++ pid ∷ []) children

-- The loop that fills the map of the children.
pub fill_children : Assoc ℕ (List ℕ) → Tree → Assoc ℕ (List ℕ)
fill_children children [] = children
fill_children children ((pid, parent) ∷ processes) =
    fill_children (add_child pid parent children) processes

pub children_of : Assoc ℕ (List ℕ) → ℕ → List ℕ
children_of children pid = or_default [] (lookup pid children)

-- `queue` has its last element first.
pub record Walk : Type 0 where
  pub seen : List ℕ
  pub queue : List ℕ
  pub result : List ℕ

abbrev pub enter : ℕ → Walk → Walk
enter pid w = record { seen = pid ∷ w.seen; queue = pid ∷ w.queue; result = w.result ++ pid ∷ [] }

pub visit : ℕ → Walk → Walk
visit pid w = if has pid w.seen then w else enter pid w

abbrev pub visit_all : List ℕ → Walk → Walk
visit_all [] w = w
visit_all (pid ∷ pids) w = visit_all pids (visit pid w)

-- The roots go to the queue and to the result as the children do.
pub start : List ℕ → Walk
start roots = visit_all roots (record { seen = []; queue = []; result = [] })

-- `while let Some(pid) = queue.pop()`
pub walk : ℕ → Assoc ℕ (List ℕ) → Walk → Walk
walk zero children w = w
walk (suc fuel) children w = elim w.queue [
  | [] ↦ w
  | pid ∷ queue ↦
      walk fuel children (visit_all (children_of children pid) (record w { queue = queue }))
]

pub expand_pid_tree : List ℕ → Tree → List ℕ
unfolding fill_children start walk
expand_pid_tree roots processes =
    sort (walk (length roots + length processes) (fill_children [] processes) (start roots)).result
