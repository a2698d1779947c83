-- ===== src/Detection/PidTree/Children.antt =====
-- engines/detector.rs: the children of a process, and the descendants of the roots.
use spark_dashboard.Prelude.{
  ℕ, ◌+◌, ◌≤◌, ◌≡◌, Bool, true, false, ◌&&◌, ◌||◌, Option, none, some, List, [], ◌∷◌, ◌++◌, inl,
  inr, length, any, Assoc, lookup, or_default, lookup-upsert, arith, nat_eq, nat_beq_iff, ◌==◌,
  if◌then◌else◌, Bool-cases,
}
use spark_dashboard.Detection.PidLists.{has, has-append}
use spark_dashboard.Detection.PidTree.{Tree, add_child, fill_children, children_of}

abbrev pub is_parent : ℕ → Option ℕ → Bool
is_parent q none = false
is_parent q (some p) = p == q

-- The table has the process `p` with the parent `q`.
abbrev pub is_child : Tree → ℕ → ℕ → Bool
is_child processes q p = any (λ r. r.0 == p && is_parent q r.1) processes

-- The roots and their descendants.
pub data Descends (roots : List ℕ) (processes : Tree) : ℕ → Type 0 where
  root : (p : ℕ) → has p roots ≡ true → Descends roots processes p
  child :
      (q p : ℕ)
      → Descends roots processes q
      → is_child processes q p ≡ true
      → Descends roots processes p

children_of-add_child :
    (pid : ℕ) (parent : Option ℕ) (children : Assoc ℕ (List ℕ)) (q p : ℕ)
    → has p (children_of (add_child pid parent children) q)
      ≡ (has p (children_of children q) || (pid == p && is_parent q parent))
unfolding children_of
children_of-add_child pid none children q p = ground arith
children_of-add_child pid (some parent) children q p = ground (
  arith,
  lookup-upsert parent q [] (λ (known : List ℕ). known ++ pid ∷ []) children,
  has-append p (or_default [] (lookup parent children)) (pid ∷ []),
  nat_beq_iff parent q,
)

pub children_of-fill_children :
    (children : Assoc ℕ (List ℕ)) (processes : Tree) (q p : ℕ)
    → has p (children_of (fill_children children processes) q)
      ≡ (has p (children_of children q) || is_child processes q p)
unfolding fill_children
children_of-fill_children children [] q p = ground arith
children_of-fill_children children ((pid, parent) ∷ processes) q p = ground (
  arith,
  children_of-fill_children (add_child pid parent children) processes q p,
  children_of-add_child pid parent children q p,
)

-- The processes that are still to be seen.
pub unseen : Tree → List ℕ → ℕ
unseen [] seen = 0
unseen (r ∷ processes) seen = (if has r.0 seen then 0 else 1) + unseen processes seen

unseen-cons :
    (processes : Tree) (c : ℕ) (seen : List ℕ) → unseen processes (c ∷ seen) ≤ unseen processes seen
unfolding unseen
unseen-cons [] c seen = omega arith
unseen-cons (r ∷ processes) c seen = ground (arith, unseen-cons processes c seen)

pub unseen-new :
    (processes : Tree) (q c : ℕ) (seen : List ℕ)
    → is_child processes q c ≡ true
    → has c seen ≡ false
    → unseen processes (c ∷ seen) + 1 ≤ unseen processes seen
unfolding unseen
unseen-new [] q c seen h new = cc
unseen-new (r ∷ processes) q c seen h new = elim (Bool-cases (r.0 == c)) [
  | inl same ↦ ground (arith, unseen-cons processes c seen, nat_beq_iff r.0 c, nat_beq_iff c r.0)
  | inr other ↦ ground (arith, unseen-new processes q c seen, nat_beq_iff c r.0, nat_beq_iff r.0 c)
]

pub unseen-length : (processes : Tree) (seen : List ℕ) → unseen processes seen ≤ length processes
unfolding unseen
unseen-length [] seen = omega arith
unseen-length (r ∷ processes) seen = ground (arith, unseen-length processes seen)
