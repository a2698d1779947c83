-- ===== src/Gpu/Placed.antt =====
-- metrics/gpu.rs: the GPUs that an engine is seen on.
use spark_dashboard.Prelude.{
  ℕ, ◌<◌, ◌≤◌, ◌≡◌, refl, ◌∙◌, Bool, ◌&&◌, List, [], ◌∷◌, map, any, All, filterb, arith, leb, ◌==◌,
  nat_eq, nat_beq_iff, Bool-cases, inl, inr,
}
use spark_dashboard.Detection.PidLists.{has, insert_sorted, sort, has-sort, IsIncreasing}
use spark_dashboard.Detection.Docker.{dedup}
use spark_dashboard.Gpu.{runs_some, gpu_indexes_for_pids}

-- No number is less than one before it.
abbrev IsRising : List ℕ → Type 0
IsRising [] = Unit
IsRising (x ∷ xs) = All (λ y. x ≤ y) xs × IsRising xs

All-at_least : (x y : ℕ) (ys : List ℕ) → x ≤ y → All (λ z. y ≤ z) ys → All (λ z. x ≤ z) ys
All-at_least x y [] h hs = tt
All-at_least x y (z ∷ zs) h hs = (omega (arith, hs.0), All-at_least x y zs h hs.1)

All-insert_sorted :
    (z x : ℕ) (xs : List ℕ) → z ≤ x → All (λ y. z ≤ y) xs → All (λ y. z ≤ y) (insert_sorted x xs)
All-insert_sorted z x [] h hs = (h, tt)
All-insert_sorted z x (y ∷ ys) h hs = elim (Bool-cases (leb x y)) [
  | inl first ↦ rw first (h, hs)
  | inr later ↦ rw later (hs.0, All-insert_sorted z x ys h hs.1)
]

IsRising-insert_sorted : (x : ℕ) (xs : List ℕ) → IsRising xs → IsRising (insert_sorted x xs)
IsRising-insert_sorted x [] h = (tt, tt)
IsRising-insert_sorted x (y ∷ ys) h = elim (Bool-cases (leb x y)) [
  | inl first ↦
      let below : x ≤ y = ground arith in rw first ((below, All-at_least x y ys below h.0), h)
  | inr later ↦
      let above : y ≤ x = ground arith in
      rw later (All-insert_sorted y x ys above h.0, IsRising-insert_sorted x ys h.1)
]

IsRising-sort : (xs : List ℕ) → IsRising (sort xs)
unfolding sort
IsRising-sort [] = tt
IsRising-sort (x ∷ xs) = IsRising-insert_sorted x (sort xs) (IsRising-sort xs)

has-dedup : (p : ℕ) (xs : List ℕ) → has p (dedup xs) ≡ has p xs
has-dedup p [] = refl
has-dedup p (x ∷ []) = refl
has-dedup p (x ∷ y ∷ ys) = ground (arith, has-dedup p (y ∷ ys), nat_beq_iff x y)

All-dedup : (P : ℕ → Type 0) (xs : List ℕ) → All P xs → All P (dedup xs)
All-dedup P [] h = h
All-dedup P (x ∷ []) h = h
All-dedup P (x ∷ y ∷ ys) h = elim (Bool-cases (x == y)) [
  | inl same ↦ rw same (All-dedup P (y ∷ ys) h.1)
  | inr other ↦ rw other (h.0, All-dedup P (y ∷ ys) h.1)
]

All-beyond : (x y : ℕ) (ys : List ℕ) → x < y → All (λ z. y ≤ z) ys → All (λ z. x < z) ys
All-beyond x y [] h hs = tt
All-beyond x y (z ∷ zs) h hs = (omega (arith, hs.0), All-beyond x y zs h hs.1)

IsIncreasing-dedup : (xs : List ℕ) → IsRising xs → IsIncreasing (dedup xs)
IsIncreasing-dedup [] h = tt
IsIncreasing-dedup (x ∷ []) h = (tt, tt)
IsIncreasing-dedup (x ∷ y ∷ ys) h = elim (Bool-cases (x == y)) [
  | inl same ↦ rw same (IsIncreasing-dedup (y ∷ ys) h.1)
  | inr other ↦
      let below : x < y = ground (arith, nat_beq_iff x y, h.0.0) in
      rw other (
        All-dedup (λ z. x < z) (y ∷ ys) (below, All-beyond x y ys below h.1.0),
        IsIncreasing-dedup (y ∷ ys) h.1,
      )
]

-- Whether some device of the index has one of the PIDs.
abbrev pub is_run_on : ℕ → List ℕ → List (ℕ × List ℕ) → Bool
is_run_on i pids lists = any (λ d. d.0 == i && runs_some pids d.1) lists

has-filtered :
    (i : ℕ) (pids : List ℕ) (lists : List (ℕ × List ℕ))
    → has i (map (λ d. d.0) (filterb (λ d. runs_some pids d.1) lists)) ≡ is_run_on i pids lists
has-filtered i pids [] = refl
has-filtered i pids ((j, dev_pids) ∷ lists) = elim (Bool-cases (runs_some pids dev_pids)) [
  | inl runs ↦
      rw (runs, has-filtered i pids lists)
        (elim (Bool-cases (j == i)) [ inl same ↦ rw same refl | inr other ↦ rw other refl ])
  | inr idle ↦
      rw (idle, has-filtered i pids lists)
        (elim (Bool-cases (j == i)) [ inl same ↦ rw same refl | inr other ↦ rw other refl ])
]

-- An engine's GPUs are those of which a compute process is one of its processes, each of them once
-- and in the order of their indexes.
pub gpu_indexes_for_pids-runs :
    (pids : List ℕ) (lists : List (ℕ × List ℕ))
    → IsIncreasing (gpu_indexes_for_pids pids lists)
      × ((i : ℕ) → has i (gpu_indexes_for_pids pids lists) ≡ is_run_on i pids lists)
unfolding gpu_indexes_for_pids
gpu_indexes_for_pids-runs pids lists =
    let indexes = map (λ d. d.0) (filterb (λ d. runs_some pids d.1) lists) in
    (
      IsIncreasing-dedup (sort indexes) (IsRising-sort indexes),
      λ i. has-dedup i (sort indexes) ∙ has-sort i indexes ∙ has-filtered i pids lists,
    )
