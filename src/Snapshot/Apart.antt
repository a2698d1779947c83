-- ===== src/Snapshot/Apart.antt =====
-- metrics/mod.rs: no two GPUs of a snapshot have the same index.
use spark_dashboard.Prelude.{
  ℕ, zero, suc, ◌+◌, ◌^◌, ◌<◌, ◌≤◌, String, ◌≡◌, refl, sym, ap, ◌∙◌, subst, Bool, Option, none,
  some, List, [], ◌∷◌, ◌++◌, map, All, All-append, All-filterb, filterb, arith, leb, Bool-cases,
  inl, inr,
}
use spark_dashboard.Float.{F64}
use spark_dashboard.Detection.PidLists.{IsIncreasing}
use spark_dashboard.Gpu.{
  value, Device, GpuMetrics, collect_gpu_metrics, collect_gpu_metrics_for_device,
}
use spark_dashboard.Gpu.Simulated.{range, index_at, simulated_gpu, simulated_gpus}
use spark_dashboard.Snapshot.{Nvml, indexes_of, opened, simulated_base_index, devices_at, all_gpus}

All-range : (start n : ℕ) → All (λ i. start ≤ i) (range start n)
unfolding range
All-range start zero = tt
All-range start (suc n) = (omega arith, weaken (range (suc start) n) (All-range (suc start) n))
  where
    weaken : (l : List ℕ) → All (λ i. suc start ≤ i) l → All (λ i. start ≤ i) l
    weaken [] h = tt
    weaken (i ∷ l) h = (omega (arith, h.0), weaken l h.1)

All-range-below : (start n bound : ℕ) → start + n ≤ bound → All (λ i. i < bound) (range start n)
unfolding range
All-range-below start zero bound h = tt
All-range-below start (suc n) bound h =
    (omega arith, All-range-below (suc start) n bound (omega arith))

IsIncreasing-range : (start n : ℕ) → IsIncreasing (range start n)
unfolding range
IsIncreasing-range start zero = tt
IsIncreasing-range start (suc n) =
    (strict (range (suc start) n) (All-range (suc start) n), IsIncreasing-range (suc start) n)
  where
    strict : (l : List ℕ) → All (λ i. suc start ≤ i) l → All (λ i. start < i) l
    strict [] h = tt
    strict (i ∷ l) h = (omega (arith, h.0), strict l h.1)

IsIncreasing-filterb : (p : ℕ → Bool) (l : List ℕ) → IsIncreasing l → IsIncreasing (filterb p l)
IsIncreasing-filterb p [] h = tt
IsIncreasing-filterb p (x ∷ l) h = elim (Bool-cases (p x)) [
  | inl kept ↦ rw kept (All-filterb _ p l h.0, IsIncreasing-filterb p l h.1)
  | inr gone ↦ rw gone (IsIncreasing-filterb p l h.1)
]

IsIncreasing-append :
    (bound : ℕ) (xs ys : List ℕ)
    → IsIncreasing xs
    → All (λ i. i < bound) xs
    → IsIncreasing ys
    → All (λ i. bound ≤ i) ys
    → IsIncreasing (xs ++ ys)
IsIncreasing-append bound [] ys h below k above = k
IsIncreasing-append bound (x ∷ xs) ys h below k above = (
  All-append (λ i. x < i) xs ys h.0 (beyond ys above),
  IsIncreasing-append bound xs ys h.1 below.1 k above,
)
  where
    beyond : (l : List ℕ) → All (λ i. bound ≤ i) l → All (λ i. x < i) l
    beyond [] h = tt
    beyond (i ∷ l) h = (omega (arith, h.0, below.0), beyond l h.1)

-- Without overflow the offsets give the numbers from the base on.
index_at-range :
    (base start n : ℕ)
    → base + start + n ≤ 2 ^ 32
    → map (index_at base) (range start n) ≡ range (base + start) n
unfolding range
index_at-range base start zero h = refl
index_at-range base start (suc n) h =
    let first : index_at base start ≡ base + start = omega arith in
    let shifted : base + suc start ≡ suc (base + start) = omega arith in
    let rest =
      subst (λ s. map (index_at base) (range (suc start) n) ≡ range s n) shifted
        (index_at-range base (suc start) n (omega arith)) in
    rw (first, rest) refl

indexes_of-bounds :
    (gpu_index : Option ℕ) (count : ℕ)
    → IsIncreasing (indexes_of gpu_index count) × All (λ i. i < count) (indexes_of gpu_index count)
unfolding indexes_of
indexes_of-bounds none count =
    (IsIncreasing-range 0 count, All-range-below 0 count count (omega arith))
indexes_of-bounds (some index) count = elim (Bool-cases (leb count index)) [
  | inl out ↦ rw out (tt, tt)
  | inr within ↦ rw within ((tt, tt), (ground arith, tt))
]

map-append : {A B : Type 0} (g : A → B) (xs ys : List A) → map g (xs ++ ys) ≡ map g xs ++ map g ys
map-append g [] ys = refl
map-append g (x ∷ xs) ys = ap (λ l. g x ∷ l) (map-append g xs ys)

module _ {F : Type 0} (f : F64 F) (sin : F → F) (tau : F) (decimals : ℕ → String) where
  -- The indexes that GPUs have.
  abbrev pub HasIndexes : List (GpuMetrics F) → List ℕ → Type 0
  HasIndexes gpus indexes = map (λ g. g.index) gpus ≡ map some indexes

  collect-HasIndexes :
      (answers : ℕ → Device) (indexes : List ℕ)
      → HasIndexes (collect_gpu_metrics f (devices_at answers indexes)) indexes
  unfolding collect_gpu_metrics_for_device
  collect-HasIndexes answers [] = refl
  collect-HasIndexes answers (i ∷ indexes) =
      ap (λ l. some i ∷ l) (collect-HasIndexes answers indexes)

  simulated-HasIndexes :
      (base now : ℕ) (offsets : List ℕ)
      → HasIndexes
          (map (λ o. simulated_gpu f sin tau decimals (index_at base o) now) offsets)
          (map (index_at base) offsets)
  unfolding simulated_gpu
  simulated-HasIndexes base now [] = refl
  simulated-HasIndexes base now (o ∷ offsets) =
      ap (λ l. some (index_at base o) ∷ l) (simulated-HasIndexes base now offsets)

  simulated_gpus-HasIndexes :
      (count base now : ℕ)
      → base + count ≤ 2 ^ 32
      → HasIndexes (simulated_gpus f sin tau decimals count base now) (range base count)
  unfolding simulated_gpus
  simulated_gpus-HasIndexes count base now h =
      simulated-HasIndexes base now (range 0 count)
      ∙ ap (map some) (
          subst (λ b. map (index_at base) (range 0 count) ≡ range b count) (omega arith)
            (index_at-range base 0 count (omega arith)))

  HasIndexes-append :
      (some_gpus more : List (GpuMetrics F)) (is js : List ℕ)
      → HasIndexes some_gpus is
      → HasIndexes more js
      → HasIndexes (some_gpus ++ more) (is ++ js)
  HasIndexes-append some_gpus more is js h k =
      map-append (λ g. g.index) some_gpus more
      ∙ ap (λ l. l ++ map (λ g. g.index) more) h
      ∙ ap (λ l. map some is ++ l) k
      ∙ sym (map-append some is js)

  opened-bounds :
      (n : Nvml) (gpu_index : Option ℕ) (count : ℕ)
      → n.device_count ≡ value count
      → IsIncreasing (opened (some n) gpu_index) × All (λ i. i < count) (opened (some n) gpu_index)
  unfolding opened
  opened-bounds n gpu_index count counted = rw counted (
    IsIncreasing-filterb n.opens _ (indexes_of-bounds gpu_index count).0,
    All-filterb (λ i. i < count) n.opens _ (indexes_of-bounds gpu_index count).1,
  )

  -- The GPUs of a snapshot are the open devices and the fictive ones after all devices that NVML
  -- counts, in the order of their indexes, and no two have the same one: where both calls of NVML give
  -- the same count, and the fictive ones fit in 32 bits.
  pub all_gpus-apart :
      (n : Nvml) (gpu_index : Option ℕ) (answers : ℕ → Device) (count simulate_gpus now : ℕ)
      → n.device_count ≡ value count
      → n.later_device_count ≡ value count
      → count + simulate_gpus ≤ 2 ^ 32
      → let indexes = opened (some n) gpu_index ++ range count simulate_gpus in
        HasIndexes
          (all_gpus f sin tau decimals
            (devices_at answers (opened (some n) gpu_index))
            simulate_gpus
            (simulated_base_index (some n))
            now)
          indexes
        × IsIncreasing indexes
  unfolding opened
  all_gpus-apart n gpu_index answers count simulate_gpus now counted again fits =
      let bounds = opened-bounds n gpu_index count counted in
      rw again (
        HasIndexes-append _ _ _ _ (collect-HasIndexes answers (opened (some n) gpu_index))
            (simulated_gpus-HasIndexes simulate_gpus count now fits),
        IsIncreasing-append count _ _ bounds.0 bounds.1 (IsIncreasing-range count simulate_gpus)
            (All-range count simulate_gpus),
      )
