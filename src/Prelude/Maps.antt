-- ===== src/Prelude/Maps.antt =====
-- `HashMap` as a list of entries. The order of the entries stands for the unspecified order of
-- iteration.
use mathlib.Core.Path.{◌≡◌, refl}
use mathlib.Core.List.{List, [], ◌∷◌}
use mathlib.Core.Option.{Option, none, some}
use native.Mathlib.Omega.{arith}
use mathlib.Core.Bool.{Bool, true, false}
use mathlib.Core.Logic.{inl, inr}
use spark_dashboard.Prelude.Tests.{Eq, ◌==◌, if◌then◌else◌, Bool-cases, Option-cases}

abbrev pub Assoc {ℓ κ} : Type ℓ → Type κ → Type (ℓ ⊔ κ)
Assoc K V = List (K × V)

abbrev pub bind_some {ℓ κ} : {A : Type ℓ} {B : Type κ} → Option A → (A → Option B) → Option B
bind_some none f = none
bind_some (some a) f = f a

abbrev pub cons_some {ℓ} : {A : Type ℓ} → Option A → List A → List A
cons_some none xs = xs
cons_some (some x) xs = x ∷ xs

abbrev pub or_default {ℓ} : {A : Type ℓ} → A → Option A → A
or_default d none = d
or_default d (some v) = v

module _ {ℓ κ} {K : Type ℓ} {V : Type κ} ⦃e : Eq K⦄ where
  unfoldable pub lookup : K → Assoc K V → Option V
  lookup key [] = none
  lookup key ((other, found) ∷ rest) = if other == key then some found else lookup key rest

  -- `HashMap::insert`
  unfoldable pub insert : K → V → Assoc K V → Assoc K V
  insert key new [] = (key, new) ∷ []
  insert key new ((other, old) ∷ rest) =
      if other == key then (other, new) ∷ rest else (other, old) ∷ insert key new rest

  -- `entry(k).or_insert(d)`, followed by a change through the reference that it returns
  unfoldable pub upsert : K → V → (V → V) → Assoc K V → Assoc K V
  upsert k d f [] = (k, f d) ∷ []
  upsert k d f ((j, w) ∷ m) = if j == k then (j, f w) ∷ m else (j, w) ∷ upsert k d f m

  abbrev pub UniqueKeys : Assoc K V → Type κ
  UniqueKeys [] = Unit
  UniqueKeys ((k, v) ∷ m) = (lookup k m ≡ none) × UniqueKeys m

  pub lookup-insert :
      (key asked : K) (new : V) (entries : Assoc K V)
      → lookup asked (insert key new entries)
        ≡ (if key == asked then some new else lookup asked entries)
  unfolding insert lookup
  lookup-insert key asked new [] = refl
  lookup-insert key asked new ((i, old) ∷ entries) = ground (
    arith,
    lookup-insert key asked new entries,
    e.beq_iff key asked,
    e.beq_iff i key,
    e.beq_iff i asked,
  )

  pub lookup-upsert :
      (k j : K) (d : V) (f : V → V) (m : Assoc K V)
      → lookup j (upsert k d f m)
        ≡ (if k == j then some (f (or_default d (lookup k m))) else lookup j m)
  unfolding lookup upsert
  lookup-upsert k j d f [] = refl
  lookup-upsert k j d f ((i, w) ∷ m) =
      ground (arith, e.beq_iff k j, e.beq_iff i k, e.beq_iff i j, lookup-upsert k j d f m)

  pub UniqueKeys-insert : (k : K) (v : V) (m : Assoc K V) → UniqueKeys m → UniqueKeys (insert k v m)
  unfolding insert lookup
  UniqueKeys-insert k v [] h = (refl, tt)
  UniqueKeys-insert k v ((j, w) ∷ m) h =
      ground (arith, lookup-insert k j v m, e.beq_iff j k, e.beq_iff k j, UniqueKeys-insert k v m)

  pub UniqueKeys-upsert :
      (k : K) (d : V) (f : V → V) (m : Assoc K V) → UniqueKeys m → UniqueKeys (upsert k d f m)
  unfolding upsert lookup
  UniqueKeys-upsert k d f [] h = (refl, tt)
  UniqueKeys-upsert k d f ((j, w) ∷ m) h =
      ground
        (arith, lookup-upsert k j d f m, e.beq_iff j k, e.beq_iff k j, UniqueKeys-upsert k d f m)

-- A new map from an iteration over the old one, some entries left out.
abbrev pub tag {ℓ κ} : {K : Type ℓ} {W : Type κ} → K → Option W → Option (K × W)
tag k none = none
tag k (some w) = some (k, w)

module _ {ℓ κ μ} {K : Type ℓ} {V : Type κ} {W : Type μ} where
  unfoldable pub filter_map_entries : (K → V → Option W) → Assoc K V → Assoc K W
  filter_map_entries f [] = []
  filter_map_entries f ((k, v) ∷ m) = cons_some (tag k (f k v)) (filter_map_entries f m)

  unfoldable pub map_entries : (K → V → W) → Assoc K V → Assoc K W
  map_entries f [] = []
  map_entries f ((k, v) ∷ m) = (k, f k v) ∷ map_entries f m

module _ {ℓ κ μ} {K : Type ℓ} {V : Type κ} {W : Type μ} ⦃e : Eq K⦄ where
  pub lookup-map_entries :
      (f : K → V → W) (k : K) (m : Assoc K V)
      → lookup k (map_entries f m) ≡ bind_some (lookup k m) (λ v. some (f k v))
  unfolding lookup map_entries
  lookup-map_entries f k [] = refl
  lookup-map_entries f k ((j, v) ∷ m) = ground (arith, e.beq_iff j k, lookup-map_entries f k m)

  pub lookup-filter_map_entries :
      (f : K → V → Option W) (k : K) (m : Assoc K V)
      → UniqueKeys m
      → lookup k (filter_map_entries f m) ≡ bind_some (lookup k m) (f k)
  unfolding lookup filter_map_entries
  lookup-filter_map_entries f k [] h = refl
  lookup-filter_map_entries f k ((j, v) ∷ m) h =
      ground (arith, e.beq_iff j k, lookup-filter_map_entries f k m)

  pub UniqueKeys-map_entries :
      (f : K → V → W) (m : Assoc K V) → UniqueKeys m → UniqueKeys (map_entries f m)
  unfolding map_entries
  UniqueKeys-map_entries f [] h = tt
  UniqueKeys-map_entries f ((j, v) ∷ m) h =
      ground (arith, lookup-map_entries f j m, UniqueKeys-map_entries f m)

  pub UniqueKeys-filter_map_entries :
      (f : K → V → Option W) (m : Assoc K V) → UniqueKeys m → UniqueKeys (filter_map_entries f m)
  unfolding filter_map_entries
  UniqueKeys-filter_map_entries f [] h = tt
  UniqueKeys-filter_map_entries f ((j, v) ∷ m) h =
      ground (arith, lookup-filter_map_entries f j m, UniqueKeys-filter_map_entries f m)

abbrev pub Each {ℓ κ μ} : {K : Type ℓ} {V : Type κ} → (K → V → Type μ) → Assoc K V → Type μ
Each P [] = Unit
Each P ((k, v) ∷ m) = P k v × Each P m

abbrev pub EachValue {ℓ κ μ} : {K : Type ℓ} {V : Type κ} → (V → Type μ) → Assoc K V → Type μ
EachValue P m = Each (λ k v. P v) m

module _ {ℓ κ μ} {K : Type ℓ} {V : Type κ} ⦃e : Eq K⦄ (P : K → V → Type μ) where
  Each-if : (b : Bool) (xs ys : Assoc K V) → Each P xs → Each P ys → Each P (if b then xs else ys)
  Each-if true xs ys h r = h
  Each-if false xs ys h r = r

  pub Each-upsert :
      (k : K) (d : V) (f : V → V) (m : Assoc K V)
      → P k d
      → ((j : K) (v : V) → P j v → P j (f v))
      → Each P m
      → Each P (upsert k d f m)
  unfolding upsert
  Each-upsert k d f [] hd hf h = (hf k d hd, tt)
  Each-upsert k d f ((j, w) ∷ m) hd hf h =
      Each-if (j == k) _ _ (hf j w h.0, h.1) (h.0, Each-upsert k d f m hd hf h.1)

  pub Each-insert : (k : K) (v : V) (m : Assoc K V) → P k v → Each P m → Each P (insert k v m)
  unfolding insert
  Each-insert k v [] hk h = (hk, tt)
  Each-insert k v ((j, w) ∷ m) hk h = elim (Bool-cases (j == k)) [
    | inl same ↦ rw same (rw ((e.beq_iff j k).0 same) hk, h.1)
    | inr other ↦ rw other (h.0, Each-insert k v m hk h.1)
  ]

  pub Each-lookup : (k : K) (m : Assoc K V) (v : V) → Each P m → lookup k m ≡ some v → P k v
  unfolding lookup
  Each-lookup k [] v h found = cc
  Each-lookup k ((j, w) ∷ m) v h found = elim (Bool-cases (j == k)) [
    | inl same ↦
        let value : w ≡ v = ground arith in rw (← (e.beq_iff j k).0 same) (rw (← value) h.0)
    | inr other ↦ Each-lookup k m v h.1 (ground arith)
  ]

  pub Each-filter_map_entries :
      (f : K → V → Option V) (m : Assoc K V)
      → ((k : K) (v w : V) → P k v → f k v ≡ some w → P k w)
      → Each P m
      → Each P (filter_map_entries f m)
  unfolding filter_map_entries
  Each-filter_map_entries f [] hf h = tt
  Each-filter_map_entries f ((k, v) ∷ m) hf h = elim (Option-cases (f k v)) [
    | inl gone ↦ rw gone (Each-filter_map_entries f m hf h.1)
    | inr (w, kept) ↦ rw kept (hf k v w h.0 kept, Each-filter_map_entries f m hf h.1)
  ]

module _ {ℓ κ μ ν} {K : Type ℓ} {V : Type κ} {W : Type μ} (P : K → V → Type ν)
    (Q : K → W → Type ν) where
  pub Each-map_entries :
      (f : K → V → W) (m : Assoc K V)
      → ((k : K) (v : V) → P k v → Q k (f k v))
      → Each P m
      → Each Q (map_entries f m)
  unfolding map_entries
  Each-map_entries f [] hf h = tt
  Each-map_entries f ((k, v) ∷ m) hf h = (hf k v h.0, Each-map_entries f m hf h.1)
