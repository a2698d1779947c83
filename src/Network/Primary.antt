-- ===== src/Network/Primary.antt =====
-- metrics/network.rs: which interface is the primary one, and what the totals add up to.
use spark_dashboard.Prelude.{
  ℕ, ◌+◌, ◌%◌, ◌^◌, ◌≡◌, ◌∙◌, ap, refl, Bool, true, false, Option, some, List, [], ◌∷◌, ◌++◌, ◌⊎◌,
  inl, inr, All, arith, Bool-cases,
}
use spark_dashboard.Network.{
  InterfaceInfo, NetworkMetrics, outranks, outcarries, Scan, scan, scan_start, candidates,
  metrics_of, select_network_metrics, turn,
}

abbrev pub sum : (InterfaceInfo → ℕ) → List InterfaceInfo → ℕ
sum count [] = 0
sum count (i ∷ interfaces) = count i + sum count interfaces

-- The first of the interfaces of `pool` that no other one is above.
abbrev pub IsFirstBest :
    (InterfaceInfo → InterfaceInfo → Bool) → List InterfaceInfo → InterfaceInfo → Type 0
IsFirstBest above pool i =
    (before after : List InterfaceInfo) × (pool ≡ before ++ i ∷ after)
    × All (λ j. above i j ≡ true) before
    × All (λ j. above j i ≡ false) after

-- What the metrics say of a pool: the name of its first best interface, and its traffic modulo 2^64.
abbrev pub IsPrimary :
    (InterfaceInfo → InterfaceInfo → Bool) → List InterfaceInfo → NetworkMetrics → Type 0
IsPrimary above pool m =
    ((i : InterfaceInfo) × IsFirstBest above pool i × (m.name ≡ some i.name))
    × (m.rx_bytes_per_sec ≡ sum (λ i. i.rx) pool % 2 ^ 64)
    × (m.tx_bytes_per_sec ≡ sum (λ i. i.tx) pool % 2 ^ 64)

-- `above` is a strict order whose incomparability is transitive.
record IsRanking (above : InterfaceInfo → InterfaceInfo → Bool) : Type 0 where
  trans : (i j k : InterfaceInfo) → above i j ≡ true → above j k ≡ true → above i k ≡ true
  trans_not : (i j k : InterfaceInfo) → above i k ≡ true → above j k ≡ false → above i j ≡ true

outranks-IsRanking : IsRanking outranks
outranks-IsRanking = record {
  trans = λ i j k p q. ground arith;
  trans_not = λ i j k p q. ground arith;
}

outcarries-IsRanking : IsRanking outcarries
outcarries-IsRanking = record {
  trans = λ i j k p q. ground arith;
  trans_not = λ i j k p q. ground arith;
}

module _ (above : InterfaceInfo → InterfaceInfo → Bool) (laws : IsRanking above) where
  -- The best interface of a scan that starts with `b`: still `b`, or the first best of the rest.
  Kept : InterfaceInfo → List InterfaceInfo → Option InterfaceInfo → Type 0
  Kept b interfaces r =
      ((r ≡ some b) × All (λ j. above j b ≡ false) interfaces)
      ⊎ ((i : InterfaceInfo) × (r ≡ some i) × (above i b ≡ true) × IsFirstBest above interfaces i)

  best-scan :
      (s : Scan) (b : InterfaceInfo) (interfaces : List InterfaceInfo)
      → s.best ≡ some b
      → Kept b interfaces (scan above s interfaces).best
  unfolding scan Kept
  best-scan s b [] h = inl (h, tt)
  best-scan s b (j ∷ interfaces) h = elim (Bool-cases (above j b)) [
    | inl up ↦ elim (best-scan (turn above s j) j interfaces (rw h (rw up refl))) [
      | inl (r, all) ↦ inr (j, r, up, ([], interfaces, refl, tt, all))
      | inr (i, r, ij, (before, after, split, all, rest)) ↦ inr (
        i,
        r,
        laws.trans i j b ij up,
        (j ∷ before, after, ap (λ l. j ∷ l) split, (ij, all), rest),
      )
    ]
    | inr down ↦ elim (best-scan (turn above s j) b interfaces (rw h (rw down refl))) [
      | inl (r, all) ↦ inl (r, (down, all))
      | inr (i, r, ib, (before, after, split, all, rest)) ↦ inr (
        i,
        r,
        ib,
        (j ∷ before, after, ap (λ l. j ∷ l) split, (laws.trans_not i j b ib down, all), rest),
      )
    ]
  ]

  first-scan :
      (c : InterfaceInfo) (interfaces : List InterfaceInfo)
      → (i : InterfaceInfo) × IsFirstBest above (c ∷ interfaces) i
        × ((scan above scan_start (c ∷ interfaces)).best ≡ some i)
  unfolding scan Kept
  first-scan c interfaces = elim (best-scan (turn above scan_start c) c interfaces refl) [
    | inl (r, all) ↦ (c, ([], interfaces, refl, tt, all), r)
    | inr (i, r, ic, (before, after, split, all, rest)) ↦
        (i, (c ∷ before, after, ap (λ l. c ∷ l) split, (ic, all), rest), r)
  ]

totals-scan :
    (above : InterfaceInfo → InterfaceInfo → Bool) (s : Scan) (interfaces : List InterfaceInfo)
    → (s.total_rx ≡ s.total_rx % 2 ^ 64)
    → (s.total_tx ≡ s.total_tx % 2 ^ 64)
    → ((scan above s interfaces).total_rx ≡ (s.total_rx + sum (λ i. i.rx) interfaces) % 2 ^ 64)
      × ((scan above s interfaces).total_tx ≡ (s.total_tx + sum (λ i. i.tx) interfaces) % 2 ^ 64)
unfolding scan
totals-scan above s [] hr ht = (omega arith, omega arith)
totals-scan above s (i ∷ interfaces) hr ht =
    let rest = totals-scan above (turn above s i) interfaces (omega arith) (omega arith) in
    (rest.0 ∙ omega arith, rest.1 ∙ omega arith)

IsPrimary-scan :
    (above : InterfaceInfo → InterfaceInfo → Bool) (laws : IsRanking above) (c : InterfaceInfo)
    (rest : List InterfaceInfo)
    → IsPrimary above (c ∷ rest) (metrics_of (scan above scan_start (c ∷ rest)))
IsPrimary-scan above laws c rest =
    let first = first-scan above laws c rest in
    let totals = totals-scan above scan_start (c ∷ rest) refl refl in
    ((first.0, first.1, rw first.2 refl), totals.0 ∙ omega arith, totals.1 ∙ omega arith)

-- Where there is an interface that is not virtual, the primary interface is the first one of those
-- that no other outranks, one with a global address before one without and then by traffic, and the
-- totals are those of the interfaces that are not virtual.
pub IsPrimary-real :
    (interfaces real : List InterfaceInfo) (c : InterfaceInfo)
    → candidates interfaces ≡ c ∷ real
    → IsPrimary outranks (candidates interfaces) (select_network_metrics interfaces)
unfolding select_network_metrics
IsPrimary-real interfaces real c h = rw h (IsPrimary-scan outranks outranks-IsRanking c real)

-- Where all interfaces are virtual, it is the first one with the most traffic, and the totals are
-- those of all interfaces.
pub IsPrimary-fallback :
    (interfaces : List InterfaceInfo) (c : InterfaceInfo)
    → candidates (c ∷ interfaces) ≡ []
    → IsPrimary outcarries (c ∷ interfaces) (select_network_metrics (c ∷ interfaces))
unfolding select_network_metrics
IsPrimary-fallback interfaces c h =
    rw h (IsPrimary-scan outcarries outcarries-IsRanking c interfaces)
