-- ===== src/Warmup/Phases.antt =====
-- engines/warmup.rs: when the warmup ends, and when it begins again.
use spark_dashboard.Prelude.{
  beq_refl, ap, ℕ, ◌+◌, ◌≤◌, ◌<◌, ◌≡◌, refl, inl, inr, String, Bool, true, false, ◌&&◌, not, none,
  some, List, [], ◌∷◌, arith, lookup, string_eq, All, Assoc, UniqueKeys, Option-cases,
}
use spark_dashboard.Float.{F64}
use spark_dashboard.Prometheus.{ParsedMetrics}
use spark_dashboard.Warmup.{
  HistogramBaseline, WarmupState, warming, active, WarmupTracker, new, regressed,
  counter_regression, subtract_baseline, current_total, observe,
}

module _ {F : Type 0} where
  abbrev pub is_warming : WarmupState F → Bool
  is_warming (warming _) = true
  is_warming (active _) = false

  abbrev pub baseline_of : ParsedMetrics F → HistogramBaseline F
  baseline_of p = record { counters = p.counters; histograms = p.histograms }

module _ {F : Type 0} (f : F64 F) where
  -- What one poll tells its caller: whether the engine is warming up now, whether it has just ceased
  -- to, and metrics that are adjusted exactly while it is not. Gauges are never touched.
  pub record Tells (t : WarmupTracker F) (parsed : ParsedMetrics F) : Type 0 where
    pub warming_up : (observe f t parsed).0.warming_up ≡ is_warming (observe f t parsed).1.state
    pub just_transitioned :
        (observe f t parsed).0.just_transitioned
        ≡ (is_warming t.state && not (is_warming (observe f t parsed).1.state))
    pub gauges : (observe f t parsed).0.adjusted.gauges ≡ parsed.gauges
    pub passed : (observe f t parsed).0.warming_up ≡ true → (observe f t parsed).0.adjusted ≡ parsed
    pub baselined :
        (b : HistogramBaseline F)
        → (observe f t parsed).1.state ≡ active b
        → (observe f t parsed).0.adjusted ≡ subtract_baseline f parsed b
    pub kept :
        ((observe f t parsed).1.skip_requests ≡ t.skip_requests)
        × ((observe f t parsed).1.trigger_key ≡ t.trigger_key)

  pub observe-Tells : (t : WarmupTracker F) (parsed : ParsedMetrics F) → Tells t parsed
  unfolding observe subtract_baseline
  observe-Tells t parsed = record {
    warming_up = ground arith;
    just_transitioned = ground arith;
    gauges = ground arith;
    passed = λ h. ground arith;
    baselined = λ b h. ground arith;
    kept = ground arith;
  }

  -- The tracker after a run of polls.
  pub observe_all : WarmupTracker F → List (ParsedMetrics F) → WarmupTracker F
  observe_all t [] = t
  observe_all t (p ∷ ps) = observe_all (observe f t p).1 ps

  -- The request count stands at or above a cursor, by less than `skip`.
  abbrev pub Short : WarmupTracker F → ℕ → ParsedMetrics F → Type 0
  Short t cursor p =
      (cursor ≤ current_total f t p) × (current_total f t p < cursor + t.skip_requests)

  stays_warming :
      (t : WarmupTracker F) (cursor : ℕ) (ps : List (ParsedMetrics F))
      → t.state ≡ warming (some cursor)
      → All (Short t cursor) ps
      → observe_all t ps ≡ t
  unfolding observe_all observe
  stays_warming t cursor [] s h = refl
  stays_warming t cursor (p ∷ ps) s h = ground (arith, stays_warming t cursor ps s h.1)

  begins :
      (t : WarmupTracker F) (p : ParsedMetrics F)
      → t.state ≡ warming none
      → 0 < t.skip_requests
      → (observe f t p).1 ≡ record t { state = warming (some (current_total f t p)) }
  unfolding observe
  begins t p s h = ground arith

  ends :
      (t : WarmupTracker F) (cursor : ℕ) (p : ParsedMetrics F)
      → t.state ≡ warming (some cursor)
      → cursor + t.skip_requests ≤ current_total f t p
      → (observe f t p).1 ≡ record t { state = active (baseline_of p) }
  unfolding observe
  ends t cursor p s h = ground arith

  run-Short :
      (t : WarmupTracker F) (p : ParsedMetrics F) (ps : List (ParsedMetrics F))
      → t.state ≡ warming none
      → 0 < t.skip_requests
      → All (Short t (current_total f t p)) ps
      → observe_all t (p ∷ ps) ≡ record t { state = warming (some (current_total f t p)) }
  unfolding observe_all
  run-Short t p ps s pos short = rw (begins t p s pos) (
      stays_warming (record t { state = warming (some (current_total f t p)) })
        (current_total f t p) ps refl short)

  -- With a threshold above 0 the first poll sets the cursor, and the tracker warms up for as long as
  -- the request count stands above the cursor by less than the threshold; the first poll at which it
  -- has reached the threshold ends the warmup, and is the baseline.
  pub warmup_ends :
      (skip_requests : ℕ) (key : String) (first : ParsedMetrics F) (ps : List (ParsedMetrics F))
      (last : ParsedMetrics F)
      → 0 < skip_requests
      → let t : WarmupTracker F = new skip_requests key in
        let cursor : ℕ = current_total f t first in
        All (Short t cursor) ps
        → cursor + skip_requests ≤ current_total f t last
        → ((observe_all t (first ∷ ps)).state ≡ warming (some cursor))
          × ((observe f (observe_all t (first ∷ ps)) last).1.state ≡ active (baseline_of last))
  unfolding observe_all new
  warmup_ends skip_requests key first ps last pos short enough =
      let t : WarmupTracker F = new skip_requests key in
      let cursor : ℕ = current_total f t first in
      rw (run-Short t first ps refl pos short) (
        refl,
        ap (λ (u : WarmupTracker F). u.state)
            (ends (record t { state = warming (some cursor) }) cursor last refl enough),
      )

  absent_Short :
      (t : WarmupTracker F) (ps : List (ParsedMetrics F))
      → 0 < t.skip_requests
      → All (λ p. lookup t.trigger_key p.counters ≡ none) ps
      → All (Short t 0) ps
  absent_Short t [] pos h = tt
  absent_Short t (p ∷ ps) pos h = (rw h.0 (omega arith, omega arith), absent_Short t ps pos h.1)

  -- A tracker whose trigger key no scrape carries never ends its warmup.
  pub warmup_never_ends :
      (skip_requests : ℕ) (key : String) (ps : List (ParsedMetrics F))
      → 0 < skip_requests
      → All (λ p. lookup key p.counters ≡ none) ps
      → is_warming (observe_all (new skip_requests key) ps).state ≡ true
  unfolding new observe_all
  warmup_never_ends skip_requests key [] pos h = refl
  warmup_never_ends skip_requests key (p ∷ ps) pos h =
      let t : WarmupTracker F = new skip_requests key in
      let zero_total : current_total f t p ≡ 0 = rw h.0 refl in
      ap (λ (u : WarmupTracker F). is_warming u.state)
        (run-Short t p ps refl pos (rw zero_total (absent_Short t ps pos h.1)))

  -- A counter of the baseline that has fallen below its value there.
  regressed_at :
      (b : Assoc String F) (p : ParsedMetrics F) (k : String) (v c : F)
      → lookup k b ≡ some v
      → lookup k p.counters ≡ some c
      → f.lt c v ≡ true
      → regressed f b p ≡ true
  unfolding regressed lookup
  regressed_at [] p k v c hb hp h = cc
  regressed_at ((j, w) ∷ b) p k v c hb hp h =
      ground (arith, regressed_at b p k v c, string_eq.beq_iff j k)

  -- An engine that restarted: one counter of the baseline is below its value there. The tracker
  -- warms up again from the present request count.
  pub restart_observed :
      (t : WarmupTracker F) (b : HistogramBaseline F) (p : ParsedMetrics F) (k : String) (v c : F)
      → t.state ≡ active b
      → lookup k b.counters ≡ some v
      → lookup k p.counters ≡ some c
      → f.lt c v ≡ true
      → (observe f t p).1.state ≡ warming (some (current_total f t p))
  unfolding observe counter_regression
  restart_observed t b p k v c s hb hp h = ground (arith, regressed_at b.counters p k v c)

  not_regressed :
      (b : Assoc String F) (p : ParsedMetrics F)
      → UniqueKeys b
      → ((k : String) (v c : F)
          → lookup k b ≡ some v
          → lookup k p.counters ≡ some c
          → f.lt c v ≡ false)
      → regressed f b p ≡ false
  unfolding regressed lookup
  not_regressed [] p u h = refl
  not_regressed ((j, w) ∷ b) p u h =
      let rest =
        not_regressed b p u.1
          (λ k v c hb hp. h k v c (ground (arith, string_eq.beq_iff j k, u.0)) hp) in
      elim (Option-cases (lookup j p.counters)) [
        | inl gone ↦ rw gone rest
        | inr (c, there) ↦ rw there (rw (h j w c (ground (arith, beq_refl j)) there) rest)
      ]

  -- Where no counter of the baseline has fallen, the baseline stays.
  pub baseline_kept :
      (t : WarmupTracker F) (b : HistogramBaseline F) (p : ParsedMetrics F)
      → t.state ≡ active b
      → UniqueKeys b.counters
      → ((k : String) (v c : F)
          → lookup k b.counters ≡ some v
          → lookup k p.counters ≡ some c
          → f.lt c v ≡ false)
      → (observe f t p).1 ≡ t
  unfolding observe counter_regression
  baseline_kept t b p s u h = ground (arith, not_regressed b.counters p u h)
