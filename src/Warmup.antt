-- ===== src/Warmup.antt =====
-- engines/warmup.rs: the state machine that keeps the first requests of an engine out of its metrics.
pub mod Phases
pub mod Deltas
mod Tests
use spark_dashboard.Prelude.{
  string_eq, ℕ, ◌-◌, String, Bool, true, false, ◌&&◌, ◌||◌, Option, none, some, List, [], ◌∷◌,
  Assoc, lookup, map_entries, filter_map_entries, length, nat_beq, ltb, leb, if◌then◌else◌,
}
use spark_dashboard.Float.{F64}
use spark_dashboard.Prometheus.{ParsedMetrics, Buckets}

pub record HistogramBaseline (F : Type 0) : Type 0 where
  pub counters : Assoc String F
  pub histograms : Assoc String (Buckets F)

pub data WarmupState (F : Type 0) : Type 0 where
  warming : Option ℕ → WarmupState F
  active : HistogramBaseline F → WarmupState F

pub record WarmupTracker (F : Type 0) : Type 0 where
  pub skip_requests : ℕ
  pub trigger_key : String
  pub state : WarmupState F

pub record WarmupOutput (F : Type 0) : Type 0 where
  pub warming_up : Bool
  pub just_transitioned : Bool
  pub adjusted : ParsedMetrics F

unfoldable pub new : {F : Type 0} → ℕ → String → WarmupTracker F
new skip_requests trigger_key = record {
  skip_requests = skip_requests;
  trigger_key = trigger_key;
  state = warming none;
}

module _ {F : Type 0} (f : F64 F) where
  -- `Iterator::any` over the counters of the baseline, as a loop with an early return.
  regressed : Assoc String F → ParsedMetrics F → Bool
  regressed [] parsed = false
  regressed ((key, baseline) ∷ counters) parsed =
      (elim (lookup key parsed.counters) [ none ↦ false | some current ↦ f.lt current baseline ])
      || regressed counters parsed

  pub counter_regression : ParsedMetrics F → HistogramBaseline F → Bool
  unfolding regressed
  counter_regression parsed baseline = regressed baseline.counters parsed

  same_le : F → F → Bool
  same_le a b =
      if f.is_infinite a && f.is_infinite b
      then same_sign (f.is_sign_positive a) (f.is_sign_positive b)
      else f.eq a b
    where
      same_sign : Bool → Bool → Bool
      same_sign true b = b
      same_sign false true = false
      same_sign false false = true

  -- The bounds of two histograms, compared one by one.
  all_same_le : Buckets F → Buckets F → Bool
  all_same_le [] b = true
  all_same_le (x ∷ a) [] = true
  all_same_le ((le_a, _) ∷ a) ((le_b, _) ∷ b) = same_le le_a le_b && all_same_le a b

  pub same_schema : Buckets F → Buckets F → Bool
  unfolding all_same_le same_le
  same_schema a b = if nat_beq (length a) (length b) then all_same_le a b else false

  -- `(c - b).max(0.0)`
  abbrev pub delta : F → F → F
  delta current baseline = f.max (f.sub current baseline) f.zero

  -- The `zip` and `map` over the buckets of two histograms.
  pub bucket_deltas : Buckets F → Buckets F → Buckets F
  bucket_deltas [] b = []
  bucket_deltas (x ∷ a) [] = []
  bucket_deltas ((le, c) ∷ a) ((_, b) ∷ bs) = (le, delta c b) ∷ bucket_deltas a bs

  abbrev pub counter_delta : Option F → F → F
  counter_delta none current = current
  counter_delta (some b) current = delta current b

  abbrev pub histogram_delta : Option (Buckets F) → Buckets F → Option (Buckets F)
  histogram_delta none current = some current
  histogram_delta (some b) current =
      if same_schema current b then some (bucket_deltas current b) else none

  pub subtract_baseline : ParsedMetrics F → HistogramBaseline F → ParsedMetrics F
  subtract_baseline parsed baseline = record {
    gauges = parsed.gauges;
    counters = map_entries (λ key. counter_delta (lookup key baseline.counters)) parsed.counters;
    histograms =
        filter_map_entries (λ key. histogram_delta (lookup key baseline.histograms))
          parsed.histograms;
  }

  abbrev total_of : Option F → ℕ
  total_of none = 0
  total_of (some v) = f.to_u64 v

  abbrev pub current_total : WarmupTracker F → ParsedMetrics F → ℕ
  current_total t parsed = total_of (lookup t.trigger_key parsed.counters)

  abbrev still_warming : WarmupTracker F → ℕ → ParsedMetrics F → WarmupOutput F × WarmupTracker F
  still_warming t cursor parsed = (
    record { warming_up = true; just_transitioned = false; adjusted = parsed },
    record t { state = warming (some cursor) },
  )

  abbrev initial_of : Option ℕ → ℕ → ℕ
  initial_of none current = current
  initial_of (some i) current = i

  observe_in : WarmupState F → WarmupTracker F → ParsedMetrics F → WarmupOutput F × WarmupTracker F
  observe_in (warming initial_total) t parsed =
      let current = current_total t parsed in
      let initial = initial_of initial_total current in
      if ltb current initial
      then still_warming t current parsed
      else if leb t.skip_requests (current - initial)
      then (let baseline : HistogramBaseline F = record {
        counters = parsed.counters;
        histograms = parsed.histograms;
      } in
          (
            record {
              warming_up = false;
              just_transitioned = true;
              adjusted = subtract_baseline parsed baseline;
            },
            record t { state = active baseline },
          ))
      else still_warming t initial parsed
  observe_in (active baseline) t parsed =
      if counter_regression parsed baseline
      then still_warming t (current_total t parsed) parsed
      else (
        record {
          warming_up = false;
          just_transitioned = false;
          adjusted = subtract_baseline parsed baseline;
        },
        t,
      )

  -- One poll of the metrics.
  pub observe : WarmupTracker F → ParsedMetrics F → WarmupOutput F × WarmupTracker F
  unfolding observe_in
  observe t parsed = observe_in t.state t parsed
