-- ===== src/Histogram/Fraction.antt =====
-- engines/histogram.rs: the goodput is a fraction, and the wire carries finite bounds.
use spark_dashboard.Prelude.{
  ◌≡◌, String, Bool, false, ◌&&◌, not, Option, none, some, List, [], ◌∷◌, map, arith, All, is_some,
  lookup, bind_some, string_eq,
}
use spark_dashboard.Float.{F64}
use spark_dashboard.Prometheus.{ParsedMetrics, Buckets}
use spark_dashboard.Engine.Metrics.{HistogramBucket}
use spark_dashboard.Histogram.{
  total, clamp, walk, fraction_of, fraction_with, to_wire, fraction_le, wire, wire_buckets,
}

module _ {F : Type 0} (f : F64 F) where
  -- The order of 0.0 and 1.0.
  pub record UnitLaws : Type 0 where
    pub zero_zero : f.lt f.zero f.zero ≡ false
    pub one_one : f.lt f.one f.one ≡ false
    pub one_zero : f.lt f.one f.zero ≡ false

  -- Neither below 0.0 nor above 1.0.
  abbrev pub InUnit : F → Type 0
  InUnit x = (f.lt x f.zero ≡ false) × (f.lt f.one x ≡ false)

  module _ (laws : UnitLaws) where
    InUnit-clamp : (x : F) → InUnit (clamp f x)
    unfolding clamp
    InUnit-clamp x = ground (arith, laws.zero_zero, laws.one_one, laws.one_zero)

    InUnit-walk :
        (count threshold prev_le prev_cum : F) (buckets : Buckets F)
        → InUnit (walk f count threshold prev_le prev_cum buckets)
    unfolding walk
    InUnit-walk count threshold prev_le prev_cum [] = (laws.one_zero, laws.one_one)
    InUnit-walk count threshold prev_le prev_cum ((le, cum) ∷ buckets) = ground (
      arith,
      InUnit-walk count threshold le cum buckets,
      InUnit-clamp (f.div prev_cum count),
      InUnit-clamp (
          f.div
            (f.add prev_cum
              (f.mul (f.div (f.sub threshold prev_le) (f.sub le prev_le)) (f.sub cum prev_cum)))
            count),
    )

    InUnit-fraction_of :
        (count threshold : F) (buckets : Buckets F) (r : F)
        → fraction_of f count threshold buckets ≡ some r
        → InUnit r
    unfolding fraction_of
    InUnit-fraction_of count threshold [] r h = cc
    InUnit-fraction_of count threshold ((le, cum) ∷ buckets) r h = ground (
      arith,
      laws.zero_zero,
      laws.one_zero,
      InUnit-clamp (f.div (f.mul cum (clamp f (f.div threshold le))) count),
      InUnit-walk count threshold f.zero f.zero ((le, cum) ∷ buckets),
    )

    InUnit-fraction_with :
        (buckets : Buckets F) (threshold : F) (count : Option F) (r : F)
        → fraction_with f buckets threshold count ≡ some r
        → InUnit r
    unfolding fraction_with
    InUnit-fraction_with buckets threshold none r h = cc
    InUnit-fraction_with buckets threshold (some count) r h =
        ground (arith, InUnit-fraction_of count threshold buckets r)

    -- The fraction of observations within a threshold is never below 0 nor above 1, whatever the
    -- buckets are, in order or not.
    pub fraction_le_bounds :
        (buckets : Buckets F) (threshold r : F)
        → fraction_le f buckets threshold ≡ some r
        → (f.lt r f.zero ≡ false) × (f.lt f.one r ≡ false)
    unfolding fraction_le
    fraction_le_bounds buckets threshold r h =
        InUnit-fraction_with buckets threshold (total buckets) r h

  -- Whether the last count is above 0.
  abbrev pub has_total : Option F → Bool
  has_total none = false
  has_total (some count) = not (f.le count f.zero)

  IsSome-fraction_with :
      (x : F × F) (buckets : Buckets F) (threshold : F) (count : Option F)
      → is_some (fraction_with f (x ∷ buckets) threshold count)
        ≡ (not (f.is_nan threshold) && has_total count)
  unfolding fraction_with
  IsSome-fraction_with x buckets threshold none = ground arith
  IsSome-fraction_with (le, cum) buckets threshold (some count) = ground arith

  -- The goodput is known exactly when there is a bucket, the last count is above 0 and the threshold
  -- is a number.
  pub fraction_le-IsSome :
      (buckets : Buckets F) (threshold : F)
      → is_some (fraction_le f buckets threshold)
        ≡ (not (f.is_nan threshold) && has_total (total buckets))
  unfolding fraction_le
  fraction_le-IsSome [] threshold = ground arith
  fraction_le-IsSome (x ∷ buckets) threshold =
      IsSome-fraction_with x buckets threshold (total (x ∷ buckets))

  abbrev pub IsSent : HistogramBucket F → Type 0
  IsSent b = (f.is_nan b.le_seconds ≡ false) × (f.is_infinite b.le_seconds ≡ false)

  module _ (n : f.is_nan f.greatest ≡ false) (i : f.is_infinite f.greatest ≡ false) where
    All-IsSent : (buckets : Buckets F) → All IsSent (map (to_wire f) buckets)
    unfolding to_wire
    All-IsSent [] = tt
    All-IsSent (b ∷ buckets) = (ground arith, All-IsSent buckets)

    IsSent-wire :
        (found : Option (Buckets F)) (sent : List (HistogramBucket F))
        → bind_some found (wire f) ≡ some sent
        → All IsSent sent
    unfolding wire
    IsSent-wire none sent h = cc
    IsSent-wire (some []) sent h = cc
    IsSent-wire (some (b ∷ buckets)) sent h =
        let same : map (to_wire f) (b ∷ buckets) ≡ sent = cc in
        rw (← same) (All-IsSent (b ∷ buckets))

    -- No bound that is sent to the frontend is infinite or a NaN.
    pub wire_buckets_finite :
        (parsed : ParsedMetrics F) (metric : String) (sent : List (HistogramBucket F))
        → wire_buckets f parsed metric ≡ some sent
        → All IsSent sent
    unfolding wire_buckets
    wire_buckets_finite parsed metric sent h = IsSent-wire (lookup metric parsed.histograms) sent h
