-- ===== src/Rates/Running.antt =====
-- engines/common.rs: the rates and the running mean over a run of polls.
mod Tests
use mathlib.Core.List.{foldl}
use spark_dashboard.Prelude.{
  ℕ, ◌+◌, ◌≡◌, ◌∙◌, ap, sym, refl, Bool, true, false, Option, none, some, List, [], ◌∷◌, ◌++◌,
  arith, length, if◌then◌else◌, ltb,
}
use spark_dashboard.Float.{F64}
use spark_dashboard.Rates.{
  CounterRate, observe, fresh, mean_of, rate_since, spec_live_acceptance_rate, spec_acceptance_rate,
}

module _ {F : Type 0} (f : F64 F) (seconds : ℕ → F) where
  -- The rates of a run of polls, each with its reading and its time, and the state after it.
  pub observe_all : CounterRate F → List (Option F × ℕ) → List (Option F) × CounterRate F
  observe_all c [] = ([], c)
  observe_all c (poll ∷ polls) =
      let r = observe f seconds c poll.0 poll.1 in
      let rest = observe_all r.1 polls in (r.0.0 ∷ rest.0, rest.1)

  -- The rates above zero.
  abbrev pub throughputs : List (Option F) → List F
  throughputs [] = []
  throughputs (none ∷ rates) = throughputs rates
  throughputs (some r ∷ rates) =
      let rest = throughputs rates in if f.lt f.zero r then r ∷ rest else rest

  -- The reading that the last poll to have one took, and when.
  abbrev pub last_reading : Option (F × ℕ) → List (Option F × ℕ) → Option (F × ℕ)
  last_reading prev [] = prev
  last_reading prev ((none, now) ∷ polls) = last_reading prev polls
  last_reading prev ((some val, now) ∷ polls) = last_reading (some (val, now)) polls

  accum-observe_all :
      (c : CounterRate F) (polls : List (Option F × ℕ))
      → let r = observe_all c polls in
        r.1.accum ≡ (foldl f.add c.accum.0 (throughputs r.0), c.accum.1 + length (throughputs r.0))
  unfolding observe_all observe
  accum-observe_all c [] = ground arith
  accum-observe_all c ((current, now) ∷ polls) =
      ground (arith, accum-observe_all (observe f seconds c current now).1 polls)

  prev-observe_all :
      (c : CounterRate F) (polls : List (Option F × ℕ))
      → (observe_all c polls).1.prev ≡ last_reading c.prev polls
  unfolding observe_all observe
  prev-observe_all c [] = refl
  prev-observe_all c ((none, now) ∷ polls) = prev-observe_all (observe f seconds c none now).1 polls
  prev-observe_all c ((some val, now) ∷ polls) =
      prev-observe_all (observe f seconds c (some val) now).1 polls

  observe_all-append :
      (c : CounterRate F) (polls : List (Option F × ℕ)) (current : Option F) (now : ℕ)
      → (observe_all c (polls ++ (current, now) ∷ [])).1
        ≡ (observe f seconds (observe_all c polls).1 current now).1
  unfolding observe_all
  observe_all-append c [] current now = refl
  observe_all-append c (poll ∷ polls) current now =
      observe_all-append (observe f seconds c poll.0 poll.1).1 polls current now

  -- After any run of polls since a reset, a poll reports the rate since the last reading that the
  -- run took, and the mean of all rates above zero so far, its own included: nothing where there is
  -- none.
  pub observe_after_run :
      (polls : List (Option F × ℕ)) (current : Option F) (now : ℕ)
      → let run = observe_all (fresh f seconds) polls in
        let r = observe f seconds run.1 current now in
        let rates = throughputs (observe_all (fresh f seconds) (polls ++ (current, now) ∷ [])).0 in
        (r.0.0 ≡ rate_since f seconds current (last_reading none polls) now)
        × (r.0.1 ≡ mean_of f seconds (foldl f.add f.zero rates, length rates))
  unfolding observe fresh
  observe_after_run polls current now = (
    ap (λ prev. rate_since f seconds current prev now) (prev-observe_all (fresh f seconds) polls),
    ap (mean_of f seconds) (
        ap (λ c. c.accum) (sym (observe_all-append (fresh f seconds) polls current now))
        ∙ accum-observe_all (fresh f seconds) (polls ++ (current, now) ∷ [])
        ∙ ground arith),
  )
