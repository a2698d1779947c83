-- ===== src/Rates.antt =====
-- engines/common.rs: rates of a token counter between polls, and the acceptance rates of speculative
-- decoding. Times are nanoseconds; `seconds` is `Duration::as_secs_f64`.
pub mod Running
use spark_dashboard.Prelude.{
  ℕ, ◌+◌, ◌-◌, Bool, true, false, ◌&&◌, Option, none, some, ltb, if◌then◌else◌,
}
use spark_dashboard.Float.{F64}

pub record CounterRate (F : Type 0) : Type 0 where
  pub prev : Option (F × ℕ)
  pub accum : F × ℕ

module _ {F : Type 0} (f : F64 F) (seconds : ℕ → F) where
  abbrev pub when_positive : Bool → F → Option F
  when_positive b x = if b then some x else none

  -- The rate since the previous reading; `duration_since` is zero for an instant in the future.
  abbrev pub rate_since : Option F → Option (F × ℕ) → ℕ → Option F
  rate_since none prev now = none
  rate_since (some current) none now = none
  rate_since (some current) (some (prev_val, prev_time)) now =
      let elapsed = seconds (now - prev_time) in
      when_positive (f.lt f.zero elapsed) (f.div (f.sub current prev_val) elapsed)

  abbrev pub next_prev : Option F → Option (F × ℕ) → ℕ → Option (F × ℕ)
  next_prev none prev now = prev
  next_prev (some val) prev now = some (val, now)

  abbrev pub accumulate : Option F → F × ℕ → F × ℕ
  accumulate none accum = accum
  accumulate (some r) accum = if f.lt f.zero r then (f.add accum.0 r, accum.1 + 1) else accum

  abbrev pub mean_of : F × ℕ → Option F
  mean_of accum = when_positive (ltb 0 accum.1) (f.div accum.0 (f.of_ℕ accum.1))

  unfoldable pub observe : CounterRate F → Option F → ℕ → (Option F × Option F) × CounterRate F
  observe c current now =
      let rate = rate_since current c.prev now in
      let accum = accumulate rate c.accum in
      ((rate, mean_of accum), record { prev = next_prev current c.prev now; accum = accum })

  -- `reset`, and the rate that a poll starts from.
  unfoldable pub fresh : CounterRate F
  fresh = record { prev = none; accum = (f.zero, 0) }

  pub spec_acceptance_rate : Option F → Option F → Option F
  spec_acceptance_rate none draft = none
  spec_acceptance_rate (some a) none = none
  spec_acceptance_rate (some a) (some d) =
      when_positive (f.lt f.zero d && f.le f.zero a) (f.mul (f.div a d) (f.of_ℕ 100))

  pub spec_mean_acceptance_length : Option F → Option F → Option F
  spec_mean_acceptance_length none drafts = none
  spec_mean_acceptance_length (some a) none = none
  spec_mean_acceptance_length (some a) (some n) = when_positive (f.lt f.zero n) (f.div a n)

  unfoldable pub spec_live_acceptance_rate : Option (F × F) → Option (F × F) → Option F
  unfolding spec_acceptance_rate
  spec_live_acceptance_rate none now = none
  spec_live_acceptance_rate (some prev) none = none
  spec_live_acceptance_rate (some (prev_acc, prev_draft)) (some (acc, draft)) =
      if f.le prev_acc acc && f.le prev_draft draft
      then spec_acceptance_rate (some (f.sub acc prev_acc)) (some (f.sub draft prev_draft))
      else none
