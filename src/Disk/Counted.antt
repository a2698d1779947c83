-- ===== src/Disk/Counted.antt =====
-- metrics/disk.rs: which devices count towards the rates.
use spark_dashboard.Prelude.{
  ℕ, ◌%◌, ◌^◌, ◌-◌, ◌+◌, ◌≤◌, ◌<◌, ◌≡◌, refl, ap, ◌∙◌, sym, subst, Bool, false, Option, none, some,
  List, [], ◌∷◌, ◌++◌, ◌⊎◌, inl, inr, arith, filterb, Bool-cases, if◌then◌else◌,
}
use spark_dashboard.Float.{F64}
use spark_dashboard.Disk.Names.{is_whole_device}
use spark_dashboard.Disk.Sampler.{
  DeviceCounters, Reading, add_moved, before_in, add_all, whole_devices, io_rates, sample,
}

-- A partition or a pseudo-device, a device that the reading before does not have, or one of which
-- neither counter has grown.
abbrev pub IsUncounted : Reading → DeviceCounters → Type 0
IsUncounted previous d =
    (is_whole_device d.name ≡ false)
    ⊎ ((before_in previous.devices d ≡ none)
        ⊎ ((b : DeviceCounters) × (before_in previous.devices d ≡ some b)
            × (d.sectors_read ≤ b.sectors_read)
            × (d.sectors_written ≤ b.sectors_written)))

filterb-append :
    {A : Type 0} (p : A → Bool) (xs ys : List A)
    → filterb p (xs ++ ys) ≡ filterb p xs ++ filterb p ys
filterb-append p [] ys = refl
filterb-append p (x ∷ xs) ys = elim (Bool-cases (p x)) [
  | inl kept ↦ rw (kept, filterb-append p xs ys) refl
  | inr gone ↦ rw (gone, filterb-append p xs ys) refl
]

abbrev IsWord : ℕ × ℕ → Type 0
IsWord sums = (sums.0 < 2 ^ 64) × (sums.1 < 2 ^ 64)

IsWord-add_moved :
    (d : DeviceCounters) (b : Option DeviceCounters) (sums : ℕ × ℕ)
    → IsWord sums
    → IsWord (add_moved d b sums)
IsWord-add_moved d none sums h = h
IsWord-add_moved d (some b) sums h = (omega arith, omega arith)

add_moved-still :
    (d b : DeviceCounters) (sums : ℕ × ℕ)
    → IsWord sums
    → d.sectors_read ≤ b.sectors_read
    → d.sectors_written ≤ b.sectors_written
    → add_moved d (some b) sums ≡ sums
add_moved-still d b sums h r w =
    let read : (sums.0 + (d.sectors_read - b.sectors_read)) % 2 ^ 64 ≡ sums.0 = omega arith in
    let written : (sums.1 + (d.sectors_written - b.sectors_written)) % 2 ^ 64 ≡ sums.1 =
      omega arith in
    rw (read, written) refl

add_all-without :
    (previous before after : List DeviceCounters) (d : DeviceCounters) (sums : ℕ × ℕ)
    → ((s : ℕ × ℕ) → IsWord s → add_moved d (before_in previous d) s ≡ s)
    → IsWord sums
    → add_all previous (before ++ d ∷ after) sums ≡ add_all previous (before ++ after) sums
unfolding add_all
add_all-without previous [] after d sums still h = ap (add_all previous after) (still sums h)
add_all-without previous (e ∷ before) after d sums still h =
    add_all-without previous before after d _ still
      (IsWord-add_moved e (before_in previous e) sums h)

module _ {F : Type 0} (f : F64 F) (seconds : ℕ → F) where
  io_rates-without :
      (previous : Reading) (before after : List DeviceCounters) (d : DeviceCounters) (now : ℕ)
      → ((s : ℕ × ℕ) → IsWord s → add_moved d (before_in previous.devices d) s ≡ s)
      → io_rates f seconds previous (record { taken_at = now; devices = before ++ d ∷ after })
        ≡ io_rates f seconds previous (record { taken_at = now; devices = before ++ after })
  unfolding io_rates
  io_rates-without previous before after d now still =
      rw (add_all-without previous.devices before after d (0, 0) still (omega arith, omega arith))
        refl

  still-uncounted :
      (previous : Reading) (d : DeviceCounters)
      → ((before_in previous.devices d ≡ none)
          ⊎ ((b : DeviceCounters) × (before_in previous.devices d ≡ some b)
              × (d.sectors_read ≤ b.sectors_read)
              × (d.sectors_written ≤ b.sectors_written)))
      → (s : ℕ × ℕ) → IsWord s
      → add_moved d (before_in previous.devices d) s ≡ s
  still-uncounted previous d (inl absent) s h = rw absent refl
  still-uncounted previous d (inr (b, there, read, written)) s h =
      rw there (add_moved-still d b s h read written)

  -- The rates of a reading of some devices.
  abbrev rates : Reading → ℕ → List DeviceCounters → ℕ × ℕ
  rates previous now devices =
      io_rates f seconds previous (record { taken_at = now; devices = devices })

  partition-left_out :
      (d : DeviceCounters) (after : List DeviceCounters)
      → is_whole_device d.name ≡ false
      → whole_devices (d ∷ after) ≡ whole_devices after
  partition-left_out d after h = rw h refl

  rates-without :
      (previous : Reading) (before after : List DeviceCounters) (d : DeviceCounters) (now : ℕ)
      → IsUncounted previous d
      → rates previous now (whole_devices before ++ whole_devices (d ∷ after))
        ≡ rates previous now (whole_devices before ++ whole_devices after)
  rates-without previous before after d now (inl partition) =
      ap (λ l. rates previous now (whole_devices before ++ l))
        (partition-left_out d after partition)
  rates-without previous before after d now (inr still) =
      elim (Bool-cases (is_whole_device d.name)) [
        | inr partition ↦
            ap (λ l. rates previous now (whole_devices before ++ l))
              (partition-left_out d after partition)
        | inl whole ↦
            subst
              (λ b.
                rates previous now (
                  whole_devices before
                  ++ (if b then d ∷ whole_devices after else whole_devices after))
                ≡ rates previous now (whole_devices before ++ whole_devices after))
              (sym whole)
              (io_rates-without previous (whole_devices before) (whole_devices after) d now
                (still-uncounted previous d still))
      ]

  -- A device that is no whole one, that the reading before does not have, or of which neither counter
  -- has grown makes no difference to the rates of a sample, wherever it stands in the list.
  pub sample-uncounted :
      (previous : Reading) (before after : List DeviceCounters) (d : DeviceCounters) (now : ℕ)
      → IsUncounted previous d
      → (sample f seconds (before ++ d ∷ after) now (record { previous = some previous })).0
        ≡ (sample f seconds (before ++ after) now (record { previous = some previous })).0
  unfolding sample
  sample-uncounted previous before after d now h =
      ap (rates previous now) (filterb-append (λ e. is_whole_device e.name) before (d ∷ after))
      ∙ rates-without previous before after d now h
      ∙ ap (rates previous now) (sym (filterb-append (λ e. is_whole_device e.name) before after))
