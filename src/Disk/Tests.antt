-- ===== src/Disk/Tests.antt =====
-- Two readings of a host with a disk and a partition of it.
use spark_dashboard.Prelude.{ℕ, String, ◌≡◌, refl, some, [], ◌∷◌, inl, string_eq}
use spark_dashboard.Float.Sample.{sample}
use spark_dashboard.Disk.Names.{is_whole_device}
use spark_dashboard.Disk.Sampler.{
  DeviceCounters, Reading, parse_diskstats, parse_diskstats_line, lines,
}
use spark_dashboard.Disk.Sampler
use spark_dashboard.Disk.Counted.{sample-uncounted}

abbrev counters : String → ℕ → DeviceCounters
counters name sectors = record { name = name; sectors_read = sectors; sectors_written = sectors }

abbrev previous : Reading
previous = record { taken_at = 5; devices = counters "sda" 10 ∷ [] }

abbrev nanoseconds : ℕ → ℕ
nanoseconds n = n

sample-uncounted_example :
    (Sampler.sample sample nanoseconds
      (counters "sda" 30 ∷ counters "sda1" 30 ∷ [])
      6
      (record { previous = some previous })).0
    ≡ (Sampler.sample sample nanoseconds
        (counters "sda" 30 ∷ [])
        6
        (record { previous = some previous })).0
unfolding is_whole_device
sample-uncounted_example =
    sample-uncounted sample nanoseconds previous (counters "sda" 30 ∷ []) [] (counters "sda1" 30) 6
      (inl refl)

one_line :
    parse_diskstats "259 0 nvme0n1 9 0 100 0 7 0 200 0 0 0 0\r\n259 1 short\n"
    ≡ record { name = "nvme0n1"; sectors_read = 100; sectors_written = 200 } ∷ []
unfolding parse_diskstats
one_line = refl
