-- ===== src/Disk/Sampler.antt =====
-- metrics/disk.rs: `DiskIoSampler`, the rates between two readings of `/proc/diskstats`.
use Prim.Native.Char.{code}
use spark_dashboard.Prelude.{
  ℕ, ◌+◌, ◌-◌, ◌%◌, ◌^◌, String, Option, none, some, List, [], ◌∷◌, leb, ltb, ◌==◌, nat_eq,
  string_eq, bind_some, get_elem?, length, find, filterb, if◌then◌else◌,
}
use spark_dashboard.Text.{split, is_char, split_whitespace, parse_uint, is_empty_text}
use spark_dashboard.Float.{F64}
use spark_dashboard.Disk.Names.{is_whole_device}

pub record DeviceCounters : Type 0 where
  pub name : String
  pub sectors_read : ℕ
  pub sectors_written : ℕ

-- `lines`: a line break is a newline with the carriage return before it, and after the last one there
-- is no empty line.
unfoldable pub without_return : String → String
without_return String.[] = String.[]
without_return (String.◌∷◌ c String.[]) = if code c == 13 then String.[] else String.◌∷◌ c String.[]
without_return (String.◌∷◌ c (String.◌∷◌ d text)) =
    String.◌∷◌ c (without_return (String.◌∷◌ d text))

unfoldable pub end_lines : List String → List String
unfolding without_return
end_lines [] = []
end_lines (last ∷ []) = if is_empty_text last then [] else last ∷ []
end_lines (line ∷ next ∷ parts) = without_return line ∷ end_lines (next ∷ parts)

unfoldable pub lines : String → List String
unfolding split end_lines
lines text = end_lines (split (is_char 10) text)

-- `fields[i].parse().ok()`
abbrev pub parse_field : List String → ℕ → Option ℕ
parse_field fields i = bind_some (get_elem? fields i) (parse_uint (2 ^ 64))

unfoldable pub parse_diskstats_line : String → Option DeviceCounters
unfolding split_whitespace parse_uint
parse_diskstats_line line =
    let fields = split_whitespace line in
    if ltb (length fields) 14
    then none
    else bind_some (get_elem? fields 2) (λ name. bind_some (parse_field fields 5) (λ read.
      bind_some (parse_field fields 9)
        (λ written. some (record { name = name; sectors_read = read; sectors_written = written }))))

unfoldable pub filter_lines : List String → List DeviceCounters
unfolding parse_diskstats_line
filter_lines [] = []
filter_lines (line ∷ rest) =
    let devices = filter_lines rest in
    elim (parse_diskstats_line line) [ some d ↦ d ∷ devices | none ↦ devices ]

unfoldable pub parse_diskstats : String → List DeviceCounters
unfolding lines filter_lines
parse_diskstats text = filter_lines (lines text)

pub record Reading : Type 0 where
  pub taken_at : ℕ
  pub devices : List DeviceCounters

pub record DiskIoSampler : Type 0 where
  pub previous : Option Reading

abbrev pub new : DiskIoSampler
new = record { previous = none }

-- The sums of the sectors read and written, of 64 bits.
abbrev pub add_moved : DeviceCounters → Option DeviceCounters → ℕ × ℕ → ℕ × ℕ
add_moved device none sums = sums
add_moved device (some before) sums = (
  (sums.0 + (device.sectors_read - before.sectors_read)) % 2 ^ 64,
  (sums.1 + (device.sectors_written - before.sectors_written)) % 2 ^ 64,
)

abbrev pub before_in : List DeviceCounters → DeviceCounters → Option DeviceCounters
before_in previous device = find (λ d. d.name == device.name) previous

unfoldable pub add_all : List DeviceCounters → List DeviceCounters → ℕ × ℕ → ℕ × ℕ
add_all previous [] sums = sums
add_all previous (device ∷ devices) sums =
    add_all previous devices (add_moved device (before_in previous device) sums)

abbrev pub whole_devices : List DeviceCounters → List DeviceCounters
whole_devices devices = filterb (λ d. is_whole_device d.name) devices

module _ {F : Type 0} (f : F64 F) (seconds : ℕ → F) where
  unfoldable pub bytes_per_second : ℕ → ℕ → ℕ
  bytes_per_second sectors elapsed =
      f.to_u64 (f.round (f.div (f.mul (f.of_ℕ sectors) (f.of_ℕ 512)) (seconds elapsed)))

  unfoldable pub io_rates : Reading → Reading → ℕ × ℕ
  unfolding bytes_per_second add_all
  io_rates previous current =
      let elapsed = current.taken_at - previous.taken_at in
      let sums = add_all previous.devices current.devices (0, 0) in
      if elapsed == 0
      then (0, 0)
      else (bytes_per_second sums.0 elapsed, bytes_per_second sums.1 elapsed)

  abbrev pub rates_since : Option Reading → Reading → ℕ × ℕ
  rates_since none current = (0, 0)
  rates_since (some previous) current = io_rates previous current

  unfoldable pub sample : List DeviceCounters → ℕ → DiskIoSampler → (ℕ × ℕ) × DiskIoSampler
  unfolding io_rates is_whole_device
  sample devices now sampler =
      let current : Reading = record { taken_at = now; devices = whole_devices devices } in
      (rates_since sampler.previous current, record { previous = some current })

pub record DiskMetrics : Type 0 where
  pub name : Option String
  pub read_bytes_per_sec : ℕ
  pub write_bytes_per_sec : ℕ

-- A disk of the host: its name and its size.
pub record Disk : Type 0 where
  pub name : String
  pub total_space : ℕ

-- `max_by_key`: the last of the largest ones.
unfoldable pub largest : List Disk → Option Disk
largest [] = none
largest (d ∷ disks) = elim (largest disks) [
  | some best ↦ if leb d.total_space best.total_space then some best else some d
  | none ↦ some d
]

abbrev pub shown_name : Option Disk → Option String
shown_name none = none
shown_name (some d) = if is_empty_text d.name then none else some d.name

-- What the text of `/proc/diskstats` lists; it may be none.
abbrev pub devices_in : Option String → List DeviceCounters
devices_in none = []
devices_in (some text) = parse_diskstats text

module _ {F : Type 0} (f : F64 F) (seconds : ℕ → F) where
  unfoldable pub collect_disk_metrics :
      List Disk → Option String → ℕ → DiskIoSampler → DiskMetrics × DiskIoSampler
  unfolding sample largest parse_diskstats
  collect_disk_metrics disks diskstats now sampler =
      let out = sample f seconds (devices_in diskstats) now sampler in
      (
        record {
          name = shown_name (largest disks);
          read_bytes_per_sec = out.0.0;
          write_bytes_per_sec = out.0.1;
        },
        out.1,
      )
