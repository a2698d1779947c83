-- ===== src/Disk/Names.antt =====
-- metrics/disk.rs: which names of block devices are those of whole devices.
use spark_dashboard.Prelude.{
  String, ◌≡◌, refl, ap, ◌∙◌, Bool, true, false, not, ◌&&◌, ◌||◌, Option, none, some, List, [], ◌∷◌,
  any, arith, nat_eq, if◌then◌else◌,
}
use spark_dashboard.Text.{append, starts_with, strip_prefix, is_digit, is_empty_text}
use spark_dashboard.Text.Chars.{all_chars}

-- `EXCLUDED_PREFIXES` and `NUMBERED_PREFIXES`
abbrev pub excluded_prefixes : List String
excluded_prefixes = "loop" ∷ "ram" ∷ "zram" ∷ []

abbrev pub numbered_prefixes : List String
numbered_prefixes = "mmcblk" ∷ "md" ∷ "nbd" ∷ "rbd" ∷ "dm-" ∷ []

unfoldable pub split_leading_digits : String → String × String
split_leading_digits String.[] = (String.[], String.[])
split_leading_digits (String.◌∷◌ c text) =
    let rest = split_leading_digits text in
    if is_digit c then (String.◌∷◌ c rest.0, rest.1) else (String.[], String.◌∷◌ c text)

-- A number and nothing after it.
unfoldable pub is_number : String → Bool
unfolding split_leading_digits
is_number text =
    let parts = split_leading_digits text in not (is_empty_text parts.0) && is_empty_text parts.1

-- `nvme<ctrl>n<ns>`, of what comes after `nvme`
unfoldable pub is_namespace : String → Bool
unfolding split_leading_digits strip_prefix is_number
is_namespace rest =
    let ctrl = split_leading_digits rest in
    elim (strip_prefix "n" ctrl.1) [
      | none ↦ false
      | some ns ↦ not (is_empty_text ctrl.0) && is_number ns
    ]

-- What the first prefix that fits says.
unfoldable pub numbered : List String → String → Option Bool
unfolding strip_prefix is_number
numbered [] name = none
numbered (pre ∷ prefixes) name = elim (strip_prefix pre name) [
  | some rest ↦ some (is_number rest)
  | none ↦ numbered prefixes name
]

unfoldable pub ends_with_digit : String → Bool
ends_with_digit String.[] = false
ends_with_digit (String.◌∷◌ c String.[]) = is_digit c
ends_with_digit (String.◌∷◌ c (String.◌∷◌ d text)) = ends_with_digit (String.◌∷◌ d text)

unfoldable pub is_whole_device : String → Bool
unfolding starts_with strip_prefix is_namespace numbered ends_with_digit
is_whole_device name =
    if is_empty_text name || any (starts_with name) excluded_prefixes
    then false
    else (elim (strip_prefix "nvme" name) [
      | some rest ↦ is_namespace rest
      | none ↦ elim (numbered numbered_prefixes name) [
        | some whole ↦ whole
        | none ↦ not (ends_with_digit name)
      ]
    ])

-- Digits, at least one.
abbrev pub IsNumeral : String → Type 0
IsNumeral n = (is_empty_text n ≡ false) × (all_chars is_digit n ≡ true)

split_leading_digits-append :
    (n stop : String)
    → all_chars is_digit n ≡ true
    → split_leading_digits stop ≡ (String.[], stop)
    → split_leading_digits (append n stop) ≡ (n, stop)
unfolding split_leading_digits all_chars append
split_leading_digits-append String.[] stop h stops = stops
split_leading_digits-append (String.◌∷◌ d n) stop h stops =
    let rest = split_leading_digits-append n stop (ground arith) stops in
    let first : is_digit d ≡ true = ground arith in rw (first, rest) refl

split_leading_digits-whole :
    (n : String) → all_chars is_digit n ≡ true → split_leading_digits n ≡ (n, String.[])
unfolding split_leading_digits all_chars
split_leading_digits-whole String.[] h = refl
split_leading_digits-whole (String.◌∷◌ d n) h =
    let rest = split_leading_digits-whole n (ground arith) in
    let first : is_digit d ≡ true = ground arith in rw (first, rest) refl

is_number-numeral : (n : String) → IsNumeral n → is_number n ≡ true
unfolding is_number
is_number-numeral n h = rw (split_leading_digits-whole n h.1, h.0) refl

is_number-partition :
    (n part : String) → IsNumeral n → is_number (append n (append "p" part)) ≡ false
unfolding is_number append split_leading_digits
is_number-partition n part h =
    rw (split_leading_digits-append n (append "p" part) h.1 refl, h.0) refl

is_namespace-append :
    (ctrl rest : String)
    → IsNumeral ctrl
    → is_namespace (append ctrl (append "n" rest)) ≡ is_number rest
unfolding is_namespace append split_leading_digits
is_namespace-append ctrl rest h =
    let ends = split_leading_digits-append ctrl (append "n" rest) h.1 refl in
    let number : is_empty_text (split_leading_digits (append ctrl (append "n" rest))).0 ≡ false =
      ap (λ p. is_empty_text p.0) ends ∙ h.0 in
    rw (is_namespace, ends) (rw number refl)

-- A name that begins with `nvme` is a whole device's if what comes after is a namespace's.
is_whole_device-nvme : (rest : String) → is_whole_device (append "nvme" rest) ≡ is_namespace rest
unfolding is_whole_device starts_with append strip_prefix
is_whole_device-nvme rest = refl

-- `nvme<ctrl>n<ns>` is a whole device and `nvme<ctrl>n<ns>p<n>` is none.
pub is_whole_device-namespace :
    (ctrl ns part : String)
    → IsNumeral ctrl
    → IsNumeral ns
    → (is_whole_device (append "nvme" (append ctrl (append "n" ns))) ≡ true)
      × (is_whole_device (append "nvme" (append ctrl (append "n" (append ns (append "p" part)))))
          ≡ false)
is_whole_device-namespace ctrl ns part h k = (
  is_whole_device-nvme _ ∙ is_namespace-append ctrl ns h ∙ is_number-numeral ns k,
  is_whole_device-nvme _ ∙ is_namespace-append ctrl _ h ∙ is_number-partition ns part k,
)
