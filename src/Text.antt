-- ===== src/Text.antt =====
-- The methods of `str` that the sources use, on texts as sequences of characters.
pub mod Numbers
pub mod Chars
pub mod Split
pub mod Ends
use Prim.Native.Char.{Char, code}
use spark_dashboard.Prelude.{
  ℕ, zero, suc, ◌+◌, ◌-◌, ◌*◌, ◌/◌, ◌%◌, ◌^◌, String, Bool, true, false, not, ◌&&◌, ◌||◌, Option,
  none, some, List, [], ◌∷◌, filterb, get_elem?, or_default, is_some, bind_some, ltb, leb, ◌==◌,
  nat_eq, string_eq, if◌then◌else◌,
}

-- Texts one after the other.
unfoldable pub append : String → String → String
append String.[] text = text
append (String.◌∷◌ c before) text = let rest = append before text in String.◌∷◌ c rest

abbrev pub is_empty_text : String → Bool
is_empty_text String.[] = true
is_empty_text (String.◌∷◌ c text) = false

abbrev pub is_char : ℕ → Char → Bool
is_char k c = code c == k

-- `char::is_whitespace`
abbrev pub is_whitespace : Char → Bool
is_whitespace c =
    let k = code c in
    leb 9 k && leb k 13
    || k == 32
    || k == 133
    || k == 160
    || k == 5760
    || leb 8192 k && leb k 8202
    || k == 8232
    || k == 8233
    || k == 8239
    || k == 8287
    || k == 12288

-- `ends_with`
unfoldable pub ends_with : String → String → Bool
ends_with String.[] suffix = String.[] == suffix
ends_with (String.◌∷◌ c text) suffix = String.◌∷◌ c text == suffix || ends_with text suffix

-- `strip_prefix`: the prefix comes first.
unfoldable pub strip_prefix : String → String → Option String
strip_prefix String.[] text = some text
strip_prefix (String.◌∷◌ a pre) String.[] = none
strip_prefix (String.◌∷◌ a pre) (String.◌∷◌ c text) =
    let rest = strip_prefix pre text in if code a == code c then rest else none

-- `starts_with`
unfoldable pub starts_with : String → String → Bool
unfolding strip_prefix
starts_with text pre = is_some (strip_prefix pre text)

-- `contains`, a text
unfoldable pub contains : String → String → Bool
unfolding starts_with
contains String.[] needle = starts_with String.[] needle
contains (String.◌∷◌ c text) needle = starts_with (String.◌∷◌ c text) needle || contains text needle

abbrev pub cons_first : Char → String × Option String → String × Option String
cons_first c (before, after) = (String.◌∷◌ c before, after)

-- The text before the first character that the test picks, and what comes after that character.
unfoldable pub split_first : (Char → Bool) → String → String × Option String
split_first p String.[] = (String.[], none)
split_first p (String.◌∷◌ c text) =
    let rest = split_first p text in if p c then (String.[], some text) else cons_first c rest

abbrev pub cons_both : Char → String × String → String × String
cons_both c (before, after) = (String.◌∷◌ c before, after)

-- `rsplit_once`
unfoldable pub rsplit_once : (Char → Bool) → String → Option (String × String)
rsplit_once p String.[] = none
rsplit_once p (String.◌∷◌ c text) = elim (rsplit_once p text) [
  | some parts ↦ some (cons_both c parts)
  | none ↦ if p c then some (String.[], text) else none
]

-- `rsplit(..).next()`: the text after the last such character, and else the whole text.
unfoldable pub last_part : (Char → Bool) → String → String
unfolding rsplit_once
last_part p text = elim (rsplit_once p text) [ some (before, after) ↦ after | none ↦ text ]

abbrev pub push_front : Char → List String → List String
push_front c [] = (String.◌∷◌ c String.[]) ∷ []
push_front c (part ∷ parts) = (String.◌∷◌ c part) ∷ parts

-- `split`
unfoldable pub split : (Char → Bool) → String → List String
split p String.[] = String.[] ∷ []
split p (String.◌∷◌ c text) =
    let parts = split p text in if p c then String.[] ∷ parts else push_front c parts

unfoldable pub split_whitespace : String → List String
unfolding split
split_whitespace text = filterb (λ part. not (is_empty_text part)) (split is_whitespace text)

unfoldable pub trim_start : (Char → Bool) → String → String
trim_start p String.[] = String.[]
trim_start p (String.◌∷◌ c text) =
    let rest = trim_start p text in if p c then rest else String.◌∷◌ c text

unfoldable pub trim_end : (Char → Bool) → String → String
trim_end p String.[] = String.[]
trim_end p (String.◌∷◌ c text) =
    let rest = trim_end p text in if p c && is_empty_text rest then String.[] else String.◌∷◌ c rest

-- `trim_matches`, and `trim` of white space
unfoldable pub trim_matches : (Char → Bool) → String → String
unfolding trim_start trim_end
trim_matches p text = trim_end p (trim_start p text)

unfoldable pub trim : String → String
unfolding trim_matches
trim text = trim_matches is_whitespace text

-- `replace`, of one character by a text
unfoldable pub replace_char : ℕ → String → String → String
unfolding append
replace_char k new String.[] = String.[]
replace_char k new (String.◌∷◌ c text) =
    let rest = replace_char k new text in if code c == k then append new rest else String.◌∷◌ c rest

-- `join(" ")`
unfoldable pub join_words : List String → String
unfolding append
join_words [] = String.[]
join_words (word ∷ []) = word
join_words (word ∷ next ∷ words) = append word (append " " (join_words (next ∷ words)))

abbrev digit : ℕ → String
digit d =
    or_default "0"
      (get_elem? ("0" ∷ "1" ∷ "2" ∷ "3" ∷ "4" ∷ "5" ∷ "6" ∷ "7" ∷ "8" ∷ "9" ∷ []) (d % 10))

-- The decimal digits of a number below `10 ^ fuel`.
unfoldable pub digits : ℕ → ℕ → String
unfolding append
digits zero n = String.[]
digits (suc fuel) n =
    let rest = digits fuel (n / 10) in if ltb n 10 then digit n else append rest (digit n)

-- `u16::to_string`; a port has at most five digits.
unfoldable pub port_text : ℕ → String
unfolding digits
port_text n = digits 5 n

abbrev pub is_digit : Char → Bool
is_digit c = leb 48 (code c) && leb (code c) 57

-- The value of decimal digits read on after `n`.
unfoldable pub read_digits : ℕ → String → Option ℕ
read_digits n String.[] = some n
read_digits n (String.◌∷◌ c text) =
    let rest = read_digits (n * 10 + (code c - 48)) text in if is_digit c then rest else none

abbrev pub below : ℕ → ℕ → Option ℕ
below bound n = if ltb n bound then some n else none

abbrev pub read_some : ℕ → String → Option ℕ
read_some bound String.[] = none
read_some bound (String.◌∷◌ c text) = bind_some (read_digits 0 (String.◌∷◌ c text)) (below bound)

-- `parse::<u16>` and `parse::<u32>`: decimal digits, a plus sign before them at most, and no
-- overflow.
unfoldable pub parse_uint : ℕ → String → Option ℕ
unfolding read_digits
parse_uint bound String.[] = none
parse_uint bound (String.◌∷◌ c text) =
    if code c == 43 then read_some bound text else read_some bound (String.◌∷◌ c text)

-- `split_once`, of a text: what stands before and after its first occurrence.
unfoldable pub split_once : String → String → Option (String × String)
unfolding strip_prefix
split_once needle String.[] =
    bind_some (strip_prefix needle String.[]) (λ rest. some (String.[], rest))
split_once needle (String.◌∷◌ c text) =
    let later = split_once needle text in
    elim (strip_prefix needle (String.◌∷◌ c text)) [
      | some rest ↦ some (String.[], rest)
      | none ↦ bind_some later (λ parts. some (cons_both c parts))
    ]

-- What `parse::<IpAddr>` gives: whether the address is unspecified and whether it is IPv6, its text,
-- and the text of the IPv4 address that it maps, if any.
pub record IpAddr : Type 0 where
  pub is_unspecified : Bool
  pub is_ipv6 : Bool
  pub ip_text : String
  pub ipv4_mapped : Option String
