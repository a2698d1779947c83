-- ===== src/Logs/Lines.antt =====
-- logs.rs: no character of a log is lost, and where the frames cut it makes no difference.
use mathlib.Core.List.{append_assoc, map-append}
use spark_dashboard.Prelude.{
  ℕ, zero, suc, ◌≤◌, ◌<◌, ◌≡◌, ◌∙◌, ap, refl, false, Option, none, some, List, [], ◌∷◌, ◌++◌, map,
  length, All, ◌==◌, nat_eq, if◌then◌else◌, arith, Option-cases, Bool-cases, inl, inr,
}
use spark_dashboard.Logs.{Text, newline, break_line, drain_lines, prefixed, buffer_lines}

-- The lines of a text, each one ended by a newline, and what follows the last newline.
abbrev extend : ℕ → List Text × Text → List Text × Text
extend c ([], rest) = ([], c ∷ rest)
extend c (line ∷ lines, rest) = ((c ∷ line) ∷ lines, rest)

abbrev cut : ℕ → List Text × Text → List Text × Text
cut c s = if c == newline then ([] ∷ s.0, s.1) else extend c s

pub split_lines : Text → List Text × Text
split_lines [] = ([], [])
split_lines (c ∷ text) = cut c (split_lines text)

-- The text that lines and a rest make up.
abbrev pub joined : List Text → Text → Text
joined [] rest = rest
joined (line ∷ lines) rest = line ++ newline ∷ joined lines rest

abbrev pub IsLine : Text → Type 0
IsLine line = All (λ c. (c == newline) ≡ false) line

joined-cut : (c : ℕ) (s : List Text × Text) → joined (cut c s).0 (cut c s).1 ≡ c ∷ joined s.0 s.1
joined-cut c ([], rest) = ground arith
joined-cut c (line ∷ lines, rest) = ground arith

joined-split_lines : (text : Text) → joined (split_lines text).0 (split_lines text).1 ≡ text
unfolding split_lines
joined-split_lines [] = refl
joined-split_lines (c ∷ text) =
    ground (arith, joined-split_lines text, joined-cut c (split_lines text))

IsLine-extend :
    (c : ℕ) (s : List Text × Text)
    → (c == newline) ≡ false
    → All IsLine s.0 × IsLine s.1
    → All IsLine (extend c s).0 × IsLine (extend c s).1
IsLine-extend c ([], rest) n h = (tt, (n, h.1))
IsLine-extend c (line ∷ lines, rest) n h = (((n, h.0.0), h.0.1), h.1)

IsLine-cut :
    (c : ℕ) (s : List Text × Text)
    → All IsLine s.0 × IsLine s.1
    → All IsLine (cut c s).0 × IsLine (cut c s).1
IsLine-cut c s h = elim (Bool-cases (c == newline)) [
  | inl e ↦ rw e ((tt, h.0), h.1)
  | inr n ↦ rw n (IsLine-extend c s n h)
]

IsLine-split_lines : (text : Text) → All IsLine (split_lines text).0 × IsLine (split_lines text).1
unfolding split_lines
IsLine-split_lines [] = (tt, tt)
IsLine-split_lines (c ∷ text) = IsLine-cut c (split_lines text) (IsLine-split_lines text)

extend-append :
    (c : ℕ) (b : Text) (s : List Text × Text)
    → (c == newline) ≡ false
    → let after = split_lines ((extend c s).1 ++ b) in
      extend c (s.0 ++ (split_lines (s.1 ++ b)).0, (split_lines (s.1 ++ b)).1)
      ≡ ((extend c s).0 ++ after.0, after.1)
unfolding split_lines
extend-append c b ([], rest) n = rw n refl
extend-append c b (line ∷ lines, rest) n = refl

cut-append :
    (c : ℕ) (b : Text) (s : List Text × Text)
    → let after = split_lines ((cut c s).1 ++ b) in
      cut c (s.0 ++ (split_lines (s.1 ++ b)).0, (split_lines (s.1 ++ b)).1)
      ≡ ((cut c s).0 ++ after.0, after.1)
cut-append c b s = elim (Bool-cases (c == newline)) [
  | inl e ↦ rw e refl
  | inr n ↦ rw n (extend-append c b s n)
]

split_lines-append :
    (a b : Text)
    → split_lines (a ++ b) ≡ (
      (split_lines a).0 ++ (split_lines ((split_lines a).1 ++ b)).0,
      (split_lines ((split_lines a).1 ++ b)).1,
    )
unfolding split_lines
split_lines-append [] b = refl
split_lines-append (c ∷ a) b = ap (cut c) (split_lines-append a b) ∙ cut-append c b (split_lines a)

break_line-split_lines :
    (text : Text)
    → split_lines text ≡ (elim (break_line text) [
      | none ↦ ([], text)
      | some (line, rest) ↦ (line ∷ (split_lines rest).0, (split_lines rest).1)
    ])
unfolding split_lines break_line
break_line-split_lines [] = refl
break_line-split_lines (c ∷ text) = ground (arith, break_line-split_lines text)

length-break_line :
    (text line rest : Text) → break_line text ≡ some (line, rest) → length rest < length text
unfolding break_line
length-break_line [] line rest h = cc
length-break_line (c ∷ text) line rest h = elim (Bool-cases (c == newline)) [
  | inl e ↦ ground arith
  | inr n ↦ elim (Option-cases (break_line text)) [
    | inl gone ↦ ground arith
    | inr ((l, r), found) ↦ ground (arith, length-break_line text l r found)
  ]
]

drain_lines-split_lines :
    (fuel : ℕ) (text : Text) → length text ≤ fuel → drain_lines fuel text ≡ split_lines text
unfolding drain_lines
drain_lines-split_lines zero [] h = ground (arith, break_line-split_lines [])
drain_lines-split_lines zero (c ∷ text) h = absurd (omega arith)
drain_lines-split_lines (suc fuel) text h = elim (Option-cases (break_line text)) [
  | inl gone ↦ ground (arith, break_line-split_lines text)
  | inr ((line, rest), found) ↦
      let shorter = length-break_line text line rest found in
      ground (arith, break_line-split_lines text, drain_lines-split_lines fuel rest (omega arith))
]

module _ {B : Type 0} (decode : List B → Text) where
  split-buffer_lines :
      (buffer : Text) (chunk : List B) (prefix : Option Text)
      → let split = split_lines (buffer ++ decode chunk) in
        buffer_lines decode buffer chunk prefix ≡ (map (prefixed prefix) split.0, split.1)
  unfolding buffer_lines
  split-buffer_lines buffer chunk prefix =
      ap (λ s. (map (prefixed prefix) s.0, s.1))
        (drain_lines-split_lines _ (buffer ++ decode chunk) (omega arith))

  -- What is sent for a frame are whole lines, each with the prefix: together with the newlines that
  -- end them and with what stays in the buffer, they are the text that was in the buffer before and
  -- the text of the frame. No line and no rest has a newline in it.
  pub lines-buffer_lines :
      (buffer : Text) (chunk : List B) (prefix : Option Text)
      → let r = buffer_lines decode buffer chunk prefix in
        (lines : List Text) × (r.0 ≡ map (prefixed prefix) lines)
        × (joined lines r.1 ≡ buffer ++ decode chunk)
        × All IsLine lines
        × IsLine r.1
  lines-buffer_lines buffer chunk prefix =
      let text = buffer ++ decode chunk in
      let pieces = IsLine-split_lines text in
      rw (split-buffer_lines buffer chunk prefix)
        ((split_lines text).0, refl, joined-split_lines text, pieces.0, pieces.1)

  -- Where a frame is cut in two makes no difference to the lines that are sent and to what stays in
  -- the buffer, as long as the two parts decode to the parts of its text.
  pub append-buffer_lines :
      (buffer : Text) (a b : List B) (prefix : Option Text)
      → decode (a ++ b) ≡ decode a ++ decode b
      → let first = buffer_lines decode buffer a prefix in
        let second = buffer_lines decode first.1 b prefix in
        buffer_lines decode buffer (a ++ b) prefix ≡ (first.0 ++ second.0, second.1)
  append-buffer_lines buffer a b prefix h =
      let s = split_lines (buffer ++ decode a) in
      rw
        (
          split-buffer_lines buffer (a ++ b) prefix,
          split-buffer_lines buffer a prefix,
          split-buffer_lines s.1 b prefix,
          h,
          ← append_assoc buffer (decode a) (decode b),
          split_lines-append (buffer ++ decode a) (decode b),
          map-append (prefixed prefix) s.0 (split_lines (s.1 ++ decode b)).0,
        )
        refl
