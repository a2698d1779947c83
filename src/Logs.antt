-- ===== src/Logs.antt =====
-- logs.rs: the lines of a container's log, cut out of the frames of its stream, and the container
-- that an engine's log is read from. A text is a list of characters by their code points.
pub mod Lines
pub mod Containers
pub mod Registry
mod Tests
use spark_dashboard.Prelude.{
  ℕ, zero, suc, String, Bool, true, false, Option, none, some, List, [], ◌∷◌, ◌++◌, map, length,
  find, bind_some, ◌==◌, nat_eq, string_eq, if◌then◌else◌,
}
use spark_dashboard.Engine.State.{EngineSnapshot}

abbrev pub Text : Type 0
Text = List ℕ

abbrev pub newline : ℕ
newline = 10

-- `find('\n')` and `drain(..=pos)`: the text before the first newline, and the one after it.
pub break_line : Text → Option (Text × Text)
break_line [] = none
break_line (c ∷ text) =
    let later = break_line text in
    if c == newline then some ([], text) else bind_some later (λ found. some (c ∷ found.0, found.1))

-- The `while let` loop: the lines, and what is left in the buffer. Each turn shortens the buffer, so
-- its length is enough fuel.
pub drain_lines : ℕ → Text → List Text × Text
unfolding break_line
drain_lines zero buffer = ([], buffer)
drain_lines (suc fuel) buffer = elim (break_line buffer) [
  | none ↦ ([], buffer)
  | some (line, rest) ↦ let drained = drain_lines fuel rest in (line ∷ drained.0, drained.1)
]

abbrev pub prefixed : Option Text → Text → Text
prefixed none body = body
prefixed (some p) body = p ++ body

module _ {B : Type 0} (decode : List B → Text) where
  -- `buffer_lines`: the lines to send, and the buffer after it. `decode` is `from_utf8_lossy`.
  pub buffer_lines : Text → List B → Option Text → List Text × Text
  unfolding drain_lines
  buffer_lines buffer chunk prefix =
      let filled = buffer ++ decode chunk in
      let drained = drain_lines (length filled) filled in
      (map (prefixed prefix) drained.0, drained.1)

-- `find_container`
pub find_container : {F : Type 0} → List (EngineSnapshot F) → Option String → Option String
find_container snapshots (some endpoint) =
    bind_some (find (λ s. s.endpoint == endpoint) snapshots) (λ s. s.container_id)
find_container [] none = none
find_container (s ∷ snapshots) none =
    let rest = find_container snapshots none in
    elim s.container_id [ some id ↦ some id | none ↦ rest ]
