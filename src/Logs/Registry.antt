-- ===== src/Logs/Registry.antt =====
-- logs.rs: the registry of the log streams, which the clients and the tasks of the streams share. A
-- step is what one of them does under the lock, or the end of a task's stream, at any moment.
use spark_dashboard.Prelude.{
  ℕ, suc, String, ◌≡◌, refl, sym, ap, ◌∙◌, subst, Bool, true, false, not, none, some, List, [], ◌∷◌,
  ◌++◌, map, filterb, Assoc, lookup, insert, UniqueKeys, UniqueKeys-insert, string_eq, ◌==◌, inl,
  inr, Bool-cases, Option-cases, if◌then◌else◌,
}

-- The task of a stream, by its container and the channel that it sends to; a task that stops has left
-- `stream_container_logs` and has yet to remove its entry.
pub record Task : Type 0 where
  pub container : String
  pub channel : ℕ
  pub stopping : Bool

-- `STREAMS`, the tasks, and the number of the next channel.
pub record Registry : Type 0 where
  pub streams : Assoc String ℕ
  pub tasks : List Task
  pub next : ℕ

abbrev pub empty_registry : Registry
empty_registry = record { streams = []; tasks = []; next = 0 }

-- The entry of a new stream, whose task is spawned.
abbrev pub spawn : String → Registry → Registry
spawn container s = record {
  streams = insert container s.next s.streams;
  tasks = s.tasks ++ record { container = container; channel = s.next; stopping = false } ∷ [];
  next = suc s.next;
}

-- The channel that the client listens to.
unfoldable pub subscribe_container : String → Registry → ℕ × Registry
unfolding lookup insert
subscribe_container container s = elim (lookup container s.streams) [
  | some channel ↦ (channel, s)
  | none ↦ (s.next, spawn container s)
]

unfoldable pub remove_stream : String → Assoc String ℕ → Assoc String ℕ
remove_stream container streams = filterb (λ entry. not (entry.0 == container)) streams

pub data Step : Registry → Registry → Type 0 where
  subscribes : (container : String) (s : Registry) → Step s (subscribe_container container s).1
  stops :
      (s : Registry) (before after : List Task) (t : Task)
      → s.tasks ≡ before ++ t ∷ after
      → Step s (record s { tasks = before ++ record t { stopping = true } ∷ after })
  ends :
      (s : Registry) (before after : List Task) (t : Task)
      → s.tasks ≡ before ++ t ∷ after
      → t.stopping ≡ true
      → Step s (record s { streams = remove_stream t.container s.streams; tasks = before ++ after })

pub data Reach : Registry → Type 0 where
  start : Reach empty_registry
  next : {s s' : Registry} → Reach s → Step s s' → Reach s'

abbrev pub entry : Task → String × ℕ
entry t = (t.container, t.channel)

-- The registry lists the streams of the tasks that there are, and no container is listed twice.
abbrev pub IsRegistered : Registry → Type 0
IsRegistered s = (s.streams ≡ map entry s.tasks) × UniqueKeys s.streams

entries-append : (xs ys : List Task) → map entry (xs ++ ys) ≡ map entry xs ++ map entry ys
entries-append [] ys = refl
entries-append (x ∷ xs) ys = ap (λ l. entry x ∷ l) (entries-append xs ys)

insert-absent :
    (key : String) (v : ℕ) (m : Assoc String ℕ)
    → lookup key m ≡ none
    → insert key v m ≡ m ++ (key, v) ∷ []
unfolding insert lookup
insert-absent key v [] h = refl
insert-absent key v ((k, w) ∷ m) h = elim (Bool-cases (k == key)) [
  | inl same ↦
      let found : some w ≡ none = subst (λ b. (if b then some w else lookup key m) ≡ none) same h in
      cc
  | inr other ↦
      let rest =
        insert-absent key v m (subst (λ b. (if b then some w else lookup key m) ≡ none) other h) in
      rw (other, rest) refl
]

remove-absent : (key : String) (m : Assoc String ℕ) → lookup key m ≡ none → remove_stream key m ≡ m
unfolding lookup remove_stream
remove-absent key [] h = refl
remove-absent key ((k, w) ∷ m) h = elim (Bool-cases (k == key)) [
  | inl same ↦
      let found : some w ≡ none = subst (λ b. (if b then some w else lookup key m) ≡ none) same h in
      cc
  | inr other ↦
      let rest =
        remove-absent key m (subst (λ b. (if b then some w else lookup key m) ≡ none) other h) in
      rw other (ap (λ l. (k, w) ∷ l) rest)
]

-- What is not listed is none of the tasks, and is not listed without one of them.
lookup-apart :
    (key : String) (before after : List Task) (t : Task)
    → lookup key (map entry (before ++ t ∷ after)) ≡ none
    → ((t.container == key) ≡ false) × (lookup key (map entry (before ++ after)) ≡ none)
unfolding lookup
lookup-apart key [] after t = elim (Bool-cases (t.container == key)) [
  | inl same ↦ rw same (λ h. cc)
  | inr other ↦ rw other (λ h. (refl, h))
]
lookup-apart key (b ∷ before) after t = elim (Bool-cases (b.container == key)) [
  | inl same ↦ rw same (λ h. cc)
  | inr other ↦ rw other (lookup-apart key before after t)
]

differ-swapped : (a b : String) → (a == b) ≡ false → (b == a) ≡ false
differ-swapped a b h = elim (Bool-cases (b == a)) [
  | inl same ↦
      let found : (a == b) ≡ true =
        (string_eq.beq_iff a b).1 (sym ((string_eq.beq_iff b a).0 same)) in
      cc
  | inr other ↦ other
]

remove-entry :
    (before after : List Task) (t : Task)
    → UniqueKeys (map entry (before ++ t ∷ after))
    → (remove_stream t.container (map entry (before ++ t ∷ after)) ≡ map entry (before ++ after))
      × UniqueKeys (map entry (before ++ after))
unfolding remove_stream
remove-entry [] after t h =
    let own : (t.container == t.container) ≡ true =
      (string_eq.beq_iff t.container t.container).1 refl in
    (rw own (remove-absent t.container (map entry after) h.0), h.1)
remove-entry (b ∷ before) after t h =
    let apart = lookup-apart b.container before after t h.0 in
    let rest = remove-entry before after t h.1 in
    let other = differ-swapped t.container b.container apart.0 in
    (rw other (ap (λ l. entry b ∷ l) rest.0), (apart.1, rest.1))

entries-stopped :
    (before after : List Task) (t : Task)
    → map entry (before ++ record t { stopping = true } ∷ after) ≡ map entry (before ++ t ∷ after)
entries-stopped [] after t = refl
entries-stopped (b ∷ before) after t = ap (λ l. entry b ∷ l) (entries-stopped before after t)

IsRegistered-subscribe :
    (container : String) (s : Registry)
    → IsRegistered s
    → IsRegistered (subscribe_container container s).1
unfolding subscribe_container
IsRegistered-subscribe container s h = elim (Option-cases (lookup container s.streams)) [
  | inr (channel, listed) ↦ rw (subscribe_container, listed) h
  | inl absent ↦
      let added = insert-absent container s.next s.streams absent in
      rw (subscribe_container, absent)
        (
          added ∙ ap (λ l. l ++ (container, s.next) ∷ []) h.0 ∙ sym (entries-append s.tasks _),
          UniqueKeys-insert container s.next s.streams h.1,
        )
]

IsRegistered-Step : {s s' : Registry} → Step s s' → IsRegistered s → IsRegistered s'
IsRegistered-Step (subscribes container s) h = IsRegistered-subscribe container s h
IsRegistered-Step (stops s before after t there) h =
    (h.0 ∙ ap (map entry) there ∙ sym (entries-stopped before after t), h.1)
IsRegistered-Step (ends s before after t there stopping) h =
    let listed : s.streams ≡ map entry (before ++ t ∷ after) = h.0 ∙ ap (map entry) there in
    let removed = remove-entry before after t (subst UniqueKeys listed h.1) in
    let left : remove_stream t.container s.streams ≡ map entry (before ++ after) =
      ap (remove_stream t.container) listed ∙ removed.0 in
    (left, subst UniqueKeys (sym left) removed.1)

-- In every state that clients and tasks reach, in any order of their steps, the registry lists exactly
-- the streams of the tasks that have yet to deregister, by their channels, and no container twice: a
-- container has one task at most.
pub Reach-IsRegistered : {s : Registry} → Reach s → IsRegistered s
Reach-IsRegistered start = (refl, tt)
Reach-IsRegistered (next before step) = IsRegistered-Step step (Reach-IsRegistered before)
