-- ===== src/ConfigStore.antt =====
-- config_store.rs: the file that holds the dashboard document, and the writes that replace it. The
-- contents are bytes that the server does not read. The files of the state directory are behind an
-- interface that stands for `tokio::fs`.
pub mod Atomic
pub mod Disk
mod Tests
use spark_dashboard.Prelude.{
  ℕ, ◌+◌, ◌≡◌, ◌≢◌, Bool, true, false, not, Option, none, some, List, [], ◌++◌, ◌⊎◌,
}

abbrev pub Bytes : Type 0
Bytes = List ℕ

-- `dashboards.json`, `dashboards.tmp-{pid}-{n}` and `.write-probe-{pid}-{n}` in the state directory.
pub data FileName : Type 0 where
  document : FileName
  temporary : ℕ → ℕ → FileName
  write_probe : ℕ → ℕ → FileName

pub data ErrorKind : Type 0 where
  not_found : ErrorKind
  other_error : ErrorKind

-- How a chain of file operations ends. `crashed` is a power loss, or a future dropped at an `await`:
-- no later operation runs, the removal of a temporary file included.
pub data Outcome (A : Type 0) : Type 0 where
  done : A → Outcome A
  failed : ErrorKind → Outcome A
  crashed : Outcome A

-- The operations of `tokio::fs` on the state directory, `S` what they change. `contents` is what a
-- file holds on the disk, and `pending` what has been written to an open file, flushed or not.
pub record FileSystem (S : Type 0) : Type 0 where
  pub create_dir_all : S → Outcome Unit × S
  pub create : FileName → S → Outcome Unit × S
  pub write_all : FileName → Bytes → S → Outcome Unit × S
  pub sync_all : FileName → S → Outcome Unit × S
  pub rename : FileName → FileName → S → Outcome Unit × S
  pub remove_file : FileName → S → Outcome Unit × S
  pub read : FileName → S → Outcome Bytes
  pub contents : FileName → S → Option Bytes
  pub pending : FileName → S → Option Bytes

-- The documented behaviour of the operations. What holds with no condition on the outcome holds
-- after an error and a crash too.
pub record FileLaws {S : Type 0} (fs : FileSystem S) : Type 0 where
  pub create_dir_keeps :
      (q : FileName) (s : S) → fs.contents q (fs.create_dir_all s).1 ≡ fs.contents q s
  pub create_keeps :
      (p q : FileName) (s : S) → p ≢ q → fs.contents q (fs.create p s).1 ≡ fs.contents q s
  pub create_pending :
      (p : FileName) (s : S)
      → (fs.create p s).0 ≡ done tt
      → fs.pending p (fs.create p s).1 ≡ some []
  pub write_keeps :
      (p q : FileName) (b : Bytes) (s : S)
      → p ≢ q
      → fs.contents q (fs.write_all p b s).1 ≡ fs.contents q s
  pub write_pending :
      (p : FileName) (b before : Bytes) (s : S)
      → fs.pending p s ≡ some before
      → (fs.write_all p b s).0 ≡ done tt
      → fs.pending p (fs.write_all p b s).1 ≡ some (before ++ b)
  pub sync_keeps :
      (p q : FileName) (s : S) → p ≢ q → fs.contents q (fs.sync_all p s).1 ≡ fs.contents q s
  pub sync_contents :
      (p : FileName) (s : S)
      → (fs.sync_all p s).0 ≡ done tt
      → fs.contents p (fs.sync_all p s).1 ≡ fs.pending p s
  -- A rename is atomic: whatever its outcome, the target has its old contents or the new ones.
  pub rename_target :
      (p q : FileName) (s : S)
      → (fs.contents q (fs.rename p q s).1 ≡ fs.contents q s)
        ⊎ (fs.contents q (fs.rename p q s).1 ≡ fs.contents p s)
  pub rename_done :
      (p q : FileName) (s : S)
      → (fs.rename p q s).0 ≡ done tt
      → fs.contents q (fs.rename p q s).1 ≡ fs.contents p s
  pub rename_failed :
      (p q : FileName) (e : ErrorKind) (s : S)
      → (fs.rename p q s).0 ≡ failed e
      → fs.contents q (fs.rename p q s).1 ≡ fs.contents q s
  pub remove_keeps :
      (p q : FileName) (s : S) → p ≢ q → fs.contents q (fs.remove_file p s).1 ≡ fs.contents q s
  pub remove_done :
      (p : FileName) (s : S)
      → (fs.remove_file p s).0 ≡ done tt
      → fs.contents p (fs.remove_file p s).1 ≡ none
  pub remove_failed :
      (p : FileName) (e : ErrorKind) (s : S)
      → (fs.remove_file p s).0 ≡ failed e
      → fs.contents p (fs.remove_file p s).1 ≡ fs.contents p s
  pub remove_not_found :
      (p : FileName) (s : S) → (fs.remove_file p s).0 ≡ failed not_found → fs.contents p s ≡ none
  pub read_done :
      (p : FileName) (b : Bytes) (s : S) → fs.read p s ≡ done b → fs.contents p s ≡ some b
  pub read_not_found :
      (p : FileName) (s : S) → fs.read p s ≡ failed not_found → fs.contents p s ≡ none

-- The state directory's files, and the process that writes to them with its suffix counter.
pub record World (S : Type 0) : Type 0 where
  pub files : S
  pub pid : ℕ
  pub counter : ℕ

pub record ConfigStore : Type 0 where
  pub path : FileName
  pub read_only : Bool

-- `MAX_DOCUMENT_BYTES`
abbrev pub max_document_bytes : ℕ
max_document_bytes = 1048576

-- An operation after another: `?` on an error, and nothing at all after a crash.
abbrev pub and_then : {S A B : Type 0} → Outcome A × S → (A → S → Outcome B × S) → Outcome B × S
and_then (done a, s) next = next a s
and_then (failed e, s) next = (failed e, s)
and_then (crashed, s) next = (crashed, s)

-- The recovery of a `match` on an error, which a crash does not run.
abbrev pub on_error :
    {S A : Type 0} → Outcome A × S → (ErrorKind → S → Outcome A × S) → Outcome A × S
on_error (done a, s) recover = (done a, s)
on_error (failed e, s) recover = recover e s
on_error (crashed, s) recover = (crashed, s)

-- `let _ =` of an outcome, then an error.
abbrev pub ignoring : {S A : Type 0} → Outcome Unit × S → Outcome A → Outcome A × S
ignoring (done u, s) result = (result, s)
ignoring (failed e, s) result = (result, s)
ignoring (crashed, s) result = (crashed, s)

-- The number of the next suffix, which `unique_suffix` appends to the process's id.
abbrev pub unique_suffix : {S : Type 0} → World S → ℕ × World S
unique_suffix w = (w.counter, record w { counter = w.counter + 1 })

abbrev pub with_files : {S A : Type 0} → World S → Outcome A × S → Outcome A × World S
with_files w r = (r.0, record w { files = r.1 })

-- No document, as a value.
abbrev pub absent_is : {A : Type 0} → A → Outcome A → Outcome A
absent_is a (done b) = done b
absent_is a (failed not_found) = done a
absent_is a (failed other_error) = failed other_error
absent_is a crashed = crashed

abbrev pub is_read_only : ConfigStore → Bool
is_read_only c = c.read_only

module _ {S : Type 0} (fs : FileSystem S) where
  unfoldable pub write_and_sync : FileName → Bytes → S → Outcome Unit × S
  write_and_sync path bytes s =
      and_then (fs.create path s)
        (λ _ s1. and_then (fs.write_all path bytes s1) (λ _ s2. fs.sync_all path s2))

  -- `store` with the name of its temporary file.
  unfoldable pub replace : FileName → FileName → Bytes → S → Outcome Unit × S
  replace path tmp bytes s =
      and_then
        (on_error (write_and_sync tmp bytes s)
          (λ err s1. ignoring (fs.remove_file tmp s1) (failed err)))
        (λ _ s2.
          on_error (fs.rename tmp path s2)
            (λ err s3. ignoring (fs.remove_file tmp s3) (failed err)))

  unfoldable pub store : ConfigStore → Bytes → World S → Outcome Unit × World S
  unfolding replace
  store c bytes w =
      let suffix = unique_suffix w in
      with_files suffix.1 (replace c.path (temporary w.pid suffix.0) bytes w.files)

  unfoldable pub load : ConfigStore → World S → Outcome (Option Bytes)
  load c w = absent_is none (elim (fs.read c.path w.files) [
    | done bytes ↦ done (some bytes)
    | failed e ↦ failed e
    | crashed ↦ crashed
  ])

  unfoldable pub delete : ConfigStore → World S → Outcome Unit × World S
  delete c w = let r = fs.remove_file c.path w.files in (absent_is tt r.0, record w { files = r.1 })

  -- Whether a probe file can be written, which is then removed.
  pub probe_writable : World S → Outcome Bool × World S
  probe_writable w =
      let suffix = unique_suffix w in
      let probe = write_probe w.pid suffix.0 in
      with_files suffix.1 (
        on_error
          (and_then (and_then (fs.create probe w.files) (λ _ s1. fs.write_all probe [] s1))
            (λ _ s2. ignoring (fs.remove_file probe s2) (done true)))
          (λ _ s3. (done false, s3)))

  pub new : World S → Outcome ConfigStore × World S
  unfolding probe_writable
  new w =
      let dir = with_files w (fs.create_dir_all w.files) in
      let writable =
        on_error (and_then dir (λ _ w1. probe_writable w1)) (λ _ w2. (done false, w2)) in
      and_then writable (λ ok w3. (done (record { path = document; read_only = not ok }), w3))
