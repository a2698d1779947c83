-- ===== src/ConfigStore/Disk.antt =====
-- A state directory for the tests: a disk as a function of the file's name, on which every operation
-- succeeds or, where `full` says so, every write fails.
use spark_dashboard.Prelude.{
  ◌≡◌, refl, Bool, true, false, ◌&&◌, Option, none, some, [], ◌++◌, nat_beq, if◌then◌else◌, arith,
  ◌↔◌,
}
use spark_dashboard.ConfigStore.{
  Bytes, FileName, ErrorKind, Outcome, FileSystem, FileLaws, ConfigStore, World,
}

abbrev same_name : FileName → FileName → Bool
same_name FileName.document FileName.document = true
same_name (FileName.temporary p n) (FileName.temporary q m) = nat_beq p q && nat_beq n m
same_name (FileName.write_probe p n) (FileName.write_probe q m) = nat_beq p q && nat_beq n m
same_name _ _ = false

same_name_iff : (p q : FileName) → (same_name p q ≡ true) ↔ (p ≡ q)
same_name_iff p q = ground arith

pub record Disk : Type 0 where
  pub files : FileName → Option Bytes
  pub opened : FileName → Option Bytes
  pub full : Bool

abbrev put : FileName → Option Bytes → (FileName → Option Bytes) → FileName → Option Bytes
put p v m q = if same_name p q then v else m q

abbrev appended : Option Bytes → Bytes → Option Bytes
appended none b = none
appended (some before) b = some (before ++ b)

abbrev outcome : Bool → Outcome Unit
outcome full = if full then Outcome.failed ErrorKind.other_error else Outcome.done tt

abbrev removed : Option Bytes → Outcome Unit
removed none = Outcome.failed ErrorKind.not_found
removed (some b) = Outcome.done tt

abbrev found : Option Bytes → Outcome Bytes
found none = Outcome.failed ErrorKind.not_found
found (some b) = Outcome.done b

abbrev pub disk : FileSystem Disk
disk = record {
  create_dir_all = λ d. (Outcome.done tt, d);
  create = λ p d. (
    Outcome.done tt,
    record d { files = put p (some []) d.files; opened = put p (some []) d.opened },
  );
  write_all =
      λ p b d. (outcome d.full, record d { opened = put p (appended (d.opened p) b) d.opened });
  sync_all = λ p d. (Outcome.done tt, record d { files = put p (d.opened p) d.files });
  rename = λ p q d. (Outcome.done tt, record d { files = put q (d.files p) (put p none d.files) });
  remove_file = λ p d. (removed (d.files p), record d { files = put p none d.files });
  read = λ p d. found (d.files p);
  contents = λ p d. d.files p;
  pending = λ p d. d.opened p;
}

pub disk-FileLaws : FileLaws disk
disk-FileLaws = record {
  create_dir_keeps = λ q s. refl;
  create_keeps = λ p q s h. ground (arith, same_name_iff p q);
  create_pending = λ p s h. ground (arith, same_name_iff p p);
  write_keeps = λ p q b s h. refl;
  write_pending = λ p b before s h k. ground (arith, same_name_iff p p);
  sync_keeps = λ p q s h. ground (arith, same_name_iff p q);
  sync_contents = λ p s h. ground (arith, same_name_iff p p);
  rename_target = λ p q s. ground (arith, same_name_iff p q, same_name_iff q q);
  rename_done = λ p q s h. ground (arith, same_name_iff p q, same_name_iff q q);
  rename_failed = λ p q e s h. ground arith;
  remove_keeps = λ p q s h. ground (arith, same_name_iff p q);
  remove_done = λ p s h. ground (arith, same_name_iff p p);
  remove_failed = λ p e s h. ground (arith, same_name_iff p p);
  remove_not_found = λ p s h. ground arith;
  read_done = λ p b s h. ground arith;
  read_not_found = λ p s h. ground arith;
}

-- A directory with a document, and one on a disk that is full.
abbrev pub with_document : Bytes → Bool → World Disk
with_document b full = record {
  files = record {
    files = put FileName.document (some b) (λ p. none);
    opened = λ p. none;
    full = full;
  };
  pid = 41;
  counter = 7;
}

abbrev pub writable : ConfigStore
writable = record { path = FileName.document; read_only = false }
