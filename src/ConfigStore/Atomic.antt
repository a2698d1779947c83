-- ===== src/ConfigStore/Atomic.antt =====
-- config_store.rs: what a write, a removal and the startup probe leave of the document, on each
-- outcome, a crash included.
use spark_dashboard.Prelude.{◌≡◌, ◌≢◌, ◌∙◌, sym, refl, Option, none, some, [], ◌⊎◌, inl, inr, arith}
use spark_dashboard.ConfigStore.{
  Bytes, FileName, Outcome, FileSystem, FileLaws, ConfigStore, World, write_and_sync, replace,
  store, load, delete, ErrorKind, and_then, on_error, ignoring, new, probe_writable,
}

pub Outcome-cases :
    {A : Type 0} (o : Outcome A)
    → ((a : A) × (o ≡ Outcome.done a))
      ⊎ ((e : ErrorKind) × (o ≡ Outcome.failed e))
      ⊎ (o ≡ Outcome.crashed)
Outcome-cases (Outcome.done a) = inl (a, refl)
Outcome-cases (Outcome.failed e) = inr (inl (e, refl))
Outcome-cases Outcome.crashed = inr (inr refl)

-- What a replacement of the contents `old` by `bytes` leaves.
abbrev pub Replaced : Outcome Unit → Bytes → Option Bytes → Option Bytes → Type 0
Replaced (Outcome.done u) bytes old after = after ≡ some bytes
Replaced (Outcome.failed e) bytes old after = after ≡ old
Replaced Outcome.crashed bytes old after = (after ≡ old) ⊎ (after ≡ some bytes)

written-Replaced :
    (o : Outcome Unit) (b : Bytes) (old after : Option Bytes)
    → o ≡ Outcome.done tt
    → Replaced o b old after
    → after ≡ some b
written-Replaced (Outcome.done u) b old after h r = r
written-Replaced (Outcome.failed e) b old after h r = absurd (ground arith)
written-Replaced Outcome.crashed b old after h r = absurd (ground arith)

failed-Replaced :
    (o : Outcome Unit) (b : Bytes) (old after : Option Bytes) (e : ErrorKind)
    → o ≡ Outcome.failed e
    → Replaced o b old after
    → after ≡ old
failed-Replaced (Outcome.done u) b old after e h r = absurd (ground arith)
failed-Replaced (Outcome.failed err) b old after e h r = r
failed-Replaced Outcome.crashed b old after e h r = absurd (ground arith)

and_then-ignoring :
    {S : Type 0} (r : Outcome Unit × S) (e : ErrorKind) (next : Unit → S → Outcome Unit × S)
    → and_then (ignoring r (Outcome.failed e)) next ≡ ignoring r (Outcome.failed e)
and_then-ignoring (Outcome.done u, s) e next = refl
and_then-ignoring (Outcome.failed err, s) e next = refl
and_then-ignoring (Outcome.crashed, s) e next = refl

module _ {S : Type 0} {fs : FileSystem S} (laws : FileLaws fs) where
  keeps-write_and_sync :
      (tmp q : FileName) (b : Bytes) (s : S)
      → tmp ≢ q
      → fs.contents q (write_and_sync fs tmp b s).1 ≡ fs.contents q s
  unfolding write_and_sync
  keeps-write_and_sync tmp q b s apart = ground (
    arith,
    laws.create_keeps tmp q s apart,
    laws.write_keeps tmp q b (fs.create tmp s).1 apart,
    laws.sync_keeps tmp q (fs.write_all tmp b (fs.create tmp s).1).1 apart,
  )

  contents-write_and_sync :
      (tmp : FileName) (b : Bytes) (s : S)
      → (write_and_sync fs tmp b s).0 ≡ Outcome.done tt
      → fs.contents tmp (write_and_sync fs tmp b s).1 ≡ some b
  unfolding write_and_sync
  contents-write_and_sync tmp b s h = ground (
    arith,
    laws.create_pending tmp s,
    laws.write_pending tmp b [] (fs.create tmp s).1,
    laws.sync_contents tmp (fs.write_all tmp b (fs.create tmp s).1).1,
  )

  -- The removal of the temporary file on an error.
  Replaced-ignoring :
      (tmp path : FileName) (e : ErrorKind) (b : Bytes) (old : Option Bytes) (s : S)
      → tmp ≢ path
      → fs.contents path s ≡ old
      → let r = ignoring (fs.remove_file tmp s) (Outcome.failed e) in
        Replaced r.0 b old (fs.contents path r.1)
  Replaced-ignoring tmp path e b old s apart kept =
      let same = laws.remove_keeps tmp path s apart ∙ kept in
      elim (Outcome-cases (fs.remove_file tmp s).0) [
        | inl (u, ok) ↦ rw ok same
        | inr (inl (err, h)) ↦ rw h same
        | inr (inr crash) ↦ rw crash (inl same)
      ]

  Replaced-rename :
      (path tmp : FileName) (b : Bytes) (old : Option Bytes) (s : S)
      → tmp ≢ path
      → fs.contents tmp s ≡ some b
      → fs.contents path s ≡ old
      → let r =
          on_error
            (fs.rename tmp path s)
            (λ err s3. ignoring (fs.remove_file tmp s3) (Outcome.failed err)) in
        Replaced r.0 b old (fs.contents path r.1)
  Replaced-rename path tmp b old s apart full kept =
      let renamed = fs.rename tmp path s in
      elim (Outcome-cases renamed.0) [
        | inl (u, ok) ↦ rw ok (laws.rename_done tmp path s ok ∙ full)
        | inr (inl (e, err)) ↦ rw err (
            Replaced-ignoring tmp path e b old renamed.1 apart
              (laws.rename_failed tmp path e s err ∙ kept))
        | inr (inr crash) ↦ rw crash (elim (laws.rename_target tmp path s) [
          | inl same ↦ inl (same ∙ kept)
          | inr moved ↦ inr (moved ∙ full)
        ])
      ]

  Replaced-replace :
      (path tmp : FileName) (b : Bytes) (s : S)
      → tmp ≢ path
      → Replaced
          (replace fs path tmp b s).0
          b
          (fs.contents path s)
          (fs.contents path (replace fs path tmp b s).1)
  unfolding replace
  Replaced-replace path tmp b s apart =
      let written = write_and_sync fs tmp b s in
      let kept = keeps-write_and_sync tmp path b s apart in
      elim (Outcome-cases written.0) [
        | inl (u, ok) ↦ rw ok (
            Replaced-rename path tmp b (fs.contents path s) written.1 apart
              (contents-write_and_sync tmp b s ok) kept)
        | inr (inl (e, err)) ↦ rw err (
            rw
              (and_then-ignoring (fs.remove_file tmp written.1) e (λ _ s2.
                on_error (fs.rename tmp path s2)
                  (λ err2 s3. ignoring (fs.remove_file tmp s3) (Outcome.failed err2))))
              (Replaced-ignoring tmp path e b (fs.contents path s) written.1 apart kept))
        | inr (inr crash) ↦ rw crash (inl kept)
      ]

  -- Whatever happens during a write, an error or a crash at any step of it, the document is the old
  -- one or the new one and never a part of it: the new one if the write succeeds, the old one if it
  -- returns an error.
  pub store-Replaced :
      (c : ConfigStore) (b : Bytes) (w : World S)
      → FileName.temporary w.pid w.counter ≢ c.path
      → Replaced
          (store fs c b w).0
          b
          (fs.contents c.path w.files)
          (fs.contents c.path (store fs c b w).1.files)
  unfolding store
  store-Replaced c b w apart = Replaced-replace c.path _ b w.files apart

  pub store_done :
      (c : ConfigStore) (b : Bytes) (w : World S)
      → FileName.temporary w.pid w.counter ≢ c.path
      → (store fs c b w).0 ≡ Outcome.done tt
      → fs.contents c.path (store fs c b w).1.files ≡ some b
  store_done c b w apart h = written-Replaced _ b _ _ h (store-Replaced c b w apart)

  pub store_failed :
      (c : ConfigStore) (b : Bytes) (w : World S)
      → FileName.temporary w.pid w.counter ≢ c.path
      → (e : ErrorKind) → (store fs c b w).0 ≡ Outcome.failed e
      → fs.contents c.path (store fs c b w).1.files ≡ fs.contents c.path w.files
  store_failed c b w apart e h = failed-Replaced _ b _ _ e h (store-Replaced c b w apart)

  pub contents-load :
      (c : ConfigStore) (w : World S) (found : Option Bytes)
      → load fs c w ≡ Outcome.done found
      → fs.contents c.path w.files ≡ found
  unfolding load
  contents-load c w found h = elim (Outcome-cases (fs.read c.path w.files)) [
    | inl (b, ok) ↦ ground (arith, laws.read_done c.path b w.files)
    | inr (inl (e, err)) ↦ ground (arith, laws.read_not_found c.path w.files)
    | inr (inr crash) ↦ ground arith
  ]

  -- What is loaded after a write that succeeded, if the load succeeds, is the document as written.
  pub load-store :
      (c : ConfigStore) (b : Bytes) (w : World S) (found : Option Bytes)
      → FileName.temporary w.pid w.counter ≢ c.path
      → (store fs c b w).0 ≡ Outcome.done tt
      → load fs c (store fs c b w).1 ≡ Outcome.done found
      → found ≡ some b
  unfolding load
  load-store c b w found apart stored loaded =
      sym (contents-load c (store fs c b w).1 found loaded) ∙ store_done c b w apart stored

  -- A removal that succeeds leaves no document, one that was not there included; one that returns an
  -- error leaves the document.
  pub delete_removes :
      (c : ConfigStore) (w : World S)
      → let after = fs.contents c.path (delete fs c w).1.files in
        ((delete fs c w).0 ≡ Outcome.done tt → after ≡ none)
        × ((e : ErrorKind)
            → (delete fs c w).0 ≡ Outcome.failed e
            → after ≡ fs.contents c.path w.files)
  unfolding delete
  delete_removes c w = (
    λ h. ground (
      arith,
      laws.remove_done c.path w.files,
      laws.remove_failed c.path ErrorKind.not_found w.files,
      laws.remove_not_found c.path w.files,
    ),
    λ e h. ground (
      arith,
      laws.remove_failed c.path ErrorKind.not_found w.files,
      laws.remove_failed c.path ErrorKind.other_error w.files,
    ),
  )

  -- The startup leaves the document alone, whatever its probe meets.
  pub new_keeps :
      (w : World S)
      → fs.contents FileName.document (new fs w).1.files ≡ fs.contents FileName.document w.files
  unfolding new probe_writable
  new_keeps w =
      let probe = FileName.write_probe w.pid w.counter in
      let apart : probe ≢ FileName.document = ground arith in
      let made = (fs.create_dir_all w.files).1 in
      let opened = (fs.create probe made).1 in
      ground (
        arith,
        laws.create_dir_keeps FileName.document w.files,
        laws.create_keeps probe FileName.document made apart,
        laws.write_keeps probe FileName.document [] opened apart,
        laws.remove_keeps probe FileName.document (fs.write_all probe [] opened).1 apart,
      )
