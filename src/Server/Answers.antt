-- ===== src/Server/Answers.antt =====
-- server.rs: what the responses tell of the document.
use spark_dashboard.Prelude.{
  ◌≡◌, ◌≢◌, ◌<◌, ◌≤◌, true, false, Option, none, some, ◌⊎◌, inl, inr, arith, length,
}
use spark_dashboard.ConfigStore.{
  Bytes, FileName, Outcome, FileSystem, FileLaws, World, load, ErrorKind, max_document_bytes,
  is_read_only,
}
use spark_dashboard.ConfigStore.Atomic.{
  Outcome-cases, store_done, store_failed, contents-load, delete_removes,
}
use spark_dashboard.Server.{
  AppState, Response, get_dashboard, put_dashboard, delete_dashboard, json, nothing,
}

-- The document on the disk.
abbrev pub stored : {S : Type 0} → FileSystem S → AppState → World S → Option Bytes
stored fs state w = fs.contents state.config.path w.files

module _ {S : Type 0} {fs : FileSystem S} (laws : FileLaws fs) where
  -- The response to a write tells what became of the document: 204 if and only if it is the body
  -- as sent, by a body within the limit and an instance that can write; every other response means
  -- that the document is as it was, and one before the write that nothing was touched.
  pub put_dashboard_answers :
      (state : AppState) (body : Bytes) (w : World S) (r : Response)
      → FileName.temporary w.pid w.counter ≢ state.config.path
      → (put_dashboard fs state body w).0 ≡ Outcome.done r
      → let after = (put_dashboard fs state body w).1 in
        ((r.status ≡ 204)
          × (length body ≤ max_document_bytes)
          × (is_read_only state.config ≡ false)
          × (stored fs state after ≡ some body))
        ⊎ ((r.status ≡ 413) × (max_document_bytes < length body) × (after ≡ w))
        ⊎ ((r.status ≡ 503) × (is_read_only state.config ≡ true) × (after ≡ w))
        ⊎ ((r.status ≡ 500) × (stored fs state after ≡ stored fs state w))
  unfolding put_dashboard
  put_dashboard_answers state body w r apart h = ground (
    arith,
    store_done laws state.config body w apart,
    store_failed laws state.config body w apart ErrorKind.not_found,
    store_failed laws state.config body w apart ErrorKind.other_error,
  )

  -- The same for a removal: 204 if there is no document any more.
  pub delete_dashboard_answers :
      (state : AppState) (w : World S) (r : Response)
      → (delete_dashboard fs state w).0 ≡ Outcome.done r
      → let after = (delete_dashboard fs state w).1 in
        ((r.status ≡ 204) × (is_read_only state.config ≡ false) × (stored fs state after ≡ none))
        ⊎ ((r.status ≡ 503) × (is_read_only state.config ≡ true) × (after ≡ w))
        ⊎ ((r.status ≡ 500) × (stored fs state after ≡ stored fs state w))
  unfolding delete_dashboard
  delete_dashboard_answers state w r h = ground (
    arith,
    (delete_removes laws state.config w).0,
    (delete_removes laws state.config w).1 ErrorKind.not_found,
    (delete_removes laws state.config w).1 ErrorKind.other_error,
  )

  -- A read returns the document: its bytes with 200, 204 if there is none, and else an error.
  pub get_dashboard_answers :
      (state : AppState) (w : World S) (r : Response)
      → get_dashboard fs state w ≡ Outcome.done r
      → ((b : Bytes) × (r.status ≡ 200) × (r.body ≡ json b) × (stored fs state w ≡ some b))
        ⊎ ((r.status ≡ 204) × (r.body ≡ nothing) × (stored fs state w ≡ none))
        ⊎ ((r.status ≡ 500) × (load fs state.config w ≢ Outcome.done (stored fs state w)))
  unfolding get_dashboard
  get_dashboard_answers state w r h = elim (Outcome-cases (load fs state.config w)) [
    | inl (none, ok) ↦ ground (arith, contents-load laws state.config w none ok)
    | inl (some b, ok) ↦ ground (arith, contents-load laws state.config w (some b) ok)
    | inr (inl (e, err)) ↦ ground arith
    | inr (inr crash) ↦ ground arith
  ]

-- Every response of the three handlers carries the header, and the header says whether the instance
-- is read-only.
pub responses_tell_read_only :
    {S : Type 0} (fs : FileSystem S) (state : AppState) (body : Bytes) (w : World S) (r : Response)
    → ((get_dashboard fs state w ≡ Outcome.done r)
        ⊎ ((put_dashboard fs state body w).0 ≡ Outcome.done r)
        ⊎ ((delete_dashboard fs state w).0 ≡ Outcome.done r))
    → r.read_only_header ≡ some (is_read_only state.config)
unfolding get_dashboard put_dashboard delete_dashboard
responses_tell_read_only fs state body w r h = ground arith
