-- ===== src/Server/Tests.antt =====
-- Requests to an instance that can write, on a disk with room and on a full one.
use spark_dashboard.Prelude.{◌≡◌, ◌≢◌, ◌≤◌, ◌<◌, ◌⊎◌, refl, true, false, some, [], ◌∷◌, arith}
use spark_dashboard.ConfigStore.{
  Bytes, FileName, World, write_and_sync, replace, store, max_document_bytes,
}
use spark_dashboard.ConfigStore.Disk.{Disk, disk, disk-FileLaws, with_document, writable}
use spark_dashboard.Server.{
  AppState, Response, json, write_failed_response, respond, StatusCode, put_dashboard,
}
use spark_dashboard.Server.Answers.{stored, put_dashboard_answers}

abbrev app : AppState
app = record { config = writable }

abbrev room : World Disk
room = with_document (1 ∷ 2 ∷ []) false

abbrev full : World Disk
full = with_document (1 ∷ 2 ∷ []) true

apart : FileName.temporary 41 7 ≢ FileName.document
apart = ground arith

put_dashboard_answers_example :
    let after = (put_dashboard disk app (3 ∷ []) full).1 in
    (((write_failed_response app).status ≡ 204)
      × (1 ≤ max_document_bytes)
      × (false ≡ false)
      × (stored disk app after ≡ some (3 ∷ [])))
    ⊎ (((write_failed_response app).status ≡ 413) × (max_document_bytes < 1) × (after ≡ full))
    ⊎ (((write_failed_response app).status ≡ 503) × (false ≡ true) × (after ≡ full))
    ⊎ (((write_failed_response app).status ≡ 500) × (stored disk app after ≡ some (1 ∷ 2 ∷ [])))
unfolding put_dashboard store replace write_and_sync
put_dashboard_answers_example =
    put_dashboard_answers disk-FileLaws app (3 ∷ []) full (write_failed_response app) apart refl

abbrev kept : Bytes
kept = 1 ∷ 2 ∷ []

abbrev document_answer : Response
document_answer = respond app StatusCode.ok (json kept)
