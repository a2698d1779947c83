-- ===== src/ConfigStore/Tests.antt =====
-- A document that is replaced, loaded and removed.
use spark_dashboard.Prelude.{◌≡◌, ◌≢◌, true, some, [], ◌∷◌, arith}
use spark_dashboard.ConfigStore.{Bytes, FileName, write_and_sync, replace, store}
use spark_dashboard.ConfigStore.Atomic.{store-Replaced}
use spark_dashboard.ConfigStore.Disk.{disk, disk-FileLaws, with_document, writable}

abbrev old : Bytes
old = 1 ∷ 2 ∷ []

abbrev young : Bytes
young = 3 ∷ []

apart : FileName.temporary 41 7 ≢ FileName.document
apart = ground arith

-- On a full disk the write fails, and the old document is there still.
store-Replaced_example :
    disk.contents FileName.document (store disk writable young (with_document old true)).1.files
    ≡ some old
unfolding store replace write_and_sync
store-Replaced_example = store-Replaced disk-FileLaws writable young (with_document old true) apart
