-- ===== src/FileHandler/Refresh.antt =====
-- What `update_stored_files` of src/file_handler.cpp makes of the set of stored files.
use mathlib.Core.Option.{or_else}
use mfsync.Common.{
  ◌≡◌, ap, ◌∙◌, Bool, false, not, ◌&&◌, none, some, arith, [], Bytes, if◌then◌else◌,
}
use mfsync.Info.{file_information_named}
use mfsync.NameSet
use mfsync.NameSet.Order.{IsSorted}
use mfsync.NameSet.Lookup.{find-erase_if}
use mfsync.Disk.{Entries, directory, node_at, exists, join}
use mfsync.FileHandler.{FileHandler, update_stored_files, scan_storage, still_stored, is_empty}
use mfsync.FileHandler.Scan.{first, files_below, find-scan_all}

-- If the storage is a directory, a path is set, the handler is initialized or this is its first
-- call, no other scan runs and the set is in order, then after the update the file of a name is
-- the one that was stored, if its path still exists, or else the first of the files below the
-- storage that has the name.
pub find-update_stored_files :
    (root es : Entries) (init_call : Bool) (h : FileHandler) (k : Bytes)
    → (not h.storage_initialized && not init_call) ≡ false
    → h.storage_init_is_in_progress ≡ false
    → is_empty h.storage_path ≡ false
    → node_at root h.storage_path ≡ some (directory es)
    → IsSorted h.stored_files
    → NameSet.find k (update_stored_files root init_call h).1.stored_files
      ≡ or_else
          (if exists root (join h.storage_path k) then NameSet.find k h.stored_files else none)
          (first k (files_below es h.storage_path []))
unfolding update_stored_files scan_storage still_stored
find-update_stored_files root es init_call h k started idle path there sorted =
    simp (started, idle, path, there)
      (find-scan_all es h.storage_path [] (still_stored root h) k
        ∙ ap (λ o. or_else o (first k (files_below es h.storage_path [])))
            (find-erase_if (λ name. not (exists root (join h.storage_path name))) k h.stored_files
                sorted
              ∙ ground arith))
