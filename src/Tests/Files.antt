-- ===== src/Tests/Files.antt =====
-- A file handler that receives a file of three bytes.
use mfsync.Common.{
  ℕ, ◌≡◌, refl, Bool, true, false, Option, none, some, List, [], ◌∷◌, Bytes, codes, arith, ok,
}
use mathlib.Core.Option.{or_else}
use mfsync.Common.{if◌then◌else◌}
use mfsync.NameSet
use mfsync.NameSet.Order.{IsSorted}
use mfsync.Disk.{node_at, exists, join}
use mfsync.FileHandler.{update_stored_files}
use mfsync.FileHandler.Scan.{first, files_below}
use mfsync.FileHandler.Refresh.{find-update_stored_files}
use mfsync.Info.{file_information_named}
use mfsync.Info.{FileInformation, RequestedFile}
use mfsync.Disk.{Entries, nil, entry, directory, regular}
use mfsync.FileHandler.{FileHandler, empty_handler}
use mfsync.FileHandler.Operations.{makes, Answers, OfstreamWrapper, create_file, finalize_file}
use mfsync.FileHandler.Invariant.{IsValid}
use mfsync.FileHandler.Locks.{Result, create_file-Result}
use mfsync.FileHandler.Lifecycle.{
  Call, creates, finalizes, updates, releases, run, run-IsValid, Moved, finalize_file-Moved,
}

abbrev handler : FileHandler
handler = record empty_handler { storage_path = codes "/s"; storage_initialized = true }

abbrev file_info : FileInformation
file_info = record { file_name = codes "f"; sha256sum = none; size = 3 }

abbrev requested : RequestedFile
requested = record { file_info = file_info; offset = 0; chunksize = 2 }

abbrev answers : Answers
answers = record { available = 100; mkdir = makes; can_open = true }

abbrev files : Entries
files = entry (codes "s") (directory nil) nil

abbrev received : Entries
received =
    entry (codes "s") (directory (entry (codes "f.mfsync") (regular true (1 ∷ 2 ∷ 3 ∷ [])) nil)) nil

abbrev stream : OfstreamWrapper
stream = record {
  path = codes "/s/f.mfsync";
  requested_file = requested;
  position = 0;
  write_token = some 0;
}

abbrev sha256 : Bytes → Bytes
sha256 text = []

abbrev locked : FileHandler
locked = record handler {
  locked_files = record { file_info = file_info; token = 0; active = true } ∷ [];
  next_token = 1;
}

handler-IsValid : IsValid handler
handler-IsValid = record { stored = tt; available = tt; locks = tt }

given : (create_file handler files answers requested).result ≡ ok (some stream)
unfolding create_file mfsync.FileHandler.is_stored mfsync.NameSet.contains
    mfsync.FileHandler.is_blocked mfsync.Disk.node_at mfsync.FileHandler.get_storage_path
    mfsync.FileHandler.get_tmp_path mfsync.Common.parent mfsync.Disk.put_at
given = refl

finished : (finalize_file sha256 locked received file_info).result ≡ ok true
unfolding finalize_file mfsync.FileHandler.is_stored mfsync.NameSet.contains
    mfsync.FileHandler.is_blocked mfsync.Common.str_eq mfsync.Disk.rename mfsync.Common.parent
    mfsync.FileHandler.get_tmp_path mfsync.FileHandler.get_storage_path
    mfsync.FileHandler.update_stored_files
finished = refl

abbrev calls : List Call
calls =
    creates files answers requested
    ∷ finalizes sha256 received file_info
    ∷ updates received false
    ∷ creates files answers requested
    ∷ releases stream
    ∷ []

run-IsValid_example : IsValid (run handler calls)
run-IsValid_example = run-IsValid handler calls handler-IsValid

create_file-Result_example :
    Result handler files requested (create_file handler files answers requested)
create_file-Result_example = create_file-Result handler files answers requested

finalize_file-Moved_example :
    Moved locked received file_info (finalize_file sha256 locked received file_info)
finalize_file-Moved_example = finalize_file-Moved sha256 locked received file_info finished

-- A handler that stores `old`, which is gone, and `kept`, which stands below the storage with a new file.
abbrev stale : FileHandler
stale = record handler {
  stored_files =
      record { file_name = codes "kept"; sha256sum = none; size = 2 }
      ∷ record { file_name = codes "old"; sha256sum = none; size = 2 }
      ∷ [];
}

abbrev below : Entries
below =
    entry (codes "kept") (regular true (1 ∷ 2 ∷ []))
      (entry (codes "new") (regular true (1 ∷ [])) nil)

abbrev changed : Entries
changed = entry (codes "s") (directory below) nil

there : node_at changed stale.storage_path ≡ some (directory below)
unfolding node_at
there = refl

stale-IsSorted : IsSorted stale.stored_files
unfolding mfsync.Common.str_lt
stale-IsSorted = ((refl, tt), (tt, tt))

find-update_stored_files_example :
    NameSet.find (codes "new") (update_stored_files changed false stale).1.stored_files
    ≡ or_else
        (if exists changed (join stale.storage_path (codes "new"))
          then NameSet.find (codes "new") stale.stored_files
          else none)
        (first (codes "new") (files_below below stale.storage_path []))
find-update_stored_files_example =
    find-update_stored_files changed below false stale (codes "new") refl refl refl there
      stale-IsSorted
