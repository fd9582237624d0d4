-- ===== src/FileHandler.antt =====
-- src/file_handler.cpp: the sets of stored and available files, the locks of the files that are being
-- received, and the scan of the storage directory.
pub mod Scan
pub mod Offers
pub mod Refresh
pub mod Invariant
pub mod Tokens
pub mod Keeping
pub mod Locks
pub mod Preserving
pub mod Lifecycle
pub mod Operations
pub mod Sharing
use mathlib.Core.List.{reverse}
use mfsync.Common.{
  ℕ, suc, ◌+◌, ◌≡◌, Bool, true, false, not, ◌&&◌, ◌||◌, Option, none, some, List, [], ◌∷◌, ◌++◌,
}
use mfsync.Common.{
  Bytes, codes, str_eq, ends_with, if◌then◌else◌, any_of, erase_if, length, ltb, parent,
}
use mfsync.Common.{Outcome, ok, throws, filesystem_error, is_some, ◌==◌}
use mfsync.Info.{FileInformation, AvailableFile, RequestedFile, file_information_eq}
use mfsync.Info.{file_information_named, available_file_named}
use mfsync.NameSet
use mfsync.Disk
use mfsync.Disk.{
  Node, Entries, regular, directory, symlink, special, nil, entry, join, node_at, exists,
}
use mfsync.Disk.{put_at, file_size, rename}

-- A pair of `locked_files_`. The token is the identity of the shared flag, `active` its value.
pub record Lock : Type 0 where
  pub file_info : FileInformation
  pub token : ℕ
  pub active : Bool

pub record FileHandler : Type 0 where
  pub storage_path : Bytes
  pub stored_files : List FileInformation
  pub available_files : List AvailableFile
  pub locked_files : List Lock
  -- The identity that the next shared flag gets.
  pub next_token : ℕ
  pub storage_initialized : Bool
  pub finalize_with_shasum : Bool
  pub print_availables : Bool
  pub storage_init_is_in_progress : Bool

abbrev pub tmp_suffix : Bytes
tmp_suffix = codes ".mfsync"

-- A default-constructed handler.
abbrev pub empty_handler : FileHandler
empty_handler = record {
  storage_path = [];
  stored_files = [];
  available_files = [];
  locked_files = [];
  next_token = 0;
  storage_initialized = false;
  finalize_with_shasum = false;
  print_availables = false;
  storage_init_is_in_progress = false;
}

abbrev pub is_empty : Bytes → Bool
is_empty [] = true
is_empty (c ∷ cs) = false

unfoldable pub get_tmp_path : FileHandler → FileInformation → Bytes
unfolding join
get_tmp_path h f = join h.storage_path (f.file_name ++ tmp_suffix)

unfoldable pub get_storage_path : FileHandler → FileInformation → Bytes
unfolding join
get_storage_path h f = join h.storage_path f.file_name

-- `is_stored`, `stored_file_exists` and `exists_internal` of a file information: the set compares names.
unfoldable pub is_stored : FileHandler → FileInformation → Bool
is_stored h f = NameSet.contains f.file_name h.stored_files

-- `is_stored` and `exists_internal` of a name: a search through the whole set.
unfoldable pub is_stored_name : FileHandler → Bytes → Bool
is_stored_name h name = any_of (λ f. str_eq f.file_name name) h.stored_files

unfoldable pub is_available : FileHandler → Bytes → Bool
is_available h name = NameSet.contains name h.available_files

unfoldable pub get_available_file : FileHandler → Bytes → Option AvailableFile
get_available_file h name = NameSet.find name h.available_files

unfoldable pub remove_available_file : FileHandler → AvailableFile → FileHandler
remove_available_file h a = record h {
  available_files = NameSet.erase a.file_info.file_name h.available_files;
}

unfoldable pub is_blocked : FileHandler → FileInformation → Bool
unfolding file_information_eq
is_blocked h f = any_of (λ l. file_information_eq l.file_info f && l.active) h.locked_files

unfoldable pub in_progress : FileHandler → AvailableFile → Bool
unfolding is_stored is_blocked
in_progress h a = is_stored h a.file_info || is_blocked h a.file_info

-- `is_tmp_file`
unfoldable pub is_tmp_file : Bytes → Bool
unfolding ends_with
is_tmp_file path = ends_with tmp_suffix path

-- A name below a directory of the storage, relative to the storage; `[]` is the storage itself.
abbrev pub relative : Bytes → Bytes → Bytes
relative [] name = name
relative (c ∷ cs) name = (c ∷ cs) ++ (b'/' ∷ name)

-- `create_file_information` of a regular file without a checksum; it fails if the file cannot be read.
unfoldable pub create_file_information : Bool → Bytes → Bytes → Option FileInformation
create_file_information readable content name =
    if readable
    then some (record { file_name = name; sha256sum = none; size = length content })
    else none

abbrev insert_option : Option FileInformation → List FileInformation → List FileInformation
insert_option none s = s
insert_option (some f) s = NameSet.insert f s

-- The rest of the body of the scan for an entry that is neither a link nor a directory.
scan_file : Bytes → Bytes → Option FileInformation → List FileInformation → List FileInformation
unfolding is_tmp_file
scan_file path name info s =
    if is_tmp_file path then s else if NameSet.contains name s then s else insert_option info s

-- `update_stored_files(path)`: the entries of a directory, with the directory's path and its name
-- relative to the storage.
unfoldable mutual
  unfolding scan_file create_file_information join

  pub scan : Entries → Bytes → Bytes → List FileInformation → List FileInformation
  scan nil path rel s = s
  scan (entry name x rest) path rel s =
      scan rest path rel (scan_entry x (join path name) (relative rel name) s)

  pub scan_entry : Node → Bytes → Bytes → List FileInformation → List FileInformation
  scan_entry symlink path name s = s
  scan_entry (directory es) path name s = scan es path name s
  scan_entry (regular readable content) path name s =
      scan_file path name (create_file_information readable content name) s
  scan_entry special path name s = scan_file path name none s

-- The stored files whose path still exists.
unfoldable pub still_stored : Entries → FileHandler → List FileInformation
still_stored root h =
    erase_if (λ f. not (exists root (join h.storage_path f.file_name))) h.stored_files

-- The scan of the node at the storage path. A directory iterator over anything but a directory
-- throws, and the flag of a scan in progress stays set.
unfoldable pub scan_storage : Node → FileHandler → Outcome Bool × FileHandler
unfolding scan
scan_storage (directory es) h = (
  ok true,
  record h {
    stored_files = scan es h.storage_path [] h.stored_files;
    storage_init_is_in_progress = false;
  },
)
scan_storage (regular r t) h = (throws filesystem_error, h)
scan_storage symlink h = (throws filesystem_error, h)
scan_storage special h = (throws filesystem_error, h)

-- `update_stored_files(init_call)`
unfoldable pub update_stored_files : Entries → Bool → FileHandler → Outcome Bool × FileHandler
unfolding still_stored scan_storage
update_stored_files root init_call h =
    if not h.storage_initialized && not init_call
    then (ok false, h)
    else if h.storage_init_is_in_progress
    then (ok false, h)
    else let h' = record h { storage_init_is_in_progress = true } in
      if is_empty h'.storage_path then (ok false, h') else elim (node_at root h'.storage_path) [
        | none ↦ (ok false, h')
        | some x ↦ scan_storage x (record h' { stored_files = still_stored root h' })
      ]
