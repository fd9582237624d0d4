-- ===== src/FileHandler/Sharing.antt =====
-- More operations of src/file_handler.cpp: how the storage is opened and read, and how the files that
-- other hosts offer come in.
use mfsync.Common.{Bool, true, false, not, ◌&&◌, Option, none, some, List, [], ◌∷◌, Bytes}
use mfsync.Common.{if◌then◌else◌, Outcome, ok, throws, undefined}
use mfsync.Info.{FileInformation, AvailableFile, file_information_named, available_file_named}
use mfsync.NameSet
use mfsync.Disk.{Node, Entries, regular, node_at}
use mfsync.FileHandler.{FileHandler, get_storage_path, is_stored, update_stored_files}

abbrev pub after_init : Outcome Bool × FileHandler → Outcome (Unit {0}) × FileHandler
after_init (ok b, h) = (ok tt, record h { storage_initialized = true })
after_init (throws e, h) = (throws e, h)
after_init (undefined, h) = (undefined, h)

unfoldable pub init_storage : Entries → FileHandler → Bytes → Outcome (Unit {0}) × FileHandler
unfolding update_stored_files
init_storage root h storage_path =
    after_init (update_stored_files root true (record h { storage_path = storage_path }))

readable_content : Option Node → Option Bytes
readable_content (some (regular true content)) = some content
readable_content _ = none

unfoldable pub read_after :
    Entries → FileInformation → Outcome Bool × FileHandler → Outcome (Option Bytes) × FileHandler
unfolding readable_content is_stored
read_after root f (ok b, h) =
    if not (is_stored h f)
    then (ok none, h)
    else (ok (readable_content (node_at root (get_storage_path h f))), h)
read_after root f (throws e, h) = (throws e, h)
read_after root f (undefined, h) = (undefined, h)

-- `read_file`: the content that the stream reads.
unfoldable pub read_file :
    Entries → FileHandler → FileInformation → Outcome (Option Bytes) × FileHandler
unfolding read_after update_stored_files
read_file root h f = read_after root f (update_stored_files root false h)

-- The available files after one is offered, and whether it is new.
unfoldable pub offer : FileHandler → AvailableFile → FileHandler × Bool
unfolding is_stored
offer h a = if is_stored h a.file_info then (h, false) else (
  record h { available_files = NameSet.insert a h.available_files },
  not (NameSet.contains a.file_info.file_name h.available_files),
)

-- `add_available_file`, with whether the waiting threads are notified.
unfoldable pub add_available_file : FileHandler → AvailableFile → FileHandler × Bool
unfolding offer
add_available_file h a = offer h a

-- The loop of `add_available_files`, with `changed`.
unfoldable pub offer_all : FileHandler → List AvailableFile → Bool → FileHandler × Bool
unfolding offer
offer_all h [] changed = (h, changed)
offer_all h (a ∷ available) changed =
    let (h', new) = offer h a in
    offer_all h' available (if new && h.print_availables then true else changed)

unfoldable pub add_after :
    List AvailableFile → Outcome Bool × FileHandler → Outcome Bool × FileHandler
unfolding offer_all
add_after available (ok b, h) = let (h', changed) = offer_all h available false in (ok changed, h')
add_after available (throws e, h) = (throws e, h)
add_after available (undefined, h) = (undefined, h)

-- `add_available_files`, with whether the waiting threads are notified.
unfoldable pub add_available_files :
    Entries → FileHandler → List AvailableFile → Outcome Bool × FileHandler
unfolding add_after update_stored_files
add_available_files root h available = add_after available (update_stored_files root false h)

-- `update_available_files`
unfoldable pub without_stored : FileHandler → List AvailableFile → List AvailableFile
unfolding is_stored
without_stored h [] = []
without_stored h (a ∷ s) =
    let rest = without_stored h s in if is_stored h a.file_info then rest else a ∷ rest

unfoldable pub update_available_files : FileHandler → FileHandler
unfolding without_stored
update_available_files h = record h { available_files = without_stored h h.available_files }

-- `add_stored_file`; the lock that its second argument asks for makes no difference to a call that is
-- one step.
unfoldable pub add_stored_file : FileHandler → FileInformation → FileHandler
add_stored_file h f = record h { stored_files = NameSet.insert f h.stored_files }

-- `print_availables`
unfoldable pub print_availables : FileHandler → Bool → FileHandler
print_availables h value = record h { print_availables = value }
