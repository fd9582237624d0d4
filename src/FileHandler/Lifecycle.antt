-- ===== src/FileHandler/Lifecycle.antt =====
-- What every sequence of calls keeps, and what a finished file leaves behind.
use mfsync.Common.{◌≡◌, refl, Bool, true, false, Option, none, some, arith}
use mfsync.Common.{List, [], ◌∷◌, Bytes, ok, erase_if}
use mfsync.Info.{FileInformation, AvailableFile, RequestedFile, file_information_eq}
use mfsync.Info.{file_information_named, available_file_named}
use mfsync.NameSet.Order.{insert-IsSorted, erase-IsSorted, erase_if-IsSorted}
use mfsync.Disk.{Node, Entries, directory, node_at, rename, node_at-rename}
use mfsync.FileHandler.{
  Lock, FileHandler, is_stored, is_blocked, update_stored_files, get_tmp_path, get_storage_path,
  remove_available_file, scan_storage,
}
use mfsync.FileHandler.Operations.{
  Answers, OfstreamWrapper, create_file, release, Finalized, finalize_file, move_to_storage, moved,
}
use mfsync.FileHandler.Sharing.{
  add_available_files, add_available_file, update_available_files, read_file, init_storage,
  add_stored_file, print_availables,
}
use mfsync.FileHandler.Invariant.{
  IsValid, held, file_information_eq_symm, update_stored_files-IsValid, update_cases,
}
use mfsync.FileHandler.Preserving.{
  release-IsValid, create_file-IsValid, finalize_cases, finalize_file-IsValid, offer-IsValid,
  add_after-IsValid, init_storage-IsValid, read_after-IsValid, without_stored-erase_if,
}

-- The calls that change a file handler, with what each depends on.
pub data Call : Type 0 where
  updates : Entries → Bool → Call
  inits : Entries → Bytes → Call
  stores : FileInformation → Call
  reads : Entries → FileInformation → Call
  offers : AvailableFile → Call
  adds : Entries → List AvailableFile → Call
  refreshes : Call
  prints : Bool → Call
  removes : AvailableFile → Call
  creates : Entries → Answers → RequestedFile → Call
  releases : OfstreamWrapper → Call
  finalizes : (Bytes → Bytes) → Entries → FileInformation → Call

pub step : FileHandler → Call → FileHandler
step h (updates root init_call) = (update_stored_files root init_call h).1
step h (inits root path) = (init_storage root h path).1
step h (stores f) = add_stored_file h f
step h (reads root f) = (read_file root h f).1
step h (offers a) = (add_available_file h a).0
step h (adds root available) = (add_available_files root h available).1
step h refreshes = update_available_files h
step h (prints value) = print_availables h value
step h (removes a) = remove_available_file h a
step h (creates root os r) = (create_file h root os r).handler
step h (releases o) = release h o
step h (finalizes sha256 root f) = (finalize_file sha256 h root f).handler

pub run : FileHandler → List Call → FileHandler
run h [] = h
run h (c ∷ cs) = run (step h c) cs

step-IsValid : (h : FileHandler) (c : Call) → IsValid h → IsValid (step h c)
unfolding step remove_available_file add_available_files add_available_file update_available_files
    read_file add_stored_file print_availables
step-IsValid h (updates root init_call) v = update_stored_files-IsValid root init_call h v
step-IsValid h (inits root path) v = init_storage-IsValid root h path v
step-IsValid h (stores f) v = record {
  stored = insert-IsSorted f h.stored_files v.stored;
  available = v.available;
  locks = v.locks;
}
step-IsValid h (reads root f) v =
    read_after-IsValid root f (update_stored_files root false h)
      (update_stored_files-IsValid root false h v)
step-IsValid h (offers a) v = offer-IsValid h a v
step-IsValid h refreshes v = record {
  stored = v.stored;
  available =
      rw (without_stored-erase_if h h.available_files)
        (erase_if-IsSorted (λ a. is_stored h a.file_info) h.available_files v.available);
  locks = v.locks;
}
step-IsValid h (prints value) v = record {
  stored = v.stored;
  available = v.available;
  locks = v.locks;
}
step-IsValid h (adds root available) v =
    add_after-IsValid available (update_stored_files root false h)
      (update_stored_files-IsValid root false h v)
step-IsValid h (removes a) v = record {
  stored = v.stored;
  available = erase-IsSorted a.file_info.file_name h.available_files v.available;
  locks = v.locks;
}
step-IsValid h (creates root os r) v = create_file-IsValid h root os r v
step-IsValid h (releases o) v = release-IsValid h o v
step-IsValid h (finalizes sha256 root f) v = finalize_file-IsValid sha256 h root f v

-- From a handler whose sets are in strict order and that holds no file by two live locks, any
-- sequence of calls, on whatever files and answers of the operating system, leads to another such
-- handler.
pub run-IsValid : (h : FileHandler) (cs : List Call) → IsValid h → IsValid (run h cs)
unfolding run
run-IsValid h [] v = v
run-IsValid h (c ∷ cs) v = run-IsValid (step h c) cs (step-IsValid h c v)

scan_storage-locked_files :
    (x : Node) (h : FileHandler) → (scan_storage x h).1.locked_files ≡ h.locked_files
unfolding scan_storage
scan_storage-locked_files (directory es) h = refl
scan_storage-locked_files _ h = refl

pub update-locked_files :
    (root : Entries) (init_call : Bool) (h : FileHandler)
    → (update_stored_files root init_call h).1.locked_files ≡ h.locked_files
update-locked_files root init_call h =
    update_cases (λ r. r.1.locked_files ≡ h.locked_files) root init_call h refl refl
      (λ x. scan_storage-locked_files x _)

scan_storage-next_token :
    (x : Node) (h : FileHandler) → (scan_storage x h).1.next_token ≡ h.next_token
unfolding scan_storage
scan_storage-next_token (directory es) h = refl
scan_storage-next_token _ h = refl

pub update-next_token :
    (root : Entries) (init_call : Bool) (h : FileHandler)
    → (update_stored_files root init_call h).1.next_token ≡ h.next_token
update-next_token root init_call h =
    update_cases (λ r. r.1.next_token ≡ h.next_token) root init_call h refl refl
      (λ x. scan_storage-next_token x _)

held-erase_eq :
    (f : FileInformation) (ls : List Lock)
    → held f (erase_if (λ l. file_information_eq f l.file_info) ls) ≡ false
held-erase_eq f [] = refl
held-erase_eq f (l ∷ ls) =
    ground (arith, held-erase_eq f ls, file_information_eq_symm f l.file_info)

-- What `finalize_file` has done when it returns true.
abbrev pub Moved : FileHandler → Entries → FileInformation → Finalized → Type 0
Moved h root f r =
    (is_stored h f ≡ false)
    × (is_blocked h f ≡ true)
    × (node_at r.root (get_storage_path h f) ≡ node_at root (get_tmp_path h f))
    × (is_blocked r.handler f ≡ false)

moved-Moved :
    (h g : FileHandler) (root : Entries) (f : FileInformation) (to : Option Entries)
    → is_stored h f ≡ false
    → is_blocked h f ≡ true
    → held f g.locked_files ≡ false
    → rename root (get_tmp_path h f) (get_storage_path h f) ≡ to
    → (moved g root f to).result ≡ ok true
    → Moved h root f (moved g root f to)
unfolding moved is_blocked
moved-Moved h g root f none new b free e d = cc
moved-Moved h g root f (some root') new b free e d = (
  new,
  b,
  node_at-rename root root' (get_tmp_path h f) (get_storage_path h f) e,
  rw update-locked_files free,
)

-- If `finalize_file` returns true, the file was locked and not stored, what stood at its temporary
-- path now stands at its path in the storage, and no live lock holds it.
pub finalize_file-Moved :
    (sha256 : Bytes → Bytes) (h : FileHandler) (root : Entries) (f : FileInformation)
    → (finalize_file sha256 h root f).result ≡ ok true
    → Moved h root f (finalize_file sha256 h root f)
unfolding move_to_storage
finalize_file-Moved sha256 h root f =
    finalize_cases (λ r. r.result ≡ ok true → Moved h root f r) sha256 h root f (λ e. cc)
      λ new b. moved-Moved h _ root f _ new b (held-erase_eq f h.locked_files) refl
