-- ===== src/FileHandler/Operations.antt =====
-- The operations of src/file_handler.cpp that other components call. What the operating system
-- answers (the free space, whether directories can be made and a file opened) is an argument.
use mfsync.Common.{
  ℕ, suc, Bool, true, false, not, ◌&&◌, ◌||◌, Option, none, some, List, [], ◌∷◌, ◌++◌,
}
use mfsync.Common.{Bytes, str_eq, if◌then◌else◌, erase_if, length, ltb, parent, Outcome, ok, throws}
use mfsync.Common.{filesystem_error, undefined, ◌==◌}
use mfsync.Info.{FileInformation, RequestedFile, file_information_eq}
use mfsync.Info.{file_information_named, available_file_named}
use mfsync.NameSet
use mfsync.Disk.{Node, Entries, regular, node_at, exists, put_at, resolve, make_directories}
use mfsync.Common.{take}
use mfsync.Disk.{rename}
use mfsync.FileHandler.{
  Lock, FileHandler, get_tmp_path, get_storage_path, is_stored, is_blocked, update_stored_files,
}

-- How `std::filesystem::create_directories` ends: it makes what is missing, or returns false, or throws,
-- having made directories for the first so many names of the path.
pub data Mkdir : Type 0 where
  makes : Mkdir
  makes_none : Mkdir
  fails_after : ℕ → Mkdir

-- What the operating system answers to a call.
pub record Answers : Type 0 where
  pub available : ℕ
  pub mkdir : Mkdir
  pub can_open : Bool

-- An `ofstream_wrapper`: the file that it writes, its position, and its share of the lock's flag.
pub record OfstreamWrapper : Type 0 where
  pub path : Bytes
  pub requested_file : RequestedFile
  pub position : ℕ
  pub write_token : Option ℕ

-- The result, the requested file (an argument by reference), the handler and the files after a call
-- of `create_file`.
pub record Created : Type 0 where
  pub result : Outcome (Option OfstreamWrapper)
  pub requested : RequestedFile
  pub handler : FileHandler
  pub root : Entries

abbrev pub refused : FileHandler → Entries → RequestedFile → Created
refused h root r = record { result = ok none; requested = r; handler = h; root = root }

-- `can_be_stored`; the space of a path that does not exist cannot be read.
unfoldable pub can_be_stored : FileHandler → Entries → Answers → FileInformation → Outcome Bool
can_be_stored h root os f =
    if exists root h.storage_path
    then ok (if ltb os.available f.size then false else true)
    else throws filesystem_error

-- The end of `create_file`: the file is open, and the lock is taken.
unfoldable pub take_lock : FileHandler → Entries → RequestedFile → Bytes → Created
take_lock h root r tmp_path = record {
  result = ok (
      some (record {
        path = tmp_path;
        requested_file = r;
        position = r.offset;
        write_token = some h.next_token;
      }));
  requested = r;
  handler = record h {
    locked_files =
        h.locked_files
        ++ (record { file_info = r.file_info; token = h.next_token; active = true } ∷ []);
    next_token = suc h.next_token;
  };
  root = root;
}

abbrev pub thrown : FileHandler → Entries → RequestedFile → Created
thrown h root r = record {
  result = throws filesystem_error;
  requested = r;
  handler = h;
  root = root;
}

-- The stream is opened: an existing file keeps its content, a new one is made.
unfoldable pub open_stream :
    FileHandler → Entries → Answers → RequestedFile → Bytes → Bool → Created
unfolding take_lock
open_stream h root os r tmp_path file_exists =
    if not os.can_open
    then refused h root r
    else if file_exists
    then take_lock h root r tmp_path
    else elim (put_at root tmp_path (regular true [])) [
      | none ↦ refused h root r
      | some root' ↦ take_lock h root' r tmp_path
    ]

-- The directories on the way are made before the stream is opened, and stay if the opening fails.
unfoldable pub create_directories :
    FileHandler → Entries → Answers → RequestedFile → Bytes → Bool → Mkdir → Created
unfolding open_stream
create_directories h root os r tmp_path file_exists makes =
    elim (make_directories root (resolve (parent tmp_path))) [
      | none ↦ thrown h root r
      | some root' ↦ open_stream h root' os r tmp_path file_exists
    ]
create_directories h root os r tmp_path file_exists makes_none = refused h root r
create_directories h root os r tmp_path file_exists (fails_after n) =
    elim (make_directories root (take n (resolve (parent tmp_path)))) [
      | none ↦ thrown h root r
      | some root' ↦ thrown h root' r
    ]

unfoldable pub open_file : FileHandler → Entries → Answers → RequestedFile → Bytes → Bool → Created
unfolding open_stream create_directories
open_file h root os r tmp_path file_exists =
    if exists root (parent tmp_path)
    then open_stream h root os r tmp_path file_exists
    else create_directories h root os r tmp_path file_exists os.mkdir

-- The offset is the size of what was received before.
unfoldable pub resume :
    FileHandler → Entries → Answers → RequestedFile → Bytes → Option Node → Created
unfolding open_file
resume h root os r tmp_path none = open_file h root os r tmp_path false
resume h root os r tmp_path (some (regular readable content)) =
    open_file h root os (record r { offset = length content }) tmp_path true
resume h root os r tmp_path (some _) = thrown h root r

unfoldable pub create_new : FileHandler → Entries → Answers → RequestedFile → Outcome Bool → Created
unfolding resume
create_new h root os r (ok false) = refused h root r
create_new h root os r (ok true) =
    if exists root (get_storage_path h r.file_info)
    then refused h root r
    else let tmp_path = get_tmp_path h r.file_info in
      resume h root os r tmp_path (node_at root tmp_path)
create_new h root os r (throws e) = record {
  result = throws e;
  requested = r;
  handler = h;
  root = root;
}
create_new h root os r undefined = record {
  result = undefined;
  requested = r;
  handler = h;
  root = root;
}

unfoldable pub create_file : FileHandler → Entries → Answers → RequestedFile → Created
unfolding create_new can_be_stored
create_file h root os r =
    if is_stored h r.file_info || is_blocked h r.file_info
    then refused h root r
    else create_new h root os r (can_be_stored h root os r.file_info)

-- The destructor of an `ofstream_wrapper`: the flag is cleared if the lock still holds it.
unfoldable pub clear_token : ℕ → List Lock → List Lock
clear_token t [] = []
clear_token t (l ∷ ls) =
    (if l.token == t then record l { active = false } else l) ∷ clear_token t ls

unfoldable pub clear_lock : FileHandler → Option ℕ → FileHandler
unfolding clear_token
clear_lock h none = h
clear_lock h (some t) = record h { locked_files = clear_token t h.locked_files }

unfoldable pub release : FileHandler → OfstreamWrapper → FileHandler
unfolding clear_lock
release h o = clear_lock h o.write_token

pub record Finalized : Type 0 where
  pub result : Outcome Bool
  pub handler : FileHandler
  pub root : Entries

-- `compare_sha256sum`, over the SHA-256 of OpenSSL.
unfoldable pub compare_sha256sum : (Bytes → Bytes) → Option Bytes → Option Node → Bool
compare_sha256sum sha256 (some sum) (some (regular true content)) = str_eq (sha256 content) sum
compare_sha256sum sha256 _ _ = false

-- The result of `update_stored_files` is not used, but it may throw.
abbrev done : Outcome Bool → Outcome Bool
done (ok b) = ok true
done (throws e) = throws e
done undefined = undefined

-- The end of `finalize_file`, with the files after the renaming if that did not throw.
unfoldable pub moved : FileHandler → Entries → FileInformation → Option Entries → Finalized
moved h root f none = record { result = throws filesystem_error; handler = h; root = root }
moved h root f (some root') =
    let h' = record h { stored_files = NameSet.insert f h.stored_files } in
    let updated = update_stored_files root' false h' in
    record { result = done updated.0; handler = updated.1; root = root' }

-- The steps of `finalize_file` behind the checks.
unfoldable pub move_to_storage : FileHandler → Entries → FileInformation → Finalized
unfolding moved
move_to_storage h root f =
    moved
      (record h { locked_files = erase_if (λ l. file_information_eq f l.file_info) h.locked_files })
      root f (rename root (get_tmp_path h f) (get_storage_path h f))

unfoldable pub finalize_file : (Bytes → Bytes) → FileHandler → Entries → FileInformation → Finalized
unfolding move_to_storage compare_sha256sum
finalize_file sha256 h root f =
    let refuse : Finalized = record { result = ok false; handler = h; root = root } in
    if is_stored h f
    then refuse
    else if not (is_blocked h f)
    then refuse
    else if h.finalize_with_shasum
        && not (compare_sha256sum sha256 f.sha256sum (node_at root (get_tmp_path h f)))
    then refuse
    else move_to_storage h root f
