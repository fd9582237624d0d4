-- ===== src/Receive.antt =====
-- src/file_receive_handler.cpp: which of the available files are requested, and the sessions that
-- work the queue off. The timer that calls `get_files` again and the locks are left out.
pub mod Queue
pub mod Sessions
use mfsync.Common.{Bool, true, false, not, ◌&&◌, ◌||◌, Option, none, some, List, [], ◌∷◌, Bytes}
use mfsync.Common.{str_eq, starts_with, if◌then◌else◌, any_of, erase_if}
use mfsync.Info.{AvailableFile}
use mfsync.FileHandler.{FileHandler, in_progress, is_stored_name}
use mfsync.Deque

-- A session is the file that it receives, or nothing where its pointer has expired. `promise_is_set`
-- is the `static` of `get_files`.
pub record Receiver : Type 0 where
  pub files_to_request : List Bytes
  pub request_all : Bool
  pub request_queue : List AvailableFile
  pub sessions : List (Option AvailableFile)
  pub promise_is_set : Bool

unfoldable pub set_files : Receiver → List Bytes → Receiver
set_files r files = record r { request_all = false; files_to_request = files }

unfoldable pub request_all_files : Receiver → Receiver
request_all_files r = record r { files_to_request = []; request_all = true }

-- `equal_filename`
abbrev pub same_name : AvailableFile → AvailableFile → Bool
same_name file request_file = str_eq file.file_info.file_name request_file.file_info.file_name

-- `add_to_request_queue`, on the queue.
unfoldable pub add_to_request_queue :
    FileHandler → AvailableFile → List AvailableFile → List AvailableFile
unfolding in_progress Deque.contains Deque.push_back
add_to_request_queue h file queue =
    if Deque.contains (same_name file) queue
    then queue
    else if in_progress h file
    then queue
    else Deque.push_back queue file

-- The loop of `get_files` over the available files where all are requested.
unfoldable pub add_all : FileHandler → List AvailableFile → List AvailableFile → List AvailableFile
unfolding add_to_request_queue
add_all h [] queue = queue
add_all h (a ∷ availables) queue = add_all h availables (add_to_request_queue h a queue)

-- The inner loop of `fill_request_queue`.
unfoldable pub add_matching :
    FileHandler → Bytes → List AvailableFile → List AvailableFile → List AvailableFile
unfolding add_to_request_queue
add_matching h name [] queue = queue
add_matching h name (a ∷ availables) queue =
    add_matching h name availables
      (if starts_with name a.file_info.file_name then add_to_request_queue h a queue else queue)

unfoldable pub fill_request_queue :
    FileHandler → List Bytes → List AvailableFile → List AvailableFile
unfolding add_matching
fill_request_queue h [] queue = queue
fill_request_queue h (name ∷ names) queue =
    fill_request_queue h names (add_matching h name h.available_files queue)

-- `start_new_session`: each expired session is replaced, and a session that finds the queue empty in
-- `start_request` ends at once.
unfoldable pub start_new_session :
    List (Option AvailableFile)
    → List AvailableFile
    → List (Option AvailableFile) × List AvailableFile
unfolding Deque.try_pop
start_new_session [] queue = ([], queue)
start_new_session (some a ∷ sessions) queue =
    let (rest, left) = start_new_session sessions queue in (some a ∷ rest, left)
start_new_session (none ∷ sessions) queue =
    let popped = Deque.try_pop queue in
    let (rest, left) = start_new_session sessions popped.1 in (popped.0 ∷ rest, left)

abbrev pub expired : Option AvailableFile → Bool
expired none = true
expired (some a) = false

abbrev is_empty : List Bytes → Bool
is_empty [] = true
is_empty (x ∷ xs) = false

abbrev pub with_sessions : Receiver → List (Option AvailableFile) × List AvailableFile → Receiver
with_sessions r started = record r { sessions = started.0; request_queue = started.1 }

-- `get_files`
unfoldable pub get_files : FileHandler → Receiver → Receiver
unfolding add_all fill_request_queue start_new_session is_stored_name Deque.empty
get_files h r =
    if not (any_of expired r.sessions)
    then r
    else if r.request_all
    then (let queue = add_all h h.available_files r.request_queue in
        if Deque.empty queue
        then record r { request_queue = queue }
        else with_sessions r (start_new_session r.sessions queue))
    else let queue = fill_request_queue h r.files_to_request r.request_queue in
      let wanted = erase_if (λ name. is_stored_name h name) r.files_to_request in
      with_sessions
        (record r {
          files_to_request = wanted;
          promise_is_set = r.promise_is_set || is_empty wanted;
        })
        (start_new_session r.sessions queue)
