-- ===== src/Tests/Requests.antt =====
-- A receive handler with two available files, one of which is queued already, and two sessions.
use mfsync.Common.{◌≡◌, refl, true, false, not, ◌&&◌, ◌||◌, none, [], ◌∷◌, Bytes, codes}
use mfsync.Common.{any_of, str_eq}
use mathlib.Core.Option.{or_else}
use mfsync.Common.{if◌then◌else◌}
use mfsync.NameSet
use mfsync.FileHandler.Sharing.{offer_all}
use mfsync.FileHandler.Offers.{offered, find-offer_all}
use mfsync.Info.{available_file_named, file_information_named}
use mfsync.Info.{AvailableFile}
use mfsync.FileHandler.{FileHandler, empty_handler, in_progress}
use mfsync.Deque
use mfsync.Receive.{Receiver, get_files, add_all, start_new_session, expired}
use mfsync.Receive.Queue.{queued, Unique, queued-add_all}
use mfsync.Receive.Sessions.{get_files-Unique, start_new_session_busy}

abbrev available : Bytes → AvailableFile
available name = record {
  file_info = record { file_name = name; sha256sum = none; size = 3 };
  source_address = codes "::1";
  source_port = 8000;
  public_key = 1 ∷ [];
}

abbrev handler : FileHandler
handler = record empty_handler {
  available_files = available (codes "d/a") ∷ available (codes "e") ∷ [];
}

abbrev receiver : Receiver
receiver = record {
  files_to_request = codes "d/" ∷ [];
  request_all = false;
  request_queue = available (codes "e") ∷ [];
  sessions = none ∷ none ∷ [];
  promise_is_set = false;
}

queue-Unique : Unique receiver.request_queue
queue-Unique = (refl, tt)

get_files-Unique_example : Unique (get_files handler receiver).request_queue
get_files-Unique_example = get_files-Unique handler receiver queue-Unique

queued-add_all_example :
    queued (codes "d/a") (add_all handler handler.available_files receiver.request_queue) ≡ (
      queued (codes "d/a") receiver.request_queue
      || any_of
          (λ a. str_eq a.file_info.file_name (codes "d/a") && not (in_progress handler a))
          handler.available_files)
queued-add_all_example =
    queued-add_all handler (codes "d/a") handler.available_files receiver.request_queue

start_new_session_busy_example :
    (Deque.empty (start_new_session receiver.sessions receiver.request_queue).1
      || not (any_of expired (start_new_session receiver.sessions receiver.request_queue).0))
    ≡ true
start_new_session_busy_example = start_new_session_busy receiver.sessions receiver.request_queue

find-offer_all_example :
    NameSet.find
      (codes "f")
      (offer_all handler (available (codes "f") ∷ []) false).0.available_files
    ≡ or_else (NameSet.find (codes "f") handler.available_files) (
        if NameSet.contains (codes "f") handler.stored_files
        then none
        else offered (codes "f") (available (codes "f") ∷ []))
find-offer_all_example = find-offer_all handler (available (codes "f") ∷ []) false (codes "f")
