-- ===== src/Receive/Sessions.antt =====
-- How the sessions of src/file_receive_handler.cpp work the queue off.
use mfsync.Common.{true, not, ◌||◌, Option, none, some, List, [], ◌∷◌, arith}
use mfsync.Common.{◌≡◌, refl, any_of}
use mfsync.Info.{AvailableFile}
use mfsync.FileHandler.{FileHandler}
use mfsync.Deque
use mfsync.Receive.{start_new_session, expired, Receiver, get_files, add_all, fill_request_queue}
use mfsync.Receive.Queue.{Unique, add_all-Unique, fill-Unique}

start-Unique :
    (sessions : List (Option AvailableFile)) (queue : List AvailableFile)
    → Unique queue
    → Unique (start_new_session sessions queue).1
unfolding start_new_session Deque.try_pop
start-Unique [] queue u = u
start-Unique (some a ∷ sessions) queue u = start-Unique sessions queue u
start-Unique (none ∷ sessions) [] u = start-Unique sessions [] tt
start-Unique (none ∷ sessions) (a ∷ queue) u = start-Unique sessions queue u.1

-- Whatever is offered and whatever is requested, `get_files` keeps a queue without a name twice.
pub get_files-Unique :
    (h : FileHandler) (r : Receiver) → Unique r.request_queue → Unique (get_files h r).request_queue
unfolding get_files
get_files-Unique h r u = ground (
  arith,
  start-Unique r.sessions (add_all h h.available_files r.request_queue),
  start-Unique r.sessions (fill_request_queue h r.files_to_request r.request_queue),
  add_all-Unique h h.available_files r.request_queue u,
  fill-Unique h r.files_to_request r.request_queue u,
)

start_empty :
    (sessions : List (Option AvailableFile)) → Deque.empty (start_new_session sessions []).1 ≡ true
unfolding start_new_session Deque.try_pop Deque.empty
start_empty [] = refl
start_empty (some a ∷ sessions) = start_empty sessions
start_empty (none ∷ sessions) = start_empty sessions

-- After `start_new_session` no session is idle while a file waits.
pub start_new_session_busy :
    (sessions : List (Option AvailableFile)) (queue : List AvailableFile)
    → let started = start_new_session sessions queue in
      (Deque.empty started.1 || not (any_of expired started.0)) ≡ true
unfolding start_new_session Deque.try_pop Deque.empty
start_new_session_busy [] queue = ground arith
start_new_session_busy (some a ∷ sessions) queue =
    ground (arith, start_new_session_busy sessions queue)
start_new_session_busy (none ∷ sessions) [] = ground (arith, start_empty sessions)
start_new_session_busy (none ∷ sessions) (a ∷ queue) =
    ground (arith, start_new_session_busy sessions queue)
