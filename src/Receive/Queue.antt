-- ===== src/Receive/Queue.antt =====
-- What the queue of src/file_receive_handler.cpp holds.
use mfsync.Common.{Bool, false, not, ◌&&◌, ◌||◌, List, [], ◌∷◌, ◌++◌, Bytes, arith}
use mfsync.Common.{◌≡◌, refl, str_eq, str_eq_iff, starts_with, any_of, if◌then◌else◌}
use mfsync.Info.{AvailableFile}
use mfsync.FileHandler.{FileHandler, in_progress}
use mfsync.Deque
use mfsync.Receive.{same_name, add_to_request_queue, add_all, add_matching, fill_request_queue}

-- A file of that name is in the list.
abbrev pub queued : Bytes → List AvailableFile → Bool
queued name queue = any_of (λ a. str_eq a.file_info.file_name name) queue

-- No name is in the list twice.
abbrev pub Unique : List AvailableFile → Type 0
Unique [] = Unit {0}
Unique (a ∷ queue) = (queued a.file_info.file_name queue ≡ false) × Unique queue

contains-queued :
    (a : AvailableFile) (queue : List AvailableFile)
    → Deque.contains (same_name a) queue ≡ queued a.file_info.file_name queue
unfolding Deque.contains
contains-queued a [] = refl
contains-queued a (b ∷ queue) = ground (
  arith,
  contains-queued a queue,
  str_eq_iff a.file_info.file_name b.file_info.file_name,
  str_eq_iff b.file_info.file_name a.file_info.file_name,
)

queued-append :
    (name : Bytes) (queue : List AvailableFile) (a : AvailableFile)
    → queued name (queue ++ (a ∷ [])) ≡ (queued name queue || str_eq a.file_info.file_name name)
queued-append name [] a = ground arith
queued-append name (b ∷ queue) a = ground (arith, queued-append name queue a)

append-Unique :
    (queue : List AvailableFile) (a : AvailableFile)
    → queued a.file_info.file_name queue ≡ false
    → Unique queue
    → Unique (queue ++ (a ∷ []))
append-Unique [] a new u = (refl, tt)
append-Unique (b ∷ queue) a new u = (
  ground (
    arith,
    queued-append b.file_info.file_name queue a,
    str_eq_iff a.file_info.file_name b.file_info.file_name,
    str_eq_iff b.file_info.file_name a.file_info.file_name,
    u.0,
  ),
  append-Unique queue a (ground arith) u.1,
)

add-Unique :
    (h : FileHandler) (a : AvailableFile) (queue : List AvailableFile)
    → Unique queue
    → Unique (add_to_request_queue h a queue)
unfolding add_to_request_queue Deque.push_back
add-Unique h a queue u = ground (arith, append-Unique queue a, contains-queued a queue)

pub add_all-Unique :
    (h : FileHandler) (availables queue : List AvailableFile)
    → Unique queue
    → Unique (add_all h availables queue)
unfolding add_all
add_all-Unique h [] queue u = u
add_all-Unique h (a ∷ availables) queue u = add_all-Unique h availables _ (add-Unique h a queue u)

add_matching-Unique :
    (h : FileHandler) (name : Bytes) (availables queue : List AvailableFile)
    → Unique queue
    → Unique (add_matching h name availables queue)
unfolding add_matching
add_matching-Unique h name [] queue u = u
add_matching-Unique h name (a ∷ availables) queue u =
    add_matching-Unique h name availables _ (ground (arith, add-Unique h a queue))

pub fill-Unique :
    (h : FileHandler) (names : List Bytes) (queue : List AvailableFile)
    → Unique queue
    → Unique (fill_request_queue h names queue)
unfolding fill_request_queue
fill-Unique h [] queue u = u
fill-Unique h (name ∷ names) queue u =
    fill-Unique h names _ (add_matching-Unique h name h.available_files queue u)

queued-add :
    (h : FileHandler) (name : Bytes) (a : AvailableFile) (queue : List AvailableFile)
    → queued name (add_to_request_queue h a queue)
      ≡ (queued name queue || (str_eq a.file_info.file_name name && not (in_progress h a)))
unfolding add_to_request_queue Deque.push_back
queued-add h name a queue = ground (
  arith,
  contains-queued a queue,
  queued-append name queue a,
  str_eq_iff a.file_info.file_name name,
)

-- Where all files are requested, a name is in the queue afterwards if it was, or if an available file
-- that is neither stored nor being received has it.
pub queued-add_all :
    (h : FileHandler) (name : Bytes) (availables queue : List AvailableFile)
    → queued name (add_all h availables queue) ≡ (
        queued name queue
        || any_of (λ a. str_eq a.file_info.file_name name && not (in_progress h a)) availables)
unfolding add_all
queued-add_all h name [] queue = ground arith
queued-add_all h name (a ∷ availables) queue = ground (
  arith,
  queued-add_all h name availables (add_to_request_queue h a queue),
  queued-add h name a queue,
)

queued-add_matching :
    (h : FileHandler) (prefix name : Bytes) (availables queue : List AvailableFile)
    → queued name (add_matching h prefix availables queue) ≡ (
        queued name queue
        || any_of
            (λ a.
              starts_with prefix a.file_info.file_name
              && (str_eq a.file_info.file_name name && not (in_progress h a)))
            availables)
unfolding add_matching
queued-add_matching h prefix name [] queue = ground arith
queued-add_matching h prefix name (a ∷ availables) queue = ground (
  arith,
  queued-add_matching h prefix name availables
      (if starts_with prefix a.file_info.file_name then add_to_request_queue h a queue else queue),
  queued-add h name a queue,
)

-- Where files are requested by name, a name is in the queue afterwards if it was, or if it is that of
-- an available file that is neither stored nor being received and one of the requests is a prefix of
-- it.
pub queued-fill_request_queue :
    (h : FileHandler) (names : List Bytes) (name : Bytes) (queue : List AvailableFile)
    → queued name (fill_request_queue h names queue) ≡ (
        queued name queue
        || any_of
            (λ prefix.
              any_of
                (λ a.
                  starts_with prefix a.file_info.file_name
                  && (str_eq a.file_info.file_name name && not (in_progress h a)))
                h.available_files)
            names)
unfolding fill_request_queue
queued-fill_request_queue h [] name queue = ground arith
queued-fill_request_queue h (prefix ∷ names) name queue = ground (
  arith,
  queued-fill_request_queue h names name (add_matching h prefix h.available_files queue),
  queued-add_matching h prefix name h.available_files queue,
)
