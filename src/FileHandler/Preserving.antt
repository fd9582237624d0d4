-- ===== src/FileHandler/Preserving.antt =====
-- The calls of src/file_handler.cpp keep the order of the sets and the locks.
use mfsync.Common.{ℕ, ◌≡◌, refl, Bool, true, false, not, ◌&&◌, ◌||◌, Option, none, some, arith}
use mfsync.Common.{List, [], ◌∷◌, Bytes, Outcome, ok, throws, undefined, erase_if}
use mfsync.Common.{Bool-cases, inl, inr}
use mfsync.Info.{FileInformation, AvailableFile, RequestedFile, file_information_eq}
use mfsync.Info.{file_information_named, available_file_named}
use mfsync.NameSet.Order.{insert-IsSorted}
use mfsync.Disk.{Entries, node_at, rename}
use mfsync.FileHandler.{
  FileHandler, is_stored, is_blocked, update_stored_files, get_tmp_path, get_storage_path,
}
use mfsync.FileHandler.Operations.{
  Answers, OfstreamWrapper, create_file, release, Finalized, finalize_file, move_to_storage,
  compare_sha256sum, clear_lock, moved,
}
use mfsync.FileHandler.Sharing.{
  offer, offer_all, add_after, read_after, init_storage, after_init, without_stored,
}
use mfsync.FileHandler.Invariant.{
  IsValid, append-Exclusive, clear_token-Exclusive, erase_if-Exclusive, update_stored_files-IsValid,
}
use mfsync.FileHandler.Locks.{create_file-Result, create_file_in_progress}

clear_lock-IsValid : (h : FileHandler) (t : Option ℕ) → IsValid h → IsValid (clear_lock h t)
unfolding clear_lock
clear_lock-IsValid h none v = v
clear_lock-IsValid h (some t) v = record {
  stored = v.stored;
  available = v.available;
  locks = clear_token-Exclusive t h.locked_files v.locks;
}

pub release-IsValid : (h : FileHandler) (o : OfstreamWrapper) → IsValid h → IsValid (release h o)
unfolding release
release-IsValid h o v = clear_lock-IsValid h o.write_token v

pub create_file-IsValid :
    (h : FileHandler) (root : Entries) (os : Answers) (r : RequestedFile)
    → IsValid h
    → IsValid (create_file h root os r).handler
unfolding is_blocked
create_file-IsValid h root os r v =
    elim (Bool-cases (is_stored h r.file_info || is_blocked h r.file_info)) [
      | inl e ↦ rw (create_file_in_progress h root os r e) v
      | inr e ↦ elim (create_file-Result h root os r) [
        | inl (u, never) ↦ rw u.0 v
        | inr (o, given, l) ↦ rw l.0 (record {
          stored = v.stored;
          available = v.available;
          locks = append-Exclusive h.locked_files _ (ground arith) v.locks;
        })
      ]
    ]

-- What holds of a refusal, and of the moving where the file is not stored and is locked, holds of the
-- result.
pub finalize_cases :
    (P : Finalized → Type 0) (sha256 : Bytes → Bytes) (h : FileHandler) (root : Entries)
    (f : FileInformation)
    → P (record { result = ok false; handler = h; root = root })
    → (is_stored h f ≡ false → is_blocked h f ≡ true → P (move_to_storage h root f))
    → P (finalize_file sha256 h root f)
unfolding finalize_file
finalize_cases P sha256 h root f refused moves = elim (Bool-cases (is_stored h f)) [
  | inl e ↦ simp e refused
  | inr e ↦ simp e (elim (Bool-cases (is_blocked h f)) [
    | inr free ↦ simp free refused
    | inl held_by ↦
        simp held_by
          (elim (Bool-cases (
            h.finalize_with_shasum
            && not (compare_sha256sum sha256 f.sha256sum (node_at root (get_tmp_path h f))))) [
              | inl wrong ↦ simp wrong refused
              | inr right ↦ simp right (moves e held_by)
            ])
  ])
]

moved-IsValid :
    (h : FileHandler) (root : Entries) (f : FileInformation) (to : Option Entries)
    → IsValid h
    → IsValid (moved h root f to).handler
unfolding moved
moved-IsValid h root f none v = v
moved-IsValid h root f (some root') v = update_stored_files-IsValid root' false _ (record {
  stored = insert-IsSorted f h.stored_files v.stored;
  available = v.available;
  locks = v.locks;
})

pub finalize_file-IsValid :
    (sha256 : Bytes → Bytes) (h : FileHandler) (root : Entries) (f : FileInformation)
    → IsValid h
    → IsValid (finalize_file sha256 h root f).handler
unfolding move_to_storage
finalize_file-IsValid sha256 h root f v =
    finalize_cases (λ r. IsValid r.handler) sha256 h root f v
      λ new held_by.
        moved-IsValid
          (record h {
            locked_files = erase_if (λ l. file_information_eq f l.file_info) h.locked_files;
          })
          root f (rename root (get_tmp_path h f) (get_storage_path h f))
          (record {
            stored = v.stored;
            available = v.available;
            locks =
                erase_if-Exclusive (λ l. file_information_eq f l.file_info) h.locked_files v.locks;
          })

pub offer-IsValid : (h : FileHandler) (a : AvailableFile) → IsValid h → IsValid (offer h a).0
unfolding offer
offer-IsValid h a v = elim (Bool-cases (is_stored h a.file_info)) [
  | inl e ↦ simp e v
  | inr e ↦ simp e (record {
    stored = v.stored;
    available = insert-IsSorted a h.available_files v.available;
    locks = v.locks;
  })
]

offer_all-IsValid :
    (h : FileHandler) (available : List AvailableFile) (changed : Bool)
    → IsValid h
    → IsValid (offer_all h available changed).0
unfolding offer_all
offer_all-IsValid h [] changed v = v
offer_all-IsValid h (a ∷ available) changed v =
    offer_all-IsValid (offer h a).0 available _ (offer-IsValid h a v)

pub add_after-IsValid :
    (available : List AvailableFile) (r : Outcome Bool × FileHandler)
    → IsValid r.1
    → IsValid (add_after available r).1
unfolding add_after
add_after-IsValid available (ok b, h) v = offer_all-IsValid h available false v
add_after-IsValid available (throws e, h) v = v
add_after-IsValid available (undefined, h) v = v

after_init-IsValid : (x : Outcome Bool × FileHandler) → IsValid x.1 → IsValid (after_init x).1
after_init-IsValid (ok b, h) v = record {
  stored = v.stored;
  available = v.available;
  locks = v.locks;
}
after_init-IsValid (throws e, h) v = v
after_init-IsValid (undefined, h) v = v

pub init_storage-IsValid :
    (root : Entries) (h : FileHandler) (path : Bytes)
    → IsValid h
    → IsValid (init_storage root h path).1
unfolding init_storage
init_storage-IsValid root h path v =
    let h' = record h { storage_path = path } in
    after_init-IsValid (update_stored_files root true h') (
      update_stored_files-IsValid root true h'
        (record { stored = v.stored; available = v.available; locks = v.locks }))

pub read_after-IsValid :
    (root : Entries) (f : FileInformation) (r : Outcome Bool × FileHandler)
    → IsValid r.1
    → IsValid (read_after root f r).1
unfolding read_after
read_after-IsValid root f (ok b, h) v = elim (Bool-cases (is_stored h f)) [
  | inl there ↦ simp there v
  | inr gone ↦ simp gone v
]
read_after-IsValid root f (throws e, h) v = v
read_after-IsValid root f (undefined, h) v = v

pub without_stored-erase_if :
    (h : FileHandler) (s : List AvailableFile)
    → without_stored h s ≡ erase_if (λ a. is_stored h a.file_info) s
unfolding without_stored
without_stored-erase_if h [] = refl
without_stored-erase_if h (a ∷ s) = rw (without_stored-erase_if h s) refl
