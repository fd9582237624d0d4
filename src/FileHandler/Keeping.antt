-- ===== src/FileHandler/Keeping.antt =====
-- The calls of src/file_handler.cpp that leave the set of available files alone, and those that add to
-- it: nothing in the program takes a file out.
use mathlib.Core.Option.{or_else}
use mfsync.Common.{
  ℕ, ◌≡◌, refl, ap, ◌∙◌, Bool, true, false, Option, none, some, List, Bytes, inl, inr, ok, throws,
  undefined, Outcome,
}
use mfsync.Info.{AvailableFile, FileInformation, RequestedFile, available_file_named}
use mfsync.Disk.{Entries, Node, directory}
use mfsync.NameSet
use mfsync.FileHandler.{FileHandler, update_stored_files, scan_storage}
use mfsync.FileHandler.Invariant.{update_cases}
use mfsync.FileHandler.Preserving.{finalize_cases}
use mfsync.FileHandler.Locks.{create_file-Result}
use mfsync.FileHandler.Operations.{
  Answers, OfstreamWrapper, release, clear_lock, create_file, finalize_file, moved, move_to_storage,
}
use mfsync.FileHandler.Sharing.{offer_all, add_after, add_available_files, init_storage, after_init}
use mfsync.FileHandler.Offers.{find-offer_all}

-- The available files are the same.
abbrev pub Keeps : FileHandler → FileHandler → Type 0
Keeps h h' = h'.available_files ≡ h.available_files

-- The available file of a name stays the one of that name.
abbrev pub Grows : FileHandler → FileHandler → Type 0
Grows h h' =
    (k : Bytes) (a : AvailableFile)
    → NameSet.find k h.available_files ≡ some a
    → NameSet.find k h'.available_files ≡ some a

pub Keeps-Grows : (h h' : FileHandler) → Keeps h h' → Grows h h'
Keeps-Grows h h' same k a e = ap (NameSet.find k) same ∙ e

scan_storage-Keeps : (x : Node) (h : FileHandler) → Keeps h (scan_storage x h).1
unfolding scan_storage
scan_storage-Keeps (directory es) h = refl
scan_storage-Keeps _ h = refl

pub update-Keeps :
    (root : Entries) (init_call : Bool) (h : FileHandler)
    → Keeps h (update_stored_files root init_call h).1
update-Keeps root init_call h =
    update_cases (λ r. Keeps h r.1) root init_call h refl refl (λ x. scan_storage-Keeps x _)

clear_lock-Keeps : (h : FileHandler) (t : Option ℕ) → Keeps h (clear_lock h t)
unfolding clear_lock
clear_lock-Keeps h none = refl
clear_lock-Keeps h (some t) = refl

pub release-Keeps : (h : FileHandler) (o : OfstreamWrapper) → Keeps h (release h o)
unfolding release
release-Keeps h o = clear_lock-Keeps h o.write_token

pub create_file-Keeps :
    (h : FileHandler) (root : Entries) (os : Answers) (r : RequestedFile)
    → Keeps h (create_file h root os r).handler
create_file-Keeps h root os r = elim (create_file-Result h root os r) [
  | inl (u, never) ↦ ap (λ g. g.available_files) u.0
  | inr (o, given, l) ↦ ap (λ g. g.available_files) l.0
]

moved-Keeps :
    (h : FileHandler) (root : Entries) (f : FileInformation) (to : Option Entries)
    → Keeps h (moved h root f to).handler
unfolding moved
moved-Keeps h root f none = refl
moved-Keeps h root f (some root') = update-Keeps root' false _

pub finalize_file-Keeps :
    (sha256 : Bytes → Bytes) (h : FileHandler) (root : Entries) (f : FileInformation)
    → Keeps h (finalize_file sha256 h root f).handler
unfolding move_to_storage
finalize_file-Keeps sha256 h root f =
    finalize_cases (λ r. Keeps h r.handler) sha256 h root f refl (λ new b. moved-Keeps _ root f _)

after_init-Keeps :
    (h : FileHandler) (x : Outcome Bool × FileHandler) → Keeps h x.1 → Keeps h (after_init x).1
after_init-Keeps h (ok b, g) same = same
after_init-Keeps h (throws e, g) same = same
after_init-Keeps h (undefined, g) same = same

pub init_storage-Keeps :
    (root : Entries) (h : FileHandler) (path : Bytes) → Keeps h (init_storage root h path).1
unfolding init_storage
init_storage-Keeps root h path =
    let h' = record h { storage_path = path } in
    after_init-Keeps h (update_stored_files root true h') (update-Keeps root true h')

pub offer_all-Grows :
    (h : FileHandler) (as' : List AvailableFile) (changed : Bool)
    → Grows h (offer_all h as' changed).0
unfolding or_else
offer_all-Grows h as' changed k a e = rw (find-offer_all h as' changed k, e) refl

add_after-Grows :
    (h : FileHandler) (as' : List AvailableFile) (r : Outcome Bool × FileHandler)
    → Grows h r.1
    → Grows h (add_after as' r).1
unfolding add_after
add_after-Grows h as' (ok b, g) grows k a e = offer_all-Grows g as' false k a (grows k a e)
add_after-Grows h as' (throws x, g) grows k a e = grows k a e
add_after-Grows h as' (undefined, g) grows k a e = grows k a e

pub add_available_files-Grows :
    (root : Entries) (h : FileHandler) (as' : List AvailableFile)
    → Grows h (add_available_files root h as').1
unfolding add_available_files
add_available_files-Grows root h as' =
    let r = update_stored_files root false h in
    add_after-Grows h as' r (Keeps-Grows h r.1 (update-Keeps root false h))
