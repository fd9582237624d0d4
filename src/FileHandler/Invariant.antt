-- ===== src/FileHandler/Invariant.antt =====
-- The invariant of the file handler: its sets are in order, and no file has two live locks.
use mfsync.Common.{ℕ, ◌≡◌, refl, Bool, true, false, not, ◌&&◌, ◌||◌, Option, none, some}
use mfsync.Common.{arith, List, [], ◌∷◌, ◌++◌, Bytes, str_eq_iff, any_of, erase_if}
use mfsync.Common.{Bool-cases, Option-cases, inl, inr, Outcome, ok}
use mfsync.Info.{FileInformation, file_information_eq}
use mfsync.Info.{file_information_named, available_file_named}
use mfsync.NameSet.Order.{IsSorted, insert-IsSorted, erase_if-IsSorted}
use mfsync.Disk.{Node, Entries, regular, directory, symlink, special, nil, entry, join, node_at}
use mfsync.FileHandler.{
  Lock, FileHandler, scan, scan_entry, scan_file, relative, update_stored_files, still_stored,
  scan_storage, is_empty,
}
use mfsync.FileHandler.Operations.{clear_token}

-- A live lock on the file is among the locks.
abbrev pub held : FileInformation → List Lock → Bool
held f ls = any_of (λ l. file_information_eq l.file_info f && l.active) ls

-- No file is locked twice by live locks.
abbrev pub Exclusive : List Lock → Type 0
Exclusive [] = Unit {0}
Exclusive (l ∷ ls) = ((l.active && held l.file_info ls) ≡ false) × Exclusive ls

pub record IsValid (h : FileHandler) : Type 0 where
  pub stored : IsSorted h.stored_files
  pub available : IsSorted h.available_files
  pub locks : Exclusive h.locked_files

pub file_information_eq_symm :
    (a b : FileInformation) → file_information_eq a b ≡ file_information_eq b a
unfolding file_information_eq
file_information_eq_symm a b =
    ground (arith, str_eq_iff a.file_name b.file_name, str_eq_iff b.file_name a.file_name)

pub held-append :
    (f : FileInformation) (ls : List Lock) (m : Lock)
    → held f (ls ++ (m ∷ [])) ≡ (held f ls || (file_information_eq m.file_info f && m.active))
held-append f [] m = ground arith
held-append f (l ∷ ls) m = ground (arith, held-append f ls m)

-- A lock on a file that no live lock holds.
pub append-Exclusive :
    (ls : List Lock) (m : Lock)
    → held m.file_info ls ≡ false
    → Exclusive ls
    → Exclusive (ls ++ (m ∷ []))
append-Exclusive [] m h e = (ground arith, tt)
append-Exclusive (l ∷ ls) m h e = (
  ground
      (arith, held-append l.file_info ls m, file_information_eq_symm m.file_info l.file_info, e.0),
  append-Exclusive ls m (ground arith) e.1,
)

pub held-clear_token :
    (f : FileInformation) (t : ℕ) (ls : List Lock)
    → held f ls ≡ false
    → held f (clear_token t ls) ≡ false
unfolding clear_token
held-clear_token f t [] h = refl
held-clear_token f t (l ∷ ls) h = ground (arith, held-clear_token f t ls)

pub clear_token-Exclusive : (t : ℕ) (ls : List Lock) → Exclusive ls → Exclusive (clear_token t ls)
unfolding clear_token
clear_token-Exclusive t [] e = tt
clear_token-Exclusive t (l ∷ ls) e =
    (ground (arith, e.0, held-clear_token l.file_info t ls), clear_token-Exclusive t ls e.1)

held-erase_if :
    (f : FileInformation) (p : Lock → Bool) (ls : List Lock)
    → held f ls ≡ false
    → held f (erase_if p ls) ≡ false
held-erase_if f p [] h = refl
held-erase_if f p (l ∷ ls) h = ground (arith, held-erase_if f p ls)

pub erase_if-Exclusive :
    (p : Lock → Bool) (ls : List Lock) → Exclusive ls → Exclusive (erase_if p ls)
erase_if-Exclusive p [] e = tt
erase_if-Exclusive p (l ∷ ls) e =
    ground (arith, erase_if-Exclusive p ls e.1, held-erase_if l.file_info p ls, e.0)

scan_file-IsSorted :
    (path name : Bytes) (info : Option FileInformation) (s : List FileInformation)
    → IsSorted s
    → IsSorted (scan_file path name info s)
unfolding scan_file
scan_file-IsSorted path name none s b = ground arith
scan_file-IsSorted path name (some f) s b = ground (arith, insert-IsSorted f s b)

mutual
  unfolding scan

  scan-IsSorted_all :
      (es : Entries) (path rel : Bytes) (s : List FileInformation)
      → IsSorted s
      → IsSorted (scan es path rel s)
  scan-IsSorted_all nil path rel s b = b
  scan-IsSorted_all (entry name x rest) path rel s b =
      scan-IsSorted_all rest path rel _
        (scan_entry-IsSorted x (join path name) (relative rel name) s b)

  scan_entry-IsSorted :
      (x : Node) (path name : Bytes) (s : List FileInformation)
      → IsSorted s
      → IsSorted (scan_entry x path name s)
  scan_entry-IsSorted symlink path name s b = b
  scan_entry-IsSorted (directory es) path name s b = scan-IsSorted_all es path name s b
  scan_entry-IsSorted (regular readable content) path name s b = scan_file-IsSorted path name _ s b
  scan_entry-IsSorted special path name s b = scan_file-IsSorted path name none s b

scan_storage-IsValid : (x : Node) (h : FileHandler) → IsValid h → IsValid (scan_storage x h).1
unfolding scan_storage
scan_storage-IsValid (directory es) h v = record {
  stored = scan-IsSorted_all es h.storage_path [] h.stored_files v.stored;
  available = v.available;
  locks = v.locks;
}
scan_storage-IsValid (regular r t) h v = v
scan_storage-IsValid symlink h v = v
scan_storage-IsValid special h v = v

-- What holds of the three ways in which an update ends holds of its result.
pub update_cases :
    (P : Outcome Bool × FileHandler → Type 0) (root : Entries) (init_call : Bool) (h : FileHandler)
    → P (ok false, h)
    → P (ok false, record h { storage_init_is_in_progress = true })
    → ((x : Node)
        → P (
            scan_storage x (record h {
              storage_init_is_in_progress = true;
              stored_files = still_stored root (record h { storage_init_is_in_progress = true });
            })))
    → P (update_stored_files root init_call h)
unfolding update_stored_files
update_cases P root init_call h kept failed scanned =
    elim (Bool-cases (not h.storage_initialized && not init_call)) [
      | inl e ↦ rw e kept
      | inr e ↦ rw e (elim (Bool-cases h.storage_init_is_in_progress) [
        | inl busy ↦ simp busy kept
        | inr idle ↦ simp idle (elim (Bool-cases (is_empty h.storage_path)) [
          | inl none_yet ↦ simp none_yet failed
          | inr path ↦ simp path (elim (Option-cases (node_at root h.storage_path)) [
            | inl gone ↦ simp gone failed
            | inr (x, there) ↦ simp there (scanned x)
          ])
        ])
      ])
    ]

pub update_stored_files-IsValid :
    (root : Entries) (init_call : Bool) (h : FileHandler)
    → IsValid h
    → IsValid (update_stored_files root init_call h).1
unfolding still_stored
update_stored_files-IsValid root init_call h v =
    update_cases (λ r. IsValid r.1) root init_call h v
      (record { stored = v.stored; available = v.available; locks = v.locks })
      λ x. scan_storage-IsValid x _ (record {
        stored = erase_if-IsSorted _ h.stored_files v.stored;
        available = v.available;
        locks = v.locks;
      })
