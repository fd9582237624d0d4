-- ===== src/FileHandler/Scan.antt =====
-- What the scan of the storage directory finds, against a plain list of the files below it.
use mathlib.Core.Option.{or_else}
use mfsync.Common.{◌≡◌, refl, sym, ap, ◌∙◌, Bool, Option, none, some, arith}
use mfsync.Common.{List, [], ◌∷◌, ◌++◌, Bytes, str_eq, str_eq_iff, if◌then◌else◌, length}
use mfsync.Info.{FileInformation, file_information_named}
use mfsync.NameSet
use mfsync.NameSet.Lookup.{find-insert}
use mfsync.Disk.{Node, Entries, regular, directory, symlink, special, nil, entry, join}
use mfsync.FileHandler.{scan, scan_entry, scan_file, is_tmp_file, create_file_information, relative}

-- The readable regular files below a directory that do not have the temporary suffix, in the order
-- of the iteration: each with its name relative to the storage and its size. Links are passed over.
mutual
  pub files_below : Entries → Bytes → Bytes → List FileInformation
  files_below nil path rel = []
  files_below (entry name x rest) path rel =
      files_at x (join path name) (relative rel name) ++ files_below rest path rel

  pub files_at : Node → Bytes → Bytes → List FileInformation
  files_at symlink path name = []
  files_at (directory es) path name = files_below es path name
  files_at (regular readable content) path name =
      if is_tmp_file path
      then []
      else if readable
      then record { file_name = name; sha256sum = none; size = length content } ∷ []
      else []
  files_at special path name = []

-- The first file of that name.
pub first : Bytes → List FileInformation → Option FileInformation
first k [] = none
first k (f ∷ fs) = if str_eq f.file_name k then some f else first k fs

first-append :
    (k : Bytes) (fs gs : List FileInformation)
    → first k (fs ++ gs) ≡ or_else (first k fs) (first k gs)
unfolding first or_else
first-append k [] gs = refl
first-append k (f ∷ fs) gs = ground (arith, first-append k fs gs)

or_else_assoc : (a b c : Option FileInformation) → or_else (or_else a b) c ≡ or_else a (or_else b c)
unfolding or_else
or_else_assoc none b c = refl
or_else_assoc (some a) b c = refl

or_else-none : (o : Option FileInformation) → or_else o none ≡ o
unfolding or_else
or_else-none none = refl
or_else-none (some f) = refl

find-scan_special :
    (path name : Bytes) (s : List FileInformation) (k : Bytes)
    → NameSet.find k (scan_file path name none s) ≡ NameSet.find k s
unfolding scan_file
find-scan_special path name s k = ground arith

find-scan_regular :
    (readable : Bool) (content path name : Bytes) (s : List FileInformation) (k : Bytes)
    → NameSet.find k (scan_file path name (create_file_information readable content name) s)
      ≡ or_else (NameSet.find k s) (first k (files_at (regular readable content) path name))
unfolding scan_file create_file_information files_below first or_else NameSet.contains
find-scan_regular readable content path name s k = ground (
  arith,
  find-insert k (record { file_name = name; sha256sum = none; size = length content }) s,
  str_eq_iff name k,
  or_else-none (NameSet.find k s),
)

mutual
  unfolding scan files_below first or_else

  pub find-scan_all :
      (es : Entries) (path rel : Bytes) (s : List FileInformation) (k : Bytes)
      → NameSet.find k (scan es path rel s)
        ≡ or_else (NameSet.find k s) (first k (files_below es path rel))
  find-scan_all nil path rel s k = sym (or_else-none (NameSet.find k s))
  find-scan_all (entry name x rest) path rel s k =
      find-scan_all rest path rel (scan_entry x (join path name) (relative rel name) s) k
      ∙ ap (λ o. or_else o (first k (files_below rest path rel)))
          (find-scan_entry x (join path name) (relative rel name) s k)
      ∙ or_else_assoc (NameSet.find k s) _ _
      ∙ ap (or_else (NameSet.find k s)) (sym (first-append k (files_at x _ _) _))

  find-scan_entry :
      (x : Node) (path name : Bytes) (s : List FileInformation) (k : Bytes)
      → NameSet.find k (scan_entry x path name s)
        ≡ or_else (NameSet.find k s) (first k (files_at x path name))
  find-scan_entry symlink path name s k = sym (or_else-none (NameSet.find k s))
  find-scan_entry (directory es) path name s k = find-scan_all es path name s k
  find-scan_entry (regular readable content) path name s k =
      find-scan_regular readable content path name s k
  find-scan_entry special path name s k =
      find-scan_special path name s k ∙ sym (or_else-none (NameSet.find k s))
