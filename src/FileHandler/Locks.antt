-- ===== src/FileHandler/Locks.antt =====
-- The locks of the files that are being received: `create_file` takes one, the destructor of the
-- stream clears it, `finalize_file` removes it.
use mfsync.Common.{suc, ◌≡◌, ◌≢◌, refl, Bool, true, false, not, ◌||◌, Option, List}
use mfsync.Common.{none, some, arith, [], ◌∷◌, ◌++◌, str_eq_refl, if◌then◌else◌}
use mfsync.Common.{Outcome, ok, throws, undefined, parent, inl, inr, ◌⊎◌}
use mfsync.Info.{RequestedFile, file_information_eq, file_information_named}
use mfsync.Disk.{Node, Entries, regular, directory, symlink, special, node_at, put_at, exists}
use mfsync.Disk.{file_size, resolve, make_directories}
use mfsync.Common.{ℕ, Bytes, take, length, take-all}
use mfsync.FileHandler.{FileHandler, is_stored, is_blocked}
use mfsync.FileHandler.{get_tmp_path, get_storage_path}
use mfsync.FileHandler.Operations.{
  Answers, OfstreamWrapper, Created, create_file, create_new, resume, open_file, take_lock, refused,
  thrown, open_stream, create_directories, Mkdir, makes, makes_none, fails_after, can_be_stored,
}
use mfsync.FileHandler.Invariant.{held-append}

-- The files are as they were, except that directories were made for the first so many names of a path.
abbrev DirectoriesMade : Entries → Entries → Bytes → Type 0
DirectoriesMade root root' path =
    (root' ≡ root) ⊎ ((n : ℕ) × (make_directories root (take n (resolve path)) ≡ some root'))

-- The request is for the same file and chunks; its offset is the old one, or the size of the file at
-- the path.
abbrev SameRequest : Entries → Bytes → RequestedFile → RequestedFile → Type 0
SameRequest root path r r' =
    (r'.file_info ≡ r.file_info)
    × (r'.chunksize ≡ r.chunksize)
    × ((r'.offset ≡ r.offset)
        ⊎ ((x : Node) × (node_at root path ≡ some x) × (r'.offset ≡ file_size x)))

-- A call that gives no stream leaves the handler as it was, and the files up to directories that were
-- made on the way to the temporary path; the request may have got the offset of the temporary file.
abbrev Unchanged : FileHandler → Entries → RequestedFile → Created → Type 0
Unchanged h root r c =
    let path = get_tmp_path h r.file_info in
    (c.handler ≡ h)
    × SameRequest root path r c.requested
    × DirectoriesMade root c.root (parent path)

-- A call that gives a stream has added one live lock on the file, whose token the stream holds; the
-- stream stands at the offset of the request, and the request is for the same file.
abbrev pub Locked : FileHandler → Entries → RequestedFile → OfstreamWrapper → Created → Type 0
Locked h root r o c =
    (c.handler ≡ record h {
      locked_files =
          h.locked_files
          ++ (record { file_info = r.file_info; token = h.next_token; active = true } ∷ []);
      next_token = suc h.next_token;
    })
    × (o.write_token ≡ some h.next_token)
    × (o.position ≡ c.requested.offset)
    × (c.requested.file_info ≡ r.file_info)
    × (o.path ≡ get_tmp_path h r.file_info)
    × SameRequest root (get_tmp_path h r.file_info) r c.requested

abbrev pub Result : FileHandler → Entries → RequestedFile → Created → Type 0
Result h root r c =
    Unchanged h root r c × ((o : OfstreamWrapper) → c.result ≢ ok (some o))
    ⊎ ((o : OfstreamWrapper) × (c.result ≡ ok (some o)) × Locked h root r o c)

module _ (h : FileHandler) (root : Entries) (os : Answers) (r : RequestedFile) where
  path : Bytes
  path = get_tmp_path h r.file_info

  refused-Result :
      (root' : Entries) (r' : RequestedFile)
      → SameRequest root path r r'
      → DirectoriesMade root root' (parent path)
      → Result h root r (refused h root' r')
  unfolding path
  refused-Result root' r' e made = inl ((refl, e, made), λ o. cc)

  thrown-Result :
      (root' : Entries) (r' : RequestedFile)
      → SameRequest root path r r'
      → DirectoriesMade root root' (parent path)
      → Result h root r (thrown h root' r')
  unfolding path
  thrown-Result root' r' e made = inl ((refl, e, made), λ o. cc)

  refused-same : Result h root r (refused h root r)
  refused-same = refused-Result root r (refl, refl, inl refl) (inl refl)

  if-Result :
      (b : Bool) (c d : Created)
      → Result h root r c
      → Result h root r d
      → Result h root r (if b then c else d)
  if-Result true c d p q = p
  if-Result false c d p q = q

  take_lock-Result :
      (root' : Entries) (r' : RequestedFile)
      → SameRequest root path r r'
      → Result h root r (take_lock h root' r' path)
  unfolding take_lock path
  take_lock-Result root' r' e = inr (_, refl, (rw e.0 refl, refl, refl, e.0, refl, e))

  open_stream-Result :
      (root' : Entries) (r' : RequestedFile) (there : Bool)
      → SameRequest root path r r'
      → DirectoriesMade root root' (parent path)
      → Result h root r (open_stream h root' os r' path there)
  unfolding open_stream
  open_stream-Result root' r' there e made =
      if-Result (not os.can_open) (refused h root' r')
        (if there then take_lock h root' r' path else _) (refused-Result root' r' e made)
        (if-Result there (take_lock h root' r' path) _ (take_lock-Result root' r' e)
          (put-Result (put_at root' path (regular true []))))
    where
      put-Result :
          (o : Option Entries)
          → Result h root r
              (elim o [ none ↦ refused h root' r' | some root'' ↦ take_lock h root'' r' path ])
      put-Result none = refused-Result root' r' e made
      put-Result (some root'') = take_lock-Result root'' r' e

  create_directories-Result :
      (r' : RequestedFile) (there : Bool) (m : Mkdir)
      → SameRequest root path r r'
      → Result h root r (create_directories h root os r' path there m)
  unfolding create_directories
  create_directories-Result r' there makes e =
      made-Result (make_directories root (resolve (parent path))) refl
    where
      names : List Bytes
      names = resolve (parent path)

      made-Result :
          (o : Option Entries)
          → make_directories root names ≡ o
          → Result h root r (elim o [
            | none ↦ thrown h root r'
            | some root' ↦ open_stream h root' os r' path there
          ])
      made-Result none none_made = thrown-Result root r' e (inl refl)
      made-Result (some root') made =
          let all = take-all (length names) names (omega arith) in
          open_stream-Result root' r' there e (inr (length names, rw all made))
  create_directories-Result r' there makes_none e = refused-Result root r' e (inl refl)
  create_directories-Result r' there (fails_after n) e =
      made-Result (make_directories root (take n (resolve (parent path)))) refl
    where
      made-Result :
          (o : Option Entries)
          → make_directories root (take n (resolve (parent path))) ≡ o
          → Result h root r (elim o [ none ↦ thrown h root r' | some root' ↦ thrown h root' r' ])
      made-Result none none_made = thrown-Result root r' e (inl refl)
      made-Result (some root') made = thrown-Result root' r' e (inr (n, made))

  open_file-Result :
      (r' : RequestedFile) (there : Bool)
      → SameRequest root path r r'
      → Result h root r (open_file h root os r' path there)
  unfolding open_file
  open_file-Result r' there e =
      if-Result (exists root (parent path)) (open_stream h root os r' path there)
        (create_directories h root os r' path there os.mkdir)
        (open_stream-Result root r' there e (inl refl))
        (create_directories-Result r' there os.mkdir e)

  resume-Result :
      (x : Option Node) → node_at root path ≡ x → Result h root r (resume h root os r path x)
  unfolding resume
  resume-Result none at = open_file-Result r false (refl, refl, inl refl)
  resume-Result (some (regular readable content)) at =
      open_file-Result _ true (refl, refl, inr (_, at, refl))
  resume-Result (some (directory es)) at = thrown-Result root r (refl, refl, inl refl) (inl refl)
  resume-Result (some symlink) at = thrown-Result root r (refl, refl, inl refl) (inl refl)
  resume-Result (some special) at = thrown-Result root r (refl, refl, inl refl) (inl refl)

  create_new-Result : (b : Outcome Bool) → Result h root r (create_new h root os r b)
  unfolding create_new path
  create_new-Result (ok false) = refused-same
  create_new-Result (ok true) =
      if-Result (exists root (get_storage_path h r.file_info)) (refused h root r)
        (resume h root os r path (node_at root path)) refused-same
        (resume-Result (node_at root path) refl)
  create_new-Result (throws e) = inl ((refl, (refl, refl, inl refl), inl refl), λ o. cc)
  create_new-Result undefined = inl ((refl, (refl, refl, inl refl), inl refl), λ o. cc)

  -- `create_file` either gives a stream on the temporary path, with the request's offset as its
  -- position, and adds exactly one live lock; or it gives none and leaves the handler as it was, and
  -- the files up to directories that it made on the way to the temporary path. In both cases the
  -- request is for the same file and chunks, and has its old offset or the size of what stands at the
  -- temporary path.
  pub create_file-Result : Result h root r (create_file h root os r)
  unfolding create_file
  create_file-Result =
      let able = can_be_stored h root os r.file_info in
      if-Result (is_stored h r.file_info || is_blocked h r.file_info) (refused h root r)
        (create_new h root os r able) refused-same (create_new-Result able)

  -- A file that is stored or that a live lock holds is refused.
  pub create_file_in_progress :
      (is_stored h r.file_info || is_blocked h r.file_info) ≡ true
      → create_file h root os r ≡ refused h root r
  unfolding create_file
  create_file_in_progress e = rw e

-- The lock that a successful call took holds the file.
is_blocked-Locked :
    (h : FileHandler) (root : Entries) (os : Answers) (r : RequestedFile) (o : OfstreamWrapper)
    → Locked h root r o (create_file h root os r)
    → is_blocked (create_file h root os r).handler r.file_info ≡ true
unfolding is_blocked file_information_eq
is_blocked-Locked h root os r o l = rw l.0 (
    ground (
      arith,
      held-append r.file_info h.locked_files
          (record { file_info = r.file_info; token = h.next_token; active = true }),
      str_eq_refl r.file_info.file_name,
    ))

-- While a stream for a file lives, no second one is given: after a call that gave a stream, another
-- call for the same file is refused and changes nothing, whatever the files and the operating system
-- have become.
pub create_file_twice :
    (h : FileHandler) (root root' : Entries) (os os' : Answers) (r r' : RequestedFile)
    (o : OfstreamWrapper)
    → (create_file h root os r).result ≡ ok (some o)
    → r'.file_info ≡ r.file_info
    → create_file (create_file h root os r).handler root' os' r'
      ≡ refused (create_file h root os r).handler root' r'
create_file_twice h root root' os os' r r' o given same = elim (create_file-Result h root os r) [
  | inl (u, never) ↦ absurd (never o given)
  | inr (p, e, l) ↦
      let blocked = is_blocked-Locked h root os r p l in
      create_file_in_progress _ root' os' r' (rw (same, blocked) (ground arith))
]
