-- ===== src/ClientSession/Locks.antt =====
-- What a callback of src/client_session.cpp does to the locks of the file handler.
use mfsync.Common.{
  ◌&&◌, ℕ, ◌≡◌, refl, ◌∙◌, true, false, Option, none, some, List, [], ◌∷◌, ◌++◌, Bytes, ◌⊎◌, inl,
  inr, erase_if, Bool-cases, ltb, leb, ◌+◌, ◌%◌, ◌^◌, length,
}
use mfsync.Info.{FileInformation, RequestedFile, file_information_eq}
use mfsync.Disk.{Entries}
use mfsync.Crypto.{CryptoLib, decrypt_file_to_buf, decrypt_file_error}
use mfsync.FileHandler.{FileHandler, Lock}
use mfsync.FileHandler.Operations.{clear_token, finalize_file, moved, move_to_storage}
use mfsync.FileHandler.Preserving.{finalize_cases}
use mfsync.FileHandler.Lifecycle.{update-locked_files, update-next_token}
use mfsync.Transfer
use mfsync.Transfer.{
  Next, reads, complete, finalized, fails, or_fails-case, read_file_chunk, handle_read_file_chunk,
  after_write, bytes_left, write_at, flush,
}

-- The locks after a stream with this token is destroyed.
abbrev pub released : Option ℕ → List Lock → List Lock
released none ls = ls
released (some t) ls = clear_token t ls

-- The locks after the file is finalized.
abbrev pub unlocked : FileInformation → List Lock → List Lock
unlocked f ls = erase_if (λ l. file_information_eq f l.file_info) ls

-- The lock that is taken for a file.
abbrev pub taken : FileHandler → FileInformation → List Lock
taken h f = h.locked_files ++ (record { file_info = f; token = h.next_token; active = true } ∷ [])

-- What `finalize_file` leaves of the locks: all, or all but those of the file.
abbrev pub Finishes : FileHandler → FileInformation → FileHandler → Type 0
Finishes h f h' =
    (h'.next_token ≡ h.next_token)
    × ((h'.locked_files ≡ h.locked_files) ⊎ (h'.locked_files ≡ unlocked f h.locked_files))

moved-Finishes :
    (h g : FileHandler) (root : Entries) (f : FileInformation) (to : Option Entries)
    → g.next_token ≡ h.next_token
    → g.locked_files ≡ unlocked f h.locked_files
    → Finishes h f (moved g root f to).handler
unfolding moved
moved-Finishes h g root f none n e = (n, inr e)
moved-Finishes h g root f (some root') n e =
    (update-next_token root' false _ ∙ n, inr (update-locked_files root' false _ ∙ e))

pub finalize_file-Finishes :
    (sha256 : Bytes → Bytes) (h : FileHandler) (root : Entries) (f : FileInformation)
    → Finishes h f (finalize_file sha256 h root f).handler
unfolding move_to_storage
finalize_file-Finishes sha256 h root f =
    finalize_cases (λ r. Finishes h f r.handler) sha256 h root f (refl, inl refl)
      λ new held. moved-Finishes h _ root f _ refl refl

-- What a block leaves of the request and of the locks.
abbrev pub Leaves : RequestedFile → FileHandler → Next × Transfer.ClientSession → Type 0
Leaves q h (reads n, u) = (u.requested ≡ q) × (u.handler ≡ h)
Leaves q h (complete, u) = (u.requested ≡ q) × (u.handler ≡ h)
Leaves q h (fails e, u) = (u.requested ≡ q) × (u.handler ≡ h)
Leaves q h (finalized r, u) = (u.requested ≡ q) × Finishes h q.file_info u.handler

pub read_file_chunk-Leaves :
    (t : Transfer.ClientSession) (q : RequestedFile) (written : ℕ)
    → Leaves t.requested t.handler (read_file_chunk q written, t)
unfolding read_file_chunk
read_file_chunk-Leaves t q written = elim (Bool-cases (leb (bytes_left q written) 0)) [
  | inl done ↦ rw done (refl, refl)
  | inr more ↦ rw more (elim (Bool-cases (ltb q.chunksize (bytes_left q written))) [
    | inl whole ↦ simp whole (refl, refl)
    | inr last ↦ simp last (refl, refl)
  ])
]

after_write-Leaves :
    (sha256 : Bytes → Bytes) (t : Transfer.ClientSession) (tellp : ℕ)
    → Leaves t.requested t.handler (after_write sha256 t tellp)
unfolding after_write
after_write-Leaves sha256 t tellp =
    elim (Bool-cases
      (ltb tellp t.requested.file_info.size && ltb t.requested.file_info.size (2 ^ 63))) [
        | inl more ↦ rw more (read_file_chunk-Leaves t t.requested t.bytes_written)
        | inr whole ↦
            rw whole (refl, finalize_file-Finishes sha256 t.handler t.root t.requested.file_info)
      ]

pub chunk-Leaves :
    (C : CryptoLib) (sha256 : Bytes → Bytes) (t : Transfer.ClientSession) (bytes : Bytes)
    → Leaves t.requested t.handler (handle_read_file_chunk C sha256 t bytes)
unfolding handle_read_file_chunk
chunk-Leaves C sha256 t bytes =
    let n = length bytes in
    let pump_all = ltb t.requested.file_info.size ((t.bytes_written + n) % 2 ^ 64) in
    let block = decrypt_file_to_buf C t.static_iv t.derived t.pub_key n bytes pump_all in
    let content = write_at t.bytes_written block.out t.content in
    or_fails-case (Leaves t.requested t.handler)
      (decrypt_file_error C t.static_iv t.derived t.pub_key n bytes pump_all) t _
      (after_write-Leaves sha256
        (record t {
          bytes_written = (t.bytes_written + n) % 2 ^ 64;
          content = content;
          derived = block.handler;
          static_iv = block.static_iv;
          root = flush t.root t.path content;
        })
        (t.bytes_written + length block.out))
      (λ e. (refl, refl))
