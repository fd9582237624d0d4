-- ===== src/ClientSession/Frames.antt =====
-- What a callback of src/client_session.cpp leaves alone: the available files, the queue, and the file
-- that the session asks for while it lives.
pub mod Steps
use mfsync.Common.{
  ◌&&◌, ◌≡◌, refl, ◌∙◌, Option, none, some, Bytes, ok, throws, undefined, Post, Post-after, inl,
  inr, Bool-cases, length, ltb, ◌+◌, ◌%◌, ◌^◌, ℕ,
}
use mfsync.Info.{RequestedFile, FileInformation}
use mfsync.Crypto.{CryptoLib, decrypt_file_to_buf, decrypt_file_error}
use mfsync.FileHandler.{FileHandler}
use mfsync.FileHandler.Operations.{OfstreamWrapper, create_file}
use mfsync.FileHandler.Locks.{create_file-Result}
use mfsync.FileHandler.Keeping.{Keeps, release-Keeps, finalize_file-Keeps}
use mfsync.Transfer
use mfsync.Transfer.{
  Next, reads, complete, finalized, fails, or_fails-case, read_file_chunk, handle_read_file_chunk,
  after_write, write_at, flush,
}
use mfsync.ClientSession.{
  Phase, connecting, securing, greeting, awaits_handshake, requesting, awaits_response, confirming,
  receiving, ended, Connection, Shared, Reaction, held, dropped, closes, deref, proceed,
  begin_receiving, transfer_of,
}

-- The file that a session asks for, until it has ended.
abbrev pub file_in : Phase → FileInformation → Option FileInformation
file_in connecting f = some f
file_in securing f = some f
file_in greeting f = some f
file_in awaits_handshake f = some f
file_in (requesting o) f = some f
file_in (awaits_response o) f = some f
file_in (confirming o) f = some f
file_in (receiving o n t) f = some f
file_in ended f = none

-- It asks for that file or for none any more.
abbrev pub AsksOnly : FileInformation → Option FileInformation → Type 0
AsksOnly f none = Unit
AsksOnly f (some g) = g ≡ f

abbrev pub Frame : Shared → FileInformation → Reaction → Type 0
Frame w f r =
    Keeps w.handler r.shared.handler
    × (r.shared.queue ≡ w.queue)
    × AsksOnly f (file_in r.connection.phase r.connection.requested.file_info)

pub AsksOnly-refl : (p : Phase) (f : FileInformation) → AsksOnly f (file_in p f)
AsksOnly-refl ended f = tt
AsksOnly-refl connecting f = refl
AsksOnly-refl securing f = refl
AsksOnly-refl greeting f = refl
AsksOnly-refl awaits_handshake f = refl
AsksOnly-refl (requesting o) f = refl
AsksOnly-refl (awaits_response o) f = refl
AsksOnly-refl (confirming o) f = refl
AsksOnly-refl (receiving o n t) f = refl

pub dropped-Keeps : (x : Option OfstreamWrapper) (h : FileHandler) → Keeps h (dropped x h)
unfolding dropped
dropped-Keeps none h = refl
dropped-Keeps (some o) h = release-Keeps h o

pub closes-Frame :
    (s : Connection) (w v : Shared) (f : FileInformation)
    → Keeps w.handler v.handler
    → v.queue ≡ w.queue
    → Post (Frame w f) (closes s v)
unfolding closes
closes-Frame s w v f keeps same = ((dropped-Keeps (held s.phase) v.handler ∙ keeps), same, tt)

pub proceed-Frame :
    (s : Connection) (w : Shared) (o : OfstreamWrapper) (n : Next) (t : Transfer.ClientSession)
    → Keeps w.handler t.handler
    → Post (Frame w s.requested.file_info) (proceed s w o (n, t))
unfolding proceed closes
proceed-Frame s w o (reads n) t keeps = (keeps, refl, refl)
proceed-Frame s w o complete t keeps = ((dropped-Keeps (held s.phase) t.handler ∙ keeps), refl, tt)
proceed-Frame s w o (finalized (ok b)) t keeps =
    ((dropped-Keeps (held s.phase) t.handler ∙ keeps), refl, tt)
proceed-Frame s w o (finalized (throws x)) t keeps = tt
proceed-Frame s w o (finalized undefined) t keeps = tt
proceed-Frame s w o (fails x) t keeps = tt

pub begin_receiving-Frame :
    (s : Connection) (w : Shared) (o : OfstreamWrapper)
    → Post (Frame w s.requested.file_info) (begin_receiving s w o)
unfolding begin_receiving transfer_of
begin_receiving-Frame s w o =
    Post-after (Frame w s.requested.file_info) (deref s.derived)
      (λ d. proceed s w o (read_file_chunk s.requested s.requested.offset, transfer_of s w d o))
      (λ d.
        proceed-Frame s w o (read_file_chunk s.requested s.requested.offset) (transfer_of s w d o)
          refl)

pub after_write-Keeps :
    (sha256 : Bytes → Bytes) (t : Transfer.ClientSession) (tellp : ℕ)
    → Keeps t.handler (after_write sha256 t tellp).1.handler
unfolding after_write
after_write-Keeps sha256 t tellp =
    elim (Bool-cases
      (ltb tellp t.requested.file_info.size && ltb t.requested.file_info.size (2 ^ 63))) [
        | inl more ↦ rw more refl
        | inr whole ↦ rw whole (finalize_file-Keeps sha256 t.handler t.root t.requested.file_info)
      ]

pub chunk-Keeps :
    (C : CryptoLib) (sha256 : Bytes → Bytes) (t : Transfer.ClientSession) (bytes : Bytes)
    → Keeps t.handler (handle_read_file_chunk C sha256 t bytes).1.handler
unfolding handle_read_file_chunk
chunk-Keeps C sha256 t bytes =
    let n = length bytes in
    let pump_all = ltb t.requested.file_info.size ((t.bytes_written + n) % 2 ^ 64) in
    let block = decrypt_file_to_buf C t.static_iv t.derived t.pub_key n bytes pump_all in
    let content = write_at t.bytes_written block.out t.content in
    or_fails-case (λ x. Keeps t.handler x.1.handler)
      (decrypt_file_error C t.static_iv t.derived t.pub_key n bytes pump_all) t _
      (after_write-Keeps sha256
        (record t {
          bytes_written = (t.bytes_written + n) % 2 ^ 64;
          content = content;
          derived = block.handler;
          static_iv = block.static_iv;
          root = flush t.root t.path content;
        })
        (t.bytes_written + length block.out))
      (λ e. refl)

-- A request that `create_file` gives a stream for is for the same file.
pub given-file :
    (h : FileHandler) (w : Shared) (r : RequestedFile) (o : OfstreamWrapper)
    → let c = create_file h w.root w.answers r in
      c.result ≡ ok (some o) → c.requested.file_info ≡ r.file_info
given-file h w r o e = elim (create_file-Result h w.root w.answers r) [
  | inl (u, never) ↦ absurd (never o e)
  | inr (p, given, l) ↦ l.3
]
