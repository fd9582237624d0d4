-- ===== src/Transfer.antt =====
-- The transfer of a file, after both hosts have confirmed it: `read_file_chunk` and
-- `handle_read_file_chunk` of src/client_session.cpp, `handle_read_confirmation` and `write_file` of
-- src/server_session.cpp. The socket is the list of the bytes that are sent.
pub mod Sending
pub mod Chunk
pub mod Whole
pub mod Stored
use mfsync.Common.{
  ℕ, suc, zero, ◌+◌, ◌-◌, ◌%◌, ◌^◌, Bool, true, false, not, Option, none, some, List, [], ◌∷◌,
}
use mfsync.Common.{
  ◌++◌, Bytes, if◌then◌else◌, length, take, drop, ltb, leb, is_some, Outcome, ok, throws, undefined,
}
use mfsync.Common.{Exn}
use mfsync.Info.{RequestedFile}
use mfsync.Disk.{Node, Entries, regular, put_at, node_at}
use mfsync.Common.{◌&&◌}
use mfsync.Dict
use mfsync.Crypto.{
  CryptoLib, CryptoHandler, encrypt_file_to_buf, decrypt_file_to_buf, decrypt_file_error,
}
use mfsync.FileHandler.{FileHandler}
use mfsync.FileHandler.Operations.{Finalized, finalize_file}
use mfsync.FileHandler.Sharing.{read_file}

-- A client session. `path` and `content` are those of the open stream, `bytes_written` is
-- `bytes_written_to_requested_`; the file handler and the files are the ones that it shares.
pub record ClientSession : Type 0 where
  pub requested : RequestedFile
  pub pub_key : Bytes
  pub bytes_written : ℕ
  pub path : Bytes
  pub content : Bytes
  pub derived : CryptoHandler
  pub static_iv : Option Bytes
  pub handler : FileHandler
  pub root : Entries

-- What a session does next: it waits for so many bytes, it ends because nothing is left to read, it
-- has called `finalize_file`, with this result, or the decryption has thrown.
pub data Next : Type 0 where
  reads : ℕ → Next
  complete : Next
  finalized : Outcome Bool → Next
  fails : Exn → Next

-- The difference of two numbers of 64 bits.
unfoldable pub bytes_left : RequestedFile → ℕ → ℕ
bytes_left r written = (r.file_info.size + 2 ^ 64 - written) % 2 ^ 64

unfoldable pub read_file_chunk : RequestedFile → ℕ → Next
unfolding bytes_left
read_file_chunk r written =
    let left = bytes_left r written in
    if leb left 0 then complete else if ltb r.chunksize left then reads r.chunksize else reads left

abbrev pub zeros : ℕ → Bytes
zeros zero = []
zeros (suc n) = 0 ∷ zeros n

-- What a file holds after a write of these bytes at that position.
unfoldable pub write_at : ℕ → Bytes → Bytes → Bytes
write_at position [] content = content
write_at position (b ∷ bs) content =
    take position content
    ++ (zeros (position - length content)
        ++ ((b ∷ bs) ++ drop (position + length (b ∷ bs)) content))

-- The open stream is flushed: the file at its path has the content. Where no regular file stands at
-- the path any more, the bytes go to a file without a name.
unfoldable pub write_through : Entries → Bytes → Bytes → Option Node → Entries
write_through root path content (some (regular readable before)) =
    elim (put_at root path (regular readable content)) [ none ↦ root | some root' ↦ root' ]
write_through root path content (some _) = root
write_through root path content none = root

unfoldable pub flush : Entries → Bytes → Bytes → Entries
unfolding write_through
flush root path content = write_through root path content (node_at root path)

-- `handle_read_file_chunk` behind the write: the next read, or the file is finalized. The size is
-- compared as a signed number of 64 bits.
unfoldable pub after_write : (Bytes → Bytes) → ClientSession → ℕ → Next × ClientSession
unfolding read_file_chunk finalize_file
after_write sha256 s tellp =
    if ltb tellp s.requested.file_info.size && ltb s.requested.file_info.size (2 ^ 63)
    then (read_file_chunk s.requested s.bytes_written, s)
    else let f = finalize_file sha256 s.handler s.root s.requested.file_info in
      (finalized f.result, record s { handler = f.handler; root = f.root })

-- An exception of the decryption leaves the callback.
abbrev pub or_fails : Option Exn → ClientSession → Next × ClientSession → Next × ClientSession
or_fails none s done = done
or_fails (some e) s done = (fails e, s)

-- What holds of both ends of a callback holds of it.
pub or_fails-case {ℓ} :
    (P : Next × ClientSession → Type ℓ) (x : Option Exn) (s : ClientSession)
    (done : Next × ClientSession)
    → P done
    → ((e : Exn) → P (fails e, s))
    → P (or_fails x s done)
or_fails-case P none s done p q = p
or_fails-case P (some e) s done p q = q e

-- A server session from the confirmation on: what its stream still holds, and whether the stream is
-- good.
pub record ServerSession : Type 0 where
  pub requested : RequestedFile
  pub public_key : Bytes
  pub derived : CryptoHandler
  pub static_iv : Option Bytes
  pub rest : Bytes
  pub good : Bool

-- `handle_read_confirmation` where the client has accepted: the file is opened at the offset. `none`
-- is a file that cannot be read.
abbrev pub opened : RequestedFile → Bytes → CryptoHandler → Option Bytes → Bytes → ServerSession
opened r key derived iv content = record {
  requested = r;
  public_key = key;
  derived = derived;
  static_iv = iv;
  rest = drop r.offset content;
  good = true;
}

unfoldable pub open_after :
    RequestedFile
    → Bytes
    → CryptoHandler
    → Option Bytes
    → Outcome (Option Bytes) × FileHandler
    → Outcome (Option ServerSession) × FileHandler
open_after r key derived iv (ok none, h) = (ok none, h)
open_after r key derived iv (ok (some content), h) =
    (ok (some (opened r key derived iv content)), h)
open_after r key derived iv (throws e, h) = (throws e, h)
open_after r key derived iv (undefined, h) = (undefined, h)

unfoldable pub open_source :
    Entries
    → FileHandler
    → RequestedFile
    → Bytes
    → CryptoHandler
    → Option Bytes
    → Outcome (Option ServerSession) × FileHandler
unfolding read_file open_after
open_source root h r key derived iv = open_after r key derived iv (read_file root h r.file_info)

module _ (C : CryptoLib) where
  -- `handle_read_file_chunk`, with the bytes that were read.
  unfoldable pub handle_read_file_chunk :
      (Bytes → Bytes) → ClientSession → Bytes → Next × ClientSession
  unfolding after_write write_at flush decrypt_file_to_buf decrypt_file_error
  handle_read_file_chunk sha256 s received =
      let n = length received in
      let pump_all = ltb s.requested.file_info.size ((s.bytes_written + n) % 2 ^ 64) in
      let block = decrypt_file_to_buf C s.static_iv s.derived s.pub_key n received pump_all in
      let content = write_at s.bytes_written block.out s.content in
      or_fails (decrypt_file_error C s.static_iv s.derived s.pub_key n received pump_all) s (
        after_write sha256
          (record s {
            bytes_written = (s.bytes_written + n) % 2 ^ 64;
            content = content;
            derived = block.handler;
            static_iv = block.static_iv;
            root = flush s.root s.path content;
          })
          (s.bytes_written + length block.out))

  -- The session's reads, one after another, on the bytes that arrive. It stops waiting where the
  -- connection ends early. `none` is that the fuel ran out.
  unfoldable pub receive :
      ℕ → (Bytes → Bytes) → Next × ClientSession → Bytes → Option (Next × ClientSession)
  unfolding handle_read_file_chunk
  receive zero sha256 (next, s) arrived = none
  receive (suc fuel) sha256 (complete, s) arrived = some (complete, s)
  receive (suc fuel) sha256 (finalized r, s) arrived = some (finalized r, s)
  receive (suc fuel) sha256 (fails e, s) arrived = some (fails e, s)
  receive (suc fuel) sha256 (reads n, s) arrived =
      let further =
        receive fuel sha256 (handle_read_file_chunk sha256 s (take n arrived)) (drop n arrived) in
      if ltb (length arrived) n then some (reads n, s) else further

  -- `write_file`: one block, read from the stream and encrypted; `none` where the stream has failed.
  -- The block of a key that is not trusted is empty, and nothing is read.
  unfoldable pub write_file : ServerSession → Option Bytes × ServerSession
  unfolding encrypt_file_to_buf
  write_file s =
      if not s.good
      then (none, s)
      else let chunksize = s.requested.chunksize in
        let block = encrypt_file_to_buf C s.static_iv s.derived s.public_key s.rest chunksize in
        let trusted = is_some (Dict.lookup s.public_key s.derived.trusted_keys) in
        (
          some block.out,
          record s {
            derived = block.handler;
            static_iv = block.static_iv;
            rest = if trusted then drop chunksize s.rest else s.rest;
            good = if trusted then not (ltb (length s.rest) chunksize) else true;
          },
        )

  -- All that `write_file` sends until the stream fails; `none` is that the fuel ran out.
  unfoldable pub sent_with : Option Bytes → Option Bytes → Option Bytes
  sent_with none rest = some []
  sent_with (some block) none = none
  sent_with (some block) (some rest) = some (block ++ rest)

  unfoldable pub send : ℕ → ServerSession → Option Bytes
  unfolding write_file sent_with
  send zero s = none
  send (suc fuel) s = let (block, s') = write_file s in sent_with block (send fuel s')
