-- ===== src/ClientSession.antt =====
-- src/client_session.cpp: a session that requests one file, from the queue to the bytes that arrive,
-- without TLS (`client_session`) and with TLS (`client_tls_session`). Each callback of the socket is
-- an event. Between two events other parts of the program may have changed what the session shares.
pub mod Effects
pub mod Ending
pub mod Locks
pub mod Steps
pub mod Frames
pub mod Release
pub mod Trust
use mfsync.Common.{ℕ, Bool, true, false, Option, none, some, List, [], Bytes, if◌then◌else◌}
use mfsync.Common.{Outcome, ok, throws, undefined, ◌>>=◌}
use mfsync.Info.{AvailableFile, RequestedFile}
use mfsync.Json.{JsonLib}
use mfsync.Disk.{Entries, node_at, content_of}
use mfsync.Deque
use mfsync.Crypto.{CryptoLib, CryptoHandler, derive, get_public_key}
use mfsync.FileHandler.{FileHandler}
use mfsync.FileHandler.Operations.{Answers, OfstreamWrapper, create_file, release}
use mfsync.Protocol.{create_handshake_message, chunk_size}
use mfsync.Protocol.Converter.{answer_to_message, answer_from_message, request_to_message}
use mfsync.Transfer
use mfsync.Transfer.{
  Next, reads, complete, finalized, fails, read_file_chunk, handle_read_file_chunk,
}

-- What a session waits for. `greeting`, `requesting` and `confirming` are writes, `securing` is the
-- handshake of TLS. From `requesting` on the session holds the open stream, and `receiving` waits
-- for so many bytes.
pub data Phase : Type 0 where
  connecting : Phase
  securing : Phase
  greeting : Phase
  awaits_handshake : Phase
  requesting : OfstreamWrapper → Phase
  awaits_response : OfstreamWrapper → Phase
  confirming : OfstreamWrapper → Phase
  receiving : OfstreamWrapper → ℕ → Transfer.ClientSession → Phase
  ended : Phase

-- `client_session_base`. `secured` tells a `client_tls_session`; `derived` is a pointer.
pub record Connection : Type 0 where
  pub secured : Bool
  pub crypto : CryptoHandler
  pub derived : Option CryptoHandler
  pub pub_key : Bytes
  pub requested : RequestedFile
  pub phase : Phase

-- What a callback finds: the files, the file handler, the queue, the answers of the operating system,
-- and the `static` of `decrypt_file_to_buf`, which all sessions share.
pub record Shared : Type 0 where
  pub root : Entries
  pub handler : FileHandler
  pub queue : List AvailableFile
  pub answers : Answers
  pub static_iv : Option Bytes

-- What a callback does: the message that it writes, and the session and what is shared after it.
pub record Reaction : Type 0 where
  pub sent : Option Bytes
  pub connection : Connection
  pub shared : Shared

-- The stream that a session holds.
abbrev pub held : Phase → Option OfstreamWrapper
held connecting = none
held securing = none
held greeting = none
held awaits_handshake = none
held (requesting o) = some o
held (awaits_response o) = some o
held (confirming o) = some o
held (receiving o n t) = some o
held ended = none

-- The stream is destroyed with the session.
unfoldable pub dropped : Option OfstreamWrapper → FileHandler → FileHandler
unfolding release
dropped none h = h
dropped (some o) h = release h o

-- A callback that starts nothing further ends the session. `handle_error` does nothing.
unfoldable pub closes : Connection → Shared → Outcome Reaction
unfolding dropped
closes s w = ok (record {
  sent = none;
  connection = record s { phase = ended };
  shared = record w { handler = dropped (held s.phase) w.handler };
})

abbrev pub waits : Phase → Connection → Shared → Outcome Reaction
waits p s w = ok (record { sent = none; connection = record s { phase = p }; shared = w })

abbrev pub writes : Bytes → Connection → Shared → Outcome Reaction
writes m s w = ok (record { sent = some m; connection = s; shared = w })

-- `*derived_crypto_handler_.get()`
abbrev pub deref : Option CryptoHandler → Outcome CryptoHandler
deref none = undefined
deref (some d) = ok d

-- The file that a session takes from the queue. The key is not taken over with TLS.
unfoldable pub take_file : Connection → AvailableFile → Connection
take_file s a = record s {
  requested = record s.requested { file_info = a.file_info; chunksize = chunk_size };
  pub_key = if s.secured then s.pub_key else a.public_key;
  phase = connecting;
}

unfoldable pub begin :
    Connection → Shared → Option AvailableFile × List AvailableFile → Outcome Reaction
unfolding closes take_file
begin s w (none, queue) = closes s (record w { queue = queue })
begin s w (some a, queue) = waits connecting (take_file s a) (record w { queue = queue })

-- `start_request`
unfoldable pub start_request : Connection → Shared → Outcome Reaction
unfolding begin Deque.try_pop
start_request s w = begin s w (Deque.try_pop w.queue)

-- What the callbacks of a transfer work on: the file that the open stream has on the disk.
unfoldable pub transfer_of :
    Connection → Shared → CryptoHandler → OfstreamWrapper → Transfer.ClientSession
transfer_of s w d o = record {
  requested = s.requested;
  pub_key = s.pub_key;
  bytes_written = s.requested.offset;
  path = o.path;
  content = elim (node_at w.root o.path) [ none ↦ [] | some x ↦ content_of x ];
  derived = d;
  static_iv = w.static_iv;
  handler = w.handler;
  root = w.root;
}

-- What a transfer has changed.
abbrev pub after_transfer : Shared → Transfer.ClientSession → Shared
after_transfer w t = record w { root = t.root; handler = t.handler; static_iv = t.static_iv }

unfoldable pub proceed :
    Connection → Shared → OfstreamWrapper → Next × Transfer.ClientSession → Outcome Reaction
unfolding closes
proceed s w o (reads n, t) =
    waits (receiving o n t) (record s { derived = some t.derived }) (after_transfer w t)
proceed s w o (complete, t) = closes (record s { derived = some t.derived }) (after_transfer w t)
proceed s w o (finalized (ok b), t) =
    closes (record s { derived = some t.derived }) (after_transfer w t)
proceed s w o (finalized (throws e), t) = throws e
proceed s w o (finalized undefined, t) = undefined
proceed s w o (fails e, t) = throws e

-- The response is sent: the buffer is made, and the first read starts.
unfoldable pub begin_receiving : Connection → Shared → OfstreamWrapper → Outcome Reaction
unfolding proceed transfer_of read_file_chunk
begin_receiving s w o = do
  d ← deref s.derived
  proceed s w o (read_file_chunk s.requested s.requested.offset, transfer_of s w d o)

module _ (J : JsonLib) (C : CryptoLib) where
  -- `initialize_communication`, with the random salt.
  unfoldable pub initialize_communication : Connection → Shared → Bytes → Outcome Reaction
  unfolding derive create_handshake_message get_public_key
  initialize_communication s w random =
      let salt = C.hex_encode random in
      let d = derive C s.crypto s.pub_key salt in
      do
        m ← create_handshake_message J (get_public_key C d) salt
        writes m (record s { derived = some d; phase = greeting }) w

  unfoldable pub request_with :
      Connection → Shared → RequestedFile → Outcome (Option OfstreamWrapper) → Outcome Reaction
  unfolding closes request_to_message
  request_with s w r (ok none) = closes (record s { requested = r }) w
  request_with s w r (ok (some o)) = do
    d ← deref s.derived
    (m, d') ← request_to_message J C r s.pub_key d
    writes m (record s { requested = r; derived = some d'; phase = requesting o }) w
  request_with s w r (throws e) = throws e
  request_with s w r undefined = undefined

  -- `request_file`
  unfoldable pub request_file : Connection → Shared → Outcome Reaction
  unfolding request_with create_file
  request_file s w =
      let c = create_file w.handler w.root w.answers s.requested in
      request_with s (record w { handler = c.handler; root = c.root }) c.requested c.result

  -- Any answer that was decrypted lets the session go on.
  unfoldable pub greeted : Connection → Shared → Option Bool × CryptoHandler → Outcome Reaction
  unfolding closes request_file
  greeted s w (none, d) = closes (record s { derived = some d }) w
  greeted s w (some accepted, d) = request_file (record s { derived = some d }) w

  unfoldable pub handle_read_handshake : Connection → Shared → Bytes → Outcome Reaction
  unfolding greeted answer_from_message
  handle_read_handshake s w message = do
    d ← deref s.derived
    a ← answer_from_message J C message s.pub_key d
    greeted s w a

  unfoldable pub confirmed :
      Connection → Shared → OfstreamWrapper → Option Bool × CryptoHandler → Outcome Reaction
  unfolding closes answer_to_message
  confirmed s w o (none, d) = closes (record s { derived = some d }) w
  confirmed s w o (some false, d) = closes (record s { derived = some d }) w
  confirmed s w o (some true, d) = do
    (m, d') ← answer_to_message J C true s.pub_key d
    writes m (record s { derived = some d'; phase = confirming o }) w

  unfoldable pub handle_read_file_request_response :
      Connection → Shared → OfstreamWrapper → Bytes → Outcome Reaction
  unfolding confirmed answer_from_message
  handle_read_file_request_response s w o message = do
    d ← deref s.derived
    a ← answer_from_message J C message s.pub_key d
    confirmed s w o a

  unfoldable pub receive_chunk :
      (Bytes → Bytes)
      → Connection
      → Shared
      → OfstreamWrapper
      → Transfer.ClientSession
      → Bytes
      → Outcome Reaction
  unfolding proceed handle_read_file_chunk
  receive_chunk sha256 s w o t bytes = proceed s w o (
      handle_read_file_chunk C sha256
        (record t { handler = w.handler; root = w.root; static_iv = w.static_iv }) bytes)

-- A callback: a connection is there (with the salt that is drawn next), the TLS handshake is done, a
-- write is done, a message or the bytes of a block have arrived, or one of these has failed.
pub data Event : Type 0 where
  connected : Bytes → Event
  shaken : Event
  written : Event
  arrived : Bytes → Event
  failed : Event

-- A session that was constructed.
abbrev pub created : Bool → CryptoHandler → Connection
created secured crypto = record {
  secured = secured;
  crypto = crypto;
  derived = none;
  pub_key = [];
  requested = record {
    file_info = record { file_name = []; sha256sum = none; size = 0 };
    offset = 0;
    chunksize = 0;
  };
  phase = ended;
}

module _ (J : JsonLib) (C : CryptoLib) (sha256 : Bytes → Bytes) where
  -- What a callback does in each phase; one that cannot come changes nothing.
  unfoldable pub react : Phase → Connection → Shared → Event → Outcome Reaction
  unfolding initialize_communication request_file handle_read_handshake
      handle_read_file_request_response begin_receiving receive_chunk closes
  react connecting s w (connected random) =
      if s.secured then waits securing s w else initialize_communication J C s w random
  react securing s w shaken = request_file J C s w
  react greeting s w written = waits awaits_handshake s w
  react awaits_handshake s w (arrived m) = handle_read_handshake J C s w m
  react (requesting o) s w written = waits (awaits_response o) s w
  react (awaits_response o) s w (arrived m) = handle_read_file_request_response J C s w o m
  react (confirming o) s w written = begin_receiving s w o
  react (receiving o n t) s w (arrived bytes) = receive_chunk J C sha256 s w o t bytes
  react p s w failed = closes s w
  react p s w e = ok (record { sent = none; connection = s; shared = w })

  unfoldable pub step : Connection → Shared → Event → Outcome Reaction
  unfolding react
  step s w e = react s.phase s w e
