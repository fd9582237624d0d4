-- ===== src/ServerSession.antt =====
-- src/server_session.cpp: a connection of the server, from the handshake to the file that is sent. Each
-- callback of the socket is an event: a message has arrived, a write is done, or either has failed.
-- Between two events other parts of the program may have changed the files and the file handler.
pub mod Sharing
pub mod Trust
use mfsync.Common.{ℕ, Bool, true, false, Option, none, some, [], Bytes, codes}
use mfsync.Common.{Outcome, ok, throws, undefined, ◌>>=◌}
use mfsync.Info.{RequestedFile}
use mfsync.Json.{JsonLib}
use mfsync.Disk.{Entries}
use mfsync.Crypto.{CryptoLib, CryptoHandler, derive}
use mfsync.FileHandler.{FileHandler, is_stored}
use mfsync.Protocol.{
  MessageType, no_type, denied, handshake, file_list, file, get_message_type, get_json_from_message,
  create_error_message, text_at,
}
use mfsync.Protocol.Converter.{
  answer_to_message, answer_from_message, request_from_message, files_to_message,
}
use mfsync.Transfer
use mfsync.Transfer.{open_source}

-- What a connection waits for. `streaming` holds the open file.
pub data Phase : Type 0 where
  awaits_handshake : Phase
  responding : Phase
  awaits_header : Phase
  confirming : Phase
  awaits_confirmation : Phase
  replying : Phase
  streaming : Transfer.ServerSession → Phase
  ended : Phase

-- `server_session_base`. `crypto` is the handler that all connections share, `derived` the pointer to
-- the connection's own.
pub record Connection : Type 0 where
  pub port : ℕ
  pub crypto : CryptoHandler
  pub derived : Option CryptoHandler
  pub public_key : Bytes
  pub requested : RequestedFile
  pub phase : Phase

-- What a callback finds: the files, the file handler and the `static` of `encrypt_file_to_buf`, which
-- all connections share.
pub record Shared : Type 0 where
  pub root : Entries
  pub handler : FileHandler
  pub static_iv : Option Bytes

-- What a callback does: the message that it writes, the connection and the file handler after it, and
-- the `static` where it has encrypted a block.
pub record Reaction : Type 0 where
  pub sent : Option Bytes
  pub connection : Connection
  pub handler : FileHandler
  pub static_iv : Option Bytes

abbrev pub closes : Connection → FileHandler → Outcome Reaction
closes s h =
    ok (record {
      sent = none;
      connection = record s { phase = ended };
      handler = h;
      static_iv = none;
    })

abbrev pub writes : Bytes → Connection → FileHandler → Outcome Reaction
writes m s h = ok (record { sent = some m; connection = s; handler = h; static_iv = none })

-- `*derived_crypto_handler_.get()`
abbrev pub deref : Option CryptoHandler → Outcome CryptoHandler
deref none = undefined
deref (some d) = ok d

module _ (J : JsonLib) (C : CryptoLib) where
  -- `respond_encrypted`
  unfoldable pub respond_encrypted : Connection → FileHandler → Bytes → Bytes → Outcome Reaction
  unfolding derive answer_to_message
  respond_encrypted s h pub_key salt = do
    (m, d) ← answer_to_message J C true pub_key (derive C s.crypto pub_key salt)
    writes m (record s { derived = some d; phase = responding }) h

  unfoldable pub greet : Connection → FileHandler → Option J.Json → Outcome Reaction
  unfolding respond_encrypted text_at
  greet s h none = closes s h
  greet s h (some j) = do
    pub_key ← text_at J j (codes "public_key")
    salt ← text_at J j (codes "salt")
    respond_encrypted s h pub_key salt

  unfoldable pub greet_if : Connection → FileHandler → Bytes → MessageType → Outcome Reaction
  unfolding greet get_json_from_message
  greet_if s h message handshake = do j ← get_json_from_message J message; greet s h j
  greet_if s h message no_type = closes s h
  greet_if s h message denied = closes s h
  greet_if s h message file_list = closes s h
  greet_if s h message file = closes s h

  -- `handle_read_handshake`, with all that the stream buffer holds.
  unfoldable pub handle_read_handshake : Connection → FileHandler → Bytes → Outcome Reaction
  unfolding greet_if get_message_type
  handle_read_handshake s h message = do
    type ← get_message_type J message
    greet_if s h message type

  -- `send_confirmation`
  unfoldable pub send_confirmation : Connection → CryptoHandler → FileHandler → Outcome Reaction
  unfolding answer_to_message
  send_confirmation s d h = do
    (m, d') ← answer_to_message J C true s.public_key d
    writes m (record s { derived = some d'; phase = confirming }) h

  -- `reply_with_error`
  unfoldable pub reply_with_error : Connection → FileHandler → Bytes → Outcome Reaction
  unfolding create_error_message
  reply_with_error s h reason =
      writes (create_error_message reason) (record s { phase = replying }) h

  unfoldable pub list_files : Connection → FileHandler → Option J.Json → Outcome Reaction
  unfolding files_to_message text_at
  list_files s h none = closes s h
  list_files s h (some j) = do
    pub_key ← text_at J j (codes "public_key")
    d ← deref s.derived
    (m, d') ← files_to_message J C h.stored_files s.port pub_key d
    writes m (record s { derived = some d'; phase = replying }) h

  unfoldable pub confirm :
      Connection → FileHandler → Option (RequestedFile × Bytes) × CryptoHandler → Outcome Reaction
  unfolding send_confirmation reply_with_error is_stored
  confirm s h (none, d) = closes (record s { derived = some d }) h
  confirm s h (some (r, pub_key), d) =
      let s' : Connection = record s { derived = some d; public_key = pub_key } in
      elim (is_stored h r.file_info) [
        | true ↦ send_confirmation (record s' { requested = r }) d h
        | false ↦ reply_with_error s' h (codes "file doesnt exists")
      ]

  unfoldable pub answer_request : Connection → FileHandler → Bytes → MessageType → Outcome Reaction
  unfolding list_files confirm request_from_message get_json_from_message
  answer_request s h message file_list = do j ← get_json_from_message J message; list_files s h j
  answer_request s h message file = do
    d ← deref s.derived
    r ← request_from_message J C message d
    confirm s h r
  answer_request s h message no_type = closes s h
  answer_request s h message denied = closes s h
  answer_request s h message handshake = closes s h

  -- `handle_read_header`, with all that the stream buffer holds.
  unfoldable pub handle_read_header : Connection → FileHandler → Bytes → Outcome Reaction
  unfolding answer_request get_message_type
  handle_read_header s h message = do
    type ← get_message_type J message
    answer_request s h message type

  -- `write_file` writes a block, or ends where the stream has failed.
  unfoldable pub streams :
      Connection → FileHandler → Option Bytes × Transfer.ServerSession → Outcome Reaction
  streams s h (none, t) = closes (record s { derived = some t.derived }) h
  streams s h (some block, t) = ok (record {
    sent = some block;
    connection = record s { derived = some t.derived; phase = streaming t };
    handler = h;
    static_iv = t.static_iv;
  })

  unfoldable pub write_file : Connection → FileHandler → Transfer.ServerSession → Outcome Reaction
  unfolding Transfer.write_file streams
  write_file s h t = streams s h (Transfer.write_file C t)

  unfoldable pub begin_file :
      Connection → Outcome (Option Transfer.ServerSession) × FileHandler → Outcome Reaction
  unfolding write_file
  begin_file s (ok none, h) = closes s h
  begin_file s (ok (some t), h) = write_file s h t
  begin_file s (throws e, h) = throws e
  begin_file s (undefined, h) = undefined

  -- The part of `handle_read_confirmation` behind the reading of the answer.
  unfoldable pub transmit : Connection → Shared → Option Bool × CryptoHandler → Outcome Reaction
  unfolding begin_file open_source
  transmit s w (none, d) = closes (record s { derived = some d }) w.handler
  transmit s w (some false, d) = closes (record s { derived = some d }) w.handler
  transmit s w (some true, d) =
      begin_file (record s { derived = some d })
        (open_source w.root w.handler s.requested s.public_key d w.static_iv)

  unfoldable pub handle_read_confirmation : Connection → Shared → Bytes → Outcome Reaction
  unfolding transmit answer_from_message
  handle_read_confirmation s w message = do
    d ← deref s.derived
    a ← answer_from_message J C message s.public_key d
    transmit s w a

-- A callback: a read until the end mark has given a message, a write is done, or one of them failed.
pub data Event : Type 0 where
  arrived : Bytes → Event
  written : Event
  failed : Event

-- A connection whose `start` was called.
abbrev pub accepted : ℕ → CryptoHandler → Connection
accepted port crypto = record {
  port = port;
  crypto = crypto;
  derived = none;
  public_key = [];
  requested = record {
    file_info = record { file_name = []; sha256sum = none; size = 0 };
    offset = 0;
    chunksize = 0;
  };
  phase = awaits_handshake;
}

abbrev pub waits : Phase → Connection → FileHandler → Outcome Reaction
waits p s h =
    ok (record { sent = none; connection = record s { phase = p }; handler = h; static_iv = none })

module _ (J : JsonLib) (C : CryptoLib) where
  -- What a callback does in each phase; one that cannot come changes nothing.
  unfoldable pub react : Phase → Connection → Shared → Event → Outcome Reaction
  unfolding handle_read_handshake handle_read_header handle_read_confirmation write_file
  react awaits_handshake s w (arrived m) = handle_read_handshake J C s w.handler m
  react responding s w written = waits awaits_header s w.handler
  react awaits_header s w (arrived m) = handle_read_header J C s w.handler m
  react confirming s w written = waits awaits_confirmation s w.handler
  react awaits_confirmation s w (arrived m) = handle_read_confirmation J C s w m
  react replying s w written = closes s w.handler
  react (streaming t) s w written =
      write_file J C s w.handler (record t { static_iv = w.static_iv })
  react p s w failed = closes s w.handler
  react p s w e = ok (record { sent = none; connection = s; handler = w.handler; static_iv = none })

  unfoldable pub step : Connection → Shared → Event → Outcome Reaction
  unfolding react
  step s w e = react s.phase s w e
