-- ===== src/ServerSession/Trust.antt =====
-- Whom a connection of src/server_session.cpp sends a file to: the keys that its handlers hold, over
-- every sequence of callbacks.
mod Greeting
mod Asking
mod Sending
use mfsync.Common.{
  ℕ, take, ◌≡◌, refl, Bool, true, false, Option, none, some, Bytes, Bool-cases, inl, inr, arith,
  codes,
}
use mathlib.Core.Path.{subst}
use mfsync.Common.{Outcome, Post, Post-bind, Post-after, Post-ok, ok, throws, undefined, ◌>>=◌}
use mfsync.Info.{RequestedFile}
use mfsync.Json.{JsonLib}
use mfsync.Crypto.{CryptoLib, CryptoHandler, derive, is_allowed, encrypt_file_to_buf}
use mfsync.Crypto.Trust.{
  Keeps, OnlyAllowed, OnlyAllowed-Keeps, derive-OnlyAllowed, block_with-Keeps,
}
use mfsync.FileHandler.{FileHandler, is_stored}
use mfsync.Protocol.{
  MessageType, no_type, denied, handshake, file_list, file, get_message_type, get_json_from_message,
  text_at,
}
use mfsync.Protocol.Converter.{
  answer_to_message, answer_from_message, request_from_message, files_to_message,
}
use mfsync.Protocol.Trust.{
  Reads, answer_to_message-Keeps, answer_from_message-Reads, request_from_message-Reads,
  files_to_message-Keeps,
}
use mfsync.Transfer
use mfsync.Transfer.{open_source, open_after, opened}
use mfsync.FileHandler.Sharing.{read_file}
use mfsync.ServerSession.{
  Phase, awaits_handshake, responding, awaits_header, confirming, awaits_confirmation, replying,
  streaming, ended, Connection, Shared, Reaction, Event, arrived, written, failed, deref, step,
  react, accepted, closes, writes, waits,
}
use mfsync.ServerSession.{
  respond_encrypted, greet, greet_if, handle_read_handshake, send_confirmation, reply_with_error,
  list_files, confirm, answer_request, handle_read_header, streams, write_file, begin_file,
  transmit, handle_read_confirmation,
}
use mfsync.ServerSession.Trust.Greeting.{Checked, IsTrusted, Fine}
use mfsync.ServerSession.Trust.Sending.{react-Good}

-- The connections that a sequence of callbacks leads to. The files and the file handler may be others
-- in each callback.
pub data Reach (J : JsonLib) (C : CryptoLib) (s₀ : Connection) : Connection → Type 0 where
  start : Reach J C s₀ s₀
  later :
      {s : Connection} (w : Shared) (e : Event) (r : Reaction)
      → Reach J C s₀ s
      → step J C s w e ≡ ok r
      → Reach J C s₀ r.connection

module _ (J : JsonLib) (C : CryptoLib) where
  -- Whatever arrives, in whatever order: the handler that a connection of a server derives holds only
  -- keys that the server allows, and from the confirmation of a request until the end of the
  -- file the key that the request came from is an allowed one.
  pub reachable-IsTrusted :
      (port : ℕ) (crypto : CryptoHandler) (s : Connection)
      → Reach J C (accepted port crypto) s
      → IsTrusted crypto s
  unfolding step
  reachable-IsTrusted port crypto s start = record {
    kept = refl;
    derived_allowed = tt;
    checked = tt;
  }
  reachable-IsTrusted port crypto s (later {s = before} w e r earlier q) =
      let i = reachable-IsTrusted port crypto before earlier in
      Post-ok (Fine crypto) (step J C before w e) r
        (react-Good crypto J C before.phase before w e i.checked i) q

  -- A connection of a server that streams a file streams it to a key that the server allows, in
  -- whatever order callbacks came before and whatever the messages held.
  pub streaming_allowed :
      (port : ℕ) (crypto : CryptoHandler) (s : Connection) (t : Transfer.ServerSession)
      → Reach J C (accepted port crypto) s
      → s.phase ≡ streaming t
      → is_allowed crypto t.public_key ≡ true
  streaming_allowed port crypto s t reached phase =
      (subst (Checked crypto s.public_key) phase
        (reachable-IsTrusted port crypto s reached).checked).0
