-- ===== src/ClientSession/Trust.antt =====
-- From whom a session of src/client_session.cpp takes a file: the keys that its handlers hold, over
-- every sequence of callbacks.
mod Keys
mod Answers
mod Blocks
use mathlib.Core.Path.{subst}
use mfsync.Common.{
  ℕ, ◌+◌, ◌%◌, ◌^◌, ◌≡◌, ◌∙◌, refl, if◌then◌else◌, Bool-cases, inl, inr, take, length, Bool, true,
  false, Option, none, some, Bytes, arith, ok, throws, undefined, ◌>>=◌, Outcome, Post, Post-bind,
  Post-after, Post-ok,
}
use mfsync.Info.{RequestedFile, AvailableFile}
use mfsync.Json.{JsonLib}
use mfsync.Crypto.{
  CryptoLib, CryptoHandler, derive, is_allowed, decrypt_file_to_buf, get_public_key,
}
use mfsync.Crypto.Trust.{
  knows, Keeps, OnlyAllowed, OnlyAllowed-Keeps, derive-OnlyAllowed, block_with-Keeps,
}
use mfsync.FileHandler.Operations.{OfstreamWrapper, create_file}
use mfsync.Protocol.{create_handshake_message}
use mfsync.Protocol.Converter.{answer_to_message, answer_from_message, request_to_message}
use mfsync.Protocol.Trust.{
  Reads, answer_to_message-Keeps, answer_from_message-Reads, request_to_message-Keeps,
}
use mfsync.Transfer
use mfsync.Transfer.{
  Next, reads, complete, finalized, read_file_chunk, handle_read_file_chunk, after_write, write_at,
  flush,
}
use mfsync.ClientSession.{
  Phase, connecting, securing, greeting, awaits_handshake, requesting, awaits_response, confirming,
  receiving, ended, Connection, Shared, Reaction, closes, waits, writes, deref, proceed,
  begin_receiving, initialize_communication, request_with, request_file, greeted,
  handle_read_handshake, confirmed, handle_read_file_request_response, receive_chunk, Event,
  connected, shaken, written, arrived, failed, react, step, transfer_of, take_file, created,
}
use mfsync.ClientSession.Trust.Keys.{Checked, IsTrusted, Fine}
use mfsync.ClientSession.Trust.Blocks.{react-Good}

-- The sessions that a sequence of callbacks leads to. What is shared may be another in each callback.
pub data Reach (J : JsonLib) (C : CryptoLib) (sha256 : Bytes → Bytes) (s₀ : Connection)
    : Connection → Type 0 where
  start : Reach J C sha256 s₀ s₀
  later :
      {s : Connection} (w : Shared) (e : Event) (r : Reaction)
      → Reach J C sha256 s₀ s
      → step J C sha256 s w e ≡ ok r
      → Reach J C sha256 s₀ r.connection

module _ (J : JsonLib) (C : CryptoLib) (sha256 : Bytes → Bytes) where
  reachable-IsTrusted :
      (secured : Bool) (crypto : CryptoHandler) (a : AvailableFile) (s : Connection)
      → Reach J C sha256 (take_file (created secured crypto) a) s
      → IsTrusted crypto s
  unfolding step take_file
  reachable-IsTrusted secured crypto a s start = record {
    kept = refl;
    derived_allowed = tt;
    checked = tt;
  }
  reachable-IsTrusted secured crypto a s (later {s = before} w e r earlier q) =
      let i = reachable-IsTrusted secured crypto a before earlier in
      Post-ok (Fine crypto) (step J C sha256 before w e) r
        (react-Good crypto J C sha256 before.phase before w e i.checked i) q

  -- A session that has taken a file from the queue and waits for the bytes of the file receives them
  -- under the session's key, and the client allows that key, whether with TLS or without, in
  -- whatever order callbacks came and whatever the messages held.
  pub receiving_allowed :
      (secured : Bool) (crypto : CryptoHandler) (a : AvailableFile) (s : Connection)
      (o : OfstreamWrapper) (n : ℕ) (t : Transfer.ClientSession)
      → Reach J C sha256 (take_file (created secured crypto) a) s
      → s.phase ≡ receiving o n t
      → (t.pub_key ≡ s.pub_key) × (is_allowed crypto t.pub_key ≡ true)
  receiving_allowed secured crypto a s o n t reached phase =
      let c =
        subst (Checked crypto s.pub_key) phase
          (reachable-IsTrusted secured crypto a s reached).checked in
      (c.1, rw c.1 c.0)
