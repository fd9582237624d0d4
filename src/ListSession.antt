-- ===== src/ListSession.antt =====
-- src/client_session.cpp: `client_encrypted_session`, which asks a host for the list of its files.
-- Each callback of the socket is an event, as in a session that requests a file.
pub mod Sharing
pub mod Delivery
use mfsync.Common.{Bool, true, false, Option, none, some, List, Bytes}
use mfsync.Common.{Outcome, ok, throws, undefined, ◌>>=◌}
use mfsync.Info.{AvailableFile, HostInformation}
use mfsync.Json.{JsonLib}
use mfsync.Disk.{Entries}
use mfsync.Crypto.{CryptoLib, CryptoHandler, derive, get_public_key}
use mfsync.FileHandler.{FileHandler}
use mfsync.FileHandler.Sharing.{add_available_files}
use mfsync.Protocol.{create_handshake_message, create_file_list_message}
use mfsync.Protocol.Converter.{answer_from_message, files_from_message}
use mfsync.ClientSession.{deref, Event, connected, written, arrived, failed}

pub data Phase : Type 0 where
  connecting greeting awaits_handshake asking awaits_list ended : Phase

-- `client_encrypted_session`. The address is that of the socket's other end.
pub record Connection : Type 0 where
  pub crypto : CryptoHandler
  pub derived : Option CryptoHandler
  pub host_info : HostInformation
  pub address : Bytes
  pub phase : Phase

-- What a callback does: the message that it writes, the session and the file handler after it, and
-- whether the threads that wait for available files are notified.
pub record Reaction : Type 0 where
  pub sent : Option Bytes
  pub connection : Connection
  pub handler : FileHandler
  pub notified : Bool

abbrev pub closes : Connection → FileHandler → Outcome Reaction
closes s h =
    ok (record {
      sent = none;
      connection = record s { phase = ended };
      handler = h;
      notified = false;
    })

abbrev pub writes : Bytes → Connection → FileHandler → Outcome Reaction
writes m s h = ok (record { sent = some m; connection = s; handler = h; notified = false })

abbrev pub waits : Phase → Connection → FileHandler → Outcome Reaction
waits p s h =
    ok (record { sent = none; connection = record s { phase = p }; handler = h; notified = false })

module _ (J : JsonLib) (C : CryptoLib) where
  -- `initialize_communication`, with the random salt.
  unfoldable pub initialize_communication : Connection → FileHandler → Bytes → Outcome Reaction
  unfolding derive create_handshake_message get_public_key
  initialize_communication s h random =
      let salt = C.hex_encode random in
      let d = derive C s.crypto s.host_info.public_key salt in
      do
        m ← create_handshake_message J (get_public_key C d) salt
        writes m (record s { derived = some d; phase = greeting }) h

  -- Any answer that was decrypted lets the session go on.
  unfoldable pub greeted : Connection → FileHandler → Option Bool × CryptoHandler → Outcome Reaction
  unfolding create_file_list_message get_public_key
  greeted s h (none, d) = closes (record s { derived = some d }) h
  greeted s h (some accepted, d) = do
    m ← create_file_list_message J (get_public_key C d)
    writes m (record s { derived = some d; phase = asking }) h

  unfoldable pub handle_read_handshake : Connection → FileHandler → Bytes → Outcome Reaction
  unfolding greeted answer_from_message
  handle_read_handshake s h message = do
    d ← deref s.derived
    a ← answer_from_message J C message s.host_info.public_key d
    greeted s h a

  -- The end of the session, with what `add_available_files` came to.
  unfoldable pub offered : Connection → Outcome Bool × FileHandler → Outcome Reaction
  offered s (ok notified, h) = ok (record {
    sent = none;
    connection = record s { phase = ended };
    handler = h;
    notified = notified;
  })
  offered s (throws e, h) = throws e
  offered s (undefined, h) = undefined

  unfoldable pub received :
      Connection
      → Entries
      → FileHandler
      → Option (List AvailableFile) × CryptoHandler
      → Outcome Reaction
  unfolding add_available_files offered
  received s root h (none, d) = closes (record s { derived = some d }) h
  received s root h (some available, d) =
      offered (record s { derived = some d }) (add_available_files root h available)

  unfoldable pub handle_read_encrypted_response :
      Connection → Entries → FileHandler → Bytes → Outcome Reaction
  unfolding received files_from_message
  handle_read_encrypted_response s root h message = do
    d ← deref s.derived
    r ← files_from_message J C message s.host_info.public_key d s.address true
    received s root h r

  -- What a callback does in each phase; one that cannot come changes nothing.
  unfoldable pub react : Phase → Connection → Entries → FileHandler → Event → Outcome Reaction
  unfolding initialize_communication handle_read_handshake handle_read_encrypted_response
  react connecting s root h (connected random) = initialize_communication s h random
  react greeting s root h written = waits awaits_handshake s h
  react awaits_handshake s root h (arrived m) = handle_read_handshake s h m
  react asking s root h written = waits awaits_list s h
  react awaits_list s root h (arrived m) = handle_read_encrypted_response s root h m
  react p s root h failed = closes s h
  react p s root h e = ok (record { sent = none; connection = s; handler = h; notified = false })

  unfoldable pub step : Connection → Entries → FileHandler → Event → Outcome Reaction
  unfolding react
  step s root h e = react s.phase s root h e
