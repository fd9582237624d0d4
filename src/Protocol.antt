-- ===== src/Protocol.antt =====
-- src/protocol.cpp and include/mfsync/protocol.h: how messages are framed, built and read. Messages
-- that are encrypted stand in `Converter`.
pub mod Framing
pub mod Fields
pub mod Kinds
pub mod Records
pub mod Listing
pub mod Batches
pub mod Converter
pub mod Answers
pub mod Trust
pub mod Requests
pub mod Ends
pub mod Lists
use mfsync.Common.{
  ℕ, suc, ◌+◌, ◌-◌, ◌≡◌, Bool, true, false, Option, none, some, List, [], ◌∷◌, ◌++◌,
}
use mfsync.Common.{
  Bytes, codes, Outcome, ok, undefined, ◌>>=◌, catch_any, catch_parse, find, str_eq,
}
use mfsync.Common.{if◌then◌else◌, length, take, drop, ltb}
use mfsync.Info.{FileInformation, AvailableFile, RequestedFile, HostInformation}
use mfsync.Info.{available_file_named}
use mfsync.NameSet
use mfsync.Json.{JsonLib}

abbrev pub max_message_size : ℕ
max_message_size = 1024

-- `CHUNKSIZE`
abbrev pub chunk_size : ℕ
chunk_size = 1024

abbrev pub mfsync_header_begin : Bytes
mfsync_header_begin = codes "<MFSYNC_HEADER_BEGIN>"

abbrev pub mfsync_header_end : Bytes
mfsync_header_end = codes "<MFSYNC_HEADER_END>"

abbrev pub mfsync_header_size : ℕ
mfsync_header_size = length mfsync_header_begin + length mfsync_header_end

abbrev pub version : Bytes
version = codes "0.2.0"

pub data MessageType : Type 0 where
  no_type denied handshake file_list file : MessageType

unfoldable pub wrap_with_header : Bytes → Bytes
wrap_with_header msg = mfsync_header_begin ++ (msg ++ mfsync_header_end)

-- The view that each reader cuts out of a message. Where the end mark is missing, `find` gives
-- `npos` and `remove_suffix` is asked to remove more than there is.
unfoldable pub payload : Bytes → Outcome Bytes
payload msg =
    let view = drop (length mfsync_header_begin) msg in
    elim (find mfsync_header_end view) [ none ↦ undefined | some n ↦ ok (take n view) ]

unfoldable pub create_error_message : Bytes → Bytes
create_error_message reason = mfsync_header_begin ++ (reason ++ mfsync_header_begin)

module _ (J : JsonLib) where
  open J use {Json}

  -- `j.at(name).get<std::string>()`
  unfoldable pub text_at : Json → Bytes → Outcome Bytes
  text_at j name = do t ← J.at j name; J.get_text t

  unfoldable pub get_json_from_message : Bytes → Outcome (Option Json)
  unfolding payload
  get_json_from_message msg =
      if ltb (length msg) mfsync_header_size
      then ok none
      else do view ← payload msg; catch_any (do j ← J.parse view; ok (some j)) none

  unfoldable pub type_of_text : Bytes → MessageType
  type_of_text t =
      if str_eq t (codes "handshake")
      then handshake
      else if str_eq t (codes "file_list")
      then file_list
      else if str_eq t (codes "denied")
      then denied
      else if str_eq t (codes "file")
      then file
      else no_type

  type_of_json : Json → Outcome MessageType
  unfolding type_of_text
  type_of_json j =
      if J.contains j (codes "type")
      then (do
        type ← J.at j (codes "type")
        type_string ← J.get_text type
        ok (type_of_text type_string))
      else ok no_type

  unfoldable pub get_message_type : Bytes → Outcome MessageType
  unfolding payload type_of_json
  get_message_type msg =
      if ltb (length msg) mfsync_header_size
      then ok no_type
      else do view ← payload msg; catch_any (do j ← J.parse view; type_of_json j) no_type

  -- The JSON values of the messages.
  abbrev pub file_message_json : Bytes → Bytes → Json
  file_message_json public_key msg = J.object (
      (codes "type", J.text (codes "file"))
      ∷ (codes "version", J.text version)
      ∷ (codes "public_key", J.text public_key)
      ∷ (codes "message", J.text msg)
      ∷ [])

  abbrev pub handshake_json : Bytes → Bytes → Json
  handshake_json public_key salt = J.object (
      (codes "type", J.text (codes "handshake"))
      ∷ (codes "version", J.text version)
      ∷ (codes "public_key", J.text public_key)
      ∷ (codes "salt", J.text salt)
      ∷ [])

  abbrev pub file_list_json : Bytes → Json
  file_list_json public_key = J.object (
      (codes "type", J.text (codes "file_list"))
      ∷ (codes "version", J.text version)
      ∷ (codes "public_key", J.text public_key)
      ∷ [])

  abbrev pub denied_json : Json
  denied_json = J.object ((codes "type", J.text (codes "denied")) ∷ [])

  abbrev pub announcement_json : Bytes → ℕ → Json
  announcement_json pub_key port = J.object (
      (codes "public_key", J.text pub_key)
      ∷ (codes "port", J.number port)
      ∷ (codes "version", J.text version)
      ∷ [])

  -- `wrap_with_header(j.dump())`
  unfoldable pub dump_wrapped : Json → Outcome Bytes
  unfolding wrap_with_header
  dump_wrapped j = do t ← J.dump j; ok (wrap_with_header t)

  unfoldable pub create_file_message : Bytes → Bytes → Outcome Bytes
  unfolding dump_wrapped
  create_file_message public_key msg = dump_wrapped (file_message_json public_key msg)

  unfoldable pub create_handshake_message : Bytes → Bytes → Outcome Bytes
  unfolding dump_wrapped
  create_handshake_message public_key salt = dump_wrapped (handshake_json public_key salt)

  unfoldable pub create_file_list_message : Bytes → Outcome Bytes
  unfolding dump_wrapped
  create_file_list_message public_key = dump_wrapped (file_list_json public_key)

  unfoldable pub create_denied_message : Outcome Bytes
  unfolding dump_wrapped
  create_denied_message = dump_wrapped denied_json

  unfoldable pub create_host_announcement_message : Bytes → ℕ → Outcome Bytes
  unfolding dump_wrapped
  create_host_announcement_message pub_key port = dump_wrapped (announcement_json pub_key port)
