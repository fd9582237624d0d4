-- ===== src/Protocol/Converter.antt =====
-- The encrypted messages: `decompose_message` and `get_decrypted_message` of src/protocol.cpp, the
-- `converter` classes of include/mfsync/protocol.h, and `to_json` and `from_json` of an
-- `encryption_wrapper` (include/mfsync/crypto.h). Each call gives the crypto handler after it.
use mfsync.Common.{ℕ, Bool, true, false, not, Option, none, some, List, [], ◌∷◌, Bytes, codes}
use mfsync.Common.{Outcome, ok, ◌>>=◌, catch_parse, value, if◌then◌else◌}
use mfsync.Info.{FileInformation, AvailableFile, RequestedFile}
use mfsync.Json.{JsonLib}
use mfsync.Crypto.{
  CryptoLib, CryptoHandler, EncryptionWrapper, encrypt, decrypt, get_public_key, trust_key,
  set_count,
}
use mfsync.Protocol.{
  MessageType, denied, handshake, file_list, file, no_type, get_json_from_message, get_message_type,
  create_denied_message, create_file_message, dump_wrapped,
}
use mfsync.Protocol.Fields.{
  create_message_from_requested_file, requested_file_of_json, create_message_from_file_info,
  get_available_files_from_message, get_count_from_message,
}

module _ (J : JsonLib) where
  open J use {Json}

  unfoldable pub wrapper_json : EncryptionWrapper → Json
  wrapper_json w = J.object (
      (codes "cipher_text", J.blob w.cipher_text)
      ∷ (codes "mac", J.blob w.mac)
      ∷ (codes "count", J.number w.count)
      ∷ (codes "aad", J.text w.aad)
      ∷ [])

  unfoldable pub wrapper_of_json : Json → Outcome EncryptionWrapper
  wrapper_of_json j = do
    c ← J.at j (codes "cipher_text")
    cipher_text ← J.get_blob c
    m ← J.at j (codes "mac")
    mac ← J.get_array 16 m
    a ← J.at j (codes "aad")
    aad ← J.get_text a
    n ← J.at j (codes "count")
    count ← J.get_number 64 n
    ok (record { cipher_text = cipher_text; mac = mac; count = count; aad = aad })

  -- The sender's key and the wrapper; `none` is a result whose flag is false.
  unfoldable pub decompose_json : Option Json → Outcome (Option (Bytes × EncryptionWrapper))
  unfolding wrapper_of_json
  decompose_json none = ok none
  decompose_json (some j) =
      catch_parse
        (do
          m ← J.at j (codes "message")
          wrapper_str ← J.get_text m
          w ← J.parse wrapper_str
          wrapper ← wrapper_of_json w
          k ← J.at j (codes "public_key")
          public_key ← J.get_text k
          ok (some (public_key, wrapper)))
        none

  unfoldable pub decompose_message : Bytes → Outcome (Option (Bytes × EncryptionWrapper))
  unfolding decompose_json get_json_from_message
  decompose_message message = do j ← get_json_from_message J message; decompose_json j

  -- `{"type": ...}` of an answer.
  abbrev pub answer_json : Bool → Json
  answer_json accepted =
      J.object ((codes "type", J.text (if accepted then codes "accepted" else codes "denied")) ∷ [])

  unfoldable pub read_answer : Bytes → Outcome (Option Bool)
  read_answer t = do
    j ← J.parse t
    type ← J.at j (codes "type")
    ok (some (J.is_text type (codes "accepted")))

  abbrev pub is_denied : MessageType → Bool
  is_denied denied = true
  is_denied no_type = false
  is_denied handshake = false
  is_denied file_list = false
  is_denied file = false

  module _ (C : CryptoLib) where
    unfoldable pub decrypt_decomposed :
        CryptoHandler → Option (Bytes × EncryptionWrapper) → Option Bytes × CryptoHandler
    unfolding decrypt
    decrypt_decomposed h none = (none, h)
    decrypt_decomposed h (some (public_key, wrapper)) = decrypt C h public_key wrapper

    -- `get_decrypted_message(message, handler)`
    unfoldable pub get_decrypted_message :
        Bytes → CryptoHandler → Outcome (Option Bytes × CryptoHandler)
    unfolding decompose_message decrypt_decomposed
    get_decrypted_message message h = do d ← decompose_message message; ok (decrypt_decomposed h d)

    unfoldable pub decrypt_json :
        Bytes → CryptoHandler → Option Json → Outcome (Option Bytes × CryptoHandler)
    unfolding wrapper_of_json decrypt
    decrypt_json public_key h none = ok (none, h)
    decrypt_json public_key h (some j) = do
      wrapper ← wrapper_of_json j
      ok (decrypt C h public_key wrapper)

    -- `get_decrypted_message(message, public_key, handler)`
    unfoldable pub get_decrypted_message_from :
        Bytes → Bytes → CryptoHandler → Outcome (Option Bytes × CryptoHandler)
    unfolding decrypt_json get_json_from_message
    get_decrypted_message_from message public_key h =
        catch_parse (do j ← get_json_from_message J message; decrypt_json public_key h j) (none, h)

    -- An encrypted text as a message, or the denial where the key is not trusted.
    unfoldable pub wrap_encrypted :
        Option EncryptionWrapper × CryptoHandler → Outcome (Bytes × CryptoHandler)
    unfolding dump_wrapped wrapper_json create_denied_message
    wrap_encrypted (none, h) = do m ← create_denied_message J; ok (m, h)
    wrap_encrypted (some w, h) = do m ← dump_wrapped J (wrapper_json w); ok (m, h)

    -- `converter<bool>`
    unfoldable pub answer_to_message :
        Bool → Bytes → CryptoHandler → Outcome (Bytes × CryptoHandler)
    unfolding wrap_encrypted encrypt
    answer_to_message accepted pub_key h = do
      t ← J.dump (answer_json accepted)
      wrap_encrypted (encrypt C h pub_key t [])

    unfoldable pub read_decrypted_answer :
        Option Bytes × CryptoHandler → Outcome (Option Bool × CryptoHandler)
    unfolding read_answer
    read_decrypted_answer (none, h) = ok (none, h)
    read_decrypted_answer (some t, h) = do a ← read_answer t; ok (a, h)

    unfoldable pub answer_from_message :
        Bytes → Bytes → CryptoHandler → Outcome (Option Bool × CryptoHandler)
    unfolding get_decrypted_message_from read_decrypted_answer get_message_type
    answer_from_message buf pub_key h = do
      type ← get_message_type J buf
      elim (is_denied type) [
        | true ↦ ok (none, h)
        | false ↦ do d ← get_decrypted_message_from buf pub_key h; read_decrypted_answer d
      ]

    -- `converter<requested_file>`
    unfoldable pub wrap_request :
        Option EncryptionWrapper × CryptoHandler → Outcome (Bytes × CryptoHandler)
    unfolding create_file_message get_public_key wrapper_json create_denied_message
    wrap_request (none, h) = do m ← create_denied_message J; ok (m, h)
    wrap_request (some w, h) = do
      t ← J.dump (wrapper_json w)
      m ← create_file_message J (get_public_key C h) t
      ok (m, h)

    unfoldable pub request_to_message :
        RequestedFile → Bytes → CryptoHandler → Outcome (Bytes × CryptoHandler)
    unfolding wrap_request encrypt create_message_from_requested_file
    request_to_message requested pub_key h = do
      tmp_msg ← create_message_from_requested_file J requested
      wrap_request (encrypt C h pub_key tmp_msg [])

    -- The sender's key of a message that was decomposed; an empty one otherwise.
    abbrev pub sender : Option (Bytes × EncryptionWrapper) → Bytes
    sender none = []
    sender (some (k, w)) = k

    unfoldable pub read_decrypted_request :
        Bytes
        → Option Bytes × CryptoHandler
        → Outcome (Option (RequestedFile × Bytes) × CryptoHandler)
    unfolding get_json_from_message requested_file_of_json
    read_decrypted_request pub_key (none, h) = ok (none, h)
    read_decrypted_request pub_key (some file_str, h) = do
      file_j ← get_json_from_message J file_str
      j ← value file_j
      r ← requested_file_of_json J j
      ok (some (r, pub_key), h)

    unfoldable pub request_from_message :
        Bytes → CryptoHandler → Outcome (Option (RequestedFile × Bytes) × CryptoHandler)
    unfolding read_decrypted_request get_decrypted_message
    request_from_message buf h = do
      d ← decompose_message buf
      file_str ← get_decrypted_message buf h
      read_decrypted_request (sender d) file_str

    -- `converter<file_handler::available_files>`; the stored files are the file handler's.
    unfoldable pub files_to_message :
        List FileInformation → ℕ → Bytes → CryptoHandler → Outcome (Bytes × CryptoHandler)
    unfolding trust_key wrap_encrypted encrypt create_message_from_file_info create_denied_message
    files_to_message stored_files port pub_key h =
        let (trusted, h') = trust_key C h pub_key none in
        if not trusted then (do m ← create_denied_message J; ok (m, h')) else (do
          msg ← create_message_from_file_info J stored_files port
          wrap_encrypted (encrypt C h' pub_key msg []))

    abbrev pub with_count : CryptoHandler → Bytes → Option ℕ → CryptoHandler
    with_count h pub_key none = h
    with_count h pub_key (some count) = set_count h pub_key count

    unfoldable pub count_from : Bool → Bytes → Bytes → CryptoHandler → Outcome CryptoHandler
    unfolding get_count_from_message
    count_from false buf pub_key h = ok h
    count_from true buf pub_key h = do
      count ← get_count_from_message J buf
      ok (with_count h pub_key count)

    unfoldable pub read_decrypted_files :
        Bytes
        → Bytes
        → Option Bytes × CryptoHandler
        → Outcome (Option (List AvailableFile) × CryptoHandler)
    unfolding get_available_files_from_message
    read_decrypted_files pub_key address (none, h) = ok (none, h)
    read_decrypted_files pub_key address (some t, h) = do
      files ← get_available_files_from_message J t address pub_key
      ok (files, h)

    unfoldable pub files_from_message :
        Bytes
        → Bytes
        → CryptoHandler
        → Bytes
        → Bool
        → Outcome (Option (List AvailableFile) × CryptoHandler)
    unfolding count_from read_decrypted_files get_decrypted_message_from get_message_type
    files_from_message buf pub_key h address update_count = do
      type ← get_message_type J buf
      elim (is_denied type) [
        | true ↦ ok (none, h)
        | false ↦ do
          h' ← count_from update_count buf pub_key h
          d ← get_decrypted_message_from buf pub_key h'
          read_decrypted_files pub_key address d
      ]
