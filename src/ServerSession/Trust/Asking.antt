-- ===== src/ServerSession/Trust/Asking.antt =====
-- The header of src/server_session.cpp: whom it answers and whose request it confirms.
use mfsync.Common.{◌≡◌, refl, true, Option, none, some, Bytes, Bool-cases, inl, inr, codes}
use mfsync.Common.{Post, Post-bind, Post-after, ◌>>=◌}
use mfsync.Info.{RequestedFile}
use mfsync.Json.{JsonLib}
use mfsync.Crypto.{CryptoLib, CryptoHandler, is_allowed}
use mfsync.Crypto.Trust.{Keeps, OnlyAllowed, OnlyAllowed-Keeps}
use mfsync.FileHandler.{FileHandler, is_stored}
use mfsync.Protocol.{
  MessageType, no_type, denied, handshake, file_list, file, get_message_type, get_json_from_message,
  text_at,
}
use mfsync.Protocol.Converter.{answer_to_message, request_from_message, files_to_message}
use mfsync.Protocol.Trust.{
  Reads, answer_to_message-Keeps, request_from_message-Reads, files_to_message-Keeps,
}
use mfsync.ServerSession.{confirming, replying, Connection, deref, writes}
use mfsync.ServerSession.{
  send_confirmation, reply_with_error, list_files, confirm, answer_request, handle_read_header,
}
use mfsync.ServerSession.Trust.Greeting.{AllAllowed, IsTrusted, Fine, Good, closes-Good}

module _ (crypto : CryptoHandler) where
  module _ (J : JsonLib) (C : CryptoLib) where
    pub deref_lem :
        (d : Option CryptoHandler) → AllAllowed crypto d → Post (OnlyAllowed crypto) (deref d)
    deref_lem none o = tt
    deref_lem (some d) o = o

    list_for-Good :
        (s : Connection) (h : FileHandler) (key : Bytes)
        → IsTrusted crypto s
        → Good crypto (
            deref s.derived >>= (λ d.
              files_to_message J C h.stored_files s.port key d
              >>= (λ m. writes m.0 (record s { derived = some m.1; phase = replying }) h)))
    list_for-Good s h key i =
        Post-bind (OnlyAllowed crypto) (Fine crypto) (deref s.derived)
          (λ d.
            files_to_message J C h.stored_files s.port key d
            >>= (λ m. writes m.0 (record s { derived = some m.1; phase = replying }) h))
          (deref_lem s.derived i.derived_allowed)
          (λ d o.
            Post-bind (λ m. Keeps d m.1) (Fine crypto)
              (files_to_message J C h.stored_files s.port key d)
              (λ m. writes m.0 (record s { derived = some m.1; phase = replying }) h)
              (files_to_message-Keeps J C d h.stored_files s.port key)
              (λ m keeps. record {
                kept = i.kept;
                derived_allowed = OnlyAllowed-Keeps crypto d m.1 o keeps;
                checked = tt;
              }))

    list_files-Good :
        (s : Connection) (h : FileHandler) (j : Option J.Json)
        → IsTrusted crypto s
        → Good crypto (list_files J C s h j)
    unfolding list_files
    list_files-Good s h none i = closes-Good crypto s h i
    list_files-Good s h (some j) i =
        Post-after (Fine crypto) (text_at J j (codes "public_key"))
          (λ key. deref s.derived >>= (λ d.
            files_to_message J C h.stored_files s.port key d
            >>= (λ m. writes m.0 (record s { derived = some m.1; phase = replying }) h)))
          (λ key. list_for-Good s h key i)

    send_confirmation-Good :
        (s : Connection) (d : CryptoHandler) (h : FileHandler)
        → s.crypto ≡ crypto
        → OnlyAllowed crypto d
        → is_allowed crypto s.public_key ≡ true
        → Good crypto (send_confirmation J C s d h)
    unfolding send_confirmation
    send_confirmation-Good s d h kept o allowed =
        Post-bind (λ m. Keeps d m.1) (Fine crypto) (answer_to_message J C true s.public_key d)
          (λ m. writes m.0 (record s { derived = some m.1; phase = confirming }) h)
          (answer_to_message-Keeps J C d true s.public_key)
          (λ m keeps. record {
            kept = kept;
            derived_allowed = OnlyAllowed-Keeps crypto d m.1 o keeps;
            checked = allowed;
          })

    confirm-Good :
        (s : Connection) (h : FileHandler) (d : CryptoHandler)
        (r : Option (RequestedFile × Bytes) × CryptoHandler)
        → IsTrusted crypto s
        → OnlyAllowed crypto d
        → Reads d (λ q. q.1) r
        → Good crypto (confirm J C s h r)
    unfolding confirm reply_with_error
    confirm-Good s h d (none, d') i o q = record {
      kept = i.kept;
      derived_allowed = OnlyAllowed-Keeps crypto d d' o q.0;
      checked = tt;
    }
    confirm-Good s h d (some (r, key), d') i o q =
        let o' = OnlyAllowed-Keeps crypto d d' o q.0 in
        elim (Bool-cases (is_stored h r.file_info)) [
          | inl stored ↦
              rw (stored, confirm)
                (send_confirmation-Good
                  (record s { derived = some d'; public_key = key; requested = r }) d' h i.kept o'
                  (o key (q.1 (r, key) refl)))
          | inr missing ↦
              rw (missing, confirm) (record { kept = i.kept; derived_allowed = o'; checked = tt })
        ]

    answer_request-Good :
        (s : Connection) (h : FileHandler) (m : Bytes) (type : MessageType)
        → IsTrusted crypto s
        → Good crypto (answer_request J C s h m type)
    unfolding answer_request
    answer_request-Good s h m file_list i =
        Post-after (Fine crypto) (get_json_from_message J m) (list_files J C s h)
          (λ j. list_files-Good s h j i)
    answer_request-Good s h m file i =
        Post-bind (OnlyAllowed crypto) (Fine crypto) (deref s.derived)
          (λ d. request_from_message J C m d >>= confirm J C s h)
          (deref_lem s.derived i.derived_allowed)
          (λ d o.
            Post-bind (Reads d (λ q. q.1)) (Fine crypto) (request_from_message J C m d)
              (confirm J C s h) (request_from_message-Reads J C d m)
              (λ r q. confirm-Good s h d r i o q))
    answer_request-Good s h m no_type i = closes-Good crypto s h i
    answer_request-Good s h m denied i = closes-Good crypto s h i
    answer_request-Good s h m handshake i = closes-Good crypto s h i

    pub header-Good :
        (s : Connection) (h : FileHandler) (m : Bytes)
        → IsTrusted crypto s
        → Good crypto (handle_read_header J C s h m)
    unfolding handle_read_header
    header-Good s h m i =
        Post-after (Fine crypto) (get_message_type J m) (answer_request J C s h m)
          (λ t. answer_request-Good s h m t i)
