-- ===== src/ListSession/Delivery.antt =====
-- The file list on its way from src/server_session.cpp to the list session of src/client_session.cpp.
use mfsync.Common.{
  ℕ, ◌^◌, ◌<◌, ◌≡◌, refl, ap, true, none, some, [], ◌++◌, Bytes, codes, str_eq, ok, map,
}
use mfsync.Info.{file_information_named}
use mfsync.Json.{JsonLib, IsLawful}
use mfsync.Disk.{Entries}
use mfsync.NameSet.Order.{IsSorted}
use mfsync.Crypto
use mfsync.Crypto.{CryptoLib, CryptoHandler, is_allowed, seal_text, encrypt, decrypt, set_count}
use mfsync.Crypto.Exchange.{encrypt-entry}
use mfsync.FileHandler.{FileHandler}
use mfsync.FileHandler.Sharing.{add_available_files}
use mfsync.Protocol.{file_list_json, wrap_with_header, text_at, type_of_text}
use mfsync.Protocol.Framing.{get_json-wrap, get_json-tail, get_message_type-tail}
use mfsync.Protocol.Kinds.{get_message_type-wrap}
use mfsync.Protocol.Listing.{SizesFit, available_of}
use mfsync.Protocol.Lists.{files-roundtrip}
use mfsync.Protocol.Fields.{create_message_from_file_info}
use mfsync.Protocol.Converter.{wrapper_json}
use mfsync.Protocol.Ends.{Holds, Framed}
use mfsync.ServerSession
use mfsync.ServerSession.{handle_read_header, answer_request, list_files}
use mfsync.ListSession.{Connection, handle_read_encrypted_response, offered, received}

module _ (J : JsonLib) (L : IsLawful J) (C : CryptoLib) (IsPair : Bytes → Bytes → Type 0)
    (K : Crypto.IsLawful C IsPair) where
  -- A server connection that holds a secret for an allowed key answers the request for the list by a
  -- message from which a list session that holds the same secret for the server, whatever its
  -- counter, offers to its file handler exactly the stored files of the server, in their order,
  -- with the server's port and with the address and key that the session knows. Any bytes may
  -- stand behind the request in the server's buffer. The numbers must fit their C++ types, the files
  -- must be sorted by name, and the JSON texts must be dumped, the framed ones without an end mark.
  pub list-delivered :
      (s : ServerSession.Connection) (c : Connection) (e d : CryptoHandler) (h h' : FileHandler)
      (root : Entries) (ka secret t m₀ m tail : Bytes) (n n' : ℕ)
      → let kb = c.host_info.public_key in
        s.derived ≡ some e
        → c.derived ≡ some d
        → is_allowed e ka ≡ true
        → Holds e ka secret n
        → Holds d kb secret n'
        → n < 2 ^ 64
        → s.port < 2 ^ 16
        → SizesFit h.stored_files
        → IsSorted h.stored_files
        → Framed J (file_list_json J ka) m₀
        → create_message_from_file_info J h.stored_files s.port ≡ ok t
        → Framed J (wrapper_json J (seal_text C secret t n [])) m
        → (r : ServerSession.Reaction) × (handle_read_header J C s h (wrap_with_header m₀ ++ tail)
            ≡ ok r)
          × (r.sent ≡ some (wrap_with_header m))
          × (d' : CryptoHandler) × (handle_read_encrypted_response J C c root h'
                (wrap_with_header m)
              ≡ offered J C
                  (record c { derived = some d' })
                  (add_available_files root h'
                    (map (available_of c.address s.port kb) h.stored_files)))
  unfolding handle_read_header answer_request list_files text_at type_of_text str_eq
      handle_read_encrypted_response received
  list-delivered s c e d h h' root ka secret t m₀ m tail n n' hs hc allowed he hd small port sizes
        sorted asked dt sealed =
      let kb = c.host_info.public_key in
      let w = seal_text C secret t n [] in
      let trip =
        files-roundtrip J L C IsPair K e d kb ka c.address t m secret n n' s.port h.stored_files w
          allowed he hd small port sizes sorted dt
          (ap (λ q. q.0) (encrypt-entry C K e ka t [] _ he)) sealed.0 sealed.1 in
      let replied : ServerSession.Reaction = record {
        sent = some (wrap_with_header m);
        connection = record s {
          derived = some (encrypt C e ka t []).1;
          phase = ServerSession.replying;
        };
        handler = h;
        static_iv = none;
      } in
      (
        replied,
        rw
            (
              get_message_type-tail J L m₀ tail asked.1,
              get_message_type-wrap J L (codes "file_list") _ m₀ asked.0 asked.1,
            )
            (rw
              (
                get_json-tail J L m₀ tail asked.1,
                get_json-wrap J L (file_list_json J ka) m₀ asked.0 asked.1,
              )
              (rw (L.at-object _ (codes "public_key"), L.get_text-text ka) (rw (hs, trip.0) refl))),
        refl,
        (decrypt C (set_count d kb n) kb w).1,
        rw (hc, trip.1) refl,
      )
